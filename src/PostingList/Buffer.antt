-- ===== src/PostingList/Buffer.antt =====
-- The byte buffer of a posting list: `memcpy`, and words with the lowest byte first, as on the
-- processors that the library runs on. What a copy past the end of the buffer does is undefined in
-- the code; here the buffer grows, or the bytes read are zero.
use external_icing.Base.{ℕ, ◌+◌, ◌*◌, ◌/◌, ◌%◌, List, [], ◌∷◌, ◌++◌, take, drop, length, get_or}
use external_icing.Hit.{Hit}
use external_icing.PostingList.{value_size}

-- memcpy(buffer + offset, bytes, length of bytes)
abbrev pub write : List ℕ → ℕ → List ℕ → List ℕ
write buffer offset bytes = take offset buffer ++ (bytes ++ drop (offset + length bytes) buffer)

-- The bytes of a `uint32_t`.
abbrev pub word_bytes : ℕ → List ℕ
word_bytes v = v % 256 ∷ v / 256 % 256 ∷ v / 65536 % 256 ∷ v / 16777216 % 256 ∷ []

abbrev pub from_bytes : List ℕ → ℕ
from_bytes [] = 0
from_bytes (b ∷ bytes) = b + 256 * from_bytes bytes

abbrev pub read_word : List ℕ → ℕ → ℕ
read_word buffer offset = from_bytes (take value_size (drop offset buffer))

-- The packed bytes of a Hit.
abbrev pub hit_bytes : Hit → List ℕ
hit_bytes hit = word_bytes hit.value ++ (hit.term_frequency ∷ [])

abbrev pub read_hit : List ℕ → ℕ → Hit
read_hit buffer offset = record {
  value = read_word buffer offset;
  term_frequency = get_or buffer (offset + value_size) 0;
}
