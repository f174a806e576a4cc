-- ===== src/PostingList/VarInt.antt =====
-- VarInt of icing/legacy/index/icing-bit-util.h: numbers in groups of seven bits, the lowest first.
pub mod RoundTrip
use external_icing.Base.{
  ℕ, zero, suc, ◌+◌, ◌*◌, ◌/◌, ◌%◌, ◌^◌, bit_or, List, [], ◌∷◌, leb, ◌==◌, if◌then◌else◌,
}

-- VarInt::Encode of a `uint64_t`, which has at most ten groups.
unfoldable pub encode_loop : ℕ → ℕ → List ℕ
encode_loop zero n = n % 128 ∷ []
encode_loop (suc fuel) n =
    let rest = encode_loop fuel (n / 128) in
    if n / 128 == 0 then (n % 128) ∷ [] else ((128 + n % 128) ∷ rest)

unfoldable pub encode : ℕ → List ℕ
unfolding encode_loop
encode n = encode_loop 9 n

-- VarInt::Decode into a type of `width` bits, with the bits decoded so far and the bytes read so
-- far. The bytes behind the buffer count as zero.
unfoldable pub decode_loop : ℕ → ℕ → ℕ → ℕ → List ℕ → ℕ × ℕ
decode_loop width offset n len [] = (n, suc len)
decode_loop width offset n len (b ∷ buf) =
    let n' = bit_or (b % 128 * 2 ^ offset % 2 ^ width) n in
    let more = decode_loop width (offset + 7) n' (suc len) buf in
    if leb 128 b then more else (n', suc len)

-- VarInt::Decode: the number and its length.
unfoldable pub decode : ℕ → List ℕ → ℕ × ℕ
unfolding decode_loop
decode width buf = decode_loop width 0 0 0 buf
