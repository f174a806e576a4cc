-- ===== src/PostingList/Reading.antt =====
-- GetHits of icing/index/main/posting-list-used.cc reads exactly the hits that the list holds.
use external_icing.Base.{
  ℕ, zero, suc, ◌+◌, ◌-◌, ◌%◌, ◌^◌, ◌≤◌, ◌<◌, ◌≡◌, refl, sym, ap, ◌∙◌, true, false, ◌&&◌, List, [],
  ◌∷◌, ◌++◌, some, arith, ltb, ◌==◌, length, length-append, lt→ne, drop, get_or, Bool-cases, inl,
  inr,
}
use external_icing.Hit.{Hit, invalid_value, has_term_frequency}
use external_icing.PostingList.VarInt.{encode, encode_loop, decode}
use external_icing.PostingList.VarInt.RoundTrip.{decode-encode}
use external_icing.PostingList.Used.{PostingListUsed, hit_of}
use external_icing.PostingList.Read.{
  Cursor, decode_at, next_value, consume_term_frequency_if_present, take_compressed,
}
use external_icing.PostingList.Layout.{
  frequency_bytes, deltas, IsStorable, Rising, drop-append, drop-drop,
}

pub length-encode : (n : ℕ) → 1 ≤ length (encode n)
unfolding encode encode_loop
length-encode n = ground arith

get_or-drop : (offset : ℕ) (xs : List ℕ) → get_or xs offset 0 ≡ get_or (drop offset xs) 0 0
get_or-drop zero xs = refl
get_or-drop (suc offset) [] = refl
get_or-drop (suc offset) (x ∷ xs) = get_or-drop offset xs

has_term_frequency-hit_of :
    (hit : Hit) → has_term_frequency (hit_of hit.value) ≡ has_term_frequency hit
unfolding has_term_frequency
has_term_frequency-hit_of hit = refl

-- The term frequency of a hit is read back from behind its value.
pub consume_term_frequency_if_present_lem :
    (pl : PostingListUsed) (hit : Hit) (offset : ℕ) (rest : List ℕ)
    → IsStorable hit
    → drop offset pl.posting_list_buffer ≡ frequency_bytes hit ++ rest
    → offset + length (frequency_bytes hit) ≤ pl.size_in_bytes
    → consume_term_frequency_if_present pl (hit_of hit.value) offset
      ≡ some (hit, offset + length (frequency_bytes hit))
unfolding consume_term_frequency_if_present
consume_term_frequency_if_present_lem pl hit offset rest storable at fits =
    elim (Bool-cases (has_term_frequency hit)) [
      | inl has ↦
          let flag : has_term_frequency (hit_of hit.value) ≡ true =
            has_term_frequency-hit_of hit ∙ has in
          let bytes : frequency_bytes hit ≡ hit.term_frequency ∷ [] = rw has refl in
          let size : length (frequency_bytes hit) ≡ 1 = ap length bytes in
          let byte : get_or pl.posting_list_buffer offset 0 ≡ hit.term_frequency =
            get_or-drop offset pl.posting_list_buffer
            ∙ ap (λ (xs : List ℕ). get_or xs 0 0) at
            ∙ ap (λ (xs : List ℕ). get_or (xs ++ rest) 0 0) bytes in
          let room : ltb pl.size_in_bytes (offset + 1) ≡ false = ground (arith, size, fits) in
          rw (flag, room, size)
            λ i. some (record { value = hit.value; term_frequency = byte i }, offset + 1)
      | inr lacks ↦
          let flag : has_term_frequency (hit_of hit.value) ≡ false =
            has_term_frequency-hit_of hit ∙ lacks in
          let bytes : frequency_bytes hit ≡ [] = rw lacks refl in
          let size : length (frequency_bytes hit) ≡ 0 = ap length bytes in
          let sum : offset ≡ offset + length (frequency_bytes hit) = omega (arith, size) in
          let frequency = storable.frequency lacks in
          rw flag λ i. some (record { value = hit.value; term_frequency = sym frequency i }, sum i)
    ]

pub take_step :
    (fuel : ℕ) (pl : PostingListUsed) (c : Cursor) (v o behind : ℕ) (hit : Hit) (hits : List Hit)
    (end : Cursor)
    → next_value pl c ≡ (v, o)
    → consume_term_frequency_if_present pl (hit_of v) o ≡ some (hit, behind)
    → ltb 0 c.left && ltb c.offset pl.size_in_bytes ≡ true
    → take_compressed fuel pl (record { left = c.left - 1; offset = behind; val = v })
      ≡ some (hits, end)
    → take_compressed (suc fuel) pl c ≡ some (hit ∷ hits, end)
unfolding take_compressed
take_step fuel pl c v o behind hit hits end next consumed goes_on rest =
    let consumed_there =
      ap (λ (p : ℕ × ℕ). consume_term_frequency_if_present pl (hit_of p.0) p.1) next ∙ consumed in
    let rest_there =
      ap
        (λ (p : ℕ × ℕ).
          take_compressed fuel pl (record { left = c.left - 1; offset = behind; val = p.0 }))
        next
      ∙ rest in
    rw (goes_on, consumed_there, rest_there) refl

-- The next value, where the deltas of the hits left stand at the cursor.
next_value-deltas :
    (pl : PostingListUsed) (c : Cursor) (hit : Hit) (rest : List ℕ)
    → (c.val == invalid_value) ≡ false
    → drop c.offset pl.posting_list_buffer ≡ encode (hit.value - c.val) ++ rest
    → c.val < hit.value
    → hit.value < invalid_value
    → next_value pl c ≡ (hit.value, c.offset + length (encode (hit.value - c.val)))
unfolding next_value
next_value-deltas pl c hit rest started at rises valid =
    let delta = hit.value - c.val in
    let decoded : decode_at 64 pl c.offset ≡ (delta, length (encode delta)) =
      ap (decode 64) at ∙ decode-encode delta rest (omega arith) in
    let sum : (c.val + delta) % 2 ^ 32 ≡ hit.value = omega arith in rw (started, decoded, sum) refl

-- The second loop of a traversal that is not cut short reads all hits of the deltas.
pub take_compressed_lem :
    (fuel : ℕ) (pl : PostingListUsed) (c : Cursor) (hits : List Hit)
    → (c.val == invalid_value) ≡ false
    → drop c.offset pl.posting_list_buffer ≡ deltas c.val hits
    → pl.size_in_bytes ≡ c.offset + length (deltas c.val hits)
    → Rising c.val hits
    → length hits < fuel
    → length hits < c.left
    → (end : Cursor) × (take_compressed fuel pl c ≡ some (hits, end))
unfolding take_compressed
take_compressed_lem zero pl c hits started at size rising f l = absurd (omega arith)
take_compressed_lem (suc fuel) pl c [] started at size rising f l =
    let done : ltb 0 c.left && ltb c.offset pl.size_in_bytes ≡ false = ground (arith, size) in
    (c, rw done refl)
take_compressed_lem (suc fuel) pl c (hit ∷ hits) started at size rising f l =
    let code = encode (hit.value - c.val) in
    let tail = frequency_bytes hit ++ deltas hit.value hits in
    let o = c.offset + length code in
    let behind = o + length (frequency_bytes hit) in
    let lengths = length-append code tail in
    let lengths' = length-append (frequency_bytes hit) (deltas hit.value hits) in
    let after_code : drop o pl.posting_list_buffer ≡ tail =
      drop-drop c.offset (length code) pl.posting_list_buffer
      ∙ ap (drop (length code)) at
      ∙ drop-append code tail in
    let after_frequency : drop behind pl.posting_list_buffer ≡ deltas hit.value hits =
      drop-drop o (length (frequency_bytes hit)) pl.posting_list_buffer
      ∙ ap (drop (length (frequency_bytes hit))) after_code
      ∙ drop-append (frequency_bytes hit) (deltas hit.value hits) in
    let next = next_value-deltas pl c hit tail started at rising.0 (rising.1).valid in
    let consumed =
      consume_term_frequency_if_present_lem pl hit o (deltas hit.value hits) rising.1 after_code
        (omega (arith, size, lengths, lengths')) in
    let goes_on : ltb 0 c.left && ltb c.offset pl.size_in_bytes ≡ true =
      ground (arith, size, lengths, length-encode (hit.value - c.val), l) in
    let moved : Cursor = record { left = c.left - 1; offset = behind; val = hit.value } in
    let (end, rest) =
      take_compressed_lem fuel pl moved hits (lt→ne hit.value invalid_value (rising.1).valid)
        after_frequency (omega (arith, size, lengths, lengths')) rising.2 (omega (arith, f))
        (omega (arith, l)) in
    (end, take_step fuel pl c hit.value o behind hit hits end next consumed goes_on rest)
