-- ===== src/PostingList/Contents.antt =====
-- The states of icing/index/main/posting-list-used.cc as they are seen from the special hits, and
-- GetHits in each of them.
use external_icing.Base.{
  ℕ, zero, suc, ◌+◌, ◌-◌, ◌^◌, ◌≤◌, ◌<◌, ◌≡◌, ap, ◌∙◌, true, false, not, List, [], ◌∷◌, ◌++◌, some,
  arith, ltb, ◌==◌, length, length-append, drop, replicate,
}
use external_icing.Hit.{Hit, invalid_value}
use external_icing.PostingList.{ok}
use external_icing.PostingList.Buffer.{hit_bytes}
use external_icing.PostingList.VarInt.{encode, encode_loop, decode}
use external_icing.PostingList.VarInt.RoundTrip.{decode-encode_within}
use external_icing.PostingList.Used.{PostingListUsed, special_hit, get_start_byte_offset}
use external_icing.PostingList.Read.{
  Cursor, decode_at, get_pad_end_loop, take_special, skip_pad, take_compressed, get_hits,
  get_hits_internal,
}
use external_icing.PostingList.Layout.{
  frequency_bytes, deltas, Rising, specials, read_hit-first, read_hit-second, drop-drop,
}
use external_icing.PostingList.Reading.{length-encode}

module _ (pl : PostingListUsed) (first second : Hit) (tail : List ℕ)
    (buffer : pl.posting_list_buffer ≡ specials first second tail)
    (first_fits : first.value < 2 ^ 32) (second_fits : second.value < 2 ^ 32) where
  pub special_hit-first : special_hit pl 0 ≡ first
  unfolding special_hit
  special_hit-first = rw buffer (read_hit-first first (hit_bytes second ++ tail) first_fits)

  pub special_hit-second : special_hit pl 1 ≡ second
  unfolding special_hit
  special_hit-second = rw buffer (read_hit-second first second tail second_fits)

  pub drop-tail : drop 10 pl.posting_list_buffer ≡ tail
  drop-tail = ap (drop 10) buffer

zero_byte : (xs : List ℕ) → decode 32 (0 ∷ xs) ≡ (0, 1)
unfolding encode encode_loop
zero_byte xs = decode-encode_within 32 0 xs (omega arith) (omega arith)

-- GetPadEnd finds the end of the zeros.
pub get_pad_end_loop_lem :
    (fuel : ℕ) (pl : PostingListUsed) (offset pad v : ℕ) (hits : List Hit)
    → drop offset pl.posting_list_buffer ≡ replicate pad 0 ++ deltas v hits
    → pl.size_in_bytes ≡ offset + pad + length (deltas v hits)
    → Rising v hits
    → pad < fuel
    → get_pad_end_loop fuel pl offset ≡ offset + pad
unfolding get_pad_end_loop
get_pad_end_loop_lem zero pl offset pad v hits at size rising f = absurd (omega arith)
get_pad_end_loop_lem (suc fuel) pl offset zero v [] at size rising f =
    let done : not (ltb offset pl.size_in_bytes) ≡ true = ground (arith, size) in
    rw done (omega arith)
get_pad_end_loop_lem (suc fuel) pl offset zero v (hit ∷ hits) at size rising f =
    let tail = frequency_bytes hit ++ deltas hit.value hits in
    let delta = hit.value - v in
    let valid = (rising.1).valid in
    let decoded : decode_at 32 pl offset ≡ (delta, length (encode delta)) =
      ap (decode 32) at
      ∙ decode-encode_within 32 delta tail (omega (arith, valid)) (omega (arith, valid)) in
    let inside : not (ltb offset pl.size_in_bytes) ≡ false =
      ground (arith, size, length-append (encode delta) tail, length-encode delta) in
    let found : (delta == 0) ≡ false = ground (arith, rising.0) in
    rw (inside, decoded, found) (omega arith)
get_pad_end_loop_lem (suc fuel) pl offset (suc pad) v hits at size rising f =
    let decoded : decode_at 32 pl offset ≡ (0, 1) =
      ap (decode 32) at ∙ zero_byte (replicate pad 0 ++ deltas v hits) in
    let inside : not (ltb offset pl.size_in_bytes) ≡ false = ground (arith, size) in
    let next : drop (offset + 1) pl.posting_list_buffer ≡ replicate pad 0 ++ deltas v hits =
      drop-drop offset 1 pl.posting_list_buffer ∙ ap (drop 1) at in
    let rest =
      get_pad_end_loop_lem fuel pl (offset + 1) pad v hits next (omega (arith, size)) rising
        (omega arith) in
    let rest_there = ap (λ (p : ℕ × ℕ). get_pad_end_loop fuel pl (offset + p.1)) decoded ∙ rest in
    let zero_pad : ((decode_at 32 pl offset).0 == 0) ≡ true =
      ap (λ (p : ℕ × ℕ). p.0 == 0) decoded in
    rw (inside, zero_pad, rest_there) (omega arith)

pub length-deltas : (v : ℕ) (hits : List Hit) → length hits ≤ length (deltas v hits)
length-deltas v [] = omega arith
length-deltas v (hit ∷ hits) =
    let tail = frequency_bytes hit ++ deltas hit.value hits in
    omega (
      arith,
      length-append (encode (hit.value - v)) tail,
      length-append (frequency_bytes hit) (deltas hit.value hits),
      length-encode (hit.value - v),
      length-deltas hit.value hits,
    )

-- A run of GetHits, from what its parts give.
pub get_hits-parts :
    (pl : PostingListUsed) (o : ℕ) (front hits : List Hit) (c d end : Cursor)
    → get_start_byte_offset pl ≡ o
    → take_special 2 pl (record { left = 2 ^ 32 - 1; offset = o; val = invalid_value }) ≡ (front, c)
    → skip_pad pl c ≡ d
    → take_compressed pl.size_in_bytes pl d ≡ some (hits, end)
    → get_hits pl ≡ (ok, front ++ hits)
unfolding get_hits get_hits_internal
get_hits-parts pl o front hits c d end start special skipped compressed =
    let begun =
      ap
        (λ (k : ℕ).
          take_special 2 pl (record { left = 2 ^ 32 - 1; offset = k; val = invalid_value }))
        start
      ∙ special in
    let read =
      ap (λ (p : List Hit × Cursor). take_compressed pl.size_in_bytes pl (skip_pad pl p.1)) begun
      ∙ ap (take_compressed pl.size_in_bytes pl) skipped
      ∙ compressed in
    rw (read, get_hits_internal) (ap (λ (p : List Hit × Cursor). (ok, p.0 ++ hits)) begun)
