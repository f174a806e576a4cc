-- ===== src/PostingList/States.antt =====
-- The three states of icing/index/main/posting-list-used.cc: what the special hits say in each, and
-- that GetHits reads the hits of each.
use external_icing.Base.{
  ℕ, zero, suc, ◌+◌, ◌-◌, ◌^◌, ◌<◌, ◌≡◌, refl, ap, ap₂, ◌∙◌, true, false, not, ◌&&◌, List, [], ◌∷◌,
  ◌++◌, some, arith, ltb, if◌then◌else◌, length, length-append, lt→ne, take, drop,
}
use external_icing.Hit.{Hit, invalid_value, is_valid}
use external_icing.PostingList.{special_hits_size, value_size, hit_size}
use external_icing.PostingList.Buffer.{read_word, from_bytes, word_bytes}
use external_icing.PostingList.Used.{
  PostingListUsed, hit_of, invalid_hit, special_hit, full, almost_full, get_start_byte_offset,
}
use external_icing.PostingList.Read.{Cursor, take_compressed, next_value}
use external_icing.PostingList.Layout.{
  frequency_bytes, deltas, area, Ordered, specials, drop-append, drop-drop,
}
use external_icing.PostingList.Reading.{
  take_compressed_lem, take_step, consume_term_frequency_if_present_lem,
}
use external_icing.PostingList.Contents.{special_hit-first, special_hit-second}

pub is_valid-lt : (hit : Hit) → hit.value < invalid_value → is_valid hit ≡ true
unfolding is_valid
is_valid-lt hit h = rw (lt→ne hit.value invalid_value h) refl

pub is_valid-invalid : is_valid invalid_hit ≡ false
unfolding is_valid
is_valid-invalid = refl

-- What the three tests and the start of the hits are, for given special hits.
module _ (pl : PostingListUsed) (first second : Hit) (tail : List ℕ)
    (buffer : pl.posting_list_buffer ≡ specials first second tail)
    (first_fits : first.value < 2 ^ 32) (second_fits : second.value < 2 ^ 32) where
  pub first_is : special_hit pl 0 ≡ first
  first_is = special_hit-first pl first second tail buffer first_fits second_fits

  pub second_is : special_hit pl 1 ≡ second
  second_is = special_hit-second pl first second tail buffer first_fits second_fits

  pub full_is : full pl ≡ is_valid first && is_valid second
  unfolding full
  full_is = ap₂ (λ (a b : Hit). is_valid a && is_valid b) first_is second_is

  pub almost_full_is : almost_full pl ≡ not (is_valid first)
  unfolding almost_full
  almost_full_is = ap (λ (a : Hit). not (is_valid a)) first_is

  pub get_start_byte_offset_is : get_start_byte_offset pl ≡ (
      if is_valid first && is_valid second
      then 0
      else if not (is_valid first)
      then hit_size
      else first.value)
  unfolding get_start_byte_offset
  get_start_byte_offset_is =
      rw (full_is, almost_full_is)
        (ap
          (λ (h : Hit).
            if is_valid first && is_valid second
            then 0
            else if not (is_valid first)
            then hit_size
            else h.value)
          first_is)

-- Reading a list that is not full.
module _ (pl : PostingListUsed) (junk : List ℕ) (hits : List Hit)
    (buffer : pl.posting_list_buffer
      ≡ specials (hit_of (special_hits_size + length junk)) invalid_hit (junk ++ area hits))
    (size : pl.size_in_bytes ≡ special_hits_size + length junk + length (area hits))
    (small : pl.size_in_bytes < invalid_value) (ordered : Ordered hits) where
  abbrev start : ℕ
  start = special_hits_size + length junk

  start_valid : is_valid (hit_of start) ≡ true
  start_valid = is_valid-lt (hit_of start) (omega (arith, size))

  pub not_full-full : full pl ≡ false
  not_full-full =
      full_is pl (hit_of start) invalid_hit (junk ++ area hits) buffer (omega (arith, size))
        (omega arith)
      ∙ rw (start_valid, is_valid-invalid) refl

  pub not_full-almost_full : almost_full pl ≡ false
  not_full-almost_full =
      almost_full_is pl (hit_of start) invalid_hit (junk ++ area hits) buffer (omega (arith, size))
        (omega arith)
      ∙ rw start_valid refl

  pub not_full-start : get_start_byte_offset pl ≡ start
  not_full-start =
      get_start_byte_offset_is pl (hit_of start) invalid_hit (junk ++ area hits) buffer
        (omega (arith, size)) (omega arith)
      ∙ rw (start_valid, is_valid-invalid) refl

  pub drop-start : drop start pl.posting_list_buffer ≡ area hits
  drop-start =
      drop-drop special_hits_size (length junk) pl.posting_list_buffer
      ∙ ap (drop (length junk)) (ap (drop special_hits_size) buffer)
      ∙ drop-append junk (area hits)

-- The first value of the area, and the rest of it.
pub read_word-area :
    (buffer : List ℕ) (offset : ℕ) (hit : Hit) (rest : List ℕ)
    → hit.value < 2 ^ 32
    → drop offset buffer ≡ word_bytes hit.value ++ rest
    → read_word buffer offset ≡ hit.value
read_word-area buffer offset hit rest h at =
    ap (λ (xs : List ℕ). from_bytes (take value_size xs)) at ∙ omega arith

next_value-area :
    (pl : PostingListUsed) (offset limit : ℕ) (hit : Hit) (tail : List ℕ)
    → hit.value < invalid_value
    → drop offset pl.posting_list_buffer ≡ word_bytes hit.value ++ tail
    → next_value pl (record { left = limit; offset = offset; val = invalid_value })
      ≡ (hit.value, offset + value_size)
unfolding next_value
next_value-area pl offset limit hit tail valid at =
    ap (λ (v : ℕ). (v, offset + value_size))
      (read_word-area pl.posting_list_buffer offset hit tail (omega arith) at)

-- The second loop reads the hits of the area.
pub take_area :
    (fuel : ℕ) (pl : PostingListUsed) (offset limit : ℕ) (hits : List Hit)
    → drop offset pl.posting_list_buffer ≡ area hits
    → pl.size_in_bytes ≡ offset + length (area hits)
    → Ordered hits
    → length hits < fuel
    → length hits < limit
    → (end : Cursor) × (take_compressed fuel pl
          (record { left = limit; offset = offset; val = invalid_value })
        ≡ some (hits, end))
unfolding take_compressed
take_area zero pl offset limit hits at size ordered f l = absurd (omega arith)
take_area (suc fuel) pl offset limit [] at size ordered f l =
    let done : ltb 0 limit && ltb offset pl.size_in_bytes ≡ false = ground (arith, size) in
    (record { left = limit; offset = offset; val = invalid_value }, rw done refl)
take_area (suc fuel) pl offset limit (hit ∷ hits) at size ordered f l =
    let valid = (ordered.0).valid in
    let tail = frequency_bytes hit ++ deltas hit.value hits in
    let c : Cursor = record { left = limit; offset = offset; val = invalid_value } in
    let o = offset + value_size in
    let behind = o + length (frequency_bytes hit) in
    let lengths = length-append (frequency_bytes hit) (deltas hit.value hits) in
    let after_word : drop o pl.posting_list_buffer ≡ tail =
      drop-drop offset value_size pl.posting_list_buffer ∙ ap (drop value_size) at in
    let after_frequency : drop behind pl.posting_list_buffer ≡ deltas hit.value hits =
      drop-drop o (length (frequency_bytes hit)) pl.posting_list_buffer
      ∙ ap (drop (length (frequency_bytes hit))) after_word
      ∙ drop-append (frequency_bytes hit) (deltas hit.value hits) in
    let next : next_value pl c ≡ (hit.value, o) =
      next_value-area pl offset limit hit tail valid at in
    let consumed =
      consume_term_frequency_if_present_lem pl hit o (deltas hit.value hits) ordered.0 after_word
        (omega (arith, size, lengths)) in
    let goes_on : ltb 0 limit && ltb offset pl.size_in_bytes ≡ true = ground (arith, size, l) in
    let (end, rest) =
      take_compressed_lem fuel pl (record { left = limit - 1; offset = behind; val = hit.value })
        hits (lt→ne hit.value invalid_value valid) after_frequency (omega (arith, size, lengths))
        ordered.1 (omega (arith, f)) (omega (arith, l)) in
    (end, take_step fuel pl c hit.value o behind hit hits end next consumed goes_on rest)
