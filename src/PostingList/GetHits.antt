-- ===== src/PostingList/GetHits.antt =====
-- GetHits of icing/index/main/posting-list-used.cc, over every state.
use external_icing.Base.{
  ℕ, zero, suc, ◌+◌, ◌-◌, ◌/◌, ◌^◌, ◌≤◌, ◌<◌, ◌≡◌, refl, sym, ap, ap₂, ◌∙◌, true, false, ◌&&◌, List,
  [], ◌∷◌, ◌++◌, some, arith, ltb, length, length-append, lt→ne, length-replicate, drop, replicate,
}
use external_icing.Hit.{Hit, invalid_value}
use external_icing.PostingList.{ok, special_hits_size, hit_size}
use external_icing.PostingList.Used.{PostingListUsed, invalid_hit, special_hit}
use external_icing.PostingList.Read.{
  Cursor, get_pad_end, take_special, skip_pad, take_compressed, get_hits,
}
use external_icing.PostingList.Layout.{
  frequency_bytes, deltas, area, IsStorable, Rising, Layout, not_full_layout, almost_full_layout,
  full_layout, drop-append, drop-drop,
}
use external_icing.PostingList.Reading.{take_compressed_lem}
use external_icing.PostingList.Contents.{
  drop-tail, get_pad_end_loop_lem, length-deltas, get_hits-parts,
}
use external_icing.PostingList.States.{
  is_valid-lt, is_valid-invalid, second_is, first_is, get_start_byte_offset_is, not_full-start,
  drop-start, take_area,
}

take_special-past :
    (fuel : ℕ) (pl : PostingListUsed) (c : Cursor)
    → special_hits_size ≤ c.offset
    → take_special fuel pl c ≡ ([], c)
unfolding take_special
take_special-past zero pl c h = refl
take_special-past (suc fuel) pl c h =
    let past : ltb 0 c.left && ltb c.offset special_hits_size ≡ false = ground arith in rw past refl

length-area : (hits : List Hit) → length hits ≤ length (area hits)
length-area [] = omega arith
length-area (hit ∷ hits) = omega (
  arith,
  length-append (frequency_bytes hit) (deltas hit.value hits),
  length-deltas hit.value hits,
)

-- A round of the first loop takes one special hit.
take_special-step :
    (fuel : ℕ) (pl : PostingListUsed) (c : Cursor) (hit : Hit) (hits : List Hit) (end : Cursor)
    → special_hit pl (c.offset / hit_size) ≡ hit
    → ltb 0 c.left && ltb c.offset special_hits_size ≡ true
    → take_special fuel pl
        (record { left = c.left - 1; offset = c.offset + hit_size; val = hit.value })
      ≡ (hits, end)
    → take_special (suc fuel) pl c ≡ (hit ∷ hits, end)
unfolding take_special
take_special-step fuel pl c hit hits end here goes_on rest =
    let rest_there =
      ap
        (λ (h : Hit).
          take_special fuel pl
            (record { left = c.left - 1; offset = c.offset + hit_size; val = h.value }))
        here
      ∙ rest in
    rw goes_on (ap₂ (λ (h : Hit) (p : List Hit × Cursor). (h ∷ p.0, p.1)) here rest_there)

-- The pad behind the special hits is skipped, and the deltas are read.
skip_pad-behind :
    (pl : PostingListUsed) (pad left : ℕ) (hit : Hit) (hits : List Hit)
    → drop special_hits_size pl.posting_list_buffer ≡ replicate pad 0 ++ deltas hit.value hits
    → pl.size_in_bytes ≡ special_hits_size + pad + length (deltas hit.value hits)
    → IsStorable hit
    → Rising hit.value hits
    → skip_pad pl (record { left = left; offset = special_hits_size; val = hit.value })
      ≡ record { left = left; offset = special_hits_size + pad; val = hit.value }
unfolding skip_pad get_pad_end
skip_pad-behind pl pad left hit hits at size storable rising =
    let past =
      get_pad_end_loop_lem pl.size_in_bytes pl special_hits_size pad hit.value hits at size rising
        (omega (arith, size)) in
    rw (lt→ne hit.value invalid_value storable.valid)
      λ i. record { left = left; offset = past i; val = hit.value }

read_behind_pad :
    (pl : PostingListUsed) (pad left : ℕ) (hit : Hit) (hits : List Hit)
    → drop special_hits_size pl.posting_list_buffer ≡ replicate pad 0 ++ deltas hit.value hits
    → pl.size_in_bytes ≡ special_hits_size + pad + length (deltas hit.value hits)
    → IsStorable hit
    → Rising hit.value hits
    → length hits < left
    → (end : Cursor) × (take_compressed pl.size_in_bytes pl
          (record { left = left; offset = special_hits_size + pad; val = hit.value })
        ≡ some (hits, end))
read_behind_pad pl pad left hit hits at size storable rising few =
    let behind : drop (special_hits_size + pad) pl.posting_list_buffer ≡ deltas hit.value hits =
      drop-drop special_hits_size pad pl.posting_list_buffer
      ∙ ap (drop pad) at
      ∙ ap (λ (k : ℕ). drop k (replicate pad 0 ++ deltas hit.value hits))
          (sym (length-replicate pad 0))
      ∙ drop-append (replicate pad 0) (deltas hit.value hits) in
    take_compressed_lem pl.size_in_bytes pl
      (record { left = left; offset = special_hits_size + pad; val = hit.value }) hits
      (lt→ne hit.value invalid_value storable.valid) behind size rising
      (omega (arith, size, length-deltas hit.value hits)) few

skip_pad-fresh :
    (pl : PostingListUsed) (left offset : ℕ)
    → skip_pad pl (record { left = left; offset = offset; val = invalid_value })
      ≡ record { left = left; offset = offset; val = invalid_value }
unfolding skip_pad
skip_pad-fresh pl left offset = refl

-- Whatever the state, GetHits gives exactly the hits of the list, the newest first.
pub get_hits_lem :
    (pl : PostingListUsed) (hits : List Hit) → Layout pl hits → get_hits pl ≡ (ok, hits)
get_hits_lem pl _ (not_full_layout junk hits buffer size small ordered) =
    let offset = special_hits_size + length junk in
    let start : Cursor = record { left = 2 ^ 32 - 1; offset = offset; val = invalid_value } in
    let (end, compressed) =
      take_area pl.size_in_bytes pl offset (2 ^ 32 - 1) hits
        (drop-start pl junk hits buffer size small ordered) size ordered
        (omega (arith, size, length-area hits)) (omega (arith, size, small, length-area hits)) in
    get_hits-parts pl offset [] hits start start end
      (not_full-start pl junk hits buffer size small ordered)
      (take_special-past 2 pl start (omega arith)) (skip_pad-fresh pl (2 ^ 32 - 1) offset)
      compressed
get_hits_lem pl _ (almost_full_layout pad hit hits buffer size small ordered) =
    let tail = replicate pad 0 ++ deltas hit.value hits in
    let valid = (ordered.0).valid in
    let fits : hit.value < 2 ^ 32 = omega arith in
    let start : Cursor = record { left = 2 ^ 32 - 1; offset = hit_size; val = invalid_value } in
    let c : Cursor = record { left = 2 ^ 32 - 2; offset = special_hits_size; val = hit.value } in
    let d : Cursor = record {
      left = 2 ^ 32 - 2;
      offset = special_hits_size + pad;
      val = hit.value;
    } in
    let at = drop-tail pl invalid_hit hit tail buffer (omega arith) fits in
    let (end, compressed) =
      read_behind_pad pl pad (2 ^ 32 - 2) hit hits at size ordered.0 ordered.1
        (omega (arith, size, small, length-deltas hit.value hits)) in
    get_hits-parts pl hit_size (hit ∷ []) hits c d end
      (get_start_byte_offset_is pl invalid_hit hit tail buffer (omega arith) fits
        ∙ rw is_valid-invalid refl)
      (take_special-step 1 pl start hit [] c
        (second_is pl invalid_hit hit tail buffer (omega arith) fits) refl
        (take_special-past 1 pl c (omega arith)))
      (skip_pad-behind pl pad (2 ^ 32 - 2) hit hits at size ordered.0 ordered.1) compressed
get_hits_lem pl _ (full_layout pad first second hits buffer size small ordered) =
    let tail = replicate pad 0 ++ deltas second.value hits in
    let valid = (ordered.0).valid in
    let valid2 = (ordered.1.1).valid in
    let fits : first.value < 2 ^ 32 = omega arith in
    let fits2 : second.value < 2 ^ 32 = omega arith in
    let start : Cursor = record { left = 2 ^ 32 - 1; offset = 0; val = invalid_value } in
    let b : Cursor = record { left = 2 ^ 32 - 2; offset = hit_size; val = first.value } in
    let c : Cursor = record { left = 2 ^ 32 - 3; offset = special_hits_size; val = second.value } in
    let d : Cursor = record {
      left = 2 ^ 32 - 3;
      offset = special_hits_size + pad;
      val = second.value;
    } in
    let at = drop-tail pl first second tail buffer fits fits2 in
    let (end, compressed) =
      read_behind_pad pl pad (2 ^ 32 - 3) second hits at size ordered.1.1 ordered.1.2
        (omega (arith, size, small, length-deltas second.value hits)) in
    get_hits-parts pl 0 (first ∷ second ∷ []) hits c d end
      (get_start_byte_offset_is pl first second tail buffer fits fits2
        ∙ rw (is_valid-lt first valid, is_valid-lt second valid2) refl)
      (take_special-step 1 pl start first (second ∷ []) c
        (first_is pl first second tail buffer fits fits2) refl
        (take_special-step 0 pl b second [] c (second_is pl first second tail buffer fits fits2)
          refl (take_special-past 0 pl c (omega arith))))
      (skip_pad-behind pl pad (2 ^ 32 - 3) second hits at size ordered.1.1 ordered.1.2) compressed
