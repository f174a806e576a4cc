-- ===== src/PostingList/PrependHit/AnyState.antt =====
-- PrependHit of icing/index/main/posting-list-used.cc in every state of the list.
use external_icing.Base.{
  ℕ, ◌+◌, ◌-◌, ◌%◌, ◌≤◌, ◌<◌, ◌≡◌, refl, sym, ap, ◌∙◌, subst, true, false, List, [], ◌∷◌, ◌++◌,
  arith, ◌==◌, length, length-append, take, drop, replicate, Bool-cases, inl, inr, ◌⊎◌,
}
use external_icing.Hit.{Hit, invalid_value, has_term_frequency}
use external_icing.PostingList.{Code, ok, special_hits_size, hit_size, value_size}
use external_icing.PostingList.Used.{
  PostingListUsed, hit_of, invalid_hit, start_at, full, almost_full, is_posting_list_valid,
}
use external_icing.PostingList.Prepend.{prepend_hit_to_empty, prepend_hit_to_not_full, prepend_hit}
use external_icing.PostingList.Layout.{
  frequency_bytes, deltas, IsStorable, Ordered, specials, Layout, not_full_layout,
  almost_full_layout, full_layout,
}
use external_icing.PostingList.States.{is_valid-lt, not_full-full}
use external_icing.PostingList.Edits.{
  with_buffer, set_special_hit-1, start_at-hit_size, append_assoc, split_at,
}
use external_icing.PostingList.{resource_exhausted}
use external_icing.PostingList.States.{full_is, almost_full_is}
use external_icing.PostingList.Read.{get_hits}
use external_icing.PostingList.GetHits.{get_hits_lem}
use external_icing.PostingList.PrependHit.{prepend_hit-almost_full, almost_full-full}
use external_icing.PostingList.PrependHit.NotFull.{not_full-parts, prepend_uncompressed_at_lem}
use external_icing.PostingList.PrependHit.Compress.{prepend_hit_to_not_full_lem}

length-frequency_bytes : (hit : Hit) → length (frequency_bytes hit) ≤ 1
length-frequency_bytes hit = elim (Bool-cases (has_term_frequency hit)) [
  | inl has ↦ rw has (omega arith)
  | inr lacks ↦ rw lacks (omega arith)
]

-- A list without hits takes any.
prepend_hit_to_empty_lem :
    (pl : PostingListUsed) (junk : List ℕ) (hit : Hit)
    → pl.posting_list_buffer
      ≡ specials (hit_of (special_hits_size + length junk)) invalid_hit (junk ++ [])
    → pl.size_in_bytes ≡ special_hits_size + length junk
    → pl.size_in_bytes < invalid_value
    → pl.size_in_bytes % hit_size ≡ 0
    → IsStorable hit
    → Layout (prepend_hit_to_empty pl hit) (hit ∷ [])
unfolding prepend_hit_to_empty
prepend_hit_to_empty_lem pl [] hit buffer size small multiple storable =
    let least : (pl.size_in_bytes == special_hits_size) ≡ true = ground (arith, size) in
    let first = hit_of special_hits_size in
    let added : prepend_hit_to_empty pl hit ≡ with_buffer pl (specials invalid_hit hit []) =
      rw (prepend_hit_to_empty, least)
        (ap (λ (p : PostingListUsed). start_at p hit_size)
            (set_special_hit-1 pl first invalid_hit hit [] buffer)
          ∙ start_at-hit_size (with_buffer pl (specials first hit [])) first hit hit [] refl
              (omega (arith, size))) in
    subst (λ (p : PostingListUsed). Layout p (hit ∷ [])) (sym added)
      (almost_full_layout 0 hit [] refl size small (storable, tt))
prepend_hit_to_empty_lem pl (x ∷ xs) hit buffer size small multiple storable =
    let junk : List ℕ = x ∷ xs in
    let new_size = value_size + length (frequency_bytes hit) in
    let more : (pl.size_in_bytes == special_hits_size) ≡ false = ground (arith, size) in
    let enough : new_size ≤ length junk =
      omega (arith, size, multiple, length-frequency_bytes hit) in
    let split = split_at (length junk - new_size) junk (omega arith) in
    let front = take (length junk - new_size) junk in
    let old = drop (length junk - new_size) junk in
    let same : length old ≡ new_size = omega (arith, split.2, enough) in
    let there : pl.size_in_bytes ≡ special_hits_size + length front + length old =
      omega (arith, size, split.1, same, enough) in
    let added =
      prepend_uncompressed_at_lem pl (hit_of (special_hits_size + length junk)) invalid_hit hit
        front old [] pl.size_in_bytes
        (buffer
          ∙ ap (specials (hit_of (special_hits_size + length junk)) invalid_hit)
              (ap (λ (xs : List ℕ). xs ++ []) split.0 ∙ append_assoc front old []))
        same there (omega arith) in
    rw (prepend_hit_to_empty, more)
      (subst (λ (p : PostingListUsed). Layout p (hit ∷ [])) (sym added)
        (not_full_layout front (hit ∷ []) refl
          (omega (arith, there, same, length-append (frequency_bytes hit) [])) small
          (storable, tt)))

full-valid :
    (pl : PostingListUsed)
    → full pl ≡ true
    → almost_full pl ≡ false
    → is_posting_list_valid pl ≡ true
unfolding is_posting_list_valid
full-valid pl is_full not_almost = rw (is_full, not_almost) refl

prepend_hit-full :
    (pl : PostingListUsed) (hit : Hit)
    → IsStorable hit
    → full pl ≡ true
    → is_posting_list_valid pl ≡ true
    → prepend_hit pl hit ≡ (resource_exhausted, pl)
unfolding prepend_hit
prepend_hit-full pl hit storable is_full is_ok =
    rw (is_valid-lt hit storable.valid, is_full, is_ok) refl

-- PrependHit of a valid hit whose value is below the first one's, on a list whose size is a multiple
-- of a hit's: a full list says so and stays as it is; any other holds the hits behind the new one.
pub prepend_hit_lem :
    (pl : PostingListUsed) (hit : Hit) (hits : List Hit)
    → Layout pl hits
    → Ordered (hit ∷ hits)
    → pl.size_in_bytes % hit_size ≡ 0
    → ((full pl ≡ true) × (prepend_hit pl hit ≡ (resource_exhausted, pl)))
      ⊎ ((full pl ≡ false)
          × ((prepend_hit pl hit).0 ≡ ok)
          × Layout (prepend_hit pl hit).1 (hit ∷ hits))
prepend_hit_lem pl hit _ (not_full_layout junk [] buffer size small ordered) new multiple =
    let start = special_hits_size + length junk in
    let at_end : (start == pl.size_in_bytes) ≡ true = ground (arith, size) in
    let added : prepend_hit pl hit ≡ (ok, prepend_hit_to_empty pl hit) =
      not_full-parts pl junk [] buffer size small ordered hit new.0 ∙ rw at_end refl in
    let laid_out =
      subst (λ (r : Code × PostingListUsed). (r.0 ≡ ok) × Layout r.1 (hit ∷ [])) (sym added)
        (
          refl,
          prepend_hit_to_empty_lem pl junk hit buffer (omega (arith, size)) small multiple new.0,
        ) in
    inr (not_full-full pl junk [] buffer size small ordered, laid_out.0, laid_out.1)
prepend_hit_lem pl hit _ (not_full_layout junk (cur ∷ hits) buffer size small ordered) new
      multiple =
    let start = special_hits_size + length junk in
    let inside : (start == pl.size_in_bytes) ≡ false = ground (arith, size) in
    let added : prepend_hit pl hit ≡ prepend_hit_to_not_full pl hit start =
      not_full-parts pl junk (cur ∷ hits) buffer size small ordered hit new.0 ∙ rw inside refl in
    let laid_out =
      subst (λ (r : Code × PostingListUsed). (r.0 ≡ ok) × Layout r.1 (hit ∷ cur ∷ hits)) (sym added)
        (prepend_hit_to_not_full_lem pl junk cur hits buffer size small ordered hit new.0
          new.1.0) in
    inr (not_full-full pl junk (cur ∷ hits) buffer size small ordered, laid_out.0, laid_out.1)
prepend_hit_lem pl hit _ (almost_full_layout pad cur hits buffer size small ordered) new multiple =
    let laid_out =
      prepend_hit-almost_full pl pad cur hits buffer size small ordered hit new.0 new.1.0 in
    inr (
      almost_full-full pl pad cur hits buffer size small ordered hit new.0 new.1.0,
      laid_out.0,
      laid_out.1,
    )
prepend_hit_lem pl hit _ (full_layout pad first second hits buffer size small ordered) new
      multiple =
    let behind = replicate pad 0 ++ deltas second.value hits in
    let valid = (ordered.0).valid in
    let valid' = (ordered.1.1).valid in
    let is_full : full pl ≡ true =
      full_is pl first second behind buffer (omega arith) (omega arith)
      ∙ rw (is_valid-lt first valid, is_valid-lt second valid') refl in
    let not_almost : almost_full pl ≡ false =
      almost_full_is pl first second behind buffer (omega arith) (omega arith)
      ∙ rw (is_valid-lt first valid) refl in
    inl (is_full, prepend_hit-full pl hit new.0 is_full (full-valid pl is_full not_almost))

-- Reading after PrependHit: where there was room, the new hit comes first.
get_hits-prepend_hit :
    (pl : PostingListUsed) (hit : Hit) (hits : List Hit)
    → Layout pl hits
    → Ordered (hit ∷ hits)
    → pl.size_in_bytes % hit_size ≡ 0
    → full pl ≡ false
    → get_hits (prepend_hit pl hit).1 ≡ (ok, hit ∷ hits)
get_hits-prepend_hit pl hit hits laid_out new multiple room =
    elim (prepend_hit_lem pl hit hits laid_out new multiple) [
      | inl (is_full, _) ↦ cc
      | inr (_, _, added) ↦ get_hits_lem (prepend_hit pl hit).1 (hit ∷ hits) added
    ]
