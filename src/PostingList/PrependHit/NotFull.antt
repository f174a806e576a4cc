-- ===== src/PostingList/PrependHit/NotFull.antt =====
-- PrependHit of icing/index/main/posting-list-used.cc on a list that is not full.
use external_icing.Base.{
  ℕ, ◌+◌, ◌-◌, ◌≤◌, ◌<◌, ◌≡◌, refl, ap, ap₂, ◌∙◌, true, false, not, ◌&&◌, ◌||◌, List, [], ◌∷◌, ◌++◌,
  arith, ltb, ◌==◌, if◌then◌else◌, length, Bool-cases, inl, inr,
}
use external_icing.Hit.{Hit, invalid_value, is_valid, has_term_frequency}
use external_icing.PostingList.{ok, special_hits_size, hit_size, value_size}
use external_icing.PostingList.Buffer.{word_bytes, hit_bytes}
use external_icing.PostingList.Used.{
  PostingListUsed, hit_of, invalid_hit, special_hit, start_at, empty, is_posting_list_valid,
}
use external_icing.PostingList.Prepend.{
  prepend_hit_uncompressed, prepend_uncompressed_at, prepend_hit_to_empty, prepend_hit_to_not_full,
  prepend_hit,
}
use external_icing.PostingList.Layout.{frequency_bytes, area, IsStorable, Ordered, specials}
use external_icing.PostingList.States.{
  is_valid-lt, is_valid-invalid, first_is, second_is, not_full-full, not_full-almost_full,
  not_full-start,
}
use external_icing.PostingList.Edits.{with_buffer, start_at-not_full, put-area}

-- PrependHitUncompressed where there is room, with the start set behind it.
pub prepend_uncompressed_at_lem :
    (pl : PostingListUsed) (first second hit : Hit) (front old back : List ℕ) (offset : ℕ)
    → pl.posting_list_buffer ≡ specials first second (front ++ (old ++ back))
    → length old ≡ value_size + length (frequency_bytes hit)
    → offset ≡ special_hits_size + length front + length old
    → offset ≤ pl.size_in_bytes
    → prepend_uncompressed_at pl hit offset
      ≡ with_buffer pl (
          specials
            (hit_of (special_hits_size + length front))
            invalid_hit
            (front ++ (word_bytes hit.value ++ (frequency_bytes hit ++ back))))
unfolding prepend_uncompressed_at prepend_hit_uncompressed
prepend_uncompressed_at_lem pl first second hit front old back offset buffer size at fits =
    elim (Bool-cases (has_term_frequency hit)) [
      | inl has ↦
          let bytes : frequency_bytes hit ≡ hit.term_frequency ∷ [] = rw has refl in
          let one : length (frequency_bytes hit) ≡ 1 = ap length bytes in
          let room : ltb offset (special_hits_size + 5) ≡ false = ground (arith, size, at, one) in
          let place : offset - hit_size ≡ special_hits_size + length front =
            omega (arith, size, at, one) in
          let stored = front ++ (hit_bytes hit ++ back) in
          rw (prepend_uncompressed_at, has, room, place)
            (ap (λ (p : PostingListUsed). start_at p (special_hits_size + length front))
                (put-area pl first second front old back (hit_bytes hit)
                  (special_hits_size + length front) buffer refl (size ∙ ap (◌+◌ value_size) one))
              ∙ start_at-not_full (with_buffer pl (specials first second stored)) first second hit
                  stored refl (special_hits_size + length front) (omega arith)
                  (omega (arith, at, fits)))
      | inr lacks ↦
          let bytes : frequency_bytes hit ≡ [] = rw lacks refl in
          let none_there : length (frequency_bytes hit) ≡ 0 = ap length bytes in
          let room : ltb offset (special_hits_size + 4) ≡ false =
            ground (arith, size, at, none_there) in
          let place : offset - value_size ≡ special_hits_size + length front =
            omega (arith, size, at, none_there) in
          let stored = front ++ (word_bytes hit.value ++ back) in
          rw (prepend_uncompressed_at, lacks, room, place)
            (ap (λ (p : PostingListUsed). start_at p (special_hits_size + length front))
                (put-area pl first second front old back (word_bytes hit.value)
                  (special_hits_size + length front) buffer refl
                  (size ∙ ap (◌+◌ value_size) none_there))
              ∙ start_at-not_full (with_buffer pl (specials first second stored)) first second hit
                  stored refl (special_hits_size + length front) (omega arith)
                  (omega (arith, at, fits)))
    ]

module _ (pl : PostingListUsed) (junk : List ℕ) (hits : List Hit)
    (buffer : pl.posting_list_buffer
      ≡ specials (hit_of (special_hits_size + length junk)) invalid_hit (junk ++ area hits))
    (size : pl.size_in_bytes ≡ special_hits_size + length junk + length (area hits))
    (small : pl.size_in_bytes < invalid_value) (ordered : Ordered hits) where
  abbrev start : ℕ
  start = special_hits_size + length junk

  start_is : special_hit pl 0 ≡ hit_of start
  start_is =
      first_is pl (hit_of start) invalid_hit (junk ++ area hits) buffer (omega (arith, size))
        (omega arith)

  none_is : special_hit pl 1 ≡ invalid_hit
  none_is =
      second_is pl (hit_of start) invalid_hit (junk ++ area hits) buffer (omega (arith, size))
        (omega arith)

  not_full-valid : is_posting_list_valid pl ≡ true
  unfolding is_posting_list_valid
  not_full-valid =
      let inside : not (ltb pl.size_in_bytes start || ltb start special_hits_size) ≡ true =
        ground (arith, size) in
      rw
        (
          not_full-almost_full pl junk hits buffer size small ordered,
          not_full-full pl junk hits buffer size small ordered,
        )
        (ap (λ (h : Hit). not (ltb pl.size_in_bytes h.value || ltb h.value special_hits_size))
            start_is
          ∙ inside)

  pub not_full-empty : empty pl ≡ (start == pl.size_in_bytes)
  unfolding empty
  not_full-empty =
      ap₂ (λ (a b : Hit). (a.value == pl.size_in_bytes) && not (is_valid b)) start_is none_is
      ∙ elim (Bool-cases (start == pl.size_in_bytes)) [
        | inl same ↦ rw (same, is_valid-invalid) refl
        | inr differ ↦ rw (differ) refl
      ]

  pub not_full-parts :
      (hit : Hit)
      → IsStorable hit
      → prepend_hit pl hit ≡ (
          if start == pl.size_in_bytes
          then (ok, prepend_hit_to_empty pl hit)
          else prepend_hit_to_not_full pl hit start)
  unfolding prepend_hit
  not_full-parts hit storable =
      rw
        (
          is_valid-lt hit storable.valid,
          not_full-valid,
          not_full-full pl junk hits buffer size small ordered,
          not_full-almost_full pl junk hits buffer size small ordered,
          not_full-empty,
          not_full-start pl junk hits buffer size small ordered,
        )
        refl
