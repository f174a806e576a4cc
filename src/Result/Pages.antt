-- ===== src/Result/Pages.antt =====
-- All pages of a query: GetNextPage of icing/result/result-state.cc, over and over.
use external_icing.Base.{
  ℕ, zero, suc, ◌+◌, ◌-◌, ◌≤◌, ◌<◌, ◌≡◌, refl, subst, ◌++◌, ◌==◌, Bool, List, [], ◌∷◌, Option,
  arith, length, inl, inr, Bool-cases, if◌then◌else◌, ◌⊎◌,
}
use external_icing.Iterator.Select.Filter.{DocumentFilterData}
use external_icing.Scoring.{ScoredDocumentHit}
use external_icing.Scoring.Ranker.{is_better, pop_top_results_from_heap}
use external_icing.Result.{
  ResultState, limit_hits, page_loop, get_next_page, num_remaining, has_more_results,
}
use external_icing.Result.Page.{get_next_page_lem}

module _ {Score : Type 0} (score_less : Score → Score → Bool)
    (get_document_filter_data : ℕ → Option DocumentFilterData) where
  -- The pages that a client gets as long as there are more results, in at most so many calls, and the
  -- state then.
  pub all_pages : ℕ → ResultState Score → List (List (ScoredDocumentHit Score)) × ResultState Score
  all_pages zero r = ([], r)
  all_pages (suc calls) r =
      let (page, moved) = get_next_page score_less get_document_filter_data r in
      let (pages, last) = all_pages calls moved in
      if has_more_results score_less r then (page ∷ pages, last) else ([], r)

  abbrev pub hits_in : List (List (ScoredDocumentHit Score)) → ℕ
  hits_in [] = 0
  hits_in (page ∷ pages) = length page + hits_in pages

  -- All pages are full, but the last one may not be.
  abbrev pub Full : ℕ → List (List (ScoredDocumentHit Score)) → Type 0
  Full size [] = Unit {0}
  Full size (page ∷ []) = length page ≤ size
  Full size (page ∷ next ∷ pages) = (length page ≡ size) × Full size (next ∷ pages)

  num_per_page-page_loop :
      (fuel : ℕ) (r : ResultState Score) (num_requested : ℕ)
      (final : List (ScoredDocumentHit Score))
      → let r' = (page_loop score_less get_document_filter_data fuel r num_requested final).1 in
        r'.num_per_page ≡ r.num_per_page
  unfolding page_loop
  num_per_page-page_loop zero r num final = refl
  num_per_page-page_loop (suc fuel) r num final =
      let popped =
        pop_top_results_from_heap (is_better score_less r.is_descending) r.scored_document_hits
          num in
      let limited =
        limit_hits score_less get_document_filter_data r.namespace_group_id_map
          r.group_result_limits popped.0 in
      let page = final ++ limited.0 in
      let moved : ResultState Score = record r {
        scored_document_hits = popped.1;
        group_result_limits = limited.1;
      } in
      let rest = num_per_page-page_loop fuel moved (r.num_per_page - length page) page in
      elim (Bool-cases (num == 0)) [
        | inl done ↦ rw done refl
        | inr more ↦ elim (Bool-cases (length popped.0 == num)) [
          | inl round ↦ rw (more, round) rest
          | inr last ↦ rw (more, last) refl
        ]
      ]

  -- A page in front of others is full if others follow.
  Full-cons :
      (size left : ℕ) (page : List (ScoredDocumentHit Score))
      (pages : List (List (ScoredDocumentHit Score)))
      → length page ≤ size
      → (length page ≡ size) ⊎ (left ≡ 0)
      → length pages ≤ left
      → Full size pages
      → Full size (page ∷ pages)
  Full-cons size left page [] fits full few rest = fits
  Full-cons size left page (next ∷ pages) fits full few rest = elim full [
    | inl e ↦ (e, rest)
    | inr e ↦ absurd (omega (arith, e, few))
  ]

  -- Asking for pages of a positive size ends: after at most as many calls as there are hits, none remain.
  -- All pages but the last are full, and their hits are counted as returned and are at most those there
  -- were.
  pub all_pages_lem :
      (calls : ℕ) (r : ResultState Score)
      → 0 < r.num_per_page
      → num_remaining score_less r ≤ calls
      → let (pages, last) = all_pages calls r in
        (num_remaining score_less last ≡ 0)
        × (length pages ≤ num_remaining score_less r)
        × (hits_in pages ≤ num_remaining score_less r)
        × Full r.num_per_page pages
        × (last.num_returned ≡ r.num_returned + hits_in pages)
  unfolding all_pages get_next_page
  all_pages_lem zero r some h = (omega (arith, h), omega arith, omega arith, tt, omega arith)
  all_pages_lem (suc calls) r some h = elim (Bool-cases (has_more_results score_less r)) [
    | inr none_left ↦
        rw none_left (ground (arith, none_left), omega arith, omega arith, tt, omega arith)
    | inl more ↦
        let (page, moved) = get_next_page score_less get_document_filter_data r in
        let (fits, full, spent, counted) =
          get_next_page_lem score_less get_document_filter_data r in
        let same_size : moved.num_per_page ≡ r.num_per_page =
          num_per_page-page_loop (suc (suc (length r.scored_document_hits))) r r.num_per_page [] in
        let some_left : 0 < num_remaining score_less r = ground (arith, more) in
        let fewer : num_remaining score_less moved < num_remaining score_less r = elim full [
          | inl e ↦ omega (arith, e, spent, some)
          | inr e ↦ omega (arith, e, some_left)
        ] in
        let (ended, few, in_all, rest, returned) =
          all_pages_lem calls moved (omega (arith, same_size, some)) (omega (arith, fewer, h)) in
        let pages = (all_pages calls moved).0 in
        rw more (
          ended,
          omega (arith, few, fewer),
          omega (arith, in_all, spent),
          Full-cons r.num_per_page (num_remaining score_less moved) page pages fits full few
              (subst (λ (n : ℕ). Full n pages) same_size rest),
          omega (arith, returned, counted),
        )
  ]
