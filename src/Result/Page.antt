-- ===== src/Result/Page.antt =====
-- What a page of icing/result/result-state.cc holds.
use external_icing.Base.{
  ℕ, zero, suc, ◌+◌, ◌-◌, ◌≤◌, ◌<◌, ◌≡◌, ◌⊎◌, inl, inr, refl, ap, Bool, true, false, List, [], ◌∷◌,
  ◌++◌, Option, none, some, arith, ◌==◌, ==_iff, if◌then◌else◌, length, length-append, length-set,
  get_or, set, get_or-set, Bool-cases, Option-cases,
}
use external_icing.Iterator.Select.Filter.{DocumentFilterData}
use external_icing.Scoring.{ScoredDocumentHit}
use external_icing.Scoring.Ranker.{is_better, pop_top_results_from_heap}
use external_icing.Scoring.Ranker.Count.{count, one, pop_top_results_from_heap_lem}
use external_icing.Result.{
  ResultState, lookup, removes, limit_hits, page_loop, get_next_page, num_remaining,
}

get_or-set_other :
    (xs : List ℕ) (i j v : ℕ) → (i == j) ≡ false → get_or (set xs i v) j 0 ≡ get_or xs j 0
get_or-set_other [] i j v e = refl
get_or-set_other (x ∷ xs) zero zero v e = absurd (ground (arith, e))
get_or-set_other (x ∷ xs) zero (suc j) v e = refl
get_or-set_other (x ∷ xs) (suc i) zero v e = refl
get_or-set_other (x ∷ xs) (suc i) (suc j) v e = get_or-set_other xs i j v (ground (arith, e))

module _ {Score : Type 0} (score_less : Score → Score → Bool)
    (get_document_filter_data : ℕ → Option DocumentFilterData) where
  abbrev group_is : ℕ → Option ℕ → Bool
  group_is group none = false
  group_is group (some id) = id == group

  abbrev group_of : List (ℕ × ℕ) → Option DocumentFilterData → Option ℕ
  group_of group_map none = none
  group_of group_map (some filter_data) = lookup filter_data.namespace_id group_map

  -- Whether the hit's document is in a namespace of the group.
  abbrev pub in_group : List (ℕ × ℕ) → ℕ → ScoredDocumentHit Score → Bool
  in_group group_map group hit =
      group_is group (group_of group_map (get_document_filter_data hit.document_id))

  abbrev counted : Bool → Bool → ℕ
  counted removed inside = if removed then 0 else one inside

  -- What the limiter does to the limits for a hit of group `id`.
  taken :
      (limits : List ℕ) (id group : ℕ)
      → group < length limits
      → let r : Bool × List ℕ =
          if get_or limits id 0 == 0
          then (true, limits)
          else (false, set limits id (get_or limits id 0 - 1)) in
        (counted (r.0) (id == group) + get_or (r.1) group 0 ≡ get_or limits group 0)
        × (length (r.1) ≡ length limits)
  taken limits id group h = elim (Bool-cases (get_or limits id 0 == 0)) [
    | inl out ↦ rw out (omega arith, refl)
    | inr some_left ↦
        let v = get_or limits id 0 - 1 in
        rw some_left (
          elim (Bool-cases (id == group)) [
            | inl e ↦
                let at : id ≡ group = (==_iff id group).0 e in
                let written : get_or (set limits id v) group 0 ≡ v =
                  ground (arith, get_or-set limits id group v 0, at, h, e) in
                ground (arith, e, written, some_left, ap (λ (k : ℕ). get_or limits k 0) at)
            | inr e ↦ ground (arith, e, get_or-set_other limits id group v e)
          ],
          length-set limits id v,
        )
  ]

  removes_lem :
      (group_map : List (ℕ × ℕ)) (limits : List ℕ) (group : ℕ) (hit : ScoredDocumentHit Score)
      → group < length limits
      → let (removed, left) = removes score_less get_document_filter_data group_map limits hit in
        (counted removed (in_group group_map group hit) + get_or left group 0
          ≡ get_or limits group 0)
        × (length left ≡ length limits)
  unfolding removes
  removes_lem group_map limits group hit h =
      elim (Option-cases (get_document_filter_data hit.document_id)) [
        | inl e ↦ rw (e, removes) (omega arith, refl)
        | inr (d, e) ↦ elim (Option-cases (lookup d.namespace_id group_map)) [
          | inl k ↦ rw (e, k, removes) (omega arith, refl)
          | inr (id, k) ↦ rw (e, k, removes) (taken limits id group h)
        ]
      ]

  -- The limiter takes from a group's limit exactly the hits of the group that it keeps, so no more
  -- than the limit are kept; and it keeps at most the hits given.
  pub limit_hits_lem :
      (group_map : List (ℕ × ℕ)) (limits : List ℕ) (group : ℕ)
      (hits : List (ScoredDocumentHit Score))
      → group < length limits
      → let (kept, left) = limit_hits score_less get_document_filter_data group_map limits hits in
        (count (in_group group_map group) kept + get_or left group 0 ≡ get_or limits group 0)
        × (length left ≡ length limits)
        × (length kept ≤ length hits)
  unfolding limit_hits
  limit_hits_lem group_map limits group [] h = (omega arith, refl, omega arith)
  limit_hits_lem group_map limits group (hit ∷ hits) h =
      let first = removes_lem group_map limits group hit h in
      let left = (removes score_less get_document_filter_data group_map limits hit).1 in
      let rest = limit_hits_lem group_map left group hits (omega (arith, first.1)) in
      let bound = first.0 in
      elim (Bool-cases (removes score_less get_document_filter_data group_map limits hit).0) [
        | inl e ↦
            let spent = ap (λ b. counted b (in_group group_map group hit)) e in
            rw e (
              omega (arith, rest.0, bound, spent),
              omega (arith, rest.1, first.1),
              omega (arith, rest.2),
            )
        | inr e ↦
            let spent = ap (λ b. counted b (in_group group_map group hit)) e in
            rw e (
              omega (arith, rest.0, bound, spent),
              omega (arith, rest.1, first.1),
              omega (arith, rest.2),
            )
      ]

  length-limit_hits :
      (group_map : List (ℕ × ℕ)) (limits : List ℕ) (hits : List (ScoredDocumentHit Score))
      → length (limit_hits score_less get_document_filter_data group_map limits hits).0
        ≤ length hits
  unfolding limit_hits
  length-limit_hits group_map limits [] = omega arith
  length-limit_hits group_map limits (hit ∷ hits) =
      let left = (removes score_less get_document_filter_data group_map limits hit).1 in
      ground (arith, length-limit_hits group_map left hits)

  -- What the loop of GetNextPage promises of its result, started with some hits on the page.
  abbrev Paged : ResultState Score → ℕ → List (ScoredDocumentHit Score) × ResultState Score → Type 0
  Paged r already result =
      (length (result.0) ≤ r.num_per_page)
      × (already ≤ length (result.0))
      × (length (result.0) + num_remaining score_less (result.1)
          ≤ already + num_remaining score_less r)
      × ((length (result.0) ≡ r.num_per_page) ⊎ (num_remaining score_less (result.1) ≡ 0))
      × ((result.1).num_returned ≡ r.num_returned)

  page_loop_lem :
      (fuel : ℕ) (r : ResultState Score) (num_requested : ℕ)
      (final : List (ScoredDocumentHit Score))
      → num_remaining score_less r < fuel
      → length final ≤ r.num_per_page
      → num_requested ≡ r.num_per_page - length final
      → Paged r
          (length final)
          (page_loop score_less get_document_filter_data fuel r num_requested final)
  unfolding page_loop
  page_loop_lem zero r num final f h e = absurd (omega arith)
  page_loop_lem (suc fuel) r num final f h e =
      let better = is_better score_less r.is_descending in
      let heap = r.scored_document_hits in
      let popped = pop_top_results_from_heap better heap num in
      let limited =
        limit_hits score_less get_document_filter_data r.namespace_group_id_map
          r.group_result_limits popped.0 in
      let counts = pop_top_results_from_heap_lem better (λ x. true) heap num in
      let page = final ++ limited.0 in
      let moved : ResultState Score = record r {
        scored_document_hits = popped.1;
        group_result_limits = limited.1;
      } in
      let few = length-limit_hits r.namespace_group_id_map r.group_result_limits popped.0 in
      let size = length-append final limited.0 in
      elim (Bool-cases (num == 0)) [
        | inl done ↦
            rw done (h, omega arith, omega arith, inl (omega (arith, (==_iff num 0).0 done)), refl)
        | inr more ↦ elim (Bool-cases (length popped.0 == num)) [
          | inl full_round ↦
              let all : length popped.0 ≡ num = (==_iff (length popped.0) num).0 full_round in
              let some_asked : 0 < num = ground (arith, more) in
              let rest =
                page_loop_lem fuel moved (r.num_per_page - length page) page
                  (omega (arith, counts.2, all, f)) (omega (arith, size, few, all)) refl in
              rw (more, full_round)
                (
                  rest.0,
                  omega (arith, rest.1, size),
                  omega (arith, rest.2, size, few, counts.2),
                  rest.3,
                  rest.4,
                )
          | inr last_round ↦
              let out : length popped.1 ≡ 0 = ground (arith, counts.1, counts.2, last_round) in
              rw (more, last_round)
                (
                  omega (arith, size, few, counts.1),
                  omega (arith, size),
                  omega (arith, size, few, counts.2),
                  inr out,
                  refl,
                )
        ]
      ]

  -- A page holds at most `num_per_page` hits, and fewer only when none remain; the hits of the page
  -- are counted as returned, and together with those that remain are at most those there were.
  pub get_next_page_lem :
      (r : ResultState Score)
      → let (page, moved) = get_next_page score_less get_document_filter_data r in
        (length page ≤ r.num_per_page)
        × ((length page ≡ r.num_per_page) ⊎ (num_remaining score_less moved ≡ 0))
        × (length page + num_remaining score_less moved ≤ num_remaining score_less r)
        × (moved.num_returned ≡ r.num_returned + length page)
  unfolding get_next_page
  get_next_page_lem r =
      let fuel = suc (suc (length r.scored_document_hits)) in
      let loop = page_loop_lem fuel r r.num_per_page [] (omega arith) (omega arith) (omega arith) in
      (loop.0, loop.3, omega (arith, loop.2), omega (arith, loop.4))
