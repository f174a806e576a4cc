-- ===== src/Scoring/Ranker.antt =====
-- icing/scoring/ranker.cc, a heap of scored hits in a vector, and the order of
-- icing/scoring/scored-document-hit.h. `<` on the scores, which are of type `double`, is a parameter.
pub mod Count
use external_icing.Base.{
  ℕ, zero, suc, ◌+◌, ◌-◌, ◌*◌, ◌/◌, min, Bool, true, false, not, ◌&&◌, List, [], ◌∷◌, Option, none,
  some, ltb, leb, ◌==◌, if◌then◌else◌, length, get_elem?, set, take,
}
use external_icing.Scoring.{ScoredDocumentHit}

-- ScoredDocumentHit::operator<
unfoldable pub hit_less :
    {Score : Type 0}
    → (Score → Score → Bool)
    → ScoredDocumentHit Score
    → ScoredDocumentHit Score
    → Bool
hit_less score_less hit other =
    if score_less hit.score other.score
    then true
    else if score_less other.score hit.score
    then false
    else ltb hit.document_id other.document_id

abbrev same_truth : Bool → Bool → Bool
same_truth true b = b
same_truth false b = not b

-- ScoredDocumentHitComparator::operator(): whether `lhs` is better than `rhs`.
unfoldable pub is_better :
    {Score : Type 0}
    → (Score → Score → Bool)
    → Bool
    → ScoredDocumentHit Score
    → ScoredDocumentHit Score
    → Bool
unfolding hit_less
is_better score_less is_descending lhs rhs =
    same_truth is_descending (not (hit_less score_less lhs rhs))

abbrev pub swap_found : {A : Type 0} → List A → ℕ → ℕ → Option A → Option A → List A
swap_found hits i j none o = hits
swap_found hits i j (some x) none = hits
swap_found hits i j (some x) (some y) = set (set hits i y) j x

-- std::swap of two elements in range
abbrev pub swap : {A : Type 0} → List A → ℕ → ℕ → List A
swap hits i j = swap_found hits i j (get_elem? hits i) (get_elem? hits j)

module _ {A : Type 0} (better : A → A → Bool) where
  -- `comparator(hits.at(i), hits.at(j))`, for indices in range.
  abbrev pub better_at : List A → ℕ → ℕ → Bool
  better_at hits i j = elim (get_elem? hits i) [
    | none ↦ false
    | some x ↦ elim (get_elem? hits j) [ none ↦ false | some y ↦ better x y ]
  ]

  -- The index `best` of Heapify, after both children have been compared.
  unfoldable pub best_of : List A → ℕ → ℕ
  best_of hits root =
      let left = root * 2 + 1 in
      let right = root * 2 + 2 in
      let with_left = if ltb left (length hits) && better_at hits left root then left else root in
      if ltb right (length hits) && better_at hits right with_left then right else with_left

  -- Heapify. Each call goes to a child, so one call for each element is enough.
  unfoldable pub heapify : ℕ → List A → ℕ → List A
  unfolding best_of
  heapify zero hits root = hits
  heapify (suc fuel) hits root =
      let best = best_of hits root in
      let deeper = heapify fuel (swap hits best root) best in
      if leb (length hits) root then hits else if best == root then hits else deeper

  -- PopRoot: the root and the heap afterwards, or none for an empty heap.
  unfoldable pub pop_root : List A → Option (A × List A)
  unfolding heapify
  pop_root [] = none
  pop_root (root ∷ hits) =
      let last = length hits in
      let swapped = swap (root ∷ hits) 0 last in some (root, heapify last (take last swapped) 0)

  -- The loop of BuildHeapInPlace: the roots below `n`, the last one first.
  unfoldable pub build_loop : ℕ → List A → List A
  unfolding heapify
  build_loop zero hits = hits
  build_loop (suc n) hits = build_loop n (heapify (length hits) hits n)

  -- BuildHeapInPlace
  unfoldable pub build_heap_in_place : List A → List A
  unfolding build_loop
  build_heap_in_place hits = build_loop (length hits / 2) hits

  -- The loop of PopTopResultsFromHeap: the results and the heap afterwards.
  unfoldable pub pop_loop : ℕ → List A → List A × List A
  unfolding pop_root
  pop_loop zero heap = ([], heap)
  pop_loop (suc n) heap = elim (pop_root heap) [
    | none ↦ pop_loop n heap
    | some (root, rest) ↦ let (results, end) = pop_loop n rest in (root ∷ results, end)
  ]

  -- PopTopResultsFromHeap
  unfoldable pub pop_top_results_from_heap : List A → ℕ → List A × List A
  unfolding pop_loop
  pop_top_results_from_heap heap num_results = pop_loop (min num_results (length heap)) heap
