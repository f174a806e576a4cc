-- ===== src/Result.antt =====
-- icing/result: result-state.{h,cc}, the pages of one query's ranked hits. A score is of a parameter
-- type with its `<`; GetNamespaceId and GetDocumentFilterData of the document store are parameters.
-- The snippet context and the projection trees are carried along unchanged and left out. Page sizes
-- and group limits, which are `int`, are natural numbers: a negative one acts as 0 does.
pub mod Page
pub mod Pages
pub mod Manager
use external_icing.Base.{
  ℕ, zero, suc, ◌+◌, ◌-◌, Bool, true, false, ◌&&◌, List, [], ◌∷◌, ◌++◌, Option, none, some, ltb,
  leb, ◌==◌, if◌then◌else◌, length, get_or, set,
}
use external_icing.Iterator.Select.Filter.{DocumentFilterData}
use external_icing.Scoring.{ScoredDocumentHit}
use external_icing.Scoring.Ranker.{is_better, build_heap_in_place, pop_top_results_from_heap}

pub record ResultState (Score : Type 0) : Type 0 where
  pub scored_document_hits : List (ScoredDocumentHit Score)
  pub namespace_group_id_map : List (ℕ × ℕ)
  pub group_result_limits : List ℕ
  pub num_per_page : ℕ
  pub num_returned : ℕ
  pub is_descending : Bool

-- `find` of an unordered_map
abbrev pub lookup {ℓ} : {V : Type ℓ} → ℕ → List (ℕ × V) → Option V
lookup key [] = none
lookup key (entry ∷ entries) = if entry.0 == key then some entry.1 else lookup key entries

-- `insert` of an unordered_map: an entry that is there stays.
abbrev pub insert {ℓ} : {V : Type ℓ} → ℕ → V → List (ℕ × V) → List (ℕ × V)
insert key v entries = elim (lookup key entries) [ none ↦ (key, v) ∷ entries | some old ↦ entries ]

-- A ResultGrouping: its namespaces and `max_results`.
pub record ResultGrouping (Name : Type 0) : Type 0 where
  pub namespaces : List Name
  pub max_results : ℕ

-- The inner loop of the constructor.
unfoldable pub add_namespaces :
    {Name : Type 0} → (Name → Option ℕ) → ℕ → List Name → List (ℕ × ℕ) → List (ℕ × ℕ)
add_namespaces get_namespace_id group_id [] group_map = group_map
add_namespaces get_namespace_id group_id (name ∷ names) group_map =
    let skipped = add_namespaces get_namespace_id group_id names group_map in
    let inserted =
      λ (id : ℕ). add_namespaces get_namespace_id group_id names (insert id group_id group_map) in
    elim (get_namespace_id name) [ none ↦ skipped | some id ↦ inserted id ]

-- The outer loop of the constructor: the map and the limits afterwards.
unfoldable pub add_groupings :
    {Name : Type 0}
    → (Name → Option ℕ)
    → List (ResultGrouping Name)
    → List (ℕ × ℕ)
    → List ℕ
    → List (ℕ × ℕ) × List ℕ
unfolding add_namespaces
add_groupings get_namespace_id [] group_map limits = (group_map, limits)
add_groupings get_namespace_id (g ∷ gs) group_map limits =
    add_groupings get_namespace_id gs
      (add_namespaces get_namespace_id (length limits) g.namespaces group_map)
      (limits ++ (g.max_results ∷ []))

module _ {Score : Type 0} (score_less : Score → Score → Bool) where
  -- The constructor.
  unfoldable pub make_result_state :
      {Name : Type 0}
      → (Name → Option ℕ)
      → List (ScoredDocumentHit Score)
      → Bool
      → ℕ
      → List (ResultGrouping Name)
      → ResultState Score
  unfolding add_groupings
  make_result_state get_namespace_id hits is_descending num_per_page groupings =
      let groups = add_groupings get_namespace_id groupings [] [] in
      record {
        scored_document_hits = build_heap_in_place (is_better score_less is_descending) hits;
        namespace_group_id_map = groups.0;
        group_result_limits = groups.1;
        num_per_page = num_per_page;
        num_returned = 0;
        is_descending = is_descending;
      }

  -- HasMoreResults, num_remaining
  abbrev pub num_remaining : ResultState Score → ℕ
  num_remaining r = length r.scored_document_hits

  abbrev pub has_more_results : ResultState Score → Bool
  has_more_results r = ltb 0 (num_remaining r)

  module _ (get_document_filter_data : ℕ → Option DocumentFilterData) where
    -- GroupResultLimiter::operator(): whether the hit is removed, and the limits afterwards.
    unfoldable pub removes : List (ℕ × ℕ) → List ℕ → ScoredDocumentHit Score → Bool × List ℕ
    removes group_map limits hit = elim (get_document_filter_data hit.document_id) [
      | none ↦ (true, limits)
      | some filter_data ↦ elim (lookup filter_data.namespace_id group_map) [
        | none ↦ (false, limits)
        | some group_id ↦
            if get_or limits group_id 0 == 0
            then (true, limits)
            else (false, set limits group_id (get_or limits group_id 0 - 1))
      ]
    ]

    -- std::remove_if with the limiter, and the `erase` behind it.
    unfoldable pub limit_hits :
        List (ℕ × ℕ)
        → List ℕ
        → List (ScoredDocumentHit Score)
        → List (ScoredDocumentHit Score) × List ℕ
    unfolding removes
    limit_hits group_map limits [] = ([], limits)
    limit_hits group_map limits (hit ∷ hits) =
        let (removed, left) = removes group_map limits hit in
        let (kept, end) = limit_hits group_map left hits in
        (if removed then kept else hit ∷ kept, end)

    -- The loop of GetNextPage: the hits of the page, the heap and the limits afterwards. Each round
    -- but the last pops a hit.
    unfoldable pub page_loop :
        ℕ
        → ResultState Score
        → ℕ
        → List (ScoredDocumentHit Score)
        → List (ScoredDocumentHit Score) × ResultState Score
    unfolding limit_hits
    page_loop zero r num_requested final = (final, r)
    page_loop (suc fuel) r num_requested final =
        let (popped, heap) =
          pop_top_results_from_heap (is_better score_less r.is_descending) r.scored_document_hits
            num_requested in
        let (kept, limits) = limit_hits r.namespace_group_id_map r.group_result_limits popped in
        let more_results_available = length popped == num_requested in
        let moved = record r { scored_document_hits = heap; group_result_limits = limits } in
        let page = final ++ kept in
        let rest = page_loop fuel moved (r.num_per_page - length page) page in
        if num_requested == 0
        then (final, r)
        else if more_results_available
        then rest
        else (page, moved)

    -- ResultState::GetNextPage
    unfoldable pub get_next_page :
        ResultState Score → List (ScoredDocumentHit Score) × ResultState Score
    unfolding page_loop
    get_next_page r =
        let (page, moved) =
          page_loop (suc (suc (length r.scored_document_hits))) r r.num_per_page [] in
        (page, record moved { num_returned = moved.num_returned + length page })

  -- TruncateHitsTo
  unfoldable pub truncate_hits_to : ResultState Score → ℕ → ResultState Score
  truncate_hits_to r new_size =
      let best =
        pop_top_results_from_heap (is_better score_less r.is_descending) r.scored_document_hits
          new_size in
      if leb (length r.scored_document_hits) new_size
      then r
      else record r { scored_document_hits = best.0 }
