-- ===== src/Result/Manager.antt =====
-- icing/result/result-state-manager.{h,cc}: the states of the queries that have more pages. Tokens
-- come from a random generator, which is a parameter. Each operation holds the manager's lock for
-- its whole body, so a run is a sequence of them. `none` is undefined behaviour: `front` and `pop`
-- of an empty queue. The counts of hits, `int` in the code, stop at 0 and have no largest number.
pub mod Budget
pub mod Safety
pub mod Drift
use external_icing.Base.{
  ℕ, zero, suc, ◌+◌, ◌-◌, Bool, true, false, not, ◌&&◌, ◌||◌, List, [], ◌∷◌, ◌++◌, Option, none,
  some, ltb, leb, ◌==◌, if◌then◌else◌, length,
}
use external_icing.Iterator.Select.Filter.{DocumentFilterData, has_id, is_empty}
use external_icing.Scoring.{ScoredDocumentHit}
use external_icing.Result.{
  ResultState, lookup, num_remaining, has_more_results, get_next_page, truncate_hits_to,
}

-- kInvalidNextPageToken
abbrev pub invalid_next_page_token : ℕ
invalid_next_page_token = 0

-- The statuses of the operations.
pub data Code : Type 0 where
  ok invalid_argument not_found : Code

pub record Manager (Score : Type 0) : Type 0 where
  pub max_total_hits : ℕ
  pub num_total_hits : ℕ
  pub result_state_map : List (ℕ × ResultState Score)
  pub token_queue : List ℕ
  pub invalidated_token_set : List ℕ

-- PageResultState, without the contexts for snippets and projection.
pub record PageResultState (Score : Type 0) : Type 0 where
  pub scored_document_hits : List (ScoredDocumentHit Score)
  pub next_page_token : ℕ
  pub num_previously_returned : ℕ
  pub num_per_page : ℕ

-- `find(key) != end()`, of what `find` gives
abbrev pub has_entry {ℓ} : {V : Type ℓ} → Option V → Bool
has_entry none = false
has_entry (some v) = true

-- `erase` of a map and of a set
abbrev pub erase {ℓ} : {V : Type ℓ} → ℕ → List (ℕ × V) → List (ℕ × V)
erase key [] = []
erase key (entry ∷ entries) = if entry.0 == key then entries else entry ∷ erase key entries

abbrev pub erase_id : ℕ → List ℕ → List ℕ
erase_id id [] = []
erase_id id (k ∷ ids) = if k == id then erase_id id ids else k ∷ erase_id id ids

-- Assignment through the iterator that `find` gave.
abbrev pub replace {ℓ} : {V : Type ℓ} → ℕ → V → List (ℕ × V) → List (ℕ × V)
replace key v [] = []
replace key v (entry ∷ entries) =
    if entry.0 == key then (key, v) ∷ entries else entry ∷ replace key v entries

-- Step 2 of RemoveStatesIfNeeded.
unfoldable pub drop_invalidated : List ℕ → List ℕ → List ℕ × List ℕ
drop_invalidated [] invalidated = ([], invalidated)
drop_invalidated (token ∷ queue) invalidated =
    let rest = drop_invalidated queue (erase_id token invalidated) in
    if has_id token invalidated then rest else (token ∷ queue, invalidated)

module _ {Score : Type 0} where
  -- The constructor.
  unfoldable pub make_manager : ℕ → Manager Score
  make_manager max_total_hits = record {
    max_total_hits = max_total_hits;
    num_total_hits = 0;
    result_state_map = [];
    token_queue = [];
    invalidated_token_set = [];
  }

  -- InternalInvalidateResultState
  unfoldable pub internal_invalidate_result_state : Manager Score → ℕ → Manager Score
  internal_invalidate_result_state m token = elim (lookup token m.result_state_map) [
    | none ↦ m
    | some r ↦ record m {
      num_total_hits = m.num_total_hits - length r.scored_document_hits;
      result_state_map = erase token m.result_state_map;
      invalidated_token_set = token ∷ m.invalidated_token_set;
    }
  ]

  -- InternalInvalidateAllResultStates
  unfoldable pub internal_invalidate_all_result_states : Manager Score → Manager Score
  internal_invalidate_all_result_states m = record m {
    num_total_hits = 0;
    result_state_map = [];
    token_queue = [];
    invalidated_token_set = [];
  }

  -- The test of the loop of GetUniqueToken.
  abbrev pub is_taken : Manager Score → ℕ → Bool
  is_taken m token =
      has_entry (lookup token m.result_state_map)
      || has_id token m.invalidated_token_set
      || (token == invalid_next_page_token)

  -- GetUniqueToken, on at most `fuel` draws from the generator, whose draws are `random`: the token
  -- and the number of draws made, or none if all of these were taken.
  unfoldable pub get_unique_token : ℕ → (ℕ → ℕ) → ℕ → Manager Score → Option (ℕ × ℕ)
  get_unique_token zero random drawn m = none
  get_unique_token (suc fuel) random drawn m =
      let again = get_unique_token fuel random (suc drawn) m in
      if is_taken m (random drawn) then again else some (random drawn, suc drawn)

  -- Step 3: states are removed from the oldest on, until the new one fits the budget.
  unfoldable pub remove_oldest : ℕ → List ℕ → Manager Score → Option (Manager Score)
  unfolding internal_invalidate_result_state
  remove_oldest remaining [] m =
      if ltb m.max_total_hits (remaining + m.num_total_hits)
      then none
      else some (record m { token_queue = [] })
  remove_oldest remaining (token ∷ queue) m =
      let rest = remove_oldest remaining queue (internal_invalidate_result_state m token) in
      if ltb m.max_total_hits (remaining + m.num_total_hits)
      then rest
      else some (record m { token_queue = token ∷ queue })

  abbrev pub clear_invalidated : Option (Manager Score) → Option (Manager Score)
  clear_invalidated none = none
  clear_invalidated (some m) = some (record m { invalidated_token_set = [] })

  -- RemoveStatesIfNeeded, for a state with `remaining` hits.
  unfoldable pub remove_states_if_needed : Manager Score → ℕ → Option (Manager Score)
  unfolding internal_invalidate_all_result_states drop_invalidated remove_oldest
  remove_states_if_needed m remaining =
      let (queue, invalidated) = drop_invalidated m.token_queue m.invalidated_token_set in
      if is_empty m.result_state_map || is_empty m.token_queue
      then some m
      else if ltb m.max_total_hits remaining
      then some (internal_invalidate_all_result_states m)
      else clear_invalidated
          (remove_oldest remaining queue (record m { invalidated_token_set = invalidated }))

  -- InvalidateResultState, InvalidateAllResultStates
  unfoldable pub invalidate_result_state : Manager Score → ℕ → Manager Score
  unfolding internal_invalidate_result_state
  invalidate_result_state m token =
      if token == invalid_next_page_token then m else internal_invalidate_result_state m token

  unfoldable pub invalidate_all_result_states : Manager Score → Manager Score
  unfolding internal_invalidate_all_result_states
  invalidate_all_result_states m = internal_invalidate_all_result_states m

  module _ (score_less : Score → Score → Bool)
      (get_document_filter_data : ℕ → Option DocumentFilterData) where
    -- Add, once the generator has given the token.
    unfoldable pub add : Manager Score → ResultState Score → ℕ → Option (Manager Score)
    unfolding remove_states_if_needed
    add m r new_token =
        let kept = truncate_hits_to score_less r m.max_total_hits in
        elim (remove_states_if_needed m (length r.scored_document_hits)) [
          | none ↦ none
          | some m' ↦ some (record m' {
            num_total_hits = m'.num_total_hits + length kept.scored_document_hits;
            result_state_map = (new_token, kept) ∷ m'.result_state_map;
            token_queue = m'.token_queue ++ (new_token ∷ []);
          })
        ]

    -- RankAndPaginate: the page and the manager afterwards; an error is the status alone.
    unfoldable pub rank_and_paginate :
        Manager Score
        → ResultState Score
        → ℕ
        → Option (Code × Option (PageResultState Score) × Manager Score)
    unfolding add
    rank_and_paginate m r new_token =
        let (page, moved) = get_next_page score_less get_document_filter_data r in
        let result : ℕ → PageResultState Score = λ token. record {
          scored_document_hits = page;
          next_page_token = token;
          num_previously_returned = r.num_returned;
          num_per_page = r.num_per_page;
        } in
        if not (ltb 0 (length r.scored_document_hits))
        then some (invalid_argument, none, m)
        else if not (ltb 0 (length moved.scored_document_hits))
        then some (ok, some (result invalid_next_page_token), m)
        else elim (add m moved new_token) [
          | none ↦ none
          | some m' ↦ some (ok, some (result new_token), m')
        ]

    -- GetNextPage
    unfoldable pub manager_get_next_page :
        Manager Score → ℕ → Code × Option (PageResultState Score) × Manager Score
    unfolding internal_invalidate_result_state
    manager_get_next_page m token = elim (lookup token m.result_state_map) [
      | none ↦ (not_found, none, m)
      | some r ↦
          let (page, moved) = get_next_page score_less get_document_filter_data r in
          let stored = record m { result_state_map = replace token moved m.result_state_map } in
          let gone = internal_invalidate_result_state stored token in
          let has_more = ltb 0 (length moved.scored_document_hits) in
          let end = if has_more then stored else gone in
          let result : PageResultState Score = record {
            scored_document_hits = page;
            next_page_token = if has_more then token else invalid_next_page_token;
            num_previously_returned = r.num_returned;
            num_per_page = r.num_per_page;
          } in
          if is_empty page
          then (not_found, none, gone)
          else (ok, some result, record end { num_total_hits = end.num_total_hits - length page })
    ]
