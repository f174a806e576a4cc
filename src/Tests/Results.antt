-- ===== src/Tests/Results.antt =====
-- Pages of results and posting lists at concrete inputs.
use external_icing.Base.{
  ℕ, zero, suc, ◌+◌, ◌-◌, ◌≤◌, ◌<◌, min, ◌≡◌, ◌⊎◌, refl, sym, ap, Bool, true, false, Option, none,
  some, List, [], ◌∷◌, map, ltb, if◌then◌else◌, length, arith,
}
use external_icing.Scoring.Ranker.Count.{count, pop_top_results_from_heap_lem}
use external_icing.Result.{num_remaining}
use external_icing.Result.Page.{get_next_page_lem}
use external_icing.Result.Pages.{all_pages, hits_in, Full, all_pages_lem}
use external_icing.Result.Manager.{add, is_taken}
use external_icing.Result.Manager.Budget.{IsSound, total}
use external_icing.Result.Manager.Safety.{add_lem}
use external_icing.Result.Manager.Drift.{manager_get_next_page_lem}
use external_icing.Iterator.Select.Filter.{DocumentFilterData}
use external_icing.Scoring.{ScoredDocumentHit}
use external_icing.Scoring.Ranker.{is_better, build_heap_in_place, pop_top_results_from_heap}
use external_icing.Result.{ResultState, make_result_state, get_next_page, truncate_hits_to}
use external_icing.Result.Manager.{
  Manager, Code, PageResultState, make_manager, rank_and_paginate, manager_get_next_page,
  remove_states_if_needed,
}

abbrev scored_hit : ℕ → ℕ → ScoredDocumentHit ℕ
scored_hit document_id score = record {
  document_id = document_id;
  hit_section_id_mask = 0;
  score = score;
}

abbrev some_hits : List (ScoredDocumentHit ℕ)
some_hits = scored_hit 1 5 ∷ scored_hit 2 9 ∷ scored_hit 3 5 ∷ scored_hit 4 1 ∷ scored_hit 5 7 ∷ []

-- The three best hits, by score and then by document id.
pop_run :
    map
      (λ (h : ScoredDocumentHit ℕ). h.document_id)
      (pop_top_results_from_heap
        (is_better ltb true)
        (build_heap_in_place (is_better ltb true) some_hits)
        3).0
    ≡ 2 ∷ 5 ∷ 3 ∷ []
unfolding pop_top_results_from_heap build_heap_in_place is_better
pop_run = refl

-- A query whose hits are all of one group, which may show one hit, one hit on each page; and a
-- query of two hits without groups.
abbrev filter_data_of : ℕ → Option DocumentFilterData
filter_data_of d = some (record { namespace_id = if ltb d 10 then 1 else 2; schema_type_id = 0 })

abbrev grouped : ResultState ℕ
grouped =
    make_result_state ltb some (scored_hit 1 1 ∷ scored_hit 2 2 ∷ scored_hit 3 3 ∷ []) true 1
      (record { namespaces = 1 ∷ []; max_results = 1 } ∷ [])

abbrev plain_pair : ResultState ℕ
plain_pair = make_result_state ltb some (scored_hit 11 1 ∷ scored_hit 12 2 ∷ []) true 1 []

abbrev manager_of : Option (Code × Option (PageResultState ℕ) × Manager ℕ) → Manager ℕ
manager_of none = make_manager 0
manager_of (some (code, page, m)) = m

abbrev first_step : Manager ℕ
first_step = manager_of (rank_and_paginate ltb filter_data_of (make_manager 2) grouped 101)

abbrev second_step : Manager ℕ
second_step = (manager_get_next_page ltb filter_data_of first_step 101).2

abbrev third_step : Manager ℕ
third_step = manager_of (rank_and_paginate ltb filter_data_of second_step plain_pair 102)

-- The group limit drops two hits that `num_total_hits` goes on counting, so the third query's
-- clean-up removes every state, still sees the budget exceeded, and reads the front of an empty
-- queue.
drift_run :
    (second_step.num_total_hits ≡ 2)
    × (second_step.result_state_map ≡ [])
    × (third_step.num_total_hits ≡ 3)
    × (rank_and_paginate ltb filter_data_of third_step plain_pair 103 ≡ none)
unfolding rank_and_paginate manager_get_next_page make_manager make_result_state get_next_page
    remove_states_if_needed build_heap_in_place pop_top_results_from_heap is_better truncate_hits_to
drift_run = (refl, refl, refl, refl)

abbrev always : ScoredDocumentHit ℕ → Bool
always h = true

abbrev better : ScoredDocumentHit ℕ → ScoredDocumentHit ℕ → Bool
better = is_better ltb true

pop_top_results_from_heap_lem_example :
    let (results, rest) = pop_top_results_from_heap better some_hits 3 in
    (count always results + count always rest ≡ count always some_hits)
    × (length results ≡ min 3 (length some_hits))
    × (length results + length rest ≡ length some_hits)
pop_top_results_from_heap_lem_example = pop_top_results_from_heap_lem better always some_hits 3

get_next_page_lem_example :
    let (page, moved) = get_next_page ltb filter_data_of grouped in
    (length page ≤ grouped.num_per_page)
    × ((length page ≡ grouped.num_per_page) ⊎ (num_remaining ltb moved ≡ 0))
    × (length page + num_remaining ltb moved ≤ num_remaining ltb grouped)
    × (moved.num_returned ≡ grouped.num_returned + length page)
get_next_page_lem_example = get_next_page_lem ltb filter_data_of grouped

abbrev one_state : Manager ℕ
one_state = record {
  max_total_hits = 3;
  num_total_hits = 2;
  result_state_map = (101, plain_pair) ∷ [];
  token_queue = 100 ∷ 101 ∷ [];
  invalidated_token_set = 100 ∷ [];
}

one_state-IsSound : IsSound one_state
unfolding make_result_state build_heap_in_place is_better
one_state-IsSound = record {
  exact = refl;
  covered = (refl, tt);
  fresh = (refl, tt);
  distinct = (refl, tt);
}

abbrev taken_in : Option (Manager ℕ) → Bool
taken_in none = false
taken_in (some c) = is_taken c 103

token_is_free :
    (c : Manager ℕ)
    → remove_states_if_needed one_state (length plain_pair.scored_document_hits) ≡ some c
    → is_taken c 103 ≡ false
unfolding make_result_state build_heap_in_place remove_states_if_needed is_better
token_is_free c e = ap taken_in (sym e)

add_lem_example :
    (m' : Manager ℕ) × (add ltb filter_data_of one_state plain_pair 103 ≡ some m')
    × IsSound m'
    × (m'.num_total_hits ≤ one_state.max_total_hits)
    × (m'.max_total_hits ≡ one_state.max_total_hits)
add_lem_example =
    add_lem ltb filter_data_of one_state plain_pair 103 one_state-IsSound token_is_free

abbrev draw : ℕ → ℕ
draw zero = 101
draw (suc n) = 102

draws_taken : (j : ℕ) → j < 1 → is_taken one_state (draw (0 + j)) ≡ true
draws_taken zero h = refl
draws_taken (suc j) h = absurd (omega arith)

one_state-fits : total one_state.result_state_map ≤ one_state.num_total_hits
unfolding make_result_state build_heap_in_place is_better
one_state-fits = omega arith

manager_get_next_page_lem_example :
    let (page, moved) = get_next_page ltb filter_data_of plain_pair in
    let after = (manager_get_next_page ltb filter_data_of one_state 101).2 in
    let dropped =
      length plain_pair.scored_document_hits - (length page + length moved.scored_document_hits) in
    after.num_total_hits + total one_state.result_state_map
    ≡ one_state.num_total_hits + (total after.result_state_map + dropped)
manager_get_next_page_lem_example =
    manager_get_next_page_lem ltb filter_data_of one_state 101 plain_pair refl one_state-fits

pair_pages_size : 0 < plain_pair.num_per_page
unfolding make_result_state
pair_pages_size = omega arith

pair_calls : num_remaining ltb plain_pair ≤ 2
unfolding make_result_state build_heap_in_place is_better
pair_calls = omega arith

all_pages_lem_example :
    let (pages, last) = all_pages ltb filter_data_of 2 plain_pair in
    (num_remaining ltb last ≡ 0)
    × (length pages ≤ num_remaining ltb plain_pair)
    × (hits_in ltb filter_data_of pages ≤ num_remaining ltb plain_pair)
    × Full ltb filter_data_of plain_pair.num_per_page pages
    × (last.num_returned ≡ plain_pair.num_returned + hits_in ltb filter_data_of pages)
all_pages_lem_example = all_pages_lem ltb filter_data_of 2 plain_pair pair_pages_size pair_calls
