-- ===== src/Result/Manager/Safety.antt =====
-- The entry points of icing/result/result-state-manager.cc: no undefined behaviour, and the budget.
use external_icing.Base.{
  ℕ, zero, suc, ◌+◌, ◌≤◌, ◌<◌, min, ◌≡◌, refl, subst, Bool, true, false, ◌||◌, List, [], ◌∷◌, ◌++◌,
  Option, none, some, arith, ltb, length, Bool-cases, Option-cases, inl, inr,
}
use external_icing.Iterator.Select.Filter.{DocumentFilterData, has_id, is_empty}
use external_icing.Scoring.Ranker.{is_better}
use external_icing.Scoring.Ranker.Count.{pop_top_results_from_heap_lem}
use external_icing.Result.{ResultState, lookup, truncate_hits_to}
use external_icing.Result.Manager.{
  Manager, remove_states_if_needed, internal_invalidate_all_result_states, drop_invalidated,
  is_taken, add, get_unique_token,
}
use external_icing.Result.Manager.Budget.{States, total, Covered, Fresh, IsSound}
use external_icing.Result.Manager.Budget.Operations.{remove_oldest_lem, drop_invalidated_lem}

has_id-snoc : (token : ℕ) (queue : List ℕ) → has_id token (queue ++ (token ∷ [])) ≡ true
has_id-snoc token [] = ground arith
has_id-snoc token (k ∷ queue) = ground (arith, has_id-snoc token queue)

has_id-append :
    (id token : ℕ) (queue : List ℕ)
    → has_id id queue ≡ true
    → has_id id (queue ++ (token ∷ [])) ≡ true
has_id-append id token [] e = cc
has_id-append id token (k ∷ queue) e = ground (arith, has_id-append id token queue, e)

module _ {Score : Type 0} where
  -- What the clean-up before a new state leaves: a sound manager with room for the state, cut to
  -- the budget.
  abbrev Cleaned : Manager Score → ℕ → Manager Score → Type 0
  Cleaned m remaining m' =
      IsSound m'
      × (min remaining m.max_total_hits + m'.num_total_hits ≤ m.max_total_hits)
      × (m'.max_total_hits ≡ m.max_total_hits)

  no-Fresh : (entries : States Score) → Fresh [] entries
  no-Fresh [] = tt
  no-Fresh (entry ∷ entries) = (refl, no-Fresh entries)

  total_nil :
      (entries : States Score) (queue : List ℕ)
      → is_empty entries || is_empty queue ≡ true
      → Covered queue entries
      → total entries ≡ 0
  total_nil [] queue e c = refl
  total_nil (entry ∷ entries) [] e c = cc
  total_nil (entry ∷ entries) (token ∷ queue) e c = cc

  -- The clean-up of a sound manager never reads the front of an empty queue, keeps the manager
  -- sound, and leaves room for the new state, cut to the budget.
  pub remove_states_if_needed_lem :
      (m : Manager Score) (remaining : ℕ)
      → IsSound m
      → (m' : Manager Score) × (remove_states_if_needed m remaining ≡ some m')
        × IsSound m'
        × (min remaining m.max_total_hits + m'.num_total_hits ≤ m.max_total_hits)
        × (m'.max_total_hits ≡ m.max_total_hits)
  unfolding remove_states_if_needed internal_invalidate_all_result_states
  remove_states_if_needed_lem m remaining v =
      elim (Bool-cases (is_empty m.result_state_map || is_empty m.token_queue)) [
        | inl idle ↦
            let nothing = total_nil m.result_state_map m.token_queue idle v.covered in
            (m, rw idle refl, v, omega (arith, v.exact, nothing), refl)
        | inr busy ↦ elim (Bool-cases (ltb m.max_total_hits remaining)) [
          | inl large ↦ (
            internal_invalidate_all_result_states m,
            rw (busy, large) refl,
            record { exact = refl; covered = tt; fresh = tt; distinct = tt },
            omega arith,
            refl,
          )
          | inr fits ↦
              let dropped =
                drop_invalidated_lem m.token_queue m.invalidated_token_set m.result_state_map
                  v.covered v.fresh in
              let cut = drop_invalidated m.token_queue m.invalidated_token_set in
              let start : Manager Score = record m { invalidated_token_set = cut.1 } in
              let small : remaining ≤ m.max_total_hits = ground (arith, fits) in
              let done =
                remove_oldest_lem remaining cut.0 start small (v.exact, dropped.0, v.distinct) in
              (
                record (done.0) { invalidated_token_set = [] },
                rw (busy, fits, done.1) refl,
                record {
                  exact = done.3.0;
                  covered = done.3.1;
                  fresh = no-Fresh done.0.result_state_map;
                  distinct = done.3.2;
                },
                omega (arith, done.2),
                done.4,
              )
        ]
      ]

  length-truncate_hits_to :
      (score_less : Score → Score → Bool) (r : ResultState Score) (n : ℕ)
      → length (truncate_hits_to score_less r n).scored_document_hits
        ≡ min (length r.scored_document_hits) n
  unfolding truncate_hits_to
  length-truncate_hits_to score_less r n =
      let counts =
        pop_top_results_from_heap_lem (is_better score_less r.is_descending) (λ x. true)
          r.scored_document_hits n in
      ground (arith, counts.1)

  Covered-append :
      (token : ℕ) (queue : List ℕ) (entries : States Score)
      → Covered queue entries
      → Covered (queue ++ (token ∷ [])) entries
  Covered-append token queue [] c = tt
  Covered-append token queue (entry ∷ entries) c =
      (has_id-append entry.0 token queue c.0, Covered-append token queue entries c.1)

  untaken :
      (m : Manager Score) (token : ℕ)
      → is_taken m token ≡ false
      → (lookup token m.result_state_map ≡ none) × (has_id token m.invalidated_token_set ≡ false)
  untaken m token e = elim (Option-cases (lookup token m.result_state_map)) [
    | inl none_there ↦ (none_there, ground (arith, none_there, e))
    | inr (r, there) ↦ absurd (ground (arith, there, e))
  ]

  -- Adding a state to a sound manager, with a token that is not taken after the clean-up, has
  -- defined behaviour, keeps the manager sound, and ends within the budget.
  pub add_lem :
      (score_less : Score → Score → Bool) (get_document_filter_data : ℕ → Option DocumentFilterData)
      (m : Manager Score) (r : ResultState Score) (token : ℕ)
      → IsSound m
      → ((c : Manager Score)
          → remove_states_if_needed m (length r.scored_document_hits) ≡ some c
          → is_taken c token ≡ false)
      → (m' : Manager Score) × (add score_less get_document_filter_data m r token ≡ some m')
        × IsSound m'
        × (m'.num_total_hits ≤ m.max_total_hits)
        × (m'.max_total_hits ≡ m.max_total_hits)
  unfolding add
  add_lem score_less get_document_filter_data m r token v free =
      let (c, cleaned, sound, room, same) =
        remove_states_if_needed_lem m (length r.scored_document_hits) v in
      let (absent, valid) = untaken c token (free c cleaned) in
      let kept = truncate_hits_to score_less r m.max_total_hits in
      let size = length-truncate_hits_to score_less r m.max_total_hits in
      (
        record c {
          num_total_hits = c.num_total_hits + length kept.scored_document_hits;
          result_state_map = (token, kept) ∷ c.result_state_map;
          token_queue = c.token_queue ++ (token ∷ []);
        },
        rw (cleaned, add) refl,
        record {
          exact = omega (arith, sound.exact);
          covered = (
            has_id-snoc token c.token_queue,
            Covered-append token c.token_queue c.result_state_map sound.covered,
          );
          fresh = (valid, sound.fresh);
          distinct = (absent, sound.distinct);
        },
        omega (arith, room, size),
        same,
      )

  -- Among the draws, GetUniqueToken takes the first token that is not taken.
  pub get_unique_token_lem :
      (fuel : ℕ) (random : ℕ → ℕ) (drawn i : ℕ) (m : Manager Score)
      → i < fuel
      → ((j : ℕ) → j < i → is_taken m (random (drawn + j)) ≡ true)
      → is_taken m (random (drawn + i)) ≡ false
      → get_unique_token fuel random drawn m ≡ some (random (drawn + i), suc (drawn + i))
  unfolding get_unique_token
  get_unique_token_lem zero random drawn i m h taken free = absurd (omega arith)
  get_unique_token_lem (suc fuel) random drawn zero m h taken free =
      let start : drawn + 0 ≡ drawn = omega arith in
      rw (start, subst (λ (k : ℕ). is_taken m (random k) ≡ false) start free) refl
  get_unique_token_lem (suc fuel) random drawn (suc i) m h taken free =
      let start : drawn + 0 ≡ drawn = omega arith in
      let next = λ (j : ℕ). the_sum drawn j in
      rw (subst (λ (k : ℕ). is_taken m (random k) ≡ true) start (taken 0 (omega arith)), next i)
        (get_unique_token_lem fuel random (suc drawn) i m (omega arith)
          (λ j k.
            subst (λ (n : ℕ). is_taken m (random n) ≡ true) (next j) (taken (suc j) (omega arith)))
          (subst (λ (n : ℕ). is_taken m (random n) ≡ false) (next i) free))
    where
      the_sum : (a b : ℕ) → a + suc b ≡ suc a + b
      the_sum a b = omega arith
