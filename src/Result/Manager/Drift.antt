-- ===== src/Result/Manager/Drift.antt =====
-- GetNextPage and InvalidateResultState of icing/result/result-state-manager.cc: how far
-- `num_total_hits` and the hits that the states hold move apart.
use external_icing.Base.{
  ℕ, ◌+◌, ◌-◌, ◌≤◌, ◌≡◌, refl, sym, ap, subst, ◌∙◌, Bool, true, false, List, [], ◌∷◌, Option, none,
  some, arith, ltb, ◌==◌, ==_iff, ==_self, length, Bool-cases, Option-cases, inl, inr,
}
use external_icing.Iterator.Select.Filter.{DocumentFilterData, is_empty}
use external_icing.Result.{ResultState, lookup, get_next_page}
use external_icing.Result.Page.{get_next_page_lem}
use external_icing.Result.Manager.{
  Manager, erase, replace, internal_invalidate_result_state, invalidate_result_state,
  manager_get_next_page, invalid_next_page_token,
}
use external_icing.Result.Manager.Budget.{States, total, total-erase, Distinct}

length-is_empty : {A : Type 0} (xs : List A) → is_empty xs ≡ true → length xs ≡ 0
length-is_empty [] e = refl
length-is_empty (x ∷ xs) e = cc

module _ {Score : Type 0} where
  total-replace :
      (token : ℕ) (r v : ResultState Score) (entries : States Score)
      → lookup token entries ≡ some r
      → total (replace token v entries) + length r.scored_document_hits
        ≡ total entries + length v.scored_document_hits
  total-replace token r v [] e = cc
  total-replace token r v (entry ∷ entries) e = elim (Bool-cases (entry.0 == token)) [
    | inl k ↦
        let here : some entry.1 ≡ some r = sym (rw k refl) ∙ e in rw k (omega (arith, ap size here))
    | inr k ↦
        let later : lookup token entries ≡ some r = sym (rw k refl) ∙ e in
        rw k (omega (arith, total-replace token r v entries later))
  ]
    where
      size : Option (ResultState Score) → ℕ
      size none = 0
      size (some r) = length r.scored_document_hits

  lookup-replace :
      (token : ℕ) (r v : ResultState Score) (entries : States Score)
      → lookup token entries ≡ some r
      → lookup token (replace token v entries) ≡ some v
  lookup-replace token r v [] e = cc
  lookup-replace token r v (entry ∷ entries) e = elim (Bool-cases (entry.0 == token)) [
    | inl k ↦ rw k (rw (==_self token) refl)
    | inr k ↦
        let later : lookup token entries ≡ some r = sym (rw k refl) ∙ e in
        rw k (rw k (lookup-replace token r v entries later))
  ]

  num_total_hits-invalidate :
      (m : Manager Score) (token : ℕ) (v : ResultState Score)
      → lookup token m.result_state_map ≡ some v
      → let gone = internal_invalidate_result_state m token in
        (gone.num_total_hits ≡ m.num_total_hits - length v.scored_document_hits)
        × (total gone.result_state_map + length v.scored_document_hits ≡ total m.result_state_map)
  unfolding internal_invalidate_result_state
  num_total_hits-invalidate m token v e =
      rw (e, internal_invalidate_result_state) (refl, total-erase token m.result_state_map v e)

  module _ (score_less : Score → Score → Bool)
      (get_document_filter_data : ℕ → Option DocumentFilterData) where
    -- GetNextPage, for a manager that does not count too few hits: `num_total_hits` then exceeds
    -- the hits that the states hold by as much as before, and by the hits that the group limits
    -- took out of the page besides.
    pub manager_get_next_page_lem :
        (m : Manager Score) (token : ℕ) (r : ResultState Score)
        → lookup token m.result_state_map ≡ some r
        → total m.result_state_map ≤ m.num_total_hits
        → let (page, moved) = get_next_page score_less get_document_filter_data r in
          let after = (manager_get_next_page score_less get_document_filter_data m token).2 in
          let dropped =
            length r.scored_document_hits - (length page + length moved.scored_document_hits) in
          after.num_total_hits + total m.result_state_map
          ≡ m.num_total_hits + (total after.result_state_map + dropped)
    unfolding manager_get_next_page
    manager_get_next_page_lem m token r e h =
        let turn = get_next_page score_less get_document_filter_data r in
        let page = turn.0 in
        let moved = turn.1 in
        let paged = get_next_page_lem score_less get_document_filter_data r in
        let stored : Manager Score = record m {
          result_state_map = replace token moved m.result_state_map;
        } in
        let swapped = total-replace token r moved m.result_state_map e in
        let held = total-erase token m.result_state_map r e in
        let gone =
          num_total_hits-invalidate stored token moved
            (lookup-replace token r moved m.result_state_map e) in
        elim (Bool-cases (is_empty page)) [
          | inl nothing ↦
              rw (e, nothing, manager_get_next_page)
                (omega
                  (arith, swapped, gone.0, gone.1, paged.2, h, held, length-is_empty page nothing))
          | inr something ↦ elim (Bool-cases (ltb 0 (length moved.scored_document_hits))) [
            | inl more ↦
                rw (e, something, more, manager_get_next_page)
                  (omega (arith, swapped, paged.2, h, held))
            | inr last ↦
                let none_left : length moved.scored_document_hits ≡ 0 = ground (arith, last) in
                rw (e, something, last, manager_get_next_page)
                  (omega (arith, swapped, gone.0, gone.1, paged.2, h, held, none_left))
          ]
        ]

  -- Invalidating a token, other than the invalid one, takes its state out of the map; the exact
  -- count of the hits stays exact.
  pub invalidate_result_state_lem :
      (m : Manager Score) (token : ℕ)
      → m.num_total_hits ≡ total m.result_state_map
      → Distinct m.result_state_map
      → (token == invalid_next_page_token) ≡ false
      → let after = invalidate_result_state m token in
        (lookup token after.result_state_map ≡ none)
        × (after.num_total_hits ≡ total after.result_state_map)
  unfolding invalidate_result_state internal_invalidate_result_state
  invalidate_result_state_lem m token exact distinct valid =
      elim (Option-cases (lookup token m.result_state_map)) [
        | inl e ↦ rw (valid, e, internal_invalidate_result_state) (e, exact)
        | inr (r, e) ↦
            rw (valid, e, internal_invalidate_result_state)
              (
                lookup-erase_self token m.result_state_map distinct,
                omega (arith, exact, total-erase token m.result_state_map r e),
              )
      ]
    where
      lookup-erase_self :
          (key : ℕ) (entries : States Score)
          → Distinct entries
          → lookup key (erase key entries) ≡ none
      lookup-erase_self key [] d = refl
      lookup-erase_self key (entry ∷ entries) d = elim (Bool-cases (entry.0 == key)) [
        | inl k ↦ rw k (subst (λ (t : ℕ). lookup t entries ≡ none) ((==_iff entry.0 key).0 k) d.0)
        | inr k ↦ rw k (rw k (lookup-erase_self key entries d.1))
      ]
