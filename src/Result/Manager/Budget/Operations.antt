-- ===== src/Result/Manager/Budget/Operations.antt =====
-- How the operations of ResultStateManager keep to the budget.
use external_icing.Base.{
  ℕ, ◌+◌, ◌≤◌, ◌≡◌, refl, sym, ap, ◌∙◌, true, false, List, [], ◌∷◌, some, arith, ltb, ◌==◌, ==_iff,
  Bool-cases, Option-cases, inl, inr,
}
use external_icing.Iterator.Select.Filter.{has_id}
use external_icing.Result.{lookup}
use external_icing.Result.Manager.{
  Manager, erase_id, internal_invalidate_result_state, drop_invalidated, remove_oldest,
}
use external_icing.Result.Manager.Budget.{
  States, total, Covered, Fresh, Distinct, total-erase, Distinct-erase, Covered-erase, Covered-tail,
}

has_id-erase_id :
    (id token : ℕ) (ids : List ℕ) → has_id id ids ≡ false → has_id id (erase_id token ids) ≡ false
has_id-erase_id id token [] e = refl
has_id-erase_id id token (k ∷ ids) e = ground (arith, has_id-erase_id id token ids, e)

module _ {Score : Type 0} where
  Fresh-erase_id :
      (token : ℕ) (ids : List ℕ) (entries : States Score)
      → Fresh ids entries
      → Fresh (erase_id token ids) entries
  Fresh-erase_id token ids [] f = tt
  Fresh-erase_id token ids (entry ∷ entries) f =
      (has_id-erase_id entry.0 token ids f.0, Fresh-erase_id token ids entries f.1)

  Covered-skip :
      (token : ℕ) (queue ids : List ℕ) (entries : States Score)
      → has_id token ids ≡ true
      → Fresh ids entries
      → Covered (token ∷ queue) entries
      → Covered queue entries
  Covered-skip token queue ids [] e f c = tt
  Covered-skip token queue ids (entry ∷ entries) e f c =
      let apart : (token == entry.0) ≡ false = elim (Bool-cases (token == entry.0)) [
        | inl k ↦
            let same = ap (λ (t : ℕ). has_id t ids) ((==_iff token entry.0).0 k) in
            absurd (ground (arith, sym e ∙ same ∙ f.0))
        | inr k ↦ k
      ] in
      (ground (arith, apart, c.0), Covered-skip token queue ids entries e f.1 c.1)

  -- Step 2 drops stale tokens only.
  pub drop_invalidated_lem :
      (queue ids : List ℕ) (entries : States Score)
      → Covered queue entries
      → Fresh ids entries
      → let r = drop_invalidated queue ids in Covered (r.0) entries × Fresh (r.1) entries
  unfolding drop_invalidated
  drop_invalidated_lem [] ids entries c f = (c, f)
  drop_invalidated_lem (token ∷ queue) ids entries c f = elim (Bool-cases (has_id token ids)) [
    | inl k ↦ rw k (
        drop_invalidated_lem queue (erase_id token ids) entries
          (Covered-skip token queue ids entries k f c) (Fresh-erase_id token ids entries f))
    | inr k ↦ rw k (c, f)
  ]

  -- A state is sound for step 3 when its counts are exact and its tokens are in the queue.
  abbrev pub Holds : List ℕ → Manager Score → Type 0
  Holds queue m =
      (m.num_total_hits ≡ total m.result_state_map)
      × Covered queue m.result_state_map
      × Distinct m.result_state_map

  invalidate-Holds :
      (token : ℕ) (queue : List ℕ) (m : Manager Score)
      → Holds (token ∷ queue) m
      → Holds queue (internal_invalidate_result_state m token)
  unfolding internal_invalidate_result_state
  invalidate-Holds token queue m h = elim (Option-cases (lookup token m.result_state_map)) [
    | inl e ↦
        rw (e, internal_invalidate_result_state)
          (h.0, Covered-tail token queue m.result_state_map e h.1, h.2)
    | inr (r, e) ↦
        rw (e, internal_invalidate_result_state)
          (
            omega (arith, h.0, total-erase token m.result_state_map r e),
            Covered-erase token queue m.result_state_map h.2 h.1,
            Distinct-erase token m.result_state_map h.2,
          )
  ]

  max_total_hits-invalidate :
      (m : Manager Score) (token : ℕ)
      → (internal_invalidate_result_state m token).max_total_hits ≡ m.max_total_hits
  unfolding internal_invalidate_result_state
  max_total_hits-invalidate m token = elim (Option-cases (lookup token m.result_state_map)) [
    | inl e ↦ rw (e, internal_invalidate_result_state) refl
    | inr (r, e) ↦ rw (e, internal_invalidate_result_state) refl
  ]

  -- Step 3 ends within the budget, and never reaches the front of an empty queue.
  pub remove_oldest_lem :
      (remaining : ℕ) (queue : List ℕ) (m : Manager Score)
      → remaining ≤ m.max_total_hits
      → Holds queue m
      → (m' : Manager Score) × (remove_oldest remaining queue m ≡ some m')
        × (remaining + m'.num_total_hits ≤ m.max_total_hits)
        × Holds m'.token_queue m'
        × (m'.max_total_hits ≡ m.max_total_hits)
  unfolding remove_oldest
  remove_oldest_lem remaining [] m fits h =
      let empty : total m.result_state_map ≡ 0 = no_tokens m.result_state_map h.1 in
      (
        record m { token_queue = [] },
        ground (arith, empty, h.0, fits),
        omega (arith, empty, h.0, fits),
        h,
        refl,
      )
    where
      no_tokens : (entries : States Score) → Covered [] entries → total entries ≡ 0
      no_tokens [] c = refl
      no_tokens (entry ∷ entries) c = cc
  remove_oldest_lem remaining (token ∷ queue) m fits h =
      elim (Bool-cases (ltb m.max_total_hits (remaining + m.num_total_hits))) [
        | inl over ↦
            let same = max_total_hits-invalidate m token in
            let rest =
              remove_oldest_lem remaining queue (internal_invalidate_result_state m token)
                (omega (arith, same)) (invalidate-Holds token queue m h) in
            (rest.0, rw over rest.1, omega (arith, rest.2, same), rest.3, rest.4 ∙ same)
        | inr within ↦ (
          record m { token_queue = token ∷ queue },
          rw within refl,
          ground (arith, within),
          h,
          refl,
        )
      ]
