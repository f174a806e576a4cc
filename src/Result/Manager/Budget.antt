-- ===== src/Result/Manager/Budget.antt =====
-- The budget of ResultStateManager: `num_total_hits` against the hits that the states hold.
pub mod Operations
use external_icing.Base.{
  ℕ, zero, suc, ◌+◌, ◌-◌, ◌≤◌, ◌<◌, min, ◌≡◌, refl, sym, ap, subst, ◌∙◌, Bool, true, false, ◌||◌,
  List, [], ◌∷◌, ◌++◌, Option, none, some, arith, ltb, leb, ◌==◌, ==_iff, if◌then◌else◌, length,
  Bool-cases, Option-cases, inl, inr,
}
use external_icing.Iterator.Select.Filter.{has_id}
use external_icing.Result.{ResultState, lookup}
use external_icing.Result.Manager.{
  Manager, erase, erase_id, internal_invalidate_result_state, drop_invalidated, remove_oldest,
}

abbrev pub States : Type 0 → Type 0
States Score = List (ℕ × ResultState Score)

module _ {Score : Type 0} where
  -- The hits that the states still hold.
  abbrev pub total : States Score → ℕ
  total [] = 0
  total (entry ∷ entries) = length (entry.1).scored_document_hits + total entries

  -- Every token of the map is in the queue.
  abbrev pub Covered : List ℕ → States Score → Type 0
  Covered queue [] = Unit {0}
  Covered queue (entry ∷ entries) = (has_id entry.0 queue ≡ true) × Covered queue entries

  -- No token of the map is in the set of the invalidated ones.
  abbrev pub Fresh : List ℕ → States Score → Type 0
  Fresh invalidated [] = Unit {0}
  Fresh invalidated (entry ∷ entries) =
      (has_id entry.0 invalidated ≡ false) × Fresh invalidated entries

  -- No token is twice in the map.
  abbrev pub Distinct : States Score → Type 0
  Distinct [] = Unit {0}
  Distinct (entry ∷ entries) = (lookup entry.0 entries ≡ none) × Distinct entries

  -- What holds of a manager whose states all count as long as they hold hits.
  pub record IsSound (m : Manager Score) : Type 0 where
    pub exact : m.num_total_hits ≡ total m.result_state_map
    pub covered : Covered m.token_queue m.result_state_map
    pub fresh : Fresh m.invalidated_token_set m.result_state_map
    pub distinct : Distinct m.result_state_map

  pub total-erase :
      (token : ℕ) (entries : States Score) (r : ResultState Score)
      → lookup token entries ≡ some r
      → total (erase token entries) + length r.scored_document_hits ≡ total entries
  total-erase token [] r e = cc
  total-erase token (entry ∷ entries) r e = elim (Bool-cases (entry.0 == token)) [
    | inl k ↦
        let here : some entry.1 ≡ some r = sym (rw k refl) ∙ e in rw k (omega (arith, ap size here))
    | inr k ↦
        let later : lookup token entries ≡ some r = sym (rw k refl) ∙ e in
        rw k (omega (arith, total-erase token entries r later))
  ]
    where
      size : Option (ResultState Score) → ℕ
      size none = 0
      size (some r) = length r.scored_document_hits

  pub lookup-erase :
      (key token : ℕ) (entries : States Score)
      → lookup key entries ≡ none
      → lookup key (erase token entries) ≡ none
  lookup-erase key token [] e = refl
  lookup-erase key token (entry ∷ entries) e = ground (arith, lookup-erase key token entries, e)

  pub Distinct-erase :
      (token : ℕ) (entries : States Score) → Distinct entries → Distinct (erase token entries)
  Distinct-erase token [] d = tt
  Distinct-erase token (entry ∷ entries) d = elim (Bool-cases (entry.0 == token)) [
    | inl k ↦ rw k d.1
    | inr k ↦ rw k (lookup-erase entry.0 token entries d.0, Distinct-erase token entries d.1)
  ]

  pub Fresh-erase :
      (ids : List ℕ) (token : ℕ) (entries : States Score)
      → Fresh ids entries
      → Fresh ids (erase token entries)
  Fresh-erase ids token [] f = tt
  Fresh-erase ids token (entry ∷ entries) f = elim (Bool-cases (entry.0 == token)) [
    | inl k ↦ rw k f.1
    | inr k ↦ rw k (f.0, Fresh-erase ids token entries f.1)
  ]

  -- A token that the map does not have need not be in the queue.
  pub Covered-tail :
      (token : ℕ) (queue : List ℕ) (entries : States Score)
      → lookup token entries ≡ none
      → Covered (token ∷ queue) entries
      → Covered queue entries
  Covered-tail token queue [] e c = tt
  Covered-tail token queue (entry ∷ entries) e c = elim (Bool-cases (entry.0 == token)) [
    | inl k ↦ cc
    | inr k ↦
        let later : lookup token entries ≡ none = sym (rw k refl) ∙ e in
        (ground (arith, k, c.0), Covered-tail token queue entries later c.1)
  ]

  pub Covered-erase :
      (token : ℕ) (queue : List ℕ) (entries : States Score)
      → Distinct entries
      → Covered (token ∷ queue) entries
      → Covered queue (erase token entries)
  Covered-erase token queue [] d c = tt
  Covered-erase token queue (entry ∷ entries) d c = elim (Bool-cases (entry.0 == token)) [
    | inl k ↦
        let same : entry.0 ≡ token = (==_iff entry.0 token).0 k in
        rw k (
          Covered-tail token queue entries (subst (λ (t : ℕ). lookup t entries ≡ none) same d.0)
            c.1)
    | inr k ↦ rw k (ground (arith, k, c.0), Covered-erase token queue entries d.1 c.1)
  ]
