-- ===== src/Iterator/AndNary/Loop.antt =====
-- The search of the n-ary AND of icing/index/iterator/doc-hit-info-iterator-and.cc for the next document that
-- all of its iterators have.
use external_icing.Base.{
  ℕ, zero, suc, ◌≤◌, ◌<◌, ◌≡◌, refl, sym, ap, ◌∙◌, inl, inr, true, false, List, some, arith, map,
  if◌then◌else◌, trichotomy, below, same, above,
}
use external_icing.Iterator.{
  Match, Status, ok, resource_exhausted, invalid_argument, out_of_fuel, Operations, Enumerates,
}
use external_icing.Iterator.Row.{Row, Round, finished, passed, failed, in_row}
use external_icing.Iterator.Row.Columns.{Columns, finds, lacks, Rounds, Fails, RowLaw, InRowYields}
use external_icing.Iterator.Row.InRow.{in_row-RowLaw}
use external_icing.Iterator.AndNary.{and_nary_loop}

module _ {S R : Type 0} (it : Operations S) (tail : Row R) (Yields : S → List Match → Type 0)
    (TailYields : R → Columns → Type 0) (law : Enumerates S it Yields)
    (tail_law : RowLaw tail TailYields) where
  abbrev pub row : Row (S × R)
  row = in_row it tail

  abbrev pub RowYields : S × R → Columns → Type 0
  RowYields = InRowYields it tail Yields TailYields

  -- How the loop ends: at a document that all iterators stand at, or with an error.
  pub record Stands (p : ℕ) (c : Columns) (r : S × R) : Type 0 where
    pub after : Columns
    pub yields : RowYields r after
    pub at : ℕ
    pub low : at ≤ p
    pub all_there : finds at after ≡ map some (row.currents r)
    pub lacking : (d : ℕ) → at < d → d ≤ p → lacks (finds d c) ≡ true
    pub kept : (d : ℕ) → d ≤ at → finds d after ≡ finds d c

  abbrev pub Loops : ℕ → Columns → Status × (S × R) → Type 0
  Loops p c (ok, r) = Stands p c r
  Loops p c (status, r) = (status ≡ resource_exhausted) × Fails row RowYields p c r

  -- A round that goes on, and those behind it.
  goes_on :
      (p q : ℕ) (c c' : Columns) (t : Status × (S × R))
      → q < p
      → ((d : ℕ) → q < d → d ≤ p → lacks (finds d c) ≡ true)
      → ((d : ℕ) → d ≤ p → finds d c' ≡ finds d c)
      → Loops q c' t
      → Loops p c t
  goes_on p q c c' (ok, r) h lacking kept t = record {
    after = t.after;
    yields = t.yields;
    at = t.at;
    low = omega (arith, t.low, h);
    all_there = t.all_there;
    lacking = λ d k l. elim (trichotomy q d) [
      | below m ↦ lacking d m l
      | same m ↦ ap lacks (sym (kept d l)) ∙ t.lacking d k (omega (arith, m))
      | above m ↦ ap lacks (sym (kept d l)) ∙ t.lacking d k (omega (arith, m))
    ];
    kept = λ d k. t.kept d k ∙ kept d (omega (arith, k, t.low, h));
  }
  goes_on p q c c' (resource_exhausted, r) h lacking kept t = (
    refl,
    record {
      after = (t.1).after;
      yields = (t.1).yields;
      lacking = λ d l. elim (trichotomy q d) [
        | below m ↦ lacking d m l
        | same m ↦ ap lacks (sym (kept d l)) ∙ (t.1).lacking d (omega (arith, m))
        | above m ↦ ap lacks (sym (kept d l)) ∙ (t.1).lacking d (omega (arith, m))
      ];
      lacks_after = (t.1).lacks_after;
    },
  )
  goes_on p q c c' (invalid_argument, r) h lacking kept t = absurd (cc)
  goes_on p q c c' (out_of_fuel, r) h lacking kept t = absurd (cc)

  -- The end of a round, and the rounds behind it.
  round_lem :
      (fuel p : ℕ) (c : Columns)
      → ((q : ℕ) (r : S × R) (c' : Columns)
          → RowYields r c'
          → q < p
          → Loops q c' (and_nary_loop row fuel false q r))
      → (t : Round × (S × R)) → Rounds row RowYields false p c t
      → Loops p c (elim (t.0) [
        | finished found ↦ if found then (ok, t.1) else and_nary_loop row fuel false p (t.1)
        | passed d ↦ and_nary_loop row fuel false d (t.1)
        | failed status ↦ (status, t.1)
      ])
  unfolding in_row
  round_lem fuel p c next (finished true, r) t = record {
    after = t.after;
    yields = t.yields;
    at = p;
    low = omega arith;
    all_there = t.all_there;
    lacking = λ d k l. absurd (omega (arith, k, l));
    kept = t.kept;
  }
  round_lem fuel p c next (finished false, r) t = elim t.whole [
    | inl e ↦ absurd (ground arith)
    | inr e ↦ absurd (omega (arith, e.1))
  ]
  round_lem fuel p c next (passed q, r) t =
      goes_on p q c t.after (and_nary_loop row fuel false q r) t.lower t.lacking t.kept
        (next q r t.after t.yields t.lower)
  round_lem fuel p c next (failed ok, r) t = absurd (ground (arith, t.0))
  round_lem fuel p c next (failed resource_exhausted, r) t = t
  round_lem fuel p c next (failed invalid_argument, r) t = absurd (ground (arith, t.0))
  round_lem fuel p c next (failed out_of_fuel, r) t = absurd (ground (arith, t.0))

  -- Each round that goes on has a lower document, so there are rounds enough.
  pub loop_lem :
      (fuel p : ℕ) (r : S × R) (c : Columns)
      → RowYields r c
      → p < fuel
      → Loops p c (and_nary_loop row fuel false p r)
  unfolding and_nary_loop
  loop_lem zero p r c y h = absurd (omega (arith, h))
  loop_lem (suc fuel) p r c y h =
      round_lem fuel p c (λ q r' c' y' k. loop_lem fuel q r' c' y' (omega (arith, h, k)))
        (row.and_round false p r)
        ((in_row-RowLaw it tail Yields TailYields law tail_law).and_law false p r c y)
