-- ===== src/Iterator/Row/Sweep.antt =====
-- The loop over a row that an n-ary AND makes in a round, with an iterator in front of the row.
use external_icing.Base.{
  ℕ, ◌<◌, ◌≡◌, refl, sym, ap, ap₂, ◌∙◌, inl, inr, Bool, true, ◌||◌, List, [], ◌∷◌, Option, arith,
  ltb, ◌==◌, Bool-cases, ==_iff,
}
use external_icing.Iterator.{
  Match, doc, Status, ok, resource_exhausted, invalid_argument, out_of_fuel, Operations, Enumerates,
}
use external_icing.Iterator.Row.{Row, Round, finished, passed, failed, in_row, and_body}
use external_icing.Iterator.Row.Approach.{Arrives, Approached, at-above}
use external_icing.Iterator.Row.Columns.{
  Columns, finds, is_none, lacks, Rounds, RowLaw, InRowYields, column, behind,
}

module _ {S R : Type 0} (it : Operations S) (row : Row R) (Yields : S → List Match → Type 0)
    (RowYields : R → Columns → Type 0) (law : Enumerates S it Yields)
    (row_law : RowLaw row RowYields) where
  abbrev pub Ends : Bool → ℕ → Columns → Round × (S × R) → Type 0
  Ends = Rounds (in_row it row) (InRowYields it row Yields RowYields)

  -- The iterator stands at the document, and the rest of the row is looked at.
  matches :
      (found : Bool) (p : ℕ) (s : S) (xs : List Match) (c : Columns) (s' : S)
      → Arrives it Yields law s xs p s'
      → doc (it.current s') ≡ p
      → (t : Round × R) → Rounds row RowYields true p c t
      → Ends found p (column it row Yields RowYields s xs ∷ c) (t.0, (s', t.1))
  unfolding in_row
  matches found p s xs c s' a h (finished found', r') t = record {
    after = column it row Yields RowYields s' a.before ∷ t.after;
    yields = behind it row Yields RowYields s' a.before r' t.after a.yields t.yields;
    whole = inl (elim t.whole [ inl e ↦ e | inr e ↦ e.0 ]);
    all_there = ap₂ (◌∷◌) (ground (arith, h)) t.all_there;
    kept = λ d k. ap₂ (◌∷◌) (a.same d k) (t.kept d k);
  }
  matches found p s xs c s' a h (passed q, r') t = record {
    after = column it row Yields RowYields s' a.before ∷ t.after;
    yields = behind it row Yields RowYields s' a.before r' t.after a.yields t.yields;
    lower = t.lower;
    lacking = λ d k l. ground (arith, t.lacking d k l);
    kept = λ d k. ap₂ (◌∷◌) (a.same d k) (t.kept d k);
  }
  matches found p s xs c s' a h (failed status, r') t = (
    t.0,
    record {
      after = column it row Yields RowYields s' a.before ∷ (t.1).after;
      yields = behind it row Yields RowYields s' a.before r' (t.1).after a.yields (t.1).yields;
      lacking = λ d k. ground (arith, (t.1).lacking d k);
      lacks_after = λ d k. ground (arith, (t.1).lacks_after d k);
    },
  )

  -- The iterator is past the document.
  falls_short :
      (found : Bool) (p : ℕ) (s : S) (xs : List Match) (r : R) (c : Columns) (s' : S)
      → RowYields r c
      → Arrives it Yields law s xs p s'
      → doc (it.current s') < p
      → Ends found p
          (column it row Yields RowYields s xs ∷ c)
          (passed (doc (it.current s')), (s', r))
  unfolding in_row
  falls_short found p s xs r c s' y a h = record {
    after = column it row Yields RowYields s' a.before ∷ c;
    yields = behind it row Yields RowYields s' a.before r c a.yields y;
    lower = h;
    lacking = λ d k l.
        let none_there = sym (a.same d l) ∙ at-above it Yields law s' a.before d a.yields k in
        ap (λ (o : Option Match). is_none o || lacks (finds d c)) none_there;
    kept = λ d k. ap (λ (o : Option Match). o ∷ finds d c) (a.same d k);
  }

  pub body_lem :
      (found : Bool) (p : ℕ) (s : S) (xs : List Match) (r : R) (c : Columns)
      → RowYields r c
      → (moved : Status × S) → Approached it Yields law s xs p moved
      → Ends found p (column it row Yields RowYields s xs ∷ c) (and_body it row found p r moved)
  unfolding in_row
  body_lem found p s xs r c y (ok, s') a = elim (Bool-cases (doc (it.current s') == p)) [
    | inl here ↦ rw here (
        matches found p s xs c s' a ((==_iff (doc (it.current s')) p).0 here)
          (row.and_round true p r) (row_law.and_law true p r c y))
    | inr elsewhere ↦
        let under : doc (it.current s') < p = ground (arith, elsewhere, a.near) in
        let under' : ltb (doc (it.current s')) p ≡ true = ground (arith, under) in
        rw (elsewhere, under') (falls_short found p s xs r c s' y a under)
  ]
  body_lem found p s xs r c y (resource_exhausted, s') a = (
    refl,
    record {
      after = column it row Yields RowYields s' [] ∷ c;
      yields = behind it row Yields RowYields s' [] r c (a.1) y;
      lacking = λ d k. ap (λ (o : Option Match). is_none o || lacks (finds d c)) (a.3 d k);
      lacks_after = λ d k. ground (arith, a.2, k);
    },
  )
  body_lem found p s xs r c y (invalid_argument, s') a = absurd (cc)
  body_lem found p s xs r c y (out_of_fuel, s') a = absurd (cc)
