-- ===== src/Iterator/OrNary/Any.antt =====
-- The n-ary OR of icing/index/iterator/doc-hit-info-iterator-or.cc enumerates the documents that any
-- of its iterators has.
use external_icing.Base.{
  ℕ, ◌-◌, ◌≤◌, ◌<◌, ◌≡◌, refl, sym, ap, ◌∙◌, subst, inl, inr, false, List, [], ◌∷◌, Option, none,
  some, arith, ltb, ◌==◌, Bool-cases, trichotomy, below, same, above, ==_iff,
}
use external_icing.Hit.{invalid_document_id}
use external_icing.Iterator.{
  Match, doc, no_match, Below, Status, ok, resource_exhausted, Enumerates, Moves,
}
use external_icing.Iterator.Matches.{find, find-Below, find-first, some_inj}
use external_icing.Iterator.Row.{Row}
use external_icing.Iterator.Row.Columns.{Columns, finds, nothing, Tops, RowLaw}
use external_icing.Iterator.OrNary.{
  OrNary, collect, or_nary_end, or_nary_found, or_nary_advance, or_nary_operations, make_or_nary,
}
use external_icing.Iterator.OrNary.Collect.{any, any-nothing, any-something, Has, collect_lem}

module _ {R : Type 0} (row : Row R) (RowYields : R → Columns → Type 0)
    (row_law : RowLaw row RowYields) (several : 1 < row.size) where
  pub record OrNaryYields (o : OrNary R) (ms : List Match) : Type 0 where
    pub columns : Columns
    pub yields : RowYields o.iterators columns
    pub agrees : (d : ℕ) → d < doc o.base → find d ms ≡ any (finds d columns)
    pub falls : Below (doc o.base) ms
    pub bound : doc o.base ≤ invalid_document_id

  -- A call of Advance, as in the contract, except that an OR that stood at document 0 starts again.
  abbrev pub MovesOnce : OrNary R → List Match → Status × OrNary R → Type 0
  MovesOnce o [] r =
      (r.0 ≡ resource_exhausted)
      × (doc ((r.1).base) ≡ invalid_document_id)
      × ((0 < doc o.base) → OrNaryYields (r.1) [])
  MovesOnce o (m ∷ ms) r = (r.0 ≡ ok) × ((r.1).base ≡ m) × OrNaryYields (r.1) ms

  module _ (o : OrNary R) (c : Columns) (positive : 0 < doc o.base)
      (bounded : doc o.base ≤ invalid_document_id) where
    abbrev Agree : List Match → Type 0
    Agree ms = (d : ℕ) → d < doc o.base → find d ms ≡ any (finds d c)

    abbrev Rounded : ℕ × R → Type 0
    Rounded = Tops row RowYields (doc o.base - 1) invalid_document_id c

    -- No iterator had a document left.
    ended :
        (ms : List Match)
        → Below (doc o.base) ms
        → Agree ms
        → (q : ℕ) (r : R) (t : Rounded (q, r)) → q ≡ invalid_document_id
        → MovesOnce o ms (or_nary_end row r)
    unfolding no_match
    ended [] b agree q r t e = (
      refl,
      refl,
      λ h. record {
        columns = t.after;
        yields = t.yields;
        agrees = λ d k. sym (any-nothing (finds d t.after) (t.none_above d k (inl e)));
        falls = tt;
        bound = omega arith;
      },
    )
    ended (m ∷ ms) b agree q r t e =
        let gone : find (doc m) (m ∷ ms) ≡ none =
          agree (doc m) b.0
          ∙ ap any (sym (t.kept (doc m) (omega (arith, b.0))))
          ∙ any-nothing (finds (doc m) t.after)
              (t.none_above (doc m) (omega (arith, b.0, bounded)) (inl e)) in
        absurd (ground (arith, gone, find-first m ms))

    -- What is collected is the first document that is left, with what all columns have of it.
    first_left :
        (q : ℕ) (r : R) (t : Rounded (q, r))
        → (q == invalid_document_id) ≡ false
        → let k = collect q no_match (row.currents r) in
          (q < doc o.base) × (any (finds q c) ≡ some k) × (doc k ≡ q)
    unfolding no_match
    first_left q r t e =
        let low : q ≤ doc o.base - 1 = elim (t.low) [
          | inl z ↦ absurd (ground (arith, z, e))
          | inr z ↦ z
        ] in
        let there : nothing (finds q t.after) ≡ false = elim (t.is_there) [
          | inl z ↦ absurd (ground (arith, z, e))
          | inr (inl z) ↦ absurd (ground (arith, z, e))
          | inr (inr z) ↦ z
        ] in
        let small : q < invalid_document_id = omega (arith, low, positive, bounded) in
        let (x, is) = any-something (finds q t.after) there in
        let has : Has q (some x) (collect q no_match (row.currents r)) =
          subst (λ (p : Option Match). Has q p (collect q no_match (row.currents r)))
            (ap any (sym (t.stands q small (inr (omega arith)))) ∙ is)
            (collect_lem q none no_match (row.currents r) small refl) in
        (omega (arith, low, positive), ap any (sym (t.kept q low)) ∙ is ∙ ap some has.0, has.1)

    found_first :
        (ms : List Match)
        → Below (doc o.base) ms
        → Agree ms
        → (q : ℕ) (r : R) (t : Rounded (q, r)) → (q == invalid_document_id) ≡ false
        → MovesOnce o ms (ok, record { iterators = r; base = collect q no_match (row.currents r) })
    found_first [] b agree q r t e =
        let (small, here, own) = first_left q r t e in absurd (ground (arith, here, agree q small))
    found_first (m ∷ ms) b agree q r t e =
        let (small, here, own) = first_left q r t e in
        let k = collect q no_match (row.currents r) in
        let same_doc : doc m ≡ q = elim (trichotomy (doc m) q) [
          | same z ↦ z
          | below z ↦ absurd (
              ground
                (arith, agree q small ∙ here, z, find-Below (doc m) q ms b.1 (omega (arith, z))))
          | above z ↦
              let gone : find (doc m) (m ∷ ms) ≡ none =
                agree (doc m) b.0
                ∙ ap any (sym (t.kept (doc m) (omega (arith, b.0))))
                ∙ any-nothing (finds (doc m) t.after)
                    (t.none_above (doc m) (omega (arith, b.0, bounded)) (inr z)) in
              absurd (ground (arith, gone, find-first m ms))
        ] in
        let is : k ≡ m = some_inj k m (
          sym (agree q small ∙ here)
          ∙ ap (λ (d : ℕ). find d (m ∷ ms)) (sym same_doc)
          ∙ find-first m ms) in
        (
          refl,
          is,
          record {
            columns = t.after;
            yields = t.yields;
            agrees = λ d h.
                let lower : d < q = omega (arith, h, own) in
                let skip : find d (m ∷ ms) ≡ find d ms = ground (arith, lower, same_doc) in
                sym skip
                ∙ agree d (omega (arith, lower, small))
                ∙ ap any (sym (t.kept d (omega (arith, lower, small))));
            falls = subst (λ (d : ℕ). Below d ms) (same_doc ∙ sym own) b.1;
            bound = omega (arith, own, small, bounded);
          },
        )

    found :
        (ms : List Match)
        → Below (doc o.base) ms
        → Agree ms
        → (q : ℕ) (r : R) → Rounded (q, r)
        → MovesOnce o ms (or_nary_found row (q, r))
    found ms b agree q r t = elim (Bool-cases (q == invalid_document_id)) [
      | inl e ↦ rw e (ended ms b agree q r t ((==_iff q invalid_document_id).0 e))
      | inr e ↦ rw e (found_first ms b agree q r t e)
    ]

  at_zero :
      (o : OrNary R) (ms : List Match)
      → doc o.base ≡ 0
      → Below (doc o.base) ms
      → MovesOnce o ms (or_nary_end row o.iterators)
  unfolding no_match
  at_zero o [] e b = (refl, refl, λ h. absurd (omega (arith, e, h)))
  at_zero o (m ∷ ms) e b = absurd (omega (arith, e, b.0))

  -- Advance goes to the next document that any of the iterators has.
  pub or_nary_advance_lem :
      (o : OrNary R) (ms : List Match) → OrNaryYields o ms → MovesOnce o ms (or_nary_advance row o)
  unfolding or_nary_advance
  or_nary_advance_lem o ms v =
      let enough : ltb row.size 2 ≡ false = ground (arith, several) in
      elim (Bool-cases (doc o.base == 0)) [
        | inl e ↦ rw (enough, e) (at_zero o ms ((==_iff (doc o.base) 0).0 e) v.falls)
        | inr e ↦
            let positive : 0 < doc o.base = ground (arith, e) in
            let t = row.or_round (doc o.base - 1) invalid_document_id o.iterators in
            rw (enough, e)
              (found o v.columns positive v.bound ms v.falls v.agrees (t.0) (t.1) (
                row_law.or_law (doc o.base - 1) invalid_document_id o.iterators v.columns v.yields
                  (omega (arith, positive, v.bound)) (inl refl)))
      ]

  -- What is before an OR of documents other than 0.
  pub record PositiveYields (o : OrNary R) (ms : List Match) : Type 0 where
    pub some_yields : OrNaryYields o ms
    pub no_zero : find 0 ms ≡ none
    pub positive : 0 < doc o.base

  keeps_positive :
      (o : OrNary R) (ms : List Match)
      → PositiveYields o ms
      → (r : Status × OrNary R) → MovesOnce o ms r
      → Moves (or_nary_operations row) PositiveYields ms r
  keeps_positive o [] v r h = (
    h.0,
    h.1,
    record { some_yields = h.2 v.positive; no_zero = refl; positive = omega (arith, h.1) },
  )
  keeps_positive o (m ∷ ms) v r h =
      let valid : 0 < doc m = ground (arith, v.no_zero) in
      (
        h.0,
        h.1,
        record {
          some_yields = h.2;
          no_zero = ground (arith, v.no_zero, valid);
          positive = omega (arith, valid, ap doc h.1);
        },
      )

  -- Of two or more iterators that do not have document 0, the n-ary OR keeps the contract.
  pub or_nary_operations-Enumerates : Enumerates (OrNary R) (or_nary_operations row) PositiveYields
  or_nary_operations-Enumerates = record {
    falling = λ o ms v. (v.some_yields).falls;
    bounded = λ o ms v. (v.some_yields).bound;
    step = λ o ms v.
        keeps_positive o ms v (or_nary_advance row o) (or_nary_advance_lem o ms v.some_yields);
  }

  pub make_or_nary-OrNaryYields :
      (r : R) (c : Columns) (ms : List Match)
      → RowYields r c
      → Below invalid_document_id ms
      → ((d : ℕ) → d < invalid_document_id → find d ms ≡ any (finds d c))
      → OrNaryYields (make_or_nary row r) ms
  unfolding make_or_nary no_match
  make_or_nary-OrNaryYields r c ms y b agree = record {
    columns = c;
    yields = y;
    agrees = agree;
    falls = b;
    bound = omega arith;
  }
