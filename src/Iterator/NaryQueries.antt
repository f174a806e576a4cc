-- ===== src/Iterator/NaryQueries.antt =====
-- The results of queries whose iterator is an n-ary AND or OR, over the loop of
-- icing/scoring/scoring-processor.cc.
use external_icing.Base.{ℕ, ◌<◌, ◌≡◌, sym, ap, ◌∙◌, List, [], ◌∷◌, map, take}
use external_icing.Hit.{invalid_document_id}
use external_icing.DocHitInfo.{DocHitInfo}
use external_icing.Iterator.{Match, doc, Below, Status, Operations, Enumerates, loop_fuel}
use external_icing.Iterator.Matches.{find}
use external_icing.Iterator.Row.{Row, in_row}
use external_icing.Iterator.Row.Columns.{Columns, finds, RowLaw, InRowYields}
use external_icing.Iterator.Row.Start.{
  AllBelow, RowStart, joins, joins-Below, find-joins, unions, unions-Below, find-unions,
}
use external_icing.Iterator.AndNary.{and_nary_operations, make_and_nary}
use external_icing.Iterator.AndNary.Meet.{common}
use external_icing.Iterator.AndNary.Common.{
  AndNaryYields, and_nary_operations-Enumerates, make_and_nary-AndNaryYields,
}
use external_icing.Iterator.OrNary.{OrNary, or_nary_advance, or_nary_operations, make_or_nary}
use external_icing.Iterator.OrNary.Any.{
  OrNaryYields, MovesOnce, or_nary_advance_lem, make_or_nary-OrNaryYields,
}
use external_icing.Iterator.OrNary.Collect.{any}
use external_icing.Scoring.{scored, score_all}
use external_icing.Scoring.Drain.{Walk, score_all_lem, score_all_walk}

module _ {Score : Type 0} (get_score : DocHitInfo → Score) (num_to_score : ℕ) where
  -- Scoring the n-ary AND of a new iterator and a row of new iterators, all of which keep the contract,
  -- collects the first `num_to_score` of the documents that all of them have, and a document has the
  -- merged sections of all its matches.
  pub score_all-and_nary :
      {S R : Type 0} (it : Operations S) (tail : Row R) (Yields : S → List Match → Type 0)
      (TailYields : R → Columns → Type 0) (law : Enumerates S it Yields)
      (tail_law : RowLaw tail TailYields)
      → 0 < tail.size
      → (s : S) (r : R) (xs : List Match) (lists : Columns)
      → doc (it.current s) ≡ invalid_document_id
      → Below invalid_document_id xs
      → RowStart (InRowYields it tail Yields TailYields) (s, r) (xs ∷ lists)
      → (score_all get_score
            (and_nary_operations (in_row it tail))
            loop_fuel
            num_to_score
            (make_and_nary (in_row it tail) (s, r))
          ≡ map (scored get_score) (take num_to_score (joins xs lists)))
        × ((d : ℕ) → find d (joins xs lists) ≡ common (finds d (xs ∷ lists)))
  score_all-and_nary it tail Yields TailYields law tail_law several s r xs lists fresh b start =
      let finds_ms = λ (d : ℕ). find-joins d invalid_document_id xs lists b in
      (
        score_all_lem get_score (and_nary_operations (in_row it tail))
            (AndNaryYields it tail Yields TailYields law tail_law)
            (and_nary_operations-Enumerates it tail Yields TailYields law tail_law several)
            num_to_score (make_and_nary (in_row it tail) (s, r)) (joins xs lists)
            (make_and_nary-AndNaryYields it tail Yields TailYields law tail_law (s, r) start.columns
              (joins xs lists) start.yields fresh (joins-Below invalid_document_id xs lists b)
              (λ d h. finds_ms d ∙ ap common (sym (start.same d h)))),
        finds_ms,
      )

  module _ {R : Type 0} (row : Row R) (RowYields : R → Columns → Type 0)
      (law : RowLaw row RowYields) (several : 1 < row.size) where
    walks :
        (o : OrNary R) (ms : List Match) (r : Status × OrNary R)
        → MovesOnce row RowYields law several o ms r
        → Walk (or_nary_operations row) (OrNaryYields row RowYields law several) ms r
    walks o [] r h = h.0
    walks o (m ∷ ms) r h = h

    -- Scoring the n-ary OR of a row of new iterators that keep the contract collects the first
    -- `num_to_score` of the documents that any of them has, document 0 included, and a document has the
    -- merged sections of all its matches.
    pub score_all-or_nary :
        (r : R) (lists : Columns)
        → RowStart RowYields r lists
        → AllBelow invalid_document_id lists
        → (score_all get_score (or_nary_operations row) loop_fuel num_to_score (make_or_nary row r)
            ≡ map (scored get_score) (take num_to_score (unions [] lists)))
          × ((d : ℕ) → find d (unions [] lists) ≡ any (finds d lists))
    score_all-or_nary r lists start b =
        let finds_ms = λ (d : ℕ). find-unions d invalid_document_id [] lists tt b in
        (
          score_all_walk get_score (or_nary_operations row) (OrNaryYields row RowYields law several)
              (record {
                falling = λ o ms v. v.falls;
                bounded = λ o ms v. v.bound;
                step = λ o ms v.
                    walks o ms (or_nary_advance row o)
                      (or_nary_advance_lem row RowYields law several o ms v);
              })
              num_to_score (make_or_nary row r) (unions [] lists)
              (make_or_nary-OrNaryYields row RowYields law several r start.columns (unions [] lists)
                start.yields (unions-Below invalid_document_id [] lists tt b)
                (λ d h. finds_ms d ∙ ap any (sym (start.same d h)))),
          finds_ms,
        )
