-- ===== src/Iterator/Row/InRow.antt =====
-- The rows of icing/index/iterator's n-ary iterators keep their laws.
use external_icing.Base.{sym, subst, List}
use external_icing.Iterator.{Match, Operations, Enumerates}
use external_icing.Iterator.Row.{Row, approach, in_row}
use external_icing.Iterator.Row.Approach.{approach_lem}
use external_icing.Iterator.Row.Columns.{Columns, RowLaw, InRowYields}
use external_icing.Iterator.Row.Sweep.{Ends, body_lem}
use external_icing.Iterator.Row.Climb.{AllTops, climb_lem}

module _ {S R : Type 0} (it : Operations S) (row : Row R) (Yields : S → List Match → Type 0)
    (RowYields : R → Columns → Type 0) (law : Enumerates S it Yields)
    (row_law : RowLaw row RowYields) where
  -- An iterator that keeps the contract, in front of such a row.
  pub in_row-RowLaw : RowLaw (in_row it row) (InRowYields it row Yields RowYields)
  unfolding in_row
  in_row-RowLaw = record {
    and_law = λ found p r c y.
        subst
          (λ (k : Columns).
            Ends it row Yields RowYields law row_law found p k
              ((in_row it row).and_round found p r))
          (sym y.split)
          (body_lem it row Yields RowYields law row_law found p (r.0) y.before (r.1) y.columns
            y.row_yields (approach it p (r.0))
            (approach_lem it Yields law (r.0) y.before p y.yields));
    or_law = λ limit next r c y small valid.
        subst
          (λ (k : Columns).
            AllTops it row Yields RowYields law row_law limit next k
              ((in_row it row).or_round limit next r))
          (sym y.split)
          (climb_lem it row Yields RowYields law row_law limit next (r.0) y.before (r.1) y.columns
            y.row_yields small valid (approach it limit (r.0))
            (approach_lem it Yields law (r.0) y.before limit y.yields));
  }
