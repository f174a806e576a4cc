-- ===== src/Iterator/Row/Climb.antt =====
-- The loop over a row that an n-ary OR makes, with an iterator in front of the row.
use external_icing.Base.{
  ℕ, ◌≤◌, ◌<◌, ◌≡◌, if◌then◌else◌, if◌then◌else◌, sym, ap, ap₂, ◌∙◌, ◌⊎◌, inl, inr, Bool, ◌&&◌,
  List, [], ◌∷◌, Option, none, some, arith, ◌==◌, Bool-cases,
}
use external_icing.Hit.{invalid_document_id}
use external_icing.Iterator.{
  Match, doc, Status, ok, resource_exhausted, invalid_argument, out_of_fuel, Operations, Enumerates,
}
use external_icing.Iterator.Matches.{find-Below, find}
use external_icing.Iterator.Row.{Row, in_row, max_of, or_body}
use external_icing.Iterator.Row.Approach.{Arrives, Approached, at-above}
use external_icing.Iterator.Row.Columns.{
  Columns, is_none, Tops, RowLaw, InRowYields, column, behind,
}

module _ {S R : Type 0} (it : Operations S) (row : Row R) (Yields : S → List Match → Type 0)
    (RowYields : R → Columns → Type 0) (law : Enumerates S it Yields)
    (row_law : RowLaw row RowYields) where
  abbrev pub AllTops : ℕ → ℕ → Columns → ℕ × (S × R) → Type 0
  AllTops = Tops (in_row it row) (InRowYields it row Yields RowYields)

  -- The next document after an iterator at a document.
  abbrev next_of : ℕ → ℕ → ℕ
  next_of next d = if next == invalid_document_id then d else max_of next d

  -- The iterator takes part, and the rest of the row.
  takes_part :
      (limit next : ℕ) (s : S) (xs : List Match) (c : Columns) (s' : S)
      → limit < invalid_document_id
      → (next ≡ invalid_document_id) ⊎ (next ≤ limit)
      → Arrives it Yields law s xs limit s'
      → (t : ℕ × R) → Tops row RowYields limit (next_of next (doc (it.current s'))) c t
      → AllTops limit next (column it row Yields RowYields s xs ∷ c) (t.0, (s', t.1))
  unfolding in_row
  takes_part limit next s xs c s' small valid a (q, r) t =
      let d = doc (it.current s') in
      let n = next_of next d in
      let over : d ≤ n = ground arith in
      let fits : n ≤ limit = ground (arith, a.near, valid, small) in
      let top : (q < invalid_document_id) × (n ≤ q) = elim (t.grows) [
        | inl e ↦ absurd (omega (arith, e, fits, small))
        | inr g ↦ g
      ] in
      record {
        after = column it row Yields RowYields s' a.before ∷ t.after;
        yields = behind it row Yields RowYields s' a.before r t.after a.yields t.yields;
        kept = λ e k. ap₂ (◌∷◌) (a.same e k) (t.kept e k);
        stands = λ e k l.
            let high : q ≤ e = elim l [ inl z ↦ absurd (omega (arith, z, top.0)) | inr z ↦ z ] in
            let below_it = law.falling s' a.before a.yields in
            let none_before : find e a.before ≡ none =
              find-Below d e a.before below_it (omega (arith, high, over, top.1)) in
            ap₂ (◌∷◌)
              (ap (λ (o : Option Match). if d == e then some (it.current s') else o) none_before)
              (t.stands e k l);
        none_above = λ e k l.
            let high : q < e = elim l [ inl z ↦ absurd (omega (arith, z, top.0)) | inr z ↦ z ] in
            let none_here =
              at-above it Yields law s' a.before e a.yields (omega (arith, high, over, top.1)) in
            ap₂ (λ (o : Option Match) (b : Bool). is_none o && b) none_here (t.none_above e k l);
        is_there = elim (t.is_there) [
          | inl e ↦ inl e
          | inr (inl e) ↦ elim (Bool-cases (n == d)) [
            | inl here ↦ inr (inr (ground (arith, here, e)))
            | inr other ↦ inr (inl (ground (arith, other, e)))
          ]
          | inr (inr e) ↦ inr (inr (ground (arith, e)))
        ];
        grows = elim (Bool-cases (next == invalid_document_id)) [
          | inl e ↦ inl (ground (arith, e))
          | inr e ↦ inr (top.0, ground (arith, e, top.1))
        ];
        low = t.low;
      }

  -- The iterator has ended, so that the loop goes on to the rest of the row.
  left_out :
      (limit next : ℕ) (s : S) (xs : List Match) (c : Columns) (s' : S)
      → Yields s' []
      → doc (it.current s') ≡ invalid_document_id
      → ((d : ℕ) → d ≤ limit → find d (it.current s ∷ xs) ≡ none)
      → limit < invalid_document_id
      → (t : ℕ × R) → Tops row RowYields limit next c t
      → AllTops limit next (column it row Yields RowYields s xs ∷ c) (t.0, (s', t.1))
  unfolding in_row
  left_out limit next s xs c s' y over gone small (q, r) t =
      let none_here : (d : ℕ) → d < invalid_document_id → find d (it.current s' ∷ []) ≡ none =
        λ d h. ground (arith, over, h) in
      record {
        after = column it row Yields RowYields s' [] ∷ t.after;
        yields = behind it row Yields RowYields s' [] r t.after y t.yields;
        kept =
            λ d h. ap₂ (◌∷◌) (none_here d (omega (arith, h, small)) ∙ sym (gone d h)) (t.kept d h);
        stands = λ d h k. ap₂ (◌∷◌) (ground (arith, over, h)) (t.stands d h k);
        none_above = λ d h k.
            ap₂ (λ (o : Option Match) (b : Bool). is_none o && b) (none_here d h)
              (t.none_above d h k);
        is_there = elim (t.is_there) [
          | inl e ↦ inl e
          | inr (inl e) ↦ inr (inl e)
          | inr (inr e) ↦ inr (inr (ground (arith, e)))
        ];
        grows = t.grows;
        low = t.low;
      }

  pub climb_lem :
      (limit next : ℕ) (s : S) (xs : List Match) (r : R) (c : Columns)
      → RowYields r c
      → limit < invalid_document_id
      → (next ≡ invalid_document_id) ⊎ (next ≤ limit)
      → (moved : Status × S) → Approached it Yields law s xs limit moved
      → AllTops limit next
          (column it row Yields RowYields s xs ∷ c)
          (or_body it row limit next r moved)
  climb_lem limit next s xs r c y small valid (ok, s') a =
      let n = next_of next (doc (it.current s')) in
      takes_part limit next s xs c s' small valid a (row.or_round limit n r)
        (row_law.or_law limit n r c y small (inr (ground (arith, a.near, valid, small))))
  climb_lem limit next s xs r c y small valid (resource_exhausted, s') a =
      left_out limit next s xs c s' (a.1) (a.2) (a.3) small (row.or_round limit next r)
        (row_law.or_law limit next r c y small valid)
  climb_lem limit next s xs r c y small valid (invalid_argument, s') a = absurd (cc)
  climb_lem limit next s xs r c y small valid (out_of_fuel, s') a = absurd (cc)
