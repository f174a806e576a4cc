-- ===== src/Iterator/Row/Columns.antt =====
-- What a row of iterators has of a document: a column for each iterator, the match that it stands at in
-- front of those before it.
use external_icing.Base.{
  ℕ, ◌≤◌, ◌<◌, ◌≡◌, if◌then◌else◌, refl, sym, ap, ◌⊎◌, inl, inr, Bool, true, false, ◌||◌, ◌&&◌,
  List, [], ◌∷◌, Option, none, some, arith, map, ◌==◌,
}
use external_icing.Hit.{invalid_document_id}
use external_icing.Iterator.{Match, doc, resource_exhausted, Operations}
use external_icing.Iterator.Matches.{find}
use external_icing.Iterator.Row.{Row, Round, finished, passed, failed, no_row}

abbrev pub Columns : Type 0
Columns = List (List Match)

-- The match of a document in each column.
abbrev pub finds : ℕ → Columns → List (Option Match)
finds d [] = []
finds d (xs ∷ c) = find d xs ∷ finds d c

abbrev pub is_none : Option Match → Bool
is_none none = true
is_none (some m) = false

-- Whether a column has no match.
abbrev pub lacks : List (Option Match) → Bool
lacks [] = false
lacks (o ∷ os) = is_none o || lacks os

-- How a round of an AND ends.
module _ {R : Type 0} (row : Row R) (Yields : R → Columns → Type 0) where
  pub record Sweeps (found : Bool) (p : ℕ) (c : Columns) (found' : Bool) (r : R) : Type 0 where
    pub after : Columns
    pub yields : Yields r after
    pub whole : (found' ≡ true) ⊎ ((found' ≡ found) × (row.size ≡ 0))
    pub all_there : finds p after ≡ map some (row.currents r)
    pub kept : (d : ℕ) → d ≤ p → finds d after ≡ finds d c

  pub record Passes (p : ℕ) (c : Columns) (q : ℕ) (r : R) : Type 0 where
    pub after : Columns
    pub yields : Yields r after
    pub lower : q < p
    pub lacking : (d : ℕ) → q < d → d ≤ p → lacks (finds d c) ≡ true
    pub kept : (d : ℕ) → d ≤ p → finds d after ≡ finds d c

  pub record Fails (p : ℕ) (c : Columns) (r : R) : Type 0 where
    pub after : Columns
    pub yields : Yields r after
    pub lacking : (d : ℕ) → d ≤ p → lacks (finds d c) ≡ true
    pub lacks_after : (d : ℕ) → d < invalid_document_id → lacks (finds d after) ≡ true

  abbrev pub Rounds : Bool → ℕ → Columns → Round × R → Type 0
  Rounds found p c (finished found', r) = Sweeps found p c found' r
  Rounds found p c (passed q, r) = Passes p c q r
  Rounds found p c (failed status, r) = (status ≡ resource_exhausted) × Fails p c r

-- Whether no column has a match.
abbrev pub nothing : List (Option Match) → Bool
nothing [] = true
nothing (o ∷ os) = is_none o && nothing os

abbrev pub pick : ℕ → Match → Option Match
pick q m = if doc m == q then some m else none

-- What the loop of an OR does, which starts with a document that is valid or not: it keeps what all
-- columns have up to the limit, and finds the first document that one of them has.
pub record Tops {R : Type 0} (row : Row R) (Yields : R → Columns → Type 0) (limit next : ℕ)
    (c : Columns) (t : ℕ × R) : Type 0 where
  pub after : Columns
  pub yields : Yields (t.1) after
  pub kept : (d : ℕ) → d ≤ limit → finds d after ≡ finds d c
  pub stands :
      (q : ℕ)
      → q < invalid_document_id
      → (t.0 ≡ invalid_document_id) ⊎ (t.0 ≤ q)
      → finds q after ≡ map (pick q) (row.currents (t.1))
  pub none_above :
      (q : ℕ)
      → q < invalid_document_id
      → (t.0 ≡ invalid_document_id) ⊎ (t.0 < q)
      → nothing (finds q after) ≡ true
  pub is_there : (t.0 ≡ invalid_document_id) ⊎ (t.0 ≡ next) ⊎ (nothing (finds (t.0) after) ≡ false)
  pub grows : (next ≡ invalid_document_id) ⊎ ((t.0 < invalid_document_id) × (next ≤ t.0))
  pub low : (t.0 ≡ invalid_document_id) ⊎ (t.0 ≤ limit)

-- A row whose rounds do this.
pub record RowLaw {R : Type 0} (row : Row R) (Yields : R → Columns → Type 0) : Type 0 where
  pub and_law :
      (found : Bool) (p : ℕ) (r : R) (c : Columns)
      → Yields r c
      → Rounds row Yields found p c (row.and_round found p r)
  pub or_law :
      (limit next : ℕ) (r : R) (c : Columns)
      → Yields r c
      → limit < invalid_document_id
      → (next ≡ invalid_document_id) ⊎ (next ≤ limit)
      → Tops row Yields limit next c (row.or_round limit next r)

abbrev pub NoYields : Unit {0} → Columns → Type 0
NoYields r c = c ≡ []

pub no_row-RowLaw : RowLaw no_row NoYields
no_row-RowLaw = record {
  and_law = λ found p r c y. record {
    after = [];
    yields = refl;
    whole = inr (refl, refl);
    all_there = refl;
    kept = λ d h. ap (finds d) (sym y);
  };
  or_law = λ limit next r c y small valid. record {
    after = [];
    yields = refl;
    kept = λ d h. ap (finds d) (sym y);
    stands = λ q h k. refl;
    none_above = λ q h k. refl;
    is_there = inr (inl refl);
    grows = elim valid [ inl e ↦ inl e | inr e ↦ inr (omega (arith, e, small), omega arith) ];
    low = valid;
  };
}

module _ {S R : Type 0} (it : Operations S) (row : Row R) (Yields : S → List Match → Type 0)
    (RowYields : R → Columns → Type 0) where
  -- An iterator with its column, in front of a row.
  pub record InRowYields (sr : S × R) (c : Columns) : Type 0 where
    pub before : List Match
    pub columns : Columns
    pub yields : Yields (sr.0) before
    pub row_yields : RowYields (sr.1) columns
    pub split : c ≡ (it.current (sr.0) ∷ before) ∷ columns

  abbrev pub column : S → List Match → List Match
  column s xs = it.current s ∷ xs

  abbrev pub behind :
      (s : S) (xs : List Match) (r : R) (c : Columns)
      → Yields s xs
      → RowYields r c
      → InRowYields (s, r) (column s xs ∷ c)
  behind s xs r c y z = record {
    before = xs;
    columns = c;
    yields = y;
    row_yields = z;
    split = refl;
  }
