-- ===== src/Iterator/Select/Filter.antt =====
-- DocHitInfoIteratorFilter, icing/index/iterator/doc-hit-info-iterator-filter.cc, with
-- icing/store/document-filter-data.h. The document store and the schema store are parameters:
-- DoesDocumentExist, GetDocumentFilterData, GetNamespaceId and GetSchemaTypeId.
use external_icing.Base.{
  ℕ, zero, suc, ◌≡◌, refl, Bool, true, false, not, ◌&&◌, ◌||◌, inl, inr, Option-cases, List, [],
  ◌∷◌, Option, none, some, arith, ◌==◌, if◌then◌else◌,
}
use external_icing.Iterator.{
  Match, doc, no_match, Status, ok, resource_exhausted, out_of_fuel, Operations, Enumerates,
  loop_fuel,
}
use external_icing.Iterator.Select.{
  Delegating, KeepsDoc, SelectYields, select_loop, select-Enumerates,
}

pub record DocumentFilterData : Type 0 where
  pub namespace_id : ℕ
  pub schema_type_id : ℕ

-- `unordered_set::count(id) != 0`
abbrev pub has_id : ℕ → List ℕ → Bool
has_id id [] = false
has_id id (k ∷ ids) = if k == id then true else has_id id ids

-- Options, and the id sets that the constructor computes.
pub record Targets (Name : Type 0) : Type 0 where
  pub namespaces : List Name
  pub schema_types : List Name
  pub target_namespace_ids : List ℕ
  pub target_schema_type_ids : List ℕ

abbrev pub is_empty {ℓ} : {A : Type ℓ} → List A → Bool
is_empty [] = true
is_empty (a ∷ rest) = false

-- One of the constructor's loops: a name without an id is thrown away.
unfoldable pub precompute_ids : {Name : Type 0} → (Name → Option ℕ) → List Name → List ℕ
precompute_ids id_of [] = []
precompute_ids id_of (name ∷ names) =
    let ids = precompute_ids id_of names in elim (id_of name) [ none ↦ ids | some id ↦ id ∷ ids ]

abbrev pub is_id : Option ℕ → ℕ → Bool
is_id none id = false
is_id (some k) id = k == id

-- Whether one of the names has the id.
abbrev pub names_id : {Name : Type 0} → (Name → Option ℕ) → ℕ → List Name → Bool
names_id id_of id [] = false
names_id id_of id (name ∷ names) = is_id (id_of name) id || names_id id_of id names

-- The set that the constructor computes has an id exactly when one of the names has that id.
pub has_id-precompute_ids :
    {Name : Type 0} (id_of : Name → Option ℕ) (id : ℕ) (names : List Name)
    → has_id id (precompute_ids id_of names) ≡ names_id id_of id names
unfolding precompute_ids
has_id-precompute_ids id_of id [] = refl
has_id-precompute_ids id_of id (name ∷ names) = elim (Option-cases (id_of name)) [
  | inl e ↦ rw (e, precompute_ids) (has_id-precompute_ids id_of id names)
  | inr (k, e) ↦ rw (e, precompute_ids) (ground (arith, has_id-precompute_ids id_of id names))
]

-- The constructor.
unfoldable pub make_targets :
    {Name : Type 0} → (Name → Option ℕ) → (Name → Option ℕ) → List Name → List Name → Targets Name
unfolding precompute_ids
make_targets get_namespace_id get_schema_type_id namespaces schema_types = record {
  namespaces = namespaces;
  schema_types = schema_types;
  target_namespace_ids = precompute_ids get_namespace_id namespaces;
  target_schema_type_ids = precompute_ids get_schema_type_id schema_types;
}

module _ {Name S : Type 0} (it : Operations S) (does_document_exist : ℕ → Bool)
    (get_document_filter_data : ℕ → Option DocumentFilterData) (options : Targets Name) where
  -- The loop of Advance, with each `continue` as a case of its own.
  unfoldable pub filter_loop : ℕ → S → Match → Status × Delegating S
  filter_loop zero s base = (out_of_fuel, record { delegate = s; base = base })
  filter_loop (suc fuel) s base =
      let (status, moved) = it.advance s in
      let continue = filter_loop fuel moved base in
      elim status [
        | ok ↦ elim (does_document_exist (doc (it.current moved))) [
          | false ↦ continue
          | true ↦ elim (get_document_filter_data (doc (it.current moved))) [
            | none ↦ continue
            | some filter_data ↦
                if not (is_empty options.namespaces)
                  && not (has_id filter_data.namespace_id options.target_namespace_ids)
                then continue
                else if not (is_empty options.schema_types)
                    && not (has_id filter_data.schema_type_id options.target_schema_type_ids)
                then continue
                else (ok, record { delegate = moved; base = it.current moved })
          ]
        ]
        | _ ↦ (resource_exhausted, record { delegate = moved; base = no_match })
      ]

  -- DocHitInfoIteratorFilter::Advance
  unfoldable pub filter_advance : Delegating S → Status × Delegating S
  unfolding filter_loop
  filter_advance f = filter_loop loop_fuel f.delegate f.base

  abbrev pub filter_operations : Operations (Delegating S)
  filter_operations = record { advance = filter_advance; current = λ f. f.base }

  -- The documents that a search with these options may show.
  abbrev allows : DocumentFilterData → Bool
  allows filter_data =
      (if is_empty options.namespaces
        then true
        else has_id filter_data.namespace_id options.target_namespace_ids)
      && (if is_empty options.schema_types
          then true
          else has_id filter_data.schema_type_id options.target_schema_type_ids)

  abbrev shown_by : Option DocumentFilterData → Bool
  shown_by none = false
  shown_by (some filter_data) = allows filter_data

  abbrev pub is_shown : ℕ → Bool
  is_shown d = does_document_exist d && shown_by (get_document_filter_data d)

  abbrev pub pick_shown : Match → Option Match
  pick_shown m = if is_shown (doc m) then some m else none

  pub pick_shown-KeepsDoc : KeepsDoc pick_shown
  pick_shown-KeepsDoc m k e = ground arith

  filter_loop-selects :
      (fuel : ℕ) (s : S) (base : Match)
      → filter_loop fuel s base ≡ select_loop it pick_shown fuel s base
  unfolding filter_loop select_loop
  filter_loop-selects zero s base = refl
  filter_loop-selects (suc fuel) s base =
      ground (arith, filter_loop-selects fuel (it.advance s).1 base)

  module _ (Yields : S → List Match → Type 0) (law : Enumerates S it Yields) where
    abbrev pub FilterYields : Delegating S → List Match → Type 0
    FilterYields = SelectYields it pick_shown pick_shown-KeepsDoc Yields law

    -- The filter of an iterator that keeps the contract keeps it too, and yields exactly the
    -- delegate's matches whose documents are shown.
    pub filter_operations-Enumerates : Enumerates (Delegating S) filter_operations FilterYields
    unfolding filter_advance
    filter_operations-Enumerates =
        select-Enumerates it pick_shown pick_shown-KeepsDoc Yields law filter_operations (λ d. refl)
          λ d. filter_loop-selects loop_fuel d.delegate d.base
