-- ===== src/Store/DocumentStore/Delete/Batches.antt =====
-- BatchDelete of icing/store/document-store.cc deletes what it selects.
use external_icing.Base.{
  ℕ, zero, suc, ◌+◌, ◌≤◌, ◌<◌, ◌≡◌, refl, ap, ap₂, sym, ◌∙◌, subst, Bool, true, false, not, ◌&&◌,
  Option, none, some, ltb, leb, ◌==◌, if◌then◌else◌, get_or, arith, Option-cases, Bool-cases, inl,
  inr,
}
use external_icing.Store.{StatusOr, value, error, not_found}
use external_icing.Store.FileBackedVector.{vector_get, get_or-write_at}
use external_icing.Store.DocumentStore.{Document, FilterData, DocumentStore, zero_filter}
use external_icing.Store.DocumentStore.View.{offset_at, visible, IsSound}
use external_icing.Store.DocumentStore.Delete.{
  has_id, delete_by_id, batch_delete_loop, batch_delete, deleted_filter,
}
use external_icing.Store.DocumentStore.Delete.Erased.{
  erased, delete_by_id-visible, delete_by_id-hidden, visible-erased, IsSound-erased,
}

-- What the filter cache has of a document.
abbrev pub filter_of : DocumentStore → ℕ → FilterData
filter_of s id = get_or s.filter_cache.array id zero_filter

abbrev pub shows : Option Document → Bool
shows none = false
shows (some d) = true

-- Whether a document exists and has the ids that are asked for.
abbrev pub selects : DocumentStore → ℕ → Option ℕ → Option ℕ → ℕ → Bool
selects s now namespace_id schema_type_id id =
    if not (has_id namespace_id (filter_of s id).namespace_id)
    then false
    else if not (has_id schema_type_id (filter_of s id).schema_type_id)
    then false
    else shows (visible s now id)

-- How many of the ids from one on are selected.
abbrev pub count_selected : DocumentStore → ℕ → Option ℕ → Option ℕ → ℕ → ℕ → ℕ
count_selected s now namespace_id schema_type_id zero id = 0
count_selected s now namespace_id schema_type_id (suc rounds) id =
    (if selects s now namespace_id schema_type_id id then 1 else 0)
    + count_selected s now namespace_id schema_type_id rounds (id + 1)

-- The store after ids from one on were looked at.
pub record Deletes (s : DocumentStore) (now : ℕ) (namespace_id schema_type_id : Option ℕ)
    (rounds id : ℕ) (s' : DocumentStore) : Type 0 where
  pub is_sound : IsSound s'
  pub same_keys : s'.document_key_mapper ≡ s.document_key_mapper
  pub same_size : s'.document_id_mapper.num_elements ≡ s.document_id_mapper.num_elements
  pub shown :
      (later other : ℕ)
      → visible s' later other ≡ (
          if leb id other
            && ltb other (id + rounds)
            && selects s now namespace_id schema_type_id other
          then none
          else visible s later other)

abbrev pub one_if : Bool → ℕ
one_if true = 1
one_if false = 0

and_true : (a b : Bool) → b ≡ true → a ≡ (a && b)
and_true a b h = ground arith

module _ (now : ℕ) (namespace_id schema_type_id : Option ℕ) where
  abbrev selects' : DocumentStore → ℕ → Bool
  selects' s id = selects s now namespace_id schema_type_id id

  -- A round of the loop, at one id.
  record Passes (s : DocumentStore) (id : ℕ) (s' : DocumentStore) : Type 0 where
    is_sound : IsSound s'
    same_keys : s'.document_key_mapper ≡ s.document_key_mapper
    same_size : s'.document_id_mapper.num_elements ≡ s.document_id_mapper.num_elements
    shown :
        (later other : ℕ)
        → visible s' later other
          ≡ (if (id == other) && selects' s id then none else visible s later other)
    filters : (other : ℕ) → (id == other) ≡ false → filter_of s' other ≡ filter_of s other

  skipped : (s : DocumentStore) (id : ℕ) → IsSound s → selects' s id ≡ false → Passes s id s
  skipped s id sound no_match = record {
    is_sound = sound;
    same_keys = refl;
    same_size = refl;
    shown = λ later other. ground (arith, no_match);
    filters = λ other differ. refl;
  }

  deleted :
      (s : DocumentStore) (id offset : ℕ) (sound : IsSound s)
      → id < s.document_id_mapper.num_elements
      → offset_at s id ≡ some offset
      → selects' s id ≡ true
      → Passes s id (erased s id offset)
  deleted s id offset sound within at matches = record {
    is_sound = IsSound-erased s sound id within offset at;
    same_keys = refl;
    same_size = ground arith;
    shown = λ later other.
        visible-erased s sound id within offset at later other
        ∙ ap (λ (b : Bool). if b then none else visible s later other)
            (and_true (id == other) (selects' s id) matches);
    filters = λ other differ.
        get_or-write_at zero_filter s.filter_cache.array id other deleted_filter ∙ rw differ refl;
  }

  -- What is selected at another id stays so.
  selects-Passes :
      (s : DocumentStore) (id : ℕ) (s' : DocumentStore)
      → Passes s id s'
      → (other : ℕ) → (id == other) ≡ false
      → selects' s' other ≡ selects' s other
  selects-Passes s id s' passes other differ =
      ap₂
        (λ (f : FilterData) (d : Option Document).
          if not (has_id namespace_id f.namespace_id)
          then false
          else if not (has_id schema_type_id f.schema_type_id)
          then false
          else shows d)
        (passes.filters other differ) (passes.shown now other ∙ rw differ refl)

  count_selected-Passes :
      (s : DocumentStore) (id : ℕ) (s' : DocumentStore)
      → Passes s id s'
      → (rounds from : ℕ) → id < from
      → count_selected s' now namespace_id schema_type_id rounds from
        ≡ count_selected s now namespace_id schema_type_id rounds from
  count_selected-Passes s id s' passes zero from h = refl
  count_selected-Passes s id s' passes (suc rounds) from h =
      let differ : (id == from) ≡ false = ground arith in
      ap₂ (λ (b : Bool) (n : ℕ). (if b then 1 else 0) + n)
        (selects-Passes s id s' passes from differ)
        (count_selected-Passes s id s' passes rounds (from + 1) (omega arith))

  Passes-Deletes :
      (s : DocumentStore) (id : ℕ) (s' : DocumentStore) (rounds : ℕ) (s'' : DocumentStore)
      → Passes s id s'
      → Deletes s' now namespace_id schema_type_id rounds (id + 1) s''
      → Deletes s now namespace_id schema_type_id (suc rounds) id s''
  Passes-Deletes s id s' rounds s'' passes deletes = record {
    is_sound = deletes.is_sound;
    same_keys = deletes.same_keys ∙ passes.same_keys;
    same_size = deletes.same_size ∙ passes.same_size;
    shown = λ later other. elim (Bool-cases (id == other)) [
      | inl same ↦
          let equal : id ≡ other = ground (arith, same) in
          let match : selects' s id ≡ selects' s other = ap (selects' s) equal in
          ground (arith, same, match, deletes.shown later other, passes.shown later other)
      | inr differ ↦ ground (
        arith,
        differ,
        selects-Passes s id s' passes other differ,
        deletes.shown later other,
        passes.shown later other,
      )
    ];
  }

  in_cache :
      (s : DocumentStore) (id : ℕ)
      → IsSound s
      → id < s.document_id_mapper.num_elements
      → vector_get zero_filter s.filter_cache id ≡ value (filter_of s id)
  unfolding vector_get
  in_cache s id sound within =
      let inside : leb s.filter_cache.num_elements id ≡ false = ground (arith, sound.aligned) in
      rw inside refl

  -- What a round does.
  step :
      (s : DocumentStore) (id k rounds : ℕ)
      → IsSound s
      → id < s.document_id_mapper.num_elements
      → (s' : DocumentStore) × Passes s id s'
        × (batch_delete_loop now namespace_id schema_type_id (suc rounds) id k s
            ≡ batch_delete_loop now namespace_id schema_type_id rounds
                (id + 1)
                (k + one_if (selects' s id))
                s')
  unfolding batch_delete_loop
  step s id k rounds sound within =
      let next : ℕ → DocumentStore → StatusOr ℕ × DocumentStore =
        λ n t. batch_delete_loop now namespace_id schema_type_id rounds (id + 1) n t in
      let unchanged : k ≡ k + 0 = omega arith in
      let cached = in_cache s id sound within in
      elim (Bool-cases (has_id namespace_id (filter_of s id).namespace_id)) [
        | inr other_namespace ↦
            let no_match : selects' s id ≡ false = rw other_namespace refl in
            (
              s,
              skipped s id sound no_match,
              rw (batch_delete_loop, cached, other_namespace) (ap (λ (n : ℕ). next n s) unchanged),
            )
        | inl namespace ↦
            elim (Bool-cases (has_id schema_type_id (filter_of s id).schema_type_id)) [
              | inr other_type ↦
                  let no_match : selects' s id ≡ false = rw (namespace, other_type) refl in
                  (
                    s,
                    skipped s id sound no_match,
                    rw (batch_delete_loop, cached, namespace, other_type)
                        (ap (λ (n : ℕ). next n s) unchanged),
                  )
              | inl type ↦ elim (Option-cases (visible s now id)) [
                | inl hidden ↦
                    let no_match : selects' s id ≡ false = rw (namespace, type, hidden) refl in
                    let gone = delete_by_id-hidden s sound now id within hidden in
                    let code : (delete_by_id now id s).0 ≡ error not_found =
                      ap (λ (r : StatusOr (Unit {0}) × DocumentStore). r.0) gone in
                    (
                      s,
                      skipped s id sound no_match,
                      rw (batch_delete_loop, cached, namespace, type, code, hidden)
                          (ap₂ next unchanged
                            (ap (λ (r : StatusOr (Unit {0}) × DocumentStore). r.1) gone)),
                    )
                | inr (document, shown) ↦
                    let match : selects' s id ≡ true = rw (namespace, type, shown) refl in
                    let (offset, at, done) =
                      delete_by_id-visible s sound now id within document shown in
                    let code : (delete_by_id now id s).0 ≡ value tt =
                      ap (λ (r : StatusOr (Unit {0}) × DocumentStore). r.0) done in
                    (
                      erased s id offset,
                      deleted s id offset sound within at match,
                      rw (batch_delete_loop, cached, namespace, type, code, shown)
                          (ap (next (k + 1))
                            (ap (λ (r : StatusOr (Unit {0}) × DocumentStore). r.1) done)),
                    )
              ]
            ]
      ]

  -- The loop deletes what is selected, and counts it.
  batch_delete_loop_lem :
      (rounds : ℕ) (s : DocumentStore) (id k : ℕ)
      → IsSound s
      → id + rounds ≤ s.document_id_mapper.num_elements
      → let r = batch_delete_loop now namespace_id schema_type_id rounds id k s in
        (r.0 ≡ value (k + count_selected s now namespace_id schema_type_id rounds id))
        × Deletes s now namespace_id schema_type_id rounds id r.1
  unfolding batch_delete_loop
  batch_delete_loop_lem zero s id k sound within =
      let none_in : (other : ℕ) → leb id other && ltb other (id + 0) ≡ false =
        λ other. ground arith in
      (
        ap value (omega arith),
        record {
          is_sound = sound;
          same_keys = refl;
          same_size = refl;
          shown = λ later other. ground (arith, none_in other);
        },
      )
  batch_delete_loop_lem (suc rounds) s id k sound within =
      let (s', passes, next) = step s id k rounds sound (omega (arith, within)) in
      let (counted, deletes) =
        batch_delete_loop_lem rounds s' (id + 1) (k + one_if (selects' s id)) passes.is_sound
          (omega (arith, within, passes.same_size)) in
      let total : k
            + one_if (selects' s id)
            + count_selected s' now namespace_id schema_type_id rounds (id + 1)
          ≡ k + count_selected s now namespace_id schema_type_id (suc rounds) id =
        ground (arith, count_selected-Passes s id s' passes rounds (id + 1)) in
      subst
        (λ (r : StatusOr ℕ × DocumentStore).
          (r.0 ≡ value (k + count_selected s now namespace_id schema_type_id (suc rounds) id))
          × Deletes s now namespace_id schema_type_id (suc rounds) id r.1)
        (sym next) (counted ∙ ap value total, Passes-Deletes s id s' rounds _ passes deletes)

  -- BatchDelete deletes the documents that exist and have the ids, and no others; it gives their
  -- number.
  pub batch_delete_lem :
      (s : DocumentStore)
      → IsSound s
      → let n = s.document_id_mapper.num_elements in
        let r = batch_delete now namespace_id schema_type_id s in
        (r.0 ≡ value (count_selected s now namespace_id schema_type_id n 0))
        × Deletes s now namespace_id schema_type_id n 0 r.1
  unfolding batch_delete
  batch_delete_lem s sound =
      let all : s.filter_cache.num_elements ≡ s.document_id_mapper.num_elements = sound.aligned in
      let done =
        batch_delete_loop_lem s.document_id_mapper.num_elements s 0 0 sound (omega arith) in
      subst
        (λ (n : ℕ).
          ((batch_delete_loop now namespace_id schema_type_id n 0 0 s).0
            ≡ value (
                count_selected s now namespace_id schema_type_id s.document_id_mapper.num_elements
                  0))
          × Deletes s now namespace_id schema_type_id s.document_id_mapper.num_elements 0
              (batch_delete_loop now namespace_id schema_type_id n 0 0 s).1)
        (sym all) (done.0 ∙ ap value (omega arith), done.1)
