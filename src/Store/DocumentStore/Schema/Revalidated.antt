-- ===== src/Store/DocumentStore/Schema/Revalidated.antt =====
-- UpdateSchemaStore of icing/store/document-store.cc: the store after some rounds.
use external_icing.Base.{
  ℕ, suc, ◌<◌, ◌≡◌, refl, ap, sym, ◌∙◌, Bool, true, false, ◌&&◌, Option, none, some, ltb, ◌==◌,
  if◌then◌else◌, arith, Bool-cases, inl, inr, ◌⊎◌,
}
use external_icing.Store.{StatusOr, value, error}
use external_icing.Store.FileBackedVector.{get_or-write_at}
use external_icing.Store.DocumentStore.{Document, DocumentStore, Environment, clear_if, zero_filter}
use external_icing.Store.DocumentStore.View.{visible, IsSound, some_is_none, offset_at}
use external_icing.Store.DocumentStore.Put.Filed.{IsFiled, IsFiled-erased, shown_before}
use external_icing.Store.DocumentStore.Delete.{deleted_filter}
use external_icing.Store.DocumentStore.Delete.Erased.{erased, visible-erased, IsSound-erased}
use external_icing.Store.DocumentStore.Schema.Typed.{
  filter_of, retyped, schema_type_id-retyped, visible-retyped, IsSound-retyped, IsFiled-retyped,
}

abbrev pub is_error : StatusOr (Unit {0}) → Bool
is_error (value _) = false
is_error (error e) = true

-- Whether a document exists that the validator rejects, without its internal fields.
abbrev pub rejected_one : Environment → Option Document → Bool
rejected_one env none = false
rejected_one env (some document) = is_error (env.validate (clear_if true document))

abbrev pub rejected : Environment → DocumentStore → ℕ → ℕ → Bool
rejected env s now id = rejected_one env (visible s now id)

module _ (env : Environment) (s : DocumentStore) (now : ℕ) where
  -- The store after the first ids were looked at.
  pub record Revalidated (k : ℕ) (t : DocumentStore) : Type 0 where
    pub is_sound : IsSound t
    pub is_filed : IsFiled env t now
    pub same_size : t.document_id_mapper.num_elements ≡ s.document_id_mapper.num_elements
    pub shown :
        (later other : ℕ)
        → visible t later other
          ≡ (if ltb other k && rejected env s now other then none else visible s later other)
    pub types :
        (other schema_type_id : ℕ) (document : Document)
        → other < k
        → visible t now other ≡ some document
        → env.get_schema_type_id document.schema ≡ value schema_type_id
        → (filter_of t other).schema_type_id ≡ some schema_type_id

  pub start : IsSound s → IsFiled env s now → Revalidated 0 s
  start sound filed = record {
    is_sound = sound;
    is_filed = filed;
    same_size = refl;
    shown = λ later other. ground arith;
    types = λ other schema_type_id document h. absurd (omega (arith, h));
  }

  module _ (k : ℕ) (t : DocumentStore) (before : Revalidated k t)
      (within : k < s.document_id_mapper.num_elements) where
    not_yet : visible t now k ≡ visible s now k
    not_yet = before.shown now k ∙ ground arith

    -- A round keeps what the id shows if the validator accepts it.
    until_next :
        (later other : ℕ)
        → rejected env s now k ≡ false
        → (if ltb other k && rejected env s now other then none else visible s later other)
          ≡ (if ltb other (suc k) && rejected env s now other then none else visible s later other)
    until_next later other accepted = elim (Bool-cases (other == k)) [
      | inl same ↦
          let equal : rejected env s now other ≡ false =
            ap (rejected env s now) (ground (arith, same)) ∙ accepted in
          ap (λ (b : Bool). if ltb other k && b then none else visible s later other) equal
          ∙ ground arith
          ∙ sym (
              ap (λ (b : Bool). if ltb other (suc k) && b then none else visible s later other)
                equal)
      | inr apart ↦
          let same : ltb other k ≡ ltb other (suc k) = ground arith in
          ap (λ (b : Bool). if b && rejected env s now other then none else visible s later other)
            same
    ]

    pub pass : visible t now k ≡ none → Revalidated (suc k) t
    pass hidden = record {
      is_sound = before.is_sound;
      is_filed = before.is_filed;
      same_size = before.same_size;
      shown = λ later other.
          before.shown later other
          ∙ until_next later other (ap (rejected_one env) (sym not_yet ∙ hidden));
      types = λ other schema_type_id document h there type. elim (Bool-cases (other == k)) [
        | inl same ↦
            absurd
              (some_is_none document (ap (visible t now) (ground (arith, same)) ∙ hidden) there)
        | inr apart ↦
            before.types other schema_type_id document (ground (arith, h, apart)) there type
      ];
    }

    module _ (document : Document) (there : visible t now k ≡ some document) where
      shown_first : visible s now k ≡ some document
      shown_first = sym not_yet ∙ there

      -- A document that is accepted stays, with its type id in the cache.
      pub keep :
          is_error (env.validate (clear_if true document)) ≡ false
          → ((schema_type_id : ℕ)
              → env.get_schema_type_id document.schema ≡ value schema_type_id
              → (filter_of t k).schema_type_id ≡ some schema_type_id)
          → Revalidated (suc k) t
      keep valid typed = record {
        is_sound = before.is_sound;
        is_filed = before.is_filed;
        same_size = before.same_size;
        shown = λ later other.
            before.shown later other
            ∙ until_next later other (ap (rejected_one env) shown_first ∙ valid);
        types = λ other type_id d h shown_d of_d. elim (Bool-cases (k == other)) [
          | inl same ↦
              let equal : k ≡ other = ground (arith, same) in
              let both : some d ≡ some document =
                sym shown_d ∙ ap (visible t now) (sym equal) ∙ there in
              let same_document : d ≡ document = ground (arith, both) in
              ap (λ (n : ℕ). (filter_of t n).schema_type_id) (sym equal)
              ∙ typed type_id (
                  sym (ap (λ (e : Document). env.get_schema_type_id e.schema) same_document) ∙ of_d)
          | inr apart ↦ before.types other type_id d (ground (arith, h, apart)) shown_d of_d
        ];
      }

      pub accept :
          (schema_type_id : ℕ)
          → env.validate (clear_if true document) ≡ value tt
          → env.get_schema_type_id document.schema ≡ value schema_type_id
          → Revalidated (suc k) (retyped t k schema_type_id)
      accept schema_type_id valid type = record {
        is_sound = IsSound-retyped t k schema_type_id before.is_sound;
        is_filed = IsFiled-retyped t k schema_type_id env now before.is_filed;
        same_size = before.same_size;
        shown = λ later other.
            visible-retyped t k schema_type_id later other
            ∙ before.shown later other
            ∙ until_next later other (ap (rejected_one env) shown_first ∙ ap is_error valid);
        types = λ other type_id d h shown_d of_d.
            schema_type_id-retyped t k schema_type_id other
            ∙ type_after other type_id d h
                (sym (visible-retyped t k schema_type_id now other) ∙ shown_d) of_d
                (Bool-cases (k == other));
      }
        where
          type_after :
              (other type_id : ℕ) (d : Document)
              → other < suc k
              → visible t now other ≡ some d
              → env.get_schema_type_id d.schema ≡ value type_id
              → ((k == other) ≡ true) ⊎ ((k == other) ≡ false)
              → (if k == other then some schema_type_id else (filter_of t other).schema_type_id)
                ≡ some type_id
          type_after other type_id d h shown_d of_d (inl same) =
              let both : some d ≡ some document =
                sym shown_d ∙ ap (visible t now) (ground (arith, same)) ∙ there in
              let same_document : d ≡ document = ground (arith, both) in
              let ids : StatusOr.value type_id ≡ value schema_type_id =
                sym of_d
                ∙ ap (λ (e : Document). env.get_schema_type_id e.schema) same_document
                ∙ type in
              rw same (ground (arith, ids))
          type_after other type_id d h shown_d of_d (inr apart) =
              rw apart (before.types other type_id d (ground (arith, h, apart)) shown_d of_d)

      pub reject :
          (offset : ℕ)
          → offset_at t k ≡ some offset
          → is_error (env.validate (clear_if true document)) ≡ true
          → Revalidated (suc k) (erased t k offset)
      reject offset at invalid =
          let in_t : k < t.document_id_mapper.num_elements =
            omega (arith, within, before.same_size) in
          record {
            is_sound = IsSound-erased t before.is_sound k in_t offset at;
            is_filed = IsFiled-erased env t now k offset before.is_sound in_t at before.is_filed;
            same_size = ground (arith, in_t, before.same_size);
            shown = λ later other.
                visible-erased t before.is_sound k in_t offset at later other
                ∙ erased_until later other (ap (rejected_one env) shown_first ∙ invalid)
                    (Bool-cases (k == other));
            types = λ other type_id d h shown_d of_d.
                let (apart, shown_t, _) =
                  shown_before env t now k offset before.is_sound in_t at other d shown_d in
                ground (
                  arith,
                  get_or-write_at zero_filter t.filter_cache.array k other deleted_filter,
                  apart,
                  before.types other type_id d (ground (arith, h, apart)) shown_t of_d,
                );
          }
        where
          erased_until :
              (later other : ℕ)
              → rejected env s now k ≡ true
              → ((k == other) ≡ true) ⊎ ((k == other) ≡ false)
              → (if k == other then none else visible t later other) ≡ (
                  if ltb other (suc k) && rejected env s now other
                  then none
                  else visible s later other)
          erased_until later other gone (inl same) =
              let equal : rejected env s now other ≡ true =
                ap (rejected env s now) (ground (arith, same)) ∙ gone in
              let inside : ltb other (suc k) ≡ true = ground (arith, same) in
              rw (same, inside, equal) refl
          erased_until later other gone (inr apart) =
              let same : ltb other k ≡ ltb other (suc k) = ground (arith, apart) in
              rw apart (
                before.shown later other
                ∙ ap
                    (λ (b : Bool).
                      if b && rejected env s now other then none else visible s later other)
                    same)

  -- The type id of the next document may be written.
  pub retyped-Revalidated :
      (k : ℕ) (t : DocumentStore) (schema_type_id : ℕ)
      → Revalidated k t
      → Revalidated k (retyped t k schema_type_id)
  retyped-Revalidated k t schema_type_id before = record {
    is_sound = IsSound-retyped t k schema_type_id before.is_sound;
    is_filed = IsFiled-retyped t k schema_type_id env now before.is_filed;
    same_size = before.same_size;
    shown =
        λ later other. visible-retyped t k schema_type_id later other ∙ before.shown later other;
    types = λ other type_id d h shown_d of_d.
        let apart : (k == other) ≡ false = ground (arith, h) in
        schema_type_id-retyped t k schema_type_id other
        ∙ rw apart (
            before.types other type_id d h
              (sym (visible-retyped t k schema_type_id now other) ∙ shown_d) of_d);
  }
