-- ===== src/Store/DocumentStore/Schema/Described.antt =====
-- What OptimizedUpdateSchemaStore of icing/store/document-store.cc relies on: the result of SetSchema
-- and the tests of the documents that exist.
use external_icing.Base.{
  ℕ, ◌<◌, ◌≡◌, refl, ◌∙◌, Bool, true, false, ◌||◌, none, some, arith, Option-cases, Bool-cases, inl,
  inr,
}
use external_icing.Store.{StatusOr, value, error}
use external_icing.Store.FileBackedVector.{vector_get}
use external_icing.Store.DocumentStore.{
  Document, DocumentStore, Environment, clear_if, internal_does_document_exist, zero_filter,
  is_past,
}
use external_icing.Store.DocumentStore.View.{
  visible, IsSound, some_is_none, offset_at, expiration_at, visible-some, is_deleted-none,
  is_deleted-some, is_expired-is_past,
}
use external_icing.Store.DocumentStore.Schema.{SetSchemaResult, has_type}
use external_icing.Store.DocumentStore.Schema.Typed.{filter_of}
use external_icing.Store.DocumentStore.Schema.Revalidated.{is_error}

-- The result of SetSchema describes what the new schema changes for the documents that exist: those of
-- deleted types are rejected, and of the others those of types that are not incompatible are accepted;
-- types whose id has not changed have their id in the filter cache, and those whose id has changed have one.
pub record Describes (env : Environment) (result : SetSchemaResult) (s : DocumentStore) (now : ℕ)
    : Type 0 where
  pub deleted :
      (id : ℕ) (document : Document)
      → visible s now id ≡ some document
      → has_type result.schema_types_deleted_by_id (filter_of s id).schema_type_id ≡ true
      → is_error (env.validate (clear_if true document)) ≡ true
  pub compatible :
      (id : ℕ) (document : Document)
      → visible s now id ≡ some document
      → has_type result.schema_types_deleted_by_id (filter_of s id).schema_type_id ≡ false
      → has_type result.schema_types_incompatible_by_id (filter_of s id).schema_type_id ≡ false
      → is_error (env.validate (clear_if true document)) ≡ false
  pub changed :
      (id : ℕ) (document : Document)
      → visible s now id ≡ some document
      → has_type result.old_schema_type_ids_changed (filter_of s id).schema_type_id ≡ true
      → (schema_type_id : ℕ) × (env.get_schema_type_id document.schema ≡ value schema_type_id)
  pub unchanged :
      (id schema_type_id : ℕ) (document : Document)
      → visible s now id ≡ some document
      → has_type result.old_schema_type_ids_changed (filter_of s id).schema_type_id ≡ false
      → env.get_schema_type_id document.schema ≡ value schema_type_id
      → (filter_of s id).schema_type_id ≡ some schema_type_id

module _ (t : DocumentStore) (sound : IsSound t) (now k : ℕ)
    (within : k < t.document_id_mapper.num_elements) where
  pub exists-shown :
      (document : Document)
      → visible t now k ≡ some document
      → internal_does_document_exist t now k ≡ true
  unfolding internal_does_document_exist
  exists-shown document there =
      let (offset, at, alive, below, kept) = visible-some t sound now k within document there in
      ground (
        arith,
        is_deleted-some t sound now k within offset at,
        is_expired-is_past t sound now k within ∙ alive,
      )

  pub exists-hidden : visible t now k ≡ none → internal_does_document_exist t now k ≡ false
  unfolding internal_does_document_exist
  exists-hidden hidden = elim (Bool-cases (is_past now (expiration_at t k))) [
    | inl past ↦ ground (arith, is_expired-is_past t sound now k within ∙ past)
    | inr alive ↦ elim (Option-cases (offset_at t k)) [
      | inl gone ↦ ground (arith, is_deleted-none t sound now k within gone)
      | inr (offset, at) ↦
          let (below, document, there) = sound.stored k offset at in
          absurd (some_is_none document hidden (ground (arith, alive, at, there)))
    ]
  ]

  pub entry_there : vector_get zero_filter t.filter_cache k ≡ value (filter_of t k)
  unfolding vector_get
  entry_there = ground (arith, sound.aligned)

pub is_error-elim :
    (r : StatusOr (Unit {0}))
    → (elim r as (λ _. Bool) [ value _ ↦ false | error _ ↦ true ]) ≡ is_error r
is_error-elim (value done) = refl
is_error-elim (error e) = refl

pub or_left : (a b : Bool) → (a || b) ≡ false → a ≡ false
or_left false b neither = refl
or_left true b neither = neither

pub or_right : (a b : Bool) → (a || b) ≡ false → b ≡ false
or_right a false neither = refl
or_right false true neither = neither
or_right true true neither = neither
