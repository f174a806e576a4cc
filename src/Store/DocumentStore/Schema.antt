-- ===== src/Store/DocumentStore/Schema.antt =====
-- UpdateSchemaStore and OptimizedUpdateSchemaStore of icing/store/document-store.cc: the environment
-- is the one of the new schema store.
pub mod Typed
pub mod Revalidated
pub mod Ended
pub mod Revalidates
pub mod Described
pub mod Optimized
pub mod Optimizes
use external_icing.Base.{
  ℕ, zero, suc, ◌+◌, Bool, true, false, not, ◌||◌, List, [], ◌∷◌, Option, none, some, ◌==◌,
  if◌then◌else◌, get_or,
}
use external_icing.Store.{value, error, not_found, give, lift, ◌>>=◌, ◌>>◌}
use external_icing.Store.FileBackedVector.{write_at, vector_get}
use external_icing.Store.DocumentStore.{
  Document, Environment, zero_filter, get_by_id, internal_does_document_exist,
}
use external_icing.Store.DocumentStore.Caches.{Action}
use external_icing.Store.DocumentStore.Delete.{delete, delete_by_id}
use external_icing.Store.DocumentStore.Put.{ignore_not_found}

-- `filter_cache_->mutable_array()[document_id].set_schema_type_id`
unfoldable pub set_schema_type_id : ℕ → ℕ → Action (Unit {0})
set_schema_type_id document_id schema_type_id s =
    let entry = get_or s.filter_cache.array document_id zero_filter in
    (
      value tt,
      record s {
        filter_cache = record {
          array =
              write_at zero_filter s.filter_cache.array document_id
                (record entry { schema_type_id = some schema_type_id });
          num_elements = s.filter_cache.num_elements;
        };
      },
    )

-- Revalidation of a document: its new type, or its deletion.
unfoldable pub revalidate : Environment → ℕ → ℕ → Document → Action (Unit {0})
unfolding set_schema_type_id delete
revalidate env now document_id document = elim (env.validate document) [
  | value _ ↦ lift (env.get_schema_type_id document.schema) >>= set_schema_type_id document_id
  | error _ ↦ ignore_not_found (delete env now document.name_space document.uri)
]

-- A round of UpdateSchemaStore: a document that does not exist is passed over.
unfoldable pub update_one : Environment → ℕ → ℕ → Action (Unit {0})
unfolding get_by_id revalidate
update_one env now document_id s = elim (get_by_id s now document_id true) [
  | error not_found ↦ (value tt, s)
  | error e ↦ (error e, s)
  | value document ↦ revalidate env now document_id document s
]

unfoldable pub update_schema_loop : Environment → ℕ → ℕ → ℕ → Action (Unit {0})
unfolding update_one
update_schema_loop env now zero document_id = give tt
update_schema_loop env now (suc rounds) document_id =
    let rest = update_schema_loop env now rounds (document_id + 1) in
    update_one env now document_id >> rest

-- UpdateSchemaStore
unfoldable pub update_schema_store : Environment → ℕ → Action (Unit {0})
unfolding update_schema_loop
update_schema_store env now s = update_schema_loop env now s.document_id_mapper.num_elements 0 s

-- SchemaStore::SetSchemaResult, the members that are read here
pub record SetSchemaResult : Type 0 where
  pub success : Bool
  pub schema_types_deleted_by_id : List ℕ
  pub old_schema_type_ids_changed : List ℕ
  pub schema_types_incompatible_by_id : List ℕ

-- `count(id) != 0`, of an id that may be the invalid one, which no set has
abbrev pub has_type : List ℕ → Option ℕ → Bool
has_type ids none = false
has_type [] (some id) = false
has_type (k ∷ ids) (some id) = if k == id then true else has_type ids (some id)

-- Whether the document has to go, with its type updated in the cache if that has changed.
unfoldable pub check_document :
    Environment → SetSchemaResult → Option ℕ → ℕ → Document → Bool → Action Bool
unfolding set_schema_type_id
check_document env result old_type document_id document deleted_type = do
  (if has_type result.old_schema_type_ids_changed old_type
      then (lift (env.get_schema_type_id document.schema) >>= set_schema_type_id document_id)
      else give tt)
  (if has_type result.schema_types_incompatible_by_id old_type
      then give (elim (env.validate document) [ value _ ↦ false | error _ ↦ true ])
      else give deleted_type)

-- A round of OptimizedUpdateSchemaStore for a document that exists.
unfoldable pub optimized_update_one : Environment → SetSchemaResult → ℕ → ℕ → Action (Unit {0})
unfolding vector_get get_by_id check_document delete_by_id
optimized_update_one env result now document_id s =
    (do
      entry ← lift (vector_get zero_filter s.filter_cache document_id)
      let deleted_type = has_type result.schema_types_deleted_by_id entry.schema_type_id
      delete_document ←
          (if has_type result.old_schema_type_ids_changed entry.schema_type_id
              || has_type result.schema_types_incompatible_by_id entry.schema_type_id
            then (lift (get_by_id s now document_id true) >>= λ document.
                check_document env result entry.schema_type_id document_id document deleted_type)
            else give deleted_type)
      (if delete_document then ignore_not_found (delete_by_id now document_id) else give tt))
      s

unfoldable pub optimized_update_loop : Environment → SetSchemaResult → ℕ → ℕ → ℕ → Action (Unit {0})
unfolding internal_does_document_exist optimized_update_one
optimized_update_loop env result now zero document_id s = (value tt, s)
optimized_update_loop env result now (suc rounds) document_id s =
    let rest = optimized_update_loop env result now rounds (document_id + 1) in
    if not (internal_does_document_exist s now document_id)
    then rest s
    else (optimized_update_one env result now document_id >> rest) s

-- OptimizedUpdateSchemaStore
unfoldable pub optimized_update_schema_store : Environment → SetSchemaResult → ℕ → Action (Unit {0})
unfolding optimized_update_loop
optimized_update_schema_store env result now s =
    if not result.success
    then (value tt, s)
    else optimized_update_loop env result now s.document_id_mapper.num_elements 0 s
