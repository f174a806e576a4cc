-- ===== src/Store/DocumentStore/Delete.antt =====
-- Delete, ClearDerivedData, BatchDelete, DeleteByNamespace and DeleteBySchemaType of
-- icing/store/document-store.cc.
pub mod Erased
pub mod Removes
pub mod Batches
pub mod Groups
use external_icing.Base.{
  ℕ, zero, suc, ◌+◌, ◌-◌, ◌^◌, Bool, true, false, not, ◌&&◌, Option, none, some, ltb, leb, ◌==◌,
  if◌then◌else◌,
}
use external_icing.Store.{
  StatusOr, value, error, Status, not_found, out_of_range, resource_exhausted, internal, Text,
  Method, give, fail, lift, gets, ◌>>=◌, ◌>>◌, continue, fail_if,
}
use external_icing.Store.FileBackedVector.{Vector, vector_get, vector_set}
use external_icing.Store.KeyMapper.{KeyMapper, mapper_get}
use external_icing.Store.ProtoLog.{write_proto}
use external_icing.Store.UsageStore.{is_document_id_valid, clone_usage_scores}
use external_icing.Store.DocumentStore.{
  Document, ScoreData, FilterData, CorpusData, DocumentStore, Environment, zero_offset, zero_score,
  zero_filter, zero_corpus, does_document_exist_with_status, calculate_expiration_timestamp_ms,
  get_document_id,
}
use external_icing.Store.DocumentStore.Caches.{
  Action, set_offset, update_score_cache, update_filter_cache, erase_document, delete_usage,
}

-- The entries of a deleted document.
abbrev pub deleted_score : ScoreData
deleted_score = record {
  corpus_id = none;
  document_score = none;
  created_ms = none;
  length_in_tokens = 0;
}

abbrev pub deleted_filter : FilterData
deleted_filter = record {
  namespace_id = none;
  schema_type_id = none;
  expiration_timestamp_ms = none;
}

-- ClearDerivedData
unfoldable pub clear_derived_data : ℕ → Action (Unit {0})
unfolding set_offset update_score_cache update_filter_cache delete_usage
clear_derived_data document_id = do
  set_offset document_id none
  update_score_cache document_id deleted_score
  update_filter_cache document_id deleted_filter
  delete_usage document_id

-- The offset of a document that exists.
unfoldable pub offset_of : ℕ → DocumentStore → StatusOr ℕ
unfolding vector_get
offset_of document_id s = elim (vector_get zero_offset s.document_id_mapper document_id) [
  | error _ ↦ error internal
  | value none ↦ error internal
  | value (some offset) ↦ value offset
]

-- Delete by an id
unfoldable pub delete_by_id : ℕ → ℕ → Action (Unit {0})
unfolding does_document_exist_with_status offset_of erase_document clear_derived_data
delete_by_id now document_id = do
  (λ s. (does_document_exist_with_status s now document_id, s))
  offset ← (λ s. (offset_of document_id s, s))
  erase_document offset
  clear_derived_data document_id

-- Delete by namespace and uri
unfoldable pub delete : Environment → ℕ → Text → Text → Action (Unit {0})
unfolding get_document_id delete_by_id
delete env now name_space uri = do
  document_id ← (λ s. (get_document_id env s name_space uri, s))
  delete_by_id now document_id

-- Whether an entry has the id that is asked for; `none` is the invalid id, which asks for any.
abbrev pub has_id : Option ℕ → Option ℕ → Bool
has_id none entry = true
has_id (some id) none = false
has_id (some id) (some entry) = entry == id

-- The loop of BatchDelete from a document id on, with the rounds that are left.
unfoldable pub batch_delete_loop : ℕ → Option ℕ → Option ℕ → ℕ → ℕ → ℕ → Action ℕ
unfolding vector_get delete_by_id
batch_delete_loop now namespace_id schema_type_id zero document_id num_updated s =
    (value num_updated, s)
batch_delete_loop now namespace_id schema_type_id (suc rounds) document_id num_updated s =
    let next = document_id + 1 in
    let skip = batch_delete_loop now namespace_id schema_type_id rounds next num_updated s in
    let (deleted, s') = delete_by_id now document_id s in
    let one_more =
      batch_delete_loop now namespace_id schema_type_id rounds next (num_updated + 1) s' in
    let same = batch_delete_loop now namespace_id schema_type_id rounds next num_updated s' in
    elim (vector_get zero_filter s.filter_cache document_id) [
      | error e ↦ (error e, s)
      | value entry ↦
          if not (has_id namespace_id entry.namespace_id)
          then skip
          else if not (has_id schema_type_id entry.schema_type_id)
          then skip
          else elim deleted [
            | value _ ↦ one_more
            | error not_found ↦ same
            | error e ↦ (error e, s')
          ]
    ]

-- BatchDelete
unfoldable pub batch_delete : ℕ → Option ℕ → Option ℕ → Action ℕ
unfolding batch_delete_loop
batch_delete now namespace_id schema_type_id s =
    batch_delete_loop now namespace_id schema_type_id s.filter_cache.num_elements 0 0 s

-- DeleteByGroupResult; no status is OK
pub record GroupResult : Type 0 where
  pub status : Option Status
  pub num_docs_deleted : ℕ

abbrev pub group_result : StatusOr ℕ → GroupResult
group_result (error e) = record { status = some e; num_docs_deleted = 0 }
group_result (value n) = record {
  status = if n == 0 then some not_found else none;
  num_docs_deleted = n;
}

-- DeleteByNamespace
unfoldable pub delete_by_namespace : ℕ → Text → DocumentStore → GroupResult × DocumentStore
unfolding mapper_get batch_delete
delete_by_namespace now name_space s =
    let (r, s') =
      (lift (mapper_get s.namespace_mapper name_space) >>= λ id. batch_delete now (some id) none)
        s in
    (group_result r, s')

-- DeleteBySchemaType
unfoldable pub delete_by_schema_type :
    Environment → ℕ → Text → DocumentStore → GroupResult × DocumentStore
unfolding batch_delete
delete_by_schema_type env now schema_type s =
    let (r, s') =
      (lift (env.get_schema_type_id schema_type) >>= λ id. batch_delete now none (some id)) s in
    (group_result r, s')
