-- ===== src/Store/DocumentStore/Put.antt =====
-- DocumentStore::InternalPut and Put, with AddDocument of
-- icing/store/corpus-associated-scoring-data.h.
pub mod Indexed
pub mod Replaced
pub mod Replaces
pub mod Versions
pub mod Fails
pub mod Filed
pub mod Files
pub mod Gets
pub mod Loses
use external_icing.Base.{
  ℕ, ◌+◌, ◌-◌, ◌^◌, Bool, true, false, not, ◌&&◌, Option, none, some, ltb, leb, ◌==◌, if◌then◌else◌,
}
use external_icing.Store.{
  StatusOr, value, error, Status, not_found, out_of_range, resource_exhausted, internal, Text,
  Method, give, fail, lift, gets, ◌>>=◌, ◌>>◌, continue, fail_if,
}
use external_icing.Store.FileBackedVector.{Vector, vector_get, vector_set}
use external_icing.Store.KeyMapper.{KeyMapper, mapper_put, get_or_put, num_keys}
use external_icing.Store.ProtoLog.{write_proto}
use external_icing.Store.UsageStore.{is_document_id_valid, clone_usage_scores}
use external_icing.Store.DocumentStore.{
  Document, ScoreData, FilterData, CorpusData, DocumentStore, Environment, zero_offset, zero_score,
  zero_filter, zero_corpus, make_fingerprint, calculate_expiration_timestamp_ms, get_document_id,
}
use external_icing.Store.DocumentStore.Caches.{
  Action, write_document, put_key, set_offset, namespace_id_of, corpus_id_of,
  get_corpus_data_to_update, update_corpus_cache, update_score_cache, update_filter_cache,
  clone_usage,
}
use external_icing.Store.DocumentStore.Delete.{delete_by_id}

-- CorpusAssociatedScoreData::AddDocument; the largest `int` bounds the sum. The
-- length is an `int32_t` that is not negative, so the subtraction does not wrap around.
unfoldable pub add_document : CorpusData → ℕ → CorpusData
add_document c doc_length_in_tokens = record {
  num_docs = c.num_docs + 1;
  sum_length_in_tokens =
      if ltb (2 ^ 31 - 1 - doc_length_in_tokens) c.sum_length_in_tokens
      then 2 ^ 31 - 1
      else c.sum_length_in_tokens + doc_length_in_tokens;
}

-- The creation time that the document gets if it has none.
unfoldable pub with_creation_time : ℕ → Document → Document
with_creation_time now document =
    if document.creation_timestamp_ms == 0
    then record document { creation_timestamp_ms = now }
    else document

-- Deleting the version that a new one replaces: it may be gone already.
abbrev pub ignored : StatusOr (Unit {0}) × DocumentStore → StatusOr (Unit {0}) × DocumentStore
ignored (value _, s) = (value tt, s)
ignored (error not_found, s) = (value tt, s)
ignored (error e, s) = (error e, s)

abbrev pub ignore_not_found : Action (Unit {0}) → Action (Unit {0})
ignore_not_found m s = ignored (m s)

-- What InternalPut does with the version that is replaced.
unfoldable pub replace_old : ℕ → StatusOr ℕ → ℕ → Action (Unit {0})
unfolding clone_usage delete_by_id
replace_old now (error e) new_id = give tt
replace_old now (value old_id) new_id =
    clone_usage old_id new_id >> ignore_not_found (delete_by_id now old_id)

-- Whether the key mapper could not be read.
abbrev pub is_real_error : StatusOr ℕ → Bool
is_real_error (value _) = false
is_real_error (error not_found) = false
is_real_error (error _) = true

-- What is derived from a document: the maps and the caches for its new id.
unfoldable pub index_document : Environment → Document → ℕ → ℕ → Action (Unit {0})
unfolding make_fingerprint put_key set_offset namespace_id_of corpus_id_of get_corpus_data_to_update
    update_corpus_cache update_score_cache update_filter_cache add_document
    calculate_expiration_timestamp_ms
index_document env document new_id offset = do
  put_key env (make_fingerprint env document.name_space document.uri) new_id
  set_offset new_id (some offset)
  namespace_id ← namespace_id_of env document.name_space
  corpus_id ← corpus_id_of env (make_fingerprint env document.name_space document.schema)
  scoring_data ← get_corpus_data_to_update corpus_id
  update_corpus_cache corpus_id (add_document scoring_data document.length_in_tokens)
  update_score_cache new_id (record {
    corpus_id = some corpus_id;
    document_score = some document.score;
    created_ms = some document.creation_timestamp_ms;
    length_in_tokens = document.length_in_tokens;
  })
  schema_type_id ← lift (env.get_schema_type_id document.schema)
  update_filter_cache new_id (record {
    namespace_id = some namespace_id;
    schema_type_id = some schema_type_id;
    expiration_timestamp_ms =
        some (calculate_expiration_timestamp_ms document.creation_timestamp_ms document.ttl_ms);
  })

-- InternalPut of a document with its creation time.
unfoldable pub put_document : Environment → ℕ → Document → Action ℕ
unfolding write_document get_document_id index_document replace_old
put_document env now document = do
  offset ← write_document env document
  old_id ← gets (λ s. get_document_id env s document.name_space document.uri)
  fail_if (is_real_error old_id) internal
  new_id ← gets (λ s. s.document_id_mapper.num_elements)
  fail_if (not (is_document_id_valid new_id)) resource_exhausted
  index_document env document new_id offset
  replace_old now old_id new_id
  give new_id

-- InternalPut
unfoldable pub internal_put : Environment → ℕ → Document → Action ℕ
unfolding put_document with_creation_time
internal_put env now document =
    lift (env.validate document) >> put_document env now (with_creation_time now document)

-- The number of tokens in the document's internal fields.
abbrev pub with_length : ℕ → Document → Document
with_length num_tokens document = record document { length_in_tokens = num_tokens }

-- Put
unfoldable pub put : Environment → ℕ → Document → ℕ → Action ℕ
unfolding internal_put
put env now document num_tokens = internal_put env now (with_length num_tokens document)
