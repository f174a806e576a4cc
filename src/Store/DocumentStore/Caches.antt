-- ===== src/Store/DocumentStore/Caches.antt =====
-- The changes of single members that Put and Delete of icing/store/document-store.cc consist of.
use external_icing.Base.{ℕ, Option}
use external_icing.Store.{StatusOr, value, error, out_of_range, Text, Method}
use external_icing.Store.FileBackedVector.{vector_set}
use external_icing.Store.KeyMapper.{mapper_put, get_or_put, num_keys}
use external_icing.Store.ProtoLog.{write_proto, erase_proto}
use external_icing.Store.UsageStore.{clone_usage_scores, delete_usage_scores}
use external_icing.Store.DocumentStore.{
  Document, ScoreData, FilterData, CorpusData, DocumentStore, Environment, zero_offset, zero_score,
  zero_filter, zero_corpus, get_corpus_associated_score_data,
}

abbrev pub Action : Type 0 → Type 0
Action A = Method DocumentStore A

-- `document_log_->WriteProto`
unfoldable pub write_document : Environment → Document → Action ℕ
unfolding write_proto
write_document env document s =
    elim (write_proto env.byte_size env.stored_size env.max_proto_size s.document_log document) [
      | error e ↦ (error e, s)
      | value (offset, log) ↦ (value offset, record s { document_log = log })
    ]

-- `document_key_mapper_->Put`
unfoldable pub put_key : Environment → Text → ℕ → Action (Unit {0})
unfolding mapper_put
put_key env key document_id s =
    elim (mapper_put env.has_key_room s.document_key_mapper key document_id) [
      | error e ↦ (error e, s)
      | value mapper ↦ (value tt, record s { document_key_mapper = mapper })
    ]

-- `document_id_mapper_->Set`
unfoldable pub set_offset : ℕ → Option ℕ → Action (Unit {0})
unfolding vector_set
set_offset document_id offset s =
    elim (vector_set zero_offset s.document_id_mapper document_id offset) [
      | error e ↦ (error e, s)
      | value mapper ↦ (value tt, record s { document_id_mapper = mapper })
    ]

-- `namespace_mapper_->GetOrPut`
unfoldable pub namespace_id_of : Environment → Text → Action ℕ
unfolding get_or_put
namespace_id_of env name_space s =
    elim (get_or_put env.has_namespace_room s.namespace_mapper name_space
      (num_keys s.namespace_mapper)) [
        | error e ↦ (error e, s)
        | value (id, mapper) ↦ (value id, record s { namespace_mapper = mapper })
      ]

-- `corpus_mapper_->GetOrPut`
unfoldable pub corpus_id_of : Environment → Text → Action ℕ
unfolding get_or_put
corpus_id_of env key s =
    elim (get_or_put env.has_corpus_room s.corpus_mapper key (num_keys s.corpus_mapper)) [
      | error e ↦ (error e, s)
      | value (id, mapper) ↦ (value id, record s { corpus_mapper = mapper })
    ]

abbrev pub corpus_data_or_new : StatusOr CorpusData → StatusOr CorpusData
corpus_data_or_new (value c) = value c
corpus_data_or_new (error out_of_range) = value zero_corpus
corpus_data_or_new (error e) = error e

-- GetCorpusAssociatedScoreDataToUpdate
unfoldable pub get_corpus_data_to_update : ℕ → Action CorpusData
unfolding get_corpus_associated_score_data
get_corpus_data_to_update corpus_id s =
    (corpus_data_or_new (get_corpus_associated_score_data s corpus_id), s)

-- UpdateCorpusAssociatedScoreCache
unfoldable pub update_corpus_cache : ℕ → CorpusData → Action (Unit {0})
unfolding vector_set
update_corpus_cache corpus_id c s = elim (vector_set zero_corpus s.corpus_score_cache corpus_id c) [
  | error e ↦ (error e, s)
  | value cache ↦ (value tt, record s { corpus_score_cache = cache })
]

-- UpdateDocumentAssociatedScoreCache
unfoldable pub update_score_cache : ℕ → ScoreData → Action (Unit {0})
unfolding vector_set
update_score_cache document_id score_data s =
    elim (vector_set zero_score s.score_cache document_id score_data) [
      | error e ↦ (error e, s)
      | value cache ↦ (value tt, record s { score_cache = cache })
    ]

-- UpdateFilterCache
unfoldable pub update_filter_cache : ℕ → FilterData → Action (Unit {0})
unfolding vector_set
update_filter_cache document_id filter_data s =
    elim (vector_set zero_filter s.filter_cache document_id filter_data) [
      | error e ↦ (error e, s)
      | value cache ↦ (value tt, record s { filter_cache = cache })
    ]

-- `document_log_->EraseProto`
unfoldable pub erase_document : ℕ → Action (Unit {0})
unfolding erase_proto
erase_document offset s = elim (erase_proto s.document_log offset) [
  | error e ↦ (error e, s)
  | value log ↦ (value tt, record s { document_log = log })
]

-- `usage_store_->DeleteUsageScores`
unfoldable pub delete_usage : ℕ → Action (Unit {0})
unfolding delete_usage_scores
delete_usage document_id s = elim (delete_usage_scores s.usage_store document_id) [
  | error e ↦ (error e, s)
  | value store ↦ (value tt, record s { usage_store = store })
]

-- `usage_store_->CloneUsageScores`
unfoldable pub clone_usage : ℕ → ℕ → Action (Unit {0})
unfolding clone_usage_scores
clone_usage from to s = elim (clone_usage_scores s.usage_store from to) [
  | error e ↦ (error e, s)
  | value store ↦ (value tt, record s { usage_store = store })
]
