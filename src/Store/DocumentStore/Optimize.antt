-- ===== src/Store/DocumentStore/Optimize.antt =====
-- OptimizeInto of icing/store/document-store.cc: the documents that exist go into a new store. The
-- tokenizer is a parameter; the new store's directory is taken to be another, empty one.
pub mod Rooms
pub mod Kept
pub mod Carried
pub mod Keeps
use external_icing.Base.{ℕ, zero, suc, ◌+◌, ◌&&◌, Bool, false, [], ◌==◌, if◌then◌else◌}
use external_icing.Store.{StatusOr, value, error, not_found, give, lift, ◌>>=◌, ◌>>◌}
use external_icing.Store.FileBackedVector.{empty_vector}
use external_icing.Store.ProtoLog.{header_reserved_bytes}
use external_icing.Store.UsageStore.{UsageScores, default_usage, get_usage_scores, set_usage_scores}
use external_icing.Store.DocumentStore.{Document, DocumentStore, Environment, get_by_id}
use external_icing.Store.DocumentStore.Caches.{Action}
use external_icing.Store.DocumentStore.Put.{internal_put, put}

-- A new store.
abbrev pub empty_store : DocumentStore
empty_store = record {
  document_log = record { protos = []; file_size = header_reserved_bytes };
  document_key_mapper = [];
  document_id_mapper = empty_vector;
  score_cache = empty_vector;
  filter_cache = empty_vector;
  namespace_mapper = [];
  corpus_mapper = [];
  corpus_score_cache = empty_vector;
  usage_store = empty_vector;
}

-- UsageScores::operator==
abbrev pub usage_eq : UsageScores → UsageScores → Bool
usage_eq a b =
    (a.usage_type1_last_used_timestamp_s == b.usage_type1_last_used_timestamp_s)
    && (a.usage_type2_last_used_timestamp_s == b.usage_type2_last_used_timestamp_s)
    && (a.usage_type3_last_used_timestamp_s == b.usage_type3_last_used_timestamp_s)
    && (a.usage_type1_count == b.usage_type1_count)
    && (a.usage_type2_count == b.usage_type2_count)
    && (a.usage_type3_count == b.usage_type3_count)

-- SetUsageScores
unfoldable pub set_usage : ℕ → UsageScores → Action (Unit {0})
unfolding set_usage_scores
set_usage document_id scores s = elim (set_usage_scores s.usage_store document_id scores) [
  | error e ↦ (error e, s)
  | value store ↦ (value tt, record s { usage_store = store })
]

-- Writing a document that is kept: one without a length is tokenized again. `num_tokens` is what
-- TokenizedDocument::Create gives.
unfoldable pub put_kept : Environment → (Document → StatusOr ℕ) → ℕ → Document → Action ℕ
unfolding put internal_put
put_kept env num_tokens now document =
    if document.length_in_tokens == 0
    then lift (num_tokens document) >>= put env now document
    else internal_put env now document

-- A round of OptimizeInto for a document of the old store.
unfoldable pub keep_document :
    Environment → (Document → StatusOr ℕ) → DocumentStore → ℕ → ℕ → Document → Action (Unit {0})
unfolding put_kept get_usage_scores set_usage
keep_document env num_tokens old now document_id document = do
  new_id ← put_kept env num_tokens now document
  usage_scores ← lift (get_usage_scores old.usage_store document_id)
  (if usage_eq usage_scores default_usage then give tt else set_usage new_id usage_scores)

unfoldable pub optimize_loop :
    Environment → (Document → StatusOr ℕ) → DocumentStore → ℕ → ℕ → ℕ → Action (Unit {0})
unfolding get_by_id keep_document
optimize_loop env num_tokens old now zero document_id = give tt
optimize_loop env num_tokens old now (suc rounds) document_id =
    let rest = optimize_loop env num_tokens old now rounds (document_id + 1) in
    elim (get_by_id old now document_id false) [
      | error not_found ↦ rest
      | error e ↦ lift (error e)
      | value document ↦ keep_document env num_tokens old now document_id document >> rest
    ]

-- OptimizeInto: the new store
unfoldable pub optimize_into :
    Environment → (Document → StatusOr ℕ) → DocumentStore → ℕ → StatusOr (Unit {0}) × DocumentStore
unfolding optimize_loop
optimize_into env num_tokens old now =
    optimize_loop env num_tokens old now old.document_id_mapper.num_elements 0 empty_store
