-- ===== src/Store/DocumentStore.antt =====
-- icing/store/document-store.{h,cc}: the documents with what is derived from them. A score, an id
-- or a time that the code sets to -1 is `none`; times are natural numbers. The validator, the schema
-- store, the sizes of protos, the hash of farmhash and the room in a trie are parameters. An operation
-- has one time `now`, where the code reads the clock at each test of a document's existence.
pub mod Caches
pub mod Steps
pub mod View
pub mod Put
pub mod Delete
pub mod Usage
pub mod Counts
pub mod Schema
pub mod Optimize
use external_icing.Base.{
  ℕ, zero, suc, ◌+◌, ◌-◌, ◌*◌, ◌/◌, ◌%◌, ◌^◌, Bool, true, false, not, ◌&&◌, List, [], ◌∷◌, ◌++◌,
  Option, none, some, ltb, leb, ◌==◌, if◌then◌else◌,
}
use external_icing.Hit.{invalid_document_id}
use external_icing.Store.{
  StatusOr, value, error, Status, not_found, invalid_argument, internal, Text,
}
use external_icing.Store.FileBackedVector.{Vector, vector_get}
use external_icing.Store.KeyMapper.{KeyMapper, mapper_get}
use external_icing.Store.ProtoLog.{ProtoLog, read_proto}
use external_icing.Store.UsageStore.{
  UsageStore, UsageScores, is_document_id_valid, get_usage_scores,
}

-- DocumentProto, with the length of its internal fields; `properties` stands for the fields that
-- the store does not look at.
pub record Document : Type 0 where
  pub name_space : Text
  pub uri : Text
  pub schema : Text
  pub score : ℕ
  pub creation_timestamp_ms : ℕ
  pub ttl_ms : ℕ
  pub length_in_tokens : ℕ
  pub properties : Text

-- DocumentAssociatedScoreData
pub record ScoreData : Type 0 where
  pub corpus_id : Option ℕ
  pub document_score : Option ℕ
  pub created_ms : Option ℕ
  pub length_in_tokens : ℕ

-- DocumentFilterData
pub record FilterData : Type 0 where
  pub namespace_id : Option ℕ
  pub schema_type_id : Option ℕ
  pub expiration_timestamp_ms : Option ℕ

-- CorpusAssociatedScoreData
pub record CorpusData : Type 0 where
  pub num_docs : ℕ
  pub sum_length_in_tokens : ℕ

-- The members of the store; the id mapper has the offset of a document in the log, or kDocDeletedFlag.
pub record DocumentStore : Type 0 where
  pub document_log : ProtoLog Document
  pub document_key_mapper : KeyMapper
  pub document_id_mapper : Vector (Option ℕ)
  pub score_cache : Vector ScoreData
  pub filter_cache : Vector FilterData
  pub namespace_mapper : KeyMapper
  pub corpus_mapper : KeyMapper
  pub corpus_score_cache : Vector CorpusData
  pub usage_store : UsageStore

-- The elements of zero bytes.
abbrev pub zero_offset : Option ℕ
zero_offset = some 0

abbrev pub zero_score : ScoreData
zero_score = record {
  corpus_id = some 0;
  document_score = some 0;
  created_ms = some 0;
  length_in_tokens = 0;
}

abbrev pub zero_filter : FilterData
zero_filter = record {
  namespace_id = some 0;
  schema_type_id = some 0;
  expiration_timestamp_ms = some 0;
}

-- `CorpusAssociatedScoreData()`
abbrev pub zero_corpus : CorpusData
zero_corpus = record { num_docs = 0; sum_length_in_tokens = 0 }

-- What the store uses and does not implement.
pub record Environment : Type 0 where
  pub validate : Document → StatusOr (Unit {0})
  pub get_schema_type_id : Text → StatusOr ℕ
  pub byte_size : Document → ℕ
  pub stored_size : Document → ℕ
  pub max_proto_size : ℕ
  pub fingerprint64 : Text → ℕ
  pub has_key_room : KeyMapper → Text → Bool
  pub has_namespace_room : KeyMapper → Text → Bool
  pub has_corpus_room : KeyMapper → Text → Bool

-- The loop of MakeFingerprint, which a 64-bit number leaves after ten rounds.
unfoldable pub encode_fingerprint : ℕ → ℕ → Text
encode_fingerprint zero fprint = []
encode_fingerprint (suc fuel) fprint =
    let rest = encode_fingerprint fuel (fprint / 128) in
    if fprint == 0 then [] else ((fprint % 128 + 1) ∷ rest)

-- MakeFingerprint
unfoldable pub make_fingerprint : Environment → Text → Text → Text
unfolding encode_fingerprint
make_fingerprint env name_space uri = encode_fingerprint 10 (env.fingerprint64 (name_space ++ uri))

-- The largest `int64_t`
abbrev pub max_time : ℕ
max_time = 2 ^ 63 - 1

-- CalculateExpirationTimestampMs
unfoldable pub calculate_expiration_timestamp_ms : ℕ → ℕ → ℕ
calculate_expiration_timestamp_ms creation_timestamp_ms ttl_ms =
    if ttl_ms == 0
    then max_time
    else if ltb max_time (creation_timestamp_ms + ttl_ms)
    then max_time
    else creation_timestamp_ms + ttl_ms

-- IsDeleted
unfoldable pub is_deleted : DocumentStore → ℕ → Bool
unfolding vector_get
is_deleted s document_id = elim (vector_get zero_offset s.document_id_mapper document_id) [
  | error _ ↦ true
  | value none ↦ true
  | value (some _) ↦ false
]

-- Whether the time has come, of what the filter cache has.
abbrev pub is_past : ℕ → Option ℕ → Bool
is_past now none = true
is_past now (some expiration) = leb expiration now

-- IsExpired, at a time of the clock
unfoldable pub is_expired : DocumentStore → ℕ → ℕ → Bool
unfolding vector_get
is_expired s now document_id = elim (vector_get zero_filter s.filter_cache document_id) [
  | error _ ↦ true
  | value filter_data ↦ is_past now filter_data.expiration_timestamp_ms
]

-- InternalDoesDocumentExist
unfoldable pub internal_does_document_exist : DocumentStore → ℕ → ℕ → Bool
unfolding is_deleted is_expired
internal_does_document_exist s now document_id =
    not (is_deleted s document_id) && not (is_expired s now document_id)

-- DoesDocumentExist
unfoldable pub does_document_exist : DocumentStore → ℕ → ℕ → Bool
unfolding internal_does_document_exist
does_document_exist s now document_id =
    if not (is_document_id_valid document_id)
    then false
    else if leb s.document_id_mapper.num_elements document_id
    then false
    else internal_does_document_exist s now document_id

-- DoesDocumentExistWithStatus
unfoldable pub does_document_exist_with_status : DocumentStore → ℕ → ℕ → StatusOr (Unit {0})
unfolding internal_does_document_exist
does_document_exist_with_status s now document_id =
    if not (is_document_id_valid document_id)
    then error invalid_argument
    else if leb s.document_id_mapper.num_elements document_id
    then error not_found
    else if not (internal_does_document_exist s now document_id)
    then error not_found
    else value tt

-- `clear_internal_fields()`, if it is asked for
abbrev pub clear_if : Bool → Document → Document
clear_if true document = record document { length_in_tokens = 0 }
clear_if false document = document

abbrev pub clear_internal : Bool → StatusOr Document → StatusOr Document
clear_internal clear (value document) = value (clear_if clear document)
clear_internal clear (error e) = error e

-- An early return of an error.
abbrev pub unless_error : {A : Type 0} → StatusOr (Unit {0}) → StatusOr A → StatusOr A
unless_error (value _) result = result
unless_error (error e) result = error e

-- What Get reads once the document is known to exist.
unfoldable pub read_document : DocumentStore → ℕ → StatusOr Document
unfolding vector_get read_proto
read_document s document_id = elim (vector_get zero_offset s.document_id_mapper document_id) [
  | error _ ↦ error internal
  | value none ↦ error internal
  | value (some offset) ↦ read_proto s.document_log offset
]

-- Get by an id
unfoldable pub get_by_id : DocumentStore → ℕ → ℕ → Bool → StatusOr Document
unfolding does_document_exist_with_status read_document
get_by_id s now document_id clear_internal_fields =
    unless_error (does_document_exist_with_status s now document_id)
      (clear_internal clear_internal_fields (read_document s document_id))

-- GetDocumentId
unfoldable pub get_document_id : Environment → DocumentStore → Text → Text → StatusOr ℕ
unfolding make_fingerprint mapper_get
get_document_id env s name_space uri =
    mapper_get s.document_key_mapper (make_fingerprint env name_space uri)

abbrev pub get_found : DocumentStore → ℕ → StatusOr ℕ → StatusOr Document
get_found s now (error e) = error e
get_found s now (value document_id) = get_by_id s now document_id true

-- last_added_document_id
unfoldable pub last_added_document_id : DocumentStore → ℕ
last_added_document_id s =
    let n = s.document_id_mapper.num_elements in if n == 0 then invalid_document_id else n - 1

-- Get by namespace and uri. The flag that the caller gives is not passed on: the internal fields
-- are always cleared.
unfoldable pub get : Environment → DocumentStore → ℕ → Text → Text → Bool → StatusOr Document
unfolding get_document_id get_by_id
get env s now name_space uri clear_internal_fields =
    get_found s now (get_document_id env s name_space uri)

-- GetNamespaceId
unfoldable pub get_namespace_id : DocumentStore → Text → StatusOr ℕ
unfolding mapper_get
get_namespace_id s name_space = mapper_get s.namespace_mapper name_space

-- GetCorpusId
unfoldable pub get_corpus_id : Environment → DocumentStore → Text → Text → StatusOr ℕ
unfolding mapper_get make_fingerprint
get_corpus_id env s name_space schema =
    mapper_get s.corpus_mapper (make_fingerprint env name_space schema)

-- GetCorpusAssociatedScoreData
unfoldable pub get_corpus_associated_score_data : DocumentStore → ℕ → StatusOr CorpusData
unfolding vector_get
get_corpus_associated_score_data s corpus_id = vector_get zero_corpus s.corpus_score_cache corpus_id

-- GetUsageScores
unfoldable pub get_document_usage : DocumentStore → ℕ → ℕ → StatusOr UsageScores
unfolding does_document_exist get_usage_scores
get_document_usage s now document_id =
    if not (does_document_exist s now document_id)
    then error not_found
    else get_usage_scores s.usage_store document_id

-- GetDocumentFilterData
unfoldable pub get_document_filter_data : DocumentStore → ℕ → ℕ → StatusOr FilterData
unfolding does_document_exist vector_get
get_document_filter_data s now document_id =
    if not (does_document_exist s now document_id)
    then error not_found
    else vector_get zero_filter s.filter_cache document_id

-- The last check of GetDocumentAssociatedScoreData: a score below zero was deleted.
abbrev pub scored : StatusOr ScoreData → StatusOr ScoreData
scored (error e) = error e
scored (value score_data) = elim score_data.document_score [
  | none ↦ error not_found
  | some _ ↦ value score_data
]

-- GetDocumentAssociatedScoreData
unfoldable pub get_document_associated_score_data : DocumentStore → ℕ → ℕ → StatusOr ScoreData
unfolding does_document_exist vector_get
get_document_associated_score_data s now document_id =
    if not (does_document_exist s now document_id)
    then error not_found
    else scored (vector_get zero_score s.score_cache document_id)
