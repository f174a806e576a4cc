-- ===== src/Store/DocumentStore/Steps.antt =====
-- What each change of icing/store/document-store.cc leaves where it succeeds.
use external_icing.Base.{
  ℕ, ◌+◌, ◌≤◌, ◌<◌, ◌≡◌, refl, ap, Bool, true, false, ◌&&◌, Option, none, some, ltb, leb,
  if◌then◌else◌, get_or, max, arith, ◌∷◌,
}
use external_icing.Hit.{max_document_id}
use external_icing.Store.{StatusOr, value, error, Status, Text, Method, continue, ◌>>=◌}
use external_icing.Store.FileBackedVector.{
  Vector, vector_get, vector_set, write_at, max_num_elements,
}
use external_icing.Store.KeyMapper.{KeyMapper, find, insert, num_keys, mapper_put, get_or_put}
use external_icing.Store.ProtoLog.{write_proto, erase_proto, erase_at, proto_at, metadata_size}
use external_icing.Store.UsageStore.{
  UsageScores, default_usage, scores_or_default, clone_usage_scores, delete_usage_scores,
}
use external_icing.Store.DocumentStore.{
  Document, ScoreData, FilterData, CorpusData, DocumentStore, Environment, zero_offset, zero_score,
  zero_filter, zero_corpus,
}
use external_icing.Store.DocumentStore.Caches.{
  write_document, put_key, set_offset, namespace_id_of, corpus_id_of, get_corpus_data_to_update,
  update_corpus_cache, update_score_cache, update_filter_cache, erase_document, delete_usage,
  clone_usage,
}

-- The next step after one that succeeds.
pub bind_ok :
    {S A B : Type 0} (m : Method S A) (f : A → Method S B) (s : S) {a : A} {s' : S}
    → m s ≡ (value a, s')
    → (m >>= f) s ≡ f a s'
bind_ok {S} {A} m f s e = ap (λ (r : StatusOr A × S). continue r.0 f r.1) e

-- An error ends the method.
pub bind_fail :
    {S A B : Type 0} (m : Method S A) (f : A → Method S B) (s : S) {e : Status} {s' : S}
    → m s ≡ (error e, s')
    → (m >>= f) s ≡ (error e, s')
bind_fail {S} {A} m f s h = ap (λ (r : StatusOr A × S). continue r.0 f r.1) h

-- A vector with an element written.
abbrev pub written : {T : Type 0} → T → Vector T → ℕ → T → Vector T
written blank v idx x = record {
  array = write_at blank v.array idx x;
  num_elements = max v.num_elements (idx + 1);
}

pub vector_set-ok :
    {T : Type 0} (blank : T) (v : Vector T) (idx : ℕ) (x : T)
    → idx < max_num_elements
    → vector_set blank v idx x ≡ value (written blank v idx x)
unfolding vector_set
vector_set-ok blank v idx x h =
    let fits : ltb v.num_elements (idx + 1) && ltb max_num_elements (idx + 1) ≡ false =
      ground arith in
    rw fits refl

-- The id of a name, which is the next one if the name is new, and the mapper that has it.
abbrev pub id_in : KeyMapper → Text → ℕ
id_in mapper key = elim (find mapper key) [ some v ↦ v | none ↦ num_keys mapper ]

abbrev pub with_id : KeyMapper → Text → KeyMapper
with_id mapper key = elim (find mapper key) [
  | some v ↦ mapper
  | none ↦ insert mapper key (num_keys mapper)
]

get_or_put-ok :
    (has_room : KeyMapper → Text → Bool) (mapper : KeyMapper) (key : Text)
    → has_room mapper key ≡ true
    → get_or_put has_room mapper key (num_keys mapper)
      ≡ value (id_in mapper key, with_id mapper key)
unfolding get_or_put
get_or_put-ok has_room mapper key room = ground arith

-- The data of a corpus, new ones if it has none.
abbrev pub corpus_data : DocumentStore → ℕ → CorpusData
corpus_data s corpus_id =
    if leb s.corpus_score_cache.num_elements corpus_id
    then zero_corpus
    else get_or s.corpus_score_cache.array corpus_id zero_corpus

module _ (s : DocumentStore) where
  pub put_key-ok :
      (env : Environment) (key : Text) (document_id : ℕ)
      → env.has_key_room s.document_key_mapper key ≡ true
      → put_key env key document_id s ≡ (
        value tt,
        record s { document_key_mapper = insert s.document_key_mapper key document_id },
      )
  unfolding put_key mapper_put
  put_key-ok env key document_id room = rw (put_key, room) refl

  pub set_offset-ok :
      (document_id : ℕ) (offset : Option ℕ)
      → document_id < max_num_elements
      → set_offset document_id offset s ≡ (
        value tt,
        record s {
          document_id_mapper = written zero_offset s.document_id_mapper document_id offset;
        },
      )
  unfolding set_offset
  set_offset-ok document_id offset h =
      rw (set_offset, vector_set-ok zero_offset s.document_id_mapper document_id offset h) refl

  pub update_score_cache-ok :
      (document_id : ℕ) (score_data : ScoreData)
      → document_id < max_num_elements
      → update_score_cache document_id score_data s ≡ (
        value tt,
        record s { score_cache = written zero_score s.score_cache document_id score_data },
      )
  unfolding update_score_cache
  update_score_cache-ok document_id score_data h =
      rw (update_score_cache, vector_set-ok zero_score s.score_cache document_id score_data h) refl

  pub update_filter_cache-ok :
      (document_id : ℕ) (filter_data : FilterData)
      → document_id < max_num_elements
      → update_filter_cache document_id filter_data s ≡ (
        value tt,
        record s { filter_cache = written zero_filter s.filter_cache document_id filter_data },
      )
  unfolding update_filter_cache
  update_filter_cache-ok document_id filter_data h =
      rw (update_filter_cache, vector_set-ok zero_filter s.filter_cache document_id filter_data h)
        refl

  pub update_corpus_cache-ok :
      (corpus_id : ℕ) (c : CorpusData)
      → corpus_id < max_num_elements
      → update_corpus_cache corpus_id c s ≡ (
        value tt,
        record s { corpus_score_cache = written zero_corpus s.corpus_score_cache corpus_id c },
      )
  unfolding update_corpus_cache
  update_corpus_cache-ok corpus_id c h =
      rw (update_corpus_cache, vector_set-ok zero_corpus s.corpus_score_cache corpus_id c h) refl

  pub get_corpus_data_to_update-ok :
      (corpus_id : ℕ) → get_corpus_data_to_update corpus_id s ≡ (value (corpus_data s corpus_id), s)
  unfolding get_corpus_data_to_update vector_get
  get_corpus_data_to_update-ok corpus_id = ground arith

  pub namespace_id_of-ok :
      (env : Environment) (name : Text)
      → env.has_namespace_room s.namespace_mapper name ≡ true
      → namespace_id_of env name s ≡ (
        value (id_in s.namespace_mapper name),
        record s { namespace_mapper = with_id s.namespace_mapper name },
      )
  unfolding namespace_id_of
  namespace_id_of-ok env name room =
      rw (namespace_id_of, get_or_put-ok env.has_namespace_room s.namespace_mapper name room) refl

  pub corpus_id_of-ok :
      (env : Environment) (key : Text)
      → env.has_corpus_room s.corpus_mapper key ≡ true
      → corpus_id_of env key s ≡ (
        value (id_in s.corpus_mapper key),
        record s { corpus_mapper = with_id s.corpus_mapper key },
      )
  unfolding corpus_id_of
  corpus_id_of-ok env key room =
      rw (corpus_id_of, get_or_put-ok env.has_corpus_room s.corpus_mapper key room) refl

  pub write_document-ok :
      (env : Environment) (document : Document)
      → env.byte_size document ≤ env.max_proto_size
      → env.stored_size document ≤ env.max_proto_size
      → write_document env document s ≡ (
        value s.document_log.file_size,
        record s {
          document_log = record {
            protos = (s.document_log.file_size, some document) ∷ s.document_log.protos;
            file_size = s.document_log.file_size + metadata_size + env.stored_size document;
          };
        },
      )
  unfolding write_document write_proto
  write_document-ok env document h k =
      let small : ltb env.max_proto_size (env.byte_size document) ≡ false = ground arith in
      let small' : ltb env.max_proto_size (env.stored_size document) ≡ false = ground arith in
      rw (write_document, small, small') refl

  pub erase_document-ok :
      (offset : ℕ) (proto : Option Document)
      → offset < s.document_log.file_size
      → proto_at s.document_log.protos offset ≡ some proto
      → erase_document offset s ≡ (
        value tt,
        record s {
          document_log = record {
            protos = erase_at s.document_log.protos offset;
            file_size = s.document_log.file_size;
          };
        },
      )
  unfolding erase_document erase_proto
  erase_document-ok offset proto h at =
      let inside : leb s.document_log.file_size offset ≡ false = ground arith in
      rw (erase_document, inside, at) refl

  pub delete_usage-ok :
      (document_id : ℕ)
      → document_id ≤ max_document_id
      → delete_usage document_id s ≡ (
        value tt,
        record s {
          usage_store =
              if leb s.usage_store.num_elements document_id
              then s.usage_store
              else written default_usage s.usage_store document_id default_usage;
        },
      )
  unfolding delete_usage delete_usage_scores
  delete_usage-ok document_id h =
      ground (arith, vector_set-ok default_usage s.usage_store document_id default_usage)

  -- The scores of a document, the default ones if there are none.
  abbrev pub usage_of : ℕ → UsageScores
  usage_of document_id =
      if leb s.usage_store.num_elements document_id
      then default_usage
      else get_or s.usage_store.array document_id default_usage

  pub clone_usage-ok :
      (from to : ℕ)
      → from ≤ max_document_id
      → to ≤ max_document_id
      → clone_usage from to s ≡ (
        value tt,
        record s { usage_store = written default_usage s.usage_store to (usage_of from) },
      )
  unfolding clone_usage clone_usage_scores scores_or_default vector_get
  clone_usage-ok from to h k =
      ground (arith, vector_set-ok default_usage s.usage_store to (usage_of from))
