-- ===== src/Store/DocumentStore/Put/Indexed.antt =====
-- InternalPut of icing/store/document-store.cc up to the new document being in the maps and caches.
use external_icing.Base.{
  ℕ, ◌+◌, ◌≤◌, ◌<◌, ◌≡◌, refl, ap, ap₂, sym, ◌∙◌, true, false, Option, none, some, leb, ◌==◌,
  if◌then◌else◌, arith, ◌∷◌, Option-cases, Bool-cases, inl, inr,
}
use external_icing.Hit.{max_document_id}
use external_icing.Store.{StatusOr, value, Text, text_eq, lift}
use external_icing.Store.FileBackedVector.{get_or-write_at, max_num_elements}
use external_icing.Store.KeyMapper.{find, insert, find-insert}
use external_icing.Store.ProtoLog.{proto_at, metadata_size}
use external_icing.Store.DocumentStore.{
  Document, ScoreData, FilterData, CorpusData, DocumentStore, Environment, zero_offset, zero_score,
  zero_filter, zero_corpus, is_past, make_fingerprint, calculate_expiration_timestamp_ms,
}
use external_icing.Store.DocumentStore.Caches.{
  put_key, set_offset, namespace_id_of, corpus_id_of, get_corpus_data_to_update,
  update_corpus_cache, update_score_cache,
}
use external_icing.Store.DocumentStore.Steps.{
  bind_ok, written, id_in, with_id, corpus_data, put_key-ok, set_offset-ok, namespace_id_of-ok,
  corpus_id_of-ok, get_corpus_data_to_update-ok, update_corpus_cache-ok, update_score_cache-ok,
  update_filter_cache-ok,
}
use external_icing.Store.DocumentStore.View.{
  offset_at, expiration_at, readable, content, document_at, visible, visible_at, lookup, IsSound,
}
use external_icing.Store.DocumentStore.Put.{add_document, index_document}

-- That a document fits: in the log, in the maps and in the caches, with a schema type that is known.
pub record Fits (env : Environment) (s : DocumentStore) (document : Document) : Type 0 where
  pub small : env.byte_size document ≤ env.max_proto_size
  pub small_stored : env.stored_size document ≤ env.max_proto_size
  pub id_left : s.document_id_mapper.num_elements ≤ max_document_id
  pub key_room :
      env.has_key_room s.document_key_mapper (make_fingerprint env document.name_space document.uri)
      ≡ true
  pub namespace_room : env.has_namespace_room s.namespace_mapper document.name_space ≡ true
  pub corpus_room :
      env.has_corpus_room s.corpus_mapper (make_fingerprint env document.name_space document.schema)
      ≡ true
  pub corpus_id_left :
      id_in s.corpus_mapper (make_fingerprint env document.name_space document.schema)
      < max_num_elements
  pub schema_type_id : ℕ
  pub typed : env.get_schema_type_id document.schema ≡ value schema_type_id

module _ (env : Environment) (s : DocumentStore) (document : Document)
    (fits : Fits env s document) where
  abbrev pub key : Text
  key = make_fingerprint env document.name_space document.uri

  abbrev pub corpus_key : Text
  corpus_key = make_fingerprint env document.name_space document.schema

  abbrev pub new_id : ℕ
  new_id = s.document_id_mapper.num_elements

  abbrev pub offset : ℕ
  offset = s.document_log.file_size

  abbrev pub expiration : ℕ
  expiration = calculate_expiration_timestamp_ms document.creation_timestamp_ms document.ttl_ms

  abbrev corpus_id : ℕ
  corpus_id = id_in s.corpus_mapper corpus_key

  abbrev pub new_corpus : CorpusData
  new_corpus = add_document (corpus_data s corpus_id) document.length_in_tokens

  abbrev pub new_score : ScoreData
  new_score = record {
    corpus_id = some corpus_id;
    document_score = some document.score;
    created_ms = some document.creation_timestamp_ms;
    length_in_tokens = document.length_in_tokens;
  }

  abbrev pub new_filter : FilterData
  new_filter = record {
    namespace_id = some (id_in s.namespace_mapper document.name_space);
    schema_type_id = some fits.schema_type_id;
    expiration_timestamp_ms = some expiration;
  }

  abbrev pub logged : DocumentStore
  logged = record s {
    document_log = record {
      protos = (offset, some document) ∷ s.document_log.protos;
      file_size = offset + metadata_size + env.stored_size document;
    };
  }

  -- The store with the document under its new id.
  abbrev pub indexed : DocumentStore
  indexed = record logged {
    document_key_mapper = insert s.document_key_mapper key new_id;
    document_id_mapper = written zero_offset s.document_id_mapper new_id (some offset);
    namespace_mapper = with_id s.namespace_mapper document.name_space;
    corpus_mapper = with_id s.corpus_mapper corpus_key;
    corpus_score_cache = written zero_corpus s.corpus_score_cache corpus_id new_corpus;
    score_cache = written zero_score s.score_cache new_id new_score;
    filter_cache = written zero_filter s.filter_cache new_id new_filter;
  }

  pub index_document-ok : index_document env document new_id offset logged ≡ (value tt, indexed)
  unfolding index_document
  index_document-ok =
      let small : new_id < max_num_elements = omega (arith, fits.id_left) in
      let keyed = record logged { document_key_mapper = insert s.document_key_mapper key new_id } in
      let placed = record keyed {
        document_id_mapper = written zero_offset s.document_id_mapper new_id (some offset);
      } in
      let named = record placed {
        namespace_mapper = with_id s.namespace_mapper document.name_space;
      } in
      let in_corpus = record named { corpus_mapper = with_id s.corpus_mapper corpus_key } in
      let counted = record in_corpus {
        corpus_score_cache = written zero_corpus s.corpus_score_cache corpus_id new_corpus;
      } in
      let scored = record counted {
        score_cache = written zero_score s.score_cache new_id new_score;
      } in
      bind_ok (put_key env key new_id) _ logged (put_key-ok logged env key new_id fits.key_room)
      ∙ bind_ok (set_offset new_id (some offset)) _ keyed
          (set_offset-ok keyed new_id (some offset) small)
      ∙ bind_ok (namespace_id_of env document.name_space) _ placed
          (namespace_id_of-ok placed env document.name_space fits.namespace_room)
      ∙ bind_ok (corpus_id_of env corpus_key) _ named
          (corpus_id_of-ok named env corpus_key fits.corpus_room)
      ∙ bind_ok (get_corpus_data_to_update corpus_id) _ in_corpus
          (get_corpus_data_to_update-ok in_corpus corpus_id)
      ∙ bind_ok (update_corpus_cache corpus_id new_corpus) _ in_corpus
          (update_corpus_cache-ok in_corpus corpus_id new_corpus fits.corpus_id_left)
      ∙ bind_ok (update_score_cache new_id new_score) _ counted
          (update_score_cache-ok counted new_id new_score small)
      ∙ bind_ok (lift (env.get_schema_type_id document.schema)) _ scored
          (ap (λ (r : StatusOr ℕ). (r, scored)) fits.typed)
      ∙ update_filter_cache-ok scored new_id new_filter small

  module _ (sound : IsSound s) where
    num_elements-indexed :
        (indexed.document_id_mapper.num_elements ≡ new_id + 1)
        × (indexed.filter_cache.num_elements ≡ new_id + 1)
    num_elements-indexed = (ground arith, ground (arith, sound.aligned))

    pub offset_at-indexed :
        (id : ℕ) → offset_at indexed id ≡ (if new_id == id then some offset else offset_at s id)
    offset_at-indexed id =
        ground
          (arith, get_or-write_at zero_offset s.document_id_mapper.array new_id id (some offset))

    pub expiration_at-indexed :
        (id : ℕ)
        → expiration_at indexed id ≡ (if new_id == id then some expiration else expiration_at s id)
    expiration_at-indexed id = ground (
      arith,
      sound.aligned,
      get_or-write_at zero_filter s.filter_cache.array new_id id new_filter,
    )

    pub proto_at-indexed :
        (id o : ℕ)
        → offset_at s id ≡ some o
        → proto_at indexed.document_log.protos o ≡ proto_at s.document_log.protos o
    proto_at-indexed id o there =
        let below = (sound.stored id o there).0 in
        let differ : (offset == o) ≡ false = ground arith in rw differ refl

    -- The new id shows the document until it expires, and the others show what they did.
    pub visible-indexed_new :
        (now : ℕ)
        → visible indexed now new_id ≡ (if leb expiration now then none else some document)
    visible-indexed_new now =
        let same : (new_id == new_id) ≡ true = ground arith in
        let here : (offset == offset) ≡ true = ground arith in
        let when : expiration_at indexed new_id ≡ some expiration =
          expiration_at-indexed new_id ∙ rw same refl in
        let where_is : offset_at indexed new_id ≡ some offset =
          offset_at-indexed new_id ∙ rw same refl in
        let read : content indexed.document_log offset ≡ some document = rw here refl in
        ap₂ (λ (e o : Option ℕ). if is_past now e then none else document_at indexed.document_log o)
          when where_is
        ∙ ap (λ (d : Option Document). if leb expiration now then none else d) read

    pub visible-indexed_old : (now id : ℕ) → id < new_id → visible indexed now id ≡ visible s now id
    visible-indexed_old now id below =
        let differ : (new_id == id) ≡ false = ground arith in
        let when : expiration_at indexed id ≡ expiration_at s id =
          expiration_at-indexed id ∙ rw differ refl in
        let where_is : offset_at indexed id ≡ offset_at s id =
          offset_at-indexed id ∙ rw differ refl in
        let same : document_at indexed.document_log (offset_at s id)
            ≡ document_at s.document_log (offset_at s id) =
          elim (Option-cases (offset_at s id)) [
            | inl gone ↦ rw gone refl
            | inr (o, there) ↦
                ap (document_at indexed.document_log) there
                ∙ ap readable (proto_at-indexed id o there)
                ∙ ap (document_at s.document_log) (sym there)
          ] in
        ap₂ (λ (e o : Option ℕ). if is_past now e then none else document_at indexed.document_log o)
          when where_is
        ∙ ap (λ (d : Option Document). if is_past now (expiration_at s id) then none else d) same

    -- Every key but the document's has the id that it had.
    pub find-indexed :
        (other : Text)
        → find indexed.document_key_mapper other
          ≡ (if text_eq key other then some new_id else find s.document_key_mapper other)
    find-indexed other = find-insert s.document_key_mapper key other new_id

    -- What a key shows in the store with the new document.
    pub lookup-indexed :
        (now : ℕ) (other : Text)
        → lookup indexed now other ≡ (
            if text_eq key other
            then (if leb expiration now then none else some document)
            else lookup s now other)
    lookup-indexed now other =
        ap (visible_at indexed now) (find-indexed other) ∙ elim (Bool-cases (text_eq key other)) [
          | inl same ↦ rw same (visible-indexed_new now)
          | inr differ ↦ rw differ (elim (Option-cases (find s.document_key_mapper other)) [
            | inl unknown ↦ rw unknown refl
            | inr (id, there) ↦ rw there (visible-indexed_old now id (sound.known other id there))
          ])
        ]
