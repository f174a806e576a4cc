-- ===== src/Store/DocumentStore/Put/Loses.antt =====
-- InternalPut of icing/store/document-store.cc where the key mapper is written and a later step
-- fails.
use external_icing.Base.{
  ℕ, ◌≤◌, ◌≡◌, refl, ap, sym, ◌∙◌, Bool, true, false, not, none, some, arith, subst,
}
use external_icing.Hit.{max_document_id}
use external_icing.Store.{
  StatusOr, error, resource_exhausted, internal, Text, give, fail_if, ◌>>◌, text_eq, text_eq_iff,
}
use external_icing.Store.KeyMapper.{find, insert, find-insert, or_not_found}
use external_icing.Store.UsageStore.{is_document_id_valid}
use external_icing.Store.DocumentStore.{
  Document, DocumentStore, Environment, zero_offset, make_fingerprint,
}
use external_icing.Store.DocumentStore.Caches.{put_key, set_offset}
use external_icing.Store.DocumentStore.Steps.{bind_ok, bind_fail}
use external_icing.Store.DocumentStore.View.{expiration_at, visible_at, lookup, IsSound}
use external_icing.Store.DocumentStore.Caches.{namespace_id_of, corpus_id_of}
use external_icing.Store.DocumentStore.Steps.{
  put_key-ok, set_offset-ok, namespace_id_of-ok, with_id, written,
}
use external_icing.Store.DocumentStore.Put.{replace_old, index_document, put_document}
use external_icing.Store.DocumentStore.Put.Fails.{logged, put_document-logged}

module _ (env : Environment) (s : DocumentStore) (sound : IsSound s) (document : Document)
    (small : env.byte_size document ≤ env.max_proto_size)
    (small_stored : env.stored_size document ≤ env.max_proto_size)
    (id_left : s.document_id_mapper.num_elements ≤ max_document_id)
    (key_room : env.has_key_room s.document_key_mapper
        (make_fingerprint env document.name_space document.uri)
      ≡ true)
    (namespace_room : env.has_namespace_room s.namespace_mapper document.name_space ≡ true)
    (new_corpus : find s.corpus_mapper (make_fingerprint env document.name_space document.schema)
      ≡ none)
    (no_room : env.has_corpus_room s.corpus_mapper
        (make_fingerprint env document.name_space document.schema)
      ≡ false) where
  abbrev key : Text
  key = make_fingerprint env document.name_space document.uri

  abbrev new_id : ℕ
  new_id = s.document_id_mapper.num_elements

  abbrev offset : ℕ
  offset = s.document_log.file_size

  abbrev logged' : DocumentStore
  logged' = logged env s sound document small small_stored

  abbrev keyed : DocumentStore
  keyed = record logged' { document_key_mapper = insert s.document_key_mapper key new_id }

  abbrev placed : DocumentStore
  placed = record keyed {
    document_id_mapper = written zero_offset s.document_id_mapper new_id (some offset);
  }

  abbrev named : DocumentStore
  named = record placed { namespace_mapper = with_id s.namespace_mapper document.name_space }

  index_document-fails : index_document env document new_id offset logged' ≡ (error internal, named)
  unfolding index_document
  index_document-fails =
      bind_ok (put_key env key new_id) _ logged' (put_key-ok logged' env key new_id key_room)
      ∙ bind_ok (set_offset new_id (some offset)) _ keyed
          (set_offset-ok keyed new_id (some offset) (omega (arith, id_left)))
      ∙ bind_ok (namespace_id_of env document.name_space) _ placed
          (namespace_id_of-ok placed env document.name_space namespace_room)
      ∙ rw (index_document, corpus_id_of, new_corpus, no_room) refl

  -- The key has the new id, which has no entry in the filter cache: it counts as expired.
  lookup-named : (later : ℕ) → lookup named later key ≡ none
  lookup-named later =
      let same : text_eq key key ≡ true = (text_eq_iff key key).1 refl in
      let has_new : find named.document_key_mapper key ≡ some new_id =
        find-insert s.document_key_mapper key key new_id ∙ rw same refl in
      let past : expiration_at named new_id ≡ none = ground (arith, sound.aligned) in
      ap (visible_at named later) has_new ∙ rw past refl

  -- Put of a document whose namespace and type are new together, with no room for one more such pair,
  -- fails after its key has been given a new id: whatever the key showed, it then shows nothing, at
  -- any time.
  pub put_document-loses :
      (now : ℕ)
      → let r = put_document env now document s in
        (r.0 ≡ error internal) × ((later : ℕ) → lookup r.1 later key ≡ none)
  put_document-loses now =
      let old = or_not_found (find s.document_key_mapper key) in
      let valid : not (is_document_id_valid new_id) ≡ false = ground (arith, id_left) in
      let failed : put_document env now document s ≡ (error internal, named) =
        put_document-logged env s sound document small small_stored now
        ∙ bind_ok (fail_if (not (is_document_id_valid new_id)) resource_exhausted)
            (λ _.
              index_document env document new_id offset
              >> (replace_old now old new_id >> give new_id))
            logged'
            (ap (λ (b : Bool). fail_if {S = DocumentStore} b resource_exhausted logged') valid)
        ∙ bind_fail (index_document env document new_id offset)
            (λ _. replace_old now old new_id >> give new_id) logged' index_document-fails in
      subst
        (λ (r : StatusOr ℕ × DocumentStore).
          (r.0 ≡ error internal) × ((later : ℕ) → lookup r.1 later key ≡ none))
        (sym failed) (refl, lookup-named)
