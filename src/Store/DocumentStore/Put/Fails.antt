-- ===== src/Store/DocumentStore/Put/Fails.antt =====
-- InternalPut of icing/store/document-store.cc where it fails.
use external_icing.Base.{
  ℕ, ◌+◌, ◌≤◌, ◌<◌, ◌≡◌, refl, ap, sym, ◌∙◌, Bool, true, false, not, Option, none, some, ltb, ◌==◌,
  if◌then◌else◌, arith, ◌∷◌, Option-cases, inl, inr, subst,
}
use external_icing.Hit.{max_document_id}
use external_icing.Store.{
  StatusOr, error, invalid_argument, resource_exhausted, internal, Text, Method, give, gets,
  fail_if, ◌>>=◌, ◌>>◌,
}
use external_icing.Store.KeyMapper.{find, or_not_found, mapper_get}
use external_icing.Store.ProtoLog.{proto_at, metadata_size, write_proto}
use external_icing.Store.UsageStore.{is_document_id_valid}
use external_icing.Store.DocumentStore.{
  Document, DocumentStore, Environment, make_fingerprint, get_document_id, is_past,
}
use external_icing.Store.DocumentStore.Caches.{write_document}
use external_icing.Store.DocumentStore.Steps.{bind_ok, bind_fail, write_document-ok}
use external_icing.Store.DocumentStore.View.{
  offset_at, expiration_at, readable, document_at, visible, visible_at, lookup, IsSound,
}
use external_icing.Store.DocumentStore.Put.{
  replace_old, is_real_error, index_document, put_document,
}

-- A document that is too large is refused, and nothing changes.
pub put_document-invalid_argument :
    (env : Environment) (s : DocumentStore) (now : ℕ) (document : Document)
    → env.max_proto_size < env.byte_size document
    → put_document env now document s ≡ (error invalid_argument, s)
unfolding put_document write_document write_proto
put_document-invalid_argument env s now document large =
    let too_large : ltb env.max_proto_size (env.byte_size document) ≡ true = ground arith in
    rw (put_document, write_document, too_large) refl

module _ (env : Environment) (s : DocumentStore) (sound : IsSound s) (document : Document)
    (small : env.byte_size document ≤ env.max_proto_size)
    (small_stored : env.stored_size document ≤ env.max_proto_size) where
  abbrev offset : ℕ
  offset = s.document_log.file_size

  abbrev pub logged : DocumentStore
  logged = record s {
    document_log = record {
      protos = (offset, some document) ∷ s.document_log.protos;
      file_size = offset + metadata_size + env.stored_size document;
    };
  }

  abbrev key : Text
  key = make_fingerprint env document.name_space document.uri

  abbrev new_id : ℕ
  new_id = s.document_id_mapper.num_elements

  proto_at-logged :
      (id o : ℕ)
      → offset_at s id ≡ some o
      → proto_at logged.document_log.protos o ≡ proto_at s.document_log.protos o
  proto_at-logged id o there =
      let below = (sound.stored id o there).0 in
      let differ : (offset == o) ≡ false = ground arith in rw differ refl

  visible-logged : (now id : ℕ) → visible logged now id ≡ visible s now id
  visible-logged now id =
      ap (λ (d : Option Document). if is_past now (expiration_at s id) then none else d)
        (elim (Option-cases (offset_at s id)) [
          | inl gone ↦ rw gone refl
          | inr (o, there) ↦
              ap (document_at logged.document_log) there
              ∙ ap readable (proto_at-logged id o there)
              ∙ ap (document_at s.document_log) (sym there)
        ])

  lookup-logged : (now : ℕ) (other : Text) → lookup logged now other ≡ lookup s now other
  lookup-logged now other = elim (Option-cases (find s.document_key_mapper other)) [
    | inl unknown ↦ ap (visible_at logged now) unknown ∙ sym (ap (visible_at s now) unknown)
    | inr (id, there) ↦
        ap (visible_at logged now) there ∙ visible-logged now id ∙ sym (ap (visible_at s now) there)
  ]

  IsSound-logged : IsSound logged
  IsSound-logged = record {
    aligned = sound.aligned;
    bounded = sound.bounded;
    known = sound.known;
    own = sound.own;
    stored = λ id o there.
        let (below, d, at) = sound.stored id o there in
        (omega (arith, below), d, proto_at-logged id o there ∙ at);
    apart = sound.apart;
  }

  abbrev pub with_new_id : ℕ → StatusOr ℕ → ℕ → Method DocumentStore ℕ
  with_new_id now old id =
      fail_if (not (is_document_id_valid id)) resource_exhausted
      >> (index_document env document id offset >> (replace_old now old id >> give id))

  abbrev with_old : ℕ → StatusOr ℕ → Method DocumentStore ℕ
  with_old now old =
      fail_if (is_real_error old) internal
      >> (gets (λ t. t.document_id_mapper.num_elements) >>= with_new_id now old)

  is_real_error-find : (old : Option ℕ) → is_real_error (or_not_found old) ≡ false
  is_real_error-find none = refl
  is_real_error-find (some old) = refl

  -- Up to the choice of the new id, Put only writes to the log.
  pub put_document-logged :
      (now : ℕ)
      → put_document env now document s
        ≡ with_new_id now (or_not_found (find s.document_key_mapper key)) new_id logged
  unfolding put_document get_document_id mapper_get
  put_document-logged now =
      let old = or_not_found (find s.document_key_mapper key) in
      bind_ok (write_document env document) _ s
        (write_document-ok s env document small small_stored)
      ∙ bind_ok (gets (λ t. get_document_id env t document.name_space document.uri)) (with_old now)
          logged refl
      ∙ bind_ok (fail_if (is_real_error old) internal)
          (λ _. gets (λ t. t.document_id_mapper.num_elements) >>= with_new_id now old) logged
          (ap (λ (b : Bool). fail_if {S = DocumentStore} b internal logged)
            (is_real_error-find (find s.document_key_mapper key)))
      ∙ bind_ok (gets (λ t. t.document_id_mapper.num_elements)) (with_new_id now old) logged refl

  -- With no document id left a document of a size that is allowed is refused; the store stays sound
  -- and every key shows what it did.
  pub put_document-resource_exhausted :
      (now : ℕ)
      → max_document_id < s.document_id_mapper.num_elements
      → let r = put_document env now document s in
        (r.0 ≡ error resource_exhausted)
        × IsSound r.1
        × ((later : ℕ) (other : Text) → lookup r.1 later other ≡ lookup s later other)
  put_document-resource_exhausted now none_left =
      let old = or_not_found (find s.document_key_mapper key) in
      let no_id : not (is_document_id_valid new_id) ≡ true = ground arith in
      let failed : put_document env now document s ≡ (error resource_exhausted, logged) =
        put_document-logged now
        ∙ bind_fail (fail_if (not (is_document_id_valid new_id)) resource_exhausted)
            (λ _.
              index_document env document new_id offset
              >> (replace_old now old new_id >> give new_id))
            logged
            (ap (λ (b : Bool). fail_if {S = DocumentStore} b resource_exhausted logged) no_id) in
      subst
        (λ (r : StatusOr ℕ × DocumentStore).
          (r.0 ≡ error resource_exhausted)
          × IsSound r.1
          × ((later : ℕ) (other : Text) → lookup r.1 later other ≡ lookup s later other))
        (sym failed) (refl, IsSound-logged, lookup-logged)
