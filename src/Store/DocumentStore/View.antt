-- ===== src/Store/DocumentStore/View.antt =====
-- The store of icing/store/document-store.h as its users see it: a map from keys to documents. What
-- relates the maps, the caches and the log is IsSound.
use external_icing.Base.{
  ℕ, ◌+◌, ◌≤◌, ◌<◌, ◌≡◌, refl, ap, sym, ◌∙◌, Bool, true, false, Option, none, some, leb,
  if◌then◌else◌, get_or, arith, Option-cases, Bool-cases, inl, inr,
}
use external_icing.Hit.{max_document_id}
use external_icing.Store.{StatusOr, value, error, not_found, Text}
use external_icing.Store.FileBackedVector.{vector_get}
use external_icing.Store.KeyMapper.{find, or_not_found, mapper_get}
use external_icing.Store.ProtoLog.{ProtoLog, proto_at, read_proto}
use external_icing.Store.UsageStore.{is_document_id_valid}
use external_icing.Store.DocumentStore.{
  Document, DocumentStore, Environment, zero_offset, zero_filter, make_fingerprint, is_past,
  is_deleted, is_expired, internal_does_document_exist, does_document_exist_with_status,
  read_document, clear_internal, unless_error, get_by_id, get_found, get_document_id, get,
}

-- Where the log has the document of an id, if it was not deleted.
abbrev pub offset_at : DocumentStore → ℕ → Option ℕ
offset_at s id =
    if leb s.document_id_mapper.num_elements id
    then none
    else get_or s.document_id_mapper.array id zero_offset

abbrev pub expiration_at : DocumentStore → ℕ → Option ℕ
expiration_at s id =
    if leb s.filter_cache.num_elements id
    then none
    else (get_or s.filter_cache.array id zero_filter).expiration_timestamp_ms

abbrev pub readable : Option (Option Document) → Option Document
readable none = none
readable (some proto) = proto

abbrev pub content : ProtoLog Document → ℕ → Option Document
content log offset = readable (proto_at log.protos offset)

abbrev pub document_at : ProtoLog Document → Option ℕ → Option Document
document_at log none = none
document_at log (some offset) = content log offset

-- The document that an id has at a time.
abbrev pub visible : DocumentStore → ℕ → ℕ → Option Document
visible s now id =
    if is_past now (expiration_at s id) then none else document_at s.document_log (offset_at s id)

abbrev pub visible_at : DocumentStore → ℕ → Option ℕ → Option Document
visible_at s now none = none
visible_at s now (some id) = visible s now id

-- The document that a key has at a time.
abbrev pub lookup : DocumentStore → ℕ → Text → Option Document
lookup s now key = visible_at s now (find s.document_key_mapper key)

pub record IsSound (s : DocumentStore) : Type 0 where
  pub aligned : s.filter_cache.num_elements ≡ s.document_id_mapper.num_elements
  pub bounded : s.document_id_mapper.num_elements ≤ max_document_id + 1
  pub known :
      (key : Text) (id : ℕ)
      → find s.document_key_mapper key ≡ some id
      → id < s.document_id_mapper.num_elements
  pub own :
      (key key' : Text) (id : ℕ)
      → find s.document_key_mapper key ≡ some id
      → find s.document_key_mapper key' ≡ some id
      → key ≡ key'
  pub stored :
      (id offset : ℕ)
      → offset_at s id ≡ some offset
      → (offset < s.document_log.file_size)
        × (document : Document) × (proto_at s.document_log.protos offset ≡ some (some document))
  pub apart :
      (id id' offset : ℕ) → offset_at s id ≡ some offset → offset_at s id' ≡ some offset → id ≡ id'

abbrev pub found : Option Document → StatusOr Document
found none = error not_found
found (some document) = value document

pub some_is_none {ℓ} : {A : Type ℓ} {o : Option A} (a : A) → o ≡ none → o ≡ some a → ⊥
some_is_none a h k = cc

module _ (s : DocumentStore) (sound : IsSound s) (now id : ℕ)
    (within : id < s.document_id_mapper.num_elements) where
  valid : is_document_id_valid id ≡ true
  valid = ground (arith, sound.bounded)

  inside : leb s.document_id_mapper.num_elements id ≡ false
  inside = ground arith

  inside_cache : leb s.filter_cache.num_elements id ≡ false
  inside_cache = ground (arith, sound.aligned)

  pub is_deleted-none : offset_at s id ≡ none → is_deleted s id ≡ true
  unfolding is_deleted vector_get
  is_deleted-none h = ground (arith, inside)

  pub is_deleted-some : (offset : ℕ) → offset_at s id ≡ some offset → is_deleted s id ≡ false
  unfolding is_deleted vector_get
  is_deleted-some offset h = ground (arith, inside)

  pub is_expired-is_past : is_expired s now id ≡ is_past now (expiration_at s id)
  unfolding is_expired vector_get
  is_expired-is_past = ground (arith, inside_cache)

  pub exists-none :
      offset_at s id ≡ none → does_document_exist_with_status s now id ≡ error not_found
  unfolding does_document_exist_with_status internal_does_document_exist
  exists-none h = ground (arith, inside, valid, is_deleted-none h)

  pub exists-past :
      is_past now (expiration_at s id) ≡ true
      → does_document_exist_with_status s now id ≡ error not_found
  unfolding does_document_exist_with_status internal_does_document_exist
  exists-past h = let expired = is_expired-is_past ∙ h in ground (arith, inside, valid, expired)

  pub exists-some :
      (offset : ℕ)
      → offset_at s id ≡ some offset
      → is_past now (expiration_at s id) ≡ false
      → does_document_exist_with_status s now id ≡ value tt
  unfolding does_document_exist_with_status internal_does_document_exist
  exists-some offset h k =
      let alive = is_expired-is_past ∙ k in
      let there = is_deleted-some offset h in ground (arith, inside, valid, alive, there)

  pub read_document-some :
      (offset : ℕ) (document : Document)
      → offset_at s id ≡ some offset
      → offset < s.document_log.file_size
      → proto_at s.document_log.protos offset ≡ some (some document)
      → read_document s id ≡ value document
  unfolding read_document vector_get read_proto
  read_document-some offset document h k at = ground (arith, inside)

  visible-past : is_past now (expiration_at s id) ≡ true → visible s now id ≡ none
  visible-past past = rw past refl

  visible-gone : offset_at s id ≡ none → visible s now id ≡ none
  visible-gone gone = ground (arith, gone)

  -- A document that an id shows has its place in the log.
  pub visible-some :
      (document : Document)
      → visible s now id ≡ some document
      → (offset : ℕ) × (offset_at s id ≡ some offset)
        × (is_past now (expiration_at s id) ≡ false)
        × (offset < s.document_log.file_size)
        × (proto_at s.document_log.protos offset ≡ some (some document))
  visible-some document h = elim (Bool-cases (is_past now (expiration_at s id))) [
    | inl past ↦ absurd (some_is_none document (visible-past past) h)
    | inr alive ↦ elim (Option-cases (offset_at s id)) [
      | inl gone ↦ absurd (some_is_none document (visible-gone gone) h)
      | inr (offset, at) ↦
          let kept = sound.stored id offset at in
          let same : kept.1 ≡ document = ground (arith, h, alive, at, kept.2) in
          (offset, at, alive, kept.0, kept.2 ∙ ap (λ (d : Document). some (some d)) same)
    ]
  ]

  pub hidden_exists :
      visible s now id ≡ none → does_document_exist_with_status s now id ≡ error not_found
  hidden_exists hidden = elim (Bool-cases (is_past now (expiration_at s id))) [
    | inl past ↦ exists-past past
    | inr alive ↦ elim (Option-cases (offset_at s id)) [
      | inl gone ↦ exists-none gone
      | inr (offset, at) ↦
          let kept = sound.stored id offset at in
          absurd (some_is_none kept.1 hidden (ground (arith, alive, at, kept.2)))
    ]
  ]

  -- Get by an id gives what the id shows.
  pub get_by_id-visible :
      (clear : Bool) → get_by_id s now id clear ≡ clear_internal clear (found (visible s now id))
  unfolding get_by_id
  get_by_id-visible clear = elim (Option-cases (visible s now id)) [
    | inr (document, shown) ↦
        let (offset, at, alive, below, kept) = visible-some document shown in
        ap (λ (r : StatusOr (Unit {0})). unless_error r (clear_internal clear (read_document s id)))
          (exists-some offset at alive)
        ∙ ap (clear_internal clear) (read_document-some offset document at below kept)
        ∙ ap (λ (o : Option Document). clear_internal clear (found o)) (sym shown)
    | inl hidden ↦
        ap (λ (r : StatusOr (Unit {0})). unless_error r (clear_internal clear (read_document s id)))
          (hidden_exists hidden)
        ∙ ap (λ (o : Option Document). clear_internal clear (found o)) (sym hidden)
  ]

-- Get by namespace and uri: the document that its key shows, without its internal fields, or
-- NOT_FOUND.
pub get_lem :
    (env : Environment) (s : DocumentStore) (now : ℕ) (name_space uri : Text) (clear : Bool)
    → IsSound s
    → get env s now name_space uri clear
      ≡ clear_internal true (found (lookup s now (make_fingerprint env name_space uri)))
unfolding get get_document_id mapper_get
get_lem env s now name_space uri clear sound =
    let key = make_fingerprint env name_space uri in
    elim (Option-cases (find s.document_key_mapper key)) [
      | inl unknown ↦
          ap (λ (o : Option ℕ). get_found s now (or_not_found o)) unknown
          ∙ ap (λ (o : Option ℕ). clear_internal true (found (visible_at s now o))) (sym unknown)
      | inr (id, at) ↦
          ap (λ (o : Option ℕ). get_found s now (or_not_found o)) at
          ∙ get_by_id-visible s sound now id (sound.known key id at) true
          ∙ ap (λ (o : Option ℕ). clear_internal true (found (visible_at s now o))) (sym at)
    ]

-- Behind the last id nothing is shown.
pub visible-beyond :
    (t : DocumentStore) (later id : ℕ)
    → t.document_id_mapper.num_elements ≤ id
    → visible t later id ≡ none
visible-beyond t later id behind =
    let gone : offset_at t id ≡ none = ground arith in ground (arith, gone)
