-- ===== src/Store/DocumentStore/Delete/Erased.antt =====
-- Delete of icing/store/document-store.cc: what is left of a document, and that the others stay.
use external_icing.Base.{
  ℕ, ◌≤◌, ◌<◌, ◌≡◌, refl, ap, ap₂, sym, ◌∙◌, false, Option, none, some, leb, ◌==◌, if◌then◌else◌,
  arith, Option-cases, Bool-cases, inl, inr,
}
use external_icing.Hit.{max_document_id}
use external_icing.Store.{value, error, not_found, ◌>>=◌, ◌>>◌}
use external_icing.Store.FileBackedVector.{vector_get, get_or-write_at}
use external_icing.Store.ProtoLog.{proto_at, erase_at, proto_at-erase_at}
use external_icing.Store.UsageStore.{default_usage}
use external_icing.Store.DocumentStore.{
  Document, DocumentStore, zero_offset, zero_score, zero_filter, is_past,
  does_document_exist_with_status,
}
use external_icing.Store.DocumentStore.Caches.{
  set_offset, update_score_cache, update_filter_cache, erase_document,
}
use external_icing.Store.DocumentStore.Steps.{
  bind_ok, bind_fail, written, set_offset-ok, update_score_cache-ok, update_filter_cache-ok,
  erase_document-ok, delete_usage-ok,
}
use external_icing.Store.DocumentStore.View.{
  offset_at, expiration_at, readable, document_at, some_is_none, visible, IsSound, visible-some,
  hidden_exists, exists-some,
}
use external_icing.Store.DocumentStore.Delete.{
  deleted_score, deleted_filter, clear_derived_data, offset_of, delete_by_id,
}

-- The store without the document of an id that is at an offset of the log.
abbrev pub erased : DocumentStore → ℕ → ℕ → DocumentStore
erased s id offset = record s {
  document_log = record {
    protos = erase_at s.document_log.protos offset;
    file_size = s.document_log.file_size;
  };
  document_id_mapper = written zero_offset s.document_id_mapper id none;
  score_cache = written zero_score s.score_cache id deleted_score;
  filter_cache = written zero_filter s.filter_cache id deleted_filter;
  usage_store =
      if leb s.usage_store.num_elements id
      then s.usage_store
      else written default_usage s.usage_store id default_usage;
}

module _ (s : DocumentStore) (sound : IsSound s) (now id : ℕ)
    (within : id < s.document_id_mapper.num_elements) where
  offset_of-some : (offset : ℕ) → offset_at s id ≡ some offset → offset_of id s ≡ value offset
  unfolding offset_of vector_get
  offset_of-some offset h = ground arith

  -- Deleting a document that the id shows succeeds.
  pub delete_by_id-visible :
      (document : Document)
      → visible s now id ≡ some document
      → (offset : ℕ) × (offset_at s id ≡ some offset)
        × (delete_by_id now id s ≡ (value tt, erased s id offset))
  unfolding delete_by_id clear_derived_data
  delete_by_id-visible document shown =
      let (offset, at, alive, below, kept) = visible-some s sound now id within document shown in
      let small : id ≤ max_document_id = omega (arith, sound.bounded) in
      let erased_log = record s {
        document_log = record {
          protos = erase_at s.document_log.protos offset;
          file_size = s.document_log.file_size;
        };
      } in
      let without_offset = record erased_log {
        document_id_mapper = written zero_offset s.document_id_mapper id none;
      } in
      let without_score = record without_offset {
        score_cache = written zero_score s.score_cache id deleted_score;
      } in
      let without_filter = record without_score {
        filter_cache = written zero_filter s.filter_cache id deleted_filter;
      } in
      let cleared : clear_derived_data id erased_log ≡ (value tt, erased s id offset) =
        bind_ok (set_offset id none) _ erased_log (set_offset-ok erased_log id none (omega arith))
        ∙ bind_ok (update_score_cache id deleted_score) _ without_offset
            (update_score_cache-ok without_offset id deleted_score (omega arith))
        ∙ bind_ok (update_filter_cache id deleted_filter) _ without_score
            (update_filter_cache-ok without_score id deleted_filter (omega arith))
        ∙ delete_usage-ok without_filter id small in
      (
        offset,
        at,
        bind_ok (λ t. (does_document_exist_with_status t now id, t)) _ s
              (ap (λ r. (r, s)) (exists-some s sound now id within offset at alive))
            ∙ bind_ok (λ t. (offset_of id t, t)) _ s (ap (λ r. (r, s)) (offset_of-some offset at))
            ∙ bind_ok (erase_document offset) _ s
                (erase_document-ok s offset (some document) below kept)
            ∙ cleared,
      )

  -- Deleting one that it does not show fails, and changes nothing.
  pub delete_by_id-hidden : visible s now id ≡ none → delete_by_id now id s ≡ (error not_found, s)
  unfolding delete_by_id
  delete_by_id-hidden hidden =
      bind_fail (λ t. (does_document_exist_with_status t now id, t))
        (λ _.
          (λ t. (offset_of id t, t)) >>= λ offset. erase_document offset >> clear_derived_data id)
        s (ap (λ r. (r, s)) (hidden_exists s sound now id within hidden))

-- What is read from the store that is left.
module _ (s : DocumentStore) (sound : IsSound s) (id : ℕ)
    (within : id < s.document_id_mapper.num_elements) (offset : ℕ)
    (at : offset_at s id ≡ some offset) where
  abbrev s' : DocumentStore
  s' = erased s id offset

  num_elements-erased :
      (s'.document_id_mapper.num_elements ≡ s.document_id_mapper.num_elements)
      × (s'.filter_cache.num_elements ≡ s.filter_cache.num_elements)
  num_elements-erased = (ground arith, ground (arith, sound.aligned))

  offset_at-erased :
      (other : ℕ) → offset_at s' other ≡ (if id == other then none else offset_at s other)
  offset_at-erased other =
      ground (arith, get_or-write_at zero_offset s.document_id_mapper.array id other none)

  pub expiration_at-erased :
      (other : ℕ) → expiration_at s' other ≡ (if id == other then none else expiration_at s other)
  expiration_at-erased other = ground (
    arith,
    sound.aligned,
    get_or-write_at zero_filter s.filter_cache.array id other deleted_filter,
  )

  -- The other documents are still in the log.
  kept : (other o : ℕ) → (id == other) ≡ false → offset_at s other ≡ some o → (offset == o) ≡ false
  kept other o differ there = elim (Bool-cases (offset == o)) [
    | inr apart ↦ apart
    | inl same ↦
        let o_is : offset ≡ o = ground (arith, same) in
        let equal : id ≡ other = sound.apart id other o (at ∙ ap some o_is) there in
        ground (arith, differ, equal)
  ]

  proto_at-erased :
      (other o : ℕ)
      → (id == other) ≡ false
      → offset_at s other ≡ some o
      → proto_at s'.document_log.protos o ≡ proto_at s.document_log.protos o
  proto_at-erased other o differ there =
      proto_at-erase_at s.document_log.protos offset o ∙ rw (kept other o differ there) refl

  document_at-erased :
      (other : ℕ)
      → (id == other) ≡ false
      → document_at s'.document_log (offset_at s other)
        ≡ document_at s.document_log (offset_at s other)
  document_at-erased other differ = elim (Option-cases (offset_at s other)) [
    | inl gone ↦ rw gone refl
    | inr (o, there) ↦
        ap (document_at s'.document_log) there
        ∙ ap readable (proto_at-erased other o differ there)
        ∙ ap (document_at s.document_log) (sym there)
  ]

  -- An id with an offset is another one, and had it before.
  before_erased :
      (other o : ℕ)
      → offset_at s' other ≡ some o
      → ((id == other) ≡ false) × (offset_at s other ≡ some o)
  before_erased other o there = elim (Bool-cases (id == other)) [
    | inl same ↦ absurd (some_is_none o (offset_at-erased other ∙ rw same refl) there)
    | inr differ ↦ (differ, sym (offset_at-erased other ∙ rw differ refl) ∙ there)
  ]

  -- An id that was deleted shows nothing, and the others show what they did.
  pub visible-erased :
      (now other : ℕ) → visible s' now other ≡ (if id == other then none else visible s now other)
  visible-erased now other = elim (Bool-cases (id == other)) [
    | inl same ↦
        let past : expiration_at s' other ≡ none = expiration_at-erased other ∙ rw same refl in
        rw (past, same) refl
    | inr differ ↦
        let when : expiration_at s' other ≡ expiration_at s other =
          expiration_at-erased other ∙ rw differ refl in
        let where_is : offset_at s' other ≡ offset_at s other =
          offset_at-erased other ∙ rw differ refl in
        ap₂ (λ (e o : Option ℕ). if is_past now e then none else document_at s'.document_log o) when
          where_is
        ∙ ap (λ (d : Option Document). if is_past now (expiration_at s other) then none else d)
            (document_at-erased other differ)
        ∙ sym (rw differ refl)
  ]

  pub IsSound-erased : IsSound s'
  IsSound-erased = record {
    aligned = ground (arith, sound.aligned, num_elements-erased);
    bounded = ground (arith, sound.bounded, num_elements-erased);
    known = λ key id' there. omega (arith, sound.known key id' there, num_elements-erased.0);
    own = sound.own;
    stored = λ other o there.
        let (differ, before) = before_erased other o there in
        let (below, document, stored) = sound.stored other o before in
        (below, document, proto_at-erased other o differ before ∙ stored);
    apart = λ a b o there there'.
        sound.apart a b o (before_erased a o there).1 (before_erased b o there').1;
  }
