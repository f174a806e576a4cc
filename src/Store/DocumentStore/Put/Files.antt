-- ===== src/Store/DocumentStore/Put/Files.antt =====
-- InternalPut of icing/store/document-store.cc keeps each document that exists under its own key.
use external_icing.Base.{
  ℕ, ◌<◌, ◌≤◌, ◌≡◌, refl, ap, sym, ◌∙◌, subst, true, false, Option, none, some, ◌==◌, arith,
  Option-cases, Bool-cases, ◌⊎◌, inl, inr, trichotomy, below, same, above,
}
use external_icing.Store.{StatusOr, value, Text, text_eq, text_eq_iff, ◌>>◌, give}
use external_icing.Store.KeyMapper.{find, or_not_found}
use external_icing.Store.DocumentStore.{
  Document, DocumentStore, Environment, make_fingerprint, calculate_expiration_timestamp_ms,
}
use external_icing.Store.DocumentStore.View.{
  visible, expiration_at, offset_at, IsSound, some_is_none,
}
use external_icing.Store.DocumentStore.Steps.{bind_ok}
use external_icing.Store.DocumentStore.Delete.Erased.{
  erased, delete_by_id-visible, delete_by_id-hidden,
}
use external_icing.Store.DocumentStore.Put.{replace_old, put_document, ignored}
use external_icing.Store.DocumentStore.Put.Indexed
use external_icing.Store.DocumentStore.Put.Replaces.{put_document-new}
use external_icing.Store.DocumentStore.Put.Replaced.{
  indexed, cloned, old_below, IsSound-cloned, replace_old-next, replace_old-Shows,
  put_document-parts,
}
use external_icing.Store.DocumentStore.Put.Filed.{IsFiled, shown_before}

module _ (env : Environment) (s : DocumentStore) (now : ℕ) (document : Document)
    (fits : Indexed.Fits env s document) (sound : IsSound s) (filed : IsFiled env s now)
    (dated : (document.creation_timestamp_ms == 0) ≡ false) where
  abbrev new_id : ℕ
  new_id = s.document_id_mapper.num_elements

  abbrev own : Text
  own = make_fingerprint env document.name_space document.uri

  abbrev store : DocumentStore
  store = indexed env s document fits sound

  hidden_behind : (id : ℕ) → new_id < id → visible store now id ≡ none
  hidden_behind id behind =
      let differ : (new_id == id) ≡ false = ground arith in
      let gone : offset_at store id ≡ none =
        Indexed.offset_at-indexed env s document fits sound id ∙ rw differ (ground arith) in
      ground (arith, gone)

  -- What an id of the new store shows is the new document, or was shown before.
  new_or_before :
      (id : ℕ) (d : Document)
      → visible store now id ≡ some d
      → ((id ≡ new_id) × (d ≡ document)) ⊎ ((id < new_id) × (visible s now id ≡ some d))
  new_or_before id d shown = elim (trichotomy id new_id) [
    | below h ↦
        inr (h, sym (Indexed.visible-indexed_old env s document fits sound now id h) ∙ shown)
    | same h ↦ inl (h, new_shown d (sym (ap (visible store now) h) ∙ shown))
    | above h ↦ absurd (some_is_none d (hidden_behind id h) shown)
  ]
    where
      new_shown : (d : Document) → visible store now new_id ≡ some d → d ≡ document
      new_shown d shown =
          let there = sym (Indexed.visible-indexed_new env s document fits sound now) ∙ shown in
          ground (arith, there)

  abbrev key_of : Document → Text
  key_of d = make_fingerprint env d.name_space d.uri

  -- What is filed in the new store: every id but the one that the key had.
  abbrev FiledAs : DocumentStore → ℕ → Document → Type 0
  FiledAs t id d =
      (find t.document_key_mapper (key_of d) ≡ some id)
      × (expiration_at t id
          ≡ some (calculate_expiration_timestamp_ms d.creation_timestamp_ms d.ttl_ms))
      × ((d.creation_timestamp_ms == 0) ≡ false)

  filed_new : FiledAs store new_id document
  filed_new =
      let own_text : text_eq own own ≡ true = (text_eq_iff own own).1 refl in
      let own_id : (new_id == new_id) ≡ true = ground arith in
      (
        Indexed.find-indexed env s document fits sound own ∙ rw own_text refl,
        Indexed.expiration_at-indexed env s document fits sound new_id ∙ rw own_id refl,
        dated,
      )

  filed_before :
      (id : ℕ) (d : Document)
      → id < new_id
      → visible s now id ≡ some d
      → (find s.document_key_mapper own ≡ some id → ⊥)
      → FiledAs store id d
  filed_before id d h shown apart =
      let there = filed.own_key id d shown in
      let differ : (new_id == id) ≡ false = ground arith in
      (
        Indexed.find-indexed env s document fits sound (key_of d)
            ∙ elim (Bool-cases (text_eq own (key_of d))) [
              | inl equal ↦ absurd (
                  apart (
                    ap (find s.document_key_mapper) ((text_eq_iff own (key_of d)).0 equal) ∙ there))
              | inr other ↦ rw other there
            ],
        Indexed.expiration_at-indexed env s document fits sound id
            ∙ rw differ (filed.expires id d shown),
        filed.created id d shown,
      )

  filed_unless :
      (id : ℕ) (d : Document)
      → visible store now id ≡ some d
      → (find s.document_key_mapper own ≡ some id → ⊥)
      → FiledAs store id d
  filed_unless id d shown apart = elim (new_or_before id d shown) [
    | inl (id_is, d_is) ↦
        subst (λ (n : ℕ). FiledAs store n d) (sym id_is)
          (subst (FiledAs store new_id) (sym d_is) filed_new)
    | inr (h, earlier) ↦ filed_before id d h earlier apart
  ]

  from_all-IsFiled :
      (t : DocumentStore)
      → ((id : ℕ) (d : Document) → visible t now id ≡ some d → FiledAs t id d)
      → IsFiled env t now
  from_all-IsFiled t all = record {
    own_key = λ id d shown. (all id d shown).0;
    expires = λ id d shown. (all id d shown).1;
    created = λ id d shown. (all id d shown).2;
  }

  module _ (old : ℕ) (had : find s.document_key_mapper own ≡ some old) where
    abbrev copied : DocumentStore
    copied = cloned env s document fits sound old had

    -- Nothing but the old id is filed under the key.
    apart_from : (id : ℕ) → (old == id) ≡ false → find s.document_key_mapper own ≡ some id → ⊥
    apart_from id differ there =
        let both : some old ≡ some id = sym had ∙ there in ground (arith, both, differ)

    IsFiled-cloned : visible copied now old ≡ none → IsFiled env copied now
    IsFiled-cloned hidden = from_all-IsFiled copied (λ id d shown. filed_unless id d shown (λ there.
        let both : some old ≡ some id = sym had ∙ there in
        let is_old : old ≡ id = ground (arith, both) in
        some_is_none d (sym (ap (visible copied now) is_old) ∙ hidden) shown))

    IsFiled-replaced :
        (offset : ℕ)
        → offset_at copied old ≡ some offset
        → IsFiled env (erased copied old offset) now
    IsFiled-replaced offset at =
        let sound' = IsSound-cloned env s document fits sound old had in
        let within : old < copied.document_id_mapper.num_elements =
          omega (arith, old_below env s document fits sound old had) in
        from_all-IsFiled (erased copied old offset) (λ id d shown.
          let (differ, earlier, when) =
            shown_before env copied now old offset sound' within at id d shown in
          let (own_id, expires, created) = filed_unless id d earlier (apart_from id differ) in
          (own_id, when ∙ expires, created))

    replace_old-IsFiled : IsFiled env (replace_old now (value old) new_id store).1 now
    replace_old-IsFiled =
        let sound' = IsSound-cloned env s document fits sound old had in
        let within : old < copied.document_id_mapper.num_elements =
          omega (arith, old_below env s document fits sound old had) in
        subst (λ (r : StatusOr (Unit {0}) × DocumentStore). IsFiled env r.1 now)
          (sym (replace_old-next env s document fits sound old had now))
          (elim (Option-cases (visible copied now old)) [
            | inl hidden ↦
                subst (λ (r : StatusOr (Unit {0}) × DocumentStore). IsFiled env r.1 now)
                  (sym (ap ignored (delete_by_id-hidden copied sound' now old within hidden)))
                  (IsFiled-cloned hidden)
            | inr (d, shown) ↦
                let (offset, at, done) =
                  delete_by_id-visible copied sound' now old within d shown in
                subst (λ (r : StatusOr (Unit {0}) × DocumentStore). IsFiled env r.1 now)
                  (sym (ap ignored done)) (IsFiled-replaced offset at)
          ])

  -- A document that fits and has a creation time is put into a sound store where each document that
  -- exists is filed under its own key: that holds afterwards too.
  pub put_document-IsFiled : IsFiled env (put_document env now document s).1 now
  put_document-IsFiled = elim (Option-cases (find s.document_key_mapper own)) [
    | inl unknown ↦
        subst (λ (r : StatusOr ℕ × DocumentStore). IsFiled env r.1 now)
          (sym (put_document-new env s now document sound fits unknown))
          (from_all-IsFiled store
            (λ id d shown. filed_unless id d shown (λ there. some_is_none id unknown there)))
    | inr (old, had) ↦
        let replaced_old = replace_old now (value old) new_id store in
        let replaced = (replace_old-Shows env s document fits sound now (some old) had).0 in
        let done : put_document env now document s ≡ (value new_id, replaced_old.1) =
          put_document-parts env s document fits sound now
          ∙ ap (λ (o : Option ℕ). (replace_old now (or_not_found o) new_id >> give new_id) store)
              had
          ∙ bind_ok (replace_old now (value old) new_id) (λ _. give new_id) store
              (ap (λ (r : StatusOr (Unit {0})). (r, replaced_old.1)) replaced) in
        subst (λ (r : StatusOr ℕ × DocumentStore). IsFiled env r.1 now) (sym done)
          (replace_old-IsFiled old had)
  ]

-- It goes on to hold as time passes.
pub IsFiled-later :
    (env : Environment) (s : DocumentStore) (now later : ℕ)
    → now ≤ later
    → IsFiled env s now
    → IsFiled env s later
IsFiled-later env s now later h filed =
    let before =
      λ (id : ℕ) (d : Document) (shown : visible s later id ≡ some d). shown_earlier id d shown in
    record {
      own_key = λ id d shown. filed.own_key id d (before id d shown);
      expires = λ id d shown. filed.expires id d (before id d shown);
      created = λ id d shown. filed.created id d (before id d shown);
    }
  where
    shown_earlier :
        (id : ℕ) (d : Document) → visible s later id ≡ some d → visible s now id ≡ some d
    shown_earlier id d shown = elim (Option-cases (expiration_at s id)) [
      | inl gone ↦ absurd (some_is_none d (rw gone refl) shown)
      | inr (time, at) ↦ ground (arith, at, shown, h)
    ]
