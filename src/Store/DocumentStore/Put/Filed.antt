-- ===== src/Store/DocumentStore/Put/Filed.antt =====
-- Documents under their own keys in icing/store/document-store.cc, and what a deletion leaves of that.
use external_icing.Base.{ℕ, ◌<◌, ◌≡◌, refl, sym, ◌∙◌, false, some, ◌==◌, Bool-cases, inl, inr}
use external_icing.Store.KeyMapper.{find}
use external_icing.Store.DocumentStore.{
  Document, DocumentStore, Environment, make_fingerprint, calculate_expiration_timestamp_ms,
}
use external_icing.Store.DocumentStore.View.{
  visible, expiration_at, offset_at, IsSound, some_is_none,
}
use external_icing.Store.DocumentStore.Delete.Erased.{erased, visible-erased, expiration_at-erased}

-- A store in which each document that exists has the id of its key, the time of its expiration, and a
-- creation time.
pub record IsFiled (env : Environment) (s : DocumentStore) (now : ℕ) : Type 0 where
  pub own_key :
      (id : ℕ) (document : Document)
      → visible s now id ≡ some document
      → find s.document_key_mapper (make_fingerprint env document.name_space document.uri) ≡ some id
  pub expires :
      (id : ℕ) (document : Document)
      → visible s now id ≡ some document
      → expiration_at s id
        ≡ some (calculate_expiration_timestamp_ms document.creation_timestamp_ms document.ttl_ms)
  pub created :
      (id : ℕ) (document : Document)
      → visible s now id ≡ some document
      → (document.creation_timestamp_ms == 0) ≡ false

-- A deletion leaves the others as they are.
module _ (env : Environment) (s : DocumentStore) (now id offset : ℕ) (sound : IsSound s)
    (within : id < s.document_id_mapper.num_elements) (at : offset_at s id ≡ some offset) where
  pub shown_before :
      (other : ℕ) (d : Document)
      → visible (erased s id offset) now other ≡ some d
      → ((id == other) ≡ false)
        × (visible s now other ≡ some d)
        × (expiration_at (erased s id offset) other ≡ expiration_at s other)
  shown_before other d shown = elim (Bool-cases (id == other)) [
    | inl equal ↦ absurd (
        some_is_none d (visible-erased s sound id within offset at now other ∙ rw equal refl) shown)
    | inr differ ↦ (
      differ,
      sym (visible-erased s sound id within offset at now other ∙ rw differ refl) ∙ shown,
      expiration_at-erased s sound id within offset at other ∙ rw differ refl,
    )
  ]

  pub IsFiled-erased : IsFiled env s now → IsFiled env (erased s id offset) now
  IsFiled-erased filed = record {
    own_key = λ other d shown. filed.own_key other d (shown_before other d shown).1;
    expires = λ other d shown.
        (shown_before other d shown).2 ∙ filed.expires other d (shown_before other d shown).1;
    created = λ other d shown. filed.created other d (shown_before other d shown).1;
  }
