-- ===== src/Store/DocumentStore/Put/Replaces.antt =====
-- InternalPut of icing/store/document-store.cc as a change of the map of documents.
use external_icing.Base.{ℕ, ◌≡◌, refl, ap, sym, ◌∙◌, subst, Option, none, some, leb, if◌then◌else◌}
use external_icing.Store.{StatusOr, value, Text, text_eq, ◌>>◌}
use external_icing.Store.KeyMapper.{find}
use external_icing.Store.DocumentStore.{
  Document, DocumentStore, Environment, make_fingerprint, calculate_expiration_timestamp_ms,
}
use external_icing.Store.DocumentStore.Steps.{bind_ok}
use external_icing.Store.{give}
use external_icing.Store.KeyMapper.{or_not_found}
use external_icing.Store.DocumentStore.View.{lookup, IsSound}
use external_icing.Store.DocumentStore.Put.{replace_old, put_document}
use external_icing.Store.DocumentStore.Put.Indexed
use external_icing.Store.DocumentStore.Put.Replaced.{
  key, indexed, replace_old-Shows, put_document-parts,
}

-- A document whose key is new is stored, and nothing is replaced.
pub put_document-new :
    (env : Environment) (s : DocumentStore) (now : ℕ) (document : Document) (sound : IsSound s)
    (fits : Indexed.Fits env s document)
    → find s.document_key_mapper (make_fingerprint env document.name_space document.uri) ≡ none
    → put_document env now document s
      ≡ (value s.document_id_mapper.num_elements, indexed env s document fits sound)
unfolding replace_old
put_document-new env s now document sound fits unknown =
    let id = s.document_id_mapper.num_elements in
    put_document-parts env s document fits sound now
    ∙ ap
        (λ (o : Option ℕ).
          (replace_old now (or_not_found o) id >> give id) (indexed env s document fits sound))
        unknown

-- The result of a Put at the level of keys: the key shows the new document until it expires, and
-- every other key what it did.
abbrev pub Puts : Environment → DocumentStore → Document → StatusOr ℕ × DocumentStore → Type 0
Puts env s document r =
    (r.0 ≡ value s.document_id_mapper.num_elements)
    × IsSound r.1
    × ((now : ℕ) (other : Text)
        → lookup r.1 now other ≡ (
            if text_eq (make_fingerprint env document.name_space document.uri) other
            then (if leb
                  (calculate_expiration_timestamp_ms document.creation_timestamp_ms document.ttl_ms)
                  now
                then none
                else some document)
            else lookup s now other))

-- A document that fits is stored.
pub put_document_lem :
    (env : Environment) (s : DocumentStore) (now : ℕ) (document : Document)
    → IsSound s
    → Indexed.Fits env s document
    → Puts env s document (put_document env now document s)
put_document_lem env s now document sound fits =
    let id = s.document_id_mapper.num_elements in
    let k = key env s document fits sound in
    let indexed' = indexed env s document fits sound in
    let replace = replace_old now (or_not_found (find s.document_key_mapper k)) id in
    let (replaced, is_sound, same) =
      replace_old-Shows env s document fits sound now (find s.document_key_mapper k) refl in
    let end = (replace indexed').1 in
    let done : put_document env now document s ≡ (value id, end) =
      put_document-parts env s document fits sound now
      ∙ bind_ok replace (λ _. give id) indexed'
          (ap (λ (r : StatusOr (Unit {0})). (r, end)) replaced) in
    subst (Puts env s document) (sym done) (
      refl,
      is_sound,
      λ later other.
          same later other ∙ Indexed.lookup-indexed env s document fits sound later other,
    )
