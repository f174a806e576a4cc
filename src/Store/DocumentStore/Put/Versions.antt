-- ===== src/Store/DocumentStore/Put/Versions.antt =====
-- What InternalPut of icing/store/document-store.cc makes of the version that it replaces.
use external_icing.Base.{
  ℕ, ◌<◌, ◌≡◌, refl, ap, sym, ◌∙◌, subst, true, Option, none, some, ◌==◌, arith, Option-cases, inl,
  inr,
}
use external_icing.Store.{StatusOr, value, ◌>>◌, give}
use external_icing.Store.FileBackedVector.{get_or-write_at}
use external_icing.Store.KeyMapper.{find, or_not_found}
use external_icing.Store.UsageStore.{default_usage}
use external_icing.Store.UsageStore.Reports.{usage}
use external_icing.Store.DocumentStore.{Document, DocumentStore, Environment, make_fingerprint}
use external_icing.Store.DocumentStore.Steps.{bind_ok}
use external_icing.Store.DocumentStore.Delete.Erased.{
  erased, delete_by_id-visible, delete_by_id-hidden, visible-erased,
}
use external_icing.Store.DocumentStore.View.{visible, IsSound}
use external_icing.Store.DocumentStore.Put.{replace_old, put_document, ignored}
use external_icing.Store.DocumentStore.Put.Indexed.{Fits}
use external_icing.Store.DocumentStore.Put.Replaced.{
  key, indexed, cloned, old_below, IsSound-cloned, replace_old-next, replace_old-Shows,
  put_document-parts,
}

module _ (env : Environment) (s : DocumentStore) (now : ℕ) (document : Document) (sound : IsSound s)
    (fits : Fits env s document) (old : ℕ)
    (had : find s.document_key_mapper (make_fingerprint env document.name_space document.uri)
      ≡ some old) where
  abbrev id : ℕ
  id = s.document_id_mapper.num_elements

  -- The old id shows nothing, and the new one has its scores.
  abbrev Inherits : DocumentStore → Type 0
  Inherits t = (visible t now old ≡ none) × (usage t.usage_store id ≡ usage s.usage_store old)

  abbrev copied : DocumentStore
  copied = cloned env s document fits sound old had

  usage-copied : usage copied.usage_store id ≡ usage s.usage_store old
  usage-copied =
      ground
        (arith, get_or-write_at default_usage s.usage_store.array id id (usage s.usage_store old))

  usage-erased :
      (offset : ℕ) → usage (erased copied old offset).usage_store id ≡ usage s.usage_store old
  usage-erased offset = ground (
    arith,
    usage-copied,
    sound.known (key env s document fits sound) old had,
    get_or-write_at default_usage copied.usage_store.array old id default_usage,
  )

  replace_old-Inherits :
      Inherits (replace_old now (value old) id (indexed env s document fits sound)).1
  replace_old-Inherits =
      let sound' = IsSound-cloned env s document fits sound old had in
      let within : old < copied.document_id_mapper.num_elements =
        omega (arith, old_below env s document fits sound old had) in
      subst (λ (r : StatusOr (Unit {0}) × DocumentStore). Inherits r.1)
        (sym (replace_old-next env s document fits sound old had now))
        (elim (Option-cases (visible copied now old)) [
          | inl hidden ↦
              subst (λ (r : StatusOr (Unit {0}) × DocumentStore). Inherits r.1)
                (sym (ap ignored (delete_by_id-hidden copied sound' now old within hidden)))
                (hidden, usage-copied)
          | inr (d, shown) ↦
              let (offset, at, done) = delete_by_id-visible copied sound' now old within d shown in
              let same : (old == old) ≡ true = ground arith in
              subst (λ (r : StatusOr (Unit {0}) × DocumentStore). Inherits r.1)
                (sym (ap ignored done))
                (
                  visible-erased copied sound' old within offset at now old ∙ rw same refl,
                  usage-erased offset,
                )
        ])

  -- A document that fits, put into a sound store that has an id for its key: the old id shows nothing
  -- at this time, and the new document has the usage scores of the old one.
  pub put_document-Inherits :
      (visible (put_document env now document s).1 now old ≡ none)
      × (usage (put_document env now document s).1.usage_store id ≡ usage s.usage_store old)
  put_document-Inherits =
      let indexed' = indexed env s document fits sound in
      let replace =
        replace_old now (or_not_found (find s.document_key_mapper (key env s document fits sound)))
          id in
      let (replaced, is_sound, same) =
        replace_old-Shows env s document fits sound now (some old) had in
      let replaced_old = replace_old now (value old) id indexed' in
      let done : put_document env now document s ≡ (value id, replaced_old.1) =
        put_document-parts env s document fits sound now
        ∙ ap (λ (o : Option ℕ). (replace_old now (or_not_found o) id >> give id) indexed') had
        ∙ bind_ok (replace_old now (value old) id) (λ _. give id) indexed'
            (ap (λ (r : StatusOr (Unit {0})). (r, replaced_old.1)) replaced) in
      subst (λ (r : StatusOr ℕ × DocumentStore). Inherits r.1) (sym done) replace_old-Inherits
