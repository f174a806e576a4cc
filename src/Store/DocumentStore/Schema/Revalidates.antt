-- ===== src/Store/DocumentStore/Schema/Revalidates.antt =====
-- UpdateSchemaStore of icing/store/document-store.cc: which documents stay, and with which types.
use external_icing.Base.{
  ℕ, zero, suc, ◌+◌, ◌<◌, ◌≡◌, refl, ap, sym, ◌∙◌, subst, true, Option, none, some, if◌then◌else◌,
  arith, Option-cases, inl, inr,
}
use external_icing.Store.{StatusOr, value, error, not_found, lift, ◌>>=◌, ◌>>◌}
use external_icing.Store.KeyMapper.{or_not_found, mapper_get}
use external_icing.Store.DocumentStore.{
  Document, DocumentStore, Environment, clear_if, clear_internal, get_by_id, get_document_id,
}
use external_icing.Store.DocumentStore.View.{visible, IsSound, found, get_by_id-visible}
use external_icing.Store.DocumentStore.Caches.{Action}
use external_icing.Store.DocumentStore.Steps.{bind_ok}
use external_icing.Store.DocumentStore.Put.{ignored, ignore_not_found}
use external_icing.Store.DocumentStore.Put.Filed.{IsFiled}
use external_icing.Store.DocumentStore.Delete.{delete, delete_by_id}
use external_icing.Store.DocumentStore.Delete.Erased.{delete_by_id-visible}
use external_icing.Store.DocumentStore.Schema.{
  set_schema_type_id, revalidate, update_one, update_schema_loop, update_schema_store,
}
use external_icing.Store.DocumentStore.Schema.Typed.{filter_of}
use external_icing.Store.DocumentStore.Schema.Revalidated.{
  Revalidated, start, pass, accept, reject, is_error, rejected,
}
use external_icing.Store.DocumentStore.Schema.Ended.{end-all}

module _ (env : Environment) (s : DocumentStore) (now : ℕ)
    (typed : (document : Document)
      → env.validate document ≡ value tt
      → (schema_type_id : ℕ) × (env.get_schema_type_id document.schema
          ≡ value schema_type_id)) where
  module _ (k : ℕ) (t : DocumentStore) (before : Revalidated env s now k t)
      (within : k < s.document_id_mapper.num_elements) where
    module _ (document : Document) (there : visible t now k ≡ some document) where
      -- The round deletes the id itself, since the document is filed under its key.
      delete-own : delete env now document.name_space document.uri t ≡ delete_by_id now k t
      unfolding delete get_document_id mapper_get
      delete-own =
          bind_ok (λ u. (get_document_id env u document.name_space document.uri, u))
            (delete_by_id now) t
            (ap (λ (o : Option ℕ). (or_not_found o, t)) (before.is_filed.own_key k document there))

      abbrev Next : StatusOr (Unit {0}) × DocumentStore → Type 0
      Next r = (r.0 ≡ value tt) × Revalidated env s now (suc k) r.1

      abbrev checked : StatusOr (Unit {0}) → Action (Unit {0})
      checked result = elim result [
        | value _ ↦ lift (env.get_schema_type_id document.schema) >>= set_schema_type_id k
        | error _ ↦ ignore_not_found (delete env now document.name_space document.uri)
      ]

      revalidate-Next : Next (revalidate env now k (clear_if true document) t)
      unfolding revalidate set_schema_type_id
      revalidate-Next = validated (env.validate (clear_if true document)) refl
        where
          validated :
              (result : StatusOr (Unit {0}))
              → env.validate (clear_if true document) ≡ result
              → Next (checked result t)
          validated (value done) valid =
              let (schema_type_id, type) = typed (clear_if true document) valid in
              subst Next
                (sym (
                  bind_ok (lift (env.get_schema_type_id document.schema)) (set_schema_type_id k) t
                    (ap (λ (r : StatusOr ℕ). (r, t)) type)))
                (refl, accept env s now k t before within document there schema_type_id valid type)
          validated (error e) invalid =
              let in_t : k < t.document_id_mapper.num_elements =
                omega (arith, within, before.same_size) in
              let (offset, at, done) =
                delete_by_id-visible t before.is_sound now k in_t document there in
              subst Next (sym (ap ignored (delete-own ∙ done))) (
                refl,
                reject env s now k t before within document there offset at (ap is_error invalid),
              )

    -- A round of the loop.
    update_one-Next :
        let r = update_one env now k t in (r.0 ≡ value tt) × Revalidated env s now (suc k) r.1
    unfolding update_one
    update_one-Next =
        let in_t : k < t.document_id_mapper.num_elements =
          omega (arith, within, before.same_size) in
        let got = get_by_id-visible t before.is_sound now k in_t true in
        elim (Option-cases (visible t now k)) [
          | inl hidden ↦
              let none_found : get_by_id t now k true ≡ error not_found =
                got ∙ ap (λ (d : Option Document). clear_internal true (found d)) hidden in
              rw (update_one, none_found) (refl, pass env s now k t before within hidden)
          | inr (document, there) ↦
              let one_found : get_by_id t now k true ≡ value (clear_if true document) =
                got ∙ ap (λ (d : Option Document). clear_internal true (found d)) there in
              rw (update_one, one_found) (revalidate-Next document there)
        ]

  abbrev size : ℕ
  size = s.document_id_mapper.num_elements

  update_schema_loop_lem :
      (rounds k : ℕ) (t : DocumentStore)
      → k + rounds ≡ size
      → Revalidated env s now k t
      → let r = update_schema_loop env now rounds k t in
        (r.0 ≡ value tt) × Revalidated env s now size r.1
  unfolding update_schema_loop
  update_schema_loop_lem zero k t all before =
      (refl, subst (λ (n : ℕ). Revalidated env s now n t) (omega (arith, all)) before)
  update_schema_loop_lem (suc rounds) k t all before =
      let next = update_one env now k t in
      let (done, after) = update_one-Next k t before (omega (arith, all)) in
      let rest = update_schema_loop env now rounds (k + 1) in
      let goes_on : (update_one env now k >> rest) t ≡ rest next.1 =
        bind_ok (update_one env now k) (λ _. rest) t
          (ap (λ (r : StatusOr (Unit {0})). (r, next.1)) done) in
      subst
        (λ (r : StatusOr (Unit {0}) × DocumentStore).
          (r.0 ≡ value tt) × Revalidated env s now size r.1)
        (sym goes_on)
        (update_schema_loop_lem rounds (k + 1) next.1 (omega (arith, all))
          (subst (λ (n : ℕ). Revalidated env s now n next.1) (omega arith) after))

  -- UpdateSchemaStore, of a sound store where each document that exists is filed under its own key, with
  -- a new schema that has an id for the type of each document that the validator accepts: it succeeds;
  -- the store stays sound and filed; exactly the documents that exist and that the validator rejects are
  -- deleted, and the others are shown as before at any time; and the filter cache has the new type id of
  -- each that exists.
  pub update_schema_store_lem :
      IsSound s
      → IsFiled env s now
      → let (result, t) = update_schema_store env now s in
        (result ≡ value tt)
        × IsSound t
        × IsFiled env t now
        × ((later id : ℕ)
            → visible t later id ≡ (if rejected env s now id then none else visible s later id))
        × ((id schema_type_id : ℕ) (document : Document)
            → visible t now id ≡ some document
            → env.get_schema_type_id document.schema ≡ value schema_type_id
            → (filter_of t id).schema_type_id ≡ some schema_type_id)
  unfolding update_schema_store
  update_schema_store_lem sound filed =
      let t = (update_schema_store env now s).1 in
      let (done, end) =
        update_schema_loop_lem size 0 s (omega arith) (start env s now sound filed) in
      let (sound_then, filed_then, shown, types) = end-all env s now t end in
      (done, sound_then, filed_then, shown, types)
