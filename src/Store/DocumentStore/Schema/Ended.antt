-- ===== src/Store/DocumentStore/Schema/Ended.antt =====
-- The end of the loops of UpdateSchemaStore and OptimizedUpdateSchemaStore of
-- icing/store/document-store.cc, which have looked at every id.
use external_icing.Base.{
  ℕ, ◌≤◌, ◌<◌, ◌≡◌, refl, ap, ◌∙◌, true, false, ◌&&◌, none, some, ltb, if◌then◌else◌, arith,
  Bool-cases, inl, inr, ◌⊎◌,
}
use external_icing.Store.{value}
use external_icing.Store.DocumentStore.{Document, DocumentStore, Environment}
use external_icing.Store.DocumentStore.View.{visible-beyond, visible, IsSound, some_is_none}
use external_icing.Store.DocumentStore.Put.Filed.{IsFiled}
use external_icing.Store.DocumentStore.Schema.Typed.{filter_of}
use external_icing.Store.DocumentStore.Schema.Revalidated.{Revalidated, rejected_one, rejected}

module _ (env : Environment) (s : DocumentStore) (now : ℕ) where
  abbrev size : ℕ
  size = s.document_id_mapper.num_elements

  shown_inside :
      (t : DocumentStore) (later id : ℕ) (document : Document)
      → t.document_id_mapper.num_elements ≤ size
      → visible t later id ≡ some document
      → id < size
  shown_inside t later id document few there =
      elim (Bool-cases (ltb id t.document_id_mapper.num_elements)) [
        | inl inside ↦ ground (arith, inside, few)
        | inr beyond ↦
            absurd
              (some_is_none document (visible-beyond t later id (ground (arith, beyond))) there)
      ]

  whole :
      (later id : ℕ)
      → (ltb id size ≡ true) ⊎ (ltb id size ≡ false)
      → (if ltb id size && rejected env s now id then none else visible s later id)
        ≡ (if rejected env s now id then none else visible s later id)
  whole later id (inl inside) = rw inside refl
  whole later id (inr beyond) =
      let behind : size ≤ id = ground (arith, beyond) in
      let accepted : rejected env s now id ≡ false =
        ap (rejected_one env) (visible-beyond s now id behind) in
      rw (beyond, accepted) refl

  -- After every id was looked at, the whole store is as a revalidation leaves it.
  pub end-all :
      (t : DocumentStore)
      → Revalidated env s now size t
      → IsSound t
        × IsFiled env t now
        × ((later id : ℕ)
            → visible t later id ≡ (if rejected env s now id then none else visible s later id))
        × ((id schema_type_id : ℕ) (document : Document)
            → visible t now id ≡ some document
            → env.get_schema_type_id document.schema ≡ value schema_type_id
            → (filter_of t id).schema_type_id ≡ some schema_type_id)
  end-all t end = (
    end.is_sound,
    end.is_filed,
    λ later id. end.shown later id ∙ whole later id (Bool-cases (ltb id size)),
    λ id schema_type_id document there type.
        end.types id schema_type_id document
          (shown_inside t now id document (omega (arith, end.same_size)) there) there type,
  )
