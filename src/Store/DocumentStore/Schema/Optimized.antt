-- ===== src/Store/DocumentStore/Schema/Optimized.antt =====
-- A round of OptimizedUpdateSchemaStore of icing/store/document-store.cc.
use external_icing.Base.{
  ℕ, suc, ◌≤◌, ◌<◌, ◌≡◌, refl, ap, sym, ◌∙◌, subst, Bool, true, false, ◌||◌, Option, some,
  if◌then◌else◌, arith, Bool-cases, inl, inr,
}
use external_icing.Store.{StatusOr, value, error, lift, give, ◌>>=◌}
use external_icing.Store.FileBackedVector.{vector_get, get_or-write_at}
use external_icing.Store.DocumentStore.{
  Document, DocumentStore, Environment, clear_if, clear_internal, get_by_id, zero_filter,
  FilterData,
}
use external_icing.Store.DocumentStore.View.{visible, found, get_by_id-visible}
use external_icing.Store.DocumentStore.Caches.{Action}
use external_icing.Store.DocumentStore.Steps.{bind_ok}
use external_icing.Store.DocumentStore.Put.{ignored, ignore_not_found}
use external_icing.Store.DocumentStore.Delete.{delete_by_id, deleted_filter}
use external_icing.Store.DocumentStore.Delete.Erased.{erased, delete_by_id-visible}
use external_icing.Store.DocumentStore.Schema.{
  SetSchemaResult, set_schema_type_id, has_type, check_document, optimized_update_one,
}
use external_icing.Store.DocumentStore.Schema.Typed.{filter_of, retyped, visible-retyped}
use external_icing.Store.DocumentStore.Schema.Revalidated.{
  Revalidated, keep, reject, retyped-Revalidated, is_error,
}
use external_icing.Store.DocumentStore.Schema.Described.{
  Describes, entry_there, is_error-elim, or_left, or_right,
}

module _ (env : Environment) (result : SetSchemaResult) (s : DocumentStore) (now : ℕ)
    (described : Describes env result s now) where
  -- The store after the first ids were looked at, of which the entries from there on are as they were.
  pub record Reached (k : ℕ) (t : DocumentStore) : Type 0 where
    pub revalidated : Revalidated env s now k t
    pub untouched : (other : ℕ) → k ≤ other → filter_of t other ≡ filter_of s other

  module _ (k : ℕ) (t : DocumentStore) (before : Reached k t)
      (within : k < s.document_id_mapper.num_elements) (document : Document)
      (there : visible t now k ≡ some document) where
    abbrev old_type : Option ℕ
    old_type = (filter_of t k).schema_type_id

    abbrev is_changed : Bool
    is_changed = has_type result.old_schema_type_ids_changed old_type

    abbrev is_incompatible : Bool
    is_incompatible = has_type result.schema_types_incompatible_by_id old_type

    abbrev is_deleted_type : Bool
    is_deleted_type = has_type result.schema_types_deleted_by_id old_type

    abbrev is_rejected : Bool
    is_rejected = is_error (env.validate (clear_if true document))

    shown_first : visible s now k ≡ some document
    shown_first = sym ((before.revalidated).shown now k ∙ ground arith) ∙ there

    same_type : old_type ≡ (filter_of s k).schema_type_id
    same_type = ap (λ (e : FilterData). e.schema_type_id) (before.untouched k (omega arith))

    -- Without a revalidation, the documents of deleted types go.
    deleted_type_rejected : is_incompatible ≡ false → is_deleted_type ≡ is_rejected
    deleted_type_rejected fine = elim (Bool-cases is_deleted_type) [
      | inl gone ↦
          gone
          ∙ sym (
              described.deleted k document shown_first
                (ap (has_type result.schema_types_deleted_by_id) (sym same_type) ∙ gone))
      | inr stays ↦
          stays
          ∙ sym (
              described.compatible k document shown_first
                (ap (has_type result.schema_types_deleted_by_id) (sym same_type) ∙ stays)
                (ap (has_type result.schema_types_incompatible_by_id) (sym same_type) ∙ fine))
    ]

    decided : (if is_incompatible then is_rejected else is_deleted_type) ≡ is_rejected
    decided = elim (Bool-cases is_incompatible) [
      | inl changes ↦ rw changes refl
      | inr fine ↦ rw fine (deleted_type_rejected fine)
    ]

    -- The store in which the type id is up to date, and the other entries are as they were.
    record Updated (t1 : DocumentStore) : Type 0 where
      revalidated : Revalidated env s now k t1
      still_there : visible t1 now k ≡ some document
      up_to_date :
          (schema_type_id : ℕ)
          → env.get_schema_type_id document.schema ≡ value schema_type_id
          → (filter_of t1 k).schema_type_id ≡ some schema_type_id
      others : (other : ℕ) → suc k ≤ other → filter_of t1 other ≡ filter_of t other

    abbrev update_type : Action (Unit {0})
    update_type =
        if is_changed
        then (lift (env.get_schema_type_id document.schema) >>= set_schema_type_id k)
        else give tt

    updated : (t1 : DocumentStore) × (update_type t ≡ (value tt, t1)) × Updated t1
    unfolding set_schema_type_id
    updated = elim (Bool-cases is_changed) [
      | inl changes ↦
          let (schema_type_id, type) =
            described.changed k document shown_first
              (ap (has_type result.old_schema_type_ids_changed) (sym same_type) ∙ changes) in
          (
            retyped t k schema_type_id,
            rw (update_type, changes)
                (bind_ok (lift (env.get_schema_type_id document.schema)) (set_schema_type_id k) t
                  (ap (λ (r : StatusOr ℕ). (r, t)) type)),
            record {
              revalidated = retyped-Revalidated env s now k t schema_type_id before.revalidated;
              still_there = visible-retyped t k schema_type_id now k ∙ there;
              up_to_date = λ type_id of_document.
                  let ids : StatusOr.value type_id ≡ value schema_type_id =
                    sym of_document ∙ type in
                  ground (
                    arith,
                    get_or-write_at zero_filter t.filter_cache.array k k
                        (record (filter_of t k) { schema_type_id = some schema_type_id }),
                    ids,
                  );
              others = λ other above.
                  get_or-write_at zero_filter t.filter_cache.array k other
                    (record (filter_of t k) { schema_type_id = some schema_type_id })
                  ∙ ground (arith, above);
            },
          )
      | inr same ↦ (
        t,
        rw (update_type, same) refl,
        record {
          revalidated = before.revalidated;
          still_there = there;
          up_to_date = λ type_id of_document.
              same_type
              ∙ described.unchanged k type_id document shown_first
                  (ap (has_type result.old_schema_type_ids_changed) (sym same_type) ∙ same)
                  of_document;
          others = λ other above. refl;
        },
      )
    ]

    abbrev t1 : DocumentStore
    t1 = updated.0

    abbrev after_update : Updated t1
    after_update = updated.2

    check_document-decided :
        check_document env result old_type k (clear_if true document) is_deleted_type t
        ≡ (value is_rejected, t1)
    unfolding check_document set_schema_type_id
    check_document-decided =
        let verdict : Unit {0} → Action Bool = λ _.
          if is_incompatible
          then (give (elim (env.validate (clear_if true document)) as (λ _. Bool) [
            | value _ ↦ false
            | error _ ↦ true
          ]))
          else give is_deleted_type in
        bind_ok update_type verdict t updated.1 ∙ elim (Bool-cases is_incompatible) [
          | inl changes ↦ rw changes (
              ap (λ (b : Bool). (StatusOr.value b, t1))
                (is_error-elim (env.validate (clear_if true document))))
          | inr fine ↦
              rw fine (ap (λ (b : Bool). (StatusOr.value b, t1)) (deleted_type_rejected fine))
        ]

    abbrev decide : Action Bool
    decide =
        if is_changed || is_incompatible
        then (lift (get_by_id t now k true) >>= λ d.
            check_document env result old_type k d is_deleted_type)
        else give is_deleted_type

    decide-decided : decide t ≡ (value is_rejected, t1)
    decide-decided =
        let in_t : k < t.document_id_mapper.num_elements =
          omega (arith, within, (before.revalidated).same_size) in
        let one_found : get_by_id t now k true ≡ value (clear_if true document) =
          get_by_id-visible t (before.revalidated).is_sound now k in_t true
          ∙ ap (λ (d : Option Document). clear_internal true (found d)) there in
        elim (Bool-cases (is_changed || is_incompatible)) [
          | inl looks ↦ rw looks (
              bind_ok (lift (get_by_id t now k true))
                (λ d. check_document env result old_type k d is_deleted_type) t
                (ap (λ (r : StatusOr Document). (r, t)) one_found)
              ∙ check_document-decided)
          | inr trusts ↦
              let same : is_changed ≡ false = or_left is_changed is_incompatible trusts in
              let fine : is_incompatible ≡ false = or_right is_changed is_incompatible trusts in
              let left_alone : update_type t ≡ (StatusOr.value tt, t) =
                rw (update_type, same) refl in
              let is_t : t ≡ t1 =
                ap (λ (r : StatusOr (Unit {0}) × DocumentStore). r.1)
                  (sym left_alone ∙ updated.1) in
              rw trusts (
                ap (λ (b : Bool). (StatusOr.value b, t)) (deleted_type_rejected fine)
                ∙ ap (λ (u : DocumentStore). (StatusOr.value is_rejected, u)) is_t)
        ]

    abbrev finish : Bool → Action (Unit {0})
    finish delete_document =
        if delete_document then ignore_not_found (delete_by_id now k) else give tt

    abbrev pub Next : StatusOr (Unit {0}) × DocumentStore → Type 0
    Next r = (r.0 ≡ value tt) × Reached (suc k) r.1

    untouched_before : (other : ℕ) → suc k ≤ other → filter_of t1 other ≡ filter_of s other
    untouched_before other above =
        after_update.others other above ∙ before.untouched other (omega (arith, above))

    finish-Next : Next (finish is_rejected t1)
    finish-Next =
        let reached = after_update.revalidated in
        let in_t1 : k < t1.document_id_mapper.num_elements =
          omega (arith, within, reached.same_size) in
        elim (Bool-cases is_rejected) [
          | inl bad ↦
              let (offset, at, done) =
                delete_by_id-visible t1 reached.is_sound now k in_t1 document
                  after_update.still_there in
              let ended : finish is_rejected t1 ≡ (value tt, erased t1 k offset) =
                ap (λ (b : Bool). finish b t1) bad ∙ ap ignored done in
              subst Next (sym ended) (
                refl,
                record {
                  revalidated =
                      reject env s now k t1 reached within document after_update.still_there offset
                        at bad;
                  untouched = λ other above.
                      get_or-write_at zero_filter t1.filter_cache.array k other deleted_filter
                      ∙ ground (arith, above)
                      ∙ untouched_before other above;
                },
              )
          | inr good ↦ subst Next (sym (ap (λ (b : Bool). finish b t1) good)) (
            refl,
            record {
              revalidated =
                  keep env s now k t1 reached within document after_update.still_there good
                    after_update.up_to_date;
              untouched = untouched_before;
            },
          )
        ]

    pub optimized_update_one-Next : Next (optimized_update_one env result now k t)
    unfolding optimized_update_one
    optimized_update_one-Next =
        let in_t : k < t.document_id_mapper.num_elements =
          omega (arith, within, (before.revalidated).same_size) in
        let entry = entry_there t (before.revalidated).is_sound now k in_t in
        let all : optimized_update_one env result now k t ≡ finish is_rejected t1 =
          bind_ok (lift (vector_get zero_filter t.filter_cache k)) _ t
            (ap (λ (r : StatusOr FilterData). (r, t)) entry)
          ∙ bind_ok decide finish t decide-decided in
        subst Next (sym all) finish-Next
