-- ===== src/Store/DocumentStore/Schema/Optimizes.antt =====
-- OptimizedUpdateSchemaStore of icing/store/document-store.cc does what UpdateSchemaStore does.
use external_icing.Base.{
  Bool, not, ◌∙◌, ℕ, zero, suc, ◌+◌, ◌<◌, ◌≡◌, refl, ap, sym, subst, true, none, some,
  if◌then◌else◌, arith, Option-cases, inl, inr,
}
use external_icing.Store.{StatusOr, value, ◌>>◌}
use external_icing.Store.DocumentStore.{Document, DocumentStore, Environment}
use external_icing.Store.DocumentStore.View.{visible, IsSound}
use external_icing.Store.DocumentStore.Steps.{bind_ok}
use external_icing.Store.DocumentStore.Put.Filed.{IsFiled}
use external_icing.Store.DocumentStore.Schema.{
  SetSchemaResult, optimized_update_one, optimized_update_loop, optimized_update_schema_store,
}
use external_icing.Store.DocumentStore.Schema.Typed.{filter_of}
use external_icing.Store.DocumentStore.Schema.Revalidated.{start, pass, rejected}
use external_icing.Store.DocumentStore.Schema.Described.{Describes, exists-shown, exists-hidden}
use external_icing.Store.DocumentStore.Schema.Optimized.{Reached, optimized_update_one-Next}
use external_icing.Store.DocumentStore.Schema.Ended.{end-all}

module _ (env : Environment) (result : SetSchemaResult) (s : DocumentStore) (now : ℕ)
    (described : Describes env result s now) where
  abbrev size : ℕ
  size = s.document_id_mapper.num_elements

  abbrev At : ℕ → DocumentStore → Type 0
  At k t = Reached env result s now described k t

  abbrev Ends : StatusOr (Unit {0}) × DocumentStore → Type 0
  Ends r = (r.0 ≡ value tt) × At size r.1

  at_start : IsSound s → IsFiled env s now → At 0 s
  at_start sound filed = record {
    revalidated = start env s now sound filed;
    untouched = λ other above. refl;
  }

  passed : (k : ℕ) (t : DocumentStore) → At k t → k < size → visible t now k ≡ none → At (suc k) t
  passed k t before within hidden = record {
    revalidated = pass env s now k t before.revalidated within hidden;
    untouched = λ other above. before.untouched other (omega (arith, above));
  }

  optimized_update_loop_lem :
      (rounds k : ℕ) (t : DocumentStore)
      → k + rounds ≡ size
      → At k t
      → Ends (optimized_update_loop env result now rounds k t)
  unfolding optimized_update_loop
  optimized_update_loop_lem zero k t all before =
      (refl, subst (λ (n : ℕ). At n t) (omega (arith, all)) before)
  optimized_update_loop_lem (suc rounds) k t all before =
      let rest = optimized_update_loop env result now rounds (k + 1) in
      let within : k < size = omega (arith, all) in
      let in_t : k < t.document_id_mapper.num_elements =
        omega (arith, within, (before.revalidated).same_size) in
      let sound = (before.revalidated).is_sound in
      let go : (u : DocumentStore) → At (suc k) u → Ends (rest u) = λ u after.
        optimized_update_loop_lem rounds (k + 1) u (omega (arith, all))
          (subst (λ (n : ℕ). At n u) (omega arith) after) in
      let next = optimized_update_one env result now k t in
      let round : Bool → StatusOr (Unit {0}) × DocumentStore = λ exists.
        if not exists then rest t else (optimized_update_one env result now k >> rest) t in
      elim (Option-cases (visible t now k)) [
        | inl hidden ↦
            subst Ends (sym (ap round (exists-hidden t sound now k in_t hidden)))
              (go t (passed k t before within hidden))
        | inr (document, there) ↦
            let (done, after) =
              optimized_update_one-Next env result s now described k t before within document
                there in
            let goes_on : (optimized_update_one env result now k >> rest) t ≡ rest next.1 =
              bind_ok (optimized_update_one env result now k) (λ _. rest) t
                (ap (λ (r : StatusOr (Unit {0})). (r, next.1)) done) in
            subst Ends (sym (ap round (exists-shown t sound now k in_t document there) ∙ goes_on))
              (go next.1 after)
      ]

  -- For a sound store where each document that exists is filed under its own key, with a successful
  -- result of SetSchema that describes the change, OptimizedUpdateSchemaStore does what a
  -- revalidation of every document does: it succeeds; the store stays sound and filed; exactly the
  -- documents that exist and that the validator rejects are deleted, and the others are shown as
  -- before at any time; and the filter cache has the new type id of each that exists.
  pub optimized_update_schema_store_lem :
      IsSound s
      → IsFiled env s now
      → result.success ≡ true
      → let (status, t) = optimized_update_schema_store env result now s in
        (status ≡ value tt)
        × IsSound t
        × IsFiled env t now
        × ((later id : ℕ)
            → visible t later id ≡ (if rejected env s now id then none else visible s later id))
        × ((id schema_type_id : ℕ) (document : Document)
            → visible t now id ≡ some document
            → env.get_schema_type_id document.schema ≡ value schema_type_id
            → (filter_of t id).schema_type_id ≡ some schema_type_id)
  unfolding optimized_update_schema_store
  optimized_update_schema_store_lem sound filed applied =
      let ends = optimized_update_loop_lem size 0 s (omega arith) (at_start sound filed) in
      let all : optimized_update_schema_store env result now s
          ≡ optimized_update_loop env result now size 0 s =
        ap
          (λ (b : Bool).
            if not b then (value tt, s) else optimized_update_loop env result now size 0 s)
          applied in
      let (done, end) = subst Ends (sym all) ends in
      let (sound_then, filed_then, shown, types) =
        end-all env s now (optimized_update_schema_store env result now s).1 end.revalidated in
      (done, sound_then, filed_then, shown, types)
