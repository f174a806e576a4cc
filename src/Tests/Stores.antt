-- ===== src/Tests/Stores.antt =====
-- Whole stores at concrete inputs: OptimizeInto, UpdateSchemaStore and OptimizedUpdateSchemaStore.
use external_icing.Base.{
  ℕ, zero, suc, Bool, true, false, Option, ap, ◌∙◌, sym, subst, ◌≤◌, ◌≡◌, refl, [], ◌∷◌, none, some,
  arith, if◌then◌else◌, length, leb,
}
use external_icing.Store.{StatusOr, invalid_argument, value, error, not_found, Text}
use external_icing.Store.KeyMapper.{find}
use external_icing.Store.UsageStore.Reports.{usage}
use external_icing.Store.DocumentStore.{Document, Environment, make_fingerprint, get}
use external_icing.Store.DocumentStore.View.{visible, IsSound}
use external_icing.Store.DocumentStore.Put.{put_document}
use external_icing.Store.DocumentStore.Put.Files.{put_document-IsFiled}
use external_icing.Store.DocumentStore.Put.Filed.{IsFiled}
use external_icing.Store.DocumentStore.Optimize.{empty_store, optimize_into}
use external_icing.Store.DocumentStore.Optimize.Rooms.{IsRoomy, kept, IsAccepted}
use external_icing.Store.DocumentStore.Optimize.Kept.{
  empty_store-IsSound, empty_store-IsFiled, num_shown,
}
use external_icing.Store.DocumentStore.Optimize.Keeps.{optimize_into_lem}
use external_icing.Tests.Documents.{env, mail, mail-Fits, stored, stored-Puts}
use external_icing.Store.DocumentStore.Schema.{
  update_schema_store, SetSchemaResult, optimized_update_schema_store, has_type,
}
use external_icing.Store.DocumentStore.Schema.Typed.{filter_of}
use external_icing.Store.DocumentStore.Schema.Revalidated.{rejected}
use external_icing.Store.DocumentStore.Schema.Described.{Describes}
use external_icing.Store.DocumentStore.Schema.Optimizes.{optimized_update_schema_store_lem}
use external_icing.Store.DocumentStore.Schema.Revalidates.{update_schema_store_lem}

put_document-IsFiled_example : IsFiled env (put_document env 1000 mail empty_store).1 1000
put_document-IsFiled_example =
    put_document-IsFiled env empty_store 1000 mail mail-Fits empty_store-IsSound
      (empty_store-IsFiled env 1000) refl

stored-IsFiled : IsFiled env stored 1000
stored-IsFiled =
    put_document-IsFiled env empty_store 1000 mail mail-Fits empty_store-IsSound
      (empty_store-IsFiled env 1000) refl

stored-IsRoomy : IsRoomy env stored.document_id_mapper.num_elements
unfolding put_document
stored-IsRoomy = record {
  key_room = λ mapper key few. refl;
  namespace_room = λ mapper key few. ground arith;
  corpus_room = λ mapper key few. refl;
}

-- The only document of the store.
only_mail :
    (id : ℕ) (document : Document) → visible stored 1000 id ≡ some document → document ≡ mail
unfolding put_document
only_mail zero document shown = ground arith
only_mail (suc id) document shown = ground arith

mail-IsAccepted : IsAccepted env (kept (λ d. 5) mail)
mail-IsAccepted = record {
  accepted = refl;
  small = omega arith;
  small_stored = omega arith;
  schema_type_id = 0;
  typed = refl;
}

stored-IsAccepted :
    (id : ℕ) (document : Document)
    → visible stored 1000 id ≡ some document
    → IsAccepted env (kept (λ d. 5) document)
stored-IsAccepted id document shown =
    subst (λ (d : Document). IsAccepted env (kept (λ e. 5) d)) (sym (only_mail id document shown))
      mail-IsAccepted

optimize_into_lem_example :
    let (result, new) = optimize_into env (λ d. value 5) stored 1000 in
    (result ≡ value tt)
    × IsSound new
    × (new.document_id_mapper.num_elements
        ≡ num_shown stored 1000 stored.document_id_mapper.num_elements)
    × ((later : ℕ) (name_space uri : Text) (clear : Bool)
        → 1000 ≤ later
        → get env new later name_space uri clear ≡ get env stored later name_space uri clear)
    × ((key : Text) (old_id id : ℕ)
        → find stored.document_key_mapper key ≡ some old_id
        → find new.document_key_mapper key ≡ some id
        → usage new.usage_store id ≡ usage stored.usage_store old_id)
optimize_into_lem_example =
    optimize_into_lem env stored 1000 (λ d. 5) stored-Puts.1 stored-IsFiled stored-IsRoomy
      stored-IsAccepted

-- A schema that does not allow two properties any more.
abbrev strict : Environment
strict = record env {
  validate = λ d. if leb 2 (length d.properties) then error invalid_argument else value tt;
}

stored_strict-IsFiled : IsFiled strict stored 1000
unfolding make_fingerprint
stored_strict-IsFiled = record {
  own_key = stored-IsFiled.own_key;
  expires = stored-IsFiled.expires;
  created = stored-IsFiled.created;
}

update_schema_store_lem_example :
    let (result, t) = update_schema_store strict 1000 stored in
    (result ≡ value tt)
    × IsSound t
    × IsFiled strict t 1000
    × ((later id : ℕ)
        → visible t later id
          ≡ (if rejected strict stored 1000 id then none else visible stored later id))
    × ((id schema_type_id : ℕ) (document : Document)
        → visible t 1000 id ≡ some document
        → strict.get_schema_type_id document.schema ≡ value schema_type_id
        → (filter_of t id).schema_type_id ≡ some schema_type_id)
update_schema_store_lem_example =
    update_schema_store_lem strict stored 1000 (λ document valid. (0, refl)) stored-Puts.1
      stored_strict-IsFiled

-- The mail is rejected, and the new store does not show it.
rejected_run :
    (rejected strict stored 1000 0 ≡ true)
    × (get strict (update_schema_store strict 1000 stored).1 1000 (1 ∷ 2 ∷ []) (3 ∷ []) true
        ≡ error not_found)
unfolding put_document update_schema_store get
rejected_run = (refl, refl)

-- The type of the mail is incompatible with its old version.
abbrev incompatible : SetSchemaResult
incompatible = record {
  success = true;
  schema_types_deleted_by_id = [];
  old_schema_type_ids_changed = [];
  schema_types_incompatible_by_id = 0 ∷ [];
}

only_first : (id : ℕ) (document : Document) → visible stored 1000 id ≡ some document → id ≡ 0
unfolding put_document
only_first zero document shown = refl
only_first (suc id) document shown = ground arith

first_type : (filter_of stored 0).schema_type_id ≡ some 0
unfolding put_document
first_type = refl

shown_type :
    (id : ℕ) (document : Document)
    → visible stored 1000 id ≡ some document
    → (filter_of stored id).schema_type_id ≡ some 0
shown_type id document shown =
    ap (λ (k : ℕ). (filter_of stored k).schema_type_id) (only_first id document shown) ∙ first_type

none_listed : (o : Option ℕ) → has_type [] o ≡ false
none_listed none = refl
none_listed (some id) = refl

true_is_not_false : true ≡ false → ⊥
true_is_not_false same = ground (arith, same)

incompatible-Describes : Describes strict incompatible stored 1000
incompatible-Describes = record {
  deleted = λ id document shown gone.
      absurd (true_is_not_false (sym gone ∙ none_listed (filter_of stored id).schema_type_id));
  compatible = λ id document shown stays fine.
      absurd
        (true_is_not_false (ap (has_type (0 ∷ [])) (sym (shown_type id document shown)) ∙ fine));
  changed = λ id document shown changes.
      absurd (true_is_not_false (sym changes ∙ none_listed (filter_of stored id).schema_type_id));
  unchanged = λ id schema_type_id document shown same type.
      shown_type id document shown
      ∙ ap (λ (r : StatusOr ℕ). elim r as (λ _. Option ℕ) [ value n ↦ some n | error e ↦ none ])
          type;
}

optimized_update_schema_store_lem_example :
    let (status, t) = optimized_update_schema_store strict incompatible 1000 stored in
    (status ≡ value tt)
    × IsSound t
    × IsFiled strict t 1000
    × ((later id : ℕ)
        → visible t later id
          ≡ (if rejected strict stored 1000 id then none else visible stored later id))
    × ((id schema_type_id : ℕ) (document : Document)
        → visible t 1000 id ≡ some document
        → strict.get_schema_type_id document.schema ≡ value schema_type_id
        → (filter_of t id).schema_type_id ≡ some schema_type_id)
optimized_update_schema_store_lem_example =
    optimized_update_schema_store_lem strict incompatible stored 1000 incompatible-Describes
      stored-Puts.1 stored_strict-IsFiled refl
