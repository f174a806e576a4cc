-- ===== src/Store/DocumentStore/Delete/Groups.antt =====
-- DeleteByNamespace and DeleteBySchemaType of icing/store/document-store.cc delete the documents of the
-- group.
use external_icing.Base.{
  ℕ, zero, suc, ◌+◌, ◌<◌, ◌⊎◌, ==_iff, ◌≡◌, refl, ap, sym, ◌∙◌, subst, Bool, true, false, not,
  Option, none, some, ltb, ◌==◌, if◌then◌else◌, arith, Bool-cases, inl, inr, Option-cases,
}
use external_icing.Store.{StatusOr, value, not_found, Text, lift, ◌>>=◌}
use external_icing.Store.KeyMapper.{find, or_not_found, mapper_get}
use external_icing.Store.DocumentStore.{Document, FilterData, DocumentStore, Environment}
use external_icing.Store.DocumentStore.Steps.{bind_ok}
use external_icing.Store.DocumentStore.View.{visible, visible-beyond, IsSound, some_is_none}
use external_icing.Store.DocumentStore.Delete.{
  has_id, batch_delete, GroupResult, group_result, delete_by_namespace, delete_by_schema_type,
}
use external_icing.Store.DocumentStore.Delete.Batches.{
  filter_of, shows, selects, count_selected, Deletes, batch_delete_lem,
}

-- What the caller of a group deletion is told.
abbrev pub group_of : ℕ → GroupResult
group_of n = record { status = if n == 0 then some not_found else none; num_docs_deleted = n }

-- Of the two ids in the filter cache, the one by which a group is chosen.
abbrev pub namespace_of : FilterData → Option ℕ
namespace_of entry = entry.namespace_id

abbrev pub type_of : FilterData → Option ℕ
type_of entry = entry.schema_type_id

module _ (s : DocumentStore) (now : ℕ) (group_id : FilterData → Option ℕ) (id : ℕ) where
  -- A document that exists, and whose entry in the filter cache has the id.
  abbrev pub InGroup : ℕ → Type 0
  InGroup other =
      ((document : Document) × (visible s now other ≡ some document))
      × (group_id (filter_of s other) ≡ some id)

  -- How many of the ids from one on are in the group.
  pub data Counts : ℕ → ℕ → ℕ → Type 0 where
    no_more : {from : ℕ} → Counts from 0 0
    counted : {from k n : ℕ} → InGroup from → Counts (from + 1) k n → Counts from (suc k) (suc n)
    passed : {from k n : ℕ} → (InGroup from → ⊥) → Counts (from + 1) k n → Counts from (suc k) n

  -- The store without the group.
  pub record WithoutGroup (s' : DocumentStore) : Type 0 where
    pub is_sound : IsSound s'
    pub same_keys : s'.document_key_mapper ≡ s.document_key_mapper
    pub same_size : s'.document_id_mapper.num_elements ≡ s.document_id_mapper.num_elements
    pub gone : (later other : ℕ) → InGroup other → visible s' later other ≡ none
    pub stays :
        (later other : ℕ) → (InGroup other → ⊥) → visible s' later other ≡ visible s later other

  -- The test of the loop, of which it is said for each id whether it is in the group.
  abbrev Decides : Bool → ℕ → Type 0
  Decides b other = ((b ≡ true) × InGroup other) ⊎ ((b ≡ false) × (InGroup other → ⊥))

  -- The outer guards of the loop, when one of them is passed by every document.
  chosen-Decides :
      (other : ℕ) (h : Bool)
      → ((h ≡ true) × (group_id (filter_of s other) ≡ some id))
        ⊎ ((h ≡ false) × (group_id (filter_of s other) ≡ some id → ⊥))
      → Decides (if not h then false else shows (visible s now other)) other
  chosen-Decides other h (inr (not_asked, apart)) =
      inr (rw not_asked refl, λ member. apart member.1)
  chosen-Decides other h (inl (asked, same)) = elim (Option-cases (visible s now other)) [
    | inl hidden ↦
        inr (rw (asked, hidden) refl, λ member. some_is_none member.0.0 hidden member.0.1)
    | inr (document, there) ↦ inl (rw (asked, there) refl, ((document, there), same))
  ]

  module _ (namespace_id schema_type_id : Option ℕ)
      (decides : (other : ℕ)
        → Decides (selects s now namespace_id schema_type_id other) other) where
    count_selected-Counts :
        (k from : ℕ) → Counts from k (count_selected s now namespace_id schema_type_id k from)
    count_selected-Counts zero from = no_more
    count_selected-Counts (suc k) from =
        let rest = count_selected s now namespace_id schema_type_id k (from + 1) in
        let all = count_selected-Counts k (from + 1) in
        let total : Bool → ℕ = λ b. (if b then 1 else 0) + rest in
        elim (decides from) [
          | inl (chosen, member) ↦
              subst (Counts from (suc k)) (sym (ap total chosen ∙ omega arith)) (counted member all)
          | inr (left, other) ↦
              subst (Counts from (suc k)) (sym (ap total left ∙ omega arith)) (passed other all)
        ]

    Deletes-WithoutGroup :
        (s' : DocumentStore)
        → Deletes s now namespace_id schema_type_id s.document_id_mapper.num_elements 0 s'
        → WithoutGroup s'
    Deletes-WithoutGroup s' deletes = record {
      is_sound = deletes.is_sound;
      same_keys = deletes.same_keys;
      same_size = deletes.same_size;
      gone = λ later other member. elim (decides other) [
        | inl (chosen, _) ↦
            deletes.shown later other ∙ ground (arith, chosen, in_range other member)
        | inr (left, absent) ↦ absurd (absent member)
      ];
      stays = λ later other absent. elim (decides other) [
        | inl (chosen, member) ↦ absurd (absent member)
        | inr (left, _) ↦ deletes.shown later other ∙ ground (arith, left)
      ];
    }
      where
        in_range : (other : ℕ) → InGroup other → other < s.document_id_mapper.num_elements
        in_range other member = elim (Bool-cases (ltb other s.document_id_mapper.num_elements)) [
          | inl inside ↦ ground (arith, inside)
          | inr beyond ↦ absurd (
              some_is_none member.0.0 (visible-beyond s now other (ground (arith, beyond)))
                member.0.1)
        ]

-- The guard, against the ids themselves.
has_id_lem :
    (id : ℕ) (o : Option ℕ)
    → ((has_id (some id) o ≡ true) × (o ≡ some id))
      ⊎ ((has_id (some id) o ≡ false) × (o ≡ some id → ⊥))
has_id_lem id none = inr (refl, λ e. cc)
has_id_lem id (some entry) = elim (Bool-cases (entry == id)) [
  | inl e ↦ inl (e, ap some ((==_iff entry id).0 e))
  | inr e ↦ inr (e, λ same. ground (arith, same, e))
]

-- DeleteByNamespace, of a sound store, of a name that has an id: the documents that exist and whose
-- entry in the filter cache has this id are shown at no time any more, and all others as before; the
-- store stays sound and keeps its keys and its ids; the number of these documents is given, with
-- NOT_FOUND if it is zero.
pub delete_by_namespace_lem :
    (s : DocumentStore) (now : ℕ) (name_space : Text) (id : ℕ)
    → IsSound s
    → find s.namespace_mapper name_space ≡ some id
    → let r = delete_by_namespace now name_space s in
      (n : ℕ) × (r.0 ≡ group_of n)
      × Counts s now namespace_of id 0 s.document_id_mapper.num_elements n
      × WithoutGroup s now namespace_of id r.1
unfolding delete_by_namespace mapper_get
delete_by_namespace_lem s now name_space id sound there =
    let (total, deletes) = batch_delete_lem now (some id) none s sound in
    let next : (lift (mapper_get s.namespace_mapper name_space) >>= λ namespace_id.
    batch_delete now (some namespace_id) none)
          s
        ≡ batch_delete now (some id) none s =
      bind_ok (lift (mapper_get s.namespace_mapper name_space))
        (λ namespace_id. batch_delete now (some namespace_id) none) s
        (ap (λ (o : Option ℕ). (or_not_found o, s)) there) in
    let decides : (other : ℕ)
        → Decides s now namespace_of id (selects s now (some id) none other) other =
      λ other.
        chosen-Decides s now namespace_of id other
          (has_id (some id) (filter_of s other).namespace_id)
          (has_id_lem id (filter_of s other).namespace_id) in
    let n = s.document_id_mapper.num_elements in
    (
      count_selected s now (some id) none n 0,
      ap (λ (r : StatusOr ℕ × DocumentStore). group_result r.0) next ∙ ap group_result total,
      count_selected-Counts s now namespace_of id (some id) none decides n 0,
      subst (λ (r : StatusOr ℕ × DocumentStore). WithoutGroup s now namespace_of id r.1) (sym next)
          (Deletes-WithoutGroup s now namespace_of id (some id) none decides _ deletes),
    )

-- DeleteBySchemaType, of a sound store, of a type that has an id: the same for the documents whose
-- entry in the filter cache has the type's id.
pub delete_by_schema_type_lem :
    (env : Environment) (s : DocumentStore) (now : ℕ) (schema_type : Text) (id : ℕ)
    → IsSound s
    → env.get_schema_type_id schema_type ≡ value id
    → let r = delete_by_schema_type env now schema_type s in
      (n : ℕ) × (r.0 ≡ group_of n)
      × Counts s now type_of id 0 s.document_id_mapper.num_elements n
      × WithoutGroup s now type_of id r.1
unfolding delete_by_schema_type
delete_by_schema_type_lem env s now schema_type id sound there =
    let (total, deletes) = batch_delete_lem now none (some id) s sound in
    let next : (lift (env.get_schema_type_id schema_type) >>= λ type_id.
    batch_delete now none (some type_id))
          s
        ≡ batch_delete now none (some id) s =
      bind_ok (lift (env.get_schema_type_id schema_type))
        (λ type_id. batch_delete now none (some type_id)) s
        (ap (λ (r : StatusOr ℕ). (r, s)) there) in
    let decides : (other : ℕ)
        → Decides s now type_of id (selects s now none (some id) other) other =
      λ other.
        chosen-Decides s now type_of id other (has_id (some id) (filter_of s other).schema_type_id)
          (has_id_lem id (filter_of s other).schema_type_id) in
    let n = s.document_id_mapper.num_elements in
    (
      count_selected s now none (some id) n 0,
      ap (λ (r : StatusOr ℕ × DocumentStore). group_result r.0) next ∙ ap group_result total,
      count_selected-Counts s now type_of id none (some id) decides n 0,
      subst (λ (r : StatusOr ℕ × DocumentStore). WithoutGroup s now type_of id r.1) (sym next)
          (Deletes-WithoutGroup s now type_of id none (some id) decides _ deletes),
    )
