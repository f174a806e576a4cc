-- ===== src/Store/DocumentStore/Delete/Removes.antt =====
-- Delete by namespace and uri, icing/store/document-store.cc, as a change of the map of documents.
use external_icing.Base.{
  ℕ, ◌<◌, ◌≡◌, refl, ap, sym, ◌∙◌, subst, Bool, true, false, Option, none, some, ◌==◌,
  if◌then◌else◌, arith, Option-cases, Bool-cases, inl, inr, ◌⊎◌,
}
use external_icing.Store.{StatusOr, value, error, not_found, Text, text_eq, text_eq_iff}
use external_icing.Store.KeyMapper.{find, or_not_found, mapper_get}
use external_icing.Store.DocumentStore.{
  Document, DocumentStore, Environment, make_fingerprint, get_document_id,
}
use external_icing.Store.DocumentStore.Steps.{bind_ok, bind_fail}
use external_icing.Store.DocumentStore.View.{offset_at, visible, visible_at, lookup, IsSound}
use external_icing.Store.DocumentStore.Delete.{delete_by_id, delete}
use external_icing.Store.DocumentStore.Delete.Erased.{
  erased, delete_by_id-visible, delete_by_id-hidden, visible-erased, IsSound-erased,
}

-- A deletion at the level of keys: of no document, or of the one that the key shows.
abbrev pub Removes : DocumentStore → ℕ → Text → StatusOr (Unit {0}) × DocumentStore → Type 0
Removes s now key r =
    ((lookup s now key ≡ none) × (r ≡ (error not_found, s)))
    ⊎ ((document : Document) × (lookup s now key ≡ some document)
        × (r.0 ≡ value tt)
        × IsSound r.1
        × ((later : ℕ) (other : Text)
            → lookup r.1 later other ≡ (if text_eq key other then none else lookup s later other)))

pub if_none : (b : Bool) → (if◌then◌else◌ {A = Option Document} b none none) ≡ none
if_none true = refl
if_none false = refl

-- Two keys have the same id exactly when they are the same.
pub same_key :
    (s : DocumentStore) (sound : IsSound s) (key other : Text) (id id' : ℕ)
    → find s.document_key_mapper key ≡ some id
    → find s.document_key_mapper other ≡ some id'
    → (id == id') ≡ text_eq key other
same_key s sound key other id id' there there' = elim (Bool-cases (id == id')) [
  | inl same ↦
      let equal : id' ≡ id = ground (arith, same) in
      same ∙ sym ((text_eq_iff key other).1 (sound.own key other id there (there' ∙ ap some equal)))
  | inr differ ↦ elim (Bool-cases (text_eq key other)) [
    | inr differ' ↦ differ ∙ sym differ'
    | inl same ↦
        let equal : key ≡ other = (text_eq_iff key other).0 same in
        let ids : some id ≡ some id' = sym there ∙ ap (find s.document_key_mapper) equal ∙ there' in
        ground (arith, ids, differ)
  ]
]

lookup-erased :
    (s : DocumentStore) (sound : IsSound s) (id : ℕ)
    → id < s.document_id_mapper.num_elements
    → (offset : ℕ) → offset_at s id ≡ some offset
    → (key : Text) → find s.document_key_mapper key ≡ some id
    → (later : ℕ) (other : Text)
    → lookup (erased s id offset) later other
      ≡ (if text_eq key other then none else lookup s later other)
lookup-erased s sound id within offset at key there later other =
    elim (Option-cases (find s.document_key_mapper other)) [
      | inl unknown ↦
          ap (visible_at (erased s id offset) later) unknown
          ∙ sym (
              ap (λ (o : Option ℕ). if text_eq key other then none else visible_at s later o)
                unknown
              ∙ if_none (text_eq key other))
      | inr (id', there') ↦
          ap (visible_at (erased s id offset) later) there'
          ∙ visible-erased s sound id within offset at later id'
          ∙ ap (λ (b : Bool). if b then none else visible s later id')
              (same_key s sound key other id id' there there')
          ∙ ap (λ (o : Option ℕ). if text_eq key other then none else visible_at s later o)
              (sym there')
    ]

-- Delete by namespace and uri: NOT_FOUND, with no change, if the key shows no document; and otherwise
-- the document goes and all others stay.
pub delete_lem :
    (env : Environment) (s : DocumentStore) (now : ℕ) (name_space uri : Text)
    → IsSound s
    → Removes s now (make_fingerprint env name_space uri) (delete env now name_space uri s)
unfolding delete get_document_id mapper_get
delete_lem env s now name_space uri sound =
    let key = make_fingerprint env name_space uri in
    elim (Option-cases (find s.document_key_mapper key)) [
      | inl unknown ↦ inl (
        ap (visible_at s now) unknown,
        bind_fail (λ t. (get_document_id env t name_space uri, t)) (delete_by_id now) s
            (ap (λ (o : Option ℕ). (or_not_found o, s)) unknown),
      )
      | inr (id, there) ↦
          let within = sound.known key id there in
          let next : delete env now name_space uri s ≡ delete_by_id now id s =
            bind_ok (λ t. (get_document_id env t name_space uri, t)) (delete_by_id now) s
              (ap (λ (o : Option ℕ). (or_not_found o, s)) there) in
          let shows : lookup s now key ≡ visible s now id = ap (visible_at s now) there in
          subst (Removes s now key) (sym next) (elim (Option-cases (visible s now id)) [
            | inl hidden ↦ inl (shows ∙ hidden, delete_by_id-hidden s sound now id within hidden)
            | inr (document, shown) ↦
                let (offset, at, done) =
                  delete_by_id-visible s sound now id within document shown in
                subst (Removes s now key) (sym done) (
                  inr (
                    document,
                    shows ∙ shown,
                    refl,
                    IsSound-erased s sound id within offset at,
                    lookup-erased s sound id within offset at key there,
                  ))
          ])
    ]
