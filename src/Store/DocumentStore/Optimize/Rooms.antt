-- ===== src/Store/DocumentStore/Optimize/Rooms.antt =====
-- What OptimizeInto of icing/store/document-store.cc asks of the old store, of the tries and of the documents.
use external_icing.Base.{
  ℕ, suc, ◌≤◌, ◌<◌, ◌≡◌, refl, ap, sym, ◌∙◌, subst, true, none, some, ◌==◌, if◌then◌else◌, arith,
  Option-cases, Bool-cases, inl, inr, [], ◌∷◌,
}
use external_icing.Store.{value, Text, text_eq}
use external_icing.Store.KeyMapper.{KeyMapper, find, insert, num_keys, find-insert}
use external_icing.Store.DocumentStore.{Document, Environment}
use external_icing.Store.DocumentStore.View.{some_is_none}
use external_icing.Store.DocumentStore.Put.{with_length}
use external_icing.Store.DocumentStore.Steps.{id_in, with_id}

-- Tries that have room for a number of keys.
pub record IsRoomy (env : Environment) (n : ℕ) : Type 0 where
  pub key_room :
      (mapper : KeyMapper) (key : Text) → num_keys mapper < n → env.has_key_room mapper key ≡ true
  pub namespace_room :
      (mapper : KeyMapper) (key : Text)
      → num_keys mapper < n
      → env.has_namespace_room mapper key ≡ true
  pub corpus_room :
      (mapper : KeyMapper) (key : Text)
      → num_keys mapper < n
      → env.has_corpus_room mapper key ≡ true

-- A document as it is written again, with its number of tokens.
abbrev pub kept : (Document → ℕ) → Document → Document
kept count document =
    with_length
      (if document.length_in_tokens == 0 then count document else document.length_in_tokens)
      document

-- That the validator and the log accept a document, and that its schema type is known.
pub record IsAccepted (env : Environment) (document : Document) : Type 0 where
  pub accepted : env.validate document ≡ value tt
  pub small : env.byte_size document ≤ env.max_proto_size
  pub small_stored : env.stored_size document ≤ env.max_proto_size
  pub schema_type_id : ℕ
  pub typed : env.get_schema_type_id document.schema ≡ value schema_type_id

pub num_keys-insert :
    (mapper : KeyMapper) (key : Text) (v : ℕ)
    → num_keys (insert mapper key v) ≤ suc (num_keys mapper)
num_keys-insert [] key v = omega arith
num_keys-insert ((k, w) ∷ rest) key v = ground (arith, num_keys-insert rest key v)

pub num_keys-with_id :
    (mapper : KeyMapper) (key : Text) → num_keys (with_id mapper key) ≤ suc (num_keys mapper)
num_keys-with_id mapper key = ground (arith, num_keys-insert mapper key (num_keys mapper))

-- The ids of a mapper are below its number of keys.
abbrev pub Dense : KeyMapper → Type 0
Dense mapper = (key : Text) (id : ℕ) → find mapper key ≡ some id → id < num_keys mapper

num_keys-grows :
    (mapper : KeyMapper) (key : Text) (v : ℕ)
    → find mapper key ≡ none
    → num_keys (insert mapper key v) ≡ suc (num_keys mapper)
num_keys-grows [] key v unknown = refl
num_keys-grows ((k, w) ∷ rest) key v unknown = elim (Bool-cases (text_eq k key)) [
  | inl same ↦ absurd (some_is_none w unknown (rw same refl))
  | inr differ ↦ rw differ (ap suc (num_keys-grows rest key v (sym (rw differ refl) ∙ unknown)))
]

pub Dense-with_id : (mapper : KeyMapper) (key : Text) → Dense mapper → Dense (with_id mapper key)
Dense-with_id mapper key dense other id there = elim (Option-cases (find mapper key)) [
  | inr (v, known) ↦
      let same : with_id mapper key ≡ mapper = rw (with_id, known) refl in
      subst (λ (m : KeyMapper). id < num_keys m) (sym same)
        (dense other id (ap (λ (m : KeyMapper). find m other) (sym same) ∙ there))
  | inl unknown ↦
      let same : with_id mapper key ≡ insert mapper key (num_keys mapper) =
        rw (with_id, unknown) refl in
      let more = num_keys-grows mapper key (num_keys mapper) unknown in
      let found_in : find (insert mapper key (num_keys mapper)) other ≡ some id =
        ap (λ (m : KeyMapper). find m other) (sym same) ∙ there in
      subst (λ (m : KeyMapper). id < num_keys m) (sym same)
        (elim (Bool-cases (text_eq key other)) [
          | inl equal ↦
              let is_new : some (num_keys mapper) ≡ some id =
                sym (find-insert mapper key other (num_keys mapper) ∙ rw equal refl) ∙ found_in in
              ground (arith, more, is_new)
          | inr differ ↦ omega (
            arith,
            more,
            dense other id
                (sym (find-insert mapper key other (num_keys mapper) ∙ rw differ refl) ∙ found_in),
          )
        ])
]

pub id_in-small :
    (mapper : KeyMapper) (key : Text) → Dense mapper → id_in mapper key ≤ num_keys mapper
id_in-small mapper key dense = elim (Option-cases (find mapper key)) [
  | inl unknown ↦ ground (arith, unknown)
  | inr (v, there) ↦ ground (arith, there, dense key v there)
]
