-- ===== src/Store/DocumentStore/Optimize/Kept.antt =====
-- OptimizeInto of icing/store/document-store.cc: what the new store has after some rounds.
use external_icing.Base.{
  ℕ, zero, suc, ◌+◌, ◌≤◌, ◌<◌, ◌≡◌, refl, ap, ap₂, sym, ◌∙◌, true, Option, none, some, ltb, leb,
  ◌==◌, if◌then◌else◌, arith, Option-cases, Bool-cases, inl, inr, [], get_or,
}
use external_icing.Store.{Text}
use external_icing.Store.KeyMapper.{find, num_keys}
use external_icing.Store.UsageStore.{UsageScores, default_usage}
use external_icing.Store.UsageStore.Reports.{usage, IsClean}
use external_icing.Store.DocumentStore.{
  Document, DocumentStore, Environment, make_fingerprint, calculate_expiration_timestamp_ms,
  is_past, clear_if,
}
use external_icing.Store.DocumentStore.View.{
  visible, lookup, IsSound, expiration_at, document_at, visible-some, some_is_none,
}
use external_icing.Store.DocumentStore.Steps.{written}
use external_icing.Store.DocumentStore.Put.Indexed.{Fits}
use external_icing.Store.DocumentStore.Put.Replaced.{indexed}
use external_icing.Store.DocumentStore.Put.Filed.{IsFiled}
use external_icing.Store.DocumentStore.Optimize.{empty_store, usage_eq}
use external_icing.Store.DocumentStore.Optimize.Rooms.{
  IsRoomy, kept, IsAccepted, Dense, id_in-small,
}

no_offset : (id offset : ℕ) → (if leb 0 id then none else get_or [] id (some 0)) ≡ some offset → ⊥
no_offset id offset there = ground arith

pub empty_store-IsSound : IsSound empty_store
empty_store-IsSound = record {
  aligned = refl;
  bounded = omega arith;
  known = λ key id there. cc;
  own = λ key key' id there there'. cc;
  stored = λ id offset there. absurd (no_offset id offset there);
  apart = λ id id' offset there there'. absurd (no_offset id offset there);
}

pub empty_store-IsFiled : (env : Environment) (now : ℕ) → IsFiled env empty_store now
empty_store-IsFiled env now = record {
  own_key = λ id d shown. absurd (some_is_none d (hidden id) shown);
  expires = λ id d shown. absurd (some_is_none d (hidden id) shown);
  created = λ id d shown. absurd (some_is_none d (hidden id) shown);
}
  where
    hidden : (id : ℕ) → visible empty_store now id ≡ none
    hidden id = ground arith

-- A document as Get by namespace and uri gives it.
abbrev pub cleared : Option Document → Option Document
cleared none = none
cleared (some document) = some (clear_if true document)

abbrev one_if : Option Document → ℕ
one_if none = 0
one_if (some document) = 1

-- How many of the first ids of a store have a document that exists.
abbrev pub num_shown : DocumentStore → ℕ → ℕ → ℕ
num_shown s now zero = 0
num_shown s now (suc k) = num_shown s now k + one_if (visible s now k)

module _ (env : Environment) (old : DocumentStore) (now : ℕ) (count : Document → ℕ)
    (sound : IsSound old) (filed : IsFiled env old now)
    (roomy : IsRoomy env old.document_id_mapper.num_elements)
    (accepts : (id : ℕ) (document : Document)
      → visible old now id ≡ some document
      → IsAccepted env (kept count document)) where
  abbrev pub size : ℕ
  size = old.document_id_mapper.num_elements

  num_shown-small : (k : ℕ) → num_shown old now k ≤ k
  num_shown-small zero = omega arith
  num_shown-small (suc k) = ground (arith, num_shown-small k)

  -- What one of the first ids shows later.
  abbrev pub shown_before : ℕ → ℕ → Option ℕ → Option Document
  shown_before k later none = none
  shown_before k later (some id) = if ltb id k then visible old later id else none

  -- The new store after so many rounds.
  pub record Kept (k : ℕ) (s : DocumentStore) : Type 0 where
    pub is_sound : IsSound s
    pub exact : s.document_id_mapper.num_elements ≡ num_shown old now k
    pub from_old :
        (key : Text) (id : ℕ)
        → find s.document_key_mapper key ≡ some id
        → (old_id : ℕ) × (find old.document_key_mapper key ≡ some old_id) × (old_id < k)
    pub shows :
        (later : ℕ) (key : Text)
        → now ≤ later
        → cleared (lookup s later key)
          ≡ cleared (shown_before k later (find old.document_key_mapper key))
    pub few_keys : num_keys s.document_key_mapper ≤ k
    pub few_namespaces : num_keys s.namespace_mapper ≤ k
    pub few_corpora : num_keys s.corpus_mapper ≤ k
    pub dense : Dense s.corpus_mapper
    pub clean : IsClean s.usage_store
    pub fresh : s.usage_store.num_elements ≤ s.document_id_mapper.num_elements
    pub scores :
        (key : Text) (old_id id : ℕ)
        → find old.document_key_mapper key ≡ some old_id
        → find s.document_key_mapper key ≡ some id
        → usage s.usage_store id ≡ usage old.usage_store old_id

  pub empty_store-Kept : Kept 0 empty_store
  empty_store-Kept = record {
    is_sound = empty_store-IsSound;
    exact = refl;
    from_old = λ key id there. cc;
    shows = λ later key h. elim (Option-cases (find old.document_key_mapper key)) [
      | inl unknown ↦ ap (λ (o : Option ℕ). cleared (shown_before 0 later o)) (sym unknown)
      | inr (id, there) ↦
          ground arith ∙ ap (λ (o : Option ℕ). cleared (shown_before 0 later o)) (sym there)
    ];
    few_keys = omega arith;
    few_namespaces = omega arith;
    few_corpora = omega arith;
    dense = λ key id there. cc;
    clean = record { blank_behind = λ id h. ground arith };
    fresh = omega arith;
    scores = λ key old_id id there there'. cc;
  }

  hidden_later :
      (id later : ℕ) → now ≤ later → visible old now id ≡ none → visible old later id ≡ none
  hidden_later id later h hidden = elim (Option-cases (expiration_at old id)) [
    | inl gone ↦ rw gone refl
    | inr (time, at) ↦ ground (arith, at, hidden, h)
  ]

  -- A round for an id that shows nothing.
  module _ (k : ℕ) (s : DocumentStore) (before : Kept k s) where
    shown_before-hidden :
        (later : ℕ) (o : Option ℕ)
        → now ≤ later
        → visible old now k ≡ none
        → shown_before (suc k) later o ≡ shown_before k later o
    shown_before-hidden later none h hidden = refl
    shown_before-hidden later (some id) h hidden = elim (Bool-cases (id == k)) [
      | inl same ↦
          let gone : visible old later id ≡ none =
            ap (visible old later) (ground (arith, same)) ∙ hidden_later k later h hidden in
          ap (λ (d : Option Document). if ltb id (suc k) then d else none) gone
          ∙ ground arith
          ∙ ap (λ (d : Option Document). if ltb id k then d else none) (sym gone)
      | inr differ ↦ let same : ltb id (suc k) ≡ ltb id k = ground arith in rw same refl
    ]

    pub pass : visible old now k ≡ none → Kept (suc k) s
    pass hidden = record {
      is_sound = before.is_sound;
      exact = before.exact ∙ ground (arith, hidden);
      from_old = λ key id there.
          let (old_id, at, below) = before.from_old key id there in (old_id, at, omega arith);
      shows = λ later key h.
          before.shows later key h
          ∙ ap cleared
              (sym (shown_before-hidden later (find old.document_key_mapper key) h hidden));
      few_keys = omega (arith, before.few_keys);
      few_namespaces = omega (arith, before.few_namespaces);
      few_corpora = omega (arith, before.few_corpora);
      dense = before.dense;
      clean = before.clean;
      fresh = before.fresh;
      scores = before.scores;
    }

    -- A round for an id that shows a document.
    module _ (document : Document) (shown : visible old now k ≡ some document) where
      pub accepted : IsAccepted env (kept count document)
      accepted = accepts k document shown

      abbrev pub key : Text
      key = make_fingerprint env document.name_space document.uri

      pub own_key : find old.document_key_mapper key ≡ some k
      own_key = filed.own_key k document shown

      pub within : k < size
      within = sound.known key k own_key

      pub few : s.document_id_mapper.num_elements ≤ k
      few = omega (arith, before.exact, num_shown-small k)

      pub kept-Fits : Fits env s (kept count document)
      kept-Fits = record {
        small = accepted.small;
        small_stored = accepted.small_stored;
        id_left = omega (arith, few, within, sound.bounded);
        key_room =
            roomy.key_room s.document_key_mapper key (omega (arith, before.few_keys, within));
        namespace_room =
            roomy.namespace_room s.namespace_mapper document.name_space
              (omega (arith, before.few_namespaces, within));
        corpus_room =
            roomy.corpus_room s.corpus_mapper
              (make_fingerprint env document.name_space document.schema)
              (omega (arith, before.few_corpora, within));
        corpus_id_left = omega (
          arith,
          id_in-small s.corpus_mapper (make_fingerprint env document.name_space document.schema)
              before.dense,
          before.few_corpora,
          within,
          sound.bounded,
        );
        schema_type_id = accepted.schema_type_id;
        typed = accepted.typed;
      }

      -- The key is new in the new store.
      pub is_new : find s.document_key_mapper key ≡ none
      is_new = elim (Option-cases (find s.document_key_mapper key)) [
        | inl unknown ↦ unknown
        | inr (id, there) ↦
            let (old_id, at, below) = before.from_old key id there in
            let same : some old_id ≡ some k = sym at ∙ own_key in
            absurd (ground (arith, same, below))
      ]

      abbrev pub added : DocumentStore
      added = indexed env s (kept count document) kept-Fits before.is_sound

      -- With the usage scores of the old id, if there are any.
      abbrev pub carried : UsageScores → DocumentStore
      carried scores = record added {
        usage_store =
            if usage_eq scores default_usage
            then s.usage_store
            else written default_usage s.usage_store s.document_id_mapper.num_elements scores;
      }

      pub shown_later :
          (later : ℕ)
          → visible old later k ≡ (
              if leb
                (calculate_expiration_timestamp_ms document.creation_timestamp_ms document.ttl_ms)
                later
              then none
              else some document)
      shown_later later =
          let (offset, at, alive, below, there) =
            visible-some old sound now k within document shown in
          let expires = filed.expires k document shown in
          ap₂ (λ (e o : Option ℕ). if is_past later e then none else document_at old.document_log o)
            expires at
          ∙ ground (arith, there)
