-- ===== src/Store/DocumentStore/Optimize/Carried.antt =====
-- OptimizeInto of icing/store/document-store.cc: a round that keeps a document.
use external_icing.Base.{
  ℕ, suc, ◌≤◌, ◌≡◌, refl, ap, sym, ◌∙◌, subst, Bool, true, false, Option, none, some, ltb, leb,
  ◌==◌, if◌then◌else◌, arith, Bool-cases, inl, inr, ◌⊎◌,
}
use external_icing.Hit.{max_document_id}
use external_icing.Store.{Text, text_eq, text_eq_iff}
use external_icing.Store.KeyMapper.{find}
use external_icing.Store.UsageStore.{UsageScores, default_usage}
use external_icing.Store.UsageStore.Reports.{usage, IsClean, stored, usage-stored, IsClean-stored}
use external_icing.Store.DocumentStore.{
  Document, DocumentStore, Environment, make_fingerprint, calculate_expiration_timestamp_ms,
}
use external_icing.Store.DocumentStore.View.{visible, lookup, IsSound}
use external_icing.Store.DocumentStore.Put.Indexed.{Fits, lookup-indexed}
use external_icing.Store.DocumentStore.Put.Replaced.{IsSound-indexed, known_or_new}
use external_icing.Store.DocumentStore.Put.Filed.{IsFiled}
use external_icing.Store.DocumentStore.Optimize.{usage_eq}
use external_icing.Store.DocumentStore.Optimize.Rooms.{
  IsRoomy, kept, IsAccepted, num_keys-insert, num_keys-with_id, Dense-with_id,
}
use external_icing.Store.DocumentStore.Optimize.Kept.{cleared}
use external_icing.Store.DocumentStore.Optimize.Kept

usage_eq_lem : (a b : UsageScores) → usage_eq a b ≡ true → a ≡ b
usage_eq_lem a b h = ground arith

module _ (env : Environment) (old : DocumentStore) (now : ℕ) (count : Document → ℕ)
    (sound : IsSound old) (filed : IsFiled env old now)
    (roomy : IsRoomy env old.document_id_mapper.num_elements)
    (accepts : (id : ℕ) (document : Document)
      → visible old now id ≡ some document
      → IsAccepted env (kept count document))
    (k : ℕ) (s : DocumentStore) (before : Kept.Kept env old now count sound filed roomy accepts k s)
    (document : Document) (shown : visible old now k ≡ some document) where
  abbrev added : DocumentStore
  added = Kept.added env old now count sound filed roomy accepts k s before document shown

  abbrev scores : UsageScores
  scores = usage old.usage_store k

  abbrev pub after : DocumentStore
  after = Kept.carried env old now count sound filed roomy accepts k s before document shown scores

  abbrev new_id : ℕ
  new_id = s.document_id_mapper.num_elements

  abbrev key : Text
  key = make_fingerprint env document.name_space document.uri

  fits : Fits env s (kept count document)
  fits = Kept.kept-Fits env old now count sound filed roomy accepts k s before document shown

  own_key : find old.document_key_mapper key ≡ some k
  own_key = Kept.own_key env old now count sound filed roomy accepts k s before document shown

  small : new_id ≤ max_document_id
  small = fits.id_left

  IsSound-after : IsSound after
  IsSound-after =
      let is_sound =
        IsSound-indexed env s (kept count document)
          (Kept.kept-Fits env old now count sound filed roomy accepts k s before document shown)
          before.is_sound in
      record {
        aligned = is_sound.aligned;
        bounded = is_sound.bounded;
        known = is_sound.known;
        own = is_sound.own;
        stored = is_sound.stored;
        apart = is_sound.apart;
      }

  -- The new id has the scores, and the ids before it those that they had.
  usage-after :
      (id : ℕ)
      → id ≤ new_id
      → usage after.usage_store id ≡ (if new_id == id then scores else usage s.usage_store id)
  usage-after id h = elim (Bool-cases (usage_eq scores default_usage)) [
    | inr differ ↦
        ap
          (λ (b : Bool).
            usage (if b then s.usage_store else stored s.usage_store new_id small scores) id)
          differ
        ∙ usage-stored s.usage_store new_id small before.clean scores id
    | inl same ↦
        let is_default = usage_eq_lem scores default_usage same in
        ap
          (λ (b : Bool).
            usage (if b then s.usage_store else stored s.usage_store new_id small scores) id)
          same
        ∙ ground (arith, is_default, before.fresh)
  ]

  IsClean-after : IsClean after.usage_store
  IsClean-after = elim (Bool-cases (usage_eq scores default_usage)) [
    | inr differ ↦
        subst
          (λ (b : Bool).
            IsClean (if b then s.usage_store else stored s.usage_store new_id small scores))
          (sym differ) (IsClean-stored s.usage_store new_id small before.clean scores)
    | inl same ↦
        subst
          (λ (b : Bool).
            IsClean (if b then s.usage_store else stored s.usage_store new_id small scores))
          (sym same) before.clean
  ]

  -- A key of the new store is the document's or was there before.
  old_or_own :
      (other : Text) (id : ℕ)
      → find after.document_key_mapper other ≡ some id
      → ((other ≡ key) × (id ≡ new_id)) ⊎ (find s.document_key_mapper other ≡ some id)
  old_or_own other id there =
      known_or_new env s (kept count document)
        (Kept.kept-Fits env old now count sound filed roomy accepts k s before document shown)
        before.is_sound other id there

  is_k :
      (other : Text) (id : ℕ) → other ≡ key → find old.document_key_mapper other ≡ some id → id ≡ k
  is_k other id same there =
      let both : some id ≡ some k = sym there ∙ ap (find old.document_key_mapper) same ∙ own_key in
      ground (arith, both)

  abbrev expiration : ℕ
  expiration = calculate_expiration_timestamp_ms document.creation_timestamp_ms document.ttl_ms

  both_cleared :
      (past : Bool)
      → cleared (if past then none else some (kept count document))
        ≡ cleared (if past then none else some document)
  both_cleared true = refl
  both_cleared false = refl

  shown_now :
      (later : ℕ)
      → cleared (if leb expiration later then none else some (kept count document))
        ≡ cleared (visible old later k)
  shown_now later =
      let there =
        Kept.shown_later env old now count sound filed roomy accepts k s before document shown
          later in
      both_cleared (leb expiration later) ∙ sym (ap cleared there)

  abbrev shown_until : ℕ → ℕ → Option ℕ → Option Document
  shown_until = Kept.shown_before env old now count sound filed roomy accepts

  others :
      (later : ℕ) (other : Text) (o : Option ℕ)
      → find old.document_key_mapper other ≡ o
      → text_eq key other ≡ false
      → shown_until (suc k) later o ≡ shown_until k later o
  others later other none at differ = refl
  others later other (some id) at differ = elim (Bool-cases (id == k)) [
    | inl same ↦
        let equal : key ≡ other =
          sound.own key other k own_key (at ∙ ap some (ground (arith, same))) in
        absurd (ground (arith, differ, (text_eq_iff key other).1 equal))
    | inr apart ↦
        let same : ltb id (suc k) ≡ ltb id k = ground arith in
        ap (λ (b : Bool). if b then visible old later id else none) same
  ]

  shows_after :
      (later : ℕ) (other : Text)
      → now ≤ later
      → cleared (lookup after later other)
        ≡ cleared (shown_until (suc k) later (find old.document_key_mapper other))
  shows_after later other h =
      let added_shows =
        lookup-indexed env s (kept count document)
          (Kept.kept-Fits env old now count sound filed roomy accepts k s before document shown)
          before.is_sound later other in
      ap cleared added_shows ∙ elim (Bool-cases (text_eq key other)) [
        | inl same ↦
            let equal : key ≡ other = (text_eq_iff key other).0 same in
            let at : find old.document_key_mapper other ≡ some k =
              ap (find old.document_key_mapper) (sym equal) ∙ own_key in
            let below : ltb k (suc k) ≡ true = ground arith in
            rw same (shown_now later)
            ∙ sym (
                ap (λ (o : Option ℕ). cleared (shown_until (suc k) later o)) at
                ∙ ap (λ (b : Bool). cleared (if b then visible old later k else none)) below)
        | inr differ ↦
            rw differ (before.shows later other h)
            ∙ ap cleared (sym (others later other (find old.document_key_mapper other) refl differ))
      ]

  pub after-Kept : Kept.Kept env old now count sound filed roomy accepts (suc k) after
  after-Kept = record {
    is_sound = IsSound-after;
    exact = ground (arith, before.exact, shown);
    from_old = λ other id there. elim (old_or_own other id there) [
      | inl (same, _) ↦ (k, ap (find old.document_key_mapper) same ∙ own_key, omega arith)
      | inr earlier ↦
          let (old_id, at, below) = before.from_old other id earlier in
          (old_id, at, omega (arith, below))
    ];
    shows = shows_after;
    few_keys = omega (arith, before.few_keys, num_keys-insert s.document_key_mapper key new_id);
    few_namespaces =
        omega
          (arith, before.few_namespaces, num_keys-with_id s.namespace_mapper document.name_space);
    few_corpora = omega (
      arith,
      before.few_corpora,
      num_keys-with_id s.corpus_mapper (make_fingerprint env document.name_space document.schema),
    );
    dense =
        Dense-with_id s.corpus_mapper (make_fingerprint env document.name_space document.schema)
          before.dense;
    clean = IsClean-after;
    fresh = ground (arith, before.fresh);
    scores = λ other old_id id at there. elim (old_or_own other id there) [
      | inl (same, is_new) ↦
          let is_own : old_id ≡ k = is_k other old_id same at in
          usage-after id (omega (arith, is_new))
          ∙ ground (arith, is_new)
          ∙ ap (usage old.usage_store) (sym is_own)
      | inr earlier ↦
          let below = before.is_sound.known other id earlier in
          usage-after id (omega (arith, below))
          ∙ ground (arith, below)
          ∙ before.scores other old_id id at earlier
    ];
  }
