-- ===== src/Store/DocumentStore/Optimize/Keeps.antt =====
-- OptimizeInto of icing/store/document-store.cc: the new store shows what the old one does.
use external_icing.Base.{
  ℕ, zero, suc, ◌+◌, ◌≤◌, ◌<◌, ◌≡◌, refl, ap, sym, ◌∙◌, subst, Bool, true, false, Option, none,
  some, ltb, ◌==◌, if◌then◌else◌, arith, Option-cases, Bool-cases, inl, inr,
}
use external_icing.Hit.{max_document_id}
use external_icing.Store.{StatusOr, value, error, not_found, Text, lift, give, ◌>>◌}
use external_icing.Store.KeyMapper.{find}
use external_icing.Store.UsageStore.{
  UsageScores, default_usage, get_usage_scores, set_usage_scores, is_document_id_valid,
}
use external_icing.Store.UsageStore.Reports.{
  usage, get_usage_scores-usage, vector_set-stored, stored,
}
use external_icing.Store.DocumentStore.{
  Document, DocumentStore, Environment, make_fingerprint, clear_internal, get_by_id, get,
}
use external_icing.Store.DocumentStore.View.{
  visible, IsSound, get_by_id-visible, get_lem, found, lookup, visible_at,
}
use external_icing.Store.DocumentStore.Steps.{bind_ok}
use external_icing.Store.DocumentStore.Put.{put, internal_put, put_document, with_creation_time}
use external_icing.Store.DocumentStore.Put.Replaces.{put_document-new}
use external_icing.Store.DocumentStore.Put.Filed.{IsFiled}
use external_icing.Store.DocumentStore.Optimize.{
  empty_store, usage_eq, set_usage, put_kept, keep_document, optimize_loop, optimize_into,
}
use external_icing.Store.DocumentStore.Optimize.Rooms.{IsRoomy, kept, IsAccepted}
use external_icing.Store.DocumentStore.Optimize.Kept.{cleared, num_shown}
use external_icing.Store.DocumentStore.Optimize.Kept
use external_icing.Store.DocumentStore.Optimize.Carried.{after, after-Kept}

found-cleared : (o : Option Document) → clear_internal true (found o) ≡ found (cleared o)
found-cleared none = refl
found-cleared (some document) = refl

module _ (env : Environment) (old : DocumentStore) (now : ℕ) (count : Document → ℕ)
    (sound : IsSound old) (filed : IsFiled env old now)
    (roomy : IsRoomy env old.document_id_mapper.num_elements)
    (accepts : (id : ℕ) (document : Document)
      → visible old now id ≡ some document
      → IsAccepted env (kept count document)) where
  abbrev KeptAfter : ℕ → DocumentStore → Type 0
  KeptAfter = Kept.Kept env old now count sound filed roomy accepts

  abbrev tokens_of : Document → StatusOr ℕ
  tokens_of document = value (count document)

  -- A round that keeps a document.
  module _ (k : ℕ) (s : DocumentStore) (before : KeptAfter k s) (document : Document)
      (shown : visible old now k ≡ some document) where
    abbrev new_id : ℕ
    new_id = s.document_id_mapper.num_elements

    dated : with_creation_time now (kept count document) ≡ kept count document
    unfolding with_creation_time
    dated = rw (filed.created k document shown) refl

    internal_put-kept : internal_put env now (kept count document) s ≡ (
      value new_id,
      Kept.added env old now count sound filed roomy accepts k s before document shown,
    )
    unfolding internal_put
    internal_put-kept =
        let fits =
          Kept.kept-Fits env old now count sound filed roomy accepts k s before document shown in
        bind_ok (lift (env.validate (kept count document))) _ s
          (ap (λ (r : StatusOr (Unit {0})). (r, s)) (accepts k document shown).accepted)
        ∙ ap (λ (d : Document). put_document env now d s) dated
        ∙ put_document-new env s now (kept count document) before.is_sound fits
            (Kept.is_new env old now count sound filed roomy accepts k s before document shown)

    put_kept-internal :
        put_kept env tokens_of now document s ≡ internal_put env now (kept count document) s
    unfolding put_kept put
    put_kept-internal = elim (Bool-cases (document.length_in_tokens == 0)) [
      | inl unknown ↦ rw unknown refl
      | inr known ↦ rw known refl
    ]

    abbrev added : DocumentStore
    added = Kept.added env old now count sound filed roomy accepts k s before document shown

    abbrev next : DocumentStore
    next = after env old now count sound filed roomy accepts k s before document shown

    abbrev scores : UsageScores
    scores = usage old.usage_store k

    small : new_id ≤ max_document_id
    small =
        (Kept.kept-Fits env old now count sound filed roomy accepts k s before document
          shown).id_left

    set_usage-ok :
        set_usage new_id scores added
        ≡ (value tt, record added { usage_store = stored s.usage_store new_id small scores })
    unfolding set_usage set_usage_scores
    set_usage-ok =
        let valid : is_document_id_valid new_id ≡ true = ground (arith, small) in
        rw (set_usage, valid, vector_set-stored s.usage_store new_id small scores) refl

    carry :
        (if usage_eq scores default_usage then give tt else set_usage new_id scores) added
        ≡ (value tt, next)
    carry = elim (Bool-cases (usage_eq scores default_usage)) [
      | inl same ↦ rw same refl
      | inr differ ↦ rw differ set_usage-ok
    ]

    keep_document-after : keep_document env tokens_of old now k document s ≡ (value tt, next)
    unfolding keep_document
    keep_document-after =
        let valid : k ≤ max_document_id = omega (
          arith,
          sound.bounded,
          Kept.within env old now count sound filed roomy accepts k s before document shown,
        ) in
        bind_ok (put_kept env tokens_of now document) _ s (put_kept-internal ∙ internal_put-kept)
        ∙ bind_ok (lift (get_usage_scores old.usage_store k)) _ added (
            ap (λ (r : StatusOr UsageScores). (r, added))
              (get_usage_scores-usage old.usage_store k valid))
        ∙ carry

  abbrev size : ℕ
  size = old.document_id_mapper.num_elements

  abbrev Ends : StatusOr (Unit {0}) × DocumentStore → Type 0
  Ends r = (r.0 ≡ value tt) × KeptAfter size r.1

  optimize_loop_lem :
      (rounds k : ℕ) (s : DocumentStore)
      → k + rounds ≡ size
      → KeptAfter k s
      → Ends (optimize_loop env tokens_of old now rounds k s)
  unfolding optimize_loop
  optimize_loop_lem zero k s all before =
      (refl, subst (λ (n : ℕ). KeptAfter n s) (omega (arith, all)) before)
  optimize_loop_lem (suc rounds) k s all before =
      let within : k < size = omega (arith, all) in
      let rest = optimize_loop env tokens_of old now rounds (k + 1) in
      let got = get_by_id-visible old sound now k within false in
      elim (Option-cases (visible old now k)) [
        | inl hidden ↦
            let none_found : get_by_id old now k false ≡ error not_found =
              got ∙ ap (λ (d : Option Document). clear_internal false (found d)) hidden in
            let passed : KeptAfter (k + 1) s =
              subst (λ (n : ℕ). KeptAfter n s) (omega arith)
                (Kept.pass env old now count sound filed roomy accepts k s before hidden) in
            rw (optimize_loop, none_found)
              (optimize_loop_lem rounds (k + 1) s (omega (arith, all)) passed)
        | inr (document, shown) ↦
            let one_found : get_by_id old now k false ≡ value document =
              got ∙ ap (λ (d : Option Document). clear_internal false (found d)) shown in
            let next' : DocumentStore =
              after env old now count sound filed roomy accepts k s before document shown in
            let kept_next : KeptAfter (k + 1) next' =
              subst (λ (n : ℕ). KeptAfter n next') (omega arith)
                (after-Kept env old now count sound filed roomy accepts k s before document
                  shown) in
            let goes_on : (keep_document env tokens_of old now k document >> rest) s ≡ rest next' =
              bind_ok (keep_document env tokens_of old now k document) (λ _. rest) s
                (keep_document-after k s before document shown) in
            rw (optimize_loop, one_found)
              (subst Ends (sym goes_on)
                (optimize_loop_lem rounds (k + 1) next' (omega (arith, all)) kept_next))
      ]

  shown_before-lookup :
      (later : ℕ) (o : Option ℕ)
      → ((id : ℕ) → o ≡ some id → id < size)
      → Kept.shown_before env old now count sound filed roomy accepts size later o
        ≡ visible_at old later o
  shown_before-lookup later none known = refl
  shown_before-lookup later (some id) known =
      let below : ltb id size ≡ true = ground (arith, known id refl) in
      ap (λ (b : Bool). if b then visible old later id else none) below

  get-Kept :
      (s : DocumentStore) (later : ℕ) (name_space uri : Text) (clear : Bool)
      → KeptAfter size s
      → now ≤ later
      → get env s later name_space uri clear ≡ get env old later name_space uri clear
  get-Kept s later name_space uri clear end h =
      let key = make_fingerprint env name_space uri in
      get_lem env s later name_space uri clear end.is_sound
      ∙ found-cleared (lookup s later key)
      ∙ ap found (
          end.shows later key h
          ∙ ap cleared (
              shown_before-lookup later (find old.document_key_mapper key)
                (λ id there. sound.known key id there)))
      ∙ sym (found-cleared (lookup old later key))
      ∙ sym (get_lem env old later name_space uri clear sound)

  -- OptimizeInto a new, empty store, of a sound store in which each document that exists has the id of
  -- its key, its own time of expiration and a creation time, where the tokenizer succeeds, the tries
  -- have room for as many keys as there are ids, and each document that exists is accepted again: it
  -- succeeds; the new store is sound, has an id for each document that exists and no more, and from then
  -- on Get gives of any namespace and uri what it gives of the old store; and a key that both have has
  -- the same usage scores.
  pub optimize_into_lem :
      let (result, new) = optimize_into env tokens_of old now in
      (result ≡ value tt)
      × IsSound new
      × (new.document_id_mapper.num_elements ≡ num_shown old now size)
      × ((later : ℕ) (name_space uri : Text) (clear : Bool)
          → now ≤ later
          → get env new later name_space uri clear ≡ get env old later name_space uri clear)
      × ((key : Text) (old_id id : ℕ)
          → find old.document_key_mapper key ≡ some old_id
          → find new.document_key_mapper key ≡ some id
          → usage new.usage_store id ≡ usage old.usage_store old_id)
  unfolding optimize_into
  optimize_into_lem =
      let new = (optimize_into env tokens_of old now).1 in
      let (done, end) =
        optimize_loop_lem size 0 empty_store (omega arith)
          (Kept.empty_store-Kept env old now count sound filed roomy accepts) in
      (
        done,
        end.is_sound,
        end.exact,
        λ later name_space uri clear h. get-Kept new later name_space uri clear end h,
        end.scores,
      )
