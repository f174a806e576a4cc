-- ===== src/Store/DocumentStore/Put/Replaced.antt =====
-- InternalPut of icing/store/document-store.cc: the new document is in the log and indexed, and the old one is replaced.
use external_icing.Base.{
  ℕ, ◌<◌, ◌≡◌, refl, ap, sym, ◌∙◌, subst, Bool, true, false, not, Option, none, some, ◌==◌, arith,
  Option-cases, Bool-cases, inl, inr, ◌⊎◌,
}
use external_icing.Store.{StatusOr, value, Text, text_eq, text_eq_iff, ◌>>=◌, ◌>>◌, Method}
use external_icing.Store.KeyMapper.{find}
use external_icing.Store.DocumentStore.{Document, DocumentStore, Environment}
use external_icing.Store.DocumentStore.Steps.{bind_ok, written}
use external_icing.Store.{give, gets, fail_if, internal, resource_exhausted}
use external_icing.Store.KeyMapper.{or_not_found, mapper_get}
use external_icing.Store.UsageStore.{is_document_id_valid, default_usage}
use external_icing.Store.DocumentStore.{get_document_id}
use external_icing.Store.DocumentStore.Caches.{write_document, clone_usage}
use external_icing.Store.DocumentStore.Steps.{write_document-ok, clone_usage-ok, usage_of}
use external_icing.Store.DocumentStore.Delete.{delete_by_id}
use external_icing.Store.DocumentStore.Delete.Erased.{
  erased, delete_by_id-visible, delete_by_id-hidden, visible-erased, IsSound-erased,
}
use external_icing.Store.DocumentStore.View.{offset_at, visible, visible_at, lookup, IsSound}
use external_icing.Store.DocumentStore.Put.{
  replace_old, is_real_error, put_document, ignore_not_found, ignored, index_document,
}
use external_icing.Store.DocumentStore.Put.Indexed

module _ (env : Environment) (s : DocumentStore) (document : Document)
    (fits : Indexed.Fits env s document) (sound : IsSound s) where
  abbrev pub key : Text
  key = Indexed.key env s document fits

  abbrev pub new_id : ℕ
  new_id = Indexed.new_id env s document fits

  abbrev pub indexed : DocumentStore
  indexed = Indexed.indexed env s document fits

  -- What an offset or an id in the new store was in the old one.
  old_or_new :
      (id o : ℕ)
      → offset_at indexed id ≡ some o
      → ((id ≡ new_id) × (o ≡ Indexed.offset env s document fits)) ⊎ (offset_at s id ≡ some o)
  old_or_new id o there = elim (Bool-cases (new_id == id)) [
    | inl same ↦
        let equal : offset_at indexed id ≡ some (Indexed.offset env s document fits) =
          Indexed.offset_at-indexed env s document fits sound id ∙ rw same refl in
        inl (ground (arith, same), ground (arith, there, equal))
    | inr differ ↦
        inr (sym (Indexed.offset_at-indexed env s document fits sound id ∙ rw differ refl) ∙ there)
  ]

  pub known_or_new :
      (other : Text) (id : ℕ)
      → find indexed.document_key_mapper other ≡ some id
      → ((other ≡ key) × (id ≡ new_id)) ⊎ (find s.document_key_mapper other ≡ some id)
  known_or_new other id there = elim (Bool-cases (text_eq key other)) [
    | inl same ↦
        let equal : some new_id ≡ some id =
          sym (Indexed.find-indexed env s document fits sound other ∙ rw same refl) ∙ there in
        inl (sym ((text_eq_iff key other).0 same), ground (arith, equal))
    | inr differ ↦
        inr (sym (Indexed.find-indexed env s document fits sound other ∙ rw differ refl) ∙ there)
  ]

  pub IsSound-indexed : IsSound indexed
  IsSound-indexed = record {
    aligned = ground (arith, sound.aligned);
    bounded = ground (arith, fits.id_left);
    known = λ other id there. elim (known_or_new other id there) [
      | inl (_, same) ↦ omega (arith, same)
      | inr before ↦ omega (arith, sound.known other id before)
    ];
    own = λ a b id there there'. elim (known_or_new a id there) [
      | inl (a_is, id_is) ↦ elim (known_or_new b id there') [
        | inl (b_is, _) ↦ a_is ∙ sym b_is
        | inr before ↦ absurd (omega (arith, sound.known b id before, id_is))
      ]
      | inr before ↦ elim (known_or_new b id there') [
        | inl (_, id_is) ↦ absurd (omega (arith, sound.known a id before, id_is))
        | inr before' ↦ sound.own a b id before before'
      ]
    ];
    stored = λ id o there. elim (old_or_new id o there) [
      | inl (_, o_is) ↦
          let same : (Indexed.offset env s document fits == o) ≡ true = ground (arith, o_is) in
          (omega (arith, o_is), document, rw same refl)
      | inr before ↦
          let (below, d, there) = sound.stored id o before in
          (
            omega (arith, below),
            d,
            Indexed.proto_at-indexed env s document fits sound id o before ∙ there,
          )
    ];
    apart = λ a b o there there'. elim (old_or_new a o there) [
      | inl (a_is, o_is) ↦ elim (old_or_new b o there') [
        | inl (b_is, _) ↦ a_is ∙ sym b_is
        | inr before ↦ absurd (omega (arith, (sound.stored b o before).0, o_is))
      ]
      | inr before ↦ elim (old_or_new b o there') [
        | inl (_, o_is) ↦ absurd (omega (arith, (sound.stored a o before).0, o_is))
        | inr before' ↦ sound.apart a b o before before'
      ]
    ];
  }

  -- A store that shows what the one with the new document does.
  abbrev pub Shows : StatusOr (Unit {0}) × DocumentStore → Type 0
  Shows r =
      (r.0 ≡ value tt)
      × IsSound r.1
      × ((now : ℕ) (other : Text) → lookup r.1 now other ≡ lookup indexed now other)

  module _ (old : ℕ) (had : find s.document_key_mapper key ≡ some old) where
    abbrev pub cloned : DocumentStore
    cloned = record indexed {
      usage_store = written default_usage s.usage_store new_id (usage_of indexed old);
    }

    pub old_below : old < new_id
    old_below = sound.known key old had

    pub IsSound-cloned : IsSound cloned
    IsSound-cloned = record {
      aligned = IsSound-indexed.aligned;
      bounded = IsSound-indexed.bounded;
      known = IsSound-indexed.known;
      own = IsSound-indexed.own;
      stored = IsSound-indexed.stored;
      apart = IsSound-indexed.apart;
    }

    -- No key has the old id any more.
    not_old :
        (other : Text) (id : ℕ)
        → find indexed.document_key_mapper other ≡ some id
        → (old == id) ≡ false
    not_old other id there = elim (Bool-cases (old == id)) [
      | inr differ ↦ differ
      | inl same ↦
          let equal : old ≡ id = ground (arith, same) in
          elim (known_or_new other id there) [
            | inl (_, id_is) ↦ absurd (omega (arith, id_is, equal, old_below))
            | inr before ↦
                let is_key : other ≡ key =
                  sound.own other key old (before ∙ ap some (sym equal)) had in
                let is_new : some id ≡ some new_id =
                  sym there
                  ∙ Indexed.find-indexed env s document fits sound other
                  ∙ rw ((text_eq_iff key other).1 (sym is_key)) refl in
                let id_is : id ≡ new_id = ground (arith, is_new) in
                absurd (omega (arith, id_is, equal, old_below))
          ]
    ]

    lookup-erased_old :
        (offset : ℕ)
        → offset_at cloned old ≡ some offset
        → (now : ℕ) (other : Text)
        → lookup (erased cloned old offset) now other ≡ lookup indexed now other
    lookup-erased_old offset at now other =
        elim (Option-cases (find indexed.document_key_mapper other)) [
          | inl unknown ↦
              ap (visible_at (erased cloned old offset) now) unknown
              ∙ sym (ap (visible_at indexed now) unknown)
          | inr (id, there) ↦
              ap (visible_at (erased cloned old offset) now) there
              ∙ visible-erased cloned IsSound-cloned old (omega (arith, old_below)) offset at now id
              ∙ rw (not_old other id there) refl
              ∙ sym (ap (visible_at indexed now) there)
        ]

    -- Replacing the old version is deleting it, once its scores are copied.
    pub replace_old-next :
        (now : ℕ)
        → replace_old now (value old) new_id indexed
          ≡ ignore_not_found (delete_by_id now old) cloned
    unfolding replace_old
    replace_old-next now =
        bind_ok (clone_usage old new_id) (λ _. ignore_not_found (delete_by_id now old)) indexed
          (clone_usage-ok indexed old new_id (omega (arith, old_below, fits.id_left)) fits.id_left)

    replace_old-some : (now : ℕ) → Shows (replace_old now (value old) new_id indexed)
    unfolding replace_old
    replace_old-some now =
        let within : old < cloned.document_id_mapper.num_elements = omega (arith, old_below) in
        subst Shows (sym (replace_old-next now)) (elim (Option-cases (visible cloned now old)) [
          | inl hidden ↦
              subst Shows
                (sym (ap ignored (delete_by_id-hidden cloned IsSound-cloned now old within hidden)))
                (refl, IsSound-cloned, λ later other. refl)
          | inr (d, shown) ↦
              let (offset, at, done) =
                delete_by_id-visible cloned IsSound-cloned now old within d shown in
              subst Shows (sym (ap ignored done)) (
                refl,
                IsSound-erased cloned IsSound-cloned old within offset at,
                lookup-erased_old offset at,
              )
        ])

  pub replace_old-Shows :
      (now : ℕ) (old : Option ℕ)
      → find s.document_key_mapper key ≡ old
      → Shows (replace_old now (or_not_found old) new_id indexed)
  unfolding replace_old
  replace_old-Shows now none had = (refl, IsSound-indexed, λ later other. refl)
  replace_old-Shows now (some old) had = replace_old-some old had now

  is_real_error-find : (old : Option ℕ) → is_real_error (or_not_found old) ≡ false
  is_real_error-find none = refl
  is_real_error-find (some old) = refl

  pub put_document-parts :
      (now : ℕ)
      → put_document env now document s
        ≡ (replace_old now (or_not_found (find s.document_key_mapper key)) new_id >> give new_id)
            indexed
  unfolding put_document get_document_id mapper_get
  put_document-parts now =
      let logged = Indexed.logged env s document fits in
      let old_id = or_not_found (find s.document_key_mapper key) in
      let no_error : is_real_error old_id ≡ false =
        is_real_error-find (find s.document_key_mapper key) in
      let id_left : not (is_document_id_valid new_id) ≡ false = ground (arith, fits.id_left) in
      let offset = Indexed.offset env s document fits in
      let at_end : Unit {0} → Method DocumentStore ℕ =
        λ _. replace_old now old_id new_id >> give new_id in
      let to_index : Unit {0} → Method DocumentStore ℕ =
        λ _. index_document env document new_id offset >>= at_end in
      let with_id : ℕ → Method DocumentStore ℕ = λ id.
        fail_if (not (is_document_id_valid id)) resource_exhausted
        >> (index_document env document id offset >> (replace_old now old_id id >> give id)) in
      let to_id : Unit {0} → Method DocumentStore ℕ =
        λ _. gets (λ t. t.document_id_mapper.num_elements) >>= with_id in
      let with_old : StatusOr ℕ → Method DocumentStore ℕ = λ old.
        fail_if (is_real_error old) internal
        >> (gets (λ t. t.document_id_mapper.num_elements) >>= λ id.
            fail_if (not (is_document_id_valid id)) resource_exhausted
            >> (index_document env document id offset >> (replace_old now old id >> give id))) in
      bind_ok (write_document env document) _ s
        (write_document-ok s env document fits.small fits.small_stored)
      ∙ bind_ok (gets (λ t. get_document_id env t document.name_space document.uri)) with_old logged
          refl
      ∙ bind_ok (fail_if (is_real_error old_id) internal) to_id logged
          (ap (λ (b : Bool). fail_if {S = DocumentStore} b internal logged) no_error)
      ∙ bind_ok (gets (λ t. t.document_id_mapper.num_elements)) with_id logged refl
      ∙ bind_ok (fail_if (not (is_document_id_valid new_id)) resource_exhausted) to_index logged
          (ap (λ (b : Bool). fail_if {S = DocumentStore} b resource_exhausted logged) id_left)
      ∙ bind_ok (index_document env document new_id offset) at_end logged
          (Indexed.index_document-ok env s document fits)
