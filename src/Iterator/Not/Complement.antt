-- ===== src/Iterator/Not/Complement.antt =====
-- The NOT of an iterator enumerates the documents up to the limit that the iterator does not have.
use external_icing.Base.{
  ℕ, zero, suc, ◌≤◌, ◌<◌, ◌≡◌, refl, sym, ap, ◌∙◌, subst, false, List, [], ◌∷◌, none, some, arith,
  ltb, ◌==◌, Bool-cases, inl, inr, trichotomy, below, same, above, ==_iff, lt→ne, lt→ne', length,
}
use external_icing.Hit.{invalid_document_id, max_document_id}
use external_icing.DocHitInfo.{doc_hit_info, invalid_doc_hit_info, section_id_mask_none}
use external_icing.Iterator.{
  Match, doc, no_match, Below, Status, ok, resource_exhausted, Operations, Enumerates, Moves,
  loop_fuel,
}
use external_icing.Iterator.Matches.{find, find-Below, Below-mono}
use external_icing.Iterator.Advance.{length-lt-loop_fuel, loop_fuel-bound}
use external_icing.Iterator.AllDocumentId.{
  AllDocumentId, AllYields, all_operations, all_operations-Enumerates, all_advance, descending,
  plain, make_all-AllYields, make_all, plain-doc,
}
use external_icing.Iterator.Not.{
  Not, catch_up, not_end, not_loop, not_advance, not_operations, make_not,
}
use external_icing.Iterator.Not.Missing.{
  missing, missing-hit, missing-miss, missing-cons, missing-Below,
}

length-descending : (k : ℕ) → length (descending k) ≡ k
length-descending zero = refl
length-descending (suc k) = ap suc (length-descending k)

module _ {S : Type 0} (it : Operations S) (Yields : S → List Match → Type 0)
    (law : Enumerates S it Yields) where
  -- What is before the NOT: the documents below `k` that the excluded iterator neither stands at
  -- nor has before it.
  pub record NotYields (n : Not S) (ms : List Match) : Type 0 where
    pub k : ℕ
    pub es : List Match
    pub all_yields : AllYields n.all_document_id_iterator (descending k)
    pub excluded_yields : Yields n.to_be_excluded es
    pub excluded_below : Below k es
    pub rest : ms ≡ missing k (it.current n.to_be_excluded ∷ es)
    pub mask_none : n.base.intersect_mask ≡ section_id_mask_none
    pub falls : Below (doc n.base) ms
    pub bound : doc n.base ≤ invalid_document_id

  abbrev CaughtUp : ℕ → S → List Match → S → Type 0
  CaughtUp n e es e' =
      (es' : List Match) × Yields e' es'
      × Below n es'
      × (missing (suc n) (it.current e ∷ es) ≡ missing (suc n) (it.current e' ∷ es'))

  -- One call is enough for the excluded iterator to catch up with the next document.
  catch_up_lem :
      (n : ℕ) (e : S) (es : List Match)
      → n < invalid_document_id
      → Yields e es
      → Below (suc n) es
      → CaughtUp n e es (catch_up it n e)
  unfolding catch_up
  catch_up_lem n e [] h y b = elim (Bool-cases (ltb n (doc (it.current e)))) [
    | inl behind ↦
        let moves = law.step e [] y in
        rw behind (
          [],
          moves.2,
          tt,
          missing-cons (suc n) (it.current e) [] (ground arith)
              ∙ sym
                  (missing-cons (suc n) (it.current (it.advance e).1) [] (omega (arith, moves.1))),
        )
    | inr level ↦ rw level ([], y, tt, refl)
  ]
  catch_up_lem n e (m ∷ es) h y b = elim (Bool-cases (ltb n (doc (it.current e)))) [
    | inl behind ↦
        let moves = law.step e (m ∷ es) y in
        rw behind (
          es,
          moves.2,
          Below-mono (doc m) n es (omega arith) b.1,
          missing-cons (suc n) (it.current e) (m ∷ es) (ground arith)
              ∙ ap (λ z. missing (suc n) (z ∷ es)) (sym moves.1),
        )
    | inr level ↦ rw level (
      m ∷ es,
      y,
      Below-mono (doc (it.current e)) n (m ∷ es) (ground arith) (law.falling e (m ∷ es) y),
      refl,
    )
  ]

  abbrev Steps : List Match → Status × Not S → Type 0
  Steps = Moves (not_operations it) NotYields

  by_equations :
      (ms ms' : List Match) (r r' : Status × Not S) → ms ≡ ms' → r ≡ r' → Steps ms' r' → Steps ms r
  by_equations ms ms' r r' e k h = rw (e, k) h

  -- The loop has run out of documents.
  ends :
      (e : S) (a : AllDocumentId) (es : List Match) (base : Match)
      → AllYields a []
      → Yields e es
      → Below 0 es
      → base.intersect_mask ≡ section_id_mask_none
      → Steps [] (not_end it resource_exhausted e a base)
  unfolding not_end invalid_doc_hit_info doc_hit_info
  ends e a es base p q b mask = (
    refl,
    refl,
    record {
      k = 0;
      es = es;
      all_yields = p;
      excluded_yields = q;
      excluded_below = b;
      rest = refl;
      mask_none = mask;
      falls = tt;
      bound = omega arith;
    },
  )

  -- The loop has found a document that is not excluded.
  finds :
      (n : ℕ) (e : S) (a : AllDocumentId) (es : List Match) (base : Match)
      → a.base ≡ plain n
      → n < invalid_document_id
      → AllYields a (descending n)
      → Yields e es
      → Below n es
      → base.intersect_mask ≡ section_id_mask_none
      → Steps (plain n ∷ missing n (it.current e ∷ es)) (
        ok,
        record {
          to_be_excluded = e;
          all_document_id_iterator = a;
          base = record base { info = a.base.info };
        },
      )
  unfolding plain no_match
  finds n e a es base at h p q b mask = (
    refl,
    (λ i. record { info = (at i).info; intersect_mask = mask i }),
    record {
      k = n;
      es = es;
      all_yields = p;
      excluded_yields = q;
      excluded_below = b;
      rest = refl;
      mask_none = mask;
      falls = rw (ap doc at) (missing-Below n n (it.current e ∷ es) (omega arith));
      bound = rw (ap doc at) (omega arith);
    },
  )

  not_loop_lem :
      (fuel k : ℕ) (e : S) (a : AllDocumentId) (es : List Match) (base : Match)
      → k < fuel
      → k ≤ invalid_document_id
      → AllYields a (descending k)
      → Yields e es
      → Below k es
      → base.intersect_mask ≡ section_id_mask_none
      → Steps (missing k (it.current e ∷ es)) (not_loop it fuel e a base)
  unfolding not_loop
  not_loop_lem zero k e a es base f h p q b mask = absurd (omega arith)
  not_loop_lem (suc fuel) zero e a es base f h p q b mask =
      let all = all_operations-Enumerates.step a [] p in
      let a' = (all_advance a).1 in
      by_equations [] [] _ (not_end it resource_exhausted e a' base) refl (ground (arith, all.0))
        (ends e a' es base all.2 q b mask)
  not_loop_lem (suc fuel) (suc n) e a es base f h p q b mask =
      let all = all_operations-Enumerates.step a (plain n ∷ descending n) p in
      let a' = (all_advance a).1 in
      let e' = catch_up it n e in
      let caught = catch_up_lem n e es (omega arith) q b in
      let at : doc a'.base ≡ n = ap doc all.1 ∙ plain-doc n in
      let same_call = ap (λ (d : ℕ). catch_up it d e) at in
      elim (trichotomy n (doc (it.current e'))) [
        | below c ↦ passed all at same_call caught (lt→ne n _ c) (lt→ne' _ n c)
        | same c ↦
            let here : find n (it.current e' ∷ caught.0) ≡ some (it.current e') =
              rw ((==_iff _ n).1 (sym c)) in
            by_equations _ (missing n (it.current e' ∷ caught.0)) _ (not_loop it fuel e' a' base)
              (caught.3 ∙ missing-hit n (it.current e') (it.current e' ∷ caught.0) here)
              (ground (arith, all.0, at, same_call, c))
              (not_loop_lem fuel n e' a' caught.0 base (omega arith) (omega arith) all.2 caught.1
                caught.2 mask)
        | above c ↦ passed all at same_call caught (lt→ne' n _ c) (lt→ne _ n c)
      ]
    where
      passed :
          Moves all_operations AllYields (plain n ∷ descending n) (all_advance a)
          → doc (all_advance a).1.base ≡ n
          → catch_up it (doc (all_advance a).1.base) e ≡ catch_up it n e
          → CaughtUp n e es (catch_up it n e)
          → (n == doc (it.current (catch_up it n e))) ≡ false
          → (doc (it.current (catch_up it n e)) == n) ≡ false
          → Steps (missing (suc n) (it.current e ∷ es)) (not_loop it (suc fuel) e a base)
      passed all at same_call caught c c' =
          let e' = catch_up it n e in
          let absent : find n (it.current e' ∷ caught.0) ≡ none =
            rw c' (find-Below n n caught.0 caught.2 (omega arith)) in
          by_equations _ (plain n ∷ missing n (it.current e' ∷ caught.0)) _
            (
              ok,
              record {
                to_be_excluded = e';
                all_document_id_iterator = (all_advance a).1;
                base = record base { info = (all_advance a).1.base.info };
              },
            )
            (caught.3 ∙ missing-miss n (it.current e' ∷ caught.0) absent)
            (ground (arith, all.0, at, same_call, c))
            (finds n e' (all_advance a).1 caught.0 base all.1 (omega arith) all.2 caught.1 caught.2
              mask)

  -- The NOT of an iterator that keeps the contract keeps it too.
  pub not_operations-Enumerates : Enumerates (Not S) (not_operations it) NotYields
  unfolding not_advance
  not_operations-Enumerates = record {
    falling = λ n ms v. v.falls;
    bounded = λ n ms v. v.bound;
    step = λ n ms v.
        let few =
          length-lt-loop_fuel all_operations AllYields all_operations-Enumerates
            n.all_document_id_iterator (descending v.k) v.all_yields in
        let k_fits : v.k < loop_fuel = rw (length-descending v.k) at few in
        subst (λ zs. Steps zs (not_advance it n)) (sym v.rest)
          (not_loop_lem loop_fuel v.k n.to_be_excluded n.all_document_id_iterator v.es n.base k_fits
            (loop_fuel-bound v.k k_fits) v.all_yields v.excluded_yields v.excluded_below
            v.mask_none);
  }

  -- A new NOT over an iterator that has not been advanced, and whose documents are all at most the
  -- limit, has all other documents up to the limit before it.
  pub make_not-NotYields :
      (e : S) (limit : ℕ) (es : List Match)
      → limit ≤ max_document_id
      → doc (it.current e) ≡ invalid_document_id
      → Yields e es
      → Below (suc limit) es
      → NotYields (make_not it e limit) (missing (suc limit) es)
  unfolding make_not no_match
  make_not-NotYields e limit es h start y b = record {
    k = suc limit;
    es = es;
    all_yields = subst (AllYields (make_all limit)) (ground arith) (make_all-AllYields limit);
    excluded_yields = y;
    excluded_below = b;
    rest = sym (missing-cons (suc limit) (it.current e) es (omega arith));
    mask_none = refl;
    falls = missing-Below invalid_document_id (suc limit) es (omega arith);
    bound = omega arith;
  }
