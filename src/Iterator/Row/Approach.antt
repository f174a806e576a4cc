-- ===== src/Iterator/Row/Approach.antt =====
-- AdvanceTo on an iterator that may stand low enough, by what each document still has: the match that
-- the iterator stands at, or one before it.
use external_icing.Base.{
  ℕ, suc, ◌≤◌, ◌<◌, ◌≡◌, refl, sym, ap, ◌∙◌, subst, List, [], ◌∷◌, Option, none, arith, ltb,
  Bool-cases, inl, inr,
}
use external_icing.Hit.{invalid_document_id}
use external_icing.Iterator.{
  Match, doc, Below, Status, ok, resource_exhausted, invalid_argument, out_of_fuel, Operations,
  Enumerates, Moves, advance_to, loop_fuel,
}
use external_icing.Iterator.Matches.{find, find-Below, drop_above, find-drop_above, drop_above-fits}
use external_icing.Iterator.Advance.{advance_to_lem, length-lt-loop_fuel}
use external_icing.Iterator.Row.{approach}

module _ {S : Type 0} (it : Operations S) (Yields : S → List Match → Type 0)
    (law : Enumerates S it Yields) where
  -- The match of a document at the iterator or before it.
  abbrev pub at : S → List Match → ℕ → Option Match
  at s xs d = find d (it.current s ∷ xs)

  pub at-above :
      (s : S) (xs : List Match) (d : ℕ) → Yields s xs → doc (it.current s) < d → at s xs d ≡ none
  at-above s xs d y h =
      ground (arith, find-Below (doc (it.current s)) d xs (law.falling s xs y) (omega (arith, h)))

  -- What an iterator that was sent to a document has: all that it had up to the document;
  -- or it had nothing up to there, and has ended.
  pub record Arrives (s : S) (xs : List Match) (p : ℕ) (s' : S) : Type 0 where
    pub before : List Match
    pub yields : Yields s' before
    pub near : doc (it.current s') ≤ p
    pub same : (d : ℕ) → d ≤ p → at s' before d ≡ at s xs d

  abbrev pub Approached : S → List Match → ℕ → Status × S → Type 0
  Approached s xs p (ok, s') = Arrives s xs p s'
  Approached s xs p (status, s') =
      (status ≡ resource_exhausted)
      × Yields s' []
      × (doc (it.current s') ≡ invalid_document_id)
      × ((d : ℕ) → d ≤ p → at s xs d ≡ none)

  lands :
      (s : S) (xs : List Match) (p : ℕ)
      → Yields s xs
      → p < doc (it.current s)
      → (ms : List Match) → drop_above p xs ≡ ms
      → (r : Status × S) → Moves it Yields ms r
      → Approached s xs p r
  lands s xs p y high [] e (ok, s') m = absurd (cc)
  lands s xs p y high [] e (resource_exhausted, s') m =
      (refl, m.2, m.1, λ d h. ground (arith, find-drop_above d p xs h, e, high, h))
  lands s xs p y high [] e (invalid_argument, s') m = absurd (cc)
  lands s xs p y high [] e (out_of_fuel, s') m = absurd (cc)
  lands s xs p y high (z ∷ zs) e (ok, s') m =
      let fits =
        subst (Below (suc p)) e (drop_above-fits (doc (it.current s)) p xs (law.falling s xs y)) in
      let stands : doc (it.current s') ≡ doc z = ap doc m.1 in
      let low : doc (it.current s') ≤ p = omega (arith, stands, fits.0) in
      let kept : (d : ℕ) → d ≤ p → at s' zs d ≡ at s xs d = λ d h.
        let passed_over : find d xs ≡ at s xs d = ground (arith, high, h) in
        ap (λ (x : Match). find d (x ∷ zs)) m.1
        ∙ ap (find d) (sym e)
        ∙ find-drop_above d p xs h
        ∙ passed_over in
      record { before = zs; yields = m.2; near = low; same = kept }
  lands s xs p y high (z ∷ zs) e (resource_exhausted, s') m = absurd (cc)
  lands s xs p y high (z ∷ zs) e (invalid_argument, s') m = absurd (cc)
  lands s xs p y high (z ∷ zs) e (out_of_fuel, s') m = absurd (cc)

  pub approach_lem :
      (s : S) (xs : List Match) (p : ℕ) → Yields s xs → Approached s xs p (approach it p s)
  unfolding approach
  approach_lem s xs p y = elim (Bool-cases (ltb p (doc (it.current s)))) [
    | inr low ↦
        rw low (record { before = xs; yields = y; near = ground (arith, low); same = λ d h. refl })
    | inl high ↦ rw high (
        lands s xs p y (ground (arith, high)) (drop_above p xs) refl (advance_to it loop_fuel s p) (
          advance_to_lem it Yields law loop_fuel p s xs y
            (length-lt-loop_fuel it Yields law s xs y)))
  ]
