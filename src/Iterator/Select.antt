-- ===== src/Iterator/Select.antt =====
-- The iterators that pass on some of the matches of a delegate: doc-hit-info-iterator-filter.cc and
-- doc-hit-info-iterator-section-restrict.cc, in the children. This file has what their loops do.
pub mod Filter
pub mod SectionRestrict
use external_icing.Base.{
  ℕ, zero, suc, ◌≤◌, ◌<◌, ◌≡◌, refl, sym, ap, subst, List, [], ◌∷◌, Option, none, some, arith,
  Option-cases, inl, inr, length, Bool, true, false, ◌==◌, if◌then◌else◌, Bool-cases, ==_iff, ◌∙◌,
}
use external_icing.Hit.{invalid_document_id}
use external_icing.Iterator.{
  Match, doc, no_match, Below, Status, ok, resource_exhausted, out_of_fuel, Operations, Enumerates,
  Moves, loop_fuel,
}
use external_icing.Iterator.Matches.{Below-mono, find, find-Below}
use external_icing.Iterator.Advance.{length-lt-loop_fuel}

-- `delegate_`, and the members of the base class.
pub record Delegating (S : Type 0) : Type 0 where
  pub delegate : S
  pub base : Match

-- The constructors, as far as the members above go.
unfoldable pub make_delegating : {S : Type 0} → S → Delegating S
unfolding no_match
make_delegating s = record { delegate = s; base = no_match }

-- The matches that are passed on, in their order.
abbrev pub pass_on : Option Match → List Match → List Match
pass_on none ms = ms
pass_on (some k) ms = k ∷ ms

abbrev pub selected : (Match → Option Match) → List Match → List Match
selected pick [] = []
selected pick (m ∷ ms) = pass_on (pick m) (selected pick ms)

-- The pick keeps the document.
abbrev pub KeepsDoc : (Match → Option Match) → Type 0
KeepsDoc pick = (m k : Match) → pick m ≡ some k → doc k ≡ doc m

pub selected-Below :
    (pick : Match → Option Match)
    → KeepsDoc pick
    → (n : ℕ) (ms : List Match) → Below n ms
    → Below n (selected pick ms)
selected-Below pick keeps n [] b = tt
selected-Below pick keeps n (m ∷ ms) b =
    let rest = selected-Below pick keeps (doc m) ms b.1 in
    elim (Option-cases (pick m)) [
      | inl e ↦ rw e (Below-mono (doc m) n (selected pick ms) (omega arith) rest)
      | inr (k, e) ↦ rw (e, keeps m k e) (b.0, rest)
    ]

abbrev pub then_pick : (Match → Option Match) → Option Match → Option Match
then_pick pick none = none
then_pick pick (some m) = pick m

find-passed_on :
    (d : ℕ) (m : Match) (o : Option Match) (ms : List Match)
    → ((k : Match) → o ≡ some k → doc k ≡ doc m)
    → ((doc m == d) ≡ true → find d ms ≡ none)
    → find d (pass_on o ms) ≡ (if doc m == d then o else find d ms)
find-passed_on d m none ms keeps absent = elim (Bool-cases (doc m == d)) [
  | inl e ↦ rw e (absent e)
  | inr e ↦ rw e refl
]
find-passed_on d m (some k) ms keeps absent = rw (keeps k refl) refl

find-then_pick :
    (pick : Match → Option Match) (m : Match) (b : Bool) (o : Option Match)
    → then_pick pick (if b then some m else o) ≡ (if b then pick m else then_pick pick o)
find-then_pick pick m true o = refl
find-then_pick pick m false o = refl

-- What the selection has for a document is what the pick makes of its match.
pub find-selected :
    (pick : Match → Option Match)
    → KeepsDoc pick
    → (d n : ℕ) (ms : List Match) → Below n ms
    → find d (selected pick ms) ≡ then_pick pick (find d ms)
find-selected pick keeps d n [] b = refl
find-selected pick keeps d n (m ∷ ms) b =
    let gone = λ (e : (doc m == d) ≡ true).
      find-Below (doc m) d (selected pick ms) (selected-Below pick keeps (doc m) ms b.1)
        (omega (arith, (==_iff (doc m) d).0 e)) in
    find-passed_on d m (pick m) (selected pick ms) (keeps m) gone
    ∙ ap (λ o. if doc m == d then pick m else o) (find-selected pick keeps d (doc m) ms b.1)
    ∙ sym (find-then_pick pick m (doc m == d) (find d ms))

module _ {S : Type 0} (it : Operations S) (pick : Match → Option Match) where
  -- The loop over the delegate.
  unfoldable pub select_loop : ℕ → S → Match → Status × Delegating S
  select_loop zero s base = (out_of_fuel, record { delegate = s; base = base })
  select_loop (suc fuel) s base =
      let (status, moved) = it.advance s in
      let rest = select_loop fuel moved base in
      elim status [
        | ok ↦ elim (pick (it.current moved)) [
          | none ↦ rest
          | some k ↦ (ok, record { delegate = moved; base = k })
        ]
        | _ ↦ (resource_exhausted, record { delegate = moved; base = no_match })
      ]

  module _ (keeps : KeepsDoc pick) (Yields : S → List Match → Type 0)
      (law : Enumerates S it Yields) where
    pub record SelectYields (d : Delegating S) (ms : List Match) : Type 0 where
      pub before : List Match
      pub delegate_yields : Yields d.delegate before
      pub rest : ms ≡ selected pick before
      pub falls : Below (doc d.base) ms
      pub bound : doc d.base ≤ invalid_document_id

    module _ (operations : Operations (Delegating S))
        (current_is : (d : Delegating S) → operations.current d ≡ d.base) where
      by_equations :
          (ms ms' : List Match) (r r' : Status × Delegating S)
          → ms ≡ ms'
          → r ≡ r'
          → Moves operations SelectYields ms' r'
          → Moves operations SelectYields ms r
      by_equations ms ms' r r' e k h = rw (e, k) h

      select_loop_lem :
          (fuel : ℕ) (s : S) (ms : List Match) (base : Match)
          → length ms < fuel
          → Yields s ms
          → Moves operations SelectYields (selected pick ms) (select_loop fuel s base)
      unfolding select_loop no_match
      select_loop_lem zero s ms base f y = absurd (omega arith)
      select_loop_lem (suc fuel) s [] base f y =
          let moves = law.step s [] y in
          let d : Delegating S = record { delegate = (it.advance s).1; base = no_match } in
          by_equations [] [] _ (resource_exhausted, d) refl (ground (arith, moves.0))
            (
              refl,
              ap doc (current_is d),
              record {
                before = [];
                delegate_yields = moves.2;
                rest = refl;
                falls = tt;
                bound = omega arith;
              },
            )
      select_loop_lem (suc fuel) s (m ∷ ms) base f y =
          let moves = law.step s (m ∷ ms) y in
          let moved = (it.advance s).1 in
          elim (Option-cases (pick m)) [
            | inl e ↦
                by_equations _ (selected pick ms) _ (select_loop fuel moved base) (rw e refl)
                  (ground (arith, moves.0, moves.1, e, ap pick moves.1))
                  (select_loop_lem fuel moved ms base (omega arith) moves.2)
            | inr (k, e) ↦
                let at = keeps m k e in
                let low : doc m ≤ invalid_document_id =
                  subst (λ (z : Match). doc z ≤ invalid_document_id) moves.1
                    (law.bounded moved ms moves.2) in
                let falls : Below (doc m) ms =
                  subst (λ (z : Match). Below (doc z) ms) moves.1 (law.falling moved ms moves.2) in
                let d : Delegating S = record { delegate = moved; base = k } in
                by_equations _ (k ∷ selected pick ms) _ (ok, d) (rw e refl)
                  (ground (arith, moves.0, moves.1, e, ap pick moves.1))
                  (
                    refl,
                    current_is d,
                    record {
                      before = ms;
                      delegate_yields = moves.2;
                      rest = refl;
                      falls = rw at (selected-Below pick keeps (doc m) ms falls);
                      bound = rw at low;
                    },
                  )
          ]

      -- An iterator whose Advance is the loop keeps the contract.
      pub select-Enumerates :
          ((d : Delegating S) → operations.advance d ≡ select_loop loop_fuel d.delegate d.base)
          → Enumerates (Delegating S) operations SelectYields
      select-Enumerates loops = record {
        falling = λ d ms v. rw (current_is d) v.falls;
        bounded = λ d ms v. rw (current_is d) v.bound;
        step = λ d ms v.
            by_equations ms (selected pick v.before) _ (select_loop loop_fuel d.delegate d.base)
              v.rest (loops d)
              (select_loop_lem loop_fuel d.delegate v.before d.base
                (length-lt-loop_fuel it Yields law d.delegate v.before v.delegate_yields)
                v.delegate_yields);
      }
