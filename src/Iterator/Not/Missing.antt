-- ===== src/Iterator/Not/Missing.antt =====
-- The documents that an iterator of icing/index/iterator lacks, as a list.
use external_icing.Base.{
  ℕ, zero, suc, ◌≤◌, ◌≡◌, refl, sym, ap, ◌∙◌, List, [], ◌∷◌, none, some, arith, ltb, if◌then◌else◌,
  inl, inr, trichotomy, below, same, above, lt→ne', Option, Option-cases,
}
use external_icing.Iterator.{Match, doc, no_match, Below}
use external_icing.Iterator.Matches.{find}
use external_icing.Iterator.AllDocumentId.{plain}

-- The documents below the bound that the list does not have.
abbrev pub missing : ℕ → List Match → List Match
missing zero ms = []
missing (suc n) ms = elim (find n ms) [ none ↦ plain n ∷ missing n ms | some m ↦ missing n ms ]

pub missing-hit :
    (n : ℕ) (m : Match) (ms : List Match) → find n ms ≡ some m → missing (suc n) ms ≡ missing n ms
missing-hit n m ms e = rw (e, missing)

pub missing-miss :
    (n : ℕ) (ms : List Match) → find n ms ≡ none → missing (suc n) ms ≡ plain n ∷ missing n ms
missing-miss n ms e = rw (e, missing)

abbrev pub unless_found : Option Match → ℕ → ℕ → Option Match
unless_found none d k = if ltb d k then some (plain d) else none
unless_found (some m) d k = none

-- A document is missing exactly when it is below the bound and not in the list.
pub find-missing :
    (d k : ℕ) (ms : List Match) → find d (missing k ms) ≡ unless_found (find d ms) d k
unfolding plain
find-missing d zero ms = ground arith
find-missing d (suc k) ms = elim (Option-cases (find k ms)) [
  | inl absent ↦ rw (missing-miss k ms absent) (elim (trichotomy k d) [
    | below p ↦ ground (arith, find-missing d k ms, p)
    | same p ↦ ground (arith, p, absent, ap plain p, ap (λ (j : ℕ). find j ms) p)
    | above p ↦ ground (arith, find-missing d k ms, p)
  ])
  | inr (m, there) ↦ rw (missing-hit k m ms there) (elim (trichotomy k d) [
    | below p ↦ ground (arith, find-missing d k ms, p)
    | same p ↦ ground (arith, find-missing d k ms, p, there, ap (λ (j : ℕ). find j ms) p)
    | above p ↦ ground (arith, find-missing d k ms, p)
  ])
]

pub missing-cons :
    (k : ℕ) (m : Match) (ms : List Match) → k ≤ doc m → missing k (m ∷ ms) ≡ missing k ms
missing-cons zero m ms h = refl
missing-cons (suc k) m ms h =
    let skips : find k (m ∷ ms) ≡ find k ms = rw (lt→ne' (doc m) k (omega arith)) in
    let below_k = missing-cons k m ms (omega arith) in
    elim (Option-cases (find k ms)) [
      | inl absent ↦
          missing-miss k (m ∷ ms) (skips ∙ absent)
          ∙ ap (◌∷◌ (plain k)) below_k
          ∙ sym (missing-miss k ms absent)
      | inr (z, there) ↦
          missing-hit k z (m ∷ ms) (skips ∙ there) ∙ below_k ∙ sym (missing-hit k z ms there)
    ]

pub missing-Below : (n k : ℕ) (ms : List Match) → k ≤ n → Below n (missing k ms)
unfolding plain no_match
missing-Below n zero ms h = tt
missing-Below n (suc k) ms h = ground (arith, missing-Below k k ms, missing-Below n k ms)
