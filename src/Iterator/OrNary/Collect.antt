-- ===== src/Iterator/OrNary/Collect.antt =====
-- The matches of a document in a row of icing/index/iterator/doc-hit-info-iterator-or.cc, collected.
use external_icing.Base.{
  ℕ, ◌<◌, ◌≡◌, refl, ap, ◌∙◌, inl, inr, true, false, List, [], ◌∷◌, Option, none, some, arith, map,
  ◌==◌, Bool-cases, ==_iff,
}
use external_icing.Hit.{invalid_document_id}
use external_icing.Iterator.{Match, doc}
use external_icing.Iterator.Matches.{meet, meet-doc}
use external_icing.Iterator.Or.Lists.{either_match}
use external_icing.Iterator.Row.Columns.{nothing, pick}
use external_icing.Iterator.OrNary.{collect}

-- The matches of the columns that have one, merged.
abbrev pub join_all : Option Match → List (Option Match) → Option Match
join_all o [] = o
join_all o (o' ∷ os) = join_all (either_match o o') os

abbrev pub any : List (Option Match) → Option Match
any os = join_all none os

pub any-nothing : (os : List (Option Match)) → nothing os ≡ true → any os ≡ none
any-nothing [] h = refl
any-nothing (none ∷ os) h = any-nothing os h
any-nothing (some m ∷ os) h = absurd (cc)

join_all-some :
    (x : Match) (os : List (Option Match)) → (y : Match) × (join_all (some x) os ≡ some y)
join_all-some x [] = (x, refl)
join_all-some x (none ∷ os) = join_all-some x os
join_all-some x (some m ∷ os) = join_all-some (meet x m) os

pub any-something :
    (os : List (Option Match)) → nothing os ≡ false → (y : Match) × (any os ≡ some y)
any-something [] h = absurd (cc)
any-something (none ∷ os) h = any-something os h
any-something (some m ∷ os) h = join_all-some m os

-- What the loop has collected so far, for the document that it collects.
abbrev pub Has : ℕ → Option Match → Match → Type 0
Has q none base = doc base ≡ invalid_document_id
Has q (some m) base = (m ≡ base) × (doc base ≡ q)

pub collect_lem :
    (q : ℕ) (o : Option Match) (base : Match) (ms : List Match)
    → q < invalid_document_id
    → Has q o base
    → Has q (join_all o (map (pick q) ms)) (collect q base ms)
collect_lem q o base [] small h = h
collect_lem q none base (m ∷ ms) small h = elim (Bool-cases (doc m == q)) [
  | inl here ↦
      let at : doc m ≡ q = (==_iff (doc m) q).0 here in
      let first : (doc base == invalid_document_id) ≡ true = ground (arith, h) in
      rw (here, first) (collect_lem q (some m) m ms small (refl, at))
  | inr elsewhere ↦ rw elsewhere (collect_lem q none base ms small h)
]
collect_lem q (some x) base (m ∷ ms) small h = elim (Bool-cases (doc m == q)) [
  | inl here ↦
      let valid : (doc base == invalid_document_id) ≡ false = ground (arith, h.1, small) in
      rw (here, valid)
        (collect_lem q (some (meet x m)) (meet base m) ms small
          (ap (λ (y : Match). meet y m) h.0, meet-doc base m ∙ h.1))
  | inr elsewhere ↦ rw elsewhere (collect_lem q (some x) base ms small h)
]
