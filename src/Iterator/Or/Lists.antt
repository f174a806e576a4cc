-- ===== src/Iterator/Or/Lists.antt =====
-- The union of two lists of matches, for the OR of icing/index/iterator.
use external_icing.Base.{
  ℕ, ◌≡◌, refl, true, false, List, [], ◌∷◌, Option, none, some, arith, ltb, trichotomy, below, same,
  above,
}
use external_icing.Iterator.{Match, doc, Below}
use external_icing.Iterator.Matches.{find, find-Below, meet, meet-doc, Below-mono}

-- The matches of the documents that either list has, in falling order.
unfoldable pub union : List Match → List Match → List Match
union [] ys = ys
union (x ∷ xs) [] = x ∷ xs
union (x ∷ xs) (y ∷ ys) =
    let left_first = x ∷ union xs (y ∷ ys) in
    let right_first = y ∷ union (x ∷ xs) ys in
    let together = meet x y ∷ union xs ys in
    elim (ltb (doc y) (doc x)) [
      | true ↦ left_first
      | false ↦ elim (ltb (doc x) (doc y)) [ true ↦ right_first | false ↦ together ]
    ]

pub union-nil : (xs : List Match) → union xs [] ≡ xs
unfolding union
union-nil [] = refl
union-nil (x ∷ xs) = refl

pub union-Below : (n : ℕ) (xs ys : List Match) → Below n xs → Below n ys → Below n (union xs ys)
unfolding union
union-Below n [] ys b c = c
union-Below n (x ∷ xs) [] b c = b
union-Below n (x ∷ xs) (y ∷ ys) b c = ground (
  arith,
  meet-doc x y,
  union-Below (doc x) xs (y ∷ ys) b.1,
  union-Below (doc y) (x ∷ xs) ys,
  union-Below (doc x) xs ys b.1,
  Below-mono (doc y) (doc x) ys,
)

abbrev pub either_match : Option Match → Option Match → Option Match
either_match none o = o
either_match (some x) none = some x
either_match (some x) (some y) = some (meet x y)

-- A document is in the union exactly when one of the lists has it, with the meet of its matches
-- if both have it.
pub find-union :
    (d n : ℕ) (xs ys : List Match)
    → Below n xs
    → Below n ys
    → find d (union xs ys) ≡ either_match (find d xs) (find d ys)
unfolding union
find-union d n [] ys b c = refl
find-union d n (x ∷ xs) [] b c = ground arith
find-union d n (x ∷ xs) (y ∷ ys) b c = elim (trichotomy (doc x) (doc y)) [
  | below p ↦ ground (
    arith,
    p,
    find-union d n (x ∷ xs) ys b (Below-mono (doc y) n ys (omega arith) c.1),
    find-Below (doc y) d (x ∷ xs) (p, b.1),
  )
  | same p ↦ ground (arith, p, meet-doc x y, find-union d (doc x) xs ys b.1 (rw p c.1))
  | above p ↦ ground (
    arith,
    p,
    find-union d n xs (y ∷ ys) (Below-mono (doc x) n xs (omega arith) b.1) c,
    find-Below (doc x) d (y ∷ ys) (p, c.1),
  )
]
