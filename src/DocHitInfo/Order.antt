-- ===== src/DocHitInfo/Order.antt =====
-- operator< and operator== of icing/index/hit/doc-hit-info.{h,cc}.
use external_icing.Base.{ℕ, ◌≡◌, ◌↔◌, refl, arith, true, false, List, [], ◌∷◌, length}
use external_icing.DocHitInfo.{DocHitInfo, signed_less, memcmp_less, less_than, equals}
use external_icing.DocHitInfo.Merge.{IsWellFormed}

memcmp_less-asymm : (xs ys : List ℕ) → memcmp_less xs ys ≡ true → memcmp_less ys xs ≡ false
unfolding memcmp_less
memcmp_less-asymm [] ys h = cc
memcmp_less-asymm (x ∷ xs) [] h = cc
memcmp_less-asymm (x ∷ xs) (y ∷ ys) h = ground (arith, memcmp_less-asymm xs ys)

memcmp_less_refl : (xs : List ℕ) → memcmp_less xs xs ≡ false
unfolding memcmp_less
memcmp_less_refl [] = refl
memcmp_less_refl (x ∷ xs) = ground (arith, memcmp_less_refl xs)

-- Arrays of one length of which neither is less are equal.
memcmp_less_antisymm :
    (xs ys : List ℕ)
    → length xs ≡ length ys
    → memcmp_less xs ys ≡ false
    → memcmp_less ys xs ≡ false
    → xs ≡ ys
unfolding memcmp_less
memcmp_less_antisymm [] [] e h k = refl
memcmp_less_antisymm [] (y ∷ ys) e h k = absurd (omega arith)
memcmp_less_antisymm (x ∷ xs) [] e h k = absurd (omega arith)
memcmp_less_antisymm (x ∷ xs) (y ∷ ys) e h k = ground (arith, memcmp_less_antisymm xs ys)

less_than-asymm : (a b : DocHitInfo) → less_than a b ≡ true → less_than b a ≡ false
unfolding less_than signed_less
less_than-asymm a b h =
    ground (arith, memcmp_less-asymm a.hit_term_frequencies b.hit_term_frequencies)

less_than_refl : (a : DocHitInfo) → less_than a a ≡ false
unfolding less_than
less_than_refl a = ground (arith, memcmp_less_refl a.hit_term_frequencies)

less_than_antisymm :
    (a b : DocHitInfo)
    → IsWellFormed a
    → IsWellFormed b
    → less_than a b ≡ false
    → less_than b a ≡ false
    → a ≡ b
unfolding less_than signed_less
less_than_antisymm a b v w h k =
    let documents : a.document_id ≡ b.document_id = ground arith in
    let masks : a.hit_section_ids_mask ≡ b.hit_section_ids_mask = ground arith in
    let frequencies : a.hit_term_frequencies ≡ b.hit_term_frequencies =
      ground (arith, memcmp_less_antisymm a.hit_term_frequencies b.hit_term_frequencies) in
    λ i. record {
      document_id = documents i;
      hit_section_ids_mask = masks i;
      hit_term_frequencies = frequencies i;
    }

-- operator==, which compares the two results of operator<, holds exactly between well-formed
-- infos that are equal in every field.
pub equals_iff :
    (a b : DocHitInfo) → IsWellFormed a → IsWellFormed b → (equals a b ≡ true) ↔ (a ≡ b)
unfolding equals
equals_iff a b v w = (
  λ h.
      less_than_antisymm a b v w (ground (arith, less_than-asymm a b))
        (ground (arith, less_than-asymm b a, less_than-asymm a b)),
  λ e. rw (e, less_than_refl b),
)
