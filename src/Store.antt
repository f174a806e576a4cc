-- ===== src/Store.antt =====
-- What the stores share: the statuses of text_classifier's StatusOr, texts as bytes, and methods
-- that change an object and may fail.
pub mod FileBackedVector
pub mod KeyMapper
pub mod UsageStore
pub mod ProtoLog
pub mod DocumentStore
use external_icing.Base.{
  ℕ, ◌≡◌, refl, ap, ap₂, Bool, true, false, ◌&&◌, ◌↔◌, List, [], ◌∷◌, ◌==◌, ==_iff, arith,
  if◌then◌else◌,
}

-- The error codes of the statuses.
pub data Status : Type 0 where
  not_found invalid_argument out_of_range resource_exhausted internal already_exists : Status

-- StatusOr: a value, or the status of an error.
pub data StatusOr (A : Type 0) : Type 0 where
  value : A → StatusOr A
  error : Status → StatusOr A

-- A text, by its bytes.
abbrev pub Text : Type 0
Text = List ℕ

abbrev pub text_eq : Text → Text → Bool
text_eq [] [] = true
text_eq [] (y ∷ ys) = false
text_eq (x ∷ xs) [] = false
text_eq (x ∷ xs) (y ∷ ys) = (x == y) && text_eq xs ys

pub text_eq_iff : (xs ys : Text) → (text_eq xs ys ≡ true) ↔ (xs ≡ ys)
text_eq_iff [] [] = ground arith
text_eq_iff [] (y ∷ ys) = ground arith
text_eq_iff (x ∷ xs) [] = ground arith
text_eq_iff (x ∷ xs) (y ∷ ys) = ground (arith, text_eq_iff xs ys)

-- A method: what it changed before an error stays changed.
abbrev pub Method : Type 0 → Type 0 → Type 0
Method S A = S → StatusOr A × S

module _ {S A : Type 0} where
  abbrev pub give : A → Method S A
  give a s = (value a, s)

  abbrev pub fail : Status → Method S A
  fail e s = (error e, s)

  abbrev pub lift : StatusOr A → Method S A
  lift r s = (r, s)

  abbrev pub gets : (S → A) → Method S A
  gets f s = (value (f s), s)

module _ {S A B : Type 0} where
  abbrev pub continue : StatusOr A → (A → Method S B) → Method S B
  continue (value a) f s = f a s
  continue (error e) f s = (error e, s)

  infixl 5 ◌>>=◌ ◌>>◌
  abbrev pub ◌>>=◌ : Method S A → (A → Method S B) → Method S B
  ◌>>=◌ m f s = let (r, s') = m s in continue r f s'

  abbrev pub ◌>>◌ : Method S A → Method S B → Method S B
  m >> k = m >>= λ _. k

-- An early return of an error.
abbrev pub fail_if : {S : Type 0} → Bool → Status → Method S (Unit {0})
fail_if true e = fail e
fail_if false e = give tt
