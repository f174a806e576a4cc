-- ===== src/Store/FileBackedVector.antt =====
-- icing/file/file-backed-vector.h: an array in a file, whose elements in use are counted. A file
-- operation is taken to succeed, and the checksums are left out.
use external_icing.Base.{
  ℕ, zero, suc, ◌+◌, ◌^◌, ◌&&◌, ◌≡◌, refl, List, [], ◌∷◌, arith, ltb, leb, ◌==◌, max, if◌then◌else◌,
  get_or,
}
use external_icing.Store.{StatusOr, value, error, out_of_range}

-- kMaxNumElements
abbrev pub max_num_elements : ℕ
max_num_elements = 2 ^ 20

-- The array is as long as what was ever written, and goes on with elements of zero bytes.
pub record Vector (T : Type 0) : Type 0 where
  pub array : List T
  pub num_elements : ℕ

abbrev pub empty_vector : {T : Type 0} → Vector T
empty_vector = record { array = []; num_elements = 0 }

-- A write into the mapped file.
abbrev pub write_at : {T : Type 0} → T → List T → ℕ → T → List T
write_at blank [] zero v = v ∷ []
write_at blank [] (suc i) v = blank ∷ write_at blank [] i v
write_at blank (x ∷ xs) zero v = v ∷ xs
write_at blank (x ∷ xs) (suc i) v = x ∷ write_at blank xs i v

-- `blank` is the element of zero bytes.
module _ {T : Type 0} (blank : T) where
  -- Get and GetCopy, at an index that is not negative
  unfoldable pub vector_get : Vector T → ℕ → StatusOr T
  vector_get v idx =
      if leb v.num_elements idx then error out_of_range else value (get_or v.array idx blank)

  -- Set
  unfoldable pub vector_set : Vector T → ℕ → T → StatusOr (Vector T)
  vector_set v idx x =
      if ltb v.num_elements (idx + 1) && ltb max_num_elements (idx + 1)
      then error out_of_range
      else value (record {
        array = write_at blank v.array idx x;
        num_elements = max v.num_elements (idx + 1);
      })

  pub get_or-write_at :
      (xs : List T) (i j : ℕ) (x : T)
      → get_or (write_at blank xs i x) j blank ≡ (if i == j then x else get_or xs j blank)
  get_or-write_at [] zero zero x = refl
  get_or-write_at [] zero (suc j) x = ground arith
  get_or-write_at [] (suc i) zero x = ground arith
  get_or-write_at [] (suc i) (suc j) x = ground (arith, get_or-write_at [] i j x)
  get_or-write_at (y ∷ xs) zero zero x = refl
  get_or-write_at (y ∷ xs) zero (suc j) x = ground arith
  get_or-write_at (y ∷ xs) (suc i) zero x = ground arith
  get_or-write_at (y ∷ xs) (suc i) (suc j) x = ground (arith, get_or-write_at xs i j x)

-- TruncateTo: the elements behind the new end stay in the file.
unfoldable pub truncate_to : {T : Type 0} → Vector T → ℕ → StatusOr (Vector T)
truncate_to v new_num_elements =
    if leb v.num_elements new_num_elements
    then error out_of_range
    else value (record v { num_elements = new_num_elements })
