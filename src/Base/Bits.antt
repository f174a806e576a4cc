-- ===== src/Base/Bits.antt =====
-- The bits of a machine word: a number's digit at a place, and how `|`, `&`, `~` and shifts act on
-- digits. `util/bit-util.h` and the section masks of `index/hit` stand on these laws.
use Prim.Native.Nat.{
  ℕ, zero, suc, ◌+◌, ◌-◌, ◌*◌, ◌/◌, ◌%◌, ◌^◌, ◌≤◌, ◌<◌, min, max, bit_and, bit_or, digits, bitwise,
  bit_and-bitwise, bit_or-bitwise,
}
use mathlib.Core.Path.{◌≡◌, refl, sym, ap}
use native.Mathlib.Omega.{arith}
use native.Mathlib.Nat.{pow-suc, one-le-pow, add-zero, add-suc, div-div-eq-div-mul}
use external_icing.Base.Tests.{◌==◌, ltb, if◌then◌else◌}

-- The recursion on binary digits does not depend on its fuel once there is enough.
module _ (z : ℕ → ℕ) (f : ℕ → ℕ → ℕ) where
  more_fuel : (n m a b : ℕ) → a ≤ n → a ≤ m → digits z f n a b ≡ digits z f m a b
  more_fuel zero zero a b p q = refl
  more_fuel zero (suc m) zero b p q = refl
  more_fuel zero (suc m) (suc a) b p q = absurd (omega arith)
  more_fuel (suc n) zero zero b p q = refl
  more_fuel (suc n) zero (suc a) b p q = absurd (omega arith)
  more_fuel (suc n) (suc m) zero b p q = refl
  more_fuel (suc n) (suc m) (suc a) b p q =
      rw (more_fuel n m (suc a / 2) (b / 2) (omega arith) (omega arith))

  bitwise_unroll :
      (a b : ℕ)
      → bitwise z f (suc a) b ≡ bitwise z f (suc a / 2) (b / 2) * 2 + f (suc a % 2) (b % 2)
  bitwise_unroll a b =
      omega (arith, more_fuel a (suc a / 2) (suc a / 2) (b / 2) (omega arith) (omega arith))

bit_or_unroll : (a b : ℕ) → bit_or a b ≡ bit_or (a / 2) (b / 2) * 2 + max (a % 2) (b % 2)
bit_or_unroll zero b = simp bit_or-bitwise (omega arith)
bit_or_unroll (suc a) b = simp bit_or-bitwise (bitwise_unroll (λ c. c) max a b)

bit_and_unroll : (a b : ℕ) → bit_and a b ≡ bit_and (a / 2) (b / 2) * 2 + min (a % 2) (b % 2)
bit_and_unroll zero b = simp bit_and-bitwise (omega arith)
bit_and_unroll (suc a) b = simp bit_and-bitwise (bitwise_unroll (λ c. 0) min a b)

-- The digit of `n` at place `i`, 0 or 1.
unfoldable pub bit : ℕ → ℕ → ℕ
bit zero n = n % 2
bit (suc i) n = bit i (n / 2)

pub bit-le-one : (i n : ℕ) → bit i n ≤ 1
unfolding bit
bit-le-one zero n = omega arith
bit-le-one (suc i) n = bit-le-one i (n / 2)

pub bit-zero : (i : ℕ) → bit i 0 ≡ 0
unfolding bit
bit-zero zero = refl
bit-zero (suc i) = bit-zero i

pub bit-bit_or : (i a b : ℕ) → bit i (bit_or a b) ≡ max (bit i a) (bit i b)
unfolding bit
bit-bit_or zero a b = omega (arith, bit_or_unroll a b)
bit-bit_or (suc i) a b =
    let halved : bit_or a b / 2 ≡ bit_or (a / 2) (b / 2) = omega (arith, bit_or_unroll a b) in
    rw halved (bit-bit_or i (a / 2) (b / 2))

pub bit-bit_and : (i a b : ℕ) → bit i (bit_and a b) ≡ min (bit i a) (bit i b)
unfolding bit
bit-bit_and zero a b = omega (arith, bit_and_unroll a b)
bit-bit_and (suc i) a b =
    let halved : bit_and a b / 2 ≡ bit_and (a / 2) (b / 2) = omega (arith, bit_and_unroll a b) in
    rw halved (bit-bit_and i (a / 2) (b / 2))

pub bit-pow_two : (i j : ℕ) → bit j (2 ^ i) ≡ (if i == j then 1 else 0)
unfolding bit
bit-pow_two zero zero = refl
bit-pow_two zero (suc j) = ground (arith, bit-zero j)
bit-pow_two (suc i) zero = ground (arith, pow-suc 2 i)
bit-pow_two (suc i) (suc j) =
    let halved : 2 ^ suc i / 2 ≡ 2 ^ i = omega (arith, pow-suc 2 i) in
    rw halved (ground (arith, bit-pow_two i j))

-- `~n` of a `w`-bit word turns every digit.
pub bit_complement : (w j n : ℕ) → n < 2 ^ w → j < w → bit j (2 ^ w - 1 - n) ≡ 1 - bit j n
unfolding bit
bit_complement zero j n h k = absurd (omega arith)
bit_complement (suc w) zero n h k = omega (arith, pow-suc 2 w)
bit_complement (suc w) (suc j) n h k =
    let halved : (2 ^ suc w - 1 - n) / 2 ≡ 2 ^ w - 1 - n / 2 = omega (arith, pow-suc 2 w) in
    rw halved (bit_complement w j (n / 2) (omega (arith, pow-suc 2 w)) (omega arith))

-- Two words of `w` bits with the same digits are equal.
pub bit_ext : (w a b : ℕ) → a < 2 ^ w → b < 2 ^ w → ((i : ℕ) → i < w → bit i a ≡ bit i b) → a ≡ b
unfolding bit
bit_ext zero a b p q same = omega arith
bit_ext (suc w) a b p q same = omega (
  arith,
  same 0 (omega arith),
  bit_ext w (a / 2) (b / 2) (omega (arith, pow-suc 2 w)) (omega (arith, pow-suc 2 w))
      λ i h. same (suc i) (omega arith),
)

pub bit_or-lt : (w a b : ℕ) → a < 2 ^ w → b < 2 ^ w → bit_or a b < 2 ^ w
bit_or-lt zero zero zero p q = omega arith
bit_or-lt zero a b p q = absurd (omega arith)
bit_or-lt (suc w) a b p q = omega (
  arith,
  pow-suc 2 w,
  bit_or_unroll a b,
  bit_or-lt w (a / 2) (b / 2) (omega (arith, pow-suc 2 w)) (omega (arith, pow-suc 2 w)),
)

pub bit_and-le : (w a b : ℕ) → a < 2 ^ w → bit_and a b ≤ a
bit_and-le zero zero b p = omega (arith, bit_and-bitwise 0 b)
bit_and-le zero (suc a) b p = absurd (omega arith)
bit_and-le (suc w) a b p =
    omega (arith, bit_and_unroll a b, bit_and-le w (a / 2) (b / 2) (omega (arith, pow-suc 2 w)))

pub bit-above : (w i n : ℕ) → n < 2 ^ w → w ≤ i → bit i n ≡ 0
unfolding bit
bit-above zero zero n h k = omega arith
bit-above zero (suc i) n h k = bit-above zero i (n / 2) (omega arith) (omega arith)
bit-above (suc w) zero n h k = absurd (omega arith)
bit-above (suc w) (suc i) n h k = bit-above w i (n / 2) (omega (arith, pow-suc 2 w)) (omega arith)

pub pow_two-lt : (i w : ℕ) → i < w → 2 ^ i < 2 ^ w
pow_two-lt i zero h = absurd (omega arith)
pow_two-lt zero (suc w) h = omega (arith, pow-suc 2 w, one-le-pow w 2)
pow_two-lt (suc i) (suc w) h = omega (arith, pow-suc 2 w, pow-suc 2 i, pow_two-lt i w (omega arith))

mul-two_pow-suc : (q k : ℕ) → q * 2 ^ suc k ≡ 2 * (q * 2 ^ k)
mul-two_pow-suc q k = omega (arith, ap (λ (p : ℕ). q * p) (pow-suc 2 k))

bit_or-zero : (w a : ℕ) → a ≤ w → bit_or a 0 ≡ a
bit_or-zero w zero p = refl
bit_or-zero zero (suc a) p = absurd (omega arith)
bit_or-zero (suc w) (suc a) p =
    omega (arith, bit_or_unroll (suc a) 0, bit_or-zero w (suc a / 2) (omega arith))

bit_and-zero : (w a : ℕ) → a ≤ w → bit_and a 0 ≡ 0
bit_and-zero w zero p = refl
bit_and-zero zero (suc a) p = absurd (omega arith)
bit_and-zero (suc w) (suc a) p =
    omega (arith, bit_and_unroll (suc a) 0, bit_and-zero w (suc a / 2) (omega arith))

-- `(q << k) | r` is a sum when `r` fits `k` bits.
pub bit_or_disjoint : (k q r : ℕ) → r < 2 ^ k → bit_or (q * 2 ^ k) r ≡ q * 2 ^ k + r
bit_or_disjoint zero q r h = ground (arith, bit_or-zero q q)
bit_or_disjoint (suc k) q r h = ground (
  arith,
  bit_or_unroll (q * 2 ^ suc k) r,
  mul-two_pow-suc q k,
  pow-suc 2 k,
  bit_or_disjoint k q (r / 2),
)

bit_and_low_part : (k q r : ℕ) → r < 2 ^ k → bit_and (q * 2 ^ k + r) (2 ^ k - 1) ≡ r
bit_and_low_part zero q r h = rw (bit_and-zero (q * 1 + r) (q * 1 + r) (omega arith)) (omega arith)
bit_and_low_part (suc k) q r h = ground (
  arith,
  bit_and_unroll (q * 2 ^ suc k + r) (2 ^ suc k - 1),
  mul-two_pow-suc q k,
  pow-suc 2 k,
  one-le-pow k 2,
  bit_and_low_part k q (r / 2),
)

-- `n & (2^k - 1)` is the remainder by `2^k`.
pub bit_and_low : (k n : ℕ) → bit_and n (2 ^ k - 1) ≡ n % 2 ^ k
bit_and_low k n = ground (arith, one-le-pow k 2, bit_and_low_part k (n / 2 ^ k) (n % 2 ^ k))

pow_suc_two : (k : ℕ) → 2 ^ suc k ≡ 2 * 2 ^ k
pow_suc_two k = omega (arith, pow-suc 2 k)

-- A shift moves digits, and a remainder by a power of two drops the high ones.
pub bit_shift_right : (k i n : ℕ) → bit i (n / 2 ^ k) ≡ bit (i + k) n
unfolding bit
bit_shift_right zero i n = ground (arith, add-zero i)
bit_shift_right (suc k) i n =
    let split : n / 2 ^ suc k ≡ n / 2 / 2 ^ k =
      rw pow_suc_two (sym (div-div-eq-div-mul n 2 (2 ^ k))) in
    rw (split, add-suc i k) (bit_shift_right k i (n / 2))

pub bit_shift_left : (k i n : ℕ) → bit i (n * 2 ^ k) ≡ (if ltb i k then 0 else bit (i - k) n)
unfolding bit
bit_shift_left zero i n = ground arith
bit_shift_left (suc k) zero n = ground (arith, mul-two_pow-suc n k)
bit_shift_left (suc k) (suc i) n =
    let halved : n * 2 ^ suc k / 2 ≡ n * 2 ^ k = omega (arith, mul-two_pow-suc n k) in
    rw halved (ground (arith, bit_shift_left k i n))

pub bit_low : (k i n : ℕ) → bit i (n % 2 ^ k) ≡ (if ltb i k then bit i n else 0)
bit_low k i n = rw (← bit_and_low k n) (
    ground (
      arith,
      bit-bit_and i n (2 ^ k - 1),
      bit_complement k i 0,
      bit-zero i,
      bit-above k i (2 ^ k - 1),
      one-le-pow k 2,
      bit-le-one i n,
    ))

-- `n & (1 << i)` keeps the digit at place `i`.
pub bit_and-pow_two : (i n : ℕ) → bit_and n (2 ^ i) ≡ bit i n * 2 ^ i
unfolding bit
bit_and-pow_two zero n = omega (arith, bit_and_low 1 n)
bit_and-pow_two (suc i) n =
    let halved : 2 ^ suc i / 2 ≡ 2 ^ i = omega (arith, pow-suc 2 i) in
    omega (
      arith,
      bit_and_unroll n (2 ^ suc i),
      ap (bit_and (n / 2)) halved,
      bit_and-pow_two i (n / 2),
      mul-two_pow-suc (bit i (n / 2)) i,
      pow-suc 2 i,
    )
