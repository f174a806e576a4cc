-- ===== src/DocHitInfo/Mask.antt =====
-- How the loop of MergeSectionsFrom walks a section mask: the lowest bit, and clearing it.
use external_icing.Base.{
  ℕ, zero, suc, ◌-◌, ◌/◌, ◌%◌, ◌^◌, ◌<◌, bit_and, ◌≡◌, arith, ◌==◌, if◌then◌else◌, false,
  Bool-cases, inl, inr,
}
use external_icing.Base.Bits.{
  bit, bit-bit_and, bit_complement, bit_low, bit-le-one, bit-pow_two, pow_two-lt, bit_and-pow_two,
}
use native.Mathlib.Nat.{pow-suc, one-le-pow}
use external_icing.DocHitInfo.{mask_bits, count_trailing_zeros, clear_section}

digits_below :
    (k n : ℕ)
    → (n % 2 == 1) ≡ false
    → ((i : ℕ) → i < k → bit i (n / 2) ≡ 0)
    → (i : ℕ) → i < suc k
    → bit i n ≡ 0
unfolding bit
digits_below k n even half zero h = ground arith
digits_below k n even half (suc i) h = half i (omega arith)

-- The place found is that of the lowest bit that is set.
pub count_trailing_zeros-lowest :
    (w n : ℕ)
    → 0 < n
    → n < 2 ^ w
    → (count_trailing_zeros w n < w)
      × (bit (count_trailing_zeros w n) n ≡ 1)
      × ((i : ℕ) → i < count_trailing_zeros w n → bit i n ≡ 0)
unfolding count_trailing_zeros bit
count_trailing_zeros-lowest zero n p h = absurd (omega arith)
count_trailing_zeros-lowest (suc w) n p h = elim (Bool-cases (n % 2 == 1)) [
  | inl odd ↦ rw odd (omega arith, ground arith, λ i k. absurd (omega arith))
  | inr even ↦
      let half =
        count_trailing_zeros-lowest w (n / 2) (ground arith) (omega (arith, pow-suc 2 w)) in
      rw even (omega arith, half.1, digits_below _ n even half.2)
]

pub bit-clear_section :
    (mask section i : ℕ)
    → section < mask_bits
    → i < mask_bits
    → bit i (clear_section mask section) ≡ (if section == i then 0 else bit i mask)
unfolding clear_section
bit-clear_section mask section i h k = ground (
  arith,
  bit_low mask_bits i (bit_and mask (2 ^ 32 - 1 - 2 ^ section)),
  bit-bit_and i mask (2 ^ 32 - 1 - 2 ^ section),
  bit_complement 32 i (2 ^ section),
  pow_two-lt section 32,
  bit-pow_two section i,
  bit-le-one i mask,
)

pub clear_section-lt : (mask section : ℕ) → clear_section mask section < 2 ^ mask_bits
unfolding clear_section
clear_section-lt mask section = omega arith

-- The test `mask & (1u << section)` reads one bit.
pub mask_test : (mask section : ℕ) → (bit_and mask (2 ^ section) == 0) ≡ (bit section mask == 0)
mask_test mask section =
    ground (arith, bit_and-pow_two section mask, bit-le-one section mask, one-le-pow section 2)
