-- ===== src/Hit/Bitfield.antt =====
-- icing/util/bit-util.h: reading and writing bit fields of a word. The word written is a
-- `uint32_t`, the mask arithmetic is `uint64_t`, as in the overload that the hits use.
use external_icing.Base.{
  ℕ, zero, suc, ◌+◌, ◌-◌, ◌*◌, ◌/◌, ◌%◌, ◌^◌, ◌≤◌, ◌<◌, bit_and, bit_or, ◌≡◌, ap, ◌⊎◌, arith, ltb,
  leb, ◌==◌, if◌then◌else◌, ◌&&◌, trichotomy, below, same, above,
}
use external_icing.Base.Bits.{
  bit, bit-bit_or, bit-bit_and, bit_complement, bit_shift_right, bit_shift_left, bit_low, bit_ext,
  bit-above, bit-zero, bit-le-one, bit_and_low, pow_two-lt, bit_or-lt, bit_or_disjoint,
}
use native.Mathlib.Nat.{div-le_self, one-le-pow}

-- BitfieldMask
unfoldable pub bitfield_mask : ℕ → ℕ
bitfield_mask len = if len == 0 then 0 else (2 ^ 64 - 1) / 2 ^ (64 - len)

-- BitfieldClear: `*value_out &= ~(mask << lsb_offset)`
unfoldable pub bitfield_clear : ℕ → ℕ → ℕ → ℕ
unfolding bitfield_mask
bitfield_clear lsb_offset len value =
    bit_and value (2 ^ 64 - 1 - bitfield_mask len * 2 ^ lsb_offset % 2 ^ 64) % 2 ^ 32

-- BitfieldGet
unfoldable pub bitfield_get : ℕ → ℕ → ℕ → ℕ
unfolding bitfield_mask
bitfield_get value lsb_offset len = bit_and (value / 2 ^ lsb_offset) (bitfield_mask len)

-- BitfieldSet: the new value of `*value_out`
unfoldable pub bitfield_set : ℕ → ℕ → ℕ → ℕ → ℕ
unfolding bitfield_mask bitfield_clear
bitfield_set new_value lsb_offset len value =
    let cleared = bitfield_clear lsb_offset len value in
    bit_or cleared (bit_and new_value (bitfield_mask len) * 2 ^ lsb_offset % 2 ^ 64) % 2 ^ 32

bit-bitfield_mask :
    (len i : ℕ) → len ≤ 64 → bit i (bitfield_mask len) ≡ (if ltb i len then 1 else 0)
unfolding bitfield_mask
bit-bitfield_mask zero i h = ground (arith, bit-zero i)
bit-bitfield_mask (suc len) i h = ground (
  arith,
  bit_shift_right (64 - suc len) i (2 ^ 64 - 1),
  bit_complement 64 (i + (64 - suc len)) 0,
  bit-zero (i + (64 - suc len)),
  bit-above 64 (i + (64 - suc len)) (2 ^ 64 - 1),
)

-- The digits of a field that is read.
pub bit-bitfield_get :
    (value lsb_offset len i : ℕ)
    → len ≤ 64
    → bit i (bitfield_get value lsb_offset len)
      ≡ (if ltb i len then bit (i + lsb_offset) value else 0)
unfolding bitfield_get
bit-bitfield_get value lsb_offset len i h = ground (
  arith,
  bit-bit_and i (value / 2 ^ lsb_offset) (bitfield_mask len),
  bit-bitfield_mask len i h,
  bit_shift_right lsb_offset i value,
  bit-le-one (i + lsb_offset) value,
)

bit-shifted_field :
    (new_value lsb_offset len i : ℕ)
    → lsb_offset + len ≤ 32
    → bit i (bit_and new_value (bitfield_mask len) * 2 ^ lsb_offset % 2 ^ 64)
      ≡ (if leb lsb_offset i && ltb i (lsb_offset + len) then bit (i - lsb_offset) new_value else 0)
bit-shifted_field new_value lsb_offset len i h =
    let field = bit_and new_value (bitfield_mask len) in
    ground (
      arith,
      bit_low 64 i (field * 2 ^ lsb_offset),
      bit_shift_left lsb_offset i field,
      bit-bit_and (i - lsb_offset) new_value (bitfield_mask len),
      bit-bitfield_mask len (i - lsb_offset),
      bit-le-one (i - lsb_offset) new_value,
    )

bit-bitfield_clear :
    (lsb_offset len value i : ℕ)
    → lsb_offset + len ≤ 32
    → i < 32
    → bit i (bitfield_clear lsb_offset len value)
      ≡ (if leb lsb_offset i && ltb i (lsb_offset + len) then 0 else bit i value)
unfolding bitfield_clear
bit-bitfield_clear lsb_offset len value i h k =
    let shifted = bitfield_mask len * 2 ^ lsb_offset % 2 ^ 64 in
    ground (
      arith,
      bit_low 32 i (bit_and value (2 ^ 64 - 1 - shifted)),
      bit-bit_and i value (2 ^ 64 - 1 - shifted),
      bit_complement 64 i shifted,
      bit_low 64 i (bitfield_mask len * 2 ^ lsb_offset),
      bit_shift_left lsb_offset i (bitfield_mask len),
      bit-bitfield_mask len (i - lsb_offset),
      bit-le-one i value,
    )

-- The digits of a word in which a field is written: the field's own come from the new value, and
-- all others stay.
pub bit-bitfield_set :
    (new_value lsb_offset len value i : ℕ)
    → lsb_offset + len ≤ 32
    → i < 32
    → bit i (bitfield_set new_value lsb_offset len value) ≡ (
        if leb lsb_offset i && ltb i (lsb_offset + len)
        then bit (i - lsb_offset) new_value
        else bit i value)
unfolding bitfield_set
bit-bitfield_set new_value lsb_offset len value i h k =
    let cleared = bitfield_clear lsb_offset len value in
    let field = bit_and new_value (bitfield_mask len) * 2 ^ lsb_offset % 2 ^ 64 in
    ground (
      arith,
      bit_low 32 i (bit_or cleared field),
      bit-bit_or i cleared field,
      bit-bitfield_clear lsb_offset len value i h k,
      bit-shifted_field new_value lsb_offset len i h,
    )

pub bitfield_set-lt :
    (new_value lsb_offset len value : ℕ) → bitfield_set new_value lsb_offset len value < 2 ^ 32
unfolding bitfield_set
bitfield_set-lt new_value lsb_offset len value = omega arith

bitfield_mask-lt : (len : ℕ) → bitfield_mask len < 2 ^ 64
unfolding bitfield_mask
bitfield_mask-lt len = ground (arith, div-le_self (2 ^ 64 - 1) (2 ^ (64 - len)))

pow_two-le : (len : ℕ) → len ≤ 64 → 2 ^ len ≤ 2 ^ 64
pow_two-le len h = elim (trichotomy len 64) [
  | below p ↦ omega (arith, pow_two-lt len 64 p)
  | same p ↦ rw p (omega arith)
  | above p ↦ absurd (omega arith)
]

bitfield_mask-eq : (len : ℕ) → len ≤ 64 → bitfield_mask len ≡ 2 ^ len - 1
bitfield_mask-eq len h =
    bit_ext 64 (bitfield_mask len) (2 ^ len - 1) (bitfield_mask-lt len)
      (omega (arith, one-le-pow len 2, pow_two-le len h))
      λ i k. ground (
        arith,
        bit-bitfield_mask len i h,
        bit_complement len i 0,
        bit-zero i,
        one-le-pow len 2,
        bit-above len i (2 ^ len - 1),
      )

-- A field that is read is a quotient and a remainder.
pub bitfield_get-eq :
    (value lsb_offset len : ℕ)
    → len ≤ 64
    → bitfield_get value lsb_offset len ≡ value / 2 ^ lsb_offset % 2 ^ len
unfolding bitfield_get
bitfield_get-eq value lsb_offset len h =
    rw (bitfield_mask-eq len h) (bit_and_low len (value / 2 ^ lsb_offset))

bitfield_get-lt :
    (value lsb_offset len : ℕ) → len ≤ 64 → bitfield_get value lsb_offset len < 2 ^ len
bitfield_get-lt value lsb_offset len h =
    omega (arith, bitfield_get-eq value lsb_offset len h, one-le-pow len 2)

-- Reading the field just written gives the low digits of the value written.
pub bitfield_get-set_self :
    (new_value lsb_offset len value : ℕ)
    → lsb_offset + len ≤ 32
    → bitfield_get (bitfield_set new_value lsb_offset len value) lsb_offset len
      ≡ new_value % 2 ^ len
bitfield_get-set_self new_value lsb_offset len value h =
    let word = bitfield_set new_value lsb_offset len value in
    bit_ext len (bitfield_get word lsb_offset len) (new_value % 2 ^ len)
      (bitfield_get-lt word lsb_offset len (omega arith)) (omega (arith, one-le-pow len 2))
      λ i k. ground (
        arith,
        bit-bitfield_get word lsb_offset len i,
        bit-bitfield_set new_value lsb_offset len value (i + lsb_offset) h,
        bit_low len i new_value,
      )

-- Writing a field leaves every field that does not overlap it as it was.
pub bitfield_get-set_other :
    (new_value lsb_offset len value other_offset other_len : ℕ)
    → lsb_offset + len ≤ 32
    → other_offset + other_len ≤ 32
    → (other_offset + other_len ≤ lsb_offset) ⊎ (lsb_offset + len ≤ other_offset)
    → bitfield_get (bitfield_set new_value lsb_offset len value) other_offset other_len
      ≡ bitfield_get value other_offset other_len
bitfield_get-set_other new_value lsb_offset len value other_offset other_len h k apart =
    let word = bitfield_set new_value lsb_offset len value in
    bit_ext other_len (bitfield_get word other_offset other_len)
      (bitfield_get value other_offset other_len)
      (bitfield_get-lt word other_offset other_len (omega arith))
      (bitfield_get-lt value other_offset other_len (omega arith))
      λ i inside. ground (
        arith,
        bit-bitfield_get word other_offset other_len i,
        bit-bitfield_get value other_offset other_len i,
        bit-bitfield_set new_value lsb_offset len value (i + other_offset) h,
      )

-- Writing a field into a word that is zero from the field downwards adds the shifted value.
pub bitfield_set-below :
    (new_value lsb_offset len value high : ℕ)
    → lsb_offset + len ≤ 32
    → value ≡ high * 2 ^ (lsb_offset + len)
    → value < 2 ^ 32
    → new_value < 2 ^ len
    → new_value * 2 ^ lsb_offset < 2 ^ (lsb_offset + len)
    → new_value * 2 ^ lsb_offset < 2 ^ 32
    → bitfield_set new_value lsb_offset len value ≡ value + new_value * 2 ^ lsb_offset
bitfield_set-below new_value lsb_offset len value high h e small fits below_high in_word =
    let field = new_value * 2 ^ lsb_offset in
    let top = lsb_offset + len in
    let sum : bit_or value field ≡ value + field =
      rw e (bit_or_disjoint top high field below_high) in
    rw (← sum) (
      bit_ext 32 (bitfield_set new_value lsb_offset len value) (bit_or value field)
        (bitfield_set-lt new_value lsb_offset len value) (bit_or-lt 32 value field small in_word)
        λ i k. ground (
          arith,
          bit-bitfield_set new_value lsb_offset len value i h k,
          bit-bit_or i value field,
          bit_shift_left lsb_offset i new_value,
          ap (bit i) e,
          bit_shift_left top i high,
          bit-above len (i - lsb_offset) new_value fits,
          bit-le-one i value,
          bit-zero i,
          bit-le-one (i - lsb_offset) new_value,
        ))
