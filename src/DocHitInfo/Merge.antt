-- ===== src/DocHitInfo/Merge.antt =====
-- UpdateSection and MergeSectionsFrom of icing/index/hit/doc-hit-info.cc.
use external_icing.Base.{
  ℕ, zero, suc, ◌-◌, ◌^◌, ◌≤◌, ◌<◌, max, bit_or, ◌≡◌, refl, sym, ◌∙◌, arith, ◌==◌, ==_iff,
  if◌then◌else◌, Bool-cases, trichotomy, below, same, above, inl, inr, length, length-set,
  get_or-set, lt→ne',
}
use external_icing.Base.Bits.{bit, bit-bit_or, bit_low, bit_ext, bit-zero, bit-le-one, bit-pow_two}
use external_icing.DocHitInfo.{
  DocHitInfo, mask_bits, hit_term_frequency, update_section, merge_loop, merge_sections_from,
  count_trailing_zeros, clear_section,
}
use external_icing.DocHitInfo.Mask.{
  count_trailing_zeros-lowest, bit-clear_section, clear_section-lt, mask_test,
}

-- What the types of the members promise.
pub record IsWellFormed (info : DocHitInfo) : Type 0 where
  pub mask_fits : info.hit_section_ids_mask < 2 ^ mask_bits
  pub frequencies : length info.hit_term_frequencies ≡ mask_bits

-- Whether a section is in the mask, as a digit.
abbrev pub in_mask : DocHitInfo → ℕ → ℕ
in_mask info section = bit section info.hit_section_ids_mask

pub update_section-IsWellFormed :
    (info : DocHitInfo) (section frequency : ℕ)
    → IsWellFormed info
    → IsWellFormed (update_section info section frequency)
unfolding update_section
update_section-IsWellFormed info section frequency v =
    ground (arith, length-set info.hit_term_frequencies section frequency)

-- UpdateSection adds one section with its frequency, unless the section is there already.
pub update_section_lem :
    (info : DocHitInfo) (section frequency other : ℕ)
    → IsWellFormed info
    → section < mask_bits
    → other < mask_bits
    → let updated = update_section info section frequency in
      (updated.document_id ≡ info.document_id)
      × (in_mask updated other ≡ max (in_mask info other) (if section == other then 1 else 0))
      × (hit_term_frequency updated other ≡ (
          if section == other
          then (if in_mask info section == 1 then hit_term_frequency info section else frequency)
          else hit_term_frequency info other))
unfolding update_section hit_term_frequency
update_section_lem info section frequency other v h k = ground (
  arith,
  mask_test info.hit_section_ids_mask section,
  bit_low mask_bits other (bit_or info.hit_section_ids_mask (2 ^ section)),
  bit-bit_or other info.hit_section_ids_mask (2 ^ section),
  bit-pow_two section other,
  bit-le-one section info.hit_section_ids_mask,
  bit-le-one other info.hit_section_ids_mask,
  get_or-set info.hit_term_frequencies section other frequency 0,
)

-- One round, seen at section `s`: `t` is the section of the round, `i`, `m`, `u`, `c` and `r` are
-- the digits of the info, the mask, the updated info, the cleared mask and the result.
round_mask :
    (t s i m u c r : ℕ)
    → i ≤ 1
    → (t ≡ s → m ≡ 1)
    → u ≡ max i (if t == s then 1 else 0)
    → c ≡ (if t == s then 0 else m)
    → r ≡ max u c
    → r ≡ max i m
round_mask t s i m u c r bound at_t eu ec er = ground arith

round_frequency :
    (t s i m u c it fi fo fu fr fit fot : ℕ)
    → i ≤ 1
    → (t ≡ s → (m ≡ 1) × (it ≡ i) × (fit ≡ fi) × (fot ≡ fo))
    → u ≡ max i (if t == s then 1 else 0)
    → c ≡ (if t == s then 0 else m)
    → fu ≡ (if t == s then (if it == 1 then fit else fot) else fi)
    → fr ≡ (if u == 1 then fu else if c == 1 then fo else fu)
    → fr ≡ (if i == 1 then fi else if m == 1 then fo else fi)
round_frequency t s i m u c it fi fo fu fr fit fot bound at_t eu ec ef er = ground arith

-- A round clears the lowest bit, so one more low digit is zero.
pub cleared_below :
    (fuel mask t i : ℕ)
    → suc fuel ≤ mask_bits
    → t < mask_bits
    → bit t mask ≡ 1
    → ((j : ℕ) → j < t → bit j mask ≡ 0)
    → ((j : ℕ) → j < mask_bits - suc fuel → bit j mask ≡ 0)
    → i < mask_bits - fuel
    → bit i (clear_section mask t) ≡ 0
cleared_below fuel mask t i f fits one below_t low h = elim (trichotomy t i) [
  | below p ↦ absurd (omega (arith, one, low t (omega arith)))
  | same p ↦ bit-clear_section mask t i fits (omega arith) ∙ rw ((==_iff t i).1 p)
  | above p ↦ bit-clear_section mask t i fits (omega arith) ∙ rw (lt→ne' t i p) (below_t i p)
]

-- The loop merges the sections of `mask`, if the rounds left reach its lowest bit.
merge_loop_lem :
    (fuel mask : ℕ) (other info : DocHitInfo)
    → IsWellFormed info
    → fuel ≤ mask_bits
    → mask < 2 ^ mask_bits
    → ((i : ℕ) → i < mask_bits - fuel → bit i mask ≡ 0)
    → let merged = merge_loop fuel mask other info in
      IsWellFormed merged
      × (merged.document_id ≡ info.document_id)
      × ((s : ℕ)
          → s < mask_bits
          → (in_mask merged s ≡ max (in_mask info s) (bit s mask))
            × (hit_term_frequency merged s ≡ (
                if in_mask info s == 1
                then hit_term_frequency info s
                else if bit s mask == 1
                then hit_term_frequency other s
                else hit_term_frequency info s)))
unfolding merge_loop
merge_loop_lem zero mask other info v f small low =
    let empty : mask ≡ 0 =
      bit_ext mask_bits mask 0 small (omega arith) λ i h. low i (omega arith) ∙ sym (bit-zero i) in
    rw empty (v, refl, λ s h. ground (arith, bit-zero s))
merge_loop_lem (suc fuel) mask other info v f small low = elim (Bool-cases (mask == 0)) [
  | inl done ↦
      let empty : mask ≡ 0 = (==_iff mask 0).0 done in
      rw empty (v, refl, λ s h. ground (arith, bit-zero s))
  | inr more ↦
      let section = count_trailing_zeros mask_bits mask in
      let lowest = count_trailing_zeros-lowest mask_bits mask (ground arith) small in
      let updated = update_section info section (hit_term_frequency other section) in
      let updates = λ (s : ℕ) (h : s < mask_bits).
        update_section_lem info section (hit_term_frequency other section) s v lowest.0 h in
      let rest =
        merge_loop_lem fuel (clear_section mask section) other updated
          (update_section-IsWellFormed info section (hit_term_frequency other section) v)
          (omega arith) (clear_section-lt mask section)
          (λ i h. cleared_below fuel mask section i f lowest.0 lowest.1 lowest.2 low h) in
      rw more (
        rest.0,
        rest.1 ∙ (updates 0 (omega arith)).0,
        λ s h.
            let at = updates s h in
            let cleared = bit-clear_section mask section s lowest.0 h in
            let small_bit = bit-le-one s info.hit_section_ids_mask in
            (
              round_mask section s _ _ _ _ _ small_bit (λ e. rw (← e) lowest.1) at.1 cleared
                  (rest.2 s h).0,
              round_frequency section s _ _ _ _ (in_mask info section) _ _ _ _
                  (hit_term_frequency info section) (hit_term_frequency other section) small_bit
                  (λ e. (rw (← e) lowest.1, rw e, rw e, rw e)) at.1 cleared at.2 (rest.2 s h).1,
            ),
      )
]

-- MergeSectionsFrom: the document stays, a section is in the result exactly when it is in one of
-- the two masks, and its frequency is the info's own if it had the section, else the other's.
pub merge_sections_from_lem :
    (info other : DocHitInfo) (section : ℕ)
    → IsWellFormed info
    → IsWellFormed other
    → section < mask_bits
    → let merged = merge_sections_from info other in
      IsWellFormed merged
      × (merged.document_id ≡ info.document_id)
      × (in_mask merged section ≡ max (in_mask info section) (in_mask other section))
      × (hit_term_frequency merged section ≡ (
          if in_mask info section == 1
          then hit_term_frequency info section
          else if in_mask other section == 1
          then hit_term_frequency other section
          else hit_term_frequency info section))
unfolding merge_sections_from
merge_sections_from_lem info other section v w h =
    let loop =
      merge_loop_lem mask_bits other.hit_section_ids_mask other info v (omega arith) w.mask_fits
        (λ i k. absurd (omega arith)) in
    (loop.0, loop.1, (loop.2 section h).0, (loop.2 section h).1)

document_id-merge_loop :
    (fuel mask : ℕ) (other info : DocHitInfo)
    → (merge_loop fuel mask other info).document_id ≡ info.document_id
unfolding merge_loop update_section
document_id-merge_loop zero mask other info = refl
document_id-merge_loop (suc fuel) mask other info =
    let section = count_trailing_zeros mask_bits mask in
    ground (
      arith,
      document_id-merge_loop fuel (clear_section mask section) other
          (update_section info section (hit_term_frequency other section)),
    )

pub document_id-merge_sections_from :
    (info other : DocHitInfo) → (merge_sections_from info other).document_id ≡ info.document_id
unfolding merge_sections_from
document_id-merge_sections_from info other =
    document_id-merge_loop mask_bits other.hit_section_ids_mask other info
