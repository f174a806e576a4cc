-- ===== src/DocHitInfo.antt =====
-- icing/index/hit/doc-hit-info.{h,cc}: all hits of a document, collapsed. A section mask is an
-- `int16_t`, kept as its 16-bit pattern; `hit_term_frequency_` is a list of 16 entries.
pub mod Mask
pub mod Merge
pub mod Order
use external_icing.Base.{
  ℕ, zero, suc, ◌+◌, ◌-◌, ◌/◌, ◌%◌, ◌^◌, bit_and, bit_or, Bool, true, false, not, List, [], ◌∷◌,
  ltb, ◌==◌, if◌then◌else◌, get_or, set, replicate,
}
use external_icing.Hit.{invalid_document_id}

-- kSectionIdMaskNone, and the width of SectionIdMask.
abbrev pub section_id_mask_none : ℕ
section_id_mask_none = 0

abbrev pub mask_bits : ℕ
mask_bits = 16

-- Hit::kNoTermFrequency
abbrev pub no_term_frequency : ℕ
no_term_frequency = 0

pub record DocHitInfo : Type 0 where
  pub document_id : ℕ
  pub hit_section_ids_mask : ℕ
  pub hit_term_frequencies : List ℕ

-- The constructor: the frequencies are cleared by `memset`.
unfoldable pub doc_hit_info : ℕ → ℕ → DocHitInfo
doc_hit_info document_id mask = record {
  document_id = document_id;
  hit_section_ids_mask = mask;
  hit_term_frequencies = replicate mask_bits no_term_frequency;
}

-- The values to which an iterator resets at its end: `DocHitInfo(kInvalidDocumentId)`.
unfoldable pub invalid_doc_hit_info : DocHitInfo
unfolding doc_hit_info
invalid_doc_hit_info = doc_hit_info invalid_document_id section_id_mask_none

-- hit_term_frequency(section_id)
unfoldable pub hit_term_frequency : DocHitInfo → ℕ → ℕ
hit_term_frequency info section_id = get_or info.hit_term_frequencies section_id no_term_frequency

-- UpdateSection
unfoldable pub update_section : DocHitInfo → ℕ → ℕ → DocHitInfo
update_section info section_id frequency =
    let section_id_mask = 2 ^ section_id in
    if bit_and info.hit_section_ids_mask section_id_mask == 0
    then record info {
      hit_section_ids_mask = bit_or info.hit_section_ids_mask section_id_mask % 2 ^ mask_bits;
      hit_term_frequencies = set info.hit_term_frequencies section_id frequency;
    }
    else info

-- __builtin_ctz: the place of the lowest one among `width` digits.
unfoldable pub count_trailing_zeros : ℕ → ℕ → ℕ
count_trailing_zeros zero n = 0
count_trailing_zeros (suc width) n =
    if n % 2 == 1 then 0 else suc (count_trailing_zeros width (n / 2))

-- `mask &= ~(1u << section_id)`, cut to the mask's width.
unfoldable pub clear_section : ℕ → ℕ → ℕ
clear_section mask section_id = bit_and mask (2 ^ 32 - 1 - 2 ^ section_id) % 2 ^ mask_bits

-- The loop of MergeSectionsFrom, on at most `fuel` rounds.
unfoldable pub merge_loop : ℕ → ℕ → DocHitInfo → DocHitInfo → DocHitInfo
unfolding update_section hit_term_frequency count_trailing_zeros clear_section
merge_loop zero other_mask other info = info
merge_loop (suc fuel) other_mask other info =
    let section_id = count_trailing_zeros mask_bits other_mask in
    let updated = update_section info section_id (hit_term_frequency other section_id) in
    let rest = merge_loop fuel (clear_section other_mask section_id) other updated in
    if other_mask == 0 then info else rest

-- MergeSectionsFrom. Each round clears a bit, so `mask_bits` rounds are enough.
unfoldable pub merge_sections_from : DocHitInfo → DocHitInfo → DocHitInfo
unfolding merge_loop
merge_sections_from info other = merge_loop mask_bits other.hit_section_ids_mask other info

-- The order of two `int16_t` bit patterns.
unfoldable pub signed_less : ℕ → ℕ → Bool
signed_less a b = ltb ((a + 2 ^ 15) % 2 ^ 16) ((b + 2 ^ 15) % 2 ^ 16)

-- `memcmp(a, b, n) < 0` on arrays of `uint8_t` of one length.
unfoldable pub memcmp_less : List ℕ → List ℕ → Bool
memcmp_less [] ys = false
memcmp_less (x ∷ xs) [] = false
memcmp_less (x ∷ xs) (y ∷ ys) = if x == y then memcmp_less xs ys else ltb x y

-- DocHitInfo::operator<
unfoldable pub less_than : DocHitInfo → DocHitInfo → Bool
unfolding signed_less memcmp_less
less_than info other =
    if not (info.document_id == other.document_id)
    then ltb other.document_id info.document_id
    else if not (info.hit_section_ids_mask == other.hit_section_ids_mask)
    then signed_less info.hit_section_ids_mask other.hit_section_ids_mask
    else memcmp_less info.hit_term_frequencies other.hit_term_frequencies

abbrev same_truth : Bool → Bool → Bool
same_truth true b = b
same_truth false b = not b

-- DocHitInfo::operator==
unfoldable pub equals : DocHitInfo → DocHitInfo → Bool
unfolding less_than
equals info other = same_truth (less_than info other) (less_than other info)
