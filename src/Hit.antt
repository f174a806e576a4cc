-- ===== src/Hit.antt =====
-- icing/index/hit/hit.{h,cc}, with the ids of icing/store/document-id.h and icing/schema/section.h:
-- one occurrence of a term in a section of a document, packed into a 32-bit word.
-- A document id is a ℕ: the constructor is called with ids from 0 to `invalid_document_id`.
pub mod Bitfield
pub mod Fields
pub mod Order
use external_icing.Base.{
  ℕ, ◌+◌, ◌-◌, ◌/◌, ◌^◌, ◌≤◌, ◌<◌, Bool, true, false, not, ltb, ◌==◌, if◌then◌else◌,
}
use Bitfield.{bitfield_get, bitfield_set}

-- kDocumentIdBits
abbrev pub document_id_bits : ℕ
document_id_bits = 20

-- kInvalidDocumentId
abbrev pub invalid_document_id : ℕ
invalid_document_id = 2 ^ document_id_bits - 1

-- kMaxDocumentId
abbrev pub max_document_id : ℕ
max_document_id = invalid_document_id - 1

-- kSectionIdBits
abbrev pub section_id_bits : ℕ
section_id_bits = 4

-- kMaxSectionId
abbrev pub max_section_id : ℕ
max_section_id = 2 ^ section_id_bits - 1

-- The flags kInPrefixSection, kPrefixHit, kHasTermFrequency, and kNumFlags.
abbrev pub in_prefix_section_flag : ℕ
in_prefix_section_flag = 0

abbrev pub prefix_hit_flag : ℕ
prefix_hit_flag = 1

abbrev pub has_term_frequency_flag : ℕ
has_term_frequency_flag = 2

abbrev pub num_flags : ℕ
num_flags = 3

-- Hit::kInvalidValue, Hit::kDefaultTermFrequency
abbrev pub invalid_value : ℕ
invalid_value = 2 ^ 32 - 1

abbrev pub default_term_frequency : ℕ
default_term_frequency = 1

-- `value_` and `term_frequency_`
pub record Hit : Type 0 where
  pub value : ℕ
  pub term_frequency : ℕ

unfoldable pub invert_document_id : ℕ → ℕ
invert_document_id document_id = max_document_id + 1 - document_id

abbrev pub to_word : Bool → ℕ
to_word true = 1
to_word false = 0

-- The value that the constructor of Hit builds, field by field.
unfoldable pub hit_value : ℕ → ℕ → ℕ → Bool → Bool → ℕ
unfolding invert_document_id
hit_value section_id document_id term_frequency is_in_prefix_section is_prefix_hit =
    let with_document =
      bitfield_set (invert_document_id document_id) (section_id_bits + num_flags) document_id_bits
        0 in
    let with_section = bitfield_set section_id num_flags section_id_bits with_document in
    let with_frequency =
      bitfield_set (to_word (not (term_frequency == default_term_frequency)))
        has_term_frequency_flag 1 with_section in
    let with_prefix_hit = bitfield_set (to_word is_prefix_hit) prefix_hit_flag 1 with_frequency in
    bitfield_set (to_word is_in_prefix_section) in_prefix_section_flag 1 with_prefix_hit

-- The constructor of Hit from its parts.
unfoldable pub hit : ℕ → ℕ → ℕ → Bool → Bool → Hit
hit section_id document_id term_frequency is_in_prefix_section is_prefix_hit = record {
  value = hit_value section_id document_id term_frequency is_in_prefix_section is_prefix_hit;
  term_frequency = term_frequency;
}

unfoldable pub is_valid : Hit → Bool
is_valid h = not (h.value == invalid_value)

unfoldable pub document_id : Hit → ℕ
unfolding invert_document_id
document_id h =
    invert_document_id (bitfield_get h.value (section_id_bits + num_flags) document_id_bits)

unfoldable pub section_id : Hit → ℕ
section_id h = bitfield_get h.value num_flags section_id_bits

unfoldable pub has_term_frequency : Hit → Bool
has_term_frequency h = not (bitfield_get h.value has_term_frequency_flag 1 == 0)

unfoldable pub is_prefix_hit : Hit → Bool
is_prefix_hit h = not (bitfield_get h.value prefix_hit_flag 1 == 0)

unfoldable pub is_in_prefix_section : Hit → Bool
is_in_prefix_section h = not (bitfield_get h.value in_prefix_section_flag 1 == 0)

-- Hit::operator<
unfoldable pub less_than : Hit → Hit → Bool
less_than h h2 = ltb h.value h2.value

-- Hit::EqualsDocumentIdAndSectionId
unfoldable pub equals_document_id_and_section_id : Hit → Hit → Bool
equals_document_id_and_section_id h h2 = h.value / 2 ^ num_flags == h2.value / 2 ^ num_flags
