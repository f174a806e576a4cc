-- ===== src/Tests/Hits.antt =====
-- Hits and their collapsed form at concrete inputs.
use external_icing.Base.{ℕ, ◌+◌, ◌^◌, ◌≡◌, refl, true, false, not, max, arith, ◌==◌, if◌then◌else◌}
use external_icing.Hit
use external_icing.Hit.Fields.{hit_fields}
use external_icing.DocHitInfo.{
  DocHitInfo, doc_hit_info, hit_term_frequency, update_section, merge_sections_from,
}
use external_icing.DocHitInfo.Merge.{IsWellFormed, in_mask, merge_sections_from_lem}

hit_fields_example :
    let h = Hit.hit 3 1000 40 true false in
    (Hit.document_id h ≡ 1000)
    × (Hit.section_id h ≡ 3)
    × (Hit.is_prefix_hit h ≡ false)
    × (Hit.is_in_prefix_section h ≡ true)
    × (Hit.has_term_frequency h ≡ not (40 == Hit.default_term_frequency))
    × (h.term_frequency ≡ 40)
    × (Hit.is_valid h ≡ true)
hit_fields_example = hit_fields 3 1000 40 true false (omega arith) (omega arith)

abbrev a_document : ℕ
a_document = 1000

abbrev a_section : ℕ
a_section = 3

abbrev one : DocHitInfo
one = update_section (doc_hit_info 7 0) 1 5

abbrev two : DocHitInfo
two = update_section (update_section (doc_hit_info 7 0) 1 9) 15 2

one-IsWellFormed : IsWellFormed one
unfolding update_section doc_hit_info
one-IsWellFormed = record { mask_fits = omega arith; frequencies = refl }

two-IsWellFormed : IsWellFormed two
unfolding update_section doc_hit_info
two-IsWellFormed = record { mask_fits = omega arith; frequencies = refl }

merged_sections :
    let merged = merge_sections_from one two in
    IsWellFormed merged
    × (merged.document_id ≡ one.document_id)
    × (in_mask merged 15 ≡ max (in_mask one 15) (in_mask two 15))
    × (hit_term_frequency merged 15 ≡ (
        if in_mask one 15 == 1
        then hit_term_frequency one 15
        else if in_mask two 15 == 1
        then hit_term_frequency two 15
        else hit_term_frequency one 15))
merged_sections = merge_sections_from_lem one two 15 one-IsWellFormed two-IsWellFormed (omega arith)

-- Merging adds section 15 and keeps the frequency of section 1.
merge_run :
    let merged = merge_sections_from one two in
    (merged.hit_section_ids_mask ≡ 2 ^ 15 + 2)
    × (hit_term_frequency merged 1 ≡ 5)
    × (hit_term_frequency merged 15 ≡ 2)
unfolding merge_sections_from update_section doc_hit_info hit_term_frequency
merge_run = (refl, refl, refl)
