-- ===== src/Tests/Prefixes.antt =====
-- Prefixes that several terms match.
use external_icing.Base.{ℕ, ◌+◌, ◌*◌, ◌^◌, ◌<◌, ◌≡◌, refl, List, [], ◌∷◌, map, take, arith}
use external_icing.Hit.{invalid_document_id}
use external_icing.DocHitInfo.{DocHitInfo, mask_bits, doc_hit_info, merge_sections_from, less_than}
use external_icing.DocHitInfo.Merge.{IsWellFormed}
use external_icing.Iterator.{doc, Below, loop_fuel, ok}
use external_icing.Iterator.TermLite.{
  complete, at_hit, make_term, term_operations, term_advance, concat, retrieve_prefix,
}
use external_icing.Iterator.TermLite.Prefix.{
  AllValid, has_document, has_section, retrieve_prefix-none,
}
use external_icing.Iterator.Restrictions.{score_all-prefix}
use external_icing.Scoring.{scored, score_all}

abbrev first_hits : List DocHitInfo
first_hits = doc_hit_info 6 1 ∷ doc_hit_info 5 8 ∷ doc_hit_info 2 1 ∷ []

abbrev second_hits : List DocHitInfo
second_hits = doc_hit_info 7 1 ∷ doc_hit_info 5 2 ∷ doc_hit_info 2 4 ∷ []

abbrev age : DocHitInfo → ℕ
age info = info.document_id

abbrev prefix_terms : List (List DocHitInfo)
prefix_terms = first_hits ∷ second_hits ∷ []

doc_hit_info-IsWellFormed :
    (document_id mask : ℕ) → mask < 2 ^ mask_bits → IsWellFormed (doc_hit_info document_id mask)
unfolding doc_hit_info
doc_hit_info-IsWellFormed document_id mask h = record { mask_fits = h; frequencies = refl }

prefix_terms-AllValid : AllValid (concat prefix_terms)
unfolding doc_hit_info
prefix_terms-AllValid = (
  omega arith,
  doc_hit_info-IsWellFormed 6 1 (omega arith),
  (
    omega arith,
    doc_hit_info-IsWellFormed 5 8 (omega arith),
    (
      omega arith,
      doc_hit_info-IsWellFormed 2 1 (omega arith),
      (
        omega arith,
        doc_hit_info-IsWellFormed 7 1 (omega arith),
        (
          omega arith,
          doc_hit_info-IsWellFormed 5 2 (omega arith),
          (omega arith, doc_hit_info-IsWellFormed 2 4 (omega arith), tt),
        ),
      ),
    ),
  ),
)

score_all-prefix_example :
    let hits = retrieve_prefix prefix_terms in
    (score_all age (term_operations (complete hits)) loop_fuel 10 make_term
      ≡ map (scored age) (take 10 (map at_hit hits)))
    × Below invalid_document_id (map at_hit hits)
    × ((d : ℕ) → has_document d hits ≡ has_document d (concat prefix_terms))
    × ((d section : ℕ)
        → section < mask_bits
        → has_section d section hits ≡ has_section d section (concat prefix_terms))
score_all-prefix_example =
    score_all-prefix age 10 prefix_terms (omega arith) (omega arith) prefix_terms-AllValid

abbrev hits_digest : DocHitInfo → ℕ
hits_digest h = h.document_id * 100 + h.hit_section_ids_mask

prefix_run : map hits_digest (retrieve_prefix prefix_terms) ≡ 701 ∷ 601 ∷ 510 ∷ 205 ∷ []
unfolding retrieve_prefix doc_hit_info merge_sections_from less_than
prefix_run = refl

retrieve_prefix-none_example :
    let (status, t) = term_advance (complete (retrieve_prefix ([] ∷ [] ∷ []))) make_term in
    (status ≡ ok) × (doc t.base ≡ invalid_document_id)
retrieve_prefix-none_example = retrieve_prefix-none ([] ∷ [] ∷ []) (omega arith) refl
