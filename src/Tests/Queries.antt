-- ===== src/Tests/Queries.antt =====
-- Queries over two short lists of hits, run and as instances of the theorems on whole queries.
use external_icing.Base.{
  ℕ, suc, ◌+◌, ◌*◌, ◌<◌, ◌^◌, ◌≡◌, refl, true, Option, none, some, List, [], ◌∷◌, map, take, arith,
  ◌==◌, if◌then◌else◌,
}
use external_icing.Hit.{invalid_document_id}
use external_icing.DocHitInfo.{mask_bits, merge_sections_from, DocHitInfo, doc_hit_info}
use external_icing.Iterator.{Match, doc, no_match, Below, loop_fuel}
use external_icing.Iterator.Matches.{join, find, meet_options}
use external_icing.Iterator.And.{and_operations, make_and}
use external_icing.Iterator.Or.{or_advance, choose, advance_side, or_operations, make_or}
use external_icing.Iterator.Or.Lists.{union, either_match}
use external_icing.Iterator.Not.{not_operations, make_not}
use external_icing.Iterator.Not.Missing.{missing, unless_found}
use external_icing.Iterator.AllDocumentId.{plain}
use external_icing.Iterator.TermLite.{
  complete, term_advance, serve, at_hit, make_term, term_operations,
}
use external_icing.Iterator.TermLite.Served.{
  TermYields, term_operations-Enumerates, make_term-TermYields,
}
use external_icing.Iterator.Select.{make_delegating, selected, then_pick}
use external_icing.Iterator.Select.Filter.{
  DocumentFilterData, Targets, make_targets, filter_operations, pick_shown,
}
use external_icing.Iterator.Select.SectionRestrict.{restrict_operations}
use external_icing.Iterator.Select.SectionRestrict.Lowest.{Restricts}
use external_icing.Iterator.Queries.{score_all-and, score_all-or, score_all-not}
use external_icing.Iterator.Restrictions.{score_all-filter, score_all-restrict}
use external_icing.Scoring.{ScoredDocumentHit, scored, score_all}

abbrev left_hits : List DocHitInfo
left_hits = doc_hit_info 7 1 ∷ doc_hit_info 5 2 ∷ doc_hit_info 2 4 ∷ []

abbrev right_hits : List DocHitInfo
right_hits = doc_hit_info 6 1 ∷ doc_hit_info 5 8 ∷ doc_hit_info 2 1 ∷ []

left_hits-Below : Below invalid_document_id (map at_hit left_hits)
unfolding doc_hit_info
left_hits-Below = (omega arith, (omega arith, (omega arith, tt)))

right_hits-Below : Below invalid_document_id (map at_hit right_hits)
unfolding doc_hit_info
right_hits-Below = (omega arith, (omega arith, (omega arith, tt)))

left_hits-low : Below (suc 9) (map at_hit left_hits)
unfolding doc_hit_info
left_hits-low = (omega arith, (omega arith, (omega arith, tt)))

make_term-doc : doc (make_term.base) ≡ invalid_document_id
unfolding make_term no_match
make_term-doc = refl

abbrev age : DocHitInfo → ℕ
age info = info.document_id

abbrev filter_data_of : ℕ → Option DocumentFilterData
filter_data_of d = if d == 7 then none else some (record { namespace_id = d; schema_type_id = 1 })

abbrev only_small : Targets ℕ
only_small = make_targets some some (2 ∷ 5 ∷ []) []

abbrev path_of : ℕ → ℕ → Option ℕ
path_of schema_type_id section_id = some section_id

score_all-and_example :
    (score_all age
        (and_operations
          (term_operations (complete left_hits))
          (term_operations (complete right_hits)))
        loop_fuel
        10
        (make_and
          (term_operations (complete left_hits))
          (term_operations (complete right_hits))
          make_term
          make_term)
      ≡ map (scored age) (take 10 (join (map at_hit left_hits) (map at_hit right_hits))))
    × ((d : ℕ)
        → find d (join (map at_hit left_hits) (map at_hit right_hits))
          ≡ meet_options (find d (map at_hit left_hits)) (find d (map at_hit right_hits)))
score_all-and_example =
    score_all-and age 10 (term_operations (complete left_hits))
      (term_operations (complete right_hits)) (TermYields (complete left_hits))
      (TermYields (complete right_hits)) (term_operations-Enumerates (complete left_hits))
      (term_operations-Enumerates (complete right_hits)) make_term make_term (map at_hit left_hits)
      (map at_hit right_hits) (make_term-TermYields left_hits left_hits-Below)
      (make_term-TermYields right_hits right_hits-Below)

score_all-or_example :
    (score_all age
        (or_operations
          (term_operations (complete left_hits))
          (term_operations (complete right_hits)))
        loop_fuel
        10
        (make_or
          (term_operations (complete left_hits))
          (term_operations (complete right_hits))
          make_term
          make_term)
      ≡ map (scored age) (take 10 (union (map at_hit left_hits) (map at_hit right_hits))))
    × ((d : ℕ)
        → find d (union (map at_hit left_hits) (map at_hit right_hits))
          ≡ either_match (find d (map at_hit left_hits)) (find d (map at_hit right_hits)))
score_all-or_example =
    score_all-or age 10 (term_operations (complete left_hits))
      (term_operations (complete right_hits)) (TermYields (complete left_hits))
      (TermYields (complete right_hits)) (term_operations-Enumerates (complete left_hits))
      (term_operations-Enumerates (complete right_hits)) make_term make_term (map at_hit left_hits)
      (map at_hit right_hits) (make_term-TermYields left_hits left_hits-Below)
      (make_term-TermYields right_hits right_hits-Below)

score_all-not_example :
    (score_all age
        (not_operations (term_operations (complete left_hits)))
        loop_fuel
        10
        (make_not (term_operations (complete left_hits)) make_term 9)
      ≡ map (scored age) (take 10 (missing (suc 9) (map at_hit left_hits))))
    × ((d : ℕ)
        → find d (missing (suc 9) (map at_hit left_hits))
          ≡ unless_found (find d (map at_hit left_hits)) d (suc 9))
score_all-not_example =
    score_all-not age 10 (term_operations (complete left_hits)) (TermYields (complete left_hits))
      (term_operations-Enumerates (complete left_hits)) make_term 9 (map at_hit left_hits)
      (omega arith) make_term-doc (make_term-TermYields left_hits left_hits-Below) left_hits-low

score_all-filter_example :
    (score_all age
        (filter_operations
          (term_operations (complete left_hits))
          (λ d. true)
          filter_data_of
          only_small)
        loop_fuel
        10
        (make_delegating make_term)
      ≡ map (scored age) (
          take 10 (
            selected
              (pick_shown
                (term_operations (complete left_hits))
                (λ d. true)
                filter_data_of
                only_small)
              (map at_hit left_hits))))
    × ((d : ℕ)
        → find d (
            selected
              (pick_shown
                (term_operations (complete left_hits))
                (λ d. true)
                filter_data_of
                only_small)
              (map at_hit left_hits))
          ≡ then_pick
              (pick_shown
                (term_operations (complete left_hits))
                (λ d. true)
                filter_data_of
                only_small)
              (find d (map at_hit left_hits)))
score_all-filter_example =
    score_all-filter age 10 (term_operations (complete left_hits)) (TermYields (complete left_hits))
      (term_operations-Enumerates (complete left_hits)) filter_data_of make_term
      (map at_hit left_hits) (make_term-TermYields left_hits left_hits-Below) (λ d. true) only_small

left_hits-masks :
    (d : ℕ) (m : Match)
    → find d (map at_hit left_hits) ≡ some m
    → m.info.hit_section_ids_mask < 2 ^ mask_bits
unfolding doc_hit_info
left_hits-masks d m there = ground (arith, there)

score_all-restrict_example :
    (kept : List Match) × (score_all age
        (restrict_operations ◌==◌ path_of 1 (term_operations (complete left_hits)) filter_data_of)
        loop_fuel
        10
        (make_delegating make_term)
      ≡ map (scored age) (take 10 kept))
    × Below invalid_document_id kept
    × ((d : ℕ)
        → Restricts ◌==◌ path_of 1 filter_data_of (find d (map at_hit left_hits)) (find d kept))
score_all-restrict_example =
    score_all-restrict age 10 (term_operations (complete left_hits))
      (TermYields (complete left_hits)) (term_operations-Enumerates (complete left_hits))
      filter_data_of make_term (map at_hit left_hits)
      (make_term-TermYields left_hits left_hits-Below) ◌==◌ path_of 1 left_hits-masks

abbrev digest : ScoredDocumentHit ℕ → ℕ
digest h = h.document_id * 100 + h.hit_section_id_mask

-- The OR of the two lists has five documents, with the sections of both where they meet.
or_run :
    map digest (
      score_all age
        (or_operations
          (term_operations (complete left_hits))
          (term_operations (complete right_hits)))
        10
        10
        (make_or
          (term_operations (complete left_hits))
          (term_operations (complete right_hits))
          make_term
          make_term))
    ≡ 701 ∷ 601 ∷ 510 ∷ 205 ∷ []
unfolding score_all or_advance choose advance_side term_advance serve make_or make_term scored
    no_match doc_hit_info merge_sections_from
or_run = refl

-- The join of the two lists, which is what their AND yields.
join_run :
    map digest (map (scored age) (join (map at_hit left_hits) (map at_hit right_hits)))
    ≡ 510 ∷ 205 ∷ []
unfolding scored doc_hit_info merge_sections_from
join_run = refl

-- The documents up to 9 that the left list lacks.
missing_run :
    map digest (map (scored age) (missing 10 (map at_hit left_hits)))
    ≡ 900 ∷ 800 ∷ 600 ∷ 400 ∷ 300 ∷ 100 ∷ 0 ∷ []
unfolding scored doc_hit_info plain no_match
missing_run = refl
