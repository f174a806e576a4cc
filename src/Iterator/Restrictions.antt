-- ===== src/Iterator/Restrictions.antt =====
-- The results of queries whose iterator is a term, all documents, a filter or a section
-- restriction, over the loop of icing/scoring/scoring-processor.cc.
use external_icing.Base.{
  sym, ◌^◌, ℕ, suc, ◌≡◌, ◌≤◌, ◌<◌, length, refl, subst, Bool, Option, none, some, List, map, take,
  arith, ltb, if◌then◌else◌,
}
use external_icing.Hit.{invalid_document_id, max_document_id}
use external_icing.DocHitInfo.{DocHitInfo, mask_bits}
use external_icing.Iterator.{Match, doc, no_match, Below, Operations, Enumerates, loop_fuel}
use external_icing.Iterator.Matches.{find, Below-mono}
use external_icing.Iterator.AllDocumentId.{
  all_operations, all_operations-Enumerates, AllYields, make_all, make_all-AllYields, descending,
  plain, find-descending,
}
use external_icing.Iterator.TermLite.{
  complete, at_hit, make_term, term_operations, concat, retrieve_prefix,
}
use external_icing.Iterator.TermLite.Prefix.{
  AllValid, has_document, has_section, retrieve_prefix_lem,
}
use external_icing.Iterator.TermLite.Served.{
  TermYields, term_operations-Enumerates, make_term-TermYields,
}
use external_icing.Iterator.Select.{
  make_delegating, KeepsDoc, selected, selected-Below, SelectYields, find-selected, then_pick,
}
use external_icing.Iterator.Select.Filter.{
  DocumentFilterData, Targets, filter_operations, FilterYields, filter_operations-Enumerates,
  pick_shown, pick_shown-KeepsDoc,
}
use external_icing.Iterator.Select.SectionRestrict.{
  restrict_operations, RestrictYields, restrict_operations-Enumerates, pick_restricted,
  pick_restricted-KeepsDoc,
}
use external_icing.Iterator.Select.SectionRestrict.Lowest.{Restricts, then_pick-Restricts}
use external_icing.Scoring.{scored, score_all}
use external_icing.Scoring.Drain.{score_all_lem}

module _ {Score : Type 0} (get_score : DocHitInfo → Score) (num_to_score : ℕ) where
  -- Scoring a term's new iterator, whose hits are in falling order of valid document ids, collects
  -- the first `num_to_score` of these hits.
  pub score_all-term :
      (hits : List DocHitInfo)
      → Below invalid_document_id (map at_hit hits)
      → score_all get_score (term_operations (complete hits)) loop_fuel num_to_score make_term
        ≡ map (scored get_score) (take num_to_score (map at_hit hits))
  score_all-term hits b =
      score_all_lem get_score (term_operations (complete hits)) (TermYields (complete hits))
        (term_operations-Enumerates (complete hits)) num_to_score make_term (map at_hit hits)
        (make_term-TermYields hits b)

  -- Scoring the new iterator of a prefix that several terms match, where any of them has a hit and all
  -- hits are well-formed and of valid documents, collects the first `num_to_score` of its hits. These
  -- have each document once, in falling order; a document is among them exactly when a term has a hit of
  -- it, and has a section exactly when one of these hits has the section.
  pub score_all-prefix :
      (terms : List (List DocHitInfo))
      → 1 < length terms
      → 0 < length (concat terms)
      → AllValid (concat terms)
      → let hits = retrieve_prefix terms in
        (score_all get_score (term_operations (complete hits)) loop_fuel num_to_score make_term
          ≡ map (scored get_score) (take num_to_score (map at_hit hits)))
        × Below invalid_document_id (map at_hit hits)
        × ((d : ℕ) → has_document d hits ≡ has_document d (concat terms))
        × ((d section : ℕ)
            → section < mask_bits
            → has_section d section hits ≡ has_section d section (concat terms))
  score_all-prefix terms several some_hit valid =
      let (falls, documents, sections) = retrieve_prefix_lem terms several some_hit valid in
      (score_all-term (retrieve_prefix terms) falls, falls, documents, sections)

  -- Scoring the iterator of all documents up to a valid limit collects the first `num_to_score`
  -- documents from the limit downwards, each without sections; and none is left out.
  pub score_all-all :
      (limit : ℕ)
      → limit ≤ max_document_id
      → (score_all get_score all_operations loop_fuel num_to_score (make_all limit)
          ≡ map (scored get_score) (take num_to_score (descending (suc limit))))
        × ((d : ℕ)
            → find d (descending (suc limit))
              ≡ (if ltb d (suc limit) then some (plain d) else none))
  score_all-all limit h =
      let yields = subst (AllYields (make_all limit)) (ground arith) (make_all-AllYields limit) in
      (
        score_all_lem get_score all_operations AllYields all_operations-Enumerates num_to_score
            (make_all limit) (descending (suc limit)) yields,
        λ d. find-descending d (suc limit),
      )

  module _ {S : Type 0} (it : Operations S) (Yields : S → List Match → Type 0)
      (law : Enumerates S it Yields) (get_document_filter_data : ℕ → Option DocumentFilterData)
      (s : S) (ms : List Match) (yields : Yields s ms) where
    starts :
        (pick : Match → Option Match) (keeps : KeepsDoc pick)
        → SelectYields it pick keeps Yields law (make_delegating s) (selected pick ms)
    unfolding make_delegating no_match
    starts pick keeps = record {
      before = ms;
      delegate_yields = yields;
      rest = refl;
      falls = selected-Below pick keeps invalid_document_id ms (
          Below-mono (doc (it.current s)) invalid_document_id ms (law.bounded s ms yields)
            (law.falling s ms yields));
      bound = omega arith;
    }

    -- Scoring a filter over an iterator that keeps the contract collects the first `num_to_score`
    -- of the matches that it selects; and it selects a document's match exactly when the document
    -- exists and has filter data of a wanted namespace and a wanted schema type.
    pub score_all-filter :
        {Name : Type 0} (does_document_exist : ℕ → Bool) (options : Targets Name)
        → let pick = pick_shown it does_document_exist get_document_filter_data options in
          (score_all get_score
              (filter_operations it does_document_exist get_document_filter_data options)
              loop_fuel
              num_to_score
              (make_delegating s)
            ≡ map (scored get_score) (take num_to_score (selected pick ms)))
          × ((d : ℕ) → find d (selected pick ms) ≡ then_pick pick (find d ms))
    score_all-filter exist options =
        let pick = pick_shown it exist get_document_filter_data options in
        let keeps = pick_shown-KeepsDoc it exist get_document_filter_data options in
        let drained =
          score_all_lem get_score (filter_operations it exist get_document_filter_data options)
            (FilterYields it exist get_document_filter_data options Yields law)
            (filter_operations-Enumerates it exist get_document_filter_data options Yields law)
            num_to_score (make_delegating s) (selected pick ms) (starts pick keeps) in
        (drained, λ d. find-selected pick keeps d (doc (it.current s)) ms (law.falling s ms yields))

    -- Scoring a section restriction of an iterator that keeps the contract, and whose matches have masks
    -- of `mask_bits` bits, collects the first `num_to_score` of a list of matches in falling order of
    -- documents. A document's match is in this list exactly when the document has filter data and its
    -- schema type gives a path that is the target's to a section of the match; it then has the match's
    -- members, with the lowest of these sections as the intersection mask.
    pub score_all-restrict :
        {P : Type 0} (path_equal : P → P → Bool) (get_section_path : ℕ → ℕ → Option P)
        (target_section : P)
        → ((d : ℕ) (m : Match) → find d ms ≡ some m → m.info.hit_section_ids_mask < 2 ^ mask_bits)
        → (kept : List Match) × (score_all get_score
              (restrict_operations path_equal get_section_path target_section it
                get_document_filter_data)
              loop_fuel
              num_to_score
              (make_delegating s)
            ≡ map (scored get_score) (take num_to_score kept))
          × Below invalid_document_id kept
          × ((d : ℕ)
              → Restricts path_equal get_section_path target_section get_document_filter_data
                  (find d ms)
                  (find d kept))
    score_all-restrict equal path target masks =
        let pick = pick_restricted equal path target it get_document_filter_data in
        let keeps = pick_restricted-KeepsDoc equal path target it get_document_filter_data in
        let start = starts pick keeps in
        let drained =
          score_all_lem get_score
            (restrict_operations equal path target it get_document_filter_data)
            (RestrictYields equal path target it get_document_filter_data Yields law)
            (restrict_operations-Enumerates equal path target it get_document_filter_data Yields
              law)
            num_to_score (make_delegating s) (selected pick ms) start in
        let below = law.falling s ms yields in
        (
          selected pick ms,
          drained,
          Below-mono (doc (it.current s)) invalid_document_id (selected pick ms)
              (law.bounded s ms yields) (selected-Below pick keeps (doc (it.current s)) ms below),
          λ d.
              subst (Restricts equal path target get_document_filter_data (find d ms))
                (sym (find-selected pick keeps d (doc (it.current s)) ms below))
                (then_pick-Restricts equal path target it get_document_filter_data (find d ms)
                  (masks d)),
        )
