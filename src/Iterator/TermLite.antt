-- ===== src/Iterator/TermLite.antt =====
-- DocHitInfoIteratorTermLite and its subclasses, icing/index/lite/doc-hit-info-iterator-term-lite.cc:
-- the leaf of a query, which serves the hits of a term or of a prefix from a vector.
-- The virtual RetrieveMoreHits is a parameter of `term_advance`; `retrieve_prefix` is the second
-- half of the prefix subclass's, after the lexicon and the index have given the hits of each term.
pub mod Served
pub mod Prefix
use external_icing.Base.{
  ℕ, zero, suc, ◌+◌, Bool, true, false, List, [], ◌∷◌, ◌++◌, Option, none, some, ltb, ◌==◌,
  if◌then◌else◌, length, get_elem?,
}
use external_icing.DocHitInfo.{DocHitInfo, invalid_doc_hit_info, less_than, merge_sections_from}
use external_icing.Iterator.{Match, no_match, Status, ok, resource_exhausted, Operations}

-- `none` is the index -1, before the hits are retrieved.
pub record TermLite : Type 0 where
  pub cached_hits : List DocHitInfo
  pub cached_hits_idx : Option ℕ
  pub base : Match

-- The constructor.
unfoldable pub make_term : TermLite
make_term = record { cached_hits = []; cached_hits_idx = none; base = no_match }

-- The members at a hit.
abbrev pub at_hit : DocHitInfo → Match
at_hit h = record { info = h; intersect_mask = h.hit_section_ids_mask }

-- The second half of Advance, with the index moved to `i`.
unfoldable pub serve : List DocHitInfo → ℕ → Status × TermLite
serve hits i = elim (get_elem? hits i) [
  | none ↦
      (resource_exhausted, record { cached_hits = hits; cached_hits_idx = some i; base = no_match })
  | some h ↦ (ok, record { cached_hits = hits; cached_hits_idx = some i; base = at_hit h })
]

-- What RetrieveMoreHits appends to the vector: all hits, or those before the error that it returns.
pub data Retrieved : Type 0 where
  complete : List DocHitInfo → Retrieved
  interrupted : List DocHitInfo → Retrieved

-- Advance
unfoldable pub term_advance : Retrieved → TermLite → Status × TermLite
unfolding serve
term_advance retrieved t = elim t.cached_hits_idx [
  | none ↦ elim retrieved [
    | interrupted hits ↦ (resource_exhausted, record t { cached_hits = t.cached_hits ++ hits })
    | complete hits ↦ serve (t.cached_hits ++ hits) 0
  ]
  | some i ↦ serve t.cached_hits (suc i)
]

abbrev pub term_operations : Retrieved → Operations TermLite
term_operations retrieved = record { advance = term_advance retrieved; current = λ t. t.base }

-- std::sort by DocHitInfo::operator<
unfoldable pub insert_hit : DocHitInfo → List DocHitInfo → List DocHitInfo
insert_hit h [] = h ∷ []
insert_hit h (k ∷ hits) = if less_than k h then k ∷ insert_hit h hits else h ∷ k ∷ hits

unfoldable pub sort_hits : List DocHitInfo → List DocHitInfo
unfolding insert_hit
sort_hits [] = []
sort_hits (h ∷ hits) = insert_hit h (sort_hits hits)

-- The loop of SortAndDedupeDocumentIds: `collapsed` is the hit at `idx`.
unfoldable pub collapse : DocHitInfo → List DocHitInfo → List DocHitInfo
collapse collapsed [] = collapsed ∷ []
collapse collapsed (h ∷ hits) =
    let merged = collapse (merge_sections_from collapsed h) hits in
    let fresh = collapsed ∷ collapse h hits in
    if collapsed.document_id == h.document_id then merged else fresh

-- The loop and the final `resize(idx + 1)`, which makes a default hit of an empty vector.
unfoldable pub dedupe : List DocHitInfo → List DocHitInfo
unfolding collapse
dedupe [] = invalid_doc_hit_info ∷ []
dedupe (h ∷ hits) = collapse h hits

-- SortAndDedupeDocumentIds
unfoldable pub sort_and_dedupe_document_ids : List DocHitInfo → List DocHitInfo
unfolding sort_hits dedupe
sort_and_dedupe_document_ids hits = dedupe (sort_hits hits)

abbrev pub concat : List (List DocHitInfo) → List DocHitInfo
concat [] = []
concat (hits ∷ terms) = hits ++ concat terms

-- What DocHitInfoIteratorTermLitePrefix::RetrieveMoreHits leaves in the vector, when AppendHits
-- gives these hits for the matching terms.
unfoldable pub retrieve_prefix : List (List DocHitInfo) → List DocHitInfo
unfolding sort_and_dedupe_document_ids
retrieve_prefix terms =
    if ltb 1 (length terms) then sort_and_dedupe_document_ids (concat terms) else concat terms
