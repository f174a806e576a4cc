-- ===== src/Iterator/TermLite/Prefix.antt =====
-- The hits of a prefix: SortAndDedupeDocumentIds of
-- icing/index/lite/doc-hit-info-iterator-term-lite.cc.
use external_icing.Base.{
  ℕ, suc, ◌≤◌, ◌<◌, ◌≡◌, refl, ap, ap₂, sym, ◌∙◌, subst, Bool, true, false, ◌||◌, List, [], ◌∷◌,
  ltb, ◌==◌, if◌then◌else◌, arith, map, max, length, Bool-cases, inl, inr,
}
use external_icing.Hit.{invalid_document_id, max_document_id}
use external_icing.DocHitInfo.{
  DocHitInfo, mask_bits, less_than, merge_sections_from, invalid_doc_hit_info, doc_hit_info,
}
use external_icing.DocHitInfo.Merge.{
  IsWellFormed, in_mask, merge_sections_from_lem, document_id-merge_sections_from,
}
use external_icing.Iterator.{Below, doc, ok}
use external_icing.Iterator.Matches.{Below-mono}
use external_icing.Iterator.TermLite.{
  complete, at_hit, insert_hit, sort_hits, collapse, dedupe, sort_and_dedupe_document_ids, concat,
  retrieve_prefix, term_advance, serve, make_term,
}

-- Whether any hit is of the document, and whether any of these has the section.
abbrev pub has_document : ℕ → List DocHitInfo → Bool
has_document d [] = false
has_document d (h ∷ hits) = (h.document_id == d) || has_document d hits

abbrev section_in : ℕ → ℕ → DocHitInfo → ℕ
section_in d section h = if h.document_id == d then in_mask h section else 0

abbrev pub has_section : ℕ → ℕ → List DocHitInfo → ℕ
has_section d section [] = 0
has_section d section (h ∷ hits) = max (section_in d section h) (has_section d section hits)

-- Well-formed hits of valid documents.
abbrev pub AllValid : List DocHitInfo → Type 0
AllValid [] = Unit {0}
AllValid (h ∷ hits) = (h.document_id ≤ max_document_id) × IsWellFormed h × AllValid hits

-- Hits whose documents do not rise.
abbrev Falling : ℕ → List DocHitInfo → Type 0
Falling n [] = Unit {0}
Falling n (h ∷ hits) = (h.document_id ≤ n) × Falling h.document_id hits

less_than-true : (k h : DocHitInfo) → less_than k h ≡ true → h.document_id ≤ k.document_id
unfolding less_than
less_than-true k h less = ground arith

less_than-false : (k h : DocHitInfo) → less_than k h ≡ false → k.document_id ≤ h.document_id
unfolding less_than
less_than-false k h less = ground arith

insert_hit-Falling :
    (n : ℕ) (h : DocHitInfo) (hits : List DocHitInfo)
    → h.document_id ≤ n
    → Falling n hits
    → Falling n (insert_hit h hits)
unfolding insert_hit
insert_hit-Falling n h [] small falls = (small, tt)
insert_hit-Falling n h (k ∷ hits) small falls = elim (Bool-cases (less_than k h)) [
  | inl less ↦
      rw less (falls.0, insert_hit-Falling k.document_id h hits (less_than-true k h less) falls.1)
  | inr more ↦ rw more (small, (less_than-false k h more, falls.1))
]

insert_hit-AllValid :
    (h : DocHitInfo) (hits : List DocHitInfo)
    → h.document_id ≤ max_document_id
    → IsWellFormed h
    → AllValid hits
    → AllValid (insert_hit h hits)
unfolding insert_hit
insert_hit-AllValid h [] small well valid = (small, well, tt)
insert_hit-AllValid h (k ∷ hits) small well valid = elim (Bool-cases (less_than k h)) [
  | inl less ↦ rw less (valid.0, valid.1, insert_hit-AllValid h hits small well valid.2)
  | inr more ↦ rw more (small, well, valid)
]

has_document-insert_hit :
    (d : ℕ) (h : DocHitInfo) (hits : List DocHitInfo)
    → has_document d (insert_hit h hits) ≡ (h.document_id == d) || has_document d hits
unfolding insert_hit
has_document-insert_hit d h [] = refl
has_document-insert_hit d h (k ∷ hits) = ground (arith, has_document-insert_hit d h hits)

has_section-insert_hit :
    (d section : ℕ) (h : DocHitInfo) (hits : List DocHitInfo)
    → has_section d section (insert_hit h hits)
      ≡ max (section_in d section h) (has_section d section hits)
unfolding insert_hit
has_section-insert_hit d section h [] = refl
has_section-insert_hit d section h (k ∷ hits) =
    ground (arith, has_section-insert_hit d section h hits)

-- Sorting.
record Sorts (hits sorted : List DocHitInfo) : Type 0 where
  falls : Falling max_document_id sorted
  valid : AllValid sorted
  documents : (d : ℕ) → has_document d sorted ≡ has_document d hits
  sections : (d section : ℕ) → has_section d section sorted ≡ has_section d section hits

sort_hits-Sorts : (hits : List DocHitInfo) → AllValid hits → Sorts hits (sort_hits hits)
unfolding sort_hits
sort_hits-Sorts [] valid = record {
  falls = tt;
  valid = tt;
  documents = λ d. refl;
  sections = λ d section. refl;
}
sort_hits-Sorts (h ∷ hits) valid =
    let rest = sort_hits-Sorts hits valid.2 in
    record {
      falls = insert_hit-Falling max_document_id h (sort_hits hits) valid.0 rest.falls;
      valid = insert_hit-AllValid h (sort_hits hits) valid.0 valid.1 rest.valid;
      documents = λ d.
          has_document-insert_hit d h (sort_hits hits)
          ∙ ap (λ (b : Bool). (h.document_id == d) || b) (rest.documents d);
      sections = λ d section.
          has_section-insert_hit d section h (sort_hits hits)
          ∙ ap (max (section_in d section h)) (rest.sections d section);
    }

section_in-merged :
    (d section : ℕ) (a b : DocHitInfo)
    → IsWellFormed a
    → IsWellFormed b
    → (a.document_id == b.document_id) ≡ true
    → section < mask_bits
    → section_in d section (merge_sections_from a b)
      ≡ max (section_in d section a) (section_in d section b)
section_in-merged d section a b v w same h =
    let (_, document, mask, _) = merge_sections_from_lem a b section v w h in
    let equal : a.document_id ≡ b.document_id = ground (arith, same) in
    elim (Bool-cases (a.document_id == d)) [
      | inl here ↦
          let in_merged : ((merge_sections_from a b).document_id == d) ≡ true =
            ap (λ (n : ℕ). n == d) document ∙ here in
          let in_b : (b.document_id == d) ≡ true = ap (λ (n : ℕ). n == d) (sym equal) ∙ here in
          ap (λ (c : Bool). if c then in_mask (merge_sections_from a b) section else 0) in_merged
          ∙ mask
          ∙ sym (
              ap₂
                (λ (c e : Bool).
                  max (if c then in_mask a section else 0) (if e then in_mask b section else 0))
                here in_b)
      | inr apart ↦
          let in_merged : ((merge_sections_from a b).document_id == d) ≡ false =
            ap (λ (n : ℕ). n == d) document ∙ apart in
          let in_b : (b.document_id == d) ≡ false = ap (λ (n : ℕ). n == d) (sym equal) ∙ apart in
          ap (λ (c : Bool). if c then in_mask (merge_sections_from a b) section else 0) in_merged
          ∙ sym (
              ap₂
                (λ (c e : Bool).
                  max (if c then in_mask a section else 0) (if e then in_mask b section else 0))
                apart in_b)
    ]

-- Collapsing the hits of each document.
record Collapses (n : ℕ) (hits collapsed : List DocHitInfo) : Type 0 where
  below : Below n (map at_hit collapsed)
  documents : (d : ℕ) → has_document d collapsed ≡ has_document d hits
  sections :
      (d section : ℕ)
      → section < mask_bits
      → has_section d section collapsed ≡ has_section d section hits

collapse-Collapses :
    (c : DocHitInfo) (hits : List DocHitInfo)
    → IsWellFormed c
    → AllValid hits
    → Falling c.document_id hits
    → Collapses (suc c.document_id) (c ∷ hits) (collapse c hits)
unfolding collapse
collapse-Collapses c [] well valid falls = record {
  below = (omega arith, tt);
  documents = λ d. refl;
  sections = λ d section h. refl;
}
collapse-Collapses c (h ∷ hits) well valid falls =
    elim (Bool-cases (c.document_id == h.document_id)) [
      | inl same ↦
          let m = merge_sections_from c h in
          let document : m.document_id ≡ c.document_id = document_id-merge_sections_from c h in
          let equal : h.document_id ≡ m.document_id = ground (arith, same, document) in
          let merged_well = (merge_sections_from_lem c h 0 well valid.1 (omega arith)).0 in
          let rest =
            collapse-Collapses m hits merged_well valid.2
              (subst (λ (n : ℕ). Falling n hits) equal falls.1) in
          rw same (record {
            below =
                subst (λ (n : ℕ). Below (suc n) (map at_hit (collapse m hits))) document rest.below;
            documents = λ d. rest.documents d ∙ ground (arith, document, same);
            sections = λ d section small.
                rest.sections d section small
                ∙ ap (λ (n : ℕ). max n (has_section d section hits))
                    (section_in-merged d section c h well valid.1 same small)
                ∙ omega arith;
          })
      | inr apart ↦
          let rest = collapse-Collapses h hits valid.1 valid.2 falls.1 in
          rw apart (record {
            below = (
              omega arith,
              Below-mono (suc h.document_id) c.document_id (map at_hit (collapse h hits))
                  (ground (arith, apart, falls.0)) rest.below,
            );
            documents = λ d. ap (λ (b : Bool). (c.document_id == d) || b) (rest.documents d);
            sections = λ d section small.
                ap (max (section_in d section c)) (rest.sections d section small);
          })
    ]

sort_and_dedupe-Collapses :
    (h : DocHitInfo) (hits : List DocHitInfo)
    → AllValid (h ∷ hits)
    → Collapses invalid_document_id (h ∷ hits) (sort_and_dedupe_document_ids (h ∷ hits))
unfolding sort_and_dedupe_document_ids dedupe
sort_and_dedupe-Collapses h hits valid =
    deduped (sort_hits (h ∷ hits)) (sort_hits-Sorts (h ∷ hits) valid)
  where
    deduped :
        (sorted : List DocHitInfo)
        → Sorts (h ∷ hits) sorted
        → Collapses invalid_document_id (h ∷ hits) (dedupe sorted)
    deduped [] sorts = absurd (ground (arith, sorts.documents h.document_id))
    deduped (c ∷ rest) sorts =
        let collapsed = collapse-Collapses c rest (sorts.valid).1 (sorts.valid).2 (sorts.falls).1 in
        record {
          below =
              Below-mono (suc c.document_id) invalid_document_id (map at_hit (collapse c rest))
                (omega (arith, (sorts.falls).0)) collapsed.below;
          documents = λ d. collapsed.documents d ∙ sorts.documents d;
          sections =
              λ d section small. collapsed.sections d section small ∙ sorts.sections d section;
        }

-- What a prefix that several terms match has, if any of them has a hit, and all hits are valid.
pub retrieve_prefix_lem :
    (terms : List (List DocHitInfo))
    → 1 < length terms
    → 0 < length (concat terms)
    → AllValid (concat terms)
    → let hits = retrieve_prefix terms in
      Below invalid_document_id (map at_hit hits)
      × ((d : ℕ) → has_document d hits ≡ has_document d (concat terms))
      × ((d section : ℕ)
          → section < mask_bits
          → has_section d section hits ≡ has_section d section (concat terms))
unfolding retrieve_prefix
retrieve_prefix_lem terms several some_hit valid =
    let many : ltb 1 (length terms) ≡ true = ground (arith, several) in
    let collapsed = nonempty (concat terms) some_hit valid in
    rw many (collapsed.below, collapsed.documents, collapsed.sections)
  where
    nonempty :
        (hits : List DocHitInfo)
        → 0 < length hits
        → AllValid hits
        → Collapses invalid_document_id hits (sort_and_dedupe_document_ids hits)
    nonempty [] some_hit valid = absurd (omega (arith, some_hit))
    nonempty (h ∷ hits) some_hit valid = sort_and_dedupe-Collapses h hits valid

-- A prefix that several terms match, none of which has a hit: the first Advance gives OK, and the
-- iterator is at the invalid document id.
pub retrieve_prefix-none :
    (terms : List (List DocHitInfo))
    → 1 < length terms
    → concat terms ≡ []
    → let (status, t) = term_advance (complete (retrieve_prefix terms)) make_term in
      (status ≡ ok) × (doc t.base ≡ invalid_document_id)
unfolding retrieve_prefix sort_and_dedupe_document_ids sort_hits dedupe term_advance serve make_term
    invalid_doc_hit_info doc_hit_info
retrieve_prefix-none terms several empty =
    let many : ltb 1 (length terms) ≡ true = ground (arith, several) in
    let only : retrieve_prefix terms ≡ invalid_doc_hit_info ∷ [] =
      rw many (ap sort_and_dedupe_document_ids empty) in
    subst
      (λ (hits : List DocHitInfo).
        let (status, t) = term_advance (complete hits) make_term in
        (status ≡ ok) × (doc t.base ≡ invalid_document_id))
      (sym only) (refl, refl)
