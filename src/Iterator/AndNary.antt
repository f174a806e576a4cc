-- ===== src/Iterator/AndNary.antt =====
-- DocHitInfoIteratorAndNary of icing/index/iterator/doc-hit-info-iterator-and.{h,cc}.
pub mod Meet
pub mod Loop
pub mod Common
use external_icing.Base.{
  ℕ, zero, suc, Bool, true, false, List, [], ◌∷◌, bit_and, ltb, if◌then◌else◌,
}
use external_icing.DocHitInfo.{merge_sections_from}
use external_icing.Hit.{invalid_document_id}
use external_icing.Iterator.{
  Match, doc, no_match, Status, ok, resource_exhausted, invalid_argument, out_of_fuel, Operations,
  loop_fuel,
}
use external_icing.Iterator.Row.{Row, Round, finished, passed, failed}

pub record AndNary (R : Type 0) : Type 0 where
  pub iterators : R
  pub base : Match

-- The loop behind the search, which merges the other matches into the first.
abbrev pub merge_all : Match → List Match → Match
merge_all m [] = m
merge_all m (x ∷ xs) =
    merge_all
      (record {
        info = merge_sections_from m.info x.info;
        intersect_mask = bit_and m.intersect_mask x.intersect_mask;
      })
      xs

abbrev pub merged : Match → List Match → Match
merged base [] = base
merged base (m ∷ ms) = merge_all m ms

abbrev pub first_document_id : List Match → ℕ
first_document_id [] = invalid_document_id
first_document_id (m ∷ ms) = doc m

module _ {R : Type 0} (row : Row R) where
  -- The `while` loop of Advance.
  unfoldable pub and_nary_loop : ℕ → Bool → ℕ → R → Status × R
  and_nary_loop zero found document_id r = (out_of_fuel, r)
  and_nary_loop (suc fuel) found document_id r =
      let round = row.and_round found document_id r in
      let again = and_nary_loop fuel false document_id round.1 in
      let next = λ (d : ℕ). and_nary_loop fuel false d round.1 in
      elim (round.0) [
        | finished found' ↦ if found' then (ok, round.1) else again
        | passed d ↦ next d
        | failed status ↦ (status, round.1)
      ]

  -- What Advance leaves behind.
  abbrev pub settle_nary : Match → Status × R → Status × AndNary R
  settle_nary base (ok, r) = (ok, record { iterators = r; base = merged base (row.currents r) })
  settle_nary base (status, r) = (status, record { iterators = r; base = no_match })

  abbrev pub and_nary_first : Match → Status × R → Status × AndNary R
  and_nary_first base (ok, r) =
      settle_nary base (and_nary_loop loop_fuel false (first_document_id (row.currents r)) r)
  and_nary_first base (status, r) = (resource_exhausted, record { iterators = r; base = no_match })

  -- Advance
  unfoldable pub and_nary_advance : AndNary R → Status × AndNary R
  unfolding and_nary_loop
  and_nary_advance a =
      if ltb row.size 2
      then (invalid_argument, a)
      else and_nary_first a.base (row.advance_first a.iterators)

  abbrev pub and_nary_operations : Operations (AndNary R)
  and_nary_operations = record { advance = and_nary_advance; current = λ a. a.base }

  -- The constructor.
  unfoldable pub make_and_nary : R → AndNary R
  make_and_nary r = record { iterators = r; base = no_match }
