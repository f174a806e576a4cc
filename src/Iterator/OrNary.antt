-- ===== src/Iterator/OrNary.antt =====
-- DocHitInfoIteratorOrNary of icing/index/iterator/doc-hit-info-iterator-or.{h,cc}. `current_iterators_`,
-- which is for statistics, is left out.
pub mod Collect
pub mod Any
use external_icing.Base.{
  ℕ, ◌-◌, Bool, true, false, List, [], ◌∷◌, bit_and, ltb, ◌==◌, if◌then◌else◌,
}
use external_icing.Hit.{invalid_document_id}
use external_icing.DocHitInfo.{merge_sections_from}
use external_icing.Iterator.{
  Match, doc, no_match, Status, ok, resource_exhausted, invalid_argument, Operations,
}
use external_icing.Iterator.Row.{Row}

pub record OrNary (R : Type 0) : Type 0 where
  pub iterators : R
  pub base : Match

-- A round of the loop that calculates the section info, and that loop.
abbrev pub add_match : Match → Match → Match
add_match base m = if doc base == invalid_document_id then m else record {
  info = merge_sections_from base.info m.info;
  intersect_mask = bit_and base.intersect_mask m.intersect_mask;
}

abbrev pub collect : ℕ → Match → List Match → Match
collect next base [] = base
collect next base (m ∷ ms) =
    if doc m == next then collect next (add_match base m) ms else collect next base ms

module _ {R : Type 0} (row : Row R) where
  abbrev pub or_nary_end : R → Status × OrNary R
  or_nary_end r = (resource_exhausted, record { iterators = r; base = no_match })

  abbrev pub or_nary_found : ℕ × R → Status × OrNary R
  or_nary_found (next, r) =
      if next == invalid_document_id
      then or_nary_end r
      else (ok, record { iterators = r; base = collect next no_match (row.currents r) })

  -- Advance
  unfoldable pub or_nary_advance : OrNary R → Status × OrNary R
  or_nary_advance o =
      if ltb row.size 2
      then (invalid_argument, o)
      else if doc o.base == 0
      then or_nary_end o.iterators
      else or_nary_found (row.or_round (doc o.base - 1) invalid_document_id o.iterators)

  abbrev pub or_nary_operations : Operations (OrNary R)
  or_nary_operations = record { advance = or_nary_advance; current = λ o. o.base }

  -- The constructor.
  unfoldable pub make_or_nary : R → OrNary R
  make_or_nary r = record { iterators = r; base = no_match }
