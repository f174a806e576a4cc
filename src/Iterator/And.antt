-- ===== src/Iterator/And.antt =====
-- DocHitInfoIteratorAnd of icing/index/iterator/doc-hit-info-iterator-and.{h,cc}.
pub mod Join
use external_icing.Base.{ℕ, zero, suc, ◌+◌, Bool, true, false, bit_and, ltb, ◌==◌}
use external_icing.DocHitInfo.{merge_sections_from}
use external_icing.Iterator.{
  Match, doc, no_match, Status, ok, resource_exhausted, out_of_fuel, Operations, advance_to,
  loop_fuel,
}

pub record And (S T : Type 0) : Type 0 where
  pub short : S
  pub long : T
  pub base : Match

module _ {S T : Type 0} (short_it : Operations S) (long_it : Operations T) where
  -- The `while` loop of Advance, which moves the one that is ahead until the ids agree.
  unfoldable pub align : ℕ → S → T → Status × S × T
  align zero s l = (out_of_fuel, s, l)
  align (suc fuel) s l =
      let short_doc_id = doc (short_it.current s) in
      let long_doc_id = doc (long_it.current l) in
      let (short_status, s') = advance_to short_it loop_fuel s long_doc_id in
      let (long_status, l') = advance_to long_it loop_fuel l short_doc_id in
      let after_short = align fuel s' l in
      let after_long = align fuel s l' in
      elim (short_doc_id == long_doc_id) [
        | true ↦ (ok, s, l)
        | false ↦ elim (ltb long_doc_id short_doc_id) [
          | true ↦ elim short_status [ ok ↦ after_short | failed ↦ (failed, s', l) ]
          | false ↦ elim long_status [ ok ↦ after_long | failed ↦ (failed, s, l') ]
        ]
      ]

  -- What Advance leaves behind: the merged hit, or the invalid values with the status.
  unfoldable pub settle : Status × S × T → Status × And S T
  settle (ok, s, l) = (
    ok,
    record {
      short = s;
      long = l;
      base = record {
        info = merge_sections_from (short_it.current s).info (long_it.current l).info;
        intersect_mask =
            bit_and (short_it.current s).intersect_mask (long_it.current l).intersect_mask;
      };
    },
  )
  settle (failed, s, l) = (failed, record { short = s; long = l; base = no_match })

  -- Advance
  unfoldable pub and_advance : And S T → Status × And S T
  unfolding align settle
  and_advance a =
      let (short_status, s) = short_it.advance a.short in
      let (long_status, l) = advance_to long_it loop_fuel a.long (doc (short_it.current s)) in
      let aligned = align (loop_fuel + loop_fuel) s l in
      elim short_status [
        | ok ↦ elim long_status [ ok ↦ settle aligned | failed ↦ settle (failed, s, l) ]
        | _ ↦ settle (resource_exhausted, s, a.long)
      ]

  abbrev pub and_operations : Operations (And S T)
  and_operations = record { advance = and_advance; current = λ a. a.base }

  -- The constructor.
  unfoldable pub make_and : S → T → And S T
  make_and s l = record { short = s; long = l; base = no_match }
