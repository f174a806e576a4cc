-- ===== src/Iterator/Select/SectionRestrict.antt =====
-- DocHitInfoIteratorSectionRestrict, icing/index/iterator/doc-hit-info-iterator-section-restrict.cc.
-- GetDocumentFilterData, the path of GetSectionMetadata and the equality of paths are parameters.
pub mod Lowest
use external_icing.Base.{
  ℕ, zero, suc, ◌^◌, ◌≡◌, refl, Bool, false, List, Option, none, some, arith, ◌==◌, if◌then◌else◌,
}
use external_icing.DocHitInfo.{mask_bits, count_trailing_zeros, clear_section}
use external_icing.Iterator.{
  Match, doc, no_match, Status, ok, resource_exhausted, out_of_fuel, Operations, Enumerates,
  loop_fuel,
}
use external_icing.Iterator.Select.{
  Delegating, KeepsDoc, SelectYields, select_loop, select-Enumerates,
}
use external_icing.Iterator.Select.Filter.{DocumentFilterData}

module _ {P : Type 0} (path_equal : P → P → Bool) (get_section_path : ℕ → ℕ → Option P)
    (target_section : P) where
  -- The test of the inner loop's body: the metadata is there, and its path is the target.
  abbrev pub is_target : Option P → Bool
  is_target none = false
  is_target (some path) = path_equal path target_section

  -- The inner loop: the section at which it returns, or none if the mask runs out.
  unfoldable pub find_section : ℕ → ℕ → ℕ → Option ℕ
  find_section zero schema_type_id section_id_mask = none
  find_section (suc fuel) schema_type_id section_id_mask =
      let section_id = count_trailing_zeros mask_bits section_id_mask in
      let rest = find_section fuel schema_type_id (clear_section section_id_mask section_id) in
      if section_id_mask == 0
      then none
      else if is_target (get_section_path schema_type_id section_id)
      then some section_id
      else rest

  -- The members at a document that passes.
  abbrev pub in_section : Match → Option ℕ → Option Match
  in_section m none = none
  in_section m (some section_id) = some (record { info = m.info; intersect_mask = 2 ^ section_id })

  abbrev pub restricted : Match → Option DocumentFilterData → Option Match
  restricted m none = none
  restricted m (some filter_data) =
      in_section m (find_section mask_bits filter_data.schema_type_id m.info.hit_section_ids_mask)

  module _ {S : Type 0} (it : Operations S)
      (get_document_filter_data : ℕ → Option DocumentFilterData) where
    -- The outer loop of Advance. Each round of the inner loop clears a bit of the mask.
    unfoldable pub restrict_loop : ℕ → S → Match → Status × Delegating S
    restrict_loop zero s base = (out_of_fuel, record { delegate = s; base = base })
    restrict_loop (suc fuel) s base =
        let (status, moved) = it.advance s in
        let continue = restrict_loop fuel moved base in
        let document_id = (it.current moved).info.document_id in
        let section_id_mask = (it.current moved).info.hit_section_ids_mask in
        elim status [
          | ok ↦ elim (get_document_filter_data document_id) [
            | none ↦ continue
            | some filter_data ↦
                elim (find_section mask_bits filter_data.schema_type_id section_id_mask) [
                  | none ↦ continue
                  | some section_id ↦ (
                    ok,
                    record {
                      delegate = moved;
                      base = record {
                        info = (it.current moved).info;
                        intersect_mask = 2 ^ section_id;
                      };
                    },
                  )
                ]
          ]
          | _ ↦ (resource_exhausted, record { delegate = moved; base = no_match })
        ]

    -- DocHitInfoIteratorSectionRestrict::Advance
    unfoldable pub restrict_advance : Delegating S → Status × Delegating S
    unfolding restrict_loop
    restrict_advance r = restrict_loop loop_fuel r.delegate r.base

    abbrev pub restrict_operations : Operations (Delegating S)
    restrict_operations = record { advance = restrict_advance; current = λ r. r.base }

    -- What the iterator makes of a match of its delegate.
    abbrev pub pick_restricted : Match → Option Match
    pick_restricted m = restricted m (get_document_filter_data (doc m))

    in_section-doc : (m k : Match) (o : Option ℕ) → in_section m o ≡ some k → doc k ≡ doc m
    in_section-doc m k none e = cc
    in_section-doc m k (some s) e = cc

    restricted-doc :
        (m k : Match) (o : Option DocumentFilterData) → restricted m o ≡ some k → doc k ≡ doc m
    restricted-doc m k none e = cc
    restricted-doc m k (some d) e =
        in_section-doc m k (find_section mask_bits d.schema_type_id m.info.hit_section_ids_mask) e

    pub pick_restricted-KeepsDoc : KeepsDoc pick_restricted
    pick_restricted-KeepsDoc m k e = restricted-doc m k (get_document_filter_data (doc m)) e

    restrict_loop-selects :
        (fuel : ℕ) (s : S) (base : Match)
        → restrict_loop fuel s base ≡ select_loop it pick_restricted fuel s base
    unfolding restrict_loop select_loop
    restrict_loop-selects zero s base = refl
    restrict_loop-selects (suc fuel) s base =
        ground (arith, restrict_loop-selects fuel (it.advance s).1 base)

    module _ (Yields : S → List Match → Type 0) (law : Enumerates S it Yields) where
      abbrev pub RestrictYields : Delegating S → List Match → Type 0
      RestrictYields = SelectYields it pick_restricted pick_restricted-KeepsDoc Yields law

      -- The restriction of an iterator that keeps the contract keeps it too.
      pub restrict_operations-Enumerates :
          Enumerates (Delegating S) restrict_operations RestrictYields
      unfolding restrict_advance
      restrict_operations-Enumerates =
          select-Enumerates it pick_restricted pick_restricted-KeepsDoc Yields law
            restrict_operations (λ d. refl) λ d. restrict_loop-selects loop_fuel d.delegate d.base
