-- ===== src/Iterator/Select/SectionRestrict/Lowest.antt =====
-- The sections that DocHitInfoIteratorSectionRestrict of
-- icing/index/iterator/doc-hit-info-iterator-section-restrict.cc chooses.
use external_icing.Base.{
  subst, Option-cases, ℕ, zero, suc, ◌-◌, ◌^◌, ◌≤◌, ◌<◌, ◌≡◌, refl, sym, ap, ◌∙◌, Bool, true, false,
  Option, none, some, arith, ◌==◌, ==_iff, Bool-cases, inl, inr,
}
use external_icing.Base.Bits.{bit, bit-zero}
use external_icing.DocHitInfo.{mask_bits, count_trailing_zeros, clear_section}
use external_icing.DocHitInfo.Mask.{
  count_trailing_zeros-lowest, bit-clear_section, clear_section-lt,
}
use external_icing.DocHitInfo.Merge.{cleared_below}
use external_icing.Iterator.{Match, doc, Operations}
use external_icing.Iterator.Select.Filter.{DocumentFilterData}
use external_icing.Iterator.Select.{then_pick}
use external_icing.Iterator.Select.SectionRestrict.{
  is_target, find_section, in_section, restricted, pick_restricted,
}

module _ {P : Type 0} (path_equal : P → P → Bool) (get_section_path : ℕ → ℕ → Option P)
    (target_section : P) where
  abbrev targeted : Option P → Bool
  targeted = is_target path_equal get_section_path target_section

  abbrev search : ℕ → ℕ → ℕ → Option ℕ
  search = find_section path_equal get_section_path target_section

  abbrev restrict_match : Match → Option DocumentFilterData → Option Match
  restrict_match = restricted path_equal get_section_path target_section

  -- What the inner loop finds: the lowest section of the mask that has the target's path, or none
  -- if there is no such section.
  abbrev Found : ℕ → ℕ → Option ℕ → Type 0
  Found schema_type_id mask none =
      (s : ℕ)
      → s < mask_bits
      → bit s mask ≡ 1
      → targeted (get_section_path schema_type_id s) ≡ false
  Found schema_type_id mask (some section) =
      (section < mask_bits)
      × (bit section mask ≡ 1)
      × (targeted (get_section_path schema_type_id section) ≡ true)
      × ((s : ℕ)
          → s < section
          → bit s mask ≡ 1
          → targeted (get_section_path schema_type_id s) ≡ false)

  -- Clearing a section that does not have the path keeps what is to be found.
  still-Found :
      (t mask section : ℕ) (o : Option ℕ)
      → section < mask_bits
      → targeted (get_section_path t section) ≡ false
      → Found t (clear_section mask section) o
      → Found t mask o
  still-Found t mask section none h miss found = λ s k one. elim (Bool-cases (section == s)) [
    | inl e ↦ rw (← (==_iff section s).0 e) miss
    | inr e ↦ found s k (bit-clear_section mask section s h k ∙ rw e one)
  ]
  still-Found t mask section (some at) h miss found =
      let there : at < mask_bits = found.0 in
      let cleared = bit-clear_section mask section at h there in
      (
        there,
        ground (arith, cleared, found.1),
        found.2,
        λ s k one. elim (Bool-cases (section == s)) [
          | inl e ↦ rw (← (==_iff section s).0 e) miss
          | inr e ↦
              found.3 s k (bit-clear_section mask section s h (omega (arith, there)) ∙ rw e one)
        ],
      )

  find_section_loop :
      (fuel schema_type_id mask : ℕ)
      → fuel ≤ mask_bits
      → mask < 2 ^ mask_bits
      → ((i : ℕ) → i < mask_bits - fuel → bit i mask ≡ 0)
      → Found schema_type_id mask (search fuel schema_type_id mask)
  unfolding find_section
  find_section_loop zero t mask f small low =
      λ s h one. absurd (omega (arith, one, low s (omega arith)))
  find_section_loop (suc fuel) t mask f small low = elim (Bool-cases (mask == 0)) [
    | inl done ↦
        rw done
          λ s h one. absurd (omega (arith, one, bit-zero s, ap (bit s) ((==_iff mask 0).0 done)))
    | inr more ↦
        let section = count_trailing_zeros mask_bits mask in
        let lowest = count_trailing_zeros-lowest mask_bits mask (ground arith) small in
        rw more (elim (Bool-cases (targeted (get_section_path t section))) [
          | inl hit ↦
              rw hit (lowest.0, lowest.1, hit, λ s h one. absurd (omega (arith, one, lowest.2 s h)))
          | inr miss ↦ rw miss (
              still-Found t mask section (search fuel t (clear_section mask section)) lowest.0 miss
                (find_section_loop fuel t (clear_section mask section) (omega arith)
                  (clear_section-lt mask section)
                  λ i h. cleared_below fuel mask section i f lowest.0 lowest.1 lowest.2 low h))
        ])
  ]

  -- A section of the mask of which the schema type has a path that is the target's.
  abbrev pub HasTarget : ℕ → ℕ → ℕ → Type 0
  HasTarget schema_type_id mask section =
      (section < mask_bits)
      × (bit section mask ≡ 1)
      × ((path : P) × (get_section_path schema_type_id section ≡ some path)
          × (path_equal path target_section ≡ true))

  -- What a restriction to the target makes of a document's match: it has the members of the match, with
  -- the lowest section that has the target's path as the intersection mask; and it is there exactly when
  -- there is such a section.
  abbrev pub Restricts : (ℕ → Option DocumentFilterData) → Option Match → Option Match → Type 0
  Restricts filter_data none k = k ≡ none
  Restricts filter_data (some m) none =
      (data_of : DocumentFilterData) (section : ℕ)
      → filter_data (doc m) ≡ some data_of
      → HasTarget data_of.schema_type_id m.info.hit_section_ids_mask section
      → ⊥
  Restricts filter_data (some m) (some k) =
      (k.info ≡ m.info)
      × ((data_of : DocumentFilterData) × (section : ℕ) × (filter_data (doc m) ≡ some data_of)
          × (k.intersect_mask ≡ 2 ^ section)
          × HasTarget data_of.schema_type_id m.info.hit_section_ids_mask section
          × ((lower : ℕ)
              → lower < section
              → HasTarget data_of.schema_type_id m.info.hit_section_ids_mask lower
              → ⊥))

  path_of_target :
      (o : Option P)
      → targeted o ≡ true
      → (path : P) × (o ≡ some path) × (path_equal path target_section ≡ true)
  path_of_target none h = absurd (ground (arith, h))
  path_of_target (some path) h = (path, refl, h)

  no_target :
      (t mask section : ℕ)
      → (bit section mask ≡ 1 → targeted (get_section_path t section) ≡ false)
      → HasTarget t mask section
      → ⊥
  no_target t mask section miss has =
      let (small, one, (path, there, equal)) = has in
      let missed : targeted (some path) ≡ false = ap targeted (sym there) ∙ miss one in
      ground (arith, missed, equal)

  module _ (filter_data : ℕ → Option DocumentFilterData) (m : Match)
      (small : m.info.hit_section_ids_mask < 2 ^ mask_bits) where
    abbrev mask : ℕ
    mask = m.info.hit_section_ids_mask

    in_section-Restricts :
        (data_of : DocumentFilterData)
        → filter_data (doc m) ≡ some data_of
        → (o : Option ℕ) → Found data_of.schema_type_id mask o
        → Restricts filter_data (some m) (in_section path_equal get_section_path target_section m o)
    in_section-Restricts data_of there none found = λ other section is has.
        let same : some data_of ≡ some other = sym there ∙ is in
        let types : data_of.schema_type_id ≡ other.schema_type_id = ground (arith, same) in
        no_target data_of.schema_type_id mask section (λ one. found section (has.0) one)
          (subst (λ (t : ℕ). HasTarget t mask section) (sym types) has)
    in_section-Restricts data_of there (some section) found = (
      refl,
      (
        data_of,
        section,
        there,
        refl,
        (
          found.0,
          found.1,
          path_of_target (get_section_path data_of.schema_type_id section) found.2,
        ),
        λ lower h has. no_target data_of.schema_type_id mask lower (found.3 lower h) has,
      ),
    )

    pick_restricted-Restricts :
        {S : Type 0} (it : Operations S)
        → Restricts filter_data
            (some m)
            (pick_restricted path_equal get_section_path target_section it filter_data m)
    pick_restricted-Restricts it = elim (Option-cases (filter_data (doc m))) [
      | inl unknown ↦
          subst (Restricts filter_data (some m)) (sym (ap (restrict_match m) unknown))
            (λ data_of section there has. ground (arith, unknown, there))
      | inr (data_of, there) ↦
          let mask_of = m.info.hit_section_ids_mask in
          subst (Restricts filter_data (some m)) (sym (ap (restrict_match m) there)) (
            in_section-Restricts data_of there (search mask_bits data_of.schema_type_id mask_of) (
              find_section_loop mask_bits data_of.schema_type_id mask_of (omega arith) small
                λ i h. absurd (omega arith)))
    ]

  -- What a restriction selects, of matches whose masks have 16 bits.
  pub then_pick-Restricts :
      {S : Type 0} (it : Operations S) (filter_data : ℕ → Option DocumentFilterData)
      (o : Option Match)
      → ((m : Match) → o ≡ some m → m.info.hit_section_ids_mask < 2 ^ mask_bits)
      → Restricts filter_data o
          (then_pick (pick_restricted path_equal get_section_path target_section it filter_data) o)
  then_pick-Restricts it filter_data none masks = refl
  then_pick-Restricts it filter_data (some m) masks =
      pick_restricted-Restricts filter_data m (masks m refl) it
