-- ===== src/Schema/Compatible.antt =====
-- What ComputeCompatibilityDelta of icing/schema/schema-util.cc says about a type, by its properties.
use external_icing.Base.{
  ℕ, ◌+◌, ◌≡◌, refl, ap, ◌∙◌, Bool, true, false, not, ◌&&◌, ◌||◌, List, [], ◌∷◌, Option, none, some,
  leb, ◌==◌, if◌then◌else◌, arith, length, Option-cases, inl, inr,
}
use external_icing.Schema.{
  PropertyConfig, TypeConfig, Difference, same_bool, is_property_compatible,
  is_term_match_type_compatible, is_required, is_indexed, count_if, find_property,
  parse_property_configs, compare_found, count_old, compare_properties, compare_types,
}

-- A property of the old type, with what the new one has of its name: whether the data fits, and whether
-- the index does.
abbrev pub keeps : PropertyConfig → Option PropertyConfig → Bool
keeps old none = false
keeps old (some new) = is_property_compatible old new

abbrev pub keeps_index : PropertyConfig → Option PropertyConfig → Bool
keeps_index old none = not (is_indexed old)
keeps_index old (some new) =
    is_term_match_type_compatible old new
    && same_bool old.index_nested_properties new.index_nested_properties

abbrev pub all_found :
    (PropertyConfig → Option PropertyConfig → Bool)
    → List PropertyConfig
    → List PropertyConfig
    → Bool
all_found test [] new = true
all_found test (p ∷ ps) new = test p (find_property new p.property_name) && all_found test ps new

-- One round keeps count.
module _ (new : List PropertyConfig) (old : PropertyConfig) (d : Difference) where
  abbrev found : Option PropertyConfig
  found = find_property new old.property_name

  abbrev after : Difference
  after = compare_found old (count_old old d) found

  round_incompatible : after.is_incompatible ≡ (d.is_incompatible || not (keeps old found))
  round_incompatible = elim (Option-cases found) [
    | inl gone ↦ rw gone (ground arith)
    | inr (q, there) ↦ rw there refl
  ]

  round_index :
      after.is_index_incompatible ≡ (d.is_index_incompatible || not (keeps_index old found))
  round_index = elim (Option-cases found) [
    | inl gone ↦ rw gone (ground arith)
    | inr (q, there) ↦ rw there (ground arith)
  ]

  round_required :
      after.old_required_properties ≡ (if is_required old then 1 else 0) + d.old_required_properties
  round_required = elim (Option-cases found) [
    | inl gone ↦ rw gone refl
    | inr (q, there) ↦ rw there refl
  ]

  round_indexed :
      after.old_indexed_properties ≡ (if is_indexed old then 1 else 0) + d.old_indexed_properties
  round_indexed = elim (Option-cases found) [
    | inl gone ↦ rw gone refl
    | inr (q, there) ↦ rw there refl
  ]

or_not_and : (a b c : Bool) → ((a || not b) || not c) ≡ (a || not (b && c))
or_not_and a b c = ground arith

loop_incompatible :
    (olds new : List PropertyConfig) (d : Difference)
    → (compare_properties olds new d).is_incompatible
      ≡ (d.is_incompatible || not (all_found keeps olds new))
loop_incompatible [] new d = ground arith
loop_incompatible (p ∷ ps) new d =
    loop_incompatible ps new (after new p d)
    ∙ ap (λ (b : Bool). b || not (all_found keeps ps new)) (round_incompatible new p d)
    ∙ or_not_and d.is_incompatible (keeps p (find_property new p.property_name))
        (all_found keeps ps new)

loop_index :
    (olds new : List PropertyConfig) (d : Difference)
    → (compare_properties olds new d).is_index_incompatible
      ≡ (d.is_index_incompatible || not (all_found keeps_index olds new))
loop_index [] new d = ground arith
loop_index (p ∷ ps) new d =
    loop_index ps new (after new p d)
    ∙ ap (λ (b : Bool). b || not (all_found keeps_index ps new)) (round_index new p d)
    ∙ or_not_and d.is_index_incompatible (keeps_index p (find_property new p.property_name))
        (all_found keeps_index ps new)

loop_required :
    (olds new : List PropertyConfig) (d : Difference)
    → (compare_properties olds new d).old_required_properties
      ≡ count_if is_required olds + d.old_required_properties
loop_required [] new d = omega arith
loop_required (p ∷ ps) new d =
    loop_required ps new (after new p d)
    ∙ ap (λ (n : ℕ). count_if is_required ps + n) (round_required new p d)
    ∙ omega arith

loop_indexed :
    (olds new : List PropertyConfig) (d : Difference)
    → (compare_properties olds new d).old_indexed_properties
      ≡ count_if is_indexed olds + d.old_indexed_properties
loop_indexed [] new d = omega arith
loop_indexed (p ∷ ps) new d =
    loop_indexed ps new (after new p d)
    ∙ ap (λ (n : ℕ). count_if is_indexed ps + n) (round_indexed new p d)
    ∙ omega arith

-- A type is incompatible unless each of its old properties is still there, with the same data type and
-- schema type and a cardinality that is not stricter, and there are at most as many required ones as
-- before. Its index is incompatible unless each of its indexed properties is still there, none that is
-- still there is indexed in another way, and there are at most as many indexed ones as before.
pub compare_types_lem :
    (old new : TypeConfig)
    → ((compare_types old new).is_incompatible
        ≡ not (
            all_found keeps old.properties new.properties
            && leb (count_if is_required new.properties) (count_if is_required old.properties)))
      × ((compare_types old new).is_index_incompatible
          ≡ not (
              all_found keeps_index old.properties new.properties
              && leb (count_if is_indexed new.properties) (count_if is_indexed old.properties)))
unfolding compare_types parse_property_configs
compare_types_lem old new =
    let start : Difference = record {
      old_required_properties = 0;
      old_indexed_properties = 0;
      has_property_changed = not (length old.properties == length new.properties);
      is_incompatible = false;
      is_index_incompatible = false;
    } in
    (
      ground (
        arith,
        loop_incompatible old.properties new.properties start,
        loop_required old.properties new.properties start,
      ),
      ground (
        arith,
        loop_index old.properties new.properties start,
        loop_indexed old.properties new.properties start,
      ),
    )
