-- ===== src/Schema.antt =====
-- icing/schema/schema-util.{h,cc}: the types of documents, and what a new schema changes. An enum of a
-- proto is its number; a set of names is a list of what was inserted.
pub mod Compatible
pub mod Delta
pub mod Dependencies
pub mod Validator
pub mod Validate
use external_icing.Base.{
  ℕ, ◌+◌, Bool, true, false, not, ◌&&◌, ◌||◌, List, [], ◌∷◌, ◌++◌, Option, none, some, ltb, ◌==◌,
  length, if◌then◌else◌,
}
use external_icing.Store.{Text, text_eq}

-- PropertyConfigProto::Cardinality and DataType, TermMatchType and TokenizerType
abbrev pub repeated : ℕ
repeated = 1

abbrev pub optional : ℕ
optional = 2

abbrev pub required : ℕ
required = 3

abbrev pub unknown_match : ℕ
unknown_match = 0

-- PropertyConfigProto, with the members of its two indexing configs
pub record PropertyConfig : Type 0 where
  pub property_name : Text
  pub data_type : ℕ
  pub schema_type : Text
  pub cardinality : ℕ
  pub term_match_type : ℕ
  pub tokenizer_type : ℕ
  pub index_nested_properties : Bool

-- SchemaTypeConfigProto
pub record TypeConfig : Type 0 where
  pub type_name : Text
  pub properties : List PropertyConfig

abbrev pub same_bool : Bool → Bool → Bool
same_bool true b = b
same_bool false b = not b

-- ArePropertiesEqual
abbrev pub are_properties_equal : PropertyConfig → PropertyConfig → Bool
are_properties_equal old new =
    text_eq old.property_name new.property_name
    && (old.data_type == new.data_type)
    && text_eq old.schema_type new.schema_type
    && (old.cardinality == new.cardinality)
    && (old.term_match_type == new.term_match_type)
    && (old.tokenizer_type == new.tokenizer_type)
    && same_bool old.index_nested_properties new.index_nested_properties

-- IsCardinalityCompatible
abbrev pub is_cardinality_compatible : PropertyConfig → PropertyConfig → Bool
is_cardinality_compatible old new = not (ltb old.cardinality new.cardinality)

-- IsPropertyCompatible
abbrev pub is_property_compatible : PropertyConfig → PropertyConfig → Bool
is_property_compatible old new =
    (old.data_type == new.data_type)
    && text_eq old.schema_type new.schema_type
    && is_cardinality_compatible old new

-- IsTermMatchTypeCompatible
abbrev pub is_term_match_type_compatible : PropertyConfig → PropertyConfig → Bool
is_term_match_type_compatible old new =
    (old.term_match_type == new.term_match_type) && (old.tokenizer_type == new.tokenizer_type)

abbrev pub is_required : PropertyConfig → Bool
is_required p = p.cardinality == required

abbrev pub is_indexed : PropertyConfig → Bool
is_indexed p = not (p.term_match_type == unknown_match)

abbrev pub count_if : (PropertyConfig → Bool) → List PropertyConfig → ℕ
count_if test [] = 0
count_if test (p ∷ ps) = (if test p then 1 else 0) + count_if test ps

-- A search of `property_config_map`, which keeps the first of two properties of one name.
abbrev pub find_property : List PropertyConfig → Text → Option PropertyConfig
find_property [] name = none
find_property (p ∷ ps) name = if text_eq p.property_name name then some p else find_property ps name

-- ParsedPropertyConfigs
pub record ParsedPropertyConfigs : Type 0 where
  pub property_config_map : List PropertyConfig
  pub num_indexed_properties : ℕ
  pub num_required_properties : ℕ

-- ParsePropertyConfigs
unfoldable pub parse_property_configs : TypeConfig → ParsedPropertyConfigs
parse_property_configs type_config = record {
  property_config_map = type_config.properties;
  num_indexed_properties = count_if is_indexed type_config.properties;
  num_required_properties = count_if is_required type_config.properties;
}

-- What ComputeCompatibilityDelta notes about a type.
pub record Difference : Type 0 where
  pub old_required_properties : ℕ
  pub old_indexed_properties : ℕ
  pub has_property_changed : Bool
  pub is_incompatible : Bool
  pub is_index_incompatible : Bool

-- A round of the loop over the old properties, with what was found of the property's name.
abbrev pub compare_found : PropertyConfig → Difference → Option PropertyConfig → Difference
compare_found old d none = record d {
  is_incompatible = true;
  is_index_incompatible = d.is_index_incompatible || is_indexed old;
}
compare_found old d (some new) = record d {
  has_property_changed = d.has_property_changed || not (are_properties_equal old new);
  is_incompatible = d.is_incompatible || not (is_property_compatible old new);
  is_index_incompatible =
      d.is_index_incompatible
      || not (is_term_match_type_compatible old new)
      || not (same_bool old.index_nested_properties new.index_nested_properties);
}

abbrev pub count_old : PropertyConfig → Difference → Difference
count_old old d = record d {
  old_required_properties = (if is_required old then 1 else 0) + d.old_required_properties;
  old_indexed_properties = (if is_indexed old then 1 else 0) + d.old_indexed_properties;
}

abbrev pub compare_properties : List PropertyConfig → List PropertyConfig → Difference → Difference
compare_properties [] new d = d
compare_properties (old ∷ olds) new d =
    compare_properties olds new
      (compare_found old (count_old old d) (find_property new old.property_name))

-- The checks behind that loop.
abbrev pub compare_counts : ParsedPropertyConfigs → Difference → Difference
compare_counts parsed d = record d {
  is_incompatible =
      d.is_incompatible || ltb d.old_required_properties parsed.num_required_properties;
  is_index_incompatible =
      d.is_index_incompatible || ltb d.old_indexed_properties parsed.num_indexed_properties;
}

-- A type of the old schema that the new one has too.
unfoldable pub compare_types : TypeConfig → TypeConfig → Difference
unfolding parse_property_configs
compare_types old new =
    let parsed = parse_property_configs new in
    compare_counts parsed (
      compare_properties old.properties parsed.property_config_map (record {
        old_required_properties = 0;
        old_indexed_properties = 0;
        has_property_changed = not (length old.properties == length new.properties);
        is_incompatible = false;
        is_index_incompatible = false;
      }))
