-- ===== src/Schema/Validator/Unsound.antt =====
-- What the comparison of the numbers of required properties in ComputeCompatibilityDelta of
-- icing/schema/schema-util.cc lets through.
use external_icing.Base.{ℕ, ◌≡◌, refl, true, false, [], ◌∷◌, arith}
use external_icing.Store.{value, error, invalid_argument, Text, text_eq, text_eq_iff}
use external_icing.Schema.{
  PropertyConfig, TypeConfig, optional, required, parse_property_configs, compare_types,
}
use external_icing.Schema.Validator.{
  Document, document, no_property, property, no_document, is_empty, validate,
}

-- A string property.
abbrev pub string_property : Text → ℕ → PropertyConfig
string_property name cardinality = record {
  property_name = name;
  data_type = 1;
  schema_type = [];
  cardinality = cardinality;
  term_match_type = 0;
  tokenizer_type = 0;
  index_nested_properties = false;
}

-- A type in which one property is required, and the same type with this property optional and another
-- one required.
abbrev pub one_needed : Text → Text → TypeConfig
one_needed t a = record { type_name = t; properties = string_property a required ∷ [] }

abbrev pub other_needed : Text → Text → Text → TypeConfig
other_needed t a b = record {
  type_name = t;
  properties = string_property a optional ∷ string_property b required ∷ [];
}

-- A document with one value of one property.
abbrev pub with_value : Text → Text → Document
with_value t a = document t t t (
    property a (record { strings = 1; int64s = 0; doubles = 0; booleans = 0; bytes = 0 })
      no_document no_property)

-- A type that makes its only required property optional and gains another required one is not called
-- incompatible, although a document that was valid is not any more.
pub compare_types-required_swap :
    (t a b : Text)
    → is_empty t ≡ false
    → is_empty a ≡ false
    → text_eq a b ≡ false
    → ((compare_types (one_needed t a) (other_needed t a b)).is_incompatible ≡ false)
      × (validate (λ name. value (one_needed t a)) true (with_value t a) ≡ value tt)
      × (validate (λ name. value (other_needed t a b)) true (with_value t a)
          ≡ error invalid_argument)
unfolding compare_types parse_property_configs validate
compare_types-required_swap t a b typed named differ =
    let own : text_eq a a ≡ true = (text_eq_iff a a).1 refl in
    (rw own refl, ground (arith, own, typed, named), ground (arith, own, typed, named, differ))
