-- ===== src/Tests/Schemas.antt =====
-- Schemas at concrete inputs.
use external_icing.Base.{
  ℕ, ◌≡◌, refl, ap, ◌∙◌, subst, ◌⊎◌, inl, inr, true, false, not, ◌&&◌, List, [], ◌∷◌, some, arith,
  Bool-cases, leb,
}
use external_icing.Store.{value, error, invalid_argument, Text, text_eq}
use external_icing.Schema.{
  PropertyConfig, TypeConfig, repeated, optional, required, is_required, is_indexed, count_if,
  compare_types,
}
use external_icing.Schema.Compatible.{all_found, keeps, keeps_index, compare_types_lem}
use external_icing.Schema.Delta.{
  DependencyMap, find_type, contains, any_old, changed, deleted, compute_compatibility_delta,
}
use external_icing.Schema.Delta.Sets.{compute_compatibility_delta_lem}
use external_icing.Schema.Validator.{
  Document, document, no_property, property, no_document, one_more, validate, Values,
}
use external_icing.Schema.Validator.Unsound.{
  one_needed, other_needed, with_value, compare_types-required_swap,
}
use external_icing.Schema.Validator.Upgraded.{get_schema_type_config}
use external_icing.Schema.Validate.{validate_schema}
use external_icing.Schema.Validate.Documents.{NotStricter, validate-validate_schema}
use external_icing.Schema.Dependencies.{build_transitive_dependency_graph, expand_all}
use external_icing.Schema.Dependencies.Ends.{expand_all-ends}

abbrev text_property : Text → ℕ → ℕ → PropertyConfig
text_property name cardinality match = record {
  property_name = name;
  data_type = 1;
  schema_type = [];
  cardinality = cardinality;
  term_match_type = match;
  tokenizer_type = match;
  index_nested_properties = false;
}

-- A person with a name, and a mail with a subject and senders.
abbrev person : TypeConfig
person = record { type_name = 2 ∷ []; properties = text_property (105 ∷ []) required 1 ∷ [] }

abbrev senders : PropertyConfig
senders = record {
  property_name = 107 ∷ [];
  data_type = 6;
  schema_type = 2 ∷ [];
  cardinality = repeated;
  term_match_type = 0;
  tokenizer_type = 0;
  index_nested_properties = true;
}

abbrev mail : TypeConfig
mail = record {
  type_name = 1 ∷ [];
  properties = text_property (106 ∷ []) required 1 ∷ senders ∷ [];
}

-- The subject becomes optional, and there may be labels.
abbrev new_mail : TypeConfig
new_mail = record {
  type_name = 1 ∷ [];
  properties =
      text_property (106 ∷ []) optional 1 ∷ senders ∷ text_property (108 ∷ []) repeated 0 ∷ [];
}

abbrev old_schema : List TypeConfig
old_schema = mail ∷ person ∷ []

abbrev new_schema : List TypeConfig
new_schema = person ∷ new_mail ∷ []

abbrev dependencies : List (Text × List Text)
dependencies = (2 ∷ [], (1 ∷ []) ∷ []) ∷ []

abbrev one_string : Values
one_string = record { strings = 1; int64s = 0; doubles = 0; booleans = 0; bytes = 0 }

abbrev a_person : Document
a_person = document (9 ∷ []) [] (2 ∷ []) (property (105 ∷ []) one_string no_document no_property)

abbrev a_mail : Document
a_mail = document (9 ∷ []) (4 ∷ []) (1 ∷ []) (
    property (107 ∷ []) (record { strings = 0; int64s = 0; doubles = 0; booleans = 0; bytes = 0 })
      (one_more a_person (one_more a_person no_document))
      (property (106 ∷ []) one_string no_document no_property))

a_mail_valid : validate (get_schema_type_config old_schema) true a_mail ≡ value tt
unfolding validate
a_mail_valid = refl

none_incompatible :
    (x : Text)
    → contains
        (compute_compatibility_delta old_schema new_schema dependencies).schema_types_incompatible
        x
      ≡ false
unfolding compute_compatibility_delta compare_types
none_incompatible x = refl

none_deleted :
    (x : Text)
    → contains
        (compute_compatibility_delta old_schema new_schema dependencies).schema_types_deleted
        x
      ≡ false
unfolding compute_compatibility_delta compare_types
none_deleted x = refl

one_of_two :
    (c : TypeConfig) (name : Text) → find_type old_schema name ≡ some c → (mail ≡ c) ⊎ (person ≡ c)
one_of_two c name h = elim (Bool-cases (text_eq (1 ∷ []) name)) [
  | inl first ↦ inl (ground (arith, first))
  | inr other ↦ elim (Bool-cases (text_eq (2 ∷ []) name)) [
    | inl second ↦ inr (ground (arith, other, second))
    | inr third ↦ absurd (ground (arith, other, third))
  ]
]

all-NotStricter :
    (c c' : TypeConfig)
    → find_type old_schema c.type_name ≡ some c
    → find_type new_schema c.type_name ≡ some c'
    → NotStricter c c'
all-NotStricter c c' there has = elim (one_of_two c c.type_name there) [
  | inl is_mail ↦
      let is_new : some new_mail ≡ some c' =
        ap (λ (t : TypeConfig). find_type new_schema t.type_name) is_mail ∙ has in
      let it : new_mail ≡ c' = ground (arith, is_new) in
      subst (λ (t : TypeConfig). NotStricter t c') is_mail
        (subst (NotStricter mail) it (record { known = refl; required_before = refl }))
  | inr is_person ↦
      let is_new : some person ≡ some c' =
        ap (λ (t : TypeConfig). find_type new_schema t.type_name) is_person ∙ has in
      let it : person ≡ c' = ground (arith, is_new) in
      subst (λ (t : TypeConfig). NotStricter t c') is_person
        (subst (NotStricter person) it (record { known = refl; required_before = refl }))
]

old_schema_valid : validate_schema old_schema ≡ value dependencies
unfolding validate_schema build_transitive_dependency_graph
old_schema_valid = refl

new_schema_valid : validate_schema new_schema ≡ value dependencies
unfolding validate_schema build_transitive_dependency_graph
new_schema_valid = refl

validate-validate_schema_example :
    validate (get_schema_type_config new_schema) true a_mail ≡ value tt
validate-validate_schema_example =
    validate-validate_schema old_schema new_schema dependencies dependencies old_schema_valid
      new_schema_valid all-NotStricter none_incompatible none_deleted true a_mail a_mail_valid

-- Two types that have properties of each other.
abbrev cycle : DependencyMap
cycle = (1 ∷ [], (2 ∷ []) ∷ []) ∷ (2 ∷ [], (1 ∷ []) ∷ []) ∷ []

cycle_run : expand_all cycle ≡ error invalid_argument
unfolding expand_all
cycle_run = refl

chain_run :
    expand_all ((3 ∷ [], (2 ∷ []) ∷ []) ∷ (2 ∷ [], (1 ∷ []) ∷ []) ∷ [])
    ≡ value ((3 ∷ [], (1 ∷ []) ∷ (2 ∷ []) ∷ []) ∷ (2 ∷ [], (1 ∷ []) ∷ []) ∷ [])
unfolding expand_all
chain_run = refl

expand_all-ends_example :
    ((expanded : DependencyMap) × (expand_all cycle ≡ value expanded))
    ⊎ (expand_all cycle ≡ error invalid_argument)
expand_all-ends_example = expand_all-ends cycle

compute_compatibility_delta_lem_example :
    (contains
        (compute_compatibility_delta new_schema old_schema dependencies).schema_types_incompatible
        (1 ∷ [])
      ≡ any_old (changed (λ d. d.is_incompatible) dependencies (1 ∷ [])) new_schema old_schema)
    × (contains
          (compute_compatibility_delta new_schema old_schema dependencies).schema_types_deleted
          (1 ∷ [])
        ≡ any_old (deleted (1 ∷ [])) new_schema old_schema)
compute_compatibility_delta_lem_example =
    compute_compatibility_delta_lem new_schema old_schema dependencies (1 ∷ []) refl

-- Back to the old schema: the subject would be required again.
back_run :
    contains
      (compute_compatibility_delta new_schema old_schema dependencies).schema_types_incompatible
      (1 ∷ [])
    ≡ true
unfolding compute_compatibility_delta compare_types
back_run = refl

compare_types_lem_example :
    ((compare_types mail new_mail).is_incompatible
      ≡ not (
          all_found keeps mail.properties new_mail.properties
          && leb (count_if is_required new_mail.properties) (count_if is_required mail.properties)))
    × ((compare_types mail new_mail).is_index_incompatible
        ≡ not (
            all_found keeps_index mail.properties new_mail.properties
            && leb (count_if is_indexed new_mail.properties) (count_if is_indexed mail.properties)))
compare_types_lem_example = compare_types_lem mail new_mail

compare_types-required_swap_example :
    ((compare_types
        (one_needed (1 ∷ []) (2 ∷ []))
        (other_needed (1 ∷ []) (2 ∷ []) (3 ∷ []))).is_incompatible
      ≡ false)
    × (validate (λ name. value (one_needed (1 ∷ []) (2 ∷ []))) true (with_value (1 ∷ []) (2 ∷ []))
        ≡ value tt)
    × (validate
          (λ name. value (other_needed (1 ∷ []) (2 ∷ []) (3 ∷ [])))
          true
          (with_value (1 ∷ []) (2 ∷ []))
        ≡ error invalid_argument)
compare_types-required_swap_example =
    compare_types-required_swap (1 ∷ []) (2 ∷ []) (3 ∷ []) refl refl refl
