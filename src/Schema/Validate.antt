-- ===== src/Schema/Validate.antt =====
-- SchemaUtil::Validate of icing/schema/schema-util.cc.
pub mod Accepted
pub mod Documents
use external_icing.Base.{
  ℕ, Bool, true, false, not, ◌&&◌, ◌||◌, List, [], ◌∷◌, leb, ◌==◌, if◌then◌else◌,
}
use external_icing.Store.{StatusOr, value, error, invalid_argument, already_exists, Text}
use external_icing.Schema.{PropertyConfig, TypeConfig, unknown_match}
use external_icing.Schema.Delta.{DependencyMap, contains}
use external_icing.Schema.Dependencies.{then_do, build_transitive_dependency_graph}
use external_icing.Schema.Validator.{is_empty, document_type}

-- std::isalnum of a byte, in the default locale
abbrev pub is_alnum : ℕ → Bool
is_alnum c = (leb 48 c && leb c 57) || (leb 65 c && leb c 90) || (leb 97 c && leb c 122)

abbrev pub all_alnum : Text → Bool
all_alnum [] = true
all_alnum (c ∷ cs) = is_alnum c && all_alnum cs

abbrev pub invalid_if : Bool → StatusOr (Unit {0})
invalid_if true = error invalid_argument
invalid_if false = value tt

-- ValidateSchemaType
abbrev pub validate_schema_type : Text → StatusOr (Unit {0})
validate_schema_type schema_type = invalid_if (is_empty schema_type)

-- ValidatePropertyName
abbrev pub validate_property_name : Text → StatusOr (Unit {0})
validate_property_name property_name =
    if is_empty property_name
    then error invalid_argument
    else invalid_if (not (all_alnum property_name))

-- ValidateDataType and ValidateCardinality: UNKNOWN is zero.
abbrev pub validate_data_type : ℕ → StatusOr (Unit {0})
validate_data_type data_type = invalid_if (data_type == 0)

abbrev pub validate_cardinality : ℕ → StatusOr (Unit {0})
validate_cardinality cardinality = invalid_if (cardinality == 0)

-- TokenizerType::NONE, and DataType::STRING
abbrev pub no_tokenizer : ℕ
no_tokenizer = 0

abbrev pub string_type : ℕ
string_type = 1

-- ValidateStringIndexingConfig
abbrev pub validate_string_indexing_config : PropertyConfig → StatusOr (Unit {0})
validate_string_indexing_config p =
    if (p.term_match_type == unknown_match) && not (p.tokenizer_type == no_tokenizer)
    then error invalid_argument
    else invalid_if (not (p.term_match_type == unknown_match) && (p.tokenizer_type == no_tokenizer))

-- The checks of a property behind that of its name, in their order.
abbrev pub validate_config : PropertyConfig → StatusOr (Unit {0})
validate_config p = then_do (validate_data_type p.data_type) (λ _.
    then_do (if p.data_type == document_type then validate_schema_type p.schema_type else value tt)
      (λ _.
        then_do (validate_cardinality p.cardinality) (λ _.
          if p.data_type == string_type then validate_string_indexing_config p else value tt)))

abbrev pub validate_property : List Text → PropertyConfig → StatusOr (Unit {0})
validate_property known p =
    then_do (validate_property_name p.property_name)
      (λ _. if contains known p.property_name then error already_exists else validate_config p)

-- The loop over the properties of a type, with the names that are known.
abbrev pub validate_each : List Text → List PropertyConfig → StatusOr (Unit {0})
validate_each known [] = value tt
validate_each known (p ∷ ps) =
    let rest : Unit {0} → StatusOr (Unit {0}) = λ _. validate_each (p.property_name ∷ known) ps in
    then_do (validate_property known p) rest

-- The loop over the types.
unfoldable pub validate_types : List TypeConfig → StatusOr (Unit {0})
validate_types [] = value tt
validate_types (t ∷ ts) =
    let rest : Unit {0} → StatusOr (Unit {0}) = λ _. validate_types ts in
    then_do (validate_schema_type t.type_name) (λ _. then_do (validate_each [] t.properties) rest)

-- SchemaUtil::Validate
unfoldable pub validate_schema : List TypeConfig → StatusOr DependencyMap
unfolding validate_types
validate_schema schema =
    then_do (build_transitive_dependency_graph schema)
      (λ map. then_do (validate_types schema) (λ _. value map))
