-- ===== src/Schema/Validator.antt =====
-- icing/util/document-validator.cc: whether a document keeps to its type. Score and times are natural
-- numbers here, so that their checks are left out; of the values of a property their number counts.
pub mod Counting
pub mod Checks
pub mod Preserved
pub mod Unsound
pub mod Upgraded
use external_icing.Base.{
  ℕ, zero, suc, ◌+◌, Bool, true, false, not, ◌&&◌, List, [], ◌∷◌, Option, none, some, ltb, ◌==◌,
  if◌then◌else◌,
}
use external_icing.Store.{
  StatusOr, value, error, Status, not_found, invalid_argument, already_exists, Text, text_eq,
}
use external_icing.Schema.{
  PropertyConfig, TypeConfig, repeated, optional, required, find_property, parse_property_configs,
}

-- The numbers of the values of each kind, other than documents
pub record Values : Type 0 where
  pub strings : ℕ
  pub int64s : ℕ
  pub doubles : ℕ
  pub booleans : ℕ
  pub bytes : ℕ

-- DocumentProto, by namespace, uri, schema and properties
mutual
  pub data Document : Type 0 where
    document : Text → Text → Text → Properties → Document

  pub data Properties : Type 0 where
    no_property : Properties
    property : Text → Values → Documents → Properties → Properties

  pub data Documents : Type 0 where
    no_document : Documents
    one_more : Document → Documents → Documents

abbrev pub is_empty : Text → Bool
is_empty [] = true
is_empty (c ∷ cs) = false

abbrev pub schema_of : Document → Text
schema_of (document name_space uri schema properties) = schema

abbrev pub num_documents : Documents → ℕ
num_documents no_document = 0
num_documents (one_more d ds) = suc (num_documents ds)

-- PropertyConfigProto::DataType
abbrev pub document_type : ℕ
document_type = 6

-- The number of values of the data type.
abbrev pub value_size : ℕ → Values → Documents → ℕ
value_size data_type v ds =
    if data_type == 1
    then v.strings
    else if data_type == 2
    then v.int64s
    else if data_type == 3
    then v.doubles
    else if data_type == 4
    then v.booleans
    else if data_type == 5
    then v.bytes
    else if data_type == document_type
    then num_documents ds
    else 0

-- Whether the number of values is one that the cardinality allows.
abbrev pub size_fits : ℕ → ℕ → Bool
size_fits cardinality size =
    if cardinality == optional
    then ltb size 2
    else if cardinality == required
    then size == 1
    else true

abbrev pub contains : List Text → Text → Bool
contains [] name = false
contains (t ∷ ts) name = if text_eq t name then true else contains ts name

-- The checks of a property on its own, in their order; its type, if it passes.
abbrev pub sized : PropertyConfig → ℕ → StatusOr PropertyConfig
sized config size =
    if size_fits config.cardinality size then value config else error invalid_argument

abbrev pub configured : Values → Documents → Option PropertyConfig → StatusOr PropertyConfig
configured v ds none = error not_found
configured v ds (some config) = sized config (value_size config.data_type v ds)

abbrev pub check_property :
    TypeConfig → List Text → Text → Values → Documents → StatusOr PropertyConfig
check_property type_config seen name v ds =
    if is_empty name
    then error invalid_argument
    else if contains seen name
    then error already_exists
    else configured v ds (find_property type_config.properties name)

abbrev pub one_required : PropertyConfig → ℕ → ℕ
one_required config n = if config.cardinality == required then n + 1 else n

abbrev pub and_then : {A : Type 0} → StatusOr (Unit {0}) → StatusOr A → StatusOr A
and_then (value _) r = r
and_then (error e) r = error e

-- The check behind the loop over the properties.
abbrev pub enough_required : TypeConfig → StatusOr ℕ → StatusOr (Unit {0})
enough_required type_config (error e) = error e
enough_required type_config (value actual) =
    if ltb actual (parse_property_configs type_config).num_required_properties
    then error invalid_argument
    else value tt

module _ (get_schema_type_config : Text → StatusOr TypeConfig) where
  unfoldable mutual
    unfolding parse_property_configs

    -- Validate; `top` is a depth of zero.
    pub validate : Bool → Document → StatusOr (Unit {0})
    validate top (document name_space uri schema properties) =
        let checked : TypeConfig → StatusOr ℕ =
          λ type_config. validate_properties properties type_config [] 0 in
        if is_empty name_space
        then error invalid_argument
        else if top && is_empty uri
        then error invalid_argument
        else if is_empty schema
        then error invalid_argument
        else elim (get_schema_type_config schema) [
          | error e ↦ error e
          | value type_config ↦ enough_required type_config (checked type_config)
        ]

    -- The loop over the properties: the number of required ones.
    pub validate_properties : Properties → TypeConfig → List Text → ℕ → StatusOr ℕ
    validate_properties no_property type_config seen actual = value actual
    validate_properties (property name v ds rest) type_config seen actual =
        let nested : Text → StatusOr (Unit {0}) = λ expected. validate_nested ds expected in
        let next : ℕ → StatusOr ℕ =
          λ actual'. validate_properties rest type_config (name ∷ seen) actual' in
        elim (check_property type_config seen name v ds) [
          | error e ↦ error e
          | value config ↦
              and_then
                (if config.data_type == document_type then nested config.schema_type else value tt)
                (next (one_required config actual))
        ]

    -- The loop over the documents of a property.
    pub validate_nested : Documents → Text → StatusOr (Unit {0})
    validate_nested no_document expected = value tt
    validate_nested (one_more d ds) expected =
        if not (text_eq expected (schema_of d))
        then error invalid_argument
        else and_then (validate false d) (validate_nested ds expected)
