-- ===== src/Schema/Validate/Documents.antt =====
-- Documents under two schemas that SchemaUtil::Validate of icing/schema/schema-util.cc accepts.
use external_icing.Base.{◌≡◌, Bool, true, false, List, some}
use external_icing.Store.{value, Text}
use external_icing.Schema.{TypeConfig}
use external_icing.Schema.Delta.{find_type, DependencyMap, compute_compatibility_delta, contains}
use external_icing.Schema.Validator.{Document, validate}
use external_icing.Schema.Validator.Checks.{all_known, all_required_before}
use external_icing.Schema.Validator.Upgraded.{get_schema_type_config, validate-delta}
use external_icing.Schema.Validate.{validate_schema}
use external_icing.Schema.Validate.Accepted.{validate_schema-distinct}

-- Each cardinality of a type is one of the enum, and what is required was required before.
pub record NotStricter (old new : TypeConfig) : Type 0 where
  pub known : all_known old.properties ≡ true
  pub required_before : all_required_before old.properties new.properties ≡ true

-- Two schemas that Validate accepts, where the delta, with the new schema's dependency map, names no type
-- as incompatible or as deleted, no cardinality of the old one is beyond the enum, and no property is
-- newly required: a document that is valid, with all documents in it, stays valid.
pub validate-validate_schema :
    (old_schema new_schema : List TypeConfig) (old_dependencies dependencies : DependencyMap)
    → validate_schema old_schema ≡ value old_dependencies
    → validate_schema new_schema ≡ value dependencies
    → ((c c' : TypeConfig)
        → find_type old_schema c.type_name ≡ some c
        → find_type new_schema c.type_name ≡ some c'
        → NotStricter c c')
    → ((x : Text)
        → contains
            (compute_compatibility_delta old_schema new_schema
              dependencies).schema_types_incompatible
            x
          ≡ false)
    → ((x : Text)
        → contains
            (compute_compatibility_delta old_schema new_schema dependencies).schema_types_deleted
            x
          ≡ false)
    → (top : Bool) (d : Document) → validate (get_schema_type_config old_schema) top d ≡ value tt
    → validate (get_schema_type_config new_schema) top d ≡ value tt
validate-validate_schema old_schema new_schema old_dependencies dependencies old_ok new_ok stricter
      none_incompatible none_deleted =
    let (apart, built, distinct_old) =
      validate_schema-distinct old_schema old_dependencies old_ok in
    let (apart', built', distinct_new) = validate_schema-distinct new_schema dependencies new_ok in
    validate-delta old_schema new_schema dependencies apart
      (λ c c' there has. record {
        distinct_old = distinct_old c.type_name c there;
        distinct_new = distinct_new c.type_name c' has;
        known = (stricter c c' there has).known;
        required_before = (stricter c c' there has).required_before;
      })
      none_incompatible none_deleted
