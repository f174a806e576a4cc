-- ===== src/Schema/Delta.antt =====
-- ComputeCompatibilityDelta of icing/schema/schema-util.cc.
pub mod Sets
use external_icing.Base.{
  ℕ, Bool, true, false, not, ◌&&◌, ◌||◌, List, [], ◌∷◌, ◌++◌, Option, none, some, if◌then◌else◌,
}
use external_icing.Store.{Text, text_eq}
use external_icing.Schema.{TypeConfig, Difference, compare_types}

-- SchemaDelta
pub record SchemaDelta : Type 0 where
  pub schema_types_deleted : List Text
  pub schema_types_incompatible : List Text
  pub schema_types_new : List Text
  pub schema_types_changed_fully_compatible : List Text
  pub schema_types_index_incompatible : List Text

abbrev pub no_delta : SchemaDelta
no_delta = record {
  schema_types_deleted = [];
  schema_types_incompatible = [];
  schema_types_new = [];
  schema_types_changed_fully_compatible = [];
  schema_types_index_incompatible = [];
}

abbrev pub find_type : List TypeConfig → Text → Option TypeConfig
find_type [] name = none
find_type (t ∷ ts) name = if text_eq t.type_name name then some t else find_type ts name

-- BuildTypeConfigMap: `emplace` keeps the first of two types of one name.
abbrev pub emplace : TypeConfig → List TypeConfig → List TypeConfig
emplace t [] = t ∷ []
emplace t (u ∷ us) = if text_eq u.type_name t.type_name then u ∷ us else u ∷ emplace t us

abbrev pub build_type_config_map : List TypeConfig → List TypeConfig → List TypeConfig
build_type_config_map [] map = map
build_type_config_map (t ∷ ts) map = build_type_config_map ts (emplace t map)

abbrev pub erase_type : Text → List TypeConfig → List TypeConfig
erase_type name [] = []
erase_type name (t ∷ ts) = if text_eq t.type_name name then ts else t ∷ erase_type name ts

-- DependencyMap: the types that depend on one, if any do.
abbrev pub DependencyMap : Type 0
DependencyMap = List (Text × List Text)

abbrev pub parents_of : DependencyMap → Text → List Text
parents_of [] name = []
parents_of ((t, parents) ∷ rest) name = if text_eq t name then parents else parents_of rest name

-- A type and those that depend on it, if it has changed in the way that a set is about.
abbrev pub mark : DependencyMap → Bool → Text → List Text → List Text
mark dependencies false name names = names
mark dependencies true name names = parents_of dependencies name ++ name ∷ names

abbrev pub mark_one : Bool → Text → List Text → List Text
mark_one false name names = names
mark_one true name names = name ∷ names

abbrev pub note : DependencyMap → Text → Difference → SchemaDelta → SchemaDelta
note dependencies name d delta = record delta {
  schema_types_incompatible =
      mark dependencies d.is_incompatible name delta.schema_types_incompatible;
  schema_types_index_incompatible =
      mark dependencies d.is_index_incompatible name delta.schema_types_index_incompatible;
  schema_types_changed_fully_compatible =
      mark_one (not d.is_incompatible && not d.is_index_incompatible && d.has_property_changed) name
        delta.schema_types_changed_fully_compatible;
}

-- A round of the loop over the old types: the delta, and the new types that are left.
abbrev pub delta_found :
    DependencyMap
    → TypeConfig
    → List TypeConfig
    → SchemaDelta
    → Option TypeConfig
    → SchemaDelta × List TypeConfig
delta_found dependencies old map delta none =
    (record delta { schema_types_deleted = old.type_name ∷ delta.schema_types_deleted }, map)
delta_found dependencies old map delta (some new) =
    (note dependencies old.type_name (compare_types old new) delta, erase_type old.type_name map)

unfoldable pub delta_loop :
    DependencyMap → List TypeConfig → List TypeConfig → SchemaDelta → SchemaDelta × List TypeConfig
unfolding compare_types
delta_loop dependencies [] map delta = (delta, map)
delta_loop dependencies (old ∷ olds) map delta =
    let (delta', map') = delta_found dependencies old map delta (find_type map old.type_name) in
    delta_loop dependencies olds map' delta'

abbrev pub names_of : List TypeConfig → List Text
names_of [] = []
names_of (t ∷ ts) = t.type_name ∷ names_of ts

-- ComputeCompatibilityDelta
unfoldable pub compute_compatibility_delta :
    List TypeConfig → List TypeConfig → DependencyMap → SchemaDelta
unfolding delta_loop
compute_compatibility_delta old_schema new_schema dependencies =
    let (delta, map) =
      delta_loop dependencies old_schema (build_type_config_map new_schema []) no_delta in
    record delta { schema_types_new = names_of map }

-- The delta by the types of the two schemas.
abbrev pub contains : List Text → Text → Bool
contains [] name = false
contains (t ∷ ts) name = text_eq t name || contains ts name

abbrev pub found_and : (TypeConfig → Bool) → Option TypeConfig → Bool
found_and test none = false
found_and test (some t) = test t

-- Whether a test holds of an old type and what the new schema has of its name.
abbrev pub any_old :
    (TypeConfig → Option TypeConfig → Bool) → List TypeConfig → List TypeConfig → Bool
any_old test [] new_schema = false
any_old test (old ∷ olds) new_schema =
    test old (find_type new_schema old.type_name) || any_old test olds new_schema

-- An old type has changed in some way, and a type is this one or depends on it.
abbrev pub changed :
    (Difference → Bool) → DependencyMap → Text → TypeConfig → Option TypeConfig → Bool
changed test dependencies name old new =
    found_and (λ t. test (compare_types old t)) new
    && (contains (parents_of dependencies old.type_name) name || text_eq old.type_name name)

-- A type is an old one that is gone.
abbrev pub deleted : Text → TypeConfig → Option TypeConfig → Bool
deleted name old new = not (found_and (λ t. true) new) && text_eq old.type_name name

-- No two types have one name.
abbrev pub distinct_types : List TypeConfig → Bool
distinct_types [] = true
distinct_types (t ∷ ts) = not (contains (names_of ts) t.type_name) && distinct_types ts
