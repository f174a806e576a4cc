-- ===== src/Schema/Validate/Accepted.antt =====
-- What SchemaUtil::Validate of icing/schema/schema-util.cc makes sure of.
use external_icing.Base.{
  ◌≡◌, refl, sym, ap, ◌∙◌, Bool, true, false, not, ◌&&◌, List, [], ◌∷◌, ◌==◌, none, some,
  if◌then◌else◌, arith, Bool-cases, inl, inr,
}
use external_icing.Store.{StatusOr, value, error, already_exists, Text, text_eq, text_eq_iff}
use external_icing.Schema.{PropertyConfig, TypeConfig, find_property}
use external_icing.Schema.Delta.{DependencyMap, contains, names_of, distinct_types, find_type}
use external_icing.Schema.Dependencies.{
  then_do, Graph, add_property, add_properties, add_types, know, build_transitive_dependency_graph,
}
use external_icing.Schema.Validator.{document_type}
use external_icing.Schema.Validator.Counting.{distinct}
use external_icing.Schema.Validate.{
  validate_property, validate_config, validate_schema_type, validate_each, validate_types,
  validate_schema,
}

-- An error is passed on, so that what succeeds has succeeded in each part.
then_do-value :
    {A B : Type 0} (r : StatusOr A) (f : A → StatusOr B) (b : B)
    → then_do r f ≡ value b
    → (a : A) × (r ≡ value a) × (f a ≡ value b)
then_do-value (value a) f b h = (a, refl, h)
then_do-value (error e) f b h = absurd (ground arith)

-- A list of names none of which is among others.
abbrev apart : List Text → List PropertyConfig → Bool
apart known [] = true
apart known (p ∷ ps) = not (contains known p.property_name) && apart known ps

apart-cons :
    (name : Text) (known : List Text) (ps : List PropertyConfig)
    → apart (name ∷ known) ps ≡ true
    → (find_property ps name ≡ none) × (apart known ps ≡ true)
apart-cons name known [] h = (refl, refl)
apart-cons name known (p ∷ ps) h =
    let rest = apart-cons name known ps (ground arith) in
    elim (Bool-cases (text_eq p.property_name name)) [
      | inl same ↦
          let turned : text_eq name p.property_name ≡ true =
            (text_eq_iff name p.property_name).1
              (sym ((text_eq_iff p.property_name name).0 same)) in
          absurd (ground (arith, turned))
      | inr differ ↦ (ground (arith, differ, rest.0), ground (arith, rest.1))
    ]

validate_each-distinct :
    (known : List Text) (ps : List PropertyConfig)
    → validate_each known ps ≡ value tt
    → (apart known ps ≡ true) × (distinct ps ≡ true)
validate_each-distinct known [] h = (refl, refl)
validate_each-distinct known (p ∷ ps) h =
    let (u, first, others) =
      then_do-value (validate_property known p)
        (λ (x : Unit {0}). validate_each (p.property_name ∷ known) ps) tt h in
    let (apart', distinct') = validate_each-distinct (p.property_name ∷ known) ps others in
    let (fresh, rest) = apart-cons p.property_name known ps apart' in
    let (v, named, new) =
      then_do-value _
        (λ (x : Unit {0}).
          if contains known p.property_name then error already_exists else validate_config p)
        tt first in
    elim (Bool-cases (contains known p.property_name)) [
      | inl twice ↦ absurd (ground (arith, twice))
      | inr once ↦ (ground (arith, once, rest), ground (arith, fresh, distinct'))
    ]

add_property-known :
    (name : Text) (p : PropertyConfig) (graph graph' : Graph)
    → add_property name p graph ≡ value graph'
    → graph'.known_types ≡ graph.known_types
add_property-known name p graph graph' h = elim (Bool-cases (p.data_type == document_type)) [
  | inr other ↦ ground (arith, other)
  | inl documents ↦ elim (Bool-cases (text_eq p.schema_type name)) [
    | inl itself ↦ absurd (ground (arith, documents, itself))
    | inr differ ↦ ground (arith, documents, differ)
  ]
]

add_properties-known :
    (name : Text) (ps : List PropertyConfig) (graph graph' : Graph)
    → add_properties name ps graph ≡ value graph'
    → graph'.known_types ≡ graph.known_types
add_properties-known name [] graph graph' h = ground (arith, h)
add_properties-known name (p ∷ ps) graph graph' h =
    let (g, first, others) =
      then_do-value (add_property name p graph) (λ x. add_properties name ps x) graph' h in
    add_properties-known name ps g graph' others ∙ add_property-known name p graph g first

-- Types none of which has a name among others.
abbrev new_types : List Text → List TypeConfig → Bool
new_types known [] = true
new_types known (t ∷ ts) = not (contains known t.type_name) && new_types known ts

new_types-cons :
    (name : Text) (known : List Text) (ts : List TypeConfig)
    → new_types (name ∷ known) ts ≡ true
    → (contains (names_of ts) name ≡ false) × (new_types known ts ≡ true)
new_types-cons name known [] h = (refl, refl)
new_types-cons name known (t ∷ ts) h =
    let rest = new_types-cons name known ts (ground arith) in
    elim (Bool-cases (text_eq t.type_name name)) [
      | inl same ↦
          let turned : text_eq name t.type_name ≡ true =
            (text_eq_iff name t.type_name).1 (sym ((text_eq_iff t.type_name name).0 same)) in
          absurd (ground (arith, turned))
      | inr differ ↦ (ground (arith, differ, rest.0), ground (arith, rest.1))
    ]

add_types-distinct :
    (ts : List TypeConfig) (graph graph' : Graph)
    → add_types ts graph ≡ value graph'
    → (new_types graph.known_types ts ≡ true) × (distinct_types ts ≡ true)
unfolding add_types
add_types-distinct [] graph graph' h = (refl, refl)
add_types-distinct (t ∷ ts) graph graph' h =
    elim (Bool-cases (contains graph.known_types t.type_name)) [
      | inl twice ↦ absurd (ground (arith, twice))
      | inr once ↦
          let (g, first, others) =
            then_do-value (add_properties t.type_name t.properties (know t.type_name graph))
              (λ x. add_types ts x) graph' (ground (arith, once)) in
          let known : g.known_types ≡ t.type_name ∷ graph.known_types =
            add_properties-known t.type_name t.properties (know t.type_name graph) g first in
          let (new', distinct') = add_types-distinct ts g graph' others in
          let (fresh, rest) =
            new_types-cons t.type_name graph.known_types ts
              (ap (λ (k : List Text). new_types k ts) (sym known) ∙ new') in
          (ground (arith, once, rest), ground (arith, fresh, distinct'))
    ]

validate_types-distinct :
    (ts : List TypeConfig) (name : Text) (t : TypeConfig)
    → validate_types ts ≡ value tt
    → find_type ts name ≡ some t
    → distinct t.properties ≡ true
unfolding validate_types
validate_types-distinct [] name t h there = absurd (ground arith)
validate_types-distinct (u ∷ ts) name t h there =
    let (v, named, checked) = then_do-value (validate_schema_type u.type_name) _ tt h in
    let (w, each, others) =
      then_do-value (validate_each [] u.properties) (λ (x : Unit {0}). validate_types ts) tt
        checked in
    elim (Bool-cases (text_eq u.type_name name)) [
      | inr differ ↦ validate_types-distinct ts name t others (ground (arith, differ))
      | inl same ↦
          let it : u ≡ t = ground (arith, same) in
          ap (λ (x : TypeConfig). distinct x.properties) (sym it)
          ∙ (validate_each-distinct [] u.properties each).1
    ]

-- A schema that Validate accepts: no two types have one name, and no two properties of a type.
pub validate_schema-distinct :
    (schema : List TypeConfig) (map : DependencyMap)
    → validate_schema schema ≡ value map
    → (distinct_types schema ≡ true)
      × (build_transitive_dependency_graph schema ≡ value map)
      × ((name : Text) (t : TypeConfig)
          → find_type schema name ≡ some t
          → distinct t.properties ≡ true)
unfolding validate_schema build_transitive_dependency_graph
validate_schema-distinct schema map h =
    let (map', built, checked) = then_do-value (build_transitive_dependency_graph schema) _ map h in
    let (u, valid, same) =
      then_do-value (validate_types schema) (λ (x : Unit {0}). value map') map checked in
    let (graph, added, expanded) = then_do-value (add_types schema _) _ map' built in
    (
      (add_types-distinct schema _ graph added).1,
      built ∙ same,
      λ name t there. validate_types-distinct schema name t valid there,
    )
