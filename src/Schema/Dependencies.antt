-- ===== src/Schema/Dependencies.antt =====
-- BuildTransitiveDependencyGraph of icing/schema/schema-util.cc: the types that depend on each type. A
-- set is the list of its members, and a loop over it takes them in this order.
pub mod Ends
use external_icing.Base.{
  ℕ, zero, suc, List, [], ◌∷◌, Option, none, some, ◌==◌, length, if◌then◌else◌,
}
use external_icing.Store.{
  StatusOr, value, error, invalid_argument, already_exists, internal, Text, text_eq,
}
use external_icing.Schema.{PropertyConfig, TypeConfig}
use external_icing.Schema.Delta.{DependencyMap, contains, parents_of}
use external_icing.Schema.Validator.{document_type}

abbrev pub insert : Text → List Text → List Text
insert name names = if contains names name then names else name ∷ names

abbrev pub insert_all : List Text → List Text → List Text
insert_all [] names = names
insert_all (x ∷ xs) names = insert_all xs (insert x names)

abbrev pub erase_name : Text → List Text → List Text
erase_name name [] = []
erase_name name (x ∷ xs) = if text_eq x name then erase_name name xs else x ∷ erase_name name xs

-- ICING_RETURN_IF_ERROR and ICING_ASSIGN_OR_RETURN
abbrev pub then_do : {A B : Type 0} → StatusOr A → (A → StatusOr B) → StatusOr B
then_do (value a) f = f a
then_do (error e) f = error e

-- The local variables of BuildTransitiveDependencyGraph
pub record Graph : Type 0 where
  pub known_types : List Text
  pub unknown_types : List Text
  pub child_to_direct_parent_map : DependencyMap

abbrev pub insert_parent : Text → Text → DependencyMap → DependencyMap
insert_parent child parent [] = (child, parent ∷ []) ∷ []
insert_parent child parent ((t, parents) ∷ rest) =
    if text_eq t child
    then (t, insert parent parents) ∷ rest
    else (t, parents) ∷ insert_parent child parent rest

-- A round of the inner loop, and that loop.
abbrev pub add_property : Text → PropertyConfig → Graph → StatusOr Graph
add_property schema_type p graph =
    if p.data_type == document_type
    then (if text_eq p.schema_type schema_type
        then error invalid_argument
        else value (record graph {
          unknown_types =
              if contains graph.known_types p.schema_type
              then graph.unknown_types
              else insert p.schema_type graph.unknown_types;
          child_to_direct_parent_map =
              insert_parent p.schema_type schema_type graph.child_to_direct_parent_map;
        }))
    else value graph

abbrev pub add_properties : Text → List PropertyConfig → Graph → StatusOr Graph
add_properties schema_type [] graph = value graph
add_properties schema_type (p ∷ ps) graph =
    then_do (add_property schema_type p graph) (λ graph'. add_properties schema_type ps graph')

-- The loop over the types.
abbrev pub know : Text → Graph → Graph
know schema_type graph = record graph {
  known_types = schema_type ∷ graph.known_types;
  unknown_types = erase_name schema_type graph.unknown_types;
}

unfoldable pub add_types : List TypeConfig → Graph → StatusOr Graph
add_types [] graph = value graph
add_types (t ∷ ts) graph =
    let rest : Graph → StatusOr Graph = λ graph'. add_types ts graph' in
    if contains graph.known_types t.type_name
    then error already_exists
    else then_do (add_properties t.type_name t.properties (know t.type_name graph)) rest

-- What ExpandTranstiveDependencies changes
pub record Expansion : Type 0 where
  pub expanded_child_to_parent_map : DependencyMap
  pub pending_expansions : List Text
  pub orphaned_types : List Text

abbrev pub find_parents : DependencyMap → Text → Option (List Text)
find_parents [] name = none
find_parents ((t, parents) ∷ rest) name =
    if text_eq t name then some parents else find_parents rest name

-- The loop over the direct parents of a type, with the dependencies so far.
abbrev pub expand_each :
    (Text → Expansion → StatusOr Expansion)
    → List Text
    → Expansion
    → List Text
    → StatusOr (Expansion × List Text)
expand_each expand [] e names = value (e, names)
expand_each expand (dep ∷ deps) e names =
    let rest : Expansion → StatusOr (Expansion × List Text) = λ e'. expand_each expand deps e' (
      if contains e'.orphaned_types dep
      then names
      else insert_all (parents_of e'.expanded_child_to_parent_map dep) names) in
    if contains e.pending_expansions dep
    then error invalid_argument
    else then_do (expand dep e) rest

abbrev pub expanded : Text → Expansion × List Text → StatusOr Expansion
expanded type (e, names) = value (record e {
  expanded_child_to_parent_map = (type, names) ∷ e.expanded_child_to_parent_map;
  pending_expansions = erase_name type e.pending_expansions;
})

abbrev pub pend : Text → Expansion → Expansion
pend type e = record e { pending_expansions = insert type e.pending_expansions }

-- ExpandTranstiveDependencies of a type; INTERNAL, which the code never returns, is an end of the fuel.
unfoldable pub expand_transtive_dependencies :
    DependencyMap → ℕ → Text → Expansion → StatusOr Expansion
expand_transtive_dependencies map zero type e = error internal
expand_transtive_dependencies map (suc fuel) type e =
    let expand : Text → Expansion → StatusOr Expansion =
      λ dep e'. expand_transtive_dependencies map fuel dep e' in
    elim (find_parents e.expanded_child_to_parent_map type) [
      | some _ ↦ value e
      | none ↦ elim (find_parents map type) [
        | none ↦ value (record e { orphaned_types = insert type e.orphaned_types })
        | some parents ↦
            then_do (expand_each expand parents (pend type e) (insert_all parents []))
              (expanded type)
      ]
    ]

abbrev pub expand_keys :
    (Text → Expansion → StatusOr Expansion) → DependencyMap → Expansion → StatusOr Expansion
expand_keys expand [] e = value e
expand_keys expand ((t, _) ∷ rest) e = then_do (expand t e) (λ e'. expand_keys expand rest e')

-- ExpandTranstiveDependencies of a map; the fuel is one round more than it has keys.
unfoldable pub expand_all : DependencyMap → StatusOr DependencyMap
unfolding expand_transtive_dependencies
expand_all map =
    then_do
      (expand_keys (expand_transtive_dependencies map (suc (length map))) map (record {
        expanded_child_to_parent_map = [];
        pending_expansions = [];
        orphaned_types = [];
      }))
      (λ e. value e.expanded_child_to_parent_map)

-- BuildTransitiveDependencyGraph
abbrev pub expand_known : Graph → StatusOr DependencyMap
expand_known graph = elim graph.unknown_types [
  | [] ↦ expand_all graph.child_to_direct_parent_map
  | _ ∷ _ ↦ error invalid_argument
]

unfoldable pub build_transitive_dependency_graph : List TypeConfig → StatusOr DependencyMap
unfolding add_types expand_all
build_transitive_dependency_graph schema =
    then_do
      (add_types schema
        (record { known_types = []; unknown_types = []; child_to_direct_parent_map = [] }))
      expand_known
