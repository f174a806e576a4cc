-- ===== src/Query/Evaluate.antt =====
-- A tree of icing/query/query-processor.cc as the iterators of icing/index/iterator that it is made
-- of, and the documents that it stands for.
pub mod Sound
pub mod Trees
pub mod Matches
pub mod Search
use external_icing.Base.{
  ℕ, zero, suc, ◌+◌, ◌<◌, ◌≤◌, ◌≡◌, Bool, List, [], ◌∷◌, Option, none, some, ltb, if◌then◌else◌,
}
use external_icing.Store.{Text}
use external_icing.Iterator.{Match, doc, Operations}
use external_icing.Iterator.Matches.{meet_options}
use external_icing.Iterator.AllDocumentId.{AllDocumentId, all_operations, make_all, plain}
use external_icing.Iterator.And.{And, and_operations, make_and}
use external_icing.Iterator.Or.{Or, or_operations, make_or}
use external_icing.Iterator.Or.Lists.{either_match}
use external_icing.Iterator.Not.{Not, not_operations, make_not}
use external_icing.Iterator.Not.Missing.{unless_found}
use external_icing.Iterator.Row.{Row, no_row, in_row}
use external_icing.Iterator.AndNary.{AndNary, and_nary_operations, make_and_nary}
use external_icing.Iterator.AndNary.Meet.{common}
use external_icing.Iterator.OrNary.{OrNary, or_nary_operations, make_or_nary}
use external_icing.Iterator.OrNary.Collect.{any}
use external_icing.Iterator.Select.{Delegating, make_delegating, then_pick}
use external_icing.Iterator.Select.Filter.{
  DocumentFilterData, Targets, make_targets, filter_operations, pick_shown,
}
use external_icing.Iterator.Select.SectionRestrict.{restrict_operations, pick_restricted}
use external_icing.Query.{
  Options, Node, Nodes, term, all_document_id, and_binary, and_nary, or_binary, or_nary, not_node,
  section_restrict, filter, no_more, more,
}

-- An iterator of some class, in a state.
pub record Iterator : Type 1 where
  pub State : Type 0
  pub operations : Operations State
  pub state : State

-- The members of a vector of iterators.
pub record Vector : Type 1 where
  pub States : Type 0
  pub row : Row States
  pub states : States

-- What the iterators ask of the stores.
pub record Stores : Type 0 where
  pub does_document_exist : ℕ → Bool
  pub get_document_filter_data : ℕ → Option DocumentFilterData
  pub get_namespace_id : Text → Option ℕ
  pub get_schema_type_id : Text → Option ℕ
  pub get_section_path : ℕ → ℕ → Option Text
  pub path_equal : Text → Text → Bool

abbrev pub targets : Stores → Options → Targets Text
targets stores options =
    make_targets stores.get_namespace_id stores.get_schema_type_id options.namespaces
      options.schema_types

module _ (stores : Stores) (leaf : ℕ → Iterator) where
  -- The iterators of a tree, each by its constructor.
  unfoldable mutual
    pub build : Node → Iterator
    build (term k) = leaf k
    build (all_document_id limit) = record {
      State = AllDocumentId;
      operations = all_operations;
      state = make_all limit;
    }
    build (and_binary a b) =
        let i = build a in
        let j = build b in
        record {
          State = And i.State j.State;
          operations = and_operations i.operations j.operations;
          state = make_and i.operations j.operations i.state j.state;
        }
    build (and_nary ns) =
        let v = build_all ns in
        record {
          State = AndNary v.States;
          operations = and_nary_operations v.row;
          state = make_and_nary v.row v.states;
        }
    build (or_binary a b) =
        let i = build a in
        let j = build b in
        record {
          State = Or i.State j.State;
          operations = or_operations i.operations j.operations;
          state = make_or i.operations j.operations i.state j.state;
        }
    build (or_nary ns) =
        let v = build_all ns in
        record {
          State = OrNary v.States;
          operations = or_nary_operations v.row;
          state = make_or_nary v.row v.states;
        }
    build (not_node n limit) =
        let i = build n in
        record {
          State = Not i.State;
          operations = not_operations i.operations;
          state = make_not i.operations i.state limit;
        }
    build (section_restrict n section) =
        let i = build n in
        record {
          State = Delegating i.State;
          operations =
              restrict_operations stores.path_equal stores.get_section_path section i.operations
                stores.get_document_filter_data;
          state = make_delegating i.state;
        }
    build (filter n options) =
        let i = build n in
        record {
          State = Delegating i.State;
          operations =
              filter_operations i.operations stores.does_document_exist
                stores.get_document_filter_data (targets stores options);
          state = make_delegating i.state;
        }

    pub build_all : Nodes → Vector
    build_all no_more = record { States = Unit {0}; row = no_row; states = tt }
    build_all (more n ns) =
        let i = build n in
        let v = build_all ns in
        record {
          States = i.State × v.States;
          row = in_row i.operations v.row;
          states = (i.state, v.states);
        }

-- What a restriction or a filter makes of a match, whatever is below it.
abbrev pub restricted_by : Stores → Text → Match → Option Match
restricted_by stores section =
    pick_restricted stores.path_equal stores.get_section_path section all_operations
      stores.get_document_filter_data

abbrev pub shown_by : Stores → Options → Match → Option Match
shown_by stores options =
    pick_shown all_operations stores.does_document_exist stores.get_document_filter_data
      (targets stores options)

-- The match that a tree has of a document, from those of its terms.
module _ (stores : Stores) (term_match : ℕ → ℕ → Option Match) where
  unfoldable mutual
    pub meaning : Node → ℕ → Option Match
    meaning (term k) d = term_match k d
    meaning (all_document_id limit) d = if ltb d (suc limit) then some (plain d) else none
    meaning (and_binary a b) d = meet_options (meaning a d) (meaning b d)
    meaning (and_nary ns) d = common (meanings ns d)
    meaning (or_binary a b) d = either_match (meaning a d) (meaning b d)
    meaning (or_nary ns) d = any (meanings ns d)
    meaning (not_node n limit) d = unless_found (meaning n d) d (suc limit)
    meaning (section_restrict n section) d = then_pick (restricted_by stores section) (meaning n d)
    meaning (filter n options) d = then_pick (shown_by stores options) (meaning n d)

    pub meanings : Nodes → ℕ → List (Option Match)
    meanings no_more d = []
    meanings (more n ns) d = meaning n d ∷ meanings ns d

  abbrev pub count_nodes : Nodes → ℕ
  count_nodes no_more = 0
  count_nodes (more n ns) = suc (count_nodes ns)

  -- Trees as the parser makes them: limits are the last added document, and n-ary nodes have two or more
  -- operands. An n-ary OR does not match document 0, behind which it would start again.
  unfoldable mutual
    unfolding meaning

    pub Fits : ℕ → Node → Type 0
    Fits last (term k) = Unit {0}
    Fits last (all_document_id limit) = limit ≡ last
    Fits last (and_binary a b) = Fits last a × Fits last b
    Fits last (and_nary ns) = (1 < count_nodes ns) × AllFit last ns
    Fits last (or_binary a b) = Fits last a × Fits last b
    Fits last (or_nary ns) = (1 < count_nodes ns) × AllFit last ns × (any (meanings ns 0) ≡ none)
    Fits last (not_node n limit) = (limit ≡ last) × Fits last n
    Fits last (section_restrict n section) = Fits last n
    Fits last (filter n options) = Fits last n

    pub AllFit : ℕ → Nodes → Type 0
    AllFit last no_more = Unit {0}
    AllFit last (more n ns) = Fits last n × AllFit last ns
