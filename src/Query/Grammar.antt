-- ===== src/Query/Grammar.antt =====
-- What the queries of icing/query/query-processor.cc mean: their grammar, their tokens, and the tree of
-- iterators that a query stands for.
pub mod Frames
pub mod Loop
pub mod Separated
pub mod Trees
use external_icing.Base.{ℕ, Bool, true, false, List, [], ◌∷◌, ◌++◌}
use external_icing.Store.{Text}
use external_icing.Query.{
  Token, TokenType, regular, query_or, query_exclusion, query_property, query_left_parentheses,
  query_right_parentheses, Node, term, all_document_id, create_and, create_or, Environment, Options,
  Frame, empty_frame, place, process_frame, combined, restrict_by, exclude_by,
}

-- A query is an AND of choices, a choice an OR of factors; a factor is a word or a query in
-- parentheses, which may be excluded and restricted to a section, none if its name is empty.
mutual
  pub data Query : Type 0 where
    everything : Query
    both : Choice → Query → Query

  pub data Choice : Type 0 where
    only : Factor → Choice
    either : Factor → Choice → Choice

  pub data Factor : Type 0 where
    word : Bool → Text → Text → Factor
    group : Bool → Text → Query → Factor

abbrev pub plain : TokenType → Token
plain type = record { type = type; text = [] }

abbrev pub exclusion_tokens : Bool → List Token → List Token
exclusion_tokens false tokens = tokens
exclusion_tokens true tokens = plain query_exclusion ∷ tokens

abbrev pub section_tokens : Text → List Token → List Token
section_tokens [] tokens = tokens
section_tokens (c ∷ cs) tokens = record { type = query_property; text = c ∷ cs } ∷ tokens

-- The tokens of a query, in front of others.
unfoldable mutual
  pub print : Query → List Token → List Token
  print everything tokens = tokens
  print (both c q) tokens = print_choice c (print q tokens)

  pub print_choice : Choice → List Token → List Token
  print_choice (only f) tokens = print_factor f tokens
  print_choice (either f c) tokens = print_factor f (plain query_or ∷ print_choice c tokens)

  pub print_factor : Factor → List Token → List Token
  print_factor (word excluded section text) tokens =
      exclusion_tokens excluded
        (section_tokens section (record { type = regular; text = text } ∷ tokens))
  print_factor (group excluded section q) tokens = exclusion_tokens excluded (
      section_tokens section
        (plain query_left_parentheses ∷ print q (plain query_right_parentheses ∷ tokens)))

-- The iterator of a factor, from its own one.
abbrev pub wrap : ℕ → Bool → Text → Node → Node
wrap last_added excluded section n = exclude_by last_added excluded (restrict_by section n)

-- The tree of a query. `leaf` is the index's iterator of a term.
module _ (env : Environment) (leaf : Text → ℕ) where
  unfoldable mutual
    pub choice_trees : Query → List Node
    choice_trees everything = []
    choice_trees (both c q) = create_or (factor_trees c) ∷ choice_trees q

    pub factor_trees : Choice → List Node
    factor_trees (only f) = factor_tree f ∷ []
    factor_trees (either f c) = factor_tree f ∷ factor_trees c

    pub factor_tree : Factor → Node
    factor_tree (word excluded section text) =
        wrap env.last_added_document_id excluded section (term (leaf (env.normalize_term text)))
    factor_tree (group excluded section q) =
        wrap env.last_added_document_id excluded section
          (combined env.last_added_document_id (choice_trees q))

  unfoldable pub tree : Query → Node
  unfolding choice_trees
  tree q = combined env.last_added_document_id (choice_trees q)
