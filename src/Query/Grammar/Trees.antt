-- ===== src/Query/Grammar/Trees.antt =====
-- ParseSearch of icing/query/query-processor.cc on the tokens of a query.
use external_icing.Base.{ℕ, true, ◌≡◌, refl, ap, ◌∙◌, inl, List, [], ◌∷◌, ◌++◌}
use external_icing.Store.{StatusOr, value, error, internal, Text}
use external_icing.Query.{
  Token, query_left_parentheses, query_right_parentheses, Node, filter, create_or, combined,
  Environment, Options, Frame, empty_frame, SearchSpec, QueryTerms, no_terms, QueryResults,
  get_filter_options, parse_loop, finish, parse_tokens, with_filter, parse_raw_query, parse_search,
  process_frame,
}
use external_icing.Query.Grammar.{
  Query, everything, both, Choice, either, Factor, print, plain, tree, choice_trees, factor_trees,
}
use external_icing.Query.Grammar.Frames.{Pending, nothing, frame, fill, fill_choice, collect}
use external_icing.Query.Grammar.Loop.{loop_query}
use external_icing.Query.Grammar.Separated.{separated, separated_choice, filled, fill_either}

abbrev pub HasLeaves : Environment → (Text → ℕ) → Type 0
HasLeaves env leaf =
    (text : Text)
    → env.get_iterator (env.normalize_term text) ≡ value (leaf (env.normalize_term text))

module _ (env : Environment) (spec : SearchSpec) (leaf : Text → ℕ) (has_leaf : HasLeaves env leaf)
    (q : Query) where
  abbrev options : Options
  options = get_filter_options spec

  -- Any query with balanced parentheses is parsed: into the frame that its tokens fill.
  parse_search-fill :
      env.tokenize_all spec.query ≡ value (print q [])
      → parse_search env spec
        ≡ value (record {
          root_iterator =
              filter
                (process_frame env.last_added_document_id (frame (fill env leaf q nothing)))
                options;
          terms = collect env leaf options q no_terms;
        })
  unfolding parse_search parse_raw_query
  parse_search-fill tokenized =
      ap (λ (r : StatusOr (List Token)). with_filter options (parse_tokens env options r)) tokenized
      ∙ ap (λ (r : StatusOr (List Frame × QueryTerms)). with_filter options (finish env options r))
          (loop_query env options leaf has_leaf q [] nothing [] no_terms refl)

  -- ParseSearch of the tokens of a query in which no OR follows directly on another, with an index that
  -- has its terms: the filter over the tree of the query, and the terms that are not excluded, in
  -- their order.
  pub parse_search-print :
      env.tokenize_all spec.query ≡ value (print q [])
      → separated q ≡ true
      → parse_search env spec
        ≡ value (record {
          root_iterator = filter (tree env leaf q) (get_filter_options spec);
          terms = collect env leaf (get_filter_options spec) q no_terms;
        })
  unfolding tree
  parse_search-print tokenized apart =
      parse_search-fill tokenized
      ∙ ap
          (λ (ns : List Node). value (record {
            root_iterator = filter (combined env.last_added_document_id ns) options;
            terms = collect env leaf options q no_terms;
          }))
          (filled env leaf q [] [] apart (inl refl))

  -- A right parenthesis too many, behind a query, is an error, whatever comes after it.
  pub parse_search-extra_right :
      (tokens : List Token)
      → env.tokenize_all spec.query ≡ value (print q (plain query_right_parentheses ∷ tokens))
      → parse_search env spec ≡ error internal
  unfolding parse_search parse_raw_query parse_loop
  parse_search-extra_right tokens tokenized =
      ap (λ (r : StatusOr (List Token)). with_filter options (parse_tokens env options r)) tokenized
      ∙ ap (λ (r : StatusOr (List Frame × QueryTerms)). with_filter options (finish env options r))
          (loop_query env options leaf has_leaf q (plain query_right_parentheses ∷ tokens) nothing
            [] no_terms refl)

  -- A left parenthesis that is not closed is an error.
  pub parse_search-extra_left :
      env.tokenize_all spec.query ≡ value (plain query_left_parentheses ∷ print q [])
      → parse_search env spec ≡ error internal
  unfolding parse_search parse_raw_query parse_loop
  parse_search-extra_left tokenized =
      ap (λ (r : StatusOr (List Token)). with_filter options (parse_tokens env options r)) tokenized
      ∙ ap (λ (r : StatusOr (List Frame × QueryTerms)). with_filter options (finish env options r))
          (loop_query env options leaf has_leaf q [] nothing (empty_frame ∷ []) no_terms refl)

-- Two ORs that follow directly on each other are parsed as one OR of all their factors, not as the AND
-- of the two.
pub parse_search-merged_ors :
    (env : Environment) (spec : SearchSpec) (leaf : Text → ℕ)
    → HasLeaves env leaf
    → (f g : Factor) (c d : Choice) → separated_choice (either f c) ≡ true
    → separated_choice (either g d) ≡ true
    → env.tokenize_all spec.query
      ≡ value (print (both (either f c) (both (either g d) everything)) [])
    → (terms : QueryTerms) × (parse_search env spec
        ≡ value (record {
          root_iterator =
              filter
                (create_or
                  (factor_trees env leaf (either f c) ++ factor_trees env leaf (either g d)))
                (get_filter_options spec);
          terms = terms;
        }))
unfolding fill choice_trees separated
parse_search-merged_ors env spec leaf has_leaf f g c d first second tokenized =
    let q = both (either f c) (both (either g d) everything) in
    let terms = collect env leaf (get_filter_options spec) q no_terms in
    let results : Pending → StatusOr QueryResults = λ p. value (record {
      root_iterator =
          filter (process_frame env.last_added_document_id (frame p)) (get_filter_options spec);
      terms = terms;
    }) in
    (
      terms,
      parse_search-fill env spec leaf has_leaf q tokenized
          ∙ ap (λ (p : Pending). results (fill_choice env leaf (either g d) p))
              (fill_either env leaf f c [] first)
          ∙ ap results (fill_either env leaf g d (factor_trees env leaf (either f c)) second),
    )
