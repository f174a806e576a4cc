-- ===== src/Tests/Parsing.antt =====
-- Queries at concrete inputs.
use external_icing.Base.{ℕ, ◌≡◌, refl, true, false, List, [], ◌∷◌, ◌++◌}
use external_icing.Store.{value, Text}
use external_icing.Query.{
  Token, regular, term, or_nary, no_more, more, filter, Environment, SearchSpec, QueryTerms,
  get_filter_options, no_terms, create_or, parse_search,
}
use external_icing.Query.Grammar.{
  Query, everything, both, only, either, Factor, word, group, print, tree, factor_trees,
}
use external_icing.Query.Grammar.Frames.{collect}
use external_icing.Query.Grammar.Trees.{HasLeaves, parse_search-print, parse_search-merged_ors}
use external_icing.Query.Grammar.Separated.{separated, separated_choice}

-- The index numbers a term by its first letter.
abbrev leaf : Text → ℕ
leaf [] = 0
leaf (c ∷ cs) = c

abbrev env_for : List Token → Environment
env_for tokens = record {
  tokenize_all = λ query. value tokens;
  normalize_term = λ text. text;
  get_iterator = λ text. value (leaf text);
  last_added_document_id = 9;
}

env_for-HasLeaves : (tokens : List Token) → HasLeaves (env_for tokens) leaf
env_for-HasLeaves tokens text = refl

abbrev spec : SearchSpec
spec = record { query = 1 ∷ []; namespace_filters = (5 ∷ []) ∷ []; schema_type_filters = [] }

abbrev plain_word : ℕ → Factor
plain_word n = word false [] (n ∷ [])

-- 1 OR -2 s:(3 4)
abbrev query : Query
query = both (either (plain_word 1) (only (word true [] (2 ∷ [])))) (
    both
      (only
        (group false (7 ∷ []) (both (only (plain_word 3)) (both (only (plain_word 4)) everything))))
      everything)

separated_query : separated query ≡ true
unfolding separated
separated_query = refl

parse_search-print_example :
    parse_search (env_for (print query [])) spec
    ≡ value (record {
      root_iterator = filter (tree (env_for (print query [])) leaf query) (get_filter_options spec);
      terms = collect (env_for (print query [])) leaf (get_filter_options spec) query no_terms;
    })
parse_search-print_example =
    parse_search-print (env_for (print query [])) spec leaf (env_for-HasLeaves (print query []))
      query refl separated_query

abbrev one_more : List Token
one_more = record { type = regular; text = 1 ∷ [] } ∷ []

abbrev two_ors : List Token
two_ors =
    print
      (both (either (plain_word 1) (only (plain_word 2)))
        (both (either (plain_word 3) (only (plain_word 4))) everything))
      []

separated_ors : (m n : ℕ) → separated_choice (either (plain_word m) (only (plain_word n))) ≡ true
unfolding separated
separated_ors m n = refl

parse_search-merged_ors_example :
    (terms : QueryTerms) × (parse_search (env_for two_ors) spec
      ≡ value (record {
        root_iterator =
            filter
              (create_or (
                factor_trees (env_for two_ors) leaf (either (plain_word 1) (only (plain_word 2)))
                ++ factor_trees
                    (env_for two_ors)
                    leaf
                    (either (plain_word 3) (only (plain_word 4)))))
              (get_filter_options spec);
        terms = terms;
      }))
parse_search-merged_ors_example =
    parse_search-merged_ors (env_for two_ors) spec leaf (env_for-HasLeaves two_ors) (plain_word 1)
      (plain_word 3) (only (plain_word 2)) (only (plain_word 4)) (separated_ors 1 2)
      (separated_ors 3 4) refl

-- 1 OR 2 3 OR 4
two_ors_run :
    parse_search (env_for two_ors) spec
    ≡ value (record {
      root_iterator =
          filter
            (or_nary (more (term 1) (more (term 2) (more (term 3) (more (term 4) no_more)))))
            (get_filter_options spec);
      terms =
          collect
            (env_for two_ors)
            leaf
            (get_filter_options spec)
            (both
              (either (plain_word 1) (only (plain_word 2)))
              (both (either (plain_word 3) (only (plain_word 4))) everything))
            no_terms;
    })
unfolding parse_search print collect
two_ors_run = refl
