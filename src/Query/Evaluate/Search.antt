-- ===== src/Query/Evaluate/Search.antt =====
-- From the tokens of a query to the documents that are scored: icing/query/query-processor.cc, the
-- iterators of icing/index/iterator and the loop of icing/scoring/scoring-processor.cc.
use external_icing.Base.{
  ℕ, suc, ◌≤◌, ◌≡◌, refl, ap, ◌∙◌, Bool, true, false, List, [], ◌∷◌, Option, none, arith, ◌⊎◌, inl,
  inr, map, take,
}
use external_icing.Hit.{max_document_id}
use external_icing.DocHitInfo.{DocHitInfo}
use external_icing.Store.{Text, value}
use external_icing.Iterator.{Match, Below, loop_fuel}
use external_icing.Iterator.Matches.{find}
use external_icing.Iterator.OrNary.Collect.{any}
use external_icing.Iterator.Select.{then_pick}
use external_icing.Scoring.{scored, score_all}
use external_icing.Scoring.Drain.{score_all_lem}
use external_icing.Query.{
  Environment, SearchSpec, QueryResults, get_filter_options, no_terms, parse_search, Node, to_nodes,
  filter, create_and, create_or, combined,
}
use external_icing.Query.Grammar.{
  Query, Choice, Factor, everything, both, only, either, word, group, print, choice_trees,
  factor_trees, factor_tree, tree, wrap,
}
use external_icing.Query.Grammar.Frames.{collect}
use external_icing.Query.Grammar.Trees.{HasLeaves, parse_search-print}
use external_icing.Query.Grammar.Separated.{separated}
use external_icing.Query.Evaluate.{
  Iterator, Stores, build, shown_by, meaning, meanings, Fits, AllFit,
}
use external_icing.Query.Evaluate.Sound.{Evaluates}
use external_icing.Query.Evaluate.Trees.{tree-Sound}
use external_icing.Query.Evaluate.Matches.{
  query_match, factor_matches, match-tree, meanings-factors,
}

abbrev pub narrow : Choice → Bool
narrow (only f) = true
narrow (either f (only g)) = true
narrow (either f (either g c)) = false

module _ (stores : Stores) (term_match : ℕ → ℕ → Option Match) (env : Environment)
    (leaf : Text → ℕ) where
  abbrev FitsNode : Node → Type 0
  FitsNode = Fits stores term_match env.last_added_document_id

  -- No OR of three or more factors has document 0.
  unfoldable mutual
    unfolding factor_matches

    pub ZeroFree : Query → Type 0
    ZeroFree everything = Unit {0}
    ZeroFree (both c q) =
        ((narrow c ≡ true) ⊎ (any (factor_matches stores term_match env leaf c 0) ≡ none))
        × ZeroFreeChoice c
        × ZeroFree q

    pub ZeroFreeChoice : Choice → Type 0
    ZeroFreeChoice (only f) = ZeroFreeFactor f
    ZeroFreeChoice (either f c) = ZeroFreeFactor f × ZeroFreeChoice c

    pub ZeroFreeFactor : Factor → Type 0
    ZeroFreeFactor (word excluded section text) = Unit {0}
    ZeroFreeFactor (group excluded section q) = ZeroFree q

  abbrev ListFits : List Node → Type 0
  ListFits [] = Unit {0}
  ListFits (n ∷ ns) = FitsNode n × ListFits ns

  AllFit-to_nodes :
      (ns : List Node)
      → ListFits ns
      → AllFit stores term_match env.last_added_document_id (to_nodes ns)
  unfolding Fits
  AllFit-to_nodes [] h = tt
  AllFit-to_nodes (n ∷ ns) h = (h.0, AllFit-to_nodes ns h.1)

  Fits-create_and : (n : Node) (ns : List Node) → ListFits (n ∷ ns) → FitsNode (create_and (n ∷ ns))
  unfolding Fits
  Fits-create_and n [] h = h.0
  Fits-create_and n (b ∷ []) h = (h.0, (h.1).0)
  Fits-create_and n (b ∷ c ∷ []) h = ((h.0, (h.1).0), ((h.1).1).0)
  Fits-create_and n (b ∷ c ∷ e ∷ ns) h = (omega arith, AllFit-to_nodes (n ∷ b ∷ c ∷ e ∷ ns) h)

  Fits-combined : (ns : List Node) → ListFits ns → FitsNode (combined env.last_added_document_id ns)
  unfolding Fits
  Fits-combined [] h = refl
  Fits-combined (n ∷ ns) h = Fits-create_and n ns h

  Fits-wrap :
      (excluded : Bool) (section : Text) (n : Node)
      → FitsNode n
      → FitsNode (wrap env.last_added_document_id excluded section n)
  unfolding Fits
  Fits-wrap false [] n h = h
  Fits-wrap false (c ∷ cs) n h = h
  Fits-wrap true [] n h = (refl, h)
  Fits-wrap true (c ∷ cs) n h = (refl, h)

  zero_free :
      (c : Choice)
      → narrow c ≡ false
      → (narrow c ≡ true) ⊎ (any (factor_matches stores term_match env leaf c 0) ≡ none)
      → any (meanings stores term_match (to_nodes (factor_trees env leaf c)) 0) ≡ none
  zero_free c wide z = elim z [
    | inl e ↦ absurd (cc)
    | inr e ↦ ap any (meanings-factors stores term_match env leaf c 0) ∙ e
  ]

  Fits-create_or :
      (c : Choice)
      → ListFits (factor_trees env leaf c)
      → (narrow c ≡ true) ⊎ (any (factor_matches stores term_match env leaf c 0) ≡ none)
      → FitsNode (create_or (factor_trees env leaf c))
  unfolding Fits factor_trees factor_matches
  Fits-create_or (only f) h z = h.0
  Fits-create_or (either f (only g)) h z = (h.0, (h.1).0)
  Fits-create_or (either f (either g (only k))) h z = (
    omega arith,
    AllFit-to_nodes (factor_trees env leaf (either f (either g (only k)))) h,
    zero_free (either f (either g (only k))) refl z,
  )
  Fits-create_or (either f (either g (either k c))) h z = (
    omega arith,
    AllFit-to_nodes (factor_trees env leaf (either f (either g (either k c)))) h,
    zero_free (either f (either g (either k c))) refl z,
  )

  mutual
    unfolding ZeroFree choice_trees Fits

    Fits-choices : (q : Query) → ZeroFree q → ListFits (choice_trees env leaf q)
    Fits-choices everything h = tt
    Fits-choices (both c q) h = (Fits-create_or c (Fits-factors c h.1) h.0, Fits-choices q h.2)

    Fits-factors : (c : Choice) → ZeroFreeChoice c → ListFits (factor_trees env leaf c)
    Fits-factors (only f) h = (Fits-factor f h, tt)
    Fits-factors (either f c) h = (Fits-factor f h.0, Fits-factors c h.1)

    Fits-factor : (f : Factor) → ZeroFreeFactor f → FitsNode (factor_tree env leaf f)
    Fits-factor (word excluded section text) h = Fits-wrap excluded section _ tt
    Fits-factor (group excluded section q) h =
        Fits-wrap excluded section _ (Fits-combined (choice_trees env leaf q) (Fits-choices q h))

  pub Fits-tree : (q : Query) → ZeroFree q → FitsNode (tree env leaf q)
  unfolding tree
  Fits-tree q h = Fits-combined (choice_trees env leaf q) (Fits-choices q h)

  -- Whole searches.
  module _ {Score : Type 0} (get_score : DocHitInfo → Score) (num_to_score : ℕ)
      (leaf_iterator : ℕ → Iterator)
      (leaves : (k : ℕ) → Evaluates env.last_added_document_id (leaf_iterator k) (term_match k))
      (valid : env.last_added_document_id ≤ max_document_id) where
    -- The results of scoring an iterator, and what they have of each document.
    abbrev pub Scores : Iterator → (ℕ → Option Match) → Type 0
    Scores i has =
        (ms : List Match) × (score_all get_score i.operations loop_fuel num_to_score i.state
          ≡ map (scored get_score) (take num_to_score ms))
        × Below (suc env.last_added_document_id) ms
        × ((d : ℕ) → find d ms ≡ has d)

    score_all-tree :
        (n : Node)
        → FitsNode n
        → Scores (build stores leaf_iterator n) (meaning stores term_match n)
    score_all-tree n fits =
        let e =
          tree-Sound stores leaf_iterator term_match env.last_added_document_id valid leaves n
            fits in
        let i = build stores leaf_iterator n in
        (
          e.matches,
          score_all_lem get_score i.operations e.Yields e.law num_to_score i.state e.matches
              e.yields,
          e.below,
          e.has,
        )

    -- A search for the tokens of a query, in which no OR follows directly on another and none of three or
    -- more factors has document 0, with an index that has its terms, the last of whose documents is
    -- valid: it is parsed, and scoring its iterators collects the first `num_to_score` of a falling list
    -- that has a document's match exactly when the query asks for it and the filter shows it.
    pub score_all-parse_search :
        (spec : SearchSpec) (q : Query)
        → HasLeaves env leaf
        → env.tokenize_all spec.query ≡ value (print q [])
        → separated q ≡ true
        → ZeroFree q
        → (results : QueryResults) × (parse_search env spec ≡ value results)
          × Scores (build stores leaf_iterator results.root_iterator) (λ d.
            then_pick
              (shown_by stores (get_filter_options spec))
              (query_match stores term_match env leaf q d))
    unfolding Fits meaning
    score_all-parse_search spec q has_leaf tokenized apart free =
        let options = get_filter_options spec in
        let (ms, drained, falls, has) =
          score_all-tree (filter (tree env leaf q) options) (Fits-tree q free) in
        (
          record {
            root_iterator = filter (tree env leaf q) options;
            terms = collect env leaf options q no_terms;
          },
          parse_search-print env spec leaf has_leaf q tokenized apart,
          (
            ms,
            drained,
            falls,
            λ d.
                has d
                ∙ ap (then_pick (shown_by stores options))
                    (match-tree stores term_match env leaf q d),
          ),
        )
