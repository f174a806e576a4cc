-- ===== src/Query/Evaluate/Matches.antt =====
-- The documents that a query of icing/query/query-processor.cc asks for, by its grammar, against those
-- of its tree.
use external_icing.Base.{
  ℕ, suc, ◌≡◌, refl, ap, ap₂, ◌∙◌, Bool, true, false, List, [], ◌∷◌, Option, none, some, ltb,
  if◌then◌else◌,
}
use external_icing.Store.{Text}
use external_icing.Iterator.{Match}
use external_icing.Iterator.AllDocumentId.{plain}
use external_icing.Iterator.Not.Missing.{unless_found}
use external_icing.Iterator.AndNary.Meet.{meet_all, common}
use external_icing.Iterator.OrNary.Collect.{any}
use external_icing.Iterator.Select.{then_pick}
use external_icing.Query.{Environment, Node, term, to_nodes, create_and, create_or, combined}
use external_icing.Query.Grammar.{
  Query, Choice, Factor, everything, both, only, either, word, group, choice_trees, factor_trees,
  factor_tree, tree, wrap,
}
use external_icing.Query.Evaluate.{Stores, restricted_by, meaning, meanings}

abbrev pub all_of : ℕ → ℕ → List (Option Match) → Option Match
all_of last d [] = if ltb d (suc last) then some (plain d) else none
all_of last d (o ∷ os) = meet_all o os

module _ (stores : Stores) (term_match : ℕ → ℕ → Option Match) (env : Environment)
    (leaf : Text → ℕ) where
  abbrev last : ℕ
  last = env.last_added_document_id

  abbrev node_match : Node → ℕ → Option Match
  node_match = meaning stores term_match

  abbrev restrict_match : Text → Option Match → Option Match
  restrict_match [] o = o
  restrict_match (c ∷ cs) o = then_pick (restricted_by stores (c ∷ cs)) o

  abbrev exclude_match : Bool → ℕ → Option Match → Option Match
  exclude_match false d o = o
  exclude_match true d o = unless_found o d (suc last)

  -- A query has the documents that all its choices have, or all documents if it has none; a choice those
  -- that any of its factors has; a factor those of its word or group, restricted and then excluded.
  unfoldable mutual
    pub choice_matches : Query → ℕ → List (Option Match)
    choice_matches everything d = []
    choice_matches (both c q) d = any (factor_matches c d) ∷ choice_matches q d

    pub factor_matches : Choice → ℕ → List (Option Match)
    factor_matches (only f) d = factor_match f d ∷ []
    factor_matches (either f c) d = factor_match f d ∷ factor_matches c d

    pub factor_match : Factor → ℕ → Option Match
    factor_match (word excluded section text) d =
        exclude_match excluded d
          (restrict_match section (term_match (leaf (env.normalize_term text)) d))
    factor_match (group excluded section q) d =
        exclude_match excluded d (restrict_match section (all_of last d (choice_matches q d)))

  unfoldable pub query_match : Query → ℕ → Option Match
  unfolding choice_matches
  query_match q d = all_of last d (choice_matches q d)

  abbrev list_matches : List Node → ℕ → List (Option Match)
  list_matches [] d = []
  list_matches (n ∷ ns) d = node_match n d ∷ list_matches ns d

  meanings-to_nodes :
      (ns : List Node) (d : ℕ) → meanings stores term_match (to_nodes ns) d ≡ list_matches ns d
  unfolding meaning
  meanings-to_nodes [] d = refl
  meanings-to_nodes (n ∷ ns) d = ap (◌∷◌ (node_match n d)) (meanings-to_nodes ns d)

  match-create_and :
      (n : Node) (ns : List Node) (d : ℕ)
      → node_match (create_and (n ∷ ns)) d ≡ meet_all (node_match n d) (list_matches ns d)
  unfolding meaning
  match-create_and n [] d = refl
  match-create_and n (b ∷ []) d = refl
  match-create_and n (b ∷ c ∷ []) d = refl
  match-create_and n (b ∷ c ∷ e ∷ ns) d = ap common (meanings-to_nodes (n ∷ b ∷ c ∷ e ∷ ns) d)

  match-create_or :
      (n : Node) (ns : List Node) (d : ℕ)
      → node_match (create_or (n ∷ ns)) d ≡ any (list_matches (n ∷ ns) d)
  unfolding meaning
  match-create_or n [] d = refl
  match-create_or n (b ∷ []) d = refl
  match-create_or n (b ∷ c ∷ ns) d = ap any (meanings-to_nodes (n ∷ b ∷ c ∷ ns) d)

  match-combined :
      (ns : List Node) (d : ℕ) → node_match (combined last ns) d ≡ all_of last d (list_matches ns d)
  unfolding meaning
  match-combined [] d = refl
  match-combined (n ∷ ns) d = match-create_and n ns d

  match-wrap :
      (excluded : Bool) (section : Text) (n : Node) (d : ℕ)
      → node_match (wrap last excluded section n) d
        ≡ exclude_match excluded d (restrict_match section (node_match n d))
  unfolding meaning
  match-wrap false [] n d = refl
  match-wrap false (c ∷ cs) n d = refl
  match-wrap true [] n d = refl
  match-wrap true (c ∷ cs) n d = refl

  mutual
    unfolding choice_trees choice_matches meaning

    match-choices :
        (q : Query) (d : ℕ) → list_matches (choice_trees env leaf q) d ≡ choice_matches q d
    match-choices everything d = refl
    match-choices (both c q) d = ap₂ (◌∷◌) (match-choice c d) (match-choices q d)

    match-choice :
        (c : Choice) (d : ℕ)
        → node_match (create_or (factor_trees env leaf c)) d ≡ any (factor_matches c d)
    match-choice (only f) d = match-factor f d
    match-choice (either f c) d =
        match-create_or (factor_tree env leaf f) (factor_trees env leaf c) d
        ∙ ap any (ap₂ (◌∷◌) (match-factor f d) (match-factors c d))

    match-factors :
        (c : Choice) (d : ℕ) → list_matches (factor_trees env leaf c) d ≡ factor_matches c d
    match-factors (only f) d = ap (λ (o : Option Match). o ∷ []) (match-factor f d)
    match-factors (either f c) d = ap₂ (◌∷◌) (match-factor f d) (match-factors c d)

    match-factor : (f : Factor) (d : ℕ) → node_match (factor_tree env leaf f) d ≡ factor_match f d
    match-factor (word excluded section text) d =
        match-wrap excluded section (term (leaf (env.normalize_term text))) d
    match-factor (group excluded section q) d =
        match-wrap excluded section (combined last (choice_trees env leaf q)) d
        ∙ ap (λ (o : Option Match). exclude_match excluded d (restrict_match section o))
            (match-combined (choice_trees env leaf q) d ∙ ap (all_of last d) (match-choices q d))

  pub meanings-factors :
      (c : Choice) (d : ℕ)
      → meanings stores term_match (to_nodes (factor_trees env leaf c)) d ≡ factor_matches c d
  meanings-factors c d = meanings-to_nodes (factor_trees env leaf c) d ∙ match-factors c d

  -- The tree of a query has the documents that the query asks for.
  pub match-tree : (q : Query) (d : ℕ) → node_match (tree env leaf q) d ≡ query_match q d
  unfolding tree query_match choice_matches
  match-tree q d =
      match-combined (choice_trees env leaf q) d ∙ ap (all_of last d) (match-choices q d)
