-- ===== src/Query/Grammar/Separated.antt =====
-- Queries in which no OR follows directly on another: the frames of icing/query/query-processor.cc that they
-- fill hold their trees.
use external_icing.Base.{
  ℕ, Bool, true, false, ◌&&◌, ◌||◌, arith, ◌≡◌, refl, sym, ap, ◌∙◌, ◌⊎◌, inl, inr, List, [], ◌∷◌,
  ◌++◌,
}
use external_icing.Store.{Text}
use external_icing.Query.{Node, create_or, combined, flush, Environment}
use external_icing.Query.Grammar.{
  Query, everything, both, Choice, only, either, Factor, word, group, wrap, choice_trees,
  factor_trees, factor_tree,
}
use external_icing.Query.Grammar.Frames.{Pending, fill, fill_choice, parsed}

abbrev pub is_only : Choice → Bool
is_only (only f) = true
is_only (either f c) = false

-- Whether the query goes on with a choice of one factor, or ends.
abbrev pub next_is_only : Query → Bool
next_is_only everything = true
next_is_only (both c q) = is_only c

-- No OR is followed by another one at once, here and in all groups.
unfoldable mutual
  pub separated : Query → Bool
  separated everything = true
  separated (both c q) = (is_only c || next_is_only q) && ((separated_choice c) && separated q)

  pub separated_choice : Choice → Bool
  separated_choice (only f) = separated_factor f
  separated_choice (either f c) = separated_factor f && separated_choice c

  pub separated_factor : Factor → Bool
  separated_factor (word excluded section text) = true
  separated_factor (group excluded section q) = separated q

and_left : (a b : Bool) → (a && b) ≡ true → a ≡ true
and_left a b h = ground arith

and_right : (a b : Bool) → (a && b) ≡ true → b ≡ true
and_right a b h = ground arith

append_assoc : (xs ys zs : List Node) → (xs ++ ys) ++ zs ≡ xs ++ (ys ++ zs)
append_assoc [] ys zs = refl
append_assoc (x ∷ xs) ys zs = ap (◌∷◌ x) (append_assoc xs ys zs)

append_nil : (xs : List Node) → xs ++ [] ≡ xs
append_nil [] = refl
append_nil (x ∷ xs) = ap (◌∷◌ x) (append_nil xs)

module _ (env : Environment) (leaf : Text → ℕ) where
  abbrev pending : List Node → List Node → Bool → Pending
  pending ands ors after_or = record { ands = ands; ors = ors; after_or = after_or }

  mutual
    unfolding fill choice_trees separated

    -- The factors behind an OR all join it.
    fill_rest :
        (c : Choice) (ands ors : List Node)
        → separated_choice c ≡ true
        → fill_choice env leaf c (pending ands ors true)
          ≡ pending ands (ors ++ factor_trees env leaf c) false
    fill_rest (only f) ands ors h =
        ap (λ (n : Node). pending ands (ors ++ n ∷ []) false) (parsed_factor f h)
    fill_rest (either f c) ands ors h =
        ap (λ (n : Node). fill_choice env leaf c (pending ands (ors ++ n ∷ []) true))
          (parsed_factor f (and_left (separated_factor f) (separated_choice c) h))
        ∙ fill_rest c ands (ors ++ factor_tree env leaf f ∷ [])
            (and_right (separated_factor f) (separated_choice c) h)
        ∙ ap (λ (ns : List Node). pending ands ns false)
            (append_assoc ors (factor_tree env leaf f ∷ []) (factor_trees env leaf c))

    parsed_factor :
        (f : Factor) → separated_factor f ≡ true → parsed env leaf f ≡ factor_tree env leaf f
    parsed_factor (word excluded section text) h = refl
    parsed_factor (group excluded section q) h =
        ap
          (λ (ns : List Node).
            wrap env.last_added_document_id excluded section
              (combined env.last_added_document_id ns))
          (filled q [] [] h (inl refl))

    -- What a query adds to the frame, behind the ORs that are still open.
    pub filled :
        (q : Query) (ands ors : List Node)
        → separated q ≡ true
        → (ors ≡ []) ⊎ (next_is_only q ≡ true)
        → flush
            (fill env leaf q (pending ands ors false)).ands
            (fill env leaf q (pending ands ors false)).ors
          ≡ flush ands ors ++ choice_trees env leaf q
    filled everything ands ors h k = sym (append_nil (flush ands ors))
    filled (both (only f) q) ands ors h k =
        let after = flush ands ors ++ parsed env leaf f ∷ [] in
        filled q after [] (and_right (separated_factor f) (separated q) h) (inl refl)
        ∙ append_assoc (flush ands ors) (parsed env leaf f ∷ []) (choice_trees env leaf q)
        ∙ ap (λ (n : Node). flush ands ors ++ n ∷ choice_trees env leaf q)
            (parsed_factor f (and_left (separated_factor f) (separated q) h))
    filled (both (either f c) q) ands ors h (inr wrong) = absurd (ground arith)
    filled (both (either f c) q) ands ors h (inl none_open) =
        let rest : (separated_factor f && separated_choice c) && separated q ≡ true =
          and_right (next_is_only q) ((separated_factor f && separated_choice c) && separated q)
            h in
        let both_factors = and_left (separated_factor f && separated_choice c) (separated q) rest in
        let first = and_left (separated_factor f) (separated_choice c) both_factors in
        let others = and_right (separated_factor f) (separated_choice c) both_factors in
        let end : Pending → List Node =
          λ p. flush (fill env leaf q p).ands (fill env leaf q p).ors in
        let opened : Pending = pending ands (parsed env leaf f ∷ []) true in
        ap (λ (ns : List Node). end (fill_choice env leaf (either f c) (pending ands ns false)))
          none_open
        ∙ ap end (fill_rest c ands (parsed env leaf f ∷ []) others)
        ∙ filled q ands (parsed env leaf f ∷ factor_trees env leaf c)
            (and_right (separated_factor f && separated_choice c) (separated q) rest)
            (inr (
              and_left (next_is_only q) ((separated_factor f && separated_choice c) && separated q)
                h))
        ∙ append_assoc ands (create_or (parsed env leaf f ∷ factor_trees env leaf c) ∷ [])
            (choice_trees env leaf q)
        ∙ ap
            (λ (n : Node).
              ands ++ create_or (n ∷ factor_trees env leaf c) ∷ choice_trees env leaf q)
            (parsed_factor f first)
        ∙ sym (
            ap (λ (ns : List Node). flush ands ns ++ choice_trees env leaf (both (either f c) q))
              none_open)

  -- An OR joins the factors that are still open.
  pub fill_either :
      (f : Factor) (c : Choice) (ors : List Node)
      → separated_choice (either f c) ≡ true
      → fill_choice env leaf (either f c) (pending [] ors false)
        ≡ pending [] (ors ++ factor_trees env leaf (either f c)) false
  unfolding fill choice_trees separated
  fill_either f c ors h =
      ap (λ (n : Node). fill_choice env leaf c (pending [] (ors ++ n ∷ []) true))
        (parsed_factor f (and_left (separated_factor f) (separated_choice c) h))
      ∙ fill_rest c [] (ors ++ factor_tree env leaf f ∷ [])
          (and_right (separated_factor f) (separated_choice c) h)
      ∙ ap (λ (ns : List Node). pending [] ns false)
          (append_assoc ors (factor_tree env leaf f ∷ []) (factor_trees env leaf c))

-- The iterator of the index for each term, as `leaf` says.
