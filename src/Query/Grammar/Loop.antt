-- ===== src/Query/Grammar/Loop.antt =====
-- The loop of ParseRawQuery of icing/query/query-processor.cc over the tokens of a query.
use external_icing.Base.{ℕ, Bool, true, false, ◌≡◌, refl, ap, ◌∙◌, List, [], ◌∷◌, some}
use external_icing.Store.{StatusOr, value, Text}
use external_icing.Query.{
  Token, regular, query_or, query_left_parentheses, query_right_parentheses, term, Environment,
  Options, Frame, empty_frame, place, process_frame, QueryTerms, parse_loop, take_token,
  starts_with_or, keep_term, found_term, take_term,
}
use external_icing.Query.Grammar.{
  Query, everything, both, Choice, only, either, Factor, word, group, print, print_choice,
  print_factor, plain, section_tokens, exclusion_tokens,
}
use external_icing.Query.Grammar.Frames.{
  Pending, nothing, frame_with, frame, put, see_or, place-put, fill, fill_choice, parsed, keep,
  collect, collect_choice, collect_factor,
}

-- A query does not start with OR.
starts_exclusion :
    (excluded : Bool) (section : Text) (t : Token) (tokens : List Token)
    → starts_with_or (t ∷ tokens) ≡ false
    → starts_with_or (exclusion_tokens excluded (section_tokens section (t ∷ tokens))) ≡ false
starts_exclusion true section t tokens h = refl
starts_exclusion false [] t tokens h = h
starts_exclusion false (c ∷ cs) t tokens h = refl

starts_factor : (f : Factor) (tokens : List Token) → starts_with_or (print_factor f tokens) ≡ false
unfolding print
starts_factor (word excluded section text) tokens =
    starts_exclusion excluded section (record { type = regular; text = text }) tokens refl
starts_factor (group excluded section q) tokens =
    starts_exclusion excluded section (plain query_left_parentheses)
      (print q (plain query_right_parentheses ∷ tokens)) refl

starts_choice : (c : Choice) (tokens : List Token) → starts_with_or (print_choice c tokens) ≡ false
unfolding print
starts_choice (only f) tokens = starts_factor f tokens
starts_choice (either f c) tokens = starts_factor f (plain query_or ∷ print_choice c tokens)

pub starts_query :
    (q : Query) (tokens : List Token)
    → starts_with_or tokens ≡ false
    → starts_with_or (print q tokens) ≡ false
unfolding print
starts_query everything tokens h = h
starts_query (both c q) tokens h = starts_choice c (print q tokens)

module _ (env : Environment) (options : Options) (leaf : Text → ℕ)
    (has_leaf : (text : Text)
      → env.get_iterator (env.normalize_term text) ≡ value (leaf (env.normalize_term text))) where
  abbrev la : ℕ
  la = env.last_added_document_id

  abbrev loop : List Token → Frame → List Frame → QueryTerms → StatusOr (List Frame × QueryTerms)
  loop tokens f frames terms = parse_loop env options tokens (f ∷ frames) terms

  -- The marks of a factor are noted in the frame.
  marks :
      (excluded : Bool) (section : Text) (tokens : List Token) (p : Pending) (frames : List Frame)
      (terms : QueryTerms)
      → loop (exclusion_tokens excluded (section_tokens section tokens)) (frame p) frames terms
        ≡ loop tokens (frame_with excluded section p) frames terms
  unfolding parse_loop
  marks false [] tokens p frames terms = refl
  marks false (c ∷ cs) tokens p frames terms = refl
  marks true [] tokens p frames terms = refl
  marks true (c ∷ cs) tokens p frames terms = refl

  -- A word is looked up, kept among the terms unless it is excluded, and placed.
  taken :
      (excluded : Bool) (section text : Text) (p : Pending) (frames : List Frame)
      (terms : QueryTerms)
      → take_token env options regular text (frame_with excluded section p ∷ frames) terms
        ≡ value (
          some (term (leaf (env.normalize_term text))),
          frame_with excluded section p ∷ frames,
          keep env leaf options excluded section (env.normalize_term text) terms,
        )
  unfolding take_token
  taken true section text p frames terms =
      ap
        (λ (r : StatusOr ℕ).
          take_term env options (frame_with true section p) frames (env.normalize_term text) terms
            r)
        (has_leaf text)
  taken false section text p frames terms =
      let f = frame_with false section p in
      let normalized = env.normalize_term text in
      ap (λ (r : StatusOr ℕ). take_term env options f frames normalized terms r) (has_leaf text)
      ∙ ap
          (λ (r : StatusOr ℕ).
            found_term env options f frames (leaf normalized)
              (keep_term env options false section normalized terms r))
          (has_leaf text)

  word_placed :
      (excluded : Bool) (section text : Text) (tokens : List Token) (p : Pending)
      (frames : List Frame) (terms : QueryTerms)
      → loop
          (record { type = regular; text = text } ∷ tokens)
          (frame_with excluded section p)
          frames
          terms
        ≡ loop tokens
            (place la
              (starts_with_or tokens)
              (term (leaf (env.normalize_term text)))
              (frame_with excluded section p))
            frames
            (keep env leaf options excluded section (env.normalize_term text) terms)
  unfolding parse_loop
  word_placed excluded section text tokens p frames terms =
      rw (parse_loop, taken excluded section text p frames terms) refl

  opened :
      (tokens : List Token) (f : Frame) (frames : List Frame) (terms : QueryTerms)
      → loop (plain query_left_parentheses ∷ tokens) f frames terms
        ≡ loop tokens empty_frame (f ∷ frames) terms
  unfolding parse_loop
  opened tokens f frames terms = refl

  closed :
      (tokens : List Token) (inner f : Frame) (frames : List Frame) (terms : QueryTerms)
      → loop (plain query_right_parentheses ∷ tokens) inner (f ∷ frames) terms
        ≡ loop tokens (place la (starts_with_or tokens) (process_frame la inner) f) frames terms
  unfolding parse_loop
  closed tokens inner f frames terms = refl

  saw :
      (tokens : List Token) (p : Pending) (frames : List Frame) (terms : QueryTerms)
      → loop (plain query_or ∷ tokens) (frame p) frames terms
        ≡ loop tokens (frame (see_or p)) frames terms
  unfolding parse_loop
  saw tokens p frames terms = refl

  mutual
    unfolding print fill collect

    pub loop_query :
        (q : Query) (tokens : List Token) (p : Pending) (frames : List Frame) (terms : QueryTerms)
        → starts_with_or tokens ≡ false
        → loop (print q tokens) (frame p) frames terms
          ≡ loop tokens (frame (fill env leaf q p)) frames (collect env leaf options q terms)
    loop_query everything tokens p frames terms h = refl
    loop_query (both c q) tokens p frames terms h =
        loop_choice c (print q tokens) p frames terms (starts_query q tokens h)
        ∙ loop_query q tokens (fill_choice env leaf c p) frames
            (collect_choice env leaf options c terms) h

    loop_choice :
        (c : Choice) (tokens : List Token) (p : Pending) (frames : List Frame) (terms : QueryTerms)
        → starts_with_or tokens ≡ false
        → loop (print_choice c tokens) (frame p) frames terms
          ≡ loop tokens
              (frame (fill_choice env leaf c p))
              frames
              (collect_choice env leaf options c terms)
    loop_choice (only f) tokens p frames terms h =
        loop_factor f tokens p frames terms
        ∙ ap
            (λ (b : Bool).
              loop tokens (frame (put b (parsed env leaf f) p)) frames
                (collect_factor env leaf options f terms))
            h
    loop_choice (either f c) tokens p frames terms h =
        loop_factor f (plain query_or ∷ print_choice c tokens) p frames terms
        ∙ saw (print_choice c tokens) (put true (parsed env leaf f) p) frames
            (collect_factor env leaf options f terms)
        ∙ loop_choice c tokens (see_or (put true (parsed env leaf f) p)) frames
            (collect_factor env leaf options f terms) h

    loop_factor :
        (f : Factor) (tokens : List Token) (p : Pending) (frames : List Frame) (terms : QueryTerms)
        → loop (print_factor f tokens) (frame p) frames terms
          ≡ loop tokens
              (frame (put (starts_with_or tokens) (parsed env leaf f) p))
              frames
              (collect_factor env leaf options f terms)
    loop_factor (word excluded section text) tokens p frames terms =
        marks excluded section (record { type = regular; text = text } ∷ tokens) p frames terms
        ∙ word_placed excluded section text tokens p frames terms
        ∙ ap
            (λ (f : Frame).
              loop tokens f frames
                (keep env leaf options excluded section (env.normalize_term text) terms))
            (place-put la (starts_with_or tokens) excluded section
              (term (leaf (env.normalize_term text))) p)
    loop_factor (group excluded section q) tokens p frames terms =
        marks excluded section
          (plain query_left_parentheses ∷ print q (plain query_right_parentheses ∷ tokens)) p frames
          terms
        ∙ opened (print q (plain query_right_parentheses ∷ tokens)) (frame_with excluded section p)
            frames terms
        ∙ loop_query q (plain query_right_parentheses ∷ tokens) nothing
            (frame_with excluded section p ∷ frames) terms refl
        ∙ closed tokens (frame (fill env leaf q nothing)) (frame_with excluded section p) frames
            (collect env leaf options q terms)
        ∙ ap (λ (f : Frame). loop tokens f frames (collect env leaf options q terms))
            (place-put la (starts_with_or tokens) excluded section
              (process_frame la (frame (fill env leaf q nothing))) p)
