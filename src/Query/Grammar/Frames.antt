-- ===== src/Query/Grammar/Frames.antt =====
-- What the tokens of a query do to the frame of icing/query/query-processor.cc that they are read in.
use external_icing.Base.{ℕ, Bool, true, false, ◌≡◌, refl, List, [], ◌∷◌, ◌++◌, if◌then◌else◌}
use external_icing.Store.{Text}
use external_icing.Query.{
  Node, term, Environment, Options, Frame, flush, place, process_frame, QueryTerms, add_term,
}
use external_icing.Query.Grammar.{
  Query, everything, both, Choice, only, either, Factor, word, group, wrap,
}

-- A frame between two factors: no exclusion and no section is open.
pub record Pending : Type 0 where
  pub ands : List Node
  pub ors : List Node
  pub after_or : Bool

abbrev pub nothing : Pending
nothing = record { ands = []; ors = []; after_or = false }

abbrev pub frame_with : Bool → Text → Pending → Frame
frame_with excluded section p = record {
  and_iterators = p.ands;
  or_iterators = p.ors;
  saw_or = p.after_or;
  saw_exclude = excluded;
  section = section;
}

abbrev pub frame : Pending → Frame
frame p = frame_with false [] p

abbrev pub put : Bool → Node → Pending → Pending
put next_is_or n p =
    if next_is_or
    then record p { ors = p.ors ++ n ∷ [] }
    else if p.after_or
    then record p { ors = p.ors ++ n ∷ []; after_or = false }
    else record p { ands = flush p.ands p.ors ++ n ∷ []; ors = [] }

abbrev pub see_or : Pending → Pending
see_or p = record p { after_or = true }

place-put_at :
    (last_added : ℕ) (next_is_or excluded after_or : Bool) (section : Text) (n : Node)
    (ands ors : List Node)
    → let p : Pending = record { ands = ands; ors = ors; after_or = after_or } in
      place last_added next_is_or n (frame_with excluded section p)
      ≡ frame (put next_is_or (wrap last_added excluded section n) p)
place-put_at last_added true excluded after_or section n ands ors = refl
place-put_at last_added false excluded true section n ands ors = refl
place-put_at last_added false excluded false section n ands ors = refl

pub place-put :
    (last_added : ℕ) (next_is_or excluded : Bool) (section : Text) (n : Node) (p : Pending)
    → place last_added next_is_or n (frame_with excluded section p)
      ≡ frame (put next_is_or (wrap last_added excluded section n) p)
place-put last_added next_is_or excluded section n p =
    place-put_at last_added next_is_or excluded p.after_or section n p.ands p.ors

module _ (env : Environment) (leaf : Text → ℕ) where
  -- The frame after a query, a choice, and the iterator of a factor.
  unfoldable mutual
    pub fill : Query → Pending → Pending
    fill everything p = p
    fill (both c q) p = fill q (fill_choice c p)

    pub fill_choice : Choice → Pending → Pending
    fill_choice (only f) p = put false (parsed f) p
    fill_choice (either f c) p = fill_choice c (see_or (put true (parsed f) p))

    pub parsed : Factor → Node
    parsed (word excluded section text) =
        wrap env.last_added_document_id excluded section (term (leaf (env.normalize_term text)))
    parsed (group excluded section q) =
        wrap env.last_added_document_id excluded section
          (process_frame env.last_added_document_id (frame (fill q nothing)))

  -- The terms that a word adds.
  abbrev pub keep : Options → Bool → Text → Text → QueryTerms → QueryTerms
  keep options true section text terms = terms
  keep options false section text terms = add_term env options section text (leaf text) terms

  module _ (options : Options) where
    unfoldable mutual
      pub collect : Query → QueryTerms → QueryTerms
      collect everything terms = terms
      collect (both c q) terms = collect q (collect_choice c terms)

      pub collect_choice : Choice → QueryTerms → QueryTerms
      collect_choice (only f) terms = collect_factor f terms
      collect_choice (either f c) terms = collect_choice c (collect_factor f terms)

      pub collect_factor : Factor → QueryTerms → QueryTerms
      collect_factor (word excluded section text) terms =
          keep options excluded section (env.normalize_term text) terms
      collect_factor (group excluded section q) terms = collect q terms
