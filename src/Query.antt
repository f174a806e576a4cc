-- ===== src/Query.antt =====
-- icing/query/query-processor.{h,cc}: a query's tokens become a tree of iterators, here by their
-- constructors. The tokenizer, the normalizer and the index are parameters; an iterator of the index
-- is a number.
pub mod Grammar
pub mod Evaluate
use external_icing.Base.{
  ℕ, Bool, true, false, List, [], ◌∷◌, ◌++◌, Option, none, some, if◌then◌else◌,
}
use external_icing.Store.{StatusOr, value, error, internal, Text}

-- Token of icing/tokenization/token.h
pub data TokenType : Type 0 where
  regular query_or query_exclusion query_property : TokenType
  query_left_parentheses query_right_parentheses invalid : TokenType

pub record Token : Type 0 where
  pub type : TokenType
  pub text : Text

-- DocHitInfoIteratorFilter::Options; no list is an empty one.
pub record Options : Type 0 where
  pub namespaces : List Text
  pub schema_types : List Text

-- The iterators, with what they are made of.
mutual
  pub data Node : Type 0 where
    term : ℕ → Node
    all_document_id : ℕ → Node
    and_binary : Node → Node → Node
    and_nary : Nodes → Node
    or_binary : Node → Node → Node
    or_nary : Nodes → Node
    not_node : Node → ℕ → Node
    section_restrict : Node → Text → Node
    filter : Node → Options → Node

  pub data Nodes : Type 0 where
    no_more : Nodes
    more : Node → Nodes → Nodes

abbrev pub to_nodes : List Node → Nodes
to_nodes [] = no_more
to_nodes (n ∷ ns) = more n (to_nodes ns)

-- CreateAndIterator and CreateOrIterator of icing/index/iterator
abbrev pub create_and : List Node → Node
create_and (a ∷ []) = a
create_and (a ∷ b ∷ []) = and_binary a b
create_and (a ∷ b ∷ c ∷ []) = and_binary (and_binary a b) c
create_and ns = and_nary (to_nodes ns)

abbrev pub create_or : List Node → Node
create_or (a ∷ []) = a
create_or (a ∷ b ∷ []) = or_binary a b
create_or ns = or_nary (to_nodes ns)

-- ParserStateFrame
pub record Frame : Type 0 where
  pub and_iterators : List Node
  pub or_iterators : List Node
  pub saw_or : Bool
  pub saw_exclude : Bool
  pub section : Text

abbrev pub empty_frame : Frame
empty_frame = record {
  and_iterators = [];
  or_iterators = [];
  saw_or = false;
  saw_exclude = false;
  section = [];
}

-- The ANDed iterators, with the ORed ones as one of them if there are any.
abbrev pub flush : List Node → List Node → List Node
flush ands [] = ands
flush ands (o ∷ os) = ands ++ create_or (o ∷ os) ∷ []

-- What is left of ProcessParserStateFrame once the ORs are combined.
abbrev pub combined : ℕ → List Node → Node
combined last_added [] = all_document_id last_added
combined last_added (n ∷ ns) = create_and (n ∷ ns)

-- ProcessParserStateFrame
abbrev pub process_frame : ℕ → Frame → Node
process_frame last_added f = combined last_added (flush f.and_iterators f.or_iterators)

-- The insertions into the maps of terms and of their iterators, in their order.
pub record QueryTerms : Type 0 where
  pub query_terms : List (Text × Text)
  pub query_term_iterators : List (Text × Node)

abbrev pub no_terms : QueryTerms
no_terms = record { query_terms = []; query_term_iterators = [] }

pub record QueryResults : Type 0 where
  pub root_iterator : Node
  pub terms : QueryTerms

-- SearchSpecProto, as far as it is read here; the kind of term match goes to the index unchanged.
pub record SearchSpec : Type 0 where
  pub query : Text
  pub namespace_filters : List Text
  pub schema_type_filters : List Text

pub record Environment : Type 0 where
  pub tokenize_all : Text → StatusOr (List Token)
  pub normalize_term : Text → Text
  pub get_iterator : Text → StatusOr ℕ
  pub last_added_document_id : ℕ

-- getFilterOptions
abbrev pub get_filter_options : SearchSpec → Options
get_filter_options spec = record {
  namespaces = spec.namespace_filters;
  schema_types = spec.schema_type_filters;
}

abbrev pub restrict_by : Text → Node → Node
restrict_by [] n = n
restrict_by (c ∷ cs) n = section_restrict n (c ∷ cs)

module _ (last_added : ℕ) where
  abbrev pub exclude_by : Bool → Node → Node
  exclude_by false n = n
  exclude_by true n = not_node n last_added

  -- Where an iterator goes: to the ORs if an OR follows or came before it, else to the ANDs behind
  -- the ORs so far.
  abbrev pub place : Bool → Node → Frame → Frame
  place next_is_or n f =
      let wrapped = exclude_by f.saw_exclude (restrict_by f.section n) in
      if next_is_or
      then record f {
        or_iterators = f.or_iterators ++ wrapped ∷ [];
        saw_exclude = false;
        section = [];
      }
      else if f.saw_or
      then record f {
        or_iterators = f.or_iterators ++ wrapped ∷ [];
        saw_or = false;
        saw_exclude = false;
        section = [];
      }
      else record f {
        and_iterators = flush f.and_iterators f.or_iterators ++ wrapped ∷ [];
        or_iterators = [];
        saw_exclude = false;
        section = [];
      }

  abbrev pub place_result : Option Node → Bool → List Frame → StatusOr (List Frame)
  place_result none next_is_or frames = value frames
  place_result (some n) next_is_or [] = error internal
  place_result (some n) next_is_or (f ∷ frames) = value (place next_is_or n f ∷ frames)

abbrev pub is_or : TokenType → Bool
is_or query_or = true
is_or _ = false

abbrev pub starts_with_or : List Token → Bool
starts_with_or [] = false
starts_with_or (t ∷ tokens) = is_or t.type

module _ (env : Environment) (options : Options) where
  -- The terms of the results with one that was found.
  abbrev pub add_term : Text → Text → ℕ → QueryTerms → QueryTerms
  add_term section text iterator terms = record {
    query_terms = terms.query_terms ++ (section, text) ∷ [];
    query_term_iterators =
        terms.query_term_iterators ++ (text, filter (term iterator) options) ∷ [];
  }

  -- The iterator of a term's own results, which an excluded term does not get.
  abbrev pub keep_term : Bool → Text → Text → QueryTerms → StatusOr ℕ → StatusOr QueryTerms
  keep_term true section text terms found = value terms
  keep_term false section text terms (error e) = error e
  keep_term false section text terms (value iterator) = value (add_term section text iterator terms)

  abbrev pub found_term :
      Frame
      → List Frame
      → ℕ
      → StatusOr QueryTerms
      → StatusOr (Option Node × List Frame × QueryTerms)
  found_term f frames iterator (error e) = error e
  found_term f frames iterator (value terms) = value (some (term iterator), f ∷ frames, terms)

  -- A regular token: its iterator, and another one for the results of the term.
  abbrev pub take_term :
      Frame
      → List Frame
      → Text
      → QueryTerms
      → StatusOr ℕ
      → StatusOr (Option Node × List Frame × QueryTerms)
  take_term f frames text terms (error e) = error e
  take_term f frames text terms (value iterator) =
      found_term f frames iterator
        (keep_term f.saw_exclude f.section text terms (env.get_iterator text))

  -- The switch of ParseRawQuery: the iterator that a token gives, if any.
  unfoldable pub take_token :
      TokenType → Text → List Frame → QueryTerms → StatusOr (Option Node × List Frame × QueryTerms)
  take_token query_left_parentheses text frames terms = value (none, empty_frame ∷ frames, terms)
  take_token query_right_parentheses text (f ∷ frames) terms =
      value (some (process_frame env.last_added_document_id f), frames, terms)
  take_token query_exclusion text (f ∷ frames) terms =
      value (none, record f { saw_exclude = true } ∷ frames, terms)
  take_token query_or text (f ∷ frames) terms =
      value (none, record f { saw_or = true } ∷ frames, terms)
  take_token query_property text (f ∷ frames) terms =
      value (none, record f { section = text } ∷ frames, terms)
  take_token regular text (f ∷ frames) terms =
      let normalized_text = env.normalize_term text in
      take_term f frames normalized_text terms (env.get_iterator normalized_text)
  take_token _ text frames terms = error internal

  -- The loop over the tokens.
  unfoldable pub parse_loop :
      List Token → List Frame → QueryTerms → StatusOr (List Frame × QueryTerms)
  unfolding take_token
  parse_loop [] frames terms = value (frames, terms)
  parse_loop (t ∷ tokens) frames terms = elim (take_token t.type t.text frames terms) [
    | error e ↦ error e
    | value (result, frames', terms') ↦
        elim (place_result env.last_added_document_id result (starts_with_or tokens) frames') [
          | error e ↦ error e
          | value frames'' ↦ parse_loop tokens frames'' terms'
        ]
  ]

  -- The end of ParseRawQuery: one frame has to be left.
  abbrev pub finish : StatusOr (List Frame × QueryTerms) → StatusOr QueryResults
  finish (error e) = error e
  finish (value (f ∷ [], terms)) =
      value (record { root_iterator = process_frame env.last_added_document_id f; terms = terms })
  finish (value _) = error internal

  abbrev pub parse_tokens : StatusOr (List Token) → StatusOr QueryResults
  parse_tokens (error e) = error e
  parse_tokens (value tokens) = finish (parse_loop tokens (empty_frame ∷ []) no_terms)

-- ParseRawQuery
unfoldable pub parse_raw_query : Environment → SearchSpec → StatusOr QueryResults
unfolding parse_loop
parse_raw_query env spec = parse_tokens env (get_filter_options spec) (env.tokenize_all spec.query)

abbrev pub with_filter : Options → StatusOr QueryResults → StatusOr QueryResults
with_filter options (error e) = error e
with_filter options (value results) =
    value (record results { root_iterator = filter results.root_iterator options })

-- ParseSearch
unfoldable pub parse_search : Environment → SearchSpec → StatusOr QueryResults
unfolding parse_raw_query
parse_search env spec = with_filter (get_filter_options spec) (parse_raw_query env spec)
