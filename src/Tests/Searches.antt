-- ===== src/Tests/Searches.antt =====
-- Whole searches and iterators over several lists of hits, run and as instances of the theorems.
use external_icing.Base.{
  ℕ, zero, suc, ◌+◌, ◌*◌, ◌≡◌, refl, true, false, Option, none, some, List, [], ◌∷◌, map, arith,
  ◌==◌, if◌then◌else◌, inl, inr,
}
use external_icing.Hit.{invalid_document_id}
use external_icing.DocHitInfo.{doc_hit_info, merge_sections_from}
use external_icing.Store.{value, Text}
use external_icing.Iterator.{doc, no_match, Match, Status, ok, resource_exhausted}
use external_icing.Iterator.Matches.{find}
use external_icing.Iterator.TermLite.{complete, TermLite, at_hit, make_term, term_operations}
use external_icing.Iterator.Row.{Row, no_row, approach, in_row}
use external_icing.Iterator.Row.Columns.{finds}
use external_icing.Iterator.Row.Start.{joins}
use external_icing.Iterator.OrNary.{OrNary, or_nary_advance}
use external_icing.Iterator.OrNary.Collect.{any}
use external_icing.Iterator.AllDocumentId.{plain}
use external_icing.Iterator.Select.{then_pick}
use external_icing.Iterator.Select.Filter.{make_targets}
use external_icing.Scoring.{ScoredDocumentHit, scored}
use external_icing.Query.{
  Environment, SearchSpec, QueryResults, Token, get_filter_options, parse_search,
}
use external_icing.Query.Grammar.{Query, everything, both, only, either, Factor, word, group, print}
use external_icing.Query.Grammar.Trees.{HasLeaves}
use external_icing.Query.Grammar.Separated.{separated}
use external_icing.Query.Evaluate.{Iterator, Stores, build, shown_by}
use external_icing.Query.Evaluate.Sound.{Evaluates}
use external_icing.Query.Evaluate.Matches.{query_match}
use external_icing.Query.Evaluate.Search.{ZeroFree, Scores, score_all-parse_search}
use external_icing.Tests.Rows.{
  index_matches, index_hits-Low, index_operations, IndexYields, index_operations-Enumerates,
  make_term-IndexYields, make_term-doc, age, pair_lists,
}

-- The index numbers a term by its first letter.
abbrev leaf : Text → ℕ
leaf [] = 0
leaf (c ∷ cs) = c

abbrev env_for : List Token → Environment
env_for tokens = record {
  tokenize_all = λ query. value tokens;
  normalize_term = λ text. text;
  get_iterator = λ text. value (leaf text);
  last_added_document_id = 9;
}

env_for-HasLeaves : (tokens : List Token) → HasLeaves (env_for tokens) leaf
env_for-HasLeaves tokens text = refl

abbrev plain_word : ℕ → Factor
plain_word n = word false [] (n ∷ [])

-- 1 OR 2 OR 3 (-4 3)
abbrev query : Query
query = both (either (plain_word 1) (either (plain_word 2) (only (plain_word 3)))) (
    both
      (only (
        group false []
          (both (only (word true [] (4 ∷ []))) (both (only (plain_word 3)) everything))))
      everything)

separated_query : separated query ≡ true
unfolding separated
separated_query = refl

abbrev tokens : List Token
tokens = print query []

abbrev spec : SearchSpec
spec = record { query = 1 ∷ []; namespace_filters = (5 ∷ []) ∷ []; schema_type_filters = [] }

-- All documents but 7 have filter data, all of them in the namespace 5.
abbrev some_stores : Stores
some_stores = record {
  does_document_exist = λ d. if d == 7 then false else true;
  get_document_filter_data = λ d. some (record { namespace_id = 5; schema_type_id = 1 });
  get_namespace_id = λ text. some (leaf text);
  get_schema_type_id = λ text. some (leaf text);
  get_section_path = λ schema_type_id section_id. none;
  path_equal = λ a b. leaf a == leaf b;
}

abbrev term_match : ℕ → ℕ → Option Match
term_match k d = find d (index_matches k)

abbrev leaf_iterator : ℕ → Iterator
leaf_iterator k = record { State = TermLite; operations = index_operations k; state = make_term }

leaf_iterator-Evaluates : (k : ℕ) → Evaluates 9 (leaf_iterator k) (term_match k)
leaf_iterator-Evaluates k = record {
  Yields = IndexYields k;
  law = index_operations-Enumerates k;
  matches = index_matches k;
  yields = make_term-IndexYields k;
  fresh = make_term-doc;
  below = index_hits-Low k;
  has = λ d. refl;
}

query-ZeroFree : ZeroFree some_stores term_match (env_for tokens) leaf query
unfolding ZeroFree query_match doc_hit_info print
query-ZeroFree = (inr refl, (tt, (tt, tt)), (inl refl, (inl refl, tt, (inl refl, tt, tt)), tt))

score_all-parse_search_example :
    (results : QueryResults) × (parse_search (env_for tokens) spec ≡ value results)
    × Scores some_stores term_match
        (env_for tokens)
        leaf
        age
        10
        leaf_iterator
        leaf_iterator-Evaluates
        (omega arith)
        (build some_stores leaf_iterator results.root_iterator)
        (λ d.
          then_pick
            (shown_by some_stores (get_filter_options spec))
            (query_match some_stores term_match (env_for tokens) leaf query d))
score_all-parse_search_example =
    score_all-parse_search some_stores term_match (env_for tokens) leaf age 10 leaf_iterator
      leaf_iterator-Evaluates (omega arith) spec query (env_for-HasLeaves tokens) refl
      separated_query query-ZeroFree

abbrev digest : ScoredDocumentHit ℕ → ℕ
digest h = h.document_id * 100 + h.hit_section_id_mask

-- What the n-ary AND of the terms 1, 2 and 3 has.
joins_run : map digest (map (scored age) (joins (index_matches 1) pair_lists)) ≡ 511 ∷ []
unfolding scored doc_hit_info merge_sections_from
joins_run = refl

abbrev found_by : ℕ → Option Match
found_by d =
    then_pick (shown_by some_stores (get_filter_options spec))
      (query_match some_stores term_match (env_for tokens) leaf query d)

abbrev sections_of : Option Match → ℕ
sections_of none = 0
sections_of (some m) = (m.info).hit_section_ids_mask

-- The sections with which their n-ary OR has documents.
any_run :
    map sections_of
      (map (λ (d : ℕ). any (finds d (index_matches 1 ∷ pair_lists))) (7 ∷ 6 ∷ 5 ∷ 4 ∷ 2 ∷ []))
    ≡ 1 ∷ 1 ∷ 11 ∷ 0 ∷ 5 ∷ []
unfolding doc_hit_info merge_sections_from
any_run = refl

-- The query asks for document 5 and not for 7, 6 and 1.
found_run : map sections_of (map found_by (7 ∷ 6 ∷ 5 ∷ 1 ∷ [])) ≡ 0 ∷ 0 ∷ 11 ∷ 0 ∷ []
unfolding query_match doc_hit_info merge_sections_from print plain make_targets
found_run = refl

-- Iterators of two terms that stand at document 0.
abbrev at_zero : ℕ → TermLite
at_zero mask = record {
  cached_hits = doc_hit_info 0 mask ∷ [];
  cached_hits_idx = some 0;
  base = at_hit (doc_hit_info 0 mask);
}

abbrev zero_row : Row (TermLite × (TermLite × Unit {0}))
zero_row =
    in_row (term_operations (complete (doc_hit_info 0 1 ∷ [])))
      (in_row (term_operations (complete (doc_hit_info 0 4 ∷ []))) no_row)

abbrev or_steps : ℕ → OrNary (TermLite × (TermLite × Unit {0})) → List (Status × ℕ)
or_steps zero o = []
or_steps (suc n) o =
    let (status, moved) = or_nary_advance zero_row o in (status, doc moved.base) ∷ or_steps n moved

-- An n-ary OR that has reached document 0 ends there, but has document 0 once more when it is advanced
-- again.
restart_run :
    or_steps 3
      (record { iterators = (at_zero 1, (at_zero 4, tt)); base = at_hit (doc_hit_info 0 5) })
    ≡ (resource_exhausted, invalid_document_id)
      ∷ (ok, 0)
      ∷ (resource_exhausted, invalid_document_id)
      ∷ []
unfolding or_nary_advance in_row approach no_match doc_hit_info merge_sections_from
restart_run = refl
