-- ===== src/Iterator/Queries.antt =====
-- The results of whole queries: the loop of icing/scoring/scoring-processor.cc over an AND, an OR
-- and a NOT of iterators.
use external_icing.Base.{ℕ, suc, ◌+◌, ◌≤◌, arith, ◌≡◌, List, map, take}
use external_icing.Hit.{invalid_document_id, max_document_id}
use external_icing.DocHitInfo.{DocHitInfo}
use external_icing.Iterator.{Match, doc, Below, Operations, Enumerates, loop_fuel}
use external_icing.Iterator.Matches.{join, find, find-join, meet_options, Below-mono}
use external_icing.Iterator.And.{and_operations, make_and}
use external_icing.Iterator.And.Join.{AndYields, and_operations-Enumerates, make_and-AndYields}
use external_icing.Iterator.Or.{or_operations, make_or}
use external_icing.Iterator.Or.Union.{OrYields, or_operations-Enumerates, make_or-OrYields}
use external_icing.Iterator.Or.Lists.{union, find-union, either_match}
use external_icing.Iterator.Not.{not_operations, make_not}
use external_icing.Iterator.Not.Complement.{
  NotYields, not_operations-Enumerates, make_not-NotYields,
}
use external_icing.Iterator.Not.Missing.{missing, unless_found, find-missing}
use external_icing.Scoring.{scored, score_all}
use external_icing.Scoring.Drain.{score_all_lem}

module _ {Score : Type 0} (get_score : DocHitInfo → Score) (num_to_score : ℕ) where
  module _ {S T : Type 0} (left_it : Operations S) (right_it : Operations T)
      (LeftYields : S → List Match → Type 0) (RightYields : T → List Match → Type 0)
      (left_law : Enumerates S left_it LeftYields) (right_law : Enumerates T right_it RightYields)
      (s : S) (t : T) (xs ys : List Match) (left_yields : LeftYields s xs)
      (right_yields : RightYields t ys) where
    -- Scoring the AND of two iterators that keep the contract collects the first `num_to_score`
    -- matches of the join of what they have before them; and that join has a document exactly when
    -- both have it, with the sections of both matches merged.
    pub score_all-and :
        (score_all get_score
            (and_operations left_it right_it)
            loop_fuel
            num_to_score
            (make_and left_it right_it s t)
          ≡ map (scored get_score) (take num_to_score (join xs ys)))
        × ((d : ℕ) → find d (join xs ys) ≡ meet_options (find d xs) (find d ys))
    score_all-and =
        let drained =
          score_all_lem get_score (and_operations left_it right_it)
            (AndYields left_it right_it LeftYields RightYields)
            (and_operations-Enumerates left_it right_it LeftYields RightYields left_law right_law)
            num_to_score (make_and left_it right_it s t) (join xs ys)
            (make_and-AndYields left_it right_it LeftYields RightYields left_law right_law s t xs ys
              left_yields right_yields) in
        (
          drained,
          λ d. find-join d (doc (left_it.current s)) xs ys (left_law.falling s xs left_yields),
        )

    -- Scoring the OR of two iterators that keep the contract collects the first `num_to_score`
    -- matches of the union of what they have before them; and that union has a document exactly
    -- when one of them has it, with the sections merged and the masks intersected if both do.
    pub score_all-or :
        (score_all get_score
            (or_operations left_it right_it)
            loop_fuel
            num_to_score
            (make_or left_it right_it s t)
          ≡ map (scored get_score) (take num_to_score (union xs ys)))
        × ((d : ℕ) → find d (union xs ys) ≡ either_match (find d xs) (find d ys))
    score_all-or =
        let drained =
          score_all_lem get_score (or_operations left_it right_it)
            (OrYields left_it right_it LeftYields RightYields)
            (or_operations-Enumerates left_it right_it LeftYields RightYields left_law right_law)
            num_to_score (make_or left_it right_it s t) (union xs ys)
            (make_or-OrYields left_it right_it LeftYields RightYields left_law right_law s t xs ys
              left_yields right_yields) in
        let n = doc (left_it.current s) + doc (right_it.current t) in
        let left_below =
          Below-mono (doc (left_it.current s)) n xs (omega arith)
            (left_law.falling s xs left_yields) in
        let right_below =
          Below-mono (doc (right_it.current t)) n ys (omega arith)
            (right_law.falling t ys right_yields) in
        (drained, λ d. find-union d n xs ys left_below right_below)

  module _ {S : Type 0} (it : Operations S) (Yields : S → List Match → Type 0)
      (law : Enumerates S it Yields) where
    -- Scoring the NOT of an iterator that has not been advanced, and whose documents are at most
    -- the valid limit, collects the first `num_to_score` of the documents that are missing in it;
    -- and a document is one of these exactly when it is at most the limit and the iterator does
    -- not have it.
    pub score_all-not :
        (e : S) (limit : ℕ) (es : List Match)
        → limit ≤ max_document_id
        → doc (it.current e) ≡ invalid_document_id
        → Yields e es
        → Below (suc limit) es
        → (score_all get_score (not_operations it) loop_fuel num_to_score (make_not it e limit)
            ≡ map (scored get_score) (take num_to_score (missing (suc limit) es)))
          × ((d : ℕ) → find d (missing (suc limit) es) ≡ unless_found (find d es) d (suc limit))
    score_all-not e limit es h start y b =
        let drained =
          score_all_lem get_score (not_operations it) (NotYields it Yields law)
            (not_operations-Enumerates it Yields law) num_to_score (make_not it e limit)
            (missing (suc limit) es) (make_not-NotYields it Yields law e limit es h start y b) in
        (drained, λ d. find-missing d (suc limit) es)
