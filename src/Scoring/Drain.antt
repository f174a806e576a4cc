-- ===== src/Scoring/Drain.antt =====
-- What the loop of ScoringProcessor::Score collects from an iterator.
use external_icing.Base.{
  ℕ, zero, suc, ◌-◌, ◌≤◌, ◌<◌, ◌≡◌, ap, List, [], ◌∷◌, map, arith, length, take,
}
use external_icing.Hit.{invalid_document_id}
use external_icing.DocHitInfo.{DocHitInfo}
use external_icing.Iterator.{
  Match, doc, Below, Status, ok, resource_exhausted, Operations, Enumerates, loop_fuel,
}
use external_icing.Iterator.Advance.{length-Below-loop_fuel}
use external_icing.Scoring.{scored, score_all}

-- The contract of an iterator that is not advanced again once it has ended.
abbrev pub Walk :
    {S : Type 0} → Operations S → (S → List Match → Type 0) → List Match → Status × S → Type 0
Walk it Yields [] r = r.0 ≡ resource_exhausted
Walk it Yields (m ∷ ms) r = (r.0 ≡ ok) × (it.current (r.1) ≡ m) × Yields (r.1) ms

pub record Walks (S : Type 0) (it : Operations S) (Yields : S → List Match → Type 0) : Type 0 where
  pub falling : (s : S) (ms : List Match) → Yields s ms → Below (doc (it.current s)) ms
  pub bounded : (s : S) (ms : List Match) → Yields s ms → doc (it.current s) ≤ invalid_document_id
  pub step : (s : S) (ms : List Match) → Yields s ms → Walk it Yields ms (it.advance s)

walk :
    {S : Type 0} (it : Operations S) (Yields : S → List Match → Type 0)
    → Enumerates S it Yields
    → (s : S) (ms : List Match) → Yields s ms
    → Walk it Yields ms (it.advance s)
walk it Yields law s [] y = (law.step s [] y).0
walk it Yields law s (m ∷ ms) y = law.step s (m ∷ ms) y

module _ {S Score : Type 0} (get_score : DocHitInfo → Score) (it : Operations S)
    (Yields : S → List Match → Type 0) where
  module _ (law : Walks S it Yields) where
    score_all_fuel :
        (fuel num_to_score : ℕ) (s : S) (ms : List Match)
        → Yields s ms
        → length ms < fuel
        → score_all get_score it fuel num_to_score s ≡ map (scored get_score) (take num_to_score ms)
    unfolding score_all
    score_all_fuel zero num_to_score s ms y h = absurd (omega arith)
    score_all_fuel (suc fuel) zero s [] y h = ground (arith, law.step s [] y)
    score_all_fuel (suc fuel) (suc num) s [] y h = ground (arith, law.step s [] y)
    score_all_fuel (suc fuel) zero s (m ∷ ms) y h = ground (arith, (law.step s (m ∷ ms) y).0)
    score_all_fuel (suc fuel) (suc num) s (m ∷ ms) y h =
        let moves = law.step s (m ∷ ms) y in
        let rest = score_all_fuel fuel (suc num - 1) (it.advance s).1 ms moves.2 (omega arith) in
        let less : suc num - 1 ≡ num = omega arith in
        ground
          (arith, moves.0, moves.1, rest, ap (λ (k : ℕ). map (scored get_score) (take k ms)) less)

    -- The loop ends at the end of the iterator at the latest.
    pub score_all_walk :
        (num_to_score : ℕ) (s : S) (ms : List Match)
        → Yields s ms
        → score_all get_score it loop_fuel num_to_score s
          ≡ map (scored get_score) (take num_to_score ms)
    score_all_walk num_to_score s ms y =
        score_all_fuel loop_fuel num_to_score s ms y
          (length-Below-loop_fuel (doc (it.current s)) ms (law.falling s ms y) (law.bounded s ms y))

  -- The loop collects the first `num_to_score` matches that the iterator has before it, in their
  -- order: it neither skips nor repeats a document, and ends.
  pub score_all_lem :
      Enumerates S it Yields
      → (num_to_score : ℕ) (s : S) (ms : List Match) → Yields s ms
      → score_all get_score it loop_fuel num_to_score s
        ≡ map (scored get_score) (take num_to_score ms)
  score_all_lem law num_to_score s ms y =
      score_all_walk
        (record { falling = law.falling; bounded = law.bounded; step = walk it Yields law })
        num_to_score s ms y
