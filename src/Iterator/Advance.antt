-- ===== src/Iterator/Advance.antt =====
-- AdvanceTo of icing/index/iterator/doc-hit-info-iterator.h, over any iterator that keeps the
-- contract.
use external_icing.Base.{
  ℕ, zero, suc, ◌≤◌, ◌<◌, refl, List, [], ◌∷◌, arith, leb, length, Bool-cases, inl, inr,
}
use external_icing.Hit.{invalid_document_id}
use external_icing.Iterator.{
  Match, doc, Below, Operations, Enumerates, Moves, advance_to, loop_fuel,
}
use external_icing.Iterator.Matches.{drop_above, length-Below}

-- Document ids fall and are below 2 ^ 20.
pub length-Below-loop_fuel :
    (n : ℕ) (ms : List Match) → Below n ms → n ≤ invalid_document_id → length ms < loop_fuel
unfolding loop_fuel
length-Below-loop_fuel n ms b h = omega (arith, length-Below n ms b, h)

module _ {S : Type 0} (it : Operations S) (Yields : S → List Match → Type 0)
    (law : Enumerates S it Yields) where
  -- A loop over one iterator never runs out of rounds.
  pub length-lt-loop_fuel : (s : S) (ms : List Match) → Yields s ms → length ms < loop_fuel
  length-lt-loop_fuel s ms y =
      length-Below-loop_fuel (doc (it.current s)) ms (law.falling s ms y) (law.bounded s ms y)

  -- AdvanceTo passes over the documents above the target, and stands at the first that is not.
  pub advance_to_lem :
      (fuel d : ℕ) (s : S) (ms : List Match)
      → Yields s ms
      → length ms < fuel
      → Moves it Yields (drop_above d ms) (advance_to it fuel s d)
  unfolding advance_to
  advance_to_lem zero d s ms y h = absurd (omega arith)
  advance_to_lem (suc fuel) d s [] y h =
      let moves = law.step s [] y in rw (moves.0, advance_to) (refl, moves.1, moves.2)
  advance_to_lem (suc fuel) d s (m ∷ ms) y h =
      let moves = law.step s (m ∷ ms) y in
      elim (Bool-cases (leb (doc m) d)) [
        | inl near ↦
            rw (near, moves.0, advance_to, moves.1, near, advance_to) (refl, moves.1, moves.2)
        | inr far ↦
            rw (far, moves.0, advance_to, moves.1, far, advance_to)
              (advance_to_lem fuel d (it.advance s).1 ms moves.2 (omega arith))
      ]

pub loop_fuel-bound : (k : ℕ) → k < loop_fuel → k ≤ invalid_document_id
unfolding loop_fuel
loop_fuel-bound k h = omega arith
