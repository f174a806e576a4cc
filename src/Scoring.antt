-- ===== src/Scoring.antt =====
-- icing/scoring: scored-document-hit.h and the loop of scoring-processor.cc that drains a query's
-- iterator. A score is a `double`: its type is a parameter, and so is the scorer's `GetScore`.
pub mod Drain
pub mod Ranker
use external_icing.Base.{ℕ, zero, suc, ◌-◌, Bool, true, false, List, [], ◌∷◌, ltb}
use external_icing.DocHitInfo.{DocHitInfo}
use external_icing.Iterator.{Match, Status, ok, Operations}

pub record ScoredDocumentHit (Score : Type 0) : Type 0 where
  pub document_id : ℕ
  pub hit_section_id_mask : ℕ
  pub score : Score

module _ {Score : Type 0} (get_score : DocHitInfo → Score) where
  -- One result of the loop. `hit_demotion_factor` is 1.0, which changes no score. The scorer is one
  -- that reads the hit only, not the iterator that GetScore also gets.
  unfoldable pub scored : Match → ScoredDocumentHit Score
  scored m = record {
    document_id = m.info.document_id;
    hit_section_id_mask = m.info.hit_section_ids_mask;
    score = get_score m.info;
  }

  -- ScoringProcessor::Score: `Advance` comes first in the loop's test, so one document more than
  -- `num_to_score` may be visited.
  unfoldable pub score_all :
      {S : Type 0} → Operations S → ℕ → ℕ → S → List (ScoredDocumentHit Score)
  score_all it zero num_to_score s = []
  score_all it (suc fuel) num_to_score s =
      let (status, moved) = it.advance s in
      let rest = score_all it fuel (num_to_score - 1) moved in
      elim status [
        | ok ↦ elim (ltb 0 num_to_score) [ true ↦ scored (it.current moved) ∷ rest | false ↦ [] ]
        | _ ↦ []
      ]
