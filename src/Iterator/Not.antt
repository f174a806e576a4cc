-- ===== src/Iterator/Not.antt =====
-- DocHitInfoIteratorNot of icing/index/iterator/doc-hit-info-iterator-not.cc.
pub mod Missing
pub mod Complement
use external_icing.Base.{ℕ, zero, suc, ◌+◌, Bool, true, false, ltb, ◌==◌, if◌then◌else◌}
use external_icing.DocHitInfo.{invalid_doc_hit_info}
use external_icing.Iterator.{
  Match, doc, no_match, Status, ok, resource_exhausted, out_of_fuel, Operations, loop_fuel,
}
use external_icing.Iterator.AllDocumentId.{AllDocumentId, all_advance, make_all}

pub record Not (S : Type 0) : Type 0 where
  pub to_be_excluded : S
  pub all_document_id_iterator : AllDocumentId
  pub base : Match

module _ {S : Type 0} (it : Operations S) where
  -- The one call of `Advance` on the excluded iterator that a round makes, its status ignored.
  unfoldable pub catch_up : ℕ → S → S
  catch_up document_id e = if ltb document_id (doc (it.current e)) then (it.advance e).1 else e

  -- The members when the loop ends: only `doc_hit_info_` is reset.
  unfoldable pub not_end : Status → S → AllDocumentId → Match → Status × Not S
  not_end status e a base = (
    status,
    record {
      to_be_excluded = e;
      all_document_id_iterator = a;
      base = record base { info = invalid_doc_hit_info };
    },
  )

  -- Advance
  unfoldable pub not_loop : ℕ → S → AllDocumentId → Match → Status × Not S
  unfolding catch_up not_end
  not_loop zero e a base = not_end out_of_fuel e a base
  not_loop (suc fuel) e a base =
      let (status, a') = all_advance a in
      let e' = catch_up (doc a'.base) e in
      let rest = not_loop fuel e' a' base in
      elim status [
        | ok ↦ elim (doc a'.base == doc (it.current e')) [
          | true ↦ rest
          | false ↦ (
            ok,
            record {
              to_be_excluded = e';
              all_document_id_iterator = a';
              base = record base { info = a'.base.info };
            },
          )
        ]
        | _ ↦ not_end resource_exhausted e a' base
      ]

  unfoldable pub not_advance : Not S → Status × Not S
  unfolding not_loop
  not_advance n = not_loop loop_fuel n.to_be_excluded n.all_document_id_iterator n.base

  abbrev pub not_operations : Operations (Not S)
  not_operations = record { advance = not_advance; current = λ n. n.base }

  -- The constructor.
  unfoldable pub make_not : S → ℕ → Not S
  make_not e document_id_limit = record {
    to_be_excluded = e;
    all_document_id_iterator = make_all document_id_limit;
    base = no_match;
  }
