-- ===== src/Iterator.antt =====
-- icing/index/iterator: the iterators that evaluate a query, each over its own state.
-- This file has the base class of doc-hit-info-iterator.h, as an interface with laws; the children
-- have the subclasses. A section's `S` is the state of a sub-iterator, whatever its class.
pub mod Matches
pub mod AllDocumentId
pub mod And
pub mod Or
pub mod Row
pub mod AndNary
pub mod OrNary
pub mod Not
pub mod Select
pub mod TermLite
pub mod Queries
pub mod NaryQueries
pub mod Restrictions
pub mod Advance
use external_icing.Base.{ℕ, zero, suc, ◌+◌, ◌≤◌, ◌<◌, ◌≡◌, Bool, true, false, List, [], ◌∷◌, leb}
use external_icing.Hit.{invalid_document_id}
use external_icing.DocHitInfo.{DocHitInfo, invalid_doc_hit_info, section_id_mask_none}

-- The statuses that `Advance` returns. `out_of_fuel` marks a loop of the model that was cut off; no
-- iterator that keeps the laws below returns it.
pub data Status : Type 0 where
  ok resource_exhausted invalid_argument out_of_fuel : Status

-- `doc_hit_info_` and `hit_intersect_section_ids_mask_`, the members of the base class.
pub record Match : Type 0 where
  pub info : DocHitInfo
  pub intersect_mask : ℕ

-- The document id of a match.
abbrev pub doc : Match → ℕ
doc m = m.info.document_id

-- The members before the first call of `Advance` and after the last result.
unfoldable pub no_match : Match
unfolding invalid_doc_hit_info
no_match = record { info = invalid_doc_hit_info; intersect_mask = section_id_mask_none }

-- The virtual `Advance`, and the members that it leaves behind.
pub record Operations (S : Type 0) : Type 0 where
  pub advance : S → Status × S
  pub current : S → Match

abbrev pub is_ok : Status → Bool
is_ok ok = true
is_ok _ = false

-- A loop over one iterator makes a round for each document, of which there are below 2 ^ 20, and
-- one more; a loop over two iterators has the rounds of both.
pub loop_fuel : ℕ
loop_fuel = suc invalid_document_id

module _ {S : Type 0} (it : Operations S) where
  -- AdvanceTo: on success the document id that it returns is that of the iterator.
  unfoldable pub advance_to : ℕ → S → ℕ → Status × S
  advance_to zero s document_id = (out_of_fuel, s)
  advance_to (suc fuel) s document_id =
      let (status, moved) = it.advance s in
      let rest = advance_to fuel moved document_id in
      elim status [
        | ok ↦ elim (leb (doc (it.current moved)) document_id) [ true ↦ (ok, moved) | false ↦ rest ]
        | _ ↦ (resource_exhausted, moved)
      ]

-- The ids fall along the list and stay below the bound: the order in which iterators run.
abbrev pub Below : ℕ → List Match → Type 0
Below n [] = Unit {0}
Below n (m ∷ ms) = (doc m < n) × Below (doc m) ms

-- What a call of `Advance` does to an iterator that has the matches of the list before it.
abbrev pub Moves :
    {S : Type 0} → Operations S → (S → List Match → Type 0) → List Match → Status × S → Type 0
Moves it Yields [] r =
    (r.0 ≡ resource_exhausted) × (doc (it.current r.1) ≡ invalid_document_id) × Yields r.1 []
Moves it Yields (m ∷ ms) r = (r.0 ≡ ok) × (it.current r.1 ≡ m) × Yields r.1 ms

-- The contract of the base class: `Yields s ms` says that the iterator in state `s` has exactly
-- the matches `ms` before it, in falling order of document ids and below its current one.
pub record Enumerates (S : Type 0) (it : Operations S) (Yields : S → List Match → Type 0)
    : Type 0 where
  pub falling : (s : S) (ms : List Match) → Yields s ms → Below (doc (it.current s)) ms
  pub bounded : (s : S) (ms : List Match) → Yields s ms → doc (it.current s) ≤ invalid_document_id
  pub step : (s : S) (ms : List Match) → Yields s ms → Moves it Yields ms (it.advance s)
