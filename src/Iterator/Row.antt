-- ===== src/Iterator/Row.antt =====
-- The vectors of iterators that the n-ary iterators of icing/index/iterator have: a row is a state of
-- each iterator in turn, with what the loops over it do.
pub mod Approach
pub mod Columns
pub mod Sweep
pub mod Climb
pub mod InRow
pub mod Start
use external_icing.Base.{ℕ, zero, suc, Bool, true, false, List, [], ◌∷◌, ltb, ◌==◌, if◌then◌else◌}
use external_icing.Hit.{invalid_document_id}
use external_icing.Iterator.{
  Match, doc, Status, ok, resource_exhausted, is_ok, Operations, advance_to, loop_fuel,
}

-- How the `for` loop of an AND ends: with `found_document_id`, with a new potential document, or with an
-- error of AdvanceTo.
pub data Round : Type 0 where
  finished : Bool → Round
  passed : ℕ → Round
  failed : Status → Round

pub record Row (R : Type 0) : Type 0 where
  pub size : ℕ
  pub currents : R → List Match
  pub advance_first : R → Status × R
  pub and_round : Bool → ℕ → R → Round × R
  pub or_round : ℕ → ℕ → R → ℕ × R

-- Advances an iterator if it is above the document.
unfoldable pub approach : {S : Type 0} → Operations S → ℕ → S → Status × S
approach it document_id s =
    let moved = advance_to it loop_fuel s document_id in
    if ltb document_id (doc (it.current s)) then moved else (ok, s)

abbrev pub no_row : Row (Unit {0})
no_row = record {
  size = 0;
  currents = λ r. [];
  advance_first = λ r. (resource_exhausted, r);
  and_round = λ found document_id r. (finished found, r);
  or_round = λ document_id_max next r. (next, r);
}

-- The larger one, if the first is valid.
abbrev pub max_of : ℕ → ℕ → ℕ
max_of next document_id = if ltb next document_id then document_id else next

module _ {S R : Type 0} (it : Operations S) (row : Row R) where
  abbrev pub and_body : Bool → ℕ → R → Status × S → Round × (S × R)
  and_body found document_id r (ok, s) =
      let at = doc (it.current s) in
      let matched = row.and_round true document_id r in
      let unmatched = row.and_round found document_id r in
      if at == document_id
      then (matched.0, (s, matched.1))
      else if ltb at document_id
      then (passed at, (s, r))
      else (unmatched.0, (s, unmatched.1))
  and_body found document_id r (status, s) = (failed status, (s, r))

  abbrev pub or_body : ℕ → ℕ → R → Status × S → ℕ × (S × R)
  or_body document_id_max next r (ok, s) =
      let rest =
        row.or_round document_id_max
          (if next == invalid_document_id
            then doc (it.current s)
            else max_of next (doc (it.current s)))
          r in
      (rest.0, (s, rest.1))
  or_body document_id_max next r (status, s) =
      let rest = row.or_round document_id_max next r in (rest.0, (s, rest.1))

  -- An iterator in front of a row.
  unfoldable pub in_row : Row (S × R)
  unfolding approach
  in_row = record {
    size = suc row.size;
    currents = λ (s, r). it.current s ∷ row.currents r;
    advance_first = λ (s, r). let moved = it.advance s in (moved.0, (moved.1, r));
    and_round =
        λ found document_id (s, r). and_body found document_id r (approach it document_id s);
    or_round = λ document_id_max next (s, r).
        or_body document_id_max next r (approach it document_id_max s);
  }
