-- ===== src/Iterator/Or.antt =====
-- DocHitInfoIteratorOr of icing/index/iterator/doc-hit-info-iterator-or.{h,cc}.
pub mod Lists
pub mod Union
use external_icing.Base.{
  ℕ, Bool, true, false, not, ◌&&◌, ◌||◌, Option, none, some, bit_and, ltb, leb, ◌==◌, if◌then◌else◌,
}
use external_icing.Hit.{invalid_document_id, max_document_id}
use external_icing.DocHitInfo.{merge_sections_from}
use external_icing.Iterator.{
  Match, doc, no_match, Status, ok, resource_exhausted, is_ok, Operations,
}

-- Which operand `current_` points to.
pub data Side : Type 0 where
  left_side right_side : Side

pub record Or (S T : Type 0) : Type 0 where
  pub left : S
  pub right : T
  pub current : Option Side
  pub left_document_id : ℕ
  pub right_document_id : ℕ
  pub base : Match

-- Advances one operand if `go` says so, and notes its document id.
unfoldable pub advance_side : {S : Type 0} → Operations S → Bool → S → ℕ → S × ℕ
advance_side it false s document_id = (s, document_id)
advance_side it true s document_id =
    let (status, moved) = it.advance s in
    (moved, if is_ok status then doc (it.current moved) else invalid_document_id)

-- Whether the operand with id `own` is advanced, given the id of the other before the call.
abbrev pub goes : ℕ → ℕ → Bool
goes own other = not (own == invalid_document_id) && (other == invalid_document_id || leb other own)

-- Which operand is chosen: the one with the larger valid id, and the left one of two equal ids.
abbrev pub chosen_side : ℕ → ℕ → Side
chosen_side l r =
    if l == invalid_document_id
    then right_side
    else if r == invalid_document_id
    then left_side
    else if ltb l r
    then right_side
    else left_side

module _ {S T : Type 0} (left_it : Operations S) (right_it : Operations T) where
  abbrev pub chosen_match : Side → S → T → Match
  chosen_match left_side s t = left_it.current s
  chosen_match right_side s t = right_it.current t

  -- `doc_hit_info_` and the mask once an operand is chosen: equal documents are combined.
  abbrev pub combine : Bool → Match → Match → Match
  combine false chosen right_match = chosen
  combine true chosen right_match = record {
    info = merge_sections_from chosen.info right_match.info;
    intersect_mask = bit_and chosen.intersect_mask right_match.intersect_mask;
  }

  -- The second half of Advance, with both operands moved.
  unfoldable pub choose : Option Side → S × ℕ → T × ℕ → Status × Or S T
  choose before (s, l) (t, r) =
      let side = chosen_side l r in
      if l == invalid_document_id && r == invalid_document_id
      then (
        resource_exhausted,
        record {
          left = s;
          right = t;
          current = before;
          left_document_id = l;
          right_document_id = r;
          base = no_match;
        },
      )
      else (
        ok,
        record {
          left = s;
          right = t;
          current = some side;
          left_document_id = l;
          right_document_id = r;
          base = combine (l == r) (chosen_match side s t) (right_it.current t);
        },
      )

  -- Advance
  unfoldable pub or_advance : Or S T → Status × Or S T
  unfolding choose advance_side
  or_advance o =
      choose o.current
        (advance_side left_it (goes o.left_document_id o.right_document_id) o.left
          o.left_document_id)
        (advance_side right_it (goes o.right_document_id o.left_document_id) o.right
          o.right_document_id)

  abbrev pub or_operations : Operations (Or S T)
  or_operations = record { advance = or_advance; current = λ o. o.base }

  -- The constructor, with the members' initial values.
  unfoldable pub make_or : S → T → Or S T
  make_or s t = record {
    left = s;
    right = t;
    current = none;
    left_document_id = max_document_id;
    right_document_id = max_document_id;
    base = no_match;
  }
