-- ===== src/Iterator/AllDocumentId.antt =====
-- DocHitInfoIteratorAllDocumentId of icing/index/iterator/doc-hit-info-iterator-all-document-id.cc.
use external_icing.Base.{
  ℕ, zero, suc, ◌≤◌, ◌≡◌, Bool, true, false, List, [], ◌∷◌, none, some, arith, leb, ltb,
  if◌then◌else◌, Bool-cases, inl, inr, trichotomy, below, same, above, ap, refl, subst, sym,
}
use external_icing.Hit.{invalid_document_id, max_document_id}
use external_icing.Iterator.{
  Match, doc, no_match, Below, Status, ok, resource_exhausted, Operations, Enumerates, Moves,
}
use external_icing.Iterator.Matches.{find}

-- `current_document_id_` falls to -1: `negsuc n` is -(n + 1).
pub data ℤ : Type 0 where
  pos : ℕ → ℤ
  negsuc : ℕ → ℤ

unfoldable pub decrement : ℤ → ℤ
decrement (pos zero) = negsuc 0
decrement (pos (suc n)) = pos n
decrement (negsuc n) = negsuc (suc n)

-- IsDocumentIdValid
unfoldable pub is_document_id_valid : ℤ → Bool
is_document_id_valid (pos n) = leb n max_document_id
is_document_id_valid (negsuc n) = false

pub record AllDocumentId : Type 0 where
  pub current_document_id : ℤ
  pub base : Match

-- The constructor; `document_id_limit_` itself is read by the statistics only.
unfoldable pub make_all : ℕ → AllDocumentId
make_all document_id_limit = record { current_document_id = pos document_id_limit; base = no_match }

-- `doc_hit_info_.set_document_id`
unfoldable pub set_document_id : Match → ℤ → Match
set_document_id m (pos n) = record m { info = record (m.info) { document_id = n } }
set_document_id m (negsuc n) = m

-- Advance
unfoldable pub all_advance : AllDocumentId → Status × AllDocumentId
unfolding decrement is_document_id_valid set_document_id
all_advance a =
    if is_document_id_valid a.current_document_id
    then (
      ok,
      record {
        current_document_id = decrement a.current_document_id;
        base = set_document_id a.base a.current_document_id;
      },
    )
    else (resource_exhausted, record a { base = no_match })

abbrev pub all_operations : Operations AllDocumentId
all_operations = record { advance = all_advance; current = λ a. a.base }

-- A document without hits.
unfoldable pub plain : ℕ → Match
unfolding no_match
plain d = record no_match { info = record (no_match.info) { document_id = d } }

pub plain-doc : (d : ℕ) → doc (plain d) ≡ d
unfolding plain
plain-doc d = refl

-- The documents below the bound, the last one first.
abbrev pub descending : ℕ → List Match
descending zero = []
descending (suc n) = plain n ∷ descending n

-- How many documents are left.
abbrev pub remaining : ℤ → ℕ
remaining (pos n) = if leb n max_document_id then suc n else 0
remaining (negsuc n) = 0

-- What is before the iterator: its members are reset, or those of a document without hits.
pub record AllYields (a : AllDocumentId) (ms : List Match) : Type 0 where
  pub rest : ms ≡ descending (remaining a.current_document_id)
  pub base_plain : a.base ≡ plain (doc a.base)
  pub above : remaining a.current_document_id ≤ doc a.base
  pub bound : doc a.base ≤ invalid_document_id

pub descending-Below : (n k : ℕ) → k ≤ n → Below n (descending k)
unfolding plain no_match
descending-Below n zero h = tt
descending-Below n (suc k) h = (omega arith, descending-Below k k (omega arith))

pub find-descending : (d k : ℕ) → find d (descending k) ≡ (if ltb d k then some (plain d) else none)
unfolding plain
find-descending d zero = ground arith
find-descending d (suc k) = elim (trichotomy k d) [
  | below p ↦ ground (arith, p, find-descending d k)
  | same p ↦ ground (arith, p, ap plain p)
  | above p ↦ ground (arith, p, find-descending d k)
]

-- Every state that has nothing left is at its end.
all_end :
    (a : AllDocumentId)
    → is_document_id_valid a.current_document_id ≡ false
    → remaining a.current_document_id ≡ 0
    → Moves all_operations AllYields [] (all_advance a)
unfolding all_advance plain no_match
all_end a e r =
    rw (e, all_advance)
      (
        refl,
        refl,
        record { rest = rw r; base_plain = refl; above = omega (arith, r); bound = omega arith },
      )

set_document_id-plain :
    (n : ℕ) (base : Match) → base ≡ plain (doc base) → set_document_id base (pos n) ≡ plain n
unfolding set_document_id plain
set_document_id-plain n base e = ap (λ m. set_document_id m (pos n)) e

remaining-decrement : (n : ℕ) → n ≤ max_document_id → remaining (decrement (pos n)) ≡ n
unfolding decrement
remaining-decrement zero h = refl
remaining-decrement (suc n) h = ground arith

abbrev at : ℤ → Match → AllDocumentId
at current base = record { current_document_id = current; base = base }

gives :
    (n : ℕ)
    → n ≤ max_document_id
    → Moves all_operations AllYields (plain n ∷ descending n) (ok, at (decrement (pos n)) (plain n))
unfolding plain no_match
gives n h =
    let left = remaining-decrement n h in
    (
      refl,
      refl,
      record {
        rest = ap descending (sym left);
        base_plain = refl;
        above = omega (arith, left);
        bound = omega arith;
      },
    )

abbrev Steps : ℤ → Match → List Match → Type 0
Steps current base ms = Moves all_operations AllYields ms (all_advance (at current base))

all_valid :
    (n : ℕ) (base : Match)
    → base ≡ plain (doc base)
    → leb n max_document_id ≡ true
    → Steps (pos n) base (plain n ∷ descending n)
unfolding all_advance is_document_id_valid
all_valid n base e valid =
    rw (valid, set_document_id-plain n base e) (gives n (ground (arith, valid)))

all_step :
    (current : ℤ) (base : Match)
    → base ≡ plain (doc base)
    → Steps current base (descending (remaining current))
unfolding is_document_id_valid
all_step (negsuc n) base e = all_end (at (negsuc n) base) refl refl
all_step (pos n) base e = elim (Bool-cases (leb n max_document_id)) [
  | inl valid ↦
      let left : suc n ≡ remaining (pos n) = rw valid in
      subst (λ (k : ℕ). Steps (pos n) base (descending k)) left (all_valid n base e valid)
  | inr over ↦
      let left : 0 ≡ remaining (pos n) = rw over in
      subst (λ (k : ℕ). Steps (pos n) base (descending k)) left
        (all_end (at (pos n) base) over (sym left))
]

-- The iterator walks the documents from its limit down to 0, and nothing from an invalid limit.
pub all_operations-Enumerates : Enumerates AllDocumentId all_operations AllYields
all_operations-Enumerates = record {
  falling = λ a ms v.
      rw (v.rest) (descending-Below (doc a.base) (remaining a.current_document_id) v.above);
  bounded = λ a ms v. v.bound;
  step = λ a ms v. rw (v.rest) (all_step a.current_document_id a.base v.base_plain);
}

pub make_all-AllYields :
    (document_id_limit : ℕ)
    → AllYields (make_all document_id_limit) (descending (remaining (pos document_id_limit)))
unfolding make_all plain no_match
make_all-AllYields limit = record {
  rest = refl;
  base_plain = refl;
  above = ground arith;
  bound = omega arith;
}
