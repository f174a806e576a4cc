-- ===== src/Iterator/Matches.antt =====
-- Lists of matches in falling order of document ids: search, dropping, and the join that AND means.
use external_icing.Base.{
  ℕ, suc, ◌≤◌, ◌<◌, ◌≡◌, refl, sym, ap, ◌∙◌, bit_and, true, false, List, [], ◌∷◌, Option, none,
  some, arith, leb, ◌==◌, if◌then◌else◌, length, Bool-cases, inl, inr, Option-cases, lt→ne', ==_iff,
}
use external_icing.DocHitInfo.{merge_sections_from}
use external_icing.DocHitInfo.Merge.{document_id-merge_sections_from}
use external_icing.Iterator.{Match, doc, Below}

-- The match of a document, if the list has one.
abbrev pub find : ℕ → List Match → Option Match
find d [] = none
find d (m ∷ ms) = if doc m == d then some m else find d ms

abbrev pub drop_above : ℕ → List Match → List Match
drop_above d [] = []
drop_above d (m ∷ ms) = if leb (doc m) d then m ∷ ms else drop_above d ms

-- The sections of both matches, and the sections in which every term was found.
abbrev pub meet : Match → Match → Match
meet x y = record {
  info = merge_sections_from x.info y.info;
  intersect_mask = bit_and x.intersect_mask y.intersect_mask;
}

abbrev pub meet_found : Match → Option Match → List Match → List Match
meet_found x none ms = ms
meet_found x (some y) ms = meet x y ∷ ms

-- The matches of the documents that both lists have, in the order of the first.
abbrev pub join : List Match → List Match → List Match
join [] ys = []
join (x ∷ xs) ys = meet_found x (find (doc x) ys) (join xs ys)

pub Below-mono : (m n : ℕ) (ms : List Match) → m ≤ n → Below m ms → Below n ms
Below-mono m n [] h b = tt
Below-mono m n (x ∷ ms) h b = (omega arith, b.1)

pub length-Below : (n : ℕ) (ms : List Match) → Below n ms → length ms ≤ n
length-Below n [] b = omega arith
length-Below n (m ∷ ms) b = omega (arith, length-Below (doc m) ms b.1)

pub find-Below : (n d : ℕ) (ms : List Match) → Below n ms → n ≤ d → find d ms ≡ none
find-Below n d [] b h = refl
find-Below n d (m ∷ ms) b h = ground (arith, find-Below (doc m) d ms b.1)

pub drop_above-Below : (n d : ℕ) (ms : List Match) → Below n ms → Below n (drop_above d ms)
drop_above-Below n d [] b = tt
drop_above-Below n d (m ∷ ms) b =
    ground (arith, Below-mono (doc m) n (drop_above d ms), drop_above-Below (doc m) d ms b.1)

pub drop_above-fits : (n d : ℕ) (ms : List Match) → Below n ms → Below (suc d) (drop_above d ms)
drop_above-fits n d [] b = tt
drop_above-fits n d (m ∷ ms) b = ground (arith, drop_above-fits (doc m) d ms b.1)

pub length-drop_above : (d : ℕ) (ms : List Match) → length (drop_above d ms) ≤ length ms
length-drop_above d [] = omega arith
length-drop_above d (m ∷ ms) = ground (arith, length-drop_above d ms)

pub find-drop_above : (e d : ℕ) (ms : List Match) → e ≤ d → find e (drop_above d ms) ≡ find e ms
find-drop_above e d [] h = refl
find-drop_above e d (m ∷ ms) h = ground (arith, find-drop_above e d ms h)

-- Dropping documents that the other list cannot have leaves the join as it is.
pub join-drop_above_right :
    (n d : ℕ) (xs ys : List Match) → Below n xs → n ≤ suc d → join xs (drop_above d ys) ≡ join xs ys
join-drop_above_right n d [] ys b h = refl
join-drop_above_right n d (x ∷ xs) ys b h = rw (
  find-drop_above (doc x) d ys (omega arith),
  join-drop_above_right (doc x) d xs ys b.1 (omega arith),
)

pub join-drop_above_left :
    (n d : ℕ) (xs ys : List Match) → Below n ys → n ≤ suc d → join (drop_above d xs) ys ≡ join xs ys
join-drop_above_left n d [] ys b h = refl
join-drop_above_left n d (x ∷ xs) ys b h = elim (Bool-cases (leb (doc x) d)) [
  | inl keeps ↦ rw keeps
  | inr drops ↦
      rw (drops, find-Below n (doc x) ys b (ground arith)) (join-drop_above_left n d xs ys b h)
]

pub join-nil : (xs : List Match) → join xs [] ≡ []
join-nil [] = refl
join-nil (x ∷ xs) = join-nil xs

pub join-cons_right :
    (n : ℕ) (y : Match) (xs ys : List Match)
    → Below n xs
    → n ≤ doc y
    → join xs (y ∷ ys) ≡ join xs ys
join-cons_right n y [] ys b h = refl
join-cons_right n y (x ∷ xs) ys b h =
    rw (lt→ne' (doc y) (doc x) (omega arith), join-cons_right (doc x) y xs ys b.1 (omega arith))

pub meet-doc : (x y : Match) → doc (meet x y) ≡ doc x
meet-doc x y = document_id-merge_sections_from x.info y.info

pub join-Below : (n : ℕ) (xs ys : List Match) → Below n xs → Below n (join xs ys)
join-Below n [] ys b = tt
join-Below n (x ∷ xs) ys b = elim (Option-cases (find (doc x) ys)) [
  | inl none_there ↦
      rw none_there (Below-mono (doc x) n (join xs ys) (omega arith) (join-Below (doc x) xs ys b.1))
  | inr (y, there) ↦ rw (there, meet-doc x y) (b.0, join-Below (doc x) xs ys b.1)
]

abbrev pub meet_options : Option Match → Option Match → Option Match
meet_options (some x) (some y) = some (meet x y)
meet_options _ _ = none

meet_options-none : (o : Option Match) → meet_options o none ≡ none
meet_options-none none = refl
meet_options-none (some x) = refl

find-meet_found_hit :
    (d : ℕ) (x : Match) (o : Option Match) (ms : List Match)
    → (doc x == d) ≡ true
    → find d ms ≡ none
    → find d (meet_found x o ms) ≡ meet_options (some x) o
find-meet_found_hit d x none ms hit absent = absent
find-meet_found_hit d x (some y) ms hit absent = rw (meet-doc x y, hit)

find-meet_found_miss :
    (d : ℕ) (x : Match) (o : Option Match) (ms : List Match)
    → (doc x == d) ≡ false
    → find d (meet_found x o ms) ≡ find d ms
find-meet_found_miss d x none ms miss = refl
find-meet_found_miss d x (some y) ms miss = rw (meet-doc x y, miss)

-- A join is the intersection: a document is in it exactly when both lists have it, and then with
-- the meet of its two matches.
pub find-join :
    (d n : ℕ) (xs ys : List Match)
    → Below n xs
    → find d (join xs ys) ≡ meet_options (find d xs) (find d ys)
find-join d n [] ys b = refl
find-join d n (x ∷ xs) ys b = elim (Bool-cases (doc x == d)) [
  | inl hit ↦
      let e : doc x ≡ d = (==_iff (doc x) d).0 hit in
      let absent : find d (join xs ys) ≡ none =
        find-Below (doc x) d (join xs ys) (join-Below (doc x) xs ys b.1) (omega arith) in
      rw hit (
        find-meet_found_hit d x (find (doc x) ys) (join xs ys) hit absent
        ∙ ap (λ k. meet_options (some x) (find k ys)) e)
  | inr miss ↦
      rw miss (
        find-meet_found_miss d x (find (doc x) ys) (join xs ys) miss
        ∙ find-join d (doc x) xs ys b.1)
]

-- The three steps of a join of two lists that are not empty.
module _ (x y : Match) (xs ys : List Match) where
  pub join-long_ahead :
      doc x < doc y
      → Below (doc x) xs
      → join (x ∷ xs) (y ∷ ys) ≡ join (x ∷ xs) (drop_above (doc x) ys)
  join-long_ahead h b =
      sym (
        join-drop_above_right (suc (doc x)) (doc x) (x ∷ xs) (y ∷ ys) (omega arith, b)
          (omega arith))
      ∙ ap (join (x ∷ xs)) (ground arith)

  pub join-short_ahead :
      doc y < doc x
      → Below (doc y) ys
      → join (x ∷ xs) (y ∷ ys) ≡ join (drop_above (doc y) xs) (y ∷ ys)
  join-short_ahead h b =
      sym (
        join-drop_above_left (suc (doc y)) (doc y) (x ∷ xs) (y ∷ ys) (omega arith, b) (omega arith))
      ∙ ap (λ zs. join zs (y ∷ ys)) (ground arith)

  pub join_same : doc x ≡ doc y → Below (doc x) xs → join (x ∷ xs) (y ∷ ys) ≡ meet x y ∷ join xs ys
  join_same e b =
      rw ((==_iff (doc y) (doc x)).1 (sym e))
        (ap (◌∷◌ (meet x y)) (join-cons_right (doc x) y xs ys b (omega arith)))

pub find-first : (m : Match) (ms : List Match) → find (doc m) (m ∷ ms) ≡ some m
find-first m ms = ground arith

pub find-doc : (d : ℕ) (ms : List Match) (m : Match) → find d ms ≡ some m → doc m ≡ d
find-doc d [] m h = absurd (cc)
find-doc d (x ∷ xs) m h = elim (Bool-cases (doc x == d)) [
  | inl here ↦ let it : x ≡ m = ground (arith, here) in ap doc (sym it) ∙ (==_iff (doc x) d).0 here
  | inr elsewhere ↦ find-doc d xs m (ground (arith, elsewhere))
]

abbrev or_else : Match → Option Match → Match
or_else x none = x
or_else x (some y) = y

pub some_inj : (x y : Match) → Option.some x ≡ some y → x ≡ y
some_inj x y h = ap (or_else x) h
