-- ===== src/Iterator/AndNary/Meet.antt =====
-- The merged match of all columns, as the loop behind the search of the n-ary AND of
-- icing/index/iterator/doc-hit-info-iterator-and.cc makes it.
use external_icing.Base.{◌≡◌, refl, ap, ◌∙◌, true, List, [], ◌∷◌, Option, none, some, map}
use external_icing.Iterator.{Match, doc}
use external_icing.Iterator.Matches.{meet, meet-doc, meet_options}
use external_icing.Iterator.Row.Columns.{lacks}
use external_icing.Iterator.AndNary.{merge_all}

-- The meet of the matches of all columns, if each has one.
abbrev pub meet_all : Option Match → List (Option Match) → Option Match
meet_all o [] = o
meet_all o (o' ∷ os) = meet_all (meet_options o o') os

abbrev pub common : List (Option Match) → Option Match
common [] = none
common (o ∷ os) = meet_all o os

pub meet_all-none : (os : List (Option Match)) → meet_all none os ≡ none
meet_all-none [] = refl
meet_all-none (o ∷ os) = meet_all-none os

pub meet_all-lacks :
    (o : Option Match) (os : List (Option Match)) → lacks os ≡ true → meet_all o os ≡ none
meet_all-lacks o [] h = absurd (cc)
meet_all-lacks none (none ∷ os) h = meet_all-none os
meet_all-lacks (some m) (none ∷ os) h = meet_all-none os
meet_all-lacks o (some m ∷ os) h = meet_all-lacks (meet_options o (some m)) os h

pub common-lacks : (os : List (Option Match)) → lacks os ≡ true → common os ≡ none
common-lacks [] h = refl
common-lacks (none ∷ os) h = meet_all-none os
common-lacks (some m ∷ os) h = meet_all-lacks (some m) os h

pub meet_all-merge_all :
    (m : Match) (ms : List Match) → meet_all (some m) (map some ms) ≡ some (merge_all m ms)
meet_all-merge_all m [] = refl
meet_all-merge_all m (x ∷ xs) = meet_all-merge_all (meet m x) xs

pub doc-merge_all : (m : Match) (ms : List Match) → doc (merge_all m ms) ≡ doc m
doc-merge_all m [] = refl
doc-merge_all m (x ∷ xs) = doc-merge_all (meet m x) xs ∙ meet-doc m x

abbrev first_of : Option Match → List (Option Match) → Option Match
first_of o [] = o
first_of o (o' ∷ os) = o'

pub head_is : {x y : Option Match} {xs ys : List (Option Match)} → x ∷ xs ≡ y ∷ ys → x ≡ y
head_is {x} {y} {xs} {ys} h = ap (λ (os : List (Option Match)). first_of x os) h
