-- ===== src/Tests/Rows.antt =====
-- Rows of iterators at concrete inputs.
use external_icing.Base.{ℕ, zero, suc, ◌<◌, ◌≡◌, refl, List, [], ◌∷◌, map, take, arith}
use external_icing.Hit.{invalid_document_id}
use external_icing.DocHitInfo.{DocHitInfo, doc_hit_info}
use external_icing.Iterator.{doc, no_match, Below, loop_fuel, Match, Operations, Enumerates}
use external_icing.Iterator.Matches.{find}
use external_icing.Iterator.TermLite.{complete, TermLite, at_hit, make_term, term_operations}
use external_icing.Iterator.TermLite.Served.{
  TermYields, term_operations-Enumerates, make_term-TermYields,
}
use external_icing.Iterator.Row.{Row, no_row, in_row}
use external_icing.Iterator.Row.Columns.{
  Columns, finds, RowLaw, NoYields, no_row-RowLaw, InRowYields,
}
use external_icing.Iterator.Row.InRow.{in_row-RowLaw}
use external_icing.Iterator.Row.Start.{RowStart, no_row-RowStart, in_row-RowStart, joins, unions}
use external_icing.Iterator.AndNary.{and_nary_operations, make_and_nary}
use external_icing.Iterator.AndNary.Meet.{common}
use external_icing.Iterator.OrNary.{or_nary_operations, make_or_nary}
use external_icing.Iterator.OrNary.Collect.{any}
use external_icing.Iterator.NaryQueries.{score_all-and_nary, score_all-or_nary}
use external_icing.Scoring.{scored, score_all}

abbrev index_hits : ℕ → List DocHitInfo
index_hits zero = []
index_hits (suc zero) = doc_hit_info 7 1 ∷ doc_hit_info 5 2 ∷ doc_hit_info 2 4 ∷ []
index_hits (suc (suc zero)) = doc_hit_info 6 1 ∷ doc_hit_info 5 8 ∷ doc_hit_info 2 1 ∷ []
index_hits (suc (suc (suc zero))) = doc_hit_info 5 1 ∷ doc_hit_info 1 1 ∷ []
index_hits (suc (suc (suc (suc n)))) = doc_hit_info 1 2 ∷ []

abbrev pub index_matches : ℕ → List Match
index_matches k = map at_hit (index_hits k)

pub index_hits-Low : (k : ℕ) → Below (suc 9) (index_matches k)
unfolding doc_hit_info
index_hits-Low zero = tt
index_hits-Low (suc zero) = (omega arith, (omega arith, (omega arith, tt)))
index_hits-Low (suc (suc zero)) = (omega arith, (omega arith, (omega arith, tt)))
index_hits-Low (suc (suc (suc zero))) = (omega arith, (omega arith, tt))
index_hits-Low (suc (suc (suc (suc n)))) = (omega arith, tt)

index_hits-Below : (k : ℕ) → Below invalid_document_id (index_matches k)
unfolding doc_hit_info
index_hits-Below zero = tt
index_hits-Below (suc zero) = (omega arith, (omega arith, (omega arith, tt)))
index_hits-Below (suc (suc zero)) = (omega arith, (omega arith, (omega arith, tt)))
index_hits-Below (suc (suc (suc zero))) = (omega arith, (omega arith, tt))
index_hits-Below (suc (suc (suc (suc n)))) = (omega arith, tt)

abbrev pub index_operations : ℕ → Operations TermLite
index_operations k = term_operations (complete (index_hits k))

abbrev pub IndexYields : ℕ → TermLite → List Match → Type 0
IndexYields k = TermYields (complete (index_hits k))

pub index_operations-Enumerates : (k : ℕ) → Enumerates TermLite (index_operations k) (IndexYields k)
index_operations-Enumerates k = term_operations-Enumerates (complete (index_hits k))

pub make_term-IndexYields : (k : ℕ) → IndexYields k make_term (index_matches k)
make_term-IndexYields k = make_term-TermYields (index_hits k) (index_hits-Below k)

pub make_term-doc : doc (make_term.base) ≡ invalid_document_id
unfolding make_term no_match
make_term-doc = refl

abbrev pub age : DocHitInfo → ℕ
age info = info.document_id

-- A row of the terms 2 and 3, and one of the terms 1, 2 and 3.
abbrev pair_row : Row (TermLite × (TermLite × Unit {0}))
pair_row = in_row (index_operations 2) (in_row (index_operations 3) no_row)

abbrev triple_row : Row (TermLite × (TermLite × (TermLite × Unit {0})))
triple_row = in_row (index_operations 1) pair_row

abbrev PairYields : TermLite × (TermLite × Unit {0}) → Columns → Type 0
PairYields =
    InRowYields (index_operations 2) (in_row (index_operations 3) no_row) (IndexYields 2)
      (InRowYields (index_operations 3) no_row (IndexYields 3) NoYields)

abbrev TripleYields : TermLite × (TermLite × (TermLite × Unit {0})) → Columns → Type 0
TripleYields = InRowYields (index_operations 1) pair_row (IndexYields 1) PairYields

pair_row-RowLaw : RowLaw pair_row PairYields
pair_row-RowLaw =
    in_row-RowLaw (index_operations 2) (in_row (index_operations 3) no_row) (IndexYields 2)
      (InRowYields (index_operations 3) no_row (IndexYields 3) NoYields)
      (index_operations-Enumerates 2)
      (in_row-RowLaw (index_operations 3) no_row (IndexYields 3) NoYields
        (index_operations-Enumerates 3) no_row-RowLaw)

triple_row-RowLaw : RowLaw triple_row TripleYields
triple_row-RowLaw =
    in_row-RowLaw (index_operations 1) pair_row (IndexYields 1) PairYields
      (index_operations-Enumerates 1) pair_row-RowLaw

abbrev pub pair_lists : Columns
pair_lists = index_matches 2 ∷ index_matches 3 ∷ []

pair_row-RowStart : RowStart PairYields (make_term, (make_term, tt)) pair_lists
pair_row-RowStart =
    in_row-RowStart (index_operations 2) (in_row (index_operations 3) no_row) (IndexYields 2)
      (InRowYields (index_operations 3) no_row (IndexYields 3) NoYields) make_term (make_term, tt)
      (index_matches 2) (index_matches 3 ∷ []) (make_term-IndexYields 2) make_term-doc
      (in_row-RowStart (index_operations 3) no_row (IndexYields 3) NoYields make_term tt
        (index_matches 3) [] (make_term-IndexYields 3) make_term-doc no_row-RowStart)

triple_row-RowStart :
    RowStart TripleYields (make_term, (make_term, (make_term, tt))) (index_matches 1 ∷ pair_lists)
triple_row-RowStart =
    in_row-RowStart (index_operations 1) pair_row (IndexYields 1) PairYields make_term
      (make_term, (make_term, tt)) (index_matches 1) pair_lists (make_term-IndexYields 1)
      make_term-doc pair_row-RowStart

several_left : 0 < pair_row.size
unfolding in_row
several_left = omega arith

several : 1 < triple_row.size
unfolding in_row
several = omega arith

score_all-and_nary_example :
    (score_all age
        (and_nary_operations triple_row)
        loop_fuel
        10
        (make_and_nary triple_row (make_term, (make_term, (make_term, tt))))
      ≡ map (scored age) (take 10 (joins (index_matches 1) pair_lists)))
    × ((d : ℕ)
        → find d (joins (index_matches 1) pair_lists)
          ≡ common (finds d (index_matches 1 ∷ pair_lists)))
score_all-and_nary_example =
    score_all-and_nary age 10 (index_operations 1) pair_row (IndexYields 1) PairYields
      (index_operations-Enumerates 1) pair_row-RowLaw several_left make_term
      (make_term, (make_term, tt)) (index_matches 1) pair_lists make_term-doc (index_hits-Below 1)
      triple_row-RowStart

score_all-or_nary_example :
    (score_all age
        (or_nary_operations triple_row)
        loop_fuel
        10
        (make_or_nary triple_row (make_term, (make_term, (make_term, tt))))
      ≡ map (scored age) (take 10 (unions [] (index_matches 1 ∷ pair_lists))))
    × ((d : ℕ)
        → find d (unions [] (index_matches 1 ∷ pair_lists))
          ≡ any (finds d (index_matches 1 ∷ pair_lists)))
score_all-or_nary_example =
    score_all-or_nary age 10 triple_row TripleYields triple_row-RowLaw several
      (make_term, (make_term, (make_term, tt))) (index_matches 1 ∷ pair_lists) triple_row-RowStart
      (index_hits-Below 1, (index_hits-Below 2, (index_hits-Below 3, tt)))
