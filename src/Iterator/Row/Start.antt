-- ===== src/Iterator/Row/Start.antt =====
-- Rows of new iterators, and what all or any of them have, as lists.
use external_icing.Base.{ℕ, ◌<◌, ◌≡◌, refl, ap, ap₂, ◌∙◌, List, [], ◌∷◌, Option, arith}
use external_icing.Hit.{invalid_document_id}
use external_icing.Iterator.{Match, doc, Below, Operations}
use external_icing.Iterator.Matches.{find, join, find-join, join-Below}
use external_icing.Iterator.Or.Lists.{union, find-union, union-Below}
use external_icing.Iterator.Row.{Row}
use external_icing.Iterator.Row.Columns.{Columns, finds, NoYields, InRowYields, behind}
use external_icing.Iterator.AndNary.Meet.{meet_all}
use external_icing.Iterator.OrNary.Collect.{join_all}

abbrev pub AllBelow : ℕ → Columns → Type 0
AllBelow n [] = Unit {0}
AllBelow n (xs ∷ c) = Below n xs × AllBelow n c

-- A row of new iterators, which have these lists before them.
pub record RowStart {R : Type 0} (RowYields : R → Columns → Type 0) (r : R) (lists : Columns)
    : Type 0 where
  pub columns : Columns
  pub yields : RowYields r columns
  pub same : (d : ℕ) → d < invalid_document_id → finds d columns ≡ finds d lists

pub no_row-RowStart : RowStart NoYields tt []
no_row-RowStart = record { columns = []; yields = refl; same = λ d h. refl }

pub in_row-RowStart :
    {S R : Type 0} (it : Operations S) (row : Row R) (Yields : S → List Match → Type 0)
    (RowYields : R → Columns → Type 0) (s : S) (r : R) (xs : List Match) (lists : Columns)
    → Yields s xs
    → doc (it.current s) ≡ invalid_document_id
    → RowStart RowYields r lists
    → RowStart (InRowYields it row Yields RowYields) (s, r) (xs ∷ lists)
in_row-RowStart it row Yields RowYields s r xs lists y fresh start = record {
  columns = (it.current s ∷ xs) ∷ start.columns;
  yields = behind it row Yields RowYields s xs r start.columns y start.yields;
  same = λ d h. ap₂ (◌∷◌) (ground (arith, fresh, h)) (start.same d h);
}

-- The documents that all lists have.
abbrev pub joins : List Match → Columns → List Match
joins ms [] = ms
joins ms (xs ∷ c) = joins (join ms xs) c

pub joins-Below : (n : ℕ) (ms : List Match) (c : Columns) → Below n ms → Below n (joins ms c)
joins-Below n ms [] b = b
joins-Below n ms (xs ∷ c) b = joins-Below n (join ms xs) c (join-Below n ms xs b)

pub find-joins :
    (d n : ℕ) (ms : List Match) (c : Columns)
    → Below n ms
    → find d (joins ms c) ≡ meet_all (find d ms) (finds d c)
find-joins d n ms [] b = refl
find-joins d n ms (xs ∷ c) b =
    find-joins d n (join ms xs) c (join-Below n ms xs b)
    ∙ ap (λ (o : Option Match). meet_all o (finds d c)) (find-join d n ms xs b)

-- The documents that any list has.
abbrev pub unions : List Match → Columns → List Match
unions ms [] = ms
unions ms (xs ∷ c) = unions (union ms xs) c

pub unions-Below :
    (n : ℕ) (ms : List Match) (c : Columns) → Below n ms → AllBelow n c → Below n (unions ms c)
unions-Below n ms [] b a = b
unions-Below n ms (xs ∷ c) b a = unions-Below n (union ms xs) c (union-Below n ms xs b a.0) a.1

pub find-unions :
    (d n : ℕ) (ms : List Match) (c : Columns)
    → Below n ms
    → AllBelow n c
    → find d (unions ms c) ≡ join_all (find d ms) (finds d c)
find-unions d n ms [] b a = refl
find-unions d n ms (xs ∷ c) b a =
    find-unions d n (union ms xs) c (union-Below n ms xs b a.0) a.1
    ∙ ap (λ (o : Option Match). join_all o (finds d c)) (find-union d n ms xs b a.0)
