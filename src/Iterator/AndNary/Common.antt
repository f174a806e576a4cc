-- ===== src/Iterator/AndNary/Common.antt =====
-- The n-ary AND of icing/index/iterator/doc-hit-info-iterator-and.cc enumerates the documents that
-- all of its iterators have.
use external_icing.Base.{
  ℕ, suc, ◌≤◌, ◌<◌, ◌≡◌, refl, sym, ap, ◌∙◌, subst, ◌⊎◌, inl, inr, false, List, [], ◌∷◌, Option,
  none, some, arith, ltb, ◌==◌, Bool-cases, trichotomy, below, same, above, ==_iff,
}
use external_icing.Hit.{invalid_document_id}
use external_icing.Iterator.{
  Match, doc, no_match, Below, Status, ok, resource_exhausted, invalid_argument, out_of_fuel,
  Operations, Enumerates, Moves, loop_fuel,
}
use external_icing.Iterator.Matches.{find, find-Below, find-first, find-doc, some_inj}
use external_icing.Iterator.Row.{Row, in_row}
use external_icing.Iterator.Row.Columns.{Columns, finds, RowLaw, InRowYields}
use external_icing.Iterator.Row.Approach.{at-above}
use external_icing.Iterator.AndNary.{
  AndNary, merge_all, merged, and_nary_loop, settle_nary, and_nary_first, and_nary_advance,
  and_nary_operations, make_and_nary,
}
use external_icing.Iterator.AndNary.Meet.{
  meet_all, common, meet_all-none, common-lacks, meet_all-merge_all, doc-merge_all, head_is,
}
use external_icing.Iterator.AndNary.Loop.{Stands, Loops, loop_lem}

module _ {S R : Type 0} (it : Operations S) (tail : Row R) (Yields : S → List Match → Type 0)
    (TailYields : R → Columns → Type 0) (law : Enumerates S it Yields)
    (tail_law : RowLaw tail TailYields) where
  abbrev row : Row (S × R)
  row = in_row it tail

  abbrev RowYields : S × R → Columns → Type 0
  RowYields = InRowYields it tail Yields TailYields

  -- What is before the AND: the documents that all columns have. Its own members are those of the first
  -- iterator, or nothing is left.
  pub record AndNaryYields (a : AndNary (S × R)) (ms : List Match) : Type 0 where
    pub columns : Columns
    pub yields : RowYields a.iterators columns
    pub agrees : (d : ℕ) → d < doc a.base → find d ms ≡ common (finds d columns)
    pub standing :
        (doc a.base ≡ doc (it.current ((a.iterators).0)))
        ⊎ ((ms ≡ []) × (doc a.base ≡ invalid_document_id))
    pub falls : Below (doc a.base) ms
    pub bound : doc a.base ≤ invalid_document_id

  abbrev NaryMoves : List Match → Status × AndNary (S × R) → Type 0
  NaryMoves = Moves (and_nary_operations row) AndNaryYields

  -- The end, whatever is left in the columns.
  at_end :
      (r : S × R) (c : Columns)
      → RowYields r c
      → ((d : ℕ) → d < invalid_document_id → common (finds d c) ≡ none)
      → NaryMoves [] (resource_exhausted, record { iterators = r; base = no_match })
  unfolding no_match
  at_end r c y none_left = (
    refl,
    refl,
    record {
      columns = c;
      yields = y;
      agrees = λ d h. sym (none_left d h);
      standing = inr (refl, refl);
      falls = tt;
      bound = omega arith;
    },
  )

  -- The loop from the first iterator's new match, by what all columns have.
  module _ (base : Match) (p : ℕ) (c : Columns) (small : p < doc base)
      (bounded : doc base ≤ invalid_document_id)
      (above_p : (d : ℕ) → p < d → common (finds d c) ≡ none) where
    abbrev Agree : List Match → Type 0
    Agree ms = (d : ℕ) → d < doc base → find d ms ≡ common (finds d c)

    within_p : (d : ℕ) (m : Match) → common (finds d c) ≡ some m → d ≤ p
    within_p d m h = elim (trichotomy p d) [
      | below e ↦ absurd (ground (arith, above_p d e, h))
      | same e ↦ omega (arith, e)
      | above e ↦ omega (arith, e)
    ]

    -- What stands at a document is the meet of all columns there, and has that document.
    first_column :
        (r : S × R) (t : Stands it tail Yields TailYields law tail_law p c r)
        → let m = merged base (row.currents r) in
          (common (finds (t.at) c) ≡ some m) × (doc m ≡ t.at) × (doc m ≡ doc (it.current (r.0)))
    unfolding in_row
    first_column r t =
        let m = it.current (r.0) in
        let ms = tail.currents (r.1) in
        let here : common (finds (t.at) c) ≡ some (merge_all m ms) =
          ap common (sym (t.kept (t.at) (omega arith)) ∙ t.all_there) ∙ meet_all-merge_all m ms in
        let first : find (t.at) (m ∷ (t.yields).before) ≡ some m =
          head_is (ap (finds (t.at)) (sym (t.yields).split) ∙ t.all_there) in
        let at_first : doc m ≡ t.at = find-doc (t.at) (m ∷ (t.yields).before) m first in
        (here, doc-merge_all m ms ∙ at_first, doc-merge_all m ms)

    settles :
        (ms : List Match)
        → Below (doc base) ms
        → Agree ms
        → (t : Status × (S × R)) → Loops it tail Yields TailYields law tail_law p c t
        → NaryMoves ms (settle_nary row base t)
    unfolding in_row
    settles [] b agree (ok, r) t =
        let here = (first_column r t).0 in
        absurd (ground (arith, here, agree (t.at) (omega (arith, t.low, small))))
    settles (m ∷ ms) b agree (ok, r) t =
        let (here, own, first) = first_column r t in
        let k = merged base (row.currents r) in
        let here' : find (t.at) (m ∷ ms) ≡ some k =
          agree (t.at) (omega (arith, t.low, small)) ∙ here in
        let there : common (finds (doc m) c) ≡ some m = sym (agree (doc m) b.0) ∙ find-first m ms in
        let same_doc : doc m ≡ t.at = elim (trichotomy (doc m) (t.at)) [
          | same e ↦ e
          | below e ↦
              absurd (ground (arith, here', e, find-Below (doc m) (t.at) ms b.1 (omega (arith, e))))
          | above e ↦ absurd (
              ground (
                arith,
                common-lacks (finds (doc m) c) (t.lacking (doc m) e (within_p (doc m) m there)),
                there,
              ))
        ] in
        let is : k ≡ m =
          some_inj k m
            (sym here' ∙ ap (λ (d : ℕ). find d (m ∷ ms)) (sym same_doc) ∙ find-first m ms) in
        (
          refl,
          is,
          record {
            columns = t.after;
            yields = t.yields;
            agrees = λ d h.
                let low : d < t.at = omega (arith, h, own) in
                let skip : find d (m ∷ ms) ≡ find d ms = ground (arith, low, same_doc) in
                sym skip
                ∙ agree d (omega (arith, low, t.low, small))
                ∙ ap common (sym (t.kept d (omega (arith, low))));
            standing = inl first;
            falls = subst (λ (d : ℕ). Below d ms) (same_doc ∙ sym own) b.1;
            bound = omega (arith, own, t.low, small, bounded);
          },
        )
    settles [] b agree (resource_exhausted, r) t =
        at_end r (t.1).after (t.1).yields
          (λ d h. common-lacks (finds d (t.1).after) ((t.1).lacks_after d h))
    settles (m ∷ ms) b agree (resource_exhausted, r) t =
        let there : common (finds (doc m) c) ≡ some m = sym (agree (doc m) b.0) ∙ find-first m ms in
        absurd (
          ground (
            arith,
            common-lacks (finds (doc m) c) ((t.1).lacking (doc m) (within_p (doc m) m there)),
            there,
          ))
    settles ms b agree (invalid_argument, r) t = absurd (ground (arith, t.0))
    settles ms b agree (out_of_fuel, r) t = absurd (ground (arith, t.0))

  module _ (several : 0 < tail.size) where
    -- The first iterator moves: what all columns have below the AND's own document stays.
    first_moves :
        (s : S) (x : Match) (xs : List Match) (c : Columns) (base d : ℕ) (ms : List Match)
        → Below (doc (it.current s)) (x ∷ xs)
        → (base ≡ doc (it.current s)) ⊎ ((ms ≡ []) × (base ≡ invalid_document_id))
        → d < base
        → find d ms ≡ meet_all (find d (it.current s ∷ x ∷ xs)) (finds d c)
        → find d ms ≡ meet_all (find d (x ∷ xs)) (finds d c)
    first_moves s x xs c base d ms b standing h agree =
        elim (Bool-cases (doc (it.current s) == d)) [
          | inr elsewhere ↦
              let skip : find d (it.current s ∷ x ∷ xs) ≡ find d (x ∷ xs) =
                ground (arith, elsewhere) in
              agree ∙ ap (λ (o : Option Match). meet_all o (finds d c)) skip
          | inl here ↦
              let at : doc (it.current s) ≡ d = (==_iff (doc (it.current s)) d).0 here in
              elim standing [
                | inl e ↦ absurd (omega (arith, e, at, h))
                | inr e ↦
                    let gone : find d (x ∷ xs) ≡ none =
                      find-Below (doc (it.current s)) d (x ∷ xs) b (omega (arith, at)) in
                    ap (find d) e.0
                    ∙ sym (
                        ap (λ (o : Option Match). meet_all o (finds d c)) gone
                        ∙ meet_all-none (finds d c))
              ]
        ]

    abbrev Standing : S → Match → List Match → Type 0
    Standing s base ms =
        (doc base ≡ doc (it.current s)) ⊎ ((ms ≡ []) × (doc base ≡ invalid_document_id))

    abbrev Agrees : S → List Match → Columns → Match → List Match → Type 0
    Agrees s xs c base ms =
        (d : ℕ) → d < doc base → find d ms ≡ meet_all (find d (it.current s ∷ xs)) (finds d c)

    -- The first iterator has ended.
    first_ends :
        (s : S) (r : R) (base : Match) (c : Columns) (ms : List Match)
        → TailYields r c
        → Agrees s [] c base ms
        → Standing s base ms
        → Below (doc base) ms
        → (t : Status × S) → Moves it Yields [] t
        → NaryMoves ms (and_nary_first row base (t.0, (t.1, r)))
    first_ends s r base c [] z agree standing b (resource_exhausted, s') t =
        at_end (s', r) ((it.current s' ∷ []) ∷ c)
          (record { before = []; columns = c; yields = t.2; row_yields = z; split = refl })
          (λ d h.
            let gone : find d (it.current s' ∷ []) ≡ none = ground (arith, t.1, h) in
            ap (λ (o : Option Match). meet_all o (finds d c)) gone ∙ meet_all-none (finds d c))
    first_ends s r base c (m ∷ ms) z agree standing b (resource_exhausted, s') t = elim standing [
      | inr e ↦ absurd (ground (arith, e.0))
      | inl e ↦
          let gone : find (doc m) (it.current s ∷ []) ≡ none = ground (arith, e, b.0) in
          let nothing : find (doc m) (m ∷ ms) ≡ none =
            agree (doc m) b.0
            ∙ ap (λ (o : Option Match). meet_all o (finds (doc m) c)) gone
            ∙ meet_all-none (finds (doc m) c) in
          absurd (ground (arith, nothing, find-first m ms))
    ]
    first_ends s r base c ms z agree standing b (ok, s') t = absurd (ground (arith, t.0))
    first_ends s r base c ms z agree standing b (invalid_argument, s') t =
        absurd (ground (arith, t.0))
    first_ends s r base c ms z agree standing b (out_of_fuel, s') t = absurd (ground (arith, t.0))

    -- The first iterator has a new match.
    first_goes :
        (s : S) (r : R) (base x : Match) (xs : List Match) (c : Columns) (ms : List Match)
        → Yields s (x ∷ xs)
        → TailYields r c
        → Agrees s (x ∷ xs) c base ms
        → Standing s base ms
        → Below (doc base) ms
        → doc base ≤ invalid_document_id
        → (t : Status × S) → Moves it Yields (x ∷ xs) t
        → NaryMoves ms (and_nary_first row base (t.0, (t.1, r)))
    unfolding in_row loop_fuel
    first_goes s r base x xs c ms y z agree standing b bound (ok, s') t =
        let falls = law.falling s (x ∷ xs) y in
        let limit = law.bounded s (x ∷ xs) y in
        let same_doc : doc (it.current s') ≡ doc x = ap doc t.1 in
        let small : doc (it.current s') < doc base = elim standing [
          | inl e ↦ omega (arith, e, same_doc, falls.0)
          | inr e ↦ omega (arith, e.1, same_doc, falls.0, limit)
        ] in
        settles base (doc (it.current s')) ((it.current s' ∷ xs) ∷ c) small bound
          (λ d h.
            ap (λ (o : Option Match). meet_all o (finds d c)) (at-above it Yields law s' xs d t.2 h)
            ∙ meet_all-none (finds d c))
          ms b
          (λ d h.
            first_moves s x xs c (doc base) d ms falls standing h (agree d h)
            ∙ ap (λ (k : Match). meet_all (find d (k ∷ xs)) (finds d c)) (sym t.1))
          (and_nary_loop row loop_fuel false (doc (it.current s')) (s', r))
          (loop_lem it tail Yields TailYields law tail_law loop_fuel (doc (it.current s')) (s', r)
            ((it.current s' ∷ xs) ∷ c)
            (record { before = xs; columns = c; yields = t.2; row_yields = z; split = refl })
            (omega (arith, same_doc, falls.0, limit)))
    first_goes s r base x xs c ms y z agree standing b bound (resource_exhausted, s') t =
        absurd (ground (arith, t.0))
    first_goes s r base x xs c ms y z agree standing b bound (invalid_argument, s') t =
        absurd (ground (arith, t.0))
    first_goes s r base x xs c ms y z agree standing b bound (out_of_fuel, s') t =
        absurd (ground (arith, t.0))

    step :
        (s : S) (r : R) (base : Match) (xs : List Match) (c : Columns) (ms : List Match)
        → Yields s xs
        → TailYields r c
        → Agrees s xs c base ms
        → Standing s base ms
        → Below (doc base) ms
        → doc base ≤ invalid_document_id
        → NaryMoves ms (and_nary_first row base ((it.advance s).0, ((it.advance s).1, r)))
    step s r base [] c ms y z agree standing b bound =
        first_ends s r base c ms z agree standing b (it.advance s) (law.step s [] y)
    step s r base (x ∷ xs) c ms y z agree standing b bound =
        first_goes s r base x xs c ms y z agree standing b bound (it.advance s)
          (law.step s (x ∷ xs) y)

    -- The n-ary AND of two or more iterators that keep the contract keeps it too.
    pub and_nary_operations-Enumerates :
        Enumerates (AndNary (S × R)) (and_nary_operations row) AndNaryYields
    unfolding and_nary_advance in_row
    and_nary_operations-Enumerates = record {
      falling = λ a ms v. v.falls;
      bounded = λ a ms v. v.bound;
      step = λ a ms v.
          let enough : ltb (suc tail.size) 2 ≡ false = ground (arith, several) in
          let y = v.yields in
          rw enough (
            step ((a.iterators).0) ((a.iterators).1) a.base y.before y.columns ms y.yields
              y.row_yields (λ d h. v.agrees d h ∙ ap (λ (k : Columns). common (finds d k)) y.split)
              v.standing v.falls v.bound);
    }

  -- A new AND of new iterators has what all of them have.
  pub make_and_nary-AndNaryYields :
      (r : S × R) (c : Columns) (ms : List Match)
      → RowYields r c
      → doc (it.current (r.0)) ≡ invalid_document_id
      → Below invalid_document_id ms
      → ((d : ℕ) → d < invalid_document_id → find d ms ≡ common (finds d c))
      → AndNaryYields (make_and_nary row r) ms
  unfolding make_and_nary no_match
  make_and_nary-AndNaryYields r c ms y fresh b agree = record {
    columns = c;
    yields = y;
    agrees = agree;
    standing = inl (sym fresh);
    falls = b;
    bound = omega arith;
  }
