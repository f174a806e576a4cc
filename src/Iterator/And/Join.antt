-- ===== src/Iterator/And/Join.antt =====
-- The AND of two iterators enumerates the join of their matches.
use external_icing.Base.{
  ℕ, zero, suc, ◌+◌, ◌≤◌, ◌<◌, ◌≡◌, refl, sym, ap, ◌∙◌, subst, List, [], ◌∷◌, arith, length, inl,
  inr, trichotomy, below, same, above, List-cases,
}
use external_icing.Hit.{invalid_document_id}
use external_icing.Iterator.{
  Match, doc, no_match, Below, Status, ok, resource_exhausted, Operations, Enumerates, Moves,
  advance_to, loop_fuel,
}
use external_icing.Iterator.Matches.{
  join-long_ahead, join-short_ahead, join_same, drop_above, join, meet, meet-doc, length-drop_above,
  join-drop_above_right, join-Below, Below-mono, join-nil,
}
use external_icing.Iterator.Advance.{advance_to_lem, length-lt-loop_fuel}
use external_icing.Iterator.And.{And, align, settle, and_advance, and_operations, make_and}

module _ {S T : Type 0} (short_it : Operations S) (long_it : Operations T)
    (ShortYields : S → List Match → Type 0) (LongYields : T → List Match → Type 0) where
  -- What is before the AND, by what is before its two operands.
  pub record AndYields (a : And S T) (ms : List Match) : Type 0 where
    pub xs : List Match
    pub ys : List Match
    pub short_yields : ShortYields a.short xs
    pub long_yields : LongYields a.long ys
    pub joined : ms ≡ join xs ys
    pub falls : Below (doc a.base) ms
    pub bound : doc a.base ≤ invalid_document_id

  abbrev Settles : List Match → Status × S × T → Type 0
  Settles ms r = Moves (and_operations short_it long_it) AndYields ms (settle short_it long_it r)

  by_equations :
      (ms ms' : List Match) (r r' : Status × S × T)
      → ms ≡ ms'
      → r ≡ r'
      → Settles ms' r'
      → Settles ms r
  by_equations ms ms' r r' e k h = rw (e, k) h

  -- When nothing is left to join, the AND is exhausted.
  exhausted :
      (s : S) (l : T) (xs ys : List Match)
      → ShortYields s xs
      → LongYields l ys
      → join xs ys ≡ []
      → Settles [] (resource_exhausted, s, l)
  unfolding settle no_match
  exhausted s l xs ys p q e = (
    refl,
    refl,
    record {
      xs = xs;
      ys = ys;
      short_yields = p;
      long_yields = q;
      joined = sym e;
      falls = tt;
      bound = omega arith;
    },
  )

  advances :
      (a : And S T) (ms ms' : List Match) (r : Status × S × T)
      → ms ≡ ms'
      → and_advance short_it long_it a ≡ settle short_it long_it r
      → Settles ms' r
      → Moves (and_operations short_it long_it) AndYields ms (and_advance short_it long_it a)
  advances a ms ms' r e k h = rw (e, k) h

  module _ (short_law : Enumerates S short_it ShortYields)
      (long_law : Enumerates T long_it LongYields) where
    -- The two iterators agree on a document.
    both :
        (s : S) (l : T) (xs ys : List Match)
        → ShortYields s xs
        → LongYields l ys
        → doc (short_it.current s) ≡ doc (long_it.current l)
        → Settles (meet (short_it.current s) (long_it.current l) ∷ join xs ys) (ok, s, l)
    unfolding settle
    both s l xs ys p q e =
        let same_doc = meet-doc (short_it.current s) (long_it.current l) in
        (
          refl,
          refl,
          record {
            xs = xs;
            ys = ys;
            short_yields = p;
            long_yields = q;
            joined = refl;
            falls =
                rw same_doc
                  (join-Below (doc (short_it.current s)) xs ys (short_law.falling s xs p));
            bound = rw same_doc (short_law.bounded s xs p);
          },
        )

    align_lem :
        (fuel : ℕ) (s : S) (l : T) (xs ys : List Match)
        → ShortYields s xs
        → LongYields l ys
        → length xs + length ys < fuel
        → Settles
            (join (short_it.current s ∷ xs) (long_it.current l ∷ ys))
            (align short_it long_it fuel s l)
    unfolding align settle
    align_lem zero s l xs ys p q h = absurd (omega arith)
    align_lem (suc fuel) s l xs ys p q h = elim (trichotomy (doc x) (doc y)) [
      | below c ↦
          let moved = advance_to long_it loop_fuel l (doc x) in
          let land =
            advance_to_lem long_it LongYields long_law loop_fuel (doc x) l ys q
              (length-lt-loop_fuel long_it LongYields long_law l ys q) in
          let rest = join-long_ahead x y xs ys c (short_law.falling s xs p) in
          elim (List-cases (drop_above (doc x) ys)) [
            | inl e ↦
                let at_end = subst (λ zs. Moves long_it LongYields zs moved) e land in
                by_equations _ [] _ (resource_exhausted, s, moved.1)
                  (rest ∙ ap (join (x ∷ xs)) e ∙ join-nil (x ∷ xs)) (ground (arith, at_end.0))
                  (exhausted s moved.1 xs [] p at_end.2 (join-nil xs))
            | inr (z, zs, e) ↦
                let at_z = subst (λ zs'. Moves long_it LongYields zs' moved) e land in
                by_equations _ (join (x ∷ xs) (long_it.current moved.1 ∷ zs)) _
                  (align short_it long_it fuel s moved.1)
                  (rest ∙ ap (join (x ∷ xs)) (e ∙ ap (λ w. w ∷ zs) (sym at_z.1)))
                  (ground (arith, at_z.0))
                  (align_lem fuel s moved.1 xs zs p at_z.2
                    (omega (arith, length-drop_above (doc x) ys, ap length e)))
          ]
      | same c ↦
          by_equations _ (meet x y ∷ join xs ys) _ (ok, s, l)
            (join_same x y xs ys c (short_law.falling s xs p)) (ground arith) (both s l xs ys p q c)
      | above c ↦
          let moved = advance_to short_it loop_fuel s (doc y) in
          let land =
            advance_to_lem short_it ShortYields short_law loop_fuel (doc y) s xs p
              (length-lt-loop_fuel short_it ShortYields short_law s xs p) in
          let rest = join-short_ahead x y xs ys c (long_law.falling l ys q) in
          elim (List-cases (drop_above (doc y) xs)) [
            | inl e ↦
                let at_end = subst (λ zs. Moves short_it ShortYields zs moved) e land in
                by_equations _ [] _ (resource_exhausted, moved.1, l)
                  (rest ∙ ap (λ zs. join zs (y ∷ ys)) e) (ground (arith, at_end.0))
                  (exhausted moved.1 l [] ys at_end.2 q refl)
            | inr (z, zs, e) ↦
                let at_z = subst (λ zs'. Moves short_it ShortYields zs' moved) e land in
                by_equations _ (join (short_it.current moved.1 ∷ zs) (y ∷ ys)) _
                  (align short_it long_it fuel moved.1 l)
                  (rest ∙ ap (λ zs'. join zs' (y ∷ ys)) (e ∙ ap (λ w. w ∷ zs) (sym at_z.1)))
                  (ground (arith, at_z.0))
                  (align_lem fuel moved.1 l zs ys at_z.2 q
                    (omega (arith, length-drop_above (doc y) xs, ap length e)))
          ]
    ]
      where
        x : Match
        x = short_it.current s

        y : Match
        y = long_it.current l

    advance_lists :
        (a : And S T) (xs ys : List Match)
        → ShortYields a.short xs
        → LongYields a.long ys
        → Moves
            (and_operations short_it long_it)
            AndYields
            (join xs ys)
            (and_advance short_it long_it a)
    unfolding and_advance
    advance_lists a [] ys p q =
        let end = short_law.step a.short [] p in
        subst (Moves (and_operations short_it long_it) AndYields []) (ground (arith, end.0))
          (exhausted (short_it.advance a.short).1 a.long [] ys end.2 q refl)
    advance_lists a (x ∷ xs) ys p q =
        let first = short_law.step a.short (x ∷ xs) p in
        let s = (short_it.advance a.short).1 in
        let target = doc (short_it.current s) in
        let moved = advance_to long_it loop_fuel a.long target in
        let land =
          advance_to_lem long_it LongYields long_law loop_fuel target a.long ys q
            (length-lt-loop_fuel long_it LongYields long_law a.long ys q) in
        let falls = short_law.falling s xs first.2 in
        let rest : join (x ∷ xs) ys ≡ join (short_it.current s ∷ xs) (drop_above target ys) =
          ap (λ m. join (m ∷ xs) ys) (sym first.1)
          ∙ sym (
              join-drop_above_right (suc target) target (short_it.current s ∷ xs) ys
                (omega arith, falls) (omega arith)) in
        elim (List-cases (drop_above target ys)) [
          | inl e ↦
              let at_end = subst (λ zs. Moves long_it LongYields zs moved) e land in
              advances a _ [] (resource_exhausted, s, moved.1)
                (rest ∙ ap (join (short_it.current s ∷ xs)) e ∙ join-nil (short_it.current s ∷ xs))
                (ground (arith, first.0, at_end.0))
                (exhausted s moved.1 xs [] first.2 at_end.2 (join-nil xs))
          | inr (z, zs, e) ↦
              let at_z = subst (λ zs'. Moves long_it LongYields zs' moved) e land in
              advances a _ (join (short_it.current s ∷ xs) (long_it.current moved.1 ∷ zs))
                (align short_it long_it (loop_fuel + loop_fuel) s moved.1)
                (rest ∙ ap (join (short_it.current s ∷ xs)) (e ∙ ap (λ w. w ∷ zs) (sym at_z.1)))
                (ground (arith, first.0, at_z.0))
                (align_lem (loop_fuel + loop_fuel) s moved.1 xs zs first.2 at_z.2 (
                  omega (
                    arith,
                    length-lt-loop_fuel short_it ShortYields short_law s xs first.2,
                    length-lt-loop_fuel long_it LongYields long_law moved.1 zs at_z.2,
                  )))
        ]

    -- The AND of two iterators that keep the contract keeps it too: `Advance` walks the join of
    -- what the operands have before them, and always ends.
    pub and_operations-Enumerates : Enumerates (And S T) (and_operations short_it long_it) AndYields
    and_operations-Enumerates = record {
      falling = λ a ms v. v.falls;
      bounded = λ a ms v. v.bound;
      step = λ a ms v.
          subst
            (λ zs.
              Moves (and_operations short_it long_it) AndYields zs (and_advance short_it long_it a))
            (sym v.joined) (advance_lists a v.xs v.ys v.short_yields v.long_yields);
    }

    -- A new AND has the join before it.
    pub make_and-AndYields :
        (s : S) (l : T) (xs ys : List Match)
        → ShortYields s xs
        → LongYields l ys
        → AndYields (make_and short_it long_it s l) (join xs ys)
    unfolding make_and no_match
    make_and-AndYields s l xs ys p q = record {
      xs = xs;
      ys = ys;
      short_yields = p;
      long_yields = q;
      joined = refl;
      falls = join-Below invalid_document_id xs ys (
          Below-mono (doc (short_it.current s)) invalid_document_id xs (short_law.bounded s xs p)
            (short_law.falling s xs p));
      bound = omega arith;
    }
