-- ===== src/Iterator/Or/Union.antt =====
-- The OR of two iterators enumerates the union of their matches.
use external_icing.Base.{
  ℕ, ◌≤◌, ◌<◌, ◌≡◌, refl, sym, ap, ap₂, subst, Bool, true, false, List, [], ◌∷◌, Option, some,
  arith, trichotomy, below, same, above,
}
use external_icing.Hit.{invalid_document_id}
use external_icing.Iterator.{
  Match, doc, no_match, Below, Status, ok, resource_exhausted, Operations, Enumerates, Moves,
}
use external_icing.Iterator.Matches.{meet, meet-doc, Below-mono}
use external_icing.Iterator.Or.{
  Or, Side, left_side, right_side, advance_side, goes, choose, or_advance, or_operations, make_or,
}
use external_icing.Iterator.Or.Lists.{union, union-nil, union-Below}

module _ {S T : Type 0} (left_it : Operations S) (right_it : Operations T)
    (LeftYields : S → List Match → Type 0) (RightYields : T → List Match → Type 0) where
  -- The list that an operand contributes to the next call, if it is not advanced by it: the match
  -- that it stands at, and what is before it; or nothing at its end.
  abbrev Holds :
      {U : Type 0} → Operations U → (U → List Match → Type 0) → U → ℕ → List Match → Type 0
  Holds it Yields s d [] = (d ≡ invalid_document_id) × Yields s []
  Holds it Yields s d (m ∷ ms) =
      (d ≡ doc m) × (d < invalid_document_id) × (it.current s ≡ m) × Yields s ms × Below d ms

  abbrev Ready :
      {U : Type 0} → Operations U → (U → List Match → Type 0) → Bool → U → ℕ → List Match → Type 0
  Ready it Yields true s d ms = Yields s ms
  Ready it Yields false s d ms = Holds it Yields s d ms

  -- What is before the OR, by what its operands contribute.
  pub record OrYields (o : Or S T) (ms : List Match) : Type 0 where
    pub xs : List Match
    pub ys : List Match
    pub joined : ms ≡ union xs ys
    pub left_ready :
        Ready left_it LeftYields
          (goes o.left_document_id o.right_document_id)
          o.left
          o.left_document_id
          xs
    pub right_ready :
        Ready right_it RightYields
          (goes o.right_document_id o.left_document_id)
          o.right
          o.right_document_id
          ys
    pub falls : Below (doc o.base) ms
    pub bound : doc o.base ≤ invalid_document_id

  abbrev Chooses : List Match → Status × Or S T → Type 0
  Chooses = Moves (or_operations left_it right_it) OrYields

  by_equations :
      (ms ms' : List Match) (r r' : Status × Or S T)
      → ms ≡ ms'
      → r ≡ r'
      → Chooses ms' r'
      → Chooses ms r
  by_equations ms ms' r r' e k h = rw (e, k) h

  ready :
      {U : Type 0} (it : Operations U) (Yields : U → List Match → Type 0) (g b : Bool) (u : U)
      (d : ℕ) (ms : List Match)
      → g ≡ b
      → Ready it Yields b u d ms
      → Ready it Yields g u d ms
  ready it Yields g b u d ms e h = rw e h

  abbrev after : Option Side → S → ℕ → T → ℕ → Match → Or S T
  after side s l t r base = record {
    left = s;
    right = t;
    current = side;
    left_document_id = l;
    right_document_id = r;
    base = base;
  }

  ended :
      (side : Option Side) (s : S) (l : ℕ) (t : T) (r : ℕ)
      → Holds left_it LeftYields s l []
      → Holds right_it RightYields t r []
      → Chooses [] (resource_exhausted, after side s l t r no_match)
  unfolding no_match union
  ended side s l t r p q = (
    refl,
    refl,
    record {
      xs = [];
      ys = [];
      joined = refl;
      left_ready = ready left_it LeftYields (goes l r) false s l [] (ground (arith, p.0)) p;
      right_ready = ready right_it RightYields (goes r l) false t r [] (ground (arith, q.0)) q;
      falls = tt;
      bound = omega arith;
    },
  )

  -- One operand's match is the next result.
  gives :
      (side : Side) (s : S) (l : ℕ) (t : T) (r : ℕ) (base m : Match) (xs ys : List Match)
      → base ≡ m
      → doc m < invalid_document_id
      → Ready left_it LeftYields (goes l r) s l xs
      → Ready right_it RightYields (goes r l) t r ys
      → Below (doc m) xs
      → Below (doc m) ys
      → Chooses (m ∷ union xs ys) (ok, after (some side) s l t r base)
  gives side s l t r base m xs ys e fits p q b c = (
    refl,
    e,
    record {
      xs = xs;
      ys = ys;
      joined = refl;
      left_ready = p;
      right_ready = q;
      falls = rw e (union-Below (doc m) xs ys b c);
      bound = rw e (omega arith);
    },
  )

  -- The chosen operand is the first of the union.
  choose_lem :
      (before : Option Side) (s : S) (l : ℕ) (t : T) (r : ℕ) (xs ys : List Match)
      → Holds left_it LeftYields s l xs
      → Holds right_it RightYields t r ys
      → Chooses (union xs ys) (choose left_it right_it before (s, l) (t, r))
  unfolding choose union
  choose_lem before s l t r [] [] p q =
      by_equations [] [] _ (resource_exhausted, after before s l t r no_match) refl
        (ground (arith, p.0, q.0)) (ended before s l t r p q)
  choose_lem before s l t r (x ∷ xs) [] p q =
      by_equations (x ∷ xs) (x ∷ union xs []) _
        (ok, after (some left_side) s l t r (left_it.current s)) (ap (◌∷◌ x) (sym (union-nil xs)))
        (ground (arith, p.1, q.0))
        (gives left_side s l t r (left_it.current s) x xs [] p.2 (omega arith)
          (ready left_it LeftYields (goes l r) true s l xs (ground (arith, p.1, q.0)) p.3)
          (ready right_it RightYields (goes r l) false t r [] (ground (arith, q.0)) q)
          (rw (← p.0) p.4) tt)
  choose_lem before s l t r [] (y ∷ ys) p q =
      by_equations (y ∷ ys) (y ∷ union [] ys) _
        (ok, after (some right_side) s l t r (right_it.current t)) refl (ground (arith, p.0, q.1))
        (gives right_side s l t r (right_it.current t) y [] ys q.2 (omega arith)
          (ready left_it LeftYields (goes l r) false s l [] (ground (arith, p.0)) p)
          (ready right_it RightYields (goes r l) true t r ys (ground (arith, p.0, q.1)) q.3) tt
          (rw (← q.0) q.4))
  choose_lem before s l t r (x ∷ xs) (y ∷ ys) p q = elim (trichotomy l r) [
    | below c ↦
        by_equations _ (y ∷ union (x ∷ xs) ys) _
          (ok, after (some right_side) s l t r (right_it.current t)) (ground (arith, p.0, q.0, c))
          (ground (arith, p.1, q.1, c))
          (gives right_side s l t r (right_it.current t) y (x ∷ xs) ys q.2 (omega arith)
            (ready left_it LeftYields (goes l r) false s l (x ∷ xs) (ground (arith, q.1, c)) p)
            (ready right_it RightYields (goes r l) true t r ys (ground (arith, q.1, c)) q.3)
            (omega arith, rw (← p.0) p.4) (rw (← q.0) q.4))
    | same c ↦
        by_equations _ (meet x y ∷ union xs ys) _
          (ok, after (some left_side) s l t r (meet (left_it.current s) (right_it.current t)))
          (ground (arith, p.0, q.0, c)) (ground (arith, p.1, q.1, c))
          (gives left_side s l t r (meet (left_it.current s) (right_it.current t)) (meet x y) xs ys
            (ap₂ meet p.2 q.2) (rw (meet-doc x y) (omega arith))
            (ready left_it LeftYields (goes l r) true s l xs (ground (arith, p.1, c)) p.3)
            (ready right_it RightYields (goes r l) true t r ys (ground (arith, q.1, c)) q.3)
            (rw (meet-doc x y, ← p.0) p.4) (rw (meet-doc x y, ← p.0, c) q.4))
    | above c ↦
        by_equations _ (x ∷ union xs (y ∷ ys)) _
          (ok, after (some left_side) s l t r (left_it.current s)) (ground (arith, p.0, q.0, c))
          (ground (arith, p.1, q.1, c))
          (gives left_side s l t r (left_it.current s) x xs (y ∷ ys) p.2 (omega arith)
            (ready left_it LeftYields (goes l r) true s l xs (ground (arith, p.1, c)) p.3)
            (ready right_it RightYields (goes r l) false t r (y ∷ ys) (ground (arith, p.1, c)) q)
            (rw (← p.0) p.4) (omega arith, rw (← q.0) q.4))
  ]

  module _ (left_law : Enumerates S left_it LeftYields)
      (right_law : Enumerates T right_it RightYields) where
    -- After the first half of Advance both operands stand at what they contribute.
    advance_side_lem :
        {U : Type 0} (it : Operations U) (Yields : U → List Match → Type 0)
        (law : Enumerates U it Yields) (go : Bool) (u : U) (d : ℕ) (ms : List Match)
        → Ready it Yields go u d ms
        → let moved = advance_side it go u d in Holds it Yields moved.0 moved.1 ms
    unfolding advance_side
    advance_side_lem it Yields law false u d ms h = h
    advance_side_lem it Yields law true u d [] h =
        let moves = law.step u [] h in rw moves.0 (refl, moves.2)
    advance_side_lem it Yields law true u d (m ∷ ms) h =
        let moves = law.step u (m ∷ ms) h in
        let falls = law.falling u (m ∷ ms) h in
        let bound = law.bounded u (m ∷ ms) h in
        let at : doc (it.current (it.advance u).1) ≡ doc m = ap doc moves.1 in
        rw moves.0 (at, omega arith, moves.1, moves.2, rw at falls.1)

    -- The OR of two iterators that keep the contract keeps it too: `Advance` walks the union of
    -- what the operands have before them.
    pub or_operations-Enumerates : Enumerates (Or S T) (or_operations left_it right_it) OrYields
    unfolding or_advance
    or_operations-Enumerates = record {
      falling = λ o ms v. v.falls;
      bounded = λ o ms v. v.bound;
      step = λ o ms v.
          let go_left = goes o.left_document_id o.right_document_id in
          let go_right = goes o.right_document_id o.left_document_id in
          let l = advance_side left_it go_left o.left o.left_document_id in
          let r = advance_side right_it go_right o.right o.right_document_id in
          subst (λ zs. Chooses zs (or_advance left_it right_it o)) (sym v.joined)
            (choose_lem o.current l.0 l.1 r.0 r.1 v.xs v.ys
              (advance_side_lem left_it LeftYields left_law go_left o.left o.left_document_id v.xs
                v.left_ready)
              (advance_side_lem right_it RightYields right_law go_right o.right o.right_document_id
                v.ys v.right_ready));
    }

    -- A new OR has the union before it.
    pub make_or-OrYields :
        (s : S) (t : T) (xs ys : List Match)
        → LeftYields s xs
        → RightYields t ys
        → OrYields (make_or left_it right_it s t) (union xs ys)
    unfolding make_or no_match
    make_or-OrYields s t xs ys p q = record {
      xs = xs;
      ys = ys;
      joined = refl;
      left_ready = p;
      right_ready = q;
      falls =
          union-Below invalid_document_id xs ys
            (Below-mono (doc (left_it.current s)) invalid_document_id xs (left_law.bounded s xs p)
              (left_law.falling s xs p))
            (Below-mono (doc (right_it.current t)) invalid_document_id ys (right_law.bounded t ys q)
              (right_law.falling t ys q));
      bound = omega arith;
    }
