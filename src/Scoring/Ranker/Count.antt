-- ===== src/Scoring/Ranker/Count.antt =====
-- What the heap operations of icing/scoring/ranker.cc keep: every hit, counted by any test on hits.
use external_icing.Base.{
  ℕ, zero, suc, ◌+◌, ◌/◌, ◌≤◌, ◌<◌, min, ◌≡◌, refl, ap, ap₂, ==_iff, ◌∙◌, Bool, true, false, List,
  [], ◌∷◌, some, arith, ◌==◌, length, get_elem?, set, take, Bool-cases, Option-cases, inl, inr,
  length-set,
}
use external_icing.Scoring.Ranker.{
  swap, swap_found, best_of, heapify, pop_root, build_loop, build_heap_in_place, pop_loop,
  pop_top_results_from_heap,
}

abbrev pub one : Bool → ℕ
one true = 1
one false = 0

module _ {A : Type 0} where
  -- How many elements of the list pass the test.
  abbrev pub count : (A → Bool) → List A → ℕ
  count p [] = 0
  count p (x ∷ xs) = one (p x) + count p xs

  some_inj : (z x : A) → some z ≡ some x → z ≡ x
  some_inj z x e = cc

  count-set :
      (p : A → Bool) (xs : List A) (i : ℕ) (x v : A)
      → get_elem? xs i ≡ some x
      → count p (set xs i v) + one (p x) ≡ count p xs + one (p v)
  count-set p [] i x v e = cc
  count-set p (z ∷ xs) zero x v e = omega (arith, ap (λ k. one (p k)) (some_inj z x e))
  count-set p (z ∷ xs) (suc i) x v e = omega (arith, count-set p xs i x v e)

  pub get_elem?-set_self :
      (xs : List A) (i : ℕ) (x v : A) → get_elem? xs i ≡ some x → get_elem? (set xs i v) i ≡ some v
  get_elem?-set_self [] i x v e = cc
  get_elem?-set_self (z ∷ xs) zero x v e = refl
  get_elem?-set_self (z ∷ xs) (suc i) x v e = get_elem?-set_self xs i x v e

  pub get_elem?-set_other :
      (xs : List A) (i j : ℕ) (v : A) → (i == j) ≡ false → get_elem? (set xs i v) j ≡ get_elem? xs j
  get_elem?-set_other [] i j v e = refl
  get_elem?-set_other (x ∷ xs) zero zero v e = absurd (ground (arith, e))
  get_elem?-set_other (x ∷ xs) zero (suc j) v e = refl
  get_elem?-set_other (x ∷ xs) (suc i) zero v e = refl
  get_elem?-set_other (x ∷ xs) (suc i) (suc j) v e =
      get_elem?-set_other xs i j v (ground (arith, e))

  -- After the first write of a swap, the second place has the same element.
  after_first :
      (hits : List A) (i j : ℕ) (x y : A)
      → get_elem? hits i ≡ some x
      → get_elem? hits j ≡ some y
      → get_elem? (set hits i y) j ≡ some y
  after_first hits i j x y ex ey = elim (Bool-cases (i == j)) [
    | inl e ↦
        let same_place : i ≡ j = (==_iff i j).0 e in
        rw (← same_place) (get_elem?-set_self hits i x y ex)
    | inr e ↦ get_elem?-set_other hits i j y e ∙ ey
  ]

  -- A swap in range is two writes; any other swap changes nothing.
  pub data Swapped (hits : List A) (i j : ℕ) : Type 0 where
    nothing : swap hits i j ≡ hits → Swapped hits i j
    writes :
        (x y : A)
        → get_elem? hits i ≡ some x
        → get_elem? hits j ≡ some y
        → swap hits i j ≡ set (set hits i y) j x
        → Swapped hits i j

  pub swap-Swapped : (hits : List A) (i j : ℕ) → Swapped hits i j
  swap-Swapped hits i j = elim (Option-cases (get_elem? hits i)) [
    | inl e ↦ nothing (ap (λ o. swap_found hits i j o (get_elem? hits j)) e)
    | inr (x, ex) ↦ elim (Option-cases (get_elem? hits j)) [
      | inl e ↦ nothing (ap₂ (swap_found hits i j) ex e)
      | inr (y, ey) ↦ writes x y ex ey (ap₂ (swap_found hits i j) ex ey)
    ]
  ]

  count-swap : (p : A → Bool) (hits : List A) (i j : ℕ) → count p (swap hits i j) ≡ count p hits
  count-swap p hits i j = elim (swap-Swapped hits i j) [
    | nothing e ↦ ap (count p) e
    | writes x y ex ey e ↦ omega (
      arith,
      ap (count p) e,
      count-set p hits i x y ex,
      count-set p (set hits i y) j y x (after_first hits i j x y ex ey),
    )
  ]

  pub length-swap : (hits : List A) (i j : ℕ) → length (swap hits i j) ≡ length hits
  length-swap hits i j = elim (swap-Swapped hits i j) [
    | nothing e ↦ ap length e
    | writes x y ex ey e ↦
        omega (arith, ap length e, length-set hits i y, length-set (set hits i y) j x)
  ]

  count-take :
      (p : A → Bool) (xs : List A) (n : ℕ) (z : A)
      → length xs ≡ suc n
      → get_elem? xs n ≡ some z
      → count p xs ≡ count p (take n xs) + one (p z)
  count-take p [] n z e g = cc
  count-take p (x ∷ []) zero z e g = omega (arith, ap (λ k. one (p k)) (some_inj x z g))
  count-take p (x ∷ []) (suc n) z e g = cc
  count-take p (x ∷ y ∷ xs) zero z e g = absurd (omega (arith, e))
  count-take p (x ∷ y ∷ xs) (suc n) z e g =
      omega (arith, count-take p (y ∷ xs) n z (omega (arith, e)) g)

  pub length-take_less : (xs : List A) (n : ℕ) → n ≤ length xs → length (take n xs) ≡ n
  length-take_less xs zero h = refl
  length-take_less [] (suc n) h = absurd (omega arith)
  length-take_less (x ∷ xs) (suc n) h = ap suc (length-take_less xs n (omega arith))

  pub get_elem?-in_range :
      (xs : List A) (i : ℕ) → i < length xs → (x : A) × (get_elem? xs i ≡ some x)
  get_elem?-in_range [] i h = absurd (omega arith)
  get_elem?-in_range (x ∷ xs) zero h = (x, refl)
  get_elem?-in_range (x ∷ xs) (suc i) h = get_elem?-in_range xs i (omega arith)

  swap-end :
      (hits : List A) (i j : ℕ) (x : A)
      → get_elem? hits i ≡ some x
      → j < length hits
      → get_elem? (swap hits i j) j ≡ some x
  swap-end hits i j x ex h =
      let (y, ey) = get_elem?-in_range hits j h in
      ap (λ zs. get_elem? zs j) (ap₂ (swap_found hits i j) ex ey)
      ∙ get_elem?-set_self (set hits i y) j y x (after_first hits i j x y ex ey)

  module _ (better : A → A → Bool) where
    length-heapify :
        (fuel : ℕ) (hits : List A) (root : ℕ) → length (heapify better fuel hits root) ≡ length hits
    unfolding heapify
    length-heapify zero hits root = refl
    length-heapify (suc fuel) hits root =
        let best = best_of better hits root in
        ground (arith, length-heapify fuel (swap hits best root) best, length-swap hits best root)

    count-heapify :
        (p : A → Bool) (fuel : ℕ) (hits : List A) (root : ℕ)
        → count p (heapify better fuel hits root) ≡ count p hits
    unfolding heapify
    count-heapify p zero hits root = refl
    count-heapify p (suc fuel) hits root =
        let best = best_of better hits root in
        ground (arith, count-heapify p fuel (swap hits best root) best, count-swap p hits best root)

    -- The heap that PopRoot leaves behind.
    abbrev pub left_behind : A → List A → List A
    left_behind root hits =
        heapify better (length hits) (take (length hits) (swap (root ∷ hits) 0 (length hits))) 0

    count-left_behind :
        (p : A → Bool) (root : A) (hits : List A)
        → (count p (root ∷ hits) ≡ one (p root) + count p (left_behind root hits))
          × (length (left_behind root hits) ≡ length hits)
    count-left_behind p root hits =
        let last = length hits in
        let swapped = swap (root ∷ hits) 0 last in
        let cut = take last swapped in
        let size : length swapped ≡ suc last = length-swap (root ∷ hits) 0 last in
        (
          omega (
            arith,
            count-swap p (root ∷ hits) 0 last,
            count-take p swapped last root size
                (swap-end (root ∷ hits) 0 last root refl (omega arith)),
            count-heapify p last cut 0,
          ),
          length-heapify last cut 0 ∙ length-take_less swapped last (omega arith),
        )

    pop_loop_lem :
        (p : A → Bool) (n : ℕ) (heap : List A)
        → n ≤ length heap
        → let popped = pop_loop better n heap in
          (count p popped.0 + count p popped.1 ≡ count p heap)
          × (length popped.0 ≡ n)
          × (length popped.1 + n ≡ length heap)
    unfolding pop_loop pop_root
    pop_loop_lem p zero heap h = (omega arith, refl, omega arith)
    pop_loop_lem p (suc n) [] h = absurd (omega arith)
    pop_loop_lem p (suc n) (root ∷ hits) h =
        let (counts, size) = count-left_behind p root hits in
        let more = pop_loop_lem p n (left_behind root hits) (omega arith) in
        (omega (arith, counts, more.0), ap suc more.1, omega (arith, size, more.2))

    -- Popping takes the number asked for, or all hits of a smaller heap, and the results and the
    -- heap that is left have together exactly the hits that the heap had.
    pub pop_top_results_from_heap_lem :
        (p : A → Bool) (heap : List A) (num_results : ℕ)
        → let (results, rest) = pop_top_results_from_heap better heap num_results in
          (count p results + count p rest ≡ count p heap)
          × (length results ≡ min num_results (length heap))
          × (length results + length rest ≡ length heap)
    unfolding pop_top_results_from_heap
    pop_top_results_from_heap_lem p heap num_results =
        let popped = pop_loop_lem p (min num_results (length heap)) heap (omega arith) in
        (popped.0, popped.1, omega (arith, popped.1, popped.2))

    build_loop_lem :
        (p : A → Bool) (n : ℕ) (hits : List A)
        → (count p (build_loop better n hits) ≡ count p hits)
          × (length (build_loop better n hits) ≡ length hits)
    unfolding build_loop
    build_loop_lem p zero hits = (refl, refl)
    build_loop_lem p (suc n) hits =
        let deeper = build_loop_lem p n (heapify better (length hits) hits n) in
        (
          deeper.0 ∙ count-heapify p (length hits) hits n,
          deeper.1 ∙ length-heapify (length hits) hits n,
        )

    -- Building the heap moves the hits only: every hit is there as often as before.
    pub build_heap_in_place_lem :
        (p : A → Bool) (hits : List A)
        → (count p (build_heap_in_place better hits) ≡ count p hits)
          × (length (build_heap_in_place better hits) ≡ length hits)
    unfolding build_heap_in_place
    build_heap_in_place_lem p hits = build_loop_lem p (length hits / 2) hits
