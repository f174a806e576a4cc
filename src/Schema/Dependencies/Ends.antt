-- ===== src/Schema/Dependencies/Ends.antt =====
-- ExpandTranstiveDependencies of icing/schema/schema-util.cc ends: a type that is being expanded is not
-- expanded again.
use external_icing.Base.{
  ℕ, zero, suc, ◌+◌, ◌≤◌, ◌<◌, ◌≡◌, refl, sym, ap, ◌∙◌, subst, ◌⊎◌, true, false, List, [], ◌∷◌,
  some, length, if◌then◌else◌, arith, Option-cases, Bool-cases, inl, inr,
}
use external_icing.Store.{StatusOr, value, error, invalid_argument, Text, text_eq, text_eq_iff}
use external_icing.Schema.Delta.{DependencyMap, contains}
use external_icing.Schema.Dependencies.{
  Expansion, then_do, insert_all, erase_name, find_parents, expand_each, expanded, pend,
  expand_transtive_dependencies, expand_keys, expand_all,
}

-- The keys of a map that are not being expanded.
abbrev free : DependencyMap → List Text → ℕ
free [] pending = 0
free ((t, _) ∷ rest) pending = (if contains pending t then 0 else 1) + free rest pending

free-cons :
    (map : DependencyMap) (t : Text) (pending : List Text)
    → free map (t ∷ pending) ≤ free map pending
free-cons [] t pending = ground arith
free-cons ((u, _) ∷ rest) t pending = ground (arith, free-cons rest t pending)

-- A key that starts to be expanded is one less.
free-pending :
    (map : DependencyMap) (t : Text) (pending parents : List Text)
    → find_parents map t ≡ some parents
    → contains pending t ≡ false
    → free map (t ∷ pending) < free map pending
free-pending [] t pending parents h new = absurd (ground arith)
free-pending ((u, ps) ∷ rest) t pending parents h new = elim (Bool-cases (text_eq u t)) [
  | inr differ ↦ ground (arith, free-pending rest t pending parents (ground (arith, differ)) new)
  | inl same ↦
      let turned : text_eq t u ≡ true = (text_eq_iff t u).1 (sym ((text_eq_iff u t).0 same)) in
      let out : contains pending u ≡ false =
        ap (contains pending) ((text_eq_iff u t).0 same) ∙ new in
      ground (arith, turned, out, free-cons rest t pending)
]

free-length : (map : DependencyMap) (pending : List Text) → free map pending ≤ length map
free-length [] pending = ground arith
free-length ((u, _) ∷ rest) pending = ground (arith, free-length rest pending)

erase_name-absent :
    (name : Text) (names : List Text) → contains names name ≡ false → erase_name name names ≡ names
erase_name-absent name [] h = refl
erase_name-absent name (x ∷ xs) h = ground (arith, erase_name-absent name xs)

-- An expansion ends: with the same types pending as before, or since types refer to each other.
abbrev pub Ends : {A : Type 0} → (A → Expansion) → List Text → StatusOr A → Type 0
Ends state pending (value a) = (state a).pending_expansions ≡ pending
Ends state pending (error e) = e ≡ invalid_argument

Ends-then_do :
    {A B : Type 0} (state : A → Expansion) (state' : B → Expansion) (pending pending' : List Text)
    (r : StatusOr A) (f : A → StatusOr B)
    → Ends state pending r
    → ((a : A) → (state a).pending_expansions ≡ pending → Ends state' pending' (f a))
    → Ends state' pending' (then_do r f)
Ends-then_do state state' pending pending' (value a) f h k = k a h
Ends-then_do state state' pending pending' (error e) f h k = h

abbrev pub itself : Expansion → Expansion
itself e = e

abbrev first : Expansion × List Text → Expansion
first r = r.0

expand_each-Ends :
    (expand : Text → Expansion → StatusOr Expansion) (pending : List Text)
    → ((t : Text) (e : Expansion)
        → e.pending_expansions ≡ pending
        → contains pending t ≡ false
        → Ends itself pending (expand t e))
    → (deps : List Text) (e : Expansion) (names : List Text) → e.pending_expansions ≡ pending
    → Ends first pending (expand_each expand deps e names)
expand_each-Ends expand pending each [] e names h = h
expand_each-Ends expand pending each (dep ∷ deps) e names h =
    elim (Bool-cases (contains e.pending_expansions dep)) [
      | inl again ↦ rw again refl
      | inr new ↦
          let new' : contains pending dep ≡ false =
            ap (λ (p : List Text). contains p dep) (sym h) ∙ new in
          rw new (
            Ends-then_do itself first pending pending (expand dep e) _ (each dep e h new')
              (λ e' h'. expand_each-Ends expand pending each deps e' _ h'))
    ]

expand-Ends :
    (map : DependencyMap) (fuel : ℕ) (t : Text) (e : Expansion)
    → contains e.pending_expansions t ≡ false
    → free map e.pending_expansions < fuel
    → Ends itself e.pending_expansions (expand_transtive_dependencies map fuel t e)
unfolding expand_transtive_dependencies
expand-Ends map zero t e new enough = absurd (omega (arith, enough))
expand-Ends map (suc fuel) t e new enough =
    elim (Option-cases (find_parents e.expanded_child_to_parent_map t)) [
      | inr (ps, done) ↦ rw (expand_transtive_dependencies, done) refl
      | inl todo ↦ elim (Option-cases (find_parents map t)) [
        | inl orphan ↦ rw (expand_transtive_dependencies, todo, orphan) refl
        | inr (parents, there) ↦
            let pending = t ∷ e.pending_expansions in
            let less = free-pending map t e.pending_expansions parents there new in
            let now : (pend t e).pending_expansions ≡ pending = rw new refl in
            let own : text_eq t t ≡ true = (text_eq_iff t t).1 refl in
            let back : erase_name t pending ≡ e.pending_expansions =
              ground (arith, own, erase_name-absent t e.pending_expansions new) in
            rw (expand_transtive_dependencies, todo, there)
              (Ends-then_do first itself pending e.pending_expansions
                (expand_each (expand_transtive_dependencies map fuel) parents (pend t e)
                  (insert_all parents []))
                (expanded t)
                (expand_each-Ends (expand_transtive_dependencies map fuel) pending
                  (λ u e' same new'.
                    subst
                      (λ (p : List Text).
                        Ends itself p (expand_transtive_dependencies map fuel u e'))
                      same
                      (expand-Ends map fuel u e' (ap (λ (p : List Text). contains p u) same ∙ new')
                        (subst (λ (p : List Text). free map p < fuel) (sym same)
                          (omega (arith, less, enough)))))
                  parents (pend t e) _ now)
                (λ a h. ap (erase_name t) h ∙ back))
      ]
    ]

expand_keys-Ends :
    (map : DependencyMap) (fuel : ℕ) (keys : DependencyMap) (e : Expansion)
    → e.pending_expansions ≡ []
    → length map < fuel
    → Ends itself [] (expand_keys (expand_transtive_dependencies map fuel) keys e)
expand_keys-Ends map fuel [] e h enough = h
expand_keys-Ends map fuel ((t, ps) ∷ keys) e h enough =
    let small = free-length map e.pending_expansions in
    Ends-then_do itself itself [] [] (expand_transtive_dependencies map fuel t e) _
      (subst (λ (p : List Text). Ends itself p (expand_transtive_dependencies map fuel t e)) h
        (expand-Ends map fuel t e (ap (λ (p : List Text). contains p t) h)
          (omega (arith, small, enough))))
      (λ e' h'. expand_keys-Ends map fuel keys e' h' enough)

result_of :
    (r : StatusOr Expansion)
    → Ends itself [] r
    → ((map : DependencyMap) × (then_do r (λ e. value e.expanded_child_to_parent_map) ≡ value map))
      ⊎ (then_do r (λ e. StatusOr.value e.expanded_child_to_parent_map) ≡ error invalid_argument)
result_of (value e) h = inl (e.expanded_child_to_parent_map, refl)
result_of (error e) h = inr (ap error h)

-- ExpandTranstiveDependencies gives the expanded map, or INVALID_ARGUMENT; it never runs out of fuel.
pub expand_all-ends :
    (map : DependencyMap)
    → ((expanded : DependencyMap) × (expand_all map ≡ value expanded))
      ⊎ (expand_all map ≡ error invalid_argument)
unfolding expand_all
expand_all-ends map = result_of _ (expand_keys-Ends map (suc (length map)) map _ refl (omega arith))
