-- ===== src/Schema/Validator/Counting.antt =====
-- Counting the properties of a document that are required, as icing/util/document-validator.cc does.
use external_icing.Base.{
  ℕ, ◌+◌, ◌≤◌, ◌≡◌, refl, sym, ap, ◌∙◌, Bool, true, false, not, ◌&&◌, ◌||◌, List, [], ◌∷◌, Option,
  none, some, if◌then◌else◌, arith, Option-cases, Bool-cases, inl, inr,
}
use external_icing.Store.{Text, text_eq, text_eq_iff}
use external_icing.Schema.{PropertyConfig, count_if, find_property}
use external_icing.Schema.Validator.{contains}

abbrev pub passes : (PropertyConfig → Bool) → Option PropertyConfig → ℕ
passes test none = 0
passes test (some p) = if test p then 1 else 0

-- How many of the names have a property that passes the test.
abbrev pub count_names : (PropertyConfig → Bool) → List PropertyConfig → List Text → ℕ
count_names test ps [] = 0
count_names test ps (x ∷ xs) = passes test (find_property ps x) + count_names test ps xs

-- No two properties, or names, are the same.
abbrev pub distinct : List PropertyConfig → Bool
distinct [] = true
distinct (p ∷ ps) = elim (find_property ps p.property_name) [ some _ ↦ false | none ↦ distinct ps ]

abbrev pub distinct_names : List Text → Bool
distinct_names [] = true
distinct_names (x ∷ xs) = not (contains xs x) && distinct_names xs

text_eq-sym : (a b : Text) → text_eq a b ≡ text_eq b a
text_eq-sym a b = elim (Bool-cases (text_eq a b)) [
  | inl same ↦ same ∙ sym ((text_eq_iff b a).1 (sym ((text_eq_iff a b).0 same)))
  | inr differ ↦ elim (Bool-cases (text_eq b a)) [
    | inr differ' ↦ differ ∙ sym differ'
    | inl same ↦
        let back : text_eq a b ≡ true = (text_eq_iff a b).1 (sym ((text_eq_iff b a).0 same)) in
        absurd (ground (arith, back, differ))
  ]
]

module _ (test : PropertyConfig → Bool) where
  abbrev at : Text → PropertyConfig → Bool
  at x p = test p && text_eq p.property_name x

  abbrev pub within : List Text → PropertyConfig → Bool
  within xs p = test p && contains xs p.property_name

  no_other :
      (ps : List PropertyConfig) (x : Text) → find_property ps x ≡ none → count_if (at x) ps ≡ 0
  no_other [] x h = refl
  no_other (p ∷ ps) x h = ground (arith, no_other ps x)

  one_at :
      (ps : List PropertyConfig) (x : Text)
      → distinct ps ≡ true
      → count_if (at x) ps ≡ passes test (find_property ps x)
  one_at [] x h = refl
  one_at (p ∷ ps) x h = elim (Bool-cases (text_eq p.property_name x)) [
    | inr differ ↦ ground (arith, differ, one_at ps x)
    | inl same ↦
        let is : p.property_name ≡ x = (text_eq_iff p.property_name x).0 same in
        elim (Option-cases (find_property ps p.property_name)) [
          | inr (q, there) ↦ absurd (ground (arith, there))
          | inl gone ↦ ground (arith, same, no_other ps x (ap (find_property ps) (sym is) ∙ gone))
        ]
  ]

  split :
      (ps : List PropertyConfig) (x : Text) (xs : List Text)
      → contains xs x ≡ false
      → count_if (within (x ∷ xs)) ps ≡ count_if (at x) ps + count_if (within xs) ps
  split [] x xs h = refl
  split (p ∷ ps) x xs h = elim (Bool-cases (text_eq p.property_name x)) [
    | inr differ ↦ ground (arith, differ, text_eq-sym x p.property_name, split ps x xs h)
    | inl same ↦
        let is : p.property_name ≡ x = (text_eq_iff p.property_name x).0 same in
        let absent : contains xs p.property_name ≡ false = ap (contains xs) is ∙ h in
        ground (arith, same, absent, text_eq-sym x p.property_name, split ps x xs h)
  ]

  none_within : (ps : List PropertyConfig) → count_if (within []) ps ≡ 0
  none_within [] = refl
  none_within (p ∷ ps) = ground (arith, none_within ps)

  -- Counting by name is counting the properties whose name is there.
  pub count_names-within :
      (ps : List PropertyConfig) (xs : List Text)
      → distinct ps ≡ true
      → distinct_names xs ≡ true
      → count_names test ps xs ≡ count_if (within xs) ps
  count_names-within ps [] h k = sym (none_within ps)
  count_names-within ps (x ∷ xs) h k =
      ground (arith, one_at ps x h, split ps x xs, count_names-within ps xs h)

  pub count_within-le :
      (ps : List PropertyConfig) (xs : List Text) → count_if (within xs) ps ≤ count_if test ps
  count_within-le [] xs = omega arith
  count_within-le (p ∷ ps) xs = ground (arith, count_within-le ps xs)

  -- If no fewer are there than pass the test, each of these is there.
  pub all_there :
      (ps : List PropertyConfig) (xs : List Text) (name : Text) (p : PropertyConfig)
      → count_if test ps ≤ count_if (within xs) ps
      → find_property ps name ≡ some p
      → test p ≡ true
      → contains xs name ≡ true
  all_there [] xs name p h there passed = absurd (ground arith)
  all_there (q ∷ ps) xs name p h there passed = elim (Bool-cases (text_eq q.property_name name)) [
    | inr differ ↦
        all_there ps xs name p (ground (arith, count_within-le ps xs)) (ground (arith, differ))
          passed
    | inl same ↦
        let is : q.property_name ≡ name = (text_eq_iff q.property_name name).0 same in
        let it : q ≡ p = ground (arith, same) in
        let q_passed : test q ≡ true = ap test it ∙ passed in
        elim (Bool-cases (contains xs q.property_name)) [
          | inl has ↦ ap (contains xs) (sym is) ∙ has
          | inr lacks ↦ absurd (ground (arith, q_passed, lacks, count_within-le ps xs))
        ]
  ]

  -- Conversely, if each that passes is there, all are counted.
  abbrev pub each_there : List PropertyConfig → List Text → Bool
  each_there [] xs = true
  each_there (p ∷ ps) xs = (not (test p) || contains xs p.property_name) && each_there ps xs

  pub count_within-all :
      (ps : List PropertyConfig) (xs : List Text)
      → each_there ps xs ≡ true
      → count_if (within xs) ps ≡ count_if test ps
  count_within-all [] xs h = refl
  count_within-all (p ∷ ps) xs h = ground (arith, count_within-all ps xs)
