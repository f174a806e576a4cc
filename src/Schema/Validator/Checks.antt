-- ===== src/Schema/Validator/Checks.antt =====
-- CheckProperty and the count of required properties of icing/util/document-validator.cc, under two
-- versions of a type that CompareTypes of icing/schema/schema-util.cc does not call incompatible.
use external_icing.Base.{
  ℕ, ◌+◌, ◌≤◌, ◌≡◌, refl, sym, ap, ◌∙◌, subst, Bool, true, false, not, ◌&&◌, ◌||◌, List, [], ◌∷◌,
  some, leb, ◌==◌, if◌then◌else◌, arith, Option-cases, Bool-cases, inl, inr, ◌⊎◌,
}
use external_icing.Store.{StatusOr, value, error, Status, Text, text_eq, text_eq_iff}
use external_icing.Schema.{
  PropertyConfig, TypeConfig, required, is_property_compatible, is_required, count_if,
  find_property, compare_types,
}
use external_icing.Schema.Compatible.{keeps, all_found, compare_types_lem}
use external_icing.Schema.Validator.{
  Values, Properties, no_property, property, Documents, is_empty, value_size, size_fits, contains,
  check_property, one_required, and_then,
}
use external_icing.Schema.Validator.Counting.{
  passes, count_names, distinct, distinct_names, each_there, count_names-within, all_there,
  count_within-all,
}

-- Each cardinality is one of the enum.
abbrev pub all_known : List PropertyConfig → Bool
all_known [] = true
all_known (p ∷ ps) = leb p.cardinality required && all_known ps

-- What is required was required before.
abbrev pub all_required_before : List PropertyConfig → List PropertyConfig → Bool
all_required_before olds [] = true
all_required_before olds (q ∷ qs) =
    (not (is_required q) || (passes is_required (find_property olds q.property_name) == 1))
    && all_required_before olds qs

-- Two versions of a type, in each of which no two properties have one name, and in which no property is
-- newly required: the delta only compares the numbers of required properties.
pub record Steady (old new : TypeConfig) : Type 0 where
  pub distinct_old : distinct old.properties ≡ true
  pub distinct_new : distinct new.properties ≡ true
  pub known : all_known old.properties ≡ true
  pub required_before : all_required_before old.properties new.properties ≡ true

-- A new version of a type that the delta does not call incompatible either.
pub record Change (old new : TypeConfig) : Type 0 where
  pub compatible : (compare_types old new).is_incompatible ≡ false
  pub steady : Steady old new

-- A new schema that has a compatible version of each type.
abbrev pub Upgrade : (Text → StatusOr TypeConfig) → (Text → StatusOr TypeConfig) → Type 0
Upgrade old new =
    (name : Text) (c : TypeConfig)
    → old name ≡ value c
    → (c' : TypeConfig) × (new name ≡ value c') × Change c c'

all_found-find :
    (olds new : List PropertyConfig) (name : Text) (p : PropertyConfig)
    → all_found keeps olds new ≡ true
    → find_property olds name ≡ some p
    → (q : PropertyConfig) × (find_property new name ≡ some q) × (is_property_compatible p q ≡ true)
all_found-find [] new name p h there = absurd (ground arith)
all_found-find (o ∷ olds) new name p h there = elim (Bool-cases (text_eq o.property_name name)) [
  | inr differ ↦ all_found-find olds new name p (ground arith) (ground (arith, differ))
  | inl same ↦
      let is : o.property_name ≡ name = (text_eq_iff o.property_name name).0 same in
      let it : o ≡ p = ground (arith, same) in
      elim (Option-cases (find_property new o.property_name)) [
        | inl gone ↦ absurd (ground (arith, gone))
        | inr (q, found) ↦
            let fits : is_property_compatible o q ≡ true = ground (arith, found) in
            (
              q,
              ap (find_property new) (sym is) ∙ found,
              ap (λ (x : PropertyConfig). is_property_compatible x q) (sym it) ∙ fits,
            )
      ]
]

known_at :
    (ps : List PropertyConfig) (name : Text) (p : PropertyConfig)
    → all_known ps ≡ true
    → find_property ps name ≡ some p
    → p.cardinality ≤ required
known_at [] name p h there = absurd (ground arith)
known_at (o ∷ ps) name p h there = elim (Bool-cases (text_eq o.property_name name)) [
  | inr differ ↦ known_at ps name p (ground arith) (ground (arith, differ))
  | inl same ↦
      let it : o ≡ p = ground (arith, same) in
      let small : o.cardinality ≤ required = ground arith in
      subst (λ (x : PropertyConfig). x.cardinality ≤ required) it small
]

size_fits-looser :
    (c c' size : ℕ) → size_fits c size ≡ true → c' ≤ c → c ≤ required → size_fits c' size ≡ true
size_fits-looser c c' size h k l = ground arith

-- What a property that passes its checks shows.
pub passed :
    (c : TypeConfig) (seen : List Text) (name : Text) (v : Values) (ds : Documents)
    (p : PropertyConfig)
    → check_property c seen name v ds ≡ value p
    → (is_empty name ≡ false)
      × (contains seen name ≡ false)
      × (find_property c.properties name ≡ some p)
      × (size_fits p.cardinality (value_size p.data_type v ds) ≡ true)
passed c seen name v ds p h = elim (Bool-cases (is_empty name)) [
  | inl none_given ↦ absurd (ground (arith, none_given))
  | inr named ↦ elim (Bool-cases (contains seen name)) [
    | inl twice ↦ absurd (ground (arith, named, twice))
    | inr once ↦ elim (Option-cases (find_property c.properties name)) [
      | inl gone ↦ absurd (ground (arith, named, once, gone))
      | inr (q, there) ↦ elim (Bool-cases (size_fits q.cardinality (value_size q.data_type v ds))) [
        | inr wrong ↦ absurd (ground (arith, named, once, there, wrong))
        | inl right ↦
            let passes_all : check_property c seen name v ds ≡ value q =
              rw (named, once, there, right) refl in
            let same : StatusOr.value q ≡ value p = sym passes_all ∙ h in
            let it : q ≡ p = ground (arith, same) in
            (
              named,
              once,
              there ∙ ap some it,
              subst
                  (λ (x : PropertyConfig).
                    size_fits x.cardinality (value_size x.data_type v ds) ≡ true)
                  it right,
            )
      ]
    ]
  ]
]

passes_check :
    (c : TypeConfig) (seen : List Text) (name : Text) (v : Values) (ds : Documents)
    (q : PropertyConfig)
    → is_empty name ≡ false
    → contains seen name ≡ false
    → find_property c.properties name ≡ some q
    → size_fits q.cardinality (value_size q.data_type v ds) ≡ true
    → check_property c seen name v ds ≡ value q
passes_check c seen name v ds q named once there right = rw (named, once, there, right) refl

-- A property that passes under the old type passes under the new one.
pub passed_on :
    (c c' : TypeConfig)
    → Change c c'
    → (seen : List Text) (name : Text) (v : Values) (ds : Documents) (p : PropertyConfig)
    → check_property c seen name v ds ≡ value p
    → (q : PropertyConfig) × (check_property c' seen name v ds ≡ value q)
      × (find_property c'.properties name ≡ some q)
      × (q.data_type ≡ p.data_type)
      × (q.schema_type ≡ p.schema_type)
passed_on c c' change seen name v ds p h =
    let (named, once, there, right) = passed c seen name v ds p h in
    let all : all_found keeps c.properties c'.properties ≡ true =
      ground (arith, (compare_types_lem c c').0, change.compatible) in
    let (q, found, fits) = all_found-find c.properties c'.properties name p all there in
    let same_data : q.data_type ≡ p.data_type = ground (arith, fits) in
    let same_type : p.schema_type ≡ q.schema_type =
      (text_eq_iff p.schema_type q.schema_type).0 (ground (arith, fits)) in
    let looser : q.cardinality ≤ p.cardinality = ground (arith, fits) in
    let size = value_size p.data_type v ds in
    let right' : size_fits q.cardinality size ≡ true =
      size_fits-looser p.cardinality q.cardinality size right looser
        (known_at c.properties name p change.steady.known there) in
    (
      q,
      passes_check c' seen name v ds q named once found
          (ap (λ (t : ℕ). size_fits q.cardinality (value_size t v ds)) same_data ∙ right'),
      found,
      same_data,
      sym same_type,
    )

each_from :
    (olds qs : List PropertyConfig) (xs : List Text)
    → ((name : Text) (p : PropertyConfig)
        → find_property olds name ≡ some p
        → is_required p ≡ true
        → contains xs name ≡ true)
    → all_required_before olds qs ≡ true
    → each_there is_required qs xs ≡ true
each_from olds [] xs all h = refl
each_from olds (q ∷ qs) xs all h =
    let rest : each_there is_required qs xs ≡ true = each_from olds qs xs all (ground arith) in
    elim (Bool-cases (is_required q)) [
      | inr free ↦ ground (arith, free, rest)
      | inl needed ↦ elim (Option-cases (find_property olds q.property_name)) [
        | inl gone ↦ absurd (ground (arith, needed, gone))
        | inr (p, there) ↦
            let before : is_required p ≡ true = ground (arith, needed, there) in
            let has : contains xs q.property_name ≡ true = all q.property_name p there before in
            ground (arith, needed, has, rest)
      ]
    ]

-- A document with all that the old type requires has all that the new one does.
pub enough_kept :
    (c c' : TypeConfig) (xs : List Text)
    → Change c c'
    → distinct_names xs ≡ true
    → count_if is_required c.properties ≤ count_names is_required c.properties xs
    → count_if is_required c'.properties ≤ count_names is_required c'.properties xs
enough_kept c c' xs change once enough =
    let old_count =
      count_names-within is_required c.properties xs change.steady.distinct_old once in
    let new_count =
      count_names-within is_required c'.properties xs change.steady.distinct_new once in
    let there : (name : Text) (p : PropertyConfig)
        → find_property c.properties name ≡ some p
        → is_required p ≡ true
        → contains xs name ≡ true =
      λ name p found needed.
        all_there is_required c.properties xs name p (omega (arith, enough, old_count)) found
          needed in
    let all =
      count_within-all is_required c'.properties xs
        (each_from c.properties c'.properties xs there change.steady.required_before) in
    omega (arith, new_count, all)

abbrev pub names : Properties → List Text
names no_property = []
names (property name v ds rest) = name ∷ names rest

pub both_ok :
    {A : Type 0} (r : StatusOr (Unit {0})) (s : StatusOr A) (a : A)
    → and_then r s ≡ value a
    → (r ≡ value tt) × (s ≡ value a)
both_ok (value u) s a h = (refl, h)
both_ok (error e) s a h = absurd (ground arith)

pub StatusOr-cases :
    {A : Type 0} (r : StatusOr A) → ((a : A) × (r ≡ value a)) ⊎ ((e : Status) × (r ≡ error e))
StatusOr-cases (value a) = inl (a, refl)
StatusOr-cases (error e) = inr (e, refl)

pub required_one :
    (p : PropertyConfig) (n : ℕ) → one_required p n ≡ n + (if is_required p then 1 else 0)
required_one p n = ground arith
