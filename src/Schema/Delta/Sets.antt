-- ===== src/Schema/Delta/Sets.antt =====
-- Which types ComputeCompatibilityDelta of icing/schema/schema-util.cc puts into its sets.
use external_icing.Base.{
  ◌≡◌, refl, ap, ap₂, ◌∙◌, Bool, true, false, ◌&&◌, ◌||◌, List, [], ◌∷◌, ◌++◌, Option, none, some,
  arith, if◌then◌else◌, Option-cases, inl, inr,
}
use external_icing.Store.{Text, text_eq, text_eq_iff}
use external_icing.Schema.{TypeConfig, compare_types}
use external_icing.Schema.Delta.{
  SchemaDelta, no_delta, find_type, emplace, build_type_config_map, erase_type, DependencyMap,
  parents_of, mark, note, delta_found, delta_loop, names_of, compute_compatibility_delta, contains,
  any_old, changed, deleted, distinct_types,
}

contains-append :
    (xs ys : List Text) (name : Text)
    → contains (xs ++ ys) name ≡ (contains xs name || contains ys name)
contains-append [] ys name = refl
contains-append (x ∷ xs) ys name = ground (arith, contains-append xs ys name)

-- The map has the first type of each name.
first_of : Option TypeConfig → Option TypeConfig → Option TypeConfig
first_of none b = b
first_of (some t) b = some t

find-emplace :
    (t : TypeConfig) (us : List TypeConfig) (name : Text)
    → find_type (emplace t us) name
      ≡ first_of (find_type us name) (if text_eq t.type_name name then some t else none)
unfolding first_of
find-emplace t [] name = refl
find-emplace t (u ∷ us) name = ground (
  arith,
  find-emplace t us name,
  text_eq_iff u.type_name t.type_name,
  text_eq_iff u.type_name name,
  text_eq_iff t.type_name name,
)

find-build :
    (ts us : List TypeConfig) (name : Text)
    → find_type (build_type_config_map ts us) name
      ≡ first_of (find_type us name) (find_type ts name)
unfolding first_of
find-build [] us name = elim (Option-cases (find_type us name)) [
  | inl gone ↦ rw gone refl
  | inr (t, there) ↦ rw there refl
]
find-build (t ∷ ts) us name =
    find-build ts (emplace t us) name
    ∙ ap (λ (o : Option TypeConfig). first_of o (find_type ts name)) (find-emplace t us name)
    ∙ elim (Option-cases (find_type us name)) [
      | inl gone ↦ ground (arith, gone)
      | inr (u, there) ↦ ground (arith, there)
    ]

find-erase :
    (ts : List TypeConfig) (name other : Text)
    → text_eq name other ≡ false
    → find_type (erase_type name ts) other ≡ find_type ts other
find-erase [] name other h = refl
find-erase (t ∷ ts) name other h = ground (
  arith,
  find-erase ts name other h,
  text_eq_iff t.type_name name,
  text_eq_iff t.type_name other,
  text_eq_iff name other,
)

module _ (test : TypeConfig → Option TypeConfig → Bool) where
  -- Two maps in which a search finds the same.
  any_old-alike :
      (olds map map' : List TypeConfig)
      → ((name : Text) → find_type map name ≡ find_type map' name)
      → any_old test olds map ≡ any_old test olds map'
  any_old-alike [] map map' h = refl
  any_old-alike (o ∷ olds) map map' h =
      ap₂ (λ (f : Option TypeConfig) (rest : Bool). test o f || rest) (h o.type_name)
        (any_old-alike olds map map' h)

  -- An old type of another name does not see that a type was erased.
  any_old-erase :
      (olds map : List TypeConfig) (name : Text)
      → contains (names_of olds) name ≡ false
      → any_old test olds (erase_type name map) ≡ any_old test olds map
  any_old-erase [] map name h = refl
  any_old-erase (o ∷ olds) map name h =
      let differ : text_eq name o.type_name ≡ false =
        ground (arith, text_eq_iff o.type_name name, text_eq_iff name o.type_name) in
      ap₂ (λ (f : Option TypeConfig) (rest : Bool). test o f || rest)
        (find-erase map name o.type_name differ) (any_old-erase olds map name (ground arith))

or_assoc : (a b c : Bool) → (a || (b || c)) ≡ ((b || a) || c)
or_assoc a b c = ground arith

module _ (dependencies : DependencyMap) (x : Text) where
  contains-mark :
      (b : Bool) (name : Text) (names : List Text)
      → contains (mark dependencies b name names) x
        ≡ ((b && (contains (parents_of dependencies name) x || text_eq name x)) || contains names x)
  contains-mark false name names = refl
  contains-mark true name names =
      contains-append (parents_of dependencies name) (name ∷ names) x ∙ ground arith

  abbrev incompatible : TypeConfig → Option TypeConfig → Bool
  incompatible = changed (λ d. d.is_incompatible) dependencies x

  loop_incompatible :
      (olds map : List TypeConfig) (delta : SchemaDelta)
      → distinct_types olds ≡ true
      → contains (delta_loop dependencies olds map delta).0.schema_types_incompatible x
        ≡ (any_old incompatible olds map || contains delta.schema_types_incompatible x)
  unfolding delta_loop
  loop_incompatible [] map delta h = refl
  loop_incompatible (o ∷ olds) map delta h =
      let apart : contains (names_of olds) o.type_name ≡ false = ground arith in
      let rest : distinct_types olds ≡ true = ground arith in
      elim (Option-cases (find_type map o.type_name)) [
        | inl gone ↦
            rw (delta_loop, gone)
              (loop_incompatible olds map (delta_found dependencies o map delta none).0 rest)
        | inr (new, there) ↦
            rw (delta_loop, there)
              (loop_incompatible olds (erase_type o.type_name map)
                  (note dependencies o.type_name (compare_types o new) delta) rest
                ∙ ap₂ (λ (a b : Bool). a || b)
                    (any_old-erase incompatible olds map o.type_name apart)
                    (contains-mark (compare_types o new).is_incompatible o.type_name
                      delta.schema_types_incompatible)
                ∙ or_assoc (any_old incompatible olds map) (incompatible o (some new))
                    (contains delta.schema_types_incompatible x))
      ]

  loop_deleted :
      (olds map : List TypeConfig) (delta : SchemaDelta)
      → distinct_types olds ≡ true
      → contains (delta_loop dependencies olds map delta).0.schema_types_deleted x
        ≡ (any_old (deleted x) olds map || contains delta.schema_types_deleted x)
  unfolding delta_loop
  loop_deleted [] map delta h = refl
  loop_deleted (o ∷ olds) map delta h =
      let apart : contains (names_of olds) o.type_name ≡ false = ground arith in
      let rest : distinct_types olds ≡ true = ground arith in
      elim (Option-cases (find_type map o.type_name)) [
        | inl gone ↦
            rw (delta_loop, gone)
              (loop_deleted olds map (delta_found dependencies o map delta none).0 rest
                ∙ or_assoc (any_old (deleted x) olds map) (text_eq o.type_name x)
                    (contains delta.schema_types_deleted x))
        | inr (new, there) ↦
            rw (delta_loop, there)
              (loop_deleted olds (erase_type o.type_name map)
                  (note dependencies o.type_name (compare_types o new) delta) rest
                ∙ ap (λ (a : Bool). a || contains delta.schema_types_deleted x)
                    (any_old-erase (deleted x) olds map o.type_name apart))
      ]

first_of-none :
    (new_schema : List TypeConfig) (name : Text)
    → find_type (build_type_config_map new_schema []) name ≡ find_type new_schema name
unfolding first_of
first_of-none new_schema name = find-build new_schema [] name

or_false : (a : Bool) → (a || false) ≡ a
or_false a = ground arith

-- For an old schema whose types have different names: a type is in the incompatible set exactly when an
-- old type that the new schema has too is incompatible with the new one, and is this type or one that
-- it depends on; and in the deleted set exactly when it is an old one that the new schema does not
-- have.
pub compute_compatibility_delta_lem :
    (old_schema new_schema : List TypeConfig) (dependencies : DependencyMap) (x : Text)
    → distinct_types old_schema ≡ true
    → (contains
          (compute_compatibility_delta old_schema new_schema dependencies).schema_types_incompatible
          x
        ≡ any_old (changed (λ d. d.is_incompatible) dependencies x) old_schema new_schema)
      × (contains
            (compute_compatibility_delta old_schema new_schema dependencies).schema_types_deleted
            x
          ≡ any_old (deleted x) old_schema new_schema)
unfolding compute_compatibility_delta
compute_compatibility_delta_lem old_schema new_schema dependencies x h =
    let map = build_type_config_map new_schema [] in
    (
      loop_incompatible dependencies x old_schema map no_delta h
          ∙ or_false (any_old (changed (λ d. d.is_incompatible) dependencies x) old_schema map)
          ∙ any_old-alike (changed (λ d. d.is_incompatible) dependencies x) old_schema map
              new_schema (first_of-none new_schema),
      loop_deleted dependencies x old_schema map no_delta h
          ∙ or_false (any_old (deleted x) old_schema map)
          ∙ any_old-alike (deleted x) old_schema map new_schema (first_of-none new_schema),
    )
