-- ===== src/Schema/Validator/Upgraded.antt =====
-- A new schema, from its delta of icing/schema/schema-util.cc to the documents that
-- icing/util/document-validator.cc accepts.
use external_icing.Base.{
  ◌≡◌, refl, sym, ap, ◌∙◌, Bool, true, false, List, [], ◌∷◌, Option, none, some, arith,
  Option-cases, Bool-cases, inl, inr,
}
use external_icing.Store.{StatusOr, value, error, not_found, Text, text_eq, text_eq_iff}
use external_icing.Schema.{TypeConfig, compare_types}
use external_icing.Schema.Delta.{
  find_type, DependencyMap, compute_compatibility_delta, contains, any_old, changed, deleted,
  distinct_types,
}
use external_icing.Schema.Delta.Sets.{compute_compatibility_delta_lem}
use external_icing.Schema.Validator.{Document, validate}
use external_icing.Schema.Validator.Checks.{Steady, Upgrade}
use external_icing.Schema.Validator.Preserved.{preserved}

-- GetSchemaTypeConfig of icing/schema/schema-store.cc, of a schema that is set
abbrev pub config_or : Option TypeConfig → StatusOr TypeConfig
config_or none = error not_found
config_or (some t) = value t

abbrev pub get_schema_type_config : List TypeConfig → Text → StatusOr TypeConfig
get_schema_type_config schema name = config_or (find_type schema name)

find_type-name :
    (ts : List TypeConfig) (name : Text) (t : TypeConfig)
    → find_type ts name ≡ some t
    → t.type_name ≡ name
find_type-name [] name t h = absurd (ground arith)
find_type-name (u ∷ ts) name t h = elim (Bool-cases (text_eq u.type_name name)) [
  | inr differ ↦ find_type-name ts name t (ground (arith, differ))
  | inl same ↦
      let it : u ≡ t = ground (arith, same) in
      ap (λ (x : TypeConfig). x.type_name) (sym it) ∙ (text_eq_iff u.type_name name).0 same
]

any_old-find :
    (test : TypeConfig → Option TypeConfig → Bool) (olds new_schema : List TypeConfig) (name : Text)
    (t : TypeConfig)
    → any_old test olds new_schema ≡ false
    → find_type olds name ≡ some t
    → test t (find_type new_schema t.type_name) ≡ false
any_old-find test [] new_schema name t h there = absurd (ground arith)
any_old-find test (u ∷ olds) new_schema name t h there =
    elim (Bool-cases (text_eq u.type_name name)) [
      | inr differ ↦
          any_old-find test olds new_schema name t (ground arith) (ground (arith, differ))
      | inl same ↦
          let it : u ≡ t = ground (arith, same) in
          let first : test u (find_type new_schema u.type_name) ≡ false = ground arith in
          ap (λ (x : TypeConfig). test x (find_type new_schema x.type_name)) (sym it) ∙ first
    ]

module _ (old_schema new_schema : List TypeConfig) (dependencies : DependencyMap)
    (apart : distinct_types old_schema ≡ true)
    (steady : (c c' : TypeConfig)
      → find_type old_schema c.type_name ≡ some c
      → find_type new_schema c.type_name ≡ some c'
      → Steady c c')
    (none_incompatible : (x : Text)
      → contains
          (compute_compatibility_delta old_schema new_schema dependencies).schema_types_incompatible
          x
        ≡ false)
    (none_deleted : (x : Text)
      → contains
          (compute_compatibility_delta old_schema new_schema dependencies).schema_types_deleted
          x
        ≡ false) where
  upgrade : Upgrade (get_schema_type_config old_schema) (get_schema_type_config new_schema)
  upgrade name c is = elim (Option-cases (find_type old_schema name)) [
    | inl unknown ↦ absurd (ground (arith, unknown))
    | inr (t, there) ↦
        let it : t ≡ c = ground (arith, there) in
        let there' : find_type old_schema name ≡ some c = there ∙ ap some it in
        let named : c.type_name ≡ name = find_type-name old_schema name c there' in
        let own : text_eq c.type_name c.type_name ≡ true =
          (text_eq_iff c.type_name c.type_name).1 refl in
        let sets =
          compute_compatibility_delta_lem old_schema new_schema dependencies c.type_name apart in
        let kept : deleted c.type_name c (find_type new_schema c.type_name) ≡ false =
          any_old-find (deleted c.type_name) old_schema new_schema name c
            (sym sets.1 ∙ none_deleted c.type_name) there' in
        let fits : changed (λ d. d.is_incompatible) dependencies c.type_name c
              (find_type new_schema c.type_name)
            ≡ false =
          any_old-find (changed (λ d. d.is_incompatible) dependencies c.type_name) old_schema
            new_schema name c (sym sets.0 ∙ none_incompatible c.type_name) there' in
        elim (Option-cases (find_type new_schema c.type_name)) [
          | inl gone ↦ absurd (ground (arith, gone, own))
          | inr (c', has) ↦
              let compatible : (compare_types c c').is_incompatible ≡ false =
                ground (arith, has, own, fits) in
              (
                c',
                ap config_or (ap (find_type new_schema) (sym named) ∙ has),
                record {
                  compatible = compatible;
                  steady = steady c c' (ap (find_type old_schema) named ∙ there') has;
                },
              )
        ]
  ]

  -- A new schema whose delta names no type as incompatible or as deleted, where the old types have
  -- different names and each is steady: a document that is valid, with all documents in it, stays valid.
  pub validate-delta :
      (top : Bool) (d : Document)
      → validate (get_schema_type_config old_schema) top d ≡ value tt
      → validate (get_schema_type_config new_schema) top d ≡ value tt
  validate-delta top d valid =
      preserved (get_schema_type_config old_schema) (get_schema_type_config new_schema) upgrade top
        d valid
