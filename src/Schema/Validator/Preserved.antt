-- ===== src/Schema/Validator/Preserved.antt =====
-- Documents under a new schema: icing/util/document-validator.cc after what
-- ComputeCompatibilityDelta of icing/schema/schema-util.cc calls compatible.
use external_icing.Base.{
  ℕ, ◌+◌, ◌≤◌, ◌≡◌, refl, sym, ap, ap₂, ◌∙◌, Bool, true, false, ◌&&◌, List, [], ◌∷◌, ◌==◌,
  if◌then◌else◌, arith, Bool-cases, inl, inr,
}
use external_icing.Store.{StatusOr, value, error, Text, text_eq, text_eq_iff}
use external_icing.Schema.{
  PropertyConfig, TypeConfig, is_required, count_if, parse_property_configs,
}
use external_icing.Schema.Validator.{
  Values, Document, document, Properties, no_property, property, Documents, no_document, one_more,
  is_empty, schema_of, document_type, contains, check_property, one_required, and_then,
  enough_required, validate, validate_properties, validate_nested,
}
use external_icing.Schema.Validator.Counting.{count_names, distinct_names}
use external_icing.Schema.Validator.Checks.{
  Change, Upgrade, passed, passed_on, enough_kept, names, both_ok, StatusOr-cases, required_one,
}

module _ (old new : Text → StatusOr TypeConfig) (upgrade : Upgrade old new) where
  -- What a document's properties show under the old type, and that they pass under the new one.
  record Passes (rest : Properties) (c c' : TypeConfig) (seen : List Text) (n m : ℕ) : Type 0 where
    counted : m ≡ n + count_names is_required c.properties (names rest)
    once : distinct_names (names rest) ≡ true
    unseen : (name : Text) → contains (names rest) name ≡ true → contains seen name ≡ false
    passes_new :
        (n' : ℕ)
        → validate_properties new rest c' seen n'
          ≡ value (n' + count_names is_required c'.properties (names rest))

  -- The documents of a property, which are looked at if the property is of documents.
  gate :
      (d d' : ℕ) (t t' : Text) (ds : Documents)
      → d' ≡ d
      → t' ≡ t
      → (validate_nested old ds t ≡ value tt → validate_nested new ds t ≡ value tt)
      → (if d == document_type then validate_nested old ds t else value tt) ≡ value tt
      → (if d' == document_type then validate_nested new ds t' else value tt) ≡ value tt
  gate d d' t t' ds same_data same_type keep h = elim (Bool-cases (d == document_type)) [
    | inr other ↦ rw (same_data, other) refl
    | inl documents ↦ rw (same_data, same_type, documents) (keep (ground (arith, documents)))
  ]

  -- A property and those behind it.
  property_kept :
      (name : Text) (v : Values) (ds : Documents) (rest : Properties) (c c' : TypeConfig)
      (seen : List Text) (n m : ℕ) (p : PropertyConfig)
      → Change c c'
      → check_property c seen name v ds ≡ value p
      → (if p.data_type == document_type then validate_nested old ds p.schema_type else value tt)
        ≡ value tt
      → (validate_nested old ds p.schema_type ≡ value tt
          → validate_nested new ds p.schema_type ≡ value tt)
      → Passes rest c c' (name ∷ seen) (one_required p n) m
      → Passes (property name v ds rest) c c' seen n m
  unfolding validate
  property_kept name v ds rest c c' seen n m p change is nested_ok keep kept =
      let (named, once, there, right) = passed c seen name v ds p is in
      let (q, check, found, same_data, same_type) = passed_on c c' change seen name v ds p is in
      let own : text_eq name name ≡ true = (text_eq_iff name name).1 refl in
      record {
        counted = ground (arith, kept.counted, there, required_one p n);
        once = elim (Bool-cases (contains (names rest) name)) [
          | inr first ↦ ground (arith, first, kept.once)
          | inl twice ↦ absurd (ground (arith, kept.unseen name twice, own))
        ];
        unseen = λ other there'. elim (Bool-cases (text_eq name other)) [
          | inl same ↦ ap (contains seen) (sym ((text_eq_iff name other).0 same)) ∙ once
          | inr differ ↦
              let behind : contains (names rest) other ≡ true = ground (arith, differ) in
              let free = kept.unseen other behind in ground (arith, free, differ)
        ];
        passes_new = λ n'.
            let next : StatusOr PropertyConfig → StatusOr ℕ = λ r. elim r [
              | error e ↦ error e
              | value config ↦
                  and_then
                    (if config.data_type == document_type
                      then validate_nested new ds config.schema_type
                      else value tt)
                    (validate_properties new rest c' (name ∷ seen) (one_required config n'))
            ] in
            ap next check
            ∙ ap₂ (λ (r : StatusOr (Unit {0})) (s : StatusOr ℕ). and_then r s)
                (gate p.data_type q.data_type p.schema_type q.schema_type ds same_data same_type
                  keep nested_ok)
                (kept.passes_new (one_required q n'))
            ∙ ap value (ground (arith, found, required_one q n'));
      }

  -- A document whose properties pass passes as a whole.
  properties_kept :
      (properties : Properties) (c c' : TypeConfig)
      → Change c c'
      → ((m : ℕ)
          → validate_properties old properties c [] 0 ≡ value m
          → Passes properties c c' [] 0 m)
      → enough_required c (validate_properties old properties c [] 0) ≡ value tt
      → enough_required c' (validate_properties new properties c' [] 0) ≡ value tt
  unfolding parse_property_configs
  properties_kept properties c c' change kept h =
      elim (StatusOr-cases (validate_properties old properties c [] 0)) [
        | inr (e, wrong) ↦ absurd (ground (arith, wrong))
        | inl (m, is) ↦
            let passes_all = kept m is in
            let all : count_if is_required c.properties ≤ m = ground (arith, is) in
            let enough =
              enough_kept c c' (names properties) change passes_all.once
                (omega (arith, all, passes_all.counted)) in
            ap (enough_required c') (passes_all.passes_new 0) ∙ ground (arith, enough)
      ]

  mutual
    unfolding validate parse_property_configs

    pub preserved :
        (top : Bool) (d : Document) → validate old top d ≡ value tt → validate new top d ≡ value tt
    preserved top (document name_space uri schema properties) h =
        elim (Bool-cases (is_empty name_space)) [
          | inl wrong ↦ absurd (ground (arith, wrong))
          | inr named ↦ elim (Bool-cases (top && is_empty uri)) [
            | inl wrong ↦ absurd (ground (arith, named, wrong))
            | inr has_uri ↦ elim (Bool-cases (is_empty schema)) [
              | inl wrong ↦ absurd (ground (arith, named, has_uri, wrong))
              | inr typed ↦ elim (StatusOr-cases (old schema)) [
                | inr (e, unknown) ↦ absurd (ground (arith, named, has_uri, typed, unknown))
                | inl (c, is) ↦
                    let (c', has, change) = upgrade schema c is in
                    let checked : enough_required c (validate_properties old properties c [] 0)
                        ≡ value tt =
                      ground (arith, named, has_uri, typed, is) in
                    rw (named, has_uri, typed, has)
                      (properties_kept properties c c' change
                        (λ m ok. preserved_properties properties c c' [] 0 m change ok) checked)
              ]
            ]
          ]
        ]

    preserved_properties :
        (rest : Properties) (c c' : TypeConfig) (seen : List Text) (n m : ℕ)
        → Change c c'
        → validate_properties old rest c seen n ≡ value m
        → Passes rest c c' seen n m
    preserved_properties no_property c c' seen n m change h = record {
      counted = ground arith;
      once = refl;
      unseen = λ name there. absurd (ground arith);
      passes_new = λ n'. ap value (omega arith);
    }
    preserved_properties (property name v ds rest) c c' seen n m change h =
        elim (StatusOr-cases (check_property c seen name v ds)) [
          | inr (e, wrong) ↦ absurd (ground (arith, wrong))
          | inl (p, is) ↦
              let nested : StatusOr (Unit {0}) =
                if p.data_type == document_type
                then validate_nested old ds p.schema_type
                else value tt in
              let others : StatusOr ℕ =
                validate_properties old rest c (name ∷ seen) (one_required p n) in
              let inner : and_then nested others ≡ value m = ground (arith, is) in
              let (nested_ok, others_ok) = both_ok nested others m inner in
              property_kept name v ds rest c c' seen n m p change is nested_ok
                (preserved_nested ds p.schema_type)
                (preserved_properties rest c c' (name ∷ seen) (one_required p n) m change others_ok)
        ]

    preserved_nested :
        (ds : Documents) (expected : Text)
        → validate_nested old ds expected ≡ value tt
        → validate_nested new ds expected ≡ value tt
    preserved_nested no_document expected h = refl
    preserved_nested (one_more d ds) expected h =
        elim (Bool-cases (text_eq expected (schema_of d))) [
          | inr other ↦ absurd (ground (arith, other))
          | inl same ↦
              let both : and_then (validate old false d) (validate_nested old ds expected)
                  ≡ value tt =
                ground (arith, same) in
              let (first, others) =
                both_ok (validate old false d) (validate_nested old ds expected) tt both in
              rw same (
                ap₂ (λ (r s : StatusOr (Unit {0})). and_then r s) (preserved false d first)
                  (preserved_nested ds expected others))
        ]
