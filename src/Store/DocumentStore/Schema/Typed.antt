-- ===== src/Store/DocumentStore/Schema/Typed.antt =====
-- Writing a schema type id into the filter cache, as UpdateSchemaStore of
-- icing/store/document-store.cc does: what the store shows stays.
use external_icing.Base.{
  ℕ, ◌≡◌, ap, sym, ◌∙◌, Option, none, some, ◌==◌, if◌then◌else◌, get_or, arith,
}
use external_icing.Store.FileBackedVector.{write_at, get_or-write_at}
use external_icing.Store.DocumentStore.{
  DocumentStore, Environment, FilterData, zero_filter, is_past,
}
use external_icing.Store.DocumentStore.View.{
  IsSound, expiration_at, visible, document_at, offset_at,
}
use external_icing.Store.DocumentStore.Put.Filed.{IsFiled}

-- The filter entry of an id.
abbrev pub filter_of : DocumentStore → ℕ → FilterData
filter_of s id = get_or s.filter_cache.array id zero_filter

module _ (s : DocumentStore) (id schema_type_id : ℕ) where
  abbrev pub retyped : DocumentStore
  retyped = record s {
    filter_cache = record {
      array =
          write_at zero_filter s.filter_cache.array id
            (record (filter_of s id) { schema_type_id = some schema_type_id });
      num_elements = s.filter_cache.num_elements;
    };
  }

  filter_of-retyped :
      (other : ℕ)
      → filter_of retyped other ≡ (
          if id == other
          then record (filter_of s id) { schema_type_id = some schema_type_id }
          else filter_of s other)
  filter_of-retyped other =
      get_or-write_at zero_filter s.filter_cache.array id other
        (record (filter_of s id) { schema_type_id = some schema_type_id })

  pub schema_type_id-retyped :
      (other : ℕ)
      → (filter_of retyped other).schema_type_id
        ≡ (if id == other then some schema_type_id else (filter_of s other).schema_type_id)
  schema_type_id-retyped other = ground (arith, filter_of-retyped other)

  pub expiration_at-retyped : (other : ℕ) → expiration_at retyped other ≡ expiration_at s other
  expiration_at-retyped other = ground (arith, filter_of-retyped other)

  pub visible-retyped : (later other : ℕ) → visible retyped later other ≡ visible s later other
  visible-retyped later other =
      ap
        (λ (e : Option ℕ).
          if is_past later e then none else document_at s.document_log (offset_at s other))
        (expiration_at-retyped other)

  pub IsSound-retyped : IsSound s → IsSound retyped
  IsSound-retyped sound = record {
    aligned = sound.aligned;
    bounded = sound.bounded;
    known = sound.known;
    own = sound.own;
    stored = sound.stored;
    apart = sound.apart;
  }

  pub IsFiled-retyped : (env : Environment) (now : ℕ) → IsFiled env s now → IsFiled env retyped now
  IsFiled-retyped env now filed = record {
    own_key = λ other d shown. filed.own_key other d (sym (visible-retyped now other) ∙ shown);
    expires = λ other d shown.
        expiration_at-retyped other
        ∙ filed.expires other d (sym (visible-retyped now other) ∙ shown);
    created = λ other d shown. filed.created other d (sym (visible-retyped now other) ∙ shown);
  }
