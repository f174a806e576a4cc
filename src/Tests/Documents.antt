-- ===== src/Tests/Documents.antt =====
-- Document stores at concrete inputs.
use external_icing.Base.{
  ℕ, ◌+◌, ◌*◌, ◌%◌, ◌^◌, ◌≤◌, ◌≡◌, refl, true, false, [], ◌∷◌, none, some, arith, if◌then◌else◌,
  length, ltb, leb,
}
use external_icing.Store.{value, error, not_found, internal, Text, text_eq}
use external_icing.Store.KeyMapper.{find}
use external_icing.Store.UsageStore.{
  default_usage, UsageReport, UsageStore, usage_type2, add_usage_report, get_usage_scores,
  truncate_usage,
}
use external_icing.Store.UsageStore.Reports.{IsClean, InRange, usage, truncate_usage_stale}
use external_icing.Store.DocumentStore.{
  Document, DocumentStore, Environment, make_fingerprint, calculate_expiration_timestamp_ms,
  clear_if, clear_internal, get,
}
use external_icing.Store.DocumentStore.View.{visible, lookup, found, get_lem}
use external_icing.Store.DocumentStore.Put.{put, put_document, with_creation_time, with_length}
use external_icing.Store.DocumentStore.Put.Indexed.{Fits}
use external_icing.Store.DocumentStore.Put.Replaces.{Puts, put_document_lem}
use external_icing.Store.DocumentStore.Put.Gets.{
  put_and_found, get-put_document, get-put_document_collision, put_lem,
}
use external_icing.Store.DocumentStore.Put.Versions.{put_document-Inherits}
use external_icing.Store.DocumentStore.Put.Loses.{put_document-loses}
use external_icing.Store.DocumentStore.Delete.Removes.{Removes, delete_lem}
use external_icing.Store.DocumentStore.Delete.Groups.{
  group_of, namespace_of, Counts, WithoutGroup, delete_by_namespace_lem,
}
use external_icing.Store.DocumentStore.Delete.{delete, delete_by_namespace}
use external_icing.Store.DocumentStore.Optimize.{empty_store, optimize_into}
use external_icing.Store.DocumentStore.Optimize.Kept.{empty_store-IsSound}

abbrev hash : Text → ℕ
hash [] = 1
hash (x ∷ xs) = (x + 256 * hash xs) % 2 ^ 64

abbrev pub env : Environment
env = record {
  validate = λ d. value tt;
  get_schema_type_id = λ t. value 0;
  byte_size = λ d. length d.properties + 10;
  stored_size = λ d. length d.properties + 5;
  max_proto_size = 100;
  fingerprint64 = hash;
  has_key_room = λ m k. true;
  has_namespace_room = λ m k. ltb (length m) 2;
  has_corpus_room = λ m k. true;
}

abbrev pub mail : Document
mail = record {
  name_space = 1 ∷ 2 ∷ [];
  uri = 3 ∷ [];
  schema = 7 ∷ [];
  score = 4;
  creation_timestamp_ms = 1000;
  ttl_ms = 500;
  length_in_tokens = 6;
  properties = 9 ∷ 9 ∷ [];
}

abbrev newer : Document
newer = record mail { properties = 8 ∷ []; creation_timestamp_ms = 1200 }

abbrev other : Document
other = record mail { uri = 4 ∷ []; ttl_ms = 0 }

-- The last version of a document is what Get gives, until it expires; deleting it leaves the other.
abbrev three : DocumentStore
three = (put env 1000 other 5 (put env 1000 newer 6 (put env 1000 mail 6 empty_store).1).1).1

three_run :
    (get env three 1300 (1 ∷ 2 ∷ []) (3 ∷ []) true ≡ value (clear_if true newer))
    × (get env three 1700 (1 ∷ 2 ∷ []) (3 ∷ []) true ≡ error not_found)
    × ((delete env 1300 (1 ∷ 2 ∷ []) (3 ∷ []) three).0 ≡ value tt)
    × (get env (delete env 1300 (1 ∷ 2 ∷ []) (3 ∷ []) three).1 1300 (1 ∷ 2 ∷ []) (4 ∷ []) true
        ≡ value (clear_if true other))
    × ((optimize_into env (λ d. value 5) three 1300).1.document_id_mapper.num_elements ≡ 2)
unfolding get put delete optimize_into
three_run = (refl, refl, refl, refl, refl)

-- Names that are the same when joined are one document.
collision_run : get env three 1300 (1 ∷ []) (2 ∷ 3 ∷ []) true ≡ value (clear_if true newer)
unfolding get put
collision_run = refl

pub mail-Fits : Fits env empty_store mail
unfolding make_fingerprint
mail-Fits = record {
  small = omega arith;
  small_stored = omega arith;
  id_left = omega arith;
  key_room = refl;
  namespace_room = refl;
  corpus_room = refl;
  corpus_id_left = omega arith;
  schema_type_id = 0;
  typed = refl;
}

pub stored-Puts : Puts env empty_store mail (put_document env 1000 mail empty_store)
stored-Puts = put_document_lem env empty_store 1000 mail empty_store-IsSound mail-Fits

-- A store with one document.
abbrev pub stored : DocumentStore
stored = (put_document env 1000 mail empty_store).1

newer-Fits : Fits env stored newer
unfolding make_fingerprint put_document
newer-Fits = record {
  small = omega arith;
  small_stored = omega arith;
  id_left = omega arith;
  key_room = refl;
  namespace_room = refl;
  corpus_room = refl;
  corpus_id_left = omega arith;
  schema_type_id = 0;
  typed = refl;
}

newer_lem-Fits : Fits env stored (with_creation_time 1200 (with_length 6 newer))
unfolding with_creation_time
newer_lem-Fits = newer-Fits

put_lem_example :
    Puts env stored (with_creation_time 1200 (with_length 6 newer)) (put env 1200 newer 6 stored)
put_lem_example = put_lem env stored 1200 6 newer refl (stored-Puts.1) newer_lem-Fits

stored_key :
    find stored.document_key_mapper (make_fingerprint env newer.name_space newer.uri) ≡ some 0
unfolding put_document make_fingerprint
stored_key = refl

put_document-Inherits_example :
    (visible (put_document env 1200 newer stored).1 1200 0 ≡ none)
    × (usage
          (put_document env 1200 newer stored).1.usage_store
          stored.document_id_mapper.num_elements
        ≡ usage stored.usage_store 0)
put_document-Inherits_example =
    put_document-Inherits env stored 1200 newer (stored-Puts.1) newer-Fits 0 stored_key

get-put_document_example :
    get env (put_document env 1200 newer stored).1 1300 (1 ∷ 2 ∷ []) (3 ∷ []) true ≡ (
      if text_eq
        (make_fingerprint env (1 ∷ 2 ∷ []) (3 ∷ []))
        (make_fingerprint env (1 ∷ 2 ∷ []) (3 ∷ []))
      then put_and_found 1300 newer
      else get env stored 1300 (1 ∷ 2 ∷ []) (3 ∷ []) true)
get-put_document_example =
    get-put_document env stored 1200 1300 newer (1 ∷ 2 ∷ []) (3 ∷ []) true (stored-Puts.1)
      newer-Fits

newer_alive : leb (calculate_expiration_timestamp_ms 1200 500) 1300 ≡ false
unfolding calculate_expiration_timestamp_ms
newer_alive = refl

get-put_document_collision_example :
    get env (put_document env 1200 newer stored).1 1300 (1 ∷ []) (2 ∷ 3 ∷ []) true
    ≡ value (clear_if true newer)
get-put_document_collision_example =
    get-put_document_collision env stored 1200 1300 newer (1 ∷ []) (2 ∷ 3 ∷ []) true (stored-Puts.1)
      newer-Fits refl newer_alive

delete_lem_example :
    Removes stored 1300
      (make_fingerprint env (1 ∷ 2 ∷ []) (3 ∷ []))
      (delete env 1300 (1 ∷ 2 ∷ []) (3 ∷ []) stored)
delete_lem_example = delete_lem env stored 1300 (1 ∷ 2 ∷ []) (3 ∷ []) (stored-Puts.1)

get_lem_example :
    get env stored 1300 (1 ∷ 2 ∷ []) (3 ∷ []) false
    ≡ clear_internal true (found (lookup stored 1300 (make_fingerprint env (1 ∷ 2 ∷ []) (3 ∷ []))))
get_lem_example = get_lem env stored 1300 (1 ∷ 2 ∷ []) (3 ∷ []) false (stored-Puts.1)

stored_namespace : find stored.namespace_mapper (1 ∷ 2 ∷ []) ≡ some 0
unfolding put_document
stored_namespace = refl

delete_by_namespace_lem_example :
    let r = delete_by_namespace 1300 (1 ∷ 2 ∷ []) stored in
    (n : ℕ) × (r.0 ≡ group_of n)
    × Counts stored 1300 namespace_of 0 0 stored.document_id_mapper.num_elements n
    × WithoutGroup stored 1300 namespace_of 0 r.1
delete_by_namespace_lem_example =
    delete_by_namespace_lem stored 1300 (1 ∷ 2 ∷ []) 0 (stored-Puts.1) stored_namespace

-- A type that the corpus mapper has no room for.
abbrev full_corpora : Environment
full_corpora = record env { has_corpus_room = λ m k. false }

abbrev retyped : Document
retyped = record newer { schema = 6 ∷ [] }

retyped_new : find stored.corpus_mapper (make_fingerprint full_corpora (1 ∷ 2 ∷ []) (6 ∷ [])) ≡ none
unfolding put_document make_fingerprint
retyped_new = refl

one_id : stored.document_id_mapper.num_elements ≤ 1048574
unfolding put_document
one_id = omega arith

namespace_room : full_corpora.has_namespace_room stored.namespace_mapper (1 ∷ 2 ∷ []) ≡ true
unfolding put_document
namespace_room = refl

put_document-loses_example :
    ((put_document full_corpora 1200 retyped stored).0 ≡ error internal)
    × ((later : ℕ)
        → lookup
            (put_document full_corpora 1200 retyped stored).1
            later
            (make_fingerprint full_corpora (1 ∷ 2 ∷ []) (3 ∷ []))
          ≡ none)
put_document-loses_example =
    put_document-loses full_corpora stored (stored-Puts.1) retyped (omega arith) (omega arith)
      one_id refl namespace_room retyped_new refl 1200

abbrev report : UsageReport
report = record { usage_type = usage_type2; usage_timestamp_ms = 7000 }

abbrev no_usage : UsageStore
no_usage = record { array = []; num_elements = 0 }

no_usage-IsClean : IsClean no_usage
no_usage-IsClean = record { blank_behind = λ id h. refl }

default_usage-InRange : InRange default_usage
default_usage-InRange = omega arith

abbrev used : UsageStore
used = record { array = record default_usage { usage_type1_count = 5 } ∷ []; num_elements = 1 }

truncate_usage_stale_example :
    (truncated store' : UsageStore) × (truncate_usage used 0 ≡ value truncated)
    × (get_usage_scores truncated 0 ≡ value default_usage)
    × (add_usage_report truncated report 1 ≡ value store')
    × (get_usage_scores store' 0 ≡ value (record default_usage { usage_type1_count = 5 }))
truncate_usage_stale_example =
    truncate_usage_stale used 0 0 1 report (omega arith) (omega arith) (omega arith) (omega arith)
