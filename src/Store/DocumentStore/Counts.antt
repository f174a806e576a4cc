-- ===== src/Store/DocumentStore/Counts.antt =====
-- GetAllNamespaces, CalculateDocumentStatusCounts and GetOptimizeInfo of icing/store/document-store.cc.
-- The sizes of files are a parameter.
use external_icing.Base.{
  ℕ, zero, suc, ◌+◌, ◌*◌, ◌/◌, Bool, true, false, not, List, [], ◌∷◌, Option, none, some, ◌==◌,
  if◌then◌else◌,
}
use external_icing.Store.{value, error, Text, text_eq}
use external_icing.Store.FileBackedVector.{vector_get}
use external_icing.Store.KeyMapper.{KeyMapper}
use external_icing.Store.UsageStore.{get_usage_scores}
use external_icing.Store.DocumentStore.{
  DocumentStore, zero_filter, is_deleted, is_expired, internal_does_document_exist,
}

-- GetValuesToKeys, where it has an id
abbrev pub name_of : KeyMapper → Option ℕ → Option Text
name_of mapper none = none
name_of [] (some id) = none
name_of ((name, v) ∷ rest) (some id) = if v == id then some name else name_of rest (some id)

abbrev pub has_namespace : List Text → Text → Bool
has_namespace [] name = false
has_namespace (x ∷ xs) name = if text_eq x name then true else has_namespace xs name

-- `insert` into a set
abbrev pub add_namespace : Option Text → List Text → List Text
add_namespace none names = names
add_namespace (some name) names = if has_namespace names name then names else name ∷ names

-- The loop of GetAllNamespaces from an id on, with the rounds that are left; an id of the set stands
-- for its name.
unfoldable pub all_namespaces_loop : DocumentStore → ℕ → ℕ → ℕ → List Text → List Text
unfolding internal_does_document_exist
all_namespaces_loop s now zero document_id names = names
all_namespaces_loop s now (suc rounds) document_id names =
    let rest : List Text → List Text = all_namespaces_loop s now rounds (document_id + 1) in
    elim (vector_get zero_filter s.filter_cache document_id) [
      | error _ ↦ []
      | value entry ↦ rest (
          if internal_does_document_exist s now document_id
          then add_namespace (name_of s.namespace_mapper entry.namespace_id) names
          else names)
    ]

-- GetAllNamespaces; the order of the set is not specified.
unfoldable pub get_all_namespaces : DocumentStore → ℕ → List Text
unfolding all_namespaces_loop
get_all_namespaces s now = all_namespaces_loop s now s.filter_cache.num_elements 0 []

-- The totals of DocumentStorageInfoProto.
pub record StatusCounts : Type 0 where
  pub num_alive_documents : ℕ
  pub num_expired_documents : ℕ
  pub num_deleted_documents : ℕ

-- Whether the counts go on to the document's state: its filter entry, its namespace and its usage are
-- found.
unfoldable pub has_info : DocumentStore → ℕ → Bool
unfolding vector_get get_usage_scores
has_info s document_id = elim (vector_get zero_filter s.filter_cache document_id) [
  | error _ ↦ false
  | value entry ↦ elim (name_of s.namespace_mapper entry.namespace_id) [
    | none ↦ false
    | some name ↦ elim (get_usage_scores s.usage_store document_id) [
      | error _ ↦ false
      | value _ ↦ true
    ]
  ]
]

abbrev pub count_one : DocumentStore → ℕ → ℕ → StatusCounts → StatusCounts
count_one s now document_id counts =
    if is_deleted s document_id
    then record counts { num_deleted_documents = counts.num_deleted_documents + 1 }
    else if not (has_info s document_id)
    then counts
    else if is_expired s now document_id
    then record counts { num_expired_documents = counts.num_expired_documents + 1 }
    else record counts { num_alive_documents = counts.num_alive_documents + 1 }

-- The loop of CalculateDocumentStatusCounts
unfoldable pub status_counts_loop : DocumentStore → ℕ → ℕ → ℕ → StatusCounts → StatusCounts
unfolding is_deleted is_expired has_info
status_counts_loop s now zero document_id counts = counts
status_counts_loop s now (suc rounds) document_id counts =
    status_counts_loop s now rounds (document_id + 1) (count_one s now document_id counts)

-- CalculateDocumentStatusCounts, the totals
unfoldable pub calculate_document_status_counts : DocumentStore → ℕ → StatusCounts
unfolding status_counts_loop
calculate_document_status_counts s now =
    status_counts_loop s now s.document_id_mapper.num_elements 0
      (record { num_alive_documents = 0; num_expired_documents = 0; num_deleted_documents = 0 })

-- OptimizeInfo
pub record OptimizeInfo : Type 0 where
  pub total_docs : ℕ
  pub optimizable_docs : ℕ
  pub estimated_optimizable_bytes : ℕ

-- The loop of GetOptimizeInfo: the documents that do not exist.
unfoldable pub optimizable_loop : DocumentStore → ℕ → ℕ → ℕ → ℕ
unfolding internal_does_document_exist
optimizable_loop s now zero document_id = 0
optimizable_loop s now (suc rounds) document_id =
    (if not (internal_does_document_exist s now document_id) then 1 else 0)
    + optimizable_loop s now rounds (document_id + 1)

-- GetOptimizeInfo, for the size of all files together
unfoldable pub get_optimize_info : DocumentStore → ℕ → ℕ → OptimizeInfo
unfolding optimizable_loop
get_optimize_info s now total_size =
    let total = s.document_id_mapper.num_elements in
    let optimizable = optimizable_loop s now total 0 in
    record {
      total_docs = total;
      optimizable_docs = optimizable;
      estimated_optimizable_bytes = if total == 0 then 0 else total_size * optimizable / total;
    }
