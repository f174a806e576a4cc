-- ===== src/Store/DocumentStore/Usage.antt =====
-- ReportUsage of icing/store/document-store.cc.
use external_icing.Base.{ℕ, not}
use external_icing.Store.{value, error, not_found, Text, fail_if, ◌>>=◌, ◌>>◌}
use external_icing.Store.UsageStore.{UsageReport, add_usage_report}
use external_icing.Store.DocumentStore.{Environment, get_document_id, internal_does_document_exist}
use external_icing.Store.DocumentStore.Caches.{Action}

-- `usage_store_->AddUsageReport`
unfoldable pub add_report : UsageReport → ℕ → Action (Unit {0})
unfolding add_usage_report
add_report report document_id s = elim (add_usage_report s.usage_store report document_id) [
  | error e ↦ (error e, s)
  | value store ↦ (value tt, record s { usage_store = store })
]

-- ReportUsage, of the document with the namespace and the uri of the report
unfoldable pub report_usage : Environment → ℕ → Text → Text → UsageReport → Action (Unit {0})
unfolding get_document_id internal_does_document_exist add_report
report_usage env now document_namespace document_uri report = do
  document_id ← (λ s. (get_document_id env s document_namespace document_uri, s))
  (λ s. fail_if (not (internal_does_document_exist s now document_id)) not_found s)
  add_report report document_id
