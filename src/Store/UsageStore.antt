-- ===== src/Store/UsageStore.antt =====
-- icing/store/usage-store.{h,cc}: how often and when a document was used. Times and counts are
-- natural numbers: a report has no time before the epoch.
pub mod Reports
use external_icing.Base.{
  ℕ, ◌+◌, ◌-◌, ◌/◌, ◌^◌, ◌≤◌, ◌≡◌, refl, Bool, not, List, arith, ltb, leb, if◌then◌else◌,
}
use external_icing.Hit.{max_document_id}
use external_icing.Store.{StatusOr, value, error, Status, out_of_range, invalid_argument}
use external_icing.Store.FileBackedVector.{Vector, vector_get, vector_set, truncate_to}

pub record UsageScores : Type 0 where
  pub usage_type1_last_used_timestamp_s : ℕ
  pub usage_type2_last_used_timestamp_s : ℕ
  pub usage_type3_last_used_timestamp_s : ℕ
  pub usage_type1_count : ℕ
  pub usage_type2_count : ℕ
  pub usage_type3_count : ℕ

abbrev pub default_usage : UsageScores
default_usage = record {
  usage_type1_last_used_timestamp_s = 0;
  usage_type2_last_used_timestamp_s = 0;
  usage_type3_last_used_timestamp_s = 0;
  usage_type1_count = 0;
  usage_type2_count = 0;
  usage_type3_count = 0;
}

pub data UsageType : Type 0 where
  usage_type1 usage_type2 usage_type3 : UsageType

pub record UsageReport : Type 0 where
  pub usage_type : UsageType
  pub usage_timestamp_ms : ℕ

abbrev pub UsageStore : Type 0
UsageStore = Vector UsageScores

-- IsDocumentIdValid of icing/store/document-id.h
abbrev pub is_document_id_valid : ℕ → Bool
is_document_id_valid document_id = leb document_id max_document_id

-- The largest `uint32_t` and the largest `int`.
abbrev pub max_timestamp : ℕ
max_timestamp = 2 ^ 32 - 1

abbrev pub max_count : ℕ
max_count = 2 ^ 31 - 1

-- How a report moves a type's time of the last use, and its count.
unfoldable pub update_timestamp : ℕ → ℕ → ℕ
update_timestamp report last =
    if ltb max_timestamp report then max_timestamp else if ltb last report then report else last

unfoldable pub update_count : ℕ → ℕ
update_count count = if ltb count max_count then count + 1 else count

-- The switch of AddUsageReport.
unfoldable pub add_usage : UsageType → ℕ → UsageScores → UsageScores
unfolding update_timestamp update_count
add_usage usage_type1 report scores = record scores {
  usage_type1_last_used_timestamp_s =
      update_timestamp report scores.usage_type1_last_used_timestamp_s;
  usage_type1_count = update_count scores.usage_type1_count;
}
add_usage usage_type2 report scores = record scores {
  usage_type2_last_used_timestamp_s =
      update_timestamp report scores.usage_type2_last_used_timestamp_s;
  usage_type2_count = update_count scores.usage_type2_count;
}
add_usage usage_type3 report scores = record scores {
  usage_type3_last_used_timestamp_s =
      update_timestamp report scores.usage_type3_last_used_timestamp_s;
  usage_type3_count = update_count scores.usage_type3_count;
}

-- The scores that are there, or the default ones of an id that was not seen; any other error of the
-- vector is passed up.
unfoldable pub scores_or_default : StatusOr UsageScores → StatusOr UsageScores
scores_or_default (value scores) = value scores
scores_or_default (error out_of_range) = value default_usage
scores_or_default (error e) = error e

abbrev write_scores : UsageStore → ℕ → StatusOr UsageScores → StatusOr UsageStore
write_scores store document_id (value scores) = vector_set default_usage store document_id scores
write_scores store document_id (error e) = error e

-- AddUsageReport
unfoldable pub add_usage_report : UsageStore → UsageReport → ℕ → StatusOr UsageStore
unfolding scores_or_default vector_get vector_set add_usage
add_usage_report store report document_id =
    let found = scores_or_default (vector_get default_usage store document_id) in
    let report_timestamp_s = report.usage_timestamp_ms / 1000 in
    if not (is_document_id_valid document_id) then error invalid_argument else elim found [
      | error e ↦ error e
      | value scores ↦
          vector_set default_usage store document_id
            (add_usage report.usage_type report_timestamp_s scores)
    ]

-- DeleteUsageScores
unfoldable pub delete_usage_scores : UsageStore → ℕ → StatusOr UsageStore
unfolding vector_set
delete_usage_scores store document_id =
    if not (is_document_id_valid document_id)
    then error invalid_argument
    else if leb store.num_elements document_id
    then value store
    else vector_set default_usage store document_id default_usage

-- GetUsageScores
unfoldable pub get_usage_scores : UsageStore → ℕ → StatusOr UsageScores
unfolding scores_or_default vector_get
get_usage_scores store document_id =
    if not (is_document_id_valid document_id)
    then error invalid_argument
    else scores_or_default (vector_get default_usage store document_id)

-- SetUsageScores
unfoldable pub set_usage_scores : UsageStore → ℕ → UsageScores → StatusOr UsageStore
unfolding vector_set
set_usage_scores store document_id scores =
    if not (is_document_id_valid document_id)
    then error invalid_argument
    else vector_set default_usage store document_id scores

-- CloneUsageScores
unfoldable pub clone_usage_scores : UsageStore → ℕ → ℕ → StatusOr UsageStore
unfolding scores_or_default vector_get vector_set
clone_usage_scores store from to =
    if not (is_document_id_valid from)
    then error invalid_argument
    else if not (is_document_id_valid to)
    then error invalid_argument
    else write_scores store to (scores_or_default (vector_get default_usage store from))

-- UsageStore::TruncateTo
unfoldable pub truncate_usage : UsageStore → ℕ → StatusOr UsageStore
unfolding truncate_to
truncate_usage store num_documents =
    if leb store.num_elements num_documents then value store else truncate_to store num_documents
