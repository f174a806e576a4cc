-- ===== src/Store/UsageStore/Reports.antt =====
-- What the reports to icing/store/usage-store.cc add up to, and what truncation leaves in the file.
use external_icing.Base.{
  ℕ, ◌+◌, ◌/◌, ◌≤◌, ◌<◌, ◌≡◌, refl, ap, ◌∙◌, true, false, arith, ltb, leb, ◌==◌, max, if◌then◌else◌,
  get_or, ◌&&◌,
}
use external_icing.Hit.{max_document_id}
use external_icing.Store.{value}
use external_icing.Store.FileBackedVector.{
  vector_get, vector_set, truncate_to, write_at, get_or-write_at, max_num_elements,
}
use external_icing.Store.UsageStore.{
  UsageScores, default_usage, UsageReport, UsageStore, add_usage, scores_or_default,
  add_usage_report, max_timestamp, max_count, UsageType, usage_type1, usage_type2, usage_type3,
  get_usage_scores, clone_usage_scores, truncate_usage, is_document_id_valid,
}

-- The file has nothing behind the elements in use.
pub record IsClean (store : UsageStore) : Type 0 where
  pub blank_behind :
      (id : ℕ) → store.num_elements ≤ id → get_or store.array id default_usage ≡ default_usage

-- The scores of a document, as they are read.
abbrev pub usage : UsageStore → ℕ → UsageScores
usage store id =
    if leb store.num_elements id then default_usage else get_or store.array id default_usage

module _ (store : UsageStore) (id : ℕ) (valid : id ≤ max_document_id) where
  is_valid : is_document_id_valid id ≡ true
  is_valid = ground arith

  found_usage : scores_or_default (vector_get default_usage store id) ≡ value (usage store id)
  unfolding scores_or_default vector_get
  found_usage = ground arith

  pub get_usage_scores-usage : get_usage_scores store id ≡ value (usage store id)
  unfolding get_usage_scores
  get_usage_scores-usage = rw (is_valid) found_usage

  abbrev pub stored : UsageScores → UsageStore
  stored scores = record {
    array = write_at default_usage store.array id scores;
    num_elements = max store.num_elements (id + 1);
  }

  pub vector_set-stored :
      (scores : UsageScores) → vector_set default_usage store id scores ≡ value (stored scores)
  unfolding vector_set
  vector_set-stored scores =
      let fits : ltb store.num_elements (id + 1) && ltb max_num_elements (id + 1) ≡ false =
        ground arith in
      rw fits refl

  module _ (clean : IsClean store) (scores : UsageScores) where
    pub usage-stored :
        (other : ℕ)
        → usage (stored scores) other ≡ (if id == other then scores else usage store other)
    usage-stored other =
        ground (
          arith,
          clean.blank_behind other,
          get_or-write_at default_usage store.array id other scores,
        )

    pub IsClean-stored : IsClean (stored scores)
    IsClean-stored = record {
      blank_behind = λ other h. ground (
        arith,
        clean.blank_behind other,
        get_or-write_at default_usage store.array id other scores,
      );
    }

-- What a report makes of the scores of its document.
abbrev pub reported : UsageReport → UsageScores → UsageScores
reported report scores = add_usage report.usage_type (report.usage_timestamp_ms / 1000) scores

module _ (store : UsageStore) (clean : IsClean store) where
  -- A report of a document changes the document's scores, and no others: what is read of any document
  -- afterwards; and the store stays clean.
  pub add_usage_report_lem :
      (report : UsageReport) (id other : ℕ)
      → id ≤ max_document_id
      → other ≤ max_document_id
      → (store' : UsageStore) × (add_usage_report store report id ≡ value store')
        × IsClean store'
        × (get_usage_scores store' other
            ≡ value (if id == other then reported report (usage store id) else usage store other))
  unfolding add_usage_report
  add_usage_report_lem report id other valid other_valid =
      let scores = reported report (usage store id) in
      let store' = stored store id valid scores in
      (
        store',
        rw (add_usage_report, is_valid store id valid, found_usage store id valid)
            (vector_set-stored store id valid scores),
        IsClean-stored store id valid clean scores,
        get_usage_scores-usage store' other other_valid
            ∙ ap value (usage-stored store id valid clean scores other),
      )

  -- Cloning gives a document the scores of another.
  pub clone_usage_scores_lem :
      (from to : ℕ)
      → from ≤ max_document_id
      → to ≤ max_document_id
      → (store' : UsageStore) × (clone_usage_scores store from to ≡ value store')
        × IsClean store'
        × ((other : ℕ)
            → other ≤ max_document_id
            → get_usage_scores store' other
              ≡ value (if to == other then usage store from else usage store other))
  unfolding clone_usage_scores
  clone_usage_scores_lem from to valid valid' =
      let scores = usage store from in
      let store' = stored store to valid' scores in
      (
        store',
        rw
            (
              clone_usage_scores,
              is_valid store from valid,
              is_valid store to valid',
              found_usage store from valid,
            )
            (vector_set-stored store to valid' scores),
        IsClean-stored store to valid' clean scores,
        λ other h.
            get_usage_scores-usage store' other h
            ∙ ap value (usage-stored store to valid' clean scores other),
      )

-- Truncation does not clear the file: once a report of a later document makes the vector grow again,
-- a document in between that was never reported has the scores that were cut off.
pub truncate_usage_stale :
    (store : UsageStore) (num_documents id later : ℕ) (report : UsageReport)
    → num_documents ≤ id
    → id < later
    → id < store.num_elements
    → later ≤ max_document_id
    → (truncated store' : UsageStore) × (truncate_usage store num_documents ≡ value truncated)
      × (get_usage_scores truncated id ≡ value default_usage)
      × (add_usage_report truncated report later ≡ value store')
      × (get_usage_scores store' id ≡ value (get_or store.array id default_usage))
unfolding truncate_usage truncate_to add_usage_report
truncate_usage_stale store num_documents id later report h k used valid =
    let truncated : UsageStore = record store { num_elements = num_documents } in
    let scores = reported report (usage truncated later) in
    let store' = stored truncated later valid scores in
    let cut : leb store.num_elements num_documents ≡ false = ground arith in
    let behind : leb num_documents id ≡ true = ground arith in
    let within : leb (max num_documents (later + 1)) id ≡ false = ground arith in
    let differ : (later == id) ≡ false = ground arith in
    (
      truncated,
      store',
      rw cut refl,
      get_usage_scores-usage truncated id (omega arith) ∙ rw behind refl,
      rw (add_usage_report, is_valid truncated later valid, found_usage truncated later valid)
          (vector_set-stored truncated later valid scores),
      get_usage_scores-usage store' id (omega arith)
          ∙ rw within (
              ap value
                (get_or-write_at default_usage store.array later id scores ∙ rw differ refl)),
    )

-- The ranges of the members, `uint32_t` and `int`.
pub record InRange (scores : UsageScores) : Type 0 where
  pub time1 : scores.usage_type1_last_used_timestamp_s ≤ max_timestamp
  pub time2 : scores.usage_type2_last_used_timestamp_s ≤ max_timestamp
  pub time3 : scores.usage_type3_last_used_timestamp_s ≤ max_timestamp
  pub count1 : scores.usage_type1_count ≤ max_count
  pub count2 : scores.usage_type2_count ≤ max_count
  pub count3 : scores.usage_type3_count ≤ max_count

-- A report leaves every member in the range of its type, and makes none smaller.
pub add_usage_bounds :
    (type : UsageType) (report : ℕ) (scores : UsageScores)
    → InRange scores
    → let after = add_usage type report scores in
      InRange after
      × (scores.usage_type1_last_used_timestamp_s ≤ after.usage_type1_last_used_timestamp_s)
      × (scores.usage_type2_last_used_timestamp_s ≤ after.usage_type2_last_used_timestamp_s)
      × (scores.usage_type3_last_used_timestamp_s ≤ after.usage_type3_last_used_timestamp_s)
      × (scores.usage_type1_count ≤ after.usage_type1_count)
      × (scores.usage_type2_count ≤ after.usage_type2_count)
      × (scores.usage_type3_count ≤ after.usage_type3_count)
unfolding add_usage
add_usage_bounds usage_type1 report scores h = ground arith
add_usage_bounds usage_type2 report scores h = ground arith
add_usage_bounds usage_type3 report scores h = ground arith
