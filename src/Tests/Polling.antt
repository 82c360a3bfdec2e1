-- ===== src/Tests/Polling.antt =====
-- Tests of the polling of sources: connectors' errors, the pages that are stored, runs and jobs.
use mirth_spool.Base.{
  ℕ, ◌+◌, ◌≤◌, ◌≡◌, refl, ◌↔◌, ◌⊎◌, true, Option, none, some, [], ◌∷◌, arith, any, length,
}
use mirth_spool.Base.Table.{count_where, update_where}
use mirth_spool.Db.{RunStatus}
use mirth_spool.Connector.Errors.{classify_http_status, is_retryable}
use mirth_spool.Connector.Errors.Retry.{IsBoundedWait, classify_http_status-is_retryable}
use mirth_spool.Text.{utf16_length, trim}
use mirth_spool.Ingestion.Tags.{parse_tags}
use mirth_spool.Ingestion.Rows.{RunRow, Db, has_source_id}
use mirth_spool.Ingestion.Persist.{Persisted, is_writable, persist_ingestion_page}
use mirth_spool.Ingestion.Columns.{fits_columns}
use mirth_spool.Ingestion.Persist.Counts.{is_valid_item, IsStorable, persist_ingestion_page_total}
use mirth_spool.Ingestion.Persist.Rewritten.{HasUniqueKeys}
use mirth_spool.Ingestion.Persist.Keys.{
  HasEvery, persist_ingestion_page-HasUniqueKeys, persist_ingestion_page_again,
}
use mirth_spool.Ingestion.Runs.{
  claimed, conflict, claim_ingestion_run, valid_claim, pollable_source, cleanup_ingestion_runs,
}
use mirth_spool.Ingestion.Runs.Lease.{
  HasOneRun, claims, cleans, here, next, RunSteps-HasOneRun, claim_ingestion_run-conflict_iff,
  is_held,
}
use mirth_spool.Worker.Backoff.{retry_delay_milliseconds, source_backoff_strategy}
use mirth_spool.Worker.Backoff.Delay.{
  retry_delay_milliseconds_bounds, source_backoff_strategy_grows,
}
use mirth_spool.Examples.{test_platform, test_source, stale_run, test_db, test_page, test_claim}

abbrev status : ℕ
status = 429

classify_http_status-is_retryable_example :
    ((is_retryable (classify_http_status status (some 0)).kind ≡ true)
      ↔ ((status ≡ 408) ⊎ (status ≡ 425) ⊎ (status ≡ 429) ⊎ (500 ≤ status)))
    × IsBoundedWait (classify_http_status status (some 0)).retry_after_seconds
classify_http_status-is_retryable_example = classify_http_status-is_retryable status (some 0)

retry_delay_milliseconds_bounds_example :
    (1000 ≤ retry_delay_milliseconds (λ _ _. 65535) 1 3 (some 60))
    × (retry_delay_milliseconds (λ _ _. 65535) 1 3 (some 60) ≤ 86400000)
    × (◌≡◌ {A = Option ℕ} (some 60) none
        → (5000 ≤ retry_delay_milliseconds (λ _ _. 65535) 1 3 (some 60))
          × (retry_delay_milliseconds (λ _ _. 65535) 1 3 (some 60) ≤ 301000))
retry_delay_milliseconds_bounds_example =
    retry_delay_milliseconds_bounds (λ _ _. 65535) 1 3 (some 60) (omega arith, omega arith)

source_backoff_strategy_grows_example : (20000 ≤ 300000) × (7 ≤ 3 → ◌≡◌ {A = ℕ} 20000 300000)
unfolding source_backoff_strategy
source_backoff_strategy_grows_example =
    source_backoff_strategy_grows 3 8 20000 300000 (omega arith) refl refl

-- What the claim leaves: the stale run is cancelled, and a new one is running.
abbrev granted_run : RunRow
granted_run = record stale_run { id = 10; job_id = "job"; started_at = 3000 }

abbrev expired_run : RunRow
expired_run = record stale_run {
  error_code = some "RUN_LEASE_EXPIRED";
  error_message = some "The previous worker stopped before completing this run.";
  finished_at = some 3000;
  status = RunStatus.cancelled;
}

abbrev granted_db : Db
granted_db = record test_db { runs = granted_run ∷ expired_run ∷ []; next_id = 11 }

granted : claim_ingestion_run test_claim test_db ≡ claimed granted_run test_source granted_db
unfolding claim_ingestion_run utf16_length update_where
granted = refl

one_run : HasOneRun test_db
unfolding count_where
one_run = record { at = λ s. ground arith }

RunSteps-HasOneRun_example : HasOneRun (cleanup_ingestion_runs 5000 granted_db)
RunSteps-HasOneRun_example =
    RunSteps-HasOneRun one_run
      (next (next here (claims test_claim granted)) (cleans granted_db 5000))

claim_ingestion_run-conflict_iff_example :
    (claim_ingestion_run test_claim test_db ≡ conflict)
    ↔ (any (is_held test_claim) test_db.runs ≡ true)
unfolding valid_claim utf16_length pollable_source
claim_ingestion_run-conflict_iff_example =
    claim_ingestion_run-conflict_iff test_claim test_db test_source refl refl

storable : IsStorable test_page test_source test_db
unfolding has_source_id is_valid_item is_writable fits_columns parse_tags utf16_length trim
storable = record { size = omega arith; source_found = refl; items = (refl, tt) }

persist_ingestion_page_total_example :
    (d : Db) × (q : Persisted) × (persist_ingestion_page test_platform test_page 5 test_db
      ≡ some (d, q))
    × (q.created + q.updated ≡ 1)
    × (length q.content_ids ≡ 1)
persist_ingestion_page_total_example =
    persist_ingestion_page_total test_platform test_page 5 test_db test_source storable

unique_keys : HasUniqueKeys test_db.posts test_db.next_id
unfolding count_where
unique_keys = record { ids = λ i. omega arith; fresh = tt; keys = λ s e. omega arith }

-- The page as it was stored.
stored :
    (d : Db) × (q : Persisted) × (persist_ingestion_page test_platform test_page 5 test_db
      ≡ some (d, q))
    × (q.created + q.updated ≡ 1)
    × (length q.content_ids ≡ 1)
stored = persist_ingestion_page_total test_platform test_page 5 test_db test_source storable

persist_ingestion_page-HasUniqueKeys_example :
    HasUniqueKeys stored.0.posts stored.0.next_id × HasEvery test_platform test_page stored.0
persist_ingestion_page-HasUniqueKeys_example =
    persist_ingestion_page-HasUniqueKeys test_platform test_page 5 test_db stored.0 stored.1
      unique_keys stored.2

persist_ingestion_page_again_example :
    (d' : Db) × (q' : Persisted) × (persist_ingestion_page test_platform test_page 60 stored.0
      ≡ some (d', q'))
    × (q'.created ≡ 0)
    × (q'.updated ≡ 1)
persist_ingestion_page_again_example =
    persist_ingestion_page_again test_platform test_page 5 60 test_db stored.0 stored.1 unique_keys
      stored.2

-- The job claims the source at time 200000, when the lease of the stale run has expired.
abbrev polled_run : RunRow
polled_run = record stale_run { id = 10; job_id = "job"; started_at = 200000 }

abbrev polled_db : Db
polled_db = record test_db {
  runs = polled_run ∷ record expired_run { finished_at = some 200000 } ∷ [];
  next_id = 11;
}
