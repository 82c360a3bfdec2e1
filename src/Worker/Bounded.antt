-- ===== src/Worker/Bounded.antt =====
-- `boundedHttp` and `assertWithinLimits` of apps/worker/src/processor.ts: the requests of a run, and
-- its limits.
pub mod Fetching
use mathlib.Core.Option
use Prim.Native.String.{String}
use text.Mathlib.Text.{◌==◌ as str_eq}
use mirth_spool.Base.{
  ℕ, zero, suc, ◌+◌, ◌-◌, ◌*◌, max, Bool, true, false, not, ◌&&◌, ◌||◌, Option, none, some, List,
  [], ◌∷◌, ◌++◌, leb, ltb, ◌==◌, if◌then◌else◌, length,
}
use mirth_spool.Base.Maybe.{traverse}
use mirth_spool.Db.{SourceKind, SourceStatus, RunTrigger}
use mirth_spool.Text.{Platform}
use mirth_spool.Connector.Errors.{
  ErrorKind, transient, permanent, malformed_response, Thrown, connector, other, connector_error,
  SafeFailure, safe_connector_failure, is_retryable,
}
use mirth_spool.Connector.Page.{
  RateLimitState, Page, parse_page, HttpRequest, HttpResponse, Reply, response, failed, Fetch,
  returns, throws, requests,
}
use mirth_spool.Ingestion.Rows.{
  Credential, SourceRow, Stats, empty_stats, RunRow, CheckpointRow, Db,
}
use mirth_spool.Ingestion.Persist.{PageInput, Persisted, persist_ingestion_page}
use mirth_spool.Ingestion.Runs.{
  ClaimInput, Claim, claimed, unavailable, conflict, rejected, claim_ingestion_run, EndStatus,
  FinalizeInput, finalize_ingestion_run,
}
use mirth_spool.Worker.Backoff.{
  JobError, retryable, unrecoverable, unexpected, retry_delay_milliseconds, source_status_for,
}
use mirth_spool.Worker.Content.{normalized_content}

pub record IngestionLimits : Type 0 where
  pub max_bytes : ℕ
  pub max_duration_ms : ℕ
  pub max_items : ℕ
  pub max_pages : ℕ
  pub max_requests : ℕ

abbrev pub permanent_error : String → Thrown
permanent_error code = connector (connector_error permanent (some code) none)

-- The bytes are counted before the limit is tested.
count_bytes : IngestionLimits → Reply → Stats → Reply × Stats
count_bytes limits (failed error) stats = (failed error, stats)
count_bytes limits (response r) stats =
    let counted : Stats = record stats { bytes_fetched = stats.bytes_fetched + length r.body } in
    if ltb limits.max_bytes counted.bytes_fetched
    then (failed (permanent_error "SOURCE_BYTE_LIMIT"), counted)
    else (response r, counted)

unfoldable pub bounded_http :
    IngestionLimits → (ℕ → HttpRequest → Reply) → HttpRequest → Stats → Reply × Stats
unfolding count_bytes
bounded_http limits http input stats =
    if leb limits.max_requests stats.provider_requests
    then (failed (permanent_error "SOURCE_REQUEST_LIMIT"), stats)
    else count_bytes limits (http stats.provider_requests input)
        (record stats { provider_requests = stats.provider_requests + 1 })

pub data Fetched : Type 0 where
  page : Page → Fetched
  threw : Thrown → Fetched

-- A connector's `fetchPage` over the bounded client.
unfoldable pub run_fetch :
    IngestionLimits → (ℕ → HttpRequest → Reply) → Fetch → Stats → Fetched × Stats
unfolding bounded_http
run_fetch limits http (returns p) stats = (page p, stats)
run_fetch limits http (throws error) stats = (threw error, stats)
run_fetch limits http (requests input next) stats =
    let (reply, counted) = bounded_http limits http input stats in
    run_fetch limits http (next reply) counted

unfoldable pub assert_within_limits : Bool → Stats → IngestionLimits → Option Thrown
assert_within_limits aborted stats limits =
    if aborted
    then some (connector (connector_error transient (some "SOURCE_RUN_TIMEOUT") none))
    else if ltb limits.max_requests stats.provider_requests
        || ltb limits.max_bytes stats.bytes_fetched
    then some (permanent_error "SOURCE_RUN_LIMIT")
    else none
