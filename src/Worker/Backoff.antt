-- ===== src/Worker/Backoff.antt =====
-- `retryDelayMilliseconds`, `sourceBackoffStrategy` and `sourceStatusFor` of
-- apps/worker/src/processor.ts: how long a source that failed waits.
pub mod Delay
use Prim.Native.String.{String}
use text.Mathlib.Text.{◌==◌ as str_eq}
use mirth_spool.Base.{
  ℕ, ◌+◌, ◌-◌, ◌*◌, ◌%◌, ◌^◌, min, Bool, true, false, not, Option, none, some, if◌then◌else◌,
}
use mirth_spool.Db.{SourceStatus}
use mirth_spool.Connector.Errors.{
  ErrorKind, transient, rate_limited, authentication, configuration, not_found, malformed_response,
  permanent,
}

-- Math.min(300_000, 5_000 * 2 ** Math.max(0, attempt - 1))
unfoldable pub backoff_base : ℕ → ℕ
backoff_base attempt = min 300000 (5000 * 2 ^ (attempt - 1))

-- `word` is the first 16 bits of the digest of a text made of the source and the attempt.
unfoldable pub retry_delay_milliseconds : (ℕ → ℕ → ℕ) → ℕ → ℕ → Option ℕ → ℕ
unfolding backoff_base
retry_delay_milliseconds word source_id attempt (some s) = min 86400000 (s * 1000)
retry_delay_milliseconds word source_id attempt none =
    backoff_base attempt + word source_id attempt % 1001

-- The errors that a job ends with: RetryableIngestionError, UnrecoverableError, and any other.
pub data JobError : Type 0 where
  retryable : String → Option ℕ → JobError
  unrecoverable : String → JobError
  unexpected : JobError

-- The delay before the next attempt. `none` is -1, which leaves the choice to the queue.
unfoldable pub source_backoff_strategy : ℕ → Option String → Option JobError → Option ℕ
unfolding backoff_base
source_backoff_strategy attempts_made none error = none
source_backoff_strategy attempts_made (some type) error =
    if not (str_eq type "source-exponential") then none else (elim error [
      | some (retryable code (some delay)) ↦ some delay
      | _ ↦ some (backoff_base attempts_made)
    ])

unfoldable pub source_status_for : ErrorKind → SourceStatus
source_status_for authentication = SourceStatus.auth_error
source_status_for configuration = SourceStatus.config_error
source_status_for not_found = SourceStatus.config_error
source_status_for permanent = SourceStatus.config_error
source_status_for transient = SourceStatus.degraded
source_status_for rate_limited = SourceStatus.degraded
source_status_for malformed_response = SourceStatus.degraded
