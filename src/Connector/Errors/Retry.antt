-- ===== src/Connector/Errors/Retry.antt =====
-- Which responses are tried again, and the bounds on the wait that is kept.
use Prim.Native.String.{String}
use mirth_spool.Base.{ℕ, ◌≤◌, ◌≡◌, ◌↔◌, ◌⊎◌, true, Option, none, some, arith}
use mirth_spool.Connector.Errors.{ErrorKind, connector_error, classify_http_status, is_retryable}

-- A wait, if there is one, is between one second and a day.
abbrev pub IsBoundedWait : Option ℕ → Type 0
IsBoundedWait none = Unit
IsBoundedWait (some s) = (1 ≤ s) × (s ≤ 86400)

pub connector_error-IsBoundedWait :
    (kind : ErrorKind) (code : Option String) (s : Option ℕ)
    → IsBoundedWait (connector_error kind code s).retry_after_seconds
unfolding connector_error
connector_error-IsBoundedWait kind code none = tt
connector_error-IsBoundedWait kind code (some s) = omega arith

-- A response is tried again exactly for the statuses 408, 425, 429 and those from 500 on, and the
-- wait that the classification keeps is bounded.
pub classify_http_status-is_retryable :
    (status : ℕ) (retry_after : Option ℕ)
    → ((is_retryable (classify_http_status status retry_after).kind ≡ true)
        ↔ ((status ≡ 408) ⊎ (status ≡ 425) ⊎ (status ≡ 429) ⊎ (500 ≤ status)))
      × IsBoundedWait (classify_http_status status retry_after).retry_after_seconds
unfolding classify_http_status
classify_http_status-is_retryable status none = ground arith
classify_http_status-is_retryable status (some s) = ground arith
