-- ===== src/Connector/Errors.antt =====
-- packages/connectors/src/errors.ts: the errors that a connector throws, their classification by
-- HTTP status, and the failure that is safe to store.
pub mod Retry
use Prim.Native.String.{String, ◌++◌}
use mirth_spool.Base.{
  ℕ, min, max, Bool, true, false, ◌||◌, Option, none, some, leb, ◌==◌, if◌then◌else◌,
}

pub data ErrorKind : Type 0 where
  transient rate_limited authentication configuration not_found malformed_response permanent :
      ErrorKind

pub safe_message : ErrorKind → String
safe_message authentication = "The source credentials were rejected."
safe_message configuration = "The source configuration is invalid."
safe_message malformed_response = "The source returned an unsupported response."
safe_message not_found = "The requested source resource was not found."
safe_message permanent = "The source request cannot be completed."
safe_message rate_limited = "The source rate limit was reached."
safe_message transient = "The source is temporarily unavailable."

-- The name of a kind, as the default code spells it.
abbrev pub kind_name : ErrorKind → String
kind_name transient = "TRANSIENT"
kind_name rate_limited = "RATE_LIMITED"
kind_name authentication = "AUTHENTICATION"
kind_name configuration = "CONFIGURATION"
kind_name not_found = "NOT_FOUND"
kind_name malformed_response = "MALFORMED_RESPONSE"
kind_name permanent = "PERMANENT"

pub record ConnectorError : Type 0 where
  pub code : String
  pub kind : ErrorKind
  pub message : String
  pub retry_after_seconds : Option ℕ

-- A wait that the constructor was given. Seconds are whole and not negative here: the source
-- truncates a fraction, and takes what is below 1 to 1.
clamp_retry : Option ℕ → Option ℕ
clamp_retry none = none
clamp_retry (some s) = some (max 1 (min 86400 s))

code_or_default : ErrorKind → Option String → String
code_or_default kind none = "SOURCE_" ++ kind_name kind
code_or_default kind (some code) = code

-- new ConnectorError(kind, { code, retryAfterSeconds })
unfoldable pub connector_error : ErrorKind → Option String → Option ℕ → ConnectorError
unfolding clamp_retry code_or_default safe_message
connector_error kind code retry_after = record {
  code = code_or_default kind code;
  kind = kind;
  message = safe_message kind;
  retry_after_seconds = clamp_retry retry_after;
}

unfoldable pub classify_http_status : ℕ → Option ℕ → ConnectorError
unfolding connector_error
classify_http_status status retry_after =
    if status == 401 || status == 403
    then connector_error authentication (some "SOURCE_AUTH_FAILED") none
    else if status == 404 || status == 410
    then connector_error not_found (some "SOURCE_NOT_FOUND") none
    else if status == 408 || status == 425 || leb 500 status
    then connector_error transient (some "SOURCE_UPSTREAM_UNAVAILABLE") none
    else if status == 429
    then connector_error rate_limited (some "SOURCE_RATE_LIMITED") retry_after
    else connector_error permanent (some "SOURCE_UPSTREAM_REJECTED") none

-- What JavaScript can throw: a `ConnectorError`, or anything else.
pub data Thrown : Type 0 where
  connector : ConnectorError → Thrown
  other : Thrown

pub record SafeFailure : Type 0 where
  pub code : String
  pub kind : ErrorKind
  pub message : String
  pub retry_after_seconds : Option ℕ

as_connector_error : Thrown → ConnectorError
as_connector_error (connector e) = e
as_connector_error other = connector_error transient (some "SOURCE_REQUEST_FAILED") none

unfoldable pub safe_connector_failure : Thrown → SafeFailure
unfolding as_connector_error connector_error
safe_connector_failure error =
    let e = as_connector_error error in
    record {
      code = e.code;
      kind = e.kind;
      message = e.message;
      retry_after_seconds = e.retry_after_seconds;
    }

-- ["RATE_LIMITED", "TRANSIENT"].includes(kind)
abbrev pub is_retryable : ErrorKind → Bool
is_retryable rate_limited = true
is_retryable transient = true
is_retryable _ = false
