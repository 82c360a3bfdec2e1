-- ===== src/Worker/Poll.antt =====
-- `createSourcePollProcessor` of apps/worker/src/processor.ts: a run of a source, from the claim to its end.
pub mod Limits
pub mod Ends
use mathlib.Core.Option
use Prim.Native.String.{String}
use text.Mathlib.Text.{◌==◌ as str_eq}
use mirth_spool.Base.{
  ℕ, zero, suc, ◌+◌, ◌-◌, ◌*◌, max, Bool, true, false, not, ◌&&◌, ◌||◌, Option, none, some, List,
  [], ◌∷◌, ◌++◌, leb, ltb, ◌==◌, if◌then◌else◌, length,
}
use mirth_spool.Base.Maybe.{traverse}
use mirth_spool.Db.{SourceKind, SourceStatus, RunTrigger}
use mirth_spool.Text.{Platform}
use mirth_spool.Connector.Errors.{
  ErrorKind, transient, permanent, malformed_response, Thrown, connector, other, connector_error,
  SafeFailure, safe_connector_failure, is_retryable,
}
use mirth_spool.Connector.Page.{
  RateLimitState, Page, parse_page, HttpRequest, HttpResponse, Reply, response, failed, Fetch,
  returns, throws, requests,
}
use mirth_spool.Ingestion.Rows.{
  Credential, SourceRow, Stats, empty_stats, RunRow, CheckpointRow, Db,
}
use mirth_spool.Ingestion.Persist.{PageInput, Persisted, persist_ingestion_page}
use mirth_spool.Ingestion.Runs.{
  ClaimInput, Claim, claimed, unavailable, conflict, rejected, claim_ingestion_run, EndStatus,
  FinalizeInput, finalize_ingestion_run,
}
use mirth_spool.Worker.Backoff.{
  JobError, retryable, unrecoverable, unexpected, retry_delay_milliseconds, source_status_for,
}
use mirth_spool.Worker.Bounded.{
  IngestionLimits, permanent_error, bounded_http, Fetched, page, threw, run_fetch,
  assert_within_limits,
}
use mirth_spool.Worker.Content.{normalized_content}

pub record Job : Type 0 where
  pub id : Option String
  pub attempts_made : ℕ
  pub source_id : ℕ
  pub trigger : RunTrigger

-- A connector's `fetchPage`, over the source's configuration, the decrypted credentials by label,
-- and the checkpoint.
abbrev pub Connector : Type 0
Connector = String → List (String × String) → Option String → Fetch

-- What a run meets from outside. A page is named by the pages that were fetched before it, and a
-- request by the requests before it. The `…_commits` say whether a transaction goes through: where
-- not, Prisma throws (a conflict, a timeout, no connection).
pub record Surroundings : Type 0 where
  pub registry : SourceKind → Option Connector
  pub decrypt : ℕ → Credential → Option String
  pub http : ℕ → HttpRequest → Reply
  pub has_duplicate_queue : Bool
  -- controller.signal.aborted when the page is begun
  pub aborted : ℕ → Bool
  -- both signals aborted when an error is handled
  pub cancelled : Bool
  pub started_at : ℕ
  pub page_time : ℕ → ℕ
  pub finished_at : ℕ
  pub claim_commits : Bool
  pub page_commits : ℕ → Bool
  pub success_commits : Bool
  pub failure_commits : Bool
  pub digest_word : ℕ → ℕ → ℕ

-- The variables of the loop, with the database and the duplicate jobs that were sent.
pub record Progress : Type 0 where
  pub stats : Stats
  pub checkpoint : Option String
  pub rate_limit_reset_at : Option ℕ
  pub db : Db
  pub queued : List ℕ

pub data Round : Type 0 where
  continues finishes : Progress → Round
  fails : Thrown → Progress → Round

-- if (page.rateLimit?.remaining === 0 && page.rateLimit.resetAt) …
later_reset : Option ℕ → Option RateLimitState → Option ℕ
later_reset old none = old
later_reset old (some state) = elim state.remaining [
  | none ↦ old
  | some (suc n) ↦ old
  | some zero ↦ (elim state.reset_at [
    | none ↦ old
    | some reset ↦ (elim old [
      | none ↦ some reset
      | some o ↦ if ltb o reset then some reset else some o
    ])
  ])
]

pub data Ended : Type 0 where
  completed : Progress → Ended
  broke : Thrown → Progress → Ended

-- What the job's processor returns, or the error that it throws.
pub data Outcome : Type 0 where
  coalesced : Outcome
  succeeded : ℕ → Stats → Outcome
  failed_with : JobError → Outcome

abbrev with_db : Db → List ℕ → Outcome → Outcome × Db × List ℕ
with_db db queued outcome = (outcome, db, queued)

abbrev or_zero : Option ℕ → ℕ
or_zero none = 0
or_zero (some t) = t

abbrev reset_of : Option ℕ → ℕ → Option ℕ
reset_of none t = none
reset_of (some s) t = some t

abbrev or_unknown : Option String → String
or_unknown none = "unknown-job"
or_unknown (some id) = id

-- source.checkpoints[0]?.valueJson ?? null, of the checkpoints in the scope "poll"
checkpoint_of : ℕ → List CheckpointRow → Option String
checkpoint_of id [] = none
checkpoint_of id (c ∷ cs) = if c.source_id == id then some c.value_json else checkpoint_of id cs

-- A transaction that Prisma refuses to commit throws.
abbrev commit {ℓ} : {A : Type ℓ} → Bool → Option A → Option A
commit true r = r
commit false r = none

module _ (platform : Platform) (limits : IngestionLimits) (env : Surroundings) where
  open env use {page_time, page_commits}

  -- what the loop's body does with the page that was stored
  absorb : Page → Db → Persisted → Progress → Progress
  unfolding later_reset
  absorb p db persisted progress = record progress {
    stats = record progress.stats {
      pages_fetched = progress.stats.pages_fetched + 1;
      items_seen = progress.stats.items_seen + length p.posts;
      items_created = progress.stats.items_created + persisted.created;
      items_updated = progress.stats.items_updated + persisted.updated;
    };
    checkpoint = p.next_checkpoint;
    rate_limit_reset_at = later_reset progress.rate_limit_reset_at p.rate_limit;
    db = db;
    queued =
        if env.has_duplicate_queue
        then progress.queued ++ persisted.content_ids
        else progress.queued;
  }

  -- if (hasMore && checkpoint === null) throw …
  after_page : Page → Progress → Round
  after_page p progress =
      if p.has_more
      then (elim p.next_checkpoint [
        | none ↦
            fails
              (connector
                (connector_error malformed_response (some "SOURCE_CHECKPOINT_MISSING") none))
              progress
        | some _ ↦ continues progress
      ])
      else finishes progress

  store_page : SourceRow → Page → Progress → Option (Db × Persisted)
  store_page source p progress = elim (traverse (normalized_content platform source) p.posts) [
    | none ↦ none
    | some items ↦
        if page_commits progress.stats.pages_fetched
        then persist_ingestion_page platform
            (record { checkpoint = p.next_checkpoint; items = items; source_id = source.id })
            (page_time progress.stats.pages_fetched) progress.db
        else none
  ]

  take_page : SourceRow → Page → Progress → Round
  unfolding store_page absorb after_page
  take_page source p progress =
      if ltb limits.max_items (progress.stats.items_seen + length p.posts)
      then fails (permanent_error "SOURCE_ITEM_LIMIT") progress
      else (elim (store_page source p progress) [
        | none ↦ fails other progress
        | some (db, persisted) ↦ after_page p (absorb p db persisted progress)
      ])

  take_fetched : SourceRow → Fetched → Progress → Round
  unfolding take_page
  take_fetched source (threw error) progress = fails error progress
  take_fetched source (page raw) progress = elim (parse_page platform raw) [
    | none ↦ fails other progress
    | some p ↦ take_page source p progress
  ]

  -- one round of `while (hasMore)`
  pub round : Connector → List (String × String) → SourceRow → Progress → Round
  unfolding assert_within_limits run_fetch take_fetched
  round fetch_page credentials source progress =
      elim (assert_within_limits (env.aborted progress.stats.pages_fetched) progress.stats limits) [
        | some error ↦ fails error progress
        | none ↦
            if leb limits.max_pages progress.stats.pages_fetched
            then fails (permanent_error "SOURCE_PAGE_LIMIT") progress
            else (let (fetched, stats) =
                  run_fetch limits env.http
                    (fetch_page source.config_json credentials progress.checkpoint)
                    progress.stats in
                take_fetched source fetched (record progress { stats = stats }))
      ]

  -- `none` says that the fuel ran out.
  pub loop : Connector → List (String × String) → SourceRow → ℕ → Progress → Option Ended
  unfolding round
  loop fetch_page credentials source zero progress = none
  loop fetch_page credentials source (suc fuel) progress =
      elim (round fetch_page credentials source progress) [
        | continues next ↦ loop fetch_page credentials source fuel next
        | finishes last ↦ some (completed last)
        | fails error last ↦ some (broke error last)
      ]

  -- credentials[label] = value
  put_credential : String → String → List (String × String) → List (String × String)
  put_credential label value [] = (label, value) ∷ []
  put_credential label value ((k, v) ∷ rest) =
      if str_eq k label then (k, value) ∷ rest else (k, v) ∷ put_credential label value rest

  decrypt_all : ℕ → List Credential → List (String × String) → Option (List (String × String))
  unfolding put_credential
  decrypt_all source_id [] found = some found
  decrypt_all source_id (c ∷ cs) found = elim (env.decrypt source_id c) [
    | none ↦ none
    | some value ↦ decrypt_all source_id cs (put_credential c.label value found)
  ]

  -- the body of `try` up to the end of the loop
  pub fetch_pages : SourceRow → Progress → Option Ended
  unfolding decrypt_all loop
  fetch_pages source start = elim (decrypt_all source.id source.credentials []) [
    | none ↦ some (broke other start)
    | some credentials ↦ (elim (env.registry source.kind) [
      | none ↦ some (broke other start)
      | some fetch_page ↦ loop fetch_page credentials source (suc limits.max_pages) start
    ])
  ]

  success_input : RunRow → SourceRow → Progress → FinalizeInput
  success_input run source last = record {
    error_code = none;
    error_message = none;
    finished_at = env.finished_at;
    next_poll_at =
        max (env.finished_at + source.poll_interval_seconds * 1000)
          (or_zero last.rate_limit_reset_at);
    rate_limit_reset_at = last.rate_limit_reset_at;
    run_id = run.id;
    source_status = SourceStatus.active;
    stats = last.stats;
    status = EndStatus.succeeded;
    succeeded = true;
  }

  -- what the handler makes of the error
  handled_failure : Thrown → SafeFailure
  handled_failure error =
      if env.cancelled
      then record {
        code = "RUN_CANCELLED";
        kind = permanent;
        message = "The source poll was cancelled.";
        retry_after_seconds = none;
      }
      else safe_connector_failure error

  retries : Thrown → Bool
  unfolding handled_failure
  retries error = not env.cancelled && is_retryable (handled_failure error).kind

  retry_delay : Job → SourceRow → Thrown → ℕ
  unfolding handled_failure
  retry_delay job source error =
      retry_delay_milliseconds env.digest_word source.id (job.attempts_made + 1)
        (handled_failure error).retry_after_seconds

  failure_input : Job → RunRow → SourceRow → Thrown → Progress → FinalizeInput
  unfolding handled_failure retries retry_delay
  failure_input job run source error last =
      let safe = handled_failure error in
      let delay = retry_delay job source error in
      record {
        error_code = some safe.code;
        error_message = some safe.message;
        finished_at = env.finished_at;
        next_poll_at =
            env.finished_at
            + (if retries error then delay else source.poll_interval_seconds * 1000);
        rate_limit_reset_at = reset_of safe.retry_after_seconds (env.finished_at + delay);
        run_id = run.id;
        source_status = source_status_for safe.kind;
        stats = last.stats;
        status = if env.cancelled then EndStatus.cancelled else EndStatus.failed;
        succeeded = false;
      }

  -- `catch`: the end of the run is stored, and the job ends with an error.
  handle_error : Job → RunRow → SourceRow → Thrown → Progress → Outcome × Db × List ℕ
  unfolding handled_failure retries retry_delay failure_input
  handle_error job run source error last =
      elim (commit env.failure_commits
        (finalize_ingestion_run (failure_input job run source error last) last.db)) [
          | none ↦ with_db last.db last.queued (failed_with unexpected)
          | some db ↦ with_db db last.queued (
              if retries error
              then failed_with
                  (retryable (handled_failure error).code (some (retry_delay job source error)))
              else failed_with (unrecoverable (handled_failure error).code))
        ]

  finish : Job → RunRow → SourceRow → Ended → Outcome × Db × List ℕ
  unfolding success_input handle_error
  finish job run source (broke error last) = handle_error job run source error last
  finish job run source (completed last) =
      elim (commit env.success_commits
        (finalize_ingestion_run (success_input run source last) last.db)) [
          | none ↦ handle_error job run source other last
          | some db ↦ with_db db last.queued (succeeded run.id last.stats)
        ]

  unfoldable pub claim_input : Job → ClaimInput
  claim_input job = record {
    attempt = job.attempts_made + 1;
    job_id = or_unknown job.id;
    source_id = job.source_id;
    stale_before = env.started_at - limits.max_duration_ms * 2;
    started_at = env.started_at;
    trigger = if ltb 0 job.attempts_made then RunTrigger.retry else job.trigger;
  }

  pub first_progress : SourceRow → Db → Progress
  unfolding checkpoint_of
  first_progress source db = record {
    stats = empty_stats;
    checkpoint = checkpoint_of source.id db.checkpoints;
    rate_limit_reset_at = none;
    db = db;
    queued = [];
  }

  run_claimed : Job → Claim → Db → Option (Outcome × Db × List ℕ)
  unfolding fetch_pages finish first_progress
  run_claimed job (claimed run source db) old =
      Option.map (finish job run source) (fetch_pages source (first_progress source db))
  run_claimed job (unavailable db) old = some (with_db db [] coalesced)
  run_claimed job conflict old = some (with_db old [] coalesced)
  run_claimed job rejected old = some (with_db old [] (failed_with unexpected))

  -- The processor of one job. The result is `none` only where the fuel of the loop ran out.
  unfoldable pub poll : Job → Db → Option (Outcome × Db × List ℕ)
  unfolding run_claimed claim_input
  poll job db =
      if env.claim_commits
      then run_claimed job (claim_ingestion_run (claim_input job) db) db
      else some (with_db db [] (failed_with unexpected))
