-- ===== src/Worker/Poll/Ends.antt =====
-- How a run that was claimed ends: it is recorded as ended, within the limits, and its source is
-- polled again when the result says.
use Prim.Native.String.{String}
use mirth_spool.Base.{ℕ, ◌+◌, ◌*◌, ◌≤◌, ◌≡◌, true, false, some, List, find}
use mirth_spool.Db.{is_running}
use mirth_spool.Text.{Platform}
use mirth_spool.Ingestion.Rows.{SourceRow, Stats, RunRow, Db, has_source_id}
use mirth_spool.Ingestion.Runs.{FinalizeInput, finalize_ingestion_run, has_run_id}
use mirth_spool.Worker.Backoff.{retryable, unrecoverable, unexpected, source_backoff_strategy}
use mirth_spool.Ingestion.Runs.Granted.{IsClaimed}
use mirth_spool.Worker.Bounded.{IngestionLimits}
use mirth_spool.Worker.Poll.{Job, Surroundings, Outcome, coalesced, succeeded, failed_with}

-- The counters of a run that kept to its limits.
pub record IsCounted (limits : IngestionLimits) (stats : Stats) : Type 0 where
  pub pages : stats.pages_fetched ≤ limits.max_pages
  pub items : stats.items_seen ≤ limits.max_items
  pub requests : stats.provider_requests ≤ limits.max_requests
  pub accounted : stats.items_created + stats.items_updated ≡ stats.items_seen

-- The time of the next poll that goes with what the job ends with: after the interval, or after the
-- delay that the queue waits too.
abbrev pub NextPoll : Surroundings → RunRow → SourceRow → Outcome → ℕ → Type 0
NextPoll env run source coalesced t = ⊥
NextPoll env run source (succeeded id stats) t =
    (id ≡ run.id) × (env.finished_at + source.poll_interval_seconds * 1000 ≤ t)
NextPoll env run source (failed_with (retryable code delay)) t =
    (d : ℕ) × (t ≡ env.finished_at + d)
    × ((attempt : ℕ)
        → source_backoff_strategy attempt (some "source-exponential") (some (retryable code delay))
          ≡ some d)
NextPoll env run source (failed_with (unrecoverable code)) t =
    t ≡ env.finished_at + source.poll_interval_seconds * 1000
NextPoll env run source (failed_with unexpected) t = ⊥

-- What the database holds of a run that has ended.
pub record IsSettled (limits : IngestionLimits) (env : Surroundings) (run : RunRow)
    (source : SourceRow) (outcome : Outcome) (db : Db) : Type 0 where
  pub stored : RunRow
  pub found : find (has_run_id run.id) db.runs ≡ some stored
  pub ended : is_running stored.status ≡ false
  pub counted : IsCounted limits stored.stats
  pub polled : SourceRow
  pub there : find (has_source_id run.source_id) db.sources ≡ some polled
  pub next_poll : ℕ
  pub due : polled.next_poll_at ≡ some next_poll
  pub timed : NextPoll env run source outcome next_poll

-- The end of the claimed run, stored after the pages.
record IsStored (input : FinalizeInput) (run : RunRow) (before : Db) : Type 0 where
  db : Db
  stores : finalize_ingestion_run input before ≡ some db
  stored : RunRow
  found : find (has_run_id run.id) db.runs ≡ some stored
  polled : SourceRow
  there : find (has_source_id run.source_id) db.sources ≡ some polled
  ended : is_running stored.status ≡ false
  stats : stored.stats ≡ input.stats
  due : polled.next_poll_at ≡ some input.next_poll_at

module _ (platform : Platform) (limits : IngestionLimits) (env : Surroundings) (job : Job)
    (run : RunRow) (source : SourceRow) (claim : Db) (c : IsClaimed run claim)
    (commits : env.failure_commits ≡ true) where
  -- A result of the handler that settles the run.
  abbrev Settles : Outcome × Db × List ℕ → Type 0
  Settles (outcome, db, queued) = IsSettled limits env run source outcome db
