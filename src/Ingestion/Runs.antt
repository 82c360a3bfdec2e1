-- ===== src/Ingestion/Runs.antt =====
-- `claimIngestionRun`, `finalizeIngestionRun`, `listDueSources` and `cleanupIngestionRuns` of
-- packages/db/src/repositories/ingestion.ts: a source is polled by one run at a time.
pub mod Lease
pub mod Finish
pub mod Granted
use Prim.Native.String.{String}
use mirth_spool.Base.{
  ℕ, suc, ◌+◌, Bool, true, false, not, ◌&&◌, ◌||◌, Option, none, some, List, [], ◌∷◌, leb, ltb,
  ◌==◌, if◌then◌else◌, find, filter, any, take,
}
use mirth_spool.Base.Int.{ℤ, ltb_ℤ, eqb_ℤ}
use mirth_spool.Base.Sort.{sort}
use mirth_spool.Base.Table.{update_where, delete_where}
use mirth_spool.Db.{SourceStatus, RunTrigger, RunStatus, is_running}
use mirth_spool.Text.{slice_to, utf16_length}
use mirth_spool.Ingestion.Rows.{SourceRow, RunRow, Stats, empty_stats, Db, has_source_id}

abbrev pub is_none {ℓ} : {A : Type ℓ} → Option A → Bool
is_none none = true
is_none (some _) = false

-- { deletedAt: null, enabled: true }
unfoldable pub is_pollable : SourceRow → Bool
is_pollable s = is_none s.deleted_at && s.enabled

-- where: { deletedAt: null, enabled: true, id }
unfoldable pub pollable_source : ℕ → SourceRow → Bool
unfolding is_pollable
pollable_source id s = is_pollable s && s.id == id

pub record ClaimInput : Type 0 where
  pub attempt : ℕ
  pub job_id : String
  pub source_id : ℕ
  pub stale_before : ℕ
  pub started_at : ℕ
  pub trigger : RunTrigger

pub is_stale_run : ClaimInput → RunRow → Bool
is_stale_run input r =
    r.source_id == input.source_id && ltb r.started_at input.stale_before && is_running r.status

cancel_stale : ClaimInput → RunRow → RunRow
cancel_stale input r = record r {
  error_code = some "RUN_LEASE_EXPIRED";
  error_message = some "The previous worker stopped before completing this run.";
  finished_at = some input.started_at;
  status = RunStatus.cancelled;
}

unfoldable pub runs_for : ℕ → RunRow → Bool
runs_for source_id r = r.source_id == source_id && is_running r.status

new_run : ClaimInput → ℕ → RunRow
new_run input id = record {
  id = id;
  source_id = input.source_id;
  trigger = input.trigger;
  status = RunStatus.running;
  job_id = input.job_id;
  attempt = input.attempt;
  started_at = input.started_at;
  finished_at = none;
  stats = empty_stats;
  error_code = none;
  error_message = none;
  rate_limit_reset_at = none;
}

-- z.number().int().min(1).max(100) and z.string().min(1).max(200)
unfoldable pub valid_claim : ClaimInput → Bool
valid_claim input =
    leb 1 input.attempt
    && leb input.attempt 100
    && leb 1 (utf16_length input.job_id)
    && leb (utf16_length input.job_id) 200

-- `unavailable` is the result `null`; `rejected` is a throw. Both `conflict` (P2002, from the unique
-- index over the running runs of a source) and `rejected` roll the transaction back.
pub data Claim : Type 0 where
  claimed : RunRow → SourceRow → Db → Claim
  unavailable : Db → Claim
  conflict rejected : Claim

unfoldable pub claim_ingestion_run : ClaimInput → Db → Claim
unfolding pollable_source is_stale_run cancel_stale runs_for new_run valid_claim
claim_ingestion_run input db =
    let runs = update_where (is_stale_run input) (cancel_stale input) db.runs in
    elim (find (pollable_source input.source_id) db.sources) [
      | none ↦ unavailable (record db { runs = runs })
      | some source ↦
          if not (valid_claim input)
          then rejected
          else if any (runs_for input.source_id) runs
          then conflict
          else claimed (new_run input db.next_id) source
              (record db { runs = new_run input db.next_id ∷ runs; next_id = suc db.next_id })
    ]

-- Every status but RUNNING.
pub data EndStatus : Type 0 where
  succeeded partial failed cancelled : EndStatus

abbrev pub run_status : EndStatus → RunStatus
run_status EndStatus.succeeded = RunStatus.succeeded
run_status EndStatus.partial = RunStatus.partial
run_status EndStatus.failed = RunStatus.failed
run_status EndStatus.cancelled = RunStatus.cancelled

pub record FinalizeInput : Type 0 where
  pub error_code : Option String
  pub error_message : Option String
  pub finished_at : ℕ
  pub next_poll_at : ℕ
  pub rate_limit_reset_at : Option ℕ
  pub run_id : ℕ
  pub source_status : SourceStatus
  pub stats : Stats
  pub status : EndStatus
  pub succeeded : Bool

abbrev slice_optional : ℕ → Option String → Option String
slice_optional n none = none
slice_optional n (some s) = some (slice_to n s)

finish_run : FinalizeInput → RunRow → RunRow
finish_run input r = record r {
  stats = input.stats;
  error_code = slice_optional 100 input.error_code;
  error_message = slice_optional 500 input.error_message;
  finished_at = some input.finished_at;
  rate_limit_reset_at = input.rate_limit_reset_at;
  status = run_status input.status;
}

abbrev or_text : Option String → String → Option String
or_text none d = some d
or_text (some s) d = some s

update_source : FinalizeInput → SourceRow → SourceRow
update_source input s =
    if input.succeeded
    then record s {
      consecutive_failures = 0;
      last_attempt_at = some input.finished_at;
      last_error_code = none;
      last_error_message = none;
      last_success_at = some input.finished_at;
      next_poll_at = some input.next_poll_at;
      status = input.source_status;
    }
    else record s {
      consecutive_failures = s.consecutive_failures + 1;
      last_attempt_at = some input.finished_at;
      last_error_code = or_text (slice_optional 100 input.error_code) "INGESTION_FAILED";
      last_error_message =
          or_text (slice_optional 500 input.error_message) "The source poll failed.";
      next_poll_at = some input.next_poll_at;
      status = input.source_status;
    }

unfoldable pub has_run_id : ℕ → RunRow → Bool
has_run_id id r = r.id == id

-- `none` where Prisma throws: no run has the identifier, or its source is gone.
unfoldable pub finalize_ingestion_run : FinalizeInput → Db → Option Db
unfolding finish_run update_source has_run_id has_source_id
finalize_ingestion_run input db = elim (find (has_run_id input.run_id) db.runs) [
  | none ↦ none
  | some run ↦
      if any (has_source_id run.source_id) db.sources
      then some (record db {
        runs = update_where (has_run_id input.run_id) (finish_run input) db.runs;
        sources = update_where (has_source_id run.source_id) (update_source input) db.sources;
      })
      else none
]

-- cleanupIngestionRuns
is_old_run : ℕ → RunRow → Bool
is_old_run older_than r =
    elim r.finished_at [ none ↦ false | some t ↦ ltb t older_than ] && not (is_running r.status)

unfoldable pub cleanup_ingestion_runs : ℕ → Db → Db
unfolding is_old_run
cleanup_ingestion_runs older_than db = record db {
  runs = delete_where (is_old_run older_than) db.runs;
}
