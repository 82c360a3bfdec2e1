-- ===== src/Ingestion/Runs/Finish.antt =====
-- What the end of a run writes.
use mirth_spool.Base.{
  ℕ, ◌+◌, ◌≡◌, refl, true, false, some, List, [], ◌∷◌, arith, if◌then◌else◌, find, any,
}
use mirth_spool.Base.Table.{update_where}
use mirth_spool.Db.{is_running}
use mirth_spool.Ingestion.Rows.{SourceRow, RunRow, Db, has_source_id}
use mirth_spool.Ingestion.Runs.{
  FinalizeInput, finish_run, update_source, has_run_id, finalize_ingestion_run,
}

find-update_where_run :
    (id : ℕ) (f : RunRow → RunRow) (runs : List RunRow) (run : RunRow)
    → ((r : RunRow) → (f r).id ≡ r.id)
    → find (has_run_id id) runs ≡ some run
    → find (has_run_id id) (update_where (has_run_id id) f runs) ≡ some (f run)
unfolding has_run_id update_where
find-update_where_run id f [] run same e = cc
find-update_where_run id f (r ∷ runs) run same e =
    ground (arith, same r, find-update_where_run id f runs run same)

find-update_where_source :
    (id : ℕ) (f : SourceRow → SourceRow) (sources : List SourceRow) (source : SourceRow)
    → ((s : SourceRow) → (f s).id ≡ s.id)
    → find (has_source_id id) sources ≡ some source
    → find (has_source_id id) (update_where (has_source_id id) f sources) ≡ some (f source)
unfolding has_source_id update_where
find-update_where_source id f [] source same e = cc
find-update_where_source id f (s ∷ sources) source same e =
    ground (arith, same s, find-update_where_source id f sources source same)

any_of_find :
    (id : ℕ) (sources : List SourceRow) (source : SourceRow)
    → find (has_source_id id) sources ≡ some source
    → any (has_source_id id) sources ≡ true
any_of_find id [] source e = cc
any_of_find id (s ∷ sources) source e = ground (arith, any_of_find id sources source)

-- The state that the end of a run leaves: the run has ended, with the given counters, and its source
-- has its next poll, a failure count that a success resets and a failure raises, and the error of
-- the failure.
pub record IsFinished (input : FinalizeInput) (source : SourceRow) (run' : RunRow)
    (source' : SourceRow) : Type 0 where
  pub ended : is_running run'.status ≡ false
  pub finished_at : run'.finished_at ≡ some input.finished_at
  pub stats : run'.stats ≡ input.stats
  pub next_poll : source'.next_poll_at ≡ some input.next_poll_at
  pub failures :
      source'.consecutive_failures
      ≡ (if input.succeeded then 0 else source.consecutive_failures + 1)
  pub last_success :
      source'.last_success_at
      ≡ (if input.succeeded then some input.finished_at else source.last_success_at)
  pub enabled : source'.enabled ≡ source.enabled

finish-IsFinished :
    (input : FinalizeInput) (run : RunRow) (source : SourceRow)
    → IsFinished input source (finish_run input run) (update_source input source)
unfolding finish_run update_source
finish-IsFinished input run source = ground arith

finish_run-id : (input : FinalizeInput) (r : RunRow) → (finish_run input r).id ≡ r.id
unfolding finish_run
finish_run-id input r = refl

update_source-id : (input : FinalizeInput) (s : SourceRow) → (update_source input s).id ≡ s.id
unfolding update_source
update_source-id input s = ground arith

-- For a run that is there with its source, the end of the run is stored whatever the state of the
-- run was: the run has ended, and the source has the next poll and the failure count of the result.
pub finalize_ingestion_run-IsFinished :
    (input : FinalizeInput) (db : Db) (run : RunRow) (source : SourceRow)
    → find (has_run_id input.run_id) db.runs ≡ some run
    → find (has_source_id run.source_id) db.sources ≡ some source
    → (db' : Db) × (finalize_ingestion_run input db ≡ some db')
      × (run' : RunRow) × (find (has_run_id input.run_id) db'.runs ≡ some run')
      × (source' : SourceRow) × (find (has_source_id run.source_id) db'.sources ≡ some source')
      × IsFinished input source run' source'
unfolding finalize_ingestion_run
finalize_ingestion_run-IsFinished input db run source found there = (
  record db {
    runs = update_where (has_run_id input.run_id) (finish_run input) db.runs;
    sources = update_where (has_source_id run.source_id) (update_source input) db.sources;
  },
  rw (found, any_of_find run.source_id db.sources source there, finalize_ingestion_run),
  finish_run input run,
  find-update_where_run input.run_id (finish_run input) db.runs run (finish_run-id input) found,
  update_source input source,
  find-update_where_source run.source_id (update_source input) db.sources source
      (update_source-id input) there,
  finish-IsFinished input run source,
)
