-- ===== src/Ingestion/Runs/Lease.antt =====
-- The lease of a source: at most one of its runs is running, whatever is claimed and finished.
use native.Mathlib.Nat.{le_trans}
use mathlib.Core.Option.{some-injective}
use mirth_spool.Base.{
  ℕ, suc, ◌+◌, ◌≤◌, ◌≡◌, refl, sym, subst, ◌∙◌, ◌↔◌, Bool, true, false, not, ◌&&◌, some, List, [],
  ◌∷◌, arith, ltb, ◌==◌, ==_iff, if◌then◌else◌, find, any, Bool-cases, Option-cases, inl, inr,
}
use mirth_spool.Base.Table.{
  update_where, count_where, count-update_where-le, count-zero_of_any, count-delete_where-le,
  find-some,
}
use mirth_spool.Ingestion.Rows.{SourceRow, RunRow, Db, has_source_id}
use mirth_spool.Ingestion.Runs.{
  ClaimInput, is_stale_run, cancel_stale, runs_for, new_run, valid_claim, pollable_source, Claim,
  claimed, unavailable, conflict, rejected, claim_ingestion_run, FinalizeInput, finish_run,
  has_run_id, finalize_ingestion_run, cleanup_ingestion_runs, is_old_run,
}

-- No source has two running runs.
pub record HasOneRun (db : Db) : Type 0 where
  pub at : (source_id : ℕ) → count_where (runs_for source_id) db.runs ≤ 1

cancelled_not_running :
    (s : ℕ) (input : ClaimInput) (r : RunRow) → runs_for s (cancel_stale input r) ≡ false
unfolding runs_for cancel_stale
cancelled_not_running s input r = ground arith

finished_not_running :
    (s : ℕ) (input : FinalizeInput) (r : RunRow) → runs_for s (finish_run input r) ≡ false
unfolding runs_for finish_run
finished_not_running s input r = ground arith

cancel-count-le :
    (s : ℕ) (input : ClaimInput) (runs : List RunRow)
    → count_where (runs_for s) (update_where (is_stale_run input) (cancel_stale input) runs)
      ≤ count_where (runs_for s) runs
cancel-count-le s input runs =
    count-update_where-le (runs_for s) (is_stale_run input) (cancel_stale input)
      (λ r p h. cc (cancelled_not_running s input r)) runs

-- What the claim leaves: the lease, and in the granted case exactly one running run of the source.
abbrev pub LeavesLease : ClaimInput → Claim → Type 0
LeavesLease input (claimed run source db) =
    HasOneRun db
    × (count_where (runs_for input.source_id) db.runs ≡ 1)
    × (run.source_id ≡ input.source_id)
    × (source.id ≡ input.source_id)
LeavesLease input (unavailable db) = HasOneRun db
LeavesLease input conflict = Unit
LeavesLease input rejected = Unit

new_run-count :
    (s id : ℕ) (input : ClaimInput) (runs : List RunRow)
    → count_where (runs_for s) (new_run input id ∷ runs)
      ≡ (if input.source_id == s then 1 else 0) + count_where (runs_for s) runs
unfolding runs_for new_run count_where
new_run-count s id input runs = ground arith

granted-HasOneRun :
    (input : ClaimInput) (db : Db) (runs : List RunRow) (id : ℕ)
    → ((s : ℕ) → count_where (runs_for s) runs ≤ 1)
    → any (runs_for input.source_id) runs ≡ false
    → HasOneRun (record db { runs = new_run input id ∷ runs; next_id = suc id })
granted-HasOneRun input db runs id h free = record {
  at = λ s. ground (
    arith,
    new_run-count s id input runs,
    count-zero_of_any (runs_for input.source_id) runs,
    h s,
    ==_iff input.source_id s,
  );
}

granted-count :
    (input : ClaimInput) (id : ℕ) (runs : List RunRow)
    → any (runs_for input.source_id) runs ≡ false
    → count_where (runs_for input.source_id) (new_run input id ∷ runs) ≡ 1
granted-count input id runs free = ground (
  arith,
  new_run-count input.source_id id input runs,
  count-zero_of_any (runs_for input.source_id) runs free,
  ==_iff input.source_id input.source_id,
)

found-id :
    (s : ℕ) (sources : List SourceRow) (source : SourceRow)
    → find (pollable_source s) sources ≡ some source
    → source.id ≡ s
unfolding pollable_source
found-id s sources source e = ground (arith, find-some (pollable_source s) sources source e)

-- From a database where no source has two running runs, a claim leaves such a database. A granted
-- claim leaves exactly one running run of the source, and the run and the source it returns are of
-- that source.
pub claim_ingestion_run-LeavesLease :
    (input : ClaimInput) (db : Db) → HasOneRun db → LeavesLease input (claim_ingestion_run input db)
unfolding claim_ingestion_run
claim_ingestion_run-LeavesLease input db h =
    let runs = update_where (is_stale_run input) (cancel_stale input) db.runs in
    let kept = λ (s : ℕ). le_trans (cancel-count-le s input db.runs) (h.at s) in
    elim (Option-cases (find (pollable_source input.source_id) db.sources)) [
      | inl e ↦ rw (e, claim_ingestion_run) (record { at = kept })
      | inr (source, e) ↦ elim (Bool-cases (valid_claim input)) [
        | inr bad ↦ rw (e, bad, claim_ingestion_run) tt
        | inl good ↦ elim (Bool-cases (any (runs_for input.source_id) runs)) [
          | inl busy ↦ rw (e, good, busy, claim_ingestion_run) tt
          | inr free ↦
              rw (e, good, free, claim_ingestion_run)
                (
                  granted-HasOneRun input db runs db.next_id kept free,
                  granted-count input db.next_id runs free,
                  unfold new_run in refl,
                  found-id input.source_id db.sources source e,
                )
        ]
      ]
    ]

finalize-HasOneRun :
    (input : FinalizeInput) (db db' : Db)
    → HasOneRun db
    → finalize_ingestion_run input db ≡ some db'
    → HasOneRun db'
unfolding finalize_ingestion_run
finalize-HasOneRun input db db' h e = elim (Option-cases (find (has_run_id input.run_id) db.runs)) [
  | inl missing ↦ cc (rw (missing, finalize_ingestion_run) at e)
  | inr (run, found) ↦ elim (Bool-cases (any (has_source_id run.source_id) db.sources)) [
    | inr gone ↦ cc (rw (found, gone, finalize_ingestion_run) at e)
    | inl there ↦
        let same = rw (found, there, finalize_ingestion_run) at e in
        subst HasOneRun (some-injective _ _ same) (record {
          at = λ s.
              le_trans
                (count-update_where-le (runs_for s) (has_run_id input.run_id) (finish_run input)
                  (λ r p q. cc (finished_not_running s input r)) db.runs)
                (h.at s);
        })
  ]
]

-- What the workers do to the runs: claims, ends of runs, and the clean-up of old ones.
pub data RunStep : Db → Db → Type 0 where
  claims :
      {db db' : Db} {run : RunRow} {source : SourceRow} (input : ClaimInput)
      → claim_ingestion_run input db ≡ claimed run source db'
      → RunStep db db'
  finds_none :
      {db db' : Db} (input : ClaimInput)
      → claim_ingestion_run input db ≡ unavailable db'
      → RunStep db db'
  finalizes :
      {db db' : Db} (input : FinalizeInput)
      → finalize_ingestion_run input db ≡ some db'
      → RunStep db db'
  cleans : (db : Db) (older_than : ℕ) → RunStep db (cleanup_ingestion_runs older_than db)

pub data RunSteps (start : Db) : Db → Type 0 where
  here : RunSteps start start
  next : {db db' : Db} → RunSteps start db → RunStep db db' → RunSteps start db'

cleanup-HasOneRun :
    (older_than : ℕ) (db : Db) → HasOneRun db → HasOneRun (cleanup_ingestion_runs older_than db)
unfolding cleanup_ingestion_runs
cleanup-HasOneRun older_than db h = record {
  at = λ s. le_trans (count-delete_where-le (runs_for s) (is_old_run older_than) db.runs) (h.at s);
}

RunStep-HasOneRun : {db db' : Db} → RunStep db db' → HasOneRun db → HasOneRun db'
RunStep-HasOneRun {db} (claims input e) h =
    (subst (LeavesLease input) e (claim_ingestion_run-LeavesLease input db h)).0
RunStep-HasOneRun {db} (finds_none input e) h =
    subst (LeavesLease input) e (claim_ingestion_run-LeavesLease input db h)
RunStep-HasOneRun {db} {db'} (finalizes input e) h = finalize-HasOneRun input db db' h e
RunStep-HasOneRun (cleans db older_than) h = cleanup-HasOneRun older_than db h

-- Whatever claims, ends of runs and clean-ups follow one another, from a database where no source
-- has two running runs none ever has.
pub RunSteps-HasOneRun : {start db : Db} → HasOneRun start → RunSteps start db → HasOneRun db
RunSteps-HasOneRun h here = h
RunSteps-HasOneRun h (next steps step) = RunStep-HasOneRun step (RunSteps-HasOneRun h steps)

-- A run of the source that is running and has not outlived its lease.
pub is_held : ClaimInput → RunRow → Bool
unfolding runs_for
is_held input r = runs_for input.source_id r && not (ltb r.started_at input.stale_before)

any-held :
    (input : ClaimInput) (runs : List RunRow)
    → any (runs_for input.source_id) (update_where (is_stale_run input) (cancel_stale input) runs)
      ≡ any (is_held input) runs
unfolding is_held runs_for update_where is_stale_run cancel_stale
any-held input [] = refl
any-held input (r ∷ runs) = ground (arith, any-held input runs)

-- A well-formed claim of a source that can be polled conflicts exactly when a running run of the
-- source has started since `stale_before`; so a lease that has expired never blocks the source.
pub claim_ingestion_run-conflict_iff :
    (input : ClaimInput) (db : Db) (source : SourceRow)
    → valid_claim input ≡ true
    → find (pollable_source input.source_id) db.sources ≡ some source
    → (claim_ingestion_run input db ≡ conflict) ↔ (any (is_held input) db.runs ≡ true)
unfolding claim_ingestion_run
claim_ingestion_run-conflict_iff input db source good e =
    elim (Bool-cases (any (runs_for input.source_id) runs)) [
      | inl busy ↦ (λ _. sym held ∙ busy, λ _. rw (e, good, busy, claim_ingestion_run))
      | inr free ↦ (
        λ c. cc (rw (e, good, free, claim_ingestion_run) at c),
        λ b. cc (sym b ∙ (sym held ∙ free)),
      )
    ]
  where
    runs : List RunRow
    runs = update_where (is_stale_run input) (cancel_stale input) db.runs

    held : any (runs_for input.source_id) runs ≡ any (is_held input) db.runs
    held = any-held input db.runs
