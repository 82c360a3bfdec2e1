-- ===== src/Ingestion/Runs/Granted.antt =====
-- The run that a claim grants is in the database with its source.
use mirth_spool.Base.{
  ℕ, ◌≡◌, refl, true, some, List, [], ◌∷◌, arith, find, any, Option-cases, Bool-cases, inl, inr,
  ==_refl,
}
use mirth_spool.Base.Table.{update_where, find_of_any}
use mirth_spool.Ingestion.Rows.{SourceRow, RunRow, Db, has_source_id}
use mirth_spool.Ingestion.Runs.{
  Claim, claimed, unavailable, conflict, rejected, claim_ingestion_run, ClaimInput, pollable_source,
  has_run_id, valid_claim, runs_for, new_run, is_stale_run, cancel_stale,
}

-- The claimed run and its source are in the database.
pub record IsClaimed (run : RunRow) (db : Db) : Type 0 where
  pub row : SourceRow
  pub found : find (has_run_id run.id) db.runs ≡ some run
  pub there : find (has_source_id run.source_id) db.sources ≡ some row

abbrev pub GivesRow : Claim → Type 0
GivesRow (claimed run source db) = IsClaimed run db
GivesRow (unavailable db) = Unit
GivesRow conflict = Unit
GivesRow rejected = Unit

source_there :
    (id : ℕ) (sources : List SourceRow) (source : SourceRow)
    → find (pollable_source id) sources ≡ some source
    → any (has_source_id id) sources ≡ true
unfolding pollable_source has_source_id
source_there id [] source e = cc
source_there id (s ∷ rest) source e = ground (arith, source_there id rest source)

pub claim_ingestion_run-GivesRow :
    (input : ClaimInput) (db : Db) → GivesRow (claim_ingestion_run input db)
unfolding claim_ingestion_run
claim_ingestion_run-GivesRow input db =
    let runs = update_where (is_stale_run input) (cancel_stale input) db.runs in
    elim (Option-cases (find (pollable_source input.source_id) db.sources)) [
      | inl e ↦ rw (e, claim_ingestion_run) tt
      | inr (source, e) ↦ elim (Bool-cases (valid_claim input)) [
        | inr bad ↦ rw (e, bad, claim_ingestion_run) tt
        | inl good ↦ elim (Bool-cases (any (runs_for input.source_id) runs)) [
          | inl busy ↦ rw (e, good, busy, claim_ingestion_run) tt
          | inr free ↦
              let (row, there) =
                find_of_any (has_source_id input.source_id) db.sources
                  (source_there input.source_id db.sources source e) in
              rw (e, good, free, claim_ingestion_run)
                (record {
                  row = row;
                  found = unfold new_run has_run_id in rw (==_refl db.next_id) refl;
                  there = unfold new_run in there;
                })
        ]
      ]
    ]
