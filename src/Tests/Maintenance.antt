-- ===== src/Tests/Maintenance.antt =====
-- The properties of the retention, with a batch of one row.
use mirth_spool.Base.{◌*◌, refl, none, some, [], ◌∷◌, arith, inl}
use mirth_spool.Db.{RunStatus}
use mirth_spool.Maintenance.Rows.{
  MaintenanceCutoffs, Tables, plan_retention_maintenance, is_old_audit, is_old_run,
  is_stale_session, is_orphaned, batch_limit, execute_retention_maintenance,
}
use mirth_spool.Maintenance.Retention.{
  HasUniqueIds, IsRetained, IsWithin, execute_retention_maintenance-IsRetained, repeat_maintenance,
  repeat_maintenance_clears,
}

abbrev test_cutoffs : MaintenanceCutoffs
test_cutoffs = record {
  audit_before = 10;
  content_before = 10;
  ingestion_before = 10;
  session_before = 10;
}

abbrev test_tables : Tables
test_tables = record {
  audit_events =
      record { id = 1; occurred_at = 3 }
      ∷ record { id = 2; occurred_at = 1 }
      ∷ record { id = 3; occurred_at = 20 }
      ∷ [];
  ingestion_runs =
      record { id = 1; started_at = 1; status = RunStatus.running }
      ∷ record { id = 2; started_at = 2; status = RunStatus.failed }
      ∷ [];
  sessions =
      record { id = 1; expires = 30; revoked_at = some 4 }
      ∷ record { id = 2; expires = 30; revoked_at = none }
      ∷ [];
  content_items =
      record { id = 1; last_seen_at = 1; actions = 0; media_assets = 0; source_posts = 0 } ∷ [];
}

test-HasUniqueIds : HasUniqueIds test_tables
test-HasUniqueIds = record {
  audits = ((refl, (refl, tt)), ((refl, tt), (tt, tt)));
  runs = ((refl, tt), (tt, tt));
  sessions = ((refl, tt), (tt, tt));
  items = (tt, tt);
}

execute_retention_maintenance-IsRetained_example :
    IsRetained test_cutoffs
      (batch_limit 1)
      test_tables
      (execute_retention_maintenance test_cutoffs 1 test_tables).1
execute_retention_maintenance-IsRetained_example =
    execute_retention_maintenance-IsRetained test_cutoffs 1 test_tables test-HasUniqueIds

test-IsWithin : IsWithin (2 * 1) (plan_retention_maintenance test_cutoffs test_tables)
unfolding batch_limit plan_retention_maintenance is_old_audit is_old_run is_stale_session
    is_orphaned
test-IsWithin = record {
  audits = omega arith;
  runs = omega arith;
  sessions = omega arith;
  items = omega arith;
}

repeat_maintenance_clears_example :
    IsWithin 0
      (plan_retention_maintenance test_cutoffs (repeat_maintenance 2 test_cutoffs 0 test_tables))
repeat_maintenance_clears_example =
    repeat_maintenance_clears 2 1 test_cutoffs 0 test_tables (omega arith) (inl (omega arith))
      test-HasUniqueIds test-IsWithin
