-- ===== src/Maintenance/Retention.antt =====
-- What one run of the retention does to the plan, and what enough runs do.
use mirth_spool.Base.{
  ℕ, zero, suc, ◌-◌, ◌*◌, ◌≤◌, ◌≡◌, ◌⊎◌, inl, inr, refl, sym, subst, not, arith, filter,
}
use mirth_spool.Base.Strict.{Distinct}
use mirth_spool.Maintenance.Rows.{
  MaintenanceCutoffs, Tables, RetentionCounts, is_old_audit, is_old_run, is_stale_session,
  is_orphaned, plan_retention_maintenance, batch_limit, audit_id, run_id, session_id, content_id,
  without, old_audits, old_runs, stale_sessions, orphaned_items, execute_retention_maintenance,
}
use mirth_spool.Maintenance.Batch.{same_key, planned_left, others_kept, filter-Distinct}

-- Identifiers are primary keys.
pub record HasUniqueIds (t : Tables) : Type 0 where
  pub audits : Distinct (same_key audit_id) t.audit_events
  pub runs : Distinct (same_key run_id) t.ingestion_runs
  pub sessions : Distinct (same_key session_id) t.sessions
  pub items : Distinct (same_key content_id) t.content_items

-- A plan less a batch of each table.
abbrev pub less : ℕ → RetentionCounts → RetentionCounts
less n c = record {
  audit_events = c.audit_events - n;
  ingestion_runs = c.ingestion_runs - n;
  sessions = c.sessions - n;
  orphaned_content = c.orphaned_content - n;
}

-- The tables after a run: the plan is less a batch, and the rows that were not planned are there, in
-- their order.
pub record IsRetained (cutoffs : MaintenanceCutoffs) (n : ℕ) (t left : Tables) : Type 0 where
  pub planned :
      plan_retention_maintenance cutoffs left ≡ less n (plan_retention_maintenance cutoffs t)
  pub audits :
      filter (λ r. not (is_old_audit cutoffs r)) left.audit_events
      ≡ filter (λ r. not (is_old_audit cutoffs r)) t.audit_events
  pub runs :
      filter (λ r. not (is_old_run cutoffs r)) left.ingestion_runs
      ≡ filter (λ r. not (is_old_run cutoffs r)) t.ingestion_runs
  pub sessions :
      filter (λ r. not (is_stale_session cutoffs r)) left.sessions
      ≡ filter (λ r. not (is_stale_session cutoffs r)) t.sessions
  pub items :
      filter (λ r. not (is_orphaned cutoffs r)) left.content_items
      ≡ filter (λ r. not (is_orphaned cutoffs r)) t.content_items

-- One run deletes, in each of the four tables, a batch of the rows that the plan counts, or all of them
-- when they are fewer, and nothing else, if identifiers are unique: the rows that the plan does not
-- count stay, in their order.
pub execute_retention_maintenance-IsRetained :
    (cutoffs : MaintenanceCutoffs) (size : ℕ) (t : Tables)
    → HasUniqueIds t
    → IsRetained cutoffs (batch_limit size) t (execute_retention_maintenance cutoffs size t).1
unfolding plan_retention_maintenance execute_retention_maintenance old_audits old_runs
    stale_sessions orphaned_items
execute_retention_maintenance-IsRetained cutoffs size t u = record {
  planned =
      rw
        (
          planned_left audit_id (is_old_audit cutoffs) _ (batch_limit size) t.audit_events u.audits,
          planned_left run_id (is_old_run cutoffs) _ (batch_limit size) t.ingestion_runs u.runs,
          planned_left session_id (is_stale_session cutoffs) _ (batch_limit size) t.sessions
              u.sessions,
          planned_left content_id (is_orphaned cutoffs) _ (batch_limit size) t.content_items
              u.items,
        )
        refl;
  audits = others_kept audit_id (is_old_audit cutoffs) _ (batch_limit size) t.audit_events u.audits;
  runs = others_kept run_id (is_old_run cutoffs) _ (batch_limit size) t.ingestion_runs u.runs;
  sessions =
      others_kept session_id (is_stale_session cutoffs) _ (batch_limit size) t.sessions u.sessions;
  items = others_kept content_id (is_orphaned cutoffs) _ (batch_limit size) t.content_items u.items;
}

execute-HasUniqueIds :
    (cutoffs : MaintenanceCutoffs) (size : ℕ) (t : Tables)
    → HasUniqueIds t
    → HasUniqueIds (execute_retention_maintenance cutoffs size t).1
unfolding execute_retention_maintenance without
execute-HasUniqueIds cutoffs size t u = record {
  audits = filter-Distinct audit_id _ t.audit_events u.audits;
  runs = filter-Distinct run_id _ t.ingestion_runs u.runs;
  sessions = filter-Distinct session_id _ t.sessions u.sessions;
  items = filter-Distinct content_id _ t.content_items u.items;
}

-- The tables after a number of runs.
pub repeat_maintenance : ℕ → MaintenanceCutoffs → ℕ → Tables → Tables
unfolding execute_retention_maintenance
repeat_maintenance zero cutoffs size t = t
repeat_maintenance (suc k) cutoffs size t =
    repeat_maintenance k cutoffs size (execute_retention_maintenance cutoffs size t).1

-- A plan whose counts are all within a number.
pub record IsWithin (n : ℕ) (c : RetentionCounts) : Type 0 where
  pub audits : c.audit_events ≤ n
  pub runs : c.ingestion_runs ≤ n
  pub sessions : c.sessions ≤ n
  pub items : c.orphaned_content ≤ n

IsWithin-less :
    (k b : ℕ) (c d : RetentionCounts) → d ≡ less b c → IsWithin (suc k * b) c → IsWithin (k * b) d
IsWithin-less k b c d e w = subst (IsWithin (k * b)) (sym e) (record {
  audits = grind (arith, w.audits);
  runs = grind (arith, w.runs);
  sessions = grind (arith, w.sessions);
  items = grind (arith, w.items);
})

cleared :
    (k : ℕ) (cutoffs : MaintenanceCutoffs) (size : ℕ) (t : Tables)
    → HasUniqueIds t
    → IsWithin (k * batch_limit size) (plan_retention_maintenance cutoffs t)
    → IsWithin 0 (plan_retention_maintenance cutoffs (repeat_maintenance k cutoffs size t))
unfolding repeat_maintenance
cleared zero cutoffs size t u w = record {
  audits = grind (arith, w.audits);
  runs = grind (arith, w.runs);
  sessions = grind (arith, w.sessions);
  items = grind (arith, w.items);
}
cleared (suc k) cutoffs size t u w =
    cleared k cutoffs size (execute_retention_maintenance cutoffs size t).1
      (execute-HasUniqueIds cutoffs size t u)
      (IsWithin-less k (batch_limit size) _ _
        (execute_retention_maintenance-IsRetained cutoffs size t u).planned w)

mul_le : (k m n : ℕ) → m ≤ n → k * m ≤ k * n
mul_le zero m n h = grind arith
mul_le (suc k) m n h = grind (arith, h, mul_le k m n h)

-- A run deletes at least one row for any batch size, and a batch of up to 1000.
batch_limit_bounds : (n size : ℕ) → n ≤ 1000 → (n ≤ 1) ⊎ (n ≤ size) → n ≤ batch_limit size
unfolding batch_limit
batch_limit_bounds n size h (inl one) = omega (arith, h, one)
batch_limit_bounds n size h (inr batch) = omega (arith, h, batch)

IsWithin-le : (m n : ℕ) (c : RetentionCounts) → m ≤ n → IsWithin m c → IsWithin n c
IsWithin-le m n c h w = record {
  audits = omega (arith, h, w.audits);
  runs = omega (arith, h, w.runs);
  sessions = omega (arith, h, w.sessions);
  items = omega (arith, h, w.items);
}

-- Runs with the same cutoffs make progress: `k` of them leave nothing that is planned in any of the
-- four tables, if identifiers are unique and no table has more than `k * n` rows that the plan counts.
-- Here `n` is one, whatever the batch size is, zero included; or any number up to the batch size and
-- 1000.
pub repeat_maintenance_clears :
    (k n : ℕ) (cutoffs : MaintenanceCutoffs) (size : ℕ) (t : Tables)
    → n ≤ 1000
    → (n ≤ 1) ⊎ (n ≤ size)
    → HasUniqueIds t
    → IsWithin (k * n) (plan_retention_maintenance cutoffs t)
    → IsWithin 0 (plan_retention_maintenance cutoffs (repeat_maintenance k cutoffs size t))
repeat_maintenance_clears k n cutoffs size t small batch u w = cleared k cutoffs size t u (
    IsWithin-le (k * n) (k * batch_limit size) _
      (mul_le k n (batch_limit size) (batch_limit_bounds n size small batch)) w)
