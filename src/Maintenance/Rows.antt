-- ===== src/Maintenance/Rows.antt =====
-- packages/db/src/repositories/maintenance.ts. The four tables, with the columns and the relations
-- that the retention reads.
use mirth_spool.Base.{
  ℕ, Bool, false, not, ◌&&◌, ◌||◌, Option, none, some, List, min, max, ltb, leb, length, filter,
  take, map, elem,
}
use mirth_spool.Base.Sort.{sort}
use mirth_spool.Db.{RunStatus, is_running}

pub record MaintenanceCutoffs : Type 0 where
  pub audit_before : ℕ
  pub content_before : ℕ
  pub ingestion_before : ℕ
  pub session_before : ℕ

pub record AuditEvent : Type 0 where
  pub id : ℕ
  pub occurred_at : ℕ

pub record RunRow : Type 0 where
  pub id : ℕ
  pub started_at : ℕ
  pub status : RunStatus

pub record Session : Type 0 where
  pub id : ℕ
  pub expires : ℕ
  pub revoked_at : Option ℕ

-- The relations are the numbers of the related rows.
pub record ContentRow : Type 0 where
  pub id : ℕ
  pub last_seen_at : ℕ
  pub actions : ℕ
  pub media_assets : ℕ
  pub source_posts : ℕ

pub record Tables : Type 0 where
  pub audit_events : List AuditEvent
  pub ingestion_runs : List RunRow
  pub sessions : List Session
  pub content_items : List ContentRow

pub record RetentionCounts : Type 0 where
  pub audit_events : ℕ
  pub ingestion_runs : ℕ
  pub sessions : ℕ
  pub orphaned_content : ℕ

unfoldable pub is_old_audit : MaintenanceCutoffs → AuditEvent → Bool
is_old_audit cutoffs r = ltb r.occurred_at cutoffs.audit_before

unfoldable pub is_old_run : MaintenanceCutoffs → RunRow → Bool
is_old_run cutoffs r = ltb r.started_at cutoffs.ingestion_before && not (is_running r.status)

is_revoked_before : ℕ → Option ℕ → Bool
is_revoked_before t none = false
is_revoked_before t (some at) = ltb at t

unfoldable pub is_stale_session : MaintenanceCutoffs → Session → Bool
unfolding is_revoked_before
is_stale_session cutoffs r =
    ltb r.expires cutoffs.session_before || is_revoked_before cutoffs.session_before r.revoked_at

unfoldable pub is_orphaned : MaintenanceCutoffs → ContentRow → Bool
is_orphaned cutoffs r =
    ltb r.last_seen_at cutoffs.content_before
    && leb r.actions 0
    && leb r.media_assets 0
    && leb r.source_posts 0

unfoldable pub plan_retention_maintenance : MaintenanceCutoffs → Tables → RetentionCounts
plan_retention_maintenance cutoffs t = record {
  audit_events = length (filter (is_old_audit cutoffs) t.audit_events);
  ingestion_runs = length (filter (is_old_run cutoffs) t.ingestion_runs);
  sessions = length (filter (is_stale_session cutoffs) t.sessions);
  orphaned_content = length (filter (is_orphaned cutoffs) t.content_items);
}

module _ {A : Type 0} (id : A → ℕ) where
  -- findMany: the identifiers of the first rows of an order that a condition keeps
  unfoldable pub batch_of : (A → Bool) → (A → A → Bool) → ℕ → List A → List ℕ
  batch_of p le n rows = map id (take n (sort le (filter p rows)))

  -- deleteMany: the rows that are left
  unfoldable pub without : List ℕ → List A → List A
  without ids rows = filter (λ r. not (elem (id r) ids)) rows

  -- and how many were deleted
  unfoldable pub deleted : List ℕ → List A → ℕ
  deleted ids rows = length (filter (λ r. elem (id r) ids) rows)

unfoldable pub batch_limit : ℕ → ℕ
batch_limit batch_size = min 1000 (max 1 batch_size)

abbrev pub audit_id : AuditEvent → ℕ
audit_id r = r.id

abbrev pub run_id : RunRow → ℕ
run_id r = r.id

abbrev pub session_id : Session → ℕ
session_id r = r.id

abbrev pub content_id : ContentRow → ℕ
content_id r = r.id

unfoldable pub old_audits : MaintenanceCutoffs → ℕ → Tables → List ℕ
unfolding batch_of
old_audits cutoffs n t =
    batch_of audit_id (is_old_audit cutoffs) (λ a b. leb a.occurred_at b.occurred_at) n
      t.audit_events

unfoldable pub old_runs : MaintenanceCutoffs → ℕ → Tables → List ℕ
unfolding batch_of
old_runs cutoffs n t =
    batch_of run_id (is_old_run cutoffs) (λ a b. leb a.started_at b.started_at) n t.ingestion_runs

unfoldable pub stale_sessions : MaintenanceCutoffs → ℕ → Tables → List ℕ
unfolding batch_of
stale_sessions cutoffs n t =
    batch_of session_id (is_stale_session cutoffs) (λ a b. leb a.expires b.expires) n t.sessions

unfoldable pub orphaned_items : MaintenanceCutoffs → ℕ → Tables → List ℕ
unfolding batch_of
orphaned_items cutoffs n t =
    batch_of content_id (is_orphaned cutoffs) (λ a b. leb a.last_seen_at b.last_seen_at) n
      t.content_items

unfoldable pub execute_retention_maintenance :
    MaintenanceCutoffs → ℕ → Tables → RetentionCounts × Tables
unfolding old_audits old_runs stale_sessions orphaned_items without deleted batch_limit
execute_retention_maintenance cutoffs batch_size t =
    let n = batch_limit batch_size in
    let audits = old_audits cutoffs n t in
    let runs = old_runs cutoffs n t in
    let sessions = stale_sessions cutoffs n t in
    let items = orphaned_items cutoffs n t in
    (
      record {
        audit_events = deleted audit_id audits t.audit_events;
        ingestion_runs = deleted run_id runs t.ingestion_runs;
        sessions = deleted session_id sessions t.sessions;
        orphaned_content = deleted content_id items t.content_items;
      },
      record {
        audit_events = without audit_id audits t.audit_events;
        ingestion_runs = without run_id runs t.ingestion_runs;
        sessions = without session_id sessions t.sessions;
        content_items = without content_id items t.content_items;
      },
    )
