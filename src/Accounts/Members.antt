-- ===== src/Accounts/Members.antt =====
-- apps/web/src/lib/auth/member-administration.ts. The member is looked up in `seen`, before the
-- transaction that writes `db`.
use mirth_spool.Base.{
  ℕ, Bool, true, false, not, Option, none, some, List, ◌==◌, if◌then◌else◌, any, find, take,
}
use mathlib.Core.List.{reverse}
use mirth_spool.Base.Table.{update_where, delete_where, count_where}
use mirth_spool.Accounts.Rows.{
  UserRow, InvitationRow, CredentialRow, AccountAudit, AccountEvent, Accounts, AccountError,
  Attempt, done, thrown, ◌>>=◌, is_admin, has_user_id, of_user, record_audit_event,
}

-- requireMember: the identifier of the member
unfoldable pub require_member : ℕ → Accounts → Attempt ℕ
require_member id seen = elim (find (has_user_id id) seen.users) [
  | none ↦ thrown AccountError.member_not_found
  | some target ↦ if is_admin target then thrown AccountError.member_not_found else done target.id
]

unfoldable pub set_disabled_at : Option ℕ → UserRow → UserRow
set_disabled_at at u = record u { disabled_at = at }

-- user.update, which wants a row
unfoldable pub update_user : ℕ → Option ℕ → Accounts → Attempt Accounts
unfolding set_disabled_at
update_user id at db =
    if any (has_user_id id) db.users
    then done (record db { users = update_where (has_user_id id) (set_disabled_at at) db.users })
    else thrown AccountError.missing_row

unfoldable pub close_sessions : ℕ → Accounts → Accounts
close_sessions id db = record db { sessions = delete_where (of_user id) db.sessions }

unfoldable pub set_member_disabled : ℕ → Bool → ℕ → ℕ → Accounts → Accounts → Attempt Accounts
unfolding update_user close_sessions
set_member_disabled actor disabled now id seen db = do
  target ← require_member id seen
  d ← update_user target (if disabled then some now else none) db
  record_audit_event actor
      (if disabled then AccountEvent.member_disabled else AccountEvent.member_enabled) target
      (if disabled then close_sessions target d else d)

-- The answer is the number of sessions that were deleted.
unfoldable pub revoke_member_sessions : ℕ → ℕ → Accounts → Accounts → Attempt (ℕ × Accounts)
unfolding close_sessions
revoke_member_sessions actor id seen db = do
  target ← require_member id seen
  d ←
      record_audit_event actor AccountEvent.member_sessions_revoked target
        (close_sessions target db)
  done (count_where (of_user target) db.sessions, d)

unfoldable pub created_by : ℕ → InvitationRow → Bool
created_by id r = r.created_by_user_id == id

unfoldable pub is_some_id : ℕ → Option ℕ → Bool
is_some_id id none = false
is_some_id id (some u) = u == id

unfoldable pub forget_acceptor : ℕ → InvitationRow → InvitationRow
unfolding is_some_id
forget_acceptor id r = record r {
  accepted_user_id = if is_some_id id r.accepted_user_id then none else r.accepted_user_id;
}

unfoldable pub forget_actor : ℕ → AccountAudit → AccountAudit
unfolding is_some_id
forget_actor id a = record a {
  actor_user_id = if is_some_id id a.actor_user_id then none else a.actor_user_id;
}

unfoldable pub of_credential : ℕ → CredentialRow → Bool
of_credential id c = c.user_id == id

-- user.delete, with what the schema says of the rows that refer to the user: sessions and
-- credentials go with the user, accepted invitations and audit events forget it, and a user who
-- created invitations stays.
unfoldable pub delete_user : ℕ → Accounts → Attempt Accounts
unfolding created_by forget_acceptor forget_actor of_credential
delete_user id db =
    if not (any (has_user_id id) db.users)
    then thrown AccountError.missing_row
    else if any (created_by id) db.invitations
    then thrown AccountError.restricted
    else done (record db {
      users = delete_where (has_user_id id) db.users;
      invitations = update_where (λ r. true) (forget_acceptor id) db.invitations;
      sessions = delete_where (of_user id) db.sessions;
      credentials = delete_where (of_credential id) db.credentials;
      audit = update_where (λ a. true) (forget_actor id) db.audit;
    })

unfoldable pub delete_member : ℕ → ℕ → Accounts → Accounts → Attempt Accounts
unfolding delete_user
delete_member actor id seen db = do
  target ← require_member id seen
  d ← record_audit_event actor AccountEvent.member_deleted target db
  delete_user target d

-- The oldest 100 users. The model keeps rows in the order of their creation, the newest first.
list_members : Accounts → List UserRow
list_members db = take 100 (reverse db.users)
