-- ===== src/Accounts/Setup.antt =====
-- `createFirstAdministrator` of apps/web/src/lib/auth/setup-service.ts.
use Prim.Native.String.{String}
use mirth_spool.Base.{Bool, ◌==◌, if◌then◌else◌, length}
use mirth_spool.Text.{Platform}
use mirth_spool.Accounts.Rows.{
  UserRole, AccountEvent, Accounts, AccountError, Attempt, done, thrown, ◌>>=◌, ◌>>◌, require,
  or_throw, normalize_email, record_audit_event, create_user,
}
use mirth_spool.Accounts.Invitations.{Secrets}

unfoldable pub is_setup_open : Accounts → Bool
is_setup_open db = length db.users == 0

pub record SetupInput : Type 0 where
  pub email : String
  pub name : String
  pub password : String

-- the `catch`, which counts the users again: `open_then` is what it finds
unfoldable pub after_conflict {ℓ} : {A : Type ℓ} → Bool → Attempt A → Attempt A
after_conflict open_then (thrown AccountError.write_conflict) =
    if open_then then thrown AccountError.write_conflict else thrown AccountError.setup_closed
after_conflict open_then r = r

module _ (platform : Platform) (secrets : Secrets) where
  -- the transaction; `commits` is false where it is not serializable
  unfoldable pub install : SetupInput → Bool → Accounts → Attempt Accounts
  unfolding is_setup_open
  install input commits db = do
    require (is_setup_open db) AccountError.setup_closed
    password_hash ← or_throw (secrets.hash_password input.password) AccountError.hash_failed
    c ←
        create_user (normalize_email platform input.email) input.name UserRole.admin password_hash
          db
    e ← record_audit_event db.next_id AccountEvent.auth_setup_completed db.next_id c
    require commits AccountError.write_conflict
    done e

  unfoldable pub create_first_administrator : SetupInput → Bool → Bool → Accounts → Attempt Accounts
  unfolding install after_conflict
  create_first_administrator input commits open_then db =
      after_conflict open_then (install input commits db)
