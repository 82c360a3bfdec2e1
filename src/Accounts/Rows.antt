-- ===== src/Accounts/Rows.antt =====
-- The rows of the tables of accounts, with the columns that the code names, `recordAuditEvent` of
-- apps/web/src/lib/auth/audit.ts, and the operations of the database client that several services
-- use. An operation that throws gives the error and leaves the tables as they were: each service
-- does its writes in one transaction.
use Prim.Native.String.{String}
use text.Mathlib.Text.{◌==◌ as str_eq}
use mirth_spool.Base.{
  ℕ, suc, Bool, true, false, Option, none, some, List, ◌∷◌, ◌==◌, if◌then◌else◌, any,
}
use mirth_spool.Text.{Platform, trim}

pub data UserRole : Type 0 where
  admin member : UserRole

pub record UserRow : Type 0 where
  pub id : ℕ
  pub email : String
  pub email_normalized : String
  pub email_verified : Bool
  pub name : String
  pub role : UserRole
  pub disabled_at : Option ℕ

pub record InvitationRow : Type 0 where
  pub id : ℕ
  pub email : String
  pub email_normalized : String
  pub token_hash : String
  pub expires_at : ℕ
  pub created_by_user_id : ℕ
  pub revoked_at : Option ℕ
  pub accepted_at : Option ℕ
  pub accepted_user_id : Option ℕ

pub record SessionRow : Type 0 where
  pub id : ℕ
  pub user_id : ℕ

pub record CredentialRow : Type 0 where
  pub user_id : ℕ
  pub account_id : ℕ
  pub password_hash : String

pub data AccountEvent : Type 0 where
  invitation_created invitation_revoked invitation_accepted : AccountEvent
  member_disabled member_enabled member_sessions_revoked member_deleted : AccountEvent
  auth_setup_completed : AccountEvent

pub record AccountAudit : Type 0 where
  pub actor_user_id : Option ℕ
  pub event_type : AccountEvent
  pub target_id : ℕ

-- Identifiers of users and invitations are drawn from `next_id`.
pub record Accounts : Type 0 where
  pub users : List UserRow
  pub invitations : List InvitationRow
  pub sessions : List SessionRow
  pub credentials : List CredentialRow
  pub audit : List AccountAudit
  pub next_id : ℕ

-- What a service throws: its own errors, a schema that does not fit, a hash that fails, and the
-- errors P2002, P2034, P2025 and P2003 of the database client.
pub data AccountError : Type 0 where
  invitation_unavailable invitation_conflict member_not_found setup_closed : AccountError
  invalid_input hash_failed : AccountError
  unique_violation write_conflict missing_row restricted : AccountError

pub data Attempt {ℓ} (A : Type ℓ) : Type ℓ where
  done : A → Attempt A
  thrown : AccountError → Attempt A

infixl 5 ◌>>=◌ ◌>>◌
abbrev pub ◌>>=◌ {ℓ κ} : {A : Type ℓ} {B : Type κ} → Attempt A → (A → Attempt B) → Attempt B
done a >>= f = f a
thrown e >>= f = thrown e

abbrev pub ◌>>◌ {ℓ} : {B : Type ℓ} → Attempt (Unit {0}) → Attempt B → Attempt B
m >> k = m >>= λ _. k

abbrev pub require : Bool → AccountError → Attempt (Unit {0})
require true e = done tt
require false e = thrown e

abbrev pub or_throw {ℓ} : {A : Type ℓ} → Option A → AccountError → Attempt A
or_throw none e = thrown e
or_throw (some a) e = done a

abbrev pub is_admin : UserRow → Bool
is_admin u = elim u.role [ UserRole.admin ↦ true | UserRole.member ↦ false ]

unfoldable pub has_user_id : ℕ → UserRow → Bool
has_user_id id u = u.id == id

unfoldable pub has_email : String → UserRow → Bool
has_email email u = str_eq u.email_normalized email

unfoldable pub of_user : ℕ → SessionRow → Bool
of_user id s = s.user_id == id

-- email.trim().toLocaleLowerCase("en-US")
unfoldable pub normalize_email : Platform → String → String
normalize_email platform email = platform.lower (trim email)

-- The names of the events are shorter than the 80 characters to which they are cut. The event is
-- connected to the row of its actor, which has to be there.
unfoldable pub record_audit_event : ℕ → AccountEvent → ℕ → Accounts → Attempt Accounts
unfolding has_user_id
record_audit_event actor event target db =
    if any (has_user_id actor) db.users
    then done (record db {
      audit =
          record { actor_user_id = some actor; event_type = event; target_id = target } ∷ db.audit;
    })
    else thrown AccountError.missing_row

unfoldable pub new_user : ℕ → String → String → UserRole → UserRow
new_user id email name role = record {
  id = id;
  email = email;
  email_normalized = email;
  email_verified = true;
  name = trim name;
  role = role;
  disabled_at = none;
}

-- user.create and credentialAccount.create, under the unique constraint on the normalized address.
-- The identifier of the account is that of the user, which is new.
unfoldable pub create_user : String → String → UserRole → String → Accounts → Attempt Accounts
unfolding new_user has_email
create_user email name role password_hash db =
    if any (has_email email) db.users
    then thrown AccountError.unique_violation
    else done (record db {
      users = new_user db.next_id email name role ∷ db.users;
      credentials =
          record { user_id = db.next_id; account_id = db.next_id; password_hash = password_hash }
          ∷ db.credentials;
      next_id = suc db.next_id;
    })
