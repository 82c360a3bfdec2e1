-- ===== src/Accounts/Invitations.antt =====
-- apps/web/src/lib/auth/invitation-service.ts. What a service reads before its transaction may be
-- older than the tables that the transaction meets: `seen` is what it read, `db` what it writes.
use Prim.Native.Char.{code}
use Prim.Native.String.{String}
use text.Mathlib.Text.{◌==◌ as str_eq}
use mirth_spool.Base.{
  ℕ, suc, ◌+◌, ◌*◌, Bool, true, false, not, ◌&&◌, ◌||◌, Option, none, some, List, ◌∷◌, leb, ltb,
  ◌==◌, if◌then◌else◌, any, find, take,
}
use mirth_spool.Base.Table.{update_where, count_where}
use mirth_spool.Text.{Platform, utf16_length}
use mirth_spool.Accounts.Rows.{
  UserRole, InvitationRow, Accounts, AccountEvent, AccountError, Attempt, done, thrown, ◌>>=◌, ◌>>◌,
  require, or_throw, has_email, normalize_email, record_audit_event, create_user,
}

-- /^[A-Za-z0-9_-]+$/, for a text that is not empty
is_token_text : String → Bool
is_token_text String.[] = true
is_token_text (String.◌∷◌ c s) =
    ((leb b'A' (code c) && leb (code c) b'Z')
      || (leb b'a' (code c) && leb (code c) b'z')
      || (leb b'0' (code c) && leb (code c) b'9')
      || code c == b'_'
      || code c == b'-')
    && is_token_text s

-- tokenSchema
unfoldable pub is_token : String → Bool
unfolding is_token_text
is_token token = leb 43 (utf16_length token) && leb (utf16_length token) 128 && is_token_text token

-- The keyed digest of the fixed prefix and a token, the schema of an address, and the hash of a password, which may throw.
pub record Secrets : Type 0 where
  pub hmac : String → String → String
  pub is_email : String → Bool
  pub hash_password : String → Option String

unfoldable pub hash_invitation_token : Secrets → String → String → Attempt String
unfolding is_token
hash_invitation_token secrets secret token =
    require (is_token token) AccountError.invalid_input >> done (secrets.hmac secret token)

pub record InvitationInput : Type 0 where
  pub email : String
  pub expires_in_hours : ℕ

pub record InvitationContext : Type 0 where
  pub actor_user_id : ℕ
  pub now : ℕ
  pub secret : String
  -- randomBytes(32).toString("base64url")
  pub token : String

unfoldable pub is_none : Option ℕ → Bool
is_none none = true
is_none (some t) = false

-- acceptedAt: null, expiresAt: { gt: now }, revokedAt: null
unfoldable pub is_live : ℕ → InvitationRow → Bool
unfolding is_none
is_live now r = is_none r.accepted_at && ltb now r.expires_at && is_none r.revoked_at

unfoldable pub is_live_for : String → ℕ → InvitationRow → Bool
unfolding is_live
is_live_for email now r = is_live now r && str_eq r.email_normalized email

unfoldable pub has_hash : String → InvitationRow → Bool
has_hash hash r = str_eq r.token_hash hash

unfoldable pub revoked_now : ℕ → InvitationRow → InvitationRow
revoked_now now r = record r { revoked_at = some now }

unfoldable pub new_invitation :
    ℕ → InvitationInput → String → InvitationContext → String → InvitationRow
new_invitation id input email context hash = record {
  id = id;
  email = email;
  email_normalized = email;
  token_hash = hash;
  expires_at = context.now + input.expires_in_hours * (60 * 60 * 1000);
  created_by_user_id = context.actor_user_id;
  revoked_at = none;
  accepted_at = none;
  accepted_user_id = none;
}

-- invitation.create, under the unique constraint on the hash of the token
unfoldable pub put_invitation : InvitationRow → Accounts → Attempt Accounts
unfolding has_hash
put_invitation r db =
    if any (has_hash r.token_hash) db.invitations
    then thrown AccountError.unique_violation
    else done (record db { invitations = r ∷ db.invitations; next_id = suc db.next_id })

unfoldable pub revoke_live : String → ℕ → Accounts → Accounts
unfolding is_live_for revoked_now
revoke_live email now db = record db {
  invitations = update_where (is_live_for email now) (revoked_now now) db.invitations;
}

module _ (platform : Platform) (secrets : Secrets) where
  -- the transaction of createInvitation
  unfoldable pub invite : InvitationInput → String → InvitationContext → Accounts → Attempt Accounts
  unfolding revoke_live new_invitation put_invitation
  invite input email context db = do
    hash ← hash_invitation_token secrets context.secret context.token
    d ←
        put_invitation (new_invitation db.next_id input email context hash)
          (revoke_live email context.now db)
    record_audit_event context.actor_user_id AccountEvent.invitation_created db.next_id d

  unfoldable pub valid_input : InvitationInput → Bool
  valid_input input =
      secrets.is_email input.email
      && leb (utf16_length input.email) 320
      && leb 1 input.expires_in_hours
      && leb input.expires_in_hours (24 * 30)

  unfoldable pub create_invitation :
      InvitationInput → InvitationContext → Accounts → Accounts → Attempt Accounts
  unfolding valid_input invite
  create_invitation input context seen db = do
    require (valid_input input) AccountError.invalid_input
    require (not (any (has_email (normalize_email platform input.email)) seen.users))
        AccountError.invitation_conflict
    invite input (normalize_email platform input.email) context db

-- acceptedAt: null, id, revokedAt: null
unfoldable pub is_open_id : ℕ → InvitationRow → Bool
unfolding is_none
is_open_id id r = is_none r.accepted_at && r.id == id && is_none r.revoked_at

-- The answer says whether a row changed. The identifier is a number: the schema accepts it.
unfoldable pub revoke_invitation : ℕ → ℕ → ℕ → Accounts → Attempt (Bool × Accounts)
unfolding is_open_id revoked_now
revoke_invitation id actor now db =
    let d = record db {
      invitations = update_where (is_open_id id) (revoked_now now) db.invitations;
    } in
    if count_where (is_open_id id) db.invitations == 0
    then done (false, d)
    else record_audit_event actor AccountEvent.invitation_revoked id d >>= λ e. done (true, e)

pub record AcceptInput : Type 0 where
  pub email : String
  pub name : String
  pub now : ℕ
  pub password : String
  pub secret : String
  pub token : String

-- acceptedAt: null, expiresAt: { gt: now }, revokedAt: null, tokenHash
unfoldable pub is_live_hash : String → ℕ → InvitationRow → Bool
unfolding is_live has_hash
is_live_hash hash now r = is_live now r && has_hash hash r

unfoldable pub is_live_id : ℕ → String → ℕ → InvitationRow → Bool
unfolding is_live_hash
is_live_id id hash now r = is_live_hash hash now r && r.id == id

unfoldable pub accepted_by : ℕ → ℕ → InvitationRow → InvitationRow
accepted_by now user r = record r { accepted_at = some now; accepted_user_id = some user }

unfoldable pub mark_accepted : ℕ → String → ℕ → ℕ → Accounts → Attempt Accounts
unfolding is_live_id accepted_by
mark_accepted id hash now user db =
    if count_where (is_live_id id hash now) db.invitations == 1
    then done (record db {
      invitations = update_where (is_live_id id hash now) (accepted_by now user) db.invitations;
    })
    else thrown AccountError.invitation_unavailable

-- the transaction of acceptInvitation; `commits` is false where it is not serializable
unfoldable pub enter :
    ℕ → String → String → AcceptInput → String → Bool → Accounts → Attempt Accounts
unfolding mark_accepted
enter id email hash input password_hash commits db = do
  c ← create_user email input.name UserRole.member password_hash db
  d ← mark_accepted id hash input.now db.next_id c
  e ← record_audit_event db.next_id AccountEvent.invitation_accepted id d
  require commits AccountError.write_conflict
  done e

-- the `catch` of acceptInvitation
unfoldable pub as_unavailable {ℓ} : {A : Type ℓ} → Attempt A → Attempt A
as_unavailable (thrown AccountError.unique_violation) = thrown AccountError.invitation_unavailable
as_unavailable (thrown AccountError.write_conflict) = thrown AccountError.invitation_unavailable
as_unavailable r = r

module _ (platform : Platform) (secrets : Secrets) where
  unfoldable pub accept_invitation : AcceptInput → Bool → Accounts → Accounts → Attempt Accounts
  unfolding enter as_unavailable
  accept_invitation input commits seen db = do
    hash ← hash_invitation_token secrets input.secret input.token
    invitation ←
        or_throw (find (is_live_hash hash input.now) seen.invitations)
          AccountError.invitation_unavailable
    require (str_eq invitation.email_normalized (normalize_email platform input.email))
        AccountError.invitation_unavailable
    password_hash ← or_throw (secrets.hash_password input.password) AccountError.hash_failed
    as_unavailable (
        enter invitation.id (normalize_email platform input.email) hash input password_hash commits
          db)

-- The newest 100. The model keeps rows in the order of their creation, the newest first.
list_invitations : Accounts → List InvitationRow
list_invitations db = take 100 db.invitations
