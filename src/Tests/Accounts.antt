-- ===== src/Tests/Accounts.antt =====
-- The properties of accounts, and of the client, on a small run.
use Prim.Native.String.{String}
use mirth_spool.Base.{◌≡◌, ◌≢◌, refl, true, some, [], ◌∷◌, All, inl, arith}
use mirth_spool.Base.Table.{count_where, update_where}
use mirth_spool.Text.{utf16_length, trim}
use mirth_spool.Accounts.Rows.{
  Accounts, Attempt, done, thrown, normalize_email, create_user, record_audit_event,
}
use mirth_spool.Accounts.Invitations.{
  Secrets, InvitationInput, InvitationContext, AcceptInput, create_invitation, accept_invitation,
  is_live_for, hash_invitation_token,
}
use mirth_spool.Accounts.Setup.{SetupInput, create_first_administrator}
use mirth_spool.Accounts.Steps.{Sound, LaterThan}
use mirth_spool.Accounts.Later.{Later-refl}
use mirth_spool.Accounts.History.{here, next, installs, invites, accepts, History, History-Sound}
use mirth_spool.Accounts.Invited.{accept_invitation_once, create_invitation_live}
use mirth_spool.Examples.{test_platform}

abbrev test_secrets : Secrets
test_secrets = record { hmac = λ s t. t; is_email = λ e. true; hash_password = λ p. some p }

abbrev no_accounts : Accounts
no_accounts = record {
  users = [];
  invitations = [];
  sessions = [];
  credentials = [];
  audit = [];
  next_id = 0;
}

no_accounts-Sound : Sound no_accounts
unfolding count_where
no_accounts-Sound = record {
  user_ids = λ i. omega arith;
  users_fresh = tt;
  emails = λ e. omega arith;
  administrators = omega arith;
  invitation_ids = λ i. omega arith;
  invitations_fresh = tt;
  tokens = λ h. omega arith;
  settled = tt;
  invited = tt;
}

abbrev state : Attempt Accounts → Accounts
state (done a) = a
state (thrown e) = no_accounts

abbrev owner : SetupInput
owner = record { email = "owner@example.org"; name = "Owner"; password = "a long password" }

abbrev setup : Attempt Accounts
setup = create_first_administrator test_platform test_secrets owner true true no_accounts

abbrev guest : InvitationInput
guest = record { email = "guest@example.org"; expires_in_hours = 24 }

abbrev test_token : String
test_token = "0123456789abcdefghijklmnopqrstuvwxyzABCDEFGHIJ"

abbrev context : InvitationContext
context = record { actor_user_id = 0; now = 1000; secret = "secret"; token = test_token }

abbrev invited : Attempt Accounts
invited = create_invitation test_platform test_secrets guest context (state setup) (state setup)

abbrev answer : AcceptInput
answer = record {
  email = "guest@example.org";
  name = "Guest";
  now = 2000;
  password = "another password";
  secret = "secret";
  token = test_token;
}

abbrev entered : Attempt Accounts
entered = accept_invitation test_platform test_secrets answer true (state invited) (state invited)

test_run :
    History test_platform test_secrets no_accounts
      (state invited ∷ state setup ∷ no_accounts ∷ [])
      (state entered)
unfolding create_first_administrator create_invitation accept_invitation hash_invitation_token
    normalize_email create_user record_audit_event utf16_length trim update_where count_where
test_run =
    next (state invited) (state entered)
      (next (state setup) (state invited)
        (next no_accounts (state setup) here (inl refl) (installs owner true true refl)) (inl refl)
        (invites guest context refl))
      (inl refl) (accepts answer true refl)

History-Sound_example :
    Sound (state entered)
    × All (λ s. LaterThan s (state entered)) (state invited ∷ state setup ∷ no_accounts ∷ [])
History-Sound_example = History-Sound test_platform test_secrets no_accounts-Sound test_run

accepted_once : entered ≡ done (state entered)
unfolding create_first_administrator create_invitation accept_invitation hash_invitation_token
    normalize_email create_user record_audit_event utf16_length trim update_where count_where
accepted_once = refl

accept_invitation_once_example :
    accept_invitation test_platform test_secrets answer true (state invited) (state entered)
    ≢ done (state entered)
unfolding hash_invitation_token utf16_length
accept_invitation_once_example =
    accept_invitation_once test_platform test_secrets answer answer true true (state invited)
      (state invited) (state invited) (state entered) (state entered) (state entered) test_token
      refl refl accepted_once
      (History-Sound test_platform test_secrets no_accounts-Sound test_run).0
      (Later-refl (state entered)
        (History-Sound test_platform test_secrets no_accounts-Sound test_run).0)

create_invitation_live_example :
    count_where
      (is_live_for (normalize_email test_platform "guest@example.org") 1000)
      (state invited).invitations
    ≡ 1
unfolding create_first_administrator create_invitation hash_invitation_token normalize_email
    create_user record_audit_event utf16_length trim update_where count_where
create_invitation_live_example =
    create_invitation_live test_platform test_secrets guest context (state setup) (state setup)
      (state invited) refl
