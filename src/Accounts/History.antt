-- ===== src/Accounts/History.antt =====
-- Every run of the services, in which a service may have read its rows at any earlier state.
use mirth_spool.Base.{ℕ, ◌≡◌, subst, Bool, List, [], ◌∷◌, All, Any, inl, inr}
use mirth_spool.Base.Each.{each}
use mirth_spool.Text.{Platform}
use mirth_spool.Accounts.Rows.{Accounts, done}
use mirth_spool.Accounts.Invitations.{
  Secrets, InvitationInput, InvitationContext, AcceptInput, create_invitation, revoke_invitation,
  accept_invitation,
}
use mirth_spool.Accounts.Members.{set_member_disabled, revoke_member_sessions, delete_member}
use mirth_spool.Accounts.Setup.{SetupInput, create_first_administrator}
use mirth_spool.Accounts.Later.{Later-refl}
use mirth_spool.Accounts.Ensures.{Ensures-result}
use mirth_spool.Accounts.Steps.{
  Sound, LaterThan, Kept, accept_invitation-Kept, create_invitation-Kept, revoke_invitation-Kept,
}
use mirth_spool.Accounts.Governing.{
  set_member_disabled-Kept, revoke_member_sessions-Kept, delete_member-Kept,
  create_first_administrator-Kept,
}

module _ (platform : Platform) (secrets : Secrets) where
  -- One service that succeeds: it read `seen`, and its transaction turns `db` into `d`.
  pub data AccountStep (seen db d : Accounts) : Type 0 where
    invites :
        (input : InvitationInput) (context : InvitationContext)
        → create_invitation platform secrets input context seen db ≡ done d
        → AccountStep seen db d
    revokes :
        (id actor now : ℕ) (changed : Bool)
        → revoke_invitation id actor now db ≡ done (changed, d)
        → AccountStep seen db d
    accepts :
        (input : AcceptInput) (commits : Bool)
        → accept_invitation platform secrets input commits seen db ≡ done d
        → AccountStep seen db d
    disables :
        (actor : ℕ) (disabled : Bool) (now id : ℕ)
        → set_member_disabled actor disabled now id seen db ≡ done d
        → AccountStep seen db d
    signs_out :
        (actor id count : ℕ)
        → revoke_member_sessions actor id seen db ≡ done (count, d)
        → AccountStep seen db d
    deletes : (actor id : ℕ) → delete_member actor id seen db ≡ done d → AccountStep seen db d
    installs :
        (input : SetupInput) (commits open_then : Bool)
        → create_first_administrator platform secrets input commits open_then db ≡ done d
        → AccountStep seen db d

  -- The states of a run, the last one apart. A service reads one of them.
  pub data History (start : Accounts) : List Accounts → Accounts → Type 0 where
    here : History start [] start
    next :
        {past : List Accounts} {db : Accounts} (seen d : Accounts)
        → History start past db
        → Any (λ s. s ≡ seen) (db ∷ past)
        → AccountStep seen db d
        → History start (db ∷ past) d

  step-Kept :
      {seen db d : Accounts} → Sound db → LaterThan seen db → AccountStep seen db d → Kept db d
  step-Kept {seen} {db} {d} sound old (invites input context e) =
      Ensures-result (Kept db) d _
        (create_invitation-Kept db sound platform secrets seen old input context) e
  step-Kept {seen} {db} {d} sound old (revokes id actor now changed e) =
      Ensures-result (λ r. Kept db r.1) (changed, d) _
        (revoke_invitation-Kept db sound id actor now) e
  step-Kept {seen} {db} {d} sound old (accepts input commits e) =
      Ensures-result (Kept db) d _
        (accept_invitation-Kept db sound platform secrets seen old input commits) e
  step-Kept {seen} {db} {d} sound old (disables actor disabled now id e) =
      Ensures-result (Kept db) d _
        (set_member_disabled-Kept db sound seen old actor disabled now id) e
  step-Kept {seen} {db} {d} sound old (signs_out actor id count e) =
      Ensures-result (λ r. Kept db r.1) (count, d) _
        (revoke_member_sessions-Kept db sound seen old actor id) e
  step-Kept {seen} {db} {d} sound old (deletes actor id e) =
      Ensures-result (Kept db) d _ (delete_member-Kept db sound seen old actor id) e
  step-Kept {seen} {db} {d} sound old (installs input commits open_then e) =
      Ensures-result (Kept db) d _
        (create_first_administrator-Kept db sound platform secrets input commits open_then) e

  one_of :
      (db seen : Accounts) (xs : List Accounts)
      → All (λ s. LaterThan s db) xs
      → Any (λ s. s ≡ seen) xs
      → LaterThan seen db
  one_of db seen [] h m = absurd m
  one_of db seen (x ∷ xs) h (inl e) = subst (λ s. LaterThan s db) e h.0
  one_of db seen (x ∷ xs) h (inr m) = one_of db seen xs h.1 m

  -- Invitations, acceptances, revocations, changes to members and setups, in any order and each with
  -- reads from any earlier state of the run, keep the rules of accounts: identifiers, addresses and
  -- token hashes are unique, there is one administrator at most, every other user accepted an
  -- invitation for their address, and no invitation is both accepted and revoked. And of every
  -- earlier state it stays true that its members never become administrators, that its administrator
  -- is still there, and that its invitations are for the same addresses.
  pub History-Sound :
      {start d : Accounts} {past : List Accounts}
      → Sound start
      → History start past d
      → Sound d × All (λ s. LaterThan s d) past
  History-Sound sound here = (sound, tt)
  History-Sound sound (next {past} {db} seen d run read step) =
      let (ok, earlier) = History-Sound sound run in
      let all_earlier : All (λ s. LaterThan s db) (db ∷ past) = (Later-refl db ok, earlier) in
      let kept = step-Kept ok (one_of db seen (db ∷ past) all_earlier read) step in
      (
        kept.sound,
        each (λ s. LaterThan s db) (λ s. LaterThan s d) (db ∷ past) (λ s l. kept.later s l)
            all_earlier,
      )
