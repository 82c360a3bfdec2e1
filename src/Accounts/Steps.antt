-- ===== src/Accounts/Steps.antt =====
-- Each service keeps the rules of accounts, and what is true of the earlier states.
use Prim.Native.String.{String}
use text.Mathlib.Text.{◌==◌ as str_eq}
use mirth_spool.Base.{
  ℕ, suc, ◌≡◌, refl, sym, subst, ap, ◌∙◌, Bool, true, false, not, none, some, List, [], ◌∷◌, arith,
  ◌==◌, any, All, find, Bool-cases, inl, inr,
}
use mirth_spool.Base.Table.{update_where, count_where, any_of_find}
use mirth_spool.Text.{Platform}
use mirth_spool.Accounts.Rows.{
  UserRole, InvitationRow, CredentialRow, AccountAudit, AccountEvent, Accounts, AccountError,
  has_email, normalize_email, record_audit_event, new_user,
}
use mirth_spool.Accounts.Invitations.{
  Secrets, InvitationInput, InvitationContext, AcceptInput, is_live_for, is_live_hash, is_live_id,
  is_open_id, is_live, is_none, has_hash, revoked_now, accepted_by, new_invitation, revoke_live,
  valid_input, invite, create_invitation, revoke_invitation, enter, hash_invitation_token,
  accept_invitation,
}
use mirth_spool.Accounts.Sound.{has_invitation_id, IsSound}
use mirth_spool.Accounts.Sound.Accepting.{accept-IsSound}
use mirth_spool.Accounts.Sound.Inviting.{revoke-IsSound, put-IsSound}
use mirth_spool.Accounts.Later.{
  Later, is_for, is_not_for, is_used, Later-update_invitations, Later-add_member, Later-put,
}
use mirth_spool.Accounts.Ensures.{
  Ensures, of_done, Ensures-bind, Ensures-weaken, Ensures-any, Ensures-guard, Ensures-require,
  Ensures-or_throw, Ensures-as_unavailable, Ensures-record_audit_event, Ensures-create_user,
  Ensures-mark_accepted, Ensures-put_invitation,
}

abbrev pub Sound : Accounts → Type 0
Sound a = IsSound a.users a.invitations a.next_id

abbrev pub LaterThan : Accounts → Accounts → Type 0
LaterThan s a = Later s a.users a.invitations a.next_id

-- What a step from `db` to `d` keeps.
pub record Kept (db d : Accounts) : Type 0 where
  pub sound : Sound d
  pub later : (s : Accounts) → LaterThan s db → LaterThan s d

-- A step that writes an audit event and none of these tables.
audited :
    (db c d : Accounts) (events : List AccountAudit)
    → Kept db c
    → d ≡ record c { audit = events }
    → Kept db d
audited db c d events k e = record {
  sound = subst Sound (sym e) k.sound;
  later = λ s l. subst (LaterThan s) (sym e) (k.later s l);
}

pub Kept-record_audit_event :
    (actor : ℕ) (event : AccountEvent) (target : ℕ) (db c : Accounts)
    → Kept db c
    → Ensures (Kept db) (record_audit_event actor event target c)
Kept-record_audit_event actor event target db c k =
    Ensures-weaken (λ d. (a : List AccountAudit) × (d ≡ record c { audit = a })) (Kept db)
      (record_audit_event actor event target c) (Ensures-record_audit_event actor event target c)
      (λ d p. audited db c d p.0 k p.1)

accepted_used :
    (h : String) (now user : ℕ) (r : InvitationRow)
    → is_used h r ≡ true
    → is_used h (accepted_by now user r) ≡ true
unfolding is_used accepted_by has_hash is_none
accepted_used h now user r u = ground (arith, u)

revoked_used :
    (h : String) (now : ℕ) (r : InvitationRow)
    → is_used h r ≡ true
    → is_used h (revoked_now now r) ≡ true
unfolding is_used revoked_now has_hash
revoked_used h now r u = u

live_pending :
    (email : String) (now : ℕ) (q : InvitationRow)
    → is_live_for email now q ≡ true
    → is_none q.accepted_at ≡ true
unfolding is_live_for is_live
live_pending email now q h = ground (arith, h)

open_pending : (id : ℕ) (q : InvitationRow) → is_open_id id q ≡ true → is_none q.accepted_at ≡ true
unfolding is_open_id
open_pending id q h = ground (arith, h)

revoked_address :
    (i : ℕ) (e : String) (now : ℕ) (q : InvitationRow)
    → is_not_for i e (revoked_now now q) ≡ is_not_for i e q
unfolding is_not_for has_invitation_id revoked_now
revoked_address i e now q = refl

module _ (db : Accounts) (sound : Sound db) where
  -- The transaction of an acceptance, of an invitation that was for the address.
  accepted :
      (email name : String) (id : ℕ) (hash : String) (now : ℕ) (cs : List CredentialRow)
      → any (has_email email) db.users ≡ false
      → count_where (is_live_id id hash now) db.invitations ≡ 1
      → any (is_not_for id email) db.invitations ≡ false
      → Kept db (record db {
        users = new_user db.next_id email name UserRole.member ∷ db.users;
        credentials = cs;
        invitations =
            update_where (is_live_id id hash now) (accepted_by now db.next_id) db.invitations;
        next_id = suc db.next_id;
      })
  unfolding accepted_by is_not_for has_invitation_id
  accepted email name id hash now cs absent one same = record {
    sound =
        accept-IsSound db.users db.invitations db.next_id sound email name id hash now absent one
          (for_address id email db.invitations same);
    later = λ s l.
        Later-update_invitations s (new_user db.next_id email name UserRole.member ∷ db.users)
          db.invitations (suc db.next_id)
          (Later-add_member s db.users db.invitations db.next_id l email name)
          (is_live_id id hash now) (accepted_by now db.next_id) (λ i e r. refl)
          (λ h r u. accepted_used h now db.next_id r u);
  }
    where
      for_address :
          (i : ℕ) (e : String) (rs : List InvitationRow)
          → any (is_not_for i e) rs ≡ false
          → All (λ r. has_invitation_id i r ≡ true → str_eq r.email_normalized e ≡ true) rs
      for_address i e [] h = tt
      for_address i e (r ∷ rs) h =
          (λ own. ground (arith, own, h), for_address i e rs (ground (arith, h)))

  enter-Kept :
      (id : ℕ) (email hash : String) (input : AcceptInput) (password_hash : String) (commits : Bool)
      → any (is_not_for id email) db.invitations ≡ false
      → Ensures (Kept db) (enter id email hash input password_hash commits db)
  unfolding enter
  enter-Kept id email hash input password_hash commits same =
      Ensures-bind _ (Kept db) _ _
        (Ensures-create_user email input.name UserRole.member password_hash db)
        λ c made.
          let (absent, (cs, built)) = made in
          Ensures-bind _ (Kept db) _ _ (Ensures-mark_accepted id hash input.now db.next_id c)
            λ d marked.
              let one : count_where (is_live_id id hash input.now) db.invitations ≡ 1 =
                subst
                  (λ (x : Accounts). count_where (is_live_id id hash input.now) x.invitations ≡ 1)
                  built marked.0 in
              let whole = accepted email input.name id hash input.now cs absent one same in
              let same_d =
                marked.1
                ∙ ap
                    (λ (x : Accounts). record x {
                      invitations =
                          update_where (is_live_id id hash input.now)
                            (accepted_by input.now db.next_id) x.invitations;
                    })
                    built in
              Ensures-bind (Kept db) (Kept db) _ _
                (Kept-record_audit_event db.next_id AccountEvent.invitation_accepted id db d
                  (subst (Kept db) (sym same_d) whole))
                λ e kept.
                  Ensures-bind _ (Kept db) _ _ (Ensures-require commits AccountError.write_conflict)
                    λ u h. of_done e kept

  module _ (platform : Platform) (secrets : Secrets) (seen : Accounts)
      (old : LaterThan seen db) where
    -- The invitation that was found is still for the address.
    still_for :
        (i : InvitationRow) (hash email : String) (now : ℕ)
        → find (is_live_hash hash now) seen.invitations ≡ some i
        → str_eq i.email_normalized email ≡ true
        → any (is_not_for i.id email) db.invitations ≡ false
    unfolding is_for has_invitation_id
    still_for i hash email now found same = old.addresses i.id email (
        any_of_find (is_live_hash hash now) (is_for i.id email) seen.invitations i found
          (ground (arith, same)))

    pub accept_invitation-Kept :
        (input : AcceptInput) (commits : Bool)
        → Ensures (Kept db) (accept_invitation platform secrets input commits seen db)
    unfolding accept_invitation
    accept_invitation-Kept input commits =
        let email = normalize_email platform input.email in
        Ensures-bind (λ h. Unit {0}) (Kept db) _ _
          (Ensures-any (hash_invitation_token secrets input.secret input.token))
          λ hash u. Ensures-bind _ (Kept db) _ _ (Ensures-or_throw _ _) λ i found.
            Ensures-bind _ (Kept db) _ _ (Ensures-require _ _) λ v same.
              Ensures-bind _ (Kept db) _ _ (Ensures-or_throw _ _) λ password_hash hashed.
                Ensures-as_unavailable (Kept db) _ (
                  enter-Kept i.id email hash input password_hash commits
                    (still_for i hash email input.now found same))

    pub create_invitation-Kept :
        (input : InvitationInput) (context : InvitationContext)
        → Ensures (Kept db) (create_invitation platform secrets input context seen db)
    unfolding create_invitation invite revoke_live
    create_invitation-Kept input context =
        let email = normalize_email platform input.email in
        Ensures-guard (Kept db) (valid_input platform secrets input) AccountError.invalid_input _
          λ fits.
            Ensures-guard (Kept db) (not (any (has_email email) seen.users))
              AccountError.invitation_conflict _
              λ free.
                Ensures-bind (λ h. Unit {0}) (Kept db) _ _
                  (Ensures-any (hash_invitation_token secrets context.secret context.token))
                  λ hash w.
                    Ensures-bind _ (Kept db) _ _
                      (Ensures-put_invitation (new_invitation db.next_id input email context hash)
                        (revoke_live email context.now db))
                      λ d put.
                        Kept-record_audit_event context.actor_user_id
                          AccountEvent.invitation_created db.next_id db d
                          (subst (Kept db) (sym put.1) (
                            invited (new_invitation db.next_id input email context hash) email
                              context.now refl refl refl put.0))
      where
        invited :
            (r : InvitationRow) (email : String) (now : ℕ)
            → r.id ≡ db.next_id
            → r.accepted_at ≡ none
            → r.accepted_user_id ≡ none
            → any (has_hash r.token_hash) (revoke_live email now db).invitations ≡ false
            → Kept db (record db {
              invitations = r ∷ (revoke_live email now db).invitations;
              next_id = suc db.next_id;
            })
        invited r email now own at by absent = record {
          sound =
              put-IsSound db.users _ db.next_id
                (revoke-IsSound db.users db.invitations db.next_id sound (is_live_for email now) now
                  (λ q h. live_pending email now q h))
                r own at by absent;
          later = λ s l.
              Later-put s db.users _ db.next_id
                (Later-update_invitations s db.users db.invitations db.next_id l
                  (is_live_for email now) (revoked_now now) (λ i e q. revoked_address i e now q)
                  (λ h q u. revoked_used h now q u))
                r own;
        }

  pub revoke_invitation-Kept :
      (id actor now : ℕ) → Ensures (λ r. Kept db r.1) (revoke_invitation id actor now db)
  unfolding revoke_invitation
  revoke_invitation-Kept id actor now =
      elim (Bool-cases (count_where (is_open_id id) db.invitations == 0)) [
        | inl e ↦ rw (e, revoke_invitation) (of_done _ revoked)
        | inr e ↦
            rw (e, revoke_invitation)
              (Ensures-bind (Kept db) (λ r. Kept db r.1) _ _
                (Kept-record_audit_event actor AccountEvent.invitation_revoked id db _ revoked)
                λ d k. of_done _ k)
      ]
    where
      revoked : Kept db (record db {
        invitations = update_where (is_open_id id) (revoked_now now) db.invitations;
      })
      revoked = record {
        sound =
            revoke-IsSound db.users db.invitations db.next_id sound (is_open_id id) now
              (λ q h. open_pending id q h);
        later = λ s l.
            Later-update_invitations s db.users db.invitations db.next_id l (is_open_id id)
              (revoked_now now) (λ i e q. revoked_address i e now q)
              (λ h q u. revoked_used h now q u);
      }
