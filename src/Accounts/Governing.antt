-- ===== src/Accounts/Governing.antt =====
-- The services for members and for the setup keep the rules of accounts.
use Prim.Native.String.{String}
use mirth_spool.Base.{
  ℕ, suc, ◌≡◌, refl, sym, subst, Bool, true, false, Option, none, some, List, [], ◌∷◌, arith, ◌==◌,
  any, find, length, if◌then◌else◌, Bool-cases, Option-cases, inl, inr,
}
use mirth_spool.Base.Table.{delete_where, any_of_find}
use mirth_spool.Text.{Platform}
use mirth_spool.Accounts.Rows.{
  UserRole, UserRow, CredentialRow, AccountAudit, AccountEvent, Accounts, AccountError, is_admin,
  has_user_id, normalize_email, new_user,
}
use mirth_spool.Accounts.Invitations.{Secrets, has_hash}
use mirth_spool.Accounts.Members.{
  require_member, update_user, close_sessions, set_member_disabled, revoke_member_sessions,
  created_by, forget_acceptor, delete_user, delete_member,
}
use mirth_spool.Accounts.Setup.{SetupInput, is_setup_open, install, create_first_administrator}
use mirth_spool.Accounts.Sound.{has_invitation_id, IsSound}
use mirth_spool.Accounts.Sound.Members.{disable-IsSound, delete-IsSound, install-IsSound}
use mirth_spool.Accounts.Later.{
  is_member_id, is_admin_id, is_not_for, is_used, Later-update_invitations, Later-add_administrator,
  Later-disable, Later-delete,
}
use mirth_spool.Accounts.Ensures.{
  Ensures, of_done, of_thrown, Ensures-bind, Ensures-weaken, Ensures-guard, Ensures-guard_not,
  Ensures-guard_else, Ensures-or_throw, Ensures-after_conflict, Ensures-record_audit_event,
  Ensures-create_user,
}
use mirth_spool.Accounts.Steps.{Sound, LaterThan, Kept, Kept-record_audit_event}

own_member : (u : UserRow) → is_admin u ≡ false → is_member_id u.id u ≡ true
unfolding is_member_id has_user_id
own_member u m = ground (arith, m)

require_member-Ensures :
    (id : ℕ) (seen : Accounts)
    → Ensures (λ t. any (is_member_id t) seen.users ≡ true) (require_member id seen)
unfolding require_member
require_member-Ensures id seen = elim (Option-cases (find (has_user_id id) seen.users)) [
  | inl e ↦ rw (e, require_member) (of_thrown _)
  | inr (u, e) ↦ elim (Bool-cases (is_admin u)) [
    | inl a ↦ rw (e, require_member) (rw a (of_thrown _))
    | inr m ↦ rw (e, require_member) (rw m (of_done _ (is_there u e m)))
  ]
]
  where
    is_there :
        (u : UserRow)
        → find (has_user_id id) seen.users ≡ some u
        → is_admin u ≡ false
        → any (is_member_id u.id) seen.users ≡ true
    is_there u e m =
        any_of_find (has_user_id id) (is_member_id u.id) seen.users u e (own_member u m)

no_users : (us : List UserRow) → (length us == 0) ≡ true → us ≡ []
no_users [] h = refl
no_users (u ∷ us) h = absurd (ground (arith, h))

module _ (db : Accounts) (sound : Sound db) where
  update_user-Kept : (id : ℕ) (at : Option ℕ) → Ensures (Kept db) (update_user id at db)
  unfolding update_user
  update_user-Kept id at = elim (Bool-cases (any (has_user_id id) db.users)) [
    | inl e ↦
        rw (e, update_user)
          (of_done _ (record {
            sound = disable-IsSound db.users db.invitations db.next_id sound id at;
            later = λ s l. Later-disable s db.users db.invitations db.next_id l id at;
          }))
    | inr e ↦ rw (e, update_user) (of_thrown _)
  ]

  delete_user-Kept :
      (id : ℕ) → any (is_admin_id id) db.users ≡ false → Ensures (Kept db) (delete_user id db)
  unfolding delete_user is_used has_hash is_not_for has_invitation_id forget_acceptor
  delete_user-Kept id plain =
      Ensures-guard_not (Kept db) (any (has_user_id id) db.users) AccountError.missing_row _
        λ there.
          Ensures-guard_else (Kept db) (any (created_by id) db.invitations) AccountError.restricted
            _
            λ free. of_done _ (record {
              sound = delete-IsSound db.users db.invitations db.next_id sound id;
              later = λ s l.
                  Later-update_invitations s (delete_where (has_user_id id) db.users) db.invitations
                    db.next_id (Later-delete s db.users db.invitations db.next_id l id plain)
                    (λ r. true) (forget_acceptor id) (λ i e r. refl) (λ h r u. u);
            })

module _ (db : Accounts) (sound : Sound db) (seen : Accounts) (old : LaterThan seen db) where
  pub set_member_disabled-Kept :
      (actor : ℕ) (disabled : Bool) (now id : ℕ)
      → Ensures (Kept db) (set_member_disabled actor disabled now id seen db)
  unfolding set_member_disabled
  set_member_disabled-Kept actor disabled now id =
      Ensures-bind _ (Kept db) _ _ (require_member-Ensures id seen) λ target there.
        Ensures-bind _ (Kept db) _ _
          (update_user-Kept db sound target (if disabled then some now else none))
          λ d kept. Kept-record_audit_event actor _ target db _ (closed disabled target d kept)
    where
      closed :
          (b : Bool) (target : ℕ) (d : Accounts)
          → Kept db d
          → Kept db (if b then close_sessions target d else d)
      closed true target d kept = record { sound = kept.sound; later = kept.later }
      closed false target d kept = kept

  pub revoke_member_sessions-Kept :
      (actor id : ℕ) → Ensures (λ r. Kept db r.1) (revoke_member_sessions actor id seen db)
  unfolding revoke_member_sessions
  revoke_member_sessions-Kept actor id =
      Ensures-bind _ (λ r. Kept db r.1) _ _ (require_member-Ensures id seen)
        λ target there.
          Ensures-bind (Kept db) (λ r. Kept db r.1) _ _
            (Kept-record_audit_event actor AccountEvent.member_sessions_revoked target db
              (close_sessions target db) (record { sound = sound; later = λ s l. l }))
            λ d kept. of_done _ kept

  pub delete_member-Kept : (actor id : ℕ) → Ensures (Kept db) (delete_member actor id seen db)
  unfolding delete_member
  delete_member-Kept actor id =
      Ensures-bind _ (Kept db) _ _ (require_member-Ensures id seen) λ target there.
        Ensures-bind _ (Kept db) _ _
          (Ensures-record_audit_event actor AccountEvent.member_deleted target db)
          λ d p. deleted target (old.members target there) d p.0 p.1
    where
      deleted :
          (target : ℕ)
          → any (is_admin_id target) db.users ≡ false
          → (d : Accounts) (events : List AccountAudit) → d ≡ record db { audit = events }
          → Ensures (Kept db) (delete_user target d)
      deleted target plain d events e =
          subst (λ x. Ensures (Kept db) (delete_user target x)) (sym e)
            (Ensures-weaken (Kept (record db { audit = events })) (Kept db) _
              (delete_user-Kept (record db { audit = events }) sound target plain)
              (λ x k. record { sound = k.sound; later = k.later }))

module _ (db : Accounts) (sound : Sound db) (platform : Platform) (secrets : Secrets) where
  pub create_first_administrator-Kept :
      (input : SetupInput) (commits open_then : Bool)
      → Ensures (Kept db) (create_first_administrator platform secrets input commits open_then db)
  unfolding create_first_administrator install
  create_first_administrator-Kept input commits open_then =
      let email = normalize_email platform input.email in
      Ensures-after_conflict (Kept db) open_then _ (
        Ensures-guard (Kept db) (is_setup_open db) AccountError.setup_closed _ λ open_now.
          Ensures-bind _ (Kept db) _ _
            (Ensures-or_throw (secrets.hash_password input.password) AccountError.hash_failed)
            λ password_hash hashed.
              Ensures-bind _ (Kept db) _ _
                (Ensures-create_user email input.name UserRole.admin password_hash db)
                λ c made.
                  Ensures-bind (Kept db) (Kept db) _ _
                    (Kept-record_audit_event db.next_id AccountEvent.auth_setup_completed db.next_id
                      db c
                      (subst (Kept db) (sym made.1.1)
                        (first db sound open_now email input.name made.1.0)))
                    λ e kept.
                      Ensures-guard (Kept db) commits AccountError.write_conflict _
                        λ h. of_done e kept)
    where
      first :
          (d : Accounts)
          → Sound d
          → is_setup_open d ≡ true
          → (email name : String) (cs : List CredentialRow)
          → Kept d (record d {
            users = new_user d.next_id email name UserRole.admin ∷ d.users;
            credentials = cs;
            next_id = suc d.next_id;
          })
      first d ok open_now email name cs = record {
        sound =
            subst
              (λ us.
                IsSound (new_user d.next_id email name UserRole.admin ∷ us) d.invitations
                  (suc d.next_id))
              (sym (no_users d.users open_now))
              (install-IsSound d.invitations d.next_id email name
                (subst (λ us. IsSound us d.invitations d.next_id) (no_users d.users open_now) ok));
        later = λ s l. Later-add_administrator s d.users d.invitations d.next_id l email name;
      }
