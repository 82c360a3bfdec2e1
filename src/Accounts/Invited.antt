-- ===== src/Accounts/Invited.antt =====
-- An invitation is accepted once, and is the only one for its address.
use Prim.Native.String.{String}
use text.Mathlib.Text.{◌==◌ as str_eq}
use text.Mathlib.TextEquality.{eq_iff}
use mirth_spool.Base.{
  ℕ, ◌≤◌, ◌≡◌, ◌≢◌, refl, sym, subst, ap, ◌∙◌, Bool, true, false, not, ◌&&◌, List, [], ◌∷◌, arith,
  any, find, All, Bool-cases, inl, inr,
}
use mirth_spool.Base.Table.{update_where, count_where, any-update_where-hit, count-zero_of_any}
use mirth_spool.Text.{Platform}
use mirth_spool.Accounts.Rows.{
  UserRole, InvitationRow, AccountEvent, Accounts, AccountError, done, has_email, normalize_email,
}
use mirth_spool.Accounts.Invitations.{
  Secrets, InvitationInput, InvitationContext, AcceptInput, is_none, is_live, is_live_for,
  is_live_hash, is_live_id, has_hash, revoked_now, accepted_by, new_invitation, revoke_live,
  valid_input, invite, create_invitation, enter, hash_invitation_token, accept_invitation,
}
use mirth_spool.Accounts.Later.{is_used, unique_kind, none_of}
use mirth_spool.Accounts.Ensures.{
  Ensures, of_done, Ensures-result, Ensures-bind, Ensures-weaken, Ensures-any, Ensures-guard,
  Ensures-require, Ensures-or_throw, Ensures-as_unavailable, Ensures-record_audit_event,
  Ensures-create_user, Ensures-mark_accepted, Ensures-put_invitation,
}
use mirth_spool.Accounts.Steps.{Sound, LaterThan}

live-used :
    (id : ℕ) (hash : String) (now user : ℕ) (r : InvitationRow)
    → is_live_id id hash now r ≡ true
    → is_used hash (accepted_by now user r) ≡ true
unfolding is_live_id is_live_hash is_used accepted_by has_hash is_none
live-used id hash now user r h = ground (arith, h)

-- An acceptance that succeeds met an invitation that no one had accepted, and marks it.
abbrev Marks : String → Accounts → Accounts → Type 0
Marks hash db d =
    (any (λ r. has_hash hash r && is_none r.accepted_at) db.invitations ≡ true)
    × (any (is_used hash) d.invitations ≡ true)

live-unused :
    (id : ℕ) (hash : String) (now : ℕ) (rs : List InvitationRow)
    → any (λ r. has_hash hash r && is_none r.accepted_at) rs ≡ false
    → any (is_live_id id hash now) rs ≡ false
unfolding is_live_id is_live_hash is_live
live-unused id hash now rs h =
    none_of (λ r. has_hash hash r && is_none r.accepted_at) (is_live_id id hash now)
      (λ r k. ground (arith, k)) rs h

module _ (db : Accounts) where
  marked :
      (id : ℕ) (hash : String) (now : ℕ)
      → count_where (is_live_id id hash now) db.invitations ≡ 1
      → any (λ r. has_hash hash r && is_none r.accepted_at) db.invitations ≡ true
  marked id hash now one =
      elim (Bool-cases (any (λ r. has_hash hash r && is_none r.accepted_at) db.invitations)) [
        | inl e ↦ e
        | inr e ↦ absurd (
            omega (
              arith,
              one,
              count-zero_of_any (is_live_id id hash now) db.invitations
                  (live-unused id hash now db.invitations e),
            ))
      ]

  enter-Marks :
      (id : ℕ) (email hash : String) (input : AcceptInput) (password_hash : String) (commits : Bool)
      → Ensures (Marks hash db) (enter id email hash input password_hash commits db)
  unfolding enter
  enter-Marks id email hash input password_hash commits =
      let p = is_live_id id hash input.now in
      let f = accepted_by input.now db.next_id in
      Ensures-bind _ (Marks hash db) _ _
        (Ensures-create_user email input.name UserRole.member password_hash db)
        λ c made.
          Ensures-bind _ (Marks hash db) _ _ (Ensures-mark_accepted id hash input.now db.next_id c)
            λ d m.
              let same : c.invitations ≡ db.invitations =
                ap (λ (x : Accounts). x.invitations) made.1.1 in
              let one : count_where p db.invitations ≡ 1 =
                subst (λ (rs : List InvitationRow). count_where p rs ≡ 1) same m.0 in
              let there : d.invitations ≡ update_where p f db.invitations =
                ap (λ (x : Accounts). x.invitations) m.1 ∙ ap (update_where p f) same in
              let used : any (is_used hash) d.invitations ≡ true =
                ap (any (is_used hash)) there
                ∙ any-update_where-hit (is_used hash) p f db.invitations
                    (all_live id hash input.now db.next_id db.invitations) one in
              Ensures-bind _ (Marks hash db) _ _ (Ensures-record_audit_event _ _ _ _) λ e written.
                Ensures-bind _ (Marks hash db) _ _ (Ensures-require commits _) λ u h. of_done e (
                  marked id hash input.now one,
                  ap (λ (x : Accounts). any (is_used hash) x.invitations) written.1 ∙ used,
                )
    where
      all_live :
          (i : ℕ) (h : String) (now user : ℕ) (rs : List InvitationRow)
          → All (λ r. is_live_id i h now r ≡ true → is_used h (accepted_by now user r) ≡ true) rs
      all_live i h now user [] = tt
      all_live i h now user (r ∷ rs) = (live-used i h now user r, all_live i h now user rs)

used_only :
    (rs : List InvitationRow) (h : String)
    → count_where (has_hash h) rs ≤ 1
    → any (is_used h) rs ≡ true
    → any (λ r. has_hash h r && is_none r.accepted_at) rs ≡ false
unfolding is_used
used_only rs h one there =
    none_of (λ r. has_hash h r && not (not (is_none r.accepted_at)))
      (λ r. has_hash h r && is_none r.accepted_at) (λ r k. ground (arith, k)) rs
      (unique_kind (has_hash h) (λ r. not (is_none r.accepted_at)) rs one there)

module _ (platform : Platform) (secrets : Secrets) where
  accept_invitation-Marks :
      (input : AcceptInput) (commits : Bool) (seen db : Accounts) (hash : String)
      → hash_invitation_token secrets input.secret input.token ≡ done hash
      → Ensures (Marks hash db) (accept_invitation platform secrets input commits seen db)
  unfolding accept_invitation
  accept_invitation-Marks input commits seen db hash e =
      rw (e, accept_invitation)
        (Ensures-bind {A = InvitationRow} _ (Marks hash db) _ _
          (Ensures-or_throw (find (is_live_hash hash input.now) seen.invitations) _)
          λ i found.
            Ensures-guard (Marks hash db)
              (str_eq i.email_normalized (normalize_email platform input.email))
              AccountError.invitation_unavailable _
              λ same.
                Ensures-bind _ (Marks hash db) _ _
                  (Ensures-or_throw (secrets.hash_password input.password) AccountError.hash_failed)
                  λ password_hash hashed. Ensures-as_unavailable (Marks hash db) _ (
                    enter-Marks db i.id (normalize_email platform input.email) hash input
                      password_hash commits))

  -- After a token was accepted no acceptance of it succeeds, at any later state of the run and
  -- whatever it read before.
  pub accept_invitation_once :
      (input again : AcceptInput) (commits recommits : Bool) (seen seen_again db d e f : Accounts)
      (hash : String)
      → hash_invitation_token secrets input.secret input.token ≡ done hash
      → hash_invitation_token secrets again.secret again.token ≡ done hash
      → accept_invitation platform secrets input commits seen db ≡ done d
      → Sound e
      → LaterThan d e
      → accept_invitation platform secrets again recommits seen_again e ≢ done f
  accept_invitation_once input again commits recommits seen seen_again db d e f hash h k ok sound
        later twice =
      let first =
        Ensures-result (Marks hash db) d _ (accept_invitation-Marks input commits seen db hash h)
          ok in
      let second =
        Ensures-result (Marks hash e) f _
          (accept_invitation-Marks again recommits seen_again e hash k) twice in
      let only = used_only e.invitations hash (sound.tokens hash) (later.used hash first.1) in
      cc (sym second.0 ∙ only)

  new-is_live :
      (input : InvitationInput) (email : String) (context : InvitationContext) (hash : String)
      (id : ℕ)
      → valid_input platform secrets input ≡ true
      → is_live_for email context.now (new_invitation id input email context hash) ≡ true
  unfolding valid_input is_live_for is_live is_none new_invitation
  new-is_live input email context hash id fits = ground (arith, fits, eq_iff email email)

  revoked-live :
      (email : String) (now : ℕ) (rs : List InvitationRow)
      → count_where
          (is_live_for email now)
          (update_where (is_live_for email now) (revoked_now now) rs)
        ≡ 0
  unfolding count_where update_where is_live_for is_live is_none revoked_now
  revoked-live email now [] = refl
  revoked-live email now (r ∷ rs) = ground (arith, revoked-live email now rs)

  lone :
      (email : String) (now : ℕ) (r : InvitationRow) (rs : List InvitationRow)
      → is_live_for email now r ≡ true
      → count_where
          (is_live_for email now)
          (r ∷ update_where (is_live_for email now) (revoked_now now) rs)
        ≡ 1
  unfolding count_where
  lone email now r rs live = ground (arith, live, revoked-live email now rs)

  abbrev IsLone : String → ℕ → Accounts → Type 0
  IsLone email now d = count_where (is_live_for email now) d.invitations ≡ 1

  create_invitation-IsLone :
      (input : InvitationInput) (context : InvitationContext) (seen db : Accounts)
      → Ensures
          (IsLone (normalize_email platform input.email) context.now)
          (create_invitation platform secrets input context seen db)
  unfolding create_invitation invite revoke_live
  create_invitation-IsLone input context seen db =
      let email = normalize_email platform input.email in
      Ensures-guard (IsLone email context.now) (valid_input platform secrets input)
        AccountError.invalid_input _
        λ fits.
          Ensures-guard (IsLone email context.now) (not (any (has_email email) seen.users))
            AccountError.invitation_conflict _
            λ free.
              Ensures-bind (λ h. Unit {0}) (IsLone email context.now) _ _
                (Ensures-any (hash_invitation_token secrets context.secret context.token))
                λ hash w.
                  Ensures-bind _ (IsLone email context.now) _ _
                    (Ensures-put_invitation (new_invitation db.next_id input email context hash)
                      (revoke_live email context.now db))
                    λ d put.
                      Ensures-weaken _ (IsLone email context.now) _
                        (Ensures-record_audit_event context.actor_user_id
                          AccountEvent.invitation_created db.next_id d)
                        λ x written.
                          ap
                            (λ (y : Accounts).
                              count_where (is_live_for email context.now) y.invitations)
                            (written.1
                              ∙ ap (λ (y : Accounts). record y { audit = written.0 }) put.1)
                          ∙ lone email context.now
                              (new_invitation db.next_id input email context hash) db.invitations
                              (new-is_live input email context hash db.next_id fits)

  -- An invitation that is created is live, and the only live one for its address.
  pub create_invitation_live :
      (input : InvitationInput) (context : InvitationContext) (seen db d : Accounts)
      → create_invitation platform secrets input context seen db ≡ done d
      → count_where (is_live_for (normalize_email platform input.email) context.now) d.invitations
        ≡ 1
  create_invitation_live input context seen db d e =
      Ensures-result _ d _ (create_invitation-IsLone input context seen db) e
