-- ===== src/Accounts/Sound/Accepting.antt =====
-- Accepting an invitation keeps the rules of accounts.
use Prim.Native.String.{String}
use text.Mathlib.Text.{◌==◌ as str_eq}
use mirth_spool.Base.{
  ℕ, suc, ◌<◌, ◌≡◌, refl, ◌∙◌, Bool, true, false, List, ◌∷◌, arith, any, All, inl, inr,
}
use mirth_spool.Base.Each.{each, pair-each}
use mirth_spool.Base.Table.{
  update_where, count_where, count-update_where, any-update_where-All, any-update_where-hit,
  update_where-each, All-update_where,
}
use mirth_spool.Accounts.Rows.{UserRole, UserRow, InvitationRow, has_email, new_user}
use mirth_spool.Accounts.Invitations.{
  is_none, has_hash, is_live, is_live_hash, is_live_id, accepted_by,
}
use mirth_spool.Accounts.Sound.{
  has_invitation_id, is_entry, is_settled, IsInvited, IsSound, users_later, invitations_later,
  add_user_ids, add_user_emails,
}

module _ (users : List UserRow) (invitations : List InvitationRow) (n : ℕ)
    (sound : IsSound users invitations n) where
  -- An invitation is accepted by a new user.
  module _ (email name : String) (id : ℕ) (hash : String) (now : ℕ) where
    abbrev is_accepting : InvitationRow → Bool
    is_accepting = is_live_id id hash now

    accepted-is_settled :
        (r : InvitationRow)
        → is_settled r ≡ true
        → is_accepting r ≡ true
        → is_settled (accepted_by now n r) ≡ true
    unfolding is_settled is_live_id accepted_by is_live_hash is_live
    accepted-is_settled r s live = ground (arith, s, live)

    accepted-entry :
        (i : ℕ) (e : String) (r : InvitationRow)
        → i < n
        → is_settled r ≡ true
        → is_accepting r ≡ true
        → is_entry i e (accepted_by now n r) ≡ is_entry i e r
    unfolding is_settled is_live_id accepted_by is_live_hash is_live is_entry is_none
    accepted-entry i e r old s live = ground (arith, s, live)

    own_entry :
        (r : InvitationRow)
        → (has_invitation_id id r ≡ true → str_eq r.email_normalized email ≡ true)
        → is_accepting r ≡ true
        → is_entry n email (accepted_by now n r) ≡ true
    unfolding is_live_id accepted_by is_entry has_invitation_id
    own_entry r same live = ground (arith, same, live)

    abbrev after_accept : List InvitationRow
    after_accept = update_where is_accepting (accepted_by now n) invitations

    old-IsInvited : (u : UserRow) → (u.id < n) × IsInvited invitations u → IsInvited after_accept u
    old-IsInvited u (old, inl administrator) = inl administrator
    old-IsInvited u (old, inr entered) = inr (
        any-update_where-All (is_entry u.id u.email_normalized) is_accepting (accepted_by now n)
          invitations
          (each (λ r. is_settled r ≡ true)
            (λ r.
              is_accepting r ≡ true
              → is_entry u.id u.email_normalized (accepted_by now n r)
                ≡ is_entry u.id u.email_normalized r)
            invitations (λ r s live. accepted-entry u.id u.email_normalized r old s live)
            sound.settled)
        ∙ entered)

    pub accept-IsSound :
        any (has_email email) users ≡ false
        → count_where is_accepting invitations ≡ 1
        → All
            (λ r. has_invitation_id id r ≡ true → str_eq r.email_normalized email ≡ true)
            invitations
        → IsSound (new_user n email name UserRole.member ∷ users) after_accept (suc n)
    unfolding accepted_by new_user has_invitation_id has_hash
    accept-IsSound absent one same = record {
      user_ids = add_user_ids users invitations n sound email name UserRole.member;
      users_fresh = (omega arith, users_later users invitations n sound);
      emails = λ e. add_user_emails users invitations n sound email name UserRole.member e absent;
      administrators = unfold count_where in ground (arith, sound.administrators);
      invitation_ids = λ i.
          rw
            (count-update_where (has_invitation_id i) is_accepting (accepted_by now n) (λ r p. refl)
              invitations)
            (sound.invitation_ids i);
      invitations_fresh =
          All-update_where (λ r. r.id < suc n) is_accepting (accepted_by now n) invitations
            (λ r p. p) (invitations_later users invitations n sound);
      tokens = λ h.
          rw
            (count-update_where (has_hash h) is_accepting (accepted_by now n) (λ r p. refl)
              invitations)
            (sound.tokens h);
      settled =
          update_where-each (λ r. is_settled r ≡ true) (λ r. is_settled r ≡ true) is_accepting
            (accepted_by now n) invitations accepted-is_settled (λ r p e. p) sound.settled;
      invited = (
        inr (
            any-update_where-hit (is_entry n email) is_accepting (accepted_by now n) invitations
              (each (λ r. has_invitation_id id r ≡ true → str_eq r.email_normalized email ≡ true)
                (λ r. is_accepting r ≡ true → is_entry n email (accepted_by now n r) ≡ true)
                invitations own_entry same)
              one),
        each (λ u. (u.id < n) × IsInvited invitations u) (IsInvited after_accept) users
            old-IsInvited
            (pair-each (λ u. u.id < n) (IsInvited invitations) users sound.users_fresh
              sound.invited),
      );
    }
