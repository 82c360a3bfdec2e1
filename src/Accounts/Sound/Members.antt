-- ===== src/Accounts/Sound/Members.antt =====
-- The writes to the table of users keep the rules of accounts.
use Prim.Native.String.{String}
use native.Mathlib.Nat.{le_trans}
use mirth_spool.Base.{
  ℕ, suc, ◌<◌, ◌≡◌, refl, ◌∙◌, true, false, Option, List, [], ◌∷◌, arith, ◌==◌, inl, inr,
}
use mirth_spool.Base.Table.{
  update_where, delete_where, count_where, count-update_where, count-delete_where-le,
  any-update_where, delete_where-each, All-update_where,
}
use mirth_spool.Accounts.Rows.{
  UserRole, UserRow, InvitationRow, is_admin, has_user_id, has_email, new_user,
}
use mirth_spool.Accounts.Invitations.{is_none, has_hash}
use mirth_spool.Accounts.Members.{set_disabled_at, is_some_id, forget_acceptor}
use mirth_spool.Accounts.Sound.{
  has_invitation_id, is_entry, is_settled, IsInvited, IsSound, invitations_later,
}

module _ (users : List UserRow) (invitations : List InvitationRow) (n : ℕ)
    (sound : IsSound users invitations n) where
  -- A user is disabled or enabled.
  pub disable-IsSound :
      (id : ℕ) (at : Option ℕ)
      → IsSound (update_where (has_user_id id) (set_disabled_at at) users) invitations n
  unfolding set_disabled_at has_email has_user_id
  disable-IsSound id at = record {
    user_ids = λ i.
        rw
          (count-update_where (has_user_id i) (has_user_id id) (set_disabled_at at) (λ u h. refl)
            users)
          (sound.user_ids i);
    users_fresh =
        All-update_where (λ u. u.id < n) (has_user_id id) (set_disabled_at at) users (λ u h. h)
          sound.users_fresh;
    emails = λ e.
        rw
          (count-update_where (has_email e) (has_user_id id) (set_disabled_at at) (λ u h. refl)
            users)
          (sound.emails e);
    administrators =
        rw (count-update_where is_admin (has_user_id id) (set_disabled_at at) (λ u h. refl) users)
          sound.administrators;
    invitation_ids = sound.invitation_ids;
    invitations_fresh = sound.invitations_fresh;
    tokens = sound.tokens;
    settled = sound.settled;
    invited =
        All-update_where (IsInvited invitations) (has_user_id id) (set_disabled_at at) users
          (λ u h. h) sound.invited;
  }

  -- A user is deleted.
  module _ (id : ℕ) where
    abbrev forgotten : List InvitationRow
    forgotten = update_where (λ r. true) (forget_acceptor id) invitations

    other_entry :
        (i : ℕ) (e : String) (r : InvitationRow)
        → (i == id) ≡ false
        → is_entry i e (forget_acceptor id r) ≡ is_entry i e r
    unfolding is_entry forget_acceptor is_some_id
    other_entry i e r other = ground (arith, other)

    forgotten-is_settled :
        (r : InvitationRow) → is_settled r ≡ true → is_settled (forget_acceptor id r) ≡ true
    unfolding is_settled forget_acceptor is_some_id is_none
    forgotten-is_settled r s = ground (arith, s)

    others_invited :
        (u : UserRow) → IsInvited invitations u → has_user_id id u ≡ false → IsInvited forgotten u
    unfolding has_user_id
    others_invited u (inl administrator) other = inl administrator
    others_invited u (inr entered) other = inr (
        any-update_where (is_entry u.id u.email_normalized) (λ r. true) (forget_acceptor id)
          (λ r h. other_entry u.id u.email_normalized r other) invitations
        ∙ entered)

    pub delete-IsSound : IsSound (delete_where (has_user_id id) users) forgotten n
    unfolding forget_acceptor has_invitation_id has_hash
    delete-IsSound = record {
      user_ids = λ i.
          le_trans (count-delete_where-le (has_user_id i) (has_user_id id) users)
            (sound.user_ids i);
      users_fresh =
          delete_where-each (λ u. u.id < n) (λ u. u.id < n) (has_user_id id) users (λ u h e. h)
            sound.users_fresh;
      emails = λ e.
          le_trans (count-delete_where-le (has_email e) (has_user_id id) users) (sound.emails e);
      administrators =
          le_trans (count-delete_where-le is_admin (has_user_id id) users) sound.administrators;
      invitation_ids = λ i.
          rw
            (count-update_where (has_invitation_id i) (λ r. true) (forget_acceptor id) (λ r h. refl)
              invitations)
            (sound.invitation_ids i);
      invitations_fresh =
          All-update_where (λ r. r.id < n) (λ r. true) (forget_acceptor id) invitations (λ r h. h)
            sound.invitations_fresh;
      tokens = λ h.
          rw
            (count-update_where (has_hash h) (λ r. true) (forget_acceptor id) (λ r k. refl)
              invitations)
            (sound.tokens h);
      settled =
          All-update_where (λ r. is_settled r ≡ true) (λ r. true) (forget_acceptor id) invitations
            forgotten-is_settled sound.settled;
      invited =
          delete_where-each (IsInvited invitations) (IsInvited forgotten) (has_user_id id) users
            others_invited sound.invited;
    }

-- The first user is the administrator.
pub install-IsSound :
    (invitations : List InvitationRow) (n : ℕ) (email name : String)
    → IsSound [] invitations n
    → IsSound (new_user n email name UserRole.admin ∷ []) invitations (suc n)
unfolding new_user has_user_id has_email count_where
install-IsSound invitations n email name sound = record {
  user_ids = λ i. ground arith;
  users_fresh = (omega arith, tt);
  emails = λ e. ground arith;
  administrators = ground arith;
  invitation_ids = sound.invitation_ids;
  invitations_fresh = invitations_later [] invitations n sound;
  tokens = sound.tokens;
  settled = sound.settled;
  invited = (inl refl, tt);
}
