-- ===== src/Accounts/Sound.antt =====
-- The rules that the tables of accounts keep, and each write that keeps them.
pub mod Accepting
pub mod Inviting
pub mod Members
use Prim.Native.String.{String}
use native.Mathlib.Nat.{le_trans}
use text.Mathlib.Text.{◌==◌ as str_eq}
use text.Mathlib.TextEquality.{eq_iff}
use mirth_spool.Base.{
  ℕ, suc, ◌+◌, ◌≤◌, ◌<◌, ◌≡◌, refl, sym, ap, ◌∙◌, Bool, true, false, ◌&&◌, ◌||◌, Option, none, some,
  List, [], ◌∷◌, arith, ◌==◌, any, All, if◌then◌else◌, Bool-cases, inl, inr, ◌⊎◌,
}
use mirth_spool.Base.Each.{each, pair-each}
use mirth_spool.Base.Table.{
  update_where, delete_where, count_where, count-update_where, count-delete_where-le,
  count-zero_of_any, count-zero_of_All, any-update_where-All, any-update_where-hit,
  update_where-each, delete_where-each, All-update_where,
}
use mirth_spool.Accounts.Rows.{
  UserRole, UserRow, InvitationRow, is_admin, has_user_id, has_email, new_user,
}
use mirth_spool.Accounts.Invitations.{
  is_none, has_hash, is_live, is_live_for, is_live_hash, is_live_id, is_open_id, revoked_now,
  accepted_by, InvitationInput, InvitationContext, new_invitation,
}
use mirth_spool.Accounts.Members.{set_disabled_at, is_some_id, forget_acceptor}

unfoldable pub has_invitation_id : ℕ → InvitationRow → Bool
has_invitation_id id r = r.id == id

-- The user accepted the invitation, which was for the address.
pub is_entry : ℕ → String → InvitationRow → Bool
unfolding is_some_id
is_entry id email r = is_some_id id r.accepted_user_id && str_eq r.email_normalized email

pub is_settled : InvitationRow → Bool
unfolding is_none
is_settled r = if is_none r.accepted_at then is_none r.accepted_user_id else is_none r.revoked_at

abbrev pub IsInvited : List InvitationRow → UserRow → Type 0
IsInvited invitations u =
    (is_admin u ≡ true) ⊎ (any (is_entry u.id u.email_normalized) invitations ≡ true)

-- Identifiers, addresses and hashes are unique; there is one administrator at most; every other user
-- accepted an invitation for their address; and no invitation is both accepted and revoked.
pub record IsSound (users : List UserRow) (invitations : List InvitationRow) (next_id : ℕ)
    : Type 0 where
  pub user_ids : (i : ℕ) → count_where (has_user_id i) users ≤ 1
  pub users_fresh : All (λ u. u.id < next_id) users
  pub emails : (e : String) → count_where (has_email e) users ≤ 1
  pub administrators : count_where is_admin users ≤ 1
  pub invitation_ids : (i : ℕ) → count_where (has_invitation_id i) invitations ≤ 1
  pub invitations_fresh : All (λ r. r.id < next_id) invitations
  pub tokens : (h : String) → count_where (has_hash h) invitations ≤ 1
  pub settled : All (λ r. is_settled r ≡ true) invitations
  pub invited : All (IsInvited invitations) users

module _ (users : List UserRow) (invitations : List InvitationRow) (n : ℕ)
    (sound : IsSound users invitations n) where
  pub no_user_yet : (i : ℕ) → i ≡ n → count_where (has_user_id i) users ≡ 0
  unfolding has_user_id
  no_user_yet i e = count-zero_of_All (has_user_id i) users (
      each (λ u. u.id < n) (λ u. has_user_id i u ≡ false) users (λ u h. ground (arith, h, e))
        sound.users_fresh)

  pub users_later : All (λ u. u.id < suc n) users
  users_later =
      each (λ u. u.id < n) (λ u. u.id < suc n) users (λ u h. omega (arith, h)) sound.users_fresh

  pub invitations_later : All (λ r. r.id < suc n) invitations
  invitations_later =
      each (λ r. r.id < n) (λ r. r.id < suc n) invitations (λ r h. omega (arith, h))
        sound.invitations_fresh

  -- A user is new to the table of invitations.
  pub add_user_ids :
      (email name : String) (role : UserRole) (i : ℕ)
      → count_where (has_user_id i) (new_user n email name role ∷ users) ≤ 1
  unfolding count_where has_user_id new_user
  add_user_ids email name role i = ground (arith, sound.user_ids i, no_user_yet i)

  pub add_user_emails :
      (email name : String) (role : UserRole) (e : String)
      → any (has_email email) users ≡ false
      → count_where (has_email e) (new_user n email name role ∷ users) ≤ 1
  unfolding count_where has_email new_user
  add_user_emails email name role e absent =
      ground
        (arith, eq_iff email e, sound.emails e, count-zero_of_any (has_email email) users absent)
