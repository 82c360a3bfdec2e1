-- ===== src/Accounts/Sound/Inviting.antt =====
-- Invitations that are created and revoked keep the rules of accounts.
use text.Mathlib.TextEquality.{eq_iff}
use mirth_spool.Base.{
  ℕ, suc, ◌<◌, ◌≡◌, refl, ◌∙◌, Bool, true, false, none, List, ◌∷◌, arith, any, inl, inr,
}
use mirth_spool.Base.Each.{each}
use mirth_spool.Base.Table.{
  update_where, count_where, count-update_where, count-zero_of_any, count-zero_of_All,
  any-update_where, update_where-each, All-update_where,
}
use mirth_spool.Accounts.Rows.{UserRow, InvitationRow}
use mirth_spool.Accounts.Invitations.{is_none, has_hash, revoked_now}
use mirth_spool.Accounts.Sound.{
  has_invitation_id, is_entry, is_settled, IsInvited, IsSound, users_later, invitations_later,
}

module _ (users : List UserRow) (invitations : List InvitationRow) (n : ℕ)
    (sound : IsSound users invitations n) where
  -- Open invitations are revoked.
  module _ (p : InvitationRow → Bool) (now : ℕ)
      (pending : (r : InvitationRow) → p r ≡ true → is_none r.accepted_at ≡ true) where
    revoked-is_settled :
        (r : InvitationRow)
        → is_settled r ≡ true
        → p r ≡ true
        → is_settled (revoked_now now r) ≡ true
    unfolding is_settled revoked_now
    revoked-is_settled r s h = ground (arith, s, pending r h)

    pub revoke-IsSound : IsSound users (update_where p (revoked_now now) invitations) n
    unfolding revoked_now has_invitation_id has_hash is_entry
    revoke-IsSound = record {
      user_ids = sound.user_ids;
      users_fresh = sound.users_fresh;
      emails = sound.emails;
      administrators = sound.administrators;
      invitation_ids = λ i.
          rw
            (count-update_where (has_invitation_id i) p (revoked_now now) (λ r h. refl) invitations)
            (sound.invitation_ids i);
      invitations_fresh =
          All-update_where (λ r. r.id < n) p (revoked_now now) invitations (λ r h. h)
            sound.invitations_fresh;
      tokens = λ h.
          rw (count-update_where (has_hash h) p (revoked_now now) (λ r k. refl) invitations)
            (sound.tokens h);
      settled =
          update_where-each (λ r. is_settled r ≡ true) (λ r. is_settled r ≡ true) p
            (revoked_now now) invitations revoked-is_settled (λ r k e. k) sound.settled;
      invited =
          each (IsInvited invitations) (IsInvited (update_where p (revoked_now now) invitations))
            users (λ u. still_invited u) sound.invited;
    }
      where
        still_invited :
            (u : UserRow)
            → IsInvited invitations u
            → IsInvited (update_where p (revoked_now now) invitations) u
        still_invited u (inl administrator) = inl administrator
        still_invited u (inr entered) = inr (
            any-update_where (is_entry u.id u.email_normalized) p (revoked_now now) (λ r h. refl)
              invitations
            ∙ entered)

  -- An invitation is added.
  pub put-IsSound :
      (r : InvitationRow)
      → r.id ≡ n
      → r.accepted_at ≡ none
      → r.accepted_user_id ≡ none
      → any (has_hash r.token_hash) invitations ≡ false
      → IsSound users (r ∷ invitations) (suc n)
  unfolding has_hash count_where is_settled has_invitation_id
  put-IsSound r own fresh_at fresh_by absent = record {
    user_ids = sound.user_ids;
    users_fresh = users_later users invitations n sound;
    emails = sound.emails;
    administrators = sound.administrators;
    invitation_ids = λ i. ground (arith, sound.invitation_ids i, no_invitation_yet i, own);
    invitations_fresh = (omega (arith, own), invitations_later users invitations n sound);
    tokens = λ h. ground (
      arith,
      eq_iff r.token_hash h,
      sound.tokens h,
      count-zero_of_any (has_hash r.token_hash) invitations absent,
    );
    settled = (rw (fresh_at, is_settled) (rw fresh_by refl), sound.settled);
    invited =
        each (IsInvited invitations) (IsInvited (r ∷ invitations)) users (λ u. still u)
          sound.invited;
  }
    where
      no_invitation_yet : (i : ℕ) → i ≡ n → count_where (has_invitation_id i) invitations ≡ 0
      no_invitation_yet i e = count-zero_of_All (has_invitation_id i) invitations (
          each (λ q. q.id < n) (λ q. has_invitation_id i q ≡ false) invitations
            (λ q h. ground (arith, h, e)) sound.invitations_fresh)

      still : (u : UserRow) → IsInvited invitations u → IsInvited (r ∷ invitations) u
      still u (inl administrator) = inl administrator
      still u (inr entered) = inr (ground (arith, entered))
