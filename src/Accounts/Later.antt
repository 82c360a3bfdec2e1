-- ===== src/Accounts/Later.antt =====
-- What stays true of an earlier state of the accounts.
use Prim.Native.String.{String}
use text.Mathlib.Text.{◌==◌ as str_eq}
use mirth_spool.Base.{
  ℕ, suc, ◌≤◌, ◌<◌, ◌≡◌, refl, sym, ◌∙◌, Bool, true, false, not, ◌&&◌, Option, List, [], ◌∷◌, arith,
  any, All, Bool-cases, inl, inr,
}
use mirth_spool.Base.Each.{each}
use mirth_spool.Base.Table.{
  update_where, delete_where, count_where, any-update_where, any-update_where-true,
  any-delete_where-false, any-delete_where-kept, any-false_of_All, any-false_of_count,
}
use mirth_spool.Accounts.Rows.{
  UserRole, UserRow, InvitationRow, Accounts, is_admin, has_user_id, new_user,
}
use mirth_spool.Accounts.Invitations.{has_hash, is_none}
use mirth_spool.Accounts.Members.{set_disabled_at}
use mirth_spool.Accounts.Sound.{has_invitation_id, IsSound}

unfoldable pub is_member_id : ℕ → UserRow → Bool
unfolding has_user_id
is_member_id id u = has_user_id id u && not (is_admin u)

unfoldable pub is_admin_id : ℕ → UserRow → Bool
unfolding has_user_id
is_admin_id id u = has_user_id id u && is_admin u

unfoldable pub is_for : ℕ → String → InvitationRow → Bool
unfolding has_invitation_id
is_for id email r = has_invitation_id id r && str_eq r.email_normalized email

unfoldable pub is_not_for : ℕ → String → InvitationRow → Bool
unfolding has_invitation_id
is_not_for id email r = has_invitation_id id r && not (str_eq r.email_normalized email)

-- The invitation of the token was accepted.
unfoldable pub is_used : String → InvitationRow → Bool
is_used h r = has_hash h r && not (is_none r.accepted_at)

-- `s` is an earlier state than the tables: its identifiers are taken, a member of then is no
-- administrator now, an administrator of then is still there, and an invitation is for the same
-- address and an accepted one stays accepted.
pub record Later (s : Accounts) (users : List UserRow) (invitations : List InvitationRow)
    (next_id : ℕ) : Type 0 where
  pub users_taken : All (λ u. u.id < next_id) s.users
  pub invitations_taken : All (λ r. r.id < next_id) s.invitations
  pub members : (id : ℕ) → any (is_member_id id) s.users ≡ true → any (is_admin_id id) users ≡ false
  pub administrator : any is_admin s.users ≡ true → any is_admin users ≡ true
  pub addresses :
      (id : ℕ) (e : String)
      → any (is_for id e) s.invitations ≡ true
      → any (is_not_for id e) invitations ≡ false
  pub used :
      (h : String) → any (is_used h) s.invitations ≡ true → any (is_used h) invitations ≡ true

and_left : (a b : Bool) → (a && b) ≡ true → a ≡ true
and_left true b h = refl
and_left false b h = cc h

module _ {ℓ} {A : Type ℓ} where
  -- A test that implies one which no row passes.
  pub none_of :
      (p q : A → Bool)
      → ((x : A) → q x ≡ true → p x ≡ true)
      → (xs : List A) → any p xs ≡ false
      → any q xs ≡ false
  none_of p q h [] k = refl
  none_of p q h (x ∷ xs) k = elim (Bool-cases (p x)) [
    | inl e ↦ cc (rw e at k)
    | inr e ↦ elim (Bool-cases (q x)) [
      | inl f ↦ cc (sym e ∙ h x f)
      | inr f ↦ rw f (none_of p q h xs (rw e at k))
    ]
  ]

  -- Of the rows that pass a unique test, all pass one more test or none does.
  pub unique_kind :
      (p t : A → Bool) (xs : List A)
      → count_where p xs ≤ 1
      → any (λ x. p x && t x) xs ≡ true
      → any (λ x. p x && not (t x)) xs ≡ false
  unfolding count_where
  unique_kind p t [] one h = refl
  unique_kind p t (x ∷ xs) one h = elim (Bool-cases (p x)) [
    | inr e ↦
        let less : count_where p xs ≤ 1 = ground (arith, one, e) in
        rw e (unique_kind p t xs less (rw e at h))
    | inl e ↦
        let zero_left : count_where p xs ≡ 0 = ground (arith, one, e) in
        let gone = any-false_of_count p xs zero_left in
        let no_more =
          none_of p (λ y. p y && not (t y)) (λ y k. and_left (p y) (not (t y)) k) xs gone in
        let no_such = none_of p (λ y. p y && t y) (λ y k. and_left (p y) (t y) k) xs gone in
        elim (Bool-cases (t x)) [ inl f ↦ rw (e, f) no_more | inr f ↦ cc (rw (e, f, no_such) at h) ]
  ]

members_unique :
    (id : ℕ) (users : List UserRow)
    → count_where (has_user_id id) users ≤ 1
    → any (is_member_id id) users ≡ true
    → any (is_admin_id id) users ≡ false
unfolding is_member_id is_admin_id
members_unique id users one h =
    let swapped = unique_kind (has_user_id id) (λ u. not (is_admin u)) users one h in
    none_of (λ u. has_user_id id u && not (not (is_admin u))) (is_admin_id id)
      (λ u k. ground (arith, k)) users swapped

invitations_unique :
    (id : ℕ) (e : String) (rs : List InvitationRow)
    → count_where (has_invitation_id id) rs ≤ 1
    → any (is_for id e) rs ≡ true
    → any (is_not_for id e) rs ≡ false
unfolding is_for is_not_for
invitations_unique id e rs one h =
    unique_kind (has_invitation_id id) (λ r. str_eq r.email_normalized e) rs one h

-- A sound state is later than itself.
pub Later-refl :
    (a : Accounts)
    → IsSound a.users a.invitations a.next_id
    → Later a a.users a.invitations a.next_id
Later-refl a sound = record {
  users_taken = sound.users_fresh;
  invitations_taken = sound.invitations_fresh;
  members = λ id. members_unique id a.users (sound.user_ids id);
  administrator = λ h. h;
  addresses = λ id e. invitations_unique id e a.invitations (sound.invitation_ids id);
  used = λ h k. k;
}

module _ (s : Accounts) (users : List UserRow) (invitations : List InvitationRow) (n : ℕ)
    (l : Later s users invitations n) where
  users_taken_later : All (λ u. u.id < suc n) s.users
  users_taken_later =
      each (λ u. u.id < n) (λ u. u.id < suc n) s.users (λ u h. omega (arith, h)) l.users_taken

  invitations_taken_later : All (λ r. r.id < suc n) s.invitations
  invitations_taken_later =
      each (λ r. r.id < n) (λ r. r.id < suc n) s.invitations (λ r h. omega (arith, h))
        l.invitations_taken

  -- An update of invitations that keeps identifiers and addresses, and a new member or none.
  pub Later-update_invitations :
      (p : InvitationRow → Bool) (f : InvitationRow → InvitationRow)
      → ((id : ℕ) (e : String) (r : InvitationRow) → is_not_for id e (f r) ≡ is_not_for id e r)
      → ((h : String) (r : InvitationRow) → is_used h r ≡ true → is_used h (f r) ≡ true)
      → Later s users (update_where p f invitations) n
  Later-update_invitations p f same still = record {
    users_taken = l.users_taken;
    invitations_taken = l.invitations_taken;
    members = l.members;
    administrator = l.administrator;
    addresses = λ id e h.
        any-update_where (is_not_for id e) p f (λ r k. same id e r) invitations
        ∙ l.addresses id e h;
    used =
        λ h k. any-update_where-true (is_used h) p f (λ r u. still h r u) invitations (l.used h k);
  }

  pub Later-add_member :
      (email name : String)
      → Later s (new_user n email name UserRole.member ∷ users) invitations (suc n)
  unfolding is_admin_id new_user
  Later-add_member email name = record {
    users_taken = users_taken_later;
    invitations_taken = invitations_taken_later;
    members = λ id h. ground (arith, l.members id h);
    administrator = l.administrator;
    addresses = l.addresses;
    used = l.used;
  }

  not_taken : (id : ℕ) → id ≡ n → any (is_member_id id) s.users ≡ false
  unfolding is_member_id has_user_id
  not_taken id e = any-false_of_All (is_member_id id) s.users (
      each (λ u. u.id < n) (λ u. is_member_id id u ≡ false) s.users (λ u h. ground (arith, h, e))
        l.users_taken)

  pub Later-add_administrator :
      (email name : String)
      → Later s (new_user n email name UserRole.admin ∷ users) invitations (suc n)
  unfolding is_admin_id new_user has_user_id
  Later-add_administrator email name = record {
    users_taken = users_taken_later;
    invitations_taken = invitations_taken_later;
    members = λ id h. ground (arith, l.members id h, not_taken id, h);
    administrator = λ h. refl;
    addresses = l.addresses;
    used = l.used;
  }

  no_such_invitation : (id : ℕ) (e : String) → id ≡ n → any (is_for id e) s.invitations ≡ false
  unfolding is_for has_invitation_id
  no_such_invitation id e same = any-false_of_All (is_for id e) s.invitations (
      each (λ r. r.id < n) (λ r. is_for id e r ≡ false) s.invitations
        (λ r h. ground (arith, h, same)) l.invitations_taken)

  pub Later-put : (r : InvitationRow) → r.id ≡ n → Later s users (r ∷ invitations) (suc n)
  unfolding is_not_for has_invitation_id
  Later-put r own = record {
    users_taken = users_taken_later;
    invitations_taken = invitations_taken_later;
    members = l.members;
    administrator = l.administrator;
    addresses = λ id e h. ground (arith, l.addresses id e h, no_such_invitation id e, h, own);
    used = λ h k. ground (arith, l.used h k);
  }

  pub Later-disable :
      (id : ℕ) (at : Option ℕ)
      → Later s (update_where (has_user_id id) (set_disabled_at at) users) invitations n
  unfolding set_disabled_at is_admin_id has_user_id
  Later-disable id at = record {
    users_taken = l.users_taken;
    invitations_taken = l.invitations_taken;
    members = λ i h.
        any-update_where (is_admin_id i) (has_user_id id) (set_disabled_at at) (λ u k. refl) users
        ∙ l.members i h;
    administrator = λ h.
        any-update_where is_admin (has_user_id id) (set_disabled_at at) (λ u k. refl) users
        ∙ l.administrator h;
    addresses = l.addresses;
    used = l.used;
  }

  -- A user who is no administrator is deleted.
  pub Later-delete :
      (id : ℕ)
      → any (is_admin_id id) users ≡ false
      → Later s (delete_where (has_user_id id) users) invitations n
  unfolding is_admin_id
  Later-delete id plain = record {
    users_taken = l.users_taken;
    invitations_taken = l.invitations_taken;
    members = λ i h. any-delete_where-false (is_admin_id i) (has_user_id id) users (l.members i h);
    administrator = λ h. kept users plain (l.administrator h);
    addresses = l.addresses;
    used = l.used;
  }
    where
      kept :
          (us : List UserRow)
          → any (is_admin_id id) us ≡ false
          → any is_admin us ≡ true
          → any is_admin (delete_where (has_user_id id) us) ≡ true
      kept us no_admin h = any-delete_where-kept is_admin (has_user_id id) us no_admin h
