-- ===== src/Accounts/Ensures.antt =====
-- What holds of the result of an attempt that is not thrown, through the operations of the database
-- client.
use Prim.Native.String.{String}
use mirth_spool.Base.{
  ℕ, suc, ◌≡◌, refl, subst, ==_iff, Bool, true, false, not, if◌then◌else◌, Option, none, some, List,
  ◌∷◌, ◌==◌, any, Bool-cases, inl, inr,
}
use mirth_spool.Base.Table.{update_where, count_where}
use mirth_spool.Accounts.Rows.{
  UserRole, InvitationRow, CredentialRow, AccountAudit, AccountEvent, Accounts, AccountError,
  Attempt, done, thrown, ◌>>=◌, ◌>>◌, require, or_throw, has_user_id, has_email, record_audit_event,
  new_user, create_user,
}
use mirth_spool.Accounts.Invitations.{
  as_unavailable, is_live_id, accepted_by, mark_accepted, has_hash, put_invitation,
}
use mirth_spool.Accounts.Setup.{after_conflict}

pub data Ensures {ℓ κ} {A : Type ℓ} (P : A → Type κ) : Attempt A → Type (ℓ ⊔ κ) where
  of_done : (a : A) → P a → Ensures P (done a)
  of_thrown : (e : AccountError) → Ensures P (thrown e)

done_injective {ℓ} : {A : Type ℓ} (a b : A) → done a ≡ done b → a ≡ b
done_injective a b e = cc

-- What a value that is returned satisfies.
pub Ensures-result {ℓ κ} :
    {A : Type ℓ} (P : A → Type κ) (a : A) (m : Attempt A) → Ensures P m → m ≡ done a → P a
Ensures-result P a m (of_done b p) e = subst P (done_injective b a e) p
Ensures-result P a m (of_thrown x) e = cc

pub Ensures-bind {ℓ κ μ ν} :
    {A : Type ℓ} {B : Type κ} (P : A → Type μ) (Q : B → Type ν) (m : Attempt A) (f : A → Attempt B)
    → Ensures P m
    → ((a : A) → P a → Ensures Q (f a))
    → Ensures Q (m >>= f)
Ensures-bind P Q m f (of_done a p) k = k a p
Ensures-bind P Q m f (of_thrown e) k = of_thrown e

pub Ensures-weaken {ℓ κ μ} :
    {A : Type ℓ} (P : A → Type κ) (Q : A → Type μ) (m : Attempt A)
    → Ensures P m
    → ((a : A) → P a → Q a)
    → Ensures Q m
Ensures-weaken P Q m (of_done a p) f = of_done a (f a p)
Ensures-weaken P Q m (of_thrown e) f = of_thrown e

pub Ensures-any {ℓ} : {A : Type ℓ} (m : Attempt A) → Ensures (λ a. Unit {0}) m
Ensures-any (done a) = of_done a tt
Ensures-any (thrown e) = of_thrown e

pub Ensures-require :
    (b : Bool) (e : AccountError) → Ensures (λ (u : Unit {0}). b ≡ true) (require b e)
Ensures-require true e = of_done tt refl
Ensures-require false e = of_thrown e

pub Ensures-or_throw {ℓ} :
    {A : Type ℓ} (o : Option A) (e : AccountError) → Ensures (λ a. o ≡ some a) (or_throw o e)
Ensures-or_throw none e = of_thrown e
Ensures-or_throw (some a) e = of_done a refl

-- A handler that turns errors into errors.
pub Ensures-as_unavailable {ℓ κ} :
    {A : Type ℓ} (P : A → Type κ) (m : Attempt A) → Ensures P m → Ensures P (as_unavailable m)
unfolding as_unavailable
Ensures-as_unavailable P m (of_done a p) = of_done a p
Ensures-as_unavailable P m (of_thrown AccountError.invitation_unavailable) = of_thrown _
Ensures-as_unavailable P m (of_thrown AccountError.invitation_conflict) = of_thrown _
Ensures-as_unavailable P m (of_thrown AccountError.member_not_found) = of_thrown _
Ensures-as_unavailable P m (of_thrown AccountError.setup_closed) = of_thrown _
Ensures-as_unavailable P m (of_thrown AccountError.invalid_input) = of_thrown _
Ensures-as_unavailable P m (of_thrown AccountError.hash_failed) = of_thrown _
Ensures-as_unavailable P m (of_thrown AccountError.unique_violation) = of_thrown _
Ensures-as_unavailable P m (of_thrown AccountError.write_conflict) = of_thrown _
Ensures-as_unavailable P m (of_thrown AccountError.missing_row) = of_thrown _
Ensures-as_unavailable P m (of_thrown AccountError.restricted) = of_thrown _

conflict_thrown {ℓ κ} :
    {A : Type ℓ} (P : A → Type κ) (open_then : Bool)
    → Ensures P (after_conflict {A = A} open_then (thrown AccountError.write_conflict))
unfolding after_conflict
conflict_thrown P true = of_thrown _
conflict_thrown P false = of_thrown _

pub Ensures-after_conflict {ℓ κ} :
    {A : Type ℓ} (P : A → Type κ) (open_then : Bool) (m : Attempt A)
    → Ensures P m
    → Ensures P (after_conflict open_then m)
unfolding after_conflict
Ensures-after_conflict P o m (of_done a p) = of_done a p
Ensures-after_conflict P o m (of_thrown AccountError.invitation_unavailable) = of_thrown _
Ensures-after_conflict P o m (of_thrown AccountError.invitation_conflict) = of_thrown _
Ensures-after_conflict P o m (of_thrown AccountError.member_not_found) = of_thrown _
Ensures-after_conflict P o m (of_thrown AccountError.setup_closed) = of_thrown _
Ensures-after_conflict P o m (of_thrown AccountError.invalid_input) = of_thrown _
Ensures-after_conflict P o m (of_thrown AccountError.hash_failed) = of_thrown _
Ensures-after_conflict P o m (of_thrown AccountError.unique_violation) = of_thrown _
Ensures-after_conflict P o m (of_thrown AccountError.write_conflict) = conflict_thrown P o
Ensures-after_conflict P o m (of_thrown AccountError.missing_row) = of_thrown _
Ensures-after_conflict P o m (of_thrown AccountError.restricted) = of_thrown _

-- An audit event is all that is written.
pub Ensures-record_audit_event :
    (actor : ℕ) (event : AccountEvent) (target : ℕ) (db : Accounts)
    → Ensures
        (λ d. (a : List AccountAudit) × (d ≡ record db { audit = a }))
        (record_audit_event actor event target db)
unfolding record_audit_event
Ensures-record_audit_event actor event target db =
    elim (Bool-cases (any (has_user_id actor) db.users)) [
      | inl e ↦ rw (e, record_audit_event) (of_done _ (_, refl))
      | inr e ↦ rw (e, record_audit_event) (of_thrown _)
    ]

pub Ensures-create_user :
    (email name : String) (role : UserRole) (hash : String) (db : Accounts)
    → Ensures
        (λ c.
          (any (has_email email) db.users ≡ false)
          × ((cs : List CredentialRow) × (c ≡ record db {
            users = new_user db.next_id email name role ∷ db.users;
            credentials = cs;
            next_id = suc db.next_id;
          })))
        (create_user email name role hash db)
unfolding create_user
Ensures-create_user email name role hash db = elim (Bool-cases (any (has_email email) db.users)) [
  | inl e ↦ rw (e, create_user) (of_thrown _)
  | inr e ↦ rw (e, create_user) (of_done _ (refl, (_, refl)))
]

pub Ensures-mark_accepted :
    (id : ℕ) (hash : String) (now user : ℕ) (db : Accounts)
    → Ensures
        (λ d.
          (count_where (is_live_id id hash now) db.invitations ≡ 1)
          × (d ≡ record db {
            invitations =
                update_where (is_live_id id hash now) (accepted_by now user) db.invitations;
          }))
        (mark_accepted id hash now user db)
unfolding mark_accepted
Ensures-mark_accepted id hash now user db =
    elim (Bool-cases (count_where (is_live_id id hash now) db.invitations == 1)) [
      | inl e ↦ rw (e, mark_accepted) (of_done _ ((==_iff _ _).0 e, refl))
      | inr e ↦ rw (e, mark_accepted) (of_thrown _)
    ]

pub Ensures-put_invitation :
    (r : InvitationRow) (db : Accounts)
    → Ensures
        (λ d.
          (any (has_hash r.token_hash) db.invitations ≡ false)
          × (d ≡ record db { invitations = r ∷ db.invitations; next_id = suc db.next_id }))
        (put_invitation r db)
unfolding put_invitation
Ensures-put_invitation r db = elim (Bool-cases (any (has_hash r.token_hash) db.invitations)) [
  | inl e ↦ rw (e, put_invitation) (of_thrown _)
  | inr e ↦ rw (e, put_invitation) (of_done _ (refl, refl))
]

pub Ensures-guard {ℓ κ} :
    {A : Type ℓ} (P : A → Type κ) (b : Bool) (e : AccountError) (m : Attempt A)
    → (b ≡ true → Ensures P m)
    → Ensures P (require b e >> m)
Ensures-guard P true e m f = f refl
Ensures-guard P false e m f = of_thrown e

pub Ensures-guard_else {ℓ κ} :
    {A : Type ℓ} (P : A → Type κ) (b : Bool) (e : AccountError) (m : Attempt A)
    → (b ≡ false → Ensures P m)
    → Ensures P (if b then thrown e else m)
Ensures-guard_else P true e m f = of_thrown e
Ensures-guard_else P false e m f = f refl

pub Ensures-guard_not {ℓ κ} :
    {A : Type ℓ} (P : A → Type κ) (b : Bool) (e : AccountError) (m : Attempt A)
    → (b ≡ true → Ensures P m)
    → Ensures P (if not b then thrown e else m)
Ensures-guard_not P true e m f = f refl
Ensures-guard_not P false e m f = of_thrown e
