-- ===== src/UserActions/Kept.antt =====
-- The rules that the rows of actions keep, and that each operation keeps them.
use native.Mathlib.Nat.{le_trans}
use mirth_spool.Base.{
  ℕ, suc, ◌+◌, ◌-◌, ◌*◌, ◌≤◌, ◌<◌, ◌≡◌, refl, sym, subst, ◌∙◌, Bool, true, false, none, some, List,
  [], ◌∷◌, arith, ltb, ◌==◌, find, Bool-cases, Option-cases, inl, inr, All,
}
use mathlib.Core.Option.{some-injective}
use mirth_spool.Base.Each.{each, pair-each}
use mirth_spool.Base.Table.{
  update_where, delete_where, count_where, count-zero_of_any, any_of_find-none,
  count-delete_where-le, count-update_where, All-update_where, update_where-each,
}
use mirth_spool.UserActions.{
  ActionKind, ActionRow, Actions, ActionKey, has_action_key, new_action, create_action,
  set_user_action, remove_user_action, view_once, view_again, has_action_id, view_coalesce,
  same_action,
}

same_action-eq : (a b : ActionKind) → same_action a b ≡ true → a ≡ b
same_action-eq ActionKind.favorite ActionKind.favorite h = refl
same_action-eq ActionKind.favorite ActionKind.hide h = cc
same_action-eq ActionKind.favorite ActionKind.view h = cc
same_action-eq ActionKind.hide ActionKind.favorite h = cc
same_action-eq ActionKind.hide ActionKind.hide h = refl
same_action-eq ActionKind.hide ActionKind.view h = cc
same_action-eq ActionKind.view ActionKind.favorite h = cc
same_action-eq ActionKind.view ActionKind.hide h = cc
same_action-eq ActionKind.view ActionKind.view h = refl

new_action-key :
    (k key : ActionKey) (now id : ℕ) → has_action_key k (new_action key now id) ≡ true → k ≡ key
unfolding has_action_key new_action
new_action-key k key now id h =
    let kinds : same_action key.kind k.kind ≡ true = ground (arith, h) in
    let kind = same_action-eq key.kind k.kind kinds in
    let content : key.content_item_id ≡ k.content_item_id = ground (arith, h) in
    let user : key.user_id ≡ k.user_id = ground (arith, h) in
    λ i. record { content_item_id = (sym content) i; kind = (sym kind) i; user_id = (sym user) i }

-- No two rows have an identifier in common.
abbrev pub UniqueIds : List ActionRow → Type 0
UniqueIds [] = Unit
UniqueIds (r ∷ rs) = All (λ d. d.id == r.id ≡ false) rs × UniqueIds rs

-- The counted views of a row are a quarter of an hour apart.
pub record IsSpaced (r : ActionRow) : Type 0 where
  pub counted : 1 ≤ r.occurrence_count
  pub apart : r.occurred_at + (r.occurrence_count - 1) * view_coalesce ≤ r.last_occurred_at

pub record IsKept (a : Actions) : Type 0 where
  pub keys : (key : ActionKey) → count_where (has_action_key key) a.rows ≤ 1
  pub ids : UniqueIds a.rows
  pub fresh : All (λ r. r.id < a.next_id) a.rows
  pub spaced : All IsSpaced a.rows

fresh-new :
    (n : ℕ) (rows : List ActionRow) → All (λ r. r.id < n) rows → All (λ d. d.id == n ≡ false) rows
fresh-new n [] h = tt
fresh-new n (r ∷ rows) h = (ground (arith, h.0), fresh-new n rows h.1)

create_action-IsKept :
    (key : ActionKey) (now : ℕ) (a : Actions)
    → IsKept a
    → find (has_action_key key) a.rows ≡ none
    → IsKept (create_action key now a).1
unfolding create_action
create_action-IsKept key now a k e = record {
  keys = λ q. count_new q;
  ids = (unfold new_action in fresh-new a.next_id a.rows k.fresh, k.ids);
  fresh = (
    unfold new_action in omega arith,
    each (λ r. r.id < a.next_id) (λ r. r.id < suc a.next_id) a.rows (λ r h. omega arith) k.fresh,
  );
  spaced = (unfold new_action in record { counted = omega arith; apart = omega arith }, k.spaced);
}
  where
    none_of_key : count_where (has_action_key key) a.rows ≡ 0
    none_of_key =
        count-zero_of_any (has_action_key key) a.rows
          (any_of_find-none (has_action_key key) a.rows e)

    count_new :
        (q : ActionKey) → count_where (has_action_key q) (new_action key now a.next_id ∷ a.rows) ≤ 1
    count_new q = elim (Bool-cases (has_action_key q (new_action key now a.next_id))) [
      | inl same ↦
          let eq = new_action-key q key now a.next_id same in
          unfold count_where in
          rw same (
            omega
              (arith, subst (λ n. count_where (has_action_key n) a.rows ≡ 0) (sym eq) none_of_key))
      | inr other ↦ unfold count_where in rw other (omega (arith, k.keys q))
    ]

delete-All :
    (P : ActionRow → Type 0) (p : ActionRow → Bool) (rows : List ActionRow)
    → All P rows
    → All P (delete_where p rows)
unfolding delete_where
delete-All P p [] h = tt
delete-All P p (r ∷ rows) h = elim (Bool-cases (p r)) [
  | inl e ↦ rw e (delete-All P p rows h.1)
  | inr e ↦ rw e (h.0, delete-All P p rows h.1)
]

delete-UniqueIds :
    (p : ActionRow → Bool) (rows : List ActionRow)
    → UniqueIds rows
    → UniqueIds (delete_where p rows)
unfolding delete_where
delete-UniqueIds p [] h = tt
delete-UniqueIds p (r ∷ rows) h = elim (Bool-cases (p r)) [
  | inl e ↦ rw e (delete-UniqueIds p rows h.1)
  | inr e ↦ rw e (delete-All (λ d. d.id == r.id ≡ false) p rows h.0, delete-UniqueIds p rows h.1)
]

pub remove_user_action-IsKept :
    (key : ActionKey) (a : Actions) → IsKept a → IsKept (remove_user_action key a)
unfolding remove_user_action
remove_user_action-IsKept key a k = record {
  keys = λ q.
      le_trans (count-delete_where-le (has_action_key q) (has_action_key key) a.rows) (k.keys q);
  ids = delete-UniqueIds (has_action_key key) a.rows k.ids;
  fresh = delete-All (λ r. r.id < a.next_id) (has_action_key key) a.rows k.fresh;
  spaced = delete-All IsSpaced (has_action_key key) a.rows k.spaced;
}

-- The row that was found is the only one with its identifier.
found-alone :
    (p : ActionRow → Bool) (rows : List ActionRow) (r : ActionRow)
    → UniqueIds rows
    → find p rows ≡ some r
    → All (λ d. d.id == r.id ≡ true → d ≡ r) rows
found-alone p [] r u e = tt
found-alone p (x ∷ rows) r u e = elim (Bool-cases (p x)) [
  | inl here ↦
      let same : x ≡ r = some-injective _ _ (rw here at e) in
      (
        λ q. same,
        each (λ d. d.id == x.id ≡ false) (λ d. d.id == r.id ≡ true → d ≡ r) rows
            (λ d off on. cc (sym off ∙ subst (λ y. d.id == y.id ≡ true) (sym same) on)) u.0,
      )
  | inr there ↦
      let later : find p rows ≡ some r = rw there at e in
      (λ on. cc (sym (off_of rows u.0 later) ∙ on), found-alone p rows r u.1 later)
]
  where
    off_of :
        (ds : List ActionRow)
        → All (λ d. d.id == x.id ≡ false) ds
        → find p ds ≡ some r
        → x.id == r.id ≡ false
    off_of [] h q = cc
    off_of (d ∷ ds) h q = elim (Bool-cases (p d)) [
      | inl hit ↦
          let same : d ≡ r = some-injective _ _ (rw hit at q) in
          subst (λ y. x.id == y.id ≡ false) same (ground (arith, h.0))
      | inr miss ↦ off_of ds h.1 (rw miss at q)
    ]

update-UniqueIds :
    (p : ActionRow → Bool) (now : ℕ) (rows : List ActionRow)
    → UniqueIds rows
    → UniqueIds (update_where p (view_again now) rows)
unfolding update_where view_again
update-UniqueIds p now [] u = tt
update-UniqueIds p now (r ∷ rows) u = (
  elim (Bool-cases (p r)) [ inl e ↦ rw e (off rows u.0) | inr e ↦ rw e (off rows u.0) ],
  update-UniqueIds p now rows u.1,
)
  where
    off :
        (ds : List ActionRow)
        → All (λ d. d.id == r.id ≡ false) ds
        → All (λ d. d.id == r.id ≡ false) (update_where p (view_again now) ds)
    off [] h = tt
    off (d ∷ ds) h = (ground (arith, h.0), off ds h.1)

view_again-IsKept :
    (key : ActionKey) (now : ℕ) (a : Actions) (existing : ActionRow)
    → IsKept a
    → find (has_action_key key) a.rows ≡ some existing
    → existing.last_occurred_at + view_coalesce ≤ now
    → IsKept (record a { rows = update_where (has_action_id existing.id) (view_again now) a.rows })
view_again-IsKept key now a existing k e late = record {
  keys = λ q.
      subst (λ n. n ≤ 1)
        (sym (
          count-update_where (has_action_key q) (has_action_id existing.id) (view_again now)
            (λ r h. unfold has_action_key view_again in refl) a.rows))
        (k.keys q);
  ids = update-UniqueIds (has_action_id existing.id) now a.rows k.ids;
  fresh =
      All-update_where (λ r. r.id < a.next_id) (has_action_id existing.id) (view_again now) a.rows
        (λ r h. unfold view_again in h) k.fresh;
  spaced =
      update_where-each (λ r. IsSpaced r × (r.id == existing.id ≡ true → r ≡ existing)) IsSpaced
        (has_action_id existing.id) (view_again now) a.rows
        (λ r h same. later r h.0 (h.1 (unfold has_action_id in same))) (λ r h other. h.0)
        (pair-each IsSpaced (λ d. d.id == existing.id ≡ true → d ≡ existing) a.rows k.spaced
          (found-alone (has_action_key key) a.rows existing k.ids e));
}
  where
    later : (r : ActionRow) → IsSpaced r → r ≡ existing → IsSpaced (view_again now r)
    later r s same =
        let low = subst (λ y. y.last_occurred_at + view_coalesce ≤ now) (sym same) late in
        unfold view_again in
        record { counted = omega arith; apart = omega (arith, s.apart, s.counted, low) }

pub view_once-IsKept :
    (key : ActionKey) (now : ℕ) (a : Actions) → IsKept a → IsKept (view_once key now a).1
unfolding view_once
view_once-IsKept key now a k = elim (Option-cases (find (has_action_key key) a.rows)) [
  | inl e ↦ rw (e, view_once) (create_action-IsKept key now a k e)
  | inr (existing, e) ↦ elim (Bool-cases (ltb now (existing.last_occurred_at + view_coalesce))) [
    | inl soon ↦ rw (e, soon, view_once) k
    | inr late ↦ rw (e, late, view_once) (view_again-IsKept key now a existing k e (ground arith))
  ]
]

pub set_user_action-IsKept :
    (key : ActionKey) (now : ℕ) (a : Actions) → IsKept a → IsKept (set_user_action key now a).1
unfolding set_user_action
set_user_action-IsKept key now a k = elim (Option-cases (find (has_action_key key) a.rows)) [
  | inl e ↦ rw (e, set_user_action) (create_action-IsKept key now a k e)
  | inr (existing, e) ↦ rw (e, set_user_action) k
]
