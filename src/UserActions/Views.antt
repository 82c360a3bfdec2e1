-- ===== src/UserActions/Views.antt =====
-- A user's actions are kept once for each kind, and views that follow quickly count once.
use mirth_spool.Base.{ℕ, ◌≡◌, refl, true, some, ==_refl, find, Option-cases, inl, inr}
use mirth_spool.UserActions.{
  ActionKind, ActionRow, Actions, ActionKey, has_action_key, new_action, create_action,
  set_user_action, remove_user_action, view_once, same_action,
}
use mirth_spool.UserActions.Kept.{
  IsKept, remove_user_action-IsKept, view_once-IsKept, set_user_action-IsKept,
}

-- A change to the actions, by one of the three operations.
pub data ActionStep : Actions → Actions → Type 0 where
  sets : (a : Actions) (key : ActionKey) (now : ℕ) → ActionStep a (set_user_action key now a).1
  removes : (a : Actions) (key : ActionKey) → ActionStep a (remove_user_action key a)
  sees : (a : Actions) (key : ActionKey) (now : ℕ) → ActionStep a (view_once key now a).1

pub data ActionSteps (start : Actions) : Actions → Type 0 where
  here : ActionSteps start start
  next : {a b : Actions} → ActionSteps start a → ActionStep a b → ActionSteps start b

ActionStep-IsKept : {a b : Actions} → ActionStep a b → IsKept a → IsKept b
ActionStep-IsKept (sets a key now) k = set_user_action-IsKept key now a k
ActionStep-IsKept (removes a key) k = remove_user_action-IsKept key a k
ActionStep-IsKept (sees a key now) k = view_once-IsKept key now a k

-- Whatever actions are set, removed and seen, a user has at most one row for an item and a kind, and
-- the counted views of a row are at least 15 minutes apart: its last view is 15 minutes behind its
-- first for each view counted after the first.
pub ActionSteps-IsKept : {start a : Actions} → IsKept start → ActionSteps start a → IsKept a
ActionSteps-IsKept k here = k
ActionSteps-IsKept k (next steps step) = ActionStep-IsKept step (ActionSteps-IsKept k steps)

same_action_refl : (k : ActionKind) → same_action k k ≡ true
same_action_refl ActionKind.favorite = refl
same_action_refl ActionKind.hide = refl
same_action_refl ActionKind.view = refl

own_key : (k : ActionKey) (now id : ℕ) → has_action_key k (new_action k now id) ≡ true
unfolding has_action_key new_action
own_key k now id = rw (==_refl k.content_item_id, same_action_refl k.kind, ==_refl k.user_id) refl

stored_action :
    (key : ActionKey) (now : ℕ) (a : Actions)
    → find (has_action_key key) (set_user_action key now a).1.rows
      ≡ some (set_user_action key now a).0
unfolding set_user_action create_action
stored_action key now a = elim (Option-cases (find (has_action_key key) a.rows)) [
  | inl e ↦ rw (e, set_user_action) (rw (own key) refl)
  | inr (existing, e) ↦ rw (e, set_user_action) e
]
  where
    own : (k : ActionKey) → has_action_key k (new_action k now a.next_id) ≡ true
    own k = own_key k now a.next_id

set_stored :
    (key : ActionKey) (later : ℕ) (r : ActionRow × Actions)
    → find (has_action_key key) r.1.rows ≡ some r.0
    → set_user_action key later r.1 ≡ r
unfolding set_user_action
set_stored key later r e = rw (e, set_user_action) refl

-- Setting an action again, at any time, gives the row that is there and changes nothing.
pub set_user_action_again :
    (key : ActionKey) (now later : ℕ) (a : Actions)
    → set_user_action key later (set_user_action key now a).1 ≡ set_user_action key now a
set_user_action_again key now later a =
    set_stored key later (set_user_action key now a) (stored_action key now a)
