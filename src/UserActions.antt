-- ===== src/UserActions.antt =====
-- packages/db/src/repositories/user-actions.ts: the favourites, the hidden items and the views of a
-- user, one row for each kind.
pub mod Kept
pub mod Views
use mirth_spool.Base.{
  ℕ, zero, suc, ◌+◌, ◌-◌, Bool, true, false, not, ◌&&◌, Option, none, some, List, [], ◌∷◌, leb, ltb,
  ◌==◌, if◌then◌else◌, find, filter, take, length,
}
use mirth_spool.Base.Sort.{sort}
use mirth_spool.Base.Table.{update_where, delete_where}

pub data ActionKind : Type 0 where
  favorite hide view : ActionKind

abbrev pub same_action : ActionKind → ActionKind → Bool
same_action ActionKind.favorite ActionKind.favorite = true
same_action ActionKind.hide ActionKind.hide = true
same_action ActionKind.view ActionKind.view = true
same_action _ _ = false

pub record ActionRow : Type 0 where
  pub id : ℕ
  pub content_item_id : ℕ
  pub kind : ActionKind
  pub user_id : ℕ
  pub last_occurred_at : ℕ
  pub occurred_at : ℕ
  pub occurrence_count : ℕ

pub record Actions : Type 0 where
  pub rows : List ActionRow
  pub next_id : ℕ

pub record ActionKey : Type 0 where
  pub content_item_id : ℕ
  pub kind : ActionKind
  pub user_id : ℕ

-- userId_contentItemId_kind, which is unique
unfoldable pub has_action_key : ActionKey → ActionRow → Bool
has_action_key key r =
    r.content_item_id == key.content_item_id
    && same_action r.kind key.kind
    && r.user_id == key.user_id

new_action : ActionKey → ℕ → ℕ → ActionRow
new_action key now id = record {
  id = id;
  content_item_id = key.content_item_id;
  kind = key.kind;
  user_id = key.user_id;
  last_occurred_at = now;
  occurred_at = now;
  occurrence_count = 1;
}

create_action : ActionKey → ℕ → Actions → ActionRow × Actions
unfolding new_action
create_action key now a = (
  new_action key now a.next_id,
  record { rows = new_action key now a.next_id ∷ a.rows; next_id = suc a.next_id },
)

-- setUserAction: an upsert that leaves the row that is there.
unfoldable pub set_user_action : ActionKey → ℕ → Actions → ActionRow × Actions
unfolding create_action has_action_key
set_user_action key now a = elim (find (has_action_key key) a.rows) [
  | some existing ↦ (existing, a)
  | none ↦ create_action key now a
]

unfoldable pub remove_user_action : ActionKey → Actions → Actions
unfolding has_action_key
remove_user_action key a = record a { rows = delete_where (has_action_key key) a.rows }

-- VIEW_COALESCE_MILLISECONDS
abbrev pub view_coalesce : ℕ
view_coalesce = 900000

has_action_id : ℕ → ActionRow → Bool
has_action_id id r = r.id == id

view_again : ℕ → ActionRow → ActionRow
view_again now r = record r { last_occurred_at = now; occurrence_count = r.occurrence_count + 1 }

-- One transaction of recordMeaningfulView. The threshold may lie before the epoch, so the test
-- existing.lastOccurredAt > now - VIEW_COALESCE_MILLISECONDS is written as a sum.
pub view_once : ActionKey → ℕ → Actions → ActionRow × Actions
unfolding create_action has_action_id view_again has_action_key
view_once key now a = elim (find (has_action_key key) a.rows) [
  | none ↦ create_action key now a
  | some existing ↦ if ltb now (existing.last_occurred_at + view_coalesce) then (existing, a) else (
    view_again now existing,
    record a { rows = update_where (has_action_id existing.id) (view_again now) a.rows },
  )
]

-- What the database makes of an attempt: it commits, it refuses with a conflict that is tried again
-- (P2002, P2034), or it fails otherwise.
pub data Attempt : Type 0 where
  commits conflicts fails : Attempt

-- `none` is a throw.
try_view : ℕ → List Attempt → ActionKey → ℕ → Actions → Option (ActionRow × Actions)
unfolding view_once
try_view zero attempts key now a = none
try_view (suc left) [] key now a = some (view_once key now a)
try_view (suc left) (commits ∷ rest) key now a = some (view_once key now a)
try_view (suc left) (conflicts ∷ rest) key now a = try_view left rest key now a
try_view (suc left) (fails ∷ rest) key now a = none

-- recordMeaningfulView, with three attempts
unfoldable pub record_meaningful_view :
    List Attempt → ℕ → ℕ → ℕ → Actions → Option (ActionRow × Actions)
unfolding try_view
record_meaningful_view attempts content_item_id user_id now a =
    try_view 3 attempts
      (record { content_item_id = content_item_id; kind = ActionKind.view; user_id = user_id }) now
      a

-- The views of an item one after another, all of which commit.
unfoldable pub views : ActionKey → List ℕ → Actions → Actions
unfolding view_once
views key [] a = a
views key (now ∷ times) a = views key times (view_once key now a).1

-- the test of queryLibrary on the position, which is the last entry of the page before
after_position : (ActionRow → ℕ) → Option (ℕ × ℕ) → ActionRow → Bool
after_position time none r = true
after_position time (some (id, at)) r = if time r == at then ltb r.id id else ltb (time r) at

newest_first : (ActionRow → ℕ) → ActionRow → ActionRow → Bool
newest_first time a b = if time a == time b then leb b.id a.id else ltb (time b) (time a)

abbrev time_of : ActionKind → ActionRow → ℕ
time_of ActionKind.view r = r.last_occurred_at
time_of _ r = r.occurred_at

-- queryLibrary: the page behind a position, and whether there is more. `is_allowed` is the test on
-- the rating and the status of the content item.
unfoldable pub query_library :
    (ℕ → Bool) → ActionKind → ℕ → Option (ℕ × ℕ) → ℕ → Actions → Option (List ActionRow × Bool)
unfolding after_position newest_first
query_library is_allowed kind limit position user_id a =
    if leb 1 limit && leb limit 50
    then (let rows = take (limit + 1) (
          sort (newest_first (time_of kind)) (
            filter
              (λ (r : ActionRow).
                after_position (time_of kind) position r
                && is_allowed r.content_item_id
                && same_action r.kind kind
                && r.user_id == user_id)
              a.rows)) in
        some (take limit rows, ltb limit (length rows)))
    else none
