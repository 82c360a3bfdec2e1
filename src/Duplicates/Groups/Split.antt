-- ===== src/Duplicates/Groups/Split.antt =====
-- `splitDuplicateItem` of packages/db/src/repositories/duplicates.ts: an item leaves its group.
use mathlib.Core.Option
use mirth_spool.Base.{
  ℕ, Bool, true, false, not, ◌||◌, Option, none, some, List, [], ◌∷◌, ltb, ◌==◌, if◌then◌else◌,
  find, filter, length,
}
use mirth_spool.Base.Table.{update_where, delete_where}
use mirth_spool.Text.{Platform}
use mirth_spool.Ingestion.Rows.{ContentRow, LinkRow, Db}
use mirth_spool.Ingestion.Tags.{refresh_content_search_text}
use mirth_spool.Duplicates.Groups.{
  is_known, in_group, has_id, id_in, unmark, lead_by, is_group, lead_group, ids_of,
}

leave_group : ℕ → ContentRow → ContentRow
leave_group now c = record c {
  duplicate_analyzed_at = some now;
  duplicate_group_id = none;
  duplicate_primary = true;
}

stand_alone : ContentRow → ContentRow
stand_alone c = record c { duplicate_group_id = none; duplicate_primary = true }

touches : ℕ → LinkRow → Bool
touches id l = l.from_content_id == id || l.to_content_id == id

-- the group without the item, before it is led again
leave : ℕ → ℕ → ℕ → Db → Db
unfolding lead_by is_group touches leave_group has_id
leave group content_id now db = record db {
  groups = update_where (is_group group) (lead_by none) db.groups;
  links = delete_where (touches content_id) db.links;
  contents = update_where (has_id content_id) (leave_group now) db.contents;
}

dissolve : ℕ → List ContentRow → Db → Db
unfolding has_id stand_alone is_group
dissolve group [] db = record db { groups = delete_where (is_group group) db.groups }
dissolve group (c ∷ cs) db = record db {
  contents = update_where (has_id c.id) stand_alone db.contents;
  groups = delete_where (is_group group) db.groups;
}

lead_again : Platform → ℕ → List ContentRow → Db → Option Db
unfolding ids_of id_in unmark lead_group
lead_again platform group remaining db =
    let ids = ids_of remaining in
    Option.map (λ (r : ℕ × Db). r.1)
      (lead_group platform group ids
        (record db { contents = update_where (id_in ids) unmark db.contents }))

pub record SplitInput : Type 0 where
  pub actor_user_id : ℕ
  pub content_id : ℕ
  pub now : ℕ

audit_split : SplitInput → ℕ → Db → Db
audit_split input group db = record db {
  audits =
      record {
        actor_user_id = input.actor_user_id;
        event_type = "duplicate.manual_split";
        target_id = group;
        subjects = input.content_id ∷ [];
      }
      ∷ db.audits;
}

split_from : Platform → SplitInput → ℕ → Db → Option Db
unfolding leave in_group dissolve lead_again audit_split is_known
split_from platform input group db =
    let left = leave group input.content_id input.now db in
    let remaining = filter (in_group group) left.contents in
    if not (is_known db.users (some input.actor_user_id))
    then none
    else Option.map
        (λ (d : Db).
          audit_split input group (refresh_content_search_text platform input.content_id d))
        (if ltb (length remaining) 2
          then some (dissolve group remaining left)
          else lead_again platform group remaining left)

-- The Boolean is `split` of the result.
unfoldable pub split_duplicate_item : Platform → SplitInput → Db → Option (Bool × Db)
unfolding split_from has_id
split_duplicate_item platform input db = elim (find (has_id input.content_id) db.contents) [
  | none ↦ some (false, db)
  | some c ↦ elim c.duplicate_group_id [
    | none ↦ some (false, db)
    | some group ↦ Option.map (λ (d : Db). (true, d)) (split_from platform input group db)
  ]
]
