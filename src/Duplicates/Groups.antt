-- ===== src/Duplicates/Groups.antt =====
-- `mergeDuplicateItems` of packages/db/src/repositories/duplicates.ts: the transaction that joins the
-- groups of two duplicates into one, with a primary item.
pub mod Members
pub mod Led
pub mod Left
pub mod Made
pub mod Merge
pub mod Total
pub mod Split
use Prim.Native.String.{String}
use mathlib.Core.Option
use mirth_spool.Base.{
  ℕ, suc, ◌+◌, ◌*◌, min, max, Bool, true, false, not, ◌&&◌, ◌||◌, Option, none, some, List, [], ◌∷◌,
  ◌++◌, leb, ltb, ◌==◌, if◌then◌else◌, find, filter, any, length, map, elem,
}
use mirth_spool.Base.Sort.{sort}
use mirth_spool.Base.Int.{ℤ, pos_part}
use mirth_spool.Base.Table.{update_where, delete_where}
use mirth_spool.Db.{ContentStatus, MediaKind, CacheState, DuplicateReason}
use mirth_spool.Text.{Platform, trim, utf16_length, slice_to, join_space}
use mirth_spool.Ingestion.Rows.{
  SourceRow, PostRow, ContentRow, MediaRow, GroupRow, LinkRow, AuditRow, Db,
}
use mirth_spool.Ingestion.Tags.{content_texts, is_present, refresh_content_search_text}

pub record MergeInput : Type 0 where
  pub actor_user_id : Option ℕ
  pub distance : Option ℕ
  pub left : ℕ
  pub right : ℕ
  pub reason : DuplicateReason

pub has_id : ℕ → ContentRow → Bool
has_id id c = c.id == id

-- where: { id: { in: ids } }
pub id_in : List ℕ → ContentRow → Bool
id_in ids c = elem c.id ids

pub group_in : List ℕ → ContentRow → Bool
group_in groups c = elim c.duplicate_group_id [ none ↦ false | some g ↦ elem g groups ]

unfoldable pub is_pair : ℕ → ℕ → ContentRow → Bool
is_pair left right c = c.id == left || c.id == right

-- where: { OR: [{ id: { in: [left, right] } }, { duplicateGroupId: { in: groupIds } }] }
unfoldable pub is_member : ℕ → ℕ → List ℕ → ContentRow → Bool
unfolding is_pair group_in
is_member left right groups c = is_pair left right c || group_in groups c

pub in_group : ℕ → ContentRow → Bool
in_group group c = elim c.duplicate_group_id [ none ↦ false | some g ↦ g == group ]

pub groups_of : List ContentRow → List ℕ
groups_of [] = []
groups_of (c ∷ cs) =
    let rest = groups_of cs in
    elim c.duplicate_group_id [ none ↦ rest | some g ↦ if elem g rest then rest else g ∷ rest ]

-- [...new Set(…)].sort()
unfoldable pub sorted_groups : List ContentRow → List ℕ
unfolding groups_of
sorted_groups items = sort leb (groups_of items)

abbrev score_of : Option ℤ → ℕ
score_of none = 0
score_of (some s) = pos_part s

-- Math.max(0, ...), of the priorities and of the scores of the posts of an item
max_priority : List SourceRow → ℕ → List PostRow → ℕ
max_priority sources content_id [] = 0
max_priority sources content_id (p ∷ ps) =
    let rest = max_priority sources content_id ps in
    if p.content_item_id == content_id
    then (elim (find (λ (s : SourceRow). s.id == p.source_id) sources) [
      | none ↦ rest
      | some s ↦ max (pos_part s.priority) rest
    ])
    else rest

max_score : ℕ → List PostRow → ℕ
max_score content_id [] = 0
max_score content_id (p ∷ ps) =
    let rest = max_score content_id ps in
    if p.content_item_id == content_id then max (score_of p.provider_score) rest else rest

abbrev one_if : Bool → ℕ
one_if true = 1
one_if false = 0

abbrev is_active : ContentStatus → Bool
is_active ContentStatus.active = true
is_active _ = false

abbrev is_link : MediaKind → Bool
is_link MediaKind.link = true
is_link _ = false

abbrev is_cached : CacheState → Bool
is_cached CacheState.cached = true
is_cached _ = false

abbrev or_zero : Option ℕ → ℕ
or_zero none = 0
or_zero (some n) = n

ordinal_le : MediaRow → MediaRow → Bool
ordinal_le a b = leb a.asset.ordinal b.asset.ordinal

first_medium : ℕ → List MediaRow → Option MediaRow
unfolding ordinal_le
first_medium id media =
    elim (sort ordinal_le (filter (λ (m : MediaRow). m.content_item_id == id) media)) [
      | [] ↦ none
      | m ∷ ms ↦ some m
    ]

title_length : Option String → ℕ
title_length none = 0
title_length (some s) = utf16_length (trim s)

pub quality : Db → ContentRow → List ℕ
unfolding first_medium title_length max_priority max_score
quality db c =
    let medium = first_medium c.id db.media in
    one_if (is_active c.status)
    ∷ elim medium [ none ↦ 0 | some m ↦ one_if (not (is_link m.asset.kind)) ]
    ∷ elim medium [ none ↦ 0 | some m ↦ one_if (is_cached m.cache_state) ]
    ∷ elim medium [ none ↦ 0 | some m ↦ or_zero m.asset.width * or_zero m.asset.height ]
    ∷ title_length c.title
    ∷ max_priority db.sources c.id db.posts
    ∷ max_score c.id db.posts
    ∷ []

-- The comparison by the first number that differs; the larger comes first.
quality_le : List ℕ → List ℕ → Bool → Bool
quality_le [] bs tie = tie
quality_le (a ∷ xs) [] tie = tie
quality_le (a ∷ xs) (b ∷ bs) tie =
    let rest = quality_le xs bs tie in if a == b then rest else ltb b a

better : Db → ContentRow → ContentRow → Bool
unfolding quality_le quality
better db a b = quality_le (quality db a) (quality db b) (leb a.id b.id)

-- `none` where the group is empty and the source throws.
pub choose_primary : Db → List ℕ → Option ℕ
unfolding id_in better
choose_primary db ids = elim (sort (better db) (filter (id_in ids) db.contents)) [
  | [] ↦ none
  | c ∷ cs ↦ some c.id
]

group_texts : Db → ℕ → List ContentRow → List String
group_texts db group [] = []
group_texts db group (c ∷ cs) =
    let rest = group_texts db group cs in
    elim c.duplicate_group_id [
      | none ↦ rest
      | some g ↦ if g == group then content_texts db c ++ rest else rest
    ]

-- the texts of every item of the group
pub group_search_text : Platform → ℕ → Db → String
unfolding group_texts is_present
group_search_text platform group db =
    slice_to 20000
      (platform.nfkc (join_space (filter is_present (group_texts db group db.contents))))

pub set_search_text : String → ContentRow → ContentRow
set_search_text text c = record c { search_text = some text }

pub refresh_duplicate_group_search_text : Platform → ℕ → ℕ → Db → Db
unfolding group_search_text has_id set_search_text
refresh_duplicate_group_search_text platform group primary db = record db {
  contents =
      update_where (has_id primary) (set_search_text (group_search_text platform group db))
        db.contents;
}

pub enter_group : ℕ → ContentRow → ContentRow
enter_group group c = record c { duplicate_group_id = some group; duplicate_primary = false }

pub make_primary : ContentRow → ContentRow
make_primary c = record c { duplicate_primary = true }

pub unmark : ContentRow → ContentRow
unmark c = record c { duplicate_primary = false }

pub lead_by : Option ℕ → GroupRow → GroupRow
lead_by primary g = record g { primary_content_id = primary }

pub is_group : ℕ → GroupRow → Bool
is_group id g = g.id == id

is_link_between : ℕ → ℕ → LinkRow → Bool
is_link_between from to l = l.from_content_id == from && l.to_content_id == to

same_reason : DuplicateReason → DuplicateReason → Bool
same_reason DuplicateReason.canonical_url DuplicateReason.canonical_url = true
same_reason DuplicateReason.sha256 DuplicateReason.sha256 = true
same_reason DuplicateReason.perceptual_hash DuplicateReason.perceptual_hash = true
same_reason DuplicateReason.manual DuplicateReason.manual = true
same_reason _ _ = false

-- duplicateLink.upsert, by the two items and the reason
put_link : LinkRow → List LinkRow → List LinkRow
unfolding is_link_between same_reason
put_link link [] = link ∷ []
put_link link (l ∷ ls) =
    let rest = put_link link ls in
    if is_link_between link.from_content_id link.to_content_id l && same_reason link.reason l.reason
    then record l { distance = link.distance } ∷ ls
    else l ∷ rest

abbrev pub valid_distance : Option ℕ → Bool
valid_distance none = true
valid_distance (some d) = leb d 64

-- the groups that are left, of which one may be new, with no primary yet where items move
pub merged_groups : List ℕ → ℕ → List GroupRow → List GroupRow
unfolding lead_by is_group
merged_groups group_ids group groups =
    delete_where (λ (g : GroupRow). elem g.id group_ids && not (g.id == group))
      (update_where (λ (g : GroupRow). elem g.id group_ids) (lead_by none) groups)

pub audit_merge : MergeInput → ℕ → Db → Db
audit_merge input group db = elim input.actor_user_id [
  | none ↦ db
  | some actor ↦ record db {
    audits =
        record {
          actor_user_id = actor;
          event_type = "duplicate.manual_merge";
          target_id = group;
          subjects = input.left ∷ input.right ∷ [];
        }
        ∷ db.audits;
  }
]

-- The foreign key of `actorUserId` in the audit event.
unfoldable pub is_known : List ℕ → Option ℕ → Bool
is_known users none = true
is_known users (some actor) = elem actor users

-- The audit event of the merge, which throws where the actor is no user.
pub audited : List ℕ → MergeInput → ℕ → ℕ → Db → Option ((ℕ × ℕ) × Db)
unfolding audit_merge is_known
audited users input group primary db =
    if is_known users input.actor_user_id
    then some ((group, primary), audit_merge input group db)
    else none

-- The group of the merge: the first of the items' groups, or a new one.
pub with_group : List ℕ → Db → ℕ × Db
with_group [] db = (
  db.next_id,
  record db {
    groups = record { id = db.next_id; primary_content_id = none } ∷ db.groups;
    next_id = suc db.next_id;
  },
)
with_group (g ∷ gs) db = (g, db)

-- The item becomes the primary of the group, and gets the text that is searched.
pub led_by : Platform → ℕ → ℕ → Db → Db
unfolding make_primary has_id lead_by is_group refresh_duplicate_group_search_text
led_by platform group primary db =
    refresh_duplicate_group_search_text platform group primary (record db {
      contents = update_where (has_id primary) make_primary db.contents;
      groups = update_where (is_group group) (lead_by (some primary)) db.groups;
    })

-- A group with the given members gets its primary item.
pub lead_group : Platform → ℕ → List ℕ → Db → Option (ℕ × Db)
unfolding choose_primary led_by
lead_group platform group ids db = elim (choose_primary db ids) [
  | none ↦ none
  | some primary ↦ some (primary, led_by platform group primary db)
]

-- the members move into the group, and the other groups go
pub gather : List ℕ → ℕ → List ℕ → MergeInput → Db → Db
unfolding enter_group id_in merged_groups put_link
gather group_ids group member_ids input db = record db {
  contents = update_where (id_in member_ids) (enter_group group) db.contents;
  groups = merged_groups group_ids group db.groups;
  links =
      put_link
        (record {
          from_content_id = min input.left input.right;
          to_content_id = max input.left input.right;
          reason = input.reason;
          distance = input.distance;
        })
        db.links;
}

pub ids_of : List ContentRow → List ℕ
ids_of cs = map (λ (c : ContentRow). c.id) cs

pub merge_found : Platform → MergeInput → List ContentRow → Db → Option ((ℕ × ℕ) × Db)
unfolding sorted_groups with_group is_member ids_of gather audited
merge_found platform input items db =
    let group_ids = sorted_groups items in
    let (group, created) = with_group group_ids db in
    let member_ids = ids_of (filter (is_member input.left input.right group_ids) db.contents) in
    if ltb 50 (length member_ids)
    then none
    else (elim (lead_group platform group member_ids
        (gather group_ids group member_ids input created)) [
          | none ↦ none
          | some (primary, led) ↦ audited db.users input group primary led
        ])

-- The result names the group and its primary item. `none` where the source throws, and the
-- transaction is rolled back.
unfoldable pub merge_duplicate_items : Platform → MergeInput → Db → Option ((ℕ × ℕ) × Db)
unfolding merge_found is_pair
merge_duplicate_items platform input db =
    let items = filter (is_pair input.left input.right) db.contents in
    if input.left == input.right || not (valid_distance input.distance)
    then none
    else if length items == 2
    then merge_found platform input items db
    else none
