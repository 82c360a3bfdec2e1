-- ===== src/Duplicates/Groups/Merge.antt =====
-- A merge keeps the groups of duplicates in order.
use Prim.Native.String.{String}
use mirth_spool.Base.{
  ℕ, ◌≤◌, ◌<◌, ◌≡◌, refl, sym, ap, subst, ◌∙◌, Bool, true, false, not, ◌||◌, Option, none, some,
  List, leb, ltb, ◌==◌, ==_iff, ==_refl, filter, any, length, map, elem, All, Bool-cases,
  Option-cases, inl, inr,
}
use mirth_spool.Base.Each.{each, filter-each, map-each, pair-each}
use mirth_spool.Base.Sort.{sort-All}
use mirth_spool.Base.Table.{update_where, count_where}
use mirth_spool.Text.{Platform}
use mirth_spool.Ingestion.Rows.{ContentRow, GroupRow, Db}
use mirth_spool.Duplicates.Groups.{
  has_id, is_pair, is_member, group_in, in_group, ids_of, is_group, MergeInput, lead_by,
  merge_duplicate_items, sorted_groups, with_group, merge_found, lead_group, led_by, gather,
  group_search_text, make_primary, choose_primary, refresh_duplicate_group_search_text, audit_merge,
  audited, is_known, valid_distance,
}
use mirth_spool.Duplicates.Groups.Members.{
  UniqueIds, elem-ids_of, any_of_elem-ids_of, elem-choose_primary, settle, settle-id,
  updates-settle,
}
use mirth_spool.Duplicates.Groups.Left.{left_groups, left_groups-each, left_groups-any}
use mirth_spool.Duplicates.Groups.Made.{
  IsMade, with_group-IsMade, groups_of-real, elem-sort, HasGroup, groups_of-HasGroup, pair-count,
}
use mirth_spool.Duplicates.Groups.Led.{
  IsLed, HasHome, IsGrouped, IsReady, after-ours, others-IsLed, ours-IsLed, after-HasHome,
  UniqueIds-after,
}

or_true_left : {a : Bool} (b : Bool) → a ≡ true → (a || b) ≡ true
or_true_left b e = rw e refl

module _ (platform : Platform) (input : MergeInput) (db : Db) (i : IsGrouped db) where
  items : List ContentRow
  items = filter (is_pair input.left input.right) db.contents

  gs : List ℕ
  gs = sorted_groups items

  member : ContentRow → Bool
  member = is_member input.left input.right gs

  ids : List ℕ
  ids = ids_of (filter member db.contents)

  group : ℕ
  group = (with_group gs db).0

  created : Db
  created = (with_group gs db).1

  gs-real : All (λ g. any (is_group g) db.groups ≡ true) gs
  unfolding gs sorted_groups items
  gs-real =
      sort-All leb (λ g. any (is_group g) db.groups ≡ true) _
        (groups_of-real db.groups _
          (filter-each (HasHome db.groups) (HasHome db.groups) _ db.contents (λ c h u. h) i.homes))

  made : IsMade input.left input.right group gs db created
  unfolding group created
  made = with_group-IsMade input.left input.right gs db i gs-real

  paired :
      All
        (λ c.
          is_pair input.left input.right c ≡ true
          → (g : ℕ) → c.duplicate_group_id ≡ some g
          → elem g gs ≡ true)
        db.contents
  unfolding gs sorted_groups items
  paired =
      each (HasGroup (is_pair input.left input.right) db.contents) _ db.contents
        (λ c h q g e. elem-sort g _ ∙ h q g e)
        (groups_of-HasGroup (is_pair input.left input.right) db.contents)

  module _ (primary : ℕ) (chosen : elem primary ids ≡ true) (two : length items ≡ 2) where
    ready : All (IsReady input.left input.right group primary gs ids created.groups) db.contents
    unfolding ids member
    ready =
        each
          (λ c.
            (elem c.id ids ≡ member c)
            × ((is_pair input.left input.right c ≡ true
                  → (g : ℕ) → c.duplicate_group_id ≡ some g
                  → elem g gs ≡ true)
                × ((in_group group c ≡ true → elem group gs ≡ true) × HasHome created.groups c)))
          _ db.contents
          (λ c h. record { named = h.0; paired = h.1.0; ours = h.1.1.0; home = h.1.1.1 })
          (pair-each _ _ db.contents (elem-ids_of member db.contents i.ids)
            (pair-each _ _ db.contents paired (pair-each _ _ db.contents made.ours made.homes)))

    -- The database once the group has its primary item, and what became of its rows.
    led_db : Db
    led_db = led_by platform group primary (gather gs group ids input created)

    text : String
    unfolding led_db
    text = group_search_text platform group (record (gather gs group ids input created) {
      contents =
          update_where (has_id primary) make_primary (gather gs group ids input created).contents;
      groups =
          update_where (is_group group) (lead_by (some primary))
            (gather gs group ids input created).groups;
    })

    after : ContentRow → ContentRow
    after = settle member group primary text

    led-contents : led_db.contents ≡ map after db.contents
    unfolding led_db text after led_by gather refresh_duplicate_group_search_text ids
    led-contents =
        updates-settle member group primary text ids created.contents (
          subst (All (λ c. elem c.id ids ≡ member c)) (sym made.contents)
            (elem-ids_of member db.contents i.ids))
        ∙ ap (map (settle member group primary text)) made.contents

    led-groups : led_db.groups ≡ left_groups gs group primary created.groups
    unfolding led_db led_by gather refresh_duplicate_group_search_text left_groups
    led-groups = refl

    led-next_id : led_db.next_id ≡ created.next_id
    unfolding led_db led_by gather refresh_duplicate_group_search_text
    led-next_id = refl

    left-All : All (IsLed led_db.contents) led_db.groups
    unfolding is_member member
    left-All = subst (All (IsLed led_db.contents)) (sym led-groups) (
        subst (λ cs. All (IsLed cs) (left_groups gs group primary created.groups))
          (sym led-contents)
          (left_groups-each gs group primary (λ g. g.id == group ≡ false → IsLed db.contents g)
            (IsLed (map after db.contents)) created.groups
            (λ g l ours.
              unfold after in
              ours-IsLed input.left input.right group primary gs ids created.groups chosen text
                db.contents (lead_by (some primary) g) ready (same g ours) (unfold lead_by in refl)
                (any_of_elem-ids_of primary member db.contents (unfold ids in chosen)) many)
            (λ g l other kept.
              unfold after in
              others-IsLed input.left input.right group primary gs ids created.groups chosen text
                db.contents g ready other kept (l other))
            made.led))
      where
        same : (g : GroupRow) → g.id == group ≡ true → (lead_by (some primary) g).id ≡ group
        same g ours = unfold lead_by in (==_iff g.id group).0 ours

        many : 2 ≤ count_where member db.contents
        many =
            unfold member in
            subst (λ n. n ≤ count_where (is_member input.left input.right gs) db.contents) two
              (unfold items in pair-count input.left input.right gs db.contents)

    stays :
        (k : ℕ)
        → elem k gs ≡ false
        → any (is_group k) created.groups ≡ true
        → any (is_group k) led_db.groups ≡ true
    stays k out there =
        subst (λ rows. any (is_group k) rows ≡ true) (sym led-groups)
          (left_groups-any gs group primary k created.groups (λ other. out) there)

    ours_there : any (is_group group) led_db.groups ≡ true
    ours_there =
        subst (λ rows. any (is_group group) rows ≡ true) (sym led-groups)
          (left_groups-any gs group primary group created.groups
            (λ other. cc (sym (==_refl group) ∙ other)) made.there)

    led-IsGrouped : IsGrouped led_db
    unfolding after member is_member
    led-IsGrouped = record {
      ids = subst UniqueIds (sym led-contents) (
          UniqueIds-after input.left input.right group primary gs ids created.groups chosen text
            db.contents i.ids);
      led = left-All;
      homes = subst (All (HasHome led_db.groups)) (sym led-contents) (
          map-each (IsReady input.left input.right group primary gs ids created.groups)
            (HasHome led_db.groups) after db.contents
            (λ c r.
              after-HasHome input.left input.right group primary gs ids created.groups chosen text
                led_db.groups c ours_there stays r)
            ready);
      fresh =
          subst (λ n. All (λ g. g.id < n) led_db.groups) (sym led-next_id)
            (subst (All (λ g. g.id < created.next_id)) (sym led-groups) (
              left_groups-each gs group primary (λ g. g.id < created.next_id)
                (λ g. g.id < created.next_id) created.groups (λ g l u. unfold lead_by in l)
                (λ g l u v. l) made.fresh));
    }

    led-pair :
        All (λ c. is_pair input.left input.right c ≡ true → in_group group c ≡ true) led_db.contents
    unfolding after member is_member is_pair
    led-pair =
        subst (All (λ c. is_pair input.left input.right c ≡ true → in_group group c ≡ true))
          (sym led-contents)
          (map-each (IsReady input.left input.right group primary gs ids created.groups)
            (λ c. is_pair input.left input.right c ≡ true → in_group group c ≡ true) after
            db.contents (λ c r. after-pair c r) ready)
      where
        after-pair :
            (c : ContentRow)
            → IsReady input.left input.right group primary gs ids created.groups c
            → is_pair input.left input.right (settle member group primary text c) ≡ true
            → in_group group (settle member group primary text c) ≡ true
        after-pair c r q =
            after-ours input.left input.right group primary gs ids created.groups chosen text c r
            ∙ rw (settle-id member group primary text c) at (or_true_left (group_in gs c) q)

-- What a merge leaves: the groups in order, and the two items together in the group of the result.
abbrev pub LeavesGroups : MergeInput → Option ((ℕ × ℕ) × Db) → Type 0
LeavesGroups input none = Unit
LeavesGroups input (some (r, db)) =
    IsGrouped db
    × All (λ c. is_pair input.left input.right c ≡ true → in_group r.0 c ≡ true) db.contents

audit-keeps :
    (input : MergeInput) (group primary : ℕ) (db : Db)
    → LeavesGroups input (some ((group, primary), db))
    → LeavesGroups input (some ((group, primary), audit_merge input group db))
unfolding audit_merge
audit-keeps input group primary db (i, p) = elim (Option-cases input.actor_user_id) [
  | inl e ↦ rw (e, audit_merge) (i, p)
  | inr (actor, e) ↦
      rw (e, audit_merge) (record { ids = i.ids; led = i.led; homes = i.homes; fresh = i.fresh }, p)
]

audited-LeavesGroups :
    (users : List ℕ) (input : MergeInput) (group primary : ℕ) (db : Db)
    → LeavesGroups input (some ((group, primary), db))
    → LeavesGroups input (audited users input group primary db)
unfolding audited
audited-LeavesGroups users input group primary db h =
    elim (Bool-cases (is_known users input.actor_user_id)) [
      | inl e ↦ rw (e, audited) (audit-keeps input group primary db h)
      | inr e ↦ rw (e, audited) tt
    ]

merge_found-LeavesGroups :
    (platform : Platform) (input : MergeInput) (db : Db)
    → IsGrouped db
    → length (filter (is_pair input.left input.right) db.contents) ≡ 2
    → LeavesGroups input
        (merge_found platform input (filter (is_pair input.left input.right) db.contents) db)
unfolding merge_found lead_group items gs member ids group created led_db
merge_found-LeavesGroups platform input db i two =
    let named = ids platform input db i in
    let before =
      gather (gs platform input db i) (group platform input db i) named input
        (created platform input db i) in
    elim (Bool-cases (ltb 50 (length named))) [
      | inl many ↦ rw (many, merge_found) tt
      | inr few ↦ elim (Option-cases (choose_primary before named)) [
        | inl empty ↦ rw (few, empty, merge_found, lead_group) tt
        | inr (primary, e) ↦
            let chosen = elem-choose_primary before named primary e in
            rw (few, e, merge_found, lead_group)
              (audited-LeavesGroups db.users input (group platform input db i) primary
                (led_db platform input db i primary chosen two)
                (
                  led-IsGrouped platform input db i primary chosen two,
                  led-pair platform input db i primary chosen two,
                ))
      ]
    ]

-- From a database whose groups are in order, a merge leaves such a database: every group has a
-- primary item, which is a member and the only one marked as primary, and two members at least; the
-- group of an item exists; and both items are in the group of the result.
pub merge_duplicate_items-LeavesGroups :
    (platform : Platform) (input : MergeInput) (db : Db)
    → IsGrouped db
    → LeavesGroups input (merge_duplicate_items platform input db)
unfolding merge_duplicate_items
merge_duplicate_items-LeavesGroups platform input db i =
    elim (Bool-cases (input.left == input.right || not (valid_distance input.distance))) [
      | inl bad ↦ rw (bad, merge_duplicate_items) tt
      | inr good ↦
          elim (Bool-cases (length (filter (is_pair input.left input.right) db.contents) == 2)) [
            | inr missing ↦ rw (good, missing, merge_duplicate_items) tt
            | inl two ↦
                rw (good, two, merge_duplicate_items)
                  (merge_found-LeavesGroups platform input db i ((==_iff _ 2).0 two))
          ]
    ]
