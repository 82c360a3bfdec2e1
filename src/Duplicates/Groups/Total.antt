-- ===== src/Duplicates/Groups/Total.antt =====
-- When a merge goes through.
use mirth_spool.Base.{
  ℕ, suc, ◌≤◌, ◌≡◌, ◌≢◌, refl, ap, ◌∙◌, Bool, true, false, not, ◌||◌, none, some, List, [], ◌∷◌,
  arith, ltb, ◌==◌, ==_iff, filter, length, All, Bool-cases, inl, inr,
}
use mirth_spool.Base.Sort.{sort, length-sort}
use mirth_spool.Base.Table.{count_where, count-update_where}
use mirth_spool.Text.{Platform}
use mirth_spool.Ingestion.Rows.{ContentRow, Db}
use mirth_spool.Duplicates.Groups.{
  id_in, is_pair, is_member, ids_of, MergeInput, merge_duplicate_items, sorted_groups, with_group,
  merge_found, lead_group, led_by, audit_merge, audited, is_known, gather, choose_primary, better,
  enter_group, valid_distance,
}
use mirth_spool.Duplicates.Groups.Members.{UniqueIds, elem-ids_of}

length-filter :
    (p : ContentRow → Bool) (cs : List ContentRow) → length (filter p cs) ≡ count_where p cs
unfolding count_where
length-filter p [] = refl
length-filter p (c ∷ cs) = ground (arith, length-filter p cs)

count-same :
    (p q : ContentRow → Bool) (cs : List ContentRow)
    → All (λ c. p c ≡ q c) cs
    → count_where p cs ≡ count_where q cs
unfolding count_where
count-same p q [] h = refl
count-same p q (c ∷ cs) h = ground (arith, h.0, count-same p q cs h.1)

members-count :
    (left right : ℕ) (gs : List ℕ) (cs : List ContentRow)
    → length (filter (is_pair left right) cs) ≤ count_where (is_member left right gs) cs
unfolding count_where is_member
members-count left right gs [] = omega arith
members-count left right gs (c ∷ cs) = ground (arith, members-count left right gs cs)

-- A choice from items that are there gives one.
choose_primary-some :
    (db : Db) (ids : List ℕ)
    → 1 ≤ count_where (id_in ids) db.contents
    → (p : ℕ) × (choose_primary db ids ≡ some p)
unfolding choose_primary
choose_primary-some db ids h = first (sort (better db) (filter (id_in ids) db.contents)) (
    omega (
      arith,
      length-sort (better db) (filter (id_in ids) db.contents),
      length-filter (id_in ids) db.contents,
    ))
  where
    first :
        (cs : List ContentRow)
        → 1 ≤ length cs
        → (p : ℕ) × (elim cs [ [] ↦ none | c ∷ rest ↦ some c.id ] ≡ some p)
    first [] k = absurd (omega arith)
    first (c ∷ cs) k = (c.id, refl)

with_group-contents : (gs : List ℕ) (db : Db) → (with_group gs db).1.contents ≡ db.contents
unfolding with_group
with_group-contents [] db = refl
with_group-contents (g ∷ gs) db = refl

gathered-count :
    (gs : List ℕ) (group : ℕ) (ids : List ℕ) (input : MergeInput) (db : Db)
    → count_where (id_in ids) (gather gs group ids input db).contents
      ≡ count_where (id_in ids) db.contents
unfolding gather id_in enter_group
gathered-count gs group ids input db =
    count-update_where (id_in ids) (id_in ids) (enter_group group) (λ c h. refl) db.contents

length-ids_of : (cs : List ContentRow) → length (ids_of cs) ≡ length cs
unfolding ids_of
length-ids_of [] = refl
length-ids_of (c ∷ cs) = ap suc (length-ids_of cs)

merge_found_total :
    (platform : Platform) (input : MergeInput) (items : List ContentRow) (db : Db)
    → UniqueIds db.contents
    → 1 ≤ count_where (is_member input.left input.right (sorted_groups items)) db.contents
    → count_where (is_member input.left input.right (sorted_groups items)) db.contents ≤ 50
    → is_known db.users input.actor_user_id ≡ true
    → (r : (ℕ × ℕ) × Db) × (merge_found platform input items db ≡ some r)
unfolding merge_found lead_group audited
merge_found_total platform input items db unique some_there few known =
    let gs = sorted_groups items in
    let group = (with_group gs db).0 in
    let created = (with_group gs db).1 in
    let member = is_member input.left input.right gs in
    let ids = ids_of (filter member db.contents) in
    let small : ltb 50 (length ids) ≡ false =
      ground (arith, length-ids_of (filter member db.contents), length-filter member db.contents) in
    let there : count_where (id_in ids) (gather gs group ids input created).contents
        ≡ count_where member db.contents =
      gathered-count gs group ids input created
      ∙ (ap (count_where (id_in ids)) (with_group-contents gs db)
          ∙ count-same (id_in ids) member db.contents
              (unfold id_in in elem-ids_of member db.contents unique)) in
    let (p, e) =
      choose_primary-some (gather gs group ids input created) ids (omega (arith, there)) in
    (
      (
        (group, p),
        audit_merge input group (led_by platform group p (gather gs group ids input created)),
      ),
      rw (small, e, merge_found, lead_group, audited, known) refl,
    )

-- Two different items that are both there once, with a distance of at most 64 if there is one, are
-- merged, if the two and the members of their groups are 50 items at most, and the actor, if there is
-- one, is a user.
pub merge_duplicate_items_total :
    (platform : Platform) (input : MergeInput) (db : Db)
    → UniqueIds db.contents
    → input.left ≢ input.right
    → valid_distance input.distance ≡ true
    → length (filter (is_pair input.left input.right) db.contents) ≡ 2
    → count_where
        (is_member input.left input.right
          (sorted_groups (filter (is_pair input.left input.right) db.contents)))
        db.contents
      ≤ 50
    → is_known db.users input.actor_user_id ≡ true
    → (r : (ℕ × ℕ) × Db) × (merge_duplicate_items platform input db ≡ some r)
unfolding merge_duplicate_items
merge_duplicate_items_total platform input db unique apart close two few known =
    let items = filter (is_pair input.left input.right) db.contents in
    let fine : (input.left == input.right || not (valid_distance input.distance)) ≡ false =
      different input.left input.right (valid_distance input.distance) apart close in
    let pair : length items == 2 ≡ true = ground (arith, two) in
    let (r, e) =
      merge_found_total platform input items db unique
        (omega (arith, two, members-count input.left input.right (sorted_groups items) db.contents))
        few known in
    (r, rw (fine, pair, merge_duplicate_items) e)
  where
    different : (a b : ℕ) (v : Bool) → a ≢ b → v ≡ true → (a == b || not v) ≡ false
    different a b v h k = elim (Bool-cases (a == b)) [
      | inl e ↦ absurd (h ((==_iff a b).0 e))
      | inr e ↦ rw (e, k) refl
    ]
