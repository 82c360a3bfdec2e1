-- ===== src/Duplicates/Groups/Made.antt =====
-- What a merge knows of the database before the items move: the group that they enter, and the groups
-- that are merged.
use mirth_spool.Base.{
  ℕ, suc, ◌≤◌, ◌<◌, ◌≡◌, refl, sym, ◌∙◌, Bool, true, false, none, some, List, [], ◌∷◌, arith, leb,
  ◌==◌, ==_refl, if◌then◌else◌, filter, any, length, elem, All, Bool-cases, Option-cases, inl, inr,
}
use mirth_spool.Base.Each.{each}
use mirth_spool.Base.Sort.{insert, sort}
use mirth_spool.Base.Table.{count_where}
use mirth_spool.Ingestion.Rows.{ContentRow, GroupRow, Db}
use mirth_spool.Duplicates.Groups.{is_pair, is_member, in_group, is_group, groups_of, with_group}
use mirth_spool.Duplicates.Groups.Led.{IsLed, HasHome, IsGrouped, grouped}

-- A group that is new, or one of the items': what the merge knows of the database then.
pub record IsMade (left right group : ℕ) (gs : List ℕ) (db created : Db) : Type 0 where
  pub contents : created.contents ≡ db.contents
  pub led : All (λ g. g.id == group ≡ false → IsLed db.contents g) created.groups
  pub there : any (is_group group) created.groups ≡ true
  pub homes : All (HasHome created.groups) db.contents
  pub fresh : All (λ g. g.id < created.next_id) created.groups
  pub ours : All (λ c. in_group group c ≡ true → elem group gs ≡ true) db.contents

no_group_of_fresh :
    (n : ℕ) (groups : List GroupRow) → All (λ g. g.id < n) groups → any (is_group n) groups ≡ false
unfolding is_group
no_group_of_fresh n [] h = refl
no_group_of_fresh n (g ∷ groups) h = ground (arith, h.0, no_group_of_fresh n groups h.1)

pub with_group-IsMade :
    (left right : ℕ) (gs : List ℕ) (db : Db)
    → IsGrouped db
    → All (λ g. any (is_group g) db.groups ≡ true) gs
    → IsMade left right (with_group gs db).0 gs db (with_group gs db).1
unfolding with_group
with_group-IsMade left right (g ∷ gs) db i real = record {
  contents = refl;
  led =
      each (IsLed db.contents) (λ h. h.id == g ≡ false → IsLed db.contents h) db.groups (λ h l u. l)
        i.led;
  there = real.0;
  homes = i.homes;
  fresh = i.fresh;
  ours =
      each (HasHome db.groups) (λ c. in_group g c ≡ true → elem g (g ∷ gs) ≡ true) db.contents
        (λ c h u. rw (==_refl g) refl) i.homes;
}
with_group-IsMade left right [] db i real = record {
  contents = refl;
  led = (
    λ new. cc (sym (==_refl db.next_id) ∙ new),
    each (IsLed db.contents) (λ h. h.id == db.next_id ≡ false → IsLed db.contents h) db.groups
        (λ h l u. l) i.led,
  );
  there = unfold is_group in rw (==_refl db.next_id) refl;
  homes =
      each (HasHome db.groups)
        (HasHome (record { id = db.next_id; primary_content_id = none } ∷ db.groups)) db.contents
        (λ c h. (h.0, λ k e. any_later k (h.1 k e))) i.homes;
  fresh = (
    omega arith,
    each (λ g. g.id < db.next_id) (λ g. g.id < suc db.next_id) db.groups (λ g l. omega arith)
        i.fresh,
  );
  ours =
      each (HasHome db.groups) (λ c. in_group db.next_id c ≡ true → elem db.next_id [] ≡ true)
        db.contents
        (λ c h u. cc (
          sym (no_group_of_fresh db.next_id db.groups i.fresh)
          ∙ h.1 db.next_id (grouped db.next_id c u)))
        i.homes;
}
  where
    any_later :
        (k : ℕ)
        → any (is_group k) db.groups ≡ true
        → any (is_group k) (record { id = db.next_id; primary_content_id = none } ∷ db.groups)
          ≡ true
    any_later k e =
        elim (Bool-cases (is_group k (record { id = db.next_id; primary_content_id = none }))) [
          | inl x ↦ rw x refl
          | inr x ↦ rw x e
        ]

-- The groups of the items are there, and every group of an item is among them.
pub groups_of-real :
    (groups : List GroupRow) (cs : List ContentRow)
    → All (HasHome groups) cs
    → All (λ g. any (is_group g) groups ≡ true) (groups_of cs)
unfolding groups_of
groups_of-real groups [] h = tt
groups_of-real groups (c ∷ cs) h =
    let rest = groups_of-real groups cs h.1 in
    elim (Option-cases c.duplicate_group_id) [
      | inl e ↦ rw (e, groups_of) rest
      | inr (g, e) ↦ elim (Bool-cases (elem g (groups_of cs))) [
        | inl old ↦ rw (e, old, groups_of) rest
        | inr new ↦ rw (e, new, groups_of) (h.0.1 g e, rest)
      ]
    ]

elem-insert :
    (g x : ℕ) (ys : List ℕ) → elem g (insert leb x ys) ≡ (if x == g then true else elem g ys)
unfolding insert
elem-insert g x [] = refl
elem-insert g x (y ∷ ys) = ground (arith, elem-insert g x ys)

pub elem-sort : (g : ℕ) (xs : List ℕ) → elem g (sort leb xs) ≡ elem g xs
unfolding sort
elem-sort g [] = refl
elem-sort g (x ∷ xs) = ground (arith, elem-insert g x (sort leb xs), elem-sort g xs)

groups_of-cons :
    (g : ℕ) (c : ContentRow) (cs : List ContentRow)
    → elem g (groups_of cs) ≡ true
    → elem g (groups_of (c ∷ cs)) ≡ true
unfolding groups_of
groups_of-cons g c cs h = ground (arith, h)

groups_of-head :
    (g : ℕ) (c : ContentRow) (cs : List ContentRow)
    → c.duplicate_group_id ≡ some g
    → elem g (groups_of (c ∷ cs)) ≡ true
unfolding groups_of
groups_of-head g c cs h = elim (Bool-cases (elem g (groups_of cs))) [
  | inl old ↦ rw (h, old) old
  | inr new ↦ rw (h, new, ==_refl g) refl
]

module _ (p : ContentRow → Bool) where
  abbrev pub HasGroup : List ContentRow → ContentRow → Type 0
  HasGroup cs c =
      p c ≡ true → (g : ℕ) → c.duplicate_group_id ≡ some g → elem g (groups_of (filter p cs)) ≡ true

  HasGroup-cons : (c d : ContentRow) (cs : List ContentRow) → HasGroup cs d → HasGroup (c ∷ cs) d
  HasGroup-cons c d cs h q g e = elim (Bool-cases (p c)) [
    | inl x ↦ rw x (groups_of-cons g c (filter p cs) (h q g e))
    | inr x ↦ rw x (h q g e)
  ]

  pub groups_of-HasGroup : (cs : List ContentRow) → All (HasGroup cs) cs
  groups_of-HasGroup [] = tt
  groups_of-HasGroup (c ∷ cs) = (
    λ q g e. rw q (groups_of-head g c (filter p cs) e),
    each (HasGroup cs) (HasGroup (c ∷ cs)) cs (λ d h. HasGroup-cons c d cs h)
        (groups_of-HasGroup cs),
  )

pub pair-count :
    (left right : ℕ) (gs : List ℕ) (cs : List ContentRow)
    → length (filter (is_pair left right) cs) ≤ count_where (is_member left right gs) cs
unfolding count_where is_member
pair-count left right gs [] = omega arith
pair-count left right gs (c ∷ cs) = ground (arith, pair-count left right gs cs)
