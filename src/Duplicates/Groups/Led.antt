-- ===== src/Duplicates/Groups/Led.antt =====
-- Every group of duplicates has a primary item, which is one of its members, and no other member is
-- marked as primary: a merge keeps it so.
use Prim.Native.String.{String}
use mathlib.Core.Option.{some-injective}
use mirth_spool.Base.{
  ℕ, ◌≤◌, ◌<◌, ◌≡◌, refl, sym, ap, subst, ◌∙◌, Bool, true, false, ◌&&◌, ◌||◌, none, some, List, [],
  ◌∷◌, arith, ◌==◌, any, map, elem, All, Bool-cases, inl, inr,
}
use mirth_spool.Base.Each.{each, map-each, pair-each}
use mirth_spool.Base.Table.{count_where}
use mirth_spool.Ingestion.Rows.{ContentRow, GroupRow, Db}
use mirth_spool.Duplicates.Groups.{has_id, is_pair, is_member, group_in, in_group, is_group}
use mirth_spool.Duplicates.Groups.Members.{
  UniqueIds, any-map, count-map, settle, settle-id, settle-group, settle-primary,
}

pub grouped : (h : ℕ) (c : ContentRow) → in_group h c ≡ true → c.duplicate_group_id ≡ some h
unfolding in_group
grouped h c e = ground arith

or_false : (a b : Bool) → (a || b) ≡ false → b ≡ false
or_false true b h = cc
or_false false b h = h

not_merged :
    (left right : ℕ) (gs : List ℕ) (c : ContentRow) (g : ℕ)
    → is_member left right gs c ≡ false
    → c.duplicate_group_id ≡ some g
    → elem g gs ≡ false
unfolding is_member
not_merged left right gs c g m e =
    rw (e, group_in) at (or_false (is_pair left right c) (group_in gs c) m)

-- A group with its primary item, which is a member and the only one that is marked so, and with two
-- members at least.
pub record IsLed (contents : List ContentRow) (g : GroupRow) : Type 0 where
  pub primary : ℕ
  pub leads : g.primary_content_id ≡ some primary
  pub member : any (λ c. has_id primary c && in_group g.id c) contents ≡ true
  pub marked : All (λ c. in_group g.id c ≡ true → c.duplicate_primary ≡ (c.id == primary)) contents
  pub many : 2 ≤ count_where (in_group g.id) contents

-- The group of an item exists, and an item without a group is its own primary.
abbrev pub HasHome : List GroupRow → ContentRow → Type 0
HasHome groups c =
    (c.duplicate_group_id ≡ none → c.duplicate_primary ≡ true)
    × ((g : ℕ) → c.duplicate_group_id ≡ some g → any (is_group g) groups ≡ true)

pub record IsGrouped (db : Db) : Type 0 where
  pub ids : UniqueIds db.contents
  pub led : All (IsLed db.contents) db.groups
  pub homes : All (HasHome db.groups) db.contents
  pub fresh : All (λ g. g.id < db.next_id) db.groups

-- What is known of a row before the merge: the rows that the updates name are the members, a row of
-- the pair has no group or one that is merged, and the group of the merge is one of those.
pub record IsReady (left right group primary : ℕ) (gs ids : List ℕ) (groups : List GroupRow)
    (c : ContentRow) : Type 0 where
  pub named : elem c.id ids ≡ is_member left right gs c
  pub paired :
      is_pair left right c ≡ true → (g : ℕ) → c.duplicate_group_id ≡ some g → elem g gs ≡ true
  pub ours : in_group group c ≡ true → elem group gs ≡ true
  pub home : HasHome groups c

module _ (left right group primary : ℕ) (gs ids : List ℕ) (groups : List GroupRow)
    (chosen : elem primary ids ≡ true) (text : String) where
  abbrev pub member : ContentRow → Bool
  member = is_member left right gs

  abbrev pub after : ContentRow → ContentRow
  after = settle member group primary text

  abbrev pub Ready : ContentRow → Type 0
  Ready = IsReady left right group primary gs ids groups

  -- The primary item is a member.
  primary_member : (c : ContentRow) → Ready c → c.id == primary ≡ true → member c ≡ true
  primary_member c r e =
      let same : c.id ≡ primary = ground arith in
      sym r.named ∙ subst (λ n. elem n ids ≡ true) (sym same) chosen

  -- The members of the group after the merge are the members of the merge.
  pub after-ours : (c : ContentRow) → Ready c → in_group group (after c) ≡ member c
  unfolding in_group is_member group_in
  after-ours c r = ground (arith, settle-group member group primary text c, r.ours)

  after-marked :
      (c : ContentRow)
      → Ready c
      → in_group group (after c) ≡ true
      → (after c).duplicate_primary ≡ ((after c).id == primary)
  after-marked c r h = ground (
    arith,
    settle-primary member group primary text c,
    settle-id member group primary text c,
    after-ours c r,
  )

  module _ (h : ℕ) (other : h == group ≡ false) (kept : elem h gs ≡ false) where
    -- A member of another group that stays is no member of the merge.
    outside : (c : ContentRow) → Ready c → in_group h c ≡ true → member c ≡ false
    unfolding in_group is_member group_in
    outside c r i =
        let e = grouped h c i in
        elim (Bool-cases (is_pair left right c)) [
          | inl pair ↦ cc (sym (r.paired pair h e) ∙ kept)
          | inr alone ↦ rw (alone, is_member, e, group_in, kept) refl
        ]

    after-others : (c : ContentRow) → Ready c → in_group h (after c) ≡ in_group h c
    unfolding in_group
    after-others c r = ground (arith, settle-group member group primary text c, outside c r)

    others-marked :
        (leader : ℕ) (c : ContentRow)
        → Ready c
        → (in_group h c ≡ true → c.duplicate_primary ≡ (c.id == leader))
        → in_group h (after c) ≡ true
        → (after c).duplicate_primary ≡ ((after c).id == leader)
    others-marked leader c r mark i =
        let inside = sym (after-others c r) ∙ i in
        let out = outside c r inside in
        let m = mark inside in
        ground (
          arith,
          settle-primary member group primary text c,
          settle-id member group primary text c,
          primary_member c r,
          out,
          m,
        )

  has_id-after : (p : ℕ) (c : ContentRow) → has_id p (after c) ≡ has_id p c
  unfolding has_id
  has_id-after p c = ap (λ i. i == p) (settle-id member group primary text c)

  pub others-IsLed :
      (contents : List ContentRow) (g : GroupRow)
      → All Ready contents
      → g.id == group ≡ false
      → elem g.id gs ≡ false
      → IsLed contents g
      → IsLed (map after contents) g
  others-IsLed contents g ready other kept l = record {
    primary = l.primary;
    leads = l.leads;
    member =
        any-map (λ c. has_id l.primary c && in_group g.id c)
          (λ c. has_id l.primary c && in_group g.id c) after contents
          (each Ready
            (λ c.
              (has_id l.primary (after c) && in_group g.id (after c))
              ≡ (has_id l.primary c && in_group g.id c))
            contents (λ c r. same_leader l.primary c r (after-others g.id other kept c r)) ready)
        ∙ l.member;
    marked =
        map-each
          (λ c. Ready c × (in_group g.id c ≡ true → c.duplicate_primary ≡ (c.id == l.primary)))
          (λ c. in_group g.id c ≡ true → c.duplicate_primary ≡ (c.id == l.primary)) after contents
          (λ c rm. others-marked g.id other kept l.primary c rm.0 rm.1)
          (pair-each Ready _ contents ready l.marked);
    many =
        subst (λ n. 2 ≤ n)
          (sym (
            count-map (in_group g.id) (in_group g.id) after contents (
              each Ready (λ c. in_group g.id (after c) ≡ in_group g.id c) contents
                (λ c r. after-others g.id other kept c r) ready)))
          l.many;
  }
    where
      same_leader :
          (p : ℕ) (c : ContentRow)
          → Ready c
          → in_group g.id (after c) ≡ in_group g.id c
          → (has_id p (after c) && in_group g.id (after c)) ≡ (has_id p c && in_group g.id c)
      same_leader p c r e = rw e (ap (λ b. b && in_group g.id c) (has_id-after p c))

  pub ours-IsLed :
      (contents : List ContentRow) (g : GroupRow)
      → All Ready contents
      → g.id ≡ group
      → g.primary_content_id ≡ some primary
      → any (λ c. has_id primary c && member c) contents ≡ true
      → 2 ≤ count_where member contents
      → IsLed (map after contents) g
  ours-IsLed contents g ready same leads found many =
      subst (λ n. IsLed (map after contents) (record g { id = n })) (sym same)
        (record {
          primary = primary;
          leads = leads;
          member =
              any-map (λ c. has_id primary c && in_group group c)
                (λ c. has_id primary c && member c) after contents
                (each Ready
                  (λ c.
                    (has_id primary (after c) && in_group group (after c))
                    ≡ (has_id primary c && member c))
                  contents
                  (λ c r. rw (after-ours c r) (ap (λ b. b && member c) (has_id-after primary c)))
                  ready)
              ∙ found;
          marked =
              map-each Ready
                (λ c. in_group group c ≡ true → c.duplicate_primary ≡ (c.id == primary)) after
                contents (λ c r. after-marked c r) ready;
          many =
              subst (λ n. 2 ≤ n)
                (sym (
                  count-map (in_group group) member after contents (
                    each Ready (λ c. in_group group (after c) ≡ member c) contents
                      (λ c r. after-ours c r) ready)))
                many;
        })

  pub after-HasHome :
      (groups' : List GroupRow) (c : ContentRow)
      → any (is_group group) groups' ≡ true
      → ((g : ℕ)
          → elem g gs ≡ false
          → any (is_group g) groups ≡ true
          → any (is_group g) groups' ≡ true)
      → Ready c
      → HasHome groups' (after c)
  after-HasHome groups' c there stays r = elim (Bool-cases (member c)) [
    | inl m ↦
        let e : (after c).duplicate_group_id ≡ some group =
          settle-group member group primary text c ∙ rw m refl in
        (
          λ n. cc (sym n ∙ e),
          λ g s.
              subst (λ k. any (is_group k) groups' ≡ true) (some-injective _ _ (sym e ∙ s)) there,
        )
    | inr m ↦
        let e : (after c).duplicate_group_id ≡ c.duplicate_group_id =
          settle-group member group primary text c ∙ rw m refl in
        (
          λ n.
              let own = r.home.0 (sym e ∙ n) in
              ground (arith, settle-primary member group primary text c, own, m),
          λ g s.
              let there' = sym e ∙ s in
              stays g (not_merged left right gs c g m there') (r.home.1 g there'),
        )
  ]

  pub UniqueIds-after : (cs : List ContentRow) → UniqueIds cs → UniqueIds (map after cs)
  UniqueIds-after [] u = tt
  UniqueIds-after (c ∷ cs) u = (
    map-each (λ d. d.id == c.id ≡ false) (λ d. d.id == (after c).id ≡ false) after cs
        (λ d e. rw (settle-id member group primary text d, settle-id member group primary text c) e)
        u.0,
    UniqueIds-after cs u.1,
  )
