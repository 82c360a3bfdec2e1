-- ===== src/Duplicates/Groups/Left.antt =====
-- The groups that a merge leaves.
use mirth_spool.Base.{
  ℕ, ◌≡◌, refl, sym, subst, Bool, true, false, not, ◌&&◌, some, List, [], ◌∷◌, arith, ◌==◌,
  if◌then◌else◌, any, elem, All, Bool-cases, inl, inr,
}
use mirth_spool.Base.Table.{update_where, delete_where}
use mirth_spool.Ingestion.Rows.{GroupRow}
use mirth_spool.Duplicates.Groups.{is_group, merged_groups, lead_by}

and_false : (a : Bool) → (a && false) ≡ false
and_false true = refl
and_false false = refl

module _ (gs : List ℕ) (group primary : ℕ) where
  -- The groups after the merge.
  unfoldable pub left_groups : List GroupRow → List GroupRow
  left_groups groups =
      update_where (is_group group) (lead_by (some primary)) (merged_groups gs group groups)

  left_groups-cons :
      (g : GroupRow) (groups : List GroupRow)
      → left_groups (g ∷ groups) ≡ (
          if elem g.id gs && not (g.id == group)
          then left_groups groups
          else (if g.id == group then lead_by (some primary) g else g) ∷ left_groups groups)
  unfolding left_groups merged_groups update_where delete_where lead_by is_group
  left_groups-cons g groups = elim (Bool-cases (elem g.id gs)) [
    | inl inside ↦ elim (Bool-cases (g.id == group)) [
      | inl ours ↦ rw (inside, inside, ours, ours) refl
      | inr other ↦ rw (inside, inside, other) refl
    ]
    | inr out ↦ elim (Bool-cases (g.id == group)) [
      | inl ours ↦ rw (out, out, ours) refl
      | inr other ↦ rw (out, out, other) refl
    ]
  ]

  pub left_groups-each :
      (P Q : GroupRow → Type 0) (groups : List GroupRow)
      → ((g : GroupRow) → P g → g.id == group ≡ true → Q (lead_by (some primary) g))
      → ((g : GroupRow) → P g → g.id == group ≡ false → elem g.id gs ≡ false → Q g)
      → All P groups
      → All Q (left_groups groups)
  left_groups-each P Q [] f k h = unfold left_groups merged_groups update_where delete_where in tt
  left_groups-each P Q (g ∷ groups) f k (p, h) =
      let rest = left_groups-each P Q groups f k h in
      subst (All Q) (sym (left_groups-cons g groups)) (elim (Bool-cases (g.id == group)) [
        | inl ours ↦ rw (ours, and_false (elem g.id gs)) (f g p ours, rest)
        | inr other ↦ elim (Bool-cases (elem g.id gs)) [
          | inl inside ↦ rw (inside, other) rest
          | inr out ↦ rw (out, other) (k g p other out, rest)
        ]
      ])

  pub left_groups-any :
      (k : ℕ) (groups : List GroupRow)
      → (k == group ≡ false → elem k gs ≡ false)
      → any (is_group k) groups ≡ true
      → any (is_group k) (left_groups groups) ≡ true
  unfolding is_group lead_by
  left_groups-any k [] h e = cc
  left_groups-any k (g ∷ groups) h e =
      let rest = left_groups-any k groups h in
      rw (left_groups-cons g groups) (ground (arith, rest, h, e))
