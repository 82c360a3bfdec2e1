-- ===== src/Duplicates/Groups/Members.antt =====
-- The rows that a merge moves, as one function over the rows: who the members are, and what becomes
-- of each row.
use Prim.Native.String.{String}
use mirth_spool.Base.{
  ℕ, ◌≡◌, refl, subst, Bool, true, false, ◌&&◌, none, some, List, [], ◌∷◌, arith, ◌==◌,
  if◌then◌else◌, filter, any, map, elem, All,
}
use mathlib.Core.Option.{some-injective}
use mirth_spool.Base.Each.{filter-each, trivial}
use mirth_spool.Base.Sort.{sort, sort-All}
use mirth_spool.Base.Table.{update_where, count_where}
use mirth_spool.Ingestion.Rows.{ContentRow, Db}
use mirth_spool.Duplicates.Groups.{
  has_id, id_in, ids_of, enter_group, make_primary, set_search_text, choose_primary, better,
}

-- No two items have an identifier in common.
abbrev pub UniqueIds : List ContentRow → Type 0
UniqueIds [] = Unit
UniqueIds (c ∷ cs) = All (λ d. d.id == c.id ≡ false) cs × UniqueIds cs

elem-ids_of-out :
    (id : ℕ) (p : ContentRow → Bool) (cs : List ContentRow)
    → All (λ d. d.id == id ≡ false) cs
    → elem id (ids_of (filter p cs)) ≡ false
unfolding ids_of
elem-ids_of-out id p [] h = refl
elem-ids_of-out id p (c ∷ cs) h = ground (arith, h.0, elem-ids_of-out id p cs h.1)

-- The identifiers of the rows that pass a test name these rows only.
pub elem-ids_of :
    (p : ContentRow → Bool) (cs : List ContentRow)
    → UniqueIds cs
    → All (λ c. elem c.id (ids_of (filter p cs)) ≡ p c) cs
unfolding ids_of
elem-ids_of p [] h = tt
elem-ids_of p (c ∷ cs) (apart, u) =
    (ground (arith, elem-ids_of-out c.id p cs apart), later cs apart (elem-ids_of p cs u))
  where
    later :
        (ds : List ContentRow)
        → All (λ d. d.id == c.id ≡ false) ds
        → All (λ d. elem d.id (ids_of (filter p cs)) ≡ p d) ds
        → All (λ d. elem d.id (ids_of (filter p (c ∷ cs))) ≡ p d) ds
    later [] a h = tt
    later (d ∷ ds) a h = (ground (arith, a.0, h.0), later ds a.1 h.1)

-- A named row is there.
pub any_of_elem-ids_of :
    (id : ℕ) (p : ContentRow → Bool) (cs : List ContentRow)
    → elem id (ids_of (filter p cs)) ≡ true
    → any (λ c. has_id id c && p c) cs ≡ true
unfolding ids_of has_id
any_of_elem-ids_of id p [] h = cc
any_of_elem-ids_of id p (c ∷ cs) h = ground (arith, h, any_of_elem-ids_of id p cs)

-- The primary item is one of those that were to choose from.
pub elem-choose_primary :
    (db : Db) (ids : List ℕ) (p : ℕ) → choose_primary db ids ≡ some p → elem p ids ≡ true
unfolding choose_primary id_in
elem-choose_primary db ids p e =
    head (sort (better db) (filter (id_in ids) db.contents))
      (sort-All (better db) (λ c. elem c.id ids ≡ true) _
        (filter-each (λ c. Unit {0}) (λ c. elem c.id ids ≡ true) (id_in ids) db.contents
          (λ c u h. h) (trivial db.contents)))
      e
  where
    head :
        (cs : List ContentRow)
        → All (λ c. elem c.id ids ≡ true) cs
        → elim cs [ [] ↦ none | c ∷ rest ↦ some c.id ] ≡ some p
        → elem p ids ≡ true
    head [] h q = cc
    head (c ∷ cs) h q = subst (λ n. elem n ids ≡ true) (some-injective _ _ q) h.0

module _ {ℓ} {A B : Type ℓ} where
  pub any-map :
      (q : B → Bool) (r : A → Bool) (f : A → B) (xs : List A)
      → All (λ x. q (f x) ≡ r x) xs
      → any q (map f xs) ≡ any r xs
  any-map q r f [] h = refl
  any-map q r f (x ∷ xs) h = ground (arith, h.0, any-map q r f xs h.1)

  pub count-map :
      (q : B → Bool) (r : A → Bool) (f : A → B) (xs : List A)
      → All (λ x. q (f x) ≡ r x) xs
      → count_where q (map f xs) ≡ count_where r xs
  unfolding count_where
  count-map q r f [] h = refl
  count-map q r f (x ∷ xs) h = ground (arith, h.0, count-map q r f xs h.1)

module _ (member : ContentRow → Bool) (group primary : ℕ) (text : String) where
  -- What becomes of a row when the members enter the group and one of them becomes primary.
  pub settle : ContentRow → ContentRow
  unfolding has_id enter_group make_primary set_search_text
  settle c =
      let moved = if member c then enter_group group c else c in
      if has_id primary c then set_search_text text (make_primary moved) else moved

  pub settle-id : (c : ContentRow) → (settle c).id ≡ c.id
  unfolding settle
  settle-id c = ground arith

  pub settle-group :
      (c : ContentRow)
      → (settle c).duplicate_group_id ≡ (if member c then some group else c.duplicate_group_id)
  unfolding settle
  settle-group c = ground arith

  pub settle-primary :
      (c : ContentRow)
      → (settle c).duplicate_primary
        ≡ (if c.id == primary then true else if member c then false else c.duplicate_primary)
  unfolding settle
  settle-primary c = ground arith

  -- The three updates of the code come to this function.
  pub updates-settle :
      (ids : List ℕ) (cs : List ContentRow)
      → All (λ c. elem c.id ids ≡ member c) cs
      → update_where (has_id primary) (set_search_text text) (
          update_where
            (has_id primary)
            make_primary
            (update_where (id_in ids) (enter_group group) cs))
        ≡ map settle cs
  unfolding update_where settle id_in
  updates-settle ids [] h = refl
  updates-settle ids (c ∷ cs) h = ground (arith, h.0, updates-settle ids cs h.1)
