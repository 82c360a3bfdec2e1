-- ===== src/Duplicates/Matches/Found.antt =====
-- What `findDuplicateMatches` finds.
use mirth_spool.Base.{
  ℕ, ◌≤◌, ◌≡◌, refl, sym, subst, Bool, true, false, not, ◌&&◌, some, List, [], ◌∷◌, arith, ltb,
  le→leb, ◌==◌, if◌then◌else◌, find, any, length, All, Bool-cases, Option-cases, inl, inr,
}
use mirth_spool.Base.Double.{DoubleOps}
use mirth_spool.Base.Sort.{sort, sort-All}
use mirth_spool.Base.Each.{each, take-each, filter-each, map-each, trivial}
use mirth_spool.Base.Table.{count_where, find-some}
use mirth_spool.Db.{is_suppressed}
use mirth_spool.Ingestion.Rows.{ContentRow, MediaRow, Db}
use mirth_spool.Duplicates.Matches.{
  Match, MediaOrders, is_match_of, add_all, is_shown, is_shown_item, canonical_match, by_id,
  canonical_matches, exact_matches, exact_match, distinct_ids, perceptual_matches,
  perceptual_matches_of, hashed, close, find_duplicate_matches, Hashed, first_hashed, by_ordinal,
  media_of,
}
use mirth_spool.Duplicates.Matches.Full.{IsFull, add_all-All, add_all-IsFull}

-- A match is another item than the target, and is not suppressed.
abbrev pub IsOther : List ContentRow → ℕ → Match → Type 0
IsOther contents target m =
    (any (is_shown m.content_id) contents ≡ true) × (m.content_id == target ≡ false)

shown_self :
    (contents : List ContentRow)
    → All (λ c. is_suppressed c.status ≡ false → any (is_shown c.id) contents ≡ true) contents
unfolding is_shown
shown_self [] = tt
shown_self (c ∷ cs) = (
  λ h. ground arith,
  each (λ d. is_suppressed d.status ≡ false → any (is_shown d.id) cs ≡ true)
      (λ d. is_suppressed d.status ≡ false → any (is_shown d.id) (c ∷ cs) ≡ true) cs
      (λ d k h. ground (arith, k h)) (shown_self cs),
)

and_true : (a b : Bool) → (a && b) ≡ true → (a ≡ true) × (b ≡ true)
and_true true true h = (refl, refl)
and_true true false h = cc
and_true false b h = cc

not-true : (a : Bool) → not a ≡ true → a ≡ false
not-true true h = cc
not-true false h = refl

shown-id :
    (id : ℕ) (contents : List ContentRow) (c : ContentRow)
    → find (is_shown id) contents ≡ some c
    → c.id ≡ id
unfolding is_shown
shown-id id contents c e = ground (arith, find-some (is_shown id) contents c e)

hashed-content_id :
    (m : MediaRow) (h : Hashed) → hashed m ≡ some h → h.content_id ≡ m.content_item_id
unfolding hashed
hashed-content_id m h e = ground arith

module _ (orders : MediaOrders) (db : Db) (target : ContentRow) (maximum : ℕ) where
  abbrev Fine : Match → Type 0
  Fine = IsOther db.contents target.id

  abbrev FineId : ℕ → Type 0
  FineId id = (any (is_shown id) db.contents ≡ true) × (id == target.id ≡ false)

  canonical_matches-All : All Fine (canonical_matches db target maximum)
  unfolding canonical_matches canonical_match is_shown_item
  canonical_matches-All = elim (Option-cases target.canonical_url_hash) [
    | inl e ↦ rw (e, canonical_matches) tt
    | inr (hash, e) ↦
        rw (e, canonical_matches)
          (map-each (λ c. FineId c.id) Fine canonical_match _ (λ c h. h)
            (take-each (λ c. FineId c.id) maximum _
              (sort-All by_id (λ c. FineId c.id) _
                (filter-each
                  (λ c. is_suppressed c.status ≡ false → any (is_shown c.id) db.contents ≡ true)
                  (λ c. FineId c.id) _ db.contents
                  (λ c own passes.
                    let (a, b) = and_true _ _ passes in
                    let (s, k) = and_true _ _ a in (own (not-true _ b), not-true _ k))
                  (shown_self db.contents)))))
  ]

  distinct_ids-All : (seen xs : List ℕ) → All FineId xs → All FineId (distinct_ids seen xs)
  unfolding distinct_ids
  distinct_ids-All seen [] h = tt
  distinct_ids-All seen (x ∷ xs) h = elim (Bool-cases (any (λ y. y == x) seen)) [
    | inl e ↦ rw (e, distinct_ids) (distinct_ids-All seen xs h.1)
    | inr e ↦ rw (e, distinct_ids) (h.0, distinct_ids-All (x ∷ seen) xs h.1)
  ]

  exact_matches-All : All Fine (exact_matches orders db target maximum)
  unfolding exact_matches is_shown_item exact_match
  exact_matches-All =
      map-each FineId Fine exact_match _ (λ id h. h)
        (take-each FineId maximum _ (
          distinct_ids-All [] _ (
            map-each (λ (m : MediaRow). FineId m.content_item_id) FineId _ _ (λ m h. h)
              (sort-All orders.by_identifier (λ (m : MediaRow). FineId m.content_item_id) _
                (filter-each (λ (m : MediaRow). Unit {0})
                  (λ (m : MediaRow). FineId m.content_item_id) _ db.media
                  (λ m u passes.
                    let (a, b) = and_true _ _ passes in
                    let (k, d) = and_true _ _ a in (k, not-true _ d))
                  (trivial db.media))))))

  module _ (doubles : DoubleOps) where
    perceptual_matches_of-All :
        (p : Hashed) (ms : List MediaRow)
        → All (λ (m : MediaRow). FineId m.content_item_id) ms
        → All Fine (perceptual_matches_of doubles orders p ms)
    unfolding perceptual_matches_of
    perceptual_matches_of-All p [] h = tt
    perceptual_matches_of-All p (m ∷ ms) h =
        let rest = perceptual_matches_of-All p ms h.1 in
        elim (Option-cases (hashed m)) [
          | inl e ↦ rw (e, perceptual_matches_of) rest
          | inr (candidate, e) ↦ elim (Option-cases (close doubles orders p candidate)) [
            | inl far ↦ rw (e, far, perceptual_matches_of) rest
            | inr (d, near) ↦
                rw (e, near, perceptual_matches_of)
                  (subst FineId (sym (hashed-content_id m candidate e)) h.0, rest)
          ]
        ]

    perceptual_matches-All : All Fine (perceptual_matches doubles orders db target maximum)
    unfolding perceptual_matches is_shown_item
    perceptual_matches-All =
        elim (Option-cases (first_hashed (sort by_ordinal (media_of target.id db.media)))) [
          | inl e ↦ rw (e, perceptual_matches) tt
          | inr (p, e) ↦
              rw (e, perceptual_matches)
                (perceptual_matches_of-All p _ (
                  take-each (λ (m : MediaRow). FineId m.content_item_id) maximum _
                    (sort-All orders.newest_first (λ (m : MediaRow). FineId m.content_item_id) _
                      (filter-each (λ (m : MediaRow). Unit {0})
                        (λ (m : MediaRow). FineId m.content_item_id) _ db.media
                        (λ m u passes.
                          let (k, d) =
                            and_true _ _
                              (and_true _ _
                                (and_true _ _ (and_true _ _ (and_true _ _ passes).0).0).0).0 in
                          (k, not-true _ d))
                        (trivial db.media)))))
        ]

-- The result: not more than the limit, each content item once, and none of them the target or
-- suppressed.
pub record IsFound (db : Db) (content_id limit : ℕ) (ms : List Match) : Type 0 where
  pub size : length ms ≤ limit
  pub once : (id : ℕ) → count_where (is_match_of id) ms ≤ 1
  pub others : All (IsOther db.contents content_id) ms

none_yet : (id : ℕ) → count_where (is_match_of id) [] ≤ 1
unfolding count_where
none_yet id = omega arith

-- For a limit from 1 to 500 the matches of a content item are found: at most so many, every item
-- once, whatever reasons it matches for, and none of them the item itself or a suppressed one.
pub find_duplicate_matches-IsFound :
    (doubles : DoubleOps) (orders : MediaOrders) (db : Db) (content_id limit : ℕ)
    → 1 ≤ limit
    → limit ≤ 500
    → (ms : List Match) × (find_duplicate_matches doubles orders db content_id limit ≡ some ms)
      × IsFound db content_id limit ms
unfolding find_duplicate_matches
find_duplicate_matches-IsFound doubles orders db content_id limit lo hi =
    elim (Option-cases (find (is_shown content_id) db.contents)) [
      | inl e ↦ (
        [],
        rw (e, find_duplicate_matches) refl,
        record { size = omega arith; once = λ id. none_yet id; others = tt },
      )
      | inr (target, e) ↦
          let r = found target in
          (
            r.0,
            rw (e, le→leb _ _ lo, le→leb _ _ hi, find_duplicate_matches) r.1,
            subst (λ n. IsFound db n limit r.0) (shown-id content_id db.contents target e) r.2,
          )
    ]
  where
    all_found :
        (target : ContentRow) (ms : List Match)
        → IsFull target.id limit ms
        → All (IsOther db.contents target.id) ms
        → IsFound db target.id limit ms
    all_found target ms f o = record { size = f.size; once = f.once; others = o }

    collect :
        (target : ContentRow) (cs ms : List Match)
        → All (IsOther db.contents target.id) cs
        → IsFound db target.id limit ms
        → IsFound db target.id limit (add_all target.id limit cs ms)
    collect target cs ms h f =
        all_found target (add_all target.id limit cs ms)
          (add_all-IsFull target.id limit cs ms (record { size = f.size; once = f.once }))
          (add_all-All target.id limit (IsOther db.contents target.id) cs ms
            (each (IsOther db.contents target.id)
              (λ m. m.content_id == target.id ≡ false → IsOther db.contents target.id m) cs
              (λ m k u. k) h)
            f.others)

    second :
        (target : ContentRow) (b : Bool) (ms : List Match)
        → IsFound db target.id limit ms
        → IsFound db target.id limit
            (if b then add_all target.id limit (exact_matches orders db target limit) ms else ms)
    second target true ms f = collect target _ ms (exact_matches-All orders db target limit) f
    second target false ms f = f

    found :
        (target : ContentRow)
        → (ms : List Match) × ((let first =
                add_all target.id limit (canonical_matches db target limit) [] in
              let second =
                if ltb (length first) limit
                then add_all target.id limit (exact_matches orders db target limit) first
                else first in
              some (
                add_all target.id limit (perceptual_matches doubles orders db target limit) second))
            ≡ some ms)
          × IsFound db target.id limit ms
    found target =
        let first =
          collect target (canonical_matches db target limit) []
            (canonical_matches-All orders db target limit)
            (record { size = omega arith; once = none_yet; others = tt }) in
        (
          _,
          refl,
          collect target _ _ (perceptual_matches-All orders db target limit doubles)
              (second target _ _ first),
        )
