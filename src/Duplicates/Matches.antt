-- ===== src/Duplicates/Matches.antt =====
-- `findDuplicateMatches` of packages/db/src/repositories/duplicates.ts: the candidates by canonical
-- URL, by digest and by perceptual hash, the stronger reason first.
pub mod Full
pub mod Found
use Prim.Native.String.{String}
use text.Mathlib.Text.{◌==◌ as str_eq}
use mirth_spool.Base.{
  ℕ, ◌+◌, ◌-◌, max, Bool, true, false, not, ◌&&◌, ◌||◌, Option, none, some, List, [], ◌∷◌, ◌++◌,
  leb, ltb, ◌==◌, if◌then◌else◌, find, filter, any, take, length, map,
}
use mirth_spool.Base.Sort.{sort}
use mirth_spool.Base.Double.{Double, DoubleOps}
use mirth_spool.Base.Int.{pos}
use mirth_spool.Db.{ContentStatus, MediaKind, DuplicateReason, is_suppressed}
use mirth_spool.Deduplication.Hash.{hamming_distance, within_dimension_tolerance, tolerance}
use mirth_spool.Ingestion.Rows.{ContentRow, MediaInput, MediaRow, Db}

pub record Match : Type 0 where
  pub content_id : ℕ
  pub distance : Option ℕ
  pub reason : DuplicateReason

-- The orders of a query by columns of the media that the rows leave out: { id: "asc" } and
-- [{ createdAt: "desc" }, { id: "asc" }]. They are the arguments of a sort.
pub record MediaOrders : Type 0 where
  pub by_identifier : MediaRow → MediaRow → Bool
  pub newest_first : MediaRow → MediaRow → Bool

unfoldable pub reason_weight : DuplicateReason → ℕ
reason_weight DuplicateReason.sha256 = 4
reason_weight DuplicateReason.manual = 3
reason_weight DuplicateReason.canonical_url = 2
reason_weight DuplicateReason.perceptual_hash = 1

pub is_match_of : ℕ → Match → Bool
is_match_of id m = m.content_id == id

-- matches.set(id, match) for an identifier that is there: its place is kept.
replace_match : Match → List Match → List Match
replace_match m [] = []
replace_match m (x ∷ xs) =
    let rest = replace_match m xs in if x.content_id == m.content_id then m ∷ xs else x ∷ rest

-- `matches` is a Map: its entries in the order in which their keys were first set.
pub add : ℕ → ℕ → Match → List Match → List Match
unfolding is_match_of replace_match reason_weight
add target maximum m matches =
    if m.content_id == target || leb maximum (length matches)
    then matches
    else (elim (find (is_match_of m.content_id) matches) [
      | none ↦ matches ++ m ∷ []
      | some current ↦
          if ltb (reason_weight current.reason) (reason_weight m.reason)
          then replace_match m matches
          else matches
    ])

pub add_all : ℕ → ℕ → List Match → List Match → List Match
unfolding add
add_all target maximum [] matches = matches
add_all target maximum (m ∷ ms) matches = add_all target maximum ms (add target maximum m matches)

by_id : ContentRow → ContentRow → Bool
by_id a b = leb a.id b.id

-- where: { id, status: { not: "SUPPRESSED" } }
pub is_shown : ℕ → ContentRow → Bool
is_shown id c = c.id == id && not (is_suppressed c.status)

is_shown_item : List ContentRow → ℕ → Bool
unfolding is_shown
is_shown_item contents id = any (is_shown id) contents

same_text : Option String → String → Bool
same_text none s = false
same_text (some t) s = str_eq t s

canonical_match : ContentRow → Match
canonical_match c = record {
  content_id = c.id;
  distance = none;
  reason = DuplicateReason.canonical_url;
}

canonical_matches : Db → ContentRow → ℕ → List Match
unfolding by_id same_text canonical_match
canonical_matches db target maximum = elim target.canonical_url_hash [
  | none ↦ []
  | some hash ↦ map canonical_match (
      take maximum (
        sort by_id (
          filter
            (λ (c : ContentRow).
              same_text c.canonical_url_hash hash
              && not (c.id == target.id)
              && not (is_suppressed c.status))
            db.contents)))
]

has_digest : List String → Option String → Bool
has_digest hashes none = false
has_digest hashes (some s) = any (λ h. str_eq h s) hashes

digests : List MediaRow → List String
digests [] = []
digests (m ∷ ms) = elim m.sha256 [ none ↦ digests ms | some s ↦ s ∷ digests ms ]

-- distinct: ["contentItemId"], of the rows' content items
distinct_ids : List ℕ → List ℕ → List ℕ
distinct_ids seen [] = []
distinct_ids seen (x ∷ xs) =
    let again = distinct_ids seen xs in
    let fresh = distinct_ids (x ∷ seen) xs in if any (λ y. y == x) seen then again else x ∷ fresh

media_of : ℕ → List MediaRow → List MediaRow
media_of id media = filter (λ (m : MediaRow). m.content_item_id == id) media

exact_match : ℕ → Match
exact_match id = record { content_id = id; distance = some 0; reason = DuplicateReason.sha256 }

exact_matches : MediaOrders → Db → ContentRow → ℕ → List Match
unfolding has_digest digests distinct_ids media_of is_shown_item exact_match
exact_matches orders db target maximum =
    let hashes = digests (media_of target.id db.media) in
    map exact_match (
      take maximum (
        distinct_ids [] (
          map (λ (m : MediaRow). m.content_item_id)
            (sort orders.by_identifier (
              filter
                (λ (m : MediaRow).
                  is_shown_item db.contents m.content_item_id
                  && not (m.content_item_id == target.id)
                  && has_digest hashes m.sha256)
                db.media)))))

abbrev is_image : MediaKind → Bool
is_image MediaKind.image = true
is_image _ = false

-- A medium whose hash, width and height are there and not empty.
pub record Hashed : Type 0 where
  pub content_id : ℕ
  pub hash : String
  pub width : ℕ
  pub height : ℕ

present : Option ℕ → Option ℕ
present none = none
present (some n) = if n == 0 then none else some n

hashed : MediaRow → Option Hashed
unfolding present
hashed m =
    if is_image m.asset.kind
    then (elim m.perceptual_hash [
      | none ↦ none
      | some h ↦ elim (present m.asset.width) [
        | none ↦ none
        | some w ↦ elim (present m.asset.height) [
          | none ↦ none
          | some t ↦
              if str_eq h ""
              then none
              else some (record { content_id = m.content_item_id; hash = h; width = w; height = t })
        ]
      ]
    ])
    else none

first_hashed : List MediaRow → Option Hashed
unfolding hashed
first_hashed [] = none
first_hashed (m ∷ ms) = elim (hashed m) [ none ↦ first_hashed ms | some h ↦ some h ]

by_ordinal : MediaRow → MediaRow → Bool
by_ordinal a b = leb a.asset.ordinal b.asset.ordinal

-- gte: side - delta, lte: side + delta
is_near : ℕ → ℕ → Option ℕ → Bool
is_near side delta none = false
is_near side delta (some n) = leb side (n + delta) && leb n (side + delta)

has_hash : MediaRow → Bool
has_hash m = elim m.perceptual_hash [ none ↦ false | some _ ↦ true ]

module _ (doubles : DoubleOps) (orders : MediaOrders) where
  open doubles use {of_ℤ, mul, ceil}

  -- Math.max(1, Math.ceil(side * dimensionTolerance))
  delta : ℕ → ℕ
  unfolding tolerance
  delta side = max 1 (ceil (mul (of_ℤ (pos side)) (tolerance doubles)))

  -- the distance of a candidate that is close enough
  close : Hashed → Hashed → Option ℕ
  close target candidate =
      if within_dimension_tolerance doubles (target.width, target.height)
        (candidate.width, candidate.height)
      then (elim (hamming_distance target.hash candidate.hash) [
        | none ↦ none
        | some d ↦ if leb d 4 then some d else none
      ])
      else none

  perceptual_matches_of : Hashed → List MediaRow → List Match
  unfolding close hashed
  perceptual_matches_of target [] = []
  perceptual_matches_of target (m ∷ ms) =
      let rest = perceptual_matches_of target ms in
      elim (hashed m) [
        | none ↦ rest
        | some candidate ↦ elim (close target candidate) [
          | none ↦ rest
          | some d ↦
              record {
                content_id = candidate.content_id;
                distance = some d;
                reason = DuplicateReason.perceptual_hash;
              }
              ∷ rest
        ]
      ]

  perceptual_matches : Db → ContentRow → ℕ → List Match
  unfolding first_hashed by_ordinal is_near has_hash delta media_of is_shown_item
      perceptual_matches_of
  perceptual_matches db target maximum =
      elim (first_hashed (sort by_ordinal (media_of target.id db.media))) [
        | none ↦ []
        | some p ↦ perceptual_matches_of p (
            take maximum (
              sort orders.newest_first (
                filter
                  (λ (m : MediaRow).
                    is_shown_item db.contents m.content_item_id
                    && not (m.content_item_id == target.id)
                    && is_near p.height (delta p.height) m.asset.height
                    && is_image m.asset.kind
                    && has_hash m
                    && is_near p.width (delta p.width) m.asset.width)
                  db.media)))
      ]

  -- `none` where the source throws. The digests are not asked for once the matches are full.
  unfoldable pub find_duplicate_matches : Db → ℕ → ℕ → Option (List Match)
  unfolding is_shown add_all canonical_matches exact_matches perceptual_matches
  find_duplicate_matches db content_id limit = elim (find (is_shown content_id) db.contents) [
    | none ↦ some []
    | some target ↦
        if leb 1 limit && leb limit 500
        then (let first = add_all target.id limit (canonical_matches db target limit) [] in
            let second =
              if ltb (length first) limit
              then add_all target.id limit (exact_matches orders db target limit) first
              else first in
            some (add_all target.id limit (perceptual_matches db target limit) second))
        else none
  ]
