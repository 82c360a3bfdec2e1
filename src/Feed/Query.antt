-- ===== src/Feed/Query.antt =====
-- packages/db/src/repositories/feed.ts. A row is a content item with what the query reads of its
-- relations. Identifiers and instants are numbers, and a ranking score is the place of its double in
-- the order of the doubles, which is all that the query uses of it.
use Prim.Native.String.{String}
use text.Mathlib.Text.{◌==◌ as str_eq}
use mirth_spool.Base.{
  ℕ, suc, Bool, true, false, not, ◌&&◌, ◌||◌, Option, none, some, List, [], ◌∷◌, leb, ltb, ◌==◌,
  if◌then◌else◌, any, find, filter, take, elem, length,
}
use mirth_spool.Base.Sort.{sort}
use mirth_spool.Db.{ContentStatus, ContentRating, MediaKind}
use mirth_spool.Storage.Policy.{same_kind}
use mirth_spool.MediaCache.Rows.{is_active, same_rating}

pub data FeedMode : Type 0 where
  hot newest random unseen : FeedMode

-- `hidden_by`, `viewed_by` and `favorite_of` list the users with an action of the kind.
pub record FeedRow : Type 0 where
  pub id : ℕ
  pub published_at : ℕ
  pub random_key : ℕ
  pub ranking_score : ℕ
  pub status : ContentStatus
  pub duplicate_primary : Bool
  pub content_rating : ContentRating
  pub hidden_by : List ℕ
  pub viewed_by : List ℕ
  pub favorite_of : List ℕ
  pub source_ids : List ℕ
  pub media_kinds : List MediaKind
  pub tag_slugs : List String

pub record FeedPosition : Type 0 where
  pub id : ℕ
  pub published_at : Option ℕ
  pub random_key : Option ℕ
  pub ranking_score : Option ℕ

pub record FeedQuery : Type 0 where
  pub allowed_ratings : List ContentRating
  pub from : Option ℕ
  pub include_seen : Bool
  pub limit : ℕ
  pub media_kinds : List MediaKind
  pub mode : FeedMode
  pub position : Option FeedPosition
  pub random_pivot : Option ℕ
  pub random_wrapped : Bool
  pub source_ids : List ℕ
  pub tags : List String
  pub to : Option ℕ
  pub user_id : ℕ

pub record QueryPage : Type 0 where
  pub rows : List FeedRow
  pub has_more : Bool

pub is_unseen : FeedMode → Bool
is_unseen FeedMode.unseen = true
is_unseen _ = false

-- an empty list is no condition
matches_any {ℓ} : {A : Type ℓ} → (A → Bool) → List A → Bool
matches_any p [] = true
matches_any p (x ∷ xs) = any p (x ∷ xs)

has_tag : List String → String → Bool
has_tag slugs tag = any (str_eq tag) slugs

since : Option ℕ → ℕ → Bool
since none t = true
since (some from) t = leb from t

until : Option ℕ → ℕ → Bool
until none t = true
until (some to) t = leb t to

-- The conditions that no position takes part in.
unfoldable pub is_eligible : FeedQuery → FeedRow → Bool
unfolding matches_any has_tag since until is_unseen same_rating
is_eligible q r =
    is_active r.status
    && r.duplicate_primary
    && any (same_rating r.content_rating) q.allowed_ratings
    && not (elem q.user_id r.hidden_by)
    && not (is_unseen q.mode && not q.include_seen && elem q.user_id r.viewed_by)
    && since q.from r.published_at
    && until q.to r.published_at
    && matches_any (λ s. elem s r.source_ids) q.source_ids
    && matches_any (λ k. any (same_kind k) r.media_kinds) q.media_kinds
    && matches_any (has_tag r.tag_slugs) q.tags

-- (a, rest) behind (b, rest) in a descending order
unfoldable pub below : ℕ → ℕ → Bool → Bool
below a b rest = ltb a b || (a == b && rest)

unfoldable pub newer_position : FeedPosition → FeedRow → Bool
unfolding below
newer_position p r = elim p.published_at [
  | none ↦ true
  | some at ↦ below r.published_at at (ltb r.id p.id)
]

unfoldable pub hot_position : FeedPosition → FeedRow → Bool
unfolding below
hot_position p r = elim p.published_at [
  | none ↦ true
  | some at ↦ elim p.ranking_score [
    | none ↦ true
    | some score ↦ below r.ranking_score score (below r.published_at at (ltb r.id p.id))
  ]
]

pub or_else : Option ℕ → ℕ → ℕ
or_else none d = d
or_else (some n) d = n

-- The key to go on from; `none` stands for −1.
random_start : FeedQuery → Option ℕ
unfolding or_else
random_start q = elim q.position [
  | none ↦ if q.random_wrapped then none else some (or_else q.random_pivot 0)
  | some p ↦ elim p.random_key [
    | some k ↦ some k
    | none ↦ if q.random_wrapped then none else some (or_else q.random_pivot 0)
  ]
]

is_above : Option ℕ → ℕ → Bool
is_above none n = true
is_above (some k) n = ltb k n

is_at : Option ℕ → ℕ → Bool
is_at none n = false
is_at (some k) n = n == k

unfoldable pub random_position : FeedQuery → FeedRow → Bool
unfolding random_start is_above is_at or_else
random_position q r =
    let key = random_start q in
    if q.random_wrapped
    then (is_above key r.random_key && ltb r.random_key (or_else q.random_pivot 0))
      || elim q.position [ none ↦ false | some p ↦ ltb p.id r.id && is_at key r.random_key ]
    else is_above key r.random_key
      || (elim q.position [ none ↦ true | some p ↦ ltb p.id r.id ] && is_at key r.random_key)

-- The conditions that the position adds.
unfoldable pub position_where : FeedQuery → FeedMode → FeedRow → Bool
unfolding newer_position hot_position random_position
position_where q FeedMode.newest r = elim q.position [ none ↦ true | some p ↦ newer_position p r ]
position_where q FeedMode.unseen r = elim q.position [ none ↦ true | some p ↦ newer_position p r ]
position_where q FeedMode.hot r = elim q.position [ none ↦ true | some p ↦ hot_position p r ]
position_where q FeedMode.random r = random_position q r

unfoldable pub feed_where : FeedQuery → FeedRow → Bool
unfolding is_eligible position_where
feed_where q r = is_eligible q r && position_where q q.mode r

-- ORDER BY: descending columns, or ascending ones
unfoldable pub newest_first : FeedRow → FeedRow → Bool
unfolding below
newest_first a b = below b.published_at a.published_at (leb b.id a.id)

unfoldable pub order_for : FeedMode → FeedRow → FeedRow → Bool
unfolding below newest_first
order_for FeedMode.hot a b = below b.ranking_score a.ranking_score (newest_first a b)
order_for FeedMode.random a b = below a.random_key b.random_key (leb a.id b.id)
order_for FeedMode.newest a b = newest_first a b
order_for FeedMode.unseen a b = newest_first a b

-- A limit outside of 1 to 50 is an error.
unfoldable pub query_feed : FeedQuery → List FeedRow → Option QueryPage
unfolding order_for feed_where
query_feed q db =
    if leb 1 q.limit && leb q.limit 50
    then (let rows = take (suc q.limit) (sort (order_for q.mode) (filter (feed_where q) db)) in
        some (record { rows = take q.limit rows; has_more = ltb q.limit (length rows) }))
    else none

is_readable : List ContentRating → ℕ → ℕ → FeedRow → Bool
unfolding same_rating
is_readable ratings id user r =
    any (same_rating r.content_rating) ratings
    && r.id == id
    && (is_active r.status || elem user r.favorite_of)

unfoldable pub get_feed_content : List ContentRating → ℕ → ℕ → List FeedRow → Option FeedRow
unfolding is_readable
get_feed_content ratings id user db = find (is_readable ratings id user) db
