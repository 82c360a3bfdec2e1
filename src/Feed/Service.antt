-- ===== src/Feed/Service.antt =====
-- `readFeed` of apps/web/src/lib/feed/feed-service.ts in the modes of the database (for-you is
-- answered from another query), with `ratingsFor`. A page shows the rows themselves.
use Prim.Native.String.{String}
use text.Mathlib.Text.{◌==◌ as str_eq}
use mirth_spool.Base.{
  ℕ, ◌+◌, ◌-◌, min, Bool, true, false, not, ◌&&◌, ◌||◌, Option, none, some, List, [], ◌∷◌, ◌++◌,
  ltb, ◌==◌, if◌then◌else◌, take, length,
}
use mirth_spool.Db.{ContentRating, MediaKind}
use mirth_spool.Feed.Query.{FeedMode, FeedRow, FeedPosition, FeedQuery, QueryPage, query_feed}
use mirth_spool.Feed.Cursor.{FeedCursor, Codec, encode_feed_cursor, decode_feed_cursor}

-- What parseFeedQuery returns, but for the cursor.
pub record FeedRequest : Type 0 where
  pub fingerprint : String
  pub from : Option ℕ
  pub include_seen : Bool
  pub kinds : List MediaKind
  pub limit : ℕ
  pub mode : FeedMode
  pub rating : Option String
  pub seed : Option String
  pub source_ids : List ℕ
  pub tags : List String
  pub to : Option ℕ

-- The secret, the settings and preferences, the user, a new random seed, and the rows.
pub record FeedServices : Type 0 where
  pub codec : Codec
  pub secret : String
  pub maximum_rating : String
  pub maximum_content_rating : String
  pub history_enabled : Bool
  pub user_id : ℕ
  pub fresh_seed : String
  pub random_seed_pivot : String → ℕ
  pub database : List FeedRow

pub record FeedPage : Type 0 where
  pub has_more : Bool
  pub items : List FeedRow
  pub next_cursor : Option String
  pub seed : Option String

unfoldable pub all_ratings : List ContentRating
all_ratings =
    ContentRating.safe ∷ ContentRating.sensitive ∷ ContentRating.adult ∷ ContentRating.unknown ∷ []

unfoldable pub level_of : String → ℕ
level_of s =
    if str_eq s "SENSITIVE"
    then 1
    else if str_eq s "ADULT"
    then 2
    else if str_eq s "UNKNOWN"
    then 3
    else 0

unfoldable pub requested_level : ℕ → Option String → ℕ
requested_level maximum none = maximum
requested_level maximum (some s) =
    if str_eq s "safe"
    then 0
    else if str_eq s "sensitive"
    then 1
    else if str_eq s "adult"
    then 2
    else maximum

unfoldable pub ratings_for : String → Option String → String → List ContentRating
unfolding all_ratings level_of requested_level
ratings_for ceiling requested user_ceiling =
    let maximum = min (level_of ceiling) (level_of user_ceiling) in
    take (min maximum (requested_level maximum requested) + 1) all_ratings

unfoldable pub is_random : FeedMode → Bool
is_random FeedMode.random = true
is_random _ = false

unfoldable pub is_hot : FeedMode → Bool
is_hot FeedMode.hot = true
is_hot _ = false

unfoldable pub same_mode : FeedMode → FeedMode → Bool
same_mode FeedMode.hot FeedMode.hot = true
same_mode FeedMode.newest FeedMode.newest = true
same_mode FeedMode.random FeedMode.random = true
same_mode FeedMode.unseen FeedMode.unseen = true
same_mode _ _ = false

same_text : Option String → String → Bool
same_text none s = false
same_text (some t) s = str_eq t s

cursor_mode : Option FeedMode → FeedMode → Bool
unfolding same_mode
cursor_mode none m = false
cursor_mode (some n) m = same_mode n m

-- The cursor belongs to the query: its mode, its filters and its seed.
unfoldable pub belongs : FeedRequest → FeedCursor → Bool
unfolding cursor_mode same_text
belongs request c =
    cursor_mode c.m request.mode
    && str_eq c.f request.fingerprint
    && elim request.seed [ none ↦ true | some s ↦ same_text c.seed s ]

unfoldable pub seed_of : FeedServices → FeedRequest → Option FeedCursor → Option String
unfolding is_random
seed_of services request c =
    if is_random request.mode
    then elim request.seed [
      | some s ↦ some s
      | none ↦ elim c [
        | none ↦ some services.fresh_seed
        | some d ↦ elim d.seed [ none ↦ some services.fresh_seed | some s ↦ some s ]
      ]
    ]
    else none

unfoldable pub position_of : FeedCursor → FeedPosition
position_of c = record { id = c.i; published_at = c.p; random_key = c.r; ranking_score = c.s }

unfoldable pub wrapped_of : Option FeedCursor → Bool
wrapped_of none = false
wrapped_of (some c) = elim c.w [ none ↦ false | some w ↦ w ]

unfoldable pub position_at : Option FeedCursor → Option FeedPosition
unfolding position_of
position_at none = none
position_at (some c) = some (position_of c)

unfoldable pub pivot_of : FeedServices → Option String → Option ℕ
pivot_of services none = none
pivot_of services (some seed) = some (services.random_seed_pivot seed)

unfoldable pub base_query :
    FeedServices → FeedRequest → Option String → Option FeedCursor → FeedQuery
unfolding ratings_for position_at wrapped_of pivot_of
base_query services request seed c = record {
  allowed_ratings =
      ratings_for services.maximum_rating request.rating services.maximum_content_rating;
  from = request.from;
  include_seen = request.include_seen || not services.history_enabled;
  limit = request.limit;
  media_kinds = request.kinds;
  mode = request.mode;
  position = position_at c;
  random_pivot = pivot_of services seed;
  random_wrapped = wrapped_of c;
  source_ids = request.source_ids;
  tags = request.tags;
  to = request.to;
  user_id = services.user_id;
}

-- The rows of a page, whether there are more, and whether the random order was wrapped around.
pub record Filled : Type 0 where
  pub rows : List FeedRow
  pub has_more : Bool
  pub wrapped : Bool

unfoldable pub wrapped_query : FeedQuery → ℕ → FeedQuery
wrapped_query q limit = record q { limit = limit; position = none; random_wrapped = true }

unfoldable pub add_second : List FeedRow → Option QueryPage → Option Filled
add_second rows none = none
add_second rows (some second) =
    some (record { rows = rows ++ second.rows; has_more = second.has_more; wrapped = true })

unfoldable pub add_probe : List FeedRow → Option QueryPage → Option Filled
add_probe rows none = none
add_probe rows (some probe) =
    some (record { rows = rows; has_more = not (length probe.rows == 0); wrapped = false })

-- what the random order adds to a page: a second query from the beginning, or a probe of one row
unfoldable pub fill : FeedQuery → Bool → List FeedRow → QueryPage → Option Filled
unfolding add_second add_probe is_random
fill q wrapped db page =
    let n = length page.rows in
    if is_random q.mode && ltb n q.limit && not wrapped
    then add_second page.rows (query_feed (wrapped_query q (q.limit - n)) db)
    else if is_random q.mode && not wrapped && not page.has_more && n == q.limit
    then add_probe page.rows (query_feed (wrapped_query q 1) db)
    else some (record { rows = page.rows; has_more = page.has_more; wrapped = wrapped })

unfoldable pub last_of {ℓ} : {A : Type ℓ} → List A → Option A
last_of [] = none
last_of (x ∷ []) = some x
last_of (x ∷ y ∷ xs) = last_of (y ∷ xs)

unfoldable pub cursor_at : FeedRequest → Option String → Bool → FeedRow → FeedCursor
unfolding is_hot is_random
cursor_at request seed wrapped last = record {
  f = request.fingerprint;
  i = last.id;
  m = some request.mode;
  a = none;
  p = if is_random request.mode then none else some last.published_at;
  q = none;
  r = if is_random request.mode then some last.random_key else none;
  s = if is_hot request.mode then some last.ranking_score else none;
  seed = if is_random request.mode then seed else none;
  sv = none;
  w = if is_random request.mode then some wrapped else none;
}

unfoldable pub next_cursor_of : FeedServices → FeedRequest → Option String → Filled → Option String
unfolding last_of cursor_at encode_feed_cursor
next_cursor_of services request seed page = elim (last_of page.rows) [
  | none ↦ none
  | some last ↦
      if page.has_more
      then some (
          encode_feed_cursor services.codec (cursor_at request seed page.wrapped last)
            services.secret)
      else none
]

unfoldable pub present :
    FeedServices → FeedRequest → Option String → Option Filled → Option FeedPage
unfolding next_cursor_of
present services request seed none = none
present services request seed (some page) = some (record {
  has_more = page.has_more;
  items = page.rows;
  next_cursor = next_cursor_of services request seed page;
  seed = seed;
})

unfoldable pub filled : FeedQuery → Bool → List FeedRow → Option QueryPage → Option Filled
unfolding fill
filled q wrapped db none = none
filled q wrapped db (some page) = fill q wrapped db page

unfoldable pub read_page : FeedServices → FeedRequest → Option FeedCursor → Option FeedPage
unfolding seed_of base_query present query_feed filled wrapped_of
read_page services request c =
    let seed = seed_of services request c in
    let q = base_query services request seed c in
    present services request seed
      (filled q (wrapped_of c) services.database (query_feed q services.database))

unfoldable pub from_cursor : FeedServices → FeedRequest → Option FeedCursor → Option FeedPage
unfolding belongs read_page
from_cursor services request none = none
from_cursor services request (some c) =
    if belongs request c then read_page services request (some c) else none

-- The request with its cursor; `none` is an error that was thrown.
unfoldable pub read_feed : FeedServices → FeedRequest → Option String → Option FeedPage
unfolding from_cursor decode_feed_cursor
read_feed services request none = read_page services request none
read_feed services request (some text) =
    from_cursor services request (decode_feed_cursor services.codec text services.secret)
