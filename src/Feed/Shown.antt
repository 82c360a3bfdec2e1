-- ===== src/Feed/Shown.antt =====
-- Which rows a page may show.
use Prim.Native.String.{String}
use mathlib.Core.Option.{some-injective}
use mirth_spool.Base.{
  ℕ, zero, suc, ◌+◌, ◌-◌, ◌≤◌, ◌<◌, ◌≡◌, refl, subst, Bool, true, false, not, ◌&&◌, Option, none,
  some, List, arith, min, length, leb, ltb, ◌==◌, any, All, All-append, elem, take, Bool-cases,
  Option-cases, inl, inr,
}
use mirth_spool.Base.Each.{each, take-each, filter-each, trivial}
use mirth_spool.Base.Sort.{sort-All}
use mirth_spool.Db.{ContentRating}
use mirth_spool.MediaCache.Rows.{is_active, same_rating}
use mirth_spool.Feed.Query.{
  FeedRow, FeedQuery, QueryPage, is_eligible, feed_where, order_for, query_feed,
}
use mirth_spool.Feed.Cursor.{FeedCursor, decode_feed_cursor}
use mirth_spool.Feed.Service.{
  FeedServices, FeedRequest, FeedPage, Filled, level_of, requested_level, ratings_for, all_ratings,
  base_query, wrapped_query, add_second, add_probe, fill, filled, present, read_page, from_cursor,
  read_feed, seed_of, wrapped_of, is_random, belongs,
}

unfoldable pub rating_level : ContentRating → ℕ
rating_level ContentRating.safe = 0
rating_level ContentRating.sensitive = 1
rating_level ContentRating.adult = 2
rating_level ContentRating.unknown = 3

rated_below :
    (k : ℕ) (r : ContentRating)
    → any (same_rating r) (take k all_ratings) ≡ true
    → rating_level r < k
unfolding all_ratings same_rating rating_level
rated_below zero r h = cc h
rated_below (suc k) ContentRating.safe h = omega arith
rated_below (suc zero) ContentRating.sensitive h = cc h
rated_below (suc (suc k)) ContentRating.sensitive h = omega arith
rated_below (suc zero) ContentRating.adult h = cc h
rated_below (suc (suc zero)) ContentRating.adult h = cc h
rated_below (suc (suc (suc k))) ContentRating.adult h = omega arith
rated_below (suc zero) ContentRating.unknown h = cc h
rated_below (suc (suc zero)) ContentRating.unknown h = cc h
rated_below (suc (suc (suc zero))) ContentRating.unknown h = cc h
rated_below (suc (suc (suc (suc k)))) ContentRating.unknown h = omega arith

-- A row that the user may see: primary and active, not hidden, and rated within both maximums.
pub record IsShown (services : FeedServices) (r : FeedRow) : Type 0 where
  pub active : is_active r.status ≡ true
  pub primary : r.duplicate_primary ≡ true
  pub kept : elem services.user_id r.hidden_by ≡ false
  pub allowed : rating_level r.content_rating ≤ level_of services.maximum_rating
  pub preferred : rating_level r.content_rating ≤ level_of services.maximum_content_rating

is_eligible_facts :
    (q : FeedQuery) (r : FeedRow)
    → is_eligible q r ≡ true
    → (is_active r.status ≡ true)
      × (r.duplicate_primary ≡ true)
      × (any (same_rating r.content_rating) q.allowed_ratings ≡ true)
      × (elem q.user_id r.hidden_by ≡ false)
unfolding is_eligible
is_eligible_facts q r h = elim (Bool-cases (is_active r.status)) [
  | inr e ↦ cc (rw e at h)
  | inl active ↦ elim (Bool-cases r.duplicate_primary) [
    | inr e ↦ cc (rw (active, e) at h)
    | inl primary ↦ elim (Bool-cases (any (same_rating r.content_rating) q.allowed_ratings)) [
      | inr e ↦ cc (rw (active, primary, e) at h)
      | inl rated ↦ elim (Bool-cases (elem q.user_id r.hidden_by)) [
        | inl e ↦ cc (rw (active, primary, rated, e) at h)
        | inr kept ↦ (active, primary, rated, kept)
      ]
    ]
  ]
]

ratings_for_below :
    (ceiling user_ceiling : String) (requested : Option String) (r : ContentRating)
    → any (same_rating r) (ratings_for ceiling requested user_ceiling) ≡ true
    → (rating_level r ≤ level_of ceiling) × (rating_level r ≤ level_of user_ceiling)
unfolding ratings_for
ratings_for_below ceiling user_ceiling requested r h =
    let maximum = min (level_of ceiling) (level_of user_ceiling) in
    let below = rated_below (min maximum (requested_level maximum requested) + 1) r h in
    (omega (arith, below), omega (arith, below))

-- What a page of a query keeps.
abbrev AreEligible : FeedQuery → List FeedRow → Type 0
AreEligible q rows = All (λ r. is_eligible q r ≡ true) rows

query_feed-eligible :
    (q : FeedQuery) (db : List FeedRow) (page : QueryPage)
    → query_feed q db ≡ some page
    → AreEligible q page.rows
unfolding query_feed feed_where
query_feed-eligible q db page e = elim (Bool-cases (leb 1 q.limit && leb q.limit 50)) [
  | inr bad ↦ cc (rw bad at e)
  | inl good ↦
      let all =
        sort-All (order_for q.mode) (λ r. is_eligible q r ≡ true) _
          (filter-each (λ r. Unit {0}) (λ r. is_eligible q r ≡ true) (feed_where q) db
            (λ r u h. and_left _ _ h) (trivial db)) in
      subst (λ (p : QueryPage). AreEligible q p.rows) (some-injective _ _ (rw good at e))
        (take-each _ q.limit _ (take-each _ (suc q.limit) _ all))
]
  where
    and_left : (a b : Bool) → (a && b) ≡ true → a ≡ true
    and_left true b h = refl
    and_left false b h = cc h

second-eligible :
    (q : FeedQuery) (rows : List FeedRow) (answer : Option QueryPage) (out : Filled)
    → AreEligible q rows
    → ((page : QueryPage) → answer ≡ some page → AreEligible q page.rows)
    → add_second rows answer ≡ some out
    → AreEligible q out.rows
unfolding add_second
second-eligible q rows none out h k e = cc e
second-eligible q rows (some page) out h k e =
    subst (λ (o : Filled). AreEligible q o.rows) (some-injective _ _ e)
      (All-append _ rows page.rows h (k page refl))

probe-eligible :
    (q : FeedQuery) (rows : List FeedRow) (answer : Option QueryPage) (out : Filled)
    → AreEligible q rows
    → add_probe rows answer ≡ some out
    → AreEligible q out.rows
unfolding add_probe
probe-eligible q rows none out h e = cc e
probe-eligible q rows (some page) out h e =
    subst (λ (o : Filled). AreEligible q o.rows) (some-injective _ _ e) h

fill-eligible :
    (q : FeedQuery) (w : Bool) (db : List FeedRow) (page : QueryPage) (out : Filled)
    → AreEligible q page.rows
    → fill q w db page ≡ some out
    → AreEligible q out.rows
unfolding fill is_eligible wrapped_query
fill-eligible q w db page out h e =
    elim (Bool-cases (is_random q.mode && ltb (length page.rows) q.limit && not w)) [
      | inl short ↦
          second-eligible q page.rows _ out h
            (λ p k. query_feed-eligible (wrapped_query q (q.limit - length page.rows)) db p k)
            (rw short at e)
      | inr long ↦
          elim (Bool-cases
            (is_random q.mode && not w && not page.has_more && length page.rows == q.limit)) [
              | inl exact ↦ probe-eligible q page.rows _ out h (rw (long, exact) at e)
              | inr plain ↦
                  subst (λ (o : Filled). AreEligible q o.rows)
                    (some-injective _ _ (rw (long, plain) at e)) h
            ]
    ]

filled-eligible :
    (q : FeedQuery) (w : Bool) (db : List FeedRow) (out : Filled)
    → filled q w db (query_feed q db) ≡ some out
    → AreEligible q out.rows
unfolding filled
filled-eligible q w db out e = elim (Option-cases (query_feed q db)) [
  | inl k ↦ cc (rw k at e)
  | inr (page, k) ↦ fill-eligible q w db page out (query_feed-eligible q db page k) (rw k at e)
]

eligible-IsShown :
    (services : FeedServices) (request : FeedRequest) (seed : Option String) (c : Option FeedCursor)
    (r : FeedRow)
    → is_eligible (base_query services request seed c) r ≡ true
    → IsShown services r
unfolding base_query
eligible-IsShown services request seed c r h =
    let (active, primary, rated, kept) =
      is_eligible_facts (base_query services request seed c) r h in
    let (allowed, preferred) =
      ratings_for_below services.maximum_rating services.maximum_content_rating request.rating
        r.content_rating rated in
    record {
      active = active;
      primary = primary;
      kept = kept;
      allowed = allowed;
      preferred = preferred;
    }

presented :
    (services : FeedServices) (request : FeedRequest) (seed : Option String) (out : Option Filled)
    (page : FeedPage) (P : List FeedRow → Type 0)
    → ((o : Filled) → out ≡ some o → P o.rows)
    → present services request seed out ≡ some page
    → P page.items
unfolding present
presented services request seed none page P h e = cc e
presented services request seed (some out) page P h e =
    subst (λ (p : FeedPage). P p.items) (some-injective _ _ e) (h out refl)

read_page-IsShown :
    (services : FeedServices) (request : FeedRequest) (c : Option FeedCursor) (page : FeedPage)
    → read_page services request c ≡ some page
    → All (IsShown services) page.items
unfolding read_page
read_page-IsShown services request c page e =
    let seed = seed_of services request c in
    presented services request seed _ page (All (IsShown services))
      (λ out k.
        each _ _ out.rows (λ r h. eligible-IsShown services request seed c r h)
          (filled-eligible (base_query services request seed c) (wrapped_of c) services.database out
            k))
      e

-- Whatever cursor is sent, forged ones included, a page that is answered shows only rows that are
-- active, the primary one of their duplicates and not hidden by the user, with a rating within the
-- maximum of the site and that of the user: what the request asks for does not matter.
pub read_feed-IsShown :
    (services : FeedServices) (request : FeedRequest) (cursor : Option String) (page : FeedPage)
    → read_feed services request cursor ≡ some page
    → All (IsShown services) page.items
unfolding read_feed from_cursor
read_feed-IsShown services request none page e = read_page-IsShown services request none page e
read_feed-IsShown services request (some text) page e =
    elim (Option-cases (decode_feed_cursor services.codec text services.secret)) [
      | inl k ↦ cc (rw k at e)
      | inr (c, k) ↦ elim (Bool-cases (belongs request c)) [
        | inl own ↦ read_page-IsShown services request (some c) page (rw (k, own, from_cursor) at e)
        | inr other ↦ cc (rw (k, other, from_cursor) at e)
      ]
    ]
