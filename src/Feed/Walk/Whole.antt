-- ===== src/Feed/Walk/Whole.antt =====
-- Whoever follows the cursors sees the whole feed.
use Prim.Native.String.{String}
use mirth_spool.Base.{◌≡◌, Bool, true, Option, List, ◌++◌}
use mirth_spool.Base.Strict.{Distinct}
use mirth_spool.Feed.Query.{FeedRow}
use mirth_spool.Feed.Cursor.{FeedCursor}
use mirth_spool.Feed.Service.{
  FeedServices, FeedRequest, is_random, base_query, read_page, read_feed, seed_of, wrapped_of,
}
use mirth_spool.Feed.Orders.{same_id}
use mirth_spool.Feed.Parts.{rows_of}
use mirth_spool.Feed.Walk.{Walk, IsParsed, feed_seed}
use mirth_spool.Feed.Walk.Turns.{part, IsServed}

module _ (services : FeedServices) (request : FeedRequest)
    (parsed : IsParsed request (feed_seed services request)) (served : IsServed services request)
    (distinct : Distinct same_id services.database) where
  -- A cursor, or none, behind which some rows of a part are left.
  record IsAt (text : Option String) (w : Bool) (rest : List FeedRow) : Type 0 where
    cursor : Option FeedCursor
    reads : read_feed services request text ≡ read_page services request cursor
    seed : seed_of services request cursor ≡ feed_seed services request
    wrapped : wrapped_of cursor ≡ w
    rows :
        rows_of services.database (base_query services request (feed_seed services request) cursor)
        ≡ rest
    before : List FeedRow
    split : part services request w ≡ before ++ rest

  module _ (random : is_random request.mode ≡ true) where
    abbrev second : List FeedRow
    second = part services request true
