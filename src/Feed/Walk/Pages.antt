-- ===== src/Feed/Walk/Pages.antt =====
-- What a page shows: the next rows of its part, and in the random order rows of the second part when
-- the first is at its end.
use mirth_spool.Base.{
  ℕ, ◌-◌, ◌≤◌, ◌<◌, ◌≡◌, refl, ap, ◌∙◌, Bool, true, false, not, Option, some, List, [], ◌∷◌, ◌++◌,
  arith, ltb, ◌==◌, take, length,
}
use mirth_spool.Feed.Query.{
  FeedRow, FeedQuery, QueryPage, query_feed, feed_where, is_eligible, position_where,
  random_position,
}
use mirth_spool.Feed.Cursor.{FeedCursor}
use mirth_spool.Feed.Service.{
  FeedServices, FeedRequest, is_random, base_query, fill, filled, present, read_page, seed_of,
  wrapped_of, wrapped_query, add_second, add_probe,
}
use mirth_spool.Feed.Parts.{rows_of}
use mirth_spool.Feed.Walk.{IsParsed, page_of, feed_seed, query_feed_rows}
use mirth_spool.Feed.Walk.Turns.{part, take-all}
use mirth_spool.Feed.Walk.Plain.{IsPlain, query_page, fill-plain}

module _ (services : FeedServices) (request : FeedRequest) where
  abbrev at_cursor : Option FeedCursor → FeedQuery
  at_cursor c = base_query services request (feed_seed services request) c

  queried :
      (c : Option FeedCursor) (rest : List FeedRow)
      → IsParsed request (feed_seed services request)
      → rows_of services.database (at_cursor c) ≡ rest
      → query_feed (at_cursor c) services.database ≡ some (query_page request rest)
  unfolding base_query
  queried c rest parsed e =
      query_feed_rows (at_cursor c) services.database parsed.at_least parsed.at_most
      ∙ ap (λ r. some (query_page request r)) e

  second_query :
      (c : Option FeedCursor) (n : ℕ)
      → 1 ≤ n
      → n ≤ 50
      → query_feed (wrapped_query (at_cursor c) n) services.database
        ≡ some (record {
          rows = take n (part services request true);
          has_more = ltb n (length (part services request true));
        })
  unfolding wrapped_query base_query feed_where is_eligible position_where random_position
  second_query c n low high =
      query_feed_rows (wrapped_query (at_cursor c) n) services.database low high

  one_row : (rows : List FeedRow) → (length (take 1 rows) == 0) ≡ (length rows == 0)
  one_row [] = refl
  one_row (x ∷ rows) = ground arith

  abbrev ended_page : List FeedRow → QueryPage
  ended_page rest = record { rows = rest; has_more = false }

  ended :
      (rest : List FeedRow)
      → length rest ≤ request.limit
      → query_page request rest ≡ ended_page rest
  ended rest e =
      let all : take request.limit rest ≡ rest = take-all request.limit rest e in
      let no_more : ltb request.limit (length rest) ≡ false = ground (arith, e) in
      rw (all, no_more) refl

  probed :
      (c : Option FeedCursor) (rest : List FeedRow)
      → IsParsed request (feed_seed services request)
      → is_random request.mode ≡ true
      → length rest ≡ request.limit
      → fill (at_cursor c) false services.database (query_page request rest)
        ≡ some (record {
          rows = rest;
          has_more = not (length (part services request true) == 0);
          wrapped = false;
        })
  unfolding fill base_query
  probed c rest parsed random e =
      let not_short : ltb (length rest) request.limit ≡ false = ground (arith, e) in
      let exact : (length rest == request.limit) ≡ true = ground (arith, e) in
      let filled_page : fill (at_cursor c) false services.database (ended_page rest)
          ≡ some (record {
            rows = rest;
            has_more = not (length (part services request true) == 0);
            wrapped = false;
          }) =
        rw
          (
            random,
            not_short,
            exact,
            second_query c 1 (omega arith) (omega arith),
            add_probe,
            one_row (part services request true),
          )
          refl in
      ap (fill (at_cursor c) false services.database) (ended rest (omega (arith, e))) ∙ filled_page

  seconded :
      (c : Option FeedCursor) (rest : List FeedRow)
      → IsParsed request (feed_seed services request)
      → is_random request.mode ≡ true
      → length rest < request.limit
      → fill (at_cursor c) false services.database (query_page request rest)
        ≡ some (record {
          rows = rest ++ take (request.limit - length rest) (part services request true);
          has_more = ltb (request.limit - length rest) (length (part services request true));
          wrapped = true;
        })
  unfolding fill base_query
  seconded c rest parsed random e =
      let short : ltb (length rest) request.limit ≡ true = ground (arith, e) in
      let filled_page : fill (at_cursor c) false services.database (ended_page rest)
          ≡ some (record {
            rows = rest ++ take (request.limit - length rest) (part services request true);
            has_more = ltb (request.limit - length rest) (length (part services request true));
            wrapped = true;
          }) =
        rw
          (
            random,
            short,
            second_query c (request.limit - length rest) (omega (arith, e))
                (omega (arith, parsed.at_most)),
            add_second,
          )
          refl in
      ap (fill (at_cursor c) false services.database) (ended rest (omega (arith, e))) ∙ filled_page

  read_page-fill :
      (c : Option FeedCursor) (w : Bool) (rest : List FeedRow)
      → IsParsed request (feed_seed services request)
      → seed_of services request c ≡ feed_seed services request
      → wrapped_of c ≡ w
      → rows_of services.database (at_cursor c) ≡ rest
      → read_page services request c
        ≡ present services request
            (feed_seed services request)
            (fill (at_cursor c) w services.database (query_page request rest))
  unfolding read_page filled
  read_page-fill c w rest parsed seed wrapped rows =
      let db = services.database in
      let fs = feed_seed services request in
      let q = at_cursor c in
      ap
        (λ s. present services request s (
          filled (base_query services request s c) (wrapped_of c) db
            (query_feed (base_query services request s c) db)))
        seed
      ∙ ap (λ r. present services request fs (filled q (wrapped_of c) db r))
          (queried c rest parsed rows)
      ∙ ap (λ v. present services request fs (fill q v db (query_page request rest))) wrapped

  pub read_page-plain :
      (c : Option FeedCursor) (w : Bool) (rest : List FeedRow)
      → IsParsed request (feed_seed services request)
      → seed_of services request c ≡ feed_seed services request
      → wrapped_of c ≡ w
      → rows_of services.database (at_cursor c) ≡ rest
      → IsPlain request w rest
      → read_page services request c
        ≡ some
            (page_of services request w (take request.limit rest) (ltb request.limit (length rest)))
  unfolding present base_query
  read_page-plain c w rest parsed seed wrapped rows plain =
      read_page-fill c w rest parsed seed wrapped rows
      ∙ ap (present services request (feed_seed services request))
          (fill-plain request (at_cursor c) services.database w rest refl refl plain)

  -- The first part ends with a full page: the second part is asked for one row.
  pub read_page-probe :
      (c : Option FeedCursor) (rest : List FeedRow)
      → IsParsed request (feed_seed services request)
      → seed_of services request c ≡ feed_seed services request
      → wrapped_of c ≡ false
      → rows_of services.database (at_cursor c) ≡ rest
      → is_random request.mode ≡ true
      → length rest ≡ request.limit
      → read_page services request c
        ≡ some
            (page_of services request false rest (not (length (part services request true) == 0)))
  unfolding present
  read_page-probe c rest parsed seed wrapped rows random e =
      read_page-fill c false rest parsed seed wrapped rows
      ∙ ap (present services request (feed_seed services request)) (probed c rest parsed random e)

  -- The first part ends within the page: the second part fills it.
  pub read_page-second :
      (c : Option FeedCursor) (rest : List FeedRow)
      → IsParsed request (feed_seed services request)
      → seed_of services request c ≡ feed_seed services request
      → wrapped_of c ≡ false
      → rows_of services.database (at_cursor c) ≡ rest
      → is_random request.mode ≡ true
      → length rest < request.limit
      → read_page services request c
        ≡ some (
            page_of services request true
              (rest ++ take (request.limit - length rest) (part services request true))
              (ltb (request.limit - length rest) (length (part services request true))))
  unfolding present
  read_page-second c rest parsed seed wrapped rows random e =
      read_page-fill c false rest parsed seed wrapped rows
      ∙ ap (present services request (feed_seed services request)) (seconded c rest parsed random e)
