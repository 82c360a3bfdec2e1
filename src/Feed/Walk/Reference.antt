-- ===== src/Feed/Walk/Reference.antt =====
-- The whole feed as a specification, without positions: the rows that the request may show, by rank.
use mirth_spool.Base.{
  ℕ, ◌≡◌, refl, ap, ◌∙◌, Bool, true, false, none, List, [], ◌∷◌, ◌++◌, arith, leb, ltb, ◌==◌,
  if◌then◌else◌, filter,
}
use mirth_spool.Base.Sort.{sort}
use mirth_spool.Base.Rank.{ranks_before}
use mirth_spool.Feed.Query.{
  FeedMode, FeedRow, below, newest_first, random_position, is_eligible, position_where, feed_where,
  order_for, or_else,
}
use mirth_spool.Feed.Service.{FeedServices, FeedRequest, base_query, is_random, pivot_of}
use mirth_spool.Feed.Walk.{feed_seed}
use mirth_spool.Feed.Walk.Turns.{part}
use mirth_spool.Feed.Parts.{from_start, filter-cong, filter-filter}

-- The columns that order a mode.
unfoldable pub row_rank : FeedMode → FeedRow → List ℕ
row_rank FeedMode.hot r = r.ranking_score ∷ r.published_at ∷ r.id ∷ []
row_rank FeedMode.newest r = r.published_at ∷ r.id ∷ []
row_rank FeedMode.unseen r = r.published_at ∷ r.id ∷ []
row_rank FeedMode.random r = r.random_key ∷ r.id ∷ []

-- The random order ascends, the others descend.
unfoldable pub shown_before : FeedMode → FeedRow → FeedRow → Bool
unfolding row_rank
shown_before mode a b =
    if is_random mode
    then ranks_before (row_rank mode a) (row_rank mode b)
    else ranks_before (row_rank mode b) (row_rank mode a)

below_if : (a b : ℕ) (rest : Bool) → below a b rest ≡ (if a == b then rest else ltb a b)
unfolding below
below_if a b rest = ground arith

leb_if : (a b : ℕ) → leb a b ≡ (if a == b then true else ltb a b)
leb_if a b = ground arith

newest_first-shown_before :
    (a b : FeedRow)
    → newest_first a b ≡ ranks_before (row_rank FeedMode.newest b) (row_rank FeedMode.newest a)
unfolding newest_first row_rank ranks_before
newest_first-shown_before a b =
    below_if b.published_at a.published_at (leb b.id a.id)
    ∙ ap (λ r. if b.published_at == a.published_at then r else ltb b.published_at a.published_at)
        (leb_if b.id a.id)

order_for-shown_before :
    (mode : FeedMode) (a b : FeedRow) → order_for mode a b ≡ shown_before mode a b
unfolding order_for shown_before ranks_before is_random row_rank
order_for-shown_before FeedMode.hot a b =
    below_if b.ranking_score a.ranking_score (newest_first a b)
    ∙ ap
        (λ r. if b.ranking_score == a.ranking_score then r else ltb b.ranking_score a.ranking_score)
        (newest_first-shown_before a b)
order_for-shown_before FeedMode.newest a b = newest_first-shown_before a b
order_for-shown_before FeedMode.unseen a b = newest_first-shown_before a b
order_for-shown_before FeedMode.random a b =
    below_if a.random_key b.random_key (leb a.id b.id)
    ∙ ap (λ r. if a.random_key == b.random_key then r else ltb a.random_key b.random_key)
        (leb_if a.id b.id)

module _ (services : FeedServices) (request : FeedRequest) where
  -- The rows that the request may show.
  unfoldable pub shown_rows : List FeedRow
  shown_rows =
      filter (is_eligible (base_query services request (feed_seed services request) none))
        services.database

  -- The key at which the random order begins.
  unfoldable pub first_key : ℕ
  first_key = or_else (pivot_of services (feed_seed services request)) 0

  -- The whole feed: the rows that the request may show, in the order of its mode. The random order has
  -- the rows from the pivot on and then those below it.
  unfoldable pub feed_of : List FeedRow
  feed_of =
      if is_random request.mode
      then sort (shown_before request.mode)
          (filter (λ (r : FeedRow). leb first_key r.random_key) shown_rows)
        ++ sort (shown_before request.mode)
            (filter (λ (r : FeedRow). ltb r.random_key first_key) shown_rows)
      else sort (shown_before request.mode) shown_rows

  position_start :
      (m : FeedMode) (r : FeedRow)
      → is_random m ≡ false
      → position_where (from_start services request (feed_seed services request) false) m r ≡ true
  unfolding position_where base_query is_random
  position_start FeedMode.hot r e = refl
  position_start FeedMode.newest r e = refl
  position_start FeedMode.unseen r e = refl
  position_start FeedMode.random r e = cc

  random_start_first :
      (m : FeedMode) (r : FeedRow)
      → is_random m ≡ true
      → position_where (from_start services request (feed_seed services request) false) m r
        ≡ leb first_key r.random_key
  unfolding position_where base_query is_random random_position first_key
  random_start_first FeedMode.random r e = ground arith
  random_start_first FeedMode.hot r e = cc
  random_start_first FeedMode.newest r e = cc
  random_start_first FeedMode.unseen r e = cc

  random_start_second :
      (m : FeedMode) (r : FeedRow)
      → is_random m ≡ true
      → position_where (from_start services request (feed_seed services request) true) m r
        ≡ ltb r.random_key first_key
  unfolding position_where base_query is_random random_position first_key
  random_start_second FeedMode.random r e = ground arith
  random_start_second FeedMode.hot r e = cc
  random_start_second FeedMode.newest r e = cc
  random_start_second FeedMode.unseen r e = cc

  shown_order :
      (xs : List FeedRow) → sort (order_for request.mode) xs ≡ sort (shown_before request.mode) xs
  shown_order xs i = sort (λ a b. order_for-shown_before request.mode a b i) xs

  part-filter :
      (w : Bool) (p : FeedRow → Bool)
      → ((r : FeedRow)
          → position_where
              (from_start services request (feed_seed services request) w)
              request.mode
              r
            ≡ p r)
      → part services request w ≡ sort (shown_before request.mode) (filter p shown_rows)
  unfolding feed_where base_query shown_rows is_eligible
  part-filter w p h =
      let q = from_start services request (feed_seed services request) w in
      ap (sort (order_for request.mode)) (
        filter-filter (is_eligible q) (position_where q request.mode) services.database
        ∙ filter-cong (position_where q request.mode) p shown_rows h)
      ∙ shown_order (filter p shown_rows)

  filter-all_true : (xs : List FeedRow) → filter (λ (r : FeedRow). true) xs ≡ xs
  filter-all_true [] = refl
  filter-all_true (x ∷ xs) = ap (λ r. x ∷ r) (filter-all_true xs)

  pub feed_of-random :
      is_random request.mode ≡ true
      → part services request false ++ part services request true ≡ feed_of
  unfolding feed_of
  feed_of-random random =
      rw
        (
          random,
          part-filter false (λ (r : FeedRow). leb first_key r.random_key)
              λ r. random_start_first request.mode r random,
          part-filter true (λ (r : FeedRow). ltb r.random_key first_key)
              λ r. random_start_second request.mode r random,
        )
        refl

  pub feed_of-part : is_random request.mode ≡ false → part services request false ≡ feed_of
  unfolding feed_of
  feed_of-part other = rw other (
      part-filter false (λ (r : FeedRow). true) (λ r. position_start request.mode r other)
      ∙ ap (sort (shown_before request.mode)) (filter-all_true shown_rows))
