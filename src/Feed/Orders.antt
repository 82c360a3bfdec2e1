-- ===== src/Feed/Orders.antt =====
-- The orders of the feed are strict on rows with different identifiers, column by column.
use mirth_spool.Base.{ℕ, Bool, arith, leb, ltb, ◌==◌}
use mirth_spool.Base.Strict.{StrictOrder}
use mirth_spool.Feed.Query.{FeedMode, FeedRow, below, newest_first, order_for}

abbrev pub same_id : FeedRow → FeedRow → Bool
same_id a b = a.id == b.id

-- `b` stands behind `a`.
unfoldable pub newer_after : FeedRow → FeedRow → Bool
unfolding below
newer_after a b = below b.published_at a.published_at (ltb b.id a.id)

unfoldable pub after : FeedMode → FeedRow → FeedRow → Bool
unfolding below newer_after
after FeedMode.hot a b = below b.ranking_score a.ranking_score (newer_after a b)
after FeedMode.random a b = below a.random_key b.random_key (ltb a.id b.id)
after FeedMode.newest a b = newer_after a b
after FeedMode.unseen a b = newer_after a b

descending : StrictOrder (λ a b. leb b.id a.id) (λ a b. ltb b.id a.id) same_id
descending = record {
  step = λ x y h k. ground (arith, h, k);
  flip = λ x y h. ground (arith, h);
  trans = λ x y z h k. ground (arith, h, k);
  weak = λ x y h. ground (arith, h);
  asym = λ x y h. ground (arith, h);
  irrefl = λ x. ground arith;
}

ascending : StrictOrder (λ a b. leb a.id b.id) (λ a b. ltb a.id b.id) same_id
ascending = record {
  step = λ x y h k. ground (arith, h, k);
  flip = λ x y h. ground (arith, h);
  trans = λ x y z h k. ground (arith, h, k);
  weak = λ x y h. ground (arith, h);
  asym = λ x y h. ground (arith, h);
  irrefl = λ x. ground arith;
}

-- An ascending column in front of an order.
upwards :
    (f : FeedRow → ℕ) (le behind : FeedRow → FeedRow → Bool)
    → StrictOrder le behind same_id
    → StrictOrder
        (λ a b. below (f a) (f b) (le a b))
        (λ a b. below (f a) (f b) (behind a b))
        same_id
unfolding below
upwards f le behind o = record {
  step = λ x y h k. ground (arith, h, o.step x y, k);
  flip = λ x y h. ground (arith, h, o.flip x y);
  trans = λ x y z h k. ground (arith, h, k, o.trans x y z);
  weak = λ x y h. ground (arith, h, o.weak x y);
  asym = λ x y h. ground (arith, h, o.asym x y);
  irrefl = λ x. ground (arith, o.irrefl x);
}

-- A descending column in front of an order.
downwards :
    (f : FeedRow → ℕ) (le behind : FeedRow → FeedRow → Bool)
    → StrictOrder le behind same_id
    → StrictOrder
        (λ a b. below (f b) (f a) (le a b))
        (λ a b. below (f b) (f a) (behind a b))
        same_id
unfolding below
downwards f le behind o = record {
  step = λ x y h k. ground (arith, h, o.step x y, k);
  flip = λ x y h. ground (arith, h, o.flip x y);
  trans = λ x y z h k. ground (arith, h, k, o.trans x y z);
  weak = λ x y h. ground (arith, h, o.weak x y);
  asym = λ x y h. ground (arith, h, o.asym x y);
  irrefl = λ x. ground (arith, o.irrefl x);
}

newer_strict : StrictOrder newest_first newer_after same_id
unfolding newest_first newer_after
newer_strict = downwards (λ r. r.published_at) _ _ descending

pub order_strict : (m : FeedMode) → StrictOrder (order_for m) (after m) same_id
unfolding order_for after
order_strict FeedMode.hot = downwards (λ r. r.ranking_score) _ _ newer_strict
order_strict FeedMode.random = upwards (λ r. r.random_key) _ _ ascending
order_strict FeedMode.newest = newer_strict
order_strict FeedMode.unseen = newer_strict
