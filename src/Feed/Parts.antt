-- ===== src/Feed/Parts.antt =====
-- The rows of a query whose position is a row of the feed are those behind that row.
use Prim.Native.String.{String}
use mirth_spool.Base.{
  ◌≡◌, refl, sym, ap, subst, ◌∙◌, Bool, true, false, ◌&&◌, Option, none, some, List, [], ◌∷◌, ◌++◌,
  arith, All, filter, Bool-cases, inl, inr,
}
use mirth_spool.Base.Sort.{sort}
use mirth_spool.Base.Strict.{
  all-middle, sort-each, Distinct, IsStrict, sort-IsStrict, filter-Distinct, filter-sort,
  after_middle,
}
use mirth_spool.Feed.Query.{
  FeedMode, FeedRow, FeedQuery, below, newer_position, hot_position, random_position, is_eligible,
  position_where, feed_where, order_for,
}
use mirth_spool.Feed.Service.{
  FeedServices, FeedRequest, base_query, cursor_at, is_random, is_hot, position_at, position_of,
  wrapped_of, pivot_of,
}
use mirth_spool.Feed.Orders.{same_id, newer_after, after, order_strict}

and_right : (a b : Bool) → (a && b) ≡ true → b ≡ true
and_right true b h = h
and_right false b h = cc

and_assoc : (a b c : Bool) → (a && (b && c)) ≡ ((a && b) && c)
and_assoc true b c = refl
and_assoc false b c = refl

pub filter-cong :
    (p q : FeedRow → Bool) (xs : List FeedRow)
    → ((r : FeedRow) → p r ≡ q r)
    → filter p xs ≡ filter q xs
filter-cong p q [] h = refl
filter-cong p q (x ∷ xs) h = rw (h x, filter-cong p q xs h) refl

filter-true : (p : FeedRow → Bool) (xs : List FeedRow) → All (λ r. p r ≡ true) (filter p xs)
filter-true p [] = tt
filter-true p (x ∷ xs) = elim (Bool-cases (p x)) [
  | inl e ↦ rw e (e, filter-true p xs)
  | inr e ↦ rw e (filter-true p xs)
]

pub filter-filter :
    (p q : FeedRow → Bool) (xs : List FeedRow)
    → filter (λ r. p r && q r) xs ≡ filter q (filter p xs)
filter-filter p q [] = refl
filter-filter p q (x ∷ xs) = elim (Bool-cases (p x)) [
  | inl e ↦ rw (e, filter-filter p q xs) refl
  | inr e ↦ rw (e, filter-filter p q xs) refl
]

-- The rows that a query answers with, without its limit.
abbrev pub rows_of : List FeedRow → FeedQuery → List FeedRow
rows_of db q = sort (order_for q.mode) (filter (feed_where q) db)

module _ (services : FeedServices) (request : FeedRequest) (seed : Option String) where
  -- The query at the beginning of one of the two parts of the random order; the other orders have
  -- one part.
  abbrev pub from_start : Bool → FeedQuery
  from_start w = record (base_query services request seed none) { random_wrapped = w }

  abbrev pub query_at : Bool → FeedRow → FeedQuery
  query_at w x = base_query services request seed (some (cursor_at request seed w x))

  eligible_at :
      (w : Bool) (x r : FeedRow) → is_eligible (query_at w x) r ≡ is_eligible (from_start w) r
  unfolding is_eligible base_query
  eligible_at w x r = refl

  position_at_row :
      (w : Bool) (x r : FeedRow) (m : FeedMode)
      → request.mode ≡ m
      → position_where (from_start w) m x ≡ true
      → position_where (query_at w x) m r ≡ (position_where (from_start w) m r && after m x r)
  unfolding position_where base_query cursor_at position_at position_of wrapped_of pivot_of after
      newer_after newer_position hot_position random_position is_random is_hot below
  position_at_row w x r FeedMode.newest e h = rw e refl
  position_at_row w x r FeedMode.unseen e h = rw e refl
  position_at_row w x r FeedMode.hot e h = rw e refl
  position_at_row true x r FeedMode.random e h = rw e (ground (arith, h))
  position_at_row false x r FeedMode.random e h = rw e (ground (arith, h))

  feed_where-at :
      (w : Bool) (x r : FeedRow)
      → feed_where (from_start w) x ≡ true
      → feed_where (query_at w x) r ≡ (feed_where (from_start w) r && after request.mode x r)
  unfolding feed_where base_query
  feed_where-at w x r h =
      let there : position_where (from_start w) request.mode x ≡ true = and_right _ _ h in
      rw (position_at_row w x r request.mode refl there, eligible_at w x r)
        (and_assoc (is_eligible (from_start w) r) (position_where (from_start w) request.mode r)
          (after request.mode x r))

  -- The rows behind a row of a part are those that a query from its cursor answers with.
  pub rows_of_rest :
      (db : List FeedRow) (w : Bool) (before : List FeedRow) (x : FeedRow) (rest : List FeedRow)
      → Distinct same_id db
      → rows_of db (from_start w) ≡ before ++ x ∷ rest
      → rows_of db (query_at w x) ≡ rest
  unfolding base_query
  rows_of_rest db w before x rest d e =
      let o = order_strict request.mode in
      let p = feed_where (from_start w) in
      let here : p x ≡ true =
        all-middle _ _ _ o (λ r. p r ≡ true) x before rest
          (subst (All (λ r. p r ≡ true)) e (sort-each _ _ _ o _ _ (filter-true p db))) in
      let kept : filter (feed_where (query_at w x)) db
          ≡ filter (after request.mode x) (filter p db) =
        filter-cong _ _ db (λ r. feed_where-at w x r here)
        ∙ filter-filter p (after request.mode x) db in
      ap (sort (order_for request.mode)) kept
      ∙ sym (
          filter-sort _ _ _ o (after request.mode x) (filter p db) (filter-Distinct _ _ _ o p db d))
      ∙ ap (filter (after request.mode x)) e
      ∙ after_middle _ _ _ o before x rest (
          subst (IsStrict (after request.mode)) e
            (sort-IsStrict _ _ _ o _ (filter-Distinct _ _ _ o p db d)))
