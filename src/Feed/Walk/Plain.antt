-- ===== src/Feed/Walk/Plain.antt =====
-- The pages that need no second query.
use Prim.Native.String.{String}
use mirth_spool.Base.{
  ◌≡◌, ◌⊎◌, refl, sym, Bool, true, false, Option, some, List, arith, ltb, take, length, length-take,
  Bool-cases, inl, inr,
}
use mirth_spool.Feed.Query.{FeedRow, FeedQuery, QueryPage}
use mirth_spool.Feed.Service.{FeedRequest, is_random, fill, cursor_at, wrapped_of}

-- The cases in which a page needs no second query.
pub data IsPlain (request : FeedRequest) : Bool → List FeedRow → Type 0 where
  other_order : (rest : List FeedRow) → is_random request.mode ≡ false → IsPlain request false rest
  second_part : (rest : List FeedRow) → is_random request.mode ≡ true → IsPlain request true rest
  full_page :
      (rest : List FeedRow)
      → is_random request.mode ≡ true
      → ltb request.limit (length rest) ≡ true
      → IsPlain request false rest

-- Only the random order has a second part.
abbrev pub IsPart : FeedRequest → Bool → Type 0
IsPart request w = (is_random request.mode ≡ true) ⊎ (w ≡ false)

pub plain-IsPart :
    (request : FeedRequest) (w : Bool) (rest : List FeedRow)
    → IsPlain request w rest
    → IsPart request w
plain-IsPart request w rest (other_order _ e) = inr refl
plain-IsPart request w rest (second_part _ e) = inl e
plain-IsPart request w rest (full_page _ e more) = inl e

pub wrapped_again :
    (request : FeedRequest) (seed : Option String) (w : Bool) (x : FeedRow)
    → IsPart request w
    → wrapped_of (some (cursor_at request seed w x)) ≡ w
unfolding wrapped_of cursor_at
wrapped_again request seed w x (inl e) = rw e refl
wrapped_again request seed w x (inr e) = elim (Bool-cases (is_random request.mode)) [
  | inl k ↦ rw k refl
  | inr k ↦ rw k (sym e)
]

abbrev pub query_page : FeedRequest → List FeedRow → QueryPage
query_page request rest = record {
  rows = take request.limit rest;
  has_more = ltb request.limit (length rest);
}

pub fill-plain :
    (request : FeedRequest) (q : FeedQuery) (db : List FeedRow) (w : Bool) (rest : List FeedRow)
    → q.mode ≡ request.mode
    → q.limit ≡ request.limit
    → IsPlain request w rest
    → fill q w db (query_page request rest)
      ≡ some (record {
        rows = take request.limit rest;
        has_more = ltb request.limit (length rest);
        wrapped = w;
      })
unfolding fill
fill-plain request q db w rest m l (other_order _ e) = rw (m, e) refl
fill-plain request q db w rest m l (second_part _ e) =
    elim (Bool-cases (ltb (length (take request.limit rest)) request.limit)) [
      | inl k ↦ rw (m, l, e, k) refl
      | inr k ↦ rw (m, l, e, k) refl
    ]
fill-plain request q db w rest m l (full_page _ e more) =
    let full : ltb (length (take request.limit rest)) request.limit ≡ false =
      ground (arith, length-take request.limit rest, more) in
    rw (m, l, e, full, more) refl
