-- ===== src/Feed/Walk.antt =====
-- Reading the feed page by page.
pub mod Turns
pub mod Plain
pub mod Pages
pub mod Reference
pub mod Whole
use Prim.Native.String.{String}
use text.Mathlib.Text.{◌==◌ as str_eq}
use text.Mathlib.TextPositions.{compare_refl}
use mathlib.Core.List.{append_assoc, append-nil}
use mirth_spool.Base.{
  ℕ, zero, suc, ◌+◌, ◌-◌, ◌≤◌, ◌<◌, ◌≡◌, refl, sym, ap, subst, ◌∙◌, ◌⊎◌, Bool, true, false, not,
  ◌&&◌, ◌||◌, Option, none, some, List, [], ◌∷◌, ◌++◌, arith, leb, ltb, ◌==◌, if◌then◌else◌, All,
  take, drop, length, length-take, length-drop, length-append, filter, Bool-cases, Option-cases,
  inl, inr,
}
use mirth_spool.Text.{utf16_length}
use mirth_spool.Base.Strict.{Distinct}
use mirth_spool.Feed.Query.{
  FeedMode, FeedRow, FeedQuery, QueryPage, query_feed, feed_where, order_for,
}
use mirth_spool.Feed.Cursor.{
  FeedCursor, Codec, CodecLaws, is_valid_payload, within_opt, valid_seed, encode_feed_cursor,
  decode_feed_cursor,
}
use mirth_spool.Feed.Signed.{decode_feed_cursor-encode_feed_cursor}
use mirth_spool.Feed.Service.{
  FeedServices, FeedRequest, FeedPage, Filled, is_random, is_hot, belongs, same_mode, seed_of,
  base_query, fill, last_of, cursor_at, next_cursor_of, present, read_page, from_cursor, read_feed,
}
use mirth_spool.Feed.Orders.{same_id}
use mirth_spool.Feed.Parts.{rows_of, from_start, query_at, rows_of_rest}

-- What a reader sees who follows the cursors up to the page without one.
pub data Walk (services : FeedServices) (request : FeedRequest)
    : Option String → List FeedRow → Type 0 where
  last_page :
      (c : Option String) (page : FeedPage)
      → read_feed services request c ≡ some page
      → page.next_cursor ≡ none
      → Walk services request c page.items
  next_page :
      (c : Option String) (page : FeedPage) (text : String) (rest : List FeedRow)
      → read_feed services request c ≡ some page
      → page.next_cursor ≡ some text
      → Walk services request (some text) rest
      → Walk services request c (page.items ++ rest)

-- The cursors that the rows give out can be read again: JSON and base64url do what they should, and
-- the texts are not too long.
pub record IsSigned (services : FeedServices) (request : FeedRequest) (w : Bool) (r : FeedRow)
    : Type 0 where
  pub laws : CodecLaws services.codec (cursor_at request (seed_of services request none) w r)
  pub short :
      utf16_length (
        encode_feed_cursor services.codec
          (cursor_at request (seed_of services request none) w r)
          services.secret)
      ≤ 2048
  pub key : r.random_key ≤ 0x7fffffff

-- What parseFeedQuery checks, and the length of a digest.
pub record IsParsed (request : FeedRequest) (seed : Option String) : Type 0 where
  pub at_least : 1 ≤ request.limit
  pub at_most : request.limit ≤ 50
  pub digest : utf16_length request.fingerprint ≡ 64
  pub seeded : valid_seed seed ≡ true
  pub plain : is_random request.mode ≡ false → request.seed ≡ none

same_mode_refl : (m : FeedMode) → same_mode m m ≡ true
unfolding same_mode
same_mode_refl FeedMode.hot = refl
same_mode_refl FeedMode.newest = refl
same_mode_refl FeedMode.random = refl
same_mode_refl FeedMode.unseen = refl

valid_cursor :
    (request : FeedRequest) (seed : Option String) (w : Bool) (r : FeedRow)
    → IsParsed request seed
    → r.random_key ≤ 0x7fffffff
    → is_valid_payload (cursor_at request seed w r) ≡ true
unfolding is_valid_payload cursor_at within_opt valid_seed
valid_cursor request seed w r parsed small =
    let digest : (utf16_length request.fingerprint == 64) ≡ true = ground (arith, parsed.digest) in
    let within : leb r.random_key 0x7fffffff ≡ true = ground (arith, small) in
    elim (Bool-cases (is_random request.mode)) [
      | inl e ↦ rw (digest, e, within, parsed.seeded) refl
      | inr e ↦ rw (digest, e) refl
    ]

module _ (services : FeedServices) (request : FeedRequest) where
  abbrev pub feed_seed : Option String
  feed_seed = seed_of services request none

  abbrev pub text_at : Bool → FeedRow → String
  text_at w r = encode_feed_cursor services.codec (cursor_at request feed_seed w r) services.secret

  belongs_again :
      (w : Bool) (r : FeedRow)
      → IsParsed request feed_seed
      → belongs request (cursor_at request feed_seed w r) ≡ true
  unfolding belongs cursor_at seed_of
  belongs_again w r parsed = elim (Bool-cases (is_random request.mode)) [
    | inr e ↦
        rw (same_mode_refl request.mode, compare_refl request.fingerprint, parsed.plain e) refl
    | inl e ↦ elim (Option-cases request.seed) [
      | inl k ↦ rw (same_mode_refl request.mode, compare_refl request.fingerprint, k) refl
      | inr (s, k) ↦
          rw
            (
              same_mode_refl request.mode,
              compare_refl request.fingerprint,
              k,
              e,
              seed_of,
              k,
              compare_refl s,
            )
            refl
    ]
  ]

  pub seed_again :
      (w : Bool) (r : FeedRow)
      → seed_of services request (some (cursor_at request feed_seed w r)) ≡ feed_seed
  unfolding seed_of cursor_at
  seed_again w r = elim (Bool-cases (is_random request.mode)) [
    | inr e ↦ rw e refl
    | inl e ↦ elim (Option-cases request.seed) [
      | inl k ↦ rw (e, k, cursor_at, e, seed_of, k) refl
      | inr (s, k) ↦ rw (e, k) refl
    ]
  ]

  -- The page that shows some rows.
  abbrev pub page_of : Bool → List FeedRow → Bool → FeedPage
  page_of w rows more = record {
    has_more = more;
    items = rows;
    next_cursor =
        next_cursor_of services request feed_seed
          (record { rows = rows; has_more = more; wrapped = w });
    seed = feed_seed;
  }

  -- A cursor that was given out reads the page behind its row.
  pub read_feed-text :
      (w : Bool) (r : FeedRow)
      → IsParsed request feed_seed
      → IsSigned services request w r
      → read_feed services request (some (text_at w r))
        ≡ read_page services request (some (cursor_at request feed_seed w r))
  unfolding read_feed from_cursor
  read_feed-text w r parsed signed =
      rw
        (
          decode_feed_cursor-encode_feed_cursor services.codec (cursor_at request feed_seed w r)
              services.secret signed.laws (valid_cursor request feed_seed w r parsed signed.key)
              signed.short,
          from_cursor,
          belongs_again w r parsed,
        )
        refl

take-take : (n : ℕ) (xs : List FeedRow) → take n (take (suc n) xs) ≡ take n xs
take-take zero xs = refl
take-take (suc n) [] = refl
take-take (suc n) (x ∷ xs) = ap (λ r. x ∷ r) (take-take n xs)

more_rows : (n : ℕ) (xs : List FeedRow) → ltb n (length (take (suc n) xs)) ≡ ltb n (length xs)
more_rows n xs = ground (arith, length-take (suc n) xs)

pub query_feed_rows :
    (q : FeedQuery) (db : List FeedRow)
    → 1 ≤ q.limit
    → q.limit ≤ 50
    → query_feed q db
      ≡ some (record {
        rows = take q.limit (rows_of db q);
        has_more = ltb q.limit (length (rows_of db q));
      })
unfolding query_feed
query_feed_rows q db h k =
    let low : leb 1 q.limit ≡ true = ground (arith, h) in
    let high : leb q.limit 50 ≡ true = ground (arith, k) in
    rw (low, high, take-take q.limit (rows_of db q), more_rows q.limit (rows_of db q)) refl
