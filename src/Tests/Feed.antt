-- ===== src/Tests/Feed.antt =====
-- The properties of the feed, in the random order of two rows.
use Prim.Native.String.{String}
use text.Mathlib.Text.{◌==◌ as str_eq}
use mirth_spool.Base.{
  ◌≡◌, refl, Bool, true, false, none, some, [], ◌∷◌, All, arith, if◌then◌else◌, ◌==◌,
}
use mirth_spool.Base.Sort.{sort}
use mirth_spool.Text.{utf16_length}
use mirth_spool.Db.{ContentStatus, ContentRating}
use mirth_spool.Feed.Query.{FeedMode, FeedRow}
use mirth_spool.Feed.Cursor.{
  Codec, CodecLaws, is_valid_payload, within_opt, valid_seed, has_dot, is_blank, signature,
  encode_feed_cursor, decode_feed_cursor,
}
use mirth_spool.Feed.Signed.{decode_feed_cursor-encode_feed_cursor}
use mirth_spool.Feed.Shown.{IsShown, read_feed-IsShown}
use mirth_spool.Feed.Service.{read_feed, FeedPage, FeedServices, FeedRequest, cursor_at, is_random}
use mirth_spool.Feed.Walk.{Walk}

abbrev first_row : FeedRow
first_row = record {
  id = 1;
  published_at = 10;
  random_key = 3;
  ranking_score = 0;
  status = ContentStatus.active;
  duplicate_primary = true;
  content_rating = ContentRating.safe;
  hidden_by = [];
  viewed_by = [];
  favorite_of = [];
  source_ids = [];
  media_kinds = [];
  tag_slugs = [];
}

abbrev second_row : FeedRow
second_row = record first_row { id = 2; random_key = 7 }

abbrev random_request : FeedRequest
random_request = record {
  fingerprint = "0123456789abcdef0123456789abcdef0123456789abcdef0123456789abcdef";
  from = none;
  include_seen = false;
  kinds = [];
  limit = 1;
  mode = FeedMode.random;
  rating = none;
  seed = some "seed";
  source_ids = [];
  tags = [];
  to = none;
}

abbrev first_text : Bool → String
first_text w = if w then "1t" else "1f"

abbrev second_text : Bool → String
second_text w = if w then "2t" else "2f"

abbrev test_codec : Codec
test_codec = record {
  stringify =
      λ c. elim c.w [ none ↦ "-" | some w ↦ if c.i == 1 then first_text w else second_text w ];
  parse = λ s.
      if str_eq s "1t"
      then some (cursor_at random_request (some "seed") true first_row)
      else if str_eq s "1f"
      then some (cursor_at random_request (some "seed") false first_row)
      else if str_eq s "2t"
      then some (cursor_at random_request (some "seed") true second_row)
      else if str_eq s "2f"
      then some (cursor_at random_request (some "seed") false second_row)
      else none;
  to_base64url = λ s. s;
  from_base64url = λ s. s;
  hmac = λ k s. "digest";
}

abbrev test_services : FeedServices
test_services = record {
  codec = test_codec;
  secret = "secret";
  maximum_rating = "ADULT";
  maximum_content_rating = "SAFE";
  history_enabled = true;
  user_id = 1;
  fresh_seed = "fresh";
  random_seed_pivot = λ s. 5;
  database = first_row ∷ second_row ∷ [];
}

first_laws : (w : Bool) → CodecLaws test_codec (cursor_at random_request (some "seed") w first_row)
unfolding cursor_at is_random has_dot is_blank
first_laws true = record {
  parses = refl;
  reads = refl;
  body_dotless = refl;
  body_full = refl;
  digest_dotless = λ k s. refl;
  digest_full = λ k s. refl;
}
first_laws false = record {
  parses = refl;
  reads = refl;
  body_dotless = refl;
  body_full = refl;
  digest_dotless = λ k s. refl;
  digest_full = λ k s. refl;
}

decode_feed_cursor-encode_feed_cursor_example :
    decode_feed_cursor test_codec
      (encode_feed_cursor test_codec
        (cursor_at random_request (some "seed") true first_row)
        "secret")
      "secret"
    ≡ some (cursor_at random_request (some "seed") true first_row)
unfolding is_valid_payload within_opt valid_seed cursor_at utf16_length is_random encode_feed_cursor
    signature
decode_feed_cursor-encode_feed_cursor_example =
    decode_feed_cursor-encode_feed_cursor test_codec
      (cursor_at random_request (some "seed") true first_row) "secret" (first_laws true) refl
      (omega arith)

abbrev newest_request : FeedRequest
newest_request = record random_request { limit = 5; mode = FeedMode.newest; seed = none }

abbrev newest_page : FeedPage
newest_page = record {
  has_more = false;
  items = second_row ∷ first_row ∷ [];
  next_cursor = none;
  seed = none;
}

newest_page_read : read_feed test_services newest_request none ≡ some newest_page
unfolding read_feed sort
newest_page_read = refl

read_feed-IsShown_example : All (IsShown test_services) newest_page.items
read_feed-IsShown_example =
    read_feed-IsShown test_services newest_request none newest_page newest_page_read
