-- ===== src/Feed/Cursor.antt =====
-- apps/web/src/lib/feed/cursor.ts: signed cursors. JSON, base64url and the HMAC are the parameter
-- `Codec`, and `CodecLaws` is what they are documented to do.
use Prim.Native.Char.{code}
use Prim.Native.String
use Prim.Native.String.{String, [], ◌∷◌}
use text.Mathlib.Text.{◌==◌ as str_eq}
use mirth_spool.Base.{
  ℕ, ◌≡◌, Bool, true, false, not, ◌&&◌, ◌||◌, Option, none, some, leb, ltb, ◌==◌, if◌then◌else◌,
}
use mirth_spool.Text.{utf16_length}
use mirth_spool.Feed.Query.{FeedMode}

-- The fields of a payload; the mode `none` is for-you. The literal version `v` is part of the JSON.
pub record FeedCursor : Type 0 where
  pub f : String
  pub i : ℕ
  pub m : Option FeedMode
  pub a : Option ℕ
  pub p : Option ℕ
  pub q : Option ℕ
  pub r : Option ℕ
  pub s : Option ℕ
  pub seed : Option String
  pub sv : Option ℕ
  pub w : Option Bool

pub record Codec : Type 0 where
  -- JSON.stringify, and JSON.parse with the types of the fields
  pub stringify : FeedCursor → String
  pub parse : String → Option FeedCursor
  pub to_base64url : String → String
  pub from_base64url : String → String
  -- createHmac("sha256", secret).update(text).digest("base64url")
  pub hmac : String → String → String

unfoldable pub has_dot : String → Bool
has_dot [] = false
has_dot (c ∷ s) = let rest = has_dot s in code c == b'.' || rest

unfoldable pub is_blank : String → Bool
is_blank [] = true
is_blank (c ∷ s) = false

-- Up to the first dot, and what comes behind it.
unfoldable pub until_dot : String → String × Option String
until_dot [] = ([], none)
until_dot (c ∷ s) =
    let (head, rest) = until_dot s in if code c == b'.' then ([], some s) else (c ∷ head, rest)

unfoldable pub end_parts : String × Option String → String × String
unfolding until_dot
end_parts (supplied, none) = (supplied, "")
end_parts (supplied, some rest) = (supplied, (until_dot rest).0)

unfoldable pub start_parts : String × Option String → String × String × String
unfolding end_parts
start_parts (body, none) = (body, "", "")
start_parts (body, some rest) =
    let (supplied, extra) = end_parts (until_dot rest) in (body, supplied, extra)

-- The first three parts of value.split("."), where one that is missing is empty.
unfoldable pub parts_of : String → String × String × String
unfolding start_parts
parts_of value = start_parts (until_dot value)

unfoldable pub within_opt : (ℕ → Bool) → Option ℕ → Bool
within_opt p none = true
within_opt p (some n) = p n

unfoldable pub valid_seed : Option String → Bool
valid_seed none = true
valid_seed (some s) = leb 1 (utf16_length s) && leb (utf16_length s) 128

-- The bounds of payloadSchema.
unfoldable pub is_valid_payload : FeedCursor → Bool
unfolding within_opt valid_seed
is_valid_payload c =
    utf16_length c.f == 64
    && within_opt (λ n. leb n 0x7fffffff) c.r
    && valid_seed c.seed
    && within_opt (λ n. leb 1 n) c.sv

module _ (codec : Codec) where
  unfoldable pub signature : String → String → String
  signature body secret = codec.hmac secret (String.◌++◌ "mirthspool:feed-cursor:v1\0" body)

  unfoldable pub encode_feed_cursor : FeedCursor → String → String
  unfolding signature
  encode_feed_cursor payload secret =
      let body = codec.to_base64url (codec.stringify payload) in
      String.◌++◌ body (String.◌++◌ "." (signature body secret))

  unfoldable pub checked_payload : Option FeedCursor → Option FeedCursor
  unfolding is_valid_payload
  checked_payload none = none
  checked_payload (some c) = if is_valid_payload c then some c else none

  unfoldable pub verified_payload : String → String × String × String → Option FeedCursor
  unfolding signature checked_payload
  verified_payload secret (body, supplied, extra) =
      if is_blank body || is_blank supplied || not (is_blank extra)
      then none
      else if not (str_eq supplied (signature body secret))
      then none
      else checked_payload (codec.parse (codec.from_base64url body))

  -- `none` is INVALID_CURSOR.
  unfoldable pub decode_feed_cursor : String → String → Option FeedCursor
  unfolding verified_payload
  decode_feed_cursor value secret =
      if ltb 2048 (utf16_length value) then none else verified_payload secret (parts_of value)

-- JSON gives back the payload that it was given, and so does base64url its text; texts in base64url
-- have no dot, and those of a payload and of a digest are not empty.
pub record CodecLaws (codec : Codec) (c : FeedCursor) : Type 0 where
  pub parses : codec.parse (codec.stringify c) ≡ some c
  pub reads : codec.from_base64url (codec.to_base64url (codec.stringify c)) ≡ codec.stringify c
  pub body_dotless : has_dot (codec.to_base64url (codec.stringify c)) ≡ false
  pub body_full : is_blank (codec.to_base64url (codec.stringify c)) ≡ false
  pub digest_dotless : (k s : String) → has_dot (codec.hmac k s) ≡ false
  pub digest_full : (k s : String) → is_blank (codec.hmac k s) ≡ false
