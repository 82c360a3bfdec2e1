-- ===== src/Feed/Signed.antt =====
-- What a cursor that was given out, or that was made up, decodes to.
use Prim.Native.Char.{code}
use Prim.Native.String
use Prim.Native.String.{String, [], ◌∷◌}
use text.Mathlib.TextLemmas.{nil-append, cons-append}
use text.Mathlib.TextPositions.{compare_refl}
use mirth_spool.Base.{
  ◌≤◌, ◌≡◌, refl, true, false, none, some, arith, ltb, ◌==◌, Bool-cases, inl, inr,
}
use mirth_spool.Text.{utf16_length}
use mirth_spool.Feed.Cursor.{
  FeedCursor, Codec, CodecLaws, has_dot, is_blank, until_dot, end_parts, start_parts, parts_of,
  is_valid_payload, signature, encode_feed_cursor, checked_payload, verified_payload,
  decode_feed_cursor,
}

until_dot_of_dotless : (s : String) → has_dot s ≡ false → until_dot s ≡ (s, none)
unfolding has_dot until_dot
until_dot_of_dotless [] h = refl
until_dot_of_dotless (c ∷ s) h = elim (Bool-cases (code c == b'.')) [
  | inl e ↦ cc (rw e at h)
  | inr e ↦ rw (e, until_dot_of_dotless s (rw e at h)) refl
]

until_dot-append :
    (s t : String) → has_dot s ≡ false → until_dot (String.◌++◌ s (String.◌++◌ "." t)) ≡ (s, some t)
unfolding has_dot until_dot
until_dot-append [] t h =
    rw (nil-append (String.◌++◌ "." t), cons-append _ "" t, nil-append t, until_dot) refl
until_dot-append (c ∷ s) t h = elim (Bool-cases (code c == b'.')) [
  | inl e ↦ cc (rw e at h)
  | inr e ↦
      rw (cons-append c s (String.◌++◌ "." t), e, until_dot-append s t (rw e at h), until_dot) refl
]

parts_of-append :
    (body digest : String)
    → has_dot body ≡ false
    → has_dot digest ≡ false
    → parts_of (String.◌++◌ body (String.◌++◌ "." digest)) ≡ (body, digest, "")
unfolding parts_of start_parts end_parts
parts_of-append body digest h k =
    rw (until_dot-append body digest h, until_dot_of_dotless digest k) refl

-- A cursor that is given out, for a payload within the schema's bounds and with a text that is not
-- too long, decodes to what it was made of.
pub decode_feed_cursor-encode_feed_cursor :
    (codec : Codec) (c : FeedCursor) (secret : String)
    → CodecLaws codec c
    → is_valid_payload c ≡ true
    → utf16_length (encode_feed_cursor codec c secret) ≤ 2048
    → decode_feed_cursor codec (encode_feed_cursor codec c secret) secret ≡ some c
unfolding decode_feed_cursor encode_feed_cursor verified_payload checked_payload signature is_blank
decode_feed_cursor-encode_feed_cursor codec c secret laws valid short =
    let body = codec.to_base64url (codec.stringify c) in
    let digest = signature codec body secret in
    let within : ltb 2048 (utf16_length (encode_feed_cursor codec c secret)) ≡ false =
      ground (arith, short) in
    let parts : parts_of (encode_feed_cursor codec c secret) ≡ (body, digest, "") =
      parts_of-append body digest laws.body_dotless (laws.digest_dotless _ _) in
    rw
      (
        within,
        parts,
        laws.body_full,
        laws.digest_full secret _,
        compare_refl digest,
        laws.reads,
        laws.parses,
        valid,
      )
      refl
