-- ===== src/Worker/Content.antt =====
-- `normalizedContent` of apps/worker/src/processor.ts: what is stored for a post.
use mathlib.Core.Option
use Prim.Native.String.{String}
use mirth_spool.Base.{ℕ, suc, Option, none, some, List, [], ◌∷◌}
use mirth_spool.Base.Maybe.{◌>>=◌}
use mirth_spool.Db.{ContentRating, ContentStatus}
use mirth_spool.Text.{Platform, trim}
use mirth_spool.Deduplication.CanonicalUrl.{normalize_canonical_url, canonical_url_hash}
use mirth_spool.Connector.Page.{Media, Post}
use mirth_spool.Ingestion.Rows.{SourceRow, MediaInput, ContentInput}

abbrev known_rating : ContentRating → ContentRating → ContentRating
known_rating default ContentRating.unknown = default
known_rating default rating = rating

abbrev status_of : Option ℕ → ContentStatus
status_of none = ContentStatus.active
status_of (some deleted_at) = ContentStatus.removed_at_source

-- post.media.map((media, ordinal) => …), from an ordinal on
unfoldable pub media_inputs : ℕ → List Media → List MediaInput
media_inputs ordinal [] = []
media_inputs ordinal (m ∷ ms) =
    record {
      ordinal = ordinal;
      kind = m.kind;
      alt_text = m.alt_text;
      remote_url = m.remote_url;
      mime_type = m.mime_type;
      byte_length = m.byte_length;
      width = m.width;
      height = m.height;
      duration_milliseconds = m.duration_milliseconds;
    }
    ∷ media_inputs (suc ordinal) ms

normalized_title : Platform → Option String → Option String
normalized_title platform title = Option.map (λ (t : String). platform.lower (trim t)) title

content_of : Platform → SourceRow → Post → String → String → ContentInput
unfolding media_inputs normalized_title
content_of platform source post url hash = record {
  source_id = source.id;
  external_id = post.external_id;
  provider_url = some post.original_url;
  provider_author = post.author_name;
  boosted_by = post.boosted_by;
  community_name = post.community_name;
  provider_score = post.provider_score;
  provider_comment_count = post.provider_comment_count;
  provider_favourite_count = post.provider_favourite_count;
  provider_share_count = post.provider_share_count;
  provider_language = post.provider_language;
  provider_published_at = some post.provider_created_at;
  provider_updated_at = post.provider_updated_at;
  provider_deleted_at = post.provider_deleted_at;
  title = post.title;
  normalized_title = normalized_title platform post.title;
  summary = post.summary;
  author_name = post.author_name;
  content_rating = known_rating source.default_content_rating post.content_rating;
  content_warning = post.content_warning;
  status = some (status_of post.provider_deleted_at);
  published_at = post.provider_created_at;
  canonical_url = some url;
  canonical_url_hash = some hash;
  provider_tags = post.categories;
  media = media_inputs 0 post.media;
}

-- `none` where the address of the post has no canonical form, and the source throws.
unfoldable pub normalized_content : Platform → SourceRow → Post → Option ContentInput
unfolding content_of
normalized_content platform source post = do
  url ← normalize_canonical_url platform post.original_url
  hash ← canonical_url_hash platform url
  some (content_of platform source post url hash)
