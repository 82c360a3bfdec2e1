-- ===== src/Connector/Page.antt =====
-- packages/connectors/src/schemas.ts and types.ts: the page that a connector returns, its
-- validation, and a connector as the requests that it makes until it returns or throws.
use Prim.Native.String.{String}
use text.Mathlib.Text.{◌==◌ as str_eq}
use mirth_spool.Base.{ℕ, Bool, ◌&&◌, ◌||◌, Option, none, some, List, leb, length}
use mirth_spool.Base.Int.{ℤ}
use mirth_spool.Base.Maybe.{◌>>=◌, ◌>>◌, require, traverse}
use mirth_spool.Db.{ContentRating, MediaKind}
use mirth_spool.Text.{Platform, trim, utf16_length}
use mirth_spool.Connector.Errors.{Thrown}

pub record Media : Type 0 where
  pub alt_text : Option String
  pub byte_length : Option ℕ
  pub duration_milliseconds : Option ℕ
  pub height : Option ℕ
  pub kind : MediaKind
  pub mime_type : Option String
  pub preview_url : Option String
  pub remote_url : String
  pub width : Option ℕ

-- NormalizedSourcePost without the raw payload. Instants are milliseconds since the epoch.
pub record Post : Type 0 where
  pub author_name : Option String
  pub boosted_by : Option String
  pub categories : List String
  pub community_name : Option String
  pub content_rating : ContentRating
  pub content_warning : Option String
  pub external_id : String
  pub media : List Media
  pub original_url : String
  pub provider_comment_count : Option ℕ
  pub provider_favourite_count : Option ℕ
  pub provider_language : Option String
  pub provider_share_count : Option ℕ
  pub provider_created_at : ℕ
  pub provider_deleted_at : Option ℕ
  pub provider_score : Option ℤ
  pub provider_updated_at : Option ℕ
  pub summary : Option String
  pub title : Option String

pub record RateLimitState : Type 0 where
  pub remaining : Option ℕ
  pub reset_at : Option ℕ

pub record Page : Type 0 where
  pub has_more : Bool
  pub next_checkpoint : Option String
  pub posts : List Post
  pub rate_limit : Option RateLimitState

-- z.string().max(n), nullable
max_text : ℕ → Option String → Option (Option String)
max_text n none = some none
max_text n (some s) = do require (leb (utf16_length s) n); some (some s)

-- z.string().trim().max(n), nullable
max_trimmed : ℕ → Option String → Option (Option String)
max_trimmed n none = some none
max_trimmed n (some s) = do require (leb (utf16_length (trim s)) n); some (some (trim s))

-- z.string().trim().min(1).max(n)
trimmed_between : ℕ → String → Option String
trimmed_between n s = do
  require (leb 1 (utf16_length (trim s)) && leb (utf16_length (trim s)) n)
  some (trim s)

-- z.number().int().min(lo).max(hi), nullable
within : ℕ → ℕ → Option ℕ → Option (Option ℕ)
within lo hi none = some none
within lo hi (some n) = do require (leb lo n && leb n hi); some (some n)

module _ (platform : Platform) where
  -- httpUrlSchema
  http_url : String → Option String
  http_url s = do
    require (leb (utf16_length s) 2048)
    url ← platform.parse_url s
    require (str_eq url.protocol "http:" || str_eq url.protocol "https:")
    some s

  optional_http_url : Option String → Option (Option String)
  optional_http_url none = some none
  optional_http_url (some s) = do url ← http_url s; some (some url)

  -- normalizedMediaAssetSchema
  parse_media : Media → Option Media
  unfolding max_text max_trimmed within http_url optional_http_url
  parse_media m = do
    alt_text ← max_text 1000 m.alt_text
    byte_length ← within 0 250000000 m.byte_length
    duration_milliseconds ← within 0 86400000 m.duration_milliseconds
    height ← within 1 32768 m.height
    mime_type ← max_trimmed 200 m.mime_type
    preview_url ← optional_http_url m.preview_url
    remote_url ← http_url m.remote_url
    width ← within 1 32768 m.width
    some (record {
      alt_text = alt_text;
      byte_length = byte_length;
      duration_milliseconds = duration_milliseconds;
      height = height;
      kind = m.kind;
      mime_type = mime_type;
      preview_url = preview_url;
      remote_url = remote_url;
      width = width;
    })

  -- normalizedSourcePostSchema
  parse_post : Post → Option Post
  unfolding parse_media trimmed_between traverse
  parse_post p = do
    author_name ← max_trimmed 500 p.author_name
    boosted_by ← max_trimmed 500 p.boosted_by
    require (leb (length p.categories) 50)
    categories ← traverse (trimmed_between 200) p.categories
    community_name ← max_trimmed 500 p.community_name
    content_warning ← max_trimmed 2000 p.content_warning
    external_id ← trimmed_between 1024 p.external_id
    require (leb (length p.media) 20)
    media ← traverse parse_media p.media
    original_url ← http_url p.original_url
    provider_language ← max_trimmed 35 p.provider_language
    summary ← max_text 20000 p.summary
    title ← max_text 2000 p.title
    some (record p {
      author_name = author_name;
      boosted_by = boosted_by;
      categories = categories;
      community_name = community_name;
      content_warning = content_warning;
      external_id = external_id;
      media = media;
      original_url = original_url;
      provider_language = provider_language;
      summary = summary;
      title = title;
    })

  -- connectorPageSchema.parse, with `none` where it throws
  unfoldable pub parse_page : Page → Option Page
  unfolding parse_post
  parse_page page = do
    require (leb (length page.posts) 200)
    posts ← traverse parse_post page.posts
    some (record page { posts = posts })

pub record HttpRequest : Type 0 where
  pub url : String
  pub method : String
  pub body : List ℕ

pub record HttpResponse : Type 0 where
  pub status : ℕ
  pub body : List ℕ

pub data Reply : Type 0 where
  response : HttpResponse → Reply
  failed : Thrown → Reply

-- `fetchPage` as it runs: it returns a page, throws, or makes a request and goes on with the reply.
pub data Fetch : Type 0 where
  returns : Page → Fetch
  throws : Thrown → Fetch
  requests : HttpRequest → (Reply → Fetch) → Fetch
