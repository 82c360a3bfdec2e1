-- ===== src/Deduplication/CanonicalUrl.antt =====
-- `normalizeCanonicalUrl` and `canonicalUrlHash` of packages/deduplication/src/normalization.ts.
-- The URL parser, its printer and the digest are those of the platform.
use Prim.Native.String.{String, compare}
use text.Mathlib.Text.{◌==◌ as str_eq, starts_with, is_le}
use mirth_spool.Base.{Bool, ◌&&◌, ◌||◌, Option, none, some, if◌then◌else◌}
use mirth_spool.Base.Sort.{sort}
use mirth_spool.Base.Table.{delete_where}
use mirth_spool.Text.{Platform, Url}

-- trackingNames.has(name)
tracking_name : String → Bool
tracking_name name =
    str_eq name "fbclid"
    || str_eq name "gclid"
    || str_eq name "mc_cid"
    || str_eq name "mc_eid"
    || str_eq name "ref"
    || str_eq name "ref_src"

-- What `searchParams.delete` removes: `utm_` names and the tracking names, in any case.
is_tracking : (String → String) → String → Bool
unfolding tracking_name
is_tracking lower name = let n = lower name in starts_with n "utm_" || tracking_name n

-- URLSearchParams.sort: by name, and stable. Names are compared by code points here, which differs
-- from code units only between U+E000 to U+FFFF and the astral planes.
pub name_le : String × String → String × String → Bool
name_le (a, _) (b, _) = is_le (compare a b)

module _ (platform : Platform) where
  open platform use {lower, parse_url, print_url, sha256_hex}

  -- The loop over the names deletes every parameter with such a name.
  clean : Url → Url
  unfolding is_tracking
  clean url = record url {
    hash = "";
    search_params = sort name_le (delete_where (λ p. is_tracking lower p.0) url.search_params);
  }

  is_canonical_input : Url → Bool
  is_canonical_input url =
      (str_eq url.protocol "http:" || str_eq url.protocol "https:")
      && str_eq url.username ""
      && str_eq url.password ""

  -- `none` where the source throws: the text is no URL, or no HTTP(S) URL without credentials.
  unfoldable pub normalize_canonical_url : String → Option String
  unfolding clean is_canonical_input
  normalize_canonical_url value = elim (parse_url value) [
    | none ↦ none
    | some url ↦ if is_canonical_input url then some (print_url (clean url)) else none
  ]

  unfoldable pub canonical_url_hash : String → Option String
  unfolding normalize_canonical_url
  canonical_url_hash value = elim (normalize_canonical_url value) [
    | none ↦ none
    | some url ↦ some (sha256_hex url)
  ]
