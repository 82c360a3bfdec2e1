-- ===== src/Deduplication/Tag.antt =====
-- `normalizeTag` of packages/deduplication/src/normalization.ts and packages/db/src/tags.ts, which
-- have the same text: the slug of a tag, by the replacements in their order.
use Prim.Native.Char.{code}
use Prim.Native.String
use Prim.Native.String.{String, [], ◌∷◌}
use text.Mathlib.Text.{◌==◌ as str_eq}
use mirth_spool.Base.{Bool, true, false, not, ◌&&◌, ◌||◌, Option, none, some, ◌==◌, if◌then◌else◌}
use mirth_spool.Text.{Platform, is_space, trim, slice_to}

-- .replace(/^#+/u, "")
strip_hashes : String → String
strip_hashes [] = []
strip_hashes (c ∷ s) = if code c == b'#' then strip_hashes s else c ∷ s

-- .replace(/[\s_]+/gu, "-"): a run of blanks and underscores is one dash. `within` says that the
-- last character was of the run.
dash_blanks : Bool → String → String
unfolding is_space
dash_blanks within [] = []
dash_blanks within (c ∷ s) =
    let blank = is_space (code c) || code c == b'_' in
    let rest = dash_blanks blank s in
    if blank then (if within then rest else String.◌++◌ "-" rest) else c ∷ rest

-- .replace(/-+/gu, "-")
collapse_dashes : Bool → String → String
collapse_dashes within [] = []
collapse_dashes within (c ∷ s) =
    let rest = collapse_dashes (code c == b'-') s in
    if code c == b'-' && within then rest else c ∷ rest

-- .replace(/^-|-$/gu, "")
strip_first : String → String
strip_first [] = []
strip_first (c ∷ s) = if code c == b'-' then s else c ∷ s

strip_last : String → String
strip_last [] = []
strip_last (c ∷ s) =
    let rest = strip_last s in if code c == b'-' && str_eq s "" then [] else c ∷ rest

module _ (platform : Platform) where
  open platform use {nfkc, lower, is_letter_or_number}

  -- .replace(/[^\p{L}\p{N}-]+/gu, "")
  keep_slug_characters : String → String
  keep_slug_characters [] = []
  keep_slug_characters (c ∷ s) =
      let rest = keep_slug_characters s in
      if is_letter_or_number (code c) || code c == b'-' then c ∷ rest else rest

  -- /^[\p{L}\p{N}]+(?:-[\p{L}\p{N}]+)*$/u. `inside` says that a letter or a number has just been read.
  matches_slug : Bool → String → Bool
  matches_slug inside [] = inside
  matches_slug inside (c ∷ s) =
      let letter = matches_slug true s in
      let dash = matches_slug false s in
      if is_letter_or_number (code c)
      then letter
      else if code c == b'-' && inside
      then dash
      else false

  -- the chain of replacements, up to the last slice
  slug_of : String → String
  unfolding strip_hashes dash_blanks keep_slug_characters collapse_dashes strip_first strip_last
  slug_of value = strip_last (
      strip_first (
        collapse_dashes false
          (keep_slug_characters (dash_blanks false (lower (strip_hashes (trim (nfkc value))))))))

  unfoldable pub normalize_tag : String → Option String
  unfolding slug_of matches_slug
  normalize_tag value =
      let slug = slice_to 80 (slug_of value) in
      if not (str_eq slug "") && matches_slug false slug then some slug else none
