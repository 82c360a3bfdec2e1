-- ===== src/Text.antt =====
-- The text operations of JavaScript that the code uses, over native strings: a character is a code
-- point, and lengths count UTF-16 code units. What rests on Unicode's tables or on the URL and hash
-- libraries is the parameter `Platform`.
use Prim.Native.Char.{Char, code}
use Prim.Native.String
use Prim.Native.String.{String, [], ◌∷◌}
use text.Mathlib.Text.{◌==◌ as str_eq}
use mirth_spool.Base.Double.{DoubleOps}
use mirth_spool.Base.{ℕ, ◌+◌, ◌-◌, Bool, ◌&&◌, ◌||◌, Option, List, leb, ◌==◌, if◌then◌else◌}

-- WhiteSpace and LineTerminator of ECMAScript, which `trim` and `\s` use
unfoldable pub is_space : ℕ → Bool
is_space c =
    (leb 9 c && leb c 13)
    || c == 32
    || c == 160
    || c == 0x1680
    || (leb 0x2000 c && leb c 0x200a)
    || c == 0x2028
    || c == 0x2029
    || c == 0x202f
    || c == 0x205f
    || c == 0x3000
    || c == 0xfeff

pub trim_start : String → String
trim_start [] = []
trim_start (c ∷ s) = if is_space (code c) then trim_start s else c ∷ s

pub trim_end : String → String
trim_end [] = []
trim_end (c ∷ s) =
    let rest = trim_end s in if is_space (code c) && str_eq rest "" then [] else c ∷ rest

-- String.prototype.trim
unfoldable pub trim : String → String
unfolding is_space trim_start trim_end
trim s = trim_end (trim_start s)

-- How many UTF-16 code units a code point takes.
abbrev pub units : Char → ℕ
units c = if leb 0x10000 (code c) then 2 else 1

-- String.prototype.length
unfoldable pub utf16_length : String → ℕ
utf16_length [] = 0
utf16_length (c ∷ s) = units c + utf16_length s

-- s.slice(0, n), where no surrogate pair is cut: a code point that does not fit is left out.
unfoldable pub slice_to : ℕ → String → String
slice_to n [] = []
slice_to n (c ∷ s) = let rest = slice_to (n - units c) s in if leb (units c) n then c ∷ rest else []

-- Array.prototype.join(" ")
unfoldable pub join_space : List String → String
join_space List.[] = ""
join_space (List.◌∷◌ s List.[]) = s
join_space (List.◌∷◌ s rest) = String.◌++◌ s (String.◌++◌ " " (join_space rest))

-- A parsed URL, with the components that the code reads or writes.
pub record Url : Type 0 where
  pub protocol : String
  pub username : String
  pub password : String
  pub hostname : String
  pub port : String
  pub pathname : String
  pub search_params : List (String × String)
  pub hash : String

pub record Platform : Type 0 where
  -- String.prototype.normalize("NFKC")
  pub nfkc : String → String
  -- String.prototype.toLocaleLowerCase, toLowerCase
  pub lower : String → String
  -- \p{L} or \p{N}
  pub is_letter_or_number : ℕ → Bool
  -- new URL(text), which throws on a text that is no URL, and url.toString()
  pub parse_url : String → Option Url
  pub print_url : Url → String
  -- createHash("sha256").update(text).digest("hex")
  pub sha256_hex : String → String
  -- createHash("md5").update(id).digest().readUInt32BE(0), of the text of an identifier, and the
  -- same of "sha256"
  pub md5_word : ℕ → ℕ
  pub sha256_word : String → ℕ
  -- floating-point arithmetic
  pub doubles : DoubleOps
