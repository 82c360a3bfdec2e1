-- ===== src/RateLimit/Proxy.antt =====
-- `getClientAddress` of apps/web/src/lib/auth/rate-limit.ts: the address that a trusted proxy vouches
-- for. The digest, the decoder of signatures and the address parser are parameters.
pub mod Signed
use Prim.Native.Char.{Char, code}
use Prim.Native.String
use Prim.Native.String.{String, [], ◌∷◌}
use text.Mathlib.Text.{◌==◌ as str_eq}
use mirth_spool.Base.{
  ℕ, zero, suc, ◌+◌, ◌-◌, ◌*◌, ◌^◌, Bool, true, false, not, ◌&&◌, ◌||◌, Option, none, some, List,
  leb, ltb, ◌==◌, if◌then◌else◌, length,
}
use mirth_spool.Text.{trim}

pub record Proxies : Type 0 where
  -- headers.get(name)
  pub headers : String → Option String
  pub trusted_addresses : List String
  pub secret : String
  pub now : ℕ
  -- isIP of node:net, which is 0 for a text that is no address
  pub is_ip : String → ℕ
  -- createHmac("sha256", secret).update(text).digest()
  pub hmac_sha256 : String → String → List ℕ
  -- Buffer.from(text, "base64url")
  pub decode_signature : String → List ℕ

-- headers.get(name)?.trim(), where an empty text counts as absent
pub header : (String → Option String) → String → Option String
header headers name = elim (headers name) [
  | none ↦ none
  | some v ↦ if str_eq (trim v) "" then none else some (trim v)
]

pub includes : List String → String → Bool
includes List.[] s = false
includes (List.◌∷◌ x xs) s = if str_eq x s then true else includes xs s

has_comma : String → Bool
has_comma [] = false
has_comma (c ∷ s) = let rest = has_comma s in if code c == b',' then true else rest

-- Number(text) of a text that matches /^\d{10,13}$/u, behind the digits read already
digits_from : ℕ → String → Option ℕ
digits_from acc [] = some acc
digits_from acc (c ∷ s) =
    let rest = digits_from (acc * 10 + (code c - b'0')) s in
    if leb b'0' (code c) && leb (code c) b'9' then rest else none

count_chars : String → ℕ
count_chars [] = 0
count_chars (c ∷ s) = suc (count_chars s)

-- The timestamp in milliseconds: ten digits are seconds.
pub timestamp_of : String → Option ℕ
unfolding digits_from count_chars
timestamp_of text =
    let n = count_chars text in
    if leb 10 n && leb n 13
    then (elim (digits_from 0 text) [
      | none ↦ none
      | some t ↦ some (if n == 10 then t * 1000 else t)
    ])
    else none

-- supplied.length === expected.length && timingSafeEqual(supplied, expected)
pub same_bytes : List ℕ → List ℕ → Bool
same_bytes List.[] List.[] = true
same_bytes List.[] (List.◌∷◌ b bs) = false
same_bytes (List.◌∷◌ a xs) List.[] = false
same_bytes (List.◌∷◌ a xs) (List.◌∷◌ b bs) =
    let rest = same_bytes xs bs in if a == b then rest else false

-- `${forwarded}\n${forwardingProxy}\n${timestamp}`
pub signed_text : String → String → String → String
signed_text forwarded proxy timestamp =
    String.◌++◌ forwarded (String.◌++◌ "\n" (String.◌++◌ proxy (String.◌++◌ "\n" timestamp)))

-- Math.abs(now - t) > 60_000
pub is_far : ℕ → ℕ → Bool
is_far now t = ltb 60000 (now - t) || ltb 60000 (t - now)

verified : Proxies → String → String → String → String → Bool
unfolding same_bytes signed_text
verified p forwarded proxy timestamp signature =
    same_bytes (p.decode_signature signature)
      (p.hmac_sha256 p.secret (signed_text forwarded proxy timestamp))

-- the checks behind the header of the proxy
forwarded_address : Proxies → String → Option String
unfolding header has_comma timestamp_of is_far verified
forwarded_address p proxy = elim (header p.headers "x-forwarded-for") [
  | none ↦ none
  | some forwarded ↦ elim (header p.headers "x-mirthspool-forwarded-at") [
    | none ↦ none
    | some timestamp ↦ elim (header p.headers "x-mirthspool-forwarded-signature") [
      | none ↦ none
      | some signature ↦ elim (timestamp_of timestamp) [
        | none ↦ none
        | some t ↦
            if has_comma forwarded || p.is_ip forwarded == 0
            then none
            else if ltb 9007199254740991 t || is_far p.now t
            then none
            else if verified p forwarded proxy timestamp signature
            then some forwarded
            else none
      ]
    ]
  ]
]

-- `none` is the text "direct", which is no address.
unfoldable pub get_client_address : Proxies → Option String
unfolding header includes forwarded_address
get_client_address p = elim (header p.headers "x-mirthspool-forwarded-by") [
  | none ↦ none
  | some proxy ↦ if includes p.trusted_addresses proxy then forwarded_address p proxy else none
]
