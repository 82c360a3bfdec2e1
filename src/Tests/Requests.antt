-- ===== src/Tests/Requests.antt =====
-- Tests of requests: the windows of the rate limit, the addresses of clients, and the addresses that
-- connectors may reach.
use Prim.Native.String.{String}
use text.Mathlib.Text.{◌==◌ as str_eq}
use mirth_spool.Base.{
  ◌+◌, ◌*◌, ◌≡◌, refl, inr, min, not, Option, none, some, List, [], ◌∷◌, arith, if◌then◌else◌, All,
}
use mirth_spool.Text.{trim, utf16_length}
use mirth_spool.RateLimit.{Redis, Entry, live, RedisLaws, allowed_of}
use mirth_spool.RateLimit.Window.{consume_rate_limit_window}
use mirth_spool.RateLimit.Proxy.{Proxies, get_client_address}
use mirth_spool.RateLimit.Proxy.Signed.{IsSigned, get_client_address-IsSigned}
use mirth_spool.Network.Ipv4.{quad, ipv4_number, split, is_public_ipv4}
use mirth_spool.Network.Ipv6.{expand_ipv6}
use mirth_spool.Network.Ipv4.Blocks.{is_special}
use mirth_spool.Network.Policy.{ResolvedAddress, is_public_address, assert_address_policy}
use mirth_spool.Network.Policy.Allowed.{
  IsAllowed, mapped, assert_address_policy-All, is_public_address_octets,
}

-- A server that keeps one key, whatever its name.
abbrev one_key : Redis (Option Entry)
one_key = record {
  incr = λ now key s. (
    (live now s).value + 1,
    some (record { value = (live now s).value + 1; deadline = (live now s).deadline }),
  );
  expire = λ now key seconds s. elim s [
    | none ↦ none
    | some e ↦ some (record { value = e.value; deadline = some (now + seconds * 1000) })
  ];
  ttl = λ now key s. 1;
}

one_key_laws : RedisLaws one_key
one_key_laws = record {
  view = λ key s. s;
  incr_value = λ now key s. refl;
  incr_view = λ now key s. refl;
  expire_view = λ now key seconds value deadline s e. rw e refl;
}

consume_rate_limit_window_example :
    allowed_of one_key "p:" "login" 2 60 (100 ∷ 200 ∷ 300 ∷ []) none ≡ some (min 2 3)
unfolding utf16_length one_key_laws
consume_rate_limit_window_example =
    consume_rate_limit_window one_key one_key_laws "p:" "login" 2 60 (omega arith, omega arith)
      (omega arith, omega arith) 100 (200 ∷ 300 ∷ []) none refl (omega arith, (omega arith, tt))

abbrev test_headers : String → Option String
test_headers name =
    if str_eq name "x-mirthspool-forwarded-by"
    then some "10.0.0.1"
    else if str_eq name "x-forwarded-for"
    then some "8.8.8.8"
    else if str_eq name "x-mirthspool-forwarded-at"
    then some "1700000000"
    else some "sig"

abbrev test_proxies : Proxies
test_proxies = record {
  headers = test_headers;
  trusted_addresses = "10.0.0.1" ∷ [];
  secret = "secret";
  now = 1700000005000;
  is_ip = λ _. 4;
  hmac_sha256 = λ _ _. 1 ∷ 2 ∷ [];
  decode_signature = λ _. 1 ∷ 2 ∷ [];
}

get_client_address-IsSigned_example : IsSigned test_proxies "8.8.8.8"
unfolding get_client_address trim
get_client_address-IsSigned_example = get_client_address-IsSigned test_proxies "8.8.8.8" refl

is_public_address_octets_example :
    is_public_address (λ _. 6) (λ s. s) "::ffff:a01:203" ≡ not (is_special 10 1 2)
unfolding expand_ipv6 split
is_public_address_octets_example =
    is_public_address_octets (λ _. 6) (λ s. s) "::ffff:a01:203" 10 1 2 3 (omega arith) (omega arith)
      (omega arith) (omega arith)
      (inr (refl, (0 ∷ 0 ∷ 0 ∷ 0 ∷ 0 ∷ 0xffff ∷ 2561 ∷ 515 ∷ [], refl, mapped)))

abbrev resolved : ResolvedAddress
resolved = record { address = "8.8.8.8"; family = 4 }

assert_address_policy-All_example :
    All (IsAllowed (λ _. 4) (λ s. s) (λ _. none) [] "dns.example") (resolved ∷ [])
    × ((rest : List ResolvedAddress) × (resolved ∷ [] ≡ resolved ∷ rest))
unfolding assert_address_policy is_public_address ipv4_number split quad is_public_ipv4
assert_address_policy-All_example =
    assert_address_policy-All (λ _. 4) (λ s. s) (λ _. none) (resolved ∷ []) [] "dns.example"
      resolved refl
