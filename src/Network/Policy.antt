-- ===== src/Network/Policy.antt =====
-- `isPublicAddress`, `assertAddressPolicy`, `matchesAllowlist` and `validateOutboundUrl` of
-- packages/connectors/src/ip-policy.ts.
pub mod Allowed
use Prim.Native.Char.{Char, code}
use Prim.Native.String
use Prim.Native.String.{String, [], ◌∷◌}
use text.Mathlib.Text.{◌==◌ as str_eq}
use mirth_spool.Base.{
  ℕ, zero, suc, ◌+◌, ◌-◌, ◌*◌, Bool, true, false, not, ◌&&◌, ◌||◌, Option, none, some, List, leb,
  ltb, ◌==◌, if◌then◌else◌, any, elem,
}
use mirth_spool.Text.{Url, utf16_length}
use mirth_spool.Network.Ipv4.{ipv4_number, in_ipv4_cidr, is_public_ipv4}
use mirth_spool.Network.Ipv6.{expand_ipv6, ipv6_prefix, is_public_ipv6, last_part, has_char}

pub record ResolvedAddress : Type 0 where
  pub address : String
  pub family : ℕ

-- Number(text) of a port, which the URL parser has checked.
whole_from : ℕ → String → Option ℕ
whole_from acc [] = some acc
whole_from acc (c ∷ s) =
    let rest = whole_from (acc * 10 + (code c - b'0')) s in
    if leb b'0' (code c) && leb (code c) b'9' then rest else none

ends_with_dot : String → Bool
ends_with_dot [] = false
ends_with_dot (c ∷ []) = code c == b'.'
ends_with_dot (c ∷ d ∷ s) = ends_with_dot (d ∷ s)

module _ (is_ip : String → ℕ) (lower : String → String) where
  unfoldable pub is_public_address : String → Bool
  unfolding ipv4_number expand_ipv6 is_public_ipv4 is_public_ipv6
  is_public_address address = elim (ipv4_number is_ip address) [
    | some n ↦ is_public_ipv4 n
    | none ↦ elim (expand_ipv6 is_ip lower address) [
      | none ↦ false
      | some parts ↦ is_public_ipv6 parts
    ]
  ]

  -- the IPv6 block of an entry
  in_ipv6_entry : String → String → Option (ℕ × Bool) → Bool
  unfolding expand_ipv6 ipv6_prefix
  in_ipv6_entry base address prefix = elim (expand_ipv6 is_ip lower address) [
    | none ↦ false
    | some parts ↦ elim (expand_ipv6 is_ip lower base) [
      | none ↦ false
      | some base_parts ↦ elim prefix [
        | none ↦ false
        | some (bits, whole) ↦ whole && leb bits 128 && ipv6_prefix parts base_parts bits
      ]
    ]
  ]

  in_block : String → String → Option (ℕ × Bool) → Bool
  unfolding ipv4_number in_ipv4_cidr in_ipv6_entry
  in_block base address prefix = elim (ipv4_number is_ip address) [
    | none ↦ in_ipv6_entry base address prefix
    | some n ↦ elim prefix [
      | none ↦ in_ipv6_entry base address none
      | some (bits, whole) ↦
          if is_ip base == 4 && leb bits 32
          then (elim (ipv4_number is_ip base) [
            | none ↦ false
            | some base_number ↦ in_ipv4_cidr n base_number bits
          ])
          else in_ipv6_entry base address (some (bits, whole))
    ]
  ]

  -- `number` is Number(text) where it is not below zero: rounded up, and whether it is whole.
  module _ (number : String → Option (ℕ × Bool)) where
    -- An entry without a slash behind its first character is no block. The `number`
    -- behind the slash may have a fraction: a mask takes it rounded up, and an IPv6 block rejects it.
    pub matches_allowlist : String → String → String → Bool
    unfolding in_block last_part has_char
    matches_allowlist hostname address entry =
        if str_eq entry (lower hostname) || str_eq entry (lower address)
        then true
        else (let (base, prefix) = last_part b'/' entry in
            if not (has_char b'/' entry) || str_eq base ""
            then false
            else in_block base address (number prefix))

    -- the checks of the loop
    pub is_allowed_address : List String → String → ResolvedAddress → Bool
    unfolding is_public_address matches_allowlist
    is_allowed_address allowlist hostname r =
        is_ip r.address == r.family
        && (is_public_address r.address || any (matches_allowlist hostname r.address) allowlist)

    all_allowed : List String → String → List ResolvedAddress → Bool
    unfolding is_allowed_address
    all_allowed allowlist hostname List.[] = true
    all_allowed allowlist hostname (List.◌∷◌ r rs) =
        let rest = all_allowed allowlist hostname rs in
        if is_allowed_address allowlist hostname r then rest else false

    -- `none` is a throw.
    unfoldable pub assert_address_policy :
        List ResolvedAddress → List String → String → Option ResolvedAddress
    unfolding all_allowed
    assert_address_policy List.[] allowlist hostname = none
    assert_address_policy (List.◌∷◌ r rs) allowlist hostname =
        if all_allowed allowlist hostname (List.◌∷◌ r rs) then some r else none

-- url.port === "" ? … : Number(url.port)
port_of : Url → Option ℕ
unfolding whole_from
port_of url =
    if str_eq url.port ""
    then some (if str_eq url.protocol "https:" then 443 else 80)
    else whole_from 0 url.port

port_allowed : List ℕ → Option ℕ → Bool
port_allowed allowed none = false
port_allowed allowed (some port) = elem port allowed

-- `none` is a throw. `parse_url` is new URL(text).
unfoldable pub validate_outbound_url : (String → Option Url) → String → List ℕ → Option Url
unfolding ends_with_dot port_of port_allowed
validate_outbound_url parse_url input allowed_ports =
    if ltb 2048 (utf16_length input) then none else (elim (parse_url input) [
      | none ↦ none
      | some url ↦
          if not (str_eq url.protocol "http:" || str_eq url.protocol "https:")
          then none
          else if not (str_eq url.username "" && str_eq url.password "")
          then none
          else if not (str_eq url.hash "")
          then none
          else if str_eq url.hostname "" || ends_with_dot url.hostname
          then none
          else if port_allowed allowed_ports (port_of url)
          then some url
          else none
    ])
