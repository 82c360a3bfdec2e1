-- ===== src/Network/Policy/Allowed.antt =====
-- What the address policy lets through.
use Prim.Native.String.{String}
use mathlib.Core.Option.{some-injective}
use mirth_spool.Base.{
  ℕ, Bool, Option, ◌+◌, ◌*◌, ◌≡◌, refl, ap, map, true, not, none, some, List, [], ◌∷◌, arith, any,
  All, Bool-cases, inl, inr, ◌⊎◌, ◌<◌,
}
use mirth_spool.Network.Ipv4.{quad, ipv4_number, split, decimal_from}
use mirth_spool.Network.Ipv4.Blocks.{is_special, is_public_ipv4_octets}
use mirth_spool.Network.Ipv6.{expand_ipv6, embedded_ipv4, is_public_ipv6}
use mirth_spool.Network.Policy.{
  ResolvedAddress, is_public_address, matches_allowlist, is_allowed_address, all_allowed,
  assert_address_policy,
}

-- Eight groups with the octets of an IPv4 address inside: mapped, NAT64 or 6to4.
pub data Carries (a b c d : ℕ) : List ℕ → Type 0 where
  mapped : Carries a b c d (0 ∷ 0 ∷ 0 ∷ 0 ∷ 0 ∷ 0xffff ∷ (a * 256 + b) ∷ (c * 256 + d) ∷ [])
  nat64 : Carries a b c d (0x64 ∷ 0xff9b ∷ 0 ∷ 0 ∷ 0 ∷ 0 ∷ (a * 256 + b) ∷ (c * 256 + d) ∷ [])
  six_to_four :
      (e f g h i : ℕ)
      → Carries a b c d (0x2002 ∷ (a * 256 + b) ∷ (c * 256 + d) ∷ e ∷ f ∷ g ∷ h ∷ i ∷ [])

octets_quad : (a b c d : ℕ) → (a * 256 + b) * 65536 + (c * 256 + d) ≡ quad a b c d
unfolding quad
octets_quad a b c d = omega arith

Carries-embedded_ipv4 :
    (a b c d : ℕ) (parts : List ℕ)
    → Carries a b c d parts
    → embedded_ipv4 parts ≡ some (quad a b c d)
unfolding embedded_ipv4
Carries-embedded_ipv4 a b c d _ mapped = ap some (octets_quad a b c d)
Carries-embedded_ipv4 a b c d _ nat64 = ap some (octets_quad a b c d)
Carries-embedded_ipv4 a b c d _ (six_to_four e f g h i) = ap some (octets_quad a b c d)

module _ (is_ip : String → ℕ) (lower : String → String) (number : String → Option (ℕ × Bool)) where
  -- An address is of its family, and public or on the list.
  pub record IsAllowed (allowlist : List String) (hostname : String) (r : ResolvedAddress)
      : Type 0 where
    pub family : is_ip r.address ≡ r.family
    pub reachable :
        (is_public_address is_ip lower r.address ≡ true)
        ⊎ (any (matches_allowlist is_ip lower number hostname r.address) allowlist ≡ true)

  address-IsAllowed :
      (allowlist : List String) (hostname : String) (r : ResolvedAddress)
      → is_allowed_address is_ip lower number allowlist hostname r ≡ true
      → IsAllowed allowlist hostname r
  unfolding is_allowed_address
  address-IsAllowed allowlist hostname r h = record {
    family = ground (arith, h);
    reachable = elim (Bool-cases (is_public_address is_ip lower r.address)) [
      | inl open_to ↦ inl open_to
      | inr closed ↦ inr (ground (arith, h, closed))
    ];
  }

  all_allowed-All :
      (allowlist : List String) (hostname : String) (rs : List ResolvedAddress)
      → all_allowed is_ip lower number allowlist hostname rs ≡ true
      → All (IsAllowed allowlist hostname) rs
  unfolding all_allowed
  all_allowed-All allowlist hostname [] h = tt
  all_allowed-All allowlist hostname (r ∷ rs) h =
      elim (Bool-cases (is_allowed_address is_ip lower number allowlist hostname r)) [
        | inl good ↦ (
          address-IsAllowed allowlist hostname r good,
          all_allowed-All allowlist hostname rs (rw good at h),
        )
        | inr bad ↦ cc (rw bad at h)
      ]

  -- The policy gives the first resolved address, and only if every address that the name resolved to
  -- is of its family and is public or on the allowlist.
  pub assert_address_policy-All :
      (rs : List ResolvedAddress) (allowlist : List String) (hostname : String)
      (r : ResolvedAddress)
      → assert_address_policy is_ip lower number rs allowlist hostname ≡ some r
      → All (IsAllowed allowlist hostname) rs × ((rest : List ResolvedAddress) × (rs ≡ r ∷ rest))
  unfolding assert_address_policy
  assert_address_policy-All [] allowlist hostname r e = cc
  assert_address_policy-All (x ∷ rs) allowlist hostname r e =
      elim (Bool-cases (all_allowed is_ip lower number allowlist hostname (x ∷ rs))) [
        | inl good ↦ (
          all_allowed-All allowlist hostname (x ∷ rs) good,
          (rs, λ i. (some-injective _ _ (rw good at e)) i ∷ rs),
        )
        | inr bad ↦ cc (rw bad at e)
      ]

module _ (is_ip : String → ℕ) (lower : String → String) where
  -- An IPv4 address whose numbers between the dots are a, b, c and d is public exactly when they are
  -- of no special range. So is an IPv6 address whose eight groups carry a, b, c and d: as
  -- ::ffff:a.b.c.d, as 64:ff9b::a.b.c.d, or as 2002: with the octets in the next two groups.
  pub is_public_address_octets :
      (address : String) (a b c d : ℕ)
      → a < 256
      → b < 256
      → c < 256
      → d < 256
      → ((is_ip address ≡ 4) × (map (decimal_from 0) (split b'.' address) ≡ a ∷ b ∷ c ∷ d ∷ []))
        ⊎ ((is_ip address ≡ 6)
            × ((parts : List ℕ) × (expand_ipv6 is_ip lower address ≡ some parts)
                × Carries a b c d parts))
      → is_public_address is_ip lower address ≡ not (is_special a b c)
  unfolding is_public_address ipv4_number
  is_public_address_octets address a b c d ha hb hc hd (inl (four, e)) =
      let n : ipv4_number is_ip address ≡ some (quad a b c d) = rw (four, e) refl in
      rw (n, is_public_address) (is_public_ipv4_octets a b c d ha hb hc hd)
  is_public_address_octets address a b c d ha hb hc hd (inr (six, (parts, p, carries))) =
      let n : ipv4_number is_ip address ≡ none = rw six refl in
      rw (n, p, is_public_address, is_public_ipv6, Carries-embedded_ipv4 a b c d parts carries)
        (is_public_ipv4_octets a b c d ha hb hc hd)
