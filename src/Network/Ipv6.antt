-- ===== src/Network/Ipv6.antt =====
-- IPv6 addresses of packages/connectors/src/ip-policy.ts as eight groups, the blocks that are not
-- public, and the IPv4 addresses inside.
use Prim.Native.Char.{code}
use Prim.Native.String
use Prim.Native.String.{String, [], ◌∷◌}
use text.Mathlib.Text.{◌==◌ as str_eq}
use mirth_spool.Base.{
  ℕ, zero, suc, ◌+◌, ◌-◌, ◌*◌, ◌/◌, ◌%◌, ◌^◌, Bool, true, false, not, ◌&&◌, ◌||◌, Option, none,
  some, List, leb, ltb, ◌==◌, if◌then◌else◌, any, map, length, ◌++◌,
}
use mirth_spool.Network.Ipv4.{split, ipv4_number, is_public_ipv4}

-- address.split("%", 1)[0]
pub before_zone : String → String
before_zone [] = []
before_zone (c ∷ s) = let rest = before_zone s in if code c == b'%' then [] else c ∷ rest

unfoldable pub has_char : ℕ → String → Bool
has_char n [] = false
has_char n (c ∷ s) = let rest = has_char n s in if code c == n then true else rest

-- s.slice(0, s.lastIndexOf(":")) and s.slice(s.lastIndexOf(":") + 1), of a text with a colon
unfoldable pub last_part : ℕ → String → String × String
unfolding has_char
last_part separator [] = ([], [])
last_part separator (c ∷ s) =
    let (before, after) = last_part separator s in
    if code c == separator && not (has_char separator s) then ([], s) else (c ∷ before, after)

-- the halves around the first "::", and whether there is one
double_colon : String → String → String × String × Bool
double_colon before [] = (before, [], false)
double_colon before (c ∷ []) = (String.◌++◌ before (c ∷ []), [], false)
double_colon before (c ∷ d ∷ s) =
    let later = double_colon (String.◌++◌ before (c ∷ [])) (d ∷ s) in
    if code c == b':' && code d == b':' then (before, s, true) else later

hex_digit : ℕ → ℕ
hex_digit c = if leb c b'9' then c - b'0' else c - b'a' + 10

-- Number.parseInt(part, 16) of hexadecimal digits, which isIP has checked
hex_of : ℕ → String → ℕ
unfolding hex_digit
hex_of acc [] = acc
hex_of acc (c ∷ s) = hex_of (acc * 16 + hex_digit (code c)) s

parse_side : String → List ℕ
unfolding split hex_of
parse_side side = if str_eq side "" then List.[] else map (hex_of 0) (split b':' side)

zeros : ℕ → List ℕ
zeros zero = List.[]
zeros (suc n) = List.◌∷◌ 0 (zeros n)

-- The groups of a text without a dotted part. `second` is what `split("::", 2)` has second, which
-- leaves out whatever stands behind another "::"; a valid address has no other.
groups_of : String → Option (List ℕ)
unfolding double_colon parse_side zeros
groups_of text =
    let (left, right, double) = double_colon [] text in
    let before = parse_side left in
    let after = parse_side right in
    let given = length before + length after in
    if ltb 8 given || (not double && not (given == 8))
    then none
    else some (before ++ (zeros (8 - given) ++ after))

-- A dotted IPv4 part at the end becomes two groups: its text in hexadecimal digits is read again.
dotted_groups : (String → ℕ) → String → Option (List ℕ)
unfolding last_part groups_of ipv4_number
dotted_groups is_ip text =
    let (before, dotted) = last_part b':' text in
    elim (ipv4_number is_ip dotted) [
      | none ↦ none
      | some n ↦ elim (groups_of (String.◌++◌ before ":0:0")) [
        | none ↦ none
        | some groups ↦ some (set_last_two (n / 65536) (n % 65536) groups)
      ]
    ]
  where
    set_last_two : ℕ → ℕ → List ℕ → List ℕ
    set_last_two high low List.[] = List.[]
    set_last_two high low (List.◌∷◌ a List.[]) = List.◌∷◌ a List.[]
    set_last_two high low (List.◌∷◌ a (List.◌∷◌ b List.[])) = List.◌∷◌ high (List.◌∷◌ low List.[])
    set_last_two high low (List.◌∷◌ a (List.◌∷◌ b (List.◌∷◌ c rest))) =
        List.◌∷◌ a (set_last_two high low (List.◌∷◌ b (List.◌∷◌ c rest)))

unfoldable pub expand_ipv6 : (String → ℕ) → (String → String) → String → Option (List ℕ)
unfolding before_zone has_char dotted_groups groups_of
expand_ipv6 is_ip lower address =
    if is_ip address == 6
    then (let text = lower (before_zone address) in
        if has_char b'.' text then dotted_groups is_ip text else groups_of text)
    else none

-- The first `full` groups are the same, and the first `remainder` bits of the next.
same_prefix : ℕ → ℕ → List ℕ → List ℕ → Bool
same_prefix (suc full) remainder (List.◌∷◌ p ps) (List.◌∷◌ b bs) =
    let rest = same_prefix full remainder ps bs in if p == b then rest else false
same_prefix (suc full) remainder _ _ = true
same_prefix zero remainder (List.◌∷◌ p ps) (List.◌∷◌ b bs) =
    remainder == 0 || p / 2 ^ (16 - remainder) == b / 2 ^ (16 - remainder)
same_prefix zero remainder _ _ = true

unfoldable pub ipv6_prefix : List ℕ → List ℕ → ℕ → Bool
unfolding same_prefix
ipv6_prefix parts base bits = same_prefix (bits / 16) (bits % 16) parts base

-- A base of eight groups, from its first groups on.
based : List ℕ → List ℕ
unfolding zeros
based first = first ++ zeros (8 - length first)

-- nonPublicIpv6Cidrs, with the bases expanded
non_public_ipv6_cidrs : List (List ℕ × ℕ)
unfolding based
non_public_ipv6_cidrs =
    List.◌∷◌ (based List.[], 128)
      (List.◌∷◌ (zeros 7 ++ List.◌∷◌ 1 List.[], 128)
        (List.◌∷◌ (based (List.◌∷◌ 0x100 List.[]), 64)
          (List.◌∷◌ (based (List.◌∷◌ 0x2001 (List.◌∷◌ 0xdb8 List.[])), 32)
            (List.◌∷◌ (based (List.◌∷◌ 0xfc00 List.[]), 7)
              (List.◌∷◌ (based (List.◌∷◌ 0xfe80 List.[]), 10)
                (List.◌∷◌ (based (List.◌∷◌ 0xff00 List.[]), 8) List.[]))))))

group_at : ℕ → List ℕ → ℕ
group_at n List.[] = 0
group_at zero (List.◌∷◌ p ps) = p
group_at (suc n) (List.◌∷◌ p ps) = group_at n ps

-- ::ffff:0:0/96, 64:ff9b::/96 and 2002::/16
is_mapped : List ℕ → Bool
unfolding zeros ipv6_prefix
is_mapped parts = ipv6_prefix parts (zeros 5 ++ List.◌∷◌ 0xffff (zeros 2)) 96

is_nat64 : List ℕ → Bool
unfolding based ipv6_prefix
is_nat64 parts = ipv6_prefix parts (based (List.◌∷◌ 0x64 (List.◌∷◌ 0xff9b List.[]))) 96

is_six_to_four : List ℕ → Bool
unfolding based ipv6_prefix
is_six_to_four parts = ipv6_prefix parts (based (List.◌∷◌ 0x2002 List.[])) 16

-- embeddedIpv4, as a number instead of its dotted text
unfoldable pub embedded_ipv4 : List ℕ → Option ℕ
unfolding is_mapped is_nat64 is_six_to_four group_at
embedded_ipv4 parts =
    if is_six_to_four parts
    then some (group_at 1 parts * 65536 + group_at 2 parts)
    else if is_mapped parts || is_nat64 parts
    then some (group_at 6 parts * 65536 + group_at 7 parts)
    else none

-- The IPv6 branch of isPublicAddress: the text of an embedded address is an IPv4 address.
unfoldable pub is_public_ipv6 : List ℕ → Bool
unfolding embedded_ipv4 non_public_ipv6_cidrs ipv6_prefix is_public_ipv4
is_public_ipv6 parts = elim (embedded_ipv4 parts) [
  | some n ↦ is_public_ipv4 n
  | none ↦ not (any (λ (c : List ℕ × ℕ). ipv6_prefix parts c.0 c.1) non_public_ipv6_cidrs)
]
