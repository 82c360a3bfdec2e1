-- ===== src/Network/Ipv4.antt =====
-- IPv4 addresses of packages/connectors/src/ip-policy.ts as 32-bit numbers, and the blocks that are
-- not public.
pub mod Blocks
use Prim.Native.Char.{Char, code}
use Prim.Native.String
use Prim.Native.String.{String, [], ◌∷◌}
use mirth_spool.Base.{
  ℕ, zero, suc, ◌+◌, ◌-◌, ◌*◌, ◌/◌, ◌%◌, ◌^◌, Bool, true, false, not, ◌&&◌, ◌||◌, Option, none,
  some, List, leb, ltb, ◌==◌, if◌then◌else◌, any, map,
}

-- address.split(".") and the like, with the part that is being read
pub split_from : ℕ → String → String → List String
split_from separator part [] = List.◌∷◌ part List.[]
split_from separator part (c ∷ s) =
    let next = split_from separator [] s in
    let longer = split_from separator (String.◌++◌ part (c ∷ [])) s in
    if code c == separator then List.◌∷◌ part next else longer

unfoldable pub split : ℕ → String → List String
unfolding split_from
split separator s = split_from separator [] s

-- Number(text) of decimal digits, which isIP has checked
pub decimal_from : ℕ → String → ℕ
decimal_from acc [] = acc
decimal_from acc (c ∷ s) = decimal_from (acc * 10 + (code c - b'0')) s

-- ((a << 24) >>> 0) + (b << 16) + (c << 8) + d
unfoldable pub quad : ℕ → ℕ → ℕ → ℕ → ℕ
quad a b c d = a * 16777216 + b * 65536 + c * 256 + d

quad_of : List ℕ → Option ℕ
unfolding quad
quad_of (List.◌∷◌ a (List.◌∷◌ b (List.◌∷◌ c (List.◌∷◌ d List.[])))) = some (quad a b c d)
quad_of _ = none

-- `is_ip` is isIP of node:net: 4, 6, or 0 for a text that is no address.
unfoldable pub ipv4_number : (String → ℕ) → String → Option ℕ
unfolding split decimal_from quad_of
ipv4_number is_ip address =
    if is_ip address == 4 then quad_of (map (decimal_from 0) (split b'.' address)) else none

-- address & mask, with a mask of `prefix` ones and then zeros
masked : ℕ → ℕ → ℕ
masked prefix n = n - n % 2 ^ (32 - prefix)

unfoldable pub in_ipv4_cidr : ℕ → ℕ → ℕ → Bool
unfolding masked
in_ipv4_cidr address base prefix = masked prefix address == masked prefix base

-- nonPublicIpv4Cidrs
non_public_ipv4_cidrs : List (ℕ × ℕ)
unfolding quad
non_public_ipv4_cidrs =
    List.◌∷◌ (quad 0 0 0 0, 8)
      (List.◌∷◌ (quad 10 0 0 0, 8)
        (List.◌∷◌ (quad 100 64 0 0, 10)
          (List.◌∷◌ (quad 127 0 0 0, 8)
            (List.◌∷◌ (quad 169 254 0 0, 16)
              (List.◌∷◌ (quad 172 16 0 0, 12)
                (List.◌∷◌ (quad 192 0 0 0, 24)
                  (List.◌∷◌ (quad 192 0 2 0, 24)
                    (List.◌∷◌ (quad 192 168 0 0, 16)
                      (List.◌∷◌ (quad 198 18 0 0, 15)
                        (List.◌∷◌ (quad 198 51 100 0, 24)
                          (List.◌∷◌ (quad 203 0 113 0, 24)
                            (List.◌∷◌ (quad 224 0 0 0, 4)
                              (List.◌∷◌ (quad 240 0 0 0, 4) List.[])))))))))))))

-- The IPv4 branch of isPublicAddress.
unfoldable pub is_public_ipv4 : ℕ → Bool
unfolding non_public_ipv4_cidrs in_ipv4_cidr
is_public_ipv4 n = not (any (λ (c : ℕ × ℕ). in_ipv4_cidr n c.0 c.1) non_public_ipv4_cidrs)
