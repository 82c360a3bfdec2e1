-- ===== src/Network/Ipv4/Blocks.antt =====
-- The public IPv4 addresses by their octets.
use mirth_spool.Base.{ℕ, ◌<◌, ◌≡◌, refl, Bool, not, ◌&&◌, [], ◌∷◌, arith, leb, ◌==◌, any}
use mirth_spool.Network.Ipv4.{quad, masked, in_ipv4_cidr, non_public_ipv4_cidrs, is_public_ipv4}

-- The octets of private, shared, local, documentation, benchmark, multicast and reserved addresses.
abbrev pub is_special : ℕ → ℕ → ℕ → Bool
is_special a b c =
    any (λ t. t)
      ((a == 0)
        ∷ (a == 10)
        ∷ (a == 100 && leb 64 b && leb b 127)
        ∷ (a == 127)
        ∷ (a == 169 && b == 254)
        ∷ (a == 172 && leb 16 b && leb b 31)
        ∷ (a == 192 && b == 0 && c == 0)
        ∷ (a == 192 && b == 0 && c == 2)
        ∷ (a == 192 && b == 168)
        ∷ (a == 198 && leb 18 b && leb b 19)
        ∷ (a == 198 && b == 51 && c == 100)
        ∷ (a == 203 && b == 0 && c == 113)
        ∷ (leb 224 a && leb a 239)
        ∷ (leb 240 a)
        ∷ [])

module _ (a b c d : ℕ) (ha : a < 256) (hb : b < 256) (hc : c < 256) (hd : d < 256) where
  in8 : (x : ℕ) → x < 256 → in_ipv4_cidr (quad a b c d) (quad x 0 0 0) 8 ≡ (a == x)
  unfolding in_ipv4_cidr quad masked
  in8 x h = ground arith

  in16 :
      (x y : ℕ)
      → x < 256
      → y < 256
      → in_ipv4_cidr (quad a b c d) (quad x y 0 0) 16 ≡ (a == x && b == y)
  unfolding in_ipv4_cidr quad masked
  in16 x y h k = ground arith

  in24 :
      (x y z : ℕ)
      → x < 256
      → y < 256
      → z < 256
      → in_ipv4_cidr (quad a b c d) (quad x y z 0) 24 ≡ (a == x && b == y && c == z)
  unfolding in_ipv4_cidr quad masked
  in24 x y z h k l = ground arith

  in_shared : in_ipv4_cidr (quad a b c d) (quad 100 64 0 0) 10 ≡ (a == 100 && leb 64 b && leb b 127)
  unfolding in_ipv4_cidr quad masked
  in_shared = ground arith

  in_private : in_ipv4_cidr (quad a b c d) (quad 172 16 0 0) 12 ≡ (a == 172 && leb 16 b && leb b 31)
  unfolding in_ipv4_cidr quad masked
  in_private = ground arith

  in_benchmark :
      in_ipv4_cidr (quad a b c d) (quad 198 18 0 0) 15 ≡ (a == 198 && leb 18 b && leb b 19)
  unfolding in_ipv4_cidr quad masked
  in_benchmark = ground arith

  in_multicast : in_ipv4_cidr (quad a b c d) (quad 224 0 0 0) 4 ≡ (leb 224 a && leb a 239)
  unfolding in_ipv4_cidr quad masked
  in_multicast = ground arith

  in_reserved : in_ipv4_cidr (quad a b c d) (quad 240 0 0 0) 4 ≡ leb 240 a
  unfolding in_ipv4_cidr quad masked
  in_reserved = ground arith

  -- An IPv4 address is public exactly when its octets are of no special range.
  pub is_public_ipv4_octets : is_public_ipv4 (quad a b c d) ≡ not (is_special a b c)
  unfolding is_public_ipv4 non_public_ipv4_cidrs
  is_public_ipv4_octets =
      rw
        (
          in8 0 (omega arith),
          in8 10 (omega arith),
          in_shared,
          in8 127 (omega arith),
          in16 169 254 (omega arith) (omega arith),
          in_private,
          in24 192 0 0 (omega arith) (omega arith) (omega arith),
          in24 192 0 2 (omega arith) (omega arith) (omega arith),
          in16 192 168 (omega arith) (omega arith),
          in_benchmark,
          in24 198 51 100 (omega arith) (omega arith) (omega arith),
          in24 203 0 113 (omega arith) (omega arith) (omega arith),
          in_multicast,
          in_reserved,
        )
        refl
