-- ===== src/Deduplication/Hash/Distance.antt =====
-- The distance of two hashes is a metric on their bits, and is at most 64.
use Prim.Native.String.{String}
use mirth_spool.Base.{
  ℕ, zero, suc, ◌+◌, ◌*◌, ◌/◌, ◌%◌, ◌^◌, ◌≤◌, ◌<◌, ◌≡◌, refl, ap, subst, ◌↔◌, some, arith,
  Option-cases, Bool-cases, ◌==◌, inl, inr,
}
use native.Mathlib.Nat.{pow-suc, mul-le-mul_right}
use Prim.Native.Char.{code}
use mathlib.Core.Option.{some-injective}
use mirth_spool.Deduplication.Hash.{
  digit_value, hex_from, count_chars, hash_value, xor, ones, value_distance, hamming_distance,
}

ones-le : (w v : ℕ) → ones w v ≤ w
unfolding ones
ones-le zero v = omega arith
ones-le (suc w) v = omega (arith, ones-le w (v / 2))

xor_comm : (w a b : ℕ) → xor w a b ≡ xor w b a
unfolding xor
xor_comm zero a b = refl
xor_comm (suc w) a b = omega (arith, xor_comm w (a / 2) (b / 2))

half : (r x : ℕ) → r < 2 → (r + 2 * x) / 2 ≡ x
half r x h = omega arith

-- The bits of an exclusive or, one at a time.
ones-xor :
    (w a b : ℕ)
    → ones (suc w) (xor (suc w) a b) ≡ (a % 2 + b % 2) % 2 + ones w (xor w (a / 2) (b / 2))
unfolding ones xor
ones-xor w a b =
    let x = xor w (a / 2) (b / 2) in
    let r = (a % 2 + b % 2) % 2 in
    let h : (r + 2 * x) / 2 ≡ x = half r x (omega arith) in rw h (omega arith)

triangle : (w a b c : ℕ) → ones w (xor w a c) ≤ ones w (xor w a b) + ones w (xor w b c)
unfolding ones
triangle zero a b c = omega arith
triangle (suc w) a b c =
    omega
      (arith, ones-xor w a b, ones-xor w b c, ones-xor w a c, triangle w (a / 2) (b / 2) (c / 2))

apart : (w a b : ℕ) → a < 2 ^ w → b < 2 ^ w → ones w (xor w a b) ≡ 0 → a ≡ b
unfolding ones
apart zero a b p q h = omega arith
apart (suc w) a b p q h =
    let same =
      apart w (a / 2) (b / 2) (omega (arith, pow-suc 2 w)) (omega (arith, pow-suc 2 w))
        (omega (arith, ones-xor w a b)) in
    omega (arith, ones-xor w a b, same)

same : (w a : ℕ) → ones w (xor w a a) ≡ 0
unfolding ones
same zero a = refl
same (suc w) a = omega (arith, ones-xor w a a, same w (a / 2))

digit_value-lt : (c d : ℕ) → digit_value c ≡ some d → d < 16
unfolding digit_value
digit_value-lt c d h = ground arith

hex_from-lt :
    (s : String) (acc v : ℕ) → hex_from acc s ≡ some v → v < (acc + 1) * 16 ^ count_chars s
unfolding hex_from count_chars
hex_from-lt String.[] acc v h = omega (arith, some-injective _ _ h)
hex_from-lt (String.◌∷◌ c s) acc v h = elim (Option-cases (digit_value (code c))) [
  | inl bad ↦ cc (rw (bad, hex_from) at h)
  | inr (d, good) ↦
      let rest = hex_from-lt s (acc * 16 + d) v (rw (good, hex_from) at h) in
      let small = digit_value-lt (code c) d good in
      let grow : (acc * 16 + d + 1) * 16 ^ count_chars s ≤ ((acc + 1) * 16) * 16 ^ count_chars s =
        mul-le-mul_right (16 ^ count_chars s) (omega arith) in
      rw (pow-suc 16 (count_chars s)) (omega (arith, rest, grow))
]

-- A text that is a hash has a value of 64 bits.
hash_value-lt : (s : String) (v : ℕ) → hash_value s ≡ some v → v < 2 ^ 64
unfolding hash_value
hash_value-lt s v h = elim (Bool-cases (count_chars s == 16)) [
  | inr bad ↦ cc (rw (bad, hash_value) at h)
  | inl good ↦
      let e : count_chars s ≡ 16 = ground arith in
      let b = hex_from-lt s 0 v (rw (good, hash_value) at h) in
      omega (arith, subst (λ n. v < (0 + 1) * 16 ^ n) e b)
]

-- Of three texts that are hashes, with the values a, b and c: every distance is defined, at most 64
-- and symmetric, it is zero exactly for equal values, and none is longer than a way over the third.
pub hamming_distance_metric :
    (l r m : String) (a b c : ℕ)
    → hash_value l ≡ some a
    → hash_value r ≡ some b
    → hash_value m ≡ some c
    → (d e f : ℕ) × (hamming_distance l r ≡ some d)
      × (hamming_distance l m ≡ some e)
      × (hamming_distance m r ≡ some f)
      × (hamming_distance r l ≡ some d)
      × (d ≤ 64)
      × ((d ≡ 0) ↔ (a ≡ b))
      × (d ≤ e + f)
unfolding hamming_distance value_distance
hamming_distance_metric l r m a b c p q s = (
  value_distance a b,
  value_distance a c,
  value_distance c b,
  rw (p, q, hamming_distance) refl,
  rw (p, s, hamming_distance) refl,
  rw (s, q, hamming_distance) refl,
  rw (q, p, hamming_distance) (ap some (ap (ones 64) (xor_comm 64 b a))),
  ones-le 64 (xor 64 a b),
  (
    apart 64 a b (hash_value-lt l a p) (hash_value-lt r b q),
    λ e. subst (λ n. ones 64 (xor 64 a n) ≡ 0) e (same 64 a),
  ),
  triangle 64 a c b,
)
