-- ===== src/Deduplication/Hash.antt =====
-- packages/deduplication/src/perceptual-hash.ts: the difference hash of a small image, and the
-- distance of two hashes.
pub mod Distance
use Prim.Native.Char.{Char, code}
use Prim.Native.String.{String, [], ◌∷◌}
use mirth_spool.Base.{
  ℕ, zero, suc, ◌+◌, ◌-◌, ◌*◌, ◌/◌, ◌%◌, Bool, true, false, ◌&&◌, Option, none, some, List, leb,
  ltb, ◌==◌, if◌then◌else◌, length,
}
use mirth_spool.Base.Double.{Double, DoubleOps}
use mirth_spool.Base.Int.{ℤ, pos}

-- The value of a lower-case hexadecimal digit.
digit_value : ℕ → Option ℕ
digit_value c =
    if leb b'0' c && leb c b'9'
    then some (c - b'0')
    else if leb b'a' c && leb c b'f'
    then some (c - b'a' + 10)
    else none

-- BigInt(`0x${s}`) of a text of hexadecimal digits, behind the digits read already.
hex_from : ℕ → String → Option ℕ
unfolding digit_value
hex_from acc [] = some acc
hex_from acc (c ∷ s) = elim (digit_value (code c)) [
  | none ↦ none
  | some d ↦ hex_from (acc * 16 + d) s
]

count_chars : String → ℕ
count_chars [] = 0
count_chars (c ∷ s) = suc (count_chars s)

-- The value of a text that matches /^[0-9a-f]{16}$/u.
unfoldable pub hash_value : String → Option ℕ
unfolding hex_from count_chars
hash_value s = if count_chars s == 16 then hex_from 0 s else none

-- left ^ right, of numbers below 2 ** width
unfoldable pub xor : ℕ → ℕ → ℕ → ℕ
xor zero a b = 0
xor (suc width) a b = (a % 2 + b % 2) % 2 + 2 * xor width (a / 2) (b / 2)

-- while (value > 0n) …: `width` rounds are enough for a value below 2 ** width.
unfoldable pub ones : ℕ → ℕ → ℕ
ones zero value = 0
ones (suc width) value = value % 2 + ones width (value / 2)

unfoldable pub value_distance : ℕ → ℕ → ℕ
unfolding xor ones
value_distance a b = ones 64 (xor 64 a b)

-- `none` where the schema rejects a hash.
unfoldable pub hamming_distance : String → String → Option ℕ
unfolding hash_value value_distance
hamming_distance left right = elim (hash_value left) [
  | none ↦ none
  | some a ↦ elim (hash_value right) [ none ↦ none | some b ↦ some (value_distance a b) ]
]

-- Bits of one row: the pixels of a row from its first on, pushed behind `value`.
row_bits : ℕ → ℕ → ℕ → List ℕ → ℕ × List ℕ
row_bits columns value left List.[] = (value, List.[])
row_bits zero value left (List.◌∷◌ p ps) = (value, List.◌∷◌ p ps)
row_bits (suc columns) value left (List.◌∷◌ p ps) =
    row_bits columns (value * 2 + (if ltb p left then 1 else 0)) p ps

-- Eight rows of nine pixels.
rows_bits : ℕ → ℕ → List ℕ → ℕ
unfolding row_bits
rows_bits zero value pixels = value
rows_bits (suc rows) value List.[] = value
rows_bits (suc rows) value (List.◌∷◌ p ps) =
    let (next, rest) = row_bits 8 value p ps in rows_bits rows next rest

-- differenceHash, whose text is the number in 16 hexadecimal digits. `none` where it throws.
unfoldable pub difference_hash : List ℕ → Option ℕ
unfolding rows_bits
difference_hash grayscale = if length grayscale == 72 then some (rows_bits 8 0 grayscale) else none

module _ (doubles : DoubleOps) where
  open doubles use {of_ℤ, sub, div, abs, lt, max as max_D}

  abbrev whole : ℕ → Double
  whole n = of_ℤ (pos n)

  -- the tolerance 0.02
  unfoldable pub tolerance : Double
  tolerance = div (whole 2) (whole 100)

  ratio : ℕ → ℕ → Double
  ratio a b = div (abs (sub (whole a) (whole b))) (max_D (whole a) (whole b))

  -- withinDimensionTolerance, of two sizes as width and height that are not zero
  unfoldable pub within_dimension_tolerance : ℕ × ℕ → ℕ × ℕ → Bool
  unfolding tolerance ratio
  within_dimension_tolerance (width, height) (other_width, other_height) =
      (if lt tolerance (ratio width other_width) then false else true)
      && (if lt tolerance (ratio height other_height) then false else true)
