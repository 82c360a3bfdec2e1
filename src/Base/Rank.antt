-- ===== src/Base/Rank.antt =====
-- The lexicographic order of ranks: the specification of an order by several columns.
use mirth_spool.Base.{ℕ, Bool, true, false, List, [], ◌∷◌, ltb, ◌==◌, if◌then◌else◌}

-- The first column in which the ranks differ decides, and equal ranks may stand in any order.
unfoldable pub ranks_before : List ℕ → List ℕ → Bool
ranks_before [] ys = true
ranks_before (a ∷ xs) [] = false
ranks_before (a ∷ xs) (b ∷ ys) = let rest = ranks_before xs ys in if a == b then rest else ltb a b
