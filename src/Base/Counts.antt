-- ===== src/Base/Counts.antt =====
-- How many rows pass a test, through the operations on lists.
use mathlib.Core.List.{List, [], ◌∷◌, map}
use mirth_spool.Base.Lists.{take, filter}
use mirth_spool.Base.Tests.{if◌then◌else◌}
use mirth_spool.Base.Table.{count_where}
use mirth_spool.Base.Sort.{insert, sort}
use Prim.Native.Nat.{ℕ, zero, suc, ◌+◌, ◌≤◌}
use mathlib.Core.Path.{◌≡◌, refl}
use mathlib.Core.Bool.{Bool, true}
use native.Mathlib.Omega.{arith}

module _ {ℓ} {A : Type ℓ} (p : A → Bool) where
  pub count-take-le : (n : ℕ) (xs : List A) → count_where p (take n xs) ≤ count_where p xs
  unfolding count_where
  count-take-le zero xs = omega arith
  count-take-le (suc n) [] = omega arith
  count-take-le (suc n) (x ∷ xs) = ground (arith, count-take-le n xs)

  pub count-filter-le :
      (q : A → Bool) (xs : List A) → count_where p (filter q xs) ≤ count_where p xs
  unfolding count_where
  count-filter-le q [] = omega arith
  count-filter-le q (x ∷ xs) = ground (arith, count-filter-le q xs)

  count-insert :
      (le : A → A → Bool) (x : A) (xs : List A)
      → count_where p (insert le x xs) ≡ (if p x then 1 else 0) + count_where p xs
  unfolding count_where insert
  count-insert le x [] = refl
  count-insert le x (y ∷ ys) = ground (arith, count-insert le x ys)

  pub count-sort : (le : A → A → Bool) (xs : List A) → count_where p (sort le xs) ≡ count_where p xs
  unfolding count_where sort
  count-sort le [] = refl
  count-sort le (x ∷ xs) = ground (arith, count-insert le x (sort le xs), count-sort le xs)

  pub count-map :
      {B : Type ℓ} (q : B → Bool) (f : B → A) (xs : List B)
      → ((x : B) → p (f x) ≡ q x)
      → count_where p (map f xs) ≡ count_where q xs
  unfolding count_where
  count-map q f [] h = refl
  count-map q f (x ∷ xs) h = ground (arith, h x, count-map q f xs h)

  pub count-imp :
      (q : A → Bool) (xs : List A)
      → ((x : A) → p x ≡ true → q x ≡ true)
      → count_where p xs ≤ count_where q xs
  unfolding count_where
  count-imp q [] h = omega arith
  count-imp q (x ∷ xs) h = ground (arith, h x, count-imp q xs h)
