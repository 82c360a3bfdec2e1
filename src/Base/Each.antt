-- ===== src/Base/Each.antt =====
-- What holds of every element, through the operations on lists.
use mirth_spool.Base.Lists.{All, take, filter}
use mirth_spool.Base.Tests.{Bool-cases}
use Prim.Native.Nat.{ℕ, zero, suc}
use mathlib.Core.Path.{◌≡◌}
use mathlib.Core.Bool.{Bool, true}
use mathlib.Core.Logic.{inl, inr}
use mathlib.Core.List.{List, [], ◌∷◌, map}

module _ {ℓ κ} {A : Type ℓ} where
  pub each : (P Q : A → Type κ) (xs : List A) → ((x : A) → P x → Q x) → All P xs → All Q xs
  each P Q [] f h = tt
  each P Q (x ∷ xs) f h = (f x h.0, each P Q xs f h.1)

  pub take-each : (P : A → Type κ) (n : ℕ) (xs : List A) → All P xs → All P (take n xs)
  take-each P zero xs h = tt
  take-each P (suc n) [] h = tt
  take-each P (suc n) (x ∷ xs) h = (h.0, take-each P n xs h.1)

  -- What passes a filter had `P`, and passes the test.
  pub filter-each :
      (P Q : A → Type κ) (q : A → Bool) (xs : List A)
      → ((x : A) → P x → q x ≡ true → Q x)
      → All P xs
      → All Q (filter q xs)
  filter-each P Q q [] f h = tt
  filter-each P Q q (x ∷ xs) f h = elim (Bool-cases (q x)) [
    | inl e ↦ rw e (f x h.0 e, filter-each P Q q xs f h.1)
    | inr e ↦ rw e (filter-each P Q q xs f h.1)
  ]

  pub trivial : (xs : List A) → All (λ x. Unit {κ}) xs
  trivial [] = tt
  trivial (x ∷ xs) = (tt, trivial xs)

module _ {ℓ κ} {A B : Type ℓ} where
  pub map-each :
      (P : A → Type κ) (Q : B → Type κ) (f : A → B) (xs : List A)
      → ((x : A) → P x → Q (f x))
      → All P xs
      → All Q (map f xs)
  map-each P Q f [] k h = tt
  map-each P Q f (x ∷ xs) k h = (k x h.0, map-each P Q f xs k h.1)

pub pair-each {ℓ κ} :
    {A : Type ℓ} (P Q : A → Type κ) (xs : List A) → All P xs → All Q xs → All (λ x. P x × Q x) xs
pair-each P Q [] h k = tt
pair-each P Q (x ∷ xs) h k = ((h.0, k.0), pair-each P Q xs h.1 k.1)
