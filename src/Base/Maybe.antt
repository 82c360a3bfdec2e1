-- ===== src/Base/Maybe.antt =====
-- A chain of steps of which each may throw, where only success or failure matters.
use Prim.Native.Nat.{ℕ, suc}
use mathlib.Core.Path.{◌≡◌, refl, sym, ap, ◌∙◌}
use mathlib.Core.Option.{some-injective}
use mirth_spool.Base.Lists.{length}
use mathlib.Core.Bool.{Bool, true, false}
use mathlib.Core.Option.{Option, none, some}
use mathlib.Core.List.{List, [], ◌∷◌}

infixl 5 ◌>>=◌ ◌>>◌
abbrev pub ◌>>=◌ {ℓ κ} : {A : Type ℓ} {B : Type κ} → Option A → (A → Option B) → Option B
none >>= f = none
some a >>= f = f a

abbrev pub ◌>>◌ {ℓ} : {B : Type ℓ} → Option (Unit {0}) → Option B → Option B
m >> k = m >>= λ _. k

abbrev pub require : Bool → Option (Unit {0})
require true = some tt
require false = none

-- Each element by a step that may throw.
unfoldable pub traverse {ℓ κ} :
    {A : Type ℓ} {B : Type κ} → (A → Option B) → List A → Option (List B)
traverse f [] = some []
traverse f (x ∷ xs) = let rest = traverse f xs in do y ← f x; ys ← rest; some (y ∷ ys)

step_length {κ} :
    {B : Type κ} (n : ℕ) (a : Option B) (b : Option (List B)) (ys : List B)
    → ((zs : List B) → b ≡ some zs → length zs ≡ n)
    → (a >>= λ y. b >>= λ zs. some (y ∷ zs)) ≡ some ys
    → length ys ≡ suc n
step_length n none b ys h q = cc
step_length n (some y) none ys h q = cc
step_length n (some y) (some zs) ys h q =
    sym (ap length (some-injective _ _ q)) ∙ ap suc (h zs refl)

pub traverse-length {ℓ κ} :
    {A : Type ℓ} {B : Type κ} (f : A → Option B) (xs : List A) (ys : List B)
    → traverse f xs ≡ some ys
    → length ys ≡ length xs
unfolding traverse
traverse-length f [] ys e = ap length (sym (some-injective _ _ e))
traverse-length f (x ∷ xs) ys e =
    step_length (length xs) (f x) (traverse f xs) ys (λ zs p. traverse-length f xs zs p) e
