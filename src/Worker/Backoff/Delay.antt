-- ===== src/Worker/Backoff/Delay.antt =====
-- The bounds of the delay between attempts, and that it grows.
use mathlib.Core.Option.{some-injective}
use native.Mathlib.Nat.{pow-le-pow_right, pow-suc}
use mirth_spool.Base.{ℕ, suc, zero, ◌-◌, ◌^◌, ◌≤◌, ◌≡◌, Option, none, some, arith, refl, sym, ◌∙◌}
use mirth_spool.Connector.Errors.Retry.{IsBoundedWait}
use mirth_spool.Worker.Backoff.{backoff_base, retry_delay_milliseconds, source_backoff_strategy}

pow_pos : (n : ℕ) → 1 ≤ 2 ^ n
pow_pos zero = omega arith
pow_pos (suc n) = rw pow-suc (omega (arith, pow_pos n))

backoff_base_bounds :
    (attempt : ℕ) → (5000 ≤ backoff_base attempt) × (backoff_base attempt ≤ 300000)
unfolding backoff_base
backoff_base_bounds attempt = omega (arith, pow_pos (attempt - 1))

-- The delay before an attempt is between one second and a day where the provider named a wait, and
-- between five seconds and 301 seconds where it did not.
pub retry_delay_milliseconds_bounds :
    (word : ℕ → ℕ → ℕ) (source_id attempt : ℕ) (retry_after : Option ℕ)
    → IsBoundedWait retry_after
    → (1000 ≤ retry_delay_milliseconds word source_id attempt retry_after)
      × (retry_delay_milliseconds word source_id attempt retry_after ≤ 86400000)
      × (retry_after ≡ none
          → (5000 ≤ retry_delay_milliseconds word source_id attempt retry_after)
            × (retry_delay_milliseconds word source_id attempt retry_after ≤ 301000))
unfolding retry_delay_milliseconds
retry_delay_milliseconds_bounds word source_id attempt none h =
    let b = backoff_base_bounds attempt in
    (omega arith, omega arith, λ _. (omega arith, omega arith))
retry_delay_milliseconds_bounds word source_id attempt (some s) h =
    (omega arith, omega arith, λ e. cc)

base_mono : (i j : ℕ) → i ≤ j → backoff_base i ≤ backoff_base j
unfolding backoff_base
base_mono i j h =
    omega (arith, pow-le-pow_right {n = 2} (omega arith) {i = i - 1} {j = j - 1} (omega arith))

base_top : (i : ℕ) → 7 ≤ i → backoff_base i ≡ 300000
unfolding backoff_base
base_top i h =
    omega (arith, pow-le-pow_right {n = 2} (omega arith) {i = 6} {j = i - 1} (omega arith))

strategy_base :
    (attempt : ℕ)
    → source_backoff_strategy attempt (some "source-exponential") none ≡ some (backoff_base attempt)
unfolding source_backoff_strategy
strategy_base attempt = refl

-- The delay of the queue for an error that names no delay never falls from an earlier attempt to a
-- later one, and is 300 seconds from the seventh attempt on.
pub source_backoff_strategy_grows :
    (i j d e : ℕ)
    → i ≤ j
    → source_backoff_strategy i (some "source-exponential") none ≡ some d
    → source_backoff_strategy j (some "source-exponential") none ≡ some e
    → (d ≤ e) × (7 ≤ i → d ≡ 300000)
source_backoff_strategy_grows i j d e h p q =
    let dd = some-injective _ _ (sym (strategy_base i) ∙ p) in
    let ee = some-injective _ _ (sym (strategy_base j) ∙ q) in
    (omega (arith, dd, ee, base_mono i j h), λ k. sym dd ∙ base_top i k)
