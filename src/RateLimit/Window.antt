-- ===== src/RateLimit/Window.antt =====
-- How many requests a window allows.
use Prim.Native.String
use Prim.Native.String.{String}
use mirth_spool.Base.{
  ℕ, suc, ◌+◌, ◌-◌, ◌*◌, ◌≤◌, ◌<◌, ◌≡◌, refl, ap, subst, ◌∙◌, min, true, false, ◌||◌, some, List,
  [], ◌∷◌, arith, leb, ltb, ◌==◌, if◌then◌else◌, All, length,
}
use mirth_spool.Text.{utf16_length}
use mirth_spool.RateLimit.{Redis, Entry, live, RedisLaws, increment_script, allowed_of}

live_in :
    (now value end : ℕ)
    → now < end
    → live now (some (record { value = value; deadline = some end }))
      ≡ record { value = value; deadline = some end }
live_in now value end early = let e : leb end now ≡ false = ground arith in rw e refl

module _ {Store : Type 0} (redis : Redis Store) (laws : RedisLaws redis) (prefix key : String)
    (limit window_seconds : ℕ) (key_fits : (1 ≤ utf16_length key) × (utf16_length key ≤ 256))
    (window_fits : (1 ≤ window_seconds) × (window_seconds ≤ 86400)) where
  full_key : String
  full_key = String.◌++◌ prefix key

  -- The state of the key in a window: a count, and the end of the window.
  abbrev Holds : Store → ℕ → ℕ → Type 0
  Holds s n end = laws.view full_key s ≡ some (record { value = n; deadline = some end })

  -- A request in the window of a count that is not zero.
  script_later :
      (now n end : ℕ) (s : Store)
      → Holds s (suc n) end
      → now < end
      → ((increment_script redis now full_key window_seconds s).0.0 ≡ suc n + 1)
        × Holds (increment_script redis now full_key window_seconds s).1 (suc n + 1) end
  unfolding increment_script
  script_later now n end s h early =
      let e = ap (live now) h ∙ live_in now (suc n) end early in
      let v : (redis.incr now full_key s).0 ≡ suc n + 1 =
        laws.incr_value now full_key s ∙ ap (λ (x : Entry). x.value + 1) e in
      let no : (redis.incr now full_key s).0 == 1 ≡ false = ground (arith, v) in
      (
        v,
        rw no (
            laws.incr_view now full_key s
            ∙ ap (λ (x : Entry). some (record { value = x.value + 1; deadline = x.deadline })) e),
      )

  -- The first request of a window.
  script_first :
      (now : ℕ) (s : Store)
      → (live now (laws.view full_key s)).value ≡ 0
      → ((increment_script redis now full_key window_seconds s).0.0 ≡ 1)
        × Holds
            (increment_script redis now full_key window_seconds s).1
            1
            (now + window_seconds * 1000)
  unfolding increment_script
  script_first now s fresh =
      let v : (redis.incr now full_key s).0 ≡ 1 =
        laws.incr_value now full_key s ∙ ap (λ n. n + 1) fresh in
      let yes : (redis.incr now full_key s).0 == 1 ≡ true = ground (arith, v) in
      (
        v,
        rw yes (
            laws.expire_view now full_key window_seconds _ _ _ (laws.incr_view now full_key s)
            ∙ ap
                (λ n.
                  some (record { value = n + 1; deadline = some (now + window_seconds * 1000) }))
                fresh),
      )

  count_of : ℕ → Store → ℕ
  count_of now s = (increment_script redis now full_key window_seconds s).0.0

  after : ℕ → Store → Store
  after now s = (increment_script redis now full_key window_seconds s).1

  -- One request more, by its count.
  allowed-cons :
      (now : ℕ) (times : List ℕ) (s : Store) (n : ℕ)
      → allowed_of redis prefix key limit window_seconds times (after now s) ≡ some n
      → allowed_of redis prefix key limit window_seconds (now ∷ times) s
        ≡ some ((if leb (count_of now s) limit then 1 else 0) + n)
  unfolding allowed_of count_of after full_key
  allowed-cons now times s n e =
      let a : (ltb (utf16_length key) 1 || ltb 256 (utf16_length key)) ≡ false = ground arith in
      let b : (ltb window_seconds 1 || ltb 86400 window_seconds) ≡ false = ground arith in
      rw (a, b, allowed_of, e) refl

  allowed_later :
      (times : List ℕ) (n end : ℕ) (s : Store)
      → Holds s (suc n) end
      → All (λ t. t < end) times
      → allowed_of redis prefix key limit window_seconds times s
        ≡ some (min (limit - suc n) (length times))
  allowed_later [] n end s h early = unfold allowed_of in ap some (omega arith)
  allowed_later (now ∷ times) n end s h early =
      let (count, holds) = script_later now n end s h early.0 in
      let rest =
        allowed_later times (suc n) end (after now s)
          (unfold after in
            subst (λ m. Holds (increment_script redis now full_key window_seconds s).1 m end)
              (plus_one (suc n)) holds)
          early.1 in
      allowed-cons now times s _ rest ∙ ap some (tally now times n s count)
    where
      plus_one : (m : ℕ) → m + 1 ≡ suc m
      plus_one m = omega arith

      tally :
          (now : ℕ) (times : List ℕ) (n : ℕ) (s : Store)
          → (increment_script redis now full_key window_seconds s).0.0 ≡ suc n + 1
          → (if leb (count_of now s) limit then 1 else 0) + min (limit - suc (suc n)) (length times)
            ≡ min (limit - suc n) (suc (length times))
      tally now times n s c = unfold count_of in ground (arith, c)

  -- Of the requests on a key of 1 to 256 characters that meet a window of 1 to 86400 seconds, the
  -- first of them at a time when no count is live and the others before the window ends, exactly the
  -- first `limit` are allowed.
  pub consume_rate_limit_window :
      (now : ℕ) (times : List ℕ) (s : Store)
      → (live now (laws.view (String.◌++◌ prefix key) s)).value ≡ 0
      → All (λ t. t < now + window_seconds * 1000) times
      → allowed_of redis prefix key limit window_seconds (now ∷ times) s
        ≡ some (min limit (suc (length times)))
  unfolding full_key
  consume_rate_limit_window now times s fresh early =
      let (count, holds) = script_first now s fresh in
      let rest =
        allowed_later times 0 (now + window_seconds * 1000) (after now s) (unfold after in holds)
          early in
      allowed-cons now times s _ rest ∙ ap some (first_tally count)
    where
      first_tally :
          (increment_script redis now full_key window_seconds s).0.0 ≡ 1
          → (if leb (count_of now s) limit then 1 else 0) + min (limit - 1) (length times)
            ≡ min limit (suc (length times))
      first_tally c = unfold count_of in ground (arith, c)
