-- ===== src/RateLimit.antt =====
-- The limits on requests: packages/redis/src/fixed-window-store.ts and
-- apps/web/src/lib/auth/rate-limit.ts. Redis, the digests and the address parser are parameters.
pub mod Window
pub mod Proxy
use Prim.Native.Char.{Char, code}
use Prim.Native.String
use Prim.Native.String.{String, [], ◌∷◌}
use text.Mathlib.Text.{◌==◌ as str_eq}
use mirth_spool.Base.{
  ℕ, zero, suc, ◌+◌, ◌-◌, ◌*◌, max, Bool, true, false, not, ◌&&◌, ◌||◌, ◌≡◌, Option, none, some,
  List, leb, ltb, ◌==◌, if◌then◌else◌,
}
use mirth_spool.Text.{trim, utf16_length}

-- The commands of a Redis server on the keys that count. A time is in milliseconds.
pub record Redis (Store : Type 0) : Type 0 where
  -- INCR, with the new value
  pub incr : ℕ → String → Store → ℕ × Store
  -- EXPIRE, with a time to live in seconds
  pub expire : ℕ → String → ℕ → Store → Store
  -- TTL, in seconds
  pub ttl : ℕ → String → Store → ℕ

-- What a key holds: its value, and the time at which it expires.
pub record Entry : Type 0 where
  pub value : ℕ
  pub deadline : Option ℕ

-- The value that a command at a time meets: a key that is absent or has expired counts from zero.
abbrev pub live : ℕ → Option Entry → Entry
live now none = record { value = 0; deadline = none }
live now (some e) = elim e.deadline [
  | none ↦ e
  | some d ↦ if leb d now then record { value = 0; deadline = none } else e
]

-- The documented behaviour of the commands, by what the key holds afterwards.
pub record RedisLaws {Store : Type 0} (redis : Redis Store) : Type 0 where
  pub view : String → Store → Option Entry
  pub incr_value :
      (now : ℕ) (key : String) (s : Store)
      → (redis.incr now key s).0 ≡ (live now (view key s)).value + 1
  pub incr_view :
      (now : ℕ) (key : String) (s : Store)
      → view key (redis.incr now key s).1
        ≡ some (record {
          value = (live now (view key s)).value + 1;
          deadline = (live now (view key s)).deadline;
        })
  pub expire_view :
      (now : ℕ) (key : String) (seconds value : ℕ) (deadline : Option ℕ) (s : Store)
      → view key s ≡ some (record { value = value; deadline = deadline })
      → view key (redis.expire now key seconds s)
        ≡ some (record { value = value; deadline = some (now + seconds * 1000) })

pub record WindowCount : Type 0 where
  pub count : ℕ
  pub retry_after_seconds : ℕ

module _ {Store : Type 0} (redis : Redis Store) where
  -- incrementScript, which Redis runs as one command
  increment_script : ℕ → String → ℕ → Store → (ℕ × ℕ) × Store
  increment_script now key window_seconds s =
      let (current, counted) = redis.incr now key s in
      let kept = if current == 1 then redis.expire now key window_seconds counted else counted in
      ((current, redis.ttl now key kept), kept)

  -- RedisFixedWindowStore.increment with the prefix of the keys; `none` is a throw.
  unfoldable pub increment : String → Bool → ℕ → String → ℕ → Store → Option (WindowCount × Store)
  unfolding increment_script
  increment prefix connects now key window_seconds s =
      if ltb (utf16_length key) 1 || ltb 256 (utf16_length key)
      then none
      else if ltb window_seconds 1 || ltb 86400 window_seconds
      then none
      else if not connects
      then none
      else (let (r, kept) = increment_script now (String.◌++◌ prefix key) window_seconds s in
          some (record { count = r.0; retry_after_seconds = max 1 r.1 }, kept))

  -- consumeRateLimit
  unfoldable pub consume_rate_limit :
      String → Bool → ℕ → String → ℕ → ℕ → Store → Option ((Bool × WindowCount) × Store)
  unfolding increment
  consume_rate_limit prefix connects now key limit window_seconds s =
      elim (increment prefix connects now key window_seconds s) [
        | none ↦ none
        | some (r, kept) ↦ some ((leb r.count limit, r), kept)
      ]

  -- consumeInvitationAcceptanceLimits, with the hash of the address; the address is counted first.
  unfoldable pub consume_invitation_acceptance_limits :
      String → Bool → ℕ → String → String → Store → Option ((Bool × ℕ) × Store)
  unfolding consume_rate_limit
  consume_invitation_acceptance_limits prefix connects now address_hash token_hash s =
      elim (consume_rate_limit prefix connects now (String.◌++◌ "invite-ip:" address_hash) 10 900
        s) [
          | none ↦ none
          | some (address, s1) ↦
              elim (consume_rate_limit prefix connects now (String.◌++◌ "invite-token:" token_hash)
                5 900 s1) [
                  | none ↦ none
                  | some (token, s2) ↦ some (
                    (
                      address.0 && token.0,
                      max address.1.retry_after_seconds token.1.retry_after_seconds,
                    ),
                    s2,
                  )
                ]
        ]

  -- How many of the requests at these times are allowed; `none` where one throws.
  unfoldable pub allowed_of : String → String → ℕ → ℕ → List ℕ → Store → Option ℕ
  unfolding consume_rate_limit
  allowed_of prefix key limit window_seconds List.[] s = some 0
  allowed_of prefix key limit window_seconds (List.◌∷◌ now times) s =
      elim (consume_rate_limit prefix true now key limit window_seconds s) [
        | none ↦ none
        | some (r, kept) ↦ elim (allowed_of prefix key limit window_seconds times kept) [
          | none ↦ none
          | some n ↦ some ((if r.0 then 1 else 0) + n)
        ]
      ]
