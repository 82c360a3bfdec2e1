-- ===== src/TokenCache/Fresh.antt =====
-- What every run of `getOrCreate` keeps.
use Prim.Native.String.{String}
use text.Mathlib.Text.{◌==◌ as str_eq}
use mirth_spool.Base.{
  ℕ, zero, suc, ◌+◌, ◌≤◌, ◌<◌, ◌≡◌, ◌≢◌, sym, ◌∙◌, refl, subst, Bool, true, false, not, ◌||◌,
  Option, none, some, List, [], ◌∷◌, arith, leb, ltb, if◌then◌else◌, All, length, Bool-cases,
  Option-cases, inl, inr,
}
use mathlib.Core.Option.{some-injective}
use mirth_spool.Text.{utf16_length}
use mirth_spool.TokenCache.{
  CachedToken, ParsedToken, Acquired, acquired, acquire_failed, RedisServer, RedisCommand,
  get_token, set_lock, set_token, release_lock, TokenResult, token, unavailable, rethrown,
  fresh_token, checked_token, parse_cached_token, read_token, wait_shared, acquire_token, released,
  after_lock, after_read, get_or_create, ttl_seconds,
}

-- The token is good for more than thirty seconds from a moment at which the clock was read.
pub record IsFresh (server : RedisServer) (t : CachedToken) : Type 0 where
  pub read : ℕ
  pub fresh : server.now read + 30000 < t.expires_at

pub data IsFreshResult (server : RedisServer) : TokenResult → Type 0 where
  a_token : (t : CachedToken) → IsFresh server t → IsFreshResult server (token t)
  an_error : IsFreshResult server unavailable
  passed_on : IsFreshResult server rethrown

abbrev pub IsRead : RedisCommand → Type 0
IsRead get_token = Unit
IsRead _ = ⊥

-- The commands of a run: reads at most; or a request of the lock that was not granted, and reads; or
-- one that was granted, at most one write of a token, and the release of the lock.
pub data IsSequence (server : RedisServer) : List RedisCommand → Type 0 where
  nothing : IsSequence server []
  only_read : IsSequence server (get_token ∷ [])
  waited :
      (reads : List RedisCommand)
      → server.locks ≢ some true
      → All IsRead reads
      → length reads ≤ 40
      → IsSequence server (get_token ∷ set_lock ∷ reads)
  held : server.locks ≡ some true → IsSequence server (get_token ∷ set_lock ∷ release_lock ∷ [])
  wrote :
      (t : CachedToken) (ttl : ℕ)
      → server.locks ≡ some true
      → IsFresh server t
      → 1 ≤ ttl
      → IsSequence server (get_token ∷ set_lock ∷ set_token t ttl ∷ release_lock ∷ [])

fresh_token-IsFresh :
    (server : RedisServer) (n : ℕ) (access : String) (expires : ℕ) (t : CachedToken)
    → fresh_token (server.now n) access expires ≡ some t
    → IsFresh server t
unfolding fresh_token
fresh_token-IsFresh server n access expires t e =
    elim (Bool-cases (ltb (utf16_length access) 1 || ltb 8192 (utf16_length access))) [
      | inl bad ↦ cc (rw bad at e)
      | inr good ↦ elim (Bool-cases (leb expires (server.now n + 30000))) [
        | inl late ↦ cc (rw (good, late) at e)
        | inr early ↦
            subst (IsFresh server) (some-injective _ _ (rw (good, early) at e))
              (record { read = n; fresh = ground (arith, early) })
      ]
    ]

checked_token-IsFresh :
    (server : RedisServer) (n : ℕ) (p : Option ParsedToken) (t : CachedToken)
    → checked_token (server.now n) p ≡ some t
    → IsFresh server t
unfolding checked_token
checked_token-IsFresh server n none t e = cc e
checked_token-IsFresh server n (some p) t e = elim (Option-cases p.expires_at) [
  | inl k ↦ cc (rw k at e)
  | inr (expires, k) ↦ elim (Option-cases p.access_token) [
    | inl j ↦ cc (rw (k, j) at e)
    | inr (access, j) ↦ fresh_token-IsFresh server n access expires t (rw (k, j) at e)
  ]
]

parse_cached_token-IsFresh :
    (server : RedisServer) (n : ℕ) (value : Option String) (t : CachedToken)
    → parse_cached_token server.parse_json value (server.now n) ≡ some t
    → IsFresh server t
unfolding parse_cached_token
parse_cached_token-IsFresh server n none t e = cc e
parse_cached_token-IsFresh server n (some value) t e = elim (Bool-cases (str_eq value "")) [
  | inl k ↦ cc (rw k at e)
  | inr k ↦ checked_token-IsFresh server n (server.parse_json value) t (rw k at e)
]

read_token-IsFresh :
    (server : RedisServer) (n : ℕ) (t : CachedToken)
    → read_token server n ≡ some (some t)
    → IsFresh server t
unfolding read_token
read_token-IsFresh server n t e = elim (Option-cases (server.get n)) [
  | inl k ↦ cc (rw (k, read_token) at e)
  | inr (value, k) ↦
      parse_cached_token-IsFresh server n value t (some-injective _ _ (rw (k, read_token) at e))
]

-- A wait: reads only, and no more than attempts.
record IsWait (server : RedisServer) (attempts : ℕ) (r : List RedisCommand × TokenResult)
    : Type 0 where
  reads : All IsRead r.0
  bounded : length r.0 ≤ attempts
  result : IsFreshResult server r.1

wait_shared-IsWait :
    (server : RedisServer) (attempts n : ℕ) → IsWait server attempts (wait_shared server attempts n)
unfolding wait_shared
wait_shared-IsWait server zero n = record { reads = tt; bounded = omega arith; result = an_error }
wait_shared-IsWait server (suc attempts) n =
    let rest = wait_shared-IsWait server attempts (suc n) in
    elim (Option-cases (read_token server n)) [
      | inl e ↦
          rw (e, wait_shared)
            (record { reads = (tt, tt); bounded = omega arith; result = an_error })
      | inr (none, e) ↦
          rw (e, wait_shared)
            (record {
              reads = (tt, rest.reads);
              bounded = omega (arith, rest.bounded);
              result = rest.result;
            })
      | inr (some t, e) ↦
          rw (e, wait_shared)
            (record {
              reads = (tt, tt);
              bounded = omega arith;
              result = a_token t (read_token-IsFresh server n t e);
            })
    ]

-- What a run may do, and what it may answer.
abbrev pub IsServed : RedisServer → List RedisCommand × TokenResult → Type 0
IsServed server r = IsSequence server r.0 × IsFreshResult server r.1

released_result :
    (server : RedisServer) (b : Bool) (r : TokenResult)
    → IsFreshResult server r
    → IsFreshResult server (if b then r else unavailable)
released_result server true r h = h
released_result server false r h = an_error

passed_result :
    (server : RedisServer) (b : Bool) → IsFreshResult server (if b then rethrown else unavailable)
passed_result server true = passed_on
passed_result server false = an_error

abbrev under_lock : List RedisCommand × TokenResult → List RedisCommand × TokenResult
under_lock r = (get_token ∷ set_lock ∷ r.0, r.1)

acquired-IsServed :
    (server : RedisServer) (a : Acquired)
    → server.locks ≡ some true
    → IsServed server (under_lock (released server.releases (acquire_token server a)))
unfolding acquire_token released ttl_seconds
acquired-IsServed server (acquire_failed b) k =
    (held k, released_result server _ _ (passed_result server b))
acquired-IsServed server (acquired access none) k = (held k, released_result server _ _ passed_on)
acquired-IsServed server (acquired access (some expires)) k =
    elim (Bool-cases (leb expires (server.now 1 + 30000))) [
      | inl late ↦ rw late (held k, released_result server _ _ passed_on)
      | inr early ↦
          let fresh : IsFresh server (record { access_token = access; expires_at = expires }) =
            record { read = 1; fresh = ground (arith, early) } in
          rw early (
            wrote _ _ k fresh (omega arith),
            released_result server _ _ (released_result server _ _ (a_token _ fresh)),
          )
    ]

after_lock-IsServed :
    (server : RedisServer) (locks : Option Bool)
    → server.locks ≡ locks
    → IsServed server (under_lock (after_lock server locks))
unfolding after_lock
after_lock-IsServed server none e = (waited [] (λ k. cc (sym e ∙ k)) tt (omega arith), an_error)
after_lock-IsServed server (some true) e = acquired-IsServed server server.acquire e
after_lock-IsServed server (some false) e =
    let w = wait_shared-IsWait server 40 1 in
    (waited _ (λ k. cc (sym e ∙ k)) w.reads w.bounded, w.result)

after_read-IsServed :
    (server : RedisServer)
    → IsServed server (
      get_token ∷ (after_read server (read_token server 0)).0,
      (after_read server (read_token server 0)).1,
    )
unfolding after_read
after_read-IsServed server = elim (Option-cases (read_token server 0)) [
  | inl e ↦ rw (e, after_read) (only_read, an_error)
  | inr (none, e) ↦ rw (e, after_read) (after_lock-IsServed server server.locks refl)
  | inr (some t, e) ↦ rw (e, after_read) (only_read, a_token t (read_token-IsFresh server 0 t e))
]

connected-IsServed :
    (server : RedisServer) (b : Bool)
    → IsServed server (
        if not b then ([], unavailable) else (
          get_token ∷ (after_read server (read_token server 0)).0,
          (after_read server (read_token server 0)).1,
        ))
connected-IsServed server true = after_read-IsServed server
connected-IsServed server false = (nothing, an_error)

-- Whatever Redis, the clock and the provider answer, errors included: a token that is returned is
-- good for more than thirty seconds from a moment at which the clock was read; at most 40 reads wait
-- for another client; only a client that got the lock writes a token, one that is fresh and with a
-- time to live of a second at least; and a client that got the lock releases it, also after an error.
pub get_or_create-IsServed :
    (server : RedisServer) (is_digest : Bool) → IsServed server (get_or_create server is_digest)
unfolding get_or_create
get_or_create-IsServed server false = (nothing, passed_on)
get_or_create-IsServed server true = connected-IsServed server server.connects
