-- ===== src/TokenCache.antt =====
-- `RedisOAuthTokenCache` of packages/redis/src/oauth-token-cache.ts. What Redis, the clock, the parser
-- of JSON and the provider answer is a parameter; the model keeps the commands that are sent.
pub mod Fresh
use Prim.Native.String.{String}
use text.Mathlib.Text.{◌==◌ as str_eq}
use mirth_spool.Base.{
  ℕ, zero, suc, ◌+◌, ◌-◌, ◌/◌, max, Bool, true, false, not, ◌&&◌, ◌||◌, Option, none, some, List,
  [], ◌∷◌, ◌++◌, leb, ltb, if◌then◌else◌,
}
use mirth_spool.Text.{utf16_length}

pub record CachedToken : Type 0 where
  pub access_token : String
  pub expires_at : ℕ

-- What JSON.parse gives: the fields that are a string, and an instant.
pub record ParsedToken : Type 0 where
  pub access_token : Option String
  pub expires_at : Option ℕ

-- What the provider answers. An error is passed on or not by its class.
pub data Acquired : Type 0 where
  acquired : String → Option ℕ → Acquired
  acquire_failed : Bool → Acquired

-- `none` is an answer that throws. Reads of the token and of the clock are numbered.
pub record RedisServer : Type 0 where
  pub connects : Bool
  pub get : ℕ → Option (Option String)
  pub now : ℕ → ℕ
  pub locks : Option Bool
  pub acquire : Acquired
  pub stores : Bool
  pub releases : Bool
  pub parse_json : String → Option ParsedToken

pub data RedisCommand : Type 0 where
  get_token : RedisCommand
  set_lock : RedisCommand
  set_token : CachedToken → ℕ → RedisCommand
  release_lock : RedisCommand

-- The token, an error of the class OAuthTokenCacheUnavailableError, or one of the caller's.
pub data TokenResult : Type 0 where
  token : CachedToken → TokenResult
  unavailable : TokenResult
  rethrown : TokenResult

unfoldable pub fresh_token : ℕ → String → ℕ → Option CachedToken
fresh_token now access expires =
    if ltb (utf16_length access) 1 || ltb 8192 (utf16_length access) || leb expires (now + 30000)
    then none
    else some (record { access_token = access; expires_at = expires })

unfoldable pub checked_token : ℕ → Option ParsedToken → Option CachedToken
unfolding fresh_token
checked_token now none = none
checked_token now (some p) = elim p.expires_at [
  | none ↦ none
  | some expires ↦ elim p.access_token [
    | none ↦ none
    | some access ↦ fresh_token now access expires
  ]
]

unfoldable pub parse_cached_token :
    (String → Option ParsedToken) → Option String → ℕ → Option CachedToken
unfolding checked_token
parse_cached_token parse_json none now = none
parse_cached_token parse_json (some value) now =
    if str_eq value "" then none else checked_token now (parse_json value)

-- The read number `n`: an error, nothing that can be used, or a token.
unfoldable pub read_token : RedisServer → ℕ → Option (Option CachedToken)
unfolding parse_cached_token
read_token server n = elim (server.get n) [
  | none ↦ none
  | some value ↦ some (parse_cached_token server.parse_json value (server.now n))
]

-- The loop of a client that did not get the lock, from the read number `n`.
unfoldable pub wait_shared : RedisServer → ℕ → ℕ → List RedisCommand × TokenResult
unfolding read_token
wait_shared server zero n = ([], unavailable)
wait_shared server (suc attempts) n =
    let (rest, result) = wait_shared server attempts (suc n) in
    elim (read_token server n) [
      | none ↦ (get_token ∷ [], unavailable)
      | some none ↦ (get_token ∷ rest, result)
      | some (some t) ↦ (get_token ∷ [], token t)
    ]

-- The seconds that the token is stored for.
unfoldable pub ttl_seconds : ℕ → ℕ → ℕ
ttl_seconds expires now = max 1 ((expires - now - 30000) / 1000)

-- Under the lock, without its release. The clock is read for the second time and once more.
unfoldable pub acquire_token : RedisServer → Acquired → List RedisCommand × TokenResult
unfolding ttl_seconds
acquire_token server (acquire_failed passed_on) = ([], if passed_on then rethrown else unavailable)
acquire_token server (acquired access none) = ([], rethrown)
acquire_token server (acquired access (some expires)) =
    if leb expires (server.now 1 + 30000)
    then ([], rethrown)
    else (let t : CachedToken = record { access_token = access; expires_at = expires } in
        (
          set_token t (ttl_seconds expires (server.now 2)) ∷ [],
          if server.stores then token t else unavailable,
        ))

-- the `finally`, whose error takes the place of the result
unfoldable pub released : Bool → List RedisCommand × TokenResult → List RedisCommand × TokenResult
released releases (commands, result) =
    (commands ++ release_lock ∷ [], if releases then result else unavailable)

-- What the request of the lock answers.
unfoldable pub after_lock : RedisServer → Option Bool → List RedisCommand × TokenResult
unfolding wait_shared acquire_token released
after_lock server none = ([], unavailable)
after_lock server (some true) = released server.releases (acquire_token server server.acquire)
after_lock server (some false) = wait_shared server 40 1

unfoldable pub after_read :
    RedisServer → Option (Option CachedToken) → List RedisCommand × TokenResult
unfolding after_lock
after_read server none = ([], unavailable)
after_read server (some (some t)) = ([], token t)
after_read server (some none) =
    let (rest, result) = after_lock server server.locks in (set_lock ∷ rest, result)

-- The cache key is a digest, or a TypeError is thrown.
unfoldable pub get_or_create : RedisServer → Bool → List RedisCommand × TokenResult
unfolding after_read read_token
get_or_create server is_digest =
    if not is_digest
    then ([], rethrown)
    else if not server.connects
    then ([], unavailable)
    else (let (rest, result) = after_read server (read_token server 0) in
        (get_token ∷ rest, result))
