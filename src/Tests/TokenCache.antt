-- ===== src/Tests/TokenCache.antt =====
-- The property of the token cache, where the provider gives a token.
use mirth_spool.Base.{◌≡◌, refl, true, some, none}
use mirth_spool.TokenCache.{acquired, RedisServer, token, get_or_create}
use mirth_spool.TokenCache.Fresh.{IsServed, get_or_create-IsServed}

abbrev test_server : RedisServer
test_server = record {
  connects = true;
  get = λ n. some none;
  now = λ n. 1000;
  locks = some true;
  acquire = acquired "access" (some 100000);
  stores = true;
  releases = true;
  parse_json = λ s. none;
}

token_returned :
    (get_or_create test_server true).1
    ≡ token (record { access_token = "access"; expires_at = 100000 })
unfolding get_or_create
token_returned = refl

get_or_create-IsServed_example : IsServed test_server (get_or_create test_server true)
get_or_create-IsServed_example = get_or_create-IsServed test_server true
