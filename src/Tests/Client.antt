-- ===== src/Tests/Client.antt =====
-- The properties of the client, where a server redirects to another host.
use mirth_spool.Base.{◌≡◌, ◌≤◌, ◌⊎◌, false, some, none, [], ◌∷◌, All, length, if◌then◌else◌, ◌==◌}
use mirth_spool.Text.{Url}
use mirth_spool.Network.Policy.{validate_outbound_url}
use mirth_spool.Connector.Client.{
  HttpClientLimits, Method, ended, chunk, ClientRequest, Network, request,
}
use mirth_spool.Connector.Client.Requests.{IsGuarded, request-IsGuarded}
use mirth_spool.Connector.Client.Body.{IsSettled, request-IsSettled}
use mirth_spool.Examples.{test_platform}

abbrev test_network : Network
test_network = record {
  is_ip = λ a. 4;
  resolve = λ n host. some (record { address = "93.184.216.34"; family = 4 } ∷ []);
  transport = λ n s.
      if n == 0
      then some (record {
        body = ended;
        headers = ("location", "https://example.org/feed") ∷ [];
        status = 302;
      })
      else some (record { body = chunk (1 ∷ 2 ∷ []) ended; headers = []; status = 200 });
  decode = λ e cs. ended;
  decode_part = λ e cs. ended;
  resolve_url = λ l u. some l;
  origin = λ u. u.pathname;
  number = λ s. none;
  prefix = λ s. none;
  aborted = false;
}

abbrev test_limits : HttpClientLimits
test_limits = record { max_compressed_bytes = 100; max_decompressed_bytes = 200; max_redirects = 3 }

abbrev test_request : ClientRequest
test_request = record {
  accepted_statuses = [];
  body = none;
  expected_content_types = [];
  headers = ("Authorization", "Bearer x") ∷ [];
  method = Method.get;
  url = "https://example.org/";
  user_agent = none;
}

request-IsGuarded_example :
    ((url : Url) × (validate_outbound_url test_platform.parse_url "https://example.org/" (443 ∷ [])
        ≡ some url)
      × All
          (IsGuarded test_platform test_network test_limits [] (443 ∷ []) (test_network.origin url))
          (request test_platform test_network test_limits [] (443 ∷ []) test_request).1
      × (length (request test_platform test_network test_limits [] (443 ∷ []) test_request).1 ≤ 4))
    ⊎ ((validate_outbound_url test_platform.parse_url "https://example.org/" (443 ∷ []) ≡ none)
        × ((request test_platform test_network test_limits [] (443 ∷ []) test_request).1 ≡ []))
request-IsGuarded_example =
    request-IsGuarded test_platform test_network test_limits [] (443 ∷ []) test_request

request-IsSettled_example :
    IsSettled test_platform test_network test_limits []
      (443 ∷ [])
      test_request
      (request test_platform test_network test_limits [] (443 ∷ []) test_request).0
request-IsSettled_example =
    request-IsSettled test_platform test_network test_limits [] (443 ∷ []) test_request
