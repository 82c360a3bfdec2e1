-- ===== src/Connector/Client.antt =====
-- packages/connectors/src/http-client.ts: the client by which connectors reach their providers, with
-- its limits, its redirects and the address policy. Sockets, name resolution, decompression and the
-- URL parser are the parameter `Network`; timers show in it as transports that fail.
pub mod Ensures
pub mod Body
pub mod Requests
use Prim.Native.Char.{code}
use Prim.Native.String
use Prim.Native.String.{String}
use text.Mathlib.Text.{◌==◌ as str_eq}
use mirth_spool.Base.{
  ℕ, zero, suc, ◌+◌, Bool, true, false, not, ◌&&◌, ◌||◌, Option, none, some, List, [], ◌∷◌, ◌++◌,
  leb, ltb, ◌==◌, if◌then◌else◌, any, filter, length, elem,
}
use mirth_spool.Text.{Platform, Url, trim, utf16_length}
use mirth_spool.Connector.Errors.{
  ErrorKind, ConnectorError, connector_error, classify_http_status, Thrown, connector, other,
}
use mirth_spool.Network.Policy.{ResolvedAddress, assert_address_policy, validate_outbound_url}

pub record HttpClientLimits : Type 0 where
  pub max_compressed_bytes : ℕ
  pub max_decompressed_bytes : ℕ
  pub max_redirects : ℕ

abbrev pub Headers : Type 0
Headers = List (String × String)

pub data Method : Type 0 where
  get head post : Method

abbrev pub is_head : Method → Bool
is_head Method.head = true
is_head _ = false

-- The chunks of a body as they arrive, up to its end or to an error.
pub data Stream : Type 0 where
  ended : Stream
  chunk : List ℕ → Stream → Stream
  fails : Thrown → Stream

pub record TransportResponse : Type 0 where
  pub body : Stream
  pub headers : Headers
  pub status : ℕ

-- ResolvedTransportRequest: what is sent to an address.
pub record Sent : Type 0 where
  pub address : ResolvedAddress
  pub body : Option (List ℕ)
  pub headers : Headers
  pub method : Method
  pub url : Url

pub record ClientRequest : Type 0 where
  pub accepted_statuses : List ℕ
  pub body : Option (List ℕ)
  pub expected_content_types : List String
  pub headers : Headers
  pub method : Method
  pub url : String
  pub user_agent : Option String

pub record BufferedResponse : Type 0 where
  pub body : List ℕ
  pub headers : Headers
  pub status : ℕ
  pub url : String

-- What is not part of the source. The calls of one request are numbered.
pub record Network : Type 0 where
  -- isIP of node:net
  pub is_ip : String → ℕ
  -- the lookup of a name, and `none` where it throws
  pub resolve : ℕ → String → Option (List ResolvedAddress)
  -- a request on the wire, and `none` where it throws
  pub transport : ℕ → Sent → Option TransportResponse
  -- what gunzip, inflate and brotli make of a whole body
  pub decode : String → List (List ℕ) → Stream
  -- what they have made of the chunks of a body when it breaks off
  pub decode_part : String → List (List ℕ) → Stream
  -- new URL(location, url).toString(), and url.origin
  pub resolve_url : String → Url → Option String
  pub origin : Url → String
  -- Number(text) of a header, where it is a whole number
  pub number : String → Option ℕ
  -- Number(text) of an entry of the allowlist, where it is not below zero: rounded up, and whether it
  -- is whole
  pub prefix : String → Option (ℕ × Bool)
  -- signal.aborted when the request failed
  pub aborted : Bool

pub get_header : String → Headers → Option String
get_header name [] = none
get_header name ((key, value) ∷ rest) = if str_eq key name then some value else get_header name rest

-- result[name] = value
pub put_header : String → String → Headers → Headers
put_header name value [] = (name, value) ∷ []
put_header name value ((key, old) ∷ rest) =
    if str_eq key name then (name, value) ∷ rest else (key, old) ∷ put_header name value rest

-- /[\r\n]/
pub has_line_break : String → Bool
has_line_break String.[] = false
has_line_break (String.◌∷◌ c s) = code c == 13 || code c == 10 || has_line_break s

abbrev pub any_of : List String → String → Bool
any_of names name = any (λ n. str_eq n name) names

pub forbidden_request_headers : List String
forbidden_request_headers =
    "connection" ∷ "content-length" ∷ "host" ∷ "proxy-connection" ∷ "transfer-encoding" ∷ []

pub sensitive_redirect_headers : List String
sensitive_redirect_headers = "authorization" ∷ "cookie" ∷ "proxy-authorization" ∷ []

pub configuration_error : String → ConnectorError
configuration_error c = connector_error ErrorKind.configuration (some c) none

pub malformed : String → ConnectorError
malformed c = connector_error ErrorKind.malformed_response (some c) none

-- How a request ends. `unsettled` is a body whose compressed bytes fail or are too many: `pipe` does
-- not pass the error of its source on, so that no handler of the client sees it.
pub data Outcome (A : Type 0) : Type 0 where
  responds : A → Outcome A
  throws : Thrown → Outcome A
  unsettled : Outcome A

infixl 5 ◌>>=◌
abbrev pub ◌>>=◌ : {A B : Type 0} → Outcome A → (A → Outcome B) → Outcome B
responds a >>= f = f a
throws e >>= f = throws e
unsettled >>= f = unsettled

module _ (lower : String → String) where
  pub put_all : Headers → Headers → Outcome Headers
  unfolding has_line_break forbidden_request_headers
  put_all [] result = responds result
  put_all ((raw, value) ∷ rest) result =
      if any_of forbidden_request_headers (lower raw)
        || has_line_break (lower raw)
        || has_line_break value
      then throws (connector (configuration_error "SOURCE_HEADER_INVALID"))
      else put_all rest (put_header (lower raw) value result)

  pub request_headers : Headers → String → Outcome Headers
  unfolding put_all has_line_break
  request_headers input user_agent =
      if ltb (utf16_length user_agent) 1
        || ltb 500 (utf16_length user_agent)
        || has_line_break user_agent
      then throws (connector (configuration_error "SOURCE_USER_AGENT_INVALID"))
      else put_all input (
          ("accept", "application/json, application/xml, text/xml, */*;q=0.1")
          ∷ ("user-agent", user_agent)
          ∷ [])
        >>= λ result. responds (put_header "user-agent" user_agent result)

  -- text.split(";", 1)[0]
  before_semicolon : String → String
  before_semicolon String.[] = String.[]
  before_semicolon (String.◌∷◌ c s) =
      let rest = before_semicolon s in if code c == b';' then String.[] else String.◌∷◌ c rest

  pub matching_content_type : Headers → List String → Bool
  unfolding before_semicolon get_header
  matching_content_type headers [] = true
  matching_content_type headers (e ∷ es) = elim (get_header "content-type" headers) [
    | none ↦ false
    | some actual ↦
        any (λ value. str_eq (lower value) (lower (trim (before_semicolon actual)))) (e ∷ es)
  ]

-- boundedCompressed: the chunks, until they are more than the limit
pub bounded_compressed : ℕ → ℕ → Stream → Stream
bounded_compressed limit count ended = ended
bounded_compressed limit count (chunk bytes rest) =
    let more = bounded_compressed limit (count + length bytes) rest in
    if ltb limit (count + length bytes)
    then fails (connector (malformed "SOURCE_RESPONSE_TOO_LARGE"))
    else chunk bytes more
bounded_compressed limit count (fails e) = fails e

-- the loop over the decoded chunks, with its `catch`
pub collect : ℕ → ℕ → Stream → Outcome (List ℕ)
collect limit count ended = responds []
collect limit count (chunk bytes rest) =
    let more = collect limit (count + length bytes) rest in
    if ltb limit (count + length bytes)
    then throws (connector (malformed "SOURCE_RESPONSE_TOO_LARGE"))
    else more >>= λ tail. responds (bytes ++ tail)
collect limit count (fails (connector e)) = throws (connector e)
collect limit count (fails other) = throws (connector (malformed "SOURCE_BODY_MALFORMED"))

-- every chunk, where the stream ends without an error
pub complete : Stream → Option (List (List ℕ))
complete ended = some []
complete (chunk bytes rest) = elim (complete rest) [ none ↦ none | some cs ↦ some (bytes ∷ cs) ]
complete (fails e) = none

-- the chunks in front of the end or the error
pub chunks_of : Stream → List (List ℕ)
chunks_of ended = []
chunks_of (chunk bytes rest) = bytes ∷ chunks_of rest
chunks_of (fails e) = []

abbrev pub encodings : List String
encodings = "gzip" ∷ "deflate" ∷ "br" ∷ []

module _ (platform : Platform) (net : Network) (limits : HttpClientLimits) where
  pub encoding_of : Headers → String
  unfolding get_header
  encoding_of headers = elim (get_header "content-encoding" headers) [
    | none ↦ "identity"
    | some e ↦ platform.lower (trim e)
  ]

  pub read_bounded_body : TransportResponse → Outcome (List ℕ)
  unfolding encoding_of bounded_compressed collect complete chunks_of
  read_bounded_body r =
      let source = bounded_compressed limits.max_compressed_bytes 0 r.body in
      if str_eq (encoding_of r.headers) "identity"
      then collect limits.max_decompressed_bytes 0 source
      else if any_of encodings (encoding_of r.headers)
      then (elim (complete source) [
        | none ↦
            collect limits.max_decompressed_bytes 0
              (net.decode_part (encoding_of r.headers) (chunks_of source))
            >>= λ body. unsettled
        | some chunks ↦
            collect limits.max_decompressed_bytes 0 (net.decode (encoding_of r.headers) chunks)
      ])
      else throws (connector (malformed "SOURCE_ENCODING_UNSUPPORTED"))

  too_long : Headers → Bool
  unfolding get_header
  too_long headers = elim (get_header "content-length" headers) [
    | none ↦ false
    | some text ↦ elim (net.number text) [
      | none ↦ false
      | some n ↦ ltb limits.max_compressed_bytes n
    ]
  ]

  retry_after : Headers → Option ℕ
  unfolding get_header
  retry_after headers = elim (get_header "retry-after" headers) [
    | none ↦ none
    | some text ↦ elim (net.number text) [ none ↦ none | some n ↦ if n == 0 then none else some n ]
  ]

  pub is_accepted : List ℕ → ℕ → Bool
  is_accepted statuses status = (leb 200 status && ltb status 300) || elem status statuses

  -- what follows a response that is no redirect
  pub answer : ClientRequest → Method → Url → TransportResponse → Outcome BufferedResponse
  unfolding is_accepted retry_after too_long read_bounded_body matching_content_type
  answer input method url r =
      if not (is_accepted input.accepted_statuses r.status)
      then throws (connector (classify_http_status r.status (retry_after r.headers)))
      else if not (r.status == 304)
          && not (matching_content_type platform.lower r.headers input.expected_content_types)
      then throws (connector (malformed "SOURCE_CONTENT_TYPE_UNSUPPORTED"))
      else if too_long r.headers
      then throws (connector (malformed "SOURCE_RESPONSE_TOO_LARGE"))
      else (if is_head method then responds [] else read_bounded_body r) >>= λ body.
          responds (record {
            body = body;
            headers = r.headers;
            status = r.status;
            url = platform.print_url url;
          })

abbrev pub is_redirect : ℕ → Bool
is_redirect status =
    status == 301 || status == 302 || status == 303 || status == 307 || status == 308

pub without_sensitive : Headers → Headers
unfolding sensitive_redirect_headers
without_sensitive headers = filter (λ h. not (any_of sensitive_redirect_headers h.0)) headers

-- What a round of the loop carries over: the URL, the headers, the method and the body.
pub record Hop : Type 0 where
  pub url : Url
  pub headers : Headers
  pub method : Method
  pub body : Option (List ℕ)

-- What a response leads to: the end, or the next round.
pub data Turn : Type 0 where
  ends : Outcome BufferedResponse → Turn
  goes_on : Hop → Turn

module _ (platform : Platform) (net : Network) (limits : HttpClientLimits) (allowlist : List String)
    (ports : List ℕ) where
  -- The next round of a redirect, and `none` where the URL parser or the policy of URLs throws.
  pub redirected : Hop → ℕ → String → Option Hop
  unfolding without_sensitive
  redirected hop status location = elim (net.resolve_url location hop.url) [
    | none ↦ none
    | some text ↦ elim (validate_outbound_url platform.parse_url text ports) [
      | none ↦ none
      | some next ↦
          let rewritten = status == 303 && not (is_head hop.method) in
          some (record {
            url = next;
            headers =
                if str_eq (net.origin next) (net.origin hop.url)
                then hop.headers
                else without_sensitive hop.headers;
            method = if rewritten then Method.get else hop.method;
            body = if rewritten then none else hop.body;
          })
    ]
  ]

  -- `last` says that no redirect is left.
  pub turn : ClientRequest → Bool → Hop → TransportResponse → Turn
  unfolding redirected get_header
  turn input last hop r =
      if not (is_redirect r.status)
      then ends (answer platform net limits input hop.method hop.url r)
      else (elim (get_header "location" r.headers) [
        | none ↦ ends (throws (connector (malformed "SOURCE_REDIRECT_INVALID")))
        | some location ↦
            if str_eq location ""
            then ends (throws (connector (malformed "SOURCE_REDIRECT_INVALID")))
            else if last
            then ends (
                throws (
                  connector
                    (connector_error ErrorKind.permanent (some "SOURCE_REDIRECT_LIMIT") none)))
            else (elim (redirected hop r.status location) [
              | none ↦ ends (throws other)
              | some next ↦ goes_on next
            ])
      ])

  -- the address of a round, which the policy of addresses checks
  pub locate : ℕ → Hop → Outcome ResolvedAddress
  locate n hop = elim (net.resolve n hop.url.hostname) [
    | none ↦
        throws (connector (connector_error ErrorKind.transient (some "SOURCE_DNS_FAILED") none))
    | some resolved ↦
        elim (assert_address_policy net.is_ip platform.lower net.prefix resolved allowlist
          hop.url.hostname) [
            | none ↦ throws (connector (configuration_error "SOURCE_ADDRESS_REJECTED"))
            | some address ↦ responds address
          ]
  ]

  abbrev pub sent_to : ResolvedAddress → Hop → Sent
  sent_to address hop = record {
    address = address;
    body = hop.body;
    headers = hop.headers;
    method = hop.method;
    url = hop.url;
  }

  exchange : ℕ → Sent → (TransportResponse → Turn) → Turn
  exchange n sent f = elim (net.transport n sent) [ none ↦ ends (throws other) | some r ↦ f r ]

  abbrev finish_turn :
      (Hop → Outcome BufferedResponse × List Sent)
      → Sent
      → Turn
      → Outcome BufferedResponse × List Sent
  finish_turn next sent (ends o) = (o, sent ∷ [])
  finish_turn next sent (goes_on hop) = let (o, more) = next hop in (o, sent ∷ more)

  abbrev with_address :
      Outcome ResolvedAddress
      → (ResolvedAddress → Outcome BufferedResponse × List Sent)
      → Outcome BufferedResponse × List Sent
  with_address (responds address) f = f address
  with_address (throws e) f = (throws e, [])
  with_address unsettled f = (unsettled, [])

  -- The loop of #requestWithRedirects: how it ends, and what was sent. `left` is the number of
  -- redirects that may still be followed, and `n` the number of the round.
  pub follow : ClientRequest → ℕ → ℕ → Hop → Outcome BufferedResponse × List Sent
  unfolding turn locate exchange
  follow input zero n hop = with_address (locate n hop) λ address.
      let sent = sent_to address hop in
      finish_turn (λ h. (throws other, [])) sent (exchange n sent (turn input true hop))
  follow input (suc left) n hop = with_address (locate n hop) λ address.
      let sent = sent_to address hop in
      finish_turn (λ h. follow input left (suc n) h) sent (exchange n sent (turn input false hop))

  pub user_agent_of : ClientRequest → String
  user_agent_of input = elim input.user_agent [
    | none ↦ "MirthSpool/0.1 (+https://github.com/mirthspool)"
    | some u ↦ u
  ]

  pub request_with_redirects : ClientRequest → Outcome BufferedResponse × List Sent
  unfolding follow user_agent_of request_headers
  request_with_redirects input = elim (validate_outbound_url platform.parse_url input.url ports) [
    | none ↦ (throws (connector (configuration_error "SOURCE_URL_REJECTED")), [])
    | some url ↦ elim (request_headers platform.lower input.headers (user_agent_of input)) [
      | throws e ↦ (throws e, [])
      | unsettled ↦ (unsettled, [])
      | responds headers ↦
          follow input limits.max_redirects 0
            (record { url = url; headers = headers; method = input.method; body = input.body })
    ]
  ]

  -- the `catch` of request
  pub as_connector : Outcome BufferedResponse → Outcome BufferedResponse
  as_connector (responds r) = responds r
  as_connector (throws (connector e)) = throws (connector e)
  as_connector (throws other) = throws (
      connector (
        connector_error ErrorKind.transient
          (some (if net.aborted then "SOURCE_REQUEST_TIMEOUT" else "SOURCE_REQUEST_FAILED")) none))
  as_connector unsettled = unsettled

  unfoldable pub request : ClientRequest → Outcome BufferedResponse × List Sent
  unfolding request_with_redirects as_connector
  request input = let (o, sent) = request_with_redirects input in (as_connector o, sent)
