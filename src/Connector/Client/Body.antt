-- ===== src/Connector/Client/Body.antt =====
-- What the client gives back.
use Prim.Native.String.{String}
use text.Mathlib.Text.{◌==◌ as str_eq}
use mirth_spool.Base.{
  ℕ, zero, suc, ◌+◌, ◌≤◌, ◌<◌, ◌≡◌, refl, Bool, true, false, not, ◌&&◌, ◌⊎◌, Option, none, some,
  List, [], arith, ◌==◌, length, Bool-cases, Option-cases, inl, inr, if◌then◌else◌,
}
use mirth_spool.Text.{Platform, Url}
use mirth_spool.Connector.Errors.{ErrorKind, connector_error, connector, other, ConnectorError}
use mirth_spool.Network.Policy.{ResolvedAddress, validate_outbound_url, assert_address_policy}
use mirth_spool.Connector.Client.{
  HttpClientLimits, Headers, Method, is_head, Stream, TransportResponse, Sent, ClientRequest,
  BufferedResponse, Network, get_header, any_of, malformed, Outcome, responds, throws, unsettled,
  ◌>>=◌, matching_content_type, collect, locate, encodings, encoding_of, read_bounded_body,
  too_long, is_accepted, answer, is_redirect, Hop, Turn, ends, goes_on, redirected, turn, exchange,
  finish_turn, with_address, follow, request_with_redirects, as_connector, request,
}
use mirth_spool.Connector.Client.Ensures.{
  Ensures, of_responds, of_throws, of_unsettled, byte_count, is_failing,
  complete-bounded_compressed, Ensures-bind, collect-bounded, Ensures-weaken, ladder,
  request_headers-responds,
}

module _ (platform : Platform) (net : Network) (limits : HttpClientLimits) where
  abbrev IsBounded : List ℕ → Type 0
  IsBounded body = length body ≤ limits.max_decompressed_bytes

  -- A response whose status is accepted, and whose body is within the limit.
  pub record IsGiven (input : ClientRequest) (r : BufferedResponse) : Type 0 where
    pub status : is_accepted platform net limits input.accepted_statuses r.status ≡ true
    pub bounded : IsBounded r.body

  -- Some response of the transport has a compressed body that fails or is too long.
  pub record IsBroken : Type 0 where
    pub round : ℕ
    pub sent : Sent
    pub response : TransportResponse
    pub received : net.transport round sent ≡ some response
    pub compressed : any_of encodings (encoding_of platform net limits response.headers) ≡ true
    pub broken :
        (is_failing response.body ≡ true) ⊎ (limits.max_compressed_bytes < byte_count response.body)

  abbrev IsReceived : TransportResponse → Type 0
  IsReceived r = (n : ℕ) × (sent : Sent) × (net.transport n sent ≡ some r)

  collect-IsBounded :
      (s : Stream) → Ensures IsBroken IsBounded (collect limits.max_decompressed_bytes 0 s)
  collect-IsBounded s =
      Ensures-weaken (λ (body : List ℕ). 0 + length body ≤ limits.max_decompressed_bytes) IsBounded
        (collect limits.max_decompressed_bytes 0 s)
        (collect-bounded limits.max_decompressed_bytes 0 s (omega arith)) (λ b p. omega (arith, p))

  decoded-IsBounded :
      (encoding : String) (chunks : Option (List (List ℕ))) (part : Stream)
      → (chunks ≡ none → IsBroken)
      → Ensures IsBroken IsBounded (elim chunks [
        | none ↦ collect limits.max_decompressed_bytes 0 part >>= λ (body : List ℕ). unsettled
        | some cs ↦ collect limits.max_decompressed_bytes 0 (net.decode encoding cs)
      ])
  decoded-IsBounded encoding none part u =
      Ensures-bind IsBounded IsBounded (collect limits.max_decompressed_bytes 0 part)
        (λ body. unsettled) (collect-IsBounded part) λ body small. of_unsettled (u refl)
  decoded-IsBounded encoding (some cs) part u = collect-IsBounded (net.decode encoding cs)

  read_bounded_body-IsBounded :
      (r : TransportResponse)
      → IsReceived r
      → Ensures IsBroken IsBounded (read_bounded_body platform net limits r)
  unfolding read_bounded_body
  read_bounded_body-IsBounded r (round, sent, got) =
      elim (Bool-cases (str_eq (encoding_of platform net limits r.headers) "identity")) [
        | inl e ↦ rw (e, read_bounded_body) (collect-IsBounded _)
        | inr e ↦ elim (Bool-cases (any_of encodings (encoding_of platform net limits r.headers))) [
          | inl k ↦
              rw (e, k, read_bounded_body)
                (decoded-IsBounded (encoding_of platform net limits r.headers) _ _ λ none_left.
                  record {
                    round = round;
                    sent = sent;
                    response = r;
                    received = got;
                    compressed = k;
                    broken =
                        elim (complete-bounded_compressed limits.max_compressed_bytes 0 r.body
                          none_left) [ inl f ↦ inl f | inr long ↦ inr (omega (arith, long)) ];
                  })
          | inr k ↦ rw (e, k, read_bounded_body) (of_throws _)
        ]
      ]

  either-IsBounded :
      (head : Bool) (r : TransportResponse)
      → IsReceived r
      → Ensures IsBroken IsBounded
          (if head then responds [] else read_bounded_body platform net limits r)
  either-IsBounded true r got = of_responds [] (omega arith)
  either-IsBounded false r got = read_bounded_body-IsBounded r got

  answer-IsGiven :
      (input : ClientRequest) (method : Method) (url : Url) (r : TransportResponse)
      → IsReceived r
      → Ensures IsBroken (IsGiven input) (answer platform net limits input method url r)
  unfolding answer
  answer-IsGiven input method url r got =
      ladder (IsGiven input) (is_accepted platform net limits input.accepted_statuses r.status)
        (not (r.status == 304)
          && not (matching_content_type platform.lower r.headers input.expected_content_types))
        (too_long platform net limits r.headers) _ _ _
        ((if is_head method then responds [] else read_bounded_body platform net limits r)
          >>= λ body. responds (given_back body))
        λ good.
          Ensures-bind IsBounded (IsGiven input)
            (if is_head method then responds [] else read_bounded_body platform net limits r)
            (λ body. responds (given_back body)) (either-IsBounded (is_head method) r got)
            λ body small. of_responds (given_back body) (record { status = good; bounded = small })
    where
      given_back : List ℕ → BufferedResponse
      given_back body = record {
        body = body;
        headers = r.headers;
        status = r.status;
        url = platform.print_url url;
      }

module _ (platform : Platform) (net : Network) (limits : HttpClientLimits) (allowlist : List String)
    (ports : List ℕ) (input : ClientRequest) where
  abbrev Given : Outcome BufferedResponse → Type 0
  Given o = Ensures (IsBroken platform net limits) (IsGiven platform net limits input) o

  data IsGivenTurn : Turn → Type 0 where
    at_end : (o : Outcome BufferedResponse) → Given o → IsGivenTurn (ends o)
    goes : (hop : Hop) → IsGivenTurn (goes_on hop)

  moved :
      (o : Option Hop)
      → IsGivenTurn (elim o [ none ↦ ends (throws other) | some next ↦ goes_on next ])
  moved none = at_end _ (of_throws _)
  moved (some next) = goes next

  located :
      (last : Bool) (hop : Hop) (status : ℕ) (location : Option String)
      → IsGivenTurn (elim location [
        | none ↦ ends (throws (connector (malformed "SOURCE_REDIRECT_INVALID")))
        | some l ↦
            if str_eq l ""
            then ends (throws (connector (malformed "SOURCE_REDIRECT_INVALID")))
            else if last
            then ends (
                throws (
                  connector
                    (connector_error ErrorKind.permanent (some "SOURCE_REDIRECT_LIMIT") none)))
            else (elim (redirected platform net limits allowlist ports hop status l) [
              | none ↦ ends (throws other)
              | some next ↦ goes_on next
            ])
      ])
  located last hop status none = at_end _ (of_throws _)
  located last hop status (some l) = elim (Bool-cases (str_eq l "")) [
    | inl e ↦ rw e (at_end _ (of_throws _))
    | inr e ↦ rw e (turned last l)
  ]
    where
      turned :
          (b : Bool) (l : String)
          → IsGivenTurn (
              if b
              then ends (
                  throws (
                    connector
                      (connector_error ErrorKind.permanent (some "SOURCE_REDIRECT_LIMIT") none)))
              else (elim (redirected platform net limits allowlist ports hop status l) [
                | none ↦ ends (throws other)
                | some next ↦ goes_on next
              ]))
      turned true l = at_end _ (of_throws _)
      turned false l = moved (redirected platform net limits allowlist ports hop status l)

  turn-IsGivenTurn :
      (last : Bool) (hop : Hop) (r : TransportResponse)
      → IsReceived platform net limits r
      → IsGivenTurn (turn platform net limits allowlist ports input last hop r)
  unfolding turn
  turn-IsGivenTurn last hop r got = elim (Bool-cases (is_redirect r.status)) [
    | inr e ↦
        rw (e, turn) (at_end _ (answer-IsGiven platform net limits input hop.method hop.url r got))
    | inl e ↦ rw (e, turn) (located last hop r.status (get_header "location" r.headers))
  ]

  exchange-IsGivenTurn :
      (last : Bool) (hop : Hop) (n : ℕ) (sent : Sent)
      → IsGivenTurn (
          exchange platform net limits allowlist ports n sent
            (turn platform net limits allowlist ports input last hop))
  unfolding exchange
  exchange-IsGivenTurn last hop n sent = elim (Option-cases (net.transport n sent)) [
    | inl e ↦ rw (e, exchange) (at_end _ (of_throws _))
    | inr (r, e) ↦ rw (e, exchange) (turn-IsGivenTurn last hop r (n, sent, e))
  ]

  finish-Given :
      (next : Hop → Outcome BufferedResponse × List Sent) (sent : Sent) (t : Turn)
      → ((h : Hop) → Given (next h).0)
      → IsGivenTurn t
      → Given (finish_turn platform net limits allowlist ports next sent t).0
  finish-Given next sent t f (at_end o g) = g
  finish-Given next sent t f (goes hop) = f hop

  with_address-Given :
      (o : Outcome ResolvedAddress) (f : ResolvedAddress → Outcome BufferedResponse × List Sent)
      → Ensures ⊥ (λ _. Unit {0}) o
      → ((a : ResolvedAddress) → Given (f a).0)
      → Given (with_address platform net limits allowlist ports o f).0
  with_address-Given (responds a) f h g = g a
  with_address-Given (throws e) f h g = of_throws e
  with_address-Given unsettled f (of_unsettled u) g = absurd u

  -- A lookup throws or gives an address.
  locate-responds :
      (n : ℕ) (hop : Hop)
      → Ensures ⊥ (λ _. Unit {0}) (locate platform net limits allowlist ports n hop)
  unfolding locate
  locate-responds n hop = elim (Option-cases (net.resolve n hop.url.hostname)) [
    | inl e ↦ rw (e, locate) (of_throws _)
    | inr (resolved, e) ↦
        let checked =
          assert_address_policy net.is_ip platform.lower net.prefix resolved allowlist
            hop.url.hostname in
        elim (Option-cases checked) [
          | inl f ↦ rw (e, f, locate) (of_throws _)
          | inr (address, f) ↦ rw (e, f, locate) (of_responds address tt)
        ]
  ]

  follow-Given :
      (left n : ℕ) (hop : Hop)
      → Given (follow platform net limits allowlist ports input left n hop).0
  unfolding follow
  follow-Given zero n hop =
      with_address-Given _ _ (locate-responds n hop)
        λ a. finish-Given _ _ _ (λ h. of_throws _) (exchange-IsGivenTurn true hop n _)
  follow-Given (suc left) n hop = with_address-Given _ _ (locate-responds n hop) λ a.
      finish-Given _ _ _ (λ h. follow-Given left (suc n) h) (exchange-IsGivenTurn false hop n _)

  begun-Given :
      (url : Url) (o : Outcome Headers)
      → Ensures ⊥ (λ _. Unit {0}) o
      → Given
          (elim o as (λ x. Outcome BufferedResponse × List Sent) [
            | throws e ↦ (throws e, [])
            | unsettled ↦ (unsettled, [])
            | responds headers ↦
                follow platform net limits allowlist ports input limits.max_redirects 0 (record {
                  url = url;
                  headers = headers;
                  method = input.method;
                  body = input.body;
                })
          ]).0
  begun-Given url (throws e) h = of_throws e
  begun-Given url unsettled (of_unsettled u) = absurd u
  begun-Given url (responds headers) h =
      follow-Given limits.max_redirects 0
        (record { url = url; headers = headers; method = input.method; body = input.body })

  request_with_redirects-Given :
      Given (request_with_redirects platform net limits allowlist ports input).0
  unfolding request_with_redirects
  request_with_redirects-Given =
      elim (Option-cases (validate_outbound_url platform.parse_url input.url ports)) [
        | inl e ↦ rw (e, request_with_redirects) (of_throws _)
        | inr (url, e) ↦
            rw (e, request_with_redirects)
              (begun-Given url _ (request_headers-responds platform.lower input.headers _))
      ]

  -- How a request ends for a connector.
  pub data IsSettled : Outcome BufferedResponse → Type 0 where
    given : (r : BufferedResponse) → IsGiven platform net limits input r → IsSettled (responds r)
    failed : (e : ConnectorError) → IsSettled (throws (connector e))
    broken_off : IsBroken platform net limits → IsSettled unsettled

  as_connector-IsSettled :
      (o : Outcome BufferedResponse)
      → Given o
      → IsSettled (as_connector platform net limits allowlist ports o)
  unfolding as_connector
  as_connector-IsSettled o (of_responds r g) = given r g
  as_connector-IsSettled o (of_throws (connector e)) = failed e
  as_connector-IsSettled o (of_throws other) = failed _
  as_connector-IsSettled o (of_unsettled u) = broken_off u

  -- A request gives a response whose status is a success or one that the caller accepts, with a body
  -- within the limit of decompressed bytes; or it throws a ConnectorError and nothing else, whatever
  -- the resolver, the transport and the URL parser throw; or it never ends, which needs a
  -- response of the transport whose body is compressed by an encoding that the client knows, and
  -- that fails or has more bytes than the limit of compressed bytes.
  pub request-IsSettled : IsSettled (request platform net limits allowlist ports input).0
  unfolding request
  request-IsSettled =
      as_connector-IsSettled (request_with_redirects platform net limits allowlist ports input).0
        request_with_redirects-Given
