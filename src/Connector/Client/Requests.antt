-- ===== src/Connector/Client/Requests.antt =====
-- What the client sends, and to where.
use Prim.Native.String.{String}
use text.Mathlib.Text.{◌==◌ as str_eq}
use text.Mathlib.TextEquality.{eq_iff}
use mathlib.Core.Option.{some-injective}
use mirth_spool.Base.{
  ℕ, zero, suc, ◌≤◌, ◌≡◌, refl, sym, subst, Bool, true, false, none, some, List, [], ◌∷◌, arith,
  length, All, Bool-cases, Option-cases, inl, inr, ◌⊎◌, if◌then◌else◌,
}
use mirth_spool.Text.{Platform, Url}
use mirth_spool.Connector.Errors.{ErrorKind, connector_error, Thrown, connector, other}
use mirth_spool.Network.Policy.{ResolvedAddress, assert_address_policy, validate_outbound_url}
use mirth_spool.Network.Policy.Allowed.{IsAllowed, assert_address_policy-All}
use mirth_spool.Connector.Client.{
  HttpClientLimits, Headers, TransportResponse, Sent, ClientRequest, BufferedResponse, Network,
  get_header, any_of, sensitive_redirect_headers, Outcome, responds, throws, unsettled,
  request_headers, is_redirect, without_sensitive, Hop, Turn, ends, goes_on, redirected, turn,
  locate, sent_to, exchange, finish_turn, with_address, follow, user_agent_of,
  request_with_redirects, request,
}

abbrev IsPlain : Headers → Type 0
IsPlain headers = All (λ h. any_of sensitive_redirect_headers h.0 ≡ false) headers

IsPlain-without_sensitive : (hs : Headers) → IsPlain (without_sensitive hs)
unfolding without_sensitive
IsPlain-without_sensitive [] = tt
IsPlain-without_sensitive (h ∷ hs) = elim (Bool-cases (any_of sensitive_redirect_headers h.0)) [
  | inl e ↦ rw e (IsPlain-without_sensitive hs)
  | inr e ↦ rw e (e, IsPlain-without_sensitive hs)
]

module _ (platform : Platform) (net : Network) (limits : HttpClientLimits) (allowlist : List String)
    (ports : List ℕ) where
  -- The URL passed the policy of URLs; and the headers carry no credentials, unless the URL has the
  -- first origin.
  pub record IsSafeHop (first : String) (url : Url) (headers : Headers) : Type 0 where
    pub text : String
    pub checked : validate_outbound_url platform.parse_url text ports ≡ some url
    pub credentials : (str_eq (net.origin url) first ≡ true) ⊎ IsPlain headers

  pub record IsGuarded (first : String) (s : Sent) : Type 0 where
    pub address : IsAllowed net.is_ip platform.lower net.prefix allowlist s.url.hostname s.address
    pub hop : IsSafeHop first s.url s.headers

  -- The header of the next round.
  next_headers :
      (first : String) (same : Bool) (old new : Url) (hs : Headers)
      → str_eq (net.origin new) (net.origin old) ≡ same
      → (str_eq (net.origin old) first ≡ true) ⊎ IsPlain hs
      → (str_eq (net.origin new) first ≡ true) ⊎ IsPlain (if same then hs else without_sensitive hs)
  next_headers first true old new hs e (inl at_first) = inl (
      subst (λ o. str_eq o first ≡ true) (sym ((eq_iff (net.origin new) (net.origin old)).0 e))
        at_first)
  next_headers first true old new hs e (inr plain) = inr plain
  next_headers first false old new hs e k = inr (IsPlain-without_sensitive hs)

  redirected-IsSafeHop :
      (first : String) (hop : Hop) (status : ℕ) (location : String) (next : Hop)
      → IsSafeHop first hop.url hop.headers
      → redirected platform net limits allowlist ports hop status location ≡ some next
      → IsSafeHop first next.url next.headers
  unfolding redirected
  redirected-IsSafeHop first hop status location next safe e =
      elim (Option-cases (net.resolve_url location hop.url)) [
        | inl q ↦ cc (rw (q, redirected) at e)
        | inr (text, q) ↦
            elim (Option-cases (validate_outbound_url platform.parse_url text ports)) [
              | inl v ↦ cc (rw (q, v, redirected) at e)
              | inr (url, v) ↦
                  let same = some-injective _ _ (rw (q, v, redirected) at e) in
                  subst (λ (h : Hop). IsSafeHop first h.url h.headers) same
                    (record {
                      text = text;
                      checked = v;
                      credentials =
                          next_headers first (str_eq (net.origin url) (net.origin hop.url)) hop.url
                            url hop.headers refl safe.credentials;
                    })
            ]
      ]

  -- The state of the next round is safe, where there is one.
  data IsSafeTurn (first : String) : Turn → Type 0 where
    at_end : (o : Outcome BufferedResponse) → IsSafeTurn first (ends o)
    goes : (hop : Hop) → IsSafeHop first hop.url hop.headers → IsSafeTurn first (goes_on hop)

  moved-IsSafeTurn :
      (first : String) (hop : Hop) (status : ℕ) (location : String)
      → IsSafeHop first hop.url hop.headers
      → IsSafeTurn first
          (elim (redirected platform net limits allowlist ports hop status location) [
            | none ↦ ends (throws other)
            | some next ↦ goes_on next
          ])
  moved-IsSafeTurn first hop status location safe =
      elim (Option-cases (redirected platform net limits allowlist ports hop status location)) [
        | inl e ↦ rw e (at_end _)
        | inr (next, e) ↦
            rw e (goes next (redirected-IsSafeHop first hop status location next safe e))
      ]

  turn-IsSafeTurn :
      (first : String) (input : ClientRequest) (last : Bool) (hop : Hop) (r : TransportResponse)
      → IsSafeHop first hop.url hop.headers
      → IsSafeTurn first (turn platform net limits allowlist ports input last hop r)
  unfolding turn
  turn-IsSafeTurn first input last hop r safe = elim (Bool-cases (is_redirect r.status)) [
    | inr e ↦ rw (e, turn) (at_end _)
    | inl e ↦ elim (Option-cases (get_header "location" r.headers)) [
      | inl q ↦ rw (e, q, turn) (at_end _)
      | inr (location, q) ↦ elim (Bool-cases (str_eq location "")) [
        | inl z ↦ rw (e, q, turn) (rw z (at_end _))
        | inr z ↦ rw (e, q, turn) (rw z (turned last location))
      ]
    ]
  ]
    where
      turned :
          (b : Bool) (location : String)
          → IsSafeTurn first (
              if b
              then ends (
                  throws (
                    connector
                      (connector_error ErrorKind.permanent (some "SOURCE_REDIRECT_LIMIT") none)))
              else (elim (redirected platform net limits allowlist ports hop r.status location) [
                | none ↦ ends (throws other)
                | some next ↦ goes_on next
              ]))
      turned true location = at_end _
      turned false location = moved-IsSafeTurn first hop r.status location safe

  exchange-IsSafeTurn :
      (first : String) (input : ClientRequest) (last : Bool) (hop : Hop) (n : ℕ) (sent : Sent)
      → IsSafeHop first hop.url hop.headers
      → IsSafeTurn first (
          exchange platform net limits allowlist ports n sent
            (turn platform net limits allowlist ports input last hop))
  unfolding exchange
  exchange-IsSafeTurn first input last hop n sent safe =
      elim (Option-cases (net.transport n sent)) [
        | inl e ↦ rw (e, exchange) (at_end _)
        | inr (r, e) ↦ rw (e, exchange) (turn-IsSafeTurn first input last hop r safe)
      ]

  head-IsAllowed :
      (hostname : String) (rs : List ResolvedAddress) (address : ResolvedAddress)
      → All (IsAllowed net.is_ip platform.lower net.prefix allowlist hostname) rs
        × ((rest : List ResolvedAddress) × (rs ≡ address ∷ rest))
      → IsAllowed net.is_ip platform.lower net.prefix allowlist hostname address
  head-IsAllowed hostname rs address (all, (rest, e)) =
      (subst (λ xs. All (IsAllowed net.is_ip platform.lower net.prefix allowlist hostname) xs) e
        all).0

  -- An address that was found is allowed for the host.
  data IsLocated (hostname : String) : Outcome ResolvedAddress → Type 0 where
    found :
        (a : ResolvedAddress)
        → IsAllowed net.is_ip platform.lower net.prefix allowlist hostname a
        → IsLocated hostname (responds a)
    refused : (e : Thrown) → IsLocated hostname (throws e)

  locate-IsLocated :
      (n : ℕ) (hop : Hop)
      → IsLocated hop.url.hostname (locate platform net limits allowlist ports n hop)
  unfolding locate
  locate-IsLocated n hop = elim (Option-cases (net.resolve n hop.url.hostname)) [
    | inl e ↦ rw (e, locate) (refused _)
    | inr (rs, e) ↦
        elim (Option-cases (
          assert_address_policy net.is_ip platform.lower net.prefix rs allowlist
            hop.url.hostname)) [
              | inl q ↦ rw (e, q, locate) (refused _)
              | inr (a, q) ↦
                  rw (e, q, locate)
                    (found a (
                      head-IsAllowed hop.url.hostname rs a (
                        assert_address_policy-All net.is_ip platform.lower net.prefix rs allowlist
                          hop.url.hostname a q)))
            ]
  ]

  abbrev IsFew : String → ℕ → Outcome BufferedResponse × List Sent → Type 0
  IsFew first n r = All (IsGuarded first) r.1 × (length r.1 ≤ n)

  rest-IsFew :
      (first : String) (n : ℕ) (next : Hop → Outcome BufferedResponse × List Sent) (hop : Hop)
      (a : ResolvedAddress) (t : Turn)
      → IsSafeHop first hop.url hop.headers
      → IsAllowed net.is_ip platform.lower net.prefix allowlist hop.url.hostname a
      → ((h : Hop) → IsSafeHop first h.url h.headers → IsFew first n (next h))
      → IsSafeTurn first t
      → IsFew first (suc n) (
          finish_turn platform net limits allowlist ports next
            (sent_to platform net limits allowlist ports a hop)
            t)
  rest-IsFew first n next hop a t safe reach f (at_end o) =
      ((record { address = reach; hop = safe }, tt), omega arith)
  rest-IsFew first n next hop a t safe reach f (goes h s) =
      let (all, few) = f h s in ((record { address = reach; hop = safe }, all), omega (arith, few))

  round-IsFew :
      (first : String) (n : ℕ) (next : Hop → Outcome BufferedResponse × List Sent) (hop : Hop)
      (t : Sent → Turn) (o : Outcome ResolvedAddress)
      → IsSafeHop first hop.url hop.headers
      → ((h : Hop) → IsSafeHop first h.url h.headers → IsFew first n (next h))
      → ((s : Sent) → IsSafeTurn first (t s))
      → IsLocated hop.url.hostname o
      → IsFew first (suc n) (
          with_address platform net limits allowlist ports o (λ a.
            finish_turn platform net limits allowlist ports next
              (sent_to platform net limits allowlist ports a hop)
              (t (sent_to platform net limits allowlist ports a hop))))
  round-IsFew first n next hop t o safe f g (found a reach) =
      rest-IsFew first n next hop a (t (sent_to platform net limits allowlist ports a hop)) safe
        reach f (g (sent_to platform net limits allowlist ports a hop))
  round-IsFew first n next hop t o safe f g (refused e) = (tt, omega arith)

  follow-IsFew :
      (first : String) (input : ClientRequest) (left n : ℕ) (hop : Hop)
      → IsSafeHop first hop.url hop.headers
      → IsFew first (suc left) (follow platform net limits allowlist ports input left n hop)
  unfolding follow
  follow-IsFew first input zero n hop safe =
      round-IsFew first 0 (λ h. (throws other, [])) hop
        (λ s.
          exchange platform net limits allowlist ports n s
            (turn platform net limits allowlist ports input true hop))
        (locate platform net limits allowlist ports n hop) safe (λ h s. (tt, omega arith))
        (λ s. exchange-IsSafeTurn first input true hop n s safe) (locate-IsLocated n hop)
  follow-IsFew first input (suc left) n hop safe =
      round-IsFew first (suc left)
        (λ h. follow platform net limits allowlist ports input left (suc n) h) hop
        (λ s.
          exchange platform net limits allowlist ports n s
            (turn platform net limits allowlist ports input false hop))
        (locate platform net limits allowlist ports n hop) safe
        (λ h s. follow-IsFew first input left (suc n) h s)
        (λ s. exchange-IsSafeTurn first input false hop n s safe) (locate-IsLocated n hop)

  started-IsFew :
      (input : ClientRequest) (url : Url) (o : Outcome Headers)
      → validate_outbound_url platform.parse_url input.url ports ≡ some url
      → IsFew (net.origin url) (suc limits.max_redirects) (elim o [
        | throws e ↦ (throws e, [])
        | unsettled ↦ (unsettled, [])
        | responds headers ↦
            follow platform net limits allowlist ports input limits.max_redirects 0
              (record { url = url; headers = headers; method = input.method; body = input.body })
      ])
  started-IsFew input url (throws e) v = (tt, omega arith)
  started-IsFew input url unsettled v = (tt, omega arith)
  started-IsFew input url (responds headers) v =
      follow-IsFew (net.origin url) input limits.max_redirects 0
        (record { url = url; headers = headers; method = input.method; body = input.body })
        (record {
          text = input.url;
          checked = v;
          credentials = inl ((eq_iff (net.origin url) (net.origin url)).1 refl);
        })

  request_with_redirects-IsFew :
      (input : ClientRequest) (url : Url)
      → validate_outbound_url platform.parse_url input.url ports ≡ some url
      → IsFew
          (net.origin url)
          (suc limits.max_redirects)
          (request_with_redirects platform net limits allowlist ports input)
  unfolding request_with_redirects
  request_with_redirects-IsFew input url v =
      rw (v, request_with_redirects)
        (started-IsFew input url
          (request_headers platform.lower input.headers
            (user_agent_of platform net limits allowlist ports input))
          v)

  unsent :
      (input : ClientRequest)
      → validate_outbound_url platform.parse_url input.url ports ≡ none
      → (request_with_redirects platform net limits allowlist ports input).1 ≡ []
  unfolding request_with_redirects
  unsent input e = rw (e, request_with_redirects) refl

  -- Whatever names resolve to, and whatever servers answer: each request that the client sends goes
  -- to an address that is public or on the allowlist, for a URL that passed the policy of URLs; it
  -- carries no authorization, cookie or proxy authorization unless the URL has the origin of the
  -- first; and there is one request more than the redirects that are allowed, at most. Nothing is
  -- sent for a URL that the policy rejects.
  pub request-IsGuarded :
      (input : ClientRequest)
      → ((url : Url) × (validate_outbound_url platform.parse_url input.url ports ≡ some url)
          × (All (IsGuarded (net.origin url)) (request platform net limits allowlist ports input).1)
          × (length (request platform net limits allowlist ports input).1
              ≤ suc limits.max_redirects))
        ⊎ ((validate_outbound_url platform.parse_url input.url ports ≡ none)
            × ((request platform net limits allowlist ports input).1 ≡ []))
  unfolding request
  request-IsGuarded input =
      elim (Option-cases (validate_outbound_url platform.parse_url input.url ports)) [
        | inl e ↦ inr (e, unsent input e)
        | inr (url, e) ↦ inl (
          url,
          e,
          (request_with_redirects-IsFew input url e).0,
          (request_with_redirects-IsFew input url e).1,
        )
      ]
