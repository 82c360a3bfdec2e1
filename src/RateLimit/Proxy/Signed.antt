-- ===== src/RateLimit/Proxy/Signed.antt =====
-- An address other than the direct one is one that a trusted proxy signed a minute ago at most.
use Prim.Native.String.{String}
use mirth_spool.Base.{
  ℕ, ◌+◌, ◌≤◌, ◌≡◌, refl, subst, Bool, true, false, ◌||◌, Option, none, some, List, [], ◌∷◌, arith,
  ltb, ◌==◌, ==_iff, if◌then◌else◌, Bool-cases, Option-cases, inl, inr, ◌≢◌,
}
use mirth_spool.RateLimit.Proxy.{
  Proxies, header, includes, has_comma, timestamp_of, same_bytes, signed_text, is_far, verified,
  forwarded_address, get_client_address,
}

same_bytes-eq : (xs bs : List ℕ) → same_bytes xs bs ≡ true → xs ≡ bs
unfolding same_bytes
same_bytes-eq [] [] h = refl
same_bytes-eq [] (b ∷ bs) h = cc
same_bytes-eq (a ∷ xs) [] h = cc
same_bytes-eq (a ∷ xs) (b ∷ bs) h = elim (Bool-cases (a == b)) [
  | inl e ↦
      let heads : a ≡ b = (==_iff a b).0 e in
      let tails = same_bytes-eq xs bs (rw e at h) in λ i. heads i ∷ tails i
  | inr e ↦ cc (rw e at h)
]

-- What a proxy's word for an address rests on.
pub record IsSigned (p : Proxies) (address : String) : Type 0 where
  pub proxy : String
  pub timestamp : String
  pub signature : String
  pub time : ℕ
  pub trusted : includes p.trusted_addresses proxy ≡ true
  pub forwarded : header p.headers "x-forwarded-for" ≡ some address
  pub stamped : header p.headers "x-mirthspool-forwarded-at" ≡ some timestamp
  pub enclosed : header p.headers "x-mirthspool-forwarded-signature" ≡ some signature
  pub named : header p.headers "x-mirthspool-forwarded-by" ≡ some proxy
  pub dated : timestamp_of timestamp ≡ some time
  pub recent : (p.now ≤ time + 60000) × (time ≤ p.now + 60000)
  pub is_address : p.is_ip address ≢ 0
  pub signed :
      p.decode_signature signature ≡ p.hmac_sha256 p.secret (signed_text address proxy timestamp)

-- What the checks promise of their result.
abbrev Promises : Proxies → Option String → Type 0
Promises p none = Unit
Promises p (some address) = IsSigned p address

recently :
    (now t : ℕ)
    → (ltb 9007199254740991 t || is_far now t) ≡ false
    → (now ≤ t + 60000) × (t ≤ now + 60000)
unfolding is_far
recently now t h = (ground (arith, h), ground (arith, h))

addressed : (comma : Bool) (n : ℕ) → (comma || n == 0) ≡ false → n ≢ 0
addressed comma n h = λ e. ground (arith, h, e)

forwarded_address-Promises :
    (p : Proxies) (proxy : String)
    → includes p.trusted_addresses proxy ≡ true
    → header p.headers "x-mirthspool-forwarded-by" ≡ some proxy
    → Promises p (forwarded_address p proxy)
unfolding forwarded_address
forwarded_address-Promises p proxy trusted named =
    elim (Option-cases (header p.headers "x-forwarded-for")) [
      | inl e ↦ rw (e, forwarded_address) tt
      | inr (forwarded, e) ↦ elim (Option-cases (header p.headers "x-mirthspool-forwarded-at")) [
        | inl e2 ↦ rw (e, e2, forwarded_address) tt
        | inr (timestamp, e2) ↦
            elim (Option-cases (header p.headers "x-mirthspool-forwarded-signature")) [
              | inl e3 ↦ rw (e, e2, e3, forwarded_address) tt
              | inr (signature, e3) ↦ elim (Option-cases (timestamp_of timestamp)) [
                | inl e4 ↦ rw (e, e2, e3, e4, forwarded_address) tt
                | inr (t, e4) ↦
                    rw (e, e2, e3, e4, forwarded_address)
                      (checked forwarded timestamp signature t e e2 e3 e4)
              ]
            ]
      ]
    ]
  where
    checked :
        (forwarded timestamp signature : String) (t : ℕ)
        → header p.headers "x-forwarded-for" ≡ some forwarded
        → header p.headers "x-mirthspool-forwarded-at" ≡ some timestamp
        → header p.headers "x-mirthspool-forwarded-signature" ≡ some signature
        → timestamp_of timestamp ≡ some t
        → Promises p (
            if has_comma forwarded || p.is_ip forwarded == 0
            then none
            else if ltb 9007199254740991 t || is_far p.now t
            then none
            else if verified p forwarded proxy timestamp signature
            then some forwarded
            else none)
    checked forwarded timestamp signature t from at enclosed dated =
        elim (Bool-cases (has_comma forwarded || p.is_ip forwarded == 0)) [
          | inl bad ↦ rw bad tt
          | inr address ↦ elim (Bool-cases (ltb 9007199254740991 t || is_far p.now t)) [
            | inl bad ↦ rw (address, bad) tt
            | inr recent ↦ elim (Bool-cases (verified p forwarded proxy timestamp signature)) [
              | inr bad ↦ rw (address, recent, bad) tt
              | inl good ↦
                  rw (address, recent, good)
                    (record {
                      proxy = proxy;
                      timestamp = timestamp;
                      signature = signature;
                      time = t;
                      trusted = trusted;
                      forwarded = from;
                      stamped = at;
                      enclosed = enclosed;
                      named = named;
                      dated = dated;
                      recent = recently p.now t recent;
                      is_address = addressed _ _ address;
                      signed = same_bytes-eq _ _ (unfold verified in good);
                    })
            ]
          ]
        ]

-- An address that is not the direct one is the one that the request's header for it names, and it is
-- an IP address; the proxy that the request names is trusted; and the signature in the request's
-- header is that of the address, the proxy and the time in the request's headers, which is at most a
-- minute away.
pub get_client_address-IsSigned :
    (p : Proxies) (address : String) → get_client_address p ≡ some address → IsSigned p address
unfolding get_client_address
get_client_address-IsSigned p address e = subst (Promises p) e promised
  where
    promised : Promises p (get_client_address p)
    promised = elim (Option-cases (header p.headers "x-mirthspool-forwarded-by")) [
      | inl none_named ↦ rw (none_named, get_client_address) tt
      | inr (proxy, named) ↦ elim (Bool-cases (includes p.trusted_addresses proxy)) [
        | inr bad ↦ rw (named, bad, get_client_address) tt
        | inl trusted ↦
            rw (named, trusted, get_client_address)
              (forwarded_address-Promises p proxy trusted named)
      ]
    ]
