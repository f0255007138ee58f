-- ===== src/KavachExpress/Accepted.antt =====
-- What a request that the middleware of a resource server lets through has been checked for.
use kavachid.Base.{
  ends_with, refl, ◌≡◌, ◌∙◌, sym, ap, ℕ, true, Option, none, some, String, eq_iff, truthy, or_else,
  same, starts_with, drop_text, ok, Result-cases, Option-cases, inl, inr, arith, false,
}
use kavachid.Crypto.{Externals, Claims, Header, clean_url}
use kavachid.Auth.{Request, url_of}
use kavachid.Auth.Bearer.{some_of_truthy}
use kavachid.KeyPair.Routes.{base_url, get_openid_configuration}
use kavachid.KavachExpress.{
  KavachExpressOptions, BoundUser, next, VerifyRemote, jwks_url, check_payload, check_proof,
  check_claims, bound_user, kavach_auth,
}

some_of_same : (s : String) (o : Option String) → same s o ≡ true → o ≡ some s
some_of_same s none h = absurd (ground arith)
some_of_same s (some t) h = ap some (sym ((eq_iff s t).0 h))

module _ (X : Externals) where
  -- A proof in the request's header, of the type of a proof and with a key, that fits the request and
  -- the thumbprint that a token is bound to; its age is not looked at.
  pub record Proves (request : Request) (jkt : String) (now : ℕ) : Type 0 where
    pub header : Header
    pub payload : Claims
    pub key : String
    pub htu : String
    pub has_proof : truthy request.dpop ≡ true
    pub decoded : X.decode_header (or_else request.dpop "") ≡ ok header
    pub has_typ : header.typ ≡ some "dpop+jwt"
    pub has_jwk : truthy header.jwk ≡ true
    pub imported : X.import_jwk (or_else header.jwk "") header.alg ≡ ok key
    pub signed : X.jwt_verify (or_else request.dpop "") key none now ≡ ok payload
    pub has_url : payload.htu ≡ some htu
    pub url_fits : clean_url (url_of request) ≡ clean_url htu
    pub method_fits : same request.method payload.htm ≡ true
    pub bound : X.thumbprint (or_else header.jwk "") ≡ ok jkt

  check_payload_passed :
      (request : Request) (jkt jwk : String) (payload : Claims)
      → check_payload X request jkt jwk payload ≡ ok none
      → (htu : String) × (payload.htu ≡ some htu)
        × (clean_url (url_of request) ≡ clean_url htu)
        × (same request.method payload.htm ≡ true)
        × (X.thumbprint jwk ≡ ok jkt)
  unfolding check_payload
  check_payload_passed request jkt jwk payload h = elim (Option-cases payload.htu) [
    | inl missing ↦ absurd (ground (arith, missing))
    | inr (htu, e) ↦ elim (Result-cases (X.thumbprint jwk)) [
      | inr (x, et) ↦ absurd (ground (arith, e, et))
      | inl (t, et) ↦ (
        htu,
        e,
        (eq_iff _ _).0 (ground (arith, e)),
        ground (arith, e),
        et ∙ ap ok (sym ((eq_iff jkt t).0 (ground (arith, e, et)))),
      )
    ]
  ]

  check_proof_passed :
      (request : Request) (jkt : String) (now : ℕ)
      → check_proof X request jkt now ≡ ok none
      → Proves request jkt now
  unfolding check_proof
  check_proof_passed request jkt now h =
      elim (Result-cases (X.decode_header (or_else request.dpop ""))) [
        | inr (x, ed) ↦ absurd (ground (arith, ed))
        | inl (header, ed) ↦ elim (Result-cases (X.import_jwk (or_else header.jwk "") header.alg)) [
          | inr (x, ei) ↦ absurd (ground (arith, ed, ei))
          | inl (key, ei) ↦
              elim (Result-cases (X.jwt_verify (or_else request.dpop "") key none now)) [
                | inr (x, es) ↦ absurd (ground (arith, ed, ei, es))
                | inl (payload, es) ↦
                    let checked : check_payload X request jkt (or_else header.jwk "") payload
                        ≡ ok none =
                      ground (arith, ed, ei, es) in
                    let (htu, eh, eu, em, et) =
                      check_payload_passed request jkt _ payload checked in
                    record {
                      header = header;
                      has_proof = ground (arith, ed, ei, es);
                      has_typ = some_of_same "dpop+jwt" header.typ (ground (arith, ed, ei, es));
                      has_jwk = ground (arith, ed, ei, es);
                      payload = payload;
                      key = key;
                      htu = htu;
                      decoded = ed;
                      imported = ei;
                      signed = es;
                      has_url = eh;
                      url_fits = eu;
                      method_fits = em;
                      bound = et;
                    }
              ]
        ]
      ]

  -- What the claims of a token that the middleware lets through have been checked for.
  pub record Admits (options : KavachExpressOptions) (request : Request)
      (tenant_header : Option String) (now : ℕ) (payload : Claims) : Type 0 where
    pub has_sub : truthy payload.sub ≡ true
    pub has_tenant : truthy payload.tenant_id ≡ true
    pub required :
        truthy options.required_tenant_id ≡ true
        → or_else options.required_tenant_id "" ≡ or_else payload.tenant_id ""
    pub requested :
        truthy tenant_header ≡ true → or_else tenant_header "" ≡ or_else payload.tenant_id ""
    pub proved : truthy payload.jkt ≡ true → Proves request (or_else payload.jkt "") now

  check_claims_passed :
      (options : KavachExpressOptions) (request : Request) (tenant_header : Option String)
      (payload : Claims) (now : ℕ)
      → check_claims X options request tenant_header payload now ≡ ok none
      → Admits options request tenant_header now payload
  unfolding check_claims
  check_claims_passed options request tenant_header payload now h = record {
    has_sub = ground arith;
    has_tenant = ground arith;
    required = λ t. (eq_iff _ _).0 (ground arith);
    requested = λ t. (eq_iff _ _).0 (ground arith);
    proved = λ t. check_proof_passed request _ now (ground arith);
  }

  -- Where the middleware lets a request through, its Authorization header is "Bearer " and a token that
  -- verifies by the published keys of the server; the claims have a subject and a tenant, which is the
  -- required tenant and the tenant of the header where there are such; where they bind a key, the
  -- request carries a proof of that key for its method and URL; and the user is the one of the claims.
  pub kavach_auth_sound :
      (verify : VerifyRemote) (options : KavachExpressOptions) (request : Request)
      (tenant_header : Option String) (now : ℕ) (u : BoundUser)
      → kavach_auth X verify options request tenant_header now ≡ next u
      → (header : String) × (payload : Claims) × (request.authorization ≡ some header)
        × (starts_with header "Bearer " ≡ true)
        × (verify (jwks_url options) (drop_text 7 header) now ≡ ok payload)
        × Admits options request tenant_header now payload
        × (u ≡ bound_user X payload)
  unfolding kavach_auth
  kavach_auth_sound verify options request tenant_header now u h =
      let header = or_else request.authorization "" in
      elim (Result-cases (verify (jwks_url options) (drop_text 7 header) now)) [
        | inr (x, ev) ↦ absurd (ground arith)
        | inl (payload, ev) ↦
            elim (Result-cases (check_claims X options request tenant_header payload now)) [
              | inr (x, ec) ↦ absurd (ground arith)
              | inl (some (status, text), ec) ↦ absurd (ground arith)
              | inl (none, ec) ↦ (
                header,
                payload,
                some_of_truthy request.authorization (ground arith),
                ground arith,
                ev,
                check_claims_passed options request tenant_header payload now ec,
                ground arith,
              )
            ]
      ]

-- A middleware that is given the base URL of a request to the server asks for the keys at the address
-- that the discovery document names, where that URL does not end in a slash.
pub jwks_url-get_openid_configuration :
    (request : Request) (options : KavachExpressOptions)
    → options.server_url ≡ base_url request
    → ends_with (base_url request) "/" ≡ false
    → jwks_url options ≡ (get_openid_configuration request).jwks_uri
unfolding get_openid_configuration
jwks_url-get_openid_configuration request options same no_slash = rw (same, no_slash) refl
