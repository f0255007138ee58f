-- ===== src/KavachExpress.antt =====
-- samples/kavach-express/src/index.ts: the middleware of a resource server, which checks the tokens of
-- KavachID by the published keys. jose's remote key set is a parameter.
pub mod Accepted
use kavachid.Base.{
  ℕ, Bool, true, false, not, ◌&&◌, ◌||◌, Option, none, some, List, [], ◌∷◌, String, ◌==◌,
  starts_with, drop_text, truthy, or_else, same, template, Error, message, plain, Result, ok, err,
  bind, if◌then◌else◌,
}
use kavachid.Crypto.{Externals, Claims, Header, clean_url}
use kavachid.Auth.{Request, url_of}
use kavachid.WebSdk.Client.{trim_slash}

-- `KavachExpressOptions`
pub record KavachExpressOptions : Type 0 where
  pub server_url : String
  pub required_tenant_id : Option String

-- `req.user`
pub record BoundUser : Type 0 where
  pub sub : String
  pub tenant_id : String
  pub email : Option String
  pub username : Option String

-- an early answer, or on to the handler with the user
pub data Outcome : Type 0 where
  refused : ℕ → String → Outcome
  next : BoundUser → Outcome

-- `jose.jwtVerify(token, JWKS)`, by the URL of the key set and the time
abbrev pub VerifyRemote : Type 0
VerifyRemote = String → String → ℕ → Result Claims

-- the URL of the key set
abbrev pub jwks_url : KavachExpressOptions → String
jwks_url options = template (trim_slash options.server_url ∷ "/oauth/jwks" ∷ [])

module _ (X : Externals) where
  -- The checks of a verified proof; what comes back is why the request is refused, if it is.
  unfoldable pub check_payload : Request → String → String → Claims → Result (Option (ℕ × String))
  check_payload request jkt jwk payload = elim payload.htu [
    | none ↦ err (plain "Cannot read properties of undefined (reading 'split')")
    | some htu ↦
        if not (same request.method payload.htm)
        then ok (some (401, "DPoP proof HTTP method mismatch"))
        else if not (clean_url (url_of request) == clean_url htu)
        then ok (some (401, "DPoP proof HTTP URL mismatch"))
        else bind (X.thumbprint jwk) λ thumbprint.
          if jkt == thumbprint
          then ok none
          else ok (some (401, "DPoP thumbprint verification failed"))
  ]

  -- the validation of the proof for a token that is bound to a key
  unfoldable pub check_proof : Request → String → ℕ → Result (Option (ℕ × String))
  check_proof request jkt now =
      let proof = or_else request.dpop "" in
      if not (truthy request.dpop)
      then ok (some (401, "Missing required dpop signature header"))
      else bind (X.decode_header proof) λ header.
        if not (same "dpop+jwt" header.typ) || not (truthy header.jwk)
        then ok (some (401, "Invalid DPoP header structure"))
        else bind (X.import_jwk (or_else header.jwk "") header.alg) λ key.
          bind (X.jwt_verify proof key none now)
            λ payload. check_payload request jkt (or_else header.jwk "") payload

  -- the checks of the claims, in their order
  unfoldable pub check_claims :
      KavachExpressOptions → Request → Option String → Claims → ℕ → Result (Option (ℕ × String))
  check_claims options request tenant_header payload now =
      let tenant_id = or_else payload.tenant_id "" in
      if not (truthy payload.sub) || not (truthy payload.tenant_id)
      then ok (some (401, "Invalid token claims (missing sub or tenantId)"))
      else if truthy options.required_tenant_id
          && not (or_else options.required_tenant_id "" == tenant_id)
      then ok (some (403, "Forbidden: Tenant context mismatch"))
      else if truthy tenant_header && not (or_else tenant_header "" == tenant_id)
      then ok (some (403, "Forbidden: Request tenant header does not match token context"))
      else if truthy payload.jkt
      then check_proof request (or_else payload.jkt "") now
      else ok none

  abbrev pub bound_user : Claims → BoundUser
  bound_user payload = record {
    sub = or_else payload.sub "";
    tenant_id = or_else payload.tenant_id "";
    email = payload.email;
    username = payload.username;
  }

  -- what the checks of a token come to, and the `catch`
  abbrev pub conclude : Claims → Result (Option (ℕ × String)) → Outcome
  conclude payload (ok none) = next (bound_user payload)
  conclude payload (ok (some (status, text))) = refused status text
  conclude payload (err e) = refused 401 (template ("Authentication failed: " ∷ message e ∷ []))

  -- the function that `kavachAuth` answers
  unfoldable pub kavach_auth :
      VerifyRemote → KavachExpressOptions → Request → Option String → ℕ → Outcome
  kavach_auth verify options request tenant_header now =
      if not (truthy request.authorization)
        || not (starts_with (or_else request.authorization "") "Bearer ")
      then refused 401 "Missing or invalid Authorization header (expected Bearer token)"
      else elim (verify (jwks_url options) (drop_text 7 (or_else request.authorization "")) now) [
        | err e ↦ refused 401 (template ("Authentication failed: " ∷ message e ∷ []))
        | ok payload ↦ conclude payload (check_claims options request tenant_header payload now)
      ]
