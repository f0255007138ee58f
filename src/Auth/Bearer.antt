-- ===== src/Auth/Bearer.antt =====
-- What a request that the bearer guard lets through has been checked for.
use mathlib.Core.Path.{sym}
use kavachid.Base.{
  ℕ, ◌≡◌, refl, true, not, ◌||◌, Option, none, some, String, ◌==◌, eq_iff, starts_with, drop_text,
  truthy, or_else, arith, unauthorized, Error, ok, err, Option-cases, Result-cases, Bool-cases, inl,
  inr, ◌∷◌,
}
use kavachid.Prisma.{Client}
use kavachid.Schema.{Db, KeyPair}
use kavachid.Crypto.{Externals, Claims, Header, DpopProof, verify_jwt, verify_dpop}
use kavachid.Crypto.Dpop.{Fits, verify_dpop_sound}
use kavachid.Auth.{
  Request, RequestUser, url_of, check_binding, check_token, authorize, template, message, [],
}

pub some_of_truthy : (o : Option String) → truthy o ≡ true → o ≡ some (or_else o "")
some_of_truthy none h = absurd (ground arith)
some_of_truthy (some s) h = ground arith

module _ (P : Client) (X : Externals) where
  -- The token of a user is good: the row of the key that its header names verifies it, as issued
  -- by this service; the user is the one of its claims; and where the claims bind a DPoP key, the
  -- request carries a proof that fits it and has the thumbprint of that key.
  pub record Trusted (token : String) (r : Request) (db : Db P.Table) (u : RequestUser)
      : Type 0 where
    pub header : Header
    pub kid : String
    pub key : KeyPair
    pub claims : Claims
    pub decoded : X.decode_header token ≡ ok header
    pub named : or_else header.kid "" ≡ kid
    pub stored : P.find_first (λ k. k.kid == kid) db.key_pairs ≡ some key
    pub signed :
        verify_jwt X token key.public_key_pem (some "https://kavachid.local") db.now ≡ ok claims
    pub subject : u.sub ≡ claims.sub
    pub tenant : u.tenant_id ≡ claims.tenant_id
    pub bound :
        truthy claims.jkt ≡ true
        → (proof : String) × (d : DpopProof) × (r.dpop ≡ some proof)
          × (d.jkt ≡ or_else claims.jkt "")
          × Fits X proof r.method (url_of r) db.now d

  check_binding_sound :
      (claims : Claims) (r : Request) (now : ℕ)
      → check_binding P X claims r now ≡ ok tt
      → truthy claims.jkt ≡ true
      → (proof : String) × (d : DpopProof) × (r.dpop ≡ some proof)
        × (d.jkt ≡ or_else claims.jkt "")
        × Fits X proof r.method (url_of r) now d
  unfolding check_binding
  check_binding_sound claims r now h bound =
      elim (Result-cases (verify_dpop X (or_else r.dpop "") r.method (url_of r) now)) [
        | inr (x, e) ↦ absurd (ground arith)
        | inl (d, e) ↦
            let same_key : (or_else claims.jkt "" == d.jkt) ≡ true = ground arith in
            (
              or_else r.dpop "",
              d,
              some_of_truthy r.dpop (ground arith),
              sym ((eq_iff _ _).0 same_key),
              verify_dpop_sound X (or_else r.dpop "") r.method (url_of r) now d e,
            )
      ]

  -- A token that is checked without a refusal is good.
  check_token_sound :
      (token : String) (r : Request) (db : Db P.Table) (u : RequestUser)
      → check_token P X token r db ≡ ok u
      → Trusted token r db u
  unfolding check_token
  check_token_sound token r db u h = elim (Result-cases (X.decode_header token)) [
    | inr (x, e) ↦ absurd (ground arith)
    | inl (header, e) ↦
        elim (Option-cases (P.find_first (λ k. k.kid == or_else header.kid "") db.key_pairs)) [
          | inl missing ↦ absurd (ground arith)
          | inr (key, ek) ↦
              elim (Result-cases
                (verify_jwt X token key.public_key_pem (some "https://kavachid.local") db.now)) [
                  | inr (x, ev) ↦ absurd (ground arith)
                  | inl (claims, ev) ↦ elim (Result-cases (check_binding P X claims r db.now)) [
                    | inr (x, eb) ↦ absurd (ground arith)
                    | inl (t, eb) ↦ record {
                      header = header;
                      kid = or_else header.kid "";
                      key = key;
                      claims = claims;
                      decoded = e;
                      named = refl;
                      stored = ek;
                      signed = ev;
                      subject = ground arith;
                      tenant = ground arith;
                      bound = check_binding_sound claims r db.now eb;
                    }
                  ]
                ]
        ]
  ]

  -- Where the bearer guard binds a user to a request, the text after "Bearer " in its
  -- Authorization header is a good token of that user.
  pub authorize_sound :
      (r : Request) (db : Db P.Table) (u : RequestUser)
      → authorize P X r db ≡ ok u
      → (header : String) × (r.authorization ≡ some header)
        × (starts_with header "Bearer " ≡ true)
        × Trusted (drop_text 7 header) r db u
  unfolding authorize
  authorize_sound r db u h =
      elim (Result-cases (check_token P X (drop_text 7 (or_else r.authorization "")) r db)) [
        | inr (x, e) ↦ absurd (ground arith)
        | inl (v, e) ↦
            let same_user : ok v ≡ ok u = ground arith in
            (
              or_else r.authorization "",
              some_of_truthy r.authorization (ground arith),
              ground arith,
              check_token_sound (drop_text 7 (or_else r.authorization "")) r db u
                  (rw same_user at e),
            )
      ]

  -- Every refusal of the bearer guard is an Unauthorized exception.
  pub authorize_refusal :
      (r : Request) (db : Db P.Table) (x : Error)
      → authorize P X r db ≡ err x
      → (m : String) × (x ≡ unauthorized m)
  unfolding authorize
  authorize_refusal r db x h =
      elim (Result-cases (check_token P X (drop_text 7 (or_else r.authorization "")) r db)) [
        | inl (v, e) ↦
            elim (Bool-cases (
              not (truthy r.authorization)
              || not (starts_with (or_else r.authorization "") "Bearer "))) [
                | inl b ↦ (
                  "Missing or invalid Authorization header (expected Bearer token)",
                  ground arith,
                )
                | inr b ↦ absurd (ground arith)
              ]
        | inr (y, e) ↦
            elim (Bool-cases (
              not (truthy r.authorization)
              || not (starts_with (or_else r.authorization "") "Bearer "))) [
                | inl b ↦ (
                  "Missing or invalid Authorization header (expected Bearer token)",
                  ground arith,
                )
                | inr b ↦ (template ("Unauthorized: " ∷ message y ∷ []), ground arith)
              ]
      ]
