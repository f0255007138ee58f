-- ===== src/Crypto.antt =====
-- src/modules/crypto/crypto.service.ts: signing and checking of tokens, DPoP proofs, and the
-- encryption of private keys. Node's `crypto`, argon2 and jose are not part of the repository:
-- `Externals` holds the calls that the services make of them.
pub mod Sealing
pub mod Dpop
use kavachid.Base.{
  ℕ, zero, suc, ◌+◌, ◌-◌, ◌*◌, ◌/◌, ◌≡◌, refl, Bool, true, false, not, ◌&&◌, ◌||◌, Option, none,
  some, List, [], ◌∷◌, String, ◌==◌, ltb, leb, nat_eq, if◌then◌else◌, present, truthy, or_else,
  same, split, template, Error, plain, Result, ok, err, bind, any,
}

-- the claims of a JWT that the services read or write
pub record Claims : Type 0 where
  pub sub : Option String
  pub tenant_id : Option String
  pub email : Option String
  pub username : Option String
  pub typ : Option String
  -- `cnf.jkt`
  pub jkt : Option String
  pub htm : Option String
  pub htu : Option String
  pub iat : Option ℕ

-- the protected header; a JWK stands as its JSON text
pub record Header : Type 0 where
  pub alg : Option String
  pub kid : Option String
  pub typ : Option String
  pub jwk : Option String

-- what `SignJWT` is told before `sign`
pub record SignRequest : Type 0 where
  pub claims : Claims
  pub header : Header
  pub issued_at : ℕ
  pub issuer : String
  pub expires_in : String

pub record Externals : Type 0 where
  -- Node
  pub sha256 : String → String
  pub aes_seal : String → String → String → String × String
  pub aes_open : String → String → String → String → Option String
  pub generate_pem : String → ℕ → String × String
  -- random values by the number of draws before: UUIDs, `randomBytes` in hex, base 36 texts
  pub uuid : ℕ → String
  pub random_hex : ℕ → String
  pub random_base36 : ℕ → String
  -- argon2, in its worker; hashing is salted by a draw
  pub argon_hash : ℕ → String → Result String
  pub argon_verify : String → String → Result Bool
  -- jose
  pub decode_header : String → Result Header
  pub import_pkcs8 : String → String → Result String
  pub import_spki : String → String → Result String
  pub import_jwk : String → Option String → Result String
  pub export_jwk : String → Result String
  pub sign : String → SignRequest → Result String
  pub jwt_verify : String → String → Option String → ℕ → Result Claims
  pub thumbprint : String → Result String
  -- the configured master key
  pub master_key : String

pub record DpopProof : Type 0 where
  pub jkt : String
  pub public_key_jwk : String

-- an entry of the key set: the exported key as JSON text, with what is added to it
pub record PublicJwk : Type 0 where
  pub kid : String
  pub alg : String
  pub use_as : String
  pub jwk : String

abbrev head_or : List String → String
head_or [] = ""
head_or (s ∷ l) = s

-- `url.split('?')[0].split('#')[0]`
unfoldable pub clean_url : String → String
clean_url url = head_or (split b'#' (head_or (split b'?' url)))

-- `Math.floor(Date.now() / 1000)`
abbrev pub seconds : ℕ → ℕ
seconds ms = ms / 1000

-- `Math.abs(now - iat)`
abbrev pub distance : ℕ → ℕ → ℕ
distance a b = (a - b) + (b - a)

abbrev or_zero : Option ℕ → ℕ
or_zero none = 0
or_zero (some n) = n

module _ (X : Externals) where
  -- the checks of `verifyDpop` on the payload, in their order
  unfoldable pub check_proof : Claims → String → String → ℕ → Result (Unit {0})
  check_proof payload method url now =
      if not (same method payload.htm)
      then err (plain "DPoP payload htm does not match request method")
      else elim payload.htu [
        | none ↦ err (plain "Cannot read properties of undefined (reading 'split')")
        | some htu ↦
            if not (clean_url url == clean_url htu)
            then err (plain "DPoP payload htu does not match request URL")
            else if ltb 120 (distance (seconds now) (or_zero payload.iat))
            then err (plain "DPoP token expired or from future")
            else ok tt
      ]

  -- `verifyDpop`
  unfoldable pub verify_dpop : String → String → String → ℕ → Result DpopProof
  verify_dpop proof method url now = bind (X.decode_header proof) λ header.
      if not (same "dpop+jwt" header.typ) || not (truthy header.jwk)
      then err (plain "Invalid DPoP header type or missing client jwk")
      else let jwk = or_else header.jwk "" in
        bind (X.import_jwk jwk header.alg) λ key. bind (X.jwt_verify proof key none now) λ payload.
          bind (check_proof payload method url now)
            λ _. bind (X.thumbprint jwk) λ jkt. ok (record { jkt = jkt; public_key_jwk = jwk })

  -- `signJwt`
  unfoldable pub sign_jwt : Claims → String → String → Option String → ℕ → Result String
  sign_jwt claims private_key_pem kid algorithm now =
      let alg = or_else algorithm "RS256" in
      bind (X.import_pkcs8 private_key_pem alg) λ key. X.sign key (record {
        claims = claims;
        header = record {
          alg = some alg;
          kid = some kid;
          typ = some (or_else claims.typ "at+jwt");
          jwk = none;
        };
        issued_at = now;
        issuer = "https://kavachid.local";
        expires_in = "15m";
      })

  -- `verifyJwt` with the default algorithms
  unfoldable pub verify_jwt : String → String → Option String → ℕ → Result Claims
  verify_jwt token public_key_pem issuer now = bind (X.decode_header token) λ header.
      let alg = or_else header.alg "" in
      if not (present alg) || not (any (λ a. a == alg) ("RS256" ∷ "ES256" ∷ []))
      then err (plain (template ("Unsupported algorithm " ∷ or_else header.alg "undefined" ∷ [])))
      else bind (X.import_spki public_key_pem alg) λ key. X.jwt_verify token key issuer now

  -- `pemToJwk`
  unfoldable pub pem_to_jwk : String → String → String → Result PublicJwk
  pem_to_jwk public_key_pem kid algorithm = bind (X.import_spki public_key_pem algorithm) λ key.
      bind (X.export_jwk key)
        λ jwk. ok (record { kid = kid; alg = algorithm; use_as = "sig"; jwk = jwk })

  -- `encryptPrivateKey`, with the hex text of the drawn nonce
  unfoldable pub encrypt_private_key : String → String → String
  encrypt_private_key iv pem =
      let (encrypted, tag) = X.aes_seal (X.sha256 X.master_key) iv pem in
      template (iv ∷ ":" ∷ encrypted ∷ ":" ∷ tag ∷ [])

  -- the decryption of the three parts; `final` throws where the tag does not fit
  abbrev open_parts : List String → Result String
  open_parts (iv ∷ ciphertext ∷ tag ∷ []) =
      elim (X.aes_open (X.sha256 X.master_key) iv ciphertext tag) [
        | none ↦ err (plain "Unsupported state or unable to authenticate data")
        | some pem ↦ ok pem
      ]
  open_parts _ = err (plain "Invalid encrypted private key format")

  -- `decryptPrivateKey`
  unfoldable pub decrypt_private_key : String → Result String
  decrypt_private_key encrypted = open_parts (split b':' encrypted)
