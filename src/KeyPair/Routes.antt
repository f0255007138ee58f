-- ===== src/KeyPair/Routes.antt =====
-- src/modules/keypair/keypair.controller.ts: the discovery document, and the routes of the keys.
use kavachid.Base.{
  Option, none, some, List, [], ◌∷◌, String, template, ok, err, Exec, if◌then◌else◌,
}
use kavachid.Prisma.{Client}
use kavachid.Schema.{Db}
use kavachid.Crypto.{Externals, PublicJwk}
use kavachid.Tenant
use kavachid.Auth.{Request}
use kavachid.KeyPair.{get_public_jwks, rotate_keys}

-- the members that hold URLs; the others are fixed lists
pub record Discovery : Type 0 where
  pub issuer : String
  pub authorization_endpoint : String
  pub token_endpoint : String
  pub userinfo_endpoint : String
  pub jwks_uri : String

abbrev pub base_url : Request → String
base_url r = template ((if r.secure then "https" else "http") ∷ "://" ∷ r.host ∷ [])

-- `getOpenidConfiguration`
unfoldable pub get_openid_configuration : Request → Discovery
get_openid_configuration request =
    let base = base_url request in
    record {
      issuer = base;
      authorization_endpoint = template (base ∷ "/oauth/authorize" ∷ []);
      token_endpoint = template (base ∷ "/auth/login" ∷ []);
      userinfo_endpoint = template (base ∷ "/users/profile" ∷ []);
      jwks_uri = template (base ∷ "/oauth/jwks" ∷ []);
    }

-- `alg: 'RS256' | 'ES256' = 'RS256'`
abbrev pub alg_of : Option String → String
alg_of none = "RS256"
alg_of (some alg) = alg

module _ (P : Client) (X : Externals) where
  -- `getWellKnownJwks`, `getOauthJwks`
  unfoldable pub jwks_route : Option String → Db P.Table → List PublicJwk
  jwks_route alg db = get_public_jwks P X (alg_of alg) db

  -- `rotateKeys`, behind the guard of the tenant
  unfoldable pub rotate_keys_route :
      Option String → Option String → Exec (Db P.Table) (String × String)
  rotate_keys_route tenant alg db = elim (Tenant.can_activate tenant) [
    | err e ↦ (err e, db)
    | ok t ↦ rotate_keys P X (alg_of alg) db
  ]
