-- ===== src/Tests/Samples.antt =====
-- A database in memory with two users of one tenant, and externals that can be computed.
use Prim.Native.String.{◌∷◌}
use kavachid.Base.{
  ℕ, zero, suc, ◌≡◌, refl, true, Option, none, some, List, String, ◌==◌, free_of, ok, err,
  if◌then◌else◌, template, present, plain,
}
use kavachid.Schema.{Db, User, Session}
use kavachid.Crypto.{Externals, Claims, Header}
use kavachid.Session.Issue.{Origin}

-- texts of one letter only, a longer one for each draw
abbrev pub repeated : ℕ → String
repeated zero = "a"
repeated (suc n) = "a" ∷ repeated n

pub free_of-repeated : (n : ℕ) → free_of b':' (repeated n) ≡ true
free_of-repeated zero = refl
free_of-repeated (suc n) = free_of-repeated n

abbrev pub no_claims : Claims
no_claims = record {
  sub = some "u1";
  tenant_id = some "t1";
  email = none;
  username = none;
  typ = some "at+jwt";
  jkt = none;
  htm = some "POST";
  htu = some "http://h/auth/login";
  iat = some 1000;
}

abbrev pub sample_header : Header
sample_header = record {
  alg = some "RS256";
  kid = some "k1";
  typ = some "dpop+jwt";
  jwk = some "jwk";
}

abbrev pub sample_externals : Externals
sample_externals = record {
  sha256 = λ s. "h" ∷ s;
  aes_seal = λ key iv pem. (pem, "tag");
  aes_open = λ key iv ct tag. if tag == "tag" then some ct else none;
  generate_pem = λ alg n. ("pub", "priv");
  uuid = repeated;
  random_hex = repeated;
  random_base36 = repeated;
  argon_hash = λ n pw. if present pw then ok pw else err (plain "empty");
  argon_verify = λ hash pw. ok (hash == pw);
  decode_header = λ token. ok sample_header;
  import_pkcs8 = λ pem alg. ok pem;
  import_spki = λ pem alg. ok pem;
  import_jwk = λ jwk alg. ok jwk;
  export_jwk = λ key. ok key;
  sign = λ key request. ok "jwt";
  jwt_verify = λ token key issuer now. ok no_claims;
  thumbprint = λ jwk. ok "thumb";
  master_key = "master";
}

abbrev pub user : String → User
user id = record {
  id = id;
  tenant_id = "t1";
  email = some (template (List.◌∷◌ id (List.◌∷◌ "@x" List.[])));
  username = some id;
  password_hash = some "secret";
  status = "active";
  migration_status = "active";
  metadata = List.[];
  created_at = 0;
  current_web_authn_challenge = none;
}

abbrev pub session : String → String → String → Option ℕ → Session
session id user_id token revoked_at = record {
  id = id;
  tenant_id = "t1";
  user_id = user_id;
  device_id = none;
  refresh_ver_hash = "h" ∷ token;
  ip_address = "1.2.3.4";
  user_agent = "ua";
  last_seen_at = 0;
  risk_score = 0;
  created_at = 0;
  revoked_at = revoked_at;
  login_client_id = none;
}

abbrev pub origin : Origin
origin = record {
  ip_address = "9.9.9.9";
  user_agent = "ua";
  dpop_header = none;
  dpop_method = some "POST";
  dpop_url = some "http://h/auth/login";
  client_id = some "c1";
}

-- two users, and the given sessions
abbrev pub database : List Session → Db List
database sessions = record {
  tenants =
      List.◌∷◌ (record { id = "t1"; name = "shop"; status = "active"; max_failed_logins = 5 })
        List.[];
  users = List.◌∷◌ (user "u1") (List.◌∷◌ (user "u2") List.[]);
  devices = List.[];
  passkeys = List.[];
  sessions = sessions;
  roles = List.[];
  permissions = List.[];
  role_permissions = List.[];
  user_roles = List.[];
  key_pairs = List.[];
  outbox_events = List.[];
  audit_logs = List.[];
  app_clients = List.◌∷◌ (record { id = "c1"; tenant_id = "t1"; name = "shop" }) List.[];
  session_app_accesses = List.[];
  login_attempts = List.[];
  user_federations = List.[];
  rate_limits = List.[];
  risk_profiles = List.[];
  policy_rules = List.[];
  now = 1_000_000;
  drawn = 5;
}
