-- ===== src/Session/Issue.antt =====
-- `issueTokensAndSession` and `createSessionForUser`
pub mod Frames
pub mod Opened
use Prim.Native.String
use kavachid.Base.{
  ℕ, Bool, true, false, not, ◌&&◌, Option, none, some, is_some, List, [], ◌∷◌, String, ◌==◌,
  present, truthy, or_else, template, substring, Error, unauthorized, message, Result, ok, err,
  Exec, pure, lift, gets, modify, rethrow, when, ◌>>=◌, ◌>>◌, if◌then◌else◌,
}
use kavachid.Prisma.{Client}
use kavachid.Schema.{Db, text, flag, User, Device, Session, draw}
use kavachid.Crypto.{Externals, Claims, DpopProof, verify_dpop, sign_jwt}
use kavachid.Tenant.{get_required_tenant_id}
use kavachid.Outbox.{create_event}
use kavachid.KeyPair.{get_active_key_pair}
use kavachid.Session.Store.{create_session, grant_access}

pub record Tokens : Type 0 where
  pub access_token : String
  pub refresh_token : String
  pub expires_in : String

-- what a request brings along besides its credentials
pub record Origin : Type 0 where
  pub ip_address : String
  pub user_agent : String
  pub dpop_header : Option String
  pub dpop_method : Option String
  pub dpop_url : Option String
  pub client_id : Option String

-- `${sessionId}:${tokenValue}`
abbrev pub refresh_token_of : String → String → String
refresh_token_of session_id token_value = String.◌++◌ session_id (String.◌∷◌ ":" token_value)

-- the payload of an access token; `cnf` is there if the thumbprint is not empty
abbrev pub payload_of : String → String → Option String → Option String → Option String → Claims
payload_of user_id tenant_id email username jkt = record {
  sub = some user_id;
  tenant_id = some tenant_id;
  email = email;
  username = username;
  typ = some "at+jwt";
  jkt = if truthy jkt then jkt else none;
  htm = none;
  htu = none;
  iat = none;
}

-- the `where` of the device lookup
abbrev device_of : String → String → String → Device → Bool
device_of tenant_id user_id fingerprint d =
    d.tenant_id == tenant_id && (d.user_id == user_id && d.fingerprint == fingerprint)

abbrev device_key : String → String → Device → Bool
device_key tenant_id id d = d.tenant_id == tenant_id && d.id == id

abbrev pub jkt_of : Option DpopProof → Option String
jkt_of none = none
jkt_of (some p) = some p.jkt

abbrev pub jwk_of : Option DpopProof → Option String
jwk_of none = none
jwk_of (some p) = some p.public_key_jwk

-- `s || null`
abbrev pub or_null : Option String → Option String
or_null s = if truthy s then s else none

-- the origin of a session that a passkey opens: its proof is for the route of that login
abbrev pub webauthn_origin : Option String → String → String → Option String → Origin
webauthn_origin dpop_header ip_address user_agent client_id = record {
  ip_address = ip_address;
  user_agent = user_agent;
  dpop_header = dpop_header;
  dpop_method = some "POST";
  dpop_url = some "http://localhost:3000/auth/webauthn/login-verify";
  client_id = client_id;
}

module _ (P : Client) (X : Externals) where
  -- the DPoP check, made where the header, the method and the URL are all there
  unfoldable pub check_dpop : Origin → Exec (Db P.Table) (Option DpopProof)
  check_dpop origin db =
      if truthy origin.dpop_header && (truthy origin.dpop_method && truthy origin.dpop_url)
      then elim (verify_dpop X (or_else origin.dpop_header "") (or_else origin.dpop_method "")
          (or_else origin.dpop_url "") db.now) [
            | ok proof ↦ (ok (some proof), db)
            | err e ↦
                (err (unauthorized (template ("DPoP verification failed: " ∷ message e ∷ []))), db)
          ]
      else (ok none, db)

  -- a new device of the user
  create_device : String → String → Origin → String → Option String → Exec (Db P.Table) String
  create_device tenant_id user_id origin fingerprint jwk = do
    id ← draw X.uuid
    modify λ db. record db {
      devices =
          P.create
            (record {
              id = id;
              tenant_id = tenant_id;
              user_id = user_id;
              platform =
                  if present origin.user_agent then substring 50 origin.user_agent else "unknown";
              device_name = some "User Device";
              fingerprint = fingerprint;
              dpop_public_key = jwk;
              is_trusted = false;
              created_at = db.now;
              last_seen_at = db.now;
            })
            db.devices;
    }
    pure id

  -- the device of the fingerprint: found, with its key renewed, or created
  unfoldable pub associate_device :
      String → String → Origin → Option String → Option String → Exec (Db P.Table) (Option String)
  unfolding create_device
  associate_device tenant_id user_id origin fingerprint jwk db =
      if truthy fingerprint
      then elim (P.find_first (device_of tenant_id user_id (or_else fingerprint "")) db.devices) [
        | none ↦
            (do
              id ← create_device tenant_id user_id origin (or_else fingerprint "") jwk
              pure (some id))
              db
        | some device ↦ (
          ok (some device.id),
          (if is_some jwk
              then record db {
                devices =
                    P.update_many (device_key tenant_id device.id)
                      (λ d. record d { dpop_public_key = jwk; last_seen_at = db.now }) db.devices;
              }
              else db),
        )
      ]
      else (ok none, db)

  -- the access of the client that the session starts from
  unfoldable pub first_access :
      String → String → String → Option String → Exec (Db P.Table) (Unit {0})
  unfolding grant_access
  first_access tenant_id user_id session_id client_id =
      when (truthy client_id) (grant_access P X tenant_id user_id session_id (or_else client_id ""))

  -- the access token, signed by the active key
  unfoldable pub sign_access_token : Claims → Exec (Db P.Table) String
  sign_access_token claims = do
    active_key ← get_active_key_pair P X "RS256"
    now ← gets (λ db. db.now)
    lift (
        sign_jwt X claims active_key.private_key_pem active_key.kid (some active_key.algorithm) now)

  -- the row of a new session, and its refresh token
  unfoldable pub open_session :
      String → String → Origin → Option String → Exec (Db P.Table) (String × String)
  unfolding create_session
  open_session tenant_id user_id origin device_id = do
    token_value ← draw X.random_hex
    id ← draw X.uuid
    now ← gets (λ db. db.now)
    create_session P X (record {
      id = id;
      tenant_id = tenant_id;
      user_id = user_id;
      device_id = device_id;
      refresh_ver_hash = X.sha256 token_value;
      ip_address = origin.ip_address;
      user_agent = origin.user_agent;
      last_seen_at = now;
      risk_score = 0;
      created_at = now;
      revoked_at = none;
      login_client_id = or_null origin.client_id;
    })
    pure (id, token_value)

  -- `issueTokensAndSession`
  unfoldable pub issue_tokens_and_session :
      Option String
      → String
      → Option String
      → Option String
      → Origin
      → Option String
      → Exec (Db P.Table) Tokens
  issue_tokens_and_session tenant user_id email username origin fingerprint = do
    tenant_id ← lift (get_required_tenant_id tenant)
    proof ← check_dpop origin
    device_id ← associate_device tenant_id user_id origin fingerprint (jwk_of proof)
    session ← open_session tenant_id user_id origin device_id
    first_access tenant_id user_id session.0 origin.client_id
    access_token ← sign_access_token (payload_of user_id tenant_id email username (jkt_of proof))
    create_event P X tenant_id "SessionCreated" (
        ("userId", text (some user_id))
        ∷ ("sessionId", text (some session.0))
        ∷ ("ipAddress", text (some origin.ip_address))
        ∷ ("userAgent", text (some origin.user_agent))
        ∷ ("dpopBound", flag (truthy (jkt_of proof)))
        ∷ [])
    pure (record {
      access_token = access_token;
      refresh_token = refresh_token_of session.0 session.1;
      expires_in = "900";
    })

  -- `createSessionForUser`
  unfoldable pub create_session_for_user :
      Option String
      → User
      → Option String
      → String
      → String
      → Option String
      → Exec (Db P.Table) Tokens
  create_session_for_user tenant user dpop_header ip_address user_agent client_id =
      issue_tokens_and_session tenant user.id user.email user.username
        (webauthn_origin dpop_header ip_address user_agent client_id) none
