-- ===== src/Session/Controller.antt =====
-- src/modules/session/session.controller.ts: who a request of the session routes speaks for, and
-- the handlers, by the request, the addresses that Express reads and the bodies.
pub mod Caller
use kavachid.Base.{
  ℕ, Bool, true, false, not, ◌&&◌, Option, none, some, List, [], ◌∷◌, String, split, starts_with,
  drop_text, present, truthy, or_else, unauthorized, Error, Result, ok, err, Exec, pure, throw,
  lift, gets, rethrow, throw_if, ◌>>=◌, ◌>>◌, if◌then◌else◌,
}
use kavachid.Prisma.{Client}
use kavachid.Schema.{Db, Session, Device}
use kavachid.Crypto.{Externals, Claims, verify_jwt}
use kavachid.KeyPair.{get_active_key_pair}
use kavachid.Auth.{Request, url_of}
use kavachid.Session.Store.{revoke_all_user_sessions}
use kavachid.Session.Issue.{Tokens, Origin}
use kavachid.Session.Login.{login}
use kavachid.Session.Refresh.{two_parts, refresh}
use kavachid.Session.Consent.{record_sso_consent}
use kavachid.Session.Revoke.{
  revoke, revoke_specific_session, get_active_sessions, get_active_devices,
}

-- `req.ip`, `req.socket.remoteAddress` and the User-Agent header
pub record Sender : Type 0 where
  pub ip : Option String
  pub remote_address : Option String
  pub user_agent : Option String

-- the origin that `login` and `refresh` pass on
abbrev pub origin_of : Sender → Request → Option String → Option String → Origin
origin_of sender request dpop client_id = record {
  ip_address = or_else sender.ip (or_else sender.remote_address "127.0.0.1");
  user_agent = or_else sender.user_agent "unknown";
  dpop_header = dpop;
  dpop_method = some request.method;
  dpop_url = some (url_of request);
  client_id = client_id;
}

-- `authHeader && authHeader.startsWith('Bearer ')`
abbrev pub has_bearer : Request → Bool
has_bearer r = truthy r.authorization && starts_with (or_else r.authorization "") "Bearer "

module _ (P : Client) (X : Externals) where
  -- the body of the `try`: the subject of a token that the active key verifies
  unfoldable pub claims_of_token : String → Exec (Db P.Table) Claims
  claims_of_token token = do
    active_key ← get_active_key_pair P X "RS256"
    now ← gets (λ db. db.now)
    lift (verify_jwt X token active_key.public_key_pem none now)

  -- the final check on the id
  unfoldable pub need_user : Option String → Exec (Db P.Table) String
  need_user user_id =
      if truthy user_id
      then pure (or_else user_id "")
      else throw (unauthorized "Authentication token or userId query parameter is required")

  -- `resolveUserId`
  unfoldable pub resolve_user_id : Request → Option String → Exec (Db P.Table) String
  resolve_user_id request query_user_id =
      if has_bearer request
      then (rethrow (claims_of_token (drop_text 7 (or_else request.authorization "")))
            (λ _. unauthorized "Invalid access token")
          >>= λ claims. need_user claims.sub)
      else need_user query_user_id

  -- `login`
  unfoldable pub login_route :
      Option String
      → Sender
      → Request
      → String
      → String
      → Option String
      → Option String
      → Option String
      → Exec (Db P.Table) Tokens
  login_route tenant sender request identifier password fingerprint dpop client_id =
      login P X tenant identifier password (origin_of sender request dpop client_id) fingerprint

  -- `logout`
  unfoldable pub logout : Option String → String → Exec (Db P.Table) (Unit {0})
  logout tenant refresh_token = revoke P X tenant refresh_token

  -- `getProfile`: the claims that the answer is made of
  unfoldable pub get_profile : Request → Exec (Db P.Table) Claims
  get_profile request = do
    user_id ← resolve_user_id request none
    throw_if (not (truthy request.authorization)) (unauthorized "Unauthorized")
    claims_of_token (drop_text 7 (or_else request.authorization ""))

  -- `refresh`
  unfoldable pub refresh_route :
      Option String
      → Sender
      → Request
      → String
      → Option String
      → Option String
      → Exec (Db P.Table) Tokens
  refresh_route tenant sender request token dpop client_id =
      refresh P X tenant token (origin_of sender request dpop client_id)

  -- `ssoConsent`
  unfoldable pub sso_consent :
      Option String → Request → String → String → Exec (Db P.Table) (Unit {0})
  sso_consent tenant request refresh_token client_id = do
    parts ← lift (two_parts (split b':' refresh_token) "Invalid token format")
    user_id ← resolve_user_id request none
    record_sso_consent P X tenant user_id parts.0 client_id

  -- `getSessions`, `getDevices`
  unfoldable pub get_sessions :
      Option String → Request → Option String → Exec (Db P.Table) (List Session)
  get_sessions tenant request query_user_id = do
    user_id ← resolve_user_id request query_user_id
    get_active_sessions P X tenant user_id

  unfoldable pub get_devices :
      Option String → Request → Option String → Exec (Db P.Table) (List Device)
  get_devices tenant request query_user_id = do
    user_id ← resolve_user_id request query_user_id
    get_active_devices P X tenant user_id

  -- `revokeAllSessions`
  unfoldable pub revoke_all_sessions : Option String → Request → Exec (Db P.Table) (Unit {0})
  revoke_all_sessions tenant request = do
    user_id ← resolve_user_id request none
    revoke_all_user_sessions P X tenant user_id

  -- `revokeSpecificSession`
  unfoldable pub revoke_session_route :
      Option String → Request → String → Exec (Db P.Table) (Unit {0})
  revoke_session_route tenant request session_id = do
    user_id ← resolve_user_id request none
    revoke_specific_session P X tenant user_id session_id
