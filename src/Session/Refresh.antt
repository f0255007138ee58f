-- ===== src/Session/Refresh.antt =====
-- `refresh`: the rotation of refresh tokens, with the detection of their reuse
pub mod Reuse
pub mod Rotation
use kavachid.Base.{
  ℕ, ◌≡◌, ◌≤◌, Bool, true, false, not, present, Option, none, some, is_some, List, [], ◌∷◌, String,
  ◌==◌, truthy, or_else, split, Error, unauthorized, plain, Result, ok, err, Exec, pure, throw,
  lift, gets, or_throw, when, ◌>>=◌, ◌>>◌, if◌then◌else◌,
}
use kavachid.Prisma.{Client}
use kavachid.Schema.{Db, Fields, text, User, Session, draw}
use kavachid.Crypto.{Externals}
use kavachid.Tenant.{get_required_tenant_id}
use kavachid.Outbox.{create_event}
use kavachid.Session.Store.{
  has_key, user_key, revoked, update_session, ensure_access, revoke_all_user_sessions,
}
use kavachid.Session.Issue.{
  Tokens, Origin, jkt_of, payload_of, refresh_token_of, check_dpop, sign_access_token,
}

-- the two parts of a refresh token
abbrev pub two_parts : List String → String → Result (String × String)
two_parts (session_id ∷ token_value ∷ []) reason = ok (session_id, token_value)
two_parts _ reason = err (unauthorized reason)

-- the update of a session whose token is rotated
abbrev pub rotated : String → Origin → ℕ → Session → Session
rotated hash origin now s = record s {
  refresh_ver_hash = hash;
  ip_address = origin.ip_address;
  user_agent = origin.user_agent;
  last_seen_at = now;
}

-- the payload of the event that reports a reuse
abbrev pub hijack_payload : Session → Origin → Fields
hijack_payload session origin =
    ("userId", text (some session.user_id))
    ∷ ("sessionId", text (some session.id))
    ∷ ("ipAddress", text (some origin.ip_address))
    ∷ ("userAgent", text (some origin.user_agent))
    ∷ []

module _ (P : Client) (X : Externals) where
  -- the session of the key with its user, which a foreign key says is there
  find_session : String → String → Exec (Db P.Table) (Session × User)
  find_session tenant_id session_id db =
      elim (P.find_first (has_key tenant_id session_id) db.sessions) [
        | none ↦ (err (unauthorized "Session not found"), db)
        | some session ↦
            or_throw
              (elim (P.find_first (user_key tenant_id session.user_id) db.users) [
                | none ↦ none
                | some user ↦ some (session, user)
              ])
              (plain "Inconsistent query result: Field user is required to return data") db
      ]

  -- the answer to a token of a session that is revoked
  unfoldable pub answer_revoked : {A : Type 0} → Option String → Session → Exec (Db P.Table) A
  answer_revoked tenant session = do
    revoke_all_user_sessions P X tenant session.user_id
    throw (
        unauthorized
          "Session has been revoked. All active sessions for this user have been terminated.")

  -- the answer to a token that does not fit the stored hash
  unfoldable pub answer_reuse :
      {A : Type 0} → Option String → String → String → Session → Origin → Exec (Db P.Table) A
  answer_reuse tenant tenant_id session_id session origin = do
    now ← gets (λ db. db.now)
    update_session P X tenant_id session_id (revoked now)
    revoke_all_user_sessions P X tenant session.user_id
    create_event P X tenant_id "SessionHijackDetected" (hijack_payload session origin)
    throw
        (unauthorized "Refresh token reuse detected. All sessions for this user have been revoked.")

  -- a new token value, whose hash replaces the stored one
  unfoldable pub rotate : String → String → Origin → Exec (Db P.Table) String
  rotate tenant_id session_id origin = do
    token_value ← draw X.random_hex
    now ← gets (λ db. db.now)
    update_session P X tenant_id session_id (rotated (X.sha256 token_value) origin now)
    pure token_value

  -- the way of a token that is good
  unfoldable pub renew : String → String → Session → User → Origin → Exec (Db P.Table) Tokens
  unfolding rotate
  renew tenant_id session_id session user origin = do
    proof ← check_dpop P X origin
    token_value ← rotate tenant_id session_id origin
    when (truthy origin.client_id)
        (ensure_access P X tenant_id session.user_id session_id (or_else origin.client_id ""))
    access_token ←
        sign_access_token P X
          (payload_of session.user_id tenant_id user.email user.username (jkt_of proof))
    pure (record {
      access_token = access_token;
      refresh_token = refresh_token_of session_id token_value;
      expires_in = "900";
    })

  -- `refresh`
  unfoldable pub refresh : Option String → String → Origin → Exec (Db P.Table) Tokens
  unfolding find_session
  refresh tenant refresh_token origin = do
    tenant_id ← lift (get_required_tenant_id tenant)
    parts ← lift (two_parts (split b':' refresh_token) "Invalid refresh token format")
    found ← find_session tenant_id parts.0
    if is_some found.0.revoked_at
        then answer_revoked tenant found.0
        else if not (found.0.refresh_ver_hash == X.sha256 parts.1)
        then answer_reuse tenant tenant_id parts.0 found.0 origin
        else renew tenant_id parts.0 found.0 found.1 origin

-- A refresh token that names a session of the tenant: what the request finds in the database.
pub record Presents (P : Client) (t token : String) (db : Db P.Table)
    (session_id token_value : String) (session : Session) (user : User) : Type 0 where
  pub tenant_given : present t ≡ true
  pub parts : split b':' token ≡ session_id ∷ token_value ∷ []
  pub session_found : P.find_first (has_key t session_id) db.sessions ≡ some session
  -- the primary key of the sessions
  pub session_unique : P.count (has_key t session_id) db.sessions ≤ 1
  pub user_found : P.find_first (user_key t session.user_id) db.users ≡ some user
