-- ===== src/Session/Store.antt =====
-- The `where` clauses of the session service, its calls on one table, and its revocations.
pub mod Frames
use kavachid.Base.{
  attempt, ℕ, Bool, true, false, not, ◌&&◌, ◌||◌, Option, none, some, is_some, List, [], ◌∷◌,
  String, ◌==◌, nat_eq, same, Error, foreign_key_violation, Result, ok, err, bind, Exec, pure, lift,
  modify, ◌>>=◌, ◌>>◌, if◌then◌else◌,
}
use kavachid.Prisma.Constraints.{tenant_exists}
use kavachid.Prisma.{Client, update, create_unique}
use kavachid.Schema.{
  Db, Fields, text, User, Device, Session, AppClient, SessionAppAccess, AuditLog, LoginAttempt,
  draw,
}
use kavachid.Crypto.{Externals}
use kavachid.Tenant.{get_required_tenant_id}
use kavachid.Outbox.{create_event}
use kavachid.Audit.{create_log}

-- `tenantId_id: { tenantId, id }`
abbrev pub has_key : String → String → Session → Bool
has_key tenant_id id s = s.tenant_id == tenant_id && s.id == id

abbrev pub user_key : String → String → User → Bool
user_key tenant_id id u = u.tenant_id == tenant_id && u.id == id

-- `{ tenantId, userId, revokedAt: null }`
abbrev pub is_active_of : String → String → Session → Bool
is_active_of tenant_id user_id s =
    s.tenant_id == tenant_id && (s.user_id == user_id && not (is_some s.revoked_at))

-- `{ tenantId, OR: [{ email: identifier }, { username: identifier }] }`
abbrev pub is_named : String → String → User → Bool
is_named tenant_id identifier u =
    u.tenant_id == tenant_id && (same identifier u.email || same identifier u.username)

abbrev pub access_key : String → String → String → SessionAppAccess → Bool
access_key tenant_id session_id client_id a =
    a.tenant_id == tenant_id && (a.session_id == session_id && a.app_client_id == client_id)

abbrev pub client_key : String → String → AppClient → Bool
client_key tenant_id id c = c.tenant_id == tenant_id && c.id == id

-- `revokedAt: new Date()`
abbrev pub revoked : ℕ → Session → Session
revoked now s = record s { revoked_at = some now }

-- the row of a login attempt
abbrev pub new_attempt : String → String → String → String → Bool → ℕ → LoginAttempt
new_attempt id tenant_id ip_address identifier success now = record {
  id = id;
  tenant_id = tenant_id;
  ip_address = ip_address;
  identifier = identifier;
  success = success;
  created_at = now;
}

module _ (P : Client) (X : Externals) where
  -- whether the optional foreign key to an app client is met
  abbrev pub client_known : String → Option String → Db P.Table → Bool
  client_known tenant_id none db = true
  client_known tenant_id (some c) db =
      not (nat_eq (P.count (client_key tenant_id c) db.app_clients) 0)

  -- `prisma.session.create`
  unfoldable pub create_session : Session → Exec (Db P.Table) (Unit {0})
  create_session s db =
      if client_known s.tenant_id s.login_client_id db
      then (ok tt, record db { sessions = P.create s db.sessions })
      else (err foreign_key_violation, db)

  -- `prisma.session.update` of one session
  unfoldable pub update_session :
      String → String → (Session → Session) → Exec (Db P.Table) (Unit {0})
  update_session tenant_id id f db = elim (update P (has_key tenant_id id) f db.sessions) [
    | ok t ↦ (ok tt, record db { sessions = t })
    | err e ↦ (err e, db)
  ]

  -- `prisma.sessionAppAccess.create`
  unfoldable pub create_access : String → String → String → Exec (Db P.Table) (Unit {0})
  create_access tenant_id session_id client_id db =
      if client_known tenant_id (some client_id) db
      then elim (create_unique P (access_key tenant_id session_id client_id)
          (record {
            session_id = session_id;
            tenant_id = tenant_id;
            app_client_id = client_id;
            accessed_at = db.now;
          })
          db.session_app_accesses) [
            | ok t ↦ (ok tt, record db { session_app_accesses = t })
            | err e ↦ (err e, db)
          ]
      else (err foreign_key_violation, db)

  -- the two writes by which a product's access through a session is recorded
  unfoldable pub grant_access : String → String → String → String → Exec (Db P.Table) (Unit {0})
  unfolding create_access
  grant_access tenant_id user_id session_id client_id = do
    create_access tenant_id session_id client_id
    create_log P X tenant_id (some user_id) "SSO_PRODUCT_ACCESS" "app_client" (some client_id)
        (("sessionId", text (some session_id)) ∷ [])

  -- the same, where there is no such access yet
  unfoldable pub ensure_access : String → String → String → String → Exec (Db P.Table) (Unit {0})
  unfolding grant_access
  ensure_access tenant_id user_id session_id client_id db =
      if is_some (P.find_first (access_key tenant_id session_id client_id) db.session_app_accesses)
      then (ok tt, db)
      else grant_access tenant_id user_id session_id client_id db

  -- the row of `logAttempt`, which is refused where there is no such tenant
  unfoldable pub create_attempt : String → String → String → Bool → Exec (Db P.Table) (Unit {0})
  create_attempt tenant_id ip_address identifier success db =
      if tenant_exists P tenant_id db
      then (do
        id ← draw X.uuid
        modify λ db. record db {
          login_attempts =
              P.create (new_attempt id tenant_id ip_address identifier success db.now)
                db.login_attempts;
        })
          db
      else (err foreign_key_violation, db)

  -- `logAttempt`, which ignores a failure
  unfoldable pub log_attempt : String → String → String → Bool → Exec (Db P.Table) (Unit {0})
  unfolding create_attempt
  log_attempt tenant_id ip_address identifier success =
      attempt (create_attempt tenant_id ip_address identifier success)

  -- the `updateMany` of `revokeAllUserSessions`
  unfoldable pub revoke_active : String → String → Exec (Db P.Table) (Unit {0})
  revoke_active tenant_id user_id = modify λ db. record db {
    sessions = P.update_many (is_active_of tenant_id user_id) (revoked db.now) db.sessions;
  }

  -- `revokeAllUserSessions`
  unfoldable pub revoke_all_user_sessions : Option String → String → Exec (Db P.Table) (Unit {0})
  unfolding revoke_active
  revoke_all_user_sessions tenant user_id = do
    tenant_id ← lift (get_required_tenant_id tenant)
    revoke_active tenant_id user_id
    create_event P X tenant_id "AllSessionsRevoked" (("userId", text (some user_id)) ∷ [])
