-- ===== src/Session/Revoke.antt =====
-- `revoke`, `revokeSpecificSession`, and the queries of active sessions and devices
pub mod Ended
use kavachid.Base.{
  ℕ, Bool, true, false, not, ◌||◌, ◌&&◌, Option, none, some, List, [], ◌∷◌, String, ◌==◌, split,
  Error, not_found, Result, ok, err, Exec, pure, throw, lift, gets, throw_if, ◌>>=◌, ◌>>◌,
}
use kavachid.Prisma.{Client, desc}
use kavachid.Schema.{Db, text, Session, Device}
use kavachid.Crypto.{Externals}
use kavachid.Tenant.{get_required_tenant_id}
use kavachid.Outbox.{create_event}
use kavachid.Session.Store.{has_key, is_active_of, revoked, update_session}
use kavachid.Session.Refresh.{two_parts}

-- `!session || session.userId !== userId`
abbrev pub not_owned : String → Option Session → Bool
not_owned user_id none = true
not_owned user_id (some s) = not (s.user_id == user_id)

module _ (P : Client) (X : Externals) where
  -- the write that both revocations make, and its event
  unfoldable pub revoke_session : String → String → Exec (Db P.Table) (Unit {0})
  revoke_session tenant_id session_id = do
    now ← gets (λ db. db.now)
    update_session P X tenant_id session_id (revoked now)
    create_event P X tenant_id "SessionRevoked" (("sessionId", text (some session_id)) ∷ [])

  -- `revoke`: the token value is not looked at
  unfoldable pub revoke : Option String → String → Exec (Db P.Table) (Unit {0})
  unfolding revoke_session
  revoke tenant refresh_token = do
    tenant_id ← lift (get_required_tenant_id tenant)
    parts ← lift (two_parts (split b':' refresh_token) "Invalid token")
    revoke_session tenant_id parts.0

  -- `revokeSpecificSession`
  unfoldable pub revoke_specific_session :
      Option String → String → String → Exec (Db P.Table) (Unit {0})
  unfolding revoke_session
  revoke_specific_session tenant user_id session_id = do
    tenant_id ← lift (get_required_tenant_id tenant)
    session ← gets (λ db. P.find_first (has_key tenant_id session_id) db.sessions)
    throw_if (not_owned user_id session) (not_found "Session not found")
    revoke_session tenant_id session_id

  -- `getActiveSessions`, with whole rows where the source selects columns
  unfoldable pub get_active_sessions : Option String → String → Exec (Db P.Table) (List Session)
  get_active_sessions tenant user_id = do
    tenant_id ← lift (get_required_tenant_id tenant)
    gets λ db. P.find_many (is_active_of tenant_id user_id) (desc (λ s. s.last_seen_at)) db.sessions

  -- `getActiveDevices`
  unfoldable pub get_active_devices : Option String → String → Exec (Db P.Table) (List Device)
  get_active_devices tenant user_id = do
    tenant_id ← lift (get_required_tenant_id tenant)
    gets λ db.
        P.find_many (λ d. d.tenant_id == tenant_id && d.user_id == user_id)
          (desc (λ d. d.last_seen_at)) db.devices
