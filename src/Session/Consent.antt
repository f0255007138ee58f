-- ===== src/Session/Consent.antt =====
-- `recordSsoConsent`
use kavachid.Base.{
  Bool, true, not, ◌||◌, Option, none, some, is_some, String, ◌==◌, unauthorized, Exec, lift, gets,
  throw_if, ◌>>=◌, ◌>>◌,
}
use kavachid.Prisma.{Client}
use kavachid.Schema.{Db, Session}
use kavachid.Crypto.{Externals}
use kavachid.Tenant.{get_required_tenant_id}
use kavachid.Session.Store.{has_key, ensure_access}

module _ (P : Client) (X : Externals) where
  -- `!session || session.userId !== userId || session.revokedAt`
  abbrev pub unusable : String → Option Session → Bool
  unusable user_id none = true
  unusable user_id (some s) = not (s.user_id == user_id) || is_some s.revoked_at

  unfoldable pub record_sso_consent :
      Option String → String → String → String → Exec (Db P.Table) (Unit {0})
  record_sso_consent tenant user_id session_id client_id = do
    tenant_id ← lift (get_required_tenant_id tenant)
    session ← gets (λ db. P.find_first (has_key tenant_id session_id) db.sessions)
    throw_if (unusable user_id session) (unauthorized "Invalid or expired session")
    ensure_access P X tenant_id user_id session_id client_id
