-- ===== src/Session/Login.antt =====
-- `login`
pub mod Checks
pub mod Refreshed
use kavachid.Base.{
  ℕ, Bool, true, false, not, ◌&&◌, ◌||◌, Option, none, some, String, ◌==◌, present, truthy, or_else,
  ends_with, Error, unauthorized, Result, ok, err, Exec, pure, throw, lift, gets, ◌>>=◌, ◌>>◌,
  if◌then◌else◌,
}
use kavachid.Prisma.{Client}
use kavachid.Schema.{Db, User}
use kavachid.Crypto.{Externals}
use kavachid.Tenant.{get_required_tenant_id}
use kavachid.Session.Store.{is_named, log_attempt}
use kavachid.Session.Issue.{Tokens, Origin, issue_tokens_and_session}

-- the stand-in for the external check of a legacy password
abbrev pub is_legacy_password : String → Bool
is_legacy_password password = password == "legacyPass123" || ends_with password "_legacy"

module _ (P : Client) (X : Externals) where
  -- a failed attempt is recorded before the throw
  abbrev refuse : {A : Type 0} → String → String → String → String → Exec (Db P.Table) A
  refuse tenant_id ip_address identifier reason = do
    log_attempt P X tenant_id ip_address identifier false
    throw (unauthorized reason)

  -- the check of a stored password; a failure inside of argon2 is thrown as it is
  check_hash : String → String → String → String → String → Exec (Db P.Table) (Unit {0})
  check_hash tenant_id ip_address identifier password hash = do
    match ← lift (X.argon_verify hash password)
    if match then pure tt else refuse tenant_id ip_address identifier "Invalid credentials"

  -- the checks on the user that was found, in their order
  unfoldable pub check_user :
      String → String → String → String → User → Exec (Db P.Table) (Unit {0})
  unfolding check_hash
  check_user tenant_id ip_address identifier password user =
      if user.status == "LOCKED"
      then refuse tenant_id ip_address identifier
          "Account is locked due to multiple failed login attempts."
      else if user.migration_status == "legacy"
      then (if is_legacy_password password
          then pure tt
          else refuse tenant_id ip_address identifier "Invalid credentials")
      else if truthy user.password_hash
      then check_hash tenant_id ip_address identifier password (or_else user.password_hash "")
      else refuse tenant_id ip_address identifier "User does not have a password set"

  -- the part of `login` up to the recorded success: the user whose credentials are good
  unfoldable pub authenticate : Option String → String → String → String → Exec (Db P.Table) User
  authenticate tenant ip_address identifier password = do
    tenant_id ← lift (get_required_tenant_id tenant)
    found ← gets (λ db. P.find_first (is_named tenant_id identifier) db.users)
    elim found [
      | none ↦ refuse tenant_id ip_address identifier "Invalid credentials"
      | some user ↦ do
        check_user tenant_id ip_address identifier password user
        log_attempt P X tenant_id ip_address identifier true
        pure user
    ]

  -- `login`
  unfoldable pub login :
      Option String → String → String → Origin → Option String → Exec (Db P.Table) Tokens
  login tenant identifier password origin fingerprint = do
    user ← authenticate tenant origin.ip_address identifier password
    issue_tokens_and_session P X tenant user.id user.email user.username origin fingerprint
