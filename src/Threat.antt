-- ===== src/Threat.antt =====
-- src/modules/threat-detection/threat-detection.worker.ts: the lock of users under attack.
pub mod Locked
use kavachid.Base.{
  ℕ, ◌+◌, ◌-◌, Bool, true, false, not, ◌&&◌, ◌||◌, Option, none, some, List, [], ◌∷◌, ◌++◌, String,
  ◌==◌, leb, length, template, nat_eq, Error, plain, Result, ok, err, Exec, pure, lift, gets, throw,
  attempt, ◌>>=◌, ◌>>◌, if◌then◌else◌,
}
use kavachid.Prisma.{Client, unordered}
use kavachid.Schema.{Db, Fields, Json, text, number, Tenant, User, LoginAttempt}
use kavachid.Crypto.{Externals}
use kavachid.Outbox.{create_event}
use kavachid.Audit.{create_log}
use kavachid.Session.Store.{is_named}
use kavachid.User.{update_user}

-- the entries of the `Map`, in the order of their first attempt
abbrev pub Groups : Type 0
Groups = List (String × List LoginAttempt)

-- the key of an attempt
abbrev pub group_key : LoginAttempt → String
group_key a = template (a.tenant_id ∷ ":" ∷ a.identifier ∷ [])

-- an attempt pushed onto the list of its key
unfoldable pub push : LoginAttempt → Groups → Groups
push a [] = (group_key a, a ∷ []) ∷ []
push a ((key, attempts) ∷ groups) =
    if key == group_key a
    then (key, attempts ++ (a ∷ [])) ∷ groups
    else (key, attempts) ∷ push a groups

unfoldable pub group_all : List LoginAttempt → Groups → Groups
group_all [] groups = groups
group_all (a ∷ l) groups = group_all l (push a groups)

-- the `where` of the query, `5 * 60 * 1000` ms back
abbrev pub is_recent_failure : ℕ → LoginAttempt → Bool
is_recent_failure now a = not a.success && leb (now - 300_000) a.created_at

-- `tenant.maxFailedLogins || 5`
abbrev pub max_failures : Tenant → ℕ
max_failures t = if nat_eq t.max_failed_logins 0 then 5 else t.max_failed_logins

-- the user to lock
abbrev pub is_lockable : String → String → User → Bool
is_lockable tenant_id identifier u = is_named tenant_id identifier u && not (u.status == "LOCKED")

abbrev pub locked : User → User
locked u = record u { status = "LOCKED" }

module _ (P : Client) (X : Externals) where
  -- the lock of a found user, and its two records
  unfoldable pub lock_user : String → User → ℕ → ℕ → Exec (Db P.Table) (Unit {0})
  lock_user tenant_id user threshold attempts = do
    update_user P X tenant_id user.id locked
    create_event P X tenant_id "UserLocked" (
        ("userId", text (some user.id))
        ∷ ("reason", text (some "CREDENTIAL_STUFFING_DETECTED"))
        ∷ ("failedAttempts", number attempts)
        ∷ [])
    create_log P X tenant_id none "THREAT_DETECTION.USER_LOCKED" "user" (some user.id) (
        ("reason", text (some "credential_stuffing"))
        ∷ ("threshold", number threshold)
        ∷ ("attempts", number attempts)
        ∷ [])

  -- the turn of the loop for attempts of one key, the first of them given, under its tenant
  unfoldable pub judge : LoginAttempt → ℕ → Tenant → Exec (Db P.Table) (Unit {0})
  judge a attempts tenant db =
      if leb (max_failures tenant) attempts
      then elim (P.find_first (is_lockable a.tenant_id a.identifier) db.users) [
        | none ↦ (ok tt, db)
        | some user ↦ lock_user a.tenant_id user (max_failures tenant) attempts db
      ]
      else (ok tt, db)

  -- the turn of the loop; the tenant was read along with the attempt, by its foreign key
  unfoldable pub handle_group : Db P.Table → List LoginAttempt → Exec (Db P.Table) (Unit {0})
  handle_group read [] db = (ok tt, db)
  handle_group read (a ∷ l) db = elim (P.find_first (λ t. t.id == a.tenant_id) read.tenants) [
    | none ↦ (err (plain "Inconsistent query result"), db)
    | some tenant ↦ judge a (length (a ∷ l)) tenant db
  ]

  unfoldable pub handle_groups : Db P.Table → Groups → Exec (Db P.Table) (Unit {0})
  handle_groups read [] db = (ok tt, db)
  handle_groups read ((key, attempts) ∷ groups) db =
      (handle_group read attempts >> handle_groups read groups) db

  -- `handleCredentialStuffingDetection`
  unfoldable pub handle_credential_stuffing_detection : Exec (Db P.Table) (Unit {0})
  handle_credential_stuffing_detection db =
      attempt
        (handle_groups db
          (group_all (P.find_many (is_recent_failure db.now) unordered db.login_attempts) []))
        db
