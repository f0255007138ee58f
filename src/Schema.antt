-- ===== src/Schema.antt =====
-- The rows of prisma/schema.prisma, a record for each model that the services use, and the state
-- that the requests share: the tables, the clock, and how many random values were drawn.
-- UUIDs, JSON texts and keys are texts, times are milliseconds, absent columns are `none`.
use kavachid.Base.{ℕ, ◌+◌, Bool, Option, String, List, ok, Exec}

-- a value of a JSON object, as far as the services write them
pub data Json : Type 0 where
  text : Option String → Json
  number : ℕ → Json
  flag : Bool → Json
  texts : List String → Json

abbrev pub Fields : Type 0
Fields = List (String × Json)

pub record Tenant : Type 0 where
  pub id : String
  pub name : String
  pub status : String
  pub max_failed_logins : ℕ

pub record User : Type 0 where
  pub id : String
  pub tenant_id : String
  pub email : Option String
  pub username : Option String
  pub password_hash : Option String
  pub status : String
  pub migration_status : String
  pub metadata : Fields
  pub created_at : ℕ
  pub current_web_authn_challenge : Option String

pub record Device : Type 0 where
  pub id : String
  pub tenant_id : String
  pub user_id : String
  pub platform : String
  pub device_name : Option String
  pub fingerprint : String
  pub dpop_public_key : Option String
  pub is_trusted : Bool
  pub created_at : ℕ
  pub last_seen_at : ℕ

pub record PasskeyCredential : Type 0 where
  pub id : String
  pub tenant_id : String
  pub user_id : String
  pub credential_id : String
  pub public_key : String
  pub counter : ℕ
  pub transports : Option String

pub record Session : Type 0 where
  pub id : String
  pub tenant_id : String
  pub user_id : String
  pub device_id : Option String
  pub refresh_ver_hash : String
  pub ip_address : String
  pub user_agent : String
  pub last_seen_at : ℕ
  pub risk_score : ℕ
  pub created_at : ℕ
  pub revoked_at : Option ℕ
  pub login_client_id : Option String

pub record Role : Type 0 where
  pub id : String
  pub tenant_id : String
  pub name : String
  pub description : Option String
  pub is_system : Bool

pub record Permission : Type 0 where
  pub id : String
  pub tenant_id : String
  pub resource : String
  pub action : String

pub record RolePermission : Type 0 where
  pub tenant_id : String
  pub role_id : String
  pub permission_id : String

pub record UserRole : Type 0 where
  pub tenant_id : String
  pub user_id : String
  pub role_id : String

pub record KeyPair : Type 0 where
  pub id : String
  pub kid : String
  pub public_key_pem : String
  pub encrypted_private_key : String
  pub algorithm : String
  pub status : String
  pub active_from : ℕ
  pub active_to : ℕ
  pub created_at : ℕ

pub record OutboxEvent : Type 0 where
  pub id : String
  pub tenant_id : String
  pub event_type : String
  pub payload : Fields
  pub status : String
  pub retry_count : ℕ
  pub created_at : ℕ
  pub processed_at : Option ℕ

pub record AuditLog : Type 0 where
  pub id : String
  pub tenant_id : String
  pub actor_id : Option String
  pub action : String
  pub resource_type : String
  pub resource_id : Option String
  pub metadata : Fields
  pub created_at : ℕ

pub record AppClient : Type 0 where
  pub id : String
  pub tenant_id : String
  pub name : String

pub record SessionAppAccess : Type 0 where
  pub session_id : String
  pub tenant_id : String
  pub app_client_id : String
  pub accessed_at : ℕ

pub record LoginAttempt : Type 0 where
  pub id : String
  pub tenant_id : String
  pub ip_address : String
  pub identifier : String
  pub success : Bool
  pub created_at : ℕ

pub record UserFederation : Type 0 where
  pub id : String
  pub tenant_id : String
  pub user_id : String
  pub provider : String
  pub provider_subject : String

pub record RateLimit : Type 0 where
  pub key : String
  pub hits : ℕ
  pub expires_at : ℕ

pub record UserRiskProfile : Type 0 where
  pub tenant_id : String
  pub user_id : String
  pub base_risk_score : ℕ

pub record ProductConfigOverride : Type 0 where
  pub product_name : String
  pub feature_name : Option String
  pub downgraded_controls : List String
  pub is_active : Bool

pub record PolicyRule : Type 0 where
  pub tenant_id : String
  pub security_level : ℕ
  pub max_risk_score : ℕ
  pub required_controls : List String
  pub is_active : Bool
  -- the rows of `ProductConfigOverride` that refer to this one
  pub overrides : List ProductConfigOverride

-- The tables by their type former, which the database client gives.
pub record Db (Table : Type 0 → Type 0) : Type 0 where
  pub tenants : Table Tenant
  pub users : Table User
  pub devices : Table Device
  pub passkeys : Table PasskeyCredential
  pub sessions : Table Session
  pub roles : Table Role
  pub permissions : Table Permission
  pub role_permissions : Table RolePermission
  pub user_roles : Table UserRole
  pub key_pairs : Table KeyPair
  pub outbox_events : Table OutboxEvent
  pub audit_logs : Table AuditLog
  pub app_clients : Table AppClient
  pub session_app_accesses : Table SessionAppAccess
  pub login_attempts : Table LoginAttempt
  pub user_federations : Table UserFederation
  pub rate_limits : Table RateLimit
  pub risk_profiles : Table UserRiskProfile
  pub policy_rules : Table PolicyRule
  -- `Date.now()`, and the number of random values drawn so far
  pub now : ℕ
  pub drawn : ℕ

-- The next value of a source of random texts, such as `gen_random_uuid()` or `randomBytes`.
abbrev pub draw : {T : Type 0 → Type 0} → (ℕ → String) → Exec (Db T) String
draw source db = (ok (source db.drawn), record db { drawn = db.drawn + 1 })
