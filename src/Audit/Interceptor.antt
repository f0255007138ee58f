-- ===== src/Audit/Interceptor.antt =====
-- src/modules/audit-log/audit-log.interceptor.ts: the row that follows an audited handler.
pub mod Cleaned
use kavachid.Base.{
  ℕ, Bool, true, false, not, Option, none, some, List, [], ◌∷◌, String, ◌==◌, truthy, or_else,
  split, nat_eq, any, plain, Error, Result, ok, err, bind, Exec, pure, lift, attempt, ◌>>=◌, ◌>>◌,
  if◌then◌else◌,
}
use kavachid.Prisma.{Client}
use kavachid.Schema.{Db, Json, text, number, flag, texts, Fields}
use kavachid.Crypto.{Externals}
use kavachid.Auth.{RequestUser}
use kavachid.Audit.{log}

-- `AuditOptions`
pub record AuditOptions : Type 0 where
  pub action : String
  pub resource_type : String

-- `request.user`, as far as it is read
pub record Actor : Type 0 where
  pub tenant_id : Option String
  pub user_id : Option String
  pub id : Option String

-- the user that the bearer guard binds to the request, which has neither `userId` nor `id`
abbrev pub actor_of_guard : RequestUser → Actor
actor_of_guard u = record { tenant_id = u.tenant_id; user_id = none; id = none }

pub record Params : Type 0 where
  pub id : Option String
  pub user_id : Option String
  pub role_id : Option String
  pub permission_id : Option String

pub record AuditRequest : Type 0 where
  pub tenant_header : Option String
  pub user : Option Actor
  pub params : Params
  pub body : Fields

-- the answer of the handler, as far as it is read
pub record Answer : Type 0 where
  pub session_id : Option String
  pub session_user_id : Option String
  pub user : Option String
  pub role : Option String
  pub permission : Option String
  pub id : Option String
  pub user_id : Option String
  pub role_id : Option String
  pub permission_id : Option String

-- `a || b || c`
abbrev pub first_truthy : List (Option String) → Option String
first_truthy [] = none
first_truthy (o ∷ rest) = if truthy o then o else first_truthy rest

-- a member of an object
unfoldable pub member : Fields → String → Option Json
member [] name = none
member (p ∷ rest) name = if name == p.0 then some p.1 else member rest name

-- `delete object[name]`
unfoldable pub remove_member : Fields → String → Fields
remove_member [] name = []
remove_member (p ∷ rest) name =
    let others = remove_member rest name in
    elim (name == p.0) [ true ↦ others | false ↦ p ∷ others ]

-- the loop over `sensitiveFields`
unfoldable pub remove_members : Fields → List String → Fields
remove_members body [] = body
remove_members body (name ∷ names) = remove_members (remove_member body name) names

abbrev pub sensitive_fields : List String
sensitive_fields =
    "password" ∷ "passwordHash" ∷ "clientSecret" ∷ "token" ∷ "refreshToken" ∷ "accessToken" ∷ []

-- `request.headers['x-tenant-id'] || request.user?.tenantId`
abbrev pub tenant_of : AuditRequest → Option String
tenant_of r =
    first_truthy (r.tenant_header ∷ elim r.user [ none ↦ none | some u ↦ u.tenant_id ] ∷ [])

abbrev pub resource_of_params : Params → Option String
resource_of_params p = first_truthy (p.id ∷ p.user_id ∷ p.role_id ∷ p.permission_id ∷ [])

abbrev pub resource_of_answer : Option Answer → Option String
resource_of_answer none = none
resource_of_answer (some a) = first_truthy (
    a.session_id ∷ a.user ∷ a.role ∷ a.permission ∷ a.id ∷ a.user_id ∷ a.role_id ∷ a.permission_id
    ∷ [])

abbrev two_or_none : List String → Option String
two_or_none (a ∷ b ∷ []) = some a
two_or_none _ = none

-- The session that a refresh token in the body names; only texts have a `split`.
unfoldable pub resource_of_token : Option Json → Result (Option String)
resource_of_token none = ok none
resource_of_token (some (text t)) =
    ok (if truthy t then two_or_none (split b':' (or_else t "")) else none)
resource_of_token (some (number n)) =
    if nat_eq n 0 then ok none else err (plain "request.body.refreshToken.split is not a function")
resource_of_token (some (flag b)) =
    if b then err (plain "request.body.refreshToken.split is not a function") else ok none
resource_of_token (some (texts l)) = err (plain "request.body.refreshToken.split is not a function")

-- the extraction of `resourceId`
unfoldable pub resource_of : AuditRequest → Option Answer → Result (Option String)
resource_of r answer =
    let named = first_truthy (resource_of_params r.params ∷ resource_of_answer answer ∷ []) in
    if truthy named then ok named else resource_of_token (member r.body "refreshToken")

abbrev pub actor_of_answer : Option Answer → Option String
actor_of_answer none = none
actor_of_answer (some a) = first_truthy (a.session_user_id ∷ a.user ∷ a.user_id ∷ a.id ∷ [])

-- the extraction of `actorId`
unfoldable pub actor_of : AuditRequest → Option Answer → Option String
actor_of r answer = first_truthy (
    elim r.user [ none ↦ none | some u ↦ first_truthy (u.user_id ∷ u.id ∷ []) ]
    ∷ actor_of_answer answer
    ∷ [])

module _ (P : Client) (X : Externals) where
  -- the body of the `try`
  unfoldable pub write_log :
      AuditOptions → AuditRequest → Option Answer → Exec (Db P.Table) (Unit {0})
  write_log options request answer =
      if truthy (tenant_of request)
      then (do
        resource_id ← lift (resource_of request answer)
        log P X (or_else (tenant_of request) "") (actor_of request answer) options.action
            options.resource_type resource_id (remove_members request.body sensitive_fields))
      else pure tt

  -- `intercept`, behind a handler that has answered
  unfoldable pub intercept :
      Option AuditOptions → AuditRequest → Option Answer → Exec (Db P.Table) (Unit {0})
  intercept none request answer = pure tt
  intercept (some options) request answer = attempt (write_log options request answer)
