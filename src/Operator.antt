-- ===== src/Operator.antt =====
-- kubernetes/operator/src/operator.ts: the reconciler of tenants. The cluster, the database of the
-- operator and the server are outside of it: their answers are functions of the number of calls made
-- before, and what they keep is a list each.
pub mod Provisioned
pub mod Orphans
use kavachid.Base.{
  ℕ, ◌+◌, Bool, true, false, not, ◌&&◌, Option, none, some, List, [], ◌∷◌, String, ◌==◌, leb, same,
  or_else, template, Error, message, plain, Result, ok, err, Exec, pure, lift, gets, modify, throw,
  throw_if, attempt, ◌>>=◌, ◌>>◌, if◌then◌else◌,
}

-- `KavachTenant`, as far as it is read
pub record KavachTenant : Type 0 where
  pub name : String
  pub admin_email : String
  pub admin_password : Option String
  pub resource_name : String
  pub namespace : String
  -- `status?.phase`
  pub phase : Option String

-- a row that is inserted into `tenants`
pub record TenantRow : Type 0 where
  pub id : String
  pub name : String
  pub status : String

-- the request that registers the admin
pub record Registration : Type 0 where
  pub tenant_id : String
  pub email : String
  pub password : String

-- a status that the cluster has taken
pub record StatusPatch : Type 0 where
  pub resource_name : String
  pub namespace : String
  pub phase : String
  pub message : String
  pub tenant_id : Option String

-- an answer of the server; its text may not be readable
pub record HttpAnswer : Type 0 where
  pub status : ℕ
  pub text : Result String

pub record Outside : Type 0 where
  pub random_uuid : ℕ → String
  pub connect : ℕ → Result (Unit {0})
  pub insert : ℕ → TenantRow → Result (Unit {0})
  pub register : ℕ → Registration → Result HttpAnswer
  pub patch : ℕ → StatusPatch → Result (Unit {0})

-- The rows, the registrations that were answered with success, and the accepted statuses, the last
-- one first; and the number of calls made.
pub record World : Type 0 where
  pub rows : List TenantRow
  pub admins : List Registration
  pub statuses : List StatusPatch
  pub calls : ℕ

-- the events of the watch; any other type of event is passed over
pub data WatchEvent : Type 0 where
  added modified deleted : KavachTenant → WatchEvent
  other : WatchEvent

abbrev pub status_patch : String → String → String → String → Option String → StatusPatch
status_patch name namespace phase text tenant_id = record {
  resource_name = name;
  namespace = namespace;
  phase = phase;
  message = text;
  tenant_id = tenant_id;
}

-- what is thrown for a registration that was not answered with success
abbrev pub refusal : String → Error
refusal text = plain (template ("KavachID Admin user registration failed: " ∷ text ∷ []))

module _ (O : Outside) where
  abbrev call : {A : Type 0} → (ℕ → Result A) → Exec World A
  call f w = (f w.calls, record w { calls = w.calls + 1 })

  -- `updateStatus`: an error is only logged
  unfoldable pub update_status :
      String → String → String → String → Option String → Exec World (Unit {0})
  update_status name namespace phase text tenant_id =
      let patch = status_patch name namespace phase text tenant_id in
      attempt (do call λ n. O.patch n patch; modify λ w. record w { statuses = patch ∷ w.statuses })

  -- 2. the row of the tenant
  unfoldable pub insert_tenant : TenantRow → Exec World (Unit {0})
  insert_tenant row = do call λ n. O.insert n row; modify λ w. record w { rows = row ∷ w.rows }

  -- 3. the admin user, and the check of the answer
  unfoldable pub register_admin : Registration → Exec World (Unit {0})
  register_admin registration = do
    answer ← call λ n. O.register n registration
    if leb 200 answer.status && leb answer.status 299
        then modify (λ w. record w { admins = registration ∷ w.admins })
        else (do text ← lift answer.text; throw (refusal text))

  -- the `try` of `reconcile`, up to the update of the status
  unfoldable pub provision : KavachTenant → Exec World String
  provision tenant = do
    call O.connect
    tenant_id ← call λ n. ok (O.random_uuid n)
    insert_tenant (record { id = tenant_id; name = tenant.name; status = "active" })
    register_admin (record {
      tenant_id = tenant_id;
      email = tenant.admin_email;
      password = or_else tenant.admin_password "TemporaryPassword123!";
    })
    pure tenant_id

  -- the end of the `try`, and its `catch`
  abbrev pub report : KavachTenant → Result String → Exec World (Unit {0})
  report tenant (ok tenant_id) =
      update_status tenant.resource_name tenant.namespace "Active" "Tenant provisioned successfully"
        (some tenant_id)
  report tenant (err e) =
      update_status tenant.resource_name tenant.namespace "Failed" (message e) none

  -- `reconcile`
  unfoldable pub reconcile : KavachTenant → Exec World (Unit {0})
  reconcile tenant w =
      if same "Active" tenant.phase
      then (ok tt, w)
      else let (r, w') = provision tenant w in report tenant r w'

  -- `watchHandler`
  unfoldable pub watch_handler : WatchEvent → Exec World (Unit {0})
  watch_handler (added obj) = reconcile obj
  watch_handler (modified obj) = reconcile obj
  watch_handler (deleted obj) = pure tt
  watch_handler other = pure tt
