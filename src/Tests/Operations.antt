-- ===== src/Tests/Operations.antt =====
-- The audit interceptor, the pages of an administrator and the operator at small inputs.
use kavachid.Base.{
  map, not, ◌&&◌, ℕ, suc, ◌+◌, ◌≤◌, ◌≡◌, refl, Bool, false, Option, none, some, List, [], ◌∷◌,
  length, any, String, ◌==◌, truthy, same, Error, ok, err, ◌⊎◌, if◌then◌else◌, arith, true,
}
use kavachid.Prisma.{tally}
use kavachid.Prisma.Constraints.{tenant_exists}
use kavachid.Audit.{is_actor}
use kavachid.Prisma.InMemory.{in_memory}
use kavachid.Schema.{Db, AuditLog, text}
use kavachid.Auth.{RequestUser}
use kavachid.Audit.Interceptor.{
  AuditOptions, AuditRequest, actor_of_guard, member, tenant_of, resource_of, actor_of_answer,
  actor_of, first_truthy, intercept,
}
use kavachid.Audit.Interceptor.Cleaned.{secrets, intercept_cleaned}
use kavachid.Admin.{Page, log_where, list_audit_logs}
use kavachid.Admin.Pages.{NoTiedLogs, read_pages, list_audit_logs-pages}
use kavachid.Operator.{
  KavachTenant, Registration, HttpAnswer, Outside, World, WatchEvent, added, modified,
  watch_handler,
}
use kavachid.Operator.Provisioned.{AllTrue, handled, here, next, Reach-AllTrue}
use kavachid.Operator.Orphans.{deliver, Refusing, repeated_events_leave}
use kavachid.Tests.Samples.{sample_externals, database}

abbrev audited : AuditRequest
audited = record {
  tenant_header = some "t1";
  user = some (
      actor_of_guard
        (record { sub = some "u1"; tenant_id = some "t1"; email = none; username = none }));
  params = record { id = none; user_id = none; role_id = none; permission_id = none };
  body = ("identifier", text (some "ann")) ∷ ("password", text (some "secret")) ∷ [];
}

abbrev login_options : AuditOptions
login_options = record { action = "LOGIN"; resource_type = "session" }

intercept_cleaned_example :
    let run =
      intercept in_memory sample_externals (some login_options) audited none (database []) in
    ((run ≡ (ok tt, database []))
      × ((truthy (tenant_of audited) ≡ false)
          ⊎ (((x : Error) × (resource_of audited none ≡ err x))
              ⊎ ((tenant_exists in_memory "t1" (database [])
                    && is_actor in_memory sample_externals none)
                  ≡ false))))
    ⊎ ((row : AuditLog) × (run ≡ (ok tt, record (database []) { audit_logs = row ∷ []; drawn = 6 }))
        × (tenant_exists in_memory row.tenant_id (database []) ≡ true)
        × (is_actor in_memory sample_externals row.actor_id ≡ true)
        × (tenant_of audited ≡ some row.tenant_id)
        × ((k : String)
            → member row.metadata k
              ≡ (if any (λ s. s == k) secrets then none else member audited.body k))
        × ((u : RequestUser)
            → audited.user ≡ some (actor_of_guard u)
            → row.actor_id ≡ first_truthy (actor_of_answer none ∷ [])))
unfolding actor_of
intercept_cleaned_example =
    intercept_cleaned in_memory sample_externals login_options audited none (database [])

-- the header names a tenant that there is none of
unknown_tenant_test :
    intercept in_memory sample_externals
      (some login_options)
      (record audited { tenant_header = some "t9" })
      none
      (database [])
    ≡ (ok tt, database [])
unfolding intercept kavachid.Audit.Interceptor.write_log kavachid.Audit.create_log
    kavachid.Audit.log kavachid.Audit.Interceptor.resource_of
    kavachid.Audit.Interceptor.resource_of_token member
unknown_tenant_test = refl

abbrev log_row : String → ℕ → AuditLog
log_row id at = record {
  id = id;
  tenant_id = "t1";
  actor_id = none;
  action = "LOGIN";
  resource_type = "session";
  resource_id = none;
  metadata = [];
  created_at = at;
}

abbrev logged : Db List
logged = record (database []) { audit_logs = log_row "a" 1 ∷ log_row "b" 2 ∷ log_row "c" 3 ∷ [] }

abbrev matches : String → Option String → Bool
matches s t = same s t

no_ties : NoTiedLogs in_memory sample_externals matches "t1" (some "LOGIN") logged
no_ties at = ground arith

list_audit_logs-pages_example :
    (map (λ l. l.id) (read_pages in_memory sample_externals matches "t1" (some "LOGIN") 2 2 logged)
      ≡ "c" ∷ "b" ∷ "a" ∷ [])
    × ((k : ℕ)
        → (p : Page AuditLog) × ((list_audit_logs in_memory sample_externals matches "t1"
              (suc k)
              2
              (some "LOGIN")
              logged).0
            ≡ ok p)
          × (p.total ≡ 3)
          × (length p.rows ≤ 2)
          × (tally
                (λ l. not (log_where in_memory sample_externals matches "t1" (some "LOGIN") l))
                p.rows
              ≡ 0))
list_audit_logs-pages_example =
    list_audit_logs-pages in_memory sample_externals matches "t1" (some "LOGIN") 2 2 logged
      (omega arith) no_ties

-- the second page has the oldest row
second_page_test :
    (list_audit_logs in_memory sample_externals matches "t1" 2 2 (some "LOGIN") logged).0
    ≡ ok (record { rows = log_row "a" 1 ∷ []; total = 3; page = 2; limit = 2 })
unfolding list_audit_logs kavachid.Admin.paged kavachid.Admin.skip_and_take
second_page_test = refl

abbrev refused : HttpAnswer
refused = record { status = 409; text = ok "taken" }

abbrev sample_outside : HttpAnswer → Outside
sample_outside a = record {
  random_uuid = λ n. "uuid";
  connect = λ n. ok tt;
  insert = λ n row. ok tt;
  register = λ n r. ok a;
  patch = λ n p. ok tt;
}

abbrev shop : KavachTenant
shop = record {
  name = "shop";
  admin_email = "a@x";
  admin_password = none;
  resource_name = "shop";
  namespace = "default";
  phase = none;
}

abbrev empty_world : World
empty_world = record { rows = []; admins = []; statuses = []; calls = 0 }

abbrev registering : Outside
registering = sample_outside (record { status = 201; text = ok "" })

abbrev after_added : World
after_added = (watch_handler registering (added shop) empty_world).1

Reach-AllTrue_example : AllTrue after_added after_added.statuses
Reach-AllTrue_example =
    Reach-AllTrue registering empty_world after_added tt
      (next here (handled empty_world (added shop)))

-- the status of the provisioned tenant
provisioned_test : length after_added.statuses ≡ 1
unfolding watch_handler kavachid.Operator.reconcile kavachid.Operator.provision
    kavachid.Operator.insert_tenant kavachid.Operator.register_admin kavachid.Operator.update_status
provisioned_test = refl

sample-Refusing : Refusing (sample_outside refused)
sample-Refusing = record {
  connects = λ n. refl;
  inserts = λ n row. refl;
  refuses = λ n r. (refused, refl, refl);
}

-- a resource that is added, and whose failed statuses come back
abbrev failing_events : List WatchEvent
failing_events = added shop ∷ modified shop ∷ modified shop ∷ []

repeated_events_leave_example :
    (length (deliver (sample_outside refused) failing_events empty_world).rows
      ≡ length empty_world.rows + 3)
    × ((deliver (sample_outside refused) failing_events empty_world).admins ≡ empty_world.admins)
repeated_events_leave_example =
    repeated_events_leave (sample_outside refused) sample-Refusing failing_events empty_world refl
