-- ===== src/Audit.antt =====
-- src/modules/audit-log/audit-log.service.ts, and the direct writes of `auditLog` rows, with the
-- constraints of the table.
pub mod Interceptor
use kavachid.Base.{
  ℕ, Bool, true, false, not, ◌&&◌, Option, none, some, String, ◌==◌, nat_eq, truthy,
  foreign_key_violation, err, ok, Exec, modify, ◌>>=◌, if◌then◌else◌,
}
use kavachid.Prisma.{Client}
use kavachid.Prisma.Constraints.{tenant_exists}
use kavachid.Schema.{Db, Fields, draw}
use kavachid.Crypto.{Externals}

-- `x || null`
abbrev pub or_none : Option String → Option String
or_none o = if truthy o then o else none

module _ (P : Client) (X : Externals) where
  -- `actor_id` is an optional UUID.
  abbrev pub is_actor : Option String → Bool
  is_actor none = true
  is_actor (some id) = P.is_uuid id

  -- `prisma.auditLog.create`
  unfoldable pub create_log :
      String
      → Option String
      → String
      → String
      → Option String
      → Fields
      → Exec (Db P.Table) (Unit {0})
  create_log tenant_id actor_id action resource_type resource_id metadata db =
      if tenant_exists P tenant_id db && is_actor actor_id
      then (do
        id ← draw X.uuid
        modify λ db. record db {
          audit_logs =
              P.create
                (record {
                  id = id;
                  tenant_id = tenant_id;
                  actor_id = actor_id;
                  action = action;
                  resource_type = resource_type;
                  resource_id = resource_id;
                  metadata = metadata;
                  created_at = db.now;
                })
                db.audit_logs;
        })
          db
      else (err foreign_key_violation, db)

  -- `AuditLogService.log`; metadata without members stands for `null` too
  unfoldable pub log :
      String
      → Option String
      → String
      → String
      → Option String
      → Fields
      → Exec (Db P.Table) (Unit {0})
  unfolding create_log
  log tenant_id actor_id action resource_type resource_id metadata =
      create_log tenant_id (or_none actor_id) action resource_type (or_none resource_id) metadata
