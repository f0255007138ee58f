-- ===== src/Outbox.antt =====
-- src/modules/outbox/outbox.service.ts: `createEvent` here; the polling is in the child.
pub mod Polling
use kavachid.Base.{ℕ, ◌≡◌, Bool, none, String, ◌==◌, ◌&&◌, Exec, modify, ◌>>=◌}
use kavachid.Prisma.{Client}
use kavachid.Schema.{Db, Fields, OutboxEvent, draw}
use kavachid.Crypto.{Externals}

-- the row that `createEvent` writes
abbrev pub new_event : String → String → String → Fields → ℕ → OutboxEvent
new_event id tenant_id event_type payload now = record {
  id = id;
  tenant_id = tenant_id;
  event_type = event_type;
  payload = payload;
  status = "pending";
  retry_count = 0;
  created_at = now;
  processed_at = none;
}

-- the events of a tenant and a type
abbrev pub is_event : String → String → OutboxEvent → Bool
is_event tenant_id event_type e = e.tenant_id == tenant_id && e.event_type == event_type

module _ (P : Client) (X : Externals) where
  -- `createEvent`
  unfoldable pub create_event : String → String → Fields → Exec (Db P.Table) (Unit {0})
  create_event tenant_id event_type payload = do
    id ← draw X.uuid
    modify λ db. record db {
      outbox_events = P.create (new_event id tenant_id event_type payload db.now) db.outbox_events;
    }
