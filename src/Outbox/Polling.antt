-- ===== src/Outbox/Polling.antt =====
-- src/modules/outbox/outbox.service.ts: `processOutbox`. The POST to the webhook is axios and the
-- receiver, so it is a parameter: what it answers for an event.
pub mod Bounded
pub mod Attempts
pub mod Delivered
pub mod Drained
use kavachid.Base.{
  take, ℕ, zero, suc, ◌+◌, ◌-◌, ◌*◌, Bool, true, false, ◌&&◌, List, [], ◌∷◌, Option, some, String,
  ◌==◌, ltb, leb, nat_eq, Error, Result, ok, err, Exec, attempt, ◌>>◌, if◌then◌else◌, ◌>>=◌,
}
use kavachid.Prisma.{Client, asc, update}
use kavachid.Schema.{Db, OutboxEvent}

-- the state of the service: its flag, and the database
pub record Poller (P : Client) : Type 0 where
  pub is_polling : Bool
  pub db : Db P.Table

abbrev pub keep : {A : Type 0} → (A → Bool) → List A → List A
keep p [] = []
keep p (a ∷ l) = if p a then a ∷ keep p l else keep p l

-- `Math.pow(2, n)`
abbrev pub power_of_two : ℕ → ℕ
power_of_two zero = 1
power_of_two (suc n) = 2 * power_of_two n

-- the `where` of the query
abbrev pub is_open : OutboxEvent → Bool
is_open e = e.status == "pending" && ltb e.retry_count 5

abbrev pub of_id : String → OutboxEvent → Bool
of_id id e = e.id == id

-- the backoff: 2^retryCount seconds since the creation
unfoldable pub is_eligible : ℕ → OutboxEvent → Bool
is_eligible now e =
    if nat_eq e.retry_count 0
    then true
    else leb (power_of_two e.retry_count * 1000) (now - e.created_at)

abbrev pub processed : ℕ → OutboxEvent → OutboxEvent
processed now e = record e { status = "processed"; processed_at = some now }

-- the data of the update after a failure of an event that was read with `n` retries
abbrev pub retried : ℕ → OutboxEvent → OutboxEvent
retried n e = record e {
  status = if leb 5 (n + 1) then "failed" else "pending";
  retry_count = n + 1;
}

module _ (P : Client) (post : OutboxEvent → Result (Unit {0})) where
  unfoldable pub update_event : String → (OutboxEvent → OutboxEvent) → Exec (Db P.Table) (Unit {0})
  update_event id f db = elim (update P (of_id id) f db.outbox_events) [
    | ok t ↦ (ok tt, record db { outbox_events = t })
    | err e ↦ (err e, db)
  ]

  -- the body of the inner `try`
  unfoldable pub deliver : OutboxEvent → Exec (Db P.Table) (Unit {0})
  deliver event db = elim (post event) [
    | ok t ↦ update_event event.id (processed db.now) db
    | err e ↦ (err e, db)
  ]

  -- one turn of the loop, with the inner `catch`
  unfoldable pub dispatch : OutboxEvent → Exec (Db P.Table) (Unit {0})
  dispatch event db =
      let (r, db') = deliver event db in
      elim r [ ok t ↦ (ok tt, db') | err e ↦ update_event event.id (retried event.retry_count) db' ]

  unfoldable pub dispatch_all : List OutboxEvent → Exec (Db P.Table) (Unit {0})
  dispatch_all [] db = (ok tt, db)
  dispatch_all (e ∷ es) db =
      let (r, db') = dispatch e db in elim r [ ok t ↦ dispatch_all es db' | err x ↦ (err x, db') ]

  -- the events of one poll
  unfoldable pub eligible_events : Db P.Table → List OutboxEvent
  eligible_events db =
      keep (is_eligible db.now)
        (take 20 (P.find_many is_open (asc (λ e. e.created_at)) db.outbox_events))

  -- `processOutbox`
  unfoldable pub process_outbox : Poller P → Poller P
  process_outbox p = if p.is_polling then p else record {
    is_polling = false;
    db = (attempt (dispatch_all (eligible_events p.db)) p.db).1;
  }
