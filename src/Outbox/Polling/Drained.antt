-- ===== src/Outbox/Polling/Drained.antt =====
-- No event stays pending: the polls deliver each, or give it up after its attempts.
use kavachid.Base.{ℕ, ◌+◌, List, [], ◌∷◌, Result}
use kavachid.Prisma.{Client}
use kavachid.Schema.{OutboxEvent}
use kavachid.Outbox.Polling.{Poller, process_outbox}

module _ (P : Client) (post : OutboxEvent → Result (Unit {0})) where
  -- the clock goes on
  abbrev wait : ℕ → Poller P → Poller P
  wait d p = record { is_polling = p.is_polling; db = record p.db { now = p.db.now + d } }

  -- one poll after each of some delays
  abbrev pub polls : List ℕ → Poller P → Poller P
  polls [] p = p
  polls (d ∷ ds) p = polls ds (process_outbox P post (wait d p))
