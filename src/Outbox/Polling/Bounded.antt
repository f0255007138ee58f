-- ===== src/Outbox/Polling/Bounded.antt =====
-- Retries stay bounded: what the polling keeps true of every event.
use kavachid.Base.{
  take, ℕ, ◌+◌, ◌≡◌, ◌≤◌, Bool, true, false, not, ◌&&◌, ◌||◌, List, [], ◌∷◌, String, ◌==◌, ltb, leb,
  arith, Result, Result-cases, Bool-cases, inl, inr, if◌then◌else◌,
}
use kavachid.Prisma.Arranged.{tally-take}
use kavachid.Prisma.{Client, tally, asc}
use kavachid.Prisma.Laws.{count_absent, count_mono}
use kavachid.Schema.{Db, OutboxEvent}
use kavachid.Outbox.Polling.{
  Poller, keep, is_open, of_id, is_eligible, processed, retried, update_event, deliver, dispatch,
  dispatch_all, eligible_events, process_outbox,
}

-- More than five retries, or five of them while still pending, or fewer but given up.
abbrev pub is_broken : OutboxEvent → Bool
is_broken e =
    ltb 5 e.retry_count
    || (e.status == "pending" && leb 5 e.retry_count || e.status == "failed" && ltb e.retry_count 5)

abbrev closed : OutboxEvent → Bool
closed e = not (is_open e)

pub tally-keep : (p q : OutboxEvent → Bool) (l : List OutboxEvent) → tally q (keep p l) ≤ tally q l
tally-keep p q [] = omega arith
tally-keep p q (e ∷ l) = ground (arith, tally-keep p q l)

retried_sound : (n : ℕ) (e : OutboxEvent) → ltb n 5 ≡ true → is_broken (retried n e) ≡ false
retried_sound n e h = elim (Bool-cases (leb 5 (n + 1))) [
  | inl last ↦ rw last (ground arith)
  | inr more ↦ rw more (ground arith)
]

module _ (P : Client) (post : OutboxEvent → Result (Unit {0})) where
  -- No event is broken.
  abbrev pub IsBounded : Db P.Table → Type 0
  IsBounded db = P.count is_broken db.outbox_events ≡ 0

  pub all_open : (db : Db P.Table) → tally closed (eligible_events P post db) ≡ 0
  unfolding eligible_events
  all_open db =
      let found = P.find_many is_open (asc (λ e. e.created_at)) db.outbox_events in
      let none_closed =
        P.tally-find_many closed is_open (asc (λ e. e.created_at)) db.outbox_events in
      let absent =
        count_absent P (λ e. closed e && is_open e) db.outbox_events (λ e. ground arith) in
      omega (
        arith,
        none_closed,
        absent,
        tally-take 20 closed found,
        tally-keep (is_eligible db.now) closed (take 20 found),
      )

  update_event-IsBounded :
      (id : String) (f : OutboxEvent → OutboxEvent) (db : Db P.Table)
      → ((e : OutboxEvent) → is_broken (f e) ≡ true → is_broken e ≡ true)
      → IsBounded db
      → IsBounded (update_event P post id f db).1
  unfolding update_event
  update_event-IsBounded id f db sound h =
      let less =
        count_mono P (λ e. is_broken (if of_id id e then f e else e)) is_broken db.outbox_events
          (λ e. ground (arith, sound e)) in
      ground (arith, P.count-update_many is_broken (of_id id) f db.outbox_events)

  deliver-IsBounded :
      (e : OutboxEvent) (db : Db P.Table) → IsBounded db → IsBounded (deliver P post e db).1
  unfolding deliver
  deliver-IsBounded e db h = elim (Result-cases (post e)) [
    | inl (u, eq) ↦
        rw (deliver, eq) (update_event-IsBounded e.id (processed db.now) db (λ x. ground arith) h)
    | inr (x, eq) ↦ rw (deliver, eq) h
  ]

  dispatch-IsBounded :
      (e : OutboxEvent) (db : Db P.Table)
      → is_open e ≡ true
      → IsBounded db
      → IsBounded (dispatch P post e db).1
  unfolding dispatch
  dispatch-IsBounded e db open_e h =
      let h' = deliver-IsBounded e db h in
      elim (Result-cases (deliver P post e db).0) [
        | inl (u, eq) ↦ rw (dispatch, eq) h'
        | inr (x, eq) ↦
            rw (dispatch, eq)
              (update_event-IsBounded e.id (retried e.retry_count) (deliver P post e db).1
                (λ y b. absurd (ground (arith, retried_sound e.retry_count y))) h')
      ]

  dispatch_all-IsBounded :
      (es : List OutboxEvent) (db : Db P.Table)
      → tally closed es ≡ 0
      → IsBounded db
      → IsBounded (dispatch_all P post es db).1
  unfolding dispatch_all
  dispatch_all-IsBounded [] db open_es h = h
  dispatch_all-IsBounded (e ∷ es) db open_es h =
      let here = dispatch-IsBounded e db (ground arith) h in
      elim (Result-cases (dispatch P post e db).0) [
        | inl (u, eq) ↦
            rw (dispatch_all, eq)
              (dispatch_all-IsBounded es (dispatch P post e db).1 (ground arith) here)
        | inr (x, eq) ↦ rw (dispatch_all, eq) here
      ]

  -- A poll keeps every event within five attempts, whatever the webhook answers: where no event is
  -- pending with five retries, given up with fewer, or retried more often, none is afterwards.
  pub process_outbox-IsBounded :
      (p : Poller P) → IsBounded p.db → IsBounded (process_outbox P post p).db
  unfolding process_outbox
  process_outbox-IsBounded p h = elim (Bool-cases p.is_polling) [
    | inl busy ↦ rw busy h
    | inr idle ↦
        rw idle (dispatch_all-IsBounded (eligible_events P post p.db) p.db (all_open p.db) h)
  ]
