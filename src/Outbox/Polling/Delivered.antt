-- ===== src/Outbox/Polling/Delivered.antt =====
-- What the deliveries of one poll leave: the same events, with one attempt less for each delivered one.
use kavachid.Base.{
  ℕ, ◌+◌, ◌≡◌, ◌≤◌, refl, Bool, true, false, not, ◌&&◌, List, [], ◌∷◌, String, nat_eq, arith,
  Result, ok, err, Result-cases, inl, inr, eq_refl, ap, ◌∙◌,
}
use kavachid.Prisma.Arranged.{tally_without}
use kavachid.Prisma.{Client, tally}
use kavachid.Prisma.Laws.{count_mono, count-update_unseen}
use kavachid.Schema.{Db, OutboxEvent}
use kavachid.Outbox.Polling.{is_open, of_id, update_event, deliver, dispatch, dispatch_all}
use kavachid.Outbox.Polling.Attempts.{
  is_young, outcome, outcome_later, outcome-id, outcome-created_at, attempts, attempts-outcome,
}

module _ (P : Client) where
  -- From one database to a later one of the same time and events, with at least so many attempts used.
  pub record Progress (db db' : Db P.Table) (used : ℕ) : Type 0 where
    pub now_kept : db'.now ≡ db.now
    pub ids_kept :
        (id : String) → P.count (of_id id) db'.outbox_events ≡ P.count (of_id id) db.outbox_events
    pub ages_kept :
        (now : ℕ)
        → P.count (is_young now) db'.outbox_events ≡ P.count (is_young now) db.outbox_events
    pub fewer : attempts P 4 db'.outbox_events + used ≤ attempts P 4 db.outbox_events

  pub Progress-trans :
      {m n : ℕ} {db db' db'' : Db P.Table}
      → Progress db db' m
      → Progress db' db'' n
      → Progress db db'' (m + n)
  Progress-trans a b = record {
    now_kept = b.now_kept ∙ a.now_kept;
    ids_kept = λ id. b.ids_kept id ∙ a.ids_kept id;
    ages_kept = λ now. b.ages_kept now ∙ a.ages_kept now;
    fewer = omega (arith, a.fewer, b.fewer);
  }

  -- The events that a poll has read and not dispatched yet are in the table, each as it was read.
  pub record Pending (es : List OutboxEvent) (t : P.Table OutboxEvent) : Type 0 where
    pub stored : (q : OutboxEvent → Bool) → tally q es ≤ P.count q t
    pub all_open : tally (λ e. not (is_open e)) es ≡ 0

  module _ (post : OutboxEvent → Result (Unit {0})) where
    abbrev dispatched : OutboxEvent → Db P.Table → Db P.Table
    dispatched e db = record db {
      outbox_events =
          P.update_many (of_id e.id) (outcome (post e) db.now e.retry_count) db.outbox_events;
    }

    dispatch_updates :
        (e : OutboxEvent) (db : Db P.Table)
        → 1 ≤ P.count (of_id e.id) db.outbox_events
        → dispatch P post e db ≡ (ok tt, dispatched e db)
    unfolding dispatch deliver update_event
    dispatch_updates e db there =
        let found : nat_eq (P.count (of_id e.id) db.outbox_events) 0 ≡ false = ground arith in
        elim (Result-cases (post e)) [
          | inl (u, eq) ↦
              let d : deliver P post e db ≡ (ok tt, dispatched e db) = ground (arith, eq, found) in
              ground (arith, d)
          | inr (x, eq) ↦
              let d : deliver P post e db ≡ (err x, db) = ground (arith, eq) in
              ground (arith, d, eq, found)
        ]

    dispatched-Progress :
        (e : OutboxEvent) (es : List OutboxEvent) (db : Db P.Table)
        → ((id : String) → P.count (of_id id) db.outbox_events ≤ 1)
        → Pending (e ∷ es) db.outbox_events
        → Progress db (dispatched e db) 1
    dispatched-Progress e es db unique p =
        let f = outcome (post e) db.now e.retry_count in
        let there =
          p.stored (λ r. of_id e.id r && (is_open r && nat_eq r.retry_count e.retry_count)) in
        record {
          now_kept = refl;
          ids_kept = λ id.
              count-update_unseen P (of_id id) (of_id e.id) f db.outbox_events
                (λ r h. rw (outcome-id (post e) db.now e.retry_count r) refl);
          ages_kept = λ now.
              count-update_unseen P (is_young now) (of_id e.id) f db.outbox_events
                (λ r h. rw (outcome-created_at (post e) db.now e.retry_count r) refl);
          fewer = ground (
            arith,
            p.all_open,
            attempts-outcome P e.id e.retry_count f db.outbox_events (unique e.id)
                (ground (arith, there, eq_refl e.id, p.all_open))
                (λ k r. outcome_later (post e) db.now e.retry_count k r) 4,
          );
        }

    Pending-later :
        (e : OutboxEvent) (es : List OutboxEvent) (db : Db P.Table)
        → ((id : String) → P.count (of_id id) db.outbox_events ≤ 1)
        → Pending (e ∷ es) db.outbox_events
        → Pending es (dispatched e db).outbox_events
    Pending-later e es db unique p =
        let f = outcome (post e) db.now e.retry_count in
        record {
          stored = λ q.
              let others : OutboxEvent → Bool = λ r. q r && not (of_id e.id r) in
              ground (
                arith,
                eq_refl e.id,
                tally_without q (of_id e.id) es
                    (ground (arith, p.stored (of_id e.id), unique e.id, eq_refl e.id)),
                p.stored others,
                count-update_unseen P others (of_id e.id) f db.outbox_events
                    (λ r h. rw (outcome-id (post e) db.now e.retry_count r, h) (ground arith)),
                count_mono P others q (dispatched e db).outbox_events (λ r. ground arith),
              );
          all_open = ground (arith, p.all_open);
        }

    pub dispatch_all-Progress :
        (es : List OutboxEvent) (db : Db P.Table)
        → ((id : String) → P.count (of_id id) db.outbox_events ≤ 1)
        → Pending es db.outbox_events
        → Progress db (dispatch_all P post es db).1 (tally is_open es)
    unfolding dispatch_all
    dispatch_all-Progress [] db unique p = record {
      now_kept = refl;
      ids_kept = λ id. refl;
      ages_kept = λ now. refl;
      fewer = omega arith;
    }
    dispatch_all-Progress (e ∷ es) db unique p =
        let step = dispatched-Progress e es db unique p in
        let rest =
          dispatch_all-Progress es (dispatched e db)
            (λ id. omega (arith, unique id, step.ids_kept id)) (Pending-later e es db unique p) in
        let open_e : is_open e ≡ true = ground (arith, p.all_open) in
        let done = dispatch_updates e db (ground (arith, p.stored (of_id e.id), eq_refl e.id)) in
        rw (dispatch_all, ap (λ x. x.0) done, ap (λ x. x.1) done, open_e) (Progress-trans step rest)
