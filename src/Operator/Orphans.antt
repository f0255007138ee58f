-- ===== src/Operator/Orphans.antt =====
-- What the attempts leave behind of a tenant whose admin the server does not register.
use kavachid.Base.{
  Bool, not, every, List, [], true, ℕ, ◌+◌, ◌≡◌, refl, ◌∙◌, false, none, length, leb, same, ◌&&◌,
  Error, ok, err, Result-cases, inl, inr, arith, or_else, message, ◌∷◌,
}
use kavachid.Operator.{
  other, WatchEvent, added, deleted, KavachTenant, TenantRow, Registration, HttpAnswer, Outside,
  World, modified, insert_tenant, register_admin, provision, refusal, reconcile, watch_handler,
}
use kavachid.Operator.Provisioned.{update_status_lem}

-- the events of a watch, one after another
unfoldable pub deliver : Outside → List WatchEvent → World → World
deliver O [] w = w
deliver O (e ∷ es) w = deliver O es (watch_handler O e w).1

-- a resource that was added or modified, and is not active
abbrev pub is_waiting : WatchEvent → Bool
is_waiting (added tenant) = not (same "Active" tenant.phase)
is_waiting (modified tenant) = not (same "Active" tenant.phase)
is_waiting (deleted tenant) = false
is_waiting other = false

-- a database that takes every row, and a server that registers nobody
pub record Refusing (O : Outside) : Type 0 where
  pub connects : (n : ℕ) → O.connect n ≡ ok tt
  pub inserts : (n : ℕ) (row : TenantRow) → O.insert n row ≡ ok tt
  pub refuses :
      (n : ℕ) (r : Registration)
      → (a : HttpAnswer) × (O.register n r ≡ ok a)
        × ((leb 200 a.status && leb a.status 299) ≡ false)

module _ (O : Outside) (refusing : Refusing O) where
  refused_lem :
      (r : Registration) (w : World)
      → let (answer, w') = register_admin O r w in
        ((x : Error) × (answer ≡ err x)) × (w'.rows ≡ w.rows) × (w'.admins ≡ w.admins)
  unfolding register_admin
  refused_lem r w =
      let (a, e, bad) = refusing.refuses w.calls r in
      elim (Result-cases a.text) [
        | inl (t, et) ↦ (
          (refusal t, ground (arith, e, bad, et)),
          ground (arith, e, bad, et),
          ground (arith, e, bad, et),
        )
        | inr (x, et) ↦ (
          (x, ground (arith, e, bad, et)),
          ground (arith, e, bad, et),
          ground (arith, e, bad, et),
        )
      ]

  inserted_lem :
      (row : TenantRow) (w : World)
      → let (answer, w') = insert_tenant O row w in
        (answer ≡ ok tt) × (w'.rows ≡ row ∷ w.rows) × (w'.admins ≡ w.admins)
  unfolding insert_tenant
  inserted_lem row w =
      let e = refusing.inserts w.calls row in
      (ground (arith, e), ground (arith, e), ground (arith, e))

  provision_lem :
      (tenant : KavachTenant) (w : World)
      → let (answer, w') = provision O tenant w in
        ((x : Error) × (answer ≡ err x))
        × (length w'.rows ≡ length w.rows + 1)
        × (w'.admins ≡ w.admins)
  unfolding provision
  provision_lem tenant w =
      let w1 = record w { calls = w.calls + 1 + 1 } in
      let id = O.random_uuid (w.calls + 1) in
      let row : TenantRow = record { id = id; name = tenant.name; status = "active" } in
      let admin : Registration = record {
        tenant_id = id;
        email = tenant.admin_email;
        password = or_else tenant.admin_password "TemporaryPassword123!";
      } in
      let inserted = insert_tenant O row w1 in
      let (fine, one_added, same_admins) = inserted_lem row w1 in
      let ((x, refused), same_rows, same_admins') = refused_lem admin inserted.1 in
      let ran : provision O tenant w ≡ (err x, (register_admin O admin inserted.1).1) =
        ground (arith, refusing.connects w.calls, fine, refused) in
      rw ran ((x, refl), rw (same_rows ∙ one_added) (omega arith), same_admins' ∙ same_admins)

  one_reconciliation :
      (tenant : KavachTenant) (w : World)
      → same "Active" tenant.phase ≡ false
      → let w' = (reconcile O tenant w).1 in
        (length w'.rows ≡ length w.rows + 1) × (w'.admins ≡ w.admins)
  unfolding reconcile
  one_reconciliation tenant w waiting =
      let w1 = (provision O tenant w).1 in
      let ((x, failed), one_more, same_admins) = provision_lem tenant w in
      let (rows, admins, statuses) =
        update_status_lem O tenant.resource_name tenant.namespace "Failed" (message x) none w1 in
      rw waiting (rw failed (rw rows one_more, admins ∙ same_admins))

  one_attempt :
      (event : WatchEvent) (w : World)
      → is_waiting event ≡ true
      → let w' = (watch_handler O event w).1 in
        (length w'.rows ≡ length w.rows + 1) × (w'.admins ≡ w.admins)
  unfolding watch_handler
  one_attempt (added tenant) w waiting = one_reconciliation tenant w (ground (arith, waiting))
  one_attempt (modified tenant) w waiting = one_reconciliation tenant w (ground (arith, waiting))
  one_attempt (deleted tenant) w waiting = absurd (ground (arith, waiting))
  one_attempt other w waiting = absurd (ground (arith, waiting))

  -- Where the database takes every row and the server registers nobody, each event that adds or
  -- modifies a resource which is not active leaves one more row of a tenant, also where it is the same
  -- resource again, and none of them an admin.
  pub repeated_events_leave :
      (events : List WatchEvent) (w : World)
      → every is_waiting events ≡ true
      → (length (deliver O events w).rows ≡ length w.rows + length events)
        × ((deliver O events w).admins ≡ w.admins)
  unfolding deliver
  repeated_events_leave [] w waiting = (omega arith, refl)
  repeated_events_leave (e ∷ es) w waiting =
      let (one_more, same_admins) = one_attempt e w (ground (arith, waiting)) in
      let (more, still_same) =
        repeated_events_leave es (watch_handler O e w).1 (ground (arith, waiting)) in
      (omega (arith, one_more, more), still_same ∙ same_admins)
