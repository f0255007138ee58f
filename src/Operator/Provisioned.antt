-- ===== src/Operator/Provisioned.antt =====
-- Every run of the watch keeps what an `Active` status says; and what failed attempts leave behind.
use kavachid.Base.{
  ◌+◌, ◌≡◌, refl, ◌∙◌, ap, true, false, Option, none, some, List, [], ◌∷◌, String, same, leb, ◌&&◌,
  or_else, Error, ok, err, Result-cases, Bool-cases, inl, inr, arith, ◌⊎◌, eq_iff, message,
}
use kavachid.Operator.{
  KavachTenant, TenantRow, Registration, StatusPatch, Outside, World, WatchEvent, added, modified,
  deleted, other, update_status, insert_tenant, register_admin, provision, refusal, reconcile,
  watch_handler, status_patch,
}

-- whether an element stands in a list
abbrev pub In : {A : Type 0} → A → List A → Type 0
In a [] = ⊥
In a (x ∷ l) = (x ≡ a) ⊎ In a l

-- What a status says: where it is `Active`, it names a tenant, whose row is there, active, and whose
-- admin the server has registered.
abbrev pub IsTrue : World → StatusPatch → Type 0
IsTrue w p =
    p.phase ≡ "Active"
    → (row : TenantRow) × (admin : Registration) × (p.tenant_id ≡ some row.id)
      × (row.status ≡ "active")
      × (admin.tenant_id ≡ row.id)
      × In row w.rows
      × In admin w.admins

abbrev pub AllTrue : World → List StatusPatch → Type 0
AllTrue w [] = Unit
AllTrue w (p ∷ l) = IsTrue w p × AllTrue w l

-- The steps of the operator: any event, with any state of the object that the cluster sends along.
pub data Step (O : Outside) : World → World → Type 0 where
  handled : (w : World) (e : WatchEvent) → Step O w (watch_handler O e w).1

pub data Reach (O : Outside) (w : World) : World → Type 0 where
  here : Reach O w w
  next : {v u : World} → Reach O w v → Step O v u → Reach O w u

-- a later world: rows and admins are only added
pub record Grows (w w' : World) : Type 0 where
  pub rows : (r : TenantRow) → In r w.rows → In r w'.rows
  pub admins : (a : Registration) → In a w.admins → In a w'.admins

AllTrue-Grows : (w w' : World) (l : List StatusPatch) → Grows w w' → AllTrue w l → AllTrue w' l
AllTrue-Grows w w' [] g h = tt
AllTrue-Grows w w' (p ∷ l) g h = (
  λ active.
      let (row, admin, id, status, owner, in_rows, in_admins) = h.0 active in
      (row, admin, id, status, owner, g.rows row in_rows, g.admins admin in_admins),
  AllTrue-Grows w w' l g h.1,
)

Grows-refl : (w w' : World) → w'.rows ≡ w.rows → w'.admins ≡ w.admins → Grows w w'
Grows-refl w w' rows admins = record { rows = λ r h. rw rows h; admins = λ a h. rw admins h }

module _ (O : Outside) where
  -- What provisioning does: it takes no status, and where it answers an id, row and admin are there.
  pub record Provisioning (tenant : KavachTenant) (w : World) : Type 0 where
    pub grown : Grows w (provision O tenant w).1
    pub statuses : (provision O tenant w).1.statuses ≡ w.statuses
    pub provided :
        (id : String)
        → (provision O tenant w).0 ≡ ok id
        → (row : TenantRow) × (admin : Registration) × (id ≡ row.id)
          × (row.status ≡ "active")
          × (admin.tenant_id ≡ row.id)
          × In row (provision O tenant w).1.rows
          × In admin (provision O tenant w).1.admins

  pub insert_tenant_lem :
      (row : TenantRow) (w : World)
      → let (r, w') = insert_tenant O row w in
        (w'.admins ≡ w.admins)
        × (w'.statuses ≡ w.statuses)
        × (((r ≡ ok tt) × (w'.rows ≡ row ∷ w.rows))
            ⊎ ((e : Error) × (r ≡ err e) × (w'.rows ≡ w.rows)))
  unfolding insert_tenant
  insert_tenant_lem row w = elim (Result-cases (O.insert w.calls row)) [
    | inl (u, e) ↦
        (ground (arith, e), ground (arith, e), inl (ground (arith, e), ground (arith, e)))
    | inr (x, e) ↦
        (ground (arith, e), ground (arith, e), inr (x, ground (arith, e), ground (arith, e)))
  ]

  pub register_admin_lem :
      (admin : Registration) (w : World)
      → let (r, w') = register_admin O admin w in
        (w'.rows ≡ w.rows)
        × (w'.statuses ≡ w.statuses)
        × (((r ≡ ok tt) × (w'.admins ≡ admin ∷ w.admins))
            ⊎ ((e : Error) × (r ≡ err e) × (w'.admins ≡ w.admins)))
  unfolding register_admin
  register_admin_lem admin w = elim (Result-cases (O.register w.calls admin)) [
    | inr (x, e) ↦
        (ground (arith, e), ground (arith, e), inr (x, ground (arith, e), ground (arith, e)))
    | inl (a, e) ↦ elim (Bool-cases (leb 200 a.status && leb a.status 299)) [
      | inl good ↦ (
        ground (arith, e, good),
        ground (arith, e, good),
        inl (ground (arith, e, good), ground (arith, e, good)),
      )
      | inr bad ↦ elim (Result-cases a.text) [
        | inl (t, et) ↦ (
          ground (arith, e, bad, et),
          ground (arith, e, bad, et),
          inr (refusal t, ground (arith, e, bad, et), ground (arith, e, bad, et)),
        )
        | inr (x, et) ↦ (
          ground (arith, e, bad, et),
          ground (arith, e, bad, et),
          inr (x, ground (arith, e, bad, et), ground (arith, e, bad, et)),
        )
      ]
    ]
  ]

  provision-Provisioning : (tenant : KavachTenant) (w : World) → Provisioning tenant w
  unfolding provision
  provision-Provisioning tenant w =
      let w1 = record w { calls = w.calls + 1 + 1 } in
      let id = O.random_uuid (w.calls + 1) in
      let row : TenantRow = record { id = id; name = tenant.name; status = "active" } in
      let admin : Registration = record {
        tenant_id = id;
        email = tenant.admin_email;
        password = or_else tenant.admin_password "TemporaryPassword123!";
      } in
      let inserted = insert_tenant O row w1 in
      let registered = register_admin O admin inserted.1 in
      let (same_admins, same_statuses, rows) = insert_tenant_lem row w1 in
      let (same_rows, same_statuses', admins) = register_admin_lem admin inserted.1 in
      elim (Result-cases (O.connect w.calls)) [
        | inr (x, e) ↦
            let ran : provision O tenant w ≡ (err x, record w { calls = w.calls + 1 }) =
              ground (arith, e) in
            record {
              grown = rw ran (Grows-refl w _ refl refl);
              statuses = rw ran refl;
              provided = λ i h. absurd (ground (arith, ran));
            }
        | inl (u, e) ↦ elim rows [
          | inr (x, e', none_added) ↦
              let ran : provision O tenant w ≡ (err x, inserted.1) = ground (arith, e, e') in
              record {
                grown = rw ran (Grows-refl w _ none_added same_admins);
                statuses = rw ran same_statuses;
                provided = λ i h. absurd (ground (arith, ran));
              }
          | inl (e', one_added) ↦ elim admins [
            | inr (x, e'', none_added) ↦
                let ran : provision O tenant w ≡ (err x, registered.1) =
                  ground (arith, e, e', e'') in
                record {
                  grown = rw ran (record {
                    rows = λ r h. rw (same_rows ∙ one_added) (inr h);
                    admins = λ a h. rw (none_added ∙ same_admins) h;
                  });
                  statuses = rw ran (same_statuses' ∙ same_statuses);
                  provided = λ i h. absurd (ground (arith, ran));
                }
            | inl (e'', admin_added) ↦
                let ran : provision O tenant w ≡ (ok id, registered.1) =
                  ground (arith, e, e', e'') in
                record {
                  grown = rw ran (record {
                    rows = λ r h. rw (same_rows ∙ one_added) (inr h);
                    admins = λ a h. rw (admin_added ∙ ap (◌∷◌ admin) same_admins) (inr h);
                  });
                  statuses = rw ran (same_statuses' ∙ same_statuses);
                  provided = λ i h. (
                    row,
                    admin,
                    ground (arith, ran),
                    refl,
                    refl,
                    rw ran (rw (same_rows ∙ one_added) (inl refl)),
                    rw ran (rw admin_added (inl refl)),
                  );
                }
          ]
        ]
      ]

  pub update_status_lem :
      (name namespace phase text : String) (tenant_id : Option String) (w : World)
      → let w' = (update_status O name namespace phase text tenant_id w).1 in
        (w'.rows ≡ w.rows)
        × (w'.admins ≡ w.admins)
        × ((w'.statuses ≡ w.statuses)
            ⊎ (w'.statuses ≡ status_patch name namespace phase text tenant_id ∷ w.statuses))
  unfolding update_status
  update_status_lem name namespace phase text tenant_id w =
      elim (Result-cases (O.patch w.calls (status_patch name namespace phase text tenant_id))) [
        | inl (u, e) ↦ (ground (arith, e), ground (arith, e), inr (ground (arith, e)))
        | inr (x, e) ↦ (ground (arith, e), ground (arith, e), inl (ground (arith, e)))
      ]

  -- A status that is true may be taken.
  update_status-AllTrue :
      (name namespace phase text : String) (tenant_id : Option String) (w : World)
      → AllTrue w w.statuses
      → IsTrue w (status_patch name namespace phase text tenant_id)
      → let w' = (update_status O name namespace phase text tenant_id w).1 in AllTrue w' w'.statuses
  update_status-AllTrue name namespace phase text tenant_id w all new =
      let w' = (update_status O name namespace phase text tenant_id w).1 in
      let (rows, admins, statuses) = update_status_lem name namespace phase text tenant_id w in
      let grown = Grows-refl w w' rows admins in
      elim statuses [
        | inl same_list ↦ rw same_list (AllTrue-Grows w w' w.statuses grown all)
        | inr longer ↦ rw longer (
            AllTrue-Grows w w' (status_patch name namespace phase text tenant_id ∷ w.statuses) grown
              (new, all))
      ]

  failed-IsTrue :
      (name namespace text : String) (w : World)
      → IsTrue w (status_patch name namespace "Failed" text none)
  failed-IsTrue name namespace text w active =
      let wrong : false ≡ true = (eq_iff "Failed" "Active").1 active in absurd (ground arith)

  reconcile-AllTrue :
      (tenant : KavachTenant) (w : World)
      → AllTrue w w.statuses
      → AllTrue (reconcile O tenant w).1 (reconcile O tenant w).1.statuses
  unfolding reconcile
  reconcile-AllTrue tenant w all =
      let p = provision-Provisioning tenant w in
      let w1 = (provision O tenant w).1 in
      let kept : AllTrue w1 w1.statuses =
        rw p.statuses (AllTrue-Grows w w1 w.statuses p.grown all) in
      elim (Bool-cases (same "Active" tenant.phase)) [
        | inl active ↦ rw active all
        | inr waiting ↦ rw waiting (elim (Result-cases (provision O tenant w).0) [
          | inl (id, e) ↦ rw e (
              update_status-AllTrue tenant.resource_name tenant.namespace "Active"
                "Tenant provisioned successfully" (some id) w1 kept
                (λ h.
                  let (row, admin, is, status, owner, in_rows, in_admins) = p.provided id e in
                  (row, admin, ap some is, status, owner, in_rows, in_admins)))
          | inr (x, e) ↦ rw e (
              update_status-AllTrue tenant.resource_name tenant.namespace "Failed" (message x) none
                w1 kept (failed-IsTrue tenant.resource_name tenant.namespace (message x) w1))
        ])
      ]

  Step-AllTrue : {w w' : World} → Step O w w' → AllTrue w w.statuses → AllTrue w' w'.statuses
  unfolding watch_handler
  Step-AllTrue (handled w (added obj)) h = reconcile-AllTrue obj w h
  Step-AllTrue (handled w (modified obj)) h = reconcile-AllTrue obj w h
  Step-AllTrue (handled w (deleted obj)) h = h
  Step-AllTrue (handled w other) h = h

  -- Whatever events the watch delivers, and whatever the cluster, the database and the server answer:
  -- every status that the cluster has taken stays true. Where it is `Active`, its tenant has an active
  -- row, and an admin whom the server has registered for it.
  pub Reach-AllTrue : (w w' : World) → AllTrue w w.statuses → Reach O w w' → AllTrue w' w'.statuses
  Reach-AllTrue w w' h here = h
  Reach-AllTrue w w' h (next r s) = Step-AllTrue s (Reach-AllTrue w _ h r)
