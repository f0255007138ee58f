-- ===== src/Role/Routes.antt =====
-- src/modules/role/role.controller.ts: its two guards, the one of the tenant and the one of the bearer
-- token, and the handlers behind them.
use kavachid.Base.{
  ap, leb, nat_eq, ◌&&◌, Error, conflict, not_found, Bool-cases, Option-cases, inl, inr, ◌⊎◌,
  eq_refl, pure, ◌>>=◌, true, false, ◌≡◌, Option, some, List, String, present, ok, err, Exec, arith,
  Bool,
}
use kavachid.Prisma.{Client}
use kavachid.Schema.{Db, Role, Permission, UserRole}
use kavachid.Crypto.{Externals}
use kavachid.Tenant
use kavachid.Tenant.{get_required_tenant_id}
use kavachid.Prisma.Laws.{find_first_exists, count_found}
use kavachid.Auth.{Request, RequestUser, authorize}
use kavachid.Session.Store.{user_key}
use kavachid.Role.{
  insert_user_role, role_key, user_role_key, create_role, create_permission,
  assign_permission_to_role, assign_role_to_user, list_roles, list_permissions,
}

-- what a handler comes to that answers a message only
messaged-ok :
    {S A : Type 0} (m : Exec S A) (s s' : S) (a : A)
    → m s ≡ (ok a, s')
    → (m >>= λ _. pure tt) s ≡ (ok tt, s')
messaged-ok m s s' a e = rw (◌>>=◌, ap (λ z. z.0) e) (ap (λ z. (ok tt, z.1)) e)

messaged-err :
    {S A : Type 0} (m : Exec S A) (s : S) (x : Error)
    → m s ≡ (err x, s)
    → (m >>= λ _. pure tt) s ≡ (err x, s)
messaged-err m s x e = rw (◌>>=◌, ap (λ z. z.0) e) (ap (λ z. (err x, z.1)) e)

module _ (P : Client) (X : Externals) where
  -- `@UseGuards(TenantGuard, AuthGuard)`
  unfoldable pub guarded :
      {A : Type 0} → Option String → Request → Exec (Db P.Table) A → Exec (Db P.Table) A
  guarded tenant request handler db = elim (Tenant.can_activate tenant) [
    | err e ↦ (err e, db)
    | ok t ↦ elim (authorize P X request db) [ err e ↦ (err e, db) | ok user ↦ handler db ]
  ]

  -- `createRole`
  unfoldable pub create_role_route :
      Option String → Request → String → Option String → Exec (Db P.Table) Role
  create_role_route tenant request name description =
      guarded tenant request (create_role P X tenant name description false)

  -- `createPermission`
  unfoldable pub create_permission_route :
      Option String → Request → String → String → Exec (Db P.Table) Permission
  create_permission_route tenant request resource action =
      guarded tenant request (create_permission P X tenant resource action)

  -- `assignPermission`, which answers a message only
  unfoldable pub assign_permission_route :
      Option String → Request → String → String → Exec (Db P.Table) (Unit {0})
  assign_permission_route tenant request role_id permission_id =
      guarded tenant request
        (assign_permission_to_role P X tenant role_id permission_id >>= λ _. pure tt)

  -- `assignRole`, which answers a message only
  unfoldable pub assign_role_route :
      Option String → Request → String → String → Exec (Db P.Table) (Unit {0})
  assign_role_route tenant request user_id role_id =
      guarded tenant request (assign_role_to_user P X tenant user_id role_id >>= λ _. pure tt)

  -- `listRoles`
  unfoldable pub list_roles_route : Option String → Request → Exec (Db P.Table) (List Role)
  list_roles_route tenant request = guarded tenant request (list_roles P X tenant)

  -- `listPermissions`
  unfoldable pub list_permissions_route :
      Option String → Request → Exec (Db P.Table) (List Permission)
  list_permissions_route tenant request = guarded tenant request (list_permissions P X tenant)

  -- what an assignment needs: the user and the role in the tenant, and that there is none yet
  abbrev pub is_assignable : String → String → String → Db P.Table → Bool
  is_assignable t u role db =
      leb 1 (P.count (user_key t u) db.users)
      && (leb 1 (P.count (role_key t role) db.roles)
          && nat_eq (P.count (user_role_key t u role) db.user_roles) 0)

  assign_role-taken :
      (t u role : String) (db : Db P.Table)
      → present t ≡ true
      → is_assignable t u role db ≡ true
      → assign_role_to_user P X (some t) u role db ≡ (
        ok (record { tenant_id = t; user_id = u; role_id = role }),
        record db {
          user_roles =
              P.create (record { tenant_id = t; user_id = u; role_id = role }) db.user_roles;
        },
      )
  unfolding assign_role_to_user get_required_tenant_id insert_user_role
  assign_role-taken t u role db there free =
      let (w, e) = find_first_exists P (user_key t u) db.users (ground (arith, free)) in
      let (r, e') = find_first_exists P (role_key t role) db.roles (ground (arith, free)) in
      ground (arith, there, free, e, e')

  assign_role-refused :
      (t u role : String) (db : Db P.Table)
      → present t ≡ true
      → is_assignable t u role db ≡ false
      → (x : Error) × (assign_role_to_user P X (some t) u role db ≡ (err x, db))
  unfolding assign_role_to_user get_required_tenant_id insert_user_role
  assign_role-refused t u role db there free =
      elim (Option-cases (P.find_first (user_key t u) db.users)) [
        | inl missed ↦ (not_found "User not found", ground (arith, there, missed))
        | inr (w, e) ↦ elim (Option-cases (P.find_first (role_key t role) db.roles)) [
          | inl missed ↦ (not_found "Role not found", ground (arith, there, e, missed))
          | inr (r, e') ↦ (
            conflict "Role is already assigned to this user",
            ground (
              arith,
              there,
              free,
              e,
              e',
              count_found P (user_key t u) db.users w e,
              count_found P (role_key t role) db.roles r e',
            ),
          )
        ]
      ]

  -- The route that assigns a role goes through exactly when the user and the role are there in the
  -- tenant of the request and the role is not assigned yet, whoever the caller is: a good bearer token
  -- of any user of any tenant will do, in a request with a tenant. Where it goes through, the one
  -- assignment of the role to the user is stored, and no other table changes; else nothing does.
  pub assign_role_route_iff :
      (request : Request) (caller : RequestUser) (t u role : String) (db : Db P.Table)
      → present t ≡ true
      → authorize P X request db ≡ ok caller
      → ((is_assignable t u role db ≡ true)
          × (table : P.Table UserRole) × (assign_role_route (some t) request u role db
              ≡ (ok tt, record db { user_roles = table }))
          × (P.count (user_role_key t u role) table ≡ 1))
        ⊎ ((is_assignable t u role db ≡ false)
            × (x : Error) × (assign_role_route (some t) request u role db ≡ (err x, db)))
  unfolding assign_role_route guarded Tenant.can_activate
  assign_role_route_iff request caller t u role db there good =
      elim (Bool-cases (is_assignable t u role db)) [
        | inl free ↦
            let row : UserRole = record { tenant_id = t; user_id = u; role_id = role } in
            let ran = assign_role-taken t u role db there free in
            inl (
              free,
              P.create row db.user_roles,
              rw (assign_role_route, guarded, Tenant.can_activate, there, good)
                  (messaged-ok (assign_role_to_user P X (some t) u role) db _ row ran),
              ground (
                arith,
                free,
                eq_refl t,
                eq_refl u,
                eq_refl role,
                P.count-create (user_role_key t u role) row db.user_roles,
              ),
            )
        | inr bad ↦
            let (x, ran) = assign_role-refused t u role db there bad in
            inr (
              bad,
              x,
              rw (assign_role_route, guarded, Tenant.can_activate, there, good)
                  (messaged-err (assign_role_to_user P X (some t) u role) db x ran),
            )
      ]
