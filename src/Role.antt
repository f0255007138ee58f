-- ===== src/Role.antt =====
-- src/modules/role/role.service.ts
pub mod Unique
pub mod Routes
use kavachid.Base.{
  if◌then◌else◌, foreign_key_violation, ℕ, ◌≡◌, Bool, true, false, ◌&&◌, Option, none, some,
  is_some, List, String, ◌==◌, nat_eq, template, [], ◌∷◌, conflict, not_found, unique_violation,
  Error, Result, ok, err, Exec, pure, throw, lift, gets, throw_if, rethrow, ◌>>=◌, ◌>>◌, not,
}
use kavachid.Prisma.Constraints.{tenant_exists}
use kavachid.Prisma.{Client, create_unique, unordered}
use kavachid.Schema.{Db, User, Role, Permission, RolePermission, UserRole, draw}
use kavachid.Crypto.{Externals}
use kavachid.Tenant.{get_required_tenant_id}
use kavachid.Session.Store.{user_key}

-- the unique keys of the four tables
abbrev pub role_named : String → String → Role → Bool
role_named tenant_id name r = r.tenant_id == tenant_id && r.name == name

abbrev pub role_key : String → String → Role → Bool
role_key tenant_id id r = r.tenant_id == tenant_id && r.id == id

abbrev pub permission_on : String → String → String → Permission → Bool
permission_on tenant_id resource action p =
    p.tenant_id == tenant_id && (p.resource == resource && p.action == action)

abbrev pub permission_key : String → String → Permission → Bool
permission_key tenant_id id p = p.tenant_id == tenant_id && p.id == id

abbrev pub grant_key : String → String → String → RolePermission → Bool
grant_key tenant_id role_id permission_id g =
    g.tenant_id == tenant_id && (g.role_id == role_id && g.permission_id == permission_id)

abbrev pub user_role_key : String → String → String → UserRole → Bool
user_role_key tenant_id user_id role_id g =
    g.tenant_id == tenant_id && (g.user_id == user_id && g.role_id == role_id)

module _ (P : Client) (X : Externals) where
  -- The writes, each under the unique constraints of its table, and under the key to the tenant where no
  -- row with that key was read before.
  unfoldable pub insert_role : Role → Exec (Db P.Table) Role
  insert_role r db =
      if tenant_exists P r.tenant_id db
      then elim (create_unique P (role_named r.tenant_id r.name) r db.roles) [
        | ok t ↦ (ok r, record db { roles = t })
        | err e ↦ (err e, db)
      ]
      else (err foreign_key_violation, db)

  unfoldable pub insert_permission : Permission → Exec (Db P.Table) Permission
  insert_permission p db =
      if tenant_exists P p.tenant_id db
      then elim (create_unique P (permission_on p.tenant_id p.resource p.action) p db.permissions) [
        | ok t ↦ (ok p, record db { permissions = t })
        | err e ↦ (err e, db)
      ]
      else (err foreign_key_violation, db)

  unfoldable pub insert_grant : RolePermission → Exec (Db P.Table) RolePermission
  insert_grant g db =
      elim (create_unique P (grant_key g.tenant_id g.role_id g.permission_id) g
        db.role_permissions) [
          | ok t ↦ (ok g, record db { role_permissions = t })
          | err e ↦ (err e, db)
        ]

  unfoldable pub insert_user_role : UserRole → Exec (Db P.Table) UserRole
  insert_user_role g db =
      elim (create_unique P (user_role_key g.tenant_id g.user_id g.role_id) g db.user_roles) [
        | ok t ↦ (ok g, record db { user_roles = t })
        | err e ↦ (err e, db)
      ]

  -- `createRole`
  unfoldable pub create_role :
      Option String → String → Option String → Bool → Exec (Db P.Table) Role
  create_role tenant name description is_system = do
    tenant_id ← lift (get_required_tenant_id tenant)
    existing ← gets (λ db. P.find_first (role_named tenant_id name) db.roles)
    throw_if (is_some existing)
        (conflict (template ("Role '" ∷ name ∷ "' already exists for this tenant" ∷ [])))
    id ← draw X.uuid
    insert_role (record {
      id = id;
      tenant_id = tenant_id;
      name = name;
      description = description;
      is_system = is_system;
    })

  -- `createPermission`
  unfoldable pub create_permission : Option String → String → String → Exec (Db P.Table) Permission
  create_permission tenant resource action = do
    tenant_id ← lift (get_required_tenant_id tenant)
    existing ← gets (λ db. P.find_first (permission_on tenant_id resource action) db.permissions)
    throw_if (is_some existing) (
        conflict (
          template (
            "Permission on '" ∷ resource ∷ ":" ∷ action ∷ "' already exists for this tenant" ∷ [])))
    id ← draw X.uuid
    insert_permission
        (record { id = id; tenant_id = tenant_id; resource = resource; action = action })

  -- `assignPermissionToRole`
  unfoldable pub assign_permission_to_role :
      Option String → String → String → Exec (Db P.Table) RolePermission
  assign_permission_to_role tenant role_id permission_id = do
    tenant_id ← lift (get_required_tenant_id tenant)
    role ← gets (λ db. is_some (P.find_first (role_key tenant_id role_id) db.roles))
    throw_if (not role) (not_found "Role not found")
    permission ←
        gets (λ db. is_some (P.find_first (permission_key tenant_id permission_id) db.permissions))
    throw_if (not permission) (not_found "Permission not found")
    rethrow
        (insert_grant
          (record { tenant_id = tenant_id; role_id = role_id; permission_id = permission_id }))
        (λ _. conflict "Permission is already assigned to this role")

  -- `assignRoleToUser`
  unfoldable pub assign_role_to_user : Option String → String → String → Exec (Db P.Table) UserRole
  assign_role_to_user tenant user_id role_id = do
    tenant_id ← lift (get_required_tenant_id tenant)
    user ← gets (λ db. is_some (P.find_first (user_key tenant_id user_id) db.users))
    throw_if (not user) (not_found "User not found")
    role ← gets (λ db. is_some (P.find_first (role_key tenant_id role_id) db.roles))
    throw_if (not role) (not_found "Role not found")
    rethrow
        (insert_user_role (record { tenant_id = tenant_id; user_id = user_id; role_id = role_id }))
        (λ _. conflict "Role is already assigned to this user")

  -- `listRoles`, `listPermissions`
  unfoldable pub list_roles : Option String → Exec (Db P.Table) (List Role)
  list_roles tenant = do
    tenant_id ← lift (get_required_tenant_id tenant)
    gets (λ db. P.find_many (λ r. r.tenant_id == tenant_id) unordered db.roles)

  unfoldable pub list_permissions : Option String → Exec (Db P.Table) (List Permission)
  list_permissions tenant = do
    tenant_id ← lift (get_required_tenant_id tenant)
    gets (λ db. P.find_many (λ p. p.tenant_id == tenant_id) unordered db.permissions)
