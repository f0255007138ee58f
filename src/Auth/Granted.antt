-- ===== src/Auth/Granted.antt =====
-- The permissions guard decides the relation "granted by a role of the user".
use kavachid.Base.{
  ap, sym, eq_iff, eq_refl, ◌⊎◌, String, ◌≡◌, ◌↔◌, refl, Bool, true, false, ◌&&◌, ◌||◌, Option,
  none, some, List, [], ◌∷◌, ◌++◌, ◌==◌, any, arith, Option-cases, inl, inr, ok,
}
use kavachid.Prisma.{Client, unordered}
use kavachid.Prisma.Laws.{Stored, any-find_many, find_many-any}
use kavachid.Schema.{Db, UserRole, RolePermission, Permission}
use kavachid.Auth.{
  condition, RequiredPermission, RequestUser, is_role_of, links_of, permission_of,
  permissions_of_links, user_permissions, roles_of, meets, has_permissions, can_activate,
}

any-append :
    {A : Type 0} (q : A → Bool) (xs ys : List A) → any q (xs ++ ys) ≡ (any q xs || any q ys)
any-append q [] ys = refl
any-append q (x ∷ xs) ys = ground (arith, any-append q xs ys)

abbrev found_meets : RequiredPermission → Option Permission → Bool
found_meets r none = false
found_meets r (some p) = meets r p

condition_iff :
    (column : String) (claim : Option String)
    → (condition column claim ≡ true) ↔ ((claim ≡ some column) ⊎ (claim ≡ none))
condition_iff column none = (λ h. inr refl, λ h. refl)
condition_iff column (some s) = (
  λ h. inl (ap some (sym ((eq_iff column s).0 h))),
  λ h. elim h [ inl e ↦ ground (arith, e, eq_refl column) | inr e ↦ absurd (cc (e)) ],
)

module _ (P : Client) where
  -- A required permission is granted to a user: a stored assignment to a role, of the user and the
  -- tenant of the token, where a claim that the token lacks asks for nothing; a stored link of that role, in its tenant, to a permission, and the row of the permission, which
  -- is of the resource and the action.
  pub record Granted (db : Db P.Table) (user : RequestUser) (r : RequiredPermission) : Type 0 where
    pub assignment : UserRole
    pub link : RolePermission
    pub permission : Permission
    pub assigned : Stored P db.user_roles assignment
    pub of_tenant : (user.tenant_id ≡ some assignment.tenant_id) ⊎ (user.tenant_id ≡ none)
    pub of_user : (user.sub ≡ some assignment.user_id) ⊎ (user.sub ≡ none)
    pub linked : Stored P db.role_permissions link
    pub of_role :
        (link.tenant_id == assignment.tenant_id && link.role_id == assignment.role_id) ≡ true
    pub found : permission_of P db link ≡ some permission
    pub fits : meets r permission ≡ true

  any-permissions_of_links :
      (db : Db P.Table) (r : RequiredPermission) (gs : List RolePermission)
      → any (meets r) (permissions_of_links P db gs)
        ≡ any (λ g. found_meets r (permission_of P db g)) gs
  unfolding permissions_of_links
  any-permissions_of_links db r [] = refl
  any-permissions_of_links db r (g ∷ gs) = elim (Option-cases (permission_of P db g)) [
    | inl missing ↦ rw missing (any-permissions_of_links db r gs)
    | inr (p, e) ↦ rw (e, any-permissions_of_links db r gs)
  ]

  any-user_permissions :
      (db : Db P.Table) (r : RequiredPermission) (urs : List UserRole)
      → any (meets r) (user_permissions P db urs)
        ≡ any (λ ur. any (λ g. found_meets r (permission_of P db g)) (links_of P ur db)) urs
  unfolding user_permissions
  any-user_permissions db r [] = refl
  any-user_permissions db r (ur ∷ urs) =
      rw (any-append, any-permissions_of_links, any-user_permissions db r urs)

  allowed_one :
      (db : Db P.Table) (user : RequestUser) (r : RequiredPermission)
      → (any (meets r) (user_permissions P db (roles_of P user db)) ≡ true) ↔ Granted db user r
  allowed_one db user r = (
    λ h.
        let (ur, has, of_user, assigned) =
          any-find_many P (λ x. any (λ g. found_meets r (permission_of P db g)) (links_of P x db))
            (is_role_of user) unordered db.user_roles (rw any-user_permissions at h) in
        let (g, fits, of_role, linked) =
          any-find_many P (λ g. found_meets r (permission_of P db g))
            (λ g. g.tenant_id == ur.tenant_id && g.role_id == ur.role_id) unordered
            db.role_permissions has in
        elim (Option-cases (permission_of P db g)) [
          | inl missing ↦ absurd (cc (rw missing at fits))
          | inr (p, e) ↦ record {
            assignment = ur;
            link = g;
            permission = p;
            assigned = assigned;
            of_tenant = (condition_iff ur.tenant_id user.tenant_id).0 (ground (arith, of_user));
            of_user = (condition_iff ur.user_id user.sub).0 (ground (arith, of_user));
            linked = linked;
            of_role = of_role;
            found = e;
            fits = rw e at fits;
          }
        ],
    λ w. rw any-user_permissions (
        find_many-any P (λ x. any (λ g. found_meets r (permission_of P db g)) (links_of P x db))
          (is_role_of user) unordered db.user_roles w.assignment
          (find_many-any P (λ g. found_meets r (permission_of P db g))
            (λ g. g.tenant_id == w.assignment.tenant_id && g.role_id == w.assignment.role_id)
            unordered db.role_permissions w.link (rw w.found w.fits) w.of_role w.linked)
          (ground (
            arith,
            (condition_iff w.assignment.tenant_id user.tenant_id).1 w.of_tenant,
            (condition_iff w.assignment.user_id user.sub).1 w.of_user,
          ))
          w.assigned),
  )

  -- every required permission is granted
  abbrev pub AllGranted : Db P.Table → RequestUser → List RequiredPermission → Type 0
  AllGranted db user [] = Unit
  AllGranted db user (r ∷ rs) = Granted db user r × AllGranted db user rs

  allowed_all :
      (db : Db P.Table) (user : RequestUser) (rs : List RequiredPermission)
      → (has_permissions P rs user db ≡ true) ↔ AllGranted db user rs
  unfolding has_permissions
  allowed_all db user [] = (λ h. tt, λ h. refl)
  allowed_all db user (r ∷ rs) =
      let (one, one') = allowed_one db user r in
      let (rest, rest') = allowed_all db user rs in
      (λ h. (one (ground arith), rest (ground arith)), λ h. ground (arith, one' h.0, rest' h.1))

  -- The permissions guard lets a user through exactly when each permission that the route requires is
  -- granted by a role that is assigned to the user of the token in the tenant of the token. Where the
  -- token has no subject, a role of any user of the tenant counts, and where it has no tenant, a role of
  -- the user in any tenant.
  pub can_activate_iff :
      (rs : List RequiredPermission) (user : RequestUser) (db : Db P.Table)
      → (can_activate P (some rs) (some user) db ≡ ok true) ↔ AllGranted db user rs
  unfolding can_activate
  can_activate_iff [] user db = (λ h. tt, λ h. refl)
  can_activate_iff (r ∷ rs) user db =
      let (to, from) = allowed_all db user (r ∷ rs) in
      (λ h. to (ground arith), λ h. ground (arith, from h))
