-- ===== src/Role/Unique.antt =====
-- What the creation of a role comes to, and that its name is taken then.
use kavachid.Base.{
  foreign_key_violation, ◌+◌, ◌≡◌, ◌≤◌, Bool, true, false, Option, some, String, eq_refl, present,
  arith, template, conflict, ok, err, Option-cases, Bool-cases, inl, inr, [], ◌∷◌, ◌⊎◌,
}
use kavachid.Prisma.Constraints.{tenant_exists}
use kavachid.Prisma.{Client}
use kavachid.Prisma.Laws.{count_found}
use kavachid.Schema.{Db, Role}
use kavachid.Crypto.{Externals}
use kavachid.Tenant.{get_required_tenant_id}
use kavachid.Role.{role_named, create_role, insert_role}

module _ (P : Client) (X : Externals) where
  abbrev new_role : String → String → Option String → Bool → Db P.Table → Role
  new_role t name description is_system db = record {
    id = X.uuid db.drawn;
    tenant_id = t;
    name = name;
    description = description;
    is_system = is_system;
  }

  -- the outcomes, by whether the name is taken and the tenant exists
  pub create_role_cases :
      (t name : String) (description : Option String) (is_system : Bool) (db : Db P.Table)
      → present t ≡ true
      → let run = create_role P X (some t) name description is_system db in
        ((1 ≤ P.count (role_named t name) db.roles)
          × (run ≡ (
            err (conflict (template ("Role '" ∷ name ∷ "' already exists for this tenant" ∷ []))),
            db,
          )))
        ⊎ (((P.count (role_named t name) db.roles ≡ 0)
              × (tenant_exists P t db ≡ true)
              × (run ≡ (
                ok (new_role t name description is_system db),
                record db {
                  roles = P.create (new_role t name description is_system db) db.roles;
                  drawn = db.drawn + 1;
                },
              )))
            ⊎ ((P.count (role_named t name) db.roles ≡ 0)
                × (tenant_exists P t db ≡ false)
                × (run ≡ (err foreign_key_violation, record db { drawn = db.drawn + 1 }))))
  unfolding create_role get_required_tenant_id insert_role
  create_role_cases t name description is_system db ht =
      elim (Option-cases (P.find_first (role_named t name) db.roles)) [
        | inr (r, e) ↦ inl (count_found P (role_named t name) db.roles r e, ground arith)
        | inl missed ↦
            let none_there = P.find_first_missed (role_named t name) db.roles missed in
            elim (Bool-cases (tenant_exists P t db)) [
              | inl there ↦ inr (inl (none_there, there, ground (arith, there)))
              | inr absent ↦ inr (inr (none_there, absent, ground (arith, absent)))
            ]
      ]

  -- Where `createRole` goes through, in a request with a tenant, the tenant exists, the name was free in
  -- it, and the row that is answered, with the name and the tenant, is the one stored; and another
  -- `createRole` with the same name is a conflict then, named as such, and changes nothing.
  pub create_role_again :
      (t name : String) (description description' : Option String) (is_system : Bool)
      (db db' : Db P.Table) (r : Role)
      → present t ≡ true
      → create_role P X (some t) name description is_system db ≡ (ok r, db')
      → (r.name ≡ name)
        × (r.tenant_id ≡ t)
        × (tenant_exists P t db ≡ true)
        × (P.count (role_named t name) db.roles ≡ 0)
        × (db'.roles ≡ P.create r db.roles)
        × (create_role P X (some t) name description' false db' ≡ (
          err (conflict (template ("Role '" ∷ name ∷ "' already exists for this tenant" ∷ []))),
          db',
        ))
  create_role_again t name description description' is_system db db' r ht h =
      let again = create_role_cases t name description' false db' ht in
      elim (create_role_cases t name description is_system db ht) [
        | inl (taken, e) ↦ absurd (ground arith)
        | inr (inr (free, absent, e)) ↦ absurd (ground arith)
        | inr (inl (free, there, e)) ↦
            let one =
              P.count-create (role_named t name) (new_role t name description is_system db)
                db.roles in
            let taken : 1 ≤ P.count (role_named t name) db'.roles =
              ground (arith, eq_refl t, eq_refl name, one) in
            (
              ground arith,
              ground arith,
              there,
              free,
              ground arith,
              elim again [
                | inl (taken', e') ↦ e'
                | inr (inl (free', there', e')) ↦ absurd (omega (arith, taken, free'))
                | inr (inr (free', there', e')) ↦ absurd (omega (arith, taken, free'))
              ],
            )
      ]
