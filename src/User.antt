-- ===== src/User.antt =====
-- src/modules/user/user.service.ts
pub mod Registered
pub mod Routes
use kavachid.Base.{
  ℕ, Bool, true, false, not, ◌&&◌, ◌||◌, Option, none, some, is_some, List, [], ◌∷◌, String, ◌==◌,
  same, truthy, or_else, Error, conflict, not_found, unauthorized, Result, ok, err, Exec, pure,
  throw, lift, gets, modify, throw_if, ◌>>=◌, ◌>>◌, if◌then◌else◌, ◌+◌,
}
use kavachid.Prisma.{Client, create_unique, update}
use kavachid.Schema.{Db, Fields, Json, text, User, draw}
use kavachid.Crypto.{Externals}
use kavachid.Tenant.{get_required_tenant_id}
use kavachid.Outbox.{create_event}
use kavachid.Session.Store.{user_key, is_named}
use kavachid.Session.Login.{is_legacy_password}

-- `tenantId_email: { tenantId, email }`, and the same for usernames
abbrev pub of_email : String → String → User → Bool
of_email tenant_id email u = u.tenant_id == tenant_id && same email u.email

abbrev pub of_username : String → String → User → Bool
of_username tenant_id username u = u.tenant_id == tenant_id && same username u.username

abbrev is_shared : Option String → Option String → Bool
is_shared none o = false
is_shared (some s) o = same s o

-- the unique constraints of a new row; absent columns do not clash
abbrev pub clashes : User → User → Bool
clashes new u =
    u.tenant_id == new.tenant_id
    && (is_shared new.email u.email || is_shared new.username u.username)

abbrev pub named_fields : User → Fields
named_fields user =
    ("userId", text (some user.id))
    ∷ ("email", text user.email)
    ∷ ("username", text user.username)
    ∷ []

-- the success of `verifyCredentials`
pub record Verified : Type 0 where
  pub success : Bool
  pub user_id : String

module _ (P : Client) (X : Externals) where
  -- `prisma.user.create`
  unfoldable pub create_user : User → Exec (Db P.Table) (Unit {0})
  create_user user db = elim (create_unique P (clashes user) user db.users) [
    | ok t ↦ (ok tt, record db { users = t })
    | err e ↦ (err e, db)
  ]

  -- `hashPassword`, by a salt that is drawn
  unfoldable pub salted_hash : String → Exec (Db P.Table) String
  salted_hash password = do
    salt ← gets (λ db. db.drawn)
    hash ← lift (X.argon_hash salt password)
    modify (λ db. record db { drawn = salt + 1 })
    pure hash

  -- the hash of a given password
  unfoldable pub hash_password : Option String → Exec (Db P.Table) (Option String)
  hash_password password =
      if truthy password
      then (salted_hash (or_else password "") >>= λ hash. pure (some hash))
      else pure none

  -- the transaction of `registerUser`, which is undone where a write of it throws
  unfoldable pub save_user : User → Exec (Db P.Table) User
  save_user user db =
      let (r, db') = create_user user db in
      elim r [
        | ok t ↦
            (ok user, (create_event P X user.tenant_id "UserCreated" (named_fields user) db').1)
        | err e ↦ (err e, db)
      ]

  -- `registerUser`
  unfoldable pub register_user :
      Option String
      → Option String
      → Option String
      → Option String
      → Fields
      → Exec (Db P.Table) User
  register_user tenant email password username metadata = do
    tenant_id ← lift (get_required_tenant_id tenant)
    same_email ←
        gets (λ db. is_some (P.find_first (of_email tenant_id (or_else email "")) db.users))
    throw_if (truthy email && same_email) (conflict "Email is already registered for this tenant")
    same_name ←
        gets (λ db. is_some (P.find_first (of_username tenant_id (or_else username "")) db.users))
    throw_if (truthy username && same_name)
        (conflict "Username is already registered for this tenant")
    password_hash ← hash_password password
    id ← draw X.uuid
    now ← gets (λ db. db.now)
    save_user (record {
      id = id;
      tenant_id = tenant_id;
      email = email;
      username = username;
      password_hash = password_hash;
      status = "active";
      migration_status = "active";
      metadata = metadata;
      created_at = now;
      current_web_authn_challenge = none;
    })

  -- `prisma.user.update` of one user
  unfoldable pub update_user : String → String → (User → User) → Exec (Db P.Table) (Unit {0})
  update_user tenant_id id f db = elim (update P (user_key tenant_id id) f db.users) [
    | ok t ↦ (ok tt, record db { users = t })
    | err e ↦ (err e, db)
  ]

  -- the migration of a legacy user whose password is good
  unfoldable pub migrate : String → User → String → Exec (Db P.Table) Verified
  migrate tenant_id user password = do
    hash ← salted_hash password
    update_user tenant_id user.id
        (λ u. record u { password_hash = some hash; migration_status = "migrated" })
    create_event P X tenant_id "UserMigrated" (named_fields user)
    pure (record { success = true; user_id = user.id })

  unfoldable pub check_password : String → String → String → Exec (Db P.Table) Verified
  check_password hash id password = do
    match ← lift (X.argon_verify hash password)
    throw_if (not match) (unauthorized "Invalid credentials")
    pure (record { success = true; user_id = id })

  -- the checks of `verifyCredentials` on the user that was found
  unfoldable pub verify_user : String → User → String → Exec (Db P.Table) Verified
  verify_user tenant_id user password =
      if user.migration_status == "legacy"
      then (if is_legacy_password password
          then migrate tenant_id user password
          else throw (unauthorized "Invalid credentials"))
      else if not (truthy user.password_hash)
      then throw (unauthorized "User does not have a password set")
      else check_password (or_else user.password_hash "") user.id password

  -- `verifyCredentials`
  unfoldable pub verify_credentials : Option String → String → String → Exec (Db P.Table) Verified
  verify_credentials tenant identifier password = do
    tenant_id ← lift (get_required_tenant_id tenant)
    found ← gets (λ db. P.find_first (is_named tenant_id identifier) db.users)
    elim found [
      | none ↦ throw (not_found "User not found")
      | some user ↦ verify_user tenant_id user password
    ]

  -- `getUserById`
  unfoldable pub get_user_by_id : Option String → String → Exec (Db P.Table) User
  get_user_by_id tenant id = do
    tenant_id ← lift (get_required_tenant_id tenant)
    found ← gets (λ db. P.find_first (user_key tenant_id id) db.users)
    elim found [ none ↦ throw (not_found "User not found") | some user ↦ pure user ]
