-- ===== src/User/Registered.antt =====
-- What a registration stores, and that its credentials are good afterwards.
use kavachid.Base.{
  ℕ, ◌+◌, ◌≡◌, refl, true, false, ◌&&◌, Option, none, some, is_some, String, ◌==◌, eq_iff, eq_refl,
  same, nat_eq, present, truthy, or_else, arith, ok, Result-cases, Bool-cases, inl, inr,
}
use kavachid.Prisma.{Client}
use kavachid.Prisma.Laws.{created_found, created_same}
use kavachid.Schema.{Db, Fields, User}
use kavachid.Crypto.{Externals}
use kavachid.Tenant.{get_required_tenant_id}
use kavachid.Outbox.{create_event}
use kavachid.Session.Store.{is_named}
use kavachid.User.{
  of_email, clashes, create_user, salted_hash, hash_password, save_user, register_user, verify_user,
  check_password, verify_credentials,
}

-- argon2 verifies the hashes that it makes, and these are not empty.
abbrev pub IsHashing : Externals → Type 0
IsHashing X =
    (n : ℕ) (password hash : String)
    → X.argon_hash n password ≡ ok hash
    → (present hash ≡ true) × (X.argon_verify hash password ≡ ok true)

module _ (P : Client) (X : Externals) where
  -- the row of a user who registers by email
  abbrev pub email_row : String → String → String → Fields → ℕ → ℕ → User
  email_row t email hash metadata drawn now = record {
    id = X.uuid drawn;
    tenant_id = t;
    email = some email;
    username = none;
    password_hash = some hash;
    status = "active";
    migration_status = "active";
    metadata = metadata;
    created_at = now;
    current_web_authn_challenge = none;
  }

  save_user-state :
      (u v : User) (db db' : Db P.Table)
      → save_user P X u db ≡ (ok v, db')
      → (v ≡ u) × (db'.users ≡ P.create u db.users)
  unfolding save_user create_user create_event
  save_user-state u v db db' h = elim (Bool-cases (nat_eq (P.count (clashes u) db.users) 0)) [
    | inl free ↦ (ground arith, ground arith)
    | inr taken ↦ absurd (ground arith)
  ]

  register-state :
      (t email password : String) (metadata : Fields) (u : User) (db db' : Db P.Table)
      → present t ≡ true
      → present password ≡ true
      → register_user P X (some t) (some email) (some password) none metadata db ≡ (ok u, db')
      → (hash : String) × (X.argon_hash db.drawn password ≡ ok hash)
        × (u ≡ email_row t email hash metadata (db.drawn + 1) db.now)
        × (db'.users ≡ P.create u db.users)
  unfolding register_user hash_password salted_hash get_required_tenant_id
  register-state t email password metadata u db db' ht hp h =
      elim (Bool-cases (
        truthy (some email)
        && is_some (P.find_first (of_email t (or_else (some email) "")) db.users))) [
          | inl taken ↦ absurd (ground (arith, ht, h, taken))
          | inr free ↦ elim (Result-cases (X.argon_hash db.drawn password)) [
            | inr (x, eh) ↦ absurd (ground (arith, ht, hp, h, free, eh))
            | inl (hash, eh) ↦
                let row = email_row t email hash metadata (db.drawn + 1) db.now in
                let saved : save_user P X row (record db { drawn = db.drawn + 2 }) ≡ (ok u, db') =
                  ground (arith, ht, hp, h, free, eh) in
                let (eu, et) =
                  save_user-state row u (record db { drawn = db.drawn + 2 }) db' saved in
                (hash, eh, eu, rw eu et)
          ]
        ]

  known_text : (s : String) (o : Option String) → same s o ≡ true → o ≡ some s
  known_text s none h = cc
  known_text s (some r) h = let e = (eq_iff s r).0 h in rw e refl

  -- `verifyCredentials` of a user that is found, by a hash that the password fits
  verify_found :
      (t ident password hash : String) (v : User) (db : Db P.Table)
      → present t ≡ true
      → P.find_first (is_named t ident) db.users ≡ some v
      → (v.migration_status == "legacy") ≡ false
      → v.password_hash ≡ some hash
      → present hash ≡ true
      → X.argon_verify hash password ≡ ok true
      → verify_credentials P X (some t) ident password db
        ≡ (ok (record { success = true; user_id = v.id }), db)
  unfolding verify_credentials verify_user check_password get_required_tenant_id
  verify_found t ident password hash v db ht found active stored given matches = ground arith

  -- A user who was registered by an email and a password, where no user of the tenant had the
  -- email as an email or a username, has credentials that `verifyCredentials` takes, by any
  -- hashing that verifies its own hashes.
  pub register_verify :
      (t email password : String) (metadata : Fields) (u : User) (db db' : Db P.Table)
      → IsHashing X
      → present t ≡ true
      → present password ≡ true
      → P.count (is_named t email) db.users ≡ 0
      → register_user P X (some t) (some email) (some password) none metadata db ≡ (ok u, db')
      → verify_credentials P X (some t) email password db'
        ≡ (ok (record { success = true; user_id = u.id }), db')
  register_verify t email password metadata u db db' hashing ht hp free h =
      let (hash, eh, eu, et) = register-state t email password metadata u db db' ht hp h in
      let row = email_row t email hash metadata (db.drawn + 1) db.now in
      let here : is_named t email row ≡ true = ground (arith, eq_refl t, eq_refl email) in
      let (v, found) = created_found P (is_named t email) db.users row here free in
      let same_id =
        created_same P (is_named t email) db.users row here free (λ x. x.id == row.id) v found
          (eq_refl row.id) in
      let same_hash =
        created_same P (is_named t email) db.users row here free (λ x. same hash x.password_hash) v
          found (eq_refl hash) in
      let is_active =
        created_same P (is_named t email) db.users row here free
          (λ x. x.migration_status == "active") v found refl in
      let (given, matches) = hashing db.drawn password hash eh in
      let e_id = (eq_iff v.id row.id).0 same_id in
      let e_status = (eq_iff v.migration_status "active").0 is_active in
      let not_legacy : (v.migration_status == "legacy") ≡ false = rw e_status refl in
      let there : P.find_first (is_named t email) db'.users ≡ some v = rw (et, eu) found in
      rw
        (
          verify_found t email password hash v db' ht there not_legacy (known_text hash _ same_hash)
              given matches,
          e_id,
          eu,
        )
        refl
