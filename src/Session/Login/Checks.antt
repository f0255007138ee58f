-- ===== src/Session/Login/Checks.antt =====
-- Who gets past the checks of `login`, and what is recorded of each attempt.
use kavachid.Base.{
  ◌+◌, ◌≡◌, ◌↔◌, Bool, true, false, none, some, String, ◌==◌, present, or_else, arith, Result, ok,
  err, inl, inr, Bool-cases, Option-cases, if◌then◌else◌, ◌≢◌, ◌∙◌, ap,
}
use kavachid.Prisma.Constraints.{tenant_exists}
use kavachid.Prisma.{Client}
use kavachid.Schema.{Db, User}
use kavachid.Crypto.{Externals}
use kavachid.Tenant.{get_required_tenant_id}
use kavachid.Session.Store.{is_named, log_attempt, new_attempt}
use kavachid.Session.Login.{is_legacy_password, check_user, authenticate}

module _ (P : Client) (X : Externals) where
  -- The credentials of a user that `login` takes: a legacy account has the stand-in check, any
  -- other a password hash that is there and fits.
  pub data HasCredentials (password : String) (u : User) : Type 0 where
    legacy :
        (u.migration_status == "legacy") ≡ true
        → is_legacy_password password ≡ true
        → HasCredentials password u
    hashed :
        (hash : String)
        → (u.migration_status == "legacy") ≡ false
        → u.password_hash ≡ some hash
        → present hash ≡ true
        → X.argon_verify hash password ≡ ok true
        → HasCredentials password u

  check_user_sound :
      (t ip ident pw : String) (u : User) (db : Db P.Table)
      → (check_user P X t ip ident pw u db).0 ≡ ok tt
      → ((u.status == "LOCKED") ≡ false) × HasCredentials pw u
  unfolding check_user
  check_user_sound t ip ident pw u db h = elim (Bool-cases (u.migration_status == "legacy")) [
    | inl old ↦ (ground arith, legacy old (ground arith))
    | inr new ↦ elim (Option-cases u.password_hash) [
      | inl missing ↦ absurd (ground arith)
      | inr (hash, e) ↦ (ground arith, hashed hash new e (ground arith) (ground arith))
    ]
  ]

  check_user_complete :
      (t ip ident pw : String) (u : User) (db : Db P.Table)
      → (u.status == "LOCKED") ≡ false
      → HasCredentials pw u
      → check_user P X t ip ident pw u db ≡ (ok tt, db)
  unfolding check_user
  check_user_complete t ip ident pw u db unlocked (legacy old fits) = ground arith
  check_user_complete t ip ident pw u db unlocked (hashed hash new e there fits) = ground arith

  authenticate-found :
      (t ip ident pw : String) (u w : User) (db : Db P.Table)
      → present t ≡ true
      → P.find_first (is_named t ident) db.users ≡ some w
      → (authenticate P X (some t) ip ident pw db).0 ≡ ok u
      → (w ≡ u) × ((check_user P X t ip ident pw w db).0 ≡ ok tt)
  unfolding authenticate get_required_tenant_id log_attempt
  authenticate-found t ip ident pw u w db ht e h = ground arith

  authenticate-missing :
      (t ip ident pw : String) (u : User) (db : Db P.Table)
      → present t ≡ true
      → P.find_first (is_named t ident) db.users ≡ none
      → (authenticate P X (some t) ip ident pw db).0 ≢ ok u
  unfolding authenticate get_required_tenant_id log_attempt
  authenticate-missing t ip ident pw u db ht e h = ground arith

  authenticate-pass :
      (t ip ident pw : String) (u : User) (db : Db P.Table)
      → present t ≡ true
      → P.find_first (is_named t ident) db.users ≡ some u
      → check_user P X t ip ident pw u db ≡ (ok tt, db)
      → (authenticate P X (some t) ip ident pw db).0 ≡ ok u
  unfolding authenticate get_required_tenant_id log_attempt
  authenticate-pass t ip ident pw u db ht e h = ground arith

  -- The checks let exactly the user through that the identifier finds, who is not locked and
  -- whose credentials are good.
  pub authenticate_iff :
      (t ip ident pw : String) (u : User) (db : Db P.Table)
      → present t ≡ true
      → ((authenticate P X (some t) ip ident pw db).0 ≡ ok u) ↔ (
          (P.find_first (is_named t ident) db.users ≡ some u)
          × ((u.status == "LOCKED") ≡ false)
          × HasCredentials pw u)
  authenticate_iff t ip ident pw u db ht = (
    λ h. elim (Option-cases (P.find_first (is_named t ident) db.users)) [
      | inl missed ↦ absurd (authenticate-missing t ip ident pw u db ht missed h)
      | inr (w, e) ↦
          let (same, passed) = authenticate-found t ip ident pw u w db ht e h in
          let (unlocked, good) = check_user_sound t ip ident pw w db passed in
          (e ∙ ap some same, rw (← same) unlocked, rw (← same) good)
    ],
    λ (e, unlocked, good).
        authenticate-pass t ip ident pw u db ht e
          (check_user_complete t ip ident pw u db unlocked good),
  )

  abbrev pub succeeded : {A : Type 0} → Result A → Bool
  succeeded (ok a) = true
  succeeded (err e) = false

  -- the database with one more attempt recorded, where the tenant of the attempt exists
  abbrev pub with_attempt : String → String → String → Bool → Db P.Table → Db P.Table
  with_attempt t ip ident success db =
      if tenant_exists P t db
      then record db {
        login_attempts =
            P.create (new_attempt (X.uuid db.drawn) t ip ident success db.now) db.login_attempts;
        drawn = db.drawn + 1;
      }
      else db

  check_user-state :
      (t ip ident pw : String) (u : User) (db : Db P.Table)
      → ((h : String) → (b : Bool) × (X.argon_verify h pw ≡ ok b))
      → let r = check_user P X t ip ident pw u db in
        r.1 ≡ (if succeeded r.0 then db else with_attempt t ip ident false db)
  unfolding check_user log_attempt
  check_user-state t ip ident pw u db answers =
      let (b, e) = answers (or_else u.password_hash "") in
      elim (Bool-cases (tenant_exists P t db)) [
        | inl there ↦ ground (arith, there)
        | inr missing ↦ ground (arith, missing)
      ]

  -- Where the request names a tenant and argon2 answers for the password, a call records exactly one
  -- attempt if the tenant exists, whose flag says whether the checks were passed, and changes nothing
  -- else in the database; if there is no such tenant it changes nothing at all.
  pub authenticate_records :
      (t ip ident pw : String) (db : Db P.Table)
      → present t ≡ true
      → ((h : String) → (b : Bool) × (X.argon_verify h pw ≡ ok b))
      → let r = authenticate P X (some t) ip ident pw db in
        r.1 ≡ with_attempt t ip ident (succeeded r.0) db
  unfolding authenticate get_required_tenant_id log_attempt
  authenticate_records t ip ident pw db ht answers =
      elim (Option-cases (P.find_first (is_named t ident) db.users)) [
        | inl missed ↦ elim (Bool-cases (tenant_exists P t db)) [
          | inl there ↦ ground (arith, there)
          | inr missing ↦ ground (arith, missing)
        ]
        | inr (u, e) ↦ elim (Bool-cases (tenant_exists P t db)) [
          | inl there ↦ ground (arith, there, check_user-state t ip ident pw u db answers)
          | inr missing ↦ ground (arith, missing, check_user-state t ip ident pw u db answers)
        ]
      ]
