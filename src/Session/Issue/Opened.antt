-- ===== src/Session/Issue/Opened.antt =====
-- The session that `issueTokensAndSession` opens.
use kavachid.Base.{
  Error, ◌≤◌, ◌≢◌, ℕ, ◌+◌, ◌≡◌, refl, true, Option, none, some, String, present, arith, ok, err,
  inl, inr, Result-cases,
}
use kavachid.Prisma.{Client}
use kavachid.Schema.{Db, Session}
use kavachid.Crypto.{Externals, DpopProof}
use kavachid.Tenant.{get_required_tenant_id}
use kavachid.Outbox.{create_event}
use kavachid.Audit.{create_log}
use kavachid.Session.Issue.Frames.{sessions-sign_access_token, check_dpop-state}
use kavachid.Session.Issue.{
  Tokens, Origin, refresh_token_of, check_dpop, associate_device, first_access, open_session,
  issue_tokens_and_session, jwk_of, or_null,
}

-- A session of the user that was just opened, with the token value that it takes.
pub record Opened (P : Client) (X : Externals) (t user_id : String) (db db' : Db P.Table)
    (k : Tokens) : Type 0 where
  pub uuid_draw : ℕ
  pub hex_draw : ℕ
  pub drawn_later : db.drawn ≤ uuid_draw
  pub row : Session
  pub row_id : row.id ≡ X.uuid uuid_draw
  pub row_tenant : row.tenant_id ≡ t
  pub row_user : row.user_id ≡ user_id
  pub row_live : row.revoked_at ≡ none
  pub row_hash : row.refresh_ver_hash ≡ X.sha256 (X.random_hex hex_draw)
  pub token : k.refresh_token ≡ refresh_token_of (X.uuid uuid_draw) (X.random_hex hex_draw)
  pub stored : db'.sessions ≡ P.create row db.sessions
  pub users : db'.users ≡ db.users

module _ (P : Client) (X : Externals) where
  pub associate_device-state :
      (t u : String) (o : Origin) (fp jwk : Option String) (db : Db P.Table)
      → ((associate_device P X t u o fp jwk db).1.sessions ≡ db.sessions)
        × ((associate_device P X t u o fp jwk db).1.users ≡ db.users)
  unfolding associate_device
  associate_device-state t u o fp jwk db = ground arith

  drawn-associate_device :
      (t u : String) (o : Origin) (fp jwk : Option String) (db : Db P.Table)
      → db.drawn ≤ (associate_device P X t u o fp jwk db).1.drawn
  unfolding associate_device
  drawn-associate_device t u o fp jwk db = ground arith

  first_access-state :
      (t u sid : String) (c : Option String) (db : Db P.Table)
      → ((first_access P X t u sid c db).1.sessions ≡ db.sessions)
        × ((first_access P X t u sid c db).1.users ≡ db.users)
  unfolding first_access create_log
  first_access-state t u sid c db = ground arith

  create_event-state :
      (t ty : String) (pl : kavachid.Schema.Fields) (db : Db P.Table)
      → ((create_event P X t ty pl db).1.sessions ≡ db.sessions)
        × ((create_event P X t ty pl db).1.users ≡ db.users)
  unfolding create_event
  create_event-state t ty pl db = (refl, refl)

  abbrev row_of : String → String → Origin → Option String → ℕ → ℕ → Session
  row_of t u o device drawn now = record {
    id = X.uuid (drawn + 1);
    tenant_id = t;
    user_id = u;
    device_id = device;
    refresh_ver_hash = X.sha256 (X.random_hex drawn);
    ip_address = o.ip_address;
    user_agent = o.user_agent;
    last_seen_at = now;
    risk_score = 0;
    created_at = now;
    revoked_at = none;
    login_client_id = or_null o.client_id;
  }

  open_session-state :
      (t u : String) (o : Origin) (device : Option String) (db db' : Db P.Table)
      (k : String × String)
      → open_session P X t u o device db ≡ (ok k, db')
      → (k.0 ≡ X.uuid (db.drawn + 1))
        × (k.1 ≡ X.random_hex db.drawn)
        × (db'.sessions ≡ P.create (row_of t u o device db.drawn db.now) db.sessions)
        × (db'.users ≡ db.users)
  unfolding open_session
  open_session-state t u o device db db' k e = ground arith

  Opened-of :
      (t u : String) (o : Origin) (db db' mid last : Db P.Table) (k : Tokens)
      (device : Option String) (pair : String × String)
      → open_session P X t u o device mid ≡ (ok pair, last)
      → mid.sessions ≡ db.sessions
      → mid.users ≡ db.users
      → db.drawn ≤ mid.drawn
      → db'.sessions ≡ last.sessions
      → db'.users ≡ last.users
      → k.refresh_token ≡ refresh_token_of pair.0 pair.1
      → Opened P X t u db db' k
  Opened-of t u o db db' mid last k device pair e same_s same_u later later_s later_u token =
      let (id, value, sessions, users) = open_session-state t u o device mid last pair e in
      record {
        uuid_draw = mid.drawn + 1;
        hex_draw = mid.drawn;
        drawn_later = omega arith;
        row = row_of t u o device mid.drawn mid.now;
        row_id = refl;
        row_tenant = refl;
        row_user = refl;
        row_live = refl;
        row_hash = refl;
        token = rw (token, id, value);
        stored = rw (later_s, sessions, same_s);
        users = rw (later_u, users, same_u);
      }

  module _ (t u : String) (email username : Option String) (o : Origin) (fp : Option String)
      (db db' : Db P.Table) (k : Tokens) (ht : present t ≡ true)
      (h : issue_tokens_and_session P X (some t) u email username o fp db ≡ (ok k, db')) where
    -- A step that threw would have ended the chain.
    dpop_ok : (proof : Option DpopProof) × ((check_dpop P X o db).0 ≡ ok proof)
    unfolding issue_tokens_and_session get_required_tenant_id
    dpop_ok = ground arith

    module _ (proof : Option DpopProof) (p : (check_dpop P X o db).0 ≡ ok proof) where
      device_ne_err : (x : Error) → (associate_device P X t u o fp (jwk_of proof) db).0 ≢ err x
      unfolding issue_tokens_and_session get_required_tenant_id
      device_ne_err x q = ground (arith, check_dpop-state P X o db)

      module _ (device : Option String)
          (q : (associate_device P X t u o fp (jwk_of proof) db).0 ≡ ok device) where
        abbrev after_device : Db P.Table
        after_device = (associate_device P X t u o fp (jwk_of proof) db).1

        open_ne_err : (x : Error) → (open_session P X t u o device after_device).0 ≢ err x
        unfolding issue_tokens_and_session get_required_tenant_id
        open_ne_err x r = ground (arith, check_dpop-state P X o db)

        -- What follows on the session does not touch it.
        steps_after :
            (pair : String × String) (last : Db P.Table)
            → open_session P X t u o device after_device ≡ (ok pair, last)
            → (k.refresh_token ≡ refresh_token_of pair.0 pair.1)
              × (db'.sessions ≡ last.sessions)
              × (db'.users ≡ last.users)
        unfolding issue_tokens_and_session get_required_tenant_id
        steps_after pair last r = grind (
          arith,
          check_dpop-state P X o db,
          first_access-state,
          sessions-sign_access_token,
          create_event-state,
        )

        open_ok : Opened P X t u db db' k
        open_ok = elim (Result-cases (open_session P X t u o device after_device).0) [
          | inr (x, r) ↦ absurd (open_ne_err x r)
          | inl (pair, r) ↦
              let last = (open_session P X t u o device after_device).1 in
              let e : open_session P X t u o device after_device ≡ (ok pair, last) =
                ground (arith, r) in
              let (token, sessions, users) = steps_after pair last e in
              let (same_s, same_u) = associate_device-state t u o fp (jwk_of proof) db in
              Opened-of t u o db db' after_device last k device pair e same_s same_u
                (drawn-associate_device t u o fp (jwk_of proof) db) sessions users token
        ]

      device_ok : Opened P X t u db db' k
      device_ok = elim (Result-cases (associate_device P X t u o fp (jwk_of proof) db).0) [
        | inr (x, q) ↦ absurd (device_ne_err x q)
        | inl (device, q) ↦ open_ok device q
      ]

    -- Tokens come only with a session that is opened for the user.
    pub issue-Opened : Opened P X t u db db' k
    issue-Opened = device_ok dpop_ok.0 dpop_ok.1
