-- ===== src/Session/Login/Refreshed.antt =====
-- The refresh token that a login hands out is taken by `refresh`.
use kavachid.Base.{Error, ◌≢◌}
use kavachid.Session.Store.{is_named}
use kavachid.Session.Issue.{issue_tokens_and_session}
use kavachid.Session.Login.Checks.{HasCredentials, authenticate_iff}
use kavachid.Base.{
  ℕ, ◌≤◌, ◌≡◌, refl, true, false, not, Option, some, is_some, String, ◌==◌, eq_refl, eq_iff,
  present, free_of, split-join, arith, ok, err, Result-cases, inl, inr,
}
use kavachid.Prisma.{Client}
use kavachid.Prisma.Laws.{count-create_self, created_found, created_same}
use kavachid.Schema.{Db, User, Session}
use kavachid.Crypto.{Externals}
use kavachid.Tenant.{get_required_tenant_id}
use kavachid.Session.Store.{has_key, user_key, log_attempt}
use kavachid.Session.Issue.{Tokens, Origin}
use kavachid.Session.Issue.Opened.{Opened, issue-Opened}
use kavachid.Session.Refresh.{Presents, refresh, renew}
use kavachid.Session.Refresh.Reuse.{refresh_cases}
use kavachid.Session.Login.{check_user, authenticate, login}

-- What is documented of the generated texts: no colon in a UUID nor in hexadecimal digits, and
-- the UUIDs still to come are not in the table.
pub record IsFresh (P : Client) (X : Externals) (t : String) (db : Db P.Table) : Type 0 where
  pub uuid_plain : (n : ℕ) → free_of b':' (X.uuid n) ≡ true
  pub hex_plain : (n : ℕ) → free_of b':' (X.random_hex n) ≡ true
  pub unused : (n : ℕ) → db.drawn ≤ n → P.count (has_key t (X.uuid n)) db.sessions ≡ 0

module _ (P : Client) (X : Externals) where
  -- A session that was just opened meets the conditions of `refresh`.
  pub Opened-refresh :
      (t : String) (o : Origin) (db db' : Db P.Table) (u : User) (k : Tokens)
      → present t ≡ true
      → IsFresh P X t db
      → P.find_first (user_key t u.id) db.users ≡ some u
      → Opened P X t u.id db db' k
      → (sid : String) × (s : Session) × (s.user_id ≡ u.id)
        × (refresh P X (some t) k.refresh_token o db' ≡ renew P X t sid s u o db')
  Opened-refresh t o db db' u k ht fresh known w =
      let sid = X.uuid w.uuid_draw in
      let tok = X.random_hex w.hex_draw in
      let key = has_key t sid in
      let free = fresh.unused w.uuid_draw w.drawn_later in
      let here : key w.row ≡ true = rw (w.row_tenant, w.row_id, eq_refl t, eq_refl sid) refl in
      let (s, found) = created_found P key db.sessions w.row here free in
      let owner =
        created_same P key db.sessions w.row here free (λ x. x.user_id == u.id) s found
          (rw w.row_user (eq_refl u.id)) in
      let live =
        created_same P key db.sessions w.row here free (λ x. not (is_some x.revoked_at)) s found
          (rw w.row_live) in
      let hash =
        created_same P key db.sessions w.row here free (λ x. x.refresh_ver_hash == X.sha256 tok) s
          found (rw w.row_hash (eq_refl (X.sha256 tok))) in
      let user = (eq_iff s.user_id u.id).0 owner in
      let alive : is_some s.revoked_at ≡ false = ground arith in
      let h : Presents P t k.refresh_token db' sid tok s u = record {
        tenant_given = ht;
        parts =
            rw w.token (split-join b':' ":" sid tok refl (fresh.uuid_plain _) (fresh.hex_plain _));
        session_found = rw w.stored found;
        session_unique =
            rw w.stored (omega (arith, count-create_self P key db.sessions w.row here free));
        user_found = rw (user, w.users) known;
      } in
      (sid, s, user, rw (refresh_cases P X t k.refresh_token o db' sid tok s u h, alive, hash))

  authenticate-state :
      (t ip ident pw : String) (db : Db P.Table)
      → let mid = (authenticate P X (some t) ip ident pw db).1 in
        (mid.sessions ≡ db.sessions) × (mid.users ≡ db.users) × (db.drawn ≤ mid.drawn)
  unfolding authenticate check_user get_required_tenant_id log_attempt
  authenticate-state t ip ident pw db = ground arith

  authenticate_ne_err :
      (t ident pw : String) (o : Origin) (fp : Option String) (db db' : Db P.Table) (k : Tokens)
      (x : Error)
      → login P X (some t) ident pw o fp db ≡ (ok k, db')
      → (authenticate P X (some t) o.ip_address ident pw db).0 ≢ err x
  unfolding login
  authenticate_ne_err t ident pw o fp db db' k x h e = ground arith

  login-issue :
      (t ident pw : String) (o : Origin) (fp : Option String) (db db' : Db P.Table) (k : Tokens)
      (u : User)
      → login P X (some t) ident pw o fp db ≡ (ok k, db')
      → (authenticate P X (some t) o.ip_address ident pw db).0 ≡ ok u
      → issue_tokens_and_session P X
          (some t)
          u.id
          u.email
          u.username
          o
          fp
          (authenticate P X (some t) o.ip_address ident pw db).1
        ≡ (ok k, db')
  unfolding login
  login-issue t ident pw o fp db db' k u h e = ground arith

  -- A login that goes through is of a user who is found by the identifier, is not locked and has
  -- the credentials, and its refresh token goes the way of a good token in the next `refresh`, for
  -- a session of that user. The user ids are taken to be unique, and the generated texts fresh.
  pub login-refresh :
      (t ident pw : String) (o o' : Origin) (fp : Option String) (db db' : Db P.Table) (k : Tokens)
      → present t ≡ true
      → IsFresh P X t db
      → ((u : User)
          → P.find_first (is_named t ident) db.users ≡ some u
          → P.find_first (user_key t u.id) db.users ≡ some u)
      → login P X (some t) ident pw o fp db ≡ (ok k, db')
      → (u : User) × (sid : String) × (s : Session) × (P.find_first (is_named t ident) db.users
          ≡ some u)
        × ((u.status == "LOCKED") ≡ false)
        × HasCredentials P X pw u
        × (s.user_id ≡ u.id)
        × (refresh P X (some t) k.refresh_token o' db' ≡ renew P X t sid s u o' db')
  login-refresh t ident pw o o' fp db db' k ht fresh keys h =
      elim (Result-cases (authenticate P X (some t) o.ip_address ident pw db).0) [
        | inr (x, e) ↦ absurd (authenticate_ne_err t ident pw o fp db db' k x h e)
        | inl (u, e) ↦
            let mid = (authenticate P X (some t) o.ip_address ident pw db).1 in
            let (sessions, users, later) = authenticate-state t o.ip_address ident pw db in
            let (found, unlocked, good) =
              (authenticate_iff P X t o.ip_address ident pw u db ht).0 e in
            let w =
              issue-Opened P X t u.id u.email u.username o fp mid db' k ht
                (login-issue t ident pw o fp db db' k u h e) in
            let fresh' : IsFresh P X t mid = record {
              uuid_plain = fresh.uuid_plain;
              hex_plain = fresh.hex_plain;
              unused = λ n le. rw sessions (fresh.unused n (omega arith));
            } in
            let (sid, s, user, taken) =
              Opened-refresh t o' mid db' u k ht fresh' (rw users (keys u found)) w in
            (u, sid, s, found, unlocked, good, user, taken)
      ]
