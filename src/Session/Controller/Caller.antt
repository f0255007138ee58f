-- ===== src/Session/Controller/Caller.antt =====
-- Whose sessions the routes of the session controller touch.
use kavachid.Base.{
  ◌≡◌, refl, true, false, Option, none, some, String, drop_text, or_else, present, arith,
  unauthorized, ok, err, Result-cases, Bool-cases, inl, inr, eq_iff,
}
use kavachid.Prisma.{Client}
use kavachid.Schema.{Db, Session}
use kavachid.Crypto.{Externals, Claims, verify_jwt}
use kavachid.KeyPair.{ActiveKey, get_active_key_pair}
use kavachid.Auth.{Request}
use kavachid.Session.Store.{has_key}
use kavachid.Session.Revoke.{not_owned}
use kavachid.Session.Revoke.Ended.{specific-refused}
use kavachid.Session.Controller.{
  has_bearer, claims_of_token, need_user, resolve_user_id, revoke_session_route,
}

module _ (P : Client) (X : Externals) where
  -- The active key verifies the bearer token of a request, whose subject is the user.
  pub record Speaks (r : Request) (db db' : Db P.Table) (user_id : String) : Type 0 where
    pub key : ActiveKey
    pub claims : Claims
    pub active : get_active_key_pair P X "RS256" db ≡ (ok key, db')
    pub signed :
        verify_jwt X (drop_text 7 (or_else r.authorization "")) key.public_key_pem none db'.now
        ≡ ok claims
    pub subject : or_else claims.sub "" ≡ user_id

  claims_sound :
      (token : String) (db db' : Db P.Table) (c : Claims)
      → claims_of_token P X token db ≡ (ok c, db')
      → (key : ActiveKey) × (get_active_key_pair P X "RS256" db ≡ (ok key, db'))
        × (verify_jwt X token key.public_key_pem none db'.now ≡ ok c)
  unfolding claims_of_token
  claims_sound token db db' c h = elim (Result-cases (get_active_key_pair P X "RS256" db).0) [
    | inr (x, e) ↦ absurd (ground (arith, e, h))
    | inl (key, e) ↦ (key, ground (arith, e, h), ground (arith, e, h))
  ]

  -- A request with a bearer token speaks for the subject of that token, whatever user the query
  -- names, and only if the active key verifies the token.
  pub resolve_user_id_sound :
      (r : Request) (query : Option String) (db db' : Db P.Table) (user_id : String)
      → has_bearer r ≡ true
      → resolve_user_id P X r query db ≡ (ok user_id, db')
      → Speaks r db db' user_id
  unfolding resolve_user_id need_user
  resolve_user_id_sound r query db db' user_id bearer h =
      let token = drop_text 7 (or_else r.authorization "") in
      elim (Result-cases (claims_of_token P X token db).0) [
        | inr (x, e) ↦ absurd (ground (arith, e, h, bearer))
        | inl (c, e) ↦
            let whole : claims_of_token P X token db ≡ (ok c, db') = ground (arith, e, h, bearer) in
            let (key, active, signed) = claims_sound token db db' c whole in
            record {
              key = key;
              claims = c;
              active = active;
              signed = signed;
              subject = ground (arith, e, h, bearer);
            }
      ]

  no_caller :
      (t : Option String) (r : Request) (sid : String) (db : Db P.Table)
      → has_bearer r ≡ false
      → revoke_session_route P X t r sid db
        ≡ (err (unauthorized "Authentication token or userId query parameter is required"), db)
  unfolding revoke_session_route resolve_user_id need_user
  no_caller t r sid db h = ground arith

  own_session :
      (u : String) (found : Option Session)
      → not_owned u found ≡ false
      → (s : Session) × (found ≡ some s) × (s.user_id ≡ u)
  own_session u none h = absurd (ground arith)
  own_session u (some s) h = (s, refl, (eq_iff s.user_id u).0 (ground arith))

  -- A session that was ended by its route was the caller's: the request carries a bearer token
  -- that the active key verifies, and the session is of the subject of that token.
  pub revoke_route_own :
      (t sid : String) (r : Request) (db db' : Db P.Table)
      → present t ≡ true
      → revoke_session_route P X (some t) r sid db ≡ (ok tt, db')
      → (db1 : Db P.Table) × (u : String) × (s : Session) × (has_bearer r ≡ true)
        × Speaks r db db1 u
        × (P.find_first (has_key t sid) db1.sessions ≡ some s)
        × (s.user_id ≡ u)
  unfolding revoke_session_route
  revoke_route_own t sid r db db' ht h = elim (Bool-cases (has_bearer r)) [
    | inr silent ↦ absurd (ground (arith, no_caller (some t) r sid db silent, h))
    | inl bearer ↦ elim (Result-cases (resolve_user_id P X r none db).0) [
      | inr (x, e) ↦ absurd (ground (arith, e, h))
      | inl (u, e) ↦
          let db1 = (resolve_user_id P X r none db).1 in
          let whole : resolve_user_id P X r none db ≡ (ok u, db1) = ground (arith, e) in
          let found = P.find_first (has_key t sid) db1.sessions in
          elim (Bool-cases (not_owned u found)) [
            | inl other ↦ absurd (ground (arith, e, h, specific-refused P X t u sid db1 ht other))
            | inr own ↦
                let (s, there, owner) = own_session u found own in
                (
                  db1,
                  u,
                  s,
                  bearer,
                  resolve_user_id_sound r none db db1 u bearer whole,
                  there,
                  owner,
                )
          ]
    ]
  ]
