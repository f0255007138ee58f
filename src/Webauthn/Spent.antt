-- ===== src/Webauthn/Spent.antt =====
-- Whom a login by a passkey is for, and that its challenge is spent.
use kavachid.Base.{
  ◌≡◌, ◌≤◌, ℕ, refl, sym, ap, ◌∙◌, Bool, true, false, not, ◌&&◌, Option, none, some, String, ◌==◌,
  eq_iff, eq_refl, truthy, present, bad_request, ok, err, Result-cases, Option-cases, Bool-cases,
  inl, inr, arith,
}
use kavachid.Prisma.{Client}
use kavachid.Prisma.Laws.{count_mono, count_only}
use kavachid.Schema.{Db, User, PasskeyCredential}
use kavachid.Crypto.{Externals}
use kavachid.Session.Store.{user_key, is_named}
use kavachid.Session.Issue.{Tokens, create_session_for_user, webauthn_origin}
use kavachid.Session.Issue.Opened.{Opened, issue-Opened}
use kavachid.Webauthn.{
  WebauthnServer, AuthenticationResponse, challenge_of, set_challenge, set_counter,
  end_authentication, find_passkey, check_assertion, verify_authentication_response,
}

-- the write that ends a ceremony
abbrev pub cleared : User → User
cleared u = record u { current_web_authn_challenge = none }

module _ (P : Client) (X : Externals) (L : WebauthnServer) where
  -- Where one user has the identifier, that user is found without a challenge after it was cleared.
  cleared_named :
      (t identifier : String) (users : P.Table User) (u : User)
      → P.find_first (is_named t identifier) users ≡ some u
      → P.count (is_named t identifier) users ≤ 1
      → truthy (
          challenge_of
            (P.find_first (is_named t identifier) (P.update_many (user_key t u.id) cleared users)))
        ≡ false
  cleared_named t identifier users u found unique =
      let named = is_named t identifier in
      let after = P.update_many (user_key t u.id) cleared users in
      elim (Option-cases (P.find_first named after)) [
        | inl missed ↦ rw missed
        | inr (v, e) ↦ elim (Bool-cases (truthy v.current_web_authn_challenge)) [
          | inr spent ↦ rw e spent
          | inl live ↦
              let (here, many) = P.find_first_found named users u found in
              let (here', many') = P.find_first_found named after v e in
              let q = λ (x : User). named x && truthy x.current_web_authn_challenge in
              let alone = count_only P named (λ x. not (user_key t u.id x)) users u found unique in
              let own : user_key t u.id u ≡ true = ground (arith, eq_refl u.id) in
              let none_left : P.count q after
                  ≤ P.count (λ x. named x && not (user_key t u.id x)) users =
                rw P.count-update_many (count_mono P _ _ users (λ x h. ground arith)) in
              let zero_left : P.count (λ x. named x && not (user_key t u.id x)) users ≡ 0 =
                rw own at alone in
              absurd (omega (arith, many' q (ground arith)))
        ]
      ]

  find_passkey_state :
      (t identifier : String) (body : AuthenticationResponse) (db : Db P.Table)
      → (find_passkey P X L t identifier body db).1 ≡ db
  unfolding find_passkey
  find_passkey_state t identifier body db = ground arith

  find_passkey_found :
      (t identifier : String) (body : AuthenticationResponse) (db : Db P.Table) (u : User)
      (p : PasskeyCredential)
      → (find_passkey P X L t identifier body db).0 ≡ ok (u, p)
      → (P.find_first (is_named t identifier) db.users ≡ some u)
        × (truthy u.current_web_authn_challenge ≡ true)
        × (P.find_first (λ c. c.credential_id == body.id) db.passkeys ≡ some p)
        × (p.user_id ≡ u.id)
  unfolding find_passkey
  find_passkey_found t identifier body db u p h =
      elim (Option-cases (P.find_first (is_named t identifier) db.users)) [
        | inl e ↦ absurd (ground (arith, e))
        | inr (v, e) ↦ elim (Bool-cases (truthy v.current_web_authn_challenge)) [
          | inr spent ↦ absurd (ground (arith, e, spent))
          | inl live ↦
              elim (Option-cases (P.find_first (λ c. c.credential_id == body.id) db.passkeys)) [
                | inl ec ↦ absurd (ground (arith, e, live, ec))
                | inr (c, ec) ↦ elim (Bool-cases (c.user_id == v.id)) [
                  | inr other ↦ absurd (ground (arith, e, live, ec, other))
                  | inl own ↦
                      let same_user : v ≡ u = ground (arith, e, live, ec, own) in
                      let same_passkey : c ≡ p = ground (arith, e, live, ec, own) in
                      (
                        e ∙ ap some same_user,
                        rw (sym same_user) live,
                        ec ∙ ap some same_passkey,
                        rw (sym same_user, sym same_passkey) ((eq_iff c.user_id v.id).0 own),
                      )
                ]
              ]
        ]
      ]

  set_challenge_users :
      (t id : String) (db : Db P.Table)
      → (set_challenge P X L t id none db).0 ≡ ok tt
      → (set_challenge P X L t id none db).1.users ≡ P.update_many (user_key t id) cleared db.users
  unfolding set_challenge
  set_challenge_users t id db h = ground arith

  set_counter_users :
      (id : String) (n : ℕ) (db : Db P.Table) → (set_counter P X L id n db).1.users ≡ db.users
  unfolding set_counter
  set_counter_users id n db = ground arith

  -- The end of a login by a passkey: a session is opened for the user, whose challenge is cleared.
  end_authentication-Opened :
      (t : String) (u : User) (p : PasskeyCredential) (dpop : Option String) (ip agent : String)
      (client_id : Option String) (n : ℕ) (db db' : Db P.Table) (k : Tokens)
      → present t ≡ true
      → end_authentication P X L (some t) t u p dpop ip agent client_id (true, some n) db
        ≡ (ok k, db')
      → (db1 : Db P.Table) × Opened P X t u.id db1 db' k
        × (db'.users ≡ P.update_many (user_key t u.id) cleared db.users)
  unfolding end_authentication
  end_authentication-Opened t u p dpop ip agent client_id n db db' k ht h =
      let counted = set_counter P X L p.id n db in
      let cleared_run = set_challenge P X L t u.id none counted.1 in
      elim (Result-cases counted.0) [
        | inr (x, e) ↦ absurd (ground (arith, e))
        | inl (v, e) ↦ elim (Result-cases cleared_run.0) [
          | inr (x, e') ↦ absurd (ground (arith, e, e'))
          | inl (w, e') ↦
              let last : create_session_for_user P X (some t) u dpop ip agent client_id
                    cleared_run.1
                  ≡ (ok k, db') =
                ground (arith, e, e') in
              let opened =
                issue-Opened P X t u.id u.email u.username (webauthn_origin dpop ip agent client_id)
                  none cleared_run.1 db' k ht (unfold create_session_for_user in last) in
              (
                cleared_run.1,
                opened,
                opened.users
                    ∙ set_challenge_users t u.id counted.1 e'
                    ∙ ap (P.update_many (user_key t u.id) cleared) (set_counter_users p.id n db),
              )
        ]
      ]

  end_authentication_verified :
      (tenant : Option String) (t : String) (u : User) (p : PasskeyCredential)
      (dpop : Option String) (ip agent : String) (client_id : Option String) (v : Bool × Option ℕ)
      (db db' : Db P.Table) (k : Tokens)
      → end_authentication P X L tenant t u p dpop ip agent client_id v db ≡ (ok k, db')
      → (n : ℕ) × (v ≡ (true, some n))
  unfolding end_authentication
  end_authentication_verified tenant t u p dpop ip agent client_id (true, some n) db db' k h =
      (n, refl)
  end_authentication_verified tenant t u p dpop ip agent client_id (true, none) db db' k h =
      absurd (ground arith)
  end_authentication_verified tenant t u p dpop ip agent client_id (false, i) db db' k h =
      absurd (ground arith)

  -- No attempt is made without a challenge.
  no_challenge :
      (tenant : Option String) (t identifier : String) (body : AuthenticationResponse)
      (dpop : Option String) (ip agent : String) (client_id : Option String) (db : Db P.Table)
      → truthy (challenge_of (P.find_first (is_named t identifier) db.users)) ≡ false
      → (verify_authentication_response P X L tenant t identifier body dpop ip agent client_id db).0
        ≡ err (bad_request "User or challenge not found")
  unfolding verify_authentication_response find_passkey
  no_challenge tenant t identifier body dpop ip agent client_id db h = ground (arith, h)

  -- The steps of an attempt that goes through.
  steps_taken :
      (tenant : Option String) (t identifier : String) (body : AuthenticationResponse)
      (dpop : Option String) (ip agent : String) (client_id : Option String) (db db' : Db P.Table)
      (k : Tokens)
      → verify_authentication_response P X L tenant t identifier body dpop ip agent client_id db
        ≡ (ok k, db')
      → (u : User) × (p : PasskeyCredential) × (v : Bool × Option ℕ) × ((find_passkey P X L t
            identifier body db).0
          ≡ ok (u, p))
        × (check_assertion P X L body u p ≡ ok v)
        × (end_authentication P X L tenant t u p dpop ip agent client_id v db ≡ (ok k, db'))
  unfolding verify_authentication_response
  steps_taken tenant t identifier body dpop ip agent client_id db db' k h =
      let kept = find_passkey_state t identifier body db in
      elim (Result-cases (find_passkey P X L t identifier body db).0) [
        | inr (x, e) ↦ absurd (ground (arith, e))
        | inl ((u, p), e) ↦ elim (Result-cases (check_assertion P X L body u p)) [
          | inr (x, ev) ↦ absurd (ground (arith, e, ev))
          | inl (v, ev) ↦ (u, p, v, e, ev, ground (arith, e, ev, kept))
        ]
      ]

  -- What a login by a passkey that goes through has found, checked and opened.
  pub record PasskeyLogin (t identifier : String) (body : AuthenticationResponse)
      (db db' : Db P.Table) (k : Tokens) : Type 0 where
    pub user : User
    pub passkey : PasskeyCredential
    pub counter : ℕ
    pub named : P.find_first (is_named t identifier) db.users ≡ some user
    pub known : P.find_first (λ c. c.credential_id == body.id) db.passkeys ≡ some passkey
    pub own : passkey.user_id ≡ user.id
    pub challenged : truthy user.current_web_authn_challenge ≡ true
    pub verified : check_assertion P X L body user passkey ≡ ok (true, some counter)
    pub before : Db P.Table
    pub opened : Opened P X t user.id before db' k

  -- A login by a passkey that goes through was for the user whom the identifier finds, with a passkey
  -- of that user, which the library has verified against the stored challenge; it opens a session of
  -- the user; and where no other user of the tenant has the identifier, every further attempt with
  -- it is refused for want of a challenge, whatever it brings.
  pub challenge_spent :
      (t identifier : String) (body : AuthenticationResponse) (dpop : Option String)
      (ip agent : String) (client_id : Option String) (db db' : Db P.Table) (k : Tokens)
      → present t ≡ true
      → P.count (is_named t identifier) db.users ≤ 1
      → verify_authentication_response P X L (some t) t identifier body dpop ip agent client_id db
        ≡ (ok k, db')
      → PasskeyLogin t identifier body db db' k
        × ((body' : AuthenticationResponse) (dpop' : Option String) (ip' agent' : String)
              (client_id' : Option String)
            → (verify_authentication_response P X L
                (some t)
                t
                identifier
                body'
                dpop'
                ip'
                agent'
                client_id'
                db').0
              ≡ err (bad_request "User or challenge not found"))
  challenge_spent t identifier body dpop ip agent client_id db db' k ht unique h =
      let (u, p, v, e, ev, last) =
        steps_taken (some t) t identifier body dpop ip agent client_id db db' k h in
      let (named, live, known, own) = find_passkey_found t identifier body db u p e in
      let (n, is) =
        end_authentication_verified (some t) t u p dpop ip agent client_id v db db' k last in
      let (db1, opened, users) =
        end_authentication-Opened t u p dpop ip agent client_id n db db' k ht (rw is at last) in
      (
        record {
          user = u;
          passkey = p;
          counter = n;
          named = named;
          known = known;
          own = own;
          challenged = live;
          verified = rw is at ev;
          before = db1;
          opened = opened;
        },
        λ body' dpop' ip' agent' client_id'.
            no_challenge (some t) t identifier body' dpop' ip' agent' client_id' db'
              (rw users (cleared_named t identifier db.users u named unique)),
      )
