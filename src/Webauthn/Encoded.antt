-- ===== src/Webauthn/Encoded.antt =====
-- The id under which a passkey is stored: `Buffer.from(id).toString('base64url')` encodes a text that
-- @simplewebauthn/server gives in base64url already, while a login looks for the id as it is.
use kavachid.Base.{
  ◌≡◌, ◌≢◌, ◌≤◌, refl, sym, ap, ◌∙◌, Bool, true, false, ◌&&◌, ◌⊎◌, Option, none, some, String, ◌==◌,
  eq_iff, truthy, or_else, List, bad_request, Result, ok, err, Result-cases, Option-cases,
  Bool-cases, inl, inr, arith, ◌&&◌,
}
use kavachid.Prisma.{Client}
use kavachid.Prisma.Laws.{count_found}
use kavachid.Schema.{Db, PasskeyCredential}
use kavachid.Crypto.{Externals}
use kavachid.Session.Store.{user_key, is_named}
use kavachid.Webauthn.{
  WebauthnServer, RegistrationResponse, AuthenticationResponse, NewCredential, challenge_of,
  set_challenge, passkey_row, create_passkey, end_registration, find_passkey, rp_id, origin,
  verify_registration_response, verify_authentication_response,
}

nothing_found :
    (P : Client) {R : Type 0} (q : R → Bool) (t : P.Table R)
    → P.count q t ≡ 0
    → P.find_first q t ≡ none
nothing_found P q t h = elim (Option-cases (P.find_first q t)) [
  | inl e ↦ e
  | inr (r, e) ↦ absurd (omega (arith, count_found P q t r e))
]

module _ (P : Client) (X : Externals) (L : WebauthnServer) where
  create_passkey_state :
      (t u : String) (info : NewCredential) (transports : Option (List String)) (db : Db P.Table)
      → (create_passkey P X L t u info transports db).0 ≡ ok tt
      → (row : PasskeyCredential) × (row.credential_id ≡ L.text_to_base64url info.id)
        × (row.user_id ≡ u)
        × ((create_passkey P X L t u info transports db).1.passkeys ≡ P.create row db.passkeys)
  unfolding create_passkey
  create_passkey_state t u info transports db h =
      (passkey_row L (X.uuid db.drawn) t u info transports, refl, refl, ground arith)

  set_challenge_passkeys :
      (t id : String) (c : Option String) (db : Db P.Table)
      → (set_challenge P X L t id c db).1.passkeys ≡ db.passkeys
  unfolding set_challenge
  set_challenge_passkeys t id c db = ground arith

  registered_row :
      (t u : String) (info : NewCredential) (transports : Option (List String)) (db : Db P.Table)
      → (end_registration P X L t u transports (true, some info) db).0 ≡ ok true
      → (row : PasskeyCredential) × (row.credential_id ≡ L.text_to_base64url info.id)
        × (row.user_id ≡ u)
        × ((end_registration P X L t u transports (true, some info) db).1.passkeys
            ≡ P.create row db.passkeys)
  unfolding end_registration
  registered_row t u info transports db h =
      let made = create_passkey P X L t u info transports db in
      elim (Result-cases made.0) [
        | inr (x, e) ↦ absurd (ground (arith, e))
        | inl (v, e) ↦
            let (row, id, owner, stored) = create_passkey_state t u info transports db e in
            let ran : (end_registration P X L t u transports (true, some info) db).1.passkeys
                ≡ (set_challenge P X L t u none made.1).1.passkeys =
              ground (arith, e) in
            (row, id, owner, ran ∙ set_challenge_passkeys t u none made.1 ∙ stored)
      ]

  end_of_registration :
      (t u : String) (body : RegistrationResponse) (info : NewCredential) (db : Db P.Table)
      → L.verify_registration body
          (or_else (challenge_of (P.find_first (user_key t u) db.users)) "")
          origin
          rp_id
        ≡ ok (true, some info)
      → (verify_registration_response P X L t u body db).0 ≡ ok true
      → verify_registration_response P X L t u body db
        ≡ end_registration P X L t u body.transports (true, some info) db
  unfolding verify_registration_response
  end_of_registration t u body info db verified h = ground arith

  -- An attempt with an id that no passkey is stored under.
  unknown_passkey :
      (tenant : Option String) (t identifier : String) (body : AuthenticationResponse)
      (dpop : Option String) (ip agent : String) (client_id : Option String) (db : Db P.Table)
      → P.find_first (λ c. c.credential_id == body.id) db.passkeys ≡ none
      → let answer =
          (verify_authentication_response P X L tenant t identifier body dpop ip agent client_id
            db).0 in
        (answer ≡ err (bad_request "User or challenge not found"))
        ⊎ (answer ≡ err (bad_request "Passkey not found"))
  unfolding verify_authentication_response find_passkey
  unknown_passkey tenant t identifier body dpop ip agent client_id db h =
      let found = P.find_first (is_named t identifier) db.users in
      elim (Bool-cases (truthy (challenge_of found))) [
        | inr spent ↦ inl (ground (arith, spent))
        | inl live ↦ elim (Option-cases found) [
          | inl e ↦ absurd (ground (arith, e))
          | inr (u, e) ↦ inr (ground (arith, live, e, h))
        ]
      ]

  -- A passkey that was registered cannot be used: where the library gives it an id that the encoding
  -- changes, and no other passkey was stored under that id, it is stored under the encoded id, and
  -- every later login with the id that the library has given is refused.
  pub registered_passkey_lost :
      (t u : String) (body : RegistrationResponse) (info : NewCredential) (db : Db P.Table)
      → L.verify_registration body
          (or_else (challenge_of (P.find_first (user_key t u) db.users)) "")
          origin
          rp_id
        ≡ ok (true, some info)
      → L.text_to_base64url info.id ≢ info.id
      → P.count (λ c. c.credential_id == info.id) db.passkeys ≡ 0
      → (verify_registration_response P X L t u body db).0 ≡ ok true
      → let passkeys = (verify_registration_response P X L t u body db).1.passkeys in
        (1
          ≤ P.count
              (λ c. c.credential_id == L.text_to_base64url info.id && c.user_id == u)
              passkeys)
        × ((tenant : Option String) (t' identifier credential : String) (dpop : Option String)
              (ip agent : String) (client_id : Option String) (later : Db P.Table)
            → later.passkeys ≡ passkeys
            → let answer =
                (verify_authentication_response P X L tenant t' identifier
                  (record { id = info.id; credential = credential })
                  dpop
                  ip
                  agent
                  client_id
                  later).0 in
              (answer ≡ err (bad_request "User or challenge not found"))
              ⊎ (answer ≡ err (bad_request "Passkey not found")))
  registered_passkey_lost t u body info db verified encoded fresh h =
      let ran = end_of_registration t u body info db verified h in
      let (row, id, owner, stored) =
        registered_row t u info body.transports db
          (sym (ap (λ (x : Result Bool × Db P.Table). x.0) ran) ∙ h) in
      let now_stored = ap (λ (x : Result Bool × Db P.Table). x.1.passkeys) ran ∙ stored in
      let asked = λ (c : PasskeyCredential). c.credential_id == info.id in
      let fails : asked row ≡ false = elim (Bool-cases (asked row)) [
        | inr e ↦ e
        | inl e ↦ absurd (encoded (sym id ∙ (eq_iff row.credential_id info.id).0 e))
      ] in
      let stored_id = L.text_to_base64url info.id in
      let fits : (row.credential_id == stored_id && row.user_id == u) ≡ true =
        ground (arith, (eq_iff row.credential_id stored_id).1 id, (eq_iff row.user_id u).1 owner) in
      let absent : P.count asked (P.create row db.passkeys) ≡ 0 =
        rw (P.count-create, fails) (omega arith) in
      (
        rw now_stored (rw (P.count-create, fits) (omega arith)),
        λ tenant t' identifier credential dpop ip agent client_id later same.
            unknown_passkey tenant t' identifier (record { id = info.id; credential = credential })
              dpop ip agent client_id later
              (rw (same ∙ now_stored) (nothing_found P asked (P.create row db.passkeys) absent)),
      )
