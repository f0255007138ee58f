-- ===== src/Webauthn.antt =====
-- src/modules/session/webauthn.service.ts and webauthn.controller.ts: the registration of passkeys,
-- and logins by them. @simplewebauthn/server is not part of the repository: `WebauthnServer` holds the
-- calls that the service makes of it.
pub mod Spent
pub mod Encoded
use kavachid.Base.{
  ℕ, ◌+◌, Bool, true, false, not, ◌&&◌, ◌||◌, Option, none, some, List, [], ◌∷◌, String, ◌==◌,
  truthy, or_else, Error, message, bad_request, Result, ok, err, bind, Exec, pure, throw, lift,
  gets, throw_if, rethrow, or_throw, ◌>>=◌, ◌>>◌, if◌then◌else◌,
}
use kavachid.Prisma.{Client, unordered, update, create_unique}
use kavachid.Schema.{Db, User, PasskeyCredential, draw}
use kavachid.Crypto.{Externals}
use kavachid.Tenant.{get_required_tenant_id}
use kavachid.Auth.{Request, RequestUser}
use kavachid.Session.Store.{user_key, is_named}
use kavachid.Session.Issue.{Tokens, create_session_for_user}
use kavachid.Session.Controller.{Sender}

abbrev pub rp_name : String
rp_name = "KavachID"

abbrev pub rp_id : String
rp_id = "localhost"

abbrev pub origin : String
origin = "http://localhost:8080"

-- a credential as the two option calls name it
pub record CredentialRef : Type 0 where
  pub id : String
  pub transports : List String

-- what an option call answers: the challenge, and the whole object as its text
pub record Ceremony : Type 0 where
  pub challenge : String
  pub options : String

-- the bodies of the two verifications, as far as the service reads them
pub record RegistrationResponse : Type 0 where
  pub credential : String
  pub transports : Option (List String)

pub record AuthenticationResponse : Type 0 where
  pub id : String
  pub credential : String

-- `registrationInfo.credential`
pub record NewCredential : Type 0 where
  pub id : String
  pub public_key : String
  pub counter : ℕ

-- the `credential` of `verifyAuthenticationResponse`
pub record StoredCredential : Type 0 where
  pub id : String
  pub public_key : String
  pub counter : ℕ
  pub transports : List String

pub record WebauthnServer : Type 0 where
  -- by the number of random values drawn before, and what the caller passes
  pub registration_options :
      ℕ → (rp_name rp_id user_id user_name : String) → List CredentialRef → Result Ceremony
  pub authentication_options : ℕ → (rp_id : String) → List CredentialRef → Result Ceremony
  -- `verified`, and the info that comes with it
  pub verify_registration :
      RegistrationResponse
      → (expected_challenge expected_origin expected_rp_id : String)
      → Result (Bool × Option NewCredential)
  pub verify_authentication :
      AuthenticationResponse
      → (expected_challenge expected_origin expected_rp_id : String) → StoredCredential
      → Result (Bool × Option ℕ)
  -- `JSON.parse` and `JSON.stringify` on lists of texts
  pub parse_texts : String → Result (List String)
  pub stringify_texts : List String → String
  -- `Buffer.from(s).toString('base64url')`: of the bytes of a text
  pub text_to_base64url : String → String

-- `passkey.transports ? JSON.parse(passkey.transports) : []`
abbrev pub transports_of : WebauthnServer → Option String → Result (List String)
transports_of L t = if truthy t then L.parse_texts (or_else t "") else ok []

-- `user.passkeys.map(...)`
unfoldable pub credential_refs :
    WebauthnServer → List PasskeyCredential → Result (List CredentialRef)
credential_refs L [] = ok []
credential_refs L (p ∷ rest) = bind (transports_of L p.transports) λ transports.
    bind (credential_refs L rest)
      λ refs. ok (record { id = p.credential_id; transports = transports } ∷ refs)

-- the credential that the library is given to verify against
abbrev pub stored_credential : WebauthnServer → PasskeyCredential → Result StoredCredential
stored_credential L p = bind (transports_of L p.transports) λ transports. ok (record {
  id = p.credential_id;
  public_key = p.public_key;
  counter = p.counter;
  transports = transports;
})

-- `user.currentWebAuthnChallenge` of a user who may not be there
abbrev pub challenge_of : Option User → Option String
challenge_of none = none
challenge_of (some u) = u.current_web_authn_challenge

-- the row of a new passkey
abbrev pub passkey_row :
    WebauthnServer
    → (id tenant_id user_id : String) → NewCredential
    → Option (List String)
    → PasskeyCredential
passkey_row L id tenant_id user_id info transports = record {
  id = id;
  tenant_id = tenant_id;
  user_id = user_id;
  credential_id = L.text_to_base64url info.id;
  public_key = info.public_key;
  counter = info.counter;
  transports = some (L.stringify_texts (elim transports [ none ↦ [] | some t ↦ t ]));
}

module _ (P : Client) (X : Externals) (L : WebauthnServer) where
  abbrev passkeys_of : String → String → Db P.Table → List PasskeyCredential
  passkeys_of tenant_id user_id db =
      P.find_many (λ p. p.tenant_id == tenant_id && p.user_id == user_id) unordered db.passkeys

  -- `user.update` of the challenge
  unfoldable pub set_challenge : String → String → Option String → Exec (Db P.Table) (Unit {0})
  set_challenge tenant_id user_id challenge db =
      elim (update P (user_key tenant_id user_id)
        (λ u. record u { current_web_authn_challenge = challenge }) db.users) [
          | ok t ↦ (ok tt, record db { users = t })
          | err e ↦ (err e, db)
        ]

  -- an option call of the library, which draws the challenge
  abbrev ceremony : (ℕ → Result Ceremony) → Exec (Db P.Table) Ceremony
  ceremony call db = (call db.drawn, record db { drawn = db.drawn + 1 })

  -- `generateRegistrationOptions`
  unfoldable pub generate_registration_options : String → String → Exec (Db P.Table) Ceremony
  generate_registration_options tenant_id user_id = do
    found ← gets λ db. P.find_first (user_key tenant_id user_id) db.users
    user ← or_throw found (bad_request "User not found")
    passkeys ← gets (passkeys_of tenant_id user.id)
    refs ← lift (credential_refs L passkeys)
    options ← ceremony λ n.
        L.registration_options n rp_name rp_id user.id
          (or_else user.email (or_else user.username "user")) refs
    set_challenge tenant_id user_id (some options.challenge)
    pure options

  -- `passkeyCredential.create`, under the unique credential id
  unfoldable pub create_passkey :
      String → String → NewCredential → Option (List String) → Exec (Db P.Table) (Unit {0})
  create_passkey tenant_id user_id info transports = do
    id ← draw X.uuid
    λ db.
        let row = passkey_row L id tenant_id user_id info transports in
        elim (create_unique P (λ p. p.credential_id == row.credential_id) row db.passkeys) [
          | ok t ↦ (ok tt, record db { passkeys = t })
          | err e ↦ (err e, db)
        ]

  -- what follows a registration that the library has answered for
  unfoldable pub end_registration :
      String → String → Option (List String) → Bool × Option NewCredential → Exec (Db P.Table) Bool
  end_registration tenant_id user_id transports (true, some info) = do
    create_passkey tenant_id user_id info transports
    set_challenge tenant_id user_id none
    pure true
  end_registration tenant_id user_id transports _ = throw (bad_request "Verification failed")

  -- `verifyRegistrationResponse`
  unfoldable pub verify_registration_response :
      String → String → RegistrationResponse → Exec (Db P.Table) Bool
  verify_registration_response tenant_id user_id body = do
    found ← gets λ db. P.find_first (user_key tenant_id user_id) db.users
    throw_if (not (truthy (challenge_of found))) (bad_request "User or challenge not found")
    verification ←
        rethrow (lift (L.verify_registration body (or_else (challenge_of found) "") origin rp_id))
          (λ e. bad_request (message e))
    end_registration tenant_id user_id body.transports verification

  -- `generateAuthenticationOptions`
  unfoldable pub generate_authentication_options : String → String → Exec (Db P.Table) Ceremony
  generate_authentication_options tenant_id identifier = do
    found ← gets λ db. P.find_first (is_named tenant_id identifier) db.users
    user ← or_throw found (bad_request "User not found")
    passkeys ← gets (passkeys_of tenant_id user.id)
    refs ← lift (credential_refs L passkeys)
    options ← ceremony λ n. L.authentication_options n rp_id refs
    set_challenge tenant_id user.id (some options.challenge)
    pure options

  -- `passkeyCredential.update` of the counter
  unfoldable pub set_counter : String → ℕ → Exec (Db P.Table) (Unit {0})
  set_counter id counter db =
      elim (update P (λ p. p.id == id) (λ p. record p { counter = counter }) db.passkeys) [
        | ok t ↦ (ok tt, record db { passkeys = t })
        | err e ↦ (err e, db)
      ]

  -- `!passkey || passkey.userId !== user.id`
  abbrev pub owned_passkey : String → Option PasskeyCredential → Option PasskeyCredential
  owned_passkey user_id none = none
  owned_passkey user_id (some p) = if p.user_id == user_id then some p else none

  -- what follows an assertion that the library has answered for
  unfoldable pub end_authentication :
      Option String
      → String
      → User
      → PasskeyCredential
      → Option String
      → String
      → String
      → Option String
      → Bool × Option ℕ
      → Exec (Db P.Table) Tokens
  end_authentication tenant tenant_id user passkey dpop ip agent client_id (true, some counter) = do
    set_counter passkey.id counter
    set_challenge tenant_id user.id none
    create_session_for_user P X tenant user dpop ip agent client_id
  end_authentication tenant tenant_id user passkey dpop ip agent client_id _ =
      throw (bad_request "Verification failed")

  -- the user and the passkey that an assertion is checked against
  unfoldable pub find_passkey :
      String → String → AuthenticationResponse → Exec (Db P.Table) (User × PasskeyCredential)
  find_passkey tenant_id identifier body = do
    found ← gets λ db. P.find_first (is_named tenant_id identifier) db.users
    throw_if (not (truthy (challenge_of found))) (bad_request "User or challenge not found")
    user ← or_throw found (bad_request "User or challenge not found")
    credential ← gets λ db. P.find_first (λ p. p.credential_id == body.id) db.passkeys
    passkey ← or_throw (owned_passkey user.id credential) (bad_request "Passkey not found")
    pure (user, passkey)

  -- the `try` around the library's check of an assertion
  unfoldable pub check_assertion :
      AuthenticationResponse → User → PasskeyCredential → Result (Bool × Option ℕ)
  check_assertion body user passkey =
      bind (stored_credential L passkey)
        (L.verify_authentication body (or_else user.current_web_authn_challenge "") origin rp_id)

  -- `verifyAuthenticationResponse`; the session service has the tenant of the request
  unfoldable pub verify_authentication_response :
      Option String
      → String
      → String
      → AuthenticationResponse
      → Option String
      → String
      → String
      → Option String
      → Exec (Db P.Table) Tokens
  verify_authentication_response tenant tenant_id identifier body dpop ip agent client_id = do
    found ← find_passkey tenant_id identifier body
    verification ←
        rethrow (lift (check_assertion body found.0 found.1)) (λ e. bad_request (message e))
    end_authentication tenant tenant_id found.0 found.1 dpop ip agent client_id verification

  -- the handlers of the controller; `sub` is the user that the bearer guard has bound
  unfoldable pub register_options_route : Option String → RequestUser → Exec (Db P.Table) Ceremony
  register_options_route tenant user = do
    tenant_id ← lift (get_required_tenant_id tenant)
    generate_registration_options tenant_id (or_else user.sub "")

  unfoldable pub register_verify_route :
      Option String → RequestUser → RegistrationResponse → Exec (Db P.Table) Bool
  register_verify_route tenant user body = do
    tenant_id ← lift (get_required_tenant_id tenant)
    verify_registration_response tenant_id (or_else user.sub "") body

  unfoldable pub login_options_route : Option String → String → Exec (Db P.Table) Ceremony
  login_options_route tenant identifier = do
    tenant_id ← lift (get_required_tenant_id tenant)
    generate_authentication_options tenant_id identifier

  unfoldable pub login_verify_route :
      Option String
      → Sender
      → Option String
      → String
      → AuthenticationResponse
      → Option String
      → Exec (Db P.Table) Tokens
  login_verify_route tenant sender dpop identifier body client_id = do
    tenant_id ← lift (get_required_tenant_id tenant)
    verify_authentication_response tenant tenant_id identifier body dpop
        (or_else sender.ip "0.0.0.0") (or_else sender.user_agent "Unknown") client_id
