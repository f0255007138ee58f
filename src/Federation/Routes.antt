-- ===== src/Federation/Routes.antt =====
-- src/modules/federation/: `getAuthorizationUrl` of federation.service.ts, and the handlers of
-- federation.controller.ts. The text of a state, base64 of JSON, and the URL with the tokens among its
-- parameters are parameters, and so are the client ids of the environment.
use kavachid.Base.{
  true, not, ◌||◌, ◌≡◌, Option, none, some, [], ◌∷◌, String, ◌==◌, template, or_else, present,
  truthy, bad_request, Result, ok, err, Result-cases, Bool-cases, inl, inr, arith, Exec, lift,
  throw, ◌>>=◌, if◌then◌else◌,
}
use kavachid.Prisma.{Client}
use kavachid.Schema.{Db}
use kavachid.Crypto.{Externals}
use kavachid.Federation.{Callback, handle_callback, profile_of, resolve_user}
use kavachid.Tenant.{get_required_tenant_id}
use kavachid.Session.Controller.{Sender}
use kavachid.Session.Issue.{create_session_for_user}

-- what the service and the handlers use of the environment, of `Buffer` and `JSON`, and of `URL`
pub record Environment : Type 0 where
  pub google_client_id : Option String
  pub ms_client_id : Option String
  -- the state of a `redirect_uri`, and back
  pub state_of : Option String → String
  pub redirect_of : String → Option String
  -- `new URL(uri)` with the two tokens set, as a text
  pub with_tokens : String → String → String → Result String

-- the template of both providers
abbrev pub consent_url : String → String → String → String → String
consent_url endpoint client_id callback_uri state = template (
    endpoint ∷ "?client_id=" ∷ client_id ∷ "&redirect_uri=" ∷ callback_uri
    ∷ "&response_type=code&scope=openid email profile&state=" ∷ state ∷ [])

module _ (E : Environment) where
  -- `getAuthorizationUrl`
  unfoldable pub get_authorization_url : String → Option String → Result String
  get_authorization_url provider redirect_uri =
      let state = E.state_of redirect_uri in
      if provider == "google"
      then ok (
          consent_url "https://accounts.google.com/o/oauth2/v2/auth"
            (or_else E.google_client_id "dummy-google-client-id")
            "http://localhost:3000/auth/federation/google/callback" state)
      else if provider == "microsoft"
      then ok (
          consent_url "https://login.microsoftonline.com/common/oauth2/v2.0/authorize"
            (or_else E.ms_client_id "dummy-ms-client-id")
            "http://localhost:3000/auth/federation/microsoft/callback" state)
      else err (bad_request "Provider not supported")

  -- `login`: where the browser is sent
  unfoldable pub federation_login : String → Option String → Result String
  federation_login provider redirect_uri =
      if not (provider == "google" || provider == "microsoft")
      then err (bad_request "Unsupported provider")
      else get_authorization_url provider redirect_uri

  module _ (P : Client) (X : Externals) where
    -- `callback`: where the browser is sent
    unfoldable pub federation_callback :
        Option String → Sender → String → Option String → String → Exec (Db P.Table) String
    federation_callback tenant sender provider code state =
        if not (truthy code)
        then throw (bad_request "Authorization code is missing")
        else (handle_callback P X E.redirect_of tenant provider (or_else code "") state
              (or_else sender.ip (or_else sender.remote_address "127.0.0.1"))
              (or_else sender.user_agent "unknown")
            >>= λ session.
                lift
                  (E.with_tokens session.redirect_uri session.access_token session.refresh_token))

    handle_callback-redirect :
        (tenant : Option String) (provider code state ip agent : String) (db : Db P.Table)
        (c : Callback)
        → (handle_callback P X E.redirect_of tenant provider code state ip agent db).0 ≡ ok c
        → c.redirect_uri ≡ or_else (E.redirect_of state) "http://localhost:8080/"
    unfolding handle_callback
    handle_callback-redirect tenant provider code state ip agent db c h =
        elim (Result-cases (get_required_tenant_id tenant)) [
          | inr (x, e0) ↦ absurd (ground (arith, e0))
          | inl (t, e0) ↦
              let profiled = profile_of P X E.redirect_of code db in
              elim (Result-cases profiled.0) [
                | inr (x, e1) ↦ absurd (ground (arith, e0, e1))
                | inl (profile, e1) ↦
                    let resolved = resolve_user P X E.redirect_of t provider profile profiled.1 in
                    elim (Result-cases resolved.0) [
                      | inr (x, e2) ↦ absurd (ground (arith, e0, e1, e2))
                      | inl (user, e2) ↦
                          let opened =
                            create_session_for_user P X tenant user none ip agent none resolved.1 in
                          elim (Result-cases opened.0) [
                            | inr (x, e3) ↦ absurd (ground (arith, e0, e1, e2, e3))
                            | inl (session, e3) ↦ ground (arith, e0, e1, e2, e3)
                          ]
                    ]
              ]
        ]

    -- A callback that goes through sends the tokens to the address that its state was made of, where
    -- the reading of a state inverts its writing.
    pub login_callback :
        (tenant : Option String) (sender : Sender) (provider uri location : String)
        (code : Option String) (db db' : Db P.Table)
        → present uri ≡ true
        → E.redirect_of (E.state_of (some uri)) ≡ some uri
        → federation_callback tenant sender provider code (E.state_of (some uri)) db
          ≡ (ok location, db')
        → (access refresh : String) × (E.with_tokens uri access refresh ≡ ok location)
    unfolding federation_callback handle_callback
    login_callback tenant sender provider uri location code db db' there inverse h =
        elim (Bool-cases (truthy code)) [
          | inr missing ↦ absurd (ground (arith, missing))
          | inl given ↦
              let handled =
                handle_callback P X E.redirect_of tenant provider (or_else code "")
                  (E.state_of (some uri))
                  (or_else sender.ip (or_else sender.remote_address "127.0.0.1"))
                  (or_else sender.user_agent "unknown") db in
              elim (Result-cases handled.0) [
                | inr (x, e) ↦ absurd (ground (arith, given, e))
                | inl (c, e) ↦
                    let same =
                      handle_callback-redirect tenant provider (or_else code "") _ _ _ db c e in
                    let place : c.redirect_uri ≡ uri = ground (arith, same, inverse, there) in
                    (c.access_token, c.refresh_token, ground (arith, given, e, place))
              ]
        ]
