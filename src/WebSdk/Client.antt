-- ===== src/WebSdk/Client.antt =====
-- sdks/kavach-web/src/index.ts: `KavachClient`. Its storage is any `StorageProvider`; its server and
-- network are any function from the calls so far to answers.
pub mod Frames
pub mod Tokens
pub mod Retried
pub mod Passkey
use Prim.Native.String
use kavachid.Base.{
  ℕ, ◌≤◌, Bool, true, false, not, ◌&&◌, Option, none, some, List, [], ◌∷◌, String, ◌==◌, leb,
  nat_eq, ends_with, starts_with, truthy, or_else, template, plain, Result, ok, err, Exec, pure,
  throw, lift, gets, modify, throw_if, rethrow, attempt, when, ◌>>=◌, ◌>>◌, if◌then◌else◌,
}
use kavachid.Schema.{Fields, Json, text}
use kavachid.WebSdk.Storage.{StorageProvider, Entries, entry, put_entry}
use kavachid.WebSdk.Platform.{WebCrypto, Network, Browser, Body, Response, Call}
use kavachid.WebSdk.Dpop.{create_proof, ensure_key}

-- Where a member of a JSON object is undefined, the object has no such member: `text none`.

-- `KavachClientOptions`, without the mode of the single sign-on, which only callers read
pub record Options : Type 0 where
  pub server_url : String
  pub tenant_id : String
  pub client_id : Option String

-- the text without its last character
unfoldable pub drop_last : String → String
drop_last String.[] = ""
drop_last (String.◌∷◌ c String.[]) = ""
drop_last (String.◌∷◌ c (String.◌∷◌ d s)) = String.◌∷◌ c (drop_last (String.◌∷◌ d s))

-- the constructor's `serverUrl`, without a slash at its end
abbrev pub trim_slash : String → String
trim_slash url = if ends_with url "/" then drop_last url else url

abbrev pub options_of : String → String → Option String → Options
options_of server_url tenant_id client_id = record {
  server_url = trim_slash server_url;
  tenant_id = tenant_id;
  client_id = client_id;
}

-- `getFullUrl`
abbrev pub get_full_url : Options → String → String
get_full_url o path = if starts_with path "http" then path else template (o.server_url ∷ path ∷ [])

-- `response.ok`
abbrev pub is_ok : Response → Bool
is_ok r = leb 200 r.status && leb r.status 299

-- the keys of the two tokens
abbrev pub access_key : String
access_key = "kavach_access_token"

abbrev pub refresh_key : String
refresh_key = "kavach_refresh_token"

-- `RequestInit`, as far as callers give it
pub record Init : Type 0 where
  pub method : Option String
  pub headers : Entries
  pub content : Option Fields

-- `headers.set`
abbrev pub set_header : String → String → Entries → Entries
set_header k v = put_entry (entry k v)

-- the headers of the calls that send JSON, without and with a proof
abbrev pub json_headers : Options → Entries
json_headers o = entry "content-type" "application/json" ∷ entry "x-tenant-id" o.tenant_id ∷ []

abbrev pub proof_headers : Options → String → Entries
proof_headers o proof =
    entry "content-type" "application/json"
    ∷ entry "x-tenant-id" o.tenant_id
    ∷ entry "dpop" proof
    ∷ []

module _ (P : StorageProvider) (W : WebCrypto) (N : Network) (o : Options) where
  abbrev pub Run : Type 0 → Type 0
  Run A = Exec (Browser P.Store) A

  -- `fetch`: the call is made, whatever comes back
  unfoldable pub fetch : Call → Run Response
  fetch call s = (N.answer s.sent call, record s { sent = call ∷ s.sent })

  -- `getAccessToken`, `getRefreshToken`
  abbrev pub get_access_token : Run (Option String)
  get_access_token = gets λ s. P.get_item access_key s.storage

  abbrev pub get_refresh_token : Run (Option String)
  get_refresh_token = gets λ s. P.get_item refresh_key s.storage

  -- the two tokens are stored, or removed
  unfoldable pub save_tokens : Body → Run (Unit {0})
  save_tokens body = modify λ s. record s {
    storage =
        P.set_item refresh_key body.refresh_token
          (P.set_item access_key body.access_token s.storage);
  }

  unfoldable pub remove_tokens : Run (Unit {0})
  remove_tokens =
      modify
        λ s. record s { storage = P.remove_item refresh_key (P.remove_item access_key s.storage) }

  -- `const errorData = await response.json(); throw new Error(errorData.message || '...')`
  abbrev pub fail_with : {A : Type 0} → Response → String → Run A
  fail_with response reason = do
    body ← lift response.json
    throw (plain (or_else body.error_message reason))

  -- a call that sends JSON, with a proof for it
  unfoldable pub post_signed : String → Fields → Run Response
  post_signed url content = do
    proof ← create_proof W "POST" url
    fetch (record {
      url = url;
      method = "POST";
      headers = proof_headers o proof;
      content = some content;
    })

  -- the end of `login`, `loginWithPasskey` and `refresh`: the tokens of a good answer are stored
  unfoldable pub take_tokens : Response → Run Body
  take_tokens response = do body ← lift response.json; save_tokens body; pure body

  -- `register`
  unfoldable pub register : Option String → Option String → Option String → Option String → Run Body
  register email password username metadata = do
    response ← fetch (record {
      url = get_full_url o "/users/register";
      method = "POST";
      headers = json_headers o;
      content = some (
          ("email", text email)
          ∷ ("password", text password)
          ∷ ("username", text username)
          ∷ ("metadata", text metadata)
          ∷ []);
    })
    if is_ok response then lift response.json else fail_with response "Registration failed"

  -- `login`
  unfoldable pub login : String → String → String → Run Body
  login identifier password fingerprint = do
    ensure_key W
    response ← post_signed (get_full_url o "/auth/login") (
        ("identifier", text (some identifier))
        ∷ ("password", text (some password))
        ∷ ("fingerprint", text (some fingerprint))
        ∷ ("clientId", text o.client_id)
        ∷ [])
    if is_ok response then take_tokens response else fail_with response "Login failed"

  -- the part of `refresh` behind the answer
  unfoldable pub end_refresh : Response → Run Body
  end_refresh response =
      if is_ok response
      then take_tokens response
      else (do remove_tokens; fail_with response "Session refresh failed")

  -- `refresh`
  unfoldable pub refresh : Run Body
  refresh = do
    token ← get_refresh_token
    throw_if (not (truthy token)) (plain "No refresh token available")
    response ←
        post_signed (get_full_url o "/auth/refresh")
          (("refreshToken", text token) ∷ ("clientId", text o.client_id) ∷ [])
    end_refresh response

  -- `logout`
  unfoldable pub logout : Run (Unit {0})
  logout = do
    token ← get_refresh_token
    when (truthy token) (do
      proof ← create_proof W "POST" (get_full_url o "/auth/logout")
      attempt (do
        fetch (record {
          url = get_full_url o "/auth/logout";
          method = "POST";
          headers = proof_headers o proof;
          content = some (("refreshToken", text token) ∷ []);
        })
        pure tt)
      remove_tokens)

  -- one signed call of `authenticatedFetch`, with the headers of the caller below its own
  unfoldable pub signed_fetch : Option String → String → String → Init → Run Response
  signed_fetch token url method init = do
    proof ← create_proof W method url
    fetch (record {
      url = url;
      method = method;
      headers = set_header "dpop" proof (
          set_header "authorization" (template ("Bearer " ∷ or_else token "null" ∷ []))
            (set_header "x-tenant-id" o.tenant_id init.headers));
      content = init.content;
    })

  -- the `try` of `authenticatedFetch`
  unfoldable pub refresh_and_retry : String → String → Init → Run Response
  refresh_and_retry url method init = do
    body ← refresh
    signed_fetch (some body.access_token) url method init

  -- `authenticatedFetch`
  unfoldable pub authenticated_fetch : String → Init → Run Response
  authenticated_fetch path init = do
    let url = get_full_url o path
    let method = or_else init.method "GET"
    token ← get_access_token
    throw_if (not (truthy token)) (plain "No access token available. Please log in first.")
    response ← signed_fetch token url method init
    if nat_eq response.status 401
        then rethrow (refresh_and_retry url method init)
            (λ _. plain "Session expired. Please log in again.")
        else pure response

  -- a call with no more than its method
  abbrev pub of_method : String → Init
  of_method method = record { method = some method; headers = []; content = none }

  -- an authenticated call whose answer must be good: `getProfile`, `getSessions`, `getDevices`
  abbrev fetch_ok : String → Init → String → Run Response
  fetch_ok path init reason = do
    response ← authenticated_fetch path init
    throw_if (not (is_ok response)) (plain reason)
    pure response

  unfoldable pub get_profile : Run Body
  get_profile = do
    response ← fetch_ok "/auth/me" (of_method "GET") "Failed to fetch profile"
    lift response.json

  unfoldable pub get_sessions : Run Body
  get_sessions = do
    response ← fetch_ok "/auth/sessions" (of_method "GET") "Failed to fetch sessions"
    lift response.json

  unfoldable pub get_devices : Run Body
  get_devices = do
    response ← fetch_ok "/auth/devices" (of_method "GET") "Failed to fetch devices"
    lift response.json

  -- `recordSsoConsent`
  unfoldable pub record_sso_consent : Run (Unit {0})
  record_sso_consent = when (truthy o.client_id) (do
    token ← get_refresh_token
    when (truthy token) (
        attempt (do
          authenticated_fetch "/auth/sso-consent" (record {
            method = some "POST";
            headers = entry "content-type" "application/json" ∷ [];
            content = some (("refreshToken", text token) ∷ ("clientId", text o.client_id) ∷ []);
          })
          pure tt)))

  -- `logoutAll`
  unfoldable pub logout_all : Run (Unit {0})
  logout_all = do
    attempt (do authenticated_fetch "/auth/sessions/all" (of_method "DELETE"); pure tt)
    remove_tokens

  -- `revokeSession`
  unfoldable pub revoke_session : String → Run (Unit {0})
  revoke_session session_id = do
    fetch_ok (template ("/auth/sessions/" ∷ session_id ∷ [])) (of_method "DELETE")
        "Failed to revoke session"
    pure tt
