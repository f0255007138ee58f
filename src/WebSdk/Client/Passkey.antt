-- ===== src/WebSdk/Client/Passkey.antt =====
-- `registerPasskey` and `loginWithPasskey` of sdks/kavach-web/src/index.ts
use kavachid.Base.{
  not, some, [], ◌∷◌, String, plain, Exec, lift, throw_if, ◌>>=◌, ◌>>◌, if◌then◌else◌,
}
use kavachid.Schema.{text}
use kavachid.WebSdk.Storage.{StorageProvider, entry}
use kavachid.WebSdk.Platform.{WebCrypto, Network, Browser, Body}
use kavachid.WebSdk.Dpop.{ensure_key}
use kavachid.WebSdk.Client.{
  Options, get_full_url, is_ok, json_headers, of_method, fetch, fail_with, post_signed, take_tokens,
  authenticated_fetch,
}

module _ (P : StorageProvider) (W : WebCrypto) (N : Network) (o : Options) where
  unfoldable pub register_passkey : Exec (Browser P.Store) (Unit {0})
  register_passkey = do
    response ←
        authenticated_fetch P W N o "/auth/webauthn/register-options" (of_method P W N o "POST")
    throw_if (not (is_ok response)) (plain "Failed to get registration options")
    options ← lift response.json
    attestation ← lift (N.start_registration options)
    verified ← authenticated_fetch P W N o "/auth/webauthn/register-verify" (record {
      method = some "POST";
      headers = entry "content-type" "application/json" ∷ [];
      content = some attestation;
    })
    throw_if (not (is_ok verified)) (plain "Failed to verify passkey registration")

  -- The members of the assertion stand behind those that name the caller.
  unfoldable pub login_with_passkey : String → String → Exec (Browser P.Store) Body
  login_with_passkey identifier fingerprint = do
    response ← fetch P W N o (record {
      url = get_full_url o "/auth/webauthn/login-options";
      method = "POST";
      headers = json_headers o;
      content = some (("identifier", text (some identifier)) ∷ []);
    })
    throw_if (not (is_ok response)) (plain "Failed to get login options")
    options ← lift response.json
    assertion ← lift (N.start_authentication options)
    ensure_key W
    verified ← post_signed P W N o (get_full_url o "/auth/webauthn/login-verify") (
        ("identifier", text (some identifier))
        ∷ ("fingerprint", text (some fingerprint))
        ∷ ("clientId", text o.client_id)
        ∷ assertion)
    if is_ok verified
        then take_tokens P W N o verified
        else fail_with P W N o verified "Passkey login failed"
