-- ===== src/Tests/Browsers.antt =====
-- The SDK in a browser with constant keys, against a server that refuses the first access token.
use kavachid.Base.{
  ℕ, ◌≡◌, ◌≤◌, ◌+◌, ◌↔◌, refl, true, false, Option, none, some, List, [], ◌∷◌, String, ok, err,
  length, arith, same, zero, suc, if◌then◌else◌, ◌==◌, present, Error, plain, Result, eq_iff, ap,
  ◌∙◌, sym,
}
use kavachid.Prisma.InMemory.{in_memory}
use kavachid.Crypto.{Externals, clean_url, seconds, distance, verify_dpop}
use kavachid.Kse.{Decision, allow}
use kavachid.Kse
use kavachid.WebSdk.Storage.{
  Entries, memory_storage, get_memory, get_local, or_null, find_entry, entry,
}
use kavachid.WebSdk.Platform.{
  Jwk, Document, proof_header, proof_payload, CryptoKeys, WebCrypto, Body, Response, Call, Network,
  KeyManager, Browser, buffer_to_base64url,
}
use kavachid.WebSdk.Pkce.{
  text_length, is_unreserved, generate_code_verifier, generate_code_verifier_lem,
}
use kavachid.WebSdk.Dpop.{to_upper_case, token_input, compact, create_proof, ensure_key}
use kavachid.WebSdk.Dpop.Accepted.{HasKey, Interop, claims_of, create_proof-verify_dpop}
use kavachid.WebSdk.Shield.{
  KseEvaluationRequest, ExpressRequest, KseMiddlewareOptions, next, evaluation_request, kse_enforce,
}
use kavachid.WebSdk.Shield.Guarded.{as_dto, served, kse_enforce_iff}
use kavachid.WebSdk.Client.{
  Options, Init, get_full_url, is_ok, access_key, refresh_key, refresh, logout, logout_all,
  authenticated_fetch, of_method,
}
use kavachid.WebSdk.Client.Tokens.{Holds, refresh_decided, logout_forgets}
use kavachid.WebSdk.Client.Retried.{Answered, GivesTokens, authenticated_fetch-Answered}
use kavachid.Tests.Samples.{sample_externals, database}

abbrev zeros : ℕ → List ℕ
zeros zero = []
zeros (suc n) = 0 ∷ zeros n

length-zeros : (n : ℕ) → length (zeros n) ≡ n
length-zeros zero = refl
length-zeros (suc n) = omega (arith, length-zeros n)

abbrev sample_jwk : Jwk
sample_jwk = record { crv = "P-256"; kty = "EC"; x = "x"; y = "y" }

abbrev sample_pair : CryptoKeys
sample_pair = record { private_key = "private"; public_key = "public" }

abbrev sample_crypto : WebCrypto
sample_crypto = record {
  is_supported = true;
  generate_key = λ n. ok sample_pair;
  random_values = λ d n. zeros n;
  export_jwk = λ key. ok sample_jwk;
  digest = λ bytes. ok bytes;
  sign = λ key bytes. ok (1 ∷ 2 ∷ []);
  btoa = λ bytes. "a+b/c=";
  encode = λ s. 1 ∷ [];
  stringify = λ d. "json";
}

-- a server that takes only the token `new`, and gives it to a refresh
abbrev tokens : Body
tokens = record { error_message = none; access_token = "new"; refresh_token = "again" }

abbrev sample_network : Network
sample_network = record {
  answer = λ before call.
      if call.url == "http://h/auth/refresh"
      then ok (record { status = 200; json = ok tokens })
      else if same "Bearer new" (find_entry call.headers "authorization")
      then ok (record { status = 200; json = ok tokens })
      else ok (record { status = 401; json = err (plain "no body") });
  start_registration = λ body. ok [];
  start_authentication = λ body. ok [];
}

abbrev sample_options : Options
sample_options = record { server_url = "http://h"; tenant_id = "t1"; client_id = some "c1" }

-- a client with a key, an access token that the server refuses, and a refresh token
abbrev sample_browser : Browser Entries
sample_browser = record {
  storage = entry access_key "old" ∷ entry refresh_key "first" ∷ [];
  keys = record {
    key_pair = some sample_pair;
    cached_thumbprint = some "thumb";
    cached_jwk = some sample_jwk;
  };
  now = 1_000_000;
  drawn = 0;
  sent = [];
}

run : Unit {0}
unfolding create_proof ensure_key kavachid.WebSdk.Dpop.generate_jti kavachid.WebSdk.Dpop.sign_proof
    kavachid.WebSdk.Dpop.hex_of to_upper_case kavachid.WebSdk.Pkce.char_at buffer_to_base64url
    kavachid.WebSdk.Platform.replace_all kavachid.WebSdk.Platform.strip_padding authenticated_fetch
    kavachid.WebSdk.Client.signed_fetch kavachid.WebSdk.Client.fetch
    kavachid.WebSdk.Client.refresh_and_retry refresh kavachid.WebSdk.Client.post_signed
    kavachid.WebSdk.Client.end_refresh kavachid.WebSdk.Client.take_tokens
    kavachid.WebSdk.Client.save_tokens kavachid.WebSdk.Storage.put_entry get_memory find_entry
run = tt

abbrev profile_run : Result Response × Browser Entries
profile_run =
    authenticated_fetch memory_storage sample_crypto sample_network sample_options "/auth/me"
      (of_method memory_storage sample_crypto sample_network sample_options "GET") sample_browser

-- the refused call, the refresh, and the retry
profile_test :
    (profile_run.0 ≡ ok (record { status = 200; json = ok tokens }))
    × (length profile_run.1.sent ≡ 3)
unfolding run
profile_test = (refl, refl)

abbrev good_reply : Response
good_reply = record { status = 200; json = ok tokens }

sample_network-GivesTokens : GivesTokens sample_network sample_options
sample_network-GivesTokens before call r body addressed answered good json =
    let at_url = (eq_iff call.url "http://h/auth/refresh").1 addressed in
    let reply_is : good_reply ≡ r = ground (arith, at_url) in
    let json_is : ok tokens ≡ ok body = ap (λ (x : Response). x.json) reply_is ∙ json in
    let body_is : tokens ≡ body = cc in rw (sym body_is) (refl, refl)

authenticated_fetch-Answered_example :
    (length profile_run.1.sent ≤ length sample_browser.sent + 3)
    × ((r : Response)
        → profile_run.0 ≡ ok r
        → (token : String) × Answered sample_network profile_run.1 r
            (get_full_url sample_options "/auth/me")
            token
          × (memory_storage.get_item access_key profile_run.1.storage ≡ some token)
          × (r.status ≡ 401 → length profile_run.1.sent ≡ length sample_browser.sent + 3))
authenticated_fetch-Answered_example =
    authenticated_fetch-Answered memory_storage sample_crypto sample_network sample_options
      "/auth/me" (of_method memory_storage sample_crypto sample_network sample_options "GET")
      sample_browser sample_network-GivesTokens

abbrev proof_text : String
proof_text = "a-b_c.a-b_c.a-b_c"

abbrev drawn_once : Browser Entries
drawn_once = record sample_browser { drawn = 1 }

abbrev refreshed : Result Body × Browser Entries
refreshed = refresh memory_storage sample_crypto sample_network sample_options sample_browser

refresh_decided_example :
    (is_ok good_reply ≡ false
      → ((e : Error) × (refreshed.0 ≡ err e)) × Holds memory_storage refreshed.1.storage none none)
    × ((body : Body)
        → is_ok good_reply ≡ true
        → good_reply.json ≡ ok body
        → present body.access_token ≡ true
        → present body.refresh_token ≡ true
        → (refreshed.0 ≡ ok body)
          × Holds memory_storage refreshed.1.storage
              (some body.access_token)
              (some body.refresh_token))
unfolding run
refresh_decided_example =
    refresh_decided memory_storage sample_crypto sample_network sample_options "first" proof_text
      sample_browser drawn_once good_reply refl refl refl refl

abbrev after_all : Result (Unit {0}) × Browser Entries
after_all = logout_all memory_storage sample_crypto sample_network sample_options sample_browser

abbrev after_logout : Result (Unit {0}) × Browser Entries
after_logout = logout memory_storage sample_crypto sample_network sample_options sample_browser

logout_forgets_example :
    ((after_all.0 ≡ ok tt) × Holds memory_storage after_all.1.storage none none)
    × ((token proof : String) (s1 : Browser Entries)
        → present token ≡ true
        → memory_storage.get_item refresh_key sample_browser.storage ≡ some token
        → create_proof sample_crypto "POST"
            (get_full_url sample_options "/auth/logout")
            sample_browser
          ≡ (ok proof, s1)
        → (after_logout.0 ≡ ok tt) × Holds memory_storage after_logout.1.storage none none)
logout_forgets_example =
    logout_forgets memory_storage sample_crypto sample_network sample_options sample_browser

generate_code_verifier_lem_example :
    (v : String) × ((generate_code_verifier sample_crypto 64 sample_browser).0 ≡ ok v)
    × (text_length v ≡ 64)
    × (is_unreserved v ≡ true)
generate_code_verifier_lem_example =
    generate_code_verifier_lem sample_crypto 64 sample_browser refl (length-zeros 64)

-- externals that read the one token of `sample_crypto`
abbrev reading : Externals
reading = record sample_externals {
  decode_header = λ token.
      ok (record { alg = some "ES256"; kid = none; typ = some "dpop+jwt"; jwk = some "jwk" });
  jwt_verify = λ token key issuer now. ok (claims_of "GET" "http://h/auth/me?x=1" 1000);
}

sample_HasKey : HasKey sample_browser sample_pair sample_jwk
sample_HasKey = record { paired = refl; exported = refl }

sample_Interop :
    Interop sample_crypto reading sample_pair sample_jwk "jwk" "jwk" "thumb"
      (kavachid.WebSdk.Dpop.hex_of (zeros 16))
      (to_upper_case "get")
      "http://h/auth/me?x=1"
      (seconds 1_000_000)
unfolding run
sample_Interop = record {
  signature = 1 ∷ 2 ∷ [];
  signed = refl;
  decoded = refl;
  has_text = refl;
  imported = refl;
  verified = λ now. refl;
  printed = refl;
}

create_proof-verify_dpop_example :
    (token : String) × ((create_proof sample_crypto "get" "http://h/auth/me?x=1" sample_browser).0
      ≡ ok token)
    × ((verify_dpop reading token "GET" "http://h/auth/me" 1_100_000
          ≡ ok (record { jkt = "thumb"; public_key_jwk = "jwk" }))
        ↔ ((to_upper_case "get" ≡ "GET")
            × (clean_url "http://h/auth/me" ≡ clean_url "http://h/auth/me?x=1")
            × (distance (seconds 1_100_000) (seconds 1_000_000) ≤ 120)))
create_proof-verify_dpop_example =
    create_proof-verify_dpop sample_crypto reading sample_browser "get" "http://h/auth/me?x=1" "GET"
      "http://h/auth/me" 1_100_000 refl sample_HasKey sample_Interop

abbrev guard_options : KseMiddlewareOptions
guard_options = record {
  level = 1;
  action_type = "read";
  product_name = "shop";
  feature_name = none;
  kse_base_url = "http://kse/";
  get_tenant_id = λ req. ok "t1";
  get_user_id = λ req. ok "u1";
  get_session_id = λ req. ok "s1";
}

abbrev guarded_request : ExpressRequest
guarded_request = record {
  fingerprint_header = none;
  user_agent_header = some "ua";
  ip = some "1.2.3.4";
  remote_address = none;
  body = none;
}

kse_enforce_iff_example :
    (kse_enforce
        (served in_memory sample_externals (database []) (λ r. none))
        guard_options
        "req_1"
        guarded_request
      ≡ next)
    ↔ ((sent : KseEvaluationRequest) × (d : Decision) × (score : ℕ) × (evaluation_request
            guard_options guarded_request "req_1"
          ≡ ok sent)
        × (◌≡◌ {A = Option Error} none none)
        × ((Kse.evaluate in_memory sample_externals (as_dto sent) (database [])).0 ≡ ok (d, score))
        × (d.decision ≡ allow))
kse_enforce_iff_example =
    kse_enforce_iff in_memory sample_externals (database []) (λ r. none) guard_options "req_1"
      guarded_request
