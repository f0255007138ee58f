-- ===== src/Tests/Servers.antt =====
-- The middleware of a resource server at a request with a bound token.
use kavachid.Base.{
  ◌≡◌, refl, true, none, some, String, ok, starts_with, drop_text, split, if◌then◌else◌, ◌==◌, err,
  plain, false,
}
use kavachid.Crypto.{Claims}
use kavachid.Auth.{Request}
use kavachid.KavachExpress.{
  KavachExpressOptions, VerifyRemote, jwks_url, bound_user, kavach_auth, next, refused,
  check_claims,
}
use kavachid.KavachExpress.Accepted.{Admits, kavach_auth_sound}
use kavachid.Tests.Samples.{sample_externals, no_claims}

run : Unit {0}
unfolding kavach_auth check_claims kavachid.KavachExpress.check_proof
    kavachid.KavachExpress.check_payload kavachid.Crypto.clean_url split
    kavachid.WebSdk.Client.drop_last kavachid.Base.ends_with drop_text
run = tt

abbrev shop : KavachExpressOptions
shop = record { server_url = "http://id/"; required_tenant_id = some "t1" }

abbrev bound_claims : Claims
bound_claims = record no_claims { jkt = some "thumb"; email = some "u@h" }

-- the key set is where it is published, and has signed one token
abbrev published : VerifyRemote
published url token now =
    if url == "http://id/oauth/jwks"
    then if token == "abc" then ok bound_claims else err (plain "signature verification failed")
    else err (plain "fetch failed")

abbrev proved_request : Request
proved_request = record {
  authorization = some "Bearer abc";
  dpop = some "proof";
  method = "POST";
  secure = false;
  host = "h";
  original_url = "/auth/login?next=1";
}

kavach_auth_sound_example :
    (header : String) × (payload : Claims) × (some "Bearer abc" ≡ some header)
    × (starts_with header "Bearer " ≡ true)
    × (published (jwks_url shop) (drop_text 7 header) 1000 ≡ ok payload)
    × Admits sample_externals shop proved_request (some "t1") 1000 payload
    × (bound_user sample_externals bound_claims ≡ bound_user sample_externals payload)
unfolding run
kavach_auth_sound_example =
    kavach_auth_sound sample_externals published shop proved_request (some "t1") 1000
      (bound_user sample_externals bound_claims) refl

another_tenant :
    kavach_auth sample_externals published shop proved_request (some "t2") 1000
    ≡ refused 403 "Forbidden: Request tenant header does not match token context"
unfolding run
another_tenant = refl

no_proof :
    kavach_auth sample_externals published shop (record proved_request { dpop = none }) none 1000
    ≡ refused 401 "Missing required dpop signature header"
unfolding run
no_proof = refl
