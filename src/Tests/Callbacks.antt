-- ===== src/Tests/Callbacks.antt =====
-- Two callbacks of one subject of a provider.
use kavachid.Base.{
  or_else, err, bad_request, template, some, none, ok, ◌∷◌, [], ◌≡◌, refl, List, ◌≡◌, refl, none,
  some, List, [], String, Option, ok, Result,
}
use kavachid.Prisma.InMemory.{in_memory}
use kavachid.Schema.{Db, User}
use kavachid.Federation.{Profile, resolve_user, federated_user}
use kavachid.Federation.Linked.{resolve_again}
use kavachid.Federation.Routes.{Environment, federation_login, get_authorization_url}
use kavachid.Tests.Samples.{sample_externals, database}

run : Unit {0}
unfolding resolve_user kavachid.Federation.link_user kavachid.Federation.provision
    kavachid.Federation.create_link kavachid.User.create_user kavachid.Base.split
run = tt

abbrev no_redirect : String → Option String
no_redirect state = none

abbrev google : Profile
google = record { id = "g-1"; email = "f@g"; name = "F" }

abbrev linked : Result User × Db List
linked = resolve_user in_memory sample_externals no_redirect "t1" "google" google (database [])

abbrev provisioned : User
provisioned = federated_user "aaaaaa" "t1" google 1_000_000

resolve_again_example :
    resolve_user in_memory sample_externals no_redirect "t1" "google" google linked.1
    ≡ (ok provisioned, linked.1)
unfolding run
resolve_again_example =
    resolve_again in_memory sample_externals no_redirect "t1" "google" google (database []) linked.1
      provisioned provisioned refl refl refl

abbrev environment : Environment
environment = record {
  google_client_id = none;
  ms_client_id = some "ms";
  state_of = λ uri. or_else uri "";
  redirect_of = λ state. some state;
  with_tokens = λ uri access refresh. ok (template (uri ∷ "?" ∷ access ∷ "&" ∷ refresh ∷ []));
}

microsoft_test :
    federation_login environment "microsoft" (some "http://app/")
    ≡ ok
        "https://login.microsoftonline.com/common/oauth2/v2.0/authorize?client_id=ms&redirect_uri=http://localhost:3000/auth/federation/microsoft/callback&response_type=code&scope=openid email profile&state=http://app/"
unfolding federation_login get_authorization_url
microsoft_test = refl

unknown_provider_test :
    federation_login environment "github" (some "http://app/")
    ≡ err (bad_request "Unsupported provider")
unfolding federation_login
unknown_provider_test = refl
