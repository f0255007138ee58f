-- ===== src/Tests/Passkeys.antt =====
-- Passkeys on a small database, with a library that takes every response.
use Prim.Native.String.{◌∷◌}
use kavachid.Base.{
  ℕ, ◌≤◌, ◌≡◌, ◌≢◌, ◌⊎◌, refl, Bool, true, false, ◌&&◌, Option, none, some, List, String, ◌==◌,
  eq_iff, Error, bad_request, Result, ok, err, template, arith,
}
use kavachid.Prisma.InMemory.{in_memory}
use kavachid.Schema.{Db, PasskeyCredential}
use kavachid.Session.Issue.{Tokens}
use kavachid.Webauthn.{
  WebauthnServer, RegistrationResponse, AuthenticationResponse, NewCredential,
  verify_registration_response, verify_authentication_response,
}
use kavachid.Webauthn.Spent.{PasskeyLogin, challenge_spent}
use kavachid.Webauthn.Encoded.{registered_passkey_lost}
use kavachid.Tests.Samples.{sample_externals, user, database}

abbrev new_credential : NewCredential
new_credential = record { id = "cred"; public_key = "pk"; counter = 0 }

abbrev sample_library : WebauthnServer
sample_library = record {
  registration_options = λ n name rp id user refs. ok (record { challenge = "c"; options = "o" });
  authentication_options = λ n rp refs. ok (record { challenge = "c"; options = "o" });
  verify_registration = λ body challenge origin rp. ok (true, some new_credential);
  verify_authentication = λ body challenge origin rp credential. ok (true, some 1);
  parse_texts = λ s. ok List.[];
  stringify_texts = λ l. "[]";
  text_to_base64url = λ s. "e" ∷ s;
}

-- the first user has a challenge, and a passkey whose id is stored as it is
abbrev challenged : Db List
challenged = record (database List.[]) {
  users = List.◌∷◌ (record (user "u1") { current_web_authn_challenge = some "c" }) List.[];
  passkeys =
      List.◌∷◌
        (record {
          id = "p1";
          tenant_id = "t1";
          user_id = "u1";
          credential_id = "known";
          public_key = "pk";
          counter = 0;
          transports = none;
        })
        List.[];
}

abbrev assertion : AuthenticationResponse
assertion = record { id = "known"; credential = "json" }

abbrev login_run : Result Tokens × Db List
login_run =
    verify_authentication_response in_memory sample_externals sample_library (some "t1") "t1" "u1"
      assertion none "1.2.3.4" "ua" none challenged

run : Unit {0}
unfolding verify_authentication_response kavachid.Webauthn.find_passkey
    kavachid.Webauthn.check_assertion kavachid.Webauthn.end_authentication
    kavachid.Webauthn.set_counter kavachid.Webauthn.set_challenge
    kavachid.Session.Issue.create_session_for_user kavachid.Session.Issue.issue_tokens_and_session
    kavachid.Session.Issue.check_dpop kavachid.Session.Issue.associate_device
    kavachid.Session.Issue.first_access kavachid.Session.Issue.open_session
    kavachid.Session.Issue.sign_access_token kavachid.KeyPair.get_active_key_pair
    kavachid.Crypto.sign_jwt kavachid.Crypto.encrypt_private_key kavachid.Crypto.decrypt_private_key
    kavachid.Outbox.create_event kavachid.Session.Store.grant_access kavachid.Base.split
    kavachid.Base.decimal kavachid.Tenant.get_required_tenant_id verify_registration_response
    kavachid.Webauthn.end_registration kavachid.Webauthn.create_passkey
run = tt

abbrev session_tokens : Tokens
session_tokens = record {
  access_token = "jwt";
  refresh_token = "aaaaaaa:aaaaaa";
  expires_in = "900";
}

login_test : login_run.0 ≡ ok session_tokens
unfolding run
login_test = refl

challenge_spent_example :
    PasskeyLogin in_memory sample_externals sample_library "t1" "u1" assertion challenged
      login_run.1 session_tokens
    × ((body' : AuthenticationResponse) (dpop' : Option String) (ip' agent' : String)
          (client_id' : Option String)
        → (verify_authentication_response in_memory sample_externals sample_library
            (some "t1")
            "t1"
            "u1"
            body'
            dpop'
            ip'
            agent'
            client_id'
            login_run.1).0
          ≡ err (bad_request "User or challenge not found"))
unfolding run
challenge_spent_example =
    challenge_spent in_memory sample_externals sample_library "t1" "u1" assertion none "1.2.3.4"
      "ua" none challenged login_run.1 session_tokens refl (omega arith) refl

abbrev new_passkey : RegistrationResponse
new_passkey = record { credential = "json"; transports = none }

abbrev registered : List PasskeyCredential
registered =
    (verify_registration_response in_memory sample_externals sample_library "t1" "u1" new_passkey
      challenged).1.passkeys

encoded : ("e" ∷ "cred") ≢ "cred"
encoded h = let wrong : false ≡ true = (eq_iff "ecred" "cred").1 h in absurd (ground arith)

registered_passkey_lost_example :
    (1 ≤ in_memory.count (λ c. c.credential_id == "ecred" && c.user_id == "u1") registered)
    × ((tenant : Option String) (t' identifier credential : String) (dpop : Option String)
          (ip agent : String) (client_id : Option String) (later : Db List)
        → later.passkeys ≡ registered
        → let answer =
            (verify_authentication_response in_memory sample_externals sample_library tenant t'
              identifier
              (record { id = "cred"; credential = credential })
              dpop
              ip
              agent
              client_id
              later).0 in
          (answer ≡ err (bad_request "User or challenge not found"))
          ⊎ (answer ≡ err (bad_request "Passkey not found")))
unfolding run
registered_passkey_lost_example =
    registered_passkey_lost in_memory sample_externals sample_library "t1" "u1" new_passkey
      new_credential challenged refl encoded refl refl
