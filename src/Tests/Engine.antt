-- ===== src/Tests/Engine.antt =====
-- The shield engine, roles and guards on small databases.
use kavachid.Base.{
  conflict, template, ◌⊎◌, Error, ◌≡◌, ◌≤◌, ◌<◌, ◌↔◌, refl, true, false, none, some, List, [], ◌∷◌,
  String, ok, min, split, ◌&&◌, leb, starts_with, drop_text, ◌==◌, err,
}
use kavachid.Prisma.Constraints.{tenant_exists}
use kavachid.Prisma.InMemory.{in_memory}
use kavachid.Schema.{Db, Role, UserRole}
use kavachid.Session.Store.{is_active_of, revoke_all_user_sessions}
use kavachid.Session.Refresh.Reuse.{revoke_all_exact, IsOther}
use kavachid.Crypto.{DpopProof}
use kavachid.Crypto.Dpop.{Fits, verify_dpop_sound}
use kavachid.Kse.{
  allow, deny, calculate_risk_score, evaluate, Policy, EvaluateRequest, make_decision,
}
use kavachid.Kse.Verdicts.{names_vpn, make_decision_iff}
use kavachid.Kse.Evaluation.{total_weight, base_of, risk_explained, is_logged}
use kavachid.Role.{role_named, role_key, user_role_key, create_role, assign_role_to_user}
use kavachid.Role.Unique.{create_role_again}
use kavachid.Role.Routes.{assign_role_route, is_assignable, assign_role_route_iff}
use kavachid.Auth.{RequiredPermission, RequestUser, Request, authorize, can_activate}
use kavachid.Auth.Granted.{AllGranted, can_activate_iff}
use kavachid.Auth.Bearer.{Trusted, authorize_sound}
use kavachid.Tests.Samples.{sample_externals, session, database}

run : Unit {0}
unfolding kavachid.Kse.calculate_risk_score kavachid.Kse.device_risk kavachid.Kse.network_risk
    kavachid.Kse.profile_risk create_role assign_role_to_user kavachid.Role.insert_role
    kavachid.Tenant.get_required_tenant_id can_activate authorize kavachid.Auth.check_token
    kavachid.Auth.check_binding kavachid.Crypto.verify_jwt kavachid.Crypto.verify_dpop
    kavachid.Crypto.check_proof kavachid.Crypto.clean_url split kavachid.Auth.has_permissions
    kavachid.Auth.user_permissions kavachid.Auth.permissions_of_links revoke_all_user_sessions
run = tt

abbrev two_active : Db List
two_active = database (session "s1" "u1" "x" none ∷ session "s2" "u2" "y" none ∷ [])

revoke_all_exact_example :
    let db' = (revoke_all_user_sessions in_memory sample_externals (some "t1") "u1" two_active).1 in
    (in_memory.count (is_active_of "t1" "u1") db'.sessions ≡ 0)
    × ((t' u' : String)
        → IsOther "t1" "u1" t' u'
        → in_memory.count (is_active_of t' u') db'.sessions
          ≡ in_memory.count (is_active_of t' u') two_active.sessions)
revoke_all_exact_example = revoke_all_exact in_memory sample_externals "t1" "u1" two_active refl

abbrev strict : Policy
strict = record {
  security_level = 3;
  max_risk_score = 40;
  required_controls = "mfa" ∷ [];
  is_override = false;
}

make_decision_iff_example :
    (((make_decision 95 ("NEW_DEVICE" ∷ []) strict).decision ≡ deny) ↔ (90 ≤ 95))
    × (((make_decision 95 ("NEW_DEVICE" ∷ []) strict).decision ≡ allow) ↔ (
        (95 < 90)
        × (95 ≤ strict.max_risk_score)
        × ((names_vpn ("NEW_DEVICE" ∷ []) && leb 3 strict.security_level) ≡ false)))
make_decision_iff_example = make_decision_iff 95 ("NEW_DEVICE" ∷ []) strict

abbrev vpn_request : EvaluateRequest
vpn_request = record {
  tenant_id = "t1";
  user_id = "u1";
  session_id = "s1";
  target_security_level = 4;
  action_type = "PAY";
  product_name = "shop";
  feature_name = none;
  device_fingerprint = "fp";
  ip_address = "VPN_IP";
}

risk_explained_example :
    let risk =
      calculate_risk_score in_memory sample_externals "t1" "u1" "10.0.0.7" "fp" two_active in
    let base = base_of (
      in_memory.find_first
        (λ p. p.tenant_id == "t1" && p.user_id == "u1")
        two_active.risk_profiles) in
    (risk.score ≤ 100) × (risk.score ≡ min (total_weight base risk.reasons) 100)
risk_explained_example =
    risk_explained in_memory sample_externals "t1" "u1" "10.0.0.7" "fp" two_active

is_logged_test : is_logged in_memory sample_externals vpn_request two_active ≡ true
is_logged_test = refl

-- the body names a tenant that there is none of: the decision is not recorded
unlogged_test :
    (evaluate in_memory sample_externals (record vpn_request { tenant_id = "t9" }) two_active).1
    ≡ two_active
unfolding run evaluate kavachid.Kse.log_decision kavachid.Audit.create_log
unlogged_test = refl

abbrev without_roles : Db List
without_roles = two_active

abbrev editor_there : Db List
editor_there =
    (create_role in_memory sample_externals (some "t1") "editor" none false without_roles).1

abbrev editor : Role
editor = record {
  id = "aaaaaa";
  tenant_id = "t1";
  name = "editor";
  description = none;
  is_system = false;
}

create_role_again_example :
    (editor.name ≡ "editor")
    × (editor.tenant_id ≡ "t1")
    × (tenant_exists in_memory "t1" without_roles ≡ true)
    × (in_memory.count (role_named "t1" "editor") without_roles.roles ≡ 0)
    × (editor_there.roles ≡ in_memory.create editor without_roles.roles)
    × (create_role in_memory sample_externals (some "t1") "editor" (some "again") false editor_there
        ≡ (
          err (conflict (template ("Role '" ∷ "editor" ∷ "' already exists for this tenant" ∷ []))),
          editor_there,
        ))
unfolding run
create_role_again_example =
    create_role_again in_memory sample_externals "t1" "editor" none (some "again") false
      without_roles editor_there editor refl refl

abbrev granted : Db List
granted = record editor_there {
  permissions = record { id = "p1"; tenant_id = "t1"; resource = "user"; action = "read" } ∷ [];
  role_permissions = record { tenant_id = "t1"; role_id = "aaaaaa"; permission_id = "p1" } ∷ [];
  user_roles = record { tenant_id = "t1"; user_id = "u1"; role_id = "aaaaaa" } ∷ [];
}

abbrev reader : RequestUser
reader = record { sub = some "u1"; tenant_id = some "t1"; email = none; username = none }

abbrev read_users : List RequiredPermission
read_users = record { resource = "user"; action = "read" } ∷ []

can_activate_iff_example :
    (can_activate in_memory (some read_users) (some reader) granted ≡ ok true)
    ↔ AllGranted in_memory granted reader read_users
can_activate_iff_example = can_activate_iff in_memory read_users reader granted

granted_test : can_activate in_memory (some read_users) (some reader) granted ≡ ok true
unfolding run
granted_test = refl

verify_dpop_sound_example :
    Fits sample_externals "proof" "POST" "http://h/auth/login?next=1" 1_000_000
      (record { jkt = "thumb"; public_key_jwk = "jwk" })
unfolding run
verify_dpop_sound_example =
    verify_dpop_sound sample_externals "proof" "POST" "http://h/auth/login?next=1" 1_000_000
      (record { jkt = "thumb"; public_key_jwk = "jwk" }) refl

abbrev with_key : Db List
with_key = record two_active {
  key_pairs =
      record {
        id = "i1";
        kid = "k1";
        public_key_pem = "pem";
        encrypted_private_key = "sealed";
        algorithm = "RS256";
        status = "active";
        active_from = 0;
        active_to = 9_000_000;
        created_at = 0;
      }
      ∷ [];
}

abbrev request : String → Request
request authorization = record {
  authorization = some authorization;
  dpop = none;
  method = "POST";
  secure = false;
  host = "h";
  original_url = "/auth/login";
}

authorize_sound_example :
    (header : String) × (some "Bearer abc" ≡ some header)
    × (starts_with header "Bearer " ≡ true)
    × Trusted in_memory sample_externals (drop_text 7 header) (request "Bearer abc") with_key reader
unfolding run
authorize_sound_example =
    authorize_sound in_memory sample_externals (request "Bearer abc") with_key reader refl

abbrev editor_and_key : Db List
editor_and_key = record editor_there { key_pairs = with_key.key_pairs }

assign_role_route_iff_example :
    let run =
      assign_role_route in_memory sample_externals
        (some "t1")
        (request "Bearer abc")
        "u1"
        "aaaaaa"
        editor_and_key in
    ((is_assignable in_memory sample_externals "t1" "u1" "aaaaaa" editor_and_key ≡ true)
      × (table : List UserRole) × (run ≡ (ok tt, record editor_and_key { user_roles = table }))
      × (in_memory.count (user_role_key "t1" "u1" "aaaaaa") table ≡ 1))
    ⊎ ((is_assignable in_memory sample_externals "t1" "u1" "aaaaaa" editor_and_key ≡ false)
        × (x : Error) × (run ≡ (err x, editor_and_key)))
unfolding run
assign_role_route_iff_example =
    assign_role_route_iff in_memory sample_externals (request "Bearer abc") reader "t1" "u1"
      "aaaaaa" editor_and_key refl refl

assignable_test : is_assignable in_memory sample_externals "t1" "u1" "aaaaaa" editor_and_key ≡ true
unfolding run
assignable_test = refl
