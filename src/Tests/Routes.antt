-- ===== src/Tests/Routes.antt =====
-- The routes of the session controller, and the rotation of keys, on a small database.
use kavachid.Base.{
  ◌≢◌, ◌&&◌, ◌==◌, ◌≡◌, refl, true, false, none, some, List, [], ◌∷◌, String, Option, ok, err,
  Result,
}
use kavachid.Prisma.InMemory.{in_memory}
use kavachid.Schema.{Db, Session}
use kavachid.Auth.{Request}
use kavachid.Session.Store.{has_key}
use kavachid.Session.Controller.{has_bearer, resolve_user_id, revoke_session_route}
use kavachid.Session.Controller.Caller.{Speaks, resolve_user_id_sound, revoke_route_own}
use kavachid.KeyPair.{is_active, rotate_keys}
use kavachid.KeyPair.Rotated.{rotate_one_active}
use kavachid.Tests.Samples.{sample_externals, session, database}

run : Unit {0}
unfolding resolve_user_id revoke_session_route kavachid.Session.Controller.claims_of_token
    kavachid.Session.Controller.need_user kavachid.KeyPair.get_active_key_pair
    kavachid.Crypto.decrypt_private_key kavachid.Crypto.verify_jwt kavachid.Base.split
    kavachid.Base.drop_text kavachid.Session.Revoke.revoke_specific_session
    kavachid.Session.Revoke.revoke_session kavachid.Session.Store.update_session rotate_keys
    kavachid.KeyPair.generate_and_save_key_pair kavachid.Crypto.encrypt_private_key
    kavachid.Base.decimal kavachid.Outbox.create_event kavachid.Tenant.get_required_tenant_id
run = tt

abbrev keyed : Db List
keyed = record (database (session "s1" "u1" "x" none ∷ [])) {
  key_pairs =
      record {
        id = "i1";
        kid = "k1";
        public_key_pem = "pem";
        encrypted_private_key = "aaaa:key:tag";
        algorithm = "RS256";
        status = "active";
        active_from = 0;
        active_to = 9_000_000;
        created_at = 0;
      }
      ∷ [];
}

abbrev request : Option String → Request
request authorization = record {
  authorization = authorization;
  dpop = none;
  method = "DELETE";
  secure = false;
  host = "h";
  original_url = "/auth/sessions/s1";
}

resolve_user_id_sound_example :
    Speaks in_memory sample_externals (request (some "Bearer abc")) keyed keyed "u1"
unfolding run
resolve_user_id_sound_example =
    resolve_user_id_sound in_memory sample_externals (request (some "Bearer abc")) (some "u2") keyed
      keyed "u1" refl refl

-- without a token the query parameter is taken as it is
unauthenticated_test :
    (resolve_user_id in_memory sample_externals (request none) (some "u2") keyed).0 ≡ ok "u2"
unfolding run
unauthenticated_test = refl

abbrev ended : Db List
ended =
    (revoke_session_route in_memory sample_externals (some "t1") (request (some "Bearer abc")) "s1"
      keyed).1

revoke_route_own_example :
    (db1 : Db List) × (u : String) × (s : Session) × (has_bearer (request (some "Bearer abc"))
      ≡ true)
    × Speaks in_memory sample_externals (request (some "Bearer abc")) keyed db1 u
    × (in_memory.find_first (has_key "t1" "s1") db1.sessions ≡ some s)
    × (s.user_id ≡ u)
unfolding run
revoke_route_own_example =
    revoke_route_own in_memory sample_externals "t1" "s1" (request (some "Bearer abc")) keyed ended
      refl refl

abbrev rotated_keys : Result (String × String) × Db List
rotated_keys = rotate_keys in_memory sample_externals "RS256" keyed

rotate_one_active_example :
    (in_memory.count (is_active "RS256") rotated_keys.1.key_pairs ≡ 1)
    × (in_memory.count
          (λ k. is_active "RS256" k && k.kid == "kid_1000000_aaaaaa")
          rotated_keys.1.key_pairs
        ≡ 1)
    × ((other : String)
        → "RS256" ≢ other
        → in_memory.count (is_active other) rotated_keys.1.key_pairs
          ≡ in_memory.count (is_active other) keyed.key_pairs)
unfolding run
rotate_one_active_example =
    rotate_one_active in_memory sample_externals "RS256" keyed rotated_keys.1
      ("kid_1000000_aaaaaa", "pub") refl
