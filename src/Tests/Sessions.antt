-- ===== src/Tests/Sessions.antt =====
-- Sessions: a login, its refresh, the reuse of an old token.
use kavachid.Base.{
  ◌+◌, ◌≡◌, ◌↔◌, refl, false, none, some, List, [], ◌∷◌, String, ◌==◌, split, decimal, Result, ok,
  err, arith, unauthorized,
}
use kavachid.Prisma.InMemory.{in_memory}
use kavachid.Schema.{Db, Session, User}
use mathlib.Core.Path.{subst}
use mathlib.Core.Option.{some-injective}
use kavachid.Outbox.{is_event}
use kavachid.Session.Store.{is_active_of, is_named, user_key, revoked}
use kavachid.Session.Login.Checks.{
  HasCredentials, authenticate_iff, authenticate_records, with_attempt,
}
use kavachid.Session.Issue.{Tokens}
use kavachid.Session.Login.{login, authenticate}
use kavachid.Session.Login.Refreshed.{IsFresh, login-refresh}
use kavachid.Session.Refresh.{Presents, refresh, renew}
use kavachid.Session.Refresh.Reuse.{
  refresh_revoked, refresh_reuse, revoked_message, IsOther, reuse_message,
}
use kavachid.Session.Refresh.Rotation.{refresh_replay}
use kavachid.Session.Revoke.{revoke}
use kavachid.Session.Revoke.Ended.{logout_refresh}
use kavachid.Tests.Samples.{sample_externals, free_of-repeated, user, session, origin, database}

run : Unit {0}
unfolding login kavachid.Session.Login.authenticate kavachid.Session.Login.check_user
    kavachid.Session.Issue.issue_tokens_and_session kavachid.Session.Issue.check_dpop
    kavachid.Session.Issue.associate_device kavachid.Session.Issue.first_access
    kavachid.Session.Issue.open_session kavachid.Session.Issue.sign_access_token
    kavachid.KeyPair.get_active_key_pair kavachid.Crypto.sign_jwt
    kavachid.Crypto.encrypt_private_key kavachid.Crypto.decrypt_private_key
    kavachid.Outbox.create_event kavachid.Audit.create_log kavachid.Session.Store.grant_access
    kavachid.Session.Store.log_attempt split decimal kavachid.Tenant.get_required_tenant_id refresh
    renew kavachid.Session.Refresh.rotate kavachid.Session.Store.update_session
    kavachid.Session.Store.ensure_access kavachid.Crypto.verify_dpop
run = tt

abbrev after_login : Result Tokens × Db List
after_login = login in_memory sample_externals (some "t1") "u1" "secret" origin none (database [])

login_test :
    after_login.0
    ≡ ok (record { access_token = "jwt"; refresh_token = "aaaaaaaa:aaaaaaa"; expires_in = "900" })
unfolding run
login_test = refl

IsFresh-sample : IsFresh in_memory sample_externals "t1" (database [])
IsFresh-sample = record {
  uuid_plain = free_of-repeated;
  hex_plain = free_of-repeated;
  unused = λ n h. refl;
}

-- the key of a user that the identifier finds
found_by_id :
    (u : User)
    → in_memory.find_first (is_named "t1" "u1") (database []).users ≡ some u
    → in_memory.find_first (user_key "t1" u.id) (database []).users ≡ some u
found_by_id u e =
    subst (λ w. in_memory.find_first (user_key "t1" w.id) (database []).users ≡ some w)
      (some-injective _ _ e) refl

login-refresh_example :
    (u : User) × (sid : String) × (s : Session) × (in_memory.find_first
        (is_named "t1" "u1")
        (database []).users
      ≡ some u)
    × ((u.status == "LOCKED") ≡ false)
    × HasCredentials in_memory sample_externals "secret" u
    × (s.user_id ≡ u.id)
    × (refresh in_memory sample_externals (some "t1") "aaaaaaaa:aaaaaaa" origin after_login.1
        ≡ renew in_memory sample_externals "t1" sid s u origin after_login.1)
unfolding run
login-refresh_example =
    login-refresh in_memory sample_externals "t1" "u1" "secret" origin origin none (database [])
      after_login.1
      (record { access_token = "jwt"; refresh_token = "aaaaaaaa:aaaaaaa"; expires_in = "900" }) refl
      IsFresh-sample found_by_id refl

authenticate_iff_example :
    ((authenticate in_memory sample_externals (some "t1") "9.9.9.9" "u1" "secret" (database [])).0
      ≡ ok (user "u1"))
    ↔ ((in_memory.find_first (is_named "t1" "u1") (database []).users ≡ some (user "u1"))
        × (((user "u1").status == "LOCKED") ≡ false)
        × HasCredentials in_memory sample_externals "secret" (user "u1"))
authenticate_iff_example =
    authenticate_iff in_memory sample_externals "t1" "9.9.9.9" "u1" "secret" (user "u1")
      (database []) refl

-- a wrong password is recorded as a failure
authenticate_records_example :
    (authenticate in_memory sample_externals (some "t1") "9.9.9.9" "u1" "wrong" (database [])).1
    ≡ with_attempt in_memory sample_externals "t1" "9.9.9.9" "u1" false (database [])
unfolding run
authenticate_records_example =
    authenticate_records in_memory sample_externals "t1" "9.9.9.9" "u1" "wrong" (database []) refl
      (λ h. (_, refl))

abbrev stored : List Session
stored =
    session "s1" "u1" "tok" none
    ∷ session "s2" "u1" "other" none
    ∷ session "s3" "u2" "tok" none
    ∷ session "s4" "u1" "gone" (some 7)
    ∷ []

Presents-good :
    Presents in_memory "t1" "s1:tok"
      (database stored)
      "s1"
      "tok"
      (session "s1" "u1" "tok" none)
      (user "u1")
unfolding run
Presents-good = record {
  tenant_given = refl;
  parts = refl;
  session_found = refl;
  session_unique = omega arith;
  user_found = refl;
}

Presents-stale :
    Presents in_memory "t1" "s1:old"
      (database stored)
      "s1"
      "old"
      (session "s1" "u1" "tok" none)
      (user "u1")
unfolding run
Presents-stale = record {
  tenant_given = refl;
  parts = refl;
  session_found = refl;
  session_unique = omega arith;
  user_found = refl;
}

Presents-gone :
    Presents in_memory "t1" "s4:gone"
      (database stored)
      "s4"
      "gone"
      (session "s4" "u1" "gone" (some 7))
      (user "u1")
unfolding run
Presents-gone = record {
  tenant_given = refl;
  parts = refl;
  session_found = refl;
  session_unique = omega arith;
  user_found = refl;
}

abbrev refreshed : String → Db List → Result Tokens × Db List
refreshed token db = refresh in_memory sample_externals (some "t1") token origin db

refresh_reuse_example :
    let (r, db') = refreshed "s1:old" (database stored) in
    (r ≡ err (unauthorized reuse_message))
    × (in_memory.count (is_active_of "t1" "u1") db'.sessions ≡ 0)
    × ((t' u' : String)
        → IsOther "t1" "u1" t' u'
        → in_memory.count (is_active_of t' u') db'.sessions
          ≡ in_memory.count (is_active_of t' u') (database stored).sessions)
    × (in_memory.count (is_event "t1" "SessionHijackDetected") db'.outbox_events
        ≡ in_memory.count (is_event "t1" "SessionHijackDetected") (database stored).outbox_events
          + 1)
refresh_reuse_example =
    refresh_reuse in_memory sample_externals "t1" "s1:old" origin (database stored) "s1" "old"
      (session "s1" "u1" "tok" none) (user "u1") Presents-stale refl refl

refresh_revoked_example :
    let (r, db') = refreshed "s4:gone" (database stored) in
    (r ≡ err (unauthorized revoked_message))
    × (in_memory.count (is_active_of "t1" "u1") db'.sessions ≡ 0)
    × ((t' u' : String)
        → IsOther "t1" "u1" t' u'
        → in_memory.count (is_active_of t' u') db'.sessions
          ≡ in_memory.count (is_active_of t' u') (database stored).sessions)
refresh_revoked_example =
    refresh_revoked in_memory sample_externals "t1" "s4:gone" origin (database stored) "s4" "gone"
      (session "s4" "u1" "gone" (some 7)) (user "u1") Presents-gone refl

abbrev rotated_once : Result Tokens × Db List
rotated_once = refreshed "s1:tok" (database stored)

refresh_replay_example :
    let (r, db'') = refreshed "s1:tok" rotated_once.1 in
    (r ≡ err (unauthorized reuse_message))
    × (in_memory.count (is_active_of "t1" "u1") db''.sessions ≡ 0)
unfolding run
refresh_replay_example =
    refresh_replay in_memory sample_externals "t1" "s1:tok" origin origin (database stored)
      rotated_once.1 "s1" "tok" (session "s1" "u1" "tok" none) (user "u1")
      (record { access_token = "jwt"; refresh_token = "s1:aaaaaa"; expires_in = "900" })
      Presents-good refl refl

logout_refresh_example :
    let (left, db') = revoke in_memory sample_externals (some "t1") "s1:tok" (database stored) in
    (left ≡ ok tt) × ((refreshed "s1:tok" db').0 ≡ err (unauthorized revoked_message))
logout_refresh_example =
    logout_refresh in_memory sample_externals "t1" "s1:tok" origin (database stored) "s1" "tok"
      (session "s1" "u1" "tok" none) (user "u1") Presents-good
