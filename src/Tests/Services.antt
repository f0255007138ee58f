-- ===== src/Tests/Services.antt =====
-- The limiter, the outbox, registration and the worker on small databases.
use mathlib.Core.Path.{subst}
use kavachid.Base.{
  ◌≡◌, refl, true, false, none, some, List, [], ◌∷◌, String, arith, plain, Result, ok, err, ℕ,
  present, eq_refl, Bool-cases, inl, inr, ◌&&◌, not, is_some, ◌⊎◌, not_found,
}
use kavachid.Prisma.InMemory.{in_memory}
use kavachid.Schema.{Db, User, Tenant, LoginAttempt, OutboxEvent}
use kavachid.Throttle.{Throttled, of_key, increment}
use kavachid.Throttle.Window.{live_hits, increment_counts}
use kavachid.Outbox.Polling.{Poller, process_outbox}
use kavachid.Outbox.Polling.Bounded.{IsBounded, process_outbox-IsBounded}
use kavachid.User.{register_user, verify_credentials}
use kavachid.User.Registered.{IsHashing, register_verify}
use kavachid.Schema.{Session}
use kavachid.Session.Store.{has_key, is_active_of}
use kavachid.Session.Refresh.Reuse.{IsOther}
use kavachid.Session.Revoke.{revoke_specific_session}
use kavachid.Session.Revoke.Ended.{revoke_specific_own}
use kavachid.Crypto.{encrypt_private_key, decrypt_private_key}
use kavachid.Crypto.Sealing.{decrypt-encrypt}
use kavachid.Tests.Samples.{session, sample_externals, database, session}

run : Unit {0}
unfolding register_user kavachid.User.hash_password kavachid.User.salted_hash
    kavachid.User.save_user kavachid.User.create_user kavachid.Outbox.create_event
    kavachid.Tenant.get_required_tenant_id process_outbox kavachid.Outbox.Polling.dispatch_all
    kavachid.Outbox.Polling.dispatch kavachid.Outbox.Polling.deliver
    kavachid.Outbox.Polling.update_event kavachid.Outbox.Polling.eligible_events
    kavachid.Outbox.Polling.is_eligible increment kavachid.Throttle.clean_up
    kavachid.Throttle.count_hit
run = tt

-- a window that is open until 1_020_000, with 3 hits, and an expired one
abbrev limited : Db List
limited = record (database []) {
  rate_limits =
      record { key = "k"; hits = 3; expires_at = 1_020_000 }
      ∷ record { key = "old"; hits = 9; expires_at = 5 }
      ∷ [];
}

increment_counts_example :
    let (r, db') = increment in_memory "k" 60_000 3 limited in
    (a : Throttled) × (r ≡ ok a)
    × (a.total_hits ≡ 4)
    × (a.is_blocked ≡ true)
    × (live_hits in_memory "k" db' ≡ 4)
    × (in_memory.count (of_key "k") db'.rate_limits ≡ 1)
increment_counts_example = increment_counts in_memory "k" 60_000 3 limited (omega arith)

blocked_test :
    (increment in_memory "k" 60_000 3 limited).0
    ≡ ok (record {
      total_hits = 4;
      time_to_expire = 20;
      is_blocked = true;
      time_to_block_expire = 20;
    })
unfolding run
blocked_test = refl

abbrev event : String → ℕ → OutboxEvent
event id retry_count = record {
  id = id;
  tenant_id = "t1";
  event_type = "UserCreated";
  payload = [];
  status = "pending";
  retry_count = retry_count;
  created_at = 0;
  processed_at = none;
}

abbrev pending : Db List
pending = record (database []) { outbox_events = event "e1" 4 ∷ event "e2" 0 ∷ [] }

abbrev poller : Poller in_memory
poller = record { is_polling = false; db = pending }

-- a webhook that cannot be reached
abbrev unreachable : OutboxEvent → Result (Unit {0})
unreachable e = err (plain "connect ECONNREFUSED")

process_outbox-IsBounded_example :
    IsBounded in_memory unreachable (process_outbox in_memory unreachable poller).db
process_outbox-IsBounded_example = process_outbox-IsBounded in_memory unreachable poller refl

given_up_test :
    (process_outbox in_memory unreachable poller).db.outbox_events
    ≡ record (event "e1" 5) { status = "failed" } ∷ event "e2" 1 ∷ []
unfolding run
given_up_test = refl

abbrev six_delays : List ℕ
six_delays = 0 ∷ 5000 ∷ 5000 ∷ 5000 ∷ 5000 ∷ 5000 ∷ []

IsHashing-sample : IsHashing sample_externals
IsHashing-sample = λ n password hash e. elim (Bool-cases (present password)) [
  | inl given ↦
      let same_text : password ≡ hash = ground (arith, given, e) in
      subst (λ h. (present h ≡ true) × (sample_externals.argon_verify h password ≡ ok true))
        same_text (given, rw (eq_refl password) refl)
  | inr empty ↦ absurd (ground (arith, empty, e))
]

abbrev registered : Result User × Db List
registered =
    register_user in_memory sample_externals (some "t1") (some "a@b") (some "pw") none []
      (database [])

abbrev new_user : User
new_user = record {
  id = "aaaaaaa";
  tenant_id = "t1";
  email = some "a@b";
  username = none;
  password_hash = some "pw";
  status = "active";
  migration_status = "active";
  metadata = [];
  created_at = 1_000_000;
  current_web_authn_challenge = none;
}

register_verify_example :
    verify_credentials in_memory sample_externals (some "t1") "a@b" "pw" registered.1
    ≡ (ok (record { success = true; user_id = "aaaaaaa" }), registered.1)
unfolding run
register_verify_example =
    register_verify in_memory sample_externals "t1" "a@b" "pw" [] new_user (database [])
      registered.1 IsHashing-sample refl refl refl refl

abbrev failure : LoginAttempt
failure = record {
  id = "l1";
  tenant_id = "t1";
  ip_address = "6.6.6.6";
  identifier = "u1";
  success = false;
  created_at = 999_000;
}

abbrev tenant : Tenant
tenant = record { id = "t1"; name = "shop"; status = "active"; max_failed_logins = 0 }

abbrev two_sessions : Db List
two_sessions = database (session "s1" "u1" "x" none ∷ session "s2" "u2" "y" none ∷ [])

revoke_specific_own_example :
    let (r, db') =
      revoke_specific_session in_memory sample_externals (some "t1") "u1" "s1" two_sessions in
    ((r ≡ ok tt)
      × ((s : Session) × (in_memory.find_first (has_key "t1" "s1") two_sessions.sessions ≡ some s)
          × (s.user_id ≡ "u1"))
      × (in_memory.count (λ s. has_key "t1" "s1" s && not (is_some s.revoked_at)) db'.sessions ≡ 0)
      × ((t' u' : String)
          → IsOther "t1" "u1" t' u'
          → in_memory.count (is_active_of t' u') db'.sessions
            ≡ in_memory.count (is_active_of t' u') two_sessions.sessions))
    ⊎ ((r ≡ err (not_found "Session not found")) × (db' ≡ two_sessions))
revoke_specific_own_example =
    revoke_specific_own in_memory sample_externals "t1" "u1" "s1" two_sessions refl (omega arith)

decrypt-encrypt_example :
    decrypt_private_key sample_externals (encrypt_private_key sample_externals "aaaa" "pem")
    ≡ ok "pem"
decrypt-encrypt_example = decrypt-encrypt sample_externals "aaaa" "pem" (refl, refl, refl) refl
