-- ===== src/Session/Refresh/Reuse.antt =====
-- Reuse of a refresh token, and use of a revoked one: all active sessions of the user end.
use kavachid.Base.{
  ◌+◌, ◌≤◌, ◌≡◌, ◌≢◌, ◌⊎◌, refl, true, false, not, none, some, is_some, [], ◌∷◌, String, ◌==◌,
  eq_iff, eq_refl, arith, present, unauthorized, ok, err, if◌then◌else◌, ◌∙◌,
}
use kavachid.Prisma.{Client}
use kavachid.Prisma.Laws.{count_absent, count-update_unseen, count-update_key, count_found}
use kavachid.Schema.{Db, text, User, Session}
use kavachid.Crypto.{Externals}
use kavachid.Tenant.{get_required_tenant_id}
use kavachid.Outbox.{new_event, is_event, create_event}
use kavachid.Session.Store.{
  has_key, is_active_of, revoked, update_session, revoke_all_user_sessions,
}
use kavachid.Session.Issue.{Tokens, Origin}
use kavachid.Session.Refresh.{
  hijack_payload, answer_revoked, answer_reuse, renew, Presents, refresh,
}

abbrev pub reuse_message : String
reuse_message = "Refresh token reuse detected. All sessions for this user have been revoked."

abbrev pub revoked_message : String
revoked_message =
    "Session has been revoked. All active sessions for this user have been terminated."

-- the active sessions of another user, or of another tenant
abbrev pub IsOther : String → String → String → String → Type 0
IsOther t u t' u' = (t ≢ t') ⊎ (u ≢ u')

module _ (P : Client) (X : Externals) where
  -- `refresh` of a token that names a session, by the state of that session.
  pub refresh_cases :
      (t token : String) (o : Origin) (db : Db P.Table) (sid tok : String) (s : Session) (u : User)
      → Presents P t token db sid tok s u
      → refresh P X (some t) token o db
        ≡ (if is_some s.revoked_at
              then answer_revoked P X (some t) s
              else if not (s.refresh_ver_hash == X.sha256 tok)
              then answer_reuse P X (some t) t sid s o
              else renew P X t sid s u o)
            db
  unfolding refresh get_required_tenant_id
  refresh_cases t token o db sid tok s u h = ground arith

  revoke_all-state :
      (t u : String) (db : Db P.Table)
      → present t ≡ true
      → ((revoke_all_user_sessions P X (some t) u db).0 ≡ ok tt)
        × ((revoke_all_user_sessions P X (some t) u db).1.sessions
            ≡ P.update_many (is_active_of t u) (revoked db.now) db.sessions)
  unfolding revoke_all_user_sessions get_required_tenant_id create_event
  revoke_all-state t u db h = ground arith

  -- `revokeAllUserSessions` ends every active session of the user, and none of another user or
  -- of another tenant.
  pub revoke_all_exact :
      (t u : String) (db : Db P.Table)
      → present t ≡ true
      → let db' = (revoke_all_user_sessions P X (some t) u db).1 in
        (P.count (is_active_of t u) db'.sessions ≡ 0)
        × ((t' u' : String)
            → IsOther t u t' u'
            → P.count (is_active_of t' u') db'.sessions ≡ P.count (is_active_of t' u') db.sessions)
  revoke_all_exact t u db h =
      let (_, e) = revoke_all-state t u db h in
      (
        rw (e, P.count-update_many) (count_absent P _ db.sessions (λ r. ground arith)),
        λ t' u' other. rw e (
            count-update_unseen P (is_active_of t' u') (is_active_of t u) (revoked db.now)
              db.sessions
              (λ r a. ground (
                arith,
                eq_iff r.tenant_id t,
                eq_iff r.tenant_id t',
                eq_iff r.user_id u,
                eq_iff r.user_id u',
              ))),
      )

  pub answer_revoked-state :
      (t : String) (s : Session) (db : Db P.Table)
      → present t ≡ true
      → answer_revoked P X {A = Tokens} (some t) s db ≡ (
        err (unauthorized revoked_message),
        (revoke_all_user_sessions P X (some t) s.user_id db).1,
      )
  unfolding answer_revoked
  answer_revoked-state t s db h = ground (arith, revoke_all-state t s.user_id db h)

  -- A token of a revoked session is refused, and every active session of its user ends; those of
  -- other users and tenants stay.
  pub refresh_revoked :
      (t token : String) (o : Origin) (db : Db P.Table) (sid tok : String) (s : Session) (u : User)
      → Presents P t token db sid tok s u
      → is_some s.revoked_at ≡ true
      → let (r, db') = refresh P X (some t) token o db in
        (r ≡ err (unauthorized revoked_message))
        × (P.count (is_active_of t s.user_id) db'.sessions ≡ 0)
        × ((t' u' : String)
            → IsOther t s.user_id t' u'
            → P.count (is_active_of t' u') db'.sessions ≡ P.count (is_active_of t' u') db.sessions)
  refresh_revoked t token o db sid tok s u h dead =
      let (ended, kept) = revoke_all_exact t s.user_id db h.tenant_given in
      rw
        (refresh_cases t token o db sid tok s u h, dead, answer_revoked-state t s db h.tenant_given)
        (refl, ended, kept)

  -- the state that `answer_reuse` leaves: the session and then the active ones are revoked, and
  -- two events are written
  pub answer_reuse-state :
      (t sid : String) (s : Session) (o : Origin) (db : Db P.Table)
      → present t ≡ true
      → 1 ≤ P.count (has_key t sid) db.sessions
      → let (r, db') = answer_reuse P X {A = Tokens} (some t) t sid s o db in
        (r ≡ err (unauthorized reuse_message))
        × (db'.sessions
            ≡ P.update_many
                (is_active_of t s.user_id)
                (revoked db.now)
                (P.update_many (has_key t sid) (revoked db.now) db.sessions))
        × (db'.outbox_events
            ≡ P.create
                (new_event
                  (X.uuid (db.drawn + 1))
                  t
                  "SessionHijackDetected"
                  (hijack_payload s o)
                  db.now)
                (P.create
                  (new_event
                    (X.uuid db.drawn)
                    t
                    "AllSessionsRevoked"
                    (("userId", text (some s.user_id)) ∷ [])
                    db.now)
                  db.outbox_events))
  unfolding answer_reuse update_session revoke_all_user_sessions get_required_tenant_id create_event
  answer_reuse-state t sid s o db h n = ground arith

  -- A token whose hash is not the stored one, for a session that is not revoked: the answer is the
  -- reuse error, no session of the user is active any more, the active sessions of every other
  -- user and tenant stay, and exactly one event reports the hijacking.
  pub refresh_reuse :
      (t token : String) (o : Origin) (db : Db P.Table) (sid tok : String) (s : Session) (u : User)
      → Presents P t token db sid tok s u
      → s.revoked_at ≡ none
      → (s.refresh_ver_hash == X.sha256 tok) ≡ false
      → let (r, db') = refresh P X (some t) token o db in
        (r ≡ err (unauthorized reuse_message))
        × (P.count (is_active_of t s.user_id) db'.sessions ≡ 0)
        × ((t' u' : String)
            → IsOther t s.user_id t' u'
            → P.count (is_active_of t' u') db'.sessions ≡ P.count (is_active_of t' u') db.sessions)
        × (P.count (is_event t "SessionHijackDetected") db'.outbox_events
            ≡ P.count (is_event t "SessionHijackDetected") db.outbox_events + 1)
  refresh_reuse t token o db sid tok s u h live stale =
      let key = has_key t sid in
      let (found, _) = P.find_first_found key db.sessions s h.session_found in
      let (done, sessions, events) =
        answer_reuse-state t sid s o db h.tenant_given
          (count_found P key db.sessions s h.session_found) in
      let alive : is_some s.revoked_at ≡ false = rw live in
      rw (refresh_cases t token o db sid tok s u h, alive, stale, sessions, events, done)
        (
          refl,
          rw P.count-update_many (count_absent P _ _ (λ r. ground arith)),
          λ t' u' other.
              count-update_unseen P (is_active_of t' u') (is_active_of t s.user_id) (revoked db.now)
                _
                (λ r a. ground (
                  arith,
                  eq_iff r.tenant_id t,
                  eq_iff r.tenant_id t',
                  eq_iff r.user_id s.user_id,
                  eq_iff r.user_id u',
                ))
              ∙ count-update_key P key (is_active_of t' u') (revoked db.now) db.sessions s
                  h.session_found h.session_unique
                  (ground (
                    arith,
                    found,
                    eq_iff s.tenant_id t,
                    eq_iff s.tenant_id t',
                    eq_iff s.user_id u',
                  ))
                  (λ x a. ground arith),
          simp (P.count-create, eq_refl) (omega arith),
        )
