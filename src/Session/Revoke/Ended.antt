-- ===== src/Session/Revoke/Ended.antt =====
-- What a logout and the revocation of one session end.
use kavachid.Base.{
  ◌≡◌, ◌≤◌, ◌⊎◌, refl, true, not, ◌&&◌, some, is_some, String, ◌==◌, eq_iff, eq_refl, split,
  present, arith, not_found, unauthorized, ok, err, Option-cases, Bool-cases, inl, inr,
}
use kavachid.Prisma.{Client}
use kavachid.Prisma.Laws.{
  count_absent, count_found, count-update_key, found_again, found_left, found_set,
  count-update_self,
}
use kavachid.Schema.{Db, Session, User}
use kavachid.Crypto.{Externals}
use kavachid.Tenant.{get_required_tenant_id}
use kavachid.Outbox.{create_event}
use kavachid.Session.Store.{has_key, is_active_of, revoked, update_session}
use kavachid.Session.Issue.{Origin}
use kavachid.Session.Refresh.{Presents, refresh, two_parts}
use kavachid.Session.Refresh.Reuse.{refresh_revoked, revoked_message, IsOther}
use kavachid.Session.Revoke.{not_owned, revoke_session, revoke, revoke_specific_session}

module _ (P : Client) (X : Externals) where
  revoke_session-state :
      (t sid : String) (db : Db P.Table)
      → 1 ≤ P.count (has_key t sid) db.sessions
      → let (r, db') = revoke_session P X t sid db in
        (r ≡ ok tt)
        × (db'.sessions ≡ P.update_many (has_key t sid) (revoked db.now) db.sessions)
        × (db'.users ≡ db.users)
  unfolding revoke_session update_session create_event
  revoke_session-state t sid db n = ground arith

  revoke-session :
      (t token sid tok : String) (db : Db P.Table)
      → present t ≡ true
      → two_parts (split b':' token) "Invalid token" ≡ ok (sid, tok)
      → revoke P X (some t) token db ≡ revoke_session P X t sid db
  unfolding revoke get_required_tenant_id
  revoke-session t token sid tok db ht parts = ground arith

  -- A logout goes through, and the refresh token that it was given is no good afterwards: it is
  -- answered as one of a revoked session. The keys of the tables must be unique.
  pub logout_refresh :
      (t token : String) (o : Origin) (db : Db P.Table) (sid tok : String) (s : Session) (u : User)
      → Presents P t token db sid tok s u
      → let (left, db') = revoke P X (some t) token db in
        (left ≡ ok tt) × ((refresh P X (some t) token o db').0 ≡ err (unauthorized revoked_message))
  logout_refresh t token o db sid tok s u h =
      let key = has_key t sid in
      let f = revoked db.now in
      let stays = λ (x : Session) (a : key x ≡ true). a in
      let there = count_found P key db.sessions s h.session_found in
      let (r, sessions, users) = revoke_session-state t sid db there in
      let db' = (revoke_session P X t sid db).1 in
      let (s', again) = found_again P key f db.sessions s h.session_found stays in
      let owner =
        found_left P key f db.sessions s h.session_found stays (λ x. x.user_id == s.user_id) s'
          again h.session_unique (λ x a. refl) (eq_refl s.user_id) in
      let gone =
        found_set P key f db.sessions s h.session_found stays (λ x. is_some x.revoked_at) s' again
          (λ x a. refl) in
      let same_user = (eq_iff s'.user_id s.user_id).0 owner in
      let pres : Presents P t token db' sid tok s' u = record {
        tenant_given = h.tenant_given;
        parts = h.parts;
        session_found = rw sessions again;
        session_unique =
            rw (sessions, count-update_self P key f db.sessions s h.session_found stays)
              h.session_unique;
        user_found = rw (same_user, users) h.user_found;
      } in
      let (refused, _, _) = refresh_revoked P X t token o db' sid tok s' u pres gone in
      rw (revoke-session t token sid tok db h.tenant_given (rw h.parts refl)) (r, refused)

  specific-owned :
      (t u sid : String) (s : Session) (db : Db P.Table)
      → present t ≡ true
      → P.find_first (has_key t sid) db.sessions ≡ some s
      → (s.user_id == u) ≡ true
      → revoke_specific_session P X (some t) u sid db ≡ revoke_session P X t sid db
  unfolding revoke_specific_session get_required_tenant_id
  specific-owned t u sid s db ht found own = ground arith

  pub specific-refused :
      (t u sid : String) (db : Db P.Table)
      → present t ≡ true
      → not_owned u (P.find_first (has_key t sid) db.sessions) ≡ true
      → revoke_specific_session P X (some t) u sid db ≡ (err (not_found "Session not found"), db)
  unfolding revoke_specific_session get_required_tenant_id
  specific-refused t u sid db ht other = ground arith

  -- `revokeSpecificSession` either ends a session that is the user's own, and no active session of
  -- another user or tenant, or it answers that there is none and changes nothing. The key of the
  -- sessions must be unique.
  pub revoke_specific_own :
      (t u sid : String) (db : Db P.Table)
      → present t ≡ true
      → P.count (has_key t sid) db.sessions ≤ 1
      → let (r, db') = revoke_specific_session P X (some t) u sid db in
        ((r ≡ ok tt)
          × ((s : Session) × (P.find_first (has_key t sid) db.sessions ≡ some s) × (s.user_id ≡ u))
          × (P.count (λ s. has_key t sid s && not (is_some s.revoked_at)) db'.sessions ≡ 0)
          × ((t' u' : String)
              → IsOther t u t' u'
              → P.count (is_active_of t' u') db'.sessions
                ≡ P.count (is_active_of t' u') db.sessions))
        ⊎ ((r ≡ err (not_found "Session not found")) × (db' ≡ db))
  revoke_specific_own t u sid db ht one =
      elim (Option-cases (P.find_first (has_key t sid) db.sessions)) [
        | inl missed ↦ rw (specific-refused t u sid db ht (rw missed refl)) (inr (refl, refl))
        | inr (s, found) ↦ elim (Bool-cases (s.user_id == u)) [
          | inr other ↦
              rw (specific-refused t u sid db ht (rw found (rw other refl))) (inr (refl, refl))
          | inl own ↦
              let (r, sessions, users) =
                revoke_session-state t sid db (count_found P (has_key t sid) db.sessions s found) in
              let owner = (eq_iff s.user_id u).0 own in
              let (here, _) = P.find_first_found (has_key t sid) db.sessions s found in
              rw (specific-owned t u sid s db ht found own) (
                inl (
                  r,
                  (s, found, owner),
                  rw (sessions, P.count-update_many)
                      (count_absent P _ db.sessions (λ x. ground arith)),
                  λ t' u' others. rw sessions (
                      count-update_key P (has_key t sid) (is_active_of t' u') (revoked db.now)
                        db.sessions s found one
                        (ground
                          (arith, eq_iff s.tenant_id t, eq_iff s.tenant_id t', eq_iff s.user_id u'))
                        (λ x a. ground arith)),
                ))
        ]
      ]
