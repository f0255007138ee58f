-- ===== src/Session/Refresh/Rotation.antt =====
-- Rotation: what a refresh that goes through has checked and done, and that the old token is dead.
use kavachid.Session.Refresh.Reuse.{
  refresh_cases, answer_revoked-state, answer_reuse-state, reuse_message, refresh_reuse,
}
use kavachid.Prisma.Laws.{count_found, found_again, found_left, found_set, count-update_self}
use kavachid.Base.{
  ◌≤◌, ◌≡◌, ◌==◌, true, false, not, none, some, is_some, unauthorized, refl, eq_refl, eq_iff,
  String, arith, ok, err,
}
use kavachid.Prisma.{Client}
use kavachid.Schema.{Db, User, Session}
use kavachid.Crypto.{Externals}
use kavachid.Session.Store.{has_key, is_active_of, update_session}
use kavachid.Session.Store.Frames.{sessions-ensure_access}
use kavachid.Session.Issue.{Tokens, Origin, refresh_token_of}
use kavachid.Session.Issue.Frames.{sessions-sign_access_token, check_dpop-state}
use kavachid.Session.Refresh.{rotated, rotate, renew, Presents, refresh}

module _ (P : Client) (X : Externals) where
  rotate-state :
      (t sid : String) (o : Origin) (db : Db P.Table)
      → 1 ≤ P.count (has_key t sid) db.sessions
      → ((rotate P X t sid o db).0 ≡ ok (X.random_hex db.drawn))
        × ((rotate P X t sid o db).1.sessions
            ≡ P.update_many
                (has_key t sid)
                (rotated (X.sha256 (X.random_hex db.drawn)) o db.now)
                db.sessions)
        × ((rotate P X t sid o db).1.users ≡ db.users)
  unfolding rotate update_session
  rotate-state t sid o db n = ground arith

  renew-state :
      (t sid : String) (s : Session) (u : User) (o : Origin) (db db' : Db P.Table) (k : Tokens)
      → 1 ≤ P.count (has_key t sid) db.sessions
      → renew P X t sid s u o db ≡ (ok k, db')
      → (k.refresh_token ≡ refresh_token_of sid (X.random_hex db.drawn))
        × (db'.sessions
            ≡ P.update_many
                (has_key t sid)
                (rotated (X.sha256 (X.random_hex db.drawn)) o db.now)
                db.sessions)
        × (db'.users ≡ db.users)
  unfolding renew
  renew-state t sid s u o db db' k n e = grind (
    arith,
    rotate-state t sid o db n,
    check_dpop-state,
    sessions-ensure_access,
    sessions-sign_access_token,
  )

  -- A refresh that goes through was of a live session, with the token whose hash is stored.
  refresh-renew :
      (t token : String) (o : Origin) (db db' : Db P.Table) (sid tok : String) (s : Session)
      (u : User) (k : Tokens)
      → Presents P t token db sid tok s u
      → refresh P X (some t) token o db ≡ (ok k, db')
      → (is_some s.revoked_at ≡ false)
        × ((s.refresh_ver_hash == X.sha256 tok) ≡ true)
        × (renew P X t sid s u o db ≡ (ok k, db'))
  refresh-renew t token o db db' sid tok s u k h e = ground (
    arith,
    refresh_cases P X t token o db sid tok s u h,
    answer_revoked-state P X t s db h.tenant_given,
    answer_reuse-state P X t sid s o db h.tenant_given
        (count_found P (has_key t sid) db.sessions s h.session_found),
  )

  -- The session after the rotation: the same user, live, and with the new hash.
  record Rotated (t sid : String) (db db' : Db P.Table) (s s' : Session) : Type 0 where
    found : P.find_first (has_key t sid) db'.sessions ≡ some s'
    unique : P.count (has_key t sid) db'.sessions ≤ 1
    user : s'.user_id ≡ s.user_id
    live : s'.revoked_at ≡ none
    hash : s'.refresh_ver_hash ≡ X.sha256 (X.random_hex db.drawn)

  Rotated-of :
      (t sid : String) (o : Origin) (db db' : Db P.Table) (s : Session)
      → P.find_first (has_key t sid) db.sessions ≡ some s
      → P.count (has_key t sid) db.sessions ≤ 1
      → is_some s.revoked_at ≡ false
      → db'.sessions
        ≡ P.update_many
            (has_key t sid)
            (rotated (X.sha256 (X.random_hex db.drawn)) o db.now)
            db.sessions
      → (s' : Session) × Rotated t sid db db' s s'
  Rotated-of t sid o db db' s found u live e =
      let key = has_key t sid in
      let hash = X.sha256 (X.random_hex db.drawn) in
      let f = rotated hash o db.now in
      let stays = λ (x : Session) (a : key x ≡ true). a in
      let (s', again) = found_again P key f db.sessions s found stays in
      let user =
        found_left P key f db.sessions s found stays (λ x. x.user_id == s.user_id) s' again u
          (λ x a. refl) (eq_refl s.user_id) in
      let alive =
        found_left P key f db.sessions s found stays (λ x. not (is_some x.revoked_at)) s' again u
          (λ x a. refl) (rw live) in
      let set =
        found_set P key f db.sessions s found stays (λ x. x.refresh_ver_hash == hash) s' again
          (λ x a. eq_refl hash) in
      (
        s',
        record {
          found = rw e again;
          unique = rw (e, count-update_self P key f db.sessions s found stays) u;
          user = (eq_iff _ _).0 user;
          live = ground arith;
          hash = (eq_iff _ _).0 set;
        },
      )

  -- A token that was rotated away: after a refresh with it went through, the same token is taken
  -- for a reuse. It gets the reuse error, and no session of the user is active any more. The new
  -- token value must have another hash, and the keys of the tables be unique.
  pub refresh_replay :
      (t token : String) (o o' : Origin) (db db' : Db P.Table) (sid tok : String) (s : Session)
      (u : User) (k : Tokens)
      → Presents P t token db sid tok s u
      → (X.sha256 (X.random_hex db.drawn) == X.sha256 tok) ≡ false
      → refresh P X (some t) token o db ≡ (ok k, db')
      → let (r, db'') = refresh P X (some t) token o' db' in
        (r ≡ err (unauthorized reuse_message))
        × (P.count (is_active_of t s.user_id) db''.sessions ≡ 0)
  refresh_replay t token o o' db db' sid tok s u k h fresh e =
      let (live, _, renewed) = refresh-renew t token o db db' sid tok s u k h e in
      let n = count_found P (has_key t sid) db.sessions s h.session_found in
      let (_, sessions, users) = renew-state t sid s u o db db' k n renewed in
      let (s', now) = Rotated-of t sid o db db' s h.session_found h.session_unique live sessions in
      let again : Presents P t token db' sid tok s' u = record {
        tenant_given = h.tenant_given;
        parts = h.parts;
        session_found = now.found;
        session_unique = now.unique;
        user_found = rw (now.user, users) h.user_found;
      } in
      let (refused, ended, _, _) =
        refresh_reuse P X t token o' db' sid tok s' u again now.live (rw now.hash fresh) in
      (refused, rw now.user at ended)
