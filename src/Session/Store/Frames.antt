-- ===== src/Session/Store/Frames.antt =====
-- What the writes of the session service do to the sessions, and that the others leave them alone.
use kavachid.Base.{◌≡◌, Bool, true, String, arith}
use kavachid.Prisma.{Client}
use kavachid.Prisma.Laws.{count_absent, count-update_unseen}
use kavachid.Schema.{Db, Session}
use kavachid.Crypto.{Externals}
use kavachid.Audit.{create_log}
use kavachid.Session.Store.{is_active_of, revoked, ensure_access, revoke_active}

module _ (P : Client) (X : Externals) where
  -- An access is recorded beside the sessions and the users.
  pub sessions-ensure_access :
      (t u s c : String) (db : Db P.Table)
      → ((ensure_access P X t u s c db).1.sessions ≡ db.sessions)
        × ((ensure_access P X t u s c db).1.users ≡ db.users)
  unfolding ensure_access create_log
  sessions-ensure_access t u s c db = ground arith

  -- After the revocation no session of the user is active.
  pub count-revoke_active :
      (t u : String) (db : Db P.Table)
      → P.count (is_active_of t u) (revoke_active P X t u db).1.sessions ≡ 0
  unfolding revoke_active
  count-revoke_active t u db =
      rw P.count-update_many (count_absent P _ db.sessions (λ r. ground arith))

  -- Sessions that it does not match keep their state.
  pub count-revoke_active_ne :
      (t u : String) (q : Session → Bool) (db : Db P.Table)
      → ((s : Session) → is_active_of t u s ≡ true → q (revoked db.now s) ≡ q s)
      → P.count q (revoke_active P X t u db).1.sessions ≡ P.count q db.sessions
  unfolding revoke_active
  count-revoke_active_ne t u q db h =
      count-update_unseen P q (is_active_of t u) (revoked db.now) db.sessions h
