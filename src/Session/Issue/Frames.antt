-- ===== src/Session/Issue/Frames.antt =====
-- Signing and the DPoP check leave the sessions and the users alone.
use kavachid.Base.{◌≡◌, arith}
use kavachid.Prisma.{Client}
use kavachid.Schema.{Db}
use kavachid.Crypto.{Externals, Claims}
use kavachid.KeyPair.{get_active_key_pair}
use kavachid.Session.Issue.{Origin, check_dpop, sign_access_token}

module _ (P : Client) (X : Externals) where
  pub sessions-sign_access_token :
      (c : Claims) (db : Db P.Table)
      → ((sign_access_token P X c db).1.sessions ≡ db.sessions)
        × ((sign_access_token P X c db).1.users ≡ db.users)
  unfolding sign_access_token get_active_key_pair
  sessions-sign_access_token c db = ground arith

  pub check_dpop-state : (o : Origin) (db : Db P.Table) → (check_dpop P X o db).1 ≡ db
  unfolding check_dpop
  check_dpop-state o db = ground arith
