-- ===== src/Threat/Locked.antt =====
-- What the worker locks stays out: the next login of the user is refused.
use kavachid.Base.{◌≡◌, some, String}
use kavachid.Prisma.{Client}
use kavachid.Schema.{Db, User, Tenant}
use kavachid.Crypto.{Externals}
use kavachid.Session.Store.{user_key, is_named}
use kavachid.Threat.{is_lockable, locked}

module _ (P : Client) (X : Externals) where
  -- the one user of an identifier after the row of that user is locked
  module _ (t ident : String) (db : Db P.Table) (u : User)
      (one : P.count (is_named t ident) db.users ≡ 1)
      (found : P.find_first (is_lockable t ident) db.users ≡ some u) where
    abbrev updated : P.Table User
    updated = P.update_many (user_key t u.id) locked db.users
