-- ===== src/User/Routes.antt =====
-- src/modules/user/user.controller.ts: the handlers, and what they show of a user.
use kavachid.Base.{ℕ, Option, String, ok, err, Exec, pure, ◌>>=◌}
use kavachid.Prisma.{Client}
use kavachid.Schema.{Db, User, Fields}
use kavachid.Crypto.{Externals}
use kavachid.Tenant
use kavachid.User.{Verified, register_user, verify_credentials, get_user_by_id}

-- the members of a user that are shown
pub record PublicUser : Type 0 where
  pub id : String
  pub email : Option String
  pub username : Option String
  pub status : String
  pub migration_status : String
  pub created_at : ℕ

abbrev pub public_user : User → PublicUser
public_user user = record {
  id = user.id;
  email = user.email;
  username = user.username;
  status = user.status;
  migration_status = user.migration_status;
  created_at = user.created_at;
}

module _ (P : Client) (X : Externals) where
  -- `@UseGuards(TenantGuard)`
  unfoldable pub in_tenant :
      {A : Type 0} → Option String → Exec (Db P.Table) A → Exec (Db P.Table) A
  in_tenant tenant handler db = elim (Tenant.can_activate tenant) [
    | err e ↦ (err e, db)
    | ok t ↦ handler db
  ]

  -- `register`
  unfoldable pub register_route :
      Option String
      → Option String
      → Option String
      → Option String
      → Fields
      → Exec (Db P.Table) PublicUser
  register_route tenant email password username metadata = in_tenant tenant (
      register_user P X tenant email password username metadata >>= λ user. pure (public_user user))

  -- `verifyPassword`
  unfoldable pub verify_password_route :
      Option String → String → String → Exec (Db P.Table) Verified
  verify_password_route tenant identifier password =
      in_tenant tenant (verify_credentials P X tenant identifier password)

  -- `getUser`
  unfoldable pub get_user_route : Option String → String → Exec (Db P.Table) PublicUser
  get_user_route tenant id =
      in_tenant tenant (get_user_by_id P X tenant id >>= λ user. pure (public_user user))
