-- ===== src/Federation.antt =====
-- src/modules/federation/federation.service.ts: `handleCallback`, which links or provisions the user
-- of an outside provider. What `JSON.parse` of the decoded state gives is a parameter.
pub mod Linked
pub mod Routes
use kavachid.Base.{
  ℕ, Bool, true, false, ◌&&◌, Option, none, some, List, [], ◌∷◌, String, ◌==◌, split, template,
  or_else, plain, Error, Result, ok, err, Exec, pure, throw, lift, gets, ◌>>=◌, ◌>>◌, if◌then◌else◌,
}
use kavachid.Prisma.{Client, create_unique}
use kavachid.Schema.{Db, User, UserFederation, draw}
use kavachid.Crypto.{Externals}
use kavachid.Tenant.{get_required_tenant_id}
use kavachid.Session.Store.{user_key}
use kavachid.Session.Issue.{Tokens, create_session_for_user}
use kavachid.User.{of_email, create_user}

-- the profile that stands in for the answer of the provider
pub record Profile : Type 0 where
  pub id : String
  pub email : String
  pub name : String

pub record Callback : Type 0 where
  pub access_token : String
  pub refresh_token : String
  pub redirect_uri : String

-- `tenantId_provider_providerSubject`
abbrev pub link_key : String → String → String → UserFederation → Bool
link_key tenant_id provider subject f =
    f.tenant_id == tenant_id && (f.provider == provider && f.provider_subject == subject)

abbrev first_part : List String → Option String
first_part [] = none
first_part (s ∷ l) = some s

-- a user who is pre-verified by the provider
abbrev pub federated_user : String → String → Profile → ℕ → User
federated_user id tenant_id profile now = record {
  id = id;
  tenant_id = tenant_id;
  email = some profile.email;
  username = first_part (split b'@' profile.email);
  password_hash = none;
  status = "active";
  migration_status = "active";
  metadata = [];
  created_at = now;
  current_web_authn_challenge = none;
}

module _ (P : Client) (X : Externals) (redirect_of : String → Option String) where
  -- the profile of a code
  unfoldable pub profile_of : String → Exec (Db P.Table) Profile
  profile_of code =
      if code == "mock-code-google"
      then pure (record { id = "g-12345"; email = "federated@google.com"; name = "Google User" })
      else (draw X.random_base36 >>= λ suffix. pure (record {
        id = template ("ext-" ∷ suffix ∷ []);
        email = "demo-federated@example.com";
        name = "Federated User";
      }))

  -- the user of the email, or a new one
  unfoldable pub provision : String → Profile → Exec (Db P.Table) User
  provision tenant_id profile db = elim (P.find_first (of_email tenant_id profile.email) db.users) [
    | some user ↦ (ok user, db)
    | none ↦
        (do
          id ← draw X.uuid
          now ← gets (λ db. db.now)
          create_user P X (federated_user id tenant_id profile now)
          pure (federated_user id tenant_id profile now))
          db
  ]

  -- `prisma.userFederation.create`
  unfoldable pub create_link : UserFederation → Exec (Db P.Table) (Unit {0})
  create_link link db =
      elim (create_unique P (link_key link.tenant_id link.provider link.provider_subject) link
        db.user_federations) [
          | ok t ↦ (ok tt, record db { user_federations = t })
          | err e ↦ (err e, db)
        ]

  -- the provisioning, and the link to the user
  unfoldable pub link_user : String → String → Profile → Exec (Db P.Table) User
  link_user tenant_id provider profile = do
    user ← provision tenant_id profile
    id ← draw X.uuid
    create_link (record {
      id = id;
      tenant_id = tenant_id;
      user_id = user.id;
      provider = provider;
      provider_subject = profile.id;
    })
    pure user

  -- the linked user, read along with the link by its foreign key
  unfoldable pub resolve_user : String → String → Profile → Exec (Db P.Table) User
  resolve_user tenant_id provider profile db =
      elim (P.find_first (link_key tenant_id provider profile.id) db.user_federations) [
        | none ↦ link_user tenant_id provider profile db
        | some link ↦ elim (P.find_first (user_key tenant_id link.user_id) db.users) [
          | none ↦ (err (plain "Inconsistent query result"), db)
          | some user ↦ (ok user, db)
        ]
      ]

  -- `handleCallback`
  unfoldable pub handle_callback :
      Option String → String → String → String → String → String → Exec (Db P.Table) Callback
  handle_callback tenant provider code state ip_address user_agent = do
    tenant_id ← lift (get_required_tenant_id tenant)
    profile ← profile_of code
    user ← resolve_user tenant_id provider profile
    session ← create_session_for_user P X tenant user none ip_address user_agent none
    pure (record {
      access_token = session.access_token;
      refresh_token = session.refresh_token;
      redirect_uri = or_else (redirect_of state) "http://localhost:8080/";
    })
