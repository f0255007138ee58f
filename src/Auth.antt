-- ===== src/Auth.antt =====
-- src/modules/auth/: the guard of bearer tokens and the guard of permissions.
pub mod Bearer
pub mod Granted
use Prim.Native.String
use kavachid.Base.{
  ℕ, ◌≡◌, Bool, true, false, not, ◌&&◌, ◌||◌, Option, none, some, List, [], ◌∷◌, ◌++◌, String, ◌==◌,
  starts_with, truthy, or_else, template, present, drop_text, every, any, unauthorized, forbidden,
  message, Error, Result, ok, err, bind, if◌then◌else◌,
}
use kavachid.Prisma.{Client, unordered}
use kavachid.Schema.{Db, UserRole, RolePermission, Permission, KeyPair}
use kavachid.Crypto.{Externals, Claims, verify_jwt, verify_dpop}
use kavachid.Role.{permission_key}

-- `RequiredPermission`
pub record RequiredPermission : Type 0 where
  pub resource : String
  pub action : String

-- the user that `AuthGuard` binds to the request
pub record RequestUser : Type 0 where
  pub sub : Option String
  pub tenant_id : Option String
  pub email : Option String
  pub username : Option String

-- the parts of a request that the guards read
pub record Request : Type 0 where
  pub authorization : Option String
  pub dpop : Option String
  pub method : String
  pub secure : Bool
  pub host : String
  pub original_url : String

-- `${protocol}://${host}${originalUrl}`
abbrev pub url_of : Request → String
url_of r = template ((if r.secure then "https" else "http") ∷ "://" ∷ r.host ∷ r.original_url ∷ [])

abbrev pub wrapped : {A : Type 0} → Result A → Result A
wrapped (ok a) = ok a
wrapped (err e) = err (unauthorized (template ("Unauthorized: " ∷ message e ∷ [])))

module _ (P : Client) (X : Externals) where
  -- the check of a token that is bound to a DPoP key
  unfoldable pub check_binding : Claims → Request → ℕ → Result (Unit {0})
  check_binding claims request now =
      if not (truthy claims.jkt)
      then ok tt
      else if not (truthy request.dpop)
      then err (unauthorized "Missing required dpop header for DPoP-bound token")
      else bind (verify_dpop X (or_else request.dpop "") request.method (url_of request) now)
          λ proof.
            if not (or_else claims.jkt "" == proof.jkt)
            then err (unauthorized "DPoP thumbprint mismatch (token binding validation failed)")
            else ok tt

  -- the body of the `try`
  unfoldable pub check_token : String → Request → Db P.Table → Result RequestUser
  check_token token request db = bind (X.decode_header token) λ header.
      if not (truthy header.kid)
      then err (unauthorized "Invalid token structure (missing kid)")
      else elim (P.find_first (λ k. k.kid == or_else header.kid "") db.key_pairs) [
        | none ↦ err (unauthorized "Token signed by an unknown key identifier")
        | some key ↦
            bind (verify_jwt X token key.public_key_pem (some "https://kavachid.local") db.now)
              λ claims. bind (check_binding claims request db.now) λ _. ok (record {
                sub = claims.sub;
                tenant_id = claims.tenant_id;
                email = claims.email;
                username = claims.username;
              })
      ]

  -- `AuthGuard.canActivate`: the user bound to the request
  unfoldable pub authorize : Request → Db P.Table → Result RequestUser
  authorize request db =
      if not (truthy request.authorization)
        || not (starts_with (or_else request.authorization "") "Bearer ")
      then err (unauthorized "Missing or invalid Authorization header (expected Bearer token)")
      else wrapped (check_token (drop_text 7 (or_else request.authorization "")) request db)

-- the permissions that the found links and rows of a role give
abbrev pub keep_found : {A : Type 0} → Option A → List A → List A
keep_found none l = l
keep_found (some a) l = a ∷ l

abbrev pub meets : RequiredPermission → Permission → Bool
meets required up = up.resource == required.resource && up.action == required.action

-- a condition of a `where`; one on `undefined` is dropped
abbrev pub condition : String → Option String → Bool
condition column none = true
condition column (some s) = column == s

abbrev pub is_role_of : RequestUser → UserRole → Bool
is_role_of user g = condition g.tenant_id user.tenant_id && condition g.user_id user.sub

module _ (P : Client) where
  -- `role: { permissions: { permission } }` of one assignment
  abbrev pub links_of : UserRole → Db P.Table → List RolePermission
  links_of ur db =
      P.find_many (λ g. g.tenant_id == ur.tenant_id && g.role_id == ur.role_id) unordered
        db.role_permissions

  abbrev pub permission_of : Db P.Table → RolePermission → Option Permission
  permission_of db g = P.find_first (permission_key g.tenant_id g.permission_id) db.permissions

  unfoldable pub permissions_of_links : Db P.Table → List RolePermission → List Permission
  permissions_of_links db [] = []
  permissions_of_links db (g ∷ gs) = keep_found (permission_of db g) (permissions_of_links db gs)

  -- the `flatMap` over the user's roles
  unfoldable pub user_permissions : Db P.Table → List UserRole → List Permission
  user_permissions db [] = []
  user_permissions db (ur ∷ urs) =
      permissions_of_links db (links_of ur db) ++ user_permissions db urs

  abbrev pub roles_of : RequestUser → Db P.Table → List UserRole
  roles_of user db = P.find_many (is_role_of user) unordered db.user_roles

  -- whether the user has all required permissions
  unfoldable pub has_permissions : List RequiredPermission → RequestUser → Db P.Table → Bool
  has_permissions required user db =
      every (λ r. any (meets r) (user_permissions db (roles_of user db))) required

  -- `PermissionsGuard.canActivate`
  unfoldable pub can_activate :
      Option (List RequiredPermission) → Option RequestUser → Db P.Table → Result Bool
  can_activate none user db = ok true
  can_activate (some []) user db = ok true
  can_activate (some (r ∷ rs)) none db = err (forbidden "User context is missing")
  can_activate (some (r ∷ rs)) (some user) db =
      if has_permissions (r ∷ rs) user db
      then ok true
      else err (forbidden "You do not have the required permissions to access this resource")
