-- ===== src/Admin.antt =====
-- src/modules/admin/admin.service.ts: the lists of an administrator, by pages, and the revocation of a
-- session. How the database matches a text is a parameter.
pub mod Pages
use kavachid.Base.{
  ℕ, zero, suc, ◌-◌, ◌*◌, Bool, true, false, not, ◌&&◌, ◌||◌, Option, none, some, is_some, List, [],
  ◌∷◌, map, take, String, ◌==◌, nat_eq, truthy, or_else, plain, Result, ok, err, bind, Exec, gets,
  lift, ◌>>=◌, ◌>>◌, if◌then◌else◌,
}
use kavachid.Prisma.{Client, OrderBy, desc, unordered}
use kavachid.Schema.{Db, User, Role, UserRole, Session, AuditLog}
use kavachid.Crypto.{Externals}
use kavachid.Session.Store.{has_key, user_key, revoked, update_session}
use kavachid.Role.{role_key}

-- what a list answers
pub record Page (R : Type 0) : Type 0 where
  pub rows : List R
  pub total : ℕ
  pub page : ℕ
  pub limit : ℕ

-- without the first `n` elements
abbrev pub drop : {A : Type 0} → ℕ → List A → List A
drop zero l = l
drop (suc n) [] = []
drop (suc n) (a ∷ l) = drop n l

-- `findMany` with `skip` and `take`, where `skip` is `(page - 1) * limit`, of the rows as the query with
-- these sees them; the database client refuses a negative one
unfoldable pub skip_and_take : {R : Type 0} → ℕ → ℕ → (ℕ → ℕ → List R) → Result (List R)
skip_and_take zero limit seen =
    if nat_eq limit 0
    then ok []
    else err (plain "Invalid value for skip argument: Value can only be positive")
skip_and_take (suc n) limit seen = ok (take limit (drop (n * limit) (seen (n * limit) limit)))

-- a user with the roles, flattened, and a session with its user
abbrev pub WithRoles : Type 0
WithRoles = User × List Role

abbrev pub WithUser : Type 0
WithUser = Session × Option User

module _ (P : Client) (X : Externals) (contains : String → Option String → Bool) where
  -- `Promise.all` of the rows of a page and of their number
  unfoldable pub paged : {R : Type 0} → (R → Bool) → OrderBy R → P.Table R → ℕ → ℕ → Result (Page R)
  paged where_clause order table page limit =
      bind (skip_and_take page limit (λ skip n. P.arranged where_clause order skip n table)) λ rows.
        ok (record { rows = rows; total = P.count where_clause table; page = page; limit = limit })

  -- the condition that a search adds
  abbrev pub searched : Option String → (String → Bool) → Bool
  searched search matches = if truthy search then matches (or_else search "") else true

  abbrev pub user_where : String → Option String → User → Bool
  user_where tenant_id search u =
      u.tenant_id == tenant_id && searched search (λ s. contains s u.email || contains s u.username)

  -- `roles: { select: { role } }` of a user
  abbrev roles_of_links : String → Db P.Table → List UserRole → List Role
  roles_of_links tenant_id db [] = []
  roles_of_links tenant_id db (l ∷ rest) =
      let others = roles_of_links tenant_id db rest in
      elim (P.find_first (role_key tenant_id l.role_id) db.roles) [
        | none ↦ others
        | some role ↦ role ∷ others
      ]

  abbrev roles_of : String → Db P.Table → User → WithRoles
  roles_of tenant_id db u = (
    u,
    roles_of_links tenant_id db
        (P.find_many (λ l. l.tenant_id == tenant_id && l.user_id == u.id) unordered db.user_roles),
  )

  -- `listUsers`, with whole rows where the source selects columns
  unfoldable pub list_users : String → ℕ → ℕ → Option String → Exec (Db P.Table) (Page WithRoles)
  list_users tenant_id page limit search db = (
    bind (paged (user_where tenant_id search) (desc (λ u. u.created_at)) db.users page limit)
        λ found. ok (record {
          rows = map (roles_of tenant_id db) found.rows;
          total = found.total;
          page = found.page;
          limit = found.limit;
        }),
    db,
  )

  abbrev pub session_where : String → Session → Bool
  session_where tenant_id s = s.tenant_id == tenant_id && not (is_some s.revoked_at)

  -- `listSessions`
  unfoldable pub list_sessions : String → ℕ → ℕ → Exec (Db P.Table) (Page WithUser)
  list_sessions tenant_id page limit db = (
    bind (paged (session_where tenant_id) (desc (λ s. s.last_seen_at)) db.sessions page limit)
        λ found. ok (record {
          rows = map (λ s. (s, P.find_first (user_key tenant_id s.user_id) db.users)) found.rows;
          total = found.total;
          page = found.page;
          limit = found.limit;
        }),
    db,
  )

  -- `revokeSession`
  unfoldable pub revoke_session : String → String → Exec (Db P.Table) (Unit {0})
  revoke_session tenant_id session_id = do
    now ← gets (λ db. db.now)
    update_session P X tenant_id session_id (revoked now)

  abbrev pub log_where : String → Option String → AuditLog → Bool
  log_where tenant_id search l =
      l.tenant_id == tenant_id
      && searched search (λ s. contains s (some l.action) || contains s (some l.resource_type))

  -- `listAuditLogs`
  unfoldable pub list_audit_logs :
      String → ℕ → ℕ → Option String → Exec (Db P.Table) (Page AuditLog)
  list_audit_logs tenant_id page limit search db =
      (paged (log_where tenant_id search) (desc (λ l. l.created_at)) db.audit_logs page limit, db)
