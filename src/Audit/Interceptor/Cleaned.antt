-- ===== src/Audit/Interceptor/Cleaned.antt =====
-- What an audit row keeps of the body of the request.
use kavachid.Base.{
  ◌&&◌, ◌≡◌, refl, true, false, Option, none, some, List, [], ◌∷◌, String, ◌==◌, eq_iff, truthy,
  or_else, Error, any, arith, ok, err, Result-cases, Bool-cases, inl, inr, if◌then◌else◌, ◌⊎◌, ◌+◌,
}
use kavachid.Prisma.Constraints.{tenant_exists}
use kavachid.Prisma.{Client}
use kavachid.Schema.{Db, AuditLog, Fields}
use kavachid.Crypto.{Externals}
use kavachid.Auth.{RequestUser}
use kavachid.Audit.{or_none, is_actor, create_log, log}
use kavachid.Audit.Interceptor.{
  AuditOptions, AuditRequest, Answer, actor_of_guard, member, remove_member, remove_members,
  sensitive_fields, tenant_of, resource_of, actor_of, actor_of_answer, first_truthy, write_log,
  intercept,
}

member-remove_member :
    (body : Fields) (gone name : String)
    → member (remove_member body gone) name ≡ (if gone == name then none else member body name)
unfolding member remove_member
member-remove_member [] gone name = ground arith
member-remove_member (p ∷ rest) gone name =
    ground (
      arith,
      member-remove_member rest gone name,
      eq_iff gone name,
      eq_iff gone p.0,
      eq_iff name p.0,
    )

member-remove_members :
    (body : Fields) (gone : List String) (name : String)
    → member (remove_members body gone) name
      ≡ (if any (λ g. g == name) gone then none else member body name)
unfolding remove_members
member-remove_members body [] name = refl
member-remove_members body (g ∷ gone) name =
    rw (member-remove_members (remove_member body g) gone name)
      (ground (arith, member-remove_member body g name))

known_text : (o : Option String) → truthy o ≡ true → o ≡ some (or_else o "")
known_text none h = absurd (ground arith)
known_text (some s) h = ground arith

or_none-truthy :
    (o : Option String) → or_none (first_truthy (none ∷ o ∷ [])) ≡ first_truthy (o ∷ [])
or_none-truthy none = refl
or_none-truthy (some s) = ground arith

-- the members of a body that no row may keep
abbrev pub secrets : List String
secrets =
    "password" ∷ "passwordHash" ∷ "clientSecret" ∷ "token" ∷ "refreshToken" ∷ "accessToken" ∷ []

module _ (P : Client) (X : Externals) where
  -- The interceptor never throws, and writes no other table. It writes nothing where the request has no
  -- tenant, where the resource cannot be read from the refresh token, where the tenant does not exist, or
  -- where the actor is no UUID. Else it writes one row, which is of the tenant of the request; its
  -- metadata has every member of the body but for the passwords, secrets and tokens, none of which it
  -- has. Where the bearer guard has bound the user, the actor of the row is whom the answer names, and
  -- not the caller.
  pub intercept_cleaned :
      (options : AuditOptions) (request : AuditRequest) (answer : Option Answer) (db : Db P.Table)
      → ((intercept P X (some options) request answer db ≡ (ok tt, db))
          × ((truthy (tenant_of request) ≡ false)
              ⊎ (((x : Error) × (resource_of request answer ≡ err x))
                  ⊎ ((tenant_exists P (or_else (tenant_of request) "") db
                        && is_actor P X (or_none (actor_of request answer)))
                      ≡ false))))
        ⊎ ((row : AuditLog) × (intercept P X (some options) request answer db ≡ (
          ok tt,
          record db { audit_logs = P.create row db.audit_logs; drawn = db.drawn + 1 },
        ))
            × (tenant_exists P row.tenant_id db ≡ true)
            × (is_actor P X row.actor_id ≡ true)
            × (tenant_of request ≡ some row.tenant_id)
            × ((k : String)
                → member row.metadata k
                  ≡ (if any (λ s. s == k) secrets then none else member request.body k))
            × ((u : RequestUser)
                → request.user ≡ some (actor_of_guard u)
                → row.actor_id ≡ first_truthy (actor_of_answer answer ∷ [])))
  unfolding intercept write_log log create_log actor_of
  intercept_cleaned options request answer db = elim (Bool-cases (truthy (tenant_of request))) [
    | inr missing ↦ inl (ground (arith, missing), inl missing)
    | inl there ↦ elim (Result-cases (resource_of request answer)) [
      | inr (x, e) ↦ inl (ground (arith, there, e), inr (inl (x, e)))
      | inl (resource_id, e) ↦
          let tenant_id = or_else (tenant_of request) "" in
          let actor_id = or_none (actor_of request answer) in
          elim (Bool-cases (tenant_exists P tenant_id db && is_actor P X actor_id)) [
            | inr refused ↦ inl (ground (arith, there, e, refused), inr (inr refused))
            | inl taken ↦ inr (
              record {
                id = X.uuid db.drawn;
                tenant_id = tenant_id;
                actor_id = actor_id;
                action = options.action;
                resource_type = options.resource_type;
                resource_id = or_none resource_id;
                metadata = remove_members request.body sensitive_fields;
                created_at = db.now;
              },
              ground (arith, there, e, taken),
              ground (arith, taken),
              ground (arith, taken),
              known_text (tenant_of request) there,
              λ k. member-remove_members request.body sensitive_fields k,
              λ u same. rw same (or_none-truthy (actor_of_answer answer)),
            )
          ]
    ]
  ]
