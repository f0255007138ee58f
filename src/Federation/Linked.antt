-- ===== src/Federation/Linked.antt =====
-- A provider's subject stays the same user.
use kavachid.Base.{
  ◌+◌, ◌≡◌, true, Option, none, some, String, ◌==◌, eq_iff, eq_refl, arith, ok, Option-cases,
  Result-cases, inl, inr,
}
use kavachid.Prisma.{Client}
use kavachid.Prisma.Laws.{count_found, created_found, created_same}
use kavachid.Schema.{Db, User, UserFederation}
use kavachid.Crypto.{Externals}
use kavachid.Session.Store.{user_key}
use kavachid.User.{create_user}
use kavachid.Federation.{Profile, link_key, provision, create_link, link_user, resolve_user}

module _ (P : Client) (X : Externals) (redirect_of : String → Option String) where
  -- what a provisioning leaves: the links as they were
  provision-links :
      (t : String) (p : Profile) (db : Db P.Table)
      → (provision P X redirect_of t p db).1.user_federations ≡ db.user_federations
  unfolding provision create_user
  provision-links t p db = ground arith

  create_link-state :
      (link : UserFederation) (db : Db P.Table)
      → P.count (link_key link.tenant_id link.provider link.provider_subject) db.user_federations
        ≡ 0
      → create_link P X redirect_of link db
        ≡ (ok tt, record db { user_federations = P.create link db.user_federations })
  unfolding create_link
  create_link-state link db free = ground arith

  -- the row that links a user to a subject
  abbrev link_of : String → String → String → String → String → UserFederation
  link_of id t provider subject user_id = record {
    id = id;
    tenant_id = t;
    user_id = user_id;
    provider = provider;
    provider_subject = subject;
  }

  link_user-state :
      (t provider : String) (p : Profile) (db db' : Db P.Table) (u : User)
      → P.count (link_key t provider p.id) db.user_federations ≡ 0
      → link_user P X redirect_of t provider p db ≡ (ok u, db')
      → (id : String) × (db'.user_federations
          ≡ P.create (link_of id t provider p.id u.id) db.user_federations)
  unfolding link_user
  link_user-state t provider p db db' u free h =
      let kept = provision-links t p db in
      elim (Result-cases (provision P X redirect_of t p db).0) [
        | inr (x, e) ↦ absurd (ground (arith, e, h))
        | inl (w, e) ↦
            let db1 = (provision P X redirect_of t p db).1 in
            let link = link_of (X.uuid db1.drawn) t provider p.id w.id in
            let db2 = record db1 { drawn = db1.drawn + 1 } in
            let made = create_link-state link db2 (rw kept free) in
            let same : w ≡ u = ground (arith, e, h, made) in
            (X.uuid db1.drawn, rw (← same, ← kept) (ground (arith, e, h, made)))
      ]

  resolve-missed :
      (t provider : String) (p : Profile) (db : Db P.Table)
      → P.find_first (link_key t provider p.id) db.user_federations ≡ none
      → resolve_user P X redirect_of t provider p db ≡ link_user P X redirect_of t provider p db
  unfolding resolve_user
  resolve-missed t provider p db missed = ground arith

  resolve-found :
      (t provider : String) (p : Profile) (db : Db P.Table) (link : UserFederation) (v : User)
      → P.find_first (link_key t provider p.id) db.user_federations ≡ some link
      → P.find_first (user_key t link.user_id) db.users ≡ some v
      → resolve_user P X redirect_of t provider p db ≡ (ok v, db)
  unfolding resolve_user
  resolve-found t provider p db link v found user = ground arith

  -- A subject that was seen once is the same user from then on: where a user was linked for a
  -- subject without a link, the next callback for it resolves to the user of that id, if there is
  -- one, and changes nothing.
  pub resolve_again :
      (t provider : String) (p : Profile) (db db' : Db P.Table) (u v : User)
      → P.count (link_key t provider p.id) db.user_federations ≡ 0
      → resolve_user P X redirect_of t provider p db ≡ (ok u, db')
      → P.find_first (user_key t u.id) db'.users ≡ some v
      → resolve_user P X redirect_of t provider p db' ≡ (ok v, db')
  resolve_again t provider p db db' u v none_there h found =
      let key = link_key t provider p.id in
      elim (Option-cases (P.find_first key db.user_federations)) [
        | inr (l, e) ↦ absurd (omega (arith, none_there, count_found P key db.user_federations l e))
        | inl missed ↦
            let (id, table) =
              link_user-state t provider p db db' u none_there
                (rw (resolve-missed t provider p db missed) at h) in
            let link = link_of id t provider p.id u.id in
            let here : key link ≡ true =
              ground (arith, eq_refl t, eq_refl provider, eq_refl p.id) in
            let (l, again) = created_found P key db.user_federations link here none_there in
            let owner =
              created_same P key db.user_federations link here none_there (λ x. x.user_id == u.id) l
                again (eq_refl u.id) in
            let same = (eq_iff l.user_id u.id).0 owner in
            resolve-found t provider p db' l v (rw table again) (rw same found)
      ]
