-- ===== src/Admin/Pages.antt =====
-- The pages of the audit log, read one after another.
use kavachid.Base.{
  map, not, nat_eq, sym, ◌&&◌, ℕ, zero, suc, ◌+◌, ◌*◌, ◌≤◌, ◌≡◌, refl, ◌∙◌, ap, Bool, true, Option,
  List, [], ◌∷◌, ◌++◌, take, length, String, arith, Result, ok, err,
}
use kavachid.Prisma.{Client, OrderBy, tally, desc}
use kavachid.Prisma.Laws.{count_absent}
use kavachid.Prisma.Arranged.{same_ids, tally-take}
use kavachid.Schema.{Db, AuditLog}
use kavachid.Crypto.{Externals}
use kavachid.Admin.{Page, drop, skip_and_take, paged, log_where, list_audit_logs}

module _ {A : Type 0} where
  take_nil : (n : ℕ) → take {A = A} n [] ≡ []
  take_nil zero = refl
  take_nil (suc n) = refl

  take-drop : (a b : ℕ) (l : List A) → take a l ++ take b (drop a l) ≡ take (a + b) l
  take-drop zero b l = let e : zero + b ≡ b = omega arith in rw e
  take-drop (suc a) b [] = rw (take_nil b) (rw (take_nil (suc a + b)))
  take-drop (suc a) b (x ∷ l) =
      let e : suc a + b ≡ suc (a + b) = omega arith in rw e (ap (◌∷◌ x) (take-drop a b l))

  take_all : (n : ℕ) (l : List A) → length l ≤ n → take n l ≡ l
  take_all zero [] h = refl
  take_all zero (x ∷ l) h = absurd (omega arith)
  take_all (suc n) [] h = refl
  take_all (suc n) (x ∷ l) h = ap (◌∷◌ x) (take_all n l (omega arith))

length-take : {R : Type 0} (n : ℕ) (l : List R) → length (take n l) ≤ n
length-take zero l = omega arith
length-take (suc n) [] = omega arith
length-take (suc n) (x ∷ l) = omega (arith, length-take n l)

tally-drop : {R : Type 0} (n : ℕ) (q : R → Bool) (l : List R) → tally q (drop n l) ≤ tally q l
tally-drop zero q l = omega arith
tally-drop (suc n) q [] = omega arith
tally-drop (suc n) q (e ∷ l) = ground (arith, tally-drop n q l)

module _ {A B : Type 0} (f : A → B) where
  map-take : (n : ℕ) (l : List A) → map f (take n l) ≡ take n (map f l)
  map-take zero l = refl
  map-take (suc n) [] = refl
  map-take (suc n) (x ∷ l) = ap (◌∷◌ (f x)) (map-take n l)

  map-drop : (n : ℕ) (l : List A) → map f (drop n l) ≡ drop n (map f l)
  map-drop zero l = refl
  map-drop (suc n) [] = refl
  map-drop (suc n) (x ∷ l) = map-drop n l

  map-append : (l k : List A) → map f (l ++ k) ≡ map f l ++ map f k
  map-append [] k = refl
  map-append (x ∷ l) k = ap (◌∷◌ (f x)) (map-append l k)

  length-map : (l : List A) → length (map f l) ≡ length l
  length-map [] = refl
  length-map (x ∷ l) = ap suc (length-map l)

length-tally : {R : Type 0} (l : List R) → length l ≡ tally (λ r. true) l
length-tally [] = refl
length-tally (r ∷ l) = omega (arith, length-tally l)

rows_of : {R : Type 0} → Result (Page R) → List R
rows_of (ok p) = p.rows
rows_of (err e) = []

module _ (P : Client) (X : Externals) (contains : String → Option String → Bool) where
  -- the rows of the pages up to one, in their order
  pub read_pages : String → Option String → ℕ → ℕ → Db P.Table → List AuditLog
  read_pages tenant_id search limit zero db = []
  read_pages tenant_id search limit (suc n) db =
      read_pages tenant_id search limit n db
      ++ rows_of (list_audit_logs P X contains tenant_id (suc n) limit search db).0

  -- no two rows of a list of the log have one time
  abbrev pub NoTiedLogs : String → Option String → Db P.Table → Type 0
  NoTiedLogs tenant_id search db =
      (at : ℕ)
      → P.count (λ l. nat_eq l.created_at at && log_where P X contains tenant_id search l)
          db.audit_logs
        ≤ 1

  -- the list that the pages are of
  abbrev pub all_logs : String → Option String → Db P.Table → List AuditLog
  all_logs tenant_id search db =
      P.find_many (log_where P X contains tenant_id search) (desc (λ l. l.created_at)) db.audit_logs

  seen_ids :
      (tenant_id : String) (search : Option String) (skip limit : ℕ) (db : Db P.Table)
      → NoTiedLogs tenant_id search db
      → map
          (λ l. l.id)
          (P.arranged
            (log_where P X contains tenant_id search)
            (desc (λ l. l.created_at))
            skip
            limit
            db.audit_logs)
        ≡ map (λ l. l.id) (all_logs tenant_id search db)
  seen_ids tenant_id search skip limit db no_ties =
      let q = log_where P X contains tenant_id search in
      let order : OrderBy AuditLog = desc (λ l. l.created_at) in
      let logs = db.audit_logs in
      same_ids (λ l. l.created_at) (λ l. l.id) (P.arranged q order skip limit logs)
        (P.find_many q order logs) (P.arranged_ordered q order skip limit logs)
        (P.find_many_ordered q order logs)
        (λ p. P.tally-arranged p q order skip limit logs ∙ sym (P.tally-find_many p q order logs))
        (λ k.
          omega (
            arith,
            no_ties k,
            P.tally-arranged (λ l. nat_eq l.created_at k) q order skip limit logs,
          ))

  read_pages-take :
      (tenant_id : String) (search : Option String) (limit n : ℕ) (db : Db P.Table)
      → NoTiedLogs tenant_id search db
      → map (λ l. l.id) (read_pages tenant_id search limit n db)
        ≡ take (n * limit) (map (λ l. l.id) (all_logs tenant_id search db))
  unfolding read_pages list_audit_logs paged skip_and_take rows_of
  read_pages-take tenant_id search limit zero db no_ties =
      let e : zero * limit ≡ 0 = omega arith in rw e refl
  read_pages-take tenant_id search limit (suc n) db no_ties =
      let e : suc n * limit ≡ n * limit + limit = grind arith in
      rw (map-append, read_pages-take tenant_id search limit n db no_ties)
        (rw (map-take, map-drop)
          (rw (seen_ids tenant_id search (n * limit) limit db no_ties)
            (rw e (take-drop (n * limit) limit _))))

  -- An administrator who reads the pages of the audit log in their order, until they reach the total
  -- that each of them names, has read the ids of all rows of the tenant that the search matches, each
  -- once, the latest first, where no two of these rows have the same time, and the log does not change
  -- meanwhile. Whatever the times, a page has no more rows than its limit, all of the tenant and matched.
  pub list_audit_logs-pages :
      (tenant_id : String) (search : Option String) (limit n : ℕ) (db : Db P.Table)
      → P.count (log_where P X contains tenant_id search) db.audit_logs ≤ n * limit
      → NoTiedLogs tenant_id search db
      → (map (λ l. l.id) (read_pages tenant_id search limit n db)
          ≡ map (λ l. l.id) (all_logs tenant_id search db))
        × ((k : ℕ)
            → (p : Page AuditLog) × ((list_audit_logs P X contains tenant_id
                  (suc k)
                  limit
                  search
                  db).0
                ≡ ok p)
              × (p.total ≡ P.count (log_where P X contains tenant_id search) db.audit_logs)
              × (length p.rows ≤ limit)
              × (tally (λ l. not (log_where P X contains tenant_id search l)) p.rows ≡ 0))
  unfolding list_audit_logs paged skip_and_take
  list_audit_logs-pages tenant_id search limit n db enough no_ties =
      let q = log_where P X contains tenant_id search in
      let order : OrderBy AuditLog = desc (λ l. l.created_at) in
      let all = all_logs tenant_id search db in
      let counted : length all ≡ P.count q db.audit_logs =
        length-tally all ∙ P.tally-find_many (λ r. true) q order db.audit_logs in
      (
        read_pages-take tenant_id search limit n db no_ties
            ∙ take_all (n * limit) (map (λ l. l.id) all)
                (omega (arith, enough, counted, length-map (λ (l : AuditLog). l.id) all)),
        λ k.
            let seen = P.arranged q order (k * limit) limit db.audit_logs in
            let rejected : AuditLog → Bool = λ l. not (q l) in
            (
              record {
                rows = take limit (drop (k * limit) seen);
                total = P.count q db.audit_logs;
                page = suc k;
                limit = limit;
              },
              refl,
              refl,
              length-take limit (drop (k * limit) seen),
              omega (
                arith,
                tally-take limit rejected (drop (k * limit) seen),
                tally-drop (k * limit) rejected seen,
                P.tally-arranged rejected q order (k * limit) limit db.audit_logs,
                count_absent P (λ l. rejected l && q l) db.audit_logs (λ l. ground arith),
              ),
            ),
      )
