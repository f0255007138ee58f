-- ===== src/Prisma.antt =====
-- The database client (@prisma/client over PostgreSQL) that every service calls. It is not part of
-- the repository: the services take it as a parameter, a record of the calls that they make. The
-- laws are the documented behaviour of these calls: what `count` answers after a write, and that a
-- query returns rows that match. A table is never looked into otherwise.
pub mod Laws
pub mod InMemory
pub mod Constraints
pub mod Arranged
use kavachid.Base.{
  String, ℕ, ◌+◌, ◌≤◌, ◌≡◌, Bool, true, false, not, ◌&&◌, Option, none, some, List, [], ◌∷◌, leb,
  if◌then◌else◌, Result, ok, err, Error, unique_violation, record_missing, nat_eq,
}

-- the `orderBy` of a query, by a numeric key
pub data OrderBy (R : Type 0) : Type 0 where
  unordered : OrderBy R
  asc desc : (R → ℕ) → OrderBy R

-- Whether `a` may stand before `b`.
abbrev pub in_order : {R : Type 0} → OrderBy R → R → R → Bool
in_order unordered a b = true
in_order (asc key) a b = leb (key a) (key b)
in_order (desc key) a b = leb (key b) (key a)

abbrev pub IsOrdered : {R : Type 0} → OrderBy R → List R → Type 0
IsOrdered o [] = Unit
IsOrdered o (a ∷ []) = Unit
IsOrdered o (a ∷ b ∷ l) = (in_order o a b ≡ true) × IsOrdered o (b ∷ l)

-- how many elements of a list pass a test
abbrev pub tally : {R : Type 0} → (R → Bool) → List R → ℕ
tally q [] = 0
tally q (r ∷ l) = (if q r then 1 else 0) + tally q l

pub record Client : Type 1 where
  pub Table : Type 0 → Type 0
  -- the calls, each with its `where`
  pub count : {R : Type 0} → (R → Bool) → Table R → ℕ
  pub find_first : {R : Type 0} → (R → Bool) → Table R → Option R
  pub find_many : {R : Type 0} → (R → Bool) → OrderBy R → Table R → List R
  -- The rows that match, in the order in which a `findMany` with `skip` and `take` sees them, which
  -- answers a part of them: two such queries may order rows differently where these tie.
  pub arranged : {R : Type 0} → (R → Bool) → OrderBy R → ℕ → ℕ → Table R → List R
  pub create : {R : Type 0} → R → Table R → Table R
  pub update_many : {R : Type 0} → (R → Bool) → (R → R) → Table R → Table R
  pub delete_many : {R : Type 0} → (R → Bool) → Table R → Table R
  -- which texts a UUID column takes
  pub is_uuid : String → Bool
  -- what is documented of them
  pub count-create :
      {R : Type 0} (q : R → Bool) (r : R) (t : Table R)
      → count q (create r t) ≡ (if q r then 1 else 0) + count q t
  pub count-update_many :
      {R : Type 0} (q p : R → Bool) (f : R → R) (t : Table R)
      → count q (update_many p f t) ≡ count (λ r. q (if p r then f r else r)) t
  pub count-delete_many :
      {R : Type 0} (q p : R → Bool) (t : Table R)
      → count q (delete_many p t) ≡ count (λ r. q r && not (p r)) t
  pub count_none : {R : Type 0} (t : Table R) → count (λ r. false) t ≡ 0
  pub count_split :
      {R : Type 0} (q p : R → Bool) (t : Table R)
      → count q t ≡ count (λ r. q r && p r) t + count (λ r. q r && not (p r)) t
  pub find_first_found :
      {R : Type 0} (p : R → Bool) (t : Table R) (r : R)
      → find_first p t ≡ some r
      → (p r ≡ true) × ((q : R → Bool) → q r ≡ true → 1 ≤ count q t)
  pub find_first_missed :
      {R : Type 0} (p : R → Bool) (t : Table R) → find_first p t ≡ none → count p t ≡ 0
  pub tally-find_many :
      {R : Type 0} (q p : R → Bool) (o : OrderBy R) (t : Table R)
      → tally q (find_many p o t) ≡ count (λ r. q r && p r) t
  pub find_many_ordered :
      {R : Type 0} (p : R → Bool) (o : OrderBy R) (t : Table R) → IsOrdered o (find_many p o t)
  pub tally-arranged :
      {R : Type 0} (q p : R → Bool) (o : OrderBy R) (skip limit : ℕ) (t : Table R)
      → tally q (arranged p o skip limit t) ≡ count (λ r. q r && p r) t
  pub arranged_ordered :
      {R : Type 0} (p : R → Bool) (o : OrderBy R) (skip limit : ℕ) (t : Table R)
      → IsOrdered o (arranged p o skip limit t)

-- `update` of the record with a unique key: it throws where there is none.
abbrev pub update :
    (P : Client) {R : Type 0} → (R → Bool) → (R → R) → P.Table R → Result (P.Table R)
update P p f t = if nat_eq (P.count p t) 0 then err record_missing else ok (P.update_many p f t)

-- `create` under a unique constraint: `clash` says which rows have the key of the new one.
abbrev pub create_unique :
    (P : Client) {R : Type 0} → (R → Bool) → R → P.Table R → Result (P.Table R)
create_unique P clash r t =
    if nat_eq (P.count clash t) 0 then ok (P.create r t) else err unique_violation
