-- ===== src/Prisma/Laws.antt =====
-- Consequences of the laws of `Client`, for predicates that agree, imply one another or exclude.
use kavachid.Base.{
  List, [], ◌∷◌, any, ◌↔◌, ◌≤◌, ◌≡◌, Bool, true, false, not, ◌&&◌, some, arith, ap, fun_ext, ◌∙◌,
  if◌then◌else◌, Bool-cases, Option-cases, inl, inr,
}
use kavachid.Prisma.{Client, OrderBy, tally}

module _ (P : Client) {R : Type 0} where
  pub count_congr :
      (q p : R → Bool) (t : P.Table R) → ((r : R) → q r ≡ p r) → P.count q t ≡ P.count p t
  count_congr q p t h = ap (λ (f : R → Bool). P.count f t) (fun_ext h)

  pub count_absent : (q : R → Bool) (t : P.Table R) → ((r : R) → q r ≡ false) → P.count q t ≡ 0
  count_absent q t h = rw (fun_ext h) (P.count_none t)

  pub count_mono :
      (q p : R → Bool) (t : P.Table R)
      → ((r : R) → q r ≡ true → p r ≡ true)
      → P.count q t ≤ P.count p t
  count_mono q p t h =
      let e = count_congr (λ r. p r && q r) q t (λ r. ground (arith, h r)) in
      omega (arith, e, P.count_split p q t)

  -- A condition split by a second one, under a third that is kept.
  pub count-update_unseen :
      (q p : R → Bool) (f : R → R) (t : P.Table R)
      → ((r : R) → p r ≡ true → q (f r) ≡ q r)
      → P.count q (P.update_many p f t) ≡ P.count q t
  count-update_unseen q p f t h =
      rw P.count-update_many
        (count_congr (λ r. q (if p r then f r else r)) q t (λ r. ground (arith, h r)))

  pub count-create_unseen :
      (q : R → Bool) (r : R) (t : P.Table R) → q r ≡ false → P.count q (P.create r t) ≡ P.count q t
  count-create_unseen q r t h = rw (P.count-create, h) (omega arith)

  -- The row that a query found is the only one of its key.
  pub count_only :
      (p q : R → Bool) (t : P.Table R) (r : R)
      → P.find_first p t ≡ some r
      → P.count p t ≤ 1
      → P.count (λ x. p x && q x) t ≡ (if q r then 1 else 0)
  count_only p q t r e u =
      let (here, many) = P.find_first_found p t r e in
      elim (Bool-cases (q r)) [
        | inl yes_q ↦
            rw yes_q (omega (arith, many (λ x. p x && q x) (ground arith), P.count_split p q t))
        | inr no_q ↦
            rw no_q
              (omega (arith, many (λ x. p x && not (q x)) (ground arith), P.count_split p q t))
      ]

  pub find_first_exists :
      (p : R → Bool) (t : P.Table R) → 1 ≤ P.count p t → (r : R) × (P.find_first p t ≡ some r)
  find_first_exists p t h = elim (Option-cases (P.find_first p t)) [
    | inl missed ↦ absurd (omega (arith, P.find_first_missed p t missed))
    | inr found ↦ found
  ]

  -- What a query finds where every matching row has one more property.
  pub find_first_all :
      (p q : R → Bool) (t : P.Table R) (r : R)
      → P.find_first p t ≡ some r
      → P.count (λ x. p x && not (q x)) t ≡ 0
      → q r ≡ true
  find_first_all p q t r e z =
      let (here, many) = P.find_first_found p t r e in
      elim (Bool-cases (q r)) [
        | inl fits ↦ fits
        | inr fails ↦ absurd (omega (arith, many (λ x. p x && not (q x)) (ground arith)))
      ]

  -- An update of the one row of a key, which passes the test neither before nor after.
  pub count-update_key :
      (p q : R → Bool) (f : R → R) (t : P.Table R) (r : R)
      → P.find_first p t ≡ some r
      → P.count p t ≤ 1
      → q r ≡ false
      → ((x : R) → p x ≡ true → q (f x) ≡ false)
      → P.count q (P.update_many p f t) ≡ P.count q t
  count-update_key p q f t r e u out gone =
      let swapped = count_congr (λ x. p x && q x) (λ x. q x && p x) t (λ x. ground arith) in
      let left =
        count_congr (λ x. q (if p x then f x else x)) (λ x. q x && not (p x)) t
          (λ x. ground (arith, gone x)) in
      rw P.count-update_many
        (omega (arith, left, swapped, P.count_split q p t, rw out at (count_only p q t r e u)))

  -- A row of the key is there, so an `update` by the key goes through.
  pub count_found :
      (p : R → Bool) (t : P.Table R) (r : R) → P.find_first p t ≡ some r → 1 ≤ P.count p t
  count_found p t r e = let (here, many) = P.find_first_found p t r e in many p here

-- The one row of a key, after an update of that row which keeps the key.
module _ (P : Client) {R : Type 0} (p : R → Bool) (f : R → R) (t : P.Table R) (r : R)
    (found : P.find_first p t ≡ some r) (kept : (x : R) → p x ≡ true → p (f x) ≡ true) where
  pub count-update_self : P.count p (P.update_many p f t) ≡ P.count p t
  count-update_self = count-update_unseen P p p f t (λ x h. rw (h, kept x h))

  pub found_again : (r' : R) × (P.find_first p (P.update_many p f t) ≡ some r')
  found_again =
      find_first_exists P p (P.update_many p f t)
        (omega (arith, count-update_self, count_found P p t r found))

  module _ (q : R → Bool) (r' : R) (again : P.find_first p (P.update_many p f t) ≡ some r') where
    -- what the update sets
    pub found_set : ((x : R) → p x ≡ true → q (f x) ≡ true) → q r' ≡ true
    found_set sets =
        find_first_all P p q (P.update_many p f t) r' again
          (rw P.count-update_many (count_absent P _ t (λ x. ground (arith, kept x, sets x))))

    -- what the update leaves
    pub found_left :
        P.count p t ≤ 1 → ((x : R) → p x ≡ true → q (f x) ≡ q x) → q r ≡ true → q r' ≡ true
    found_left u leaves h =
        let same =
          count-update_unseen P (λ x. p x && not (q x)) p f t
            (λ x a. ground (arith, kept x, leaves x)) in
        find_first_all P p q (P.update_many p f t) r' again
          (same ∙ rw h at (count_only P p (λ x. not (q x)) t r found u))

-- The row of a key that was free when it was created.
module _ (P : Client) {R : Type 0} (p : R → Bool) (t : P.Table R) (r : R) (here : p r ≡ true)
    (free : P.count p t ≡ 0) where
  pub count-create_self : P.count p (P.create r t) ≡ 1
  count-create_self = rw (P.count-create, here) (omega (arith, free))

  pub created_found : (r' : R) × (P.find_first p (P.create r t) ≡ some r')
  created_found = find_first_exists P p (P.create r t) (omega (arith, count-create_self))

  pub created_same :
      (q : R → Bool) (r' : R) → P.find_first p (P.create r t) ≡ some r' → q r ≡ true → q r' ≡ true
  created_same q r' found h = find_first_all P p q (P.create r t) r' found (
      rw (P.count-create, here, h)
        (omega (arith, free, count_mono P (λ x. p x && not (q x)) p t (λ x a. ground arith))))

-- A row of a table, by what every count says of it.
abbrev pub Stored : (P : Client) {R : Type 0} → P.Table R → R → Type 0
Stored P {R} t r = (q : R → Bool) → q r ≡ true → 1 ≤ P.count q t

any-tally : {R : Type 0} (q : R → Bool) (l : List R) → (any q l ≡ true) ↔ (1 ≤ tally q l)
any-tally q [] = (λ h. ground arith, λ h. ground arith)
any-tally q (r ∷ l) = (λ h. ground (arith, any-tally q l), λ h. ground (arith, any-tally q l))

-- A test passes on some row that a query returned, if and only if a stored row meets both.
module _ (P : Client) {R : Type 0} (q p : R → Bool) (o : OrderBy R) (t : P.Table R) where
  pub any-find_many :
      (any q (P.find_many p o t) ≡ true) → (r : R) × (q r ≡ true) × (p r ≡ true) × Stored P t r
  any-find_many h =
      let n = P.tally-find_many q p o t in
      let (r, e) =
        find_first_exists P (λ x. q x && p x) t
          (omega (arith, n, (any-tally q (P.find_many p o t)).0 h)) in
      let (here, many) = P.find_first_found (λ x. q x && p x) t r e in
      (r, ground arith, ground arith, many)

  pub find_many-any :
      (r : R) → q r ≡ true → p r ≡ true → Stored P t r → any q (P.find_many p o t) ≡ true
  find_many-any r hq hp stored =
      (any-tally q (P.find_many p o t)).1
        (omega (arith, P.tally-find_many q p o t, stored (λ x. q x && p x) (ground arith)))
