-- ===== src/Prisma/InMemory.antt =====
-- A client whose tables are lists, which meets every law of `Client`: the assumptions can be met.
use kavachid.Base.{
  ◌+◌, ◌≤◌, ◌≡◌, refl, Bool, true, false, not, ◌&&◌, Option, none, some, List, [], ◌∷◌, arith,
  if◌then◌else◌, Bool-cases, inl, inr, ◌==◌,
}
use kavachid.Prisma.{OrderBy, unordered, asc, desc, in_order, IsOrdered, tally, Client}

module _ {R : Type 0} where
  abbrev pub find : (R → Bool) → List R → Option R
  find p [] = none
  find p (r ∷ l) = if p r then some r else find p l

  abbrev pub select : (R → Bool) → List R → List R
  select p [] = []
  select p (r ∷ l) = if p r then r ∷ select p l else select p l

  abbrev pub modify : (R → Bool) → (R → R) → List R → List R
  modify p f [] = []
  modify p f (r ∷ l) = (if p r then f r else r) ∷ modify p f l

  -- into its place, before the first row that may stand behind it
  abbrev pub place : OrderBy R → R → List R → List R
  place o r [] = r ∷ []
  place o r (x ∷ l) = if in_order o r x then r ∷ x ∷ l else x ∷ place o r l

  abbrev pub sort : OrderBy R → List R → List R
  sort o [] = []
  sort o (r ∷ l) = place o r (sort o l)

  pub tally-modify :
      (q p : R → Bool) (f : R → R) (t : List R)
      → tally q (modify p f t) ≡ tally (λ r. q (if p r then f r else r)) t
  tally-modify q p f [] = refl
  tally-modify q p f (r ∷ l) = rw (tally-modify q p f l)

  pub tally-rejected :
      (q p : R → Bool) (t : List R)
      → tally q (select (λ r. not (p r)) t) ≡ tally (λ r. q r && not (p r)) t
  tally-rejected q p [] = refl
  tally-rejected q p (r ∷ l) = ground (arith, tally-rejected q p l)

  tally-select : (q p : R → Bool) (t : List R) → tally q (select p t) ≡ tally (λ r. q r && p r) t
  tally-select q p [] = refl
  tally-select q p (r ∷ l) = ground (arith, tally-select q p l)

  pub tally_none : (t : List R) → tally (λ r. false) t ≡ 0
  tally_none [] = refl
  tally_none (r ∷ l) = omega (arith, tally_none l)

  pub tally_split :
      (q p : R → Bool) (t : List R)
      → tally q t ≡ tally (λ r. q r && p r) t + tally (λ r. q r && not (p r)) t
  tally_split q p [] = omega arith
  tally_split q p (r ∷ l) = ground (arith, tally_split q p l)

  pub find_found :
      (p : R → Bool) (t : List R) (r : R)
      → find p t ≡ some r
      → (p r ≡ true) × ((q : R → Bool) → q r ≡ true → 1 ≤ tally q t)
  find_found p [] r e = cc
  find_found p (x ∷ l) r e = elim (Bool-cases (p x)) [
    | inl hit ↦ (ground arith, λ q h. ground arith)
    | inr miss ↦
        let (here, later) = find_found p l r (ground arith) in
        (here, λ q h. ground (arith, later q h))
  ]

  pub find_missed : (p : R → Bool) (t : List R) → find p t ≡ none → tally p t ≡ 0
  find_missed p [] e = refl
  find_missed p (x ∷ l) e = ground (arith, find_missed p l)

  tally-place :
      (q : R → Bool) (o : OrderBy R) (r : R) (t : List R)
      → tally q (place o r t) ≡ (if q r then 1 else 0) + tally q t
  tally-place q o r [] = refl
  tally-place q o r (x ∷ l) = ground (arith, tally-place q o r l)

  tally-sort : (q : R → Bool) (o : OrderBy R) (t : List R) → tally q (sort o t) ≡ tally q t
  tally-sort q o [] = refl
  tally-sort q o (r ∷ l) = ground (arith, tally-place q o r (sort o l), tally-sort q o l)

  in_order_total : (o : OrderBy R) (a b : R) → in_order o a b ≡ false → in_order o b a ≡ true
  in_order_total unordered a b h = cc
  in_order_total (asc key) a b h = ground arith
  in_order_total (desc key) a b h = ground arith

  place-IsOrdered : (o : OrderBy R) (r : R) (t : List R) → IsOrdered o t → IsOrdered o (place o r t)
  place-IsOrdered o r [] h = tt
  place-IsOrdered o r (x ∷ []) h = ground (arith, in_order_total o r x)
  place-IsOrdered o r (x ∷ y ∷ l) h =
      ground (arith, in_order_total o r x, place-IsOrdered o r (y ∷ l) h.1)

  pub sort-IsOrdered : (o : OrderBy R) (t : List R) → IsOrdered o (sort o t)
  sort-IsOrdered o [] = tt
  sort-IsOrdered o (r ∷ l) = place-IsOrdered o r (sort o l) (sort-IsOrdered o l)

  pub tally-sort-select :
      (q p : R → Bool) (o : OrderBy R) (t : List R)
      → tally q (sort o (select p t)) ≡ tally (λ r. q r && p r) t
  tally-sort-select q p o t = rw tally-sort (tally-select q p t)

abbrev pub in_memory : Client
in_memory = record {
  Table = List;
  count = tally;
  find_first = find;
  find_many = λ p o t. sort o (select p t);
  create = ◌∷◌;
  update_many = modify;
  delete_many = λ p t. select (λ r. not (p r)) t;
  is_uuid = λ s. not (s == "");
  count-create = λ q r t. refl;
  count-update_many = tally-modify;
  count-delete_many = tally-rejected;
  count_none = tally_none;
  count_split = tally_split;
  find_first_found = find_found;
  find_first_missed = find_missed;
  tally-find_many = tally-sort-select;
  find_many_ordered = λ p o t. sort-IsOrdered o (select p t);
  arranged = λ p o skip limit t. sort o (select p t);
  tally-arranged = λ q p o skip limit t. tally-sort-select q p o t;
  arranged_ordered = λ p o skip limit t. sort-IsOrdered o (select p t);
}
