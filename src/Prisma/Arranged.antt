-- ===== src/Prisma/Arranged.antt =====
-- Two ordered lists of the same rows, no two of which tie, name the same ids in the same order.
use kavachid.Base.{
  take, zero, suc, ℕ, ◌≡◌, ◌≤◌, refl, Bool, true, not, ◌&&◌, List, [], ◌∷◌, map, String, ◌==◌,
  eq_iff, eq_refl, nat_eq, ltb, arith, sym,
}
use kavachid.Prisma.{desc, IsOrdered, tally}

pub tally-take : {R : Type 0} (n : ℕ) (q : R → Bool) (l : List R) → tally q (take n l) ≤ tally q l
tally-take zero q l = omega arith
tally-take (suc n) q [] = omega arith
tally-take (suc n) q (e ∷ l) = ground (arith, tally-take n q l)

module _ {R : Type 0} where
  -- None of a list fits a condition that all of it exclude.
  pub tally_without :
      (q p : R → Bool) (l : List R) → tally p l ≡ 0 → tally q l ≡ tally (λ r. q r && not (p r)) l
  tally_without q p [] h = refl
  tally_without q p (e ∷ l) h = ground (arith, tally_without q p l)

  tally_mono :
      (q p : R → Bool) (l : List R) → ((r : R) → q r ≡ true → p r ≡ true) → tally q l ≤ tally p l
  tally_mono q p [] h = omega arith
  tally_mono q p (e ∷ l) h = ground (arith, h e, tally_mono q p l h)

module _ {R : Type 0} (key : R → ℕ) (id : R → String) where
  IsOrdered-tail : (a : R) (l : List R) → IsOrdered (desc key) (a ∷ l) → IsOrdered (desc key) l
  IsOrdered-tail a [] h = tt
  IsOrdered-tail a (b ∷ l) h = h.1

  -- no row of an ordered list comes before the first one
  first_is_last :
      (a : R) (l : List R)
      → IsOrdered (desc key) (a ∷ l)
      → tally (λ r. ltb (key a) (key r)) (a ∷ l) ≡ 0
  first_is_last a [] h = ground arith
  first_is_last a (b ∷ l) h = ground (
    arith,
    first_is_last b l h.1,
    tally_mono (λ r. ltb (key a) (key r)) (λ r. ltb (key b) (key r)) l (λ r. ground (arith, h.0)),
  )

  -- the same rows, counted by any condition
  abbrev pub SameRows : List R → List R → Type 0
  SameRows l l' = (q : R → Bool) → tally q l ≡ tally q l'

  -- no two rows of one time
  abbrev pub NoTies : List R → Type 0
  NoTies l = (k : ℕ) → tally (λ r. nat_eq (key r) k) l ≤ 1

  same_first :
      (a b : R) (l l' : List R)
      → IsOrdered (desc key) (a ∷ l)
      → IsOrdered (desc key) (b ∷ l')
      → SameRows (a ∷ l) (b ∷ l')
      → NoTies (a ∷ l)
      → (key a ≡ key b) × (id a ≡ id b)
  same_first a b l l' ord ord' same one =
      let above = first_is_last a l ord in
      let above' = first_is_last b l' ord' in
      let ties = same (λ r. nat_eq (key r) (key a)) in
      let both : R → Bool = λ r. nat_eq (key r) (key a) && id r == id a in
      let less = tally_mono both (λ r. nat_eq (key r) (key a)) l' (λ r. ground arith) in
      let keys : key a ≡ key b =
        ground (
          arith,
          same (λ r. ltb (key b) (key r)),
          same (λ r. ltb (key a) (key r)),
          above,
          above',
        ) in
      let ids : (id b == id a) ≡ true =
        ground (arith, keys, ties, one (key a), less, same both, eq_refl (id a)) in
      (keys, sym ((eq_iff (id b) (id a)).0 ids))

  same_rest :
      (a b : R) (l l' : List R)
      → key a ≡ key b
      → SameRows (a ∷ l) (b ∷ l')
      → NoTies (a ∷ l)
      → SameRows l l'
  same_rest a b l l' keys same one q =
      let tied : R → Bool = λ r. nat_eq (key r) (key a) in
      let others : R → Bool = λ r. q r && not (tied r) in
      let none_left : tally tied l ≡ 0 = ground (arith, one (key a)) in
      let none_left' : tally tied l' ≡ 0 = ground (arith, one (key a), keys, same tied) in
      ground (
        arith,
        keys,
        same others,
        tally_without q tied l none_left,
        tally_without q tied l' none_left',
      )

  pub same_ids :
      (l l' : List R)
      → IsOrdered (desc key) l
      → IsOrdered (desc key) l'
      → SameRows l l'
      → NoTies l
      → map id l ≡ map id l'
  same_ids [] [] ord ord' same one = refl
  same_ids [] (b ∷ l') ord ord' same one = absurd (omega (arith, same (λ r. true)))
  same_ids (a ∷ l) [] ord ord' same one = absurd (omega (arith, same (λ r. true)))
  same_ids (a ∷ l) (b ∷ l') ord ord' same one =
      let (keys, ids) = same_first a b l l' ord ord' same one in
      let rest =
        same_ids l l' (IsOrdered-tail a l ord) (IsOrdered-tail b l' ord')
          (same_rest a b l l' keys same one) (λ k. ground (arith, one k)) in
      rw (ids, rest) refl
