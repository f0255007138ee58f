-- ===== src/KeyPair/Rotated.antt =====
-- What a rotation of keys leaves: one active key of the algorithm, which signs from then on.
use kavachid.Base.{
  ◌≡◌, ◌≢◌, refl, false, ◌&&◌, String, ◌==◌, eq_iff, eq_refl, nat_eq, arith, ok, Bool-cases,
  Result-cases, template, decimal, [], ◌∷◌, inl, inr,
}
use kavachid.Prisma.{Client}
use kavachid.Prisma.Laws.{count_mono, count_absent, count-update_unseen}
use kavachid.Schema.{Db, KeyPair}
use kavachid.Crypto.{Externals}
use kavachid.KeyPair.{is_active, save, generate_and_save_key_pair, rotate_keys}

module _ (P : Client) (X : Externals) where
  -- the row of a key that was generated and saved
  generated :
      (algorithm : String) (db db' : Db P.Table) (k : KeyPair)
      → generate_and_save_key_pair P X algorithm db ≡ (ok k, db')
      → (db'.key_pairs ≡ P.create k db.key_pairs)
        × (k.status ≡ "active")
        × (k.algorithm ≡ algorithm)
  unfolding generate_and_save_key_pair save
  generated algorithm db db' k h =
      let kid = template ("kid_" ∷ decimal db.now ∷ "_" ∷ X.random_base36 db.drawn ∷ []) in
      elim (Bool-cases (nat_eq (P.count (λ x. x.kid == kid) db.key_pairs) 0)) [
        | inl free ↦ (ground (arith, free, h), ground (arith, free, h), ground (arith, free, h))
        | inr taken ↦ absurd (ground (arith, taken, h))
      ]

  -- the table after the old keys have expired
  abbrev expired : String → Db P.Table → P.Table KeyPair
  expired algorithm db =
      P.update_many (is_active algorithm) (λ k. record k { status = "expired"; active_to = db.now })
        db.key_pairs

  rotate-state :
      (algorithm : String) (db db' : Db P.Table) (answer : String × String)
      → rotate_keys P X algorithm db ≡ (ok answer, db')
      → (k : KeyPair) × (db'.key_pairs ≡ P.create k (expired algorithm db))
        × (k.status ≡ "active")
        × (k.algorithm ≡ algorithm)
        × (answer ≡ (k.kid, k.public_key_pem))
  unfolding rotate_keys
  rotate-state algorithm db db' answer h =
      let db1 = record db { key_pairs = expired algorithm db } in
      elim (Result-cases (generate_and_save_key_pair P X algorithm db1).0) [
        | inr (x, e) ↦ absurd (ground (arith, e, h))
        | inl (k, e) ↦
            let whole : generate_and_save_key_pair P X algorithm db1 ≡ (ok k, db') =
              ground (arith, e, h) in
            let (table, status, alg) = generated algorithm db1 db' k whole in
            (k, table, status, alg, ground (arith, e, h))
      ]

  -- After a rotation that goes through, exactly one key of the algorithm is active; its id is the
  -- one that the rotation answers; and the number of active keys of every other algorithm stays.
  pub rotate_one_active :
      (algorithm : String) (db db' : Db P.Table) (answer : String × String)
      → rotate_keys P X algorithm db ≡ (ok answer, db')
      → (P.count (is_active algorithm) db'.key_pairs ≡ 1)
        × (P.count (λ k. is_active algorithm k && k.kid == answer.0) db'.key_pairs ≡ 1)
        × ((other : String)
            → algorithm ≢ other
            → P.count (is_active other) db'.key_pairs ≡ P.count (is_active other) db.key_pairs)
  rotate_one_active algorithm db db' answer h =
      let (k, table, status, alg, same) = rotate-state algorithm db db' answer h in
      let gone : P.count (is_active algorithm) (expired algorithm db) ≡ 0 = rw P.count-update_many (
        count_absent P _ db.key_pairs (λ x. elim (Bool-cases (is_active algorithm x)) [
          | inl a ↦ rw a refl
          | inr a ↦ rw (a, a) refl
        ])) in
      let less =
        count_mono P (λ x. is_active algorithm x && x.kid == k.kid) (is_active algorithm)
          (expired algorithm db) (λ x a. ground arith) in
      (
        rw (table, P.count-create, status, alg, eq_refl algorithm, gone) refl,
        rw (table, P.count-create, status, alg, same, eq_refl algorithm, eq_refl k.kid)
            (omega (arith, gone, less)),
        λ other differs.
            let no_match : (algorithm == other) ≡ false =
              ground (arith, eq_iff algorithm other, differs) in
            rw (table, P.count-create, status, alg, no_match)
              (omega (
                arith,
                count-update_unseen P (is_active other) (is_active algorithm)
                    (λ k. record k { status = "expired"; active_to = db.now }) db.key_pairs
                    (λ x a.
                      ground (
                        arith,
                        a,
                        differs,
                        eq_iff x.algorithm algorithm,
                        eq_iff x.algorithm other,
                      )),
              )),
      )
