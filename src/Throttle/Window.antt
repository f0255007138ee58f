-- ===== src/Throttle/Window.antt =====
-- What a call of `increment` counts: the hits of the window that is open, and itself.
use kavachid.Base.{
  ℕ, ◌+◌, ◌-◌, ◌/◌, ◌≡◌, ◌≤◌, refl, Bool, true, false, not, ◌&&◌, Option, none, some, String,
  eq_refl, ltb, nat_eq, arith, ok, Option-cases, inl, inr, if◌then◌else◌, ◌∙◌,
}
use kavachid.Prisma.{Client}
use kavachid.Prisma.Laws.{
  count_absent, count_congr, count_mono, count-update_unseen, count_only, find_first_exists,
  find_first_all, count_found, created_found, created_same,
}
use kavachid.Schema.{Db, RateLimit}
use kavachid.Throttle.{
  Throttled, of_key, is_expired, counted, answer, clean_up, count_hit, increment,
}

-- the row of a key whose window is open
abbrev pub is_live : String → ℕ → RateLimit → Bool
is_live key now r = of_key key r && not (is_expired now r)

abbrev pub hits_of : Option RateLimit → ℕ
hits_of none = 0
hits_of (some r) = r.hits

module _ (P : Client) where
  -- the hits that are counted in the open window of a key
  abbrev pub live_hits : String → Db P.Table → ℕ
  live_hits key db = hits_of (P.find_first (is_live key db.now) db.rate_limits)

  module _ (key : String) (now : ℕ) (t : P.Table RateLimit) (one : P.count (of_key key) t ≤ 1) where
    abbrev cleaned : P.Table RateLimit
    cleaned = P.delete_many (is_expired now) t

    count-cleaned : P.count (of_key key) cleaned ≡ P.count (is_live key now) t
    count-cleaned = rw P.count-delete_many refl

    cleaned_live : P.count (of_key key) cleaned ≡ P.count (is_live key now) cleaned
    cleaned_live =
        rw (P.count-delete_many, P.count-delete_many)
          (count_congr P (λ x. of_key key x && not (is_expired now x))
            (λ x. is_live key now x && not (is_expired now x)) t (λ x. ground arith))

    live_one : P.count (is_live key now) t ≤ 1
    live_one =
        omega (arith, one, count_mono P (is_live key now) (of_key key) t (λ r h. ground arith))

    -- the row that is found after the cleaning is open, and has the hits of the open window
    found_live :
        (r : RateLimit)
        → P.find_first (of_key key) cleaned ≡ some r
        → (is_expired now r ≡ false) × (hits_of (P.find_first (is_live key now) t) ≡ r.hits)
    found_live r e =
        let open_row =
          find_first_all P (of_key key) (λ x. not (is_expired now x)) cleaned r e
            (rw P.count-delete_many (count_absent P _ t (λ x. ground arith))) in
        let (r0, e0) =
          find_first_exists P (is_live key now) t
            (omega (arith, count-cleaned, count_found P (of_key key) cleaned r e)) in
        let same_hits =
          find_first_all P (of_key key) (λ x. nat_eq r0.hits x.hits) cleaned r e
            (rw P.count-delete_many (
              count_congr P _ (λ x. is_live key now x && not (nat_eq r0.hits x.hits)) t
                (λ x. ground arith)
              ∙ count_only P (is_live key now) (λ x. not (nat_eq r0.hits x.hits)) t r0 e0 live_one
              ∙ ground arith)) in
        (ground arith, rw e0 (ground arith))

    missed_live :
        P.find_first (of_key key) cleaned ≡ none → hits_of (P.find_first (is_live key now) t) ≡ 0
    missed_live e = elim (Option-cases (P.find_first (is_live key now) t)) [
      | inl missed ↦ rw missed refl
      | inr (r, found) ↦ absurd (
          omega (
            arith,
            count-cleaned,
            P.find_first_missed (of_key key) cleaned e,
            count_found P (is_live key now) t r found,
          ))
    ]

  abbrev fresh : String → ℕ → RateLimit
  fresh key expires_at = record { key = key; hits = 1; expires_at = expires_at }

  count_hit_new :
      (key : String) (expires_at : ℕ) (db : Db P.Table)
      → P.find_first (of_key key) db.rate_limits ≡ none
      → count_hit P key expires_at db ≡ (
        ok (fresh key expires_at),
        record db { rate_limits = P.create (fresh key expires_at) db.rate_limits },
      )
  unfolding count_hit
  count_hit_new key expires_at db missed = ground arith

  count_hit_more :
      (key : String) (expires_at : ℕ) (db : Db P.Table) (r : RateLimit)
      → P.find_first (of_key key) db.rate_limits ≡ some r
      → count_hit P key expires_at db ≡ (
        ok (counted r),
        record db { rate_limits = P.update_many (of_key key) counted db.rate_limits },
      )
  unfolding count_hit
  count_hit_more key expires_at db r found = ground arith

  module _ (key : String) (now : ℕ) (t : P.Table RateLimit) (r : RateLimit)
      (found : P.find_first (of_key key) t ≡ some r)
      (live : P.count (of_key key) t ≡ P.count (is_live key now) t)
      (one : P.count (of_key key) t ≤ 1) where
    abbrev hit_table : P.Table RateLimit
    hit_table = P.update_many (of_key key) counted t

    count-hit_table : P.count (of_key key) hit_table ≡ 1
    count-hit_table = omega (
      arith,
      one,
      count_found P (of_key key) t r found,
      count-update_unseen P (of_key key) (of_key key) counted t (λ x h. refl),
    )

    hits-hit_table : hits_of (P.find_first (is_live key now) hit_table) ≡ r.hits + 1
    hits-hit_table =
        let kept = count-update_unseen P (is_live key now) (of_key key) counted t (λ x h. refl) in
        let (r', again) =
          find_first_exists P (is_live key now) hit_table
            (omega (arith, kept, live, count_found P (of_key key) t r found)) in
        let others = count_only P (of_key key) (λ x. not (nat_eq r.hits x.hits)) t r found one in
        let less =
          count_mono P
            (λ x.
              let y = if of_key key x then counted x else x in
              is_live key now y && not (nat_eq (r.hits + 1) y.hits))
            (λ x. of_key key x && not (nat_eq r.hits x.hits)) t (λ x h. ground arith) in
        let hit =
          find_first_all P (is_live key now) (λ x. nat_eq (r.hits + 1) x.hits) hit_table r' again
            (rw P.count-update_many (ground (arith, less, others))) in
        rw again (ground arith)

  abbrev after_cleaning : Db P.Table → Db P.Table
  after_cleaning db = record db { rate_limits = P.delete_many (is_expired db.now) db.rate_limits }

  increment_new :
      (key : String) (ttl limit : ℕ) (db : Db P.Table)
      → P.find_first (of_key key) (after_cleaning db).rate_limits ≡ none
      → increment P key ttl limit db ≡ (
        ok (answer 1 ((db.now + ttl - db.now) / 1000) limit),
        record db {
          rate_limits = P.create (fresh key (db.now + ttl)) (after_cleaning db).rate_limits;
        },
      )
  unfolding increment clean_up
  increment_new key ttl limit db missed =
      ground (arith, count_hit_new key (db.now + ttl) (after_cleaning db) missed)

  increment_more :
      (key : String) (ttl limit : ℕ) (db : Db P.Table) (r : RateLimit)
      → P.find_first (of_key key) (after_cleaning db).rate_limits ≡ some r
      → is_expired db.now r ≡ false
      → increment P key ttl limit db ≡ (
        ok (answer (r.hits + 1) ((r.expires_at - db.now) / 1000) limit),
        record db {
          rate_limits = P.update_many (of_key key) counted (after_cleaning db).rate_limits;
        },
      )
  unfolding increment clean_up
  increment_more key ttl limit db r found live =
      ground (arith, count_hit_more key (db.now + ttl) (after_cleaning db) r found)

  -- Where at most one row has a key, `increment` answers, and counts exactly one hit more than the
  -- open window of the key had, none where there is no open window; it blocks exactly above the
  -- limit; and the key has one row afterwards, whose window is open and has that many hits.
  pub increment_counts :
      (key : String) (ttl limit : ℕ) (db : Db P.Table)
      → P.count (of_key key) db.rate_limits ≤ 1
      → let n = live_hits key db + 1 in
        let (r, db') = increment P key ttl limit db in
        (a : Throttled) × (r ≡ ok a)
        × (a.total_hits ≡ n)
        × (a.is_blocked ≡ ltb limit n)
        × (live_hits key db' ≡ n)
        × (P.count (of_key key) db'.rate_limits ≡ 1)
  increment_counts key ttl limit db one =
      let t = (after_cleaning db).rate_limits in
      elim (Option-cases (P.find_first (of_key key) t)) [
        | inl missed ↦
            let none_there = P.find_first_missed (of_key key) t missed in
            let row = fresh key (db.now + ttl) in
            let here : is_live key db.now row ≡ true = ground (arith, eq_refl key) in
            let free : P.count (is_live key db.now) t ≡ 0 = omega (
              arith,
              none_there,
              count_mono P (is_live key db.now) (of_key key) t (λ r h. ground arith),
            ) in
            let (r', again) = created_found P (is_live key db.now) t row here free in
            let hit =
              created_same P (is_live key db.now) t row here free (λ r. nat_eq 1 r.hits) r' again
                refl in
            let before = missed_live key db.now db.rate_limits one missed in
            rw (increment_new key ttl limit db missed, before)
              (
                answer 1 ((db.now + ttl - db.now) / 1000) limit,
                refl,
                refl,
                refl,
                rw again (ground arith),
                rw (P.count-create, eq_refl key, none_there) refl,
              )
        | inr (r, found) ↦
            let (live, before) = found_live key db.now db.rate_limits one r found in
            let fewer : P.count (of_key key) t ≤ 1 = omega (
              arith,
              one,
              count-cleaned key db.now db.rate_limits one,
              live_one key db.now db.rate_limits one,
            ) in
            let all_live = cleaned_live key db.now db.rate_limits one in
            rw (increment_more key ttl limit db r found live, before)
              (
                answer (r.hits + 1) ((r.expires_at - db.now) / 1000) limit,
                refl,
                refl,
                refl,
                hits-hit_table key db.now t r found all_live fewer,
                count-hit_table key db.now t r found all_live fewer,
              )
      ]
