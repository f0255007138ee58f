-- ===== src/Throttle.antt =====
-- src/modules/database/prisma-throttler.storage.ts: the counter behind the rate limits. One
-- instant stands for all `Date.now()` of one call.
pub mod Window
use kavachid.Base.{
  ℕ, ◌+◌, ◌-◌, ◌/◌, Bool, true, false, ◌&&◌, Option, none, some, String, ◌==◌, ltb, leb, Error,
  Result, ok, err, Exec, pure, gets, modify, ◌>>=◌, ◌>>◌, if◌then◌else◌,
}
use kavachid.Prisma.{Client, update}
use kavachid.Schema.{Db, RateLimit}

-- what `increment` answers
pub record Throttled : Type 0 where
  pub total_hits : ℕ
  pub time_to_expire : ℕ
  pub is_blocked : Bool
  pub time_to_block_expire : ℕ

-- `where: { key }`
abbrev pub of_key : String → RateLimit → Bool
of_key key r = r.key == key

-- `where: { expiresAt: { lt: new Date() } }`
abbrev pub is_expired : ℕ → RateLimit → Bool
is_expired now r = ltb r.expires_at now

-- `{ hits: { increment: 1 } }`
abbrev pub counted : RateLimit → RateLimit
counted r = record r { hits = r.hits + 1 }

abbrev pub answer : ℕ → ℕ → ℕ → Throttled
answer hits time_to_expire limit = record {
  total_hits = hits;
  time_to_expire = time_to_expire;
  is_blocked = ltb limit hits;
  time_to_block_expire = if ltb limit hits then time_to_expire else 0;
}

module _ (P : Client) where
  -- the `deleteMany` of expired rows
  unfoldable pub clean_up : Exec (Db P.Table) (Unit {0})
  clean_up =
      modify λ db. record db { rate_limits = P.delete_many (is_expired db.now) db.rate_limits }

  -- the `upsert`, with the row that it returns
  unfoldable pub count_hit : String → ℕ → Exec (Db P.Table) RateLimit
  count_hit key expires_at db =
      let fresh : RateLimit = record { key = key; hits = 1; expires_at = expires_at } in
      elim (P.find_first (of_key key) db.rate_limits) [
        | none ↦ (ok fresh, record db { rate_limits = P.create fresh db.rate_limits })
        | some r ↦ (
          ok (counted r),
          record db { rate_limits = P.update_many (of_key key) counted db.rate_limits },
        )
      ]

  -- the `update` of a row that has expired after all
  unfoldable pub reset : String → ℕ → Exec (Db P.Table) (Unit {0})
  reset key expires_at db =
      elim (update P (of_key key) (λ r. record r { hits = 1; expires_at = expires_at })
        db.rate_limits) [ ok t ↦ (ok tt, record db { rate_limits = t }) | err e ↦ (err e, db) ]

  -- `increment`
  unfoldable pub increment : String → ℕ → ℕ → Exec (Db P.Table) Throttled
  increment key ttl limit = do
    now ← gets (λ db. db.now)
    clean_up
    row ← count_hit key (now + ttl)
    if is_expired now row
        then (reset key (now + ttl) >> pure (answer 1 (ttl / 1000) limit))
        else pure (answer row.hits ((row.expires_at - now) / 1000) limit)
