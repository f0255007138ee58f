-- ===== src/Outbox/Polling/Attempts.antt =====
-- The attempts that pending events have left, and how one delivery uses one up.
use kavachid.Base.{
  ℕ, zero, suc, ◌+◌, ◌-◌, ◌≡◌, ◌≤◌, refl, Bool, true, not, ◌&&◌, String, leb, nat_eq, arith, Result,
  ok, err, Bool-cases, inl, inr, if◌then◌else◌,
}
use kavachid.Prisma.{Client}
use kavachid.Prisma.Laws.{count_absent, count_mono}
use kavachid.Schema.{OutboxEvent}
use kavachid.Outbox.Polling.{is_open, of_id, processed, retried}

-- pending, with at most so many retries
abbrev pub open_upto : ℕ → OutboxEvent → Bool
open_upto k e = is_open e && leb e.retry_count k

-- less than the longest backoff old
abbrev pub is_young : ℕ → OutboxEvent → Bool
is_young now e = not (leb 16_000 (now - e.created_at))

-- what becomes of the row of an event, by the answer of the webhook
abbrev pub outcome : Result (Unit {0}) → ℕ → ℕ → OutboxEvent → OutboxEvent
outcome (ok t) now n = processed now
outcome (err x) now n = retried n

pub outcome_later :
    (answer : Result (Unit {0})) (now n k : ℕ) (e : OutboxEvent)
    → open_upto k (outcome answer now n e) ≡ true
    → leb (suc n) k ≡ true
outcome_later (ok t) now n k e h = absurd (ground arith)
outcome_later (err x) now n k e h = ground arith

pub outcome-id :
    (answer : Result (Unit {0})) (now n : ℕ) (e : OutboxEvent) → (outcome answer now n e).id ≡ e.id
outcome-id (ok t) now n e = refl
outcome-id (err x) now n e = refl

pub outcome-created_at :
    (answer : Result (Unit {0})) (now n : ℕ) (e : OutboxEvent)
    → (outcome answer now n e).created_at ≡ e.created_at
outcome-created_at (ok t) now n e = refl
outcome-created_at (err x) now n e = refl

module _ (P : Client) where
  -- The attempts that the pending events have left: five less the retries, for each.
  abbrev pub attempts : ℕ → P.Table OutboxEvent → ℕ
  attempts zero t = P.count (open_upto zero) t
  attempts (suc k) t = P.count (open_upto (suc k)) t + attempts k t

  module _ (id : String) (n : ℕ) (f : OutboxEvent → OutboxEvent) (t : P.Table OutboxEvent)
      (unique : P.count (of_id id) t ≤ 1)
      (there : 1 ≤ P.count (λ e. of_id id e && (is_open e && nat_eq e.retry_count n)) t)
      (later : (k : ℕ) (e : OutboxEvent) → open_upto k (f e) ≡ true → leb (suc n) k ≡ true) where
    count-outcome :
        (k : ℕ)
        → P.count (open_upto k) (P.update_many (of_id id) f t) + (if nat_eq n k then 1 else 0)
          ≤ P.count (open_upto k) t
    count-outcome k =
        let g : OutboxEvent → Bool = λ e. open_upto k (if of_id id e then f e else e) in
        let after = P.count-update_many (open_upto k) (of_id id) f t in
        let cut = P.count_split g (of_id id) t in
        let cut' = P.count_split (open_upto k) (of_id id) t in
        let others =
          count_mono P (λ e. g e && not (of_id id e)) (λ e. open_upto k e && not (of_id id e)) t
            (λ e. ground arith) in
        elim (Bool-cases (leb (suc n) k)) [
          | inl more ↦
              let own = count_mono P (λ e. g e && of_id id e) (of_id id) t (λ e. ground arith) in
              let mine =
                count_mono P (λ e. of_id id e && (is_open e && nat_eq e.retry_count n))
                  (λ e. open_upto k e && of_id id e) t (λ e. ground arith) in
              ground (arith, after, cut, cut', others, own, mine)
          | inr last ↦
              let gone =
                count_absent P (λ e. g e && of_id id e) t (λ e. ground (arith, later k e)) in
              elim (Bool-cases (nat_eq n k)) [
                | inl same ↦
                    let mine =
                      count_mono P (λ e. of_id id e && (is_open e && nat_eq e.retry_count n))
                        (λ e. open_upto k e && of_id id e) t (λ e. ground arith) in
                    ground (arith, after, cut, cut', others, gone, mine)
                | inr other ↦ ground (arith, after, cut, cut', others, gone)
              ]
        ]

    pub attempts-outcome :
        (k : ℕ)
        → attempts k (P.update_many (of_id id) f t) + (if leb n k then 1 else 0) ≤ attempts k t
    attempts-outcome zero = ground (arith, count-outcome zero)
    attempts-outcome (suc k) = ground (arith, count-outcome (suc k), attempts-outcome k)
