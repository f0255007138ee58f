-- ===== src/Kse/Evaluation.antt =====
-- What an evaluation answers for the whole request: the score, VPN requests, and the log.
use kavachid.Base.{
  Bool, ℕ, ◌+◌, ◌≡◌, ◌≤◌, Option, none, some, List, [], ◌∷◌, String, ◌==◌, arith, ◌&&◌, min,
  if◌then◌else◌,
}
use kavachid.Prisma.Constraints.{tenant_exists}
use kavachid.Prisma.{Client}
use kavachid.Schema.{Db, UserRiskProfile}
use kavachid.Crypto.{Externals}
use kavachid.Kse.{EvaluateRequest, calculate_risk_score}

-- what each reason weighs, for a user of the given base risk
abbrev pub weight : ℕ → String → ℕ
weight base reason =
    if reason == "NEW_DEVICE"
    then 20
    else if reason == "UNTRUSTED_DEVICE"
    then 10
    else if reason == "NETWORK_VPN_DETECTED"
    then 40
    else if reason == "USER_BASE_RISK"
    then base
    else 0

abbrev pub total_weight : ℕ → List String → ℕ
total_weight base [] = 0
total_weight base (r ∷ l) = weight base r + total_weight base l

abbrev pub base_of : Option UserRiskProfile → ℕ
base_of none = 0
base_of (some p) = p.base_risk_score

module _ (P : Client) (X : Externals) where
  -- The score is at most 100, and is the sum of what its reasons weigh, cut off at 100.
  pub risk_explained :
      (t u ip fp : String) (db : Db P.Table)
      → let risk = calculate_risk_score P X t u ip fp db in
        let base =
          base_of (P.find_first (λ p. p.tenant_id == t && p.user_id == u) db.risk_profiles) in
        (risk.score ≤ 100) × (risk.score ≡ min (total_weight base risk.reasons) 100)
  unfolding calculate_risk_score
  risk_explained t u ip fp db = ground arith

  -- whether the columns of the audit log take the tenant and the user of a request
  abbrev pub is_logged : EvaluateRequest → Db P.Table → Bool
  is_logged req db = tenant_exists P req.tenant_id db && P.is_uuid req.user_id
