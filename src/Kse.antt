-- ===== src/Kse.antt =====
-- src/modules/kse/: the shield engine that scores a request, picks a policy and decides.
-- Scores and levels are natural numbers; the JSON columns of controls are lists of texts.
pub mod Verdicts
pub mod Evaluation
use kavachid.Base.{
  ℕ, ◌+◌, ◌≡◌, Bool, true, false, not, ◌&&◌, ◌||◌, Option, none, some, List, [], ◌∷◌, ◌++◌, String,
  ◌==◌, ltb, leb, nat_eq, min, truthy, starts_with, template, any, Result, ok, if◌then◌else◌, Exec,
  gets, pure, ◌>>=◌, attempt, ◌>>◌,
}
use kavachid.Prisma.{Client}
use kavachid.Schema.{
  Db, Fields, Json, text, number, flag, texts, Device, UserRiskProfile, PolicyRule,
  ProductConfigOverride,
}
use kavachid.Crypto.{Externals}
use kavachid.Audit.{create_log}

pub data Verdict : Type 0 where
  allow step_up deny : Verdict

-- the texts 'ALLOW', 'STEP_UP_REQUIRED', 'DENY'
abbrev pub verdict_text : Verdict → String
verdict_text allow = "ALLOW"
verdict_text step_up = "STEP_UP_REQUIRED"
verdict_text deny = "DENY"

pub record Decision : Type 0 where
  pub decision : Verdict
  pub reason_code : String
  pub required_controls : List String

pub record Policy : Type 0 where
  pub security_level : ℕ
  pub max_risk_score : ℕ
  pub required_controls : List String
  pub is_override : Bool

pub record Risk : Type 0 where
  pub score : ℕ
  pub reasons : List String

-- `EvaluateRequestDto`, of which the handler reads these
pub record EvaluateRequest : Type 0 where
  pub tenant_id : String
  pub user_id : String
  pub session_id : String
  pub target_security_level : ℕ
  pub action_type : String
  pub product_name : String
  pub feature_name : Option String
  pub device_fingerprint : String
  pub ip_address : String

-- one step of the score: what it adds, and its reason
abbrev pub Contribution : Type 0
Contribution = ℕ × List String

-- 1. Device Trust
unfoldable pub device_risk : Option Device → Contribution
device_risk none = (20, "NEW_DEVICE" ∷ [])
device_risk (some d) = if not d.is_trusted then (10, "UNTRUSTED_DEVICE" ∷ []) else (0, [])

-- 2. Network Trust
unfoldable pub is_vpn : String → Bool
is_vpn ip = starts_with ip "10." || (starts_with ip "192.168." || ip == "VPN_IP")

unfoldable pub network_risk : String → Contribution
unfolding is_vpn
network_risk ip = if is_vpn ip then (40, "NETWORK_VPN_DETECTED" ∷ []) else (0, [])

-- 3. User Risk Profile
unfoldable pub profile_risk : Option UserRiskProfile → Contribution
profile_risk none = (0, [])
profile_risk (some p) =
    if ltb 0 p.base_risk_score then (p.base_risk_score, "USER_BASE_RISK" ∷ []) else (0, [])

-- `getHardcodedDefault`
unfoldable pub hardcoded_default : ℕ → Policy
hardcoded_default level =
    if leb 3 level
    then record {
      security_level = level;
      max_risk_score = 50;
      required_controls = "biometric_auth" ∷ "otp" ∷ [];
      is_override = false;
    }
    else record {
      security_level = level;
      max_risk_score = 75;
      required_controls = "jwt" ∷ [];
      is_override = false;
    }

-- `o.featureName === featureName`: an absent column is `null`, an absent argument is not
abbrev same_feature : Option String → Option String → Bool
same_feature (some a) (some b) = a == b
same_feature _ _ = false

-- the test of `overrides.find`
unfoldable pub applies : String → Option String → ProductConfigOverride → Bool
applies product feature o =
    o.is_active
    && (o.product_name == product
        && (same_feature o.feature_name feature || not (truthy o.feature_name)))

abbrev find : {A : Type 0} → (A → Bool) → List A → Option A
find p [] = none
find p (a ∷ l) = if p a then some a else find p l

-- the policy of a rule, with the first override that applies
unfoldable pub policy_of : String → Option String → PolicyRule → Policy
unfolding applies
policy_of product feature rule = elim (find (applies product feature) rule.overrides) [
  | none ↦ record {
    security_level = rule.security_level;
    max_risk_score = rule.max_risk_score;
    required_controls = rule.required_controls;
    is_override = false;
  }
  | some o ↦ record {
    security_level = rule.security_level;
    max_risk_score = rule.max_risk_score;
    required_controls = o.downgraded_controls;
    is_override = true;
  }
]

-- `makeDecision`
unfoldable pub make_decision : ℕ → List String → Policy → Decision
make_decision risk_score reasons policy =
    if leb 90 risk_score
    then record { decision = deny; reason_code = "CRITICAL_RISK"; required_controls = [] }
    else if any (λ r. r == "NETWORK_VPN_DETECTED") reasons && leb 3 policy.security_level
    then record {
      decision = step_up;
      reason_code = "NETWORK_VPN_DETECTED";
      required_controls = "biometric_auth" ∷ "otp" ∷ [];
    }
    else if ltb policy.max_risk_score risk_score
    then record {
      decision = step_up;
      reason_code = "RISK_EXCEEDS_POLICY";
      required_controls = policy.required_controls;
    }
    else record { decision = allow; reason_code = "WITHIN_TOLERANCE"; required_controls = [] }

-- the `where` of the policy rule
abbrev pub rule_of : String → ℕ → PolicyRule → Bool
rule_of tenant_id level r =
    r.tenant_id == tenant_id && (nat_eq r.security_level level && r.is_active)

module _ (P : Client) (X : Externals) where
  -- `calculateRiskScore`
  unfoldable pub calculate_risk_score : String → String → String → String → Db P.Table → Risk
  unfolding device_risk network_risk profile_risk
  calculate_risk_score tenant_id user_id ip fingerprint db =
      let device = device_risk (
        P.find_first
          (λ d. d.tenant_id == tenant_id && (d.user_id == user_id && d.fingerprint == fingerprint))
          db.devices) in
      let network = network_risk ip in
      let profile =
        profile_risk
          (P.find_first (λ p. p.tenant_id == tenant_id && p.user_id == user_id) db.risk_profiles) in
      record {
        score = min (device.0 + network.0 + profile.0) 100;
        reasons = device.1 ++ (network.1 ++ profile.1);
      }

  -- `getEffectivePolicy`
  unfoldable pub get_effective_policy : String → ℕ → String → Option String → Db P.Table → Policy
  unfolding policy_of hardcoded_default
  get_effective_policy tenant_id level product feature db =
      elim (P.find_first (rule_of tenant_id level) db.policy_rules) [
        | none ↦ hardcoded_default level
        | some rule ↦ policy_of product feature rule
      ]

  -- `logDecision`
  unfoldable pub log_decision :
      String → String → String → ℕ → ℕ → Verdict → Fields → Exec (Db P.Table) (Unit {0})
  log_decision tenant_id user_id action_type score level decision metadata =
      create_log P X tenant_id (some user_id) (template ("KSE_EVALUATE_" ∷ action_type ∷ [])) "KSE"
        none
        (metadata
          ++ ("kse_risk_score", number score)
            ∷ ("kse_security_level", number level)
            ∷ ("kse_decision", text (some (verdict_text decision)))
            ∷ [])

  -- `evaluate`: the answer, without the time stamp of its id, after the log is written
  unfoldable pub evaluate : EvaluateRequest → Exec (Db P.Table) (Decision × ℕ)
  evaluate req = do
    risk ←
        gets (calculate_risk_score req.tenant_id req.user_id req.ip_address req.device_fingerprint)
    policy ← gets (
        get_effective_policy req.tenant_id req.target_security_level req.product_name
          req.feature_name)
    let answer = make_decision risk.score risk.reasons policy
    attempt (
        log_decision req.tenant_id req.user_id req.action_type risk.score req.target_security_level
          answer.decision
          (("reasons", texts risk.reasons) ∷ ("isOverride", flag policy.is_override) ∷ []))
    pure (answer, risk.score)
