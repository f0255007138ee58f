-- ===== src/Kse/Verdicts.antt =====
-- The decision table: what each verdict means, and that more risk never weakens it.
use kavachid.Base.{ℕ, ◌≡◌, ◌≤◌, ◌<◌, ◌↔◌, Bool, false, List, String, ◌==◌, arith, any, leb, ◌&&◌}
use kavachid.Kse.{Verdict, allow, step_up, deny, Policy, make_decision}

-- how strict a verdict is
abbrev pub rank : Verdict → ℕ
rank allow = 0
rank step_up = 1
rank deny = 2

abbrev pub names_vpn : List String → Bool
names_vpn reasons = any (λ r. r == "NETWORK_VPN_DETECTED") reasons

-- A request is denied exactly from a score of 90 on; it is allowed exactly below that, within the
-- score of the policy, and not from a VPN under a policy of level 3 or more.
pub make_decision_iff :
    (score : ℕ) (reasons : List String) (p : Policy)
    → (((make_decision score reasons p).decision ≡ deny) ↔ (90 ≤ score))
      × (((make_decision score reasons p).decision ≡ allow) ↔ (
          (score < 90)
          × (score ≤ p.max_risk_score)
          × ((names_vpn reasons && leb 3 p.security_level) ≡ false)))
unfolding make_decision
make_decision_iff score reasons p = ground arith

-- For the same reasons and policy a higher score never gets a weaker verdict.
pub make_decision_mono :
    (score score' : ℕ) (reasons : List String) (p : Policy)
    → score ≤ score'
    → rank (make_decision score reasons p).decision ≤ rank (make_decision score' reasons p).decision
unfolding make_decision
make_decision_mono score score' reasons p h = ground arith
