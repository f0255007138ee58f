-- ===== src/WebSdk/Shield/Guarded.antt =====
-- The middleware in front of the engine of src/modules/kse/: a handler behind it, and the decision.
use kavachid.Base.{
  ◌≡◌, refl, ◌↔◌, ℕ, Option, none, some, String, arith, Error, Result, ok, err, sym, ap, ◌∙◌, List,
  Option-cases, Result-cases, inl, inr,
}
use kavachid.Prisma.{Client}
use kavachid.Schema.{Db}
use kavachid.Crypto.{Externals}
use kavachid.Kse.{Verdict, allow, step_up, deny, Decision, EvaluateRequest, verdict_text}
use kavachid.Kse
use kavachid.WebSdk.Shield.{
  KseEvaluationRequest, Reply, Engine, ExpressRequest, KseMiddlewareOptions, next,
  evaluation_request, enforce, settle, kse_enforce, evaluate,
}

-- the request as the controller of the engine reads it
abbrev pub as_dto : KseEvaluationRequest → EvaluateRequest
as_dto r = record {
  tenant_id = r.tenant_id;
  user_id = r.user_id;
  session_id = r.session_id;
  target_security_level = r.target_security_level;
  action_type = r.action_type;
  product_name = r.product_name;
  feature_name = r.feature_name;
  device_fingerprint = r.device_fingerprint;
  ip_address = r.ip_address;
}

-- an answer of the controller, as it comes over the network
abbrev pub as_reply : Result (Decision × ℕ) → Reply
as_reply (ok (d, score)) = record {
  status = 200;
  json = ok (record {
    decision = verdict_text d.decision;
    risk_score = score;
    reason_code = d.reason_code;
    required_controls = d.required_controls;
    evaluation_id = "eval";
  });
}
as_reply (err e) = record { status = 500; json = err e }

-- the engine of the server, at a state of its database, with a network that fails by its choice
abbrev pub served :
    (P : Client) → Externals → Db P.Table → (KseEvaluationRequest → Option Error) → Engine
served P X db down url req = elim (down req) [
  | some e ↦ err e
  | none ↦ ok (as_reply (Kse.evaluate P X (as_dto req) db).0)
]

enforce_iff :
    (v : Verdict) (score : ℕ) (reason : String) (controls : List String)
    → (enforce (record {
      decision = verdict_text v;
      risk_score = score;
      reason_code = reason;
      required_controls = controls;
      evaluation_id = "eval";
    })
        ≡ next)
      ↔ (v ≡ allow)
enforce_iff allow score reason controls = (λ h. refl, λ h. refl)
enforce_iff step_up score reason controls = (λ h. absurd (ground arith), λ h. absurd (ground arith))
enforce_iff deny score reason controls = (λ h. absurd (ground arith), λ h. absurd (ground arith))

module _ (P : Client) (X : Externals) where
  -- The middleware lets a request through exactly when the application names its tenant, user and
  -- session, the network works, and the engine of the server allows it.
  pub kse_enforce_iff :
      (db : Db P.Table) (down : KseEvaluationRequest → Option Error)
      (options : KseMiddlewareOptions) (request_id : String) (req : ExpressRequest)
      → (kse_enforce (served P X db down) options request_id req ≡ next) ↔ (
          (sent : KseEvaluationRequest) × (d : Decision) × (score : ℕ) × (evaluation_request options
              req request_id
            ≡ ok sent)
          × (down sent ≡ none)
          × ((Kse.evaluate P X (as_dto sent) db).0 ≡ ok (d, score))
          × (d.decision ≡ allow))
  unfolding kse_enforce evaluate
  kse_enforce_iff db down options request_id req =
      elim (Result-cases (evaluation_request options req request_id)) [
        | inr (x, e) ↦ (
          λ h. absurd (ground (arith, e)),
          λ (sent, d, score, named, up, evaluated, allowed). absurd (ground (arith, e)),
        )
        | inl (sent, e) ↦ elim (Option-cases (down sent)) [
          | inr (x, ed) ↦ (
            λ h. absurd (ground (arith, e, ed)),
            λ (sent', d, score, named, up, evaluated, allowed). absurd (ground (arith, e, ed)),
          )
          | inl ed ↦ elim (Result-cases (Kse.evaluate P X (as_dto sent) db).0) [
            | inr (x, ee) ↦ (
              λ h. absurd (ground (arith, e, ed, ee)),
              λ (sent', d, score, named, up, evaluated, allowed).
                  absurd (ground (arith, e, ed, ee)),
            )
            | inl ((d, score), ee) ↦
                let ran : kse_enforce (served P X db down) options request_id req
                    ≡ settle (as_reply (ok (d, score))).json =
                  ground (arith, e, ed, ee) in
                let (there, back) =
                  enforce_iff d.decision score d.reason_code d.required_controls in
                (
                  λ h. (sent, d, score, e, ed, ee, there (sym ran ∙ h)),
                  λ (sent', d', score', named, up, evaluated, allowed).
                      let same_sent : sent ≡ sent' = cc in
                      let same_decision : d ≡ d' = ground (arith, same_sent, ee, evaluated) in
                      ran ∙ back (ap (λ (x : Decision). x.decision) same_decision ∙ allowed),
                )
          ]
        ]
      ]
