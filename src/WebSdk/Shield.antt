-- ===== src/WebSdk/Shield.antt =====
-- sdks/kavach-web/src/kse.ts and express.ts: the client of the shield engine, the fingerprint of a
-- device, and the middleware that guards a handler by the engine's decision.
pub mod Guarded
use Prim.Native.Char.{code}
use Prim.Native.String
use kavachid.Base.{
  ℕ, Bool, true, false, ◌&&◌, ◌||◌, Option, none, some, List, [], ◌∷◌, String, ◌==◌, leb, nat_eq,
  decimal, ends_with, or_else, template, plain, Error, Result, ok, err, bind, if◌then◌else◌,
}
use kavachid.WebSdk.Dpop.{hex_of}
use kavachid.WebSdk.Client.{trim_slash}

-- `KseEvaluationRequest`; metadata is JSON text
pub record KseEvaluationRequest : Type 0 where
  pub request_id : String
  pub tenant_id : String
  pub user_id : String
  pub session_id : String
  pub target_security_level : ℕ
  pub action_type : String
  pub product_name : String
  pub feature_name : Option String
  pub device_fingerprint : String
  pub ip_address : String
  pub user_agent : String
  pub action_metadata : Option String

-- `KseEvaluationResponse`, with whatever text the decision is
pub record KseEvaluationResponse : Type 0 where
  pub decision : String
  pub risk_score : ℕ
  pub reason_code : String
  pub required_controls : List String
  pub evaluation_id : String

-- an answer of `fetch`, whose body may not be JSON
pub record Reply : Type 0 where
  pub status : ℕ
  pub json : Result KseEvaluationResponse

-- the engine behind a URL, over the network
abbrev pub Engine : Type 0
Engine = String → KseEvaluationRequest → Result Reply

-- `evaluate` of `KavachShieldClient`, by the base URL given to its constructor
unfoldable pub evaluate : Engine → String → KseEvaluationRequest → Result KseEvaluationResponse
evaluate engine base_url req =
    bind (engine (template (trim_slash base_url ∷ "/v1/kse/evaluate" ∷ [])) req) λ response.
      if leb 200 response.status && leb response.status 299
      then response.json
      else err
          (plain (template ("KSE Evaluation failed with status: " ∷ decimal response.status ∷ [])))

-- the parts of an Express request that the middleware reads
pub record ExpressRequest : Type 0 where
  pub fingerprint_header : Option String
  pub user_agent_header : Option String
  pub ip : Option String
  pub remote_address : Option String
  pub body : Option String

-- `KseMiddlewareOptions`; the three functions of the application may throw
pub record KseMiddlewareOptions : Type 0 where
  pub level : ℕ
  pub action_type : String
  pub product_name : String
  pub feature_name : Option String
  pub kse_base_url : String
  pub get_tenant_id : ExpressRequest → Result String
  pub get_user_id : ExpressRequest → Result String
  pub get_session_id : ExpressRequest → Result String

-- what the middleware does with a request: on to the handler, or an answer
pub data Handled : Type 0 where
  next : Handled
  denied : (status : ℕ) (error reason : String) → Handled
  step_up : (status : ℕ) (error decision : String) (required_controls : List String) → Handled
  failed : (status : ℕ) (error : String) → Handled

-- the object that is sent to the engine
unfoldable pub evaluation_request :
    KseMiddlewareOptions → ExpressRequest → String → Result KseEvaluationRequest
evaluation_request options req request_id = bind (options.get_tenant_id req) λ tenant_id.
    bind (options.get_user_id req) λ user_id. bind (options.get_session_id req) λ session_id.
      ok (record {
        request_id = request_id;
        tenant_id = tenant_id;
        user_id = user_id;
        session_id = session_id;
        target_security_level = options.level;
        action_type = options.action_type;
        product_name = options.product_name;
        feature_name = options.feature_name;
        device_fingerprint = or_else req.fingerprint_header "unknown";
        ip_address = or_else req.ip (or_else req.remote_address "unknown");
        user_agent = or_else req.user_agent_header "unknown";
        action_metadata = req.body;
      })

-- the branches on the decision
abbrev pub enforce : KseEvaluationResponse → Handled
enforce result =
    if result.decision == "DENY"
    then denied 403 "Access Denied" result.reason_code
    else if result.decision == "STEP_UP_REQUIRED"
    then step_up 401 "Step Up Required" result.decision result.required_controls
    else next

-- the `catch`
abbrev pub settle : Result KseEvaluationResponse → Handled
settle (ok result) = enforce result
settle (err e) = failed 500 "Internal Security Error"

-- the function that `kseEnforce` answers
unfoldable pub kse_enforce : Engine → KseMiddlewareOptions → String → ExpressRequest → Handled
kse_enforce engine options request_id req =
    settle (bind (evaluation_request options req request_id) (evaluate engine options.kse_base_url))

-- `navigator`, as far as it is read
pub record Navigator : Type 0 where
  pub user_agent : String
  pub language : String
  pub platform : Option String
  pub hardware_concurrency : Option ℕ
  pub device_memory : Option ℕ

-- what the fingerprint is made by: SHA-256 of a text where Web Crypto is there, base64 where Node's
-- `Buffer` is; the offset of the time zone is its text, which may have a sign
pub record Fingerprinting : Type 0 where
  pub navigator : Option Navigator
  pub timezone_offset : String
  pub sha256 : Option (String → Result (List ℕ))
  pub base64 : Option (String → String)

-- `n || 1`
abbrev pub or_one : Option ℕ → ℕ
or_one none = 1
or_one (some n) = if nat_eq n 0 then 1 else n

abbrev pub unknown_navigator : Navigator
unknown_navigator = record {
  user_agent = "unknown";
  language = "unknown";
  platform = none;
  hardware_concurrency = none;
  device_memory = none;
}

abbrev is_alphanumeric : ℕ → Bool
is_alphanumeric c =
    (leb b'a' c && leb c b'z') || ((leb b'A' c && leb c b'Z') || (leb b'0' c && leb c b'9'))

-- `s.replace(/[^a-zA-Z0-9]/g, '')`
unfoldable pub only_alphanumeric : String → String
only_alphanumeric String.[] = ""
only_alphanumeric (String.◌∷◌ c s) =
    let rest = only_alphanumeric s in if is_alphanumeric (code c) then String.◌∷◌ c rest else rest

abbrev pub raw_fingerprint : Navigator → String → String
raw_fingerprint nav offset = template (
    nav.user_agent
    ∷ "|"
    ∷ nav.language
    ∷ "|"
    ∷ or_else nav.platform "unknown"
    ∷ "|"
    ∷ decimal (or_one nav.hardware_concurrency)
    ∷ "|"
    ∷ decimal (or_one nav.device_memory)
    ∷ "|"
    ∷ offset
    ∷ [])

-- the three ways to shorten the raw text
abbrev pub shorten :
    Option (String → Result (List ℕ)) → Option (String → String) → String → Result String
shorten (some sha256) base64 raw = bind (sha256 raw) λ bytes. ok (hex_of bytes)
shorten none (some base64) raw = ok (base64 raw)
shorten none none raw = ok (only_alphanumeric raw)

abbrev pub navigator_of : Option Navigator → Navigator
navigator_of none = unknown_navigator
navigator_of (some nav) = nav

-- `generateDeviceFingerprint`
unfoldable pub generate_device_fingerprint : Fingerprinting → Result String
generate_device_fingerprint F =
    shorten F.sha256 F.base64 (raw_fingerprint (navigator_of F.navigator) F.timezone_offset)
