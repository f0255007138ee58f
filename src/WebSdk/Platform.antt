-- ===== src/WebSdk/Platform.antt =====
-- What a browser gives the SDK (Web Crypto, the network, the clock), none of which is part of the
-- repository, and the state of a client in it; `bufferToBase64Url` and `getCrypto` of
-- sdks/kavach-web/src/dpop.ts and pkce.ts.
use Prim.Native.Char.{Char, code}
use Prim.Native.String.{◌∷◌}
use kavachid.Base.{
  ℕ, ◌≡◌, refl, Bool, true, false, not, ◌&&◌, Option, List, String, ◌==◌, nat_eq, if◌then◌else◌,
  plain, Result, Exec, throw_if, free_of, arith, Bool-cases, inl, inr,
}
use kavachid.Schema.{Fields}
use kavachid.WebSdk.Storage.{Entries}

-- the members of a public key in JWK form
pub record Jwk : Type 0 where
  pub crv : String
  pub kty : String
  pub x : String
  pub y : String

-- what the SDK writes as JSON: the two parts of a proof, and the input of a thumbprint
pub data Document : Type 0 where
  proof_header : (typ alg : String) (jwk : Option Jwk) → Document
  proof_payload : (jti htm htu : String) (iat : ℕ) → Document
  thumbprint_input : Jwk → Document

-- a key pair of Web Crypto, by handles of its keys
pub record CryptoKeys : Type 0 where
  pub private_key : String
  pub public_key : String

-- Bytes are numbers. `btoa` is taken at the bytes whose characters make up its argument.
pub record WebCrypto : Type 0 where
  pub is_supported : Bool
  -- random values by the number of draws before
  pub generate_key : ℕ → Result CryptoKeys
  pub random_values : ℕ → ℕ → List ℕ
  pub export_jwk : String → Result Jwk
  pub digest : List ℕ → Result (List ℕ)
  pub sign : String → List ℕ → Result (List ℕ)
  pub btoa : List ℕ → String
  -- `new TextEncoder().encode`, `JSON.stringify`
  pub encode : String → List ℕ
  pub stringify : Document → String

-- the body of an answer, as far as the SDK reads it
pub record Body : Type 0 where
  pub error_message : Option String
  pub access_token : String
  pub refresh_token : String

-- an answer of `fetch`; reading its body as JSON may throw
pub record Response : Type 0 where
  pub status : ℕ
  pub json : Result Body

-- a call of `fetch`; the names of the headers are in lower case, as `Headers` keeps them
pub record Call : Type 0 where
  pub url : String
  pub method : String
  pub headers : Entries
  pub content : Option Fields

-- The answer to a call, given all calls before it, the last one first: any server and any network.
pub record Network : Type 0 where
  pub answer : List Call → Call → Result Response
  -- `startRegistration` and `startAuthentication` of @simplewebauthn/browser
  pub start_registration : Body → Result Fields
  pub start_authentication : Body → Result Fields

-- the private members of `DPoPKeyManager`
pub record KeyManager : Type 0 where
  pub key_pair : Option CryptoKeys
  pub cached_thumbprint : Option String
  pub cached_jwk : Option Jwk

-- the state around a client: its storage and keys, the clock, the draws, and the calls made
pub record Browser (Store : Type 0) : Type 0 where
  pub storage : Store
  pub keys : KeyManager
  pub now : ℕ
  pub drawn : ℕ
  pub sent : List Call

-- `s.replace(/c/g, d)` for single characters
unfoldable pub replace_all : ℕ → Char → String → String
replace_all c d String.[] = String.[]
replace_all c d (a ∷ s) = (if nat_eq (code a) c then d else a) ∷ replace_all c d s

-- `s.replace(/=+$/, '')`
unfoldable pub strip_padding : String → String
strip_padding String.[] = String.[]
strip_padding (a ∷ s) =
    let rest = strip_padding s in if nat_eq (code a) b'=' && (rest == "") then "" else a ∷ rest

-- `bufferToBase64Url`
unfoldable pub buffer_to_base64url : WebCrypto → List ℕ → String
buffer_to_base64url W bytes =
    strip_padding (replace_all b'/' "_" (replace_all b'+' "-" (W.btoa bytes)))

-- `getCrypto`
abbrev pub get_crypto : {Store : Type 0} → WebCrypto → Exec (Browser Store) (Unit {0})
get_crypto W =
    throw_if (not W.is_supported) (plain "Web Crypto API is not supported in this environment")

free_of-replace_all :
    (c b : ℕ) (d : Char) (s : String)
    → nat_eq (code d) b ≡ false
    → free_of b s ≡ true
    → free_of b (replace_all c d s) ≡ true
unfolding replace_all
free_of-replace_all c b d String.[] h k = refl
free_of-replace_all c b d (a ∷ s) h k = ground (arith, free_of-replace_all c b d s h)

-- The replaced character is gone.
replaced_all :
    (c : ℕ) (d : Char) (s : String)
    → nat_eq (code d) c ≡ false
    → free_of c (replace_all c d s) ≡ true
unfolding replace_all
replaced_all c d String.[] h = refl
replaced_all c d (a ∷ s) h = ground (arith, replaced_all c d s h)

free_of-strip_padding :
    (b : ℕ) (s : String) → free_of b s ≡ true → free_of b (strip_padding s) ≡ true
unfolding strip_padding
free_of-strip_padding b String.[] h = refl
free_of-strip_padding b (a ∷ s) h =
    elim (Bool-cases (nat_eq (code a) b'=' && (strip_padding s == ""))) [
      | inl e ↦ rw e
      | inr e ↦ rw e (ground (arith, free_of-strip_padding b s))
    ]

-- A text in the URL alphabet has neither of the characters that the two replacements are for.
pub base64url_safe :
    (W : WebCrypto) (bytes : List ℕ)
    → (free_of b'+' (buffer_to_base64url W bytes) ≡ true)
      × (free_of b'/' (buffer_to_base64url W bytes) ≡ true)
unfolding buffer_to_base64url
base64url_safe W bytes = (
  free_of-strip_padding b'+' _
      (free_of-replace_all b'/' b'+' "_" _ refl (replaced_all b'+' "-" (W.btoa bytes) refl)),
  free_of-strip_padding b'/' _ (replaced_all b'/' "_" _ refl),
)

-- No dot is brought in by the replacements.
pub base64url_dotless :
    (W : WebCrypto) (bytes : List ℕ)
    → free_of b'.' (W.btoa bytes) ≡ true
    → free_of b'.' (buffer_to_base64url W bytes) ≡ true
unfolding buffer_to_base64url
base64url_dotless W bytes h = free_of-strip_padding b'.' _ (
    free_of-replace_all b'/' b'.' "_" _ refl
      (free_of-replace_all b'+' b'.' "-" (W.btoa bytes) refl h))
