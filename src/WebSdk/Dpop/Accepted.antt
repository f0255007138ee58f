-- ===== src/WebSdk/Dpop/Accepted.antt =====
-- The proofs of the SDK as the server reads them.
use Prim.Native.String
use Prim.Native.String.{◌∷◌}
use kavachid.Base.{
  ℕ, suc, ◌≡◌, ◌≤◌, refl, ◌↔◌, true, false, none, some, List, String, ◌==◌, eq_iff, arith, split,
  free_of, split-first, split-join, ok, ◌∙◌, ap,
}
use text.Mathlib.TextLemmas.{nil-append, cons-append, append_assoc, append-nil}
use kavachid.Crypto.{Claims, Externals, clean_url, seconds, distance, check_proof, verify_dpop}
use kavachid.WebSdk.Platform.{
  Jwk, Document, proof_header, proof_payload, CryptoKeys, WebCrypto, Browser, get_crypto,
  buffer_to_base64url, base64url_dotless,
}
use kavachid.WebSdk.Dpop.{
  to_upper_case, hex_of, token_input, compact, generate_jti, ensure_key, sign_proof, create_proof,
}

-- a client whose key is made, with its public half
pub record HasKey {Store : Type 0} (s : Browser Store) (pair : CryptoKeys) (jwk : Jwk)
    : Type 0 where
  pub paired : s.keys.key_pair ≡ some pair
  pub exported : s.keys.cached_jwk ≡ some jwk

-- the claims that a verified proof has
abbrev pub claims_of : String → String → ℕ → Claims
claims_of htm htu iat = record {
  sub = none;
  tenant_id = none;
  email = none;
  username = none;
  typ = none;
  jkt = none;
  htm = some htm;
  htu = some htu;
  iat = some iat;
}

-- what a client with a public key signs for a request
abbrev pub signed_input : WebCrypto → Jwk → String → String → String → ℕ → String
signed_input W jwk jti htm htu iat =
    token_input W (proof_header "dpop+jwt" "ES256" (some jwk)) (proof_payload jti htm htu iat)

-- What is documented of Web Crypto and of jose, for one token: the private key signs; jose reads the
-- header of the token as it was written, takes the public key in it, finds its thumbprint, and
-- verifies what the private key has signed, whatever the time.
pub record Interop (W : WebCrypto) (X : Externals) (pair : CryptoKeys) (jwk : Jwk)
    (jwk_text public jkt jti htm htu : String) (iat : ℕ) : Type 0 where
  pub signature : List ℕ
  pub signed :
      W.sign pair.private_key (W.encode (signed_input W jwk jti htm htu iat)) ≡ ok signature
  pub decoded :
      X.decode_header (compact W (signed_input W jwk jti htm htu iat) signature)
      ≡ ok (record { alg = some "ES256"; kid = none; typ = some "dpop+jwt"; jwk = some jwk_text })
  pub has_text : (jwk_text == "") ≡ false
  pub imported : X.import_jwk jwk_text (some "ES256") ≡ ok public
  pub verified :
      (now : ℕ)
      → X.jwt_verify (compact W (signed_input W jwk jti htm htu iat) signature) public none now
        ≡ ok (claims_of htm htu iat)
  pub printed : X.thumbprint jwk_text ≡ ok jkt

dot_append : (s : String) → String.◌++◌ "." s ≡ String.◌∷◌ "." s
dot_append s = cons-append "." "" s ∙ ap (String.◌∷◌ ".") (nil-append s)

-- Where `btoa` writes no dot, a token splits at its dots into the two signed parts and the signature.
pub split-compact :
    (W : WebCrypto) (header payload : Document) (sig : List ℕ)
    → ((bytes : List ℕ) → free_of b'.' (W.btoa bytes) ≡ true)
    → split b'.' (compact W (token_input W header payload) sig)
      ≡ List.◌∷◌ (buffer_to_base64url W (W.encode (W.stringify header))) (
          List.◌∷◌
            (buffer_to_base64url W (W.encode (W.stringify payload)))
            (List.◌∷◌ (buffer_to_base64url W sig) List.[]))
split-compact W header payload sig dotless =
    let h = buffer_to_base64url W (W.encode (W.stringify header)) in
    let p = buffer_to_base64url W (W.encode (W.stringify payload)) in
    let s = buffer_to_base64url W sig in
    simp (append_assoc, dot_append, cons-append, append-nil)
      (rw (split-first b'.' "." h _ refl (base64url_dotless W _ (dotless _))) (
        rw (
          split-join b'.' "." p s refl (base64url_dotless W _ (dotless _))
            (base64url_dotless W _ (dotless _)))))

get_crypto_ready :
    {Store : Type 0} (W : WebCrypto) (s : Browser Store)
    → W.is_supported ≡ true
    → get_crypto W s ≡ (ok tt, s)
get_crypto_ready W s there = simp there

module _ {Store : Type 0} (W : WebCrypto) (X : Externals) {pair : CryptoKeys} {jwk : Jwk} where
  ensure_key_ready : (s : Browser Store) → HasKey s pair jwk → ensure_key W s ≡ (ok tt, s)
  unfolding ensure_key
  ensure_key_ready s k = simp k.paired

  sign_proof_lem :
      (jti method url : String) (sig : List ℕ) (s : Browser Store)
      → HasKey s pair jwk
      → let input =
          token_input W
            (proof_header "dpop+jwt" "ES256" (some jwk))
            (proof_payload jti (to_upper_case method) url (seconds s.now)) in
        W.sign pair.private_key (W.encode input) ≡ ok sig
        → sign_proof W jti method url s ≡ (ok (compact W input sig), s)
  unfolding sign_proof
  sign_proof_lem jti method url sig s k signed = ground (arith, k.paired, k.exported)

  -- The proof of a client that has a key.
  create_proof_lem :
      (method url : String) (sig : List ℕ) (s : Browser Store)
      → W.is_supported ≡ true
      → HasKey s pair jwk
      → let input = token_input W (proof_header "dpop+jwt" "ES256" (some jwk)) (
          proof_payload
            (hex_of (W.random_values s.drawn 16))
            (to_upper_case method)
            url
            (seconds s.now)) in
        W.sign pair.private_key (W.encode input) ≡ ok sig
        → create_proof W method url s ≡ (ok (compact W input sig), record s { drawn = suc s.drawn })
  unfolding create_proof generate_jti
  create_proof_lem method url sig s there k signed = ground (
    arith,
    ensure_key_ready s k,
    get_crypto_ready W s there,
    sign_proof_lem (hex_of (W.random_values s.drawn 16)) method url sig
        (record s { drawn = suc s.drawn }) (record { paired = k.paired; exported = k.exported })
        signed,
  )

  -- With a key, and where Web Crypto and jose do what is documented of them, a proof is made for any
  -- method and URL; and the server takes it exactly for a request of that method in capitals, of the
  -- same URL up to query and fragment, at a time of at most two minutes from the signature's, in
  -- whole seconds. The answer then names the client's key.
  pub create_proof-verify_dpop :
      {jwk_text public jkt : String} (s : Browser Store) (method url method' url' : String)
      (now : ℕ)
      → W.is_supported ≡ true
      → HasKey s pair jwk
      → Interop W X pair jwk jwk_text public jkt
          (hex_of (W.random_values s.drawn 16))
          (to_upper_case method)
          url
          (seconds s.now)
      → (token : String) × ((create_proof W method url s).0 ≡ ok token)
        × ((verify_dpop X token method' url' now
              ≡ ok (record { jkt = jkt; public_key_jwk = jwk_text }))
            ↔ ((to_upper_case method ≡ method')
                × (clean_url url' ≡ clean_url url)
                × (distance (seconds now) (seconds s.now) ≤ 120)))
  unfolding verify_dpop check_proof
  create_proof-verify_dpop {jwk_text} {public} {jkt} s method url method' url' now there k io =
      let jti = hex_of (W.random_values s.drawn 16) in
      let made = create_proof_lem method url io.signature s there k io.signed in
      (
        compact W (signed_input W jwk jti (to_upper_case method) url (seconds s.now)) io.signature,
        rw made,
        rw io.decoded (
            simp io.has_text (
              rw io.imported (
                rw (io.verified now) (
                  rw io.printed (
                    ground (
                      arith,
                      eq_iff method' (to_upper_case method),
                      eq_iff (clean_url url') (clean_url url),
                    )))))),
      )
