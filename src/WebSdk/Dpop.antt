-- ===== src/WebSdk/Dpop.antt =====
-- sdks/kavach-web/src/dpop.ts: the key of a client, and the proofs that it signs.
pub mod Accepted
use Prim.Native.Char.{Char, code}
use Prim.Native.String.{◌∷◌}
use Prim.Native.String
use kavachid.Base.{
  ℕ, suc, ◌-◌, ◌/◌, ◌%◌, Bool, true, false, ◌&&◌, Option, none, some, is_some, List, String, leb,
  ltb, template, plain, Result, ok, err, Exec, pure, lift, gets, modify, or_throw, ◌>>=◌, ◌>>◌,
  if◌then◌else◌,
}
use kavachid.Crypto.{seconds}
use kavachid.WebSdk.Platform.{
  Jwk, Document, proof_header, proof_payload, thumbprint_input, CryptoKeys, WebCrypto, KeyManager,
  Browser, get_crypto, buffer_to_base64url,
}
use kavachid.WebSdk.Pkce.{char_at}

-- `method.toUpperCase()`, for the letters that methods are made of
unfoldable pub to_upper_case : String → String
to_upper_case String.[] = ""
to_upper_case (c ∷ s) =
    String.◌++◌
      (if leb b'a' (code c) && leb (code c) b'z'
        then char_at "ABCDEFGHIJKLMNOPQRSTUVWXYZ" (code c - b'a')
        else c ∷ "")
      (to_upper_case s)

-- `b.toString(16)` for a byte
abbrev pub hex_text : ℕ → String
hex_text b =
    if ltb b 16
    then char_at "0123456789abcdef" b
    else String.◌++◌ (char_at "0123456789abcdef" (b / 16)) (char_at "0123456789abcdef" (b % 16))

-- `s.padStart(2, '0')`
abbrev pub pad_two : String → String
pad_two String.[] = "00"
pad_two (c ∷ String.[]) = "0" ∷ c ∷ ""
pad_two (c ∷ d ∷ s) = c ∷ d ∷ s

-- the loop of `generateJti`
unfoldable pub hex_of : List ℕ → String
hex_of List.[] = ""
hex_of (List.◌∷◌ b bytes) = String.◌++◌ (pad_two (hex_text b)) (hex_of bytes)

-- what is signed, and the token with its signature
abbrev pub token_input : WebCrypto → Document → Document → String
token_input W header payload = template (
    List.◌∷◌ (buffer_to_base64url W (W.encode (W.stringify header)))
      (List.◌∷◌ "." (List.◌∷◌ (buffer_to_base64url W (W.encode (W.stringify payload))) List.[])))

abbrev pub compact : WebCrypto → String → List ℕ → String
compact W input signature =
    template (List.◌∷◌ input (List.◌∷◌ "." (List.◌∷◌ (buffer_to_base64url W signature) List.[])))

module _ {Store : Type 0} (W : WebCrypto) where
  -- a random value, by its length
  abbrev pub get_random_values : ℕ → Exec (Browser Store) (List ℕ)
  get_random_values n s = (ok (W.random_values s.drawn n), record s { drawn = suc s.drawn })

  unfoldable pub generate_jti : Exec (Browser Store) String
  generate_jti = do array ← get_random_values 16; pure (hex_of array)

  abbrev set_keys : (KeyManager → KeyManager) → Exec (Browser Store) (Unit {0})
  set_keys f = modify λ s. record s { keys = f s.keys }

  -- the part of `ensureKey` behind the check for a key
  unfoldable pub make_key : Exec (Browser Store) (Unit {0})
  make_key = do
    get_crypto W
    pair ← λ s. (W.generate_key s.drawn, record s { drawn = suc s.drawn })
    set_keys λ k. record k { key_pair = some pair }
    jwk ← lift (W.export_jwk pair.public_key)
    set_keys λ k. record k { cached_jwk = some jwk }
    hash ← lift (W.digest (W.encode (W.stringify (thumbprint_input jwk))))
    set_keys λ k. record k { cached_thumbprint = some (buffer_to_base64url W hash) }

  -- `ensureKey`
  unfoldable pub ensure_key : Exec (Browser Store) (Unit {0})
  ensure_key s = if is_some s.keys.key_pair then (ok tt, s) else make_key s

  -- `getThumbprint`, `getJwk`
  unfoldable pub get_thumbprint : Exec (Browser Store) (Option String)
  get_thumbprint = do ensure_key; gets (λ s. s.keys.cached_thumbprint)

  unfoldable pub get_jwk : Exec (Browser Store) (Option Jwk)
  get_jwk = do ensure_key; gets (λ s. s.keys.cached_jwk)

  -- the signature of a proof, under the key that there is
  unfoldable pub sign_proof : String → String → String → Exec (Browser Store) String
  sign_proof jti method url = do
    pair ← λ s.
        or_throw s.keys.key_pair (plain "Cannot read properties of null (reading 'privateKey')") s
    jwk ← gets (λ s. s.keys.cached_jwk)
    now ← gets (λ s. s.now)
    let input =
        token_input W (proof_header "dpop+jwt" "ES256" jwk)
          (proof_payload jti (to_upper_case method) url (seconds now))
    signature ← lift (W.sign pair.private_key (W.encode input))
    pure (compact W input signature)

  -- `createProof`
  unfoldable pub create_proof : String → String → Exec (Browser Store) String
  create_proof method url = do
    ensure_key
    get_crypto W
    jti ← generate_jti
    sign_proof jti method url
