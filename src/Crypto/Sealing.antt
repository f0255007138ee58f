-- ===== src/Crypto/Sealing.antt =====
-- `encryptPrivateKey` and `decryptPrivateKey` undo one another.
use Prim.Native.String
use text.Mathlib.TextLemmas.{cons-append, nil-append, append-nil}
use kavachid.Base.{
  ◌≡◌, true, some, [], ◌∷◌, String, free_of, split, split-first, split-join, template, arith, ap,
  ok, refl, ◌∙◌,
}
use kavachid.Crypto.{Externals, open_parts, encrypt_private_key, decrypt_private_key}

module _ (X : Externals) where
  -- What AES-GCM in hex gives for a key and a nonce: opening undoes sealing, and a hex text has no
  -- colon.
  abbrev pub IsSealed : String → String → String → Type 0
  IsSealed key iv pem =
      let (ciphertext, tag) = X.aes_seal key iv pem in
      (free_of b':' ciphertext ≡ true)
      × (free_of b':' tag ≡ true)
      × (X.aes_open key iv ciphertext tag ≡ some pem)

  colon : (s : String) → String.◌++◌ ":" s ≡ String.◌∷◌ ":" s
  colon s = cons-append ":" "" s ∙ ap (λ r. String.◌∷◌ ":" r) (nil-append s)

  template-parts :
      (a b c : String)
      → template (a ∷ ":" ∷ b ∷ ":" ∷ c ∷ [])
        ≡ String.◌++◌ a (String.◌∷◌ ":" (String.◌++◌ b (String.◌∷◌ ":" c)))
  template-parts a b c = simp (colon, append-nil) refl

  split-sealed :
      (a b c : String)
      → free_of b':' a ≡ true
      → free_of b':' b ≡ true
      → free_of b':' c ≡ true
      → split b':' (template (a ∷ ":" ∷ b ∷ ":" ∷ c ∷ [])) ≡ a ∷ b ∷ c ∷ []
  split-sealed a b c ha hb hc =
      rw
        (
          template-parts a b c,
          split-first b':' ":" a (String.◌++◌ b (String.◌∷◌ ":" c)) refl ha,
          split-join b':' ":" b c refl hb hc,
        )
        refl

  opened :
      (iv ciphertext tag pem : String)
      → X.aes_open (X.sha256 X.master_key) iv ciphertext tag ≡ some pem
      → open_parts X (iv ∷ ciphertext ∷ tag ∷ []) ≡ ok pem
  opened iv ciphertext tag pem opens = ground arith

  -- Decryption gives back the key that was encrypted under a nonce without a colon, if what
  -- AES-GCM seals under the master key opens again and has no colon.
  pub decrypt-encrypt :
      (iv pem : String)
      → IsSealed (X.sha256 X.master_key) iv pem
      → free_of b':' iv ≡ true
      → decrypt_private_key X (encrypt_private_key X iv pem) ≡ ok pem
  unfolding decrypt_private_key encrypt_private_key
  decrypt-encrypt iv pem sealing h =
      let (free_c, free_t, opens) = sealing in
      rw (split-sealed iv _ _ h free_c free_t) (opened iv _ _ pem opens)
