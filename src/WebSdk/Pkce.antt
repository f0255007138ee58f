-- ===== src/WebSdk/Pkce.antt =====
-- sdks/kavach-web/src/pkce.ts: code verifiers and their challenges.
use Prim.Native.Char.{code}
use Prim.Native.String.{◌∷◌}
use Prim.Native.String
use kavachid.Base.{
  ℕ, zero, suc, ◌≡◌, ◌%◌, ◌<◌, refl, Bool, true, false, ◌&&◌, ◌||◌, List, String, nat_eq, length,
  arith, ok, Exec, pure, lift, ◌>>=◌, ◌>>◌, ◌+◌,
}
use text.Mathlib.TextLemmas.{nil-append, cons-append}
use kavachid.WebSdk.Platform.{WebCrypto, Browser, get_crypto, buffer_to_base64url}

-- `s.length`, in code points
abbrev pub text_length : String → ℕ
text_length String.[] = 0
text_length (c ∷ s) = suc (text_length s)

-- `s[i]`, as the text that it adds to another one
unfoldable pub char_at : String → ℕ → String
char_at String.[] i = "undefined"
char_at (c ∷ s) zero = c ∷ ""
char_at (c ∷ s) (suc i) = char_at s i

abbrev pub valid_chars : String
valid_chars = "ABCDEFGHIJKLMNOPQRSTUVWXYZabcdefghijklmnopqrstuvwxyz0123456789-._~"

-- the loop over the random bytes; each round writes behind what was there
unfoldable pub verifier_from : String → List ℕ → String
verifier_from result List.[] = result
verifier_from result (List.◌∷◌ b bytes) =
    verifier_from (String.◌++◌ result (char_at valid_chars (b % text_length valid_chars))) bytes

module _ {Store : Type 0} (W : WebCrypto) where
  -- `generateCodeVerifier`
  unfoldable pub generate_code_verifier : ℕ → Exec (Browser Store) String
  generate_code_verifier length = do
    get_crypto W
    array ← λ s. (ok (W.random_values s.drawn length), record s { drawn = suc s.drawn })
    pure (verifier_from "" array)

  -- `generateCodeChallenge`
  unfoldable pub generate_code_challenge : String → Exec (Browser Store) String
  generate_code_challenge verifier = do
    get_crypto W
    hash ← lift (W.digest (W.encode verifier))
    pure (buffer_to_base64url W hash)

-- whether a character is one of a text
abbrev pub has_char : String → ℕ → Bool
has_char String.[] c = false
has_char (d ∷ s) c = nat_eq (code d) c || has_char s c

abbrev pub all_chars : (ℕ → Bool) → String → Bool
all_chars p String.[] = true
all_chars p (c ∷ s) = p (code c) && all_chars p s

-- whether all characters of a text are unreserved ones
unfoldable pub is_unreserved : String → Bool
is_unreserved s = all_chars (has_char valid_chars) s

append_laws : (s t : String) → text_length (String.◌++◌ s t) ≡ text_length s + text_length t
append_laws String.[] t = simp nil-append (omega arith)
append_laws (c ∷ s) t = simp cons-append (omega (arith, append_laws s t))

all_chars_append :
    (p : ℕ → Bool) (s t : String)
    → all_chars p s ≡ true
    → all_chars p t ≡ true
    → all_chars p (String.◌++◌ s t) ≡ true
all_chars_append p String.[] t h k = simp nil-append k
all_chars_append p (c ∷ s) t h k = simp cons-append (ground (arith, all_chars_append p s t))

unreserved_append :
    (s t : String)
    → is_unreserved s ≡ true
    → is_unreserved t ≡ true
    → is_unreserved (String.◌++◌ s t) ≡ true
unfolding is_unreserved
unreserved_append s t h k = all_chars_append (has_char valid_chars) s t h k

valid_chars-unreserved : is_unreserved valid_chars ≡ true
unfolding is_unreserved
valid_chars-unreserved = refl

-- An index within a text yields one character, of the kind that all of them are.
char_at_lem :
    (p : ℕ → Bool) (s : String) (i : ℕ)
    → i < text_length s
    → all_chars p s ≡ true
    → (text_length (char_at s i) ≡ 1) × (all_chars p (char_at s i) ≡ true)
unfolding char_at
char_at_lem p String.[] i within all = absurd (omega arith)
char_at_lem p (c ∷ s) zero within all = (refl, ground arith)
char_at_lem p (c ∷ s) (suc i) within all = char_at_lem p s i (omega arith) (ground arith)

char_at-unreserved :
    (b : ℕ)
    → (text_length (char_at valid_chars (b % 66)) ≡ 1)
      × (is_unreserved (char_at valid_chars (b % 66)) ≡ true)
unfolding is_unreserved
char_at-unreserved b =
    char_at_lem (has_char valid_chars) valid_chars (b % 66) (omega arith) valid_chars-unreserved

verifier_from_lem :
    (result : String) (bytes : List ℕ)
    → is_unreserved result ≡ true
    → (text_length (verifier_from result bytes) ≡ text_length result + length bytes)
      × (is_unreserved (verifier_from result bytes) ≡ true)
unfolding verifier_from
verifier_from_lem result List.[] h = (omega arith, h)
verifier_from_lem result (List.◌∷◌ b bytes) h =
    let (one, good) = char_at-unreserved b in
    let (len, all) =
      verifier_from_lem (String.◌++◌ result (char_at valid_chars (b % 66))) bytes
        (unreserved_append result _ h good) in
    (omega (arith, append_laws result (char_at valid_chars (b % 66))), all)

empty_unreserved : is_unreserved "" ≡ true
unfolding is_unreserved
empty_unreserved = refl

-- Where Web Crypto is there and fills an array of the length that it is asked for, a code verifier
-- of any length is made: it has that many characters, all of them unreserved ones.
pub generate_code_verifier_lem :
    {Store : Type 0} (W : WebCrypto) (n : ℕ) (s : Browser Store)
    → W.is_supported ≡ true
    → length (W.random_values s.drawn n) ≡ n
    → (v : String) × ((generate_code_verifier W n s).0 ≡ ok v)
      × (text_length v ≡ n)
      × (is_unreserved v ≡ true)
unfolding generate_code_verifier
generate_code_verifier_lem W n s there filled =
    let (len, all) = verifier_from_lem "" (W.random_values s.drawn n) empty_unreserved in
    (verifier_from "" (W.random_values s.drawn n), rw there, omega arith, all)
