-- ===== src/WebSdk/Client/Frames.antt =====
-- What the steps of the client leave alone: proofs touch neither the storage nor the calls.
use kavachid.Base.{
  ◌≡◌, refl, String, ok, Result-cases, Bool-cases, inl, inr, arith, is_some, ◌∙◌, Exec, ◌>>=◌, ◌∙◌,
}
use kavachid.WebSdk.Platform.{WebCrypto, Browser, get_crypto}
use kavachid.WebSdk.Dpop.{make_key, ensure_key, generate_jti, sign_proof, create_proof}

-- whether a step keeps the storage and the calls
pub record Keeps {Store A : Type 0} (m : Exec (Browser Store) A) (s : Browser Store) : Type 0 where
  pub storage : (m s).1.storage ≡ s.storage
  pub sent : (m s).1.sent ≡ s.sent

pub Keeps-bind :
    {Store A B : Type 0} (m : Exec (Browser Store) A) (f : A → Exec (Browser Store) B)
    (s : Browser Store)
    → Keeps m s
    → ((a : A) → (m s).0 ≡ ok a → Keeps (f a) (m s).1)
    → Keeps (m >>= f) s
Keeps-bind m f s k later = elim (Result-cases (m s).0) [
  | inl (a, e) ↦
      let l = later a e in
      record {
        storage = rw (e, ◌>>=◌) (l.storage ∙ k.storage);
        sent = rw (e, ◌>>=◌) (l.sent ∙ k.sent);
      }
  | inr (x, e) ↦ record { storage = rw (e, ◌>>=◌) k.storage; sent = rw (e, ◌>>=◌) k.sent }
]

module _ {Store : Type 0} (W : WebCrypto) where
  get_crypto-Keeps : (s : Browser Store) → Keeps (get_crypto W) s
  get_crypto-Keeps s = record { storage = ground arith; sent = ground arith }

  make_key-Keeps : (s : Browser Store) → Keeps (make_key W) s
  unfolding make_key
  make_key-Keeps s = record { storage = ground arith; sent = ground arith }

  ensure_key-Keeps : (s : Browser Store) → Keeps (ensure_key W) s
  unfolding ensure_key
  ensure_key-Keeps s =
      let k = make_key-Keeps s in
      elim (Bool-cases (is_some s.keys.key_pair)) [
        | inl e ↦ record { storage = simp e; sent = simp e }
        | inr e ↦ record { storage = simp e k.storage; sent = simp e k.sent }
      ]

  sign_proof-Keeps :
      (jti method url : String) (s : Browser Store) → Keeps (sign_proof W jti method url) s
  unfolding sign_proof
  sign_proof-Keeps jti method url s = record { storage = ground arith; sent = ground arith }

  -- A proof touches neither the storage nor the calls, whatever comes of it.
  pub create_proof-Keeps :
      (method url : String) (s : Browser Store) → Keeps (create_proof W method url) s
  unfolding create_proof generate_jti
  create_proof-Keeps method url s = Keeps-bind (ensure_key W) _ s (ensure_key-Keeps s) λ u e.
      Keeps-bind (get_crypto W) _ _ (get_crypto-Keeps _) λ v e'.
        Keeps-bind (generate_jti W) _ _ (record { storage = refl; sent = refl })
          λ jti e''. sign_proof-Keeps jti method url _
