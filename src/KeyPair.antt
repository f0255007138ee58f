-- ===== src/KeyPair.antt =====
-- src/modules/keypair/keypair.service.ts
pub mod Rotated
pub mod Routes
use kavachid.Base.{
  take, ℕ, ◌+◌, ◌*◌, Bool, ◌&&◌, Option, none, some, List, [], ◌∷◌, String, ◌==◌, leb, decimal,
  template, internal, ok, err, Exec, pure, lift, gets, modify, rethrow, ◌>>=◌, ◌>>◌, Result, ◌||◌,
}
use kavachid.Prisma.{Client, desc, create_unique}
use kavachid.Schema.{Db, KeyPair, draw}
use kavachid.Crypto.{PublicJwk, pem_to_jwk, Externals, decrypt_private_key, encrypt_private_key}

pub record ActiveKey : Type 0 where
  pub kid : String
  pub public_key_pem : String
  pub private_key_pem : String
  pub algorithm : String

abbrev thirty_days : ℕ
thirty_days = 30 * 86400000

abbrev first : {R : Type 0} → List R → Option R
first [] = none
first (r ∷ l) = some r

-- the `where` of `getActiveKeyPair`
abbrev pub is_current : String → ℕ → KeyPair → Bool
is_current algorithm now k =
    k.status == "active"
    && (k.algorithm == algorithm && (leb k.active_from now && leb now k.active_to))

-- the `where` of `rotateKeys`
abbrev pub is_active : String → KeyPair → Bool
is_active algorithm k = k.status == "active" && k.algorithm == algorithm

-- the `where` of `getPublicJwks`
abbrev pub is_published : String → KeyPair → Bool
is_published algorithm k =
    (k.status == "active" || k.status == "expired") && k.algorithm == algorithm

-- the entry of a key before those of the others; a key that cannot be exported is left out
abbrev with_entry : Result PublicJwk → List PublicJwk → List PublicJwk
with_entry (ok j) l = j ∷ l
with_entry (err e) l = l

module _ (P : Client) (X : Externals) where
  -- `prisma.keyPair.create`; `kid` is unique
  unfoldable save : KeyPair → Exec (Db P.Table) (Unit {0})
  save key db = elim (create_unique P (λ k. k.kid == key.kid) key db.key_pairs) [
    | ok t ↦ (ok tt, record db { key_pairs = t })
    | err e ↦ (err e, db)
  ]

  -- `generateAndSaveKeyPair`
  unfoldable pub generate_and_save_key_pair : String → Exec (Db P.Table) KeyPair
  unfolding save
  generate_and_save_key_pair algorithm = do
    seed ← gets (λ db. db.drawn)
    let pems = X.generate_pem algorithm seed
    suffix ← draw X.random_base36
    iv ← draw X.random_hex
    id ← draw X.uuid
    now ← gets (λ db. db.now)
    let key : KeyPair = record {
      id = id;
      kid = template ("kid_" ∷ decimal now ∷ "_" ∷ suffix ∷ []);
      public_key_pem = pems.0;
      encrypted_private_key = encrypt_private_key X iv pems.1;
      algorithm = algorithm;
      status = "active";
      active_from = now;
      active_to = now + thirty_days;
      created_at = now;
    }
    save key
    pure key

  -- the key that is current, or else a new one
  current_or_new : String → Exec (Db P.Table) KeyPair
  unfolding generate_and_save_key_pair
  current_or_new algorithm db =
      elim (first
        (P.find_many (is_current algorithm db.now) (desc (λ k. k.created_at)) db.key_pairs)) [
          | none ↦ generate_and_save_key_pair algorithm db
          | some k ↦ (ok k, db)
        ]

  -- `getActiveKeyPair`
  unfoldable pub get_active_key_pair : String → Exec (Db P.Table) ActiveKey
  unfolding current_or_new
  get_active_key_pair algorithm = do
    key ← current_or_new algorithm
    private_key_pem ←
        rethrow (lift (decrypt_private_key X key.encrypted_private_key))
          (λ _. internal "Failed to decrypt active signing key")
    pure (record {
      kid = key.kid;
      public_key_pem = key.public_key_pem;
      private_key_pem = private_key_pem;
      algorithm = key.algorithm;
    })

  -- the entries of the keys that can be exported
  unfoldable pub jwks_of : List KeyPair → List PublicJwk
  jwks_of [] = []
  jwks_of (k ∷ l) = with_entry (pem_to_jwk X k.public_key_pem k.kid k.algorithm) (jwks_of l)

  -- `getPublicJwks`
  unfoldable pub get_public_jwks : String → Db P.Table → List PublicJwk
  get_public_jwks algorithm db =
      jwks_of
        (take 10 (P.find_many (is_published algorithm) (desc (λ k. k.created_at)) db.key_pairs))

  -- `rotateKeys`
  unfoldable pub rotate_keys : String → Exec (Db P.Table) (String × String)
  unfolding generate_and_save_key_pair
  rotate_keys algorithm = do
    modify λ db. record db {
      key_pairs =
          P.update_many (is_active algorithm)
            (λ k. record k { status = "expired"; active_to = db.now }) db.key_pairs;
    }
    key ← generate_and_save_key_pair algorithm
    pure (key.kid, key.public_key_pem)
