-- ===== src/Base/Outcome.antt =====
-- Exceptions as values, and methods that change the database and may throw. What was written
-- before a throw stays written, so the state comes back beside the error.
use mathlib.Core.Logic.{◌⊎◌, inl, inr}
use Prim.Native.String.{String}
use mathlib.Core.Path.{◌≡◌, refl}
use mathlib.Core.Bool.{Bool, true, false}
use mathlib.Core.Option.{Option, none, some}

-- The HTTP exceptions of NestJS, a plain `Error`, and the refusals of the database client.
pub data Error : Type 0 where
  bad_request unauthorized forbidden not_found conflict internal plain : String → Error
  unique_violation foreign_key_violation record_missing : Error

-- `err.message`
abbrev pub message : Error → String
message (bad_request m) = m
message (unauthorized m) = m
message (forbidden m) = m
message (not_found m) = m
message (conflict m) = m
message (internal m) = m
message (plain m) = m
message unique_violation = "P2002"
message foreign_key_violation = "P2003"
message record_missing = "P2025"

pub data Result (A : Type 0) : Type 0 where
  ok : A → Result A
  err : Error → Result A

abbrev pub Exec : Type 0 → Type 0 → Type 0
Exec S A = S → Result A × S

module _ {S A : Type 0} where
  abbrev pub pure : A → Exec S A
  pure a s = (ok a, s)

  abbrev pub throw : Error → Exec S A
  throw e s = (err e, s)

  -- a pure step that may throw
  abbrev pub lift : Result A → Exec S A
  lift r s = (r, s)

  abbrev pub gets : (S → A) → Exec S A
  gets f s = (ok (f s), s)

  -- a value, or a throw where it is `null`
  abbrev pub or_throw : Option A → Error → Exec S A
  or_throw none e = throw e
  or_throw (some a) e = pure a

  -- `try { m } catch (err) { throw f(err) }`
  abbrev pub rethrow : Exec S A → (Error → Error) → Exec S A
  rethrow m f s = let (r, s') = m s in elim r [ ok a ↦ (ok a, s') | err e ↦ (err (f e), s') ]

module _ {S : Type 0} where
  abbrev pub modify : (S → S) → Exec S (Unit {0})
  modify f s = (ok tt, f s)

  abbrev pub throw_if : Bool → Error → Exec S (Unit {0})
  throw_if true e s = (err e, s)
  throw_if false e s = (ok tt, s)

  -- `if (b) await m`
  abbrev pub when : Bool → Exec S (Unit {0}) → Exec S (Unit {0})
  when true m s = m s
  when false m s = (ok tt, s)

  -- `try { m } catch {}`: errors are swallowed
  abbrev pub attempt : Exec S (Unit {0}) → Exec S (Unit {0})
  attempt m s = (ok tt, (m s).1)

infixl 5 ◌>>=◌ ◌>>◌
abbrev pub ◌>>=◌ : {S A B : Type 0} → Exec S A → (A → Exec S B) → Exec S B
◌>>=◌ m f s = let (r, s') = m s in elim r [ ok a ↦ f a s' | err e ↦ (err e, s') ]

abbrev pub ◌>>◌ : {S A B : Type 0} → Exec S A → Exec S B → Exec S B
m >> k = m >>= λ _. k

-- The same chain for pure steps: `r` and then `f`.
abbrev pub bind : {A B : Type 0} → Result A → (A → Result B) → Result B
bind (ok a) f = f a
bind (err e) f = err e

pub Result-cases :
    {A : Type 0} (r : Result A) → ((a : A) × (r ≡ ok a)) ⊎ ((e : Error) × (r ≡ err e))
Result-cases (ok a) = inl (a, refl)
Result-cases (err e) = inr (e, refl)
