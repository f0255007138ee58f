-- ===== src/Base/Text.antt =====
-- JavaScript text: truthiness, `split` at one character, `endsWith`, `startsWith`.
use Prim.Native.Nat.{ℕ, zero, suc, ◌/◌, ◌%◌}
use Prim.Native.Char.{Char, code}
use Prim.Native.String.{String, [], ◌∷◌}
use Prim.Native.String
use mathlib.Core.Path.{◌≡◌, refl}
use mathlib.Core.Bool.{Bool, true, false, not, ◌&&◌, ◌||◌}
use mathlib.Core.Option.{Option, none, some}
use mathlib.Core.List.{List}
use native.Mathlib.Omega.{arith}
use text.Mathlib.Text.{◌==◌}
use text.Mathlib.TextLemmas.{nil-append, cons-append}
use kavachid.Base.Tests.{nat_eq, ltb, if◌then◌else◌}

-- Whether a text is truthy: absent and empty texts are not.
abbrev pub present : String → Bool
present s = not (s == "")

abbrev pub truthy : Option String → Bool
truthy none = false
truthy (some s) = present s

-- `a || d` on texts
abbrev pub or_else : Option String → String → String
or_else none d = d
or_else (some s) d = if present s then s else d

-- `a === b` where `b` may be absent
abbrev pub same : String → Option String → Bool
same s none = false
same s (some t) = s == t

-- put a character in front of the first part
abbrev cons_head : Char → List String → List String
cons_head c List.[] = List.◌∷◌ (c ∷ []) List.[]
cons_head c (List.◌∷◌ s r) = List.◌∷◌ (c ∷ s) r

-- `s.split(c)` for a one-character separator, given by its code point
unfoldable pub split : ℕ → String → List String
split sep [] = List.◌∷◌ "" List.[]
split sep (c ∷ s) =
    let rest = split sep s in if nat_eq (code c) sep then List.◌∷◌ "" rest else cons_head c rest

-- whether the separator does not occur
abbrev pub free_of : ℕ → String → Bool
free_of sep [] = true
free_of sep (c ∷ s) = not (nat_eq (code c) sep) && free_of sep s

pub split-free_of : (sep : ℕ) (s : String) → free_of sep s ≡ true → split sep s ≡ List.◌∷◌ s List.[]
unfolding split
split-free_of sep [] h = refl
split-free_of sep (c ∷ s) h = ground (arith, split-free_of sep s)

-- A text joined from two parts at one separator splits into these.
pub split-join :
    (sep : ℕ) (c : Char) (s t : String)
    → code c ≡ sep
    → free_of sep s ≡ true
    → free_of sep t ≡ true
    → split sep (String.◌++◌ s (c ∷ t)) ≡ List.◌∷◌ s (List.◌∷◌ t List.[])
unfolding split
split-join sep c [] t e hs ht = simp nil-append (ground (arith, split-free_of sep t))
split-join sep c (d ∷ s) t e hs ht = simp cons-append (ground (arith, split-join sep c s t e))

-- The first part of a text, up to a separator.
pub split-first :
    (sep : ℕ) (c : Char) (s t : String)
    → code c ≡ sep
    → free_of sep s ≡ true
    → split sep (String.◌++◌ s (c ∷ t)) ≡ List.◌∷◌ s (split sep t)
unfolding split
split-first sep c [] t e hs = simp nil-append (ground arith)
split-first sep c (d ∷ s) t e hs = simp cons-append (ground (arith, split-first sep c s t e))

-- `s.endsWith(t)`
unfoldable pub ends_with : String → String → Bool
ends_with [] t = t == ""
ends_with (c ∷ s) t = (c ∷ s) == t || ends_with s t

-- a template literal, by its parts
abbrev pub template : List String → String
template List.[] = ""
template (List.◌∷◌ s r) = String.◌++◌ s (template r)

digit : ℕ → String
digit n =
    if nat_eq n 0
    then "0"
    else if nat_eq n 1
    then "1"
    else if nat_eq n 2
    then "2"
    else if nat_eq n 3
    then "3"
    else if nat_eq n 4
    then "4"
    else if nat_eq n 5
    then "5"
    else if nat_eq n 6
    then "6"
    else if nat_eq n 7
    then "7"
    else if nat_eq n 8
    then "8"
    else "9"

decimal_from : ℕ → ℕ → String → String
decimal_from zero n tail = tail
decimal_from (suc f) n tail =
    let more = decimal_from f (n / 10) (String.◌++◌ (digit (n % 10)) tail) in
    if ltb n 10 then String.◌++◌ (digit n) tail else more

-- `${n}` for a number; `n` has at most `n + 1` digits
unfoldable pub decimal : ℕ → String
unfolding decimal_from digit
decimal n = decimal_from (suc n) n ""

decimal_test : decimal 2048 ≡ "2048"
unfolding decimal
decimal_test = refl

-- `s.substring(0, n)`, in code points
unfoldable pub substring : ℕ → String → String
substring zero s = ""
substring (suc n) [] = ""
substring (suc n) (c ∷ s) = c ∷ substring n s

-- `s.substring(n)`
unfoldable pub drop_text : ℕ → String → String
drop_text zero s = s
drop_text (suc n) [] = ""
drop_text (suc n) (c ∷ s) = drop_text n s
