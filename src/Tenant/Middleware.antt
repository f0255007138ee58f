-- ===== src/Tenant/Middleware.antt =====
-- src/modules/tenant/tenant.middleware.ts: the tenant that the rest of a request runs under.
use Prim.Native.Char.{Char, code}
use Prim.Native.String.{String, [], ◌∷◌}
use kavachid.Base.{
  ℕ, zero, suc, ◌+◌, ◌≡◌, refl, Bool, ◌&&◌, ◌||◌, Option, none, some, leb, nat_eq, truthy,
  if◌then◌else◌,
}

-- the code of a character, of the small letter where it is a capital one
abbrev small : Char → ℕ
small c = if leb b'A' (code c) && leb (code c) b'Z' then code c + 32 else code c

-- the rest of a path behind a beginning, which is matched as by the flag `i`
unfoldable strip_prefix : String → String → Option String
strip_prefix [] path = some path
strip_prefix (p ∷ prefix) [] = none
strip_prefix (p ∷ prefix) (c ∷ path) =
    let rest = strip_prefix prefix path in if nat_eq (small p) (small c) then rest else none

-- `[a-f0-9\-]`
abbrev is_id_char : Char → Bool
is_id_char c =
    (leb b'a' (small c) && leb (small c) b'f')
    || ((leb b'0' (code c) && leb (code c) b'9') || nat_eq (code c) b'-')

-- `([a-f0-9\-]{n})` at the beginning of a text
unfoldable id_of_length : ℕ → String → Option String
id_of_length zero s = some ""
id_of_length (suc n) [] = none
id_of_length (suc n) (c ∷ s) =
    if is_id_char c then elim (id_of_length n s) [ none ↦ none | some id ↦ some (c ∷ id) ] else none

abbrev id_behind : Option String → Option String
id_behind none = none
id_behind (some rest) = id_of_length 36 rest

-- `req.path.match(/^\/(?:t|tenants)\/([a-f0-9\-]{36})/i)`
unfoldable path_tenant : String → Option String
unfolding strip_prefix id_of_length
path_tenant path = elim (id_behind (strip_prefix "/t/" path)) [
  | some id ↦ some id
  | none ↦ id_behind (strip_prefix "/tenants/" path)
]

-- `use`: the tenant under which `next` is run, if any
unfoldable pub use_middleware : Option String → String → Option String
unfolding path_tenant
use_middleware header path =
    let tenant = if truthy header then header else path_tenant path in
    if truthy tenant then tenant else none

header_first : use_middleware (some "t1") "/t/0123456789abcdef0123456789abcdef0123/x" ≡ some "t1"
unfolding use_middleware
header_first = refl

from_path :
    use_middleware none "/Tenants/0123456789abcdef-0123456789abcdef-01-/x"
    ≡ some "0123456789abcdef-0123456789abcdef-01"
unfolding use_middleware
from_path = refl

too_short : use_middleware (some "") "/t/0123456789abcdef" ≡ none
unfolding use_middleware
too_short = refl
