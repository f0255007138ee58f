-- ===== src/Prisma/Constraints.antt =====
-- The foreign key to the tenant (prisma/schema.prisma), which the rows of most tables have.
use kavachid.Base.{Bool, not, String, ◌==◌, nat_eq}
use kavachid.Prisma.{Client}
use kavachid.Schema.{Db}

-- Whether the key is met; a text that is no UUID is the id of no tenant.
abbrev pub tenant_exists : (P : Client) → String → Db P.Table → Bool
tenant_exists P tenant_id db = not (nat_eq (P.count (λ t. t.id == tenant_id) db.tenants) 0)
