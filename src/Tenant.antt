-- ===== src/Tenant.antt =====
-- src/modules/tenant/: the tenant of the request, as the AsyncLocalStorage of `TenantContext`
-- holds it (`none` outside of `run`), and the guard.
pub mod Middleware
use kavachid.Base.{
  Bool, true, Option, none, some, String, plain, bad_request, Result, ok, err, present,
  if◌then◌else◌,
}

-- `getRequiredTenantId`
unfoldable pub get_required_tenant_id : Option String → Result String
get_required_tenant_id none = err (plain "Tenant context is missing in this execution path")
get_required_tenant_id (some t) =
    if present t then ok t else err (plain "Tenant context is missing in this execution path")

-- `TenantGuard.canActivate`
unfoldable pub can_activate : Option String → Result Bool
can_activate none = err (bad_request "x-tenant-id header or tenant route prefix is required")
can_activate (some t) =
    if present t
    then ok true
    else err (bad_request "x-tenant-id header or tenant route prefix is required")
