-- ===== src/Access/Guards.antt =====
-- The guards of a route (common/guards/tenant-context.guard.ts, common/guards/rbac.guard.ts).
use asset_hub.Prelude.{
  Option, none, some, Bool, true, false, [], String, get_or, any, drop, if◌then◌else◌,
}
use asset_hub.Prelude.Text.{Text, codes, starts_with}
use asset_hub.Prelude.Action.{Result, ok, err, unauthorized, forbidden}
use text.Mathlib.Text.{◌==◌ as str_eq}
use asset_hub.Access.Scope.{AuthContext}
use asset_hub.Auth.Store.{Crypto, Claims}

abbrev pub bearer : Text
bearer = codes "Bearer "

abbrev pub context_of : Claims → AuthContext
context_of c = record {
  user_id = c.sub;
  tenant_id = c.tenant_id;
  company_id = c.company_id;
  cross_company = get_or c.cross_company false;
  permissions = get_or c.permissions [];
}

-- `TenantContextGuard.canActivate` on the `authorization` header: the context that it attaches.
module _ (crypto : Crypto) where
  abbrev verified : Option Claims → Result AuthContext
  verified none = err (unauthorized "Invalid or expired access token")
  verified (some c) = ok (context_of c)

  unfoldable pub tenant_context_guard : Option Text → Result AuthContext
  tenant_context_guard none = err (unauthorized "Missing access token")
  tenant_context_guard (some header) =
      if starts_with bearer header
      then verified (crypto.verify (drop 7 header))
      else err (unauthorized "Missing access token")

-- `RbacGuard.canActivate`: the permission that the route requires, if any, and the context that the
-- guard before it attached, if it ran.
unfoldable pub rbac_guard : Option String → Option AuthContext → Result Bool
rbac_guard none context = ok true
rbac_guard (some required) none = err (forbidden "No auth context resolved")
rbac_guard (some required) (some context) =
    if any (str_eq required) context.permissions
    then ok true
    else err (forbidden "Missing permission")
