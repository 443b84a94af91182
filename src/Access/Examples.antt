-- ===== src/Access/Examples.antt =====
-- Tests of roles and permissions, and their theorems at concrete principals.
use cirt_lens.Base.{upper, ◌≡◌, ◌≤◌, refl, none, some, [], ◌∷◌, arith}
use cirt_lens.Config.{default_settings}
use cirt_lens.Store.{Principal, ok, err, http}
use cirt_lens.Access.Roles.{
  Claims, current_principal, require_role, require_permission, role_level, role_permissions,
}
use cirt_lens.Access.Grants.{IsOf, current_principal-IsOf}

abbrev claims : Claims
claims = record {
  sub = "USR-9";
  namespaced_tenant_id = none;
  tenant_id = some "tenant-demo";
  namespaced_roles = "viewer" ∷ "Responder" ∷ "guest" ∷ [];
  role = none;
  email = none;
  permissions = [];
}

abbrev signed_in : Principal
signed_in = record {
  user_id = "USR-9";
  tenant_id = "tenant-demo";
  email = "USR-9";
  role = "RESPONDER";
  permissions = [];
}

signs_in : current_principal default_settings (some (some claims)) ≡ ok signed_in
unfolding current_principal upper role_level
signs_in = refl

may_execute : require_permission "actions:execute" signed_in ≡ ok signed_in
unfolding require_permission role_permissions
may_execute = refl

may_not_manage : require_permission "rules:manage" signed_in ≡ err (http 403 "Missing permission")
unfolding require_permission role_permissions
may_not_manage = refl

is_no_administrator :
    require_role "ADMINISTRATOR" signed_in ≡ err (http 403 "a higher role is required")
unfolding require_role role_level
is_no_administrator = refl

levels : role_level "RESPONDER" ≤ role_level "ADMINISTRATOR"
unfolding role_level
levels = omega arith

current_principal-IsOf_example :
    IsOf claims (current_principal default_settings (some (some claims)))
current_principal-IsOf_example = current_principal-IsOf default_settings claims
