-- ===== src/Access/Roles.antt =====
-- backend/app/auth.py: the roles, `require_role`, `require_permission`, and `current_principal`.
-- Tokens are decoded by the JWT library: its answer, the claims or a failure, is an argument.
use cirt_lens.Base.{
  ℕ, String, Option, none, some, List, [], ◌∷◌, map, ◌==◌, ltb, if◌then◌else◌, contains, upper,
  truthy,
}
use cirt_lens.Config.{Settings}
use cirt_lens.Store.{Principal, Outcome, ok, err, http}

-- `ROLE_LEVEL.get(role, -1)`, one more than in the source: 0 for an unknown role
unfoldable pub role_level : String → ℕ
role_level role =
    if role == "VIEWER"
    then 1
    else if role == "ANALYST"
    then 2
    else if role == "RESPONDER"
    then 3
    else if role == "ADMINISTRATOR"
    then 4
    else 0

abbrev pub viewer_permissions : List String
viewer_permissions = "incidents:read" ∷ "telemetry:read" ∷ "rules:read" ∷ "audit:read" ∷ []

abbrev pub analyst_permissions : List String
analyst_permissions =
    "incidents:read" ∷ "incidents:write" ∷ "incidents:resolve" ∷ "telemetry:read"
    ∷ "actions:request" ∷ "rules:read" ∷ "audit:read" ∷ []

abbrev pub responder_permissions : List String
responder_permissions =
    "incidents:read" ∷ "incidents:write" ∷ "incidents:resolve" ∷ "telemetry:read"
    ∷ "actions:request" ∷ "actions:approve" ∷ "actions:execute" ∷ "rules:read" ∷ "audit:read" ∷ []

abbrev pub administrator_permissions : List String
administrator_permissions =
    "incidents:read" ∷ "incidents:write" ∷ "incidents:resolve" ∷ "telemetry:read"
    ∷ "telemetry:ingest" ∷ "actions:request" ∷ "actions:approve" ∷ "actions:execute" ∷ "rules:read"
    ∷ "rules:manage" ∷ "users:manage" ∷ "audit:read" ∷ []

-- `ROLE_PERMISSIONS.get(role, set())`
unfoldable pub role_permissions : String → List String
role_permissions role =
    if role == "VIEWER"
    then viewer_permissions
    else if role == "ANALYST"
    then analyst_permissions
    else if role == "RESPONDER"
    then responder_permissions
    else if role == "ADMINISTRATOR"
    then administrator_permissions
    else []

-- The claims that `current_principal` reads: the namespaced ones first. `role` and `tenant_id`
-- count as missing when they are empty, and `sub` is present.
pub record Claims : Type 0 where
  pub sub : String
  pub namespaced_tenant_id : Option String
  pub tenant_id : Option String
  pub namespaced_roles : List String
  pub role : Option String
  pub email : Option String
  pub permissions : List String

abbrev pub either : Option String → Option String → Option String
either a b = if truthy a then a else b

abbrev pub own_role : Option String → List String
own_role none = []
own_role (some r) = if r == "" then [] else r ∷ []

abbrev pub roles_of : List String → Option String → List String
roles_of [] role = own_role role
roles_of (r ∷ rs) role = r ∷ rs

-- `max(roles, key=…)`: the first of those with the highest level
abbrev pub highest : String → List String → String
highest best [] = best
highest best (r ∷ rs) =
    let kept = highest best rs in
    let replaced = highest r rs in if ltb (role_level best) (role_level r) then replaced else kept

abbrev pub text_or : String → Option String → String
text_or other none = other
text_or other (some t) = t

unfoldable pub principal_of : Claims → Option String → List String → Outcome Principal
principal_of c (some tenant_id) (r ∷ rs) =
    if tenant_id == ""
    then err (http 401 "Invalid or expired access token")
    else ok (record {
      user_id = c.sub;
      tenant_id = tenant_id;
      email = text_or c.sub c.email;
      role = highest (upper r) (map upper rs);
      permissions = c.permissions;
    })
principal_of c _ _ = err (http 401 "Invalid or expired access token")

-- For the header: none without `Bearer`, else what decoding the token gave.
unfoldable pub current_principal : Settings → Option (Option Claims) → Outcome Principal
unfolding principal_of
current_principal s none =
    if s.auth_required
    then err (http 401 "Authentication required")
    else ok (record {
      user_id = "USR-DEMO";
      tenant_id = s.default_tenant_id;
      email = "analyst@demo";
      role = "ADMINISTRATOR";
      permissions = [];
    })
current_principal s (some none) = err (http 401 "Invalid or expired access token")
current_principal s (some (some c)) =
    principal_of c (either c.namespaced_tenant_id c.tenant_id) (roles_of c.namespaced_roles c.role)

unfoldable pub require_role : String → Principal → Outcome Principal
require_role minimum p =
    if ltb (role_level p.role) (role_level minimum)
    then err (http 403 "a higher role is required")
    else ok p

-- `principal.permissions or frozenset(…)`
abbrev pub granted : Principal → List String
granted p = elim p.permissions [ [] ↦ role_permissions p.role | x ∷ xs ↦ x ∷ xs ]

unfoldable pub require_permission : String → Principal → Outcome Principal
require_permission permission p =
    if contains (granted p) permission then ok p else err (http 403 "Missing permission")
