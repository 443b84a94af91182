-- ===== src/Access/Grants.antt =====
-- backend/app/auth.py: what the roles grant, and which role a token gives.
use cirt_lens.Base.{
  ℕ, ◌≤◌, ◌≡◌, refl, String, true, false, Option, none, some, List, [], ◌∷◌, map, ◌==◌, ltb,
  contains, upper, arith, Bool-cases, inl, inr, All, subset, subset-contains, eq_refl, zero, suc,
  ltb→lt, subst, sym,
}
use cirt_lens.Config.{Settings}
use cirt_lens.Store.{Principal, Outcome, ok, err}
use cirt_lens.Access.Roles.{
  role_level, role_permissions, viewer_permissions, analyst_permissions, responder_permissions,
  administrator_permissions, Claims, either, roles_of, highest, principal_of, current_principal,
  granted, require_permission,
}

-- The permissions of a level.
abbrev permissions_at : ℕ → List String
permissions_at zero = []
permissions_at (suc zero) = viewer_permissions
permissions_at (suc (suc zero)) = analyst_permissions
permissions_at (suc (suc (suc zero))) = responder_permissions
permissions_at (suc (suc (suc (suc n)))) = administrator_permissions

permissions_le : (x y : ℕ) → x ≤ y → subset (permissions_at x) (permissions_at y) ≡ true
permissions_le zero y l = refl
permissions_le (suc zero) zero l = absurd (omega arith)
permissions_le (suc zero) (suc zero) l = refl
permissions_le (suc zero) (suc (suc zero)) l = refl
permissions_le (suc zero) (suc (suc (suc zero))) l = refl
permissions_le (suc zero) (suc (suc (suc (suc y)))) l = refl
permissions_le (suc (suc zero)) zero l = absurd (omega arith)
permissions_le (suc (suc zero)) (suc zero) l = absurd (omega arith)
permissions_le (suc (suc zero)) (suc (suc zero)) l = refl
permissions_le (suc (suc zero)) (suc (suc (suc zero))) l = refl
permissions_le (suc (suc zero)) (suc (suc (suc (suc y)))) l = refl
permissions_le (suc (suc (suc zero))) zero l = absurd (omega arith)
permissions_le (suc (suc (suc zero))) (suc zero) l = absurd (omega arith)
permissions_le (suc (suc (suc zero))) (suc (suc zero)) l = absurd (omega arith)
permissions_le (suc (suc (suc zero))) (suc (suc (suc zero))) l = refl
permissions_le (suc (suc (suc zero))) (suc (suc (suc (suc y)))) l = refl
permissions_le (suc (suc (suc (suc x)))) zero l = absurd (omega arith)
permissions_le (suc (suc (suc (suc x)))) (suc zero) l = absurd (omega arith)
permissions_le (suc (suc (suc (suc x)))) (suc (suc zero)) l = absurd (omega arith)
permissions_le (suc (suc (suc (suc x)))) (suc (suc (suc zero))) l = absurd (omega arith)
permissions_le (suc (suc (suc (suc x)))) (suc (suc (suc (suc y)))) l = refl

role_permissions-eq-permissions_at :
    (role : String) → role_permissions role ≡ permissions_at (role_level role)
unfolding role_permissions role_level
role_permissions-eq-permissions_at role = elim (Bool-cases (role == "VIEWER")) [
  | inl e ↦ rw e refl
  | inr e ↦ elim (Bool-cases (role == "ANALYST")) [
    | inl f ↦ rw (e, f) refl
    | inr f ↦ elim (Bool-cases (role == "RESPONDER")) [
      | inl g ↦ rw (e, f, g) refl
      | inr g ↦ elim (Bool-cases (role == "ADMINISTRATOR")) [
        | inl h ↦ rw (e, f, g, h) refl
        | inr h ↦ rw (e, f, g, h) refl
      ]
    ]
  ]
]

-- A role of a higher or equal level grants every permission that a role grants.
pub role_permissions_mono :
    (lower_role higher_role permission : String)
    → role_level lower_role ≤ role_level higher_role
    → contains (role_permissions lower_role) permission ≡ true
    → contains (role_permissions higher_role) permission ≡ true
role_permissions_mono lower_role higher_role permission l h =
    subset-contains (role_permissions lower_role) (role_permissions higher_role) permission
      (rw
        (
          role_permissions-eq-permissions_at lower_role,
          role_permissions-eq-permissions_at higher_role,
        )
        (permissions_le (role_level lower_role) (role_level higher_role) l))
      h

-- One of the roles, and none has a higher level.
abbrev pub IsTop : List String → String → Type 0
IsTop rs r = (contains rs r ≡ true) × All (λ x. role_level x ≤ role_level r) rs

highest_replaced :
    (best r : String) (rs : List String)
    → ltb (role_level best) (role_level r) ≡ true
    → highest r rs ≡ highest best (r ∷ rs)
highest_replaced best r rs e = rw e refl

highest_kept :
    (best r : String) (rs : List String)
    → ltb (role_level best) (role_level r) ≡ false
    → highest best rs ≡ highest best (r ∷ rs)
highest_kept best r rs e = rw e refl

highest-IsTop : (best : String) (rs : List String) → IsTop (best ∷ rs) (highest best rs)
highest-IsTop best [] = (rw (eq_refl best) refl, (omega arith, tt))
highest-IsTop best (r ∷ rs) =
    let from_r = highest-IsTop r rs in
    let from_best = highest-IsTop best rs in
    elim (Bool-cases (ltb (role_level best) (role_level r))) [
      | inl e ↦
          subst (λ x. IsTop (best ∷ r ∷ rs) x) (highest_replaced best r rs e)
            (
              ground (arith, from_r.0),
              (omega (arith, from_r.1.0, ltb→lt (role_level best) (role_level r) e), from_r.1),
            )
      | inr e ↦
          subst (λ x. IsTop (best ∷ r ∷ rs) x) (highest_kept best r rs e)
            (
              ground (arith, from_best.0),
              (from_best.1.0, (ground (arith, from_best.1.0), from_best.1.1)),
            )
    ]

-- How a principal comes from a token: its role is one of the token's roles in upper case, none of
-- which has a higher level, its permissions are those of the token and its tenant is a tenant of
-- the token and not empty.
abbrev pub IsOf : Claims → Outcome Principal → Type 0
IsOf c (err e) = Unit
IsOf c (ok p) =
    IsTop (map upper (roles_of c.namespaced_roles c.role)) p.role
    × (p.permissions ≡ c.permissions)
    × (either c.namespaced_tenant_id c.tenant_id ≡ some p.tenant_id)
    × ((p.tenant_id == "") ≡ false)

principal_of-IsOf :
    (c : Claims) (tenant : Option String) (roles : List String)
    → either c.namespaced_tenant_id c.tenant_id ≡ tenant
    → roles_of c.namespaced_roles c.role ≡ roles
    → IsOf c (principal_of c tenant roles)
unfolding principal_of
principal_of-IsOf c none roles h k = tt
principal_of-IsOf c (some t) [] h k = tt
principal_of-IsOf c (some t) (r ∷ rs) h k = elim (Bool-cases (t == "")) [
  | inl e ↦ rw e tt
  | inr e ↦ rw e (
    subst (λ l. IsTop (map upper l) (highest (upper r) (map upper rs))) (sym k)
        (highest-IsTop (upper r) (map upper rs)),
    refl,
    h,
    e,
  )
]

-- A principal that a token gives has one of the token's roles in upper case, none of which has a
-- higher level, the permissions of the token, and a tenant of the token that is not empty.
pub current_principal-IsOf :
    (s : Settings) (c : Claims) → IsOf c (current_principal s (some (some c)))
unfolding current_principal
current_principal-IsOf s c =
    principal_of-IsOf c (either c.namespaced_tenant_id c.tenant_id)
      (roles_of c.namespaced_roles c.role) refl refl

granted_by_role : (p : Principal) → p.permissions ≡ [] → granted p ≡ role_permissions p.role
granted_by_role p h = rw h refl

-- Without explicit permissions, whoever passes the check of a permission passes it with any role
-- of a higher or equal level too.
pub require_permission_mono :
    (permission : String) (p : Principal) (role : String)
    → p.permissions ≡ []
    → role_level p.role ≤ role_level role
    → require_permission permission p ≡ ok p
    → require_permission permission (record p { role = role }) ≡ ok (record p { role = role })
unfolding require_permission
require_permission_mono permission p role h l e =
    elim (Bool-cases (contains (granted p) permission)) [
      | inl t ↦
          rw
            (
              granted_by_role (record p { role = role }) h,
              role_permissions_mono p.role role permission l
                  (subst (λ g. contains g permission ≡ true) (granted_by_role p h) t),
            )
            refl
      | inr t ↦ absurd (ground arith)
    ]
