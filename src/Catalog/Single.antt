-- ===== src/Catalog/Single.antt =====
-- backend/app/platform_api.py: at most one version of a rule is active.
use cirt_lens.Base.{
  ℕ, ◌+◌, ◌≤◌, ◌≡◌, refl, String, Bool, true, false, ◌&&◌, Option, none, some, List, [], ◌∷◌, ◌++◌,
  ◌==◌, if◌then◌else◌, first, any, upper, arith, Bool-cases, Option-cases, inl, inr, eq_iff, ◌∙◌,
}
use cirt_lens.Store.{Principal, Outcome, ok, err}
use cirt_lens.Catalog.Lifecycle.{
  DetectionRule, RuleStatus, draft, testing, active, retired, is_version, is_live, is_active,
  retire_active, assign, activated, moved_to, promoted, promote_to, promote_rule, create_rule,
  RuleCreate, drafted, status_named, leads_to,
}

-- How many versions of the rule are active.
abbrev pub live : String → String → List DetectionRule → ℕ
live t r [] = 0
live t r (x ∷ xs) = (if is_live t r x then 1 else 0) + live t r xs

live-append :
    (t r : String) (xs ys : List DetectionRule) → live t r (xs ++ ys) ≡ live t r xs + live t r ys
live-append t r [] ys = omega arith
live-append t r (x ∷ xs) ys = ground (arith, live-append t r xs ys)

live-retire_active : (t r : String) (xs : List DetectionRule) → live t r (retire_active t r xs) ≡ 0
unfolding retire_active
live-retire_active t r [] = refl
live-retire_active t r (x ∷ xs) = ground (arith, live-retire_active t r xs)

live-retire_le :
    (t r t' r' : String) (xs : List DetectionRule)
    → live t' r' (retire_active t r xs) ≤ live t' r' xs
unfolding retire_active
live-retire_le t r t' r' [] = omega arith
live-retire_le t r t' r' (x ∷ xs) = ground (arith, live-retire_le t r t' r' xs)

live-activate :
    (t r v t' r' : String) (now : ℕ) (xs : List DetectionRule)
    → live t' r' (assign (is_version t r v) (activated now) xs)
      ≤ live t' r' xs + (if (t == t') && (r == r') then 1 else 0)
unfolding assign
live-activate t r v t' r' now [] = ground arith
live-activate t r v t' r' now (x ∷ xs) = ground (
  arith,
  live-activate t r v t' r' now xs,
  eq_iff x.tenant_id t,
  eq_iff x.rule_id r,
  eq_iff x.tenant_id t',
  eq_iff x.rule_id r',
  eq_iff t t',
  eq_iff r r',
)

live-move :
    (k : DetectionRule → Bool) (status : RuleStatus)
    → is_active status ≡ false
    → (t r : String) (xs : List DetectionRule)
    → live t r (assign k (moved_to status) xs) ≤ live t r xs
unfolding assign
live-move k status h t r [] = omega arith
live-move k status h t r (x ∷ xs) = ground (arith, live-move k status h t r xs)

-- The rows have at most one active version of each rule of each tenant.
abbrev pub IsSingle : List DetectionRule → Type 0
IsSingle rows = (t r : String) → live t r rows ≤ 1

promoted-IsSingle :
    (now : ℕ) (t r v : String) (status : RuleStatus) (rows : List DetectionRule)
    → IsSingle rows
    → IsSingle (promoted now t r v status rows)
unfolding promoted
promoted-IsSingle now t r v draft rows h t' r' =
    omega (arith, h t' r', live-move (is_version t r v) draft refl t' r' rows)
promoted-IsSingle now t r v testing rows h t' r' =
    omega (arith, h t' r', live-move (is_version t r v) testing refl t' r' rows)
promoted-IsSingle now t r v retired rows h t' r' =
    omega (arith, h t' r', live-move (is_version t r v) retired refl t' r' rows)
promoted-IsSingle now t r v active rows h t' r' = ground (
  arith,
  h t' r',
  live-activate t r v t' r' now (retire_active t r rows),
  live-retire_le t r t' r' rows,
  live-retire_active t r rows,
  eq_iff t t',
  eq_iff r r',
)

promote_to-IsSingle :
    (now : ℕ) (r v : String) (status : Option RuleStatus) (p : Principal) (value : DetectionRule)
    (rows : List DetectionRule)
    → IsSingle rows
    → IsSingle (promote_to now r v status p value rows).1
promote_to-IsSingle now r v none p value rows h = h
promote_to-IsSingle now r v (some status) p value rows h =
    elim (Bool-cases (leads_to value.status status)) [
      | inl e ↦ rw e (promoted-IsSingle now p.tenant_id r v status rows h)
      | inr e ↦ rw e h
    ]

-- Promotion, whatever the requested status and the caller, keeps it that at most one version of
-- each rule of each tenant is active, and so does the creation of a version.
pub promote_rule-IsSingle :
    (now : ℕ) (r v status : String) (body : RuleCreate) (p : Principal) (rows : List DetectionRule)
    → IsSingle rows
    → IsSingle (promote_rule now r v status p rows).1 × IsSingle (create_rule now body p rows).1
unfolding promote_rule create_rule
promote_rule-IsSingle now r v status body p rows h = (
  elim (Option-cases (first (is_version p.tenant_id r v) rows)) [
    | inl e ↦ rw (e, promote_rule) h
    | inr (value, e) ↦
        rw (e, promote_rule)
          (promote_to-IsSingle now r v (status_named (upper status)) p value rows h)
  ],
  elim (Bool-cases (any (is_version p.tenant_id body.rule_id body.version) rows)) [
    | inl e ↦ rw e h
    | inr e ↦ rw e (λ t r'. ground (arith, h t r', live-append t r' rows (drafted now body p ∷ [])))
  ],
)

live_none_activate :
    (t r v : String) (now : ℕ) (rows : List DetectionRule)
    → live t r rows ≡ 0
    → any (is_version t r v) rows ≡ true
    → live t r (assign (is_version t r v) (activated now) rows) ≡ 1
unfolding assign
live_none_activate t r v now [] h e = absurd (ground arith)
live_none_activate t r v now (x ∷ xs) h e = elim (Bool-cases (is_version t r v x)) [
  | inl k ↦ rw k (ground (arith, eq_iff x.tenant_id t, eq_iff x.rule_id r))
  | inr k ↦ rw k (ground (arith, live_none_activate t r v now xs))
]

any-retire_active :
    (t r v : String) (rows : List DetectionRule)
    → any (is_version t r v) (retire_active t r rows) ≡ any (is_version t r v) rows
unfolding retire_active
any-retire_active t r v [] = refl
any-retire_active t r v (x ∷ xs) = ground (arith, any-retire_active t r v xs)

any_of_first :
    (k : DetectionRule → Bool) (rows : List DetectionRule) (x : DetectionRule)
    → first k rows ≡ some x
    → any k rows ≡ true
any_of_first k [] x e = cc
any_of_first k (y ∷ ys) x e = ground (arith, any_of_first k ys x)

-- The live versions after a request that succeeded.
abbrev IsActivated : String → String → Outcome RuleStatus × List DetectionRule → Type 0
IsActivated t r (ok active, rows) = live t r rows ≡ 1
IsActivated t r _ = Unit

promote_to-IsActivated :
    (now : ℕ) (r v : String) (status : Option RuleStatus) (p : Principal) (value : DetectionRule)
    (rows : List DetectionRule)
    → any (is_version p.tenant_id r v) rows ≡ true
    → IsActivated p.tenant_id r (promote_to now r v status p value rows)
unfolding promoted
promote_to-IsActivated now r v none p value rows h = tt
promote_to-IsActivated now r v (some status) p value rows h =
    elim (Bool-cases (leads_to value.status status)) [
      | inl e ↦ rw e (reached status)
      | inr e ↦ rw e tt
    ]
  where
    reached :
        (status : RuleStatus)
        → IsActivated p.tenant_id r (ok status, promoted now p.tenant_id r v status rows)
    reached draft = tt
    reached testing = tt
    reached retired = tt
    reached active =
        live_none_activate p.tenant_id r v now (retire_active p.tenant_id r rows)
          (live-retire_active p.tenant_id r rows) (any-retire_active p.tenant_id r v rows ∙ h)

promote_rule-IsActivated :
    (now : ℕ) (r v status : String) (p : Principal) (rows : List DetectionRule)
    → IsActivated p.tenant_id r (promote_rule now r v status p rows)
unfolding promote_rule
promote_rule-IsActivated now r v status p rows =
    elim (Option-cases (first (is_version p.tenant_id r v) rows)) [
      | inl f ↦ rw (f, promote_rule) tt
      | inr (value, f) ↦
          rw (f, promote_rule)
            (promote_to-IsActivated now r v (status_named (upper status)) p value rows
              (any_of_first (is_version p.tenant_id r v) rows value f))
    ]

-- When a version has been promoted to ACTIVE, exactly one version of that rule is active, however
-- many there were before.
pub promote_rule-active :
    (now : ℕ) (r v status : String) (p : Principal) (rows : List DetectionRule)
    → (promote_rule now r v status p rows).0 ≡ ok active
    → live p.tenant_id r (promote_rule now r v status p rows).1 ≡ 1
promote_rule-active now r v status p rows e =
    of_result (promote_rule now r v status p rows) e
      (promote_rule-IsActivated now r v status p rows)
  where
    of_result :
        (x : Outcome RuleStatus × List DetectionRule)
        → x.0 ≡ ok active
        → IsActivated p.tenant_id r x
        → live p.tenant_id r x.1 ≡ 1
    of_result (err f, xs) e h = cc
    of_result (ok active, xs) e h = h
    of_result (ok draft, xs) e h = cc
    of_result (ok testing, xs) e h = cc
    of_result (ok retired, xs) e h = cc
