-- ===== src/Catalog/Lifecycle.antt =====
-- backend/app/platform_api.py: `bootstrap_rules`, `create_rule` and `promote_rule`; models.py:
-- `DetectionRule`. The `id` column and the parameters are left out.
use cirt_lens.Base.{
  ℕ, String, Bool, true, false, ◌&&◌, Option, none, some, List, [], ◌∷◌, ◌++◌, ◌==◌, leb,
  if◌then◌else◌, first, any, upper,
}
use cirt_lens.Detection.Rules.{Rule, rules}
use cirt_lens.Store.{Principal, Outcome, ok, err, http}

pub data RuleStatus : Type 0 where
  draft testing active retired : RuleStatus

pub record DetectionRule : Type 0 where
  pub tenant_id : String
  pub rule_id : String
  pub version : String
  pub name : String
  pub description : String
  pub owner : String
  pub severity : String
  pub status : RuleStatus
  pub enabled : Bool
  pub created_at : ℕ
  pub promoted_at : Option ℕ

-- `filter_by(tenant_id=…, rule_id=…, version=…)`, the columns of the unique constraint
abbrev pub is_version : String → String → String → DetectionRule → Bool
is_version tenant_id rule_id version x =
    x.tenant_id == tenant_id && (x.rule_id == rule_id && x.version == version)

abbrev pub shipped : ℕ → String → String → Rule → DetectionRule
shipped now tenant_id rule_id r = record {
  tenant_id = tenant_id;
  rule_id = rule_id;
  version = r.version;
  name = r.name;
  description = r.description;
  owner = "detection-engineering";
  severity = if leb 30 r.risk then "HIGH" else "MEDIUM";
  status = active;
  enabled = true;
  created_at = now;
  promoted_at = some now;
}

unfoldable pub bootstrap_from :
    ℕ → String → List (String × Rule) → List DetectionRule → List DetectionRule
bootstrap_from now tenant_id [] rows = rows
bootstrap_from now tenant_id ((rule_id, r) ∷ rest) rows = bootstrap_from now tenant_id rest (
    if any (is_version tenant_id rule_id r.version) rows
    then rows
    else rows ++ shipped now tenant_id rule_id r ∷ [])

unfoldable pub bootstrap_rules : ℕ → String → List DetectionRule → List DetectionRule
unfolding bootstrap_from
bootstrap_rules now tenant_id rows = bootstrap_from now tenant_id rules rows

pub record RuleCreate : Type 0 where
  pub rule_id : String
  pub version : String
  pub name : String
  pub description : String
  pub owner : String
  pub severity : String

abbrev pub drafted : ℕ → RuleCreate → Principal → DetectionRule
drafted now body p = record {
  tenant_id = p.tenant_id;
  rule_id = body.rule_id;
  version = body.version;
  name = body.name;
  description = body.description;
  owner = body.owner;
  severity = body.severity;
  status = draft;
  enabled = false;
  created_at = now;
  promoted_at = none;
}

unfoldable pub create_rule :
    ℕ → RuleCreate → Principal → List DetectionRule → Outcome RuleStatus × List DetectionRule
create_rule now body p rows =
    if any (is_version p.tenant_id body.rule_id body.version) rows
    then (err (http 409 "Rule version already exists"), rows)
    else (ok draft, rows ++ drafted now body p ∷ [])

-- A text that names no status is in no transition.
abbrev pub status_named : String → Option RuleStatus
status_named t =
    if t == "DRAFT"
    then some draft
    else if t == "TESTING"
    then some testing
    else if t == "ACTIVE"
    then some active
    else if t == "RETIRED"
    then some retired
    else none

-- `transitions`
abbrev pub leads_to : RuleStatus → RuleStatus → Bool
leads_to draft testing = true
leads_to testing active = true
leads_to testing draft = true
leads_to active retired = true
leads_to _ _ = false

abbrev pub is_active : RuleStatus → Bool
is_active active = true
is_active _ = false

-- `filter_by(tenant_id=…, rule_id=…, status="ACTIVE")`
abbrev pub is_live : String → String → DetectionRule → Bool
is_live tenant_id rule_id x =
    x.tenant_id == tenant_id && (x.rule_id == rule_id && is_active x.status)

-- The earlier active versions of the rule are retired and disabled.
unfoldable pub retire_active : String → String → List DetectionRule → List DetectionRule
retire_active tenant_id rule_id [] = []
retire_active tenant_id rule_id (x ∷ xs) =
    (if is_live tenant_id rule_id x then record x { status = retired; enabled = false } else x)
    ∷ retire_active tenant_id rule_id xs

abbrev pub activated : ℕ → DetectionRule → DetectionRule
activated now x = record x { status = active; enabled = true; promoted_at = some now }

abbrev pub moved_to : RuleStatus → DetectionRule → DetectionRule
moved_to status x = record x { status = status }

-- An assignment to the row that the query gave.
unfoldable pub assign :
    (DetectionRule → Bool)
    → (DetectionRule → DetectionRule)
    → List DetectionRule
    → List DetectionRule
assign k f [] = []
assign k f (x ∷ xs) = let rest = assign k f xs in if k x then f x ∷ xs else x ∷ rest

-- The rows once the transition is allowed.
unfoldable pub promoted :
    ℕ → String → String → String → RuleStatus → List DetectionRule → List DetectionRule
promoted now tenant_id rule_id version active rows =
    assign (is_version tenant_id rule_id version) (activated now)
      (retire_active tenant_id rule_id rows)
promoted now tenant_id rule_id version status rows =
    assign (is_version tenant_id rule_id version) (moved_to status) rows

abbrev pub promote_to :
    ℕ
    → String
    → String
    → Option RuleStatus
    → Principal
    → DetectionRule
    → List DetectionRule
    → Outcome RuleStatus × List DetectionRule
promote_to now rule_id version none p value rows = (err (http 409 "Invalid transition"), rows)
promote_to now rule_id version (some status) p value rows =
    if leads_to value.status status
    then (ok status, promoted now p.tenant_id rule_id version status rows)
    else (err (http 409 "Invalid transition"), rows)

unfoldable pub promote_rule :
    ℕ
    → String
    → String
    → String
    → Principal
    → List DetectionRule
    → Outcome RuleStatus × List DetectionRule
promote_rule now rule_id version status p rows =
    elim (first (is_version p.tenant_id rule_id version) rows) [
      | none ↦ (err (http 404 "Rule not found"), rows)
      | some value ↦ promote_to now rule_id version (status_named (upper status)) p value rows
    ]
