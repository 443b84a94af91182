-- ===== src/Catalog/Examples.antt =====
-- Tests of the life cycle of rules, and its theorems at a rule with two versions.
use cirt_lens.Base.{upper, ◌≡◌, refl, List, [], ◌∷◌, true, map, arith}
use cirt_lens.Store.{ok, err, http}
use cirt_lens.Response.Samples.{responder}
use cirt_lens.Catalog.Lifecycle.{
  assign, DetectionRule, RuleStatus, RuleCreate, drafted, testing, active, create_rule,
  promote_rule, bootstrap_rules, promoted,
}
use cirt_lens.Catalog.Single.{live, IsSingle, promote_rule-IsSingle}

abbrev second_version : RuleCreate
second_version = record {
  rule_id = "AUTH-001";
  version = "2.0";
  name = "Impossible Travel";
  description = "A second version";
  owner = "detection-engineering";
  severity = "MEDIUM";
}

abbrev version_at : RuleStatus → DetectionRule
version_at status = record (drafted 1 second_version responder) { status = status }

abbrev tested : List DetectionRule
tested = version_at testing ∷ []

creates_once :
    create_rule 3 second_version responder tested
    ≡ (err (http 409 "Rule version already exists"), tested)
unfolding create_rule
creates_once = refl

activates : (promote_rule 2 "AUTH-001" "2.0" "active" responder tested).0 ≡ ok active
unfolding promote_rule upper
activates = refl

no_way_back :
    promote_rule 2 "AUTH-001" "2.0" "draft" responder (version_at active ∷ [])
    ≡ (err (http 409 "Invalid transition"), version_at active ∷ [])
unfolding promote_rule upper
no_way_back = refl

-- A version that is retired by request keeps `enabled`.
retired_enabled :
    map
      (λ x. x.enabled)
      (promote_rule 2 "AUTH-001" "2.0" "retired" responder
        (record (version_at active) { enabled = true } ∷ [])).1
    ≡ true ∷ []
unfolding promote_rule upper promoted assign
retired_enabled = refl

-- The shipped version is added as active beside another active version.
two_active :
    live "tenant-demo" "AUTH-001" (bootstrap_rules 5 "tenant-demo" (version_at active ∷ [])) ≡ 2
unfolding bootstrap_rules
two_active = refl

tested-IsSingle : IsSingle tested
tested-IsSingle t r = ground arith

promote_rule-IsSingle_example :
    IsSingle (promote_rule 2 "AUTH-001" "2.0" "active" responder tested).1
    × IsSingle (create_rule 2 second_version responder tested).1
promote_rule-IsSingle_example =
    promote_rule-IsSingle 2 "AUTH-001" "2.0" "active" second_version responder tested
      tested-IsSingle
