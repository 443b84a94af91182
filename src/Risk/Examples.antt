-- ===== src/Risk/Examples.antt =====
-- Tests of the scores, and their theorems at concrete inputs.
use cirt_lens.Base.{lower, ◌≤◌, ◌≡◌, refl, List, [], ◌∷◌}
use cirt_lens.Telemetry.{DetectionFinding, fixed_reason, empty}
use cirt_lens.Events.{Event}
use cirt_lens.Detection.Rules.{finding}
use cirt_lens.Correlation.Samples.{first_login, callback}
use cirt_lens.Risk.{
  cap_parts, Cohesion, risk_parts, parts_total, calculate_risk, calculate_confidence,
}
use cirt_lens.Risk.Scores.{InRange, calculate_risk_bounds, calculate_risk_mono}

abbrev device_finding : DetectionFinding
device_finding = finding "AUTH-1" "AUTH-003" "NEW_DEVICE" 12 (fixed_reason "device") empty

abbrev admin_finding : DetectionFinding
admin_finding = finding "CLOUD-1" "CLOUD-001" "UNUSUAL_ADMIN_ACTION" 20 (fixed_reason "admin") empty

abbrev findings : List DetectionFinding
findings = device_finding ∷ admin_finding ∷ []

abbrev group : List Event
group = first_login ∷ callback ∷ []

abbrev some_cohesion : Cohesion
some_cohesion = record { total = 9; pairs = 1 }

scored : (calculate_risk findings group).0 ≡ 58
unfolding calculate_risk cap_parts risk_parts finding lower
scored = refl

confident : (calculate_confidence findings group some_cohesion).0 ≡ 50
unfolding calculate_confidence finding
confident = refl

calculate_risk_bounds_example :
    let (risk, parts) = calculate_risk findings group in
    (risk ≤ 100) × (risk ≡ parts_total parts) × InRange parts × (parts ≡ risk_parts findings group)
calculate_risk_bounds_example = calculate_risk_bounds findings group

calculate_risk_mono_example :
    (calculate_risk (device_finding ∷ []) (first_login ∷ [])).0 ≤ (calculate_risk findings group).0
calculate_risk_mono_example =
    calculate_risk_mono (device_finding ∷ []) (admin_finding ∷ []) (first_login ∷ [])
      (callback ∷ [])
