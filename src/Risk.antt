-- ===== src/Risk.antt =====
-- backend/app/services/risk_engine.py. The cohesion of a group is the exact fraction of its total
-- score by its number of pairs, where the source has a float.
pub mod Scores
mod Examples
use Prim.Native.Nat.{◌/◌}
use cirt_lens.Base.{
  ℕ, zero, suc, ◌+◌, ◌-◌, ◌*◌, ◌%◌, min, max, String, Bool, true, false, ◌&&◌, List, [], ◌∷◌, map,
  ◌==◌, leb, ltb, eqb, if◌then◌else◌, length, any, contains, distinct, common, meets, has_text,
  lower,
}
use cirt_lens.Telemetry.{DetectionFinding}
use cirt_lens.Events.{Event, get_sensitive_resource, get_privileged, get_event_type, get_resource}

abbrev pub behavioral_flags : List String
behavioral_flags =
    "IMPOSSIBLE_TRAVEL" ∷ "MFA_FATIGUE" ∷ "NEW_DEVICE" ∷ "UNUSUAL_ADMIN_ACTION" ∷ "UNUSUAL_EGRESS"
    ∷ []

abbrev pub threat_flags : List String
threat_flags = "KNOWN_MALICIOUS_IP" ∷ []

pub data Severity : Type 0 where
  critical high medium low : Severity

unfoldable pub severity : ℕ → Severity
severity score =
    if leb 75 score
    then critical
    else if leb 50 score
    then high
    else if leb 25 score
    then medium
    else low

-- `if test: score = max(score, points)`
abbrev pub raise_to : Bool → ℕ → ℕ → ℕ
raise_to test points score = if test then max score points else score

abbrev pub sensitive_names : List String
sensitive_names = "securityadmin" ∷ "finance-sensitive" ∷ "sensitive-analytics" ∷ []

unfoldable pub impact_step : ℕ → Event → ℕ
impact_step score e =
    raise_to (any (has_text (lower (get_resource e.content))) sensitive_names) 20 (
      raise_to (get_event_type e.content == "CREDENTIAL_STORE_ACCESS") 20 (
        raise_to (get_privileged e.content) 15
          (raise_to (get_sensitive_resource e.content) 20 score)))

-- `_asset_impact`, from a score so far
unfoldable pub asset_impact_from : ℕ → List Event → ℕ
unfolding impact_step
asset_impact_from score [] = score
asset_impact_from score (e ∷ es) = asset_impact_from (impact_step score e) es

abbrev pub asset_impact : List Event → ℕ
asset_impact = asset_impact_from 0

abbrev pub flags_of : List DetectionFinding → List String
flags_of = map (λ f. f.flag)

-- `sum(min(f.risk_contribution, 12) for f in findings if f.risk_contribution > 0)`
unfoldable pub detection_points : List DetectionFinding → ℕ
detection_points [] = 0
detection_points (f ∷ fs) =
    (if ltb 0 f.risk_contribution then min f.risk_contribution 12 else 0) + detection_points fs

pub record RiskParts : Type 0 where
  pub detection_strength : ℕ
  pub asset_context : ℕ
  pub behavioral_anomaly : ℕ
  pub threat_intelligence : ℕ

-- `sum(parts.values())`
abbrev pub parts_total : RiskParts → ℕ
parts_total p =
    p.detection_strength + p.asset_context + p.behavioral_anomaly + p.threat_intelligence

unfoldable pub risk_parts : List DetectionFinding → List Event → RiskParts
unfolding detection_points asset_impact_from
risk_parts findings events = record {
  detection_strength = min 40 (detection_points findings);
  asset_context = min 20 (asset_impact events);
  behavioral_anomaly = min 20 (7 * common (flags_of findings) behavioral_flags);
  threat_intelligence = if meets (flags_of findings) threat_flags then 20 else 0;
}

-- `if total > 100: parts["Detection Strength"] -= min(overflow, …)`
unfoldable pub cap_parts : RiskParts → RiskParts
cap_parts p =
    if ltb 100 (parts_total p)
    then record p {
      detection_strength = p.detection_strength - min (parts_total p - 100) p.detection_strength;
    }
    else p

unfoldable pub calculate_risk : List DetectionFinding → List Event → ℕ × RiskParts
calculate_risk findings events =
    let parts = cap_parts (risk_parts findings events) in (parts_total parts, parts)

-- The mean score of a group's pairs; a group with no pair has cohesion 0.
pub record Cohesion : Type 0 where
  pub total : ℕ
  pub pairs : ℕ

-- `round` of a fraction: to the nearest whole number, a half to the even one.
abbrev pub round_half_even : ℕ → ℕ → ℕ
round_half_even n zero = 0
round_half_even n (suc d) =
    let q = n / suc d in
    let r = n % suc d in
    if ltb (2 * r) (suc d) then q else if ltb (suc d) (2 * r) then q + 1 else q + q % 2

pub record ConfidenceParts : Type 0 where
  pub detection_support : ℕ
  pub source_corroboration : ℕ
  pub correlation_cohesion : ℕ
  pub threat_intelligence : ℕ
  pub evidence_completeness : ℕ

abbrev pub confidence_total : ConfidenceParts → ℕ
confidence_total p =
    p.detection_support + p.source_corroboration + p.correlation_cohesion + p.threat_intelligence
    + p.evidence_completeness

-- `cohesion * 2.5` is `5 * total / (2 * pairs)`.
unfoldable pub confidence_parts : List DetectionFinding → List Event → Cohesion → ConfidenceParts
confidence_parts findings events cohesion = record {
  detection_support = min 35 (length (distinct (flags_of findings)) * 7);
  source_corroboration = min 20 ((length (distinct (map (λ e. e.source) events)) - 1) * 10);
  correlation_cohesion = min 25 (round_half_even (5 * cohesion.total) (2 * cohesion.pairs));
  threat_intelligence = if contains (flags_of findings) "KNOWN_MALICIOUS_IP" then 10 else 0;
  evidence_completeness = min 10 (length (distinct (map (λ f. f.event_id) findings)) * 2);
}

unfoldable pub calculate_confidence :
    List DetectionFinding → List Event → Cohesion → ℕ × ConfidenceParts
unfolding confidence_parts
calculate_confidence findings events cohesion =
    let breakdown = confidence_parts findings events cohesion in
    (min 100 (confidence_total breakdown), breakdown)
