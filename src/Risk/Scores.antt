-- ===== src/Risk/Scores.antt =====
-- The scores stay in their ranges, and evidence only adds to them.
use Prim.Native.Nat.{◌/◌}
use cirt_lens.Base.{
  ℕ, ◌+◌, ◌≤◌, min, String, ◌≡◌, refl, ap, true, List, [], ◌∷◌, ◌++◌, arith, contains-append,
  common, meets,
}
use cirt_lens.Telemetry.{DetectionFinding}
use cirt_lens.Events.{Event}
use cirt_lens.Risk.{
  Severity, critical, high, medium, low, severity, impact_step, asset_impact_from, flags_of,
  detection_points, RiskParts, parts_total, risk_parts, cap_parts, calculate_risk, Cohesion,
  calculate_confidence, confidence_total, behavioral_flags, threat_flags,
}

-- Each part is in its range.
pub record InRange (p : RiskParts) : Type 0 where
  pub strength : p.detection_strength ≤ 40
  pub context : p.asset_context ≤ 20
  pub anomaly : p.behavioral_anomaly ≤ 20
  pub threat : p.threat_intelligence ≤ 20

risk_parts-InRange : (fs : List DetectionFinding) (es : List Event) → InRange (risk_parts fs es)
unfolding risk_parts
risk_parts-InRange fs es = ground arith

cap_parts-InRange : (p : RiskParts) → InRange p → cap_parts p ≡ p
unfolding cap_parts
cap_parts-InRange p h = ground arith

-- The risk is at most 100, it is the sum of its published parts, each part is at most its share
-- (40, 20, 20, 20), and the reduction on overflow never changes a part.
pub calculate_risk_bounds :
    (findings : List DetectionFinding) (events : List Event)
    → let (risk, parts) = calculate_risk findings events in
      (risk ≤ 100)
      × (risk ≡ parts_total parts)
      × InRange parts
      × (parts ≡ risk_parts findings events)
unfolding calculate_risk
calculate_risk_bounds fs es =
    let ranges = risk_parts-InRange fs es in
    rw (cap_parts-InRange (risk_parts fs es) ranges) (omega (arith, ranges), refl, ranges, refl)

-- The confidence is at most 100, and it is the sum of its published parts: the cap never bites.
pub calculate_confidence_bounds :
    (findings : List DetectionFinding) (events : List Event) (cohesion : Cohesion)
    → let (confidence, parts) = calculate_confidence findings events cohesion in
      (confidence ≤ 100) × (confidence ≡ confidence_total parts)
unfolding calculate_confidence
calculate_confidence_bounds fs es c = ground arith

abbrev pub severity_rank : Severity → ℕ
severity_rank low = 0
severity_rank medium = 1
severity_rank high = 2
severity_rank critical = 3

-- The severity is the number of full quarters of 100 in the score, at most three: low, medium, high
-- and critical in this order.
pub severity_quarters : (score : ℕ) → severity_rank (severity score) ≡ min 3 (score / 25)
unfolding severity
severity_quarters score = ground arith

impact_step-ge : (n : ℕ) (e : Event) → n ≤ impact_step n e
unfolding impact_step
impact_step-ge n e = ground arith

impact_step_mono : (m n : ℕ) (e : Event) → m ≤ n → impact_step m e ≤ impact_step n e
unfolding impact_step
impact_step_mono m n e h = ground arith

impact-ge : (es : List Event) (n : ℕ) → n ≤ asset_impact_from n es
unfolding asset_impact_from
impact-ge [] n = omega arith
impact-ge (e ∷ es) n = omega (arith, impact-ge es (impact_step n e), impact_step-ge n e)

impact-append :
    (es fs : List Event) (n : ℕ)
    → asset_impact_from n (es ++ fs) ≡ asset_impact_from (asset_impact_from n es) fs
unfolding asset_impact_from
impact-append [] fs n = refl
impact-append (e ∷ es) fs n = impact-append es fs (impact_step n e)

points-append :
    (fs gs : List DetectionFinding)
    → detection_points (fs ++ gs) ≡ detection_points fs + detection_points gs
unfolding detection_points
points-append [] gs = omega arith
points-append (f ∷ fs) gs = omega (arith, points-append fs gs)

common_mono : (xs ys zs : List String) → common xs zs ≤ common (xs ++ ys) zs
common_mono xs ys [] = omega arith
common_mono xs ys (z ∷ zs) = ground (arith, contains-append xs ys z, common_mono xs ys zs)

meets_mono : (xs ys zs : List String) → meets xs zs ≡ true → meets (xs ++ ys) zs ≡ true
meets_mono xs ys [] h = h
meets_mono xs ys (z ∷ zs) h = ground (arith, contains-append xs ys z, meets_mono xs ys zs)

flags-append : (fs gs : List DetectionFinding) → flags_of (fs ++ gs) ≡ flags_of fs ++ flags_of gs
flags-append [] gs = refl
flags-append (f ∷ fs) gs = ap (λ l. f.flag ∷ l) (flags-append fs gs)

calculate_risk-total :
    (fs : List DetectionFinding) (es : List Event)
    → (calculate_risk fs es).0 ≡ parts_total (risk_parts fs es)
unfolding calculate_risk
calculate_risk-total fs es = rw (cap_parts-InRange (risk_parts fs es) (risk_parts-InRange fs es))

risk_parts_mono :
    (fs gs : List DetectionFinding) (es ds : List Event)
    → parts_total (risk_parts fs es) ≤ parts_total (risk_parts (fs ++ gs) (es ++ ds))
unfolding risk_parts
risk_parts_mono fs gs es ds = rw (flags-append fs gs) (
    ground (
      arith,
      points-append fs gs,
      impact-append es ds 0,
      impact-ge ds (asset_impact_from 0 es),
      common_mono (flags_of fs) (flags_of gs) behavioral_flags,
      meets_mono (flags_of fs) (flags_of gs) threat_flags,
    ))

-- More findings and more events never lower the risk.
pub calculate_risk_mono :
    (findings more_findings : List DetectionFinding) (events more_events : List Event)
    → (calculate_risk findings events).0
      ≤ (calculate_risk (findings ++ more_findings) (events ++ more_events)).0
calculate_risk_mono fs gs es ds = omega (
  arith,
  calculate_risk-total fs es,
  calculate_risk-total (fs ++ gs) (es ++ ds),
  risk_parts_mono fs gs es ds,
)
