-- ===== src/Incidents/Assess.antt =====
-- correlation_engine.py: what `create_or_update_incidents` derives from a group of events and
-- their findings, before it writes.
use Prim.Native.Nat.{◌/◌}
use cirt_lens.Base.{
  ℕ, String, none, some, List, [], ◌∷◌, ◌++◌, map, ◌==◌, length, keep, contains, distinct,
}
use cirt_lens.Config.{Settings, minutes}
use cirt_lens.Telemetry.{DetectionFinding}
use cirt_lens.Events.{Event}
use cirt_lens.Risk.{RiskParts, ConfidenceParts, calculate_risk, calculate_confidence}
use cirt_lens.Attack.{Technique, map_techniques}
use cirt_lens.Playbook.{Action, recommend_playbook}
use cirt_lens.Correlation.Score.{group_cohesion}
use cirt_lens.Correlation.Infer.{IncidentType, Inference, infer_incident_type}
use cirt_lens.Store.{Outcome, ok, err, exception, ◌>>=◌}
use cirt_lens.Incidents.Counting.{present, most_common}

-- `hashlib.sha256(…).hexdigest()[:24]` of the two texts that are hashed.
pub record Digests : Type 0 where
  pub of_case : (tenant_id : String) → IncidentType → (principal : String) → (bucket : ℕ) → String
  pub of_copy : (tenant_id fingerprint : String) → (ids : List String) → String

-- `fingerprint`: the start falls into a bucket of the maximal span of an incident.
unfoldable pub fingerprint : Settings → Digests → String → IncidentType → String → ℕ → String
fingerprint s d tenant_id kind principal start =
    d.of_case tenant_id kind principal (start / minutes s.max_incident_span_minutes)

-- `[f for eid in ids for f in by_event[eid]]`
unfoldable pub findings_by_event : List DetectionFinding → List String → List DetectionFinding
findings_by_event findings [] = []
findings_by_event findings (i ∷ ids) =
    keep (λ (f : DetectionFinding). f.event_id == i) findings ++ findings_by_event findings ids

-- `DetectionFindingRecord.event_id.in_(ids)`
unfoldable pub findings_among : List DetectionFinding → List String → List DetectionFinding
findings_among findings ids = keep (λ (f : DetectionFinding). contains ids f.event_id) findings

abbrev pub users_of : List Event → List String
users_of events = present (map (λ e. e.user) events)

abbrev pub hosts_of : List Event → List String
hosts_of events = present (map (λ e. e.host) events)

-- `users or hosts`
abbrev pub or_list : List String → List String → List String
or_list [] ys = ys
or_list (x ∷ xs) ys = x ∷ xs

-- `Counter(users or hosts).most_common(1)[0][0]`
unfoldable pub principal_of_events : List Event → Outcome String
unfolding most_common
principal_of_events events = elim (most_common (or_list (users_of events) (hosts_of events))) [
  | none ↦ err (exception "IndexError")
  | some x ↦ ok x
]

abbrev pub start_of : List Event → ℕ
start_of [] = 0
start_of (e ∷ es) = e.timestamp

pub record Assessment : Type 0 where
  pub events : List Event
  pub flags : List String
  pub inference : Inference
  pub incident_fingerprint : String
  pub risk_score : ℕ
  pub score_breakdown : RiskParts
  pub confidence_score : ℕ
  pub confidence_breakdown : ConfidenceParts
  pub techniques : List Technique
  pub recommended_actions : List Action

abbrev pub assessed :
    Settings → Digests → String → List DetectionFinding → List Event → String → Assessment
assessed s d tenant_id findings events principal =
    let flags = map (λ (f : DetectionFinding). f.flag) findings in
    let inference = infer_incident_type flags in
    let cohesion = group_cohesion s events in
    record {
      events = events;
      flags = flags;
      inference = inference;
      incident_fingerprint =
          fingerprint s d tenant_id inference.incident_type principal (start_of events);
      risk_score = (calculate_risk findings events).0;
      score_breakdown = (calculate_risk findings events).1;
      confidence_score = (calculate_confidence findings events cohesion).0;
      confidence_breakdown = (calculate_confidence findings events cohesion).1;
      techniques = map_techniques findings;
      recommended_actions = recommend_playbook flags;
    }

unfoldable pub assess :
    Settings → Digests → String → List DetectionFinding → List Event → Outcome Assessment
assess s d tenant_id findings events = do
  principal ← principal_of_events events
  ok (assessed s d tenant_id findings events principal)

-- `len(group)`, `len(set(flags))` and `len({e.source for e in group})`
abbrev pub described : Assessment → ℕ × ℕ × ℕ
described a =
    (length a.events, length (distinct a.flags), length (distinct (map (λ e. e.source) a.events)))
