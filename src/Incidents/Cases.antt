-- ===== src/Incidents/Cases.antt =====
-- correlation_engine.py: the case of a group, found, enriched or opened. Its writes are rolled back
-- together when one raises. The session does not flush by itself: the queries on fingerprints see
-- those of the last flush, which only a new case makes; `flushed` is the table as it was then.
use cirt_lens.Base.{
  ℕ, String, Bool, true, false, not, ◌&&◌, ◌||◌, Option, none, some, List, [], ◌∷◌, ◌++◌, map, ◌==◌,
  eqb, if◌then◌else◌, first, any, keep, contains, meets, subset, sort_by, put_all_by,
}
use cirt_lens.Events.{Event}
use cirt_lens.Risk.{severity}
use cirt_lens.Playbook.{Action, residual_risk}
use cirt_lens.Correlation.Infer.{
  IncidentType, credential_compromise, endpoint_compromise, potential_data_exfiltration,
  suspicious_activity,
}
use cirt_lens.Store.{
  Incident, IncidentStatus, new, investigating, unset, IncidentRiskHistory, Database, Outcome, ok,
  err, integrity_error, save_incident,
}
use cirt_lens.Incidents.Counting.{most_common, present, sorted_set}
use cirt_lens.Incidents.Assess.{Digests, users_of, hosts_of, Assessment, described}

-- `status.in_(["NEW", "INVESTIGATING"])`
abbrev pub is_open : IncidentStatus → Bool
is_open new = true
is_open investigating = true
is_open _ = false

abbrev pub same_type : IncidentType → IncidentType → Bool
same_type credential_compromise credential_compromise = true
same_type endpoint_compromise endpoint_compromise = true
same_type potential_data_exfiltration potential_data_exfiltration = true
same_type suspicious_activity suspicious_activity = true
same_type _ _ = false

-- `Incident.incident_fingerprint == fp`, as the database has it
abbrev pub has_stored : List Incident → String → Incident → Bool
has_stored flushed fp i =
    any (λ (r : Incident). r.id == i.id && r.incident_fingerprint == fp) flushed

abbrev pub is_open_case : List Incident → String → String → Incident → Bool
is_open_case flushed tenant_id fp i =
    i.tenant_id == tenant_id && (is_open i.status && has_stored flushed fp i)

abbrev pub shares_evidence : String → List String → Incident → Bool
shares_evidence tenant_id ids i =
    i.tenant_id == tenant_id && (is_open i.status && meets i.event_ids ids)

-- The open case of the fingerprint, else the first open case that shares an event.
unfoldable pub find_case :
    List Incident → String → String → List String → List Incident → Option Incident
find_case flushed tenant_id fp ids incidents =
    elim (first (is_open_case flushed tenant_id fp) incidents) [
      | some i ↦ some i
      | none ↦ first (shares_evidence tenant_id ids) incidents
    ]

-- The events of the enriched case, in the order of time.
unfoldable pub combined_events : String → List String → List Event → List Event → List Event
combined_events tenant_id ids stored group =
    sort_by (λ e. e.timestamp)
      (put_all_by (λ e. e.id)
        (keep (λ (e : Event). e.tenant_id == tenant_id && contains ids e.id) stored) group)

-- `prior`, where a later action of the same name wins
unfoldable pub prior_action : List Action → String → Option Action
prior_action [] name = none
prior_action (a ∷ actions) name = elim (prior_action actions name) [
  | some b ↦ some b
  | none ↦ if a.action == name then some a else none
]

-- The status, the time and the analyst of an action that the case had before.
abbrev pub carried : Option Action → Action → Action
carried none a = a
carried (some b) a = record a {
  status = b.status;
  executed_at = b.executed_at;
  analyst = b.analyst;
}

unfoldable pub carry_over : List Action → List Action → List Action
unfolding prior_action
carry_over prior [] = []
carry_over prior (a ∷ actions) = carried (prior_action prior a.action) a ∷ carry_over prior actions

-- The fingerprint is free, but for the case itself.
abbrev pub takes_fingerprint : List Incident → String → String → String → Incident → Bool
takes_fingerprint flushed tenant_id fp id i =
    i.tenant_id == tenant_id && (not (i.id == id) && has_stored flushed fp i)

-- A violation of the unique constraint on the fingerprints of all tenants.
abbrev pub duplicates : String → String → Incident → Bool
duplicates fp id i = i.incident_fingerprint == fp && not (i.id == id)

-- A violation by a new case: of the primary key or of that constraint.
abbrev pub clashes : String → String → Incident → Bool
clashes id fp i = i.id == id || i.incident_fingerprint == fp

-- The case after the assessment.
unfoldable pub enriched : ℕ → String → Assessment → Incident → Incident
unfolding carry_over
enriched now fp a i =
    let actions =
      carry_over
        (if same_type i.incident_type a.inference.incident_type then i.recommended_actions else [])
        a.recommended_actions in
    record i {
      incident_type = a.inference.incident_type;
      context = a.inference.context;
      incident_fingerprint = fp;
      description = described a;
      event_ids = map (λ (e : Event). e.id) a.events;
      updated_at = now;
      risk_score = a.risk_score;
      residual_risk_score = residual_risk a.risk_score actions;
      severity = severity a.risk_score;
      confidence_score = a.confidence_score;
      confidence_breakdown = a.confidence_breakdown;
      score_breakdown = a.score_breakdown;
      techniques = a.techniques;
      recommended_actions = actions;
      primary_user = most_common (users_of a.events);
      primary_host = most_common (hosts_of a.events);
      source_ips = sorted_set (present (map (λ e. e.source_ip) a.events));
      affected_assets = sorted_set (users_of a.events ++ hosts_of a.events);
    }

abbrev pub history_of : ℕ → Incident → IncidentRiskHistory
history_of now i = record {
  incident_id = i.id;
  timestamp = now;
  original_risk = i.risk_score;
  residual_risk = i.residual_risk_score;
}

-- `old != (…)`
abbrev pub has_changed : Incident → Incident → Bool
has_changed i j = not (
    eqb i.risk_score j.risk_score
    && (eqb i.residual_risk_score j.residual_risk_score
        && (same_type i.incident_type j.incident_type
            && (subset i.event_ids j.event_ids && subset j.event_ids i.event_ids))))

-- `fp = existing.incident_fingerprint` where another case of the tenant has the new one
abbrev pub kept_fingerprint : List Incident → String → Incident → List Incident → String
kept_fingerprint flushed fp i incidents =
    if any (takes_fingerprint flushed i.tenant_id fp i.id) incidents
    then i.incident_fingerprint
    else fp

-- What a write gives: the case, the table as it is flushed, and the database.
abbrev pub Written : Type 0
Written = (Incident × List Incident) × Database

unfoldable pub enrich : List Incident → ℕ → Assessment → Incident → Database → Outcome Written
unfolding enriched
enrich flushed now a i db =
    let fp = kept_fingerprint flushed a.incident_fingerprint i db.incidents in
    let j = enriched now fp a i in
    if any (duplicates fp i.id) db.incidents
    then err integrity_error
    else ok (
      (j, flushed),
      record db {
        incidents = save_incident j db.incidents;
        history = db.history ++ (if has_changed i j then history_of now j ∷ [] else []);
      },
    )

-- The new case.
unfoldable pub opened : ℕ → String → String → String → Assessment → Incident
opened now id tenant_id fp a = record {
  id = id;
  tenant_id = tenant_id;
  incident_type = a.inference.incident_type;
  context = a.inference.context;
  description = described a;
  created_at = now;
  updated_at = now;
  severity = severity a.risk_score;
  status = new;
  risk_score = a.risk_score;
  residual_risk_score = a.risk_score;
  confidence_score = a.confidence_score;
  confidence_breakdown = a.confidence_breakdown;
  score_breakdown = a.score_breakdown;
  primary_user = most_common (users_of a.events);
  primary_host = most_common (hosts_of a.events);
  source_ips = sorted_set (present (map (λ e. e.source_ip) a.events));
  affected_assets = sorted_set (users_of a.events ++ hosts_of a.events);
  event_ids = map (λ (e : Event). e.id) a.events;
  techniques = a.techniques;
  recommended_actions = a.recommended_actions;
  assigned_to = none;
  triaged_at = none;
  incident_fingerprint = fp;
  disposition = unset;
}

-- `fp` is hashed again where a case of the tenant, of any status, has it.
abbrev pub new_fingerprint : Digests → List Incident → String → Assessment → List Incident → String
new_fingerprint d flushed tenant_id a incidents =
    if any
      (λ (i : Incident). i.tenant_id == tenant_id && has_stored flushed a.incident_fingerprint i)
      incidents
    then d.of_copy tenant_id a.incident_fingerprint (map (λ (e : Event). e.id) a.events)
    else a.incident_fingerprint

unfoldable pub open_case :
    Digests → List Incident → ℕ → String → String → Assessment → Database → Outcome Written
unfolding opened
open_case d flushed now id tenant_id a db =
    let i = opened now id tenant_id (new_fingerprint d flushed tenant_id a db.incidents) a in
    if any (clashes id i.incident_fingerprint) db.incidents
    then err integrity_error
    else ok (
      (i, db.incidents ++ i ∷ []),
      record db {
        incidents = db.incidents ++ i ∷ [];
        history = db.history ++ history_of now i ∷ [];
      },
    )
