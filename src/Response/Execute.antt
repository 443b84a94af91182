-- ===== src/Response/Execute.antt =====
-- backend/app/services/response_actions.py: `ResponseActionService`.
use Prim.Native.String.{◌++◌ as ◌+++◌}
use cirt_lens.Base.{
  ℕ, ◌+◌, String, Bool, true, not, ◌&&◌, Option, none, some, List, [], ◌∷◌, ◌++◌, map, ◌==◌, ltb,
  eqb, if◌then◌else◌, first, keep, contains, lower, upper, underscored,
}
use cirt_lens.Config.{Settings, minutes}
use cirt_lens.Telemetry.{DetectionFinding}
use cirt_lens.Playbook.{
  Action, executed, is_executed, Progress, containment_progress, residual_risk,
}
use cirt_lens.Store.{
  Incident, IncidentStatus, new, investigating, contained, ActionApproval, approved, consumed,
  expired, ConnectorExecution, Database, Principal, Outcome, ok, err, http, Problem,
  integrity_error, save_incident, save_approval,
}
use cirt_lens.Response.Repository.{get_incident}
use cirt_lens.Response.Approvals.{approval_for, violates_unique, activity}

-- connectors.py: a connector as the service sees it, one call of it. `failed` is `ConnectorError`.
pub data Answer : Type 0 where
  answered : (status provider_request_id detail : String) → Answer
  failed : (message code : String) → (retryable : Bool) → Answer

pub record IdentityConnector : Type 0 where
  pub name : String
  pub execute : (action subject idempotency_key : String) → (dry_run : Bool) → Answer

-- `_require_approval`: no approval is needed, one is at hand, or the request is refused and the
-- database is left as given.
pub data ApprovalCheck : Type 0 where
  not_needed : ApprovalCheck
  granted : ActionApproval → ApprovalCheck
  refused : Problem → Database → ApprovalCheck

-- `not decided_at or decided_at < utcnow() - ttl`
abbrev pub is_stale : Settings → ℕ → Option ℕ → Bool
is_stale s now none = true
is_stale s now (some t) = ltb (t + minutes s.approval_ttl_minutes) now

abbrev pub expire : ActionApproval → ActionApproval
expire a = record a { status = expired }

-- The expiry is committed before the request is refused.
abbrev pub refuse_stale : ActionApproval → Database → ApprovalCheck
refuse_stale a db =
    if violates_unique (expire a) db.approvals
    then refused integrity_error db
    else refused (http 409 "The approval has expired; request a new authorization")
        (record db { approvals = save_approval (expire a) db.approvals })

abbrev pub needs_approval : Settings → Action → Bool
needs_approval s selected = s.auth_required && not (ltb selected.reduction_points 12)

unfoldable pub require_approval :
    Settings → ℕ → String → Action → Principal → Database → ApprovalCheck
require_approval s now incident_id selected p db =
    if not (needs_approval s selected)
    then not_needed
    else elim (first (approval_for p.tenant_id incident_id selected.action approved) db.approvals) [
      | none ↦
          refused
            (http 409 "Approved two-person authorization is required for this high-impact action")
            db
      | some a ↦ if is_stale s now a.decided_at then refuse_stale a db else granted a
    ]

-- `f"{tenant_id}:{incident.id}:{action}"`
abbrev pub execution_key : String → String → String → String
execution_key tenant_id incident_id action =
    tenant_id +++ (":" +++ (incident_id +++ (":" +++ action)))

abbrev pub or_text : Option String → String → String
or_text none other = other
or_text (some t) other = if t == "" then other else t

-- `incident.primary_user or incident.primary_host or incident.id`
abbrev pub subject_of : Incident → String
subject_of i = or_text i.primary_user (or_text i.primary_host i.id)

-- The execution of the request: an earlier one of the same key, one to be inserted, or an error.
pub data Dispatch : Type 0 where
  replayed started : ConnectorExecution → Dispatch
  rejected : Problem → Dispatch

unfoldable pub connector_execution :
    Settings → ℕ → String → IdentityConnector → Incident → Action → Principal → Database → Dispatch
connector_execution s now fresh_id connector incident selected p db =
    let key = execution_key p.tenant_id incident.id selected.action in
    let dry_run = not s.auth0_connector_live in
    elim (first (λ e. (e.tenant_id == p.tenant_id) && (e.idempotency_key == key)) db.executions) [
      | some e ↦ replayed e
      | none ↦ elim (connector.execute selected.action (subject_of incident) key dry_run) [
        | failed message code retryable ↦ rejected (http 502 message)
        | answered status provider_request_id detail ↦ started (record {
          id = fresh_id;
          tenant_id = p.tenant_id;
          incident_id = incident.id;
          action = selected.action;
          connector = connector.name;
          idempotency_key = key;
          provider_request_id = provider_request_id;
          status = status;
          dry_run = dry_run;
          attempts = 1;
          detail = detail;
          created_at = now;
        })
      ]
    ]

-- `item["action"].lower() == requested_action.lower()`
abbrev pub is_requested : String → Action → Bool
is_requested requested a = lower a.action == lower requested

-- `selected.update(…)`, in the list that it is an element of: the first that is requested
unfoldable pub mark_executed : ℕ → Principal → String → List Action → List Action
mark_executed now p requested [] = []
mark_executed now p requested (a ∷ actions) =
    let rest = mark_executed now p requested actions in
    if is_requested requested a
    then record a { status = executed; executed_at = some now; analyst = some p.email } ∷ actions
    else a ∷ rest

-- `_finding_flags`
abbrev pub finding_flags : Database → Incident → List String
finding_flags db i =
    map (λ f. f.flag) (keep (λ (f : DetectionFinding). contains i.event_ids f.event_id) db.findings)

abbrev pub is_complete : Progress → Bool
is_complete p = ltb 0 p.required && eqb p.completed p.required

abbrev pub start_case : IncidentStatus → IncidentStatus
start_case new = investigating
start_case status = status

abbrev pub status_after : Progress → IncidentStatus → IncidentStatus
status_after progress status = if is_complete progress then contained else start_case status

-- The incident after the action.
unfoldable pub act_on : ℕ → Principal → String → Database → Incident → Incident
unfolding mark_executed
act_on now p requested db i =
    let actions = mark_executed now p requested i.recommended_actions in
    record i {
      recommended_actions = actions;
      residual_risk_score = residual_risk i.risk_score actions;
      updated_at = now;
      status = status_after (containment_progress (finding_flags db i) actions) i.status;
    }

abbrev pub added : Dispatch → List ConnectorExecution → List ConnectorExecution
added (started e) executions = executions ++ e ∷ []
added (replayed e) executions = executions
added (rejected problem) executions = executions

-- The rows of a successful request, but for the approval.
abbrev pub record_action :
    ℕ → Principal → String → String → Dispatch → Incident → Database → Database
record_action now p incident_id requested dispatch i db = record db {
  incidents = save_incident (act_on now p requested db i) db.incidents;
  executions = added dispatch db.executions;
  activities =
      db.activities ++ activity now p (underscored (upper requested)) incident_id "SUCCESS" ∷ [];
  history =
      db.history
      ++ record {
        incident_id = incident_id;
        timestamp = now;
        original_risk = i.risk_score;
        residual_risk = (act_on now p requested db i).residual_risk_score;
      }
        ∷ [];
}

abbrev pub consume : ActionApproval → ActionApproval
consume a = record a { status = consumed }

-- What follows the connector's answer. A violated constraint rolls the transaction back.
unfoldable pub finish :
    ℕ
    → Principal
    → String
    → String
    → ApprovalCheck
    → Dispatch
    → Incident
    → Database
    → Outcome Incident × Database
finish now p incident_id requested (refused problem db') dispatch i db = (err problem, db')
finish now p incident_id requested check (rejected problem) i db = (err problem, db)
finish now p incident_id requested not_needed dispatch i db =
    (ok (act_on now p requested db i), record_action now p incident_id requested dispatch i db)
finish now p incident_id requested (granted a) dispatch i db =
    if violates_unique (consume a) db.approvals then (err integrity_error, db) else (
      ok (act_on now p requested db i),
      record (record_action now p incident_id requested dispatch i db) {
        approvals = save_approval (consume a) db.approvals;
      },
    )

unfoldable pub run_action :
    Settings
    → ℕ
    → String
    → IdentityConnector
    → String
    → String
    → Principal
    → Incident
    → Action
    → Database
    → Outcome Incident × Database
run_action s now fresh_id connector incident_id requested p i selected db =
    if is_executed selected.status
    then (err (http 409 "Action has already been executed"), db)
    else finish now p incident_id requested (require_approval s now incident_id selected p db)
        (connector_execution s now fresh_id connector i selected p db) i db

-- `ResponseActionService.execute`; the result is the incident that is serialized.
unfoldable pub execute :
    Settings
    → ℕ
    → String
    → IdentityConnector
    → String
    → String
    → Principal
    → Database
    → Outcome Incident × Database
execute s now fresh_id connector incident_id requested p db =
    elim (get_incident db p.tenant_id incident_id) [
      | err problem ↦ (err problem, db)
      | ok i ↦ elim (first (is_requested requested) i.recommended_actions) [
        | none ↦ (err (http 400 "Action is not recommended for this incident"), db)
        | some selected ↦ run_action s now fresh_id connector incident_id requested p i selected db
      ]
    ]
