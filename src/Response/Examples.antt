-- ===== src/Response/Examples.antt =====
-- Tests of the case handlers, and their theorems at concrete inputs.
use cirt_lens.Base.{ℕ, String, ◌≡◌, refl, some, [], ◌∷◌, map, lower}
use cirt_lens.Config.{minutes, default_settings}
use cirt_lens.Playbook.{reduction, residual_risk, select_playbook, containment_progress, executed}
use cirt_lens.Store.{
  Incident, Database, Outcome, ok, err, http, integrity_error, investigating, contained, resolved,
  consumed,
}
use cirt_lens.Response.Repository.{get_incident}
use cirt_lens.Response.Approvals.{request_approval, approve}
use cirt_lens.Response.Execute.{
  act_on, connector_execution, require_approval, finish, run_action, execute,
}
use cirt_lens.Response.Workflow.{update_incident}
use cirt_lens.Response.TwoPerson.{
  AllByTwo, Reachable, here, next, requested, decided_on, Reachable-ByTwo,
}
use cirt_lens.Response.Effects.{
  Authorizes, execute_authorized, execute_effects, IsUntouched, execute_fails_clean,
}
use cirt_lens.Response.Acting.{Acted}
use cirt_lens.Response.Transitions.{Moves, update_incident-Moves, execute_once}
use cirt_lens.Response.Samples.{strict, analyst, responder, fake, sample_case, store, step_of}

abbrev action_name : String
action_name = "Disable account"

-- The analyst asks and the responder approves.
abbrev asked : ℕ → String → Database → Database
asked t id db = (request_approval (minutes t) id "INC-1" action_name analyst db).1

abbrev granted_at : ℕ → String → Database → Database
granted_at t id db = (approve (minutes t) id responder db).1

abbrev ready : Database
ready = granted_at 3 "APR-1" (asked 2 "APR-1" store)

abbrev attempt : ℕ → Database → Outcome Incident × Database
attempt t db = execute strict (minutes t) "CON-1" fake "INC-1" "disable ACCOUNT" responder db

without_approval :
    (attempt 5 store).0
    ≡ err (http 409 "Approved two-person authorization is required for this high-impact action")
unfolding execute get_incident lower run_action finish require_approval
without_approval = refl

executed_case : map (λ a. a.status) (attempt 5 ready).1.approvals ≡ consumed ∷ []
unfolding execute get_incident approve request_approval lower run_action finish require_approval
    connector_execution
executed_case = refl

own_approval :
    (approve (minutes 3) "APR-1" analyst (asked 2 "APR-1" store)).0
    ≡ err (http 409 "Two-person control requires a different approver")
unfolding approve request_approval
own_approval = refl

-- A second approval for the same action cannot expire: the update violates the constraint.
abbrev again : Database
again = granted_at 51 "APR-2" (asked 50 "APR-2" (attempt 40 ready).1)

second_expiry : (attempt 90 again).0 ≡ err integrity_error
unfolding execute get_incident approve request_approval lower run_action finish require_approval
second_expiry = refl

-- A resolved case is contained again by its last action.
abbrev closed_case : Database
closed_case = record store {
  incidents =
      record sample_case {
        status = resolved;
        recommended_actions =
            record (step_of "Revoke active sessions" "invalidate_session" 12) { status = executed }
            ∷ step_of "Disable account" "secure_identity" 15
            ∷ [];
      }
      ∷ [];
}

reopened :
    map
      (λ i. i.status)
      (execute default_settings
        (minutes 9)
        "CON-1"
        fake
        "INC-1"
        action_name
        responder
        closed_case).1.incidents
    ≡ contained ∷ []
unfolding execute get_incident lower run_action finish require_approval connector_execution act_on
    containment_progress select_playbook
reopened = refl

ready-Reachable : Reachable store ready
ready-Reachable =
    next (next here (requested (minutes 2) "APR-1" "INC-1" action_name analyst store))
      (decided_on (minutes 3) "APR-1" responder (asked 2 "APR-1" store))

Reachable-ByTwo_example : AllByTwo ready
Reachable-ByTwo_example = Reachable-ByTwo refl ready-Reachable

abbrev result : Incident
result = record sample_case {
  status = investigating;
  residual_risk_score = 65;
  updated_at = minutes 5;
  recommended_actions =
      step_of "Revoke active sessions" "invalidate_session" 12
      ∷ record (step_of "Disable account" "secure_identity" 15) {
        status = executed;
        executed_at = some (minutes 5);
        analyst = some "responder@demo.local";
      }
      ∷ step_of "Block source IP" "block_known_source" 8
      ∷ [];
}

attempted : (attempt 5 ready).0 ≡ ok result
unfolding execute get_incident approve request_approval lower run_action finish require_approval
    connector_execution act_on containment_progress residual_risk select_playbook reduction
attempted = refl

case_found : get_incident ready "tenant-demo" "INC-1" ≡ ok sample_case
unfolding get_incident approve request_approval
case_found = refl

execute_authorized_example :
    Authorizes strict
      (minutes 5)
      "INC-1"
      (step_of "Disable account" "secure_identity" 15)
      responder
      ready
execute_authorized_example =
    execute_authorized strict (minutes 5) "CON-1" fake "INC-1" "disable ACCOUNT" responder ready
      sample_case result (step_of "Disable account" "secure_identity" 15)
      (Reachable-ByTwo refl ready-Reachable) case_found (unfold lower in refl) refl attempted

execute_effects_example : Acted (minutes 5) "disable ACCOUNT" responder ready sample_case result
execute_effects_example =
    execute_effects strict (minutes 5) "CON-1" fake "INC-1" "disable ACCOUNT" responder ready
      sample_case result case_found attempted

execute_fails_clean_example : IsUntouched store (attempt 5 store).1
execute_fails_clean_example =
    execute_fails_clean strict (minutes 5) "CON-1" fake "INC-1" "disable ACCOUNT" responder store
      (http 409 "Approved two-person authorization is required for this high-impact action")
      without_approval

execute_once_example :
    execute strict (minutes 9) "CON-2" fake "INC-1" "disable ACCOUNT" analyst (attempt 5 ready).1
    ≡ (err (http 409 "Action has already been executed"), (attempt 5 ready).1)
execute_once_example =
    execute_once strict strict (minutes 5) (minutes 9) "CON-1" "CON-2" fake fake "INC-1"
      "disable ACCOUNT" responder analyst ready result refl attempted

abbrev started_case : Incident
started_case = record sample_case {
  status = investigating;
  updated_at = minutes 4;
  assigned_to = some "analyst@demo";
  triaged_at = some (minutes 4);
}

updated_case : (update_incident (minutes 4) "INC-1" investigating analyst store).0 ≡ ok started_case
unfolding update_incident get_incident
updated_case = refl

store_found : get_incident store "tenant-demo" "INC-1" ≡ ok sample_case
unfolding get_incident
store_found = refl

update_incident-Moves_example : Moves (minutes 4) investigating sample_case started_case
update_incident-Moves_example =
    update_incident-Moves (minutes 4) "INC-1" investigating analyst store sample_case started_case
      store_found updated_case
