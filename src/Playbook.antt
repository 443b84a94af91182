-- ===== src/Playbook.antt =====
-- backend/app/services/playbook_engine.py.
pub mod Containment
mod Examples
use cirt_lens.Base.{
  ℕ, ◌+◌, ◌-◌, String, Bool, true, false, ◌&&◌, Option, none, some, List, [], ◌∷◌, ◌++◌, map, ◌==◌,
  leb, ltb, if◌then◌else◌, sum_by, length, contains, meets, common, distinct,
}

abbrev pub action_reductions : List (String × ℕ)
action_reductions =
    ("Revoke active sessions", 12)
    ∷ ("Force password reset", 10)
    ∷ ("Block source IP", 8)
    ∷ ("Isolate host", 20)
    ∷ ("Kill suspicious process", 8)
    ∷ ("Block destination", 12)
    ∷ ("Disable account", 15)
    ∷ ("Collect forensic snapshot", 0)
    ∷ ("Preserve evidence", 0)
    ∷ ("Escalate incident", 0)
    ∷ []

-- `ACTION_REDUCTIONS.get(action, 0)`
abbrev pub reduction_in : List (String × ℕ) → String → ℕ
reduction_in [] action = 0
reduction_in ((a, points) ∷ rest) action =
    let later = reduction_in rest action in if a == action then points else later

unfoldable pub reduction : String → ℕ
reduction action = reduction_in action_reductions action

pub record Playbook : Type 0 where
  pub id : String
  pub name : String
  pub description : String
  pub conditions : List String
  pub required_objectives : List String
  pub actions : List (String × List String)

abbrev pub credential_playbook : Playbook
credential_playbook = record {
  id = "credential";
  name = "Credential Compromise";
  description = "Contain account takeover.";
  conditions = "IMPOSSIBLE_TRAVEL" ∷ "MFA_FATIGUE or NEW_DEVICE" ∷ [];
  required_objectives = "invalidate_session" ∷ "secure_identity" ∷ [];
  actions =
      ("Revoke active sessions", "invalidate_session" ∷ [])
      ∷ ("Disable account", "secure_identity" ∷ [])
      ∷ ("Force password reset", "secure_identity" ∷ [])
      ∷ ("Block source IP", "block_known_source" ∷ [])
      ∷ ("Escalate incident", [])
      ∷ [];
}

abbrev pub endpoint_playbook : Playbook
endpoint_playbook = record {
  id = "endpoint";
  name = "Endpoint Compromise";
  description = "Contain malicious execution.";
  conditions = "SUSPICIOUS_POWERSHELL or CREDENTIAL_ACCESS" ∷ [];
  required_objectives = "isolate_host" ∷ "stop_malicious_execution" ∷ [];
  actions =
      ("Isolate host", "isolate_host" ∷ [])
      ∷ ("Kill suspicious process", "stop_malicious_execution" ∷ [])
      ∷ ("Block destination", "block_destination" ∷ [])
      ∷ ("Collect forensic snapshot", [])
      ∷ [];
}

abbrev pub exfiltration_playbook : Playbook
exfiltration_playbook = record {
  id = "exfiltration";
  name = "Data Exfiltration";
  description = "Stop suspicious transfer.";
  conditions = "UNUSUAL_EGRESS" ∷ "Sensitive resource activity" ∷ [];
  required_objectives = "block_destination" ∷ "restrict_identity" ∷ [];
  actions =
      ("Block destination", "block_destination" ∷ [])
      ∷ ("Disable account", "restrict_identity" ∷ [])
      ∷ ("Preserve evidence", [])
      ∷ ("Escalate incident", [])
      ∷ [];
}

abbrev pub identity_flags : List String
identity_flags = "MFA_FATIGUE" ∷ "NEW_DEVICE" ∷ []

abbrev pub execution_flags : List String
execution_flags = "CREDENTIAL_ACCESS" ∷ "KNOWN_MALICIOUS_IP" ∷ []

abbrev pub exfiltration_flags : List String
exfiltration_flags = "SENSITIVE_RESOURCE_ACCESS" ∷ "MASS_DOWNLOAD" ∷ "DATA_EXFILTRATION" ∷ []

unfoldable pub select_playbook : List String → Option Playbook
select_playbook flags =
    if contains flags "IMPOSSIBLE_TRAVEL" && meets flags identity_flags
    then some credential_playbook
    else if contains flags "SUSPICIOUS_POWERSHELL" && meets flags execution_flags
    then some endpoint_playbook
    else if contains flags "UNUSUAL_EGRESS" && meets flags exfiltration_flags
    then some exfiltration_playbook
    else none

pub data ActionStatus : Type 0 where
  pending executed : ActionStatus

abbrev pub is_executed : ActionStatus → Bool
is_executed pending = false
is_executed executed = true

-- One entry of `recommended_actions`. `executed_at` and `analyst` are there once it is executed.
pub record Action : Type 0 where
  pub action : String
  pub reason : String
  pub risk_reduction : String
  pub reduction_points : ℕ
  pub objectives : List String
  pub status : ActionStatus
  pub executed_at : Option ℕ
  pub analyst : Option String

abbrev pub reduction_label : ℕ → String
reduction_label points = if leb 12 points then "HIGH" else if ltb 0 points then "MEDIUM" else "NONE"

unfoldable pub recommended : String → String × List String → Action
unfolding reduction
recommended reason (action, objectives) = record {
  action = action;
  reason = reason;
  risk_reduction = reduction_label (reduction action);
  reduction_points = reduction action;
  objectives = objectives;
  status = pending;
  executed_at = none;
  analyst = none;
}

-- The reason, `Derived {name} playbook conditions matched.`, is kept by the playbook's name.
abbrev pub recommend_from : Option Playbook → List Action
recommend_from none = []
recommend_from (some p) = map (recommended p.name) p.actions

unfoldable pub recommend_playbook : List String → List Action
unfolding recommended
recommend_playbook flags = recommend_from (select_playbook flags)

-- The objectives of the executed actions, as a list that stands for the set.
unfoldable pub completed_objectives : List Action → List String
completed_objectives [] = []
completed_objectives (a ∷ actions) =
    (if is_executed a.status then a.objectives else []) ++ completed_objectives actions

pub record Progress : Type 0 where
  pub completed : ℕ
  pub required : ℕ
  pub objectives : List (String × Bool)

-- The two required objectives of each playbook differ, so `len(set(…))` is their number.
abbrev pub progress_of : Option Playbook → List String → Progress
progress_of none done = record { completed = 0; required = 0; objectives = [] }
progress_of (some p) done = record {
  completed = common done p.required_objectives;
  required = length p.required_objectives;
  objectives = map (λ x. (x, contains done x)) p.required_objectives;
}

unfoldable pub containment_progress : List String → List Action → Progress
unfolding completed_objectives
containment_progress flags actions =
    progress_of (select_playbook flags) (completed_objectives actions)

abbrev pub executed_reduction : Action → ℕ
executed_reduction a = if is_executed a.status then reduction a.action else 0

-- `max(0, original - …)`: subtraction stops at 0.
unfoldable pub residual_risk : ℕ → List Action → ℕ
residual_risk original actions = original - sum_by executed_reduction actions
