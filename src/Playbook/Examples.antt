-- ===== src/Playbook/Examples.antt =====
-- Tests of the playbooks, and their theorems at concrete inputs.
use cirt_lens.Base.{◌≤◌, ◌≡◌, ◌↔◌, refl, Bool, true, none, all, List, [], ◌∷◌, String, map}
use cirt_lens.Playbook.{select_playbook, Action, pending, recommend_playbook, containment_progress}
use cirt_lens.Playbook.Containment.{execute_action, containment_progress_exact, playbook_suffices}

abbrev takeover : List String
takeover = "IMPOSSIBLE_TRAVEL" ∷ "MFA_FATIGUE" ∷ []

actions_of :
    map (λ a. a.action) (recommend_playbook takeover)
    ≡ "Revoke active sessions" ∷ "Disable account" ∷ "Force password reset" ∷ "Block source IP"
      ∷ "Escalate incident" ∷ []
unfolding recommend_playbook select_playbook
actions_of = refl

abbrev disable : Action
disable = record {
  action = "Disable account";
  reason = "Credential Compromise";
  risk_reduction = "HIGH";
  reduction_points = 15;
  objectives = "secure_identity" ∷ [];
  status = pending;
  executed_at = none;
  analyst = none;
}

containment_progress_exact_example :
    let p = containment_progress takeover (execute_action disable ∷ []) in
    (p.completed ≤ p.required)
    × ((p.completed ≡ p.required) ↔ (all (λ (o : String × Bool). o.1) p.objectives ≡ true))
containment_progress_exact_example =
    containment_progress_exact takeover (execute_action disable ∷ [])

playbook_suffices_example :
    let p = containment_progress takeover (map execute_action (recommend_playbook takeover)) in
    p.completed ≡ p.required
playbook_suffices_example = playbook_suffices takeover
