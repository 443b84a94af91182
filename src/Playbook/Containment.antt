-- ===== src/Playbook/Containment.antt =====
-- Containment and residual risk.
use cirt_lens.Base.{
  ℕ, ◌+◌, ◌≤◌, String, ◌≡◌, Bool, true, ◌&&◌, Option, none, some, List, [], ◌∷◌, ◌++◌, map, arith,
  all, sum_by-append, ◌⊎◌, length, contains, common, common-le-length, Option-cases, inl, inr, ◌↔◌,
  ltb,
}
use cirt_lens.Playbook.{
  Playbook, Action, executed, select_playbook, recommend_playbook, completed_objectives, Progress,
  containment_progress, reduction, executed_reduction, residual_risk, credential_playbook,
  endpoint_playbook, exfiltration_playbook,
}

-- An action with the status of having been executed.
abbrev pub execute_action : Action → Action
execute_action a = record a { status = executed }

-- The response service's test of containment: `progress["required"] and completed == required`.
abbrev pub is_contained : Progress → Bool
is_contained p = ltb 0 p.required && all (λ o. o.1) p.objectives

all_objectives :
    (done xs : List String)
    → (common done xs ≡ length xs)
      ↔ (all (λ (o : String × Bool). o.1) (map (λ x. (x, contains done x)) xs) ≡ true)
all_objectives done [] = ground arith
all_objectives done (x ∷ xs) = ground (arith, all_objectives done xs, common-le-length done xs)

-- The number of completed objectives is at most the number required, and the two are equal exactly
-- when every listed objective is complete.
pub containment_progress_exact :
    (flags : List String) (actions : List Action)
    → let p = containment_progress flags actions in
      (p.completed ≤ p.required)
      × ((p.completed ≡ p.required) ↔ (all (λ (o : String × Bool). o.1) p.objectives ≡ true))
unfolding containment_progress
containment_progress_exact flags actions = elim (Option-cases (select_playbook flags)) [
  | inl e ↦ rw e (ground arith)
  | inr (p, e) ↦ rw e (
    common-le-length (completed_objectives actions) p.required_objectives,
    all_objectives (completed_objectives actions) p.required_objectives,
  )
]

abbrev SelectsOne : Option Playbook → Type 0
SelectsOne o =
    (o ≡ none)
    ⊎ (o ≡ some credential_playbook)
    ⊎ (o ≡ some endpoint_playbook)
    ⊎ (o ≡ some exfiltration_playbook)

select_playbook-SelectsOne : (flags : List String) → SelectsOne (select_playbook flags)
unfolding select_playbook
select_playbook-SelectsOne flags = ground arith

-- Executing every recommended action completes all objectives of the incident's playbook.
pub playbook_suffices :
    (flags : List String)
    → let p = containment_progress flags (map execute_action (recommend_playbook flags)) in
      p.completed ≡ p.required
unfolding containment_progress recommend_playbook
playbook_suffices flags = elim (select_playbook-SelectsOne flags) [
  | inl e ↦ rw e
  | inr (inl e) ↦ rw e
  | inr (inr (inl e)) ↦ rw e
  | inr (inr (inr e)) ↦ rw e
]

-- Executing one more action never raises the residual risk, lowers it by at most the action's
-- reduction, and leaves it alone if the action was executed before.
pub residual_risk-execute :
    (original : ℕ) (before after : List Action) (a : Action)
    → let old = residual_risk original (before ++ a ∷ after) in
      let new = residual_risk original (before ++ execute_action a ∷ after) in
      (new ≤ old) × (old ≤ new + reduction a.action) × (a.status ≡ executed → new ≡ old)
unfolding residual_risk
residual_risk-execute n before after a = ground (
  arith,
  sum_by-append executed_reduction before (a ∷ after),
  sum_by-append executed_reduction before (execute_action a ∷ after),
)

-- A fresh recommendation, of whatever flags, leaves the residual risk at the original.
pub residual_risk_fresh :
    (original : ℕ) (flags : List String)
    → residual_risk original (recommend_playbook flags) ≡ original
unfolding residual_risk recommend_playbook
residual_risk_fresh n flags = elim (select_playbook-SelectsOne flags) [
  | inl e ↦ rw e (omega arith)
  | inr (inl e) ↦ rw e (omega arith)
  | inr (inr (inl e)) ↦ rw e (omega arith)
  | inr (inr (inr e)) ↦ rw e (omega arith)
]
