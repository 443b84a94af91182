-- ===== src/Response/Acting.antt =====
-- backend/app/services/response_actions.py: the case that an executed action leaves.
use cirt_lens.Base.{
  ℕ, ◌≤◌, ◌-◌, ◌+◌, ◌≢◌, sum_by, first_head, String, ◌≡◌, refl, ap, sym, subst, ◌∙◌, true, false,
  ◌&&◌, some, List, [], ◌∷◌, arith, first, any, Bool-cases, inl, inr,
}
use cirt_lens.Playbook.{
  Progress, executed_reduction, reduction, Action, is_executed, residual_risk, containment_progress,
}
use cirt_lens.Store.{
  IncidentStatus, new, investigating, contained, resolved, Incident, Database, Principal,
}
use cirt_lens.Response.Execute.{
  is_requested, mark_executed, act_on, finding_flags, is_complete, start_case, status_after,
}

-- The playbook has objectives, and all of them are complete.
abbrev pub IsAchieved : List String → List Action → Type 0
IsAchieved flags actions =
    let progress = containment_progress flags actions in
    (progress.required ≢ 0) × (progress.completed ≡ progress.required)

-- The case after an action.
pub record Acted (now : ℕ) (requested : String) (p : Principal) (db : Database) (i i' : Incident)
    : Type 0 where
  pub residual :
      (a : Action)
      → first (is_requested requested) i.recommended_actions ≡ some a
      → i'.residual_risk_score
        ≡ i.risk_score - (sum_by executed_reduction i.recommended_actions + reduction a.action)
  pub bounded : i'.residual_risk_score ≤ i'.risk_score
  pub risk_kept : i'.risk_score ≡ i.risk_score
  pub evidence_kept : i'.event_ids ≡ i.event_ids
  pub marked :
      any (λ a. is_requested requested a && is_executed a.status) i'.recommended_actions ≡ true
  pub achieved : IsAchieved (finding_flags db i) i'.recommended_actions → i'.status ≡ contained
  pub begun :
      ¬ IsAchieved (finding_flags db i) i'.recommended_actions
      → i.status ≡ new
      → i'.status ≡ investigating
  pub status_kept :
      ¬ IsAchieved (finding_flags db i) i'.recommended_actions
      → i.status ≢ new
      → i'.status ≡ i.status

residual_risk-le : (n : ℕ) (actions : List Action) → residual_risk n actions ≤ n
unfolding residual_risk
residual_risk-le n actions = omega arith

mark_executed-marks :
    (now : ℕ) (p : Principal) (requested : String) (actions : List Action) (a : Action)
    → first (is_requested requested) actions ≡ some a
    → any
        (λ b. is_requested requested b && is_executed b.status)
        (mark_executed now p requested actions)
      ≡ true
unfolding mark_executed
mark_executed-marks now p requested [] a h = cc
mark_executed-marks now p requested (b ∷ actions) a h =
    ground (arith, mark_executed-marks now p requested actions a)

-- The reduction of an action that is newly executed comes to those of the others.
reductions-mark_executed :
    (now : ℕ) (p : Principal) (requested : String) (actions : List Action) (a : Action)
    → first (is_requested requested) actions ≡ some a
    → is_executed a.status ≡ false
    → sum_by executed_reduction (mark_executed now p requested actions)
      ≡ sum_by executed_reduction actions + reduction a.action
unfolding mark_executed
reductions-mark_executed now p requested [] a h k = cc
reductions-mark_executed now p requested (b ∷ actions) a h k =
    elim (Bool-cases (is_requested requested b)) [
      | inl t ↦
          let same : b ≡ a = first_head (is_requested requested) b actions a t h in
          let fresh : is_executed b.status ≡ false =
            subst (λ x. is_executed x.status ≡ false) (sym same) k in
          let points : reduction a.action ≡ reduction b.action =
            ap (λ x. reduction x.action) (sym same) in
          rw (t, points) (rw fresh (omega arith))
      | inr f ↦
          rw f (omega (arith, reductions-mark_executed now p requested actions a (rw f at h) k))
    ]

complete_if :
    (progress : Progress)
    → progress.required ≢ 0
    → progress.completed ≡ progress.required
    → is_complete progress ≡ true
complete_if progress h k = ground arith

incomplete_if :
    (progress : Progress)
    → ¬ ((progress.required ≢ 0) × (progress.completed ≡ progress.required))
    → is_complete progress ≡ false
incomplete_if progress h = elim (Bool-cases (is_complete progress)) [
  | inl t ↦ absurd (h ((λ e. absurd (ground arith)), ground arith))
  | inr f ↦ f
]

start_kept : (status : IncidentStatus) → status ≢ new → start_case status ≡ status
start_kept new h = absurd (h refl)
start_kept investigating h = refl
start_kept contained h = refl
start_kept resolved h = refl

status_after-achieved :
    (progress : Progress) (status : IncidentStatus)
    → progress.required ≢ 0
    → progress.completed ≡ progress.required
    → status_after progress status ≡ contained
status_after-achieved progress status h k = rw (complete_if progress h k) refl

status_after-begun :
    (progress : Progress)
    → ¬ ((progress.required ≢ 0) × (progress.completed ≡ progress.required))
    → status_after progress new ≡ investigating
status_after-begun progress h = rw (incomplete_if progress h) refl

status_after-kept :
    (progress : Progress) (status : IncidentStatus)
    → ¬ ((progress.required ≢ 0) × (progress.completed ≡ progress.required))
    → status ≢ new
    → status_after progress status ≡ status
status_after-kept progress status h k = rw (incomplete_if progress h) (start_kept status k)

residual_mark_executed :
    (now : ℕ) (p : Principal) (requested : String) (i : Incident) (a : Action)
    → first (is_requested requested) i.recommended_actions ≡ some a
    → is_executed a.status ≡ false
    → residual_risk i.risk_score (mark_executed now p requested i.recommended_actions)
      ≡ i.risk_score - (sum_by executed_reduction i.recommended_actions + reduction a.action)
unfolding residual_risk
residual_mark_executed now p requested i a h k =
    ap (λ n. i.risk_score - n)
      (reductions-mark_executed now p requested i.recommended_actions a h k)

first_same :
    (requested : String) (actions : List Action) (a b : Action)
    → first (is_requested requested) actions ≡ some a
    → first (is_requested requested) actions ≡ some b
    → a ≡ b
first_same requested actions a b h k = cc

pub act_on-Acted :
    (now : ℕ) (requested : String) (p : Principal) (db : Database) (i : Incident) (a : Action)
    → first (is_requested requested) i.recommended_actions ≡ some a
    → is_executed a.status ≡ false
    → Acted now requested p db i (act_on now p requested db i)
unfolding act_on
act_on-Acted now requested p db i a h k = record {
  residual = λ b e. residual_mark_executed now p requested i b e (
      subst (λ x. is_executed x.status ≡ false) (first_same requested i.recommended_actions a b h e)
        k);
  bounded = residual_risk-le i.risk_score (mark_executed now p requested i.recommended_actions);
  risk_kept = refl;
  evidence_kept = refl;
  marked = mark_executed-marks now p requested i.recommended_actions a h;
  achieved = λ e.
      status_after-achieved
        (containment_progress (finding_flags db i)
          (mark_executed now p requested i.recommended_actions))
        i.status e.0 e.1;
  begun = λ e n.
      ap
        (status_after (
          containment_progress (finding_flags db i)
            (mark_executed now p requested i.recommended_actions)))
        n
      ∙ status_after-begun
          (containment_progress (finding_flags db i)
            (mark_executed now p requested i.recommended_actions))
          e;
  status_kept = λ e n.
      status_after-kept
        (containment_progress (finding_flags db i)
          (mark_executed now p requested i.recommended_actions))
        i.status e n;
}
