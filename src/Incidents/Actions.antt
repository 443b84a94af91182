-- ===== src/Incidents/Actions.antt =====
-- correlation_engine.py: what enrichment leaves of the actions of a case.
use cirt_lens.Base.{
  ℕ, ◌≡◌, ◌≢◌, refl, ap, sym, ◌∙◌, String, Bool-cases, true, false, Option, none, some, List, [],
  ◌∷◌, ◌==◌, eq_iff, if◌then◌else◌, ◌⊎◌, inl, inr, Memᴰ,
}
use cirt_lens.Playbook.{Action}
use cirt_lens.Store.{Incident}
use cirt_lens.Correlation.Infer.{
  IncidentType, credential_compromise, endpoint_compromise, potential_data_exfiltration,
  suspicious_activity,
}
use cirt_lens.Incidents.Assess.{Assessment}
use cirt_lens.Incidents.Cases.{same_type, prior_action, carried, carry_over, enriched}

-- What has been done about an action.
pub record IsSameState (b x : Action) : Type 0 where
  pub same_status : x.status ≡ b.status
  pub same_time : x.executed_at ≡ b.executed_at
  pub same_analyst : x.analyst ≡ b.analyst

-- What an action is.
pub record IsSameAction (y x : Action) : Type 0 where
  pub same_name : x.action ≡ y.action
  pub same_reason : x.reason ≡ y.reason
  pub same_label : x.risk_reduction ≡ y.risk_reduction
  pub same_points : x.reduction_points ≡ y.reduction_points
  pub same_objectives : x.objectives ≡ y.objectives

-- The action `x` made of `y`, where there were the actions `prior`: an old action of the same name
-- hands on its state, and only where there is none is `y` taken as it is.
abbrev pub IsMadeOf : List Action → Action → Action → Type 0
IsMadeOf prior y x =
    IsSameAction y x
    × (((b : Action) × Memᴰ b prior × (b.action ≡ x.action) × IsSameState b x)
        ⊎ (((b : Action) → Memᴰ b prior → b.action ≢ x.action) × (x ≡ y)))

-- Each action in turn is made of that of the assessment, with the state that is carried over.
abbrev pub IsCarried : List Action → List Action → List Action → Type 0
IsCarried prior [] [] = Unit
IsCarried prior (y ∷ ys) (x ∷ xs) = IsMadeOf prior y x × IsCarried prior ys xs
IsCarried prior [] (x ∷ xs) = ⊥
IsCarried prior (y ∷ ys) [] = ⊥

-- An old action of the name, or that there is none.
abbrev IsPrior : List Action → String → Option Action → Type 0
IsPrior prior name none = (b : Action) → Memᴰ b prior → b.action ≢ name
IsPrior prior name (some b) = Memᴰ b prior × (b.action ≡ name)

prior_action-IsPrior :
    (prior : List Action) (name : String) → IsPrior prior name (prior_action prior name)
unfolding prior_action
prior_action-IsPrior [] name = λ b h. elim h [ ]
prior_action-IsPrior (a ∷ prior) name =
    choose (prior_action prior name) (prior_action-IsPrior prior name)
      (Bool-cases (a.action == name))
  where
    other :
        (b : Action)
        → Memᴰ b (a ∷ prior)
        → b.action ≡ name
        → (a.action == name) ≡ false
        → ((b : Action) → Memᴰ b prior → b.action ≢ name)
        → ⊥
    other b (Memᴰ.head same) e f h =
        let yes = (eq_iff a.action name).1 (ap (λ (x : Action). x.action) (sym same) ∙ e) in cc
    other b (Memᴰ.tail i) e f h = h b i e

    choose :
        (o : Option Action)
        → IsPrior prior name o
        → ((a.action == name) ≡ true) ⊎ ((a.action == name) ≡ false)
        → IsPrior
            (a ∷ prior)
            name
            (elim o [ some b ↦ some b | none ↦ if a.action == name then some a else none ])
    choose (some b) (h, k) c = (Memᴰ.tail h, k)
    choose none h (inl t) = rw t (Memᴰ.head refl, (eq_iff a.action name).0 t)
    choose none h (inr f) = rw f (λ b i e. other b i e f h)

carried-IsMadeOf :
    (prior : List Action) (y : Action) (o : Option Action)
    → IsPrior prior y.action o
    → IsMadeOf prior y (carried o y)
carried-IsMadeOf prior y none h = (
  record {
    same_name = refl;
    same_reason = refl;
    same_label = refl;
    same_points = refl;
    same_objectives = refl;
  },
  inr (h, refl),
)
carried-IsMadeOf prior y (some b) (h, k) = (
  record {
    same_name = refl;
    same_reason = refl;
    same_label = refl;
    same_points = refl;
    same_objectives = refl;
  },
  inl (b, h, k, record { same_status = refl; same_time = refl; same_analyst = refl }),
)

carry_over-IsCarried :
    (prior actions : List Action) → IsCarried prior actions (carry_over prior actions)
unfolding carry_over
carry_over-IsCarried prior [] = tt
carry_over-IsCarried prior (y ∷ ys) = (
  carried-IsMadeOf prior y (prior_action prior y.action) (prior_action-IsPrior prior y.action),
  carry_over-IsCarried prior ys,
)

carry_over_nothing : (actions : List Action) → carry_over [] actions ≡ actions
unfolding carry_over prior_action
carry_over_nothing [] = refl
carry_over_nothing (a ∷ actions) = rw (carry_over_nothing actions) refl

same_type_refl : (t : IncidentType) → same_type t t ≡ true
same_type_refl credential_compromise = refl
same_type_refl endpoint_compromise = refl
same_type_refl potential_data_exfiltration = refl
same_type_refl suspicious_activity = refl

same_type-eq : (t u : IncidentType) → same_type t u ≡ true → t ≡ u
same_type-eq credential_compromise credential_compromise h = refl
same_type-eq credential_compromise endpoint_compromise h = cc
same_type-eq credential_compromise potential_data_exfiltration h = cc
same_type-eq credential_compromise suspicious_activity h = cc
same_type-eq endpoint_compromise credential_compromise h = cc
same_type-eq endpoint_compromise endpoint_compromise h = refl
same_type-eq endpoint_compromise potential_data_exfiltration h = cc
same_type-eq endpoint_compromise suspicious_activity h = cc
same_type-eq potential_data_exfiltration credential_compromise h = cc
same_type-eq potential_data_exfiltration endpoint_compromise h = cc
same_type-eq potential_data_exfiltration potential_data_exfiltration h = refl
same_type-eq potential_data_exfiltration suspicious_activity h = cc
same_type-eq suspicious_activity credential_compromise h = cc
same_type-eq suspicious_activity endpoint_compromise h = cc
same_type-eq suspicious_activity potential_data_exfiltration h = cc
same_type-eq suspicious_activity suspicious_activity h = refl

same_type-ne : (t u : IncidentType) → t ≢ u → same_type t u ≡ false
same_type-ne t u h = elim (Bool-cases (same_type t u)) [
  | inl e ↦ absurd (h (same_type-eq t u e))
  | inr e ↦ e
]

-- An enriched case has the actions of the new assessment, in order. Where the type of the case
-- stays, each has the status, the time of execution and the analyst of an action of its name that
-- the case had before, if it had one, and is else as assessed; where the type changes, all are as
-- assessed.
pub enriched-IsCarried :
    (now : ℕ) (fp : String) (a : Assessment) (i : Incident)
    → (i.incident_type ≡ a.inference.incident_type
        → IsCarried i.recommended_actions a.recommended_actions
            (enriched now fp a i).recommended_actions)
      × (i.incident_type ≢ a.inference.incident_type
          → (enriched now fp a i).recommended_actions ≡ a.recommended_actions)
unfolding enriched
enriched-IsCarried now fp a i = (
  λ e.
      rw (ap (same_type i.incident_type) (sym e) ∙ same_type_refl i.incident_type)
        (carry_over-IsCarried i.recommended_actions a.recommended_actions),
  λ e.
      rw (same_type-ne i.incident_type a.inference.incident_type e)
        (carry_over_nothing a.recommended_actions),
)
