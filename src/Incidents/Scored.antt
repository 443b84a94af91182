-- ===== src/Incidents/Scored.antt =====
-- correlation_engine.py: the scores of a case that is written.
use cirt_lens.Base.{
  ℕ, ◌≤◌, ◌≡◌, refl, subst, String, List, [], ◌∷◌, ◌==◌, All, arith, Bool-cases, inl, inr,
}
use cirt_lens.Config.{Settings}
use cirt_lens.Telemetry.{DetectionFinding}
use cirt_lens.Events.{Event}
use cirt_lens.Risk.{severity}
use cirt_lens.Risk.Scores.{calculate_risk_bounds}
use cirt_lens.Playbook.{residual_risk}
use cirt_lens.Store.{Incident, ok, save_incident, handler_steps, ok_inj}
use cirt_lens.Incidents.Assess.{Digests, Assessment, assess, assessed, principal_of_events}
use cirt_lens.Incidents.Cases.{enriched, opened}

-- A score of at most 100 with its severity, and what the executed actions leave of it.
abbrev pub IsScored : Incident → Type 0
IsScored i =
    (i.severity ≡ severity i.risk_score)
    × (i.residual_risk_score ≤ i.risk_score)
    × (i.risk_score ≤ 100)

pub All_save {κ} :
    (P : Incident → Type κ) (j : Incident) (rows : List Incident)
    → P j
    → All P rows
    → All P (save_incident j rows)
All_save P j [] h k = tt
All_save P j (x ∷ rows) h (k, ks) = elim (Bool-cases (x.id == j.id)) [
  | inl e ↦ rw e (h, All_save P j rows h ks)
  | inr e ↦ rw e (k, All_save P j rows h ks)
]

pub enriched-IsScored :
    (now : ℕ) (fp : String) (a : Assessment) (i : Incident)
    → a.risk_score ≤ 100
    → IsScored (enriched now fp a i)
unfolding enriched residual_risk
enriched-IsScored now fp a i r = (refl, omega arith, r)

pub opened-IsScored :
    (now : ℕ) (id tenant_id fp : String) (a : Assessment)
    → a.risk_score ≤ 100
    → IsScored (opened now id tenant_id fp a)
unfolding opened
opened-IsScored now id tenant_id fp a r = (refl, omega arith, r)

pub assess-bounded :
    (s : Settings) (d : Digests) (tenant_id : String) (findings : List DetectionFinding)
    (events : List Event) (a : Assessment)
    → assess s d tenant_id findings events ≡ ok a
    → a.risk_score ≤ 100
unfolding assess
assess-bounded s d tenant_id findings events a e =
    let (p, h) =
      handler_steps (λ principal. ok (assessed s d tenant_id findings events principal))
        (principal_of_events events) e in
    subst (λ y. y.risk_score ≤ 100) (ok_inj (assessed s d tenant_id findings events p) a h.1)
      (calculate_risk_bounds findings events).0
