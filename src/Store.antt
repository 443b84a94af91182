-- ===== src/Store.antt =====
-- backend/app/models.py, errors.py and the `Principal` of auth.py: the stored rows and the results
-- of the handlers. The tables are lists in the order of insertion, which is the order in which
-- `first()` sees them. The identity of a row is its primary key.
use cirt_lens.Base.{
  ℕ, String, Bool, Option, List, [], ◌∷◌, ◌==◌, if◌then◌else◌, ◌≡◌, refl, ◌⊎◌, inl, inr,
}
use cirt_lens.Telemetry.{DetectionFinding}
use cirt_lens.Events.{Event}
use cirt_lens.Risk.{Severity, RiskParts, ConfidenceParts}
use cirt_lens.Attack.{Technique}
use cirt_lens.Playbook.{Action}
use cirt_lens.Correlation.Infer.{IncidentType}

-- schemas/api.py: `IncidentStatus` and `Disposition`
pub data IncidentStatus : Type 0 where
  new investigating contained resolved : IncidentStatus

pub data Disposition : Type 0 where
  unset true_positive false_positive benign_positive : Disposition

-- The title and the root cause are fixed by `incident_type` and `context`; the description holds
-- the three counts. The columns with JSON texts are kept as their values.
pub record Incident : Type 0 where
  pub id : String
  pub tenant_id : String
  pub incident_type : IncidentType
  pub context : List String
  pub description : ℕ × ℕ × ℕ
  pub created_at : ℕ
  pub updated_at : ℕ
  pub severity : Severity
  pub status : IncidentStatus
  pub risk_score : ℕ
  pub residual_risk_score : ℕ
  pub confidence_score : ℕ
  pub confidence_breakdown : ConfidenceParts
  pub score_breakdown : RiskParts
  pub primary_user : Option String
  pub primary_host : Option String
  pub source_ips : List String
  pub affected_assets : List String
  pub event_ids : List String
  pub techniques : List Technique
  pub recommended_actions : List Action
  pub assigned_to : Option String
  pub triaged_at : Option ℕ
  pub incident_fingerprint : String
  pub disposition : Disposition

pub data ApprovalStatus : Type 0 where
  pending approved consumed expired : ApprovalStatus

pub record ActionApproval : Type 0 where
  pub id : String
  pub tenant_id : String
  pub incident_id : String
  pub action : String
  pub requested_by : String
  pub approved_by : Option String
  pub status : ApprovalStatus
  pub created_at : ℕ
  pub decided_at : Option ℕ

pub record ConnectorExecution : Type 0 where
  pub id : String
  pub tenant_id : String
  pub incident_id : String
  pub action : String
  pub connector : String
  pub idempotency_key : String
  pub provider_request_id : String
  pub status : String
  pub dry_run : Bool
  pub attempts : ℕ
  pub detail : String
  pub created_at : ℕ

-- The `details` text is left out.
pub record Activity : Type 0 where
  pub timestamp : ℕ
  pub analyst : String
  pub action : String
  pub incident_id : String
  pub result : String
  pub tenant_id : String

-- The `reason` text and `activity_id` are left out.
pub record IncidentRiskHistory : Type 0 where
  pub incident_id : String
  pub timestamp : ℕ
  pub original_risk : ℕ
  pub residual_risk : ℕ

pub record AnalystNote : Type 0 where
  pub incident_id : String
  pub analyst : String
  pub text : String
  pub timestamp : ℕ

pub record EvidenceBookmark : Type 0 where
  pub incident_id : String
  pub event_id : String
  pub analyst : String
  pub note : String
  pub timestamp : ℕ

pub record Database : Type 0 where
  pub events : List Event
  pub findings : List DetectionFinding
  pub incidents : List Incident
  pub approvals : List ActionApproval
  pub executions : List ConnectorExecution
  pub activities : List Activity
  pub history : List IncidentRiskHistory
  pub notes : List AnalystNote
  pub bookmarks : List EvidenceBookmark

-- auth.py: `Principal`
pub record Principal : Type 0 where
  pub user_id : String
  pub tenant_id : String
  pub email : String
  pub role : String
  pub permissions : List String

-- `DomainError` and `HTTPException` carry a status code; a violated unique constraint makes the
-- commit fail, and the transaction is rolled back. Any other exception has its name.
pub data Problem : Type 0 where
  http : ℕ → String → Problem
  integrity_error : Problem
  exception : String → Problem

pub data Outcome {ℓ} (A : Type ℓ) : Type ℓ where
  ok : A → Outcome A
  err : Problem → Outcome A

infixl 5 ◌>>=◌
abbrev pub ◌>>=◌ {κ ℓ} : {Q : Type κ} {R : Type ℓ} → Outcome Q → (Q → Outcome R) → Outcome R
err problem >>= handler = err problem
ok answer >>= handler = handler answer

-- To split on an outcome and keep the equation.
pub Outcome-cases {ℓ} :
    {A : Type ℓ} (o : Outcome A) → ((a : A) × (o ≡ ok a)) ⊎ ((e : Problem) × (o ≡ err e))
Outcome-cases (ok a) = inl (a, refl)
Outcome-cases (err e) = inr (e, refl)

pub ok_inj {ℓ} : {A : Type ℓ} (a b : A) → ok a ≡ ok b → a ≡ b
ok_inj a b h = cc

-- What the steps of a handler that succeeds have given.
pub handler_steps {κ ℓ} :
    {Q : Type κ} {R : Type ℓ} {answer : R} (handler : Q → Outcome R) (step : Outcome Q)
    → (step >>= handler) ≡ ok answer
    → (q : Q) × (step ≡ ok q × handler q ≡ ok answer)
handler_steps handler (err problem) e = cc
handler_steps handler (ok q) e = (q, (refl, e))

-- The outcome is a result.
abbrev pub Succeeds {ℓ} : {A : Type ℓ} → Outcome A → Type 0
Succeeds (ok a) = Unit
Succeeds (err p) = ⊥

pub result {ℓ} : {A : Type ℓ} (o : Outcome A) → Succeeds o → (r : A) × (o ≡ ok r)
result (ok a) h = (a, refl)
result (err p) h = elim h [ ]

-- A column is assigned on the object with the given primary key.
abbrev pub save_incident : Incident → List Incident → List Incident
save_incident v [] = []
save_incident v (i ∷ rows) = (if i.id == v.id then v else i) ∷ save_incident v rows

abbrev pub save_approval : ActionApproval → List ActionApproval → List ActionApproval
save_approval v [] = []
save_approval v (a ∷ rows) = (if a.id == v.id then v else a) ∷ save_approval v rows
