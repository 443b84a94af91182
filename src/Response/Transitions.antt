-- ===== src/Response/Transitions.antt =====
-- The case workflow, and that an action is executed once.
use cirt_lens.Base.{
  ℕ, ◌≤◌, String, ◌≡◌, ◌≢◌, refl, ap, sym, subst, ◌∙◌, Bool, true, false, not, ◌&&◌, ◌||◌, Option,
  none, some, List, [], ◌∷◌, ◌==◌, arith, first, first_passes, Bool-cases, ◌⊎◌, inl, inr, eq_iff,
}
use mathlib.Core.Bool.{false≢true}
use cirt_lens.Config.{Settings}
use cirt_lens.Playbook.{Action, executed, is_executed}
use cirt_lens.Store.{
  Incident, IncidentStatus, new, investigating, contained, resolved, Database, Principal, ok, err,
  http, save_incident,
}
use cirt_lens.Response.Repository.{get_incident, owned_by}
use cirt_lens.Response.Execute.{
  IdentityConnector, ApprovalCheck, not_needed, granted, refused, require_approval, Dispatch,
  replayed, started, rejected, connector_execution, is_requested, mark_executed, act_on, finish,
  run_action, execute,
}
use cirt_lens.Response.Effects.{execute_ok, execute-found}
use cirt_lens.Response.Workflow.{same_case, allowed, moved, move, update_incident}

-- How far a case is.
abbrev pub stage : IncidentStatus → ℕ
stage new = 0
stage investigating = 1
stage contained = 2
stage resolved = 3

-- The steps of the workflow.
abbrev pub IsStep : IncidentStatus → IncidentStatus → Type 0
IsStep from to =
    (from ≡ new × to ≡ investigating)
    ⊎ ((from ≡ investigating × to ≡ resolved) ⊎ (from ≡ contained × to ≡ resolved))

-- What an analyst's update of a case guarantees.
pub record Moves (now : ℕ) (target : IncidentStatus) (i i' : Incident) : Type 0 where
  pub reached : i'.status ≡ target
  pub not_contained : i'.status ≢ contained
  pub step : (i'.status ≡ i.status) ⊎ IsStep i.status i'.status
  pub forward : stage i.status ≤ stage i'.status
  pub final : i.status ≡ resolved → i'.status ≡ resolved
  pub triage_kept : (t : ℕ) → i.triaged_at ≡ some t → i'.triaged_at ≡ some t
  pub triaged : i'.status ≡ investigating → i'.triaged_at ≢ none

move_ok :
    (now : ℕ) (iid : String) (target : IncidentStatus) (p : Principal) (i i' : Incident)
    (db : Database)
    → (move now iid target p i db).0 ≡ ok i'
    → (i' ≡ moved now target i)
      × (same_case target contained ≡ false)
      × ((same_case target i.status || allowed i.status target) ≡ true)
move_ok now iid target p i i' db h = elim (Bool-cases (same_case target contained)) [
  | inl e ↦ absurd (ground arith)
  | inr d ↦ elim (Bool-cases (not (same_case target i.status) && not (allowed i.status target))) [
    | inl e ↦ absurd (ground arith)
    | inr q ↦ (ground arith, d, ground arith)
  ]
]

-- A status that is kept or an edge of the table is a step.
edges-IsStep :
    (from to : IncidentStatus)
    → (same_case to from || allowed from to) ≡ true
    → (to ≡ from) ⊎ IsStep from to
edges-IsStep new new h = inl refl
edges-IsStep new investigating h = inr (inl (refl, refl))
edges-IsStep new contained h = cc
edges-IsStep new resolved h = cc
edges-IsStep investigating new h = cc
edges-IsStep investigating investigating h = inl refl
edges-IsStep investigating contained h = cc
edges-IsStep investigating resolved h = inr (inr (inl (refl, refl)))
edges-IsStep contained new h = cc
edges-IsStep contained investigating h = cc
edges-IsStep contained contained h = inl refl
edges-IsStep contained resolved h = inr (inr (inr (refl, refl)))
edges-IsStep resolved new h = cc
edges-IsStep resolved investigating h = cc
edges-IsStep resolved contained h = cc
edges-IsStep resolved resolved h = inl refl

-- The edges of the workflow go forward.
edges_forward :
    (from to : IncidentStatus)
    → (same_case to from || allowed from to) ≡ true
    → (stage from ≤ stage to) × (from ≡ resolved → to ≡ resolved)
edges_forward from to h = ground arith

moved-Moves :
    (now : ℕ) (target : IncidentStatus) (i : Incident)
    → same_case target contained ≡ false
    → (same_case target i.status || allowed i.status target) ≡ true
    → Moves now target i (moved now target i)
moved-Moves now new i a b = record {
  reached = refl;
  not_contained = cc;
  step = edges-IsStep i.status new b;
  forward = (edges_forward i.status new b).0;
  final = (edges_forward i.status new b).1;
  triage_kept = λ t e. e;
  triaged = λ e. cc;
}
moved-Moves now investigating i a b = record {
  reached = refl;
  not_contained = cc;
  step = edges-IsStep i.status investigating b;
  forward = (edges_forward i.status investigating b).0;
  final = (edges_forward i.status investigating b).1;
  triage_kept = λ t e. rw e;
  triaged = λ e. ground arith;
}
moved-Moves now contained i a b = absurd (false≢true (sym a))
moved-Moves now resolved i a b = record {
  reached = refl;
  not_contained = cc;
  step = edges-IsStep i.status resolved b;
  forward = (edges_forward i.status resolved b).0;
  final = (edges_forward i.status resolved b).1;
  triage_kept = λ t e. e;
  triaged = λ e. cc;
}

move-Moves :
    (now : ℕ) (iid : String) (target : IncidentStatus) (p : Principal) (i i' : Incident)
    (db : Database)
    → (move now iid target p i db).0 ≡ ok i'
    → Moves now target i i'
move-Moves now iid target p i i' db h =
    let (result, open_, edge) = move_ok now iid target p i i' db h in
    subst (Moves now target i) (sym result) (moved-Moves now target i open_ edge)

-- A successful status update reaches the requested status, which is never CONTAINED. It keeps the
-- status or takes one of three steps: NEW to INVESTIGATING, INVESTIGATING to RESOLVED, CONTAINED to
-- RESOLVED; so the case never goes back and a resolved case stays resolved. The time of the first
-- triage is set under investigation and never overwritten.
pub update_incident-Moves :
    (now : ℕ) (iid : String) (target : IncidentStatus) (p : Principal) (db : Database)
    (i i' : Incident)
    → get_incident db p.tenant_id iid ≡ ok i
    → (update_incident now iid target p db).0 ≡ ok i'
    → Moves now target i i'
unfolding update_incident
update_incident-Moves now iid target p db i i' owned done =
    move-Moves now iid target p i i' db (ground arith)

abbrev is_some : Option Incident → Bool
is_some none = false
is_some (some i) = true

-- An incident that is saved is found again.
first-save_incident :
    (t iid : String) (v : Incident) (rows : List Incident)
    → owned_by t iid v ≡ true
    → is_some (first (owned_by t iid) rows) ≡ true
    → first (owned_by t iid) (save_incident v rows) ≡ some v
first-save_incident t iid v [] own h = cc
first-save_incident t iid v (r ∷ rows) own h = elim (Bool-cases (r.id == v.id)) [
  | inl same ↦ rw same (rw own)
  | inr other ↦
      let not_owned : owned_by t iid r ≡ false =
        ground (arith, eq_iff r.id iid, eq_iff v.id iid, eq_iff r.id v.id) in
      rw (other) (rw not_owned (first-save_incident t iid v rows own (rw not_owned at h)))
]

first-mark_executed :
    (now : ℕ) (p : Principal) (requested : String) (actions : List Action) (a : Action)
    → first (is_requested requested) actions ≡ some a
    → (b : Action) × (first (is_requested requested) (mark_executed now p requested actions)
        ≡ some b)
      × (is_executed b.status ≡ true)
unfolding mark_executed
first-mark_executed now p requested [] a h = absurd (ground arith)
first-mark_executed now p requested (b ∷ actions) a h =
    elim (Bool-cases (is_requested requested b)) [
      | inl t ↦ (
        record b { status = executed; executed_at = some now; analyst = some p.email },
        rw t (rw t),
        refl,
      )
      | inr f ↦
          let (c, found, done) = first-mark_executed now p requested actions a (ground arith) in
          (c, rw f (rw f found), done)
    ]

-- The connector's answer to a request that succeeds.
finish_saves :
    (now : ℕ) (p : Principal) (iid requested : String) (check : ApprovalCheck) (dispatch : Dispatch)
    (i i' : Incident) (db : Database)
    → (finish now p iid requested check dispatch i db).0 ≡ ok i'
    → (finish now p iid requested check dispatch i db).1.incidents
      ≡ save_incident (act_on now p requested db i) db.incidents
unfolding finish
finish_saves now p iid requested (refused problem db') dispatch i i' db h = cc
finish_saves now p iid requested not_needed (rejected problem) i i' db h = cc
finish_saves now p iid requested not_needed (replayed e) i i' db h = refl
finish_saves now p iid requested not_needed (started e) i i' db h = refl
finish_saves now p iid requested (granted a) (rejected problem) i i' db h = cc
finish_saves now p iid requested (granted a) (replayed e) i i' db h = ground arith
finish_saves now p iid requested (granted a) (started e) i i' db h = ground arith

run_action_saves :
    (s : Settings) (now : ℕ) (fresh : String) (c : IdentityConnector) (iid requested : String)
    (p : Principal) (i i' : Incident) (selected : Action) (db : Database)
    → (run_action s now fresh c iid requested p i selected db).0 ≡ ok i'
    → (run_action s now fresh c iid requested p i selected db).1.incidents
      ≡ save_incident (act_on now p requested db i) db.incidents
unfolding run_action
run_action_saves s now fresh c iid requested p i i' selected db h =
    elim (Bool-cases (is_executed selected.status)) [
      | inl e ↦ absurd (ground arith)
      | inr d ↦ rw d (
          finish_saves now p iid requested (require_approval s now iid selected p db)
            (connector_execution s now fresh c i selected p db) i i' db (ground arith))
    ]

get_incident_found :
    (db : Database) (t iid : String) (i : Incident)
    → get_incident db t iid ≡ ok i
    → first (owned_by t iid) db.incidents ≡ some i
unfolding get_incident
get_incident_found db t iid i h = ground arith

get_incident_of :
    (db : Database) (t iid : String) (i : Incident)
    → first (owned_by t iid) db.incidents ≡ some i
    → get_incident db t iid ≡ ok i
unfolding get_incident
get_incident_of db t iid i h = rw h

act_on_owned :
    (now : ℕ) (p : Principal) (requested : String) (db : Database) (t iid : String) (i : Incident)
    → owned_by t iid i ≡ true
    → owned_by t iid (act_on now p requested db i) ≡ true
unfolding act_on
act_on_owned now p requested db t iid i h = h

actions-act_on :
    (now : ℕ) (p : Principal) (requested : String) (db : Database) (i : Incident)
    → (act_on now p requested db i).recommended_actions
      ≡ mark_executed now p requested i.recommended_actions
unfolding act_on
actions-act_on now p requested db i = refl

run_executed :
    (s : Settings) (now : ℕ) (fresh : String) (c : IdentityConnector) (iid requested : String)
    (p : Principal) (i : Incident) (selected : Action) (db : Database)
    → is_executed selected.status ≡ true
    → run_action s now fresh c iid requested p i selected db
      ≡ (err (http 409 "Action has already been executed"), db)
unfolding run_action
run_executed s now fresh c iid requested p i selected db h = rw h

-- After a successful execution the same request, at any later time, with any settings and connector
-- and by anybody of the tenant, is refused as already executed and changes nothing.
pub execute_once :
    (s s' : Settings) (now later : ℕ) (fresh fresh' : String) (c c' : IdentityConnector)
    (iid requested : String) (p p' : Principal) (db : Database) (i' : Incident)
    → p'.tenant_id ≡ p.tenant_id
    → (execute s now fresh c iid requested p db).0 ≡ ok i'
    → let db' = (execute s now fresh c iid requested p db).1 in
      execute s' later fresh' c' iid requested p' db'
      ≡ (err (http 409 "Action has already been executed"), db')
execute_once s s' now later fresh fresh' c c' iid requested p p' db i' same done =
    let parts = execute_ok s now fresh c iid requested p db i' done in
    let i = parts.incident in
    let run =
      execute-found s now fresh c iid requested p db i parts.selected parts.owned parts.chosen in
    let saved : (execute s now fresh c iid requested p db).1.incidents
        ≡ save_incident (act_on now p requested db i) db.incidents =
      ap (λ r. r.1.incidents) run
      ∙ run_action_saves s now fresh c iid requested p i i' parts.selected db
          (ap (λ r. r.0) (sym run) ∙ done) in
    let was = get_incident_found db p.tenant_id iid i parts.owned in
    let own = first_passes (owned_by p.tenant_id iid) db.incidents i was in
    let found : first (owned_by p.tenant_id iid)
          (execute s now fresh c iid requested p db).1.incidents
        ≡ some (act_on now p requested db i) =
      rw saved (
        first-save_incident p.tenant_id iid (act_on now p requested db i) db.incidents
          (act_on_owned now p requested db p.tenant_id iid i own) (rw was)) in
    let (b, chosen, marked) =
      first-mark_executed now p requested i.recommended_actions parts.selected parts.chosen in
    execute-found s' later fresh' c' iid requested p' _ (act_on now p requested db i) b
      (rw same (get_incident_of _ p.tenant_id iid _ found))
      (rw (actions-act_on now p requested db i) chosen)
    ∙ run_executed s' later fresh' c' iid requested p' (act_on now p requested db i) b _ marked
