-- ===== src/Response/Effects.antt =====
-- What executing an action does: the authorization it needs, the case it leaves, and what an error
-- leaves alone.
use cirt_lens.Base.{
  ℕ, String, ◌≡◌, refl, ap, sym, subst, ◌∙◌, true, false, some, arith, first, All_first,
  Option-cases, Bool-cases, inl, inr,
}
use cirt_lens.Config.{Settings}
use cirt_lens.Playbook.{Action, is_executed}
use cirt_lens.Store.{
  Outcome-cases, Incident, ActionApproval, approved, Database, Principal, Problem, ok, err,
}
use cirt_lens.Response.Repository.{get_incident}
use cirt_lens.Response.Approvals.{approval_for}
use cirt_lens.Response.TwoPerson.{by_two, IsByTwo, AllByTwo}
use cirt_lens.Response.Execute.{
  IdentityConnector, ApprovalCheck, not_needed, granted, refused, needs_approval, is_stale,
  require_approval, Dispatch, replayed, started, rejected, connector_execution, is_requested,
  act_on, finish, run_action, execute,
}
use cirt_lens.Response.Acting.{Acted, act_on-Acted}

-- The authorization of a successful request.
abbrev pub Authorized : ApprovalCheck → Type 0
Authorized not_needed = Unit
Authorized (granted a) = Unit
Authorized (refused problem db) = ⊥

-- The parts that a successful request goes through.
pub record Succeeds (s : Settings) (now : ℕ) (iid requested : String) (p : Principal)
    (db : Database) (i' : Incident) : Type 0 where
  pub incident : Incident
  pub selected : Action
  pub owned : get_incident db p.tenant_id iid ≡ ok incident
  pub chosen : first (is_requested requested) incident.recommended_actions ≡ some selected
  pub fresh : is_executed selected.status ≡ false
  pub result : i' ≡ act_on now p requested db incident
  pub allowed : Authorized (require_approval s now iid selected p db)

finish_ok :
    (now : ℕ) (p : Principal) (iid requested : String) (check : ApprovalCheck) (dispatch : Dispatch)
    (i : Incident) (db : Database) (i' : Incident)
    → (finish now p iid requested check dispatch i db).0 ≡ ok i'
    → (i' ≡ act_on now p requested db i) × Authorized check
unfolding finish
finish_ok now p iid requested (refused problem db') dispatch i db i' h = cc
finish_ok now p iid requested not_needed (rejected problem) i db i' h = cc
finish_ok now p iid requested not_needed (replayed e) i db i' h = (cc, tt)
finish_ok now p iid requested not_needed (started e) i db i' h = (cc, tt)
finish_ok now p iid requested (granted a) (rejected problem) i db i' h = cc
finish_ok now p iid requested (granted a) (replayed e) i db i' h = (ground arith, tt)
finish_ok now p iid requested (granted a) (started e) i db i' h = (ground arith, tt)

pub run_action_ok :
    (s : Settings) (now : ℕ) (fresh : String) (c : IdentityConnector) (iid requested : String)
    (p : Principal) (i : Incident) (selected : Action) (db : Database) (i' : Incident)
    → (run_action s now fresh c iid requested p i selected db).0 ≡ ok i'
    → (is_executed selected.status ≡ false)
      × ((i' ≡ act_on now p requested db i) × Authorized (require_approval s now iid selected p db))
unfolding run_action
run_action_ok s now fresh c iid requested p i selected db i' h =
    elim (Bool-cases (is_executed selected.status)) [
      | inl e ↦ absurd (ground arith)
      | inr d ↦ (
        d,
        finish_ok now p iid requested (require_approval s now iid selected p db)
            (connector_execution s now fresh c i selected p db) i db i' (ground arith),
      )
    ]

pub execute_ok :
    (s : Settings) (now : ℕ) (fresh : String) (c : IdentityConnector) (iid requested : String)
    (p : Principal) (db : Database) (i' : Incident)
    → (execute s now fresh c iid requested p db).0 ≡ ok i'
    → Succeeds s now iid requested p db i'
unfolding execute
execute_ok s now fresh c iid requested p db i' h =
    elim (Outcome-cases (get_incident db p.tenant_id iid)) [
      | inr (e, q) ↦ absurd (ground arith)
      | inl (i, q) ↦ elim (Option-cases (first (is_requested requested) i.recommended_actions)) [
        | inl n ↦ absurd (ground arith)
        | inr (a, n) ↦
            let (not_done, (eq, auth)) =
              run_action_ok s now fresh c iid requested p i a db i' (ground arith) in
            record {
              incident = i;
              selected = a;
              owned = q;
              chosen = n;
              fresh = not_done;
              result = eq;
              allowed = auth;
            }
      ]
    ]

-- An approval that authorizes an action.
pub record Authorizes (s : Settings) (now : ℕ) (iid : String) (selected : Action) (p : Principal)
    (db : Database) : Type 0 where
  pub approval : ActionApproval
  pub on_file :
      first (approval_for p.tenant_id iid selected.action approved) db.approvals ≡ some approval
  pub in_time : is_stale s now approval.decided_at ≡ false
  pub two_persons : by_two approval ≡ true

authorization :
    (s : Settings) (now : ℕ) (iid : String) (selected : Action) (p : Principal) (db : Database)
    → AllByTwo db
    → needs_approval s selected ≡ true
    → Authorized (require_approval s now iid selected p db)
    → Authorizes s now iid selected p db
unfolding require_approval
authorization s now iid selected p db two need allowed =
    elim (Option-cases
      (first (approval_for p.tenant_id iid selected.action approved) db.approvals)) [
        | inl e ↦ absurd (ground arith)
        | inr (a, e) ↦ record {
          approval = a;
          on_file = e;
          in_time = ground arith;
          two_persons = All_first IsByTwo _ db.approvals a two e;
        }
      ]

pub execute-found :
    (s : Settings) (now : ℕ) (fresh : String) (c : IdentityConnector) (iid requested : String)
    (p : Principal) (db : Database) (i : Incident) (selected : Action)
    → get_incident db p.tenant_id iid ≡ ok i
    → first (is_requested requested) i.recommended_actions ≡ some selected
    → execute s now fresh c iid requested p db
      ≡ run_action s now fresh c iid requested p i selected db
unfolding execute
execute-found s now fresh c iid requested p db i selected owned chosen =
    rw (owned, execute) (rw chosen)

-- Where every approval on file is by two persons (which holds after every sequence of requests), a
-- high-impact action that is executed under required authorization had an approval on file for
-- exactly this tenant, incident and action, decided inside the time to live, by a user other than
-- its requester.
pub execute_authorized :
    (s : Settings) (now : ℕ) (fresh : String) (c : IdentityConnector) (iid requested : String)
    (p : Principal) (db : Database) (i i' : Incident) (selected : Action)
    → AllByTwo db
    → get_incident db p.tenant_id iid ≡ ok i
    → first (is_requested requested) i.recommended_actions ≡ some selected
    → needs_approval s selected ≡ true
    → (execute s now fresh c iid requested p db).0 ≡ ok i'
    → Authorizes s now iid selected p db
execute_authorized s now fresh c iid requested p db i i' selected two owned chosen need done =
    let run = execute-found s now fresh c iid requested p db i selected owned chosen in
    let parts =
      run_action_ok s now fresh c iid requested p i selected db i'
        (ap (λ r. r.0) (sym run) ∙ done) in
    authorization s now iid selected p db two need parts.1.1

-- After a successful execution of the first action that the request names, the residual risk is the
-- original risk less the reductions of that action and of those executed before it, and at most the
-- original risk, which is kept with the evidence; the requested action is executed; and the case is
-- CONTAINED where the playbook has objectives and all of them are complete, else a NEW case becomes
-- INVESTIGATING and any other status stays.
pub execute_effects :
    (s : Settings) (now : ℕ) (fresh : String) (c : IdentityConnector) (iid requested : String)
    (p : Principal) (db : Database) (i i' : Incident)
    → get_incident db p.tenant_id iid ≡ ok i
    → (execute s now fresh c iid requested p db).0 ≡ ok i'
    → Acted now requested p db i i'
execute_effects s now fresh c iid requested p db i i' owned done =
    let parts = execute_ok s now fresh c iid requested p db i' done in
    let same : parts.incident ≡ i = ground (arith, parts.owned) in
    subst (λ j. Acted now requested p db j i') same
      (subst (Acted now requested p db parts.incident) (sym parts.result)
        (act_on-Acted now requested p db parts.incident parts.selected parts.chosen parts.fresh))

-- What an error may change: the approvals alone, where one has expired.
pub record IsUntouched (db db' : Database) : Type 0 where
  pub incidents : db'.incidents ≡ db.incidents
  pub executions : db'.executions ≡ db.executions
  pub activities : db'.activities ≡ db.activities
  pub history : db'.history ≡ db.history

IsUntouched-refl : (db : Database) → IsUntouched db db
IsUntouched-refl db = record {
  incidents = refl;
  executions = refl;
  activities = refl;
  history = refl;
}

abbrev CheckIsUntouched : Database → ApprovalCheck → Type 0
CheckIsUntouched db not_needed = Unit
CheckIsUntouched db (granted a) = Unit
CheckIsUntouched db (refused problem db') = IsUntouched db db'

require_approval-IsUntouched :
    (s : Settings) (now : ℕ) (iid : String) (selected : Action) (p : Principal) (db : Database)
    → CheckIsUntouched db (require_approval s now iid selected p db)
unfolding require_approval
require_approval-IsUntouched s now iid selected p db = ground arith

finish-IsUntouched :
    (now : ℕ) (p : Principal) (iid requested : String) (check : ApprovalCheck) (dispatch : Dispatch)
    (i : Incident) (db : Database) (e : Problem)
    → CheckIsUntouched db check
    → (finish now p iid requested check dispatch i db).0 ≡ err e
    → IsUntouched db (finish now p iid requested check dispatch i db).1
unfolding finish
finish-IsUntouched now p iid requested (refused problem db') dispatch i db e k h = k
finish-IsUntouched now p iid requested not_needed (rejected problem) i db e k h =
    IsUntouched-refl db
finish-IsUntouched now p iid requested not_needed (replayed x) i db e k h = cc
finish-IsUntouched now p iid requested not_needed (started x) i db e k h = cc
finish-IsUntouched now p iid requested (granted a) (rejected problem) i db e k h =
    IsUntouched-refl db
finish-IsUntouched now p iid requested (granted a) (replayed x) i db e k h = ground arith
finish-IsUntouched now p iid requested (granted a) (started x) i db e k h = ground arith

run_action-IsUntouched :
    (s : Settings) (now : ℕ) (fresh : String) (c : IdentityConnector) (iid requested : String)
    (p : Principal) (i : Incident) (selected : Action) (db : Database) (e : Problem)
    → (run_action s now fresh c iid requested p i selected db).0 ≡ err e
    → IsUntouched db (run_action s now fresh c iid requested p i selected db).1
unfolding run_action
run_action-IsUntouched s now fresh c iid requested p i selected db e h =
    elim (Bool-cases (is_executed selected.status)) [
      | inl x ↦ rw x (IsUntouched-refl db)
      | inr d ↦ rw d (
          finish-IsUntouched now p iid requested (require_approval s now iid selected p db)
            (connector_execution s now fresh c i selected p db) i db e
            (require_approval-IsUntouched s now iid selected p db) (ground arith))
    ]

-- A request that fails, for whatever reason (no such incident in the tenant, an action that is not
-- recommended or was executed before, a missing or expired approval, a connector error, a violated
-- constraint), changes no incident, connector execution, activity or risk history.
pub execute_fails_clean :
    (s : Settings) (now : ℕ) (fresh : String) (c : IdentityConnector) (iid requested : String)
    (p : Principal) (db : Database) (e : Problem)
    → (execute s now fresh c iid requested p db).0 ≡ err e
    → IsUntouched db (execute s now fresh c iid requested p db).1
unfolding execute
execute_fails_clean s now fresh c iid requested p db e h =
    elim (Outcome-cases (get_incident db p.tenant_id iid)) [
      | inr (x, q) ↦ rw (q, execute) (IsUntouched-refl db)
      | inl (i, q) ↦ elim (Option-cases (first (is_requested requested) i.recommended_actions)) [
        | inl n ↦ rw (q, execute) (rw n (IsUntouched-refl db))
        | inr (a, n) ↦
            rw (q, execute)
              (rw n (run_action-IsUntouched s now fresh c iid requested p i a db e (ground arith)))
      ]
    ]
