-- ===== src/Response/TwoPerson.antt =====
-- Two-person control: who approves is never who asked, over every sequence of requests.
use cirt_lens.Base.{
  ℕ, String, ◌≡◌, refl, Bool, true, false, not, ◌&&◌, ◌||◌, none, some, List, [], ◌∷◌, ◌==◌,
  if◌then◌else◌, arith, first, first_passes, All, All-append, All_first, Option-cases, Bool-cases,
  inl, inr, eq_iff,
}
use cirt_lens.Config.{Settings}
use cirt_lens.Playbook.{Action, is_executed}
use cirt_lens.Store.{
  Outcome-cases, Incident, IncidentStatus, Disposition, ActionApproval, ApprovalStatus, pending,
  approved, consumed, expired, Database, Principal, Outcome, save_approval,
}
use cirt_lens.Response.Repository.{get_incident, owned_by}
use cirt_lens.Response.Approvals.{
  same_status, approval_for, violates_unique, decided, decide, request_approval, approve,
}
use cirt_lens.Response.Execute.{
  IdentityConnector, ApprovalCheck, not_needed, granted, refused, expire, refuse_stale,
  needs_approval, is_stale, require_approval, Dispatch, replayed, started, rejected,
  connector_execution, consume, finish, run_action, execute, is_requested,
}
use cirt_lens.Response.Workflow.{update_incident, add_note, add_bookmark, set_disposition}

-- The approval is still pending, or somebody other than its requester has approved it.
abbrev pub by_two : ActionApproval → Bool
by_two a =
    same_status a.status pending
    || elim a.approved_by [ none ↦ false | some u ↦ not (u == a.requested_by) ]

abbrev pub IsByTwo : ActionApproval → Type 0
IsByTwo a = by_two a ≡ true

abbrev pub AllByTwo : Database → Type 0
AllByTwo db = All IsByTwo db.approvals

either-ByTwo :
    (b : Bool) (v a : ActionApproval) → IsByTwo v → IsByTwo a → IsByTwo (if b then v else a)
either-ByTwo true v a h k = h
either-ByTwo false v a h k = k

save_approval-ByTwo :
    (v : ActionApproval) (rows : List ActionApproval)
    → IsByTwo v
    → All IsByTwo rows
    → All IsByTwo (save_approval v rows)
save_approval-ByTwo v [] h k = tt
save_approval-ByTwo v (a ∷ rows) h (p, k) =
    (either-ByTwo (a.id == v.id) v a h p, save_approval-ByTwo v rows h k)

request_approval-ByTwo :
    (now : ℕ) (fresh iid action : String) (p : Principal) (db : Database)
    → AllByTwo db
    → AllByTwo (request_approval now fresh iid action p db).1
unfolding request_approval
request_approval-ByTwo now fresh iid action p db h =
    elim (Option-cases (first (owned_by p.tenant_id iid) db.incidents)) [
      | inl e ↦ rw (e, request_approval) h
      | inr (i, e) ↦
          rw (e, request_approval)
            (elim (Option-cases
              (first (approval_for p.tenant_id iid action pending) db.approvals)) [
                | inl n ↦ rw n (All-append IsByTwo db.approvals _ h (refl, tt))
                | inr (a, n) ↦ rw n h
              ])
    ]

decide-ByTwo :
    (now : ℕ) (p : Principal) (item : ActionApproval) (db : Database)
    → AllByTwo db
    → AllByTwo (decide now p item db).1
decide-ByTwo now p item db h = elim (Bool-cases (item.requested_by == p.user_id)) [
  | inl e ↦ rw e h
  | inr d ↦ rw d (elim (Bool-cases (not (same_status item.status pending))) [
    | inl e ↦ rw e h
    | inr q ↦ rw q (elim (Bool-cases (violates_unique (decided now p item) db.approvals)) [
      | inl e ↦ rw e h
      | inr u ↦ rw u (
          save_approval-ByTwo (decided now p item) db.approvals
            (ground (arith, eq_iff p.user_id item.requested_by, eq_iff item.requested_by p.user_id))
            h)
    ])
  ])
]

approve-ByTwo :
    (now : ℕ) (approval_id : String) (p : Principal) (db : Database)
    → AllByTwo db
    → AllByTwo (approve now approval_id p db).1
unfolding approve
approve-ByTwo now approval_id p db h =
    elim (Option-cases
      (first (λ a. (a.id == approval_id) && (a.tenant_id == p.tenant_id)) db.approvals)) [
        | inl e ↦ rw (e, approve) h
        | inr (item, e) ↦ rw (e, approve) (decide-ByTwo now p item db h)
      ]

-- An approved row keeps its two persons when it is consumed or expires.
keeps_two :
    (a : ActionApproval) (status : ApprovalStatus)
    → IsByTwo a
    → same_status a.status approved ≡ true
    → IsByTwo (record a { status = status })
keeps_two a status h k = ground arith

-- What the check hands on: an approved row of the table, or a database that keeps the invariant.
abbrev CheckIsByTwo : ApprovalCheck → Type 0
CheckIsByTwo not_needed = Unit
CheckIsByTwo (granted a) = IsByTwo a × (same_status a.status approved ≡ true)
CheckIsByTwo (refused problem db) = AllByTwo db

refuse_stale-ByTwo :
    (a : ActionApproval) (db : Database)
    → IsByTwo (expire a)
    → AllByTwo db
    → CheckIsByTwo (refuse_stale a db)
refuse_stale-ByTwo a db k h = elim (Bool-cases (violates_unique (expire a) db.approvals)) [
  | inl e ↦ rw e h
  | inr d ↦ rw d (save_approval-ByTwo (expire a) db.approvals k h)
]

require_approval-ByTwo :
    (s : Settings) (now : ℕ) (iid : String) (selected : Action) (p : Principal) (db : Database)
    → AllByTwo db
    → CheckIsByTwo (require_approval s now iid selected p db)
unfolding require_approval
require_approval-ByTwo s now iid selected p db h =
    elim (Bool-cases (not (needs_approval s selected))) [
      | inl e ↦ rw e tt
      | inr d ↦
          rw d
            (elim (Option-cases
              (first (approval_for p.tenant_id iid selected.action approved) db.approvals)) [
                | inl e ↦ rw e h
                | inr (a, e) ↦
                    let two : IsByTwo a = All_first IsByTwo _ db.approvals a h e in
                    let found =
                      first_passes (approval_for p.tenant_id iid selected.action approved)
                        db.approvals a e in
                    let live : same_status a.status approved ≡ true = ground arith in
                    rw e (elim (Bool-cases (is_stale s now a.decided_at)) [
                      | inl old ↦ rw old (refuse_stale-ByTwo a db (keeps_two a expired two live) h)
                      | inr good ↦ rw good (two, live)
                    ])
              ])
    ]

consumed-ByTwo :
    (a : ActionApproval) (kept : Outcome Incident × Database) (db db' : Database)
    (outcome : Outcome Incident)
    → IsByTwo (consume a)
    → AllByTwo db
    → AllByTwo kept.1
    → db'.approvals ≡ save_approval (consume a) db.approvals
    → AllByTwo (if violates_unique (consume a) db.approvals then kept else (outcome, db')).1
consumed-ByTwo a kept db db' outcome k h l e =
    elim (Bool-cases (violates_unique (consume a) db.approvals)) [
      | inl v ↦ rw v l
      | inr u ↦ rw u (rw e (save_approval-ByTwo (consume a) db.approvals k h))
    ]

finish-ByTwo :
    (now : ℕ) (p : Principal) (iid requested : String) (check : ApprovalCheck) (dispatch : Dispatch)
    (i : Incident) (db : Database)
    → CheckIsByTwo check
    → AllByTwo db
    → AllByTwo (finish now p iid requested check dispatch i db).1
unfolding finish
finish-ByTwo now p iid requested (refused problem db') dispatch i db k h = k
finish-ByTwo now p iid requested not_needed (rejected problem) i db k h = h
finish-ByTwo now p iid requested not_needed (replayed e) i db k h = h
finish-ByTwo now p iid requested not_needed (started e) i db k h = h
finish-ByTwo now p iid requested (granted a) (rejected problem) i db k h = h
finish-ByTwo now p iid requested (granted a) (replayed e) i db (two, live) h =
    consumed-ByTwo a _ db _ _ (keeps_two a consumed two live) h h refl
finish-ByTwo now p iid requested (granted a) (started e) i db (two, live) h =
    consumed-ByTwo a _ db _ _ (keeps_two a consumed two live) h h refl

run_action-ByTwo :
    (s : Settings) (now : ℕ) (fresh : String) (c : IdentityConnector) (iid requested : String)
    (p : Principal) (i : Incident) (selected : Action) (db : Database)
    → AllByTwo db
    → AllByTwo (run_action s now fresh c iid requested p i selected db).1
unfolding run_action
run_action-ByTwo s now fresh c iid requested p i selected db h =
    elim (Bool-cases (is_executed selected.status)) [
      | inl e ↦ rw e h
      | inr d ↦ rw d (
          finish-ByTwo now p iid requested (require_approval s now iid selected p db)
            (connector_execution s now fresh c i selected p db) i db
            (require_approval-ByTwo s now iid selected p db h) h)
    ]

execute-ByTwo :
    (s : Settings) (now : ℕ) (fresh : String) (c : IdentityConnector) (iid requested : String)
    (p : Principal) (db : Database)
    → AllByTwo db
    → AllByTwo (execute s now fresh c iid requested p db).1
unfolding execute
execute-ByTwo s now fresh c iid requested p db h =
    elim (Outcome-cases (get_incident db p.tenant_id iid)) [
      | inr (e, q) ↦ rw (q, execute) h
      | inl (i, q) ↦
          rw (q, execute)
            (elim (Option-cases (first (is_requested requested) i.recommended_actions)) [
              | inl n ↦ rw n h
              | inr (a, n) ↦ rw n (run_action-ByTwo s now fresh c iid requested p i a db h)
            ])
    ]

-- One request that touches the case tables, by anybody and at any time.
pub data Step : Database → Database → Type 0 where
  requested :
      (now : ℕ) (fresh iid action : String) (p : Principal) (db : Database)
      → Step db (request_approval now fresh iid action p db).1
  decided_on :
      (now : ℕ) (approval_id : String) (p : Principal) (db : Database)
      → Step db (approve now approval_id p db).1
  acted :
      (s : Settings) (now : ℕ) (fresh : String) (c : IdentityConnector) (iid action : String)
      (p : Principal) (db : Database)
      → Step db (execute s now fresh c iid action p db).1
  updated :
      (now : ℕ) (iid : String) (target : IncidentStatus) (p : Principal) (db : Database)
      → Step db (update_incident now iid target p db).1
  disposed :
      (now : ℕ) (iid : String) (disposition : Disposition) (p : Principal) (db : Database)
      → Step db (set_disposition now iid disposition p db).1
  noted :
      (now : ℕ) (iid text : String) (p : Principal) (db : Database)
      → Step db (add_note now iid text p db).1
  bookmarked :
      (now : ℕ) (iid event note : String) (p : Principal) (db : Database)
      → Step db (add_bookmark now iid event note p db).1

pub data Reachable (start : Database) : Database → Type 0 where
  here : Reachable start start
  next : {a b : Database} → Reachable start a → Step a b → Reachable start b

update_incident-approvals :
    (now : ℕ) (iid : String) (target : IncidentStatus) (p : Principal) (db : Database)
    → (update_incident now iid target p db).1.approvals ≡ db.approvals
unfolding update_incident
update_incident-approvals now iid target p db = ground arith

set_disposition-approvals :
    (now : ℕ) (iid : String) (d : Disposition) (p : Principal) (db : Database)
    → (set_disposition now iid d p db).1.approvals ≡ db.approvals
unfolding set_disposition
set_disposition-approvals now iid d p db = ground arith

add_note-approvals :
    (now : ℕ) (iid text : String) (p : Principal) (db : Database)
    → (add_note now iid text p db).1.approvals ≡ db.approvals
unfolding add_note
add_note-approvals now iid text p db = ground arith

add_bookmark-approvals :
    (now : ℕ) (iid event note : String) (p : Principal) (db : Database)
    → (add_bookmark now iid event note p db).1.approvals ≡ db.approvals
unfolding add_bookmark
add_bookmark-approvals now iid event note p db = ground arith

Step-ByTwo : {a b : Database} → Step a b → AllByTwo a → AllByTwo b
Step-ByTwo (requested now fresh iid action p db) h =
    request_approval-ByTwo now fresh iid action p db h
Step-ByTwo (decided_on now approval_id p db) h = approve-ByTwo now approval_id p db h
Step-ByTwo (acted s now fresh c iid action p db) h = execute-ByTwo s now fresh c iid action p db h
Step-ByTwo (updated now iid target p db) h = rw (update_incident-approvals now iid target p db) h
Step-ByTwo (disposed now iid d p db) h = rw (set_disposition-approvals now iid d p db) h
Step-ByTwo (noted now iid text p db) h = rw (add_note-approvals now iid text p db) h
Step-ByTwo (bookmarked now iid event note p db) h =
    rw (add_bookmark-approvals now iid event note p db) h

-- From a database with no approvals, after every sequence of case requests by any users at any
-- times, failing ones included, each approval that is no longer pending (approved, consumed or
-- expired) was approved by a user other than its requester.
pub Reachable-ByTwo :
    {start db : Database} → start.approvals ≡ [] → Reachable start db → AllByTwo db
Reachable-ByTwo e here = rw e tt
Reachable-ByTwo e (next r st) = Step-ByTwo st (Reachable-ByTwo e r)
