-- ===== src/Response/Approvals.antt =====
-- backend/app/platform_api.py: `request_approval` and `approve`.
use cirt_lens.Base.{
  ℕ, String, Bool, true, false, not, ◌&&◌, none, some, List, [], ◌∷◌, ◌++◌, ◌==◌, if◌then◌else◌,
  first, any,
}
use cirt_lens.Store.{
  ActionApproval, ApprovalStatus, pending, approved, consumed, expired, Activity, Database,
  Principal, Outcome, ok, err, http, integrity_error, save_approval,
}
use cirt_lens.Response.Repository.{owned_by}

abbrev pub same_status : ApprovalStatus → ApprovalStatus → Bool
same_status pending pending = true
same_status approved approved = true
same_status consumed consumed = true
same_status expired expired = true
same_status _ _ = false

-- The columns of the unique constraint `uq_open_action_approval`.
abbrev pub approval_for : String → String → String → ApprovalStatus → ActionApproval → Bool
approval_for tenant_id incident_id action status a =
    (a.tenant_id == tenant_id)
    && ((a.incident_id == incident_id) && ((a.action == action) && same_status a.status status))

-- Another row has the new values of the constrained columns, so the update fails.
abbrev pub violates_unique : ActionApproval → List ActionApproval → Bool
violates_unique v =
    any (λ a. not (a.id == v.id) && approval_for v.tenant_id v.incident_id v.action v.status a)

abbrev pub activity : ℕ → Principal → String → String → String → Activity
activity now p action incident_id result = record {
  timestamp = now;
  analyst = p.email;
  action = action;
  incident_id = incident_id;
  result = result;
  tenant_id = p.tenant_id;
}

abbrev pub request_new :
    ℕ
    → String
    → String
    → String
    → Principal
    → Database
    → Outcome (String × ApprovalStatus) × Database
request_new now fresh_id incident_id action p db = (
  ok (fresh_id, pending),
  record db {
    approvals =
        db.approvals
        ++ record {
          id = fresh_id;
          tenant_id = p.tenant_id;
          incident_id = incident_id;
          action = action;
          requested_by = p.user_id;
          approved_by = none;
          status = pending;
          created_at = now;
          decided_at = none;
        }
          ∷ [];
    activities = db.activities ++ activity now p "APPROVAL_REQUESTED" incident_id "PENDING" ∷ [];
  },
)

-- `fresh_id` stands for `APR-{uuid}`.
unfoldable pub request_approval :
    ℕ
    → String
    → String
    → String
    → Principal
    → Database
    → Outcome (String × ApprovalStatus) × Database
request_approval now fresh_id incident_id action p db =
    elim (first (owned_by p.tenant_id incident_id) db.incidents) [
      | none ↦ (err (http 404 "Incident not found"), db)
      | some incident ↦
          elim (first (approval_for p.tenant_id incident_id action pending) db.approvals) [
            | some existing ↦ (ok (existing.id, existing.status), db)
            | none ↦ request_new now fresh_id incident_id action p db
          ]
    ]

abbrev pub decided : ℕ → Principal → ActionApproval → ActionApproval
decided now p item = record item {
  status = approved;
  approved_by = some p.user_id;
  decided_at = some now;
}

abbrev pub decide :
    ℕ → Principal → ActionApproval → Database → Outcome (String × ApprovalStatus) × Database
decide now p item db =
    if item.requested_by == p.user_id
    then (err (http 409 "Two-person control requires a different approver"), db)
    else if not (same_status item.status pending)
    then (err (http 409 "Approval is already decided"), db)
    else if violates_unique (decided now p item) db.approvals
    then (err integrity_error, db)
    else (
      ok (item.id, approved),
      record db {
        approvals = save_approval (decided now p item) db.approvals;
        activities =
            db.activities ++ activity now p "ACTION_APPROVED" item.incident_id "SUCCESS" ∷ [];
      },
    )

unfoldable pub approve :
    ℕ → String → Principal → Database → Outcome (String × ApprovalStatus) × Database
approve now approval_id p db =
    elim (first (λ a. (a.id == approval_id) && (a.tenant_id == p.tenant_id)) db.approvals) [
      | none ↦ (err (http 404 "Approval not found"), db)
      | some item ↦ decide now p item db
    ]
