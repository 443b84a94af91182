-- ===== src/Response/Workflow.antt =====
-- backend/app/main.py: the case handlers `update_incident`, `add_note`, `add_bookmark` and
-- `set_disposition`.
use Prim.Native.String.{◌++◌ as ◌+++◌}
use cirt_lens.Base.{
  ℕ, String, Bool, true, false, not, ◌&&◌, Option, none, some, [], ◌∷◌, ◌++◌, ◌==◌, if◌then◌else◌,
  any, contains,
}
use cirt_lens.Store.{
  Incident, IncidentStatus, new, investigating, contained, resolved, Disposition, unset,
  true_positive, false_positive, benign_positive, Database, Principal, Outcome, ok, err, http,
  save_incident,
}
use cirt_lens.Response.Repository.{get_incident}
use cirt_lens.Response.Approvals.{activity}

abbrev pub same_case : IncidentStatus → IncidentStatus → Bool
same_case new new = true
same_case investigating investigating = true
same_case contained contained = true
same_case resolved resolved = true
same_case _ _ = false

-- `target in allowed.get(status, set())`
abbrev pub allowed : IncidentStatus → IncidentStatus → Bool
allowed new investigating = true
allowed investigating resolved = true
allowed contained resolved = true
allowed _ _ = false

abbrev pub status_text : IncidentStatus → String
status_text new = "NEW"
status_text investigating = "INVESTIGATING"
status_text contained = "CONTAINED"
status_text resolved = "RESOLVED"

-- `triaged_at or now`
abbrev pub first_time : Option ℕ → ℕ → Option ℕ
first_time none now = some now
first_time (some t) now = some t

abbrev pub triage : ℕ → IncidentStatus → Incident → Incident
triage now investigating i = record i {
  assigned_to = some "analyst@demo";
  triaged_at = first_time i.triaged_at now;
}
triage now _ i = i

abbrev pub moved : ℕ → IncidentStatus → Incident → Incident
moved now target i = record (triage now target i) { status = target; updated_at = now }

abbrev pub move :
    ℕ → String → IncidentStatus → Principal → Incident → Database → Outcome Incident × Database
move now incident_id target p i db =
    if same_case target contained
    then (
      err (
          http 409
            "CONTAINED is derived only after required simulated response objectives are completed"),
      db,
    )
    else if not (same_case target i.status) && not (allowed i.status target)
    then (err (http 409 "Invalid workflow transition"), db)
    else (
      ok (moved now target i),
      record db {
        incidents = save_incident (moved now target i) db.incidents;
        activities =
            db.activities
            ++ activity now p ("STATUS_" +++ status_text target) incident_id "SUCCESS" ∷ [];
      },
    )

unfoldable pub update_incident :
    ℕ → String → IncidentStatus → Principal → Database → Outcome Incident × Database
update_incident now incident_id target p db = elim (get_incident db p.tenant_id incident_id) [
  | err problem ↦ (err problem, db)
  | ok i ↦ move now incident_id target p i db
]

unfoldable pub add_note : ℕ → String → String → Principal → Database → Outcome ℕ × Database
add_note now incident_id text p db = elim (get_incident db p.tenant_id incident_id) [
  | err problem ↦ (err problem, db)
  | ok i ↦ (
    ok now,
    record db {
      notes =
          db.notes
          ++ record { incident_id = incident_id; analyst = p.email; text = text; timestamp = now }
            ∷ [];
      activities = db.activities ++ activity now p "NOTE_ADDED" incident_id "SUCCESS" ∷ [];
    },
  )
]

abbrev pub bookmark :
    ℕ → String → String → String → Principal → Incident → Database → Outcome String × Database
bookmark now incident_id event_id note p i db =
    if not (contains i.event_ids event_id)
    then (err (http 400 "Event does not belong to this incident"), db)
    else if any (λ b. (b.incident_id == incident_id) && (b.event_id == event_id)) db.bookmarks
    then (err (http 409 "Evidence is already bookmarked"), db)
    else (
      ok event_id,
      record db {
        bookmarks =
            db.bookmarks
            ++ record {
              incident_id = incident_id;
              event_id = event_id;
              analyst = p.email;
              note = note;
              timestamp = now;
            }
              ∷ [];
        activities =
            db.activities ++ activity now p "EVIDENCE_BOOKMARKED" incident_id "SUCCESS" ∷ [];
      },
    )

unfoldable pub add_bookmark :
    ℕ → String → String → String → Principal → Database → Outcome String × Database
add_bookmark now incident_id event_id note p db = elim (get_incident db p.tenant_id incident_id) [
  | err problem ↦ (err problem, db)
  | ok i ↦ bookmark now incident_id event_id note p i db
]

abbrev pub disposition_text : Disposition → String
disposition_text unset = "UNSET"
disposition_text true_positive = "TRUE_POSITIVE"
disposition_text false_positive = "FALSE_POSITIVE"
disposition_text benign_positive = "BENIGN_POSITIVE"

unfoldable pub set_disposition :
    ℕ → String → Disposition → Principal → Database → Outcome Incident × Database
set_disposition now incident_id disposition p db = elim (get_incident db p.tenant_id incident_id) [
  | err problem ↦ (err problem, db)
  | ok i ↦
      let i' = record i { disposition = disposition; updated_at = now } in
      (
        ok i',
        record db {
          incidents = save_incident i' db.incidents;
          activities =
              db.activities
              ++ activity now p ("DISPOSITION_" +++ disposition_text disposition) incident_id
                  "SUCCESS"
                ∷ [];
        },
      )
]
