-- ===== src/Incidents/Upsert.antt =====
-- correlation_engine.py: `create_or_update_incidents`. Its writes are rolled back together when it
-- raises. The session does not flush by itself: the queries on fingerprints see those of the last
-- flush, which only a new case makes; `flushed` is the table as it was then.
use cirt_lens.Base.{
  ℕ, String, Option, none, some, List, [], ◌∷◌, ◌++◌, map, ltb, if◌then◌else◌, length, distinct,
}
use cirt_lens.Config.{Settings}
use cirt_lens.Telemetry.{DetectionFinding}
use cirt_lens.Events.{Event}
use cirt_lens.Correlation.Infer.{infer_incident_type}
use cirt_lens.Correlation.Groups.{connected_groups}
use cirt_lens.Store.{Incident, Database, Outcome, ok, err, exception, ◌>>=◌}
use cirt_lens.Incidents.Assess.{
  Digests, fingerprint, findings_by_event, findings_among, principal_of_events, start_of, assess,
}
use cirt_lens.Incidents.Cases.{find_case, combined_events, Written, enrich, open_case}

abbrev pub tenant_of : List Event → String
tenant_of [] = ""
tenant_of (e ∷ es) = e.tenant_id

abbrev pub ids_of : List Event → List String
ids_of = map (λ e. e.id)

-- What is written for a group whose open case, if any, has been found.
unfoldable pub write_case :
    Settings
    → Digests
    → (ℕ → String)
    → ℕ
    → List DetectionFinding
    → List Event
    → Option Incident
    → List Incident
    → Database
    → Outcome Written
unfolding enrich open_case findings_among findings_by_event
write_case s d fresh now findings group (some i) flushed db =
    let ids = i.event_ids ++ ids_of group in
    let events = combined_events (tenant_of group) ids db.events group in
    do
      a ← assess s d (tenant_of group) (findings_among db.findings (ids_of events)) events
      enrich flushed now a i db
write_case s d fresh now findings group none flushed db = do
  a ← assess s d (tenant_of group) (findings_by_event findings (ids_of group)) group
  open_case d flushed now (fresh (length db.incidents)) (tenant_of group) a db

-- A round that has written a case.
abbrev pub reported : Written → Outcome ((Option Incident × List Incident) × Database)
reported ((i, flushed), db) = ok ((some i, flushed), db)

-- A group with two flags or more: its open case is found and the case is written.
unfoldable pub upsert_found :
    Settings
    → Digests
    → (ℕ → String)
    → ℕ
    → List DetectionFinding
    → List String
    → List Event
    → List Incident
    → Database
    → Outcome ((Option Incident × List Incident) × Database)
unfolding write_case find_case
upsert_found s d fresh now findings flags group flushed db = do
  principal ← principal_of_events group
  let kind = (infer_incident_type flags).incident_type
  let fp = fingerprint s d (tenant_of group) kind principal (start_of group)
  let found = find_case flushed (tenant_of group) fp (ids_of group) db.incidents
  written ← write_case s d fresh now findings group found flushed db
  reported written

abbrev pub flags_in : List DetectionFinding → List Event → List String
flags_in findings group =
    map (λ (f : DetectionFinding). f.flag) (findings_by_event findings (ids_of group))

-- One round of the loop over the groups: `none` is `continue`.
unfoldable pub upsert_group :
    Settings
    → Digests
    → (ℕ → String)
    → ℕ
    → List DetectionFinding
    → List Event
    → List Incident
    → Database
    → Outcome ((Option Incident × List Incident) × Database)
unfolding upsert_found
upsert_group s d fresh now findings group flushed db =
    if ltb (length (distinct (flags_in findings group))) 2
    then ok ((none, flushed), db)
    else upsert_found s d fresh now findings (flags_in findings group) group flushed db

abbrev pub append_case : Option Incident → List Incident → List Incident
append_case none is = is
append_case (some i) is = i ∷ is

unfoldable pub upsert_groups :
    Settings
    → Digests
    → (ℕ → String)
    → ℕ
    → List DetectionFinding
    → List (List Event)
    → List Incident
    → Database
    → Outcome (List Incident × Database)
unfolding upsert_group
upsert_groups s d fresh now findings [] flushed db = ok ([], db)
upsert_groups s d fresh now findings (group ∷ groups) flushed db = do
  ((i, flushed'), db') ← upsert_group s d fresh now findings group flushed db
  (is, db'') ← upsert_groups s d fresh now findings groups flushed' db'
  ok (append_case i is, db'')

-- The groups of the events, which are found whatever the fuel of the search.
unfoldable pub create_or_update_incidents :
    Settings
    → Digests
    → (ℕ → String)
    → ℕ
    → List Event
    → List DetectionFinding
    → Database
    → Outcome (List Incident × Database)
unfolding upsert_groups
create_or_update_incidents s d fresh now suspicious_events findings db =
    elim (connected_groups s suspicious_events) [
      | none ↦ err (exception "the search of the groups has run out of fuel")
      | some groups ↦ upsert_groups s d fresh now findings groups db.incidents db
    ]
