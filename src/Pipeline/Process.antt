-- ===== src/Pipeline/Process.antt =====
-- backend/app/services/pipeline.py: `process_raw_telemetry`. The findings inside the `data` column,
-- which nothing reads back, are left out. The session does not flush by itself.
use cirt_lens.Base.{
  ℕ, ◌+◌, ◌-◌, min, String, Bool, true, false, ◌&&◌, ◌||◌, Option, none, some, List, [], ◌∷◌, ◌++◌,
  map, ◌==◌, leb, ltb, if◌then◌else◌, first, any, keep, take, sum_by, sort_by, put_all_by,
}
use cirt_lens.Config.{Settings, minutes}
use cirt_lens.Telemetry.{TelemetryInput, raw_id, raw_timestamp, DetectionFinding}
use cirt_lens.Events.{Event}
use cirt_lens.Detection.Devices.{Baseline}
use cirt_lens.Detection.Run.{run_detection}
use cirt_lens.Store.{Incident, Database, Outcome, ok, err, integrity_error, ◌>>=◌}
use cirt_lens.Incidents.Counting.{sorted_set}
use cirt_lens.Incidents.Assess.{Digests, findings_among}
use cirt_lens.Incidents.Upsert.{ids_of, create_or_update_incidents}
use cirt_lens.Pipeline.History.{normalize, earliest, newest, historical_context}

-- `db.get(Event, raw.id)`, whatever the tenant
abbrev pub stored_event : List Event → String → Option Event
stored_event events id = first (λ (e : Event). e.id == id) events

-- The events that are added, and those that the caller gets, which are the objects that are
-- annotated later.
abbrev pub new_events : String → List Event → List TelemetryInput → List Event
new_events tenant_id events [] = []
new_events tenant_id events (raw ∷ raws) =
    let rest = new_events tenant_id events raws in
    if any (λ (e : Event). e.id == raw_id raw) events then rest else normalize tenant_id raw ∷ rest

abbrev pub or_new : Option Event → Event → Event
or_new none e = e
or_new (some x) e = x

abbrev pub stored_events : String → List Event → List TelemetryInput → List Event
stored_events tenant_id events raws =
    map (λ raw. or_new (stored_event events (raw_id raw)) (normalize tenant_id raw)) raws

abbrev pub is_repeated : List Event → Bool
is_repeated [] = false
is_repeated (e ∷ es) = any (λ (x : Event). x.id == e.id) es || is_repeated es

-- The flush fails where a new id occurs twice.
unfoldable pub store_events : String → List TelemetryInput → List Event → Outcome (List Event)
unfolding normalize
store_events tenant_id raws events =
    let added = new_events tenant_id events raws in
    if is_repeated added then err integrity_error else ok (events ++ added)

-- `(event_id, rule_id, rule_version, flag)`, the unique constraint of the findings
abbrev pub same_key : DetectionFinding → DetectionFinding → Bool
same_key f g =
    f.event_id == g.event_id
    && (f.rule_id == g.rule_id && (f.rule_version == g.rule_version && f.flag == g.flag))

unfoldable pub record_findings :
    List DetectionFinding → List DetectionFinding → List DetectionFinding
record_findings [] rows = rows
record_findings (f ∷ fs) rows =
    record_findings fs (if any (same_key f) rows then rows else rows ++ f ∷ [])

abbrev pub findings_on : List DetectionFinding → String → List DetectionFinding
findings_on rows id = keep (λ (f : DetectionFinding). f.event_id == id) rows

-- The score and the flags of an event from its findings.
unfoldable pub annotate : List DetectionFinding → Event → Event
annotate rows e = record e {
  risk_flags = sorted_set (map (λ (f : DetectionFinding). f.flag) (findings_on rows e.id));
  risk_score =
      min 100 (sum_by (λ (f : DetectionFinding). f.risk_contribution) (findings_on rows e.id));
}

-- `for event in affected`: the events of the batch's findings, whatever their tenant.
unfoldable pub annotate_affected :
    List DetectionFinding → List DetectionFinding → List Event → List Event
unfolding annotate
annotate_affected batch rows [] = []
annotate_affected batch rows (e ∷ es) =
    (if any (λ (f : DetectionFinding). f.event_id == e.id) batch then annotate rows e else e)
    ∷ annotate_affected batch rows es

abbrev pub is_candidate : String → ℕ → ℕ → Event → Bool
is_candidate tenant_id oldest latest e =
    e.tenant_id == tenant_id
    && (leb oldest e.timestamp && (leb e.timestamp latest && ltb 0 e.risk_score))

-- The risky events of the tenant around the batch.
unfoldable pub candidates :
    Settings → String → TelemetryInput → List TelemetryInput → List Event → List Event
candidates s tenant_id raw raws events =
    let window = minutes s.correlation_window_minutes in
    take 1000 (
      keep
        (is_candidate tenant_id (earliest (raw_timestamp raw) raws - window)
          (newest (raw_timestamp raw) raws + window))
        events)

pub record Processed : Type 0 where
  pub incidents : List Incident
  pub findings : List DetectionFinding
  pub stored : List Event

abbrev pub nothing_processed : Processed
nothing_processed = record { incidents = []; findings = []; stored = [] }

-- What the pipeline reads besides the database.
pub record Environment : Type 0 where
  pub settings : Settings
  pub digests : Digests
  pub fresh : ℕ → String
  pub now : ℕ
  pub mentions : Event → String → Bool
  pub baseline_devices : Baseline

-- The findings of the batch, with its context.
abbrev pub batch_findings :
    Environment → String → List TelemetryInput → List Event → List DetectionFinding
batch_findings v tenant_id raws events =
    let context = historical_context v.mentions v.settings tenant_id raws events in
    run_detection v.settings (sort_by raw_timestamp (put_all_by raw_id (context ++ raws) []))
      v.baseline_devices

-- Correlation, where the caller asks for it.
abbrev pub correlate_if :
    Bool
    → Environment
    → List Event
    → List DetectionFinding
    → Database
    → Outcome (List Incident × Database)
correlate_if false v events findings db = ok ([], db)
correlate_if true v events findings db =
    create_or_update_incidents v.settings v.digests v.fresh v.now events findings db

-- `_process_raw_telemetry`
unfoldable pub process :
    Environment → Bool → String → List TelemetryInput → Database → Outcome (Processed × Database)
unfolding historical_context store_events record_findings annotate_affected candidates
process v correlate tenant_id [] db = ok (nothing_processed, db)
process v correlate tenant_id (raw ∷ raws) db = do
  events ← store_events tenant_id (raw ∷ raws) db.events
  let findings = batch_findings v tenant_id (raw ∷ raws) events
  let rows = record_findings findings db.findings
  let annotated = annotate_affected findings rows events
  let risky = candidates v.settings tenant_id raw raws annotated
  let db' = record db { events = annotated; findings = rows }
  (cases, db'') ← correlate_if correlate v risky (findings_among rows (ids_of risky)) db'
  let result : Processed = record {
    incidents = cases;
    findings = findings;
    stored = stored_events tenant_id annotated (raw ∷ raws);
  }
  ok (result, db'')

-- A run that raises is rolled back.
abbrev pub committed : Outcome (Processed × Database) → Database → Outcome Processed × Database
committed (ok (r, db')) db = (ok r, db')
committed (err e) db = (err e, db)

unfoldable pub process_raw_telemetry :
    Environment → Bool → String → List TelemetryInput → Database → Outcome Processed × Database
unfolding process
process_raw_telemetry v correlate tenant_id raws db =
    committed (process v correlate tenant_id raws db) db
