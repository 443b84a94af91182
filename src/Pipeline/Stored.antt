-- ===== src/Pipeline/Stored.antt =====
-- backend/app/services/pipeline.py: what a run of the pipeline that succeeds has stored.
use cirt_lens.Base.{
  ◌≡◌, refl, sym, subst, ap, ◌∙◌, String, Bool, true, false, ◌||◌, List, [], ◌∷◌, ◌++◌, map, ◌==◌,
  if◌then◌else◌, any, any-append, All, arith, Bool-cases, inl, inr, eq_refl, eq_iff, contains,
}
use cirt_lens.Telemetry.{TelemetryInput, raw_id, DetectionFinding}
use cirt_lens.Events.{Event}
use cirt_lens.Store.{Incident, Database, Problem, Outcome, ok, err, ◌>>=◌, ok_inj}
use cirt_lens.Incidents.Keeps.{create_or_update_incidents-IsUpsert}
use cirt_lens.Pipeline.Process.{
  new_events, is_repeated, store_events, same_key, record_findings, annotate, annotate_affected,
  Processed, Environment, batch_findings, correlate_if, process, committed, process_raw_telemetry,
}
use cirt_lens.Pipeline.History.{normalize}
use cirt_lens.Pipeline.Recorded.{IsRecorded, batch-IsRecorded}
use cirt_lens.Pipeline.Kept.{Extends, record_findings-Extends}

-- An event of the id is among the events.
abbrev pub has_event : String → List Event → Bool
has_event id = any (λ (e : Event). e.id == id)

abbrev pub has_finding : DetectionFinding → List DetectionFinding → Bool
has_finding f = any (same_key f)

abbrev pub is_affected : List DetectionFinding → Event → Bool
is_affected fs e = any (λ (f : DetectionFinding). f.event_id == e.id) fs

-- What a run with its findings leaves in the database.
pub record IsStored (tenant_id : String) (before : List Event) (raws : List TelemetryInput)
    (fs : List DetectionFinding) (db : Database) : Type 0 where
  pub rows : All (IsRecorded tenant_id before db.events) raws
  pub events : (id : String) → contains (map raw_id raws) id ≡ true → has_event id db.events ≡ true
  pub recorded : All (λ f. has_finding f db.findings ≡ true) fs
  pub annotated : All (λ e. is_affected fs e ≡ true → e ≡ annotate db.findings e) db.events

new_events-covered :
    (tenant_id : String) (events : List Event) (raws : List TelemetryInput) (id : String)
    → contains (map raw_id raws) id ≡ true
    → (has_event id events || has_event id (new_events tenant_id events raws)) ≡ true
unfolding normalize
new_events-covered tenant_id events [] id h = cc
new_events-covered tenant_id events (raw ∷ raws) id h =
    elim (Bool-cases (has_event (raw_id raw) events)) [
      | inl t ↦ elim (Bool-cases (raw_id raw == id)) [
        | inl e ↦
            let same = (eq_iff (raw_id raw) id).0 e in
            rw (sym (subst (λ x. has_event (raw_id raw) events ≡ has_event x events) same refl), t)
              refl
        | inr e ↦ rw t (new_events-covered tenant_id events raws id (rw e at h))
      ]
      | inr t ↦ rw t (ground (arith, new_events-covered tenant_id events raws id))
    ]

any_id-annotate_affected :
    (batch rows : List DetectionFinding) (es : List Event) (id : String)
    → has_event id (annotate_affected batch rows es) ≡ has_event id es
unfolding annotate_affected
any_id-annotate_affected batch rows [] id = refl
any_id-annotate_affected batch rows (e ∷ es) id = elim (Bool-cases (is_affected batch e)) [
  | inl t ↦ rw (t, any_id-annotate_affected batch rows es id) refl
  | inr t ↦ rw (t, any_id-annotate_affected batch rows es id) refl
]

annotate_affected-annotated :
    (batch rows : List DetectionFinding) (es : List Event)
    → All (λ e. is_affected batch e ≡ true → e ≡ annotate rows e) (annotate_affected batch rows es)
unfolding annotate_affected
annotate_affected-annotated batch rows [] = tt
annotate_affected-annotated batch rows (e ∷ es) = elim (Bool-cases (is_affected batch e)) [
  | inl t ↦ rw t (λ k. refl, annotate_affected-annotated batch rows es)
  | inr t ↦ rw t (λ k. cc, annotate_affected-annotated batch rows es)
]

same_key_refl : (f : DetectionFinding) → same_key f f ≡ true
same_key_refl f =
    rw (eq_refl f.event_id, eq_refl f.rule_id, eq_refl f.rule_version, eq_refl f.flag) refl

Extends-has_finding :
    (f : DetectionFinding) (rows rows' : List DetectionFinding)
    → Extends rows rows'
    → has_finding f rows ≡ true
    → has_finding f rows' ≡ true
Extends-has_finding f rows rows' (added, e) h = rw (e, any-append (same_key f) rows added, h) refl

-- The rows with one finding recorded.
abbrev recorded_one : DetectionFinding → List DetectionFinding → List DetectionFinding
recorded_one f rows = if any (same_key f) rows then rows else rows ++ f ∷ []

recorded_one-has :
    (f : DetectionFinding) (rows : List DetectionFinding)
    → has_finding f (recorded_one f rows) ≡ true
recorded_one-has f rows = elim (Bool-cases (has_finding f rows)) [
  | inl e ↦ rw (e, e) refl
  | inr e ↦ rw (e, any-append (same_key f) rows (f ∷ []), e, same_key_refl f) refl
]

record_findings-recorded :
    (fs rows : List DetectionFinding) → All (λ f. has_finding f (record_findings fs rows) ≡ true) fs
unfolding record_findings
record_findings-recorded [] rows = tt
record_findings-recorded (f ∷ fs) rows = (
  Extends-has_finding f (recorded_one f rows) (record_findings fs (recorded_one f rows))
      (record_findings-Extends fs (recorded_one f rows)) (recorded_one-has f rows),
  record_findings-recorded fs (recorded_one f rows),
)

-- The events and the findings of a run that succeeds.
abbrev Stores : String → List Event → List TelemetryInput → Outcome (Processed × Database) → Type 0
Stores t before raws (ok (r, db)) = IsStored t before raws r.findings db
Stores t before raws (err e) = Unit

pub correlate_if-rows :
    (v : Environment) (correlate : Bool) (risky : List Event) (found : List DetectionFinding)
    (db : Database) (cases : List Incident) (db' : Database)
    → correlate_if correlate v risky found db ≡ ok (cases, db')
    → (db'.events ≡ db.events) × (db'.findings ≡ db.findings)
correlate_if-rows v false risky found db cases db' e =
    let same = ok_inj ([], db) (cases, db') e in
    (ap (λ x. x.1.events) (sym same), ap (λ x. x.1.findings) (sym same))
correlate_if-rows v true risky found db cases db' e =
    let u =
      create_or_update_incidents-IsUpsert v.settings v.digests v.fresh v.now risky found db cases
        db' e in
    (u.same_events, u.same_findings)

rows-IsStored :
    (t : String) (before : List Event) (raws : List TelemetryInput) (fs : List DetectionFinding)
    (a b : Database)
    → IsStored t before raws fs a
    → b.events ≡ a.events
    → b.findings ≡ a.findings
    → IsStored t before raws fs b
rows-IsStored t before raws fs a b h e f = record {
  rows = subst (λ x. All (IsRecorded t before x) raws) (sym e) h.rows;
  events = λ id k. ap (has_event id) e ∙ h.events id k;
  recorded = subst (λ x. All (λ f. has_finding f x ≡ true) fs) (sym f) h.recorded;
  annotated =
      subst (λ x. All (λ e. is_affected fs e ≡ true → e ≡ annotate x e) b.events) (sym f)
        (subst (λ x. All (λ e. is_affected fs e ≡ true → e ≡ annotate a.findings e) x) (sym e)
          h.annotated);
}

-- The rows of a batch, written.
abbrev pub batch_rows : List DetectionFinding → List Event → Database → Database
batch_rows fs events db = record db {
  events = annotate_affected fs (record_findings fs db.findings) events;
  findings = record_findings fs db.findings;
}

batch_rows-IsStored :
    (tenant_id : String) (raws : List TelemetryInput) (fs : List DetectionFinding) (db : Database)
    → IsStored tenant_id db.events raws fs
        (batch_rows fs (db.events ++ new_events tenant_id db.events raws) db)
batch_rows-IsStored tenant_id raws fs db =
    let events = db.events ++ new_events tenant_id db.events raws in
    let rows = record_findings fs db.findings in
    record {
      rows = batch-IsRecorded tenant_id db.events raws fs rows;
      events = λ id h.
          any_id-annotate_affected fs rows events id
          ∙ any-append (λ (e : Event). e.id == id) db.events (new_events tenant_id db.events raws)
          ∙ new_events-covered tenant_id db.events raws id h;
      recorded = record_findings-recorded fs db.findings;
      annotated = annotate_affected-annotated fs rows events;
    }

-- The end of a run, where correlation has given its cases.
abbrev finish :
    List DetectionFinding → List Event → List Incident × Database → Outcome (Processed × Database)
finish fs stored (cases, db) = ok (record { incidents = cases; findings = fs; stored = stored }, db)

finish-Stores :
    (t : String) (before : List Event) (raws : List TelemetryInput) (fs : List DetectionFinding)
    (stored : List Event) (db : Database) (m : Outcome (List Incident × Database))
    → IsStored t before raws fs db
    → ((cases : List Incident) (db' : Database)
        → m ≡ ok (cases, db')
        → (db'.events ≡ db.events) × (db'.findings ≡ db.findings))
    → Stores t before raws (m >>= finish fs stored)
finish-Stores t before raws fs stored db (ok (cases, db')) h k =
    rows-IsStored t before raws fs db db' h (k cases db' refl).0 (k cases db' refl).1
finish-Stores t before raws fs stored db (err e) h k = tt

unaffected :
    (rows : List DetectionFinding) (es : List Event)
    → All (λ e. is_affected [] e ≡ true → e ≡ annotate rows e) es
unaffected rows [] = tt
unaffected rows (e ∷ es) = (λ h. cc, unaffected rows es)

process-Stores :
    (v : Environment) (correlate : Bool) (tenant_id : String) (raws : List TelemetryInput)
    (db : Database)
    → Stores tenant_id db.events raws (process v correlate tenant_id raws db)
unfolding process store_events
process-Stores v correlate tenant_id [] db = record {
  rows = tt;
  events = λ id h. cc;
  recorded = tt;
  annotated = unaffected db.findings db.events;
}
process-Stores v correlate tenant_id (raw ∷ raws) db =
    let added = new_events tenant_id db.events (raw ∷ raws) in
    let events = db.events ++ added in
    let fs = batch_findings v tenant_id (raw ∷ raws) events in
    elim (Bool-cases (is_repeated added)) [
      | inl e ↦ rw e tt
      | inr e ↦ rw e (
          finish-Stores tenant_id db.events (raw ∷ raws) fs _ (batch_rows fs events db) _
            (batch_rows-IsStored tenant_id (raw ∷ raws) fs db)
            (correlate_if-rows v correlate _ _ (batch_rows fs events db)))
    ]

pub process_raw_telemetry-IsStored :
    (v : Environment) (correlate : Bool) (tenant_id : String) (raws : List TelemetryInput)
    (db : Database) (r : Processed) (db' : Database)
    → process_raw_telemetry v correlate tenant_id raws db ≡ (ok r, db')
    → IsStored tenant_id db.events raws r.findings db'
unfolding process_raw_telemetry
process_raw_telemetry-IsStored v correlate tenant_id raws db r db' e =
    committed-IsStored (process v correlate tenant_id raws db)
      (process-Stores v correlate tenant_id raws db) e
  where
    committed-IsStored :
        (m : Outcome (Processed × Database))
        → Stores tenant_id db.events raws m
        → committed m db ≡ (ok r, db')
        → IsStored tenant_id db.events raws r.findings db'
    committed-IsStored (ok (q, a)) h k =
        subst (λ x. IsStored tenant_id db.events raws x.findings db') (ok_inj q r (ap (λ x. x.0) k))
          (subst (λ x. IsStored tenant_id db.events raws q.findings x) (ap (λ x. x.1) k) h)
    committed-IsStored (err p) h k = absurd (never p (ap (λ x. x.0) k))
      where
        never : (p : Problem) → err p ≡ ok r → ⊥
        never p q = cc
