-- ===== src/Pipeline/Annotated.antt =====
-- backend/app/services/pipeline.py: the score and the flags of an event are those of its findings.
use cirt_lens.Base.{
  ◌≡◌, refl, sym, ◌∙◌, subst, String, Bool, false, List, [], ◌∷◌, ◌++◌, ◌==◌, any, keep, All,
  All-append, Bool-cases, inl, inr, arith,
}
use cirt_lens.Telemetry.{TelemetryInput, raw_id, DetectionFinding}
use cirt_lens.Events.{Event}
use cirt_lens.Store.{Incident, Database, Outcome, ok, err, ◌>>=◌}
use cirt_lens.Incidents.Counting.{sorted_set}
use cirt_lens.Pipeline.Process.{
  new_events, is_repeated, store_events, same_key, record_findings, findings_on, annotate,
  annotate_affected, Processed, Environment, batch_findings, process, committed,
  process_raw_telemetry,
}
use cirt_lens.Pipeline.History.{normalize}
use cirt_lens.Pipeline.Stored.{has_event, is_affected, correlate_if-rows, batch_rows}

-- Every stored event has the flags and the capped total of the findings on file for it.
abbrev pub IsAnnotated : Database → Type 0
IsAnnotated db = All (λ e. e ≡ annotate db.findings e) db.events

-- No finding is about an event that is not stored, which no foreign key of the table asks.
abbrev pub HasNoOrphans : Database → Type 0
HasNoOrphans db = (id : String) → has_event id db.events ≡ false → findings_on db.findings id ≡ []

keep-append_one {ℓ} :
    {A : Type ℓ} (p : A → Bool) (xs : List A) (y : A)
    → p y ≡ false
    → keep p (xs ++ y ∷ []) ≡ keep p xs
keep-append_one p [] y h = rw h refl
keep-append_one p (x ∷ xs) y h = rw (keep-append_one p xs y h) refl

findings_on-record_findings :
    (fs rows : List DetectionFinding) (e : Event)
    → is_affected fs e ≡ false
    → findings_on (record_findings fs rows) e.id ≡ findings_on rows e.id
unfolding record_findings
findings_on-record_findings [] rows e h = refl
findings_on-record_findings (f ∷ fs) rows e h = elim (Bool-cases (any (same_key f) rows)) [
  | inl t ↦ rw t (findings_on-record_findings fs rows e (ground arith))
  | inr t ↦
      rw (t, findings_on-record_findings fs (rows ++ f ∷ []) e (ground arith))
        (keep-append_one (λ (g : DetectionFinding). g.event_id == e.id) rows f (ground arith))
]

annotate-same :
    (rows rows' : List DetectionFinding) (e : Event)
    → findings_on rows' e.id ≡ findings_on rows e.id
    → annotate rows' e ≡ annotate rows e
unfolding annotate
annotate-same rows rows' e h = rw h refl

annotate_again :
    (rows : List DetectionFinding) (e : Event) → annotate rows e ≡ annotate rows (annotate rows e)
unfolding annotate
annotate_again rows e = refl

annotate_affected-All :
    (fs rows : List DetectionFinding) (es : List Event)
    → All (λ e. e ≡ annotate rows e) es
    → All
        (λ e. e ≡ annotate (record_findings fs rows) e)
        (annotate_affected fs (record_findings fs rows) es)
unfolding annotate_affected
annotate_affected-All fs rows [] h = tt
annotate_affected-All fs rows (e ∷ es) (k, h) = elim (Bool-cases (is_affected fs e)) [
  | inl t ↦ rw t (annotate_again (record_findings fs rows) e, annotate_affected-All fs rows es h)
  | inr t ↦ rw t (
    k
        ∙ sym (
            annotate-same rows (record_findings fs rows) e
              (findings_on-record_findings fs rows e t)),
    annotate_affected-All fs rows es h,
  )
]

annotate-normalize :
    (rows : List DetectionFinding) (tenant_id : String) (raw : TelemetryInput)
    → findings_on rows (raw_id raw) ≡ []
    → normalize tenant_id raw ≡ annotate rows (normalize tenant_id raw)
unfolding annotate normalize sorted_set
annotate-normalize rows tenant_id raw h = rw h refl

new_events-All :
    (rows : List DetectionFinding) (tenant_id : String) (events : List Event)
    (raws : List TelemetryInput)
    → ((id : String) → has_event id events ≡ false → findings_on rows id ≡ [])
    → All (λ e. e ≡ annotate rows e) (new_events tenant_id events raws)
new_events-All rows tenant_id events [] h = tt
new_events-All rows tenant_id events (raw ∷ raws) h =
    elim (Bool-cases (has_event (raw_id raw) events)) [
      | inl t ↦ rw t (new_events-All rows tenant_id events raws h)
      | inr t ↦ rw t (
        annotate-normalize rows tenant_id raw (h (raw_id raw) t),
        new_events-All rows tenant_id events raws h,
      )
    ]

-- The outcome of a run, as far as its annotations go.
abbrev Annotates {ℓ} : {A : Type ℓ} → Outcome (A × Database) → Type 0
Annotates (ok (a, db)) = IsAnnotated db
Annotates (err p) = Unit

finish-Annotates {ℓ} :
    {A : Type ℓ} (f : List Incident → A) (db : Database) (m : Outcome (List Incident × Database))
    → IsAnnotated db
    → ((cases : List Incident) (db' : Database)
        → m ≡ ok (cases, db')
        → (db'.events ≡ db.events) × (db'.findings ≡ db.findings))
    → Annotates (m >>= (λ (x : List Incident × Database). ok (f x.0, x.1)))
finish-Annotates f db (ok (cases, db')) k h =
    let (es, fs) = h cases db' refl in
    subst (λ x. All (λ e. e ≡ annotate x e) db'.events) (sym fs)
      (subst (λ x. All (λ e. e ≡ annotate db.findings e) x) (sym es) k)
finish-Annotates f db (err p) k h = tt

process-Annotates :
    (v : Environment) (correlate : Bool) (tenant_id : String) (raws : List TelemetryInput)
    (db : Database)
    → IsAnnotated db
    → HasNoOrphans db
    → Annotates (process v correlate tenant_id raws db)
unfolding process store_events
process-Annotates v correlate tenant_id [] db k h = k
process-Annotates v correlate tenant_id (raw ∷ raws) db k h =
    let added = new_events tenant_id db.events (raw ∷ raws) in
    let events = db.events ++ added in
    let fs = batch_findings v tenant_id (raw ∷ raws) events in
    elim (Bool-cases (is_repeated added)) [
      | inl e ↦ rw e tt
      | inr e ↦ rw e (
          finish-Annotates _ (batch_rows fs events db) _
            (annotate_affected-All fs db.findings events (
              All-append (λ e. e ≡ annotate db.findings e) db.events added k
                (new_events-All db.findings tenant_id db.events (raw ∷ raws) h)))
            (correlate_if-rows v correlate _ _ (batch_rows fs events db)))
    ]

-- The invariant of the events' scores: where every stored event has the flags and the capped total
-- of the findings on file for it, and each finding is about a stored event, every stored event still
-- has those of its findings after a run, whatever the batch and whether or not the run succeeds.
pub process_raw_telemetry-IsAnnotated :
    (v : Environment) (correlate : Bool) (tenant_id : String) (raws : List TelemetryInput)
    (db : Database)
    → IsAnnotated db
    → HasNoOrphans db
    → IsAnnotated (process_raw_telemetry v correlate tenant_id raws db).1
unfolding process_raw_telemetry
process_raw_telemetry-IsAnnotated v correlate tenant_id raws db k h =
    committed-IsAnnotated (process v correlate tenant_id raws db)
      (process-Annotates v correlate tenant_id raws db k h)
  where
    committed-IsAnnotated :
        (m : Outcome (Processed × Database)) → Annotates m → IsAnnotated (committed m db).1
    committed-IsAnnotated (ok (r, db')) p = p
    committed-IsAnnotated (err e) p = k
