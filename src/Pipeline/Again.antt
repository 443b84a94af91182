-- ===== src/Pipeline/Again.antt =====
-- backend/app/services/pipeline.py: a batch that comes again, and when a run succeeds.
use cirt_lens.Base.{
  ◌≡◌, refl, ap, ◌∙◌, String, Bool, true, false, List, [], ◌∷◌, map, ◌==◌, ◌||◌, Bool-cases, inl,
  inr, eq_refl, contains,
}
use cirt_lens.Base.{subst, eq_iff, sym, ap, ◌⊎◌, inl, inr, Bool-cases, false, true, ◌||◌, ◌==◌}
use cirt_lens.Pipeline.History.{normalize}
use mathlib.Core.List.{append-nil}
use cirt_lens.Telemetry.{TelemetryInput, raw_id, DetectionFinding}
use cirt_lens.Events.{Event}
use cirt_lens.Store.{Incident, Database, integrity_error, result, Outcome, ok, err, ◌>>=◌}
use cirt_lens.Incidents.Upsert.{ids_of}
use cirt_lens.Pipeline.Process.{
  new_events, is_repeated, store_events, record_findings, annotate, annotate_affected, Processed,
  Environment, batch_findings, process, committed, process_raw_telemetry,
}
use cirt_lens.Pipeline.Stored.{
  has_event, is_affected, correlate_if-rows, batch_rows, process_raw_telemetry-IsStored,
}

new_events_again :
    (tenant_id : String) (events : List Event) (raws : List TelemetryInput)
    → ((id : String) → contains (map raw_id raws) id ≡ true → has_event id events ≡ true)
    → new_events tenant_id events raws ≡ []
new_events_again tenant_id events [] h = refl
new_events_again tenant_id events (raw ∷ raws) h =
    let here = h (raw_id raw) (rw (eq_refl (raw_id raw)) refl) in
    rw here (new_events_again tenant_id events raws (λ id k. h id (either (raw_id raw == id) _ k)))
  where
    either : (a b : Bool) → b ≡ true → (a || b) ≡ true
    either true b e = refl
    either false b e = e

ids-annotate_affected :
    (batch rows : List DetectionFinding) (es : List Event)
    → ids_of (annotate_affected batch rows es) ≡ ids_of es
unfolding annotate_affected annotate
ids-annotate_affected batch rows [] = refl
ids-annotate_affected batch rows (e ∷ es) = elim (Bool-cases (is_affected batch e)) [
  | inl t ↦ rw (t, ids-annotate_affected batch rows es) refl
  | inr t ↦ rw (t, ids-annotate_affected batch rows es) refl
]

-- The ids of the stored events after a run.
abbrev HasIds {ℓ} : {A : Type ℓ} → List String → Outcome (A × Database) → Type 0
HasIds ids (ok (a, db)) = ids_of db.events ≡ ids
HasIds ids (err e) = Unit

finish-HasIds {ℓ} :
    {A : Type ℓ} (f : List Incident → A) (db : Database) (m : Outcome (List Incident × Database))
    → ((cases : List Incident) (db' : Database)
        → m ≡ ok (cases, db')
        → (db'.events ≡ db.events) × (db'.findings ≡ db.findings))
    → HasIds (ids_of db.events) (m >>= (λ (x : List Incident × Database). ok (f x.0, x.1)))
finish-HasIds f db (ok (cases, db')) h = ap ids_of (h cases db' refl).0
finish-HasIds f db (err e) h = tt

relabel-HasIds {ℓ} :
    {A : Type ℓ} (ids ids' : List String) (m : Outcome (A × Database))
    → ids ≡ ids'
    → HasIds ids m
    → HasIds ids' m
relabel-HasIds ids ids' (ok (a, db)) e h = h ∙ e
relabel-HasIds ids ids' (err p) e h = tt

process-HasIds :
    (v : Environment) (correlate : Bool) (tenant_id : String) (raws : List TelemetryInput)
    (db : Database)
    → new_events tenant_id db.events raws ≡ []
    → HasIds (ids_of db.events) (process v correlate tenant_id raws db)
unfolding process store_events
process-HasIds v correlate tenant_id [] db h = refl
process-HasIds v correlate tenant_id (raw ∷ raws) db h =
    let fs = batch_findings v tenant_id (raw ∷ raws) db.events in
    let rows = batch_rows fs db.events db in
    rw (h, append-nil db.events)
      (relabel-HasIds _ _ _ (ids-annotate_affected fs (record_findings fs db.findings) db.events)
        (finish-HasIds _ rows _ (correlate_if-rows v correlate _ _ rows)))

-- A batch that was stored, by a run that succeeded, is not stored again: when it comes back, in
-- whatever tenant and with whatever settings, the stored events are those of the same ids, in the
-- same order, whether that run succeeds or not.
pub process_raw_telemetry_again :
    (v : Environment) (correlate : Bool) (tenant_id : String) (raws : List TelemetryInput)
    (db : Database) (r : Processed) (db' : Database)
    → process_raw_telemetry v correlate tenant_id raws db ≡ (ok r, db')
    → (v' : Environment) (correlate' : Bool) (tenant_id' : String)
    → ids_of (process_raw_telemetry v' correlate' tenant_id' raws db').1.events ≡ ids_of db'.events
unfolding process_raw_telemetry
process_raw_telemetry_again v correlate tenant_id raws db r db' e v' correlate' tenant_id' =
    let stored = process_raw_telemetry-IsStored v correlate tenant_id raws db r db' e in
    committed-ids (process v' correlate' tenant_id' raws db') (
      process-HasIds v' correlate' tenant_id' raws db'
        (new_events_again tenant_id' db'.events raws stored.events))
  where
    committed-ids :
        (m : Outcome (Processed × Database))
        → HasIds (ids_of db'.events) m
        → ids_of (committed m db').1.events ≡ ids_of db'.events
    committed-ids (ok (q, a)) h = h
    committed-ids (err p) h = refl

-- Some event of the batch whose id is not on file has the id of a later one.
abbrev pub IsAmbiguous : List Event → List TelemetryInput → Type 0
IsAmbiguous events [] = ⊥
IsAmbiguous events (raw ∷ raws) =
    ((has_event (raw_id raw) events ≡ false) × (contains (map raw_id raws) (raw_id raw) ≡ true))
    ⊎ IsAmbiguous events raws

has_event-new_events :
    (tenant_id : String) (events : List Event) (raws : List TelemetryInput) (id : String)
    → has_event id events ≡ false
    → has_event id (new_events tenant_id events raws) ≡ contains (map raw_id raws) id
unfolding normalize
has_event-new_events tenant_id events [] id h = refl
has_event-new_events tenant_id events (raw ∷ raws) id h =
    elim (Bool-cases (has_event (raw_id raw) events)) [
      | inl t ↦ elim (Bool-cases (raw_id raw == id)) [
        | inl e ↦
            let known = subst (λ x. has_event x events ≡ true) ((eq_iff (raw_id raw) id).0 e) t in
            cc (known, h)
        | inr e ↦ rw (t, e) (has_event-new_events tenant_id events raws id h)
      ]
      | inr t ↦ rw (t, has_event-new_events tenant_id events raws id h) refl
    ]

id-normalize :
    (tenant_id : String) (raw : TelemetryInput) → (normalize tenant_id raw).id ≡ raw_id raw
unfolding normalize
id-normalize tenant_id raw = refl

repeats_head :
    (tenant_id : String) (events : List Event) (raw : TelemetryInput) (raws : List TelemetryInput)
    → has_event (raw_id raw) events ≡ false
    → is_repeated (new_events tenant_id events (raw ∷ raws))
      ≡ (contains (map raw_id raws) (raw_id raw) || is_repeated (new_events tenant_id events raws))
unfolding normalize
repeats_head tenant_id events raw raws h =
    rw (h, has_event-new_events tenant_id events raws (raw_id raw) h) refl

repeated-IsAmbiguous :
    (tenant_id : String) (events : List Event) (raws : List TelemetryInput)
    → is_repeated (new_events tenant_id events raws) ≡ true
    → IsAmbiguous events raws
repeated-IsAmbiguous tenant_id events [] h = cc
repeated-IsAmbiguous tenant_id events (raw ∷ raws) h =
    elim (Bool-cases (has_event (raw_id raw) events)) [
      | inl t ↦ inr (repeated-IsAmbiguous tenant_id events raws (rw t at h))
      | inr t ↦ elim (Bool-cases (contains (map raw_id raws) (raw_id raw))) [
        | inl c ↦ inl (t, c)
        | inr c ↦
            let same = sym (repeats_head tenant_id events raw raws t) ∙ h in
            inr (repeated-IsAmbiguous tenant_id events raws (rw c at same))
      ]
    ]

IsAmbiguous-repeated :
    (tenant_id : String) (events : List Event) (raws : List TelemetryInput)
    → IsAmbiguous events raws
    → is_repeated (new_events tenant_id events raws) ≡ true
IsAmbiguous-repeated tenant_id events [] h = elim h [ ]
IsAmbiguous-repeated tenant_id events (raw ∷ raws) (inl (t, c)) =
    repeats_head tenant_id events raw raws t ∙ rw c refl
IsAmbiguous-repeated tenant_id events (raw ∷ raws) (inr h) =
    let later = IsAmbiguous-repeated tenant_id events raws h in
    elim (Bool-cases (has_event (raw_id raw) events)) [
      | inl t ↦ rw t later
      | inr t ↦
          repeats_head tenant_id events raw raws t
          ∙ ap (λ b. contains (map raw_id raws) (raw_id raw) || b) later
          ∙ or_true (contains (map raw_id raws) (raw_id raw))
    ]
  where
    or_true : (b : Bool) → (b || true) ≡ true
    or_true true = refl
    or_true false = refl

repeated_fails :
    (v : Environment) (correlate : Bool) (tenant_id : String) (raws : List TelemetryInput)
    (db : Database)
    → is_repeated (new_events tenant_id db.events raws) ≡ true
    → process_raw_telemetry v correlate tenant_id raws db ≡ (err integrity_error, db)
unfolding process_raw_telemetry process store_events
repeated_fails v correlate tenant_id [] db h = cc
repeated_fails v correlate tenant_id (raw ∷ raws) db h = rw h refl

distinct_succeeds :
    (v : Environment) (tenant_id : String) (raws : List TelemetryInput) (db : Database)
    → is_repeated (new_events tenant_id db.events raws) ≡ false
    → (r : Processed) × (process_raw_telemetry v false tenant_id raws db).0 ≡ ok r
unfolding process_raw_telemetry process store_events
distinct_succeeds v tenant_id [] db h = result _ tt
distinct_succeeds v tenant_id (raw ∷ raws) db h = result _ (rw h tt)

pub process_raw_telemetry_outcome :
    (v : Environment) (correlate : Bool) (tenant_id : String) (raws : List TelemetryInput)
    (db : Database)
    → (IsAmbiguous db.events raws
        → process_raw_telemetry v correlate tenant_id raws db ≡ (err integrity_error, db))
      × (¬ IsAmbiguous db.events raws
          → (r : Processed) × (process_raw_telemetry v false tenant_id raws db).0 ≡ ok r)
process_raw_telemetry_outcome v correlate tenant_id raws db = (
  λ h.
      repeated_fails v correlate tenant_id raws db
        (IsAmbiguous-repeated tenant_id db.events raws h),
  λ h. elim (Bool-cases (is_repeated (new_events tenant_id db.events raws))) [
    | inl t ↦ absurd (h (repeated-IsAmbiguous tenant_id db.events raws t))
    | inr f ↦ distinct_succeeds v tenant_id raws db f
  ],
)
