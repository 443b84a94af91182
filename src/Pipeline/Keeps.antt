-- ===== src/Pipeline/Keeps.antt =====
-- backend/app/services/pipeline.py: what a run of the pipeline leaves of what was stored.
use cirt_lens.Base.{
  ◌≡◌, refl, sym, subst, ◌∙◌, String, Bool, true, false, List, [], ◌∷◌, ◌++◌, Bool-cases, inl, inr,
}
use mathlib.Core.List.{append-nil}
use cirt_lens.Telemetry.{TelemetryInput, DetectionFinding}
use cirt_lens.Events.{Event}
use cirt_lens.Store.{Database, Outcome, Outcome-cases, ok, err, ◌>>=◌}
use cirt_lens.Incidents.Upsert.{create_or_update_incidents}
use cirt_lens.Incidents.Keeps.{IsUpsert, create_or_update_incidents-IsUpsert}
use cirt_lens.Incidents.Kept.{IsKeyed, AllKept, AllKept-refl}
use cirt_lens.Pipeline.Process.{
  new_events, is_repeated, store_events, record_findings, annotate_affected, Processed, Environment,
  batch_findings, correlate_if, process, committed, process_raw_telemetry,
}
use cirt_lens.Pipeline.Kept.{
  AllSame, AllSame-refl, annotate_affected-AllSame, HasUniqueKeys, record_findings-HasUniqueKeys,
  Extends, record_findings-Extends,
}

-- What a run leaves.
pub record IsProcessed (db db' : Database) : Type 0 where
  pub events : AllSame db.events db'.events
  pub findings : Extends db.findings db'.findings
  pub unique : HasUniqueKeys db.findings → HasUniqueKeys db'.findings
  pub cases : IsKeyed db.incidents → AllKept db.incidents db'.incidents
  pub keyed : IsKeyed db.incidents → IsKeyed db'.incidents
  pub same_approvals : db'.approvals ≡ db.approvals
  pub same_executions : db'.executions ≡ db.executions

IsProcessed-refl : (db : Database) → IsProcessed db db
IsProcessed-refl db = record {
  events = AllSame-refl db.events;
  findings = ([], sym (append-nil db.findings));
  unique = λ k. k;
  cases = λ k. AllKept-refl db.incidents;
  keyed = λ k. k;
  same_approvals = refl;
  same_executions = refl;
}

abbrev Processes {ℓ} : {A : Type ℓ} → Database → Outcome (A × Database) → Type 0
Processes db (ok (a, db')) = IsProcessed db db'
Processes db (err e) = Unit

-- A correlation keeps what the writes before it have kept.
upsert-IsProcessed :
    {db a b : Database}
    → IsProcessed db a
    → a.incidents ≡ db.incidents
    → IsUpsert a b
    → IsProcessed db b
upsert-IsProcessed {db} {a} {b} p h u = record {
  events = subst (λ x. AllSame db.events x) (sym u.same_events) p.events;
  findings = subst (λ x. Extends db.findings x) (sym u.same_findings) p.findings;
  unique = λ k. subst HasUniqueKeys (sym u.same_findings) (p.unique k);
  cases = λ k. subst (λ x. AllKept x b.incidents) h (u.cases (subst IsKeyed (sym h) k));
  keyed = λ k. u.keyed (subst IsKeyed (sym h) k);
  same_approvals = u.same_approvals ∙ p.same_approvals;
  same_executions = u.same_executions ∙ p.same_executions;
}

correlate_if-Processes :
    (v : Environment) (correlate : Bool) (risky : List Event) (found : List DetectionFinding)
    (db db' : Database)
    → IsProcessed db db'
    → db'.incidents ≡ db.incidents
    → Processes db (correlate_if correlate v risky found db')
correlate_if-Processes v false risky found db db' p h = p
correlate_if-Processes v true risky found db db' p h =
    let m = create_or_update_incidents v.settings v.digests v.fresh v.now risky found db' in
    elim (Outcome-cases m) [
      | inl ((cases, db''), e) ↦ rw e (
          upsert-IsProcessed p h (
            create_or_update_incidents-IsUpsert v.settings v.digests v.fresh v.now risky found db'
              cases db'' e))
      | inr (e, f) ↦ rw f tt
    ]

-- The rows of the batch, written.
written : List DetectionFinding → List Event → Database → Database
written batch events db =
    let rows = record_findings batch db.findings in
    record db { events = annotate_affected batch rows events; findings = rows }

written-IsProcessed :
    (batch : List DetectionFinding) (added : List Event) (db : Database)
    → IsProcessed db (written batch (db.events ++ added) db)
unfolding written
written-IsProcessed batch added db = record {
  events = annotate_affected-AllSame batch (record_findings batch db.findings) db.events added;
  findings = record_findings-Extends batch db.findings;
  unique = record_findings-HasUniqueKeys batch db.findings;
  cases = λ k. AllKept-refl db.incidents;
  keyed = λ k. k;
  same_approvals = refl;
  same_executions = refl;
}

last-Processes {ℓ κ} :
    {A : Type ℓ} {B : Type κ} (db : Database) (m : Outcome (A × Database)) (f : A → B)
    → Processes db m
    → Processes db (m >>= (λ (x : A × Database). ok (f x.0, x.1)))
last-Processes db (ok (a, db')) f h = h
last-Processes db (err e) f h = tt

process-Processes :
    (v : Environment) (correlate : Bool) (tenant_id : String) (raws : List TelemetryInput)
    (db : Database)
    → Processes db (process v correlate tenant_id raws db)
unfolding process store_events written
process-Processes v correlate tenant_id [] db = IsProcessed-refl db
process-Processes v correlate tenant_id (raw ∷ raws) db =
    let added = new_events tenant_id db.events (raw ∷ raws) in
    elim (Bool-cases (is_repeated added)) [
      | inl e ↦ rw e tt
      | inr e ↦ rw e (
          last-Processes db _ _ (
            correlate_if-Processes v correlate _ _ db
              (written (batch_findings v tenant_id (raw ∷ raws) (db.events ++ added))
                (db.events ++ added) db)
              (written-IsProcessed (batch_findings v tenant_id (raw ∷ raws) (db.events ++ added))
                added db)
              refl))
    ]

-- Whatever a run of the pipeline comes to, and for any batch: every stored event is still in its
-- place with all but its score and flags, the findings are only added to and stay unique by event,
-- rule, version and flag, and, if the cases on file have distinct ids, each keeps its place, id,
-- tenant, status, disposition, analyst and times of creation and triage, with a contained or
-- resolved one untouched, and the ids stay distinct; approvals and connector executions stay.
pub process_raw_telemetry-IsProcessed :
    (v : Environment) (correlate : Bool) (tenant_id : String) (raws : List TelemetryInput)
    (db : Database)
    → IsProcessed db (process_raw_telemetry v correlate tenant_id raws db).1
unfolding process_raw_telemetry
process_raw_telemetry-IsProcessed v correlate tenant_id raws db =
    committed-IsProcessed (process v correlate tenant_id raws db)
      (process-Processes v correlate tenant_id raws db)
  where
    committed-IsProcessed :
        (m : Outcome (Processed × Database)) → Processes db m → IsProcessed db (committed m db).1
    committed-IsProcessed (ok (r, db')) p = p
    committed-IsProcessed (err e) p = IsProcessed-refl db
