-- ===== src/Incidents/Keeps.antt =====
-- correlation_engine.py: what `create_or_update_incidents` leaves of the cases that there were.
use cirt_lens.Base.{
  ℕ, ◌≤◌, ◌≡◌, refl, subst, String, true, Option, none, some, List, [], ltb, length, distinct, ◌∷◌,
  ◌++◌, ◌==◌, first, any, any_left, ◌∙◌, All, All-append, arith, Bool-cases, Option-cases, inl, inr,
  first_passes,
}
use cirt_lens.Config.{Settings}
use cirt_lens.Telemetry.{DetectionFinding}
use cirt_lens.Events.{Event}
use cirt_lens.Correlation.Groups.{connected_groups}
use cirt_lens.Store.{Incident, Database, Outcome, ok, err, ◌>>=◌}
use cirt_lens.Correlation.Infer.{infer_incident_type}
use cirt_lens.Incidents.Assess.{
  Digests, Assessment, assess, findings_by_event, findings_among, principal_of_events, fingerprint,
  start_of,
}
use cirt_lens.Incidents.Upsert.{
  tenant_of, ids_of, write_case, reported, upsert_found, upsert_group, flags_in, upsert_groups,
  create_or_update_incidents,
}
use cirt_lens.Incidents.Cases.{
  is_open, is_open_case, combined_events, shares_evidence, find_case, clashes, enriched, enrich,
  duplicates, kept_fingerprint, new_fingerprint, opened, open_case,
}
use cirt_lens.Incidents.Kept.{
  IsKeyed, IsTheOnly, first-IsTheOnly, AllKept, AllKept-refl, AllKept-trans, AllKept-append,
  enriched-IsKept, save-AllKept, save-IsKeyed, append-IsKeyed,
}
use cirt_lens.Incidents.Scored.{
  IsScored, All_save, enriched-IsScored, opened-IsScored, assess-bounded,
}

-- What one write of a case leaves.
pub record IsUpsert (db db' : Database) : Type 0 where
  pub cases : IsKeyed db.incidents → AllKept db.incidents db'.incidents
  pub keyed : IsKeyed db.incidents → IsKeyed db'.incidents
  pub scored : All IsScored db.incidents → All IsScored db'.incidents
  pub same_events : db'.events ≡ db.events
  pub same_findings : db'.findings ≡ db.findings
  pub same_approvals : db'.approvals ≡ db.approvals
  pub same_executions : db'.executions ≡ db.executions

pub IsUpsert-refl : (db : Database) → IsUpsert db db
IsUpsert-refl db = record {
  cases = λ k. AllKept-refl db.incidents;
  keyed = λ k. k;
  scored = λ k. k;
  same_events = refl;
  same_findings = refl;
  same_approvals = refl;
  same_executions = refl;
}

IsUpsert-trans : {a b c : Database} → IsUpsert a b → IsUpsert b c → IsUpsert a c
IsUpsert-trans {a} {b} {c} f g = record {
  cases = λ k. AllKept-trans a.incidents b.incidents c.incidents (f.cases k) (g.cases (f.keyed k));
  keyed = λ k. g.keyed (f.keyed k);
  scored = λ k. g.scored (f.scored k);
  same_events = g.same_events ∙ f.same_events;
  same_findings = g.same_findings ∙ f.same_findings;
  same_approvals = g.same_approvals ∙ f.same_approvals;
  same_executions = g.same_executions ∙ f.same_executions;
}

-- The postcondition of a run: nothing is asked of one that fails, since it is rolled back.
abbrev pub Upserts {ℓ} : {A : Type ℓ} → Database → Outcome (A × Database) → Type 0
Upserts db (ok (a, db')) = IsUpsert db db'
Upserts db (err e) = Unit

enrich-Upserts :
    (flushed : List Incident) (now : ℕ) (a : Assessment) (i : Incident) (db : Database)
    → is_open i.status ≡ true
    → (IsKeyed db.incidents → IsTheOnly i db.incidents)
    → a.risk_score ≤ 100
    → Upserts db (enrich flushed now a i db)
unfolding enrich
enrich-Upserts flushed now a i db open_status only r =
    let fp = kept_fingerprint flushed a.incident_fingerprint i db.incidents in
    elim (Bool-cases (any (duplicates fp i.id) db.incidents)) [
      | inl e ↦ rw e tt
      | inr e ↦ rw e (record {
        cases = λ k. save-AllKept i _ db.incidents (enriched-IsKept now _ a i open_status) (only k);
        keyed = λ k. save-IsKeyed _ db.incidents k;
        scored = λ k.
            All_save IsScored (enriched now fp a i) db.incidents (enriched-IsScored now fp a i r) k;
        same_events = refl;
        same_findings = refl;
        same_approvals = refl;
        same_executions = refl;
      })
    ]

open_case-Upserts :
    (d : Digests) (flushed : List Incident) (now : ℕ) (id tenant_id : String) (a : Assessment)
    (db : Database)
    → a.risk_score ≤ 100
    → Upserts db (open_case d flushed now id tenant_id a db)
unfolding open_case
open_case-Upserts d flushed now id tenant_id a db r =
    let fp = new_fingerprint d flushed tenant_id a db.incidents in
    elim (Bool-cases (any (clashes id fp) db.incidents)) [
      | inl e ↦ rw e tt
      | inr e ↦ rw e (record {
        cases = λ k. AllKept-append db.incidents (opened now id tenant_id fp a ∷ []);
        keyed = λ k. append-IsKeyed (opened now id tenant_id fp a) db.incidents k (
            any_left (λ (j : Incident). j.id == id) (λ (j : Incident). j.incident_fingerprint == fp)
              db.incidents e);
        scored = λ k.
            All-append IsScored db.incidents (opened now id tenant_id fp a ∷ []) k
              (opened-IsScored now id tenant_id fp a r, tt);
        same_events = refl;
        same_findings = refl;
        same_approvals = refl;
        same_executions = refl;
      })
    ]

-- Rules for the chains of steps.
pure-Upserts {ℓ κ} :
    {A : Type ℓ} {B : Type κ} (db : Database) (m : Outcome A) (f : A → Outcome (B × Database))
    → ((a : A) → m ≡ ok a → Upserts db (f a))
    → Upserts db (m >>= f)
pure-Upserts db (ok a) f h = h a refl
pure-Upserts db (err e) f h = tt

chain-Upserts {ℓ κ} :
    {A : Type ℓ} {B : Type κ} (db : Database) (m : Outcome (A × Database))
    (f : A × Database → Outcome (B × Database))
    → Upserts db m
    → ((a : A) (db' : Database) → Upserts db' (f (a, db')))
    → Upserts db (m >>= f)
chain-Upserts db (err e) f h k = tt
chain-Upserts {B} db (ok (a, db')) f h k = after (f (a, db')) (k a db')
  where
    after : (r : Outcome (B × Database)) → Upserts db' r → Upserts db r
    after (err e) g = tt
    after (ok (b, db'')) g = IsUpsert-trans h g

-- What is known of a case that was found.
abbrev IsFound : List Incident → Option Incident → Type 0
IsFound rows none = Unit
IsFound rows (some i) = (is_open i.status ≡ true) × (IsKeyed rows → IsTheOnly i rows)

find_case-IsFound :
    (flushed : List Incident) (tenant_id fp : String) (ids : List String) (rows : List Incident)
    → IsFound rows (find_case flushed tenant_id fp ids rows)
unfolding find_case
find_case-IsFound flushed tenant_id fp ids rows =
    elim (Option-cases (first (is_open_case flushed tenant_id fp) rows)) [
      | inr (i, e) ↦
          rw (e, find_case)
            (
              ground (arith, first_passes (is_open_case flushed tenant_id fp) rows i e),
              λ k. first-IsTheOnly (is_open_case flushed tenant_id fp) i rows k e,
            )
      | inl e ↦ elim (Option-cases (first (shares_evidence tenant_id ids) rows)) [
        | inl f ↦ rw (e, f, find_case) tt
        | inr (i, f) ↦
            rw (e, f, find_case)
              (
                ground (arith, first_passes (shares_evidence tenant_id ids) rows i f),
                λ k. first-IsTheOnly (shares_evidence tenant_id ids) i rows k f,
              )
      ]
    ]

module _ (s : Settings) (d : Digests) (fresh : ℕ → String) (now : ℕ)
    (findings : List DetectionFinding) where
  write_case-Upserts :
      (group : List Event) (found : Option Incident) (flushed : List Incident) (db : Database)
      → IsFound db.incidents found
      → Upserts db (write_case s d fresh now findings group found flushed db)
  unfolding write_case
  write_case-Upserts group none flushed db h =
      let tenant = tenant_of group in
      let found = findings_by_event findings (ids_of group) in
      pure-Upserts db (assess s d tenant found group)
        (λ a. open_case d flushed now (fresh (length db.incidents)) tenant a db)
        (λ a e.
          open_case-Upserts d flushed now (fresh (length db.incidents)) tenant a db
            (assess-bounded s d tenant found group a e))
  write_case-Upserts group (some i) flushed db (h, k) =
      let events =
        combined_events (tenant_of group) (i.event_ids ++ ids_of group) db.events group in
      let found = findings_among db.findings (ids_of events) in
      pure-Upserts db (assess s d (tenant_of group) found events) (λ a. enrich flushed now a i db)
        (λ a e.
          enrich-Upserts flushed now a i db h k
            (assess-bounded s d (tenant_of group) found events a e))

  upsert_found-Upserts :
      (flags : List String) (group : List Event) (flushed : List Incident) (db : Database)
      → Upserts db (upsert_found s d fresh now findings flags group flushed db)
  unfolding upsert_found
  upsert_found-Upserts flags group flushed db =
      let kind = (infer_incident_type flags).incident_type in
      let fp =
        λ (principal : String). fingerprint s d (tenant_of group) kind principal (start_of group) in
      let found = λ (principal : String).
        find_case flushed (tenant_of group) (fp principal) (ids_of group) db.incidents in
      pure-Upserts db (principal_of_events group) _ (λ principal e.
        chain-Upserts db (write_case s d fresh now findings group (found principal) flushed db)
          reported
          (write_case-Upserts group (found principal) flushed db (
            find_case-IsFound flushed (tenant_of group) (fp principal) (ids_of group) db.incidents))
          (λ i db'. IsUpsert-refl db'))

  upsert_group-Upserts :
      (group : List Event) (flushed : List Incident) (db : Database)
      → Upserts db (upsert_group s d fresh now findings group flushed db)
  unfolding upsert_group
  upsert_group-Upserts group flushed db =
      elim (Bool-cases (ltb (length (distinct (flags_in findings group))) 2)) [
        | inl e ↦ rw e (IsUpsert-refl db)
        | inr e ↦ rw e (upsert_found-Upserts (flags_in findings group) group flushed db)
      ]

  upsert_groups-Upserts :
      (groups : List (List Event)) (flushed : List Incident) (db : Database)
      → Upserts db (upsert_groups s d fresh now findings groups flushed db)
  unfolding upsert_groups
  upsert_groups-Upserts [] flushed db = IsUpsert-refl db
  upsert_groups-Upserts (group ∷ groups) flushed db =
      chain-Upserts db _ _ (upsert_group-Upserts group flushed db) (λ r db'.
        chain-Upserts db' _ _ (upsert_groups-Upserts groups r.1 db')
          (λ is db''. IsUpsert-refl db''))

-- When a run over events and findings succeeds, whatever the database: if the cases on file have
-- distinct ids, each keeps its place, id, tenant, status, disposition, analyst and times of creation
-- and triage, a contained or resolved case is untouched, and the ids stay distinct; if each case has
-- a score of at most 100 with its severity, and a residual score of at most that, each still has;
-- events, findings, approvals and connector executions are as they were.
pub create_or_update_incidents-IsUpsert :
    (s : Settings) (d : Digests) (fresh : ℕ → String) (now : ℕ) (events : List Event)
    (findings : List DetectionFinding) (db : Database) (cases : List Incident) (db' : Database)
    → create_or_update_incidents s d fresh now events findings db ≡ ok (cases, db')
    → IsUpsert db db'
unfolding create_or_update_incidents
create_or_update_incidents-IsUpsert s d fresh now events findings db cases db' e =
    subst (λ r. Upserts db r) e run
  where
    run : Upserts db (create_or_update_incidents s d fresh now events findings db)
    run = elim (Option-cases (connected_groups s events)) [
      | inl f ↦ rw (f, create_or_update_incidents) tt
      | inr (groups, f) ↦
          rw (f, create_or_update_incidents)
            (upsert_groups-Upserts s d fresh now findings groups db.incidents db)
    ]
