-- ===== src/Incidents/Shared.antt =====
-- correlation_engine.py: a case that is written for a group shares an event with it.
use cirt_lens.Base.{
  ℕ, ◌≡◌, refl, String, Bool, true, false, ◌&&◌, ◌||◌, Option, none, some, List, [], ◌∷◌, ◌++◌,
  ◌==◌, first, any, any-append, any-sort_by, first-any, first_passes, keep, length, put_by,
  put_all_by, contains, arith, Bool-cases, Option-cases, inl, inr, eq_iff, eq_refl, ◌∙◌, ap, subst,
}
use cirt_lens.Config.{Settings}
use cirt_lens.Telemetry.{DetectionFinding}
use cirt_lens.Events.{Event}
use cirt_lens.Correlation.Infer.{infer_incident_type}
use cirt_lens.Store.{
  Incident, Database, Outcome, ok, err, save_incident, ◌>>=◌, handler_steps, ok_inj,
}
use cirt_lens.Incidents.Assess.{
  Digests, Assessment, assess, assessed, principal_of_events, fingerprint, findings_by_event,
  findings_among,
}
use cirt_lens.Incidents.Upsert.{tenant_of, ids_of, write_case, upsert_found, reported}
use cirt_lens.Incidents.Cases.{
  is_open, is_open_case, combined_events, shares_evidence, find_case, clashes, duplicates, enriched,
  kept_fingerprint, enrich, opened, new_fingerprint, open_case, Written,
}

abbrev has_id : String → Event → Bool
has_id k e = e.id == k

contains-ids_of : (k : String) (es : List Event) → contains (ids_of es) k ≡ any (has_id k) es
contains-ids_of k [] = refl
contains-ids_of k (e ∷ es) = ground (arith, contains-ids_of k es)

any-put_event :
    (k : String) (e : Event) (known : List Event)
    → any (has_id k) known ≡ true
    → any (has_id k) (put_by (λ e. e.id) e known) ≡ true
any-put_event k e [] h = cc
any-put_event k e (x ∷ xs) h = ground (arith, any-put_event k e xs, eq_iff x.id e.id)

any-put_events :
    (k : String) (es known : List Event)
    → any (has_id k) known ≡ true
    → any (has_id k) (put_all_by (λ e. e.id) es known) ≡ true
any-put_events k [] known h = h
any-put_events k (e ∷ es) known h =
    any-put_events k es (put_by (λ e. e.id) e known) (any-put_event k e known h)

-- The events of the group are among those of the enriched case.
contains-combined_events :
    (tenant_id k : String) (ids : List String) (stored group : List Event)
    → any (has_id k) group ≡ true
    → contains (ids_of (combined_events tenant_id ids stored group)) k ≡ true
unfolding combined_events
contains-combined_events tenant_id k ids stored group h =
    contains-ids_of k _
    ∙ (any-sort_by (λ (e : Event). e.timestamp) (has_id k) _
        ∙ any-put_events k
            (keep (λ (e : Event). e.tenant_id == tenant_id && contains ids e.id) stored) group h)

any-save_new :
    (p : Incident → Bool) (j : Incident) (rows : List Incident)
    → any (λ (i : Incident). i.id == j.id) rows ≡ true
    → p j ≡ true
    → any p (save_incident j rows) ≡ true
any-save_new p j [] h k = cc
any-save_new p j (x ∷ rows) h k = elim (Bool-cases (x.id == j.id)) [
  | inl e ↦ rw (e, k) refl
  | inr e ↦ rw e (ground (arith, any-save_new p j rows))
]

or_true : (b : Bool) → (b || true) ≡ true
or_true true = refl
or_true false = refl

and_left : (a b : Bool) → (a && b) ≡ true → a ≡ true
and_left true b h = refl
and_left false b h = cc

and_right : (a b : Bool) → (a && b) ≡ true → b ≡ true
and_right true b h = h
and_right false b h = cc

-- A case that is open and shares the first event of the group.
shares_first :
    (e : Event) (es : List Event) (i : Incident)
    → i.tenant_id ≡ e.tenant_id
    → is_open i.status ≡ true
    → contains i.event_ids e.id ≡ true
    → shares_evidence e.tenant_id (ids_of (e ∷ es)) i ≡ true
shares_first e es i t o c = rw (t, o, c, eq_refl e.tenant_id) refl

-- After a write for the group, some open case shares an event with it.
abbrev pub IsShared {ℓ} : {A : Type ℓ} → List Event → Outcome (A × Database) → Type 0
IsShared group (ok (a, db)) =
    any (shares_evidence (tenant_of group) (ids_of group)) db.incidents ≡ true
IsShared group (err e) = Unit

pure-IsShared {ℓ κ} :
    {A : Type ℓ} {B : Type κ} (group : List Event) (m : Outcome A) (f : A → Outcome (B × Database))
    → ((a : A) → m ≡ ok a → IsShared group (f a))
    → IsShared group (m >>= f)
pure-IsShared group (ok a) f h = h a refl
pure-IsShared group (err e) f h = tt

assess-events :
    (s : Settings) (d : Digests) (tenant_id : String) (findings : List DetectionFinding)
    (events : List Event) (a : Assessment)
    → assess s d tenant_id findings events ≡ ok a
    → events ≡ a.events
unfolding assess
assess-events s d tenant_id findings events a e =
    let (p, h) =
      handler_steps (λ principal. ok (assessed s d tenant_id findings events principal))
        (principal_of_events events) e in
    ap (λ x. x.events) (ok_inj (assessed s d tenant_id findings events p) a h.1)

open_case-IsShared :
    (d : Digests) (flushed : List Incident) (now : ℕ) (id : String) (e : Event) (es : List Event)
    (a : Assessment) (db : Database)
    → e ∷ es ≡ a.events
    → IsShared (e ∷ es) (open_case d flushed now id e.tenant_id a db)
unfolding open_case opened
open_case-IsShared d flushed now id e es a db same =
    let fp = new_fingerprint d flushed e.tenant_id a db.incidents in
    elim (Bool-cases (any (clashes id fp) db.incidents)) [
      | inl c ↦ rw c tt
      | inr c ↦
          rw
            (
              c,
              any-append (shares_evidence e.tenant_id (ids_of (e ∷ es))) db.incidents
                  (opened now id e.tenant_id fp a ∷ []),
              shares_first e es (opened now id e.tenant_id fp a) refl refl
                  (subst (λ x. contains (ids_of x) e.id ≡ true) same (rw (eq_refl e.id) refl)),
            )
            (or_true (any (shares_evidence e.tenant_id (ids_of (e ∷ es))) db.incidents))
    ]

enrich-IsShared :
    (flushed : List Incident) (now : ℕ) (e : Event) (es : List Event) (a : Assessment)
    (i : Incident) (db : Database)
    → i.tenant_id ≡ e.tenant_id
    → is_open i.status ≡ true
    → any (λ (j : Incident). j.id == i.id) db.incidents ≡ true
    → contains (ids_of a.events) e.id ≡ true
    → IsShared (e ∷ es) (enrich flushed now a i db)
unfolding enrich enriched
enrich-IsShared flushed now e es a i db t o h c =
    let fp = kept_fingerprint flushed a.incident_fingerprint i db.incidents in
    elim (Bool-cases (any (duplicates fp i.id) db.incidents)) [
      | inl f ↦ rw f tt
      | inr f ↦ rw f (
          any-save_new (shares_evidence e.tenant_id (ids_of (e ∷ es))) (enriched now fp a i)
            db.incidents h (shares_first e es (enriched now fp a i) t o c))
    ]

-- A case that was found is on file, open and of the tenant.
abbrev IsOnFile : String → List Incident → Option Incident → Type 0
IsOnFile tenant_id rows none = Unit
IsOnFile tenant_id rows (some i) =
    (i.tenant_id ≡ tenant_id)
    × (is_open i.status ≡ true)
    × (any (λ (j : Incident). j.id == i.id) rows ≡ true)

find_case-IsOnFile :
    (flushed : List Incident) (tenant_id fp : String) (ids : List String) (rows : List Incident)
    → IsOnFile tenant_id rows (find_case flushed tenant_id fp ids rows)
unfolding find_case
find_case-IsOnFile flushed tenant_id fp ids rows =
    elim (Option-cases (first (is_open_case flushed tenant_id fp) rows)) [
      | inr (i, e) ↦
          let passed = first_passes (is_open_case flushed tenant_id fp) rows i e in
          rw (e, find_case)
            (
              (eq_iff i.tenant_id tenant_id).0 (and_left _ _ passed),
              and_left (is_open i.status) _ (and_right _ _ passed),
              first-any (is_open_case flushed tenant_id fp) (λ (j : Incident). j.id == i.id) rows i
                  e (eq_refl i.id),
            )
      | inl e ↦ elim (Option-cases (first (shares_evidence tenant_id ids) rows)) [
        | inl f ↦ rw (e, f, find_case) tt
        | inr (i, f) ↦
            let passed = first_passes (shares_evidence tenant_id ids) rows i f in
            rw (e, f, find_case)
              (
                (eq_iff i.tenant_id tenant_id).0 (and_left _ _ passed),
                and_left (is_open i.status) _ (and_right _ _ passed),
                first-any (shares_evidence tenant_id ids) (λ (j : Incident). j.id == i.id) rows i f
                    (eq_refl i.id),
              )
      ]
    ]

module _ (s : Settings) (d : Digests) (fresh : ℕ → String) (now : ℕ)
    (findings : List DetectionFinding) (e : Event) (es : List Event) where
  write_case-IsShared :
      (found : Option Incident) (flushed : List Incident) (db : Database)
      → IsOnFile e.tenant_id db.incidents found
      → IsShared (e ∷ es) (write_case s d fresh now findings (e ∷ es) found flushed db)
  unfolding write_case
  write_case-IsShared none flushed db h =
      let found = findings_by_event findings (ids_of (e ∷ es)) in
      pure-IsShared (e ∷ es) (assess s d e.tenant_id found (e ∷ es))
        (λ a. open_case d flushed now (fresh (length db.incidents)) e.tenant_id a db)
        (λ a q.
          open_case-IsShared d flushed now (fresh (length db.incidents)) e es a db
            (assess-events s d e.tenant_id found (e ∷ es) a q))
  write_case-IsShared (some i) flushed db (t, o, h) =
      let ids = i.event_ids ++ ids_of (e ∷ es) in
      let events = combined_events e.tenant_id ids db.events (e ∷ es) in
      let found = findings_among db.findings (ids_of events) in
      pure-IsShared (e ∷ es) (assess s d e.tenant_id found events) (λ a. enrich flushed now a i db)
        (λ a q. enrich-IsShared flushed now e es a i db t o h (
          subst (λ x. contains (ids_of x) e.id ≡ true)
            (assess-events s d e.tenant_id found events a q)
            (contains-combined_events e.tenant_id e.id ids db.events (e ∷ es)
              (rw (eq_refl e.id) refl))))

  pub upsert_found-IsShared :
      (flags : List String) (flushed : List Incident) (db : Database)
      → IsShared (e ∷ es) (upsert_found s d fresh now findings flags (e ∷ es) flushed db)
  unfolding upsert_found
  upsert_found-IsShared flags flushed db =
      let kind = (infer_incident_type flags).incident_type in
      pure-IsShared (e ∷ es) (principal_of_events (e ∷ es)) _ (λ principal q.
        let fp = fingerprint s d e.tenant_id kind principal e.timestamp in
        let found = find_case flushed e.tenant_id fp (ids_of (e ∷ es)) db.incidents in
        relabel (write_case s d fresh now findings (e ∷ es) found flushed db) (
          write_case-IsShared found flushed db
            (find_case-IsOnFile flushed e.tenant_id fp (ids_of (e ∷ es)) db.incidents)))
    where
      relabel : (m : Outcome Written) → IsShared (e ∷ es) m → IsShared (e ∷ es) (m >>= reported)
      relabel (ok (i, db')) h = h
      relabel (err f) h = tt
