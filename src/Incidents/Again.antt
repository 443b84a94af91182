-- ===== src/Incidents/Again.antt =====
-- correlation_engine.py: a group that comes back is found again, so it opens no second case.
use cirt_lens.Base.{
  ℕ, suc, ◌≡◌, refl, String, true, Option, none, some, List, [], ◌∷◌, ltb, first, any, any-first,
  length, distinct, Bool-cases, Option-cases, inl, inr, ap, subst,
}
use cirt_lens.Config.{Settings}
use cirt_lens.Telemetry.{DetectionFinding}
use cirt_lens.Events.{Event}
use cirt_lens.Correlation.Infer.{infer_incident_type}
use cirt_lens.Store.{Incident, Database, Outcome, ok, err, save_incident, ◌>>=◌}
use cirt_lens.Incidents.Assess.{
  Digests, Assessment, principal_of_events, fingerprint, start_of, findings_by_event,
}
use cirt_lens.Incidents.Upsert.{
  tenant_of, ids_of, write_case, upsert_found, upsert_group, flags_in, reported,
}
use cirt_lens.Incidents.Cases.{
  is_open_case, shares_evidence, find_case, duplicates, enriched, kept_fingerprint, enrich, Written,
}
use cirt_lens.Incidents.Shared.{upsert_found-IsShared, IsShared}

-- The number of cases after a run that succeeds.
abbrev HasCases {ℓ} : {A : Type ℓ} → ℕ → Outcome (A × Database) → Type 0
HasCases n (ok (a, db)) = length db.incidents ≡ n
HasCases n (err e) = Unit

pure-HasCases {ℓ κ} :
    {A : Type ℓ} {B : Type κ} (n : ℕ) (m : Outcome A) (f : A → Outcome (B × Database))
    → ((a : A) → HasCases n (f a))
    → HasCases n (m >>= f)
pure-HasCases n (ok a) f h = h a
pure-HasCases n (err e) f h = tt

length-save : (j : Incident) (rows : List Incident) → length (save_incident j rows) ≡ length rows
length-save j [] = refl
length-save j (x ∷ rows) = ap suc (length-save j rows)

enrich-HasCases :
    (flushed : List Incident) (now : ℕ) (a : Assessment) (i : Incident) (db : Database)
    → HasCases (length db.incidents) (enrich flushed now a i db)
unfolding enrich
enrich-HasCases flushed now a i db =
    let fp = kept_fingerprint flushed a.incident_fingerprint i db.incidents in
    elim (Bool-cases (any (duplicates fp i.id) db.incidents)) [
      | inl f ↦ rw f tt
      | inr f ↦ rw f (length-save (enriched now fp a i) db.incidents)
    ]

find_case-shared :
    (flushed : List Incident) (tenant_id fp : String) (ids : List String) (rows : List Incident)
    → any (shares_evidence tenant_id ids) rows ≡ true
    → (i : Incident) × (find_case flushed tenant_id fp ids rows ≡ some i)
unfolding find_case
find_case-shared flushed tenant_id fp ids rows h =
    elim (Option-cases (first (is_open_case flushed tenant_id fp) rows)) [
      | inr (i, e) ↦ (i, rw (e, find_case) refl)
      | inl e ↦
          let (i, f) = any-first (shares_evidence tenant_id ids) rows h in
          (i, rw (e, f, find_case) refl)
    ]

module _ (s : Settings) (d : Digests) (fresh : ℕ → String) (now : ℕ)
    (findings : List DetectionFinding) (group : List Event) where
  write_case-HasCases :
      (found : Option Incident) (i : Incident) (flushed : List Incident) (db : Database)
      → found ≡ some i
      → HasCases (length db.incidents) (write_case s d fresh now findings group found flushed db)
  unfolding write_case
  write_case-HasCases none i flushed db h = cc
  write_case-HasCases (some j) i flushed db h =
      pure-HasCases (length db.incidents) _ (λ a. enrich flushed now a j db)
        (λ a. enrich-HasCases flushed now a j db)

  upsert_group-HasCases :
      (flushed : List Incident) (db : Database)
      → any (shares_evidence (tenant_of group) (ids_of group)) db.incidents ≡ true
      → HasCases (length db.incidents) (upsert_group s d fresh now findings group flushed db)
  unfolding upsert_group upsert_found
  upsert_group-HasCases flushed db h =
      let flags = flags_in findings group in
      elim (Bool-cases (ltb (length (distinct flags)) 2)) [
        | inl e ↦ rw e refl
        | inr e ↦ rw e (
            pure-HasCases (length db.incidents) (principal_of_events group) _ (λ principal.
              let kind = (infer_incident_type flags).incident_type in
              let fp = fingerprint s d (tenant_of group) kind principal (start_of group) in
              let found = find_case flushed (tenant_of group) fp (ids_of group) db.incidents in
              let (i, q) =
                find_case-shared flushed (tenant_of group) fp (ids_of group) db.incidents h in
              relabel (write_case s d fresh now findings group found flushed db)
                (write_case-HasCases found i flushed db q)))
      ]
    where
      relabel :
          (m : Outcome Written)
          → HasCases (length db.incidents) m
          → HasCases (length db.incidents) (m >>= reported)
      relabel (ok (i, db')) k = k
      relabel (err f) k = tt

upsert_group-shared :
    (s : Settings) (d : Digests) (fresh : ℕ → String) (now : ℕ) (findings : List DetectionFinding)
    (group : List Event) (flushed : List Incident) (db : Database) (i : Incident)
    (flushed' : List Incident) (db' : Database)
    → upsert_group s d fresh now findings group flushed db ≡ ok ((some i, flushed'), db')
    → any (shares_evidence (tenant_of group) (ids_of group)) db'.incidents ≡ true
unfolding upsert_group findings_by_event
upsert_group-shared s d fresh now findings [] flushed db i flushed' db' q = cc
upsert_group-shared s d fresh now findings (e ∷ es) flushed db i flushed' db' q =
    let flags = flags_in findings (e ∷ es) in
    elim (Bool-cases (ltb (length (distinct flags)) 2)) [
      | inl c ↦ let impossible = rw c at q in cc
      | inr c ↦
          subst (λ r. IsShared (e ∷ es) r) (rw c at q)
            (upsert_found-IsShared s d fresh now findings e es flags flushed db)
    ]

-- A group with a case, which a run has opened or enriched, is found again: when it comes back, with
-- whatever findings, settings and hashes, the number of cases stays the same.
pub upsert_group_again :
    (s : Settings) (d : Digests) (fresh : ℕ → String) (now : ℕ) (findings : List DetectionFinding)
    (group : List Event) (flushed : List Incident) (db : Database) (i : Incident)
    (flushed' : List Incident) (db' : Database)
    → upsert_group s d fresh now findings group flushed db ≡ ok ((some i, flushed'), db')
    → (s' : Settings) (d' : Digests) (fresh' : ℕ → String) (now' : ℕ)
      (findings' : List DetectionFinding) (later : List Incident)
      (o : Option Incident × List Incident) (db'' : Database)
    → upsert_group s' d' fresh' now' findings' group later db' ≡ ok (o, db'')
    → length db''.incidents ≡ length db'.incidents
upsert_group_again s d fresh now findings group flushed db i flushed' db' e s' d' fresh' now'
      findings' later o db'' e' =
    subst (λ r. HasCases (length db'.incidents) r) e'
      (upsert_group-HasCases s' d' fresh' now' findings' group later db'
        (upsert_group-shared s d fresh now findings group flushed db i flushed' db' e))
