-- ===== src/Attack/Evidence.antt =====
-- What a technique cites, exactly, and that nothing is listed twice.
use cirt_lens.Base.{
  String, ◌≡◌, refl, Bool, false, ◌&&◌, ◌||◌, Option, none, some, List, [], ◌∷◌, ◌++◌, ◌==◌,
  if◌then◌else◌, arith, any, All, contains, contains-append, eq_iff, Bool-cases, inl, inr, map,
  Option-cases,
}
use cirt_lens.Telemetry.{DetectionFinding}
use cirt_lens.Attack.{
  Mapping, mappings, find_mapping, Technique, add_evidence, add_technique, evidence_of, map_finding,
  map_from, map_techniques,
}

-- Some technique with the id `tid` cites the event.
abbrev pub cites : String → String → List Technique → Bool
cites tid event = any (λ t. (t.id == tid) && contains t.evidence_ids event)

abbrev maps_to : Option Mapping → String → Bool
maps_to none tid = false
maps_to (some m) tid = m.technique == tid

-- The flag of the finding maps to `tid`, and the finding's own event or its group's evidence has
-- the event.
abbrev pub supports : String → String → DetectionFinding → Bool
supports tid event f = maps_to (find_mapping mappings f.flag) tid && contains (evidence_of f) event

contains-add_evidence :
    (ids evidence : List String) (x : String)
    → contains (add_evidence evidence ids) x ≡ (contains evidence x || contains ids x)
unfolding add_evidence
contains-add_evidence [] evidence x = ground arith
contains-add_evidence (i ∷ ids) evidence x = ground (
  arith,
  contains-add_evidence ids (if contains evidence i then evidence else evidence ++ i ∷ []) x,
  contains-append evidence (i ∷ []) x,
  eq_iff i x,
)

cites-add_technique :
    (m : Mapping) (ids : List String) (ts : List Technique) (tid event : String)
    → cites tid event (add_technique m ids ts)
      ≡ (((m.technique == tid) && contains ids event) || cites tid event ts)
unfolding add_technique
cites-add_technique m ids [] tid event = ground (arith, contains-add_evidence ids [] event)
cites-add_technique m ids (t ∷ ts) tid event = ground (
  arith,
  contains-add_evidence ids t.evidence_ids event,
  cites-add_technique m ids ts tid event,
  eq_iff t.id m.technique,
)

cites-map_finding :
    (o : Option Mapping) (ids : List String) (ts : List Technique) (tid event : String)
    → cites tid event (map_finding o ids ts)
      ≡ ((maps_to o tid && contains ids event) || cites tid event ts)
unfolding map_finding
cites-map_finding none ids ts tid event = refl
cites-map_finding (some m) ids ts tid event = cites-add_technique m ids ts tid event

cites-map_from :
    (fs : List DetectionFinding) (ts : List Technique) (tid event : String)
    → cites tid event (map_from ts fs) ≡ (any (supports tid event) fs || cites tid event ts)
unfolding map_from
cites-map_from [] ts tid event = refl
cites-map_from (f ∷ fs) ts tid event = ground (
  arith,
  cites-map_from fs (map_finding (find_mapping mappings f.flag) (evidence_of f) ts) tid event,
  cites-map_finding (find_mapping mappings f.flag) (evidence_of f) ts tid event,
)

-- A technique cites an event exactly when some finding supports it: a finding whose flag maps to
-- the technique, and which is about that event or names it in its group evidence.
pub cites-map_techniques :
    (findings : List DetectionFinding) (tid event : String)
    → cites tid event (map_techniques findings) ≡ any (supports tid event) findings
unfolding map_techniques
cites-map_techniques findings tid event = ground (arith, cites-map_from findings [] tid event)

-- No text twice.
abbrev pub NoRepeat : List String → Type 0
NoRepeat [] = Unit {0}
NoRepeat (x ∷ xs) = (contains xs x ≡ false) × NoRepeat xs

abbrev ids_of : List Technique → List String
ids_of = map (λ t. t.id)

-- No technique is listed twice, and no technique cites an event twice.
pub record IsConcise (ts : List Technique) : Type 0 where
  pub techniques : NoRepeat (ids_of ts)
  pub evidence : All (λ (t : Technique). NoRepeat t.evidence_ids) ts

NoRepeat-snoc :
    (xs : List String) (x : String) → NoRepeat xs → contains xs x ≡ false → NoRepeat (xs ++ x ∷ [])
NoRepeat-snoc [] x h e = (refl, tt)
NoRepeat-snoc (y ∷ xs) x (a, h) e = (
  ground (arith, contains-append xs (x ∷ []) y, eq_iff x y, eq_iff y x),
  NoRepeat-snoc xs x h (ground arith),
)

NoRepeat-add_evidence :
    (ids evidence : List String) → NoRepeat evidence → NoRepeat (add_evidence evidence ids)
unfolding add_evidence
NoRepeat-add_evidence [] evidence h = h
NoRepeat-add_evidence (i ∷ ids) evidence h = elim (Bool-cases (contains evidence i)) [
  | inl old ↦ rw old (NoRepeat-add_evidence ids evidence h)
  | inr new ↦
      rw new (NoRepeat-add_evidence ids (evidence ++ i ∷ []) (NoRepeat-snoc evidence i h new))
]

ids-add_technique :
    (m : Mapping) (ids : List String) (ts : List Technique)
    → ids_of (add_technique m ids ts)
      ≡ (if contains (ids_of ts) m.technique then ids_of ts else ids_of ts ++ m.technique ∷ [])
unfolding add_technique
ids-add_technique m ids [] = refl
ids-add_technique m ids (t ∷ ts) = ground (arith, ids-add_technique m ids ts)

evidence-add_technique :
    (m : Mapping) (ids : List String) (ts : List Technique)
    → All (λ (t : Technique). NoRepeat t.evidence_ids) ts
    → All (λ (t : Technique). NoRepeat t.evidence_ids) (add_technique m ids ts)
unfolding add_technique
evidence-add_technique m ids [] h = (NoRepeat-add_evidence ids [] tt, tt)
evidence-add_technique m ids (t ∷ ts) (a, h) = elim (Bool-cases (t.id == m.technique)) [
  | inl same ↦ rw same (NoRepeat-add_evidence ids t.evidence_ids a, h)
  | inr other ↦ rw other (a, evidence-add_technique m ids ts h)
]

add_technique-IsConcise :
    (m : Mapping) (ids : List String) (ts : List Technique)
    → IsConcise ts
    → IsConcise (add_technique m ids ts)
add_technique-IsConcise m ids ts h = record {
  techniques =
      rw (ids-add_technique m ids ts) (elim (Bool-cases (contains (ids_of ts) m.technique)) [
        | inl old ↦ rw old h.techniques
        | inr new ↦ rw new (NoRepeat-snoc (ids_of ts) m.technique h.techniques new)
      ]);
  evidence = evidence-add_technique m ids ts h.evidence;
}

map_from-IsConcise :
    (fs : List DetectionFinding) (ts : List Technique) → IsConcise ts → IsConcise (map_from ts fs)
unfolding map_from
map_from-IsConcise [] ts h = h
map_from-IsConcise (f ∷ fs) ts h = elim (Option-cases (find_mapping mappings f.flag)) [
  | inl e ↦ rw e (map_from-IsConcise fs ts h)
  | inr (m, e) ↦ rw e (
      map_from-IsConcise fs (add_technique m (evidence_of f) ts)
        (add_technique-IsConcise m (evidence_of f) ts h))
]

-- For all findings, no technique is listed twice and none cites an event twice.
pub map_techniques-IsConcise :
    (findings : List DetectionFinding) → IsConcise (map_techniques findings)
unfolding map_techniques
map_techniques-IsConcise findings =
    map_from-IsConcise findings [] (record { techniques = tt; evidence = tt })
