-- ===== src/Pipeline/Kept.antt =====
-- backend/app/services/pipeline.py: what the writes of a batch keep of the events and the findings.
use cirt_lens.Base.{
  ◌≡◌, refl, sym, ◌∙◌, Bool, true, false, ◌||◌, List, [], ◌∷◌, ◌++◌, ◌==◌, any, any-append,
  Bool-cases, inl, inr, eq_sym,
}
use mathlib.Core.List.{append-nil, append_assoc}
use cirt_lens.Telemetry.{DetectionFinding}
use cirt_lens.Events.{Event}
use cirt_lens.Pipeline.Process.{same_key, record_findings, annotate, annotate_affected}

-- A stored event keeps all but its score and its flags.
pub record IsSameEvent (e x : Event) : Type 0 where
  pub same_id : x.id ≡ e.id
  pub same_tenant : x.tenant_id ≡ e.tenant_id
  pub same_timestamp : x.timestamp ≡ e.timestamp
  pub same_source : x.source ≡ e.source
  pub same_user : x.user ≡ e.user
  pub same_host : x.host ≡ e.host
  pub same_source_ip : x.source_ip ≡ e.source_ip
  pub same_content : x.content ≡ e.content

-- Every event is still in its place; new ones may follow.
abbrev pub AllSame : List Event → List Event → Type 0
AllSame [] xs = Unit
AllSame (e ∷ es) [] = ⊥
AllSame (e ∷ es) (x ∷ xs) = IsSameEvent e x × AllSame es xs

pub IsSameEvent-refl : (e : Event) → IsSameEvent e e
IsSameEvent-refl e = record {
  same_id = refl;
  same_tenant = refl;
  same_timestamp = refl;
  same_source = refl;
  same_user = refl;
  same_host = refl;
  same_source_ip = refl;
  same_content = refl;
}

pub AllSame-refl : (es : List Event) → AllSame es es
AllSame-refl [] = tt
AllSame-refl (e ∷ es) = (IsSameEvent-refl e, AllSame-refl es)

pub annotate-IsSameEvent :
    (rows : List DetectionFinding) (e : Event) → IsSameEvent e (annotate rows e)
unfolding annotate
annotate-IsSameEvent rows e = record {
  same_id = refl;
  same_tenant = refl;
  same_timestamp = refl;
  same_source = refl;
  same_user = refl;
  same_host = refl;
  same_source_ip = refl;
  same_content = refl;
}

pub annotate_affected-AllSame :
    (batch rows : List DetectionFinding) (es added : List Event)
    → AllSame es (annotate_affected batch rows (es ++ added))
unfolding annotate_affected
annotate_affected-AllSame batch rows [] added = tt
annotate_affected-AllSame batch rows (e ∷ es) added =
    elim (Bool-cases (any (λ (f : DetectionFinding). f.event_id == e.id) batch)) [
      | inl t ↦ rw t (annotate-IsSameEvent rows e, annotate_affected-AllSame batch rows es added)
      | inr t ↦ rw t (IsSameEvent-refl e, annotate_affected-AllSame batch rows es added)
    ]

-- The unique constraint of the findings.
abbrev pub HasUniqueKeys : List DetectionFinding → Type 0
HasUniqueKeys [] = Unit
HasUniqueKeys (f ∷ fs) = (any (same_key f) fs ≡ false) × HasUniqueKeys fs

same_key_sym : (f g : DetectionFinding) → same_key f g ≡ same_key g f
same_key_sym f g =
    rw
      (
        eq_sym f.event_id g.event_id,
        eq_sym f.rule_id g.rule_id,
        eq_sym f.rule_version g.rule_version,
        eq_sym f.flag g.flag,
      )
      refl

append-HasUniqueKeys :
    (f : DetectionFinding) (rows : List DetectionFinding)
    → HasUniqueKeys rows
    → any (same_key f) rows ≡ false
    → HasUniqueKeys (rows ++ f ∷ [])
append-HasUniqueKeys f [] k h = (refl, tt)
append-HasUniqueKeys f (g ∷ rows) (k, ks) h = (
  any-append (same_key g) rows (f ∷ [])
      ∙ none_or (any (same_key g) rows) (same_key g f) k
          (same_key_sym g f ∙ first_false (same_key f g) _ h),
  append-HasUniqueKeys f rows ks (second_false (same_key f g) _ h),
)
  where
    none_or : (a b : Bool) → a ≡ false → b ≡ false → (a || (b || false)) ≡ false
    none_or a b x y = rw (x, y) refl

    first_false : (a b : Bool) → (a || b) ≡ false → a ≡ false
    first_false true b x = cc
    first_false false b x = refl

    second_false : (a b : Bool) → (a || b) ≡ false → b ≡ false
    second_false true b x = cc
    second_false false b x = x

pub record_findings-HasUniqueKeys :
    (fs rows : List DetectionFinding) → HasUniqueKeys rows → HasUniqueKeys (record_findings fs rows)
unfolding record_findings
record_findings-HasUniqueKeys [] rows k = k
record_findings-HasUniqueKeys (f ∷ fs) rows k = elim (Bool-cases (any (same_key f) rows)) [
  | inl e ↦ rw e (record_findings-HasUniqueKeys fs rows k)
  | inr e ↦
      rw e (record_findings-HasUniqueKeys fs (rows ++ f ∷ []) (append-HasUniqueKeys f rows k e))
]

-- Rows are only added.
abbrev pub Extends : List DetectionFinding → List DetectionFinding → Type 0
Extends rows rows' = (added : List DetectionFinding) × (rows' ≡ rows ++ added)

pub record_findings-Extends :
    (fs rows : List DetectionFinding) → Extends rows (record_findings fs rows)
unfolding record_findings
record_findings-Extends [] rows = ([], sym (append-nil rows))
record_findings-Extends (f ∷ fs) rows = elim (Bool-cases (any (same_key f) rows)) [
  | inl e ↦ rw e (record_findings-Extends fs rows)
  | inr e ↦
      let (added, h) = record_findings-Extends fs (rows ++ f ∷ []) in
      rw e (f ∷ added, h ∙ append_assoc rows (f ∷ []) added)
]
