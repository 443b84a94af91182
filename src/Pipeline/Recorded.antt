-- ===== src/Pipeline/Recorded.antt =====
-- backend/app/services/pipeline.py: the row that an event of a batch becomes.
use cirt_lens.Base.{
  ◌≡◌, refl, ◌∙◌, String, true, ◌⊎◌, inl, inr, none, some, List, [], ◌∷◌, ◌++◌, Memᴰ, Memᴰ_right,
  ◌==◌, any, All, All_map, Bool-cases,
}
use cirt_lens.Telemetry.{
  TelemetryInput, authentication, endpoint, network, cloud, raw_id, DetectionFinding,
}
use cirt_lens.Events.{Event}
use cirt_lens.Pipeline.Process.{new_events, annotate, annotate_affected}
use cirt_lens.Pipeline.History.{normalize}
use cirt_lens.Pipeline.Kept.{IsSameEvent, IsSameEvent-refl, annotate-IsSameEvent}

-- The row holds the event, as an event of its kind is stored.
abbrev pub IsRowOf : TelemetryInput → Event → Type 0
IsRowOf (authentication e) x =
    (x.id ≡ e.id)
    × (x.timestamp ≡ e.timestamp)
    × (x.source ≡ "Identity")
    × (x.user ≡ some e.user)
    × (x.host ≡ some e.device_id)
    × (x.source_ip ≡ some e.source_ip)
    × (x.content ≡ authentication e)
IsRowOf (endpoint e) x =
    (x.id ≡ e.id)
    × (x.timestamp ≡ e.timestamp)
    × (x.source ≡ "Endpoint")
    × (x.user ≡ some e.user)
    × (x.host ≡ some e.hostname)
    × (x.source_ip ≡ none)
    × (x.content ≡ endpoint e)
IsRowOf (network e) x =
    (x.id ≡ e.id)
    × (x.timestamp ≡ e.timestamp)
    × (x.source ≡ "Network")
    × (x.user ≡ e.user)
    × (x.host ≡ e.hostname)
    × (x.source_ip ≡ some e.source_ip)
    × (x.content ≡ network e)
IsRowOf (cloud e) x =
    (x.id ≡ e.id)
    × (x.timestamp ≡ e.timestamp)
    × (x.source ≡ "Cloud")
    × (x.user ≡ some e.user)
    × (x.host ≡ e.device_id)
    × (x.source_ip ≡ some e.source_ip)
    × (x.content ≡ cloud e)

-- The event was on file by its id, or one of the rows is the tenant's row of it.
abbrev pub IsRecorded : String → List Event → List Event → TelemetryInput → Type 0
IsRecorded tenant_id before after raw =
    (any (λ (e : Event). e.id == raw_id raw) before ≡ true)
    ⊎ ((x : Event) × Memᴰ x after × (x.tenant_id ≡ tenant_id) × IsRowOf raw x)

normalize-IsRowOf :
    (tenant_id : String) (raw : TelemetryInput) → IsRowOf raw (normalize tenant_id raw)
unfolding normalize
normalize-IsRowOf t (authentication e) = (refl, refl, refl, refl, refl, refl, refl)
normalize-IsRowOf t (endpoint e) = (refl, refl, refl, refl, refl, refl, refl)
normalize-IsRowOf t (network e) = (refl, refl, refl, refl, refl, refl, refl)
normalize-IsRowOf t (cloud e) = (refl, refl, refl, refl, refl, refl, refl)

tenant-normalize : (t : String) (raw : TelemetryInput) → (normalize t raw).tenant_id ≡ t
unfolding normalize
tenant-normalize t raw = refl

same-IsRowOf :
    (raw : TelemetryInput) (x y : Event) → IsSameEvent x y → IsRowOf raw x → IsRowOf raw y
same-IsRowOf (authentication e) x y s (a, b, c, d, f, g, h) = (
  s.same_id ∙ a,
  s.same_timestamp ∙ b,
  s.same_source ∙ c,
  s.same_user ∙ d,
  s.same_host ∙ f,
  s.same_source_ip ∙ g,
  s.same_content ∙ h,
)
same-IsRowOf (endpoint e) x y s (a, b, c, d, f, g, h) = (
  s.same_id ∙ a,
  s.same_timestamp ∙ b,
  s.same_source ∙ c,
  s.same_user ∙ d,
  s.same_host ∙ f,
  s.same_source_ip ∙ g,
  s.same_content ∙ h,
)
same-IsRowOf (network e) x y s (a, b, c, d, f, g, h) = (
  s.same_id ∙ a,
  s.same_timestamp ∙ b,
  s.same_source ∙ c,
  s.same_user ∙ d,
  s.same_host ∙ f,
  s.same_source_ip ∙ g,
  s.same_content ∙ h,
)
same-IsRowOf (cloud e) x y s (a, b, c, d, f, g, h) = (
  s.same_id ∙ a,
  s.same_timestamp ∙ b,
  s.same_source ∙ c,
  s.same_user ∙ d,
  s.same_host ∙ f,
  s.same_source_ip ∙ g,
  s.same_content ∙ h,
)

module _ (tenant_id : String) (events : List Event) where
  new_events_head :
      (raw : TelemetryInput) (raws : List TelemetryInput)
      → IsRecorded tenant_id events (new_events tenant_id events (raw ∷ raws)) raw
  new_events_head raw raws = elim (Bool-cases (any (λ (e : Event). e.id == raw_id raw) events)) [
    | inl t ↦ inl t
    | inr f ↦ inr (
      normalize tenant_id raw,
      rw f (Memᴰ.head refl),
      tenant-normalize tenant_id raw,
      normalize-IsRowOf tenant_id raw,
    )
  ]

  new_events_tail :
      (raw : TelemetryInput) (raws : List TelemetryInput) (x : Event)
      → Memᴰ x (new_events tenant_id events raws)
      → Memᴰ x (new_events tenant_id events (raw ∷ raws))
  new_events_tail raw raws x h =
      elim (Bool-cases (any (λ (e : Event). e.id == raw_id raw) events)) [
        | inl t ↦ rw t h
        | inr f ↦ rw f (Memᴰ.tail h)
      ]

  -- What holds of some rows holds of more.
  IsRecorded-more :
      (rows more : List Event)
      → ((x : Event) → Memᴰ x rows → (y : Event) × Memᴰ y more × IsSameEvent x y)
      → (raw : TelemetryInput) → IsRecorded tenant_id events rows raw
      → IsRecorded tenant_id events more raw
  IsRecorded-more rows more h raw (inl t) = inl t
  IsRecorded-more rows more h raw (inr (x, m, t, r)) =
      let (y, n, s) = h x m in inr (y, n, s.same_tenant ∙ t, same-IsRowOf raw x y s r)

  new_events-IsRecorded :
      (raws : List TelemetryInput)
      → All (IsRecorded tenant_id events (new_events tenant_id events raws)) raws
  new_events-IsRecorded [] = tt
  new_events-IsRecorded (raw ∷ raws) = (
    new_events_head raw raws,
    All_map (IsRecorded tenant_id events (new_events tenant_id events raws))
        (IsRecorded tenant_id events (new_events tenant_id events (raw ∷ raws)))
        (IsRecorded-more (new_events tenant_id events raws)
          (new_events tenant_id events (raw ∷ raws))
          (λ x m. (x, new_events_tail raw raws x m, IsSameEvent-refl x)))
        raws (new_events-IsRecorded raws),
  )

annotate_affected-keeps :
    (batch rows : List DetectionFinding) (es : List Event) (x : Event)
    → Memᴰ x es
    → (y : Event) × Memᴰ y (annotate_affected batch rows es) × IsSameEvent x y
unfolding annotate_affected
annotate_affected-keeps batch rows [] x h = elim h [ ]
annotate_affected-keeps batch rows (e ∷ es) x (Memᴰ.head q) =
    elim (Bool-cases (any (λ (f : DetectionFinding). f.event_id == e.id) batch)) [
      | inl t ↦ (annotate rows e, rw t (Memᴰ.head refl), rw q (annotate-IsSameEvent rows e))
      | inr t ↦ (e, rw t (Memᴰ.head refl), rw q (IsSameEvent-refl e))
    ]
annotate_affected-keeps batch rows (e ∷ es) x (Memᴰ.tail h) =
    let (y, m, s) = annotate_affected-keeps batch rows es x h in (y, Memᴰ.tail m, s)

-- The rows of a batch after they are written and annotated.
pub batch-IsRecorded :
    (tenant_id : String) (events : List Event) (raws : List TelemetryInput)
    (batch rows : List DetectionFinding)
    → All
        (IsRecorded tenant_id events
          (annotate_affected batch rows (events ++ new_events tenant_id events raws)))
        raws
batch-IsRecorded tenant_id events raws batch rows =
    let added = new_events tenant_id events raws in
    All_map (IsRecorded tenant_id events added)
      (IsRecorded tenant_id events (annotate_affected batch rows (events ++ added)))
      (IsRecorded-more tenant_id events added (annotate_affected batch rows (events ++ added))
        (λ x m.
          annotate_affected-keeps batch rows (events ++ added) x (Memᴰ_right x events added m)))
      raws (new_events-IsRecorded tenant_id events raws)
