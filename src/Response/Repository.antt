-- ===== src/Response/Repository.antt =====
-- backend/app/repositories/incidents.py, and `get_incident` and `incident_events` of main.py, which
-- do the same.
use cirt_lens.Base.{
  String, Bool, ◌&&◌, Option, none, some, List, ◌==◌, first, keep, contains, sort_by,
}
use cirt_lens.Events.{Event}
use cirt_lens.Store.{Incident, Database, Outcome, ok, err, http}

abbrev pub found_or_404 {ℓ} : {A : Type ℓ} → String → Option A → Outcome A
found_or_404 detail none = err (http 404 detail)
found_or_404 detail (some a) = ok a

-- `filter_by(id=…, tenant_id=…).first()`
abbrev pub owned_by : String → String → Incident → Bool
owned_by tenant_id incident_id i = (i.id == incident_id) && (i.tenant_id == tenant_id)

unfoldable pub get_incident : Database → String → String → Outcome Incident
get_incident db tenant_id incident_id =
    found_or_404 "Incident not found" (first (owned_by tenant_id incident_id) db.incidents)

unfoldable pub incident_events : Database → String → Incident → List Event
incident_events db tenant_id incident =
    sort_by (λ e. e.timestamp)
      (keep (λ e. (e.tenant_id == tenant_id) && contains incident.event_ids e.id) db.events)
