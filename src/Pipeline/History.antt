-- ===== src/Pipeline/History.antt =====
-- backend/app/services/pipeline.py: `normalize` and `historical_context`. The activity text is left
-- out.
use cirt_lens.Base.{
  ℕ, ◌-◌, min, max, String, Bool, false, ◌&&◌, ◌||◌, Option, none, some, List, [], ◌∷◌, ◌++◌, map,
  ◌==◌, leb, any, keep, take, contains, sort_by,
}
use cirt_lens.Config.{Settings, minutes}
use cirt_lens.Telemetry.{
  TelemetryInput, authentication, endpoint, network, cloud, raw_id, raw_timestamp,
}
use cirt_lens.Events.{Event, get_device_id, get_destination_ip}

abbrev pub source_name : TelemetryInput → String
source_name (authentication e) = "Identity"
source_name (endpoint e) = "Endpoint"
source_name (network e) = "Network"
source_name (cloud e) = "Cloud"

-- `getattr(raw, …, None)` for the fields that not every kind has
abbrev pub raw_user : TelemetryInput → Option String
raw_user (authentication e) = some e.user
raw_user (endpoint e) = some e.user
raw_user (network e) = e.user
raw_user (cloud e) = some e.user

abbrev pub raw_hostname : TelemetryInput → Option String
raw_hostname (endpoint e) = some e.hostname
raw_hostname (network e) = e.hostname
raw_hostname (authentication e) = none
raw_hostname (cloud e) = none

abbrev pub raw_source_ip : TelemetryInput → Option String
raw_source_ip (authentication e) = some e.source_ip
raw_source_ip (network e) = some e.source_ip
raw_source_ip (cloud e) = some e.source_ip
raw_source_ip (endpoint e) = none

-- The host of an event: the device of a login or of a cloud action.
abbrev pub raw_host : TelemetryInput → Option String
raw_host (authentication e) = some e.device_id
raw_host (endpoint e) = some e.hostname
raw_host (network e) = e.hostname
raw_host (cloud e) = e.device_id

unfoldable pub normalize : String → TelemetryInput → Event
normalize tenant_id raw = record {
  id = raw_id raw;
  tenant_id = tenant_id;
  timestamp = raw_timestamp raw;
  source = source_name raw;
  user = raw_user raw;
  host = raw_host raw;
  source_ip = raw_source_ip raw;
  risk_score = 0;
  risk_flags = [];
  content = raw;
}

-- `{… for e in raw_events} - {None}`
abbrev pub known : List (Option String) → List String
known [] = []
known (none ∷ xs) = known xs
known (some t ∷ xs) = t ∷ known xs

abbrev pub values : (TelemetryInput → Option String) → List TelemetryInput → List String
values field raws = known (map field raws)

-- `column.in_(values)`
abbrev pub is_in : Option String → List String → Bool
is_in none xs = false
is_in (some t) xs = contains xs t

abbrev pub earliest : ℕ → List TelemetryInput → ℕ
earliest t [] = t
earliest t (e ∷ es) = earliest (min t (raw_timestamp e)) es

abbrev pub newest : ℕ → List TelemetryInput → ℕ
newest t [] = t
newest t (e ∷ es) = newest (max t (raw_timestamp e)) es

abbrev pub lookback : Settings → ℕ
lookback s = max s.correlation_window_minutes (
    max s.impossible_travel_window_minutes
      (max s.privileged_action_after_auth_window_minutes s.mfa_fatigue_window_minutes))

-- `or_(*clauses)`; `mentions` is the database's search for a text in the `data` column.
abbrev pub is_related : (Event → String → Bool) → List TelemetryInput → Event → Bool
is_related mentions raws e =
    is_in e.user (values raw_user raws)
    || (is_in e.host (values raw_hostname raws ++ values (λ r. get_device_id r) raws)
        || (is_in e.source_ip (values raw_source_ip raws)
            || any (mentions e) (values (λ r. get_destination_ip r) raws)))

-- The telemetry that is stored with an event reads back as it was.
unfoldable pub historical_context :
    (Event → String → Bool)
    → Settings
    → String
    → List TelemetryInput
    → List Event
    → List TelemetryInput
historical_context mentions s tenant_id [] events = []
historical_context mentions s tenant_id (raw ∷ raws) events =
    let start = earliest (raw_timestamp raw) raws - minutes (lookback s) in
    let stop = newest (raw_timestamp raw) raws in
    map (λ (e : Event). e.content)
      (take 1000 (
        sort_by (λ (e : Event). e.timestamp)
          (keep
            (λ (e : Event).
              e.tenant_id == tenant_id
              && (leb start e.timestamp
                  && (leb e.timestamp stop && is_related mentions (raw ∷ raws) e)))
            events)))
