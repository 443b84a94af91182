-- ===== src/Events.antt =====
-- backend/app/models.py: the stored `Event`. Its `data` column is the JSON text of the validated
-- telemetry (`model_dump`), and `risk_flags` that of a list of texts: they are kept as the values
-- that `json.loads` gives back. The getters read `data` as `dict.get` does.
use cirt_lens.Base.{ℕ, Bool, false, String, Option, none, some, List}
use cirt_lens.Telemetry.{TelemetryInput, authentication, endpoint, network, cloud}

pub record Event : Type 0 where
  pub id : String
  pub tenant_id : String
  pub timestamp : ℕ
  pub source : String
  pub user : Option String
  pub host : Option String
  pub source_ip : Option String
  pub risk_score : ℕ
  pub risk_flags : List String
  pub content : TelemetryInput

-- `data.get("device_id")`, `data.get("destination_ip")`, `data.get("resource", "")`
abbrev pub get_device_id : TelemetryInput → Option String
get_device_id (authentication e) = some e.device_id
get_device_id (cloud e) = e.device_id
get_device_id (endpoint e) = none
get_device_id (network e) = none

abbrev pub get_destination_ip : TelemetryInput → Option String
get_destination_ip (endpoint e) = e.destination_ip
get_destination_ip (network e) = some e.destination_ip
get_destination_ip (authentication e) = none
get_destination_ip (cloud e) = none

abbrev pub get_resource : TelemetryInput → String
get_resource (cloud e) = e.resource
get_resource (authentication e) = ""
get_resource (endpoint e) = ""
get_resource (network e) = ""

-- `data.get("event_type")`, compared with a text that is not empty
abbrev pub get_event_type : TelemetryInput → String
get_event_type (endpoint e) = e.event_type
get_event_type (authentication e) = ""
get_event_type (network e) = ""
get_event_type (cloud e) = ""

-- `data.get("sensitive_resource")` and `data.get("privileged")` as truth values
abbrev pub get_sensitive_resource : TelemetryInput → Bool
get_sensitive_resource (cloud e) = e.sensitive_resource
get_sensitive_resource (authentication e) = false
get_sensitive_resource (endpoint e) = false
get_sensitive_resource (network e) = false

abbrev pub get_privileged : TelemetryInput → Bool
get_privileged (cloud e) = e.privileged
get_privileged (authentication e) = false
get_privileged (endpoint e) = false
get_privileged (network e) = false
