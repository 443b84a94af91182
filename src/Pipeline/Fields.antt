-- ===== src/Pipeline/Fields.antt =====
-- backend/app/services/pipeline.py: `typed_from_event`, on the JSON object of the `data` column;
-- schemas/telemetry.py: the fields of the four schemas with their bounds and defaults, as
-- `model_dump` writes and `model_validate` reads them. A time is kept as its number.
use cirt_lens.Base.{String, not, Option, none, some, List, [], ◌∷◌, ◌==◌, if◌then◌else◌, keep}
use cirt_lens.Telemetry.{TelemetryInput, authentication, endpoint, network, cloud, DetectionFinding}
use cirt_lens.Pipeline.Values.{
  ◌>>=◌, ◌>>◌, text, number, truth, findings, Value, Object, get, check, as_text, as_number,
  as_optional, as_flag, result_named, mfa_named, result_text, mfa_text, optional_value, is_port,
  authentication_keys, endpoint_keys, network_keys, cloud_keys, is_raw, as_id,
}

unfoldable pub validate_authentication : Object → Option TelemetryInput
validate_authentication o = do
  check (is_raw "authentication" authentication_keys o)
  id ← as_id (get o "id")
  timestamp ← as_number (get o "timestamp")
  user ← as_text (get o "user")
  source_ip ← as_text (get o "source_ip")
  country ← as_text (get o "country")
  city ← as_text (get o "city")
  device_id ← as_text (get o "device_id")
  result ← as_text (get o "result") >>= result_named
  mfa_result ← as_text (get o "mfa_result") >>= mfa_named
  authentication_method ← as_text (get o "authentication_method")
  some (
      authentication (record {
        id = id;
        timestamp = timestamp;
        user = user;
        source_ip = source_ip;
        country = country;
        city = city;
        device_id = device_id;
        result = result;
        mfa_result = mfa_result;
        authentication_method = authentication_method;
      }))

unfoldable pub validate_endpoint : Object → Option TelemetryInput
validate_endpoint o = do
  check (is_raw "endpoint" endpoint_keys o)
  id ← as_id (get o "id")
  timestamp ← as_number (get o "timestamp")
  hostname ← as_text (get o "hostname")
  user ← as_text (get o "user")
  process_name ← as_text (get o "process_name")
  parent_process ← as_text (get o "parent_process")
  command_line ← as_text (get o "command_line")
  process_hash ← as_text (get o "process_hash")
  event_type ← as_text (get o "event_type")
  destination_ip ← as_optional (get o "destination_ip")
  some (
      endpoint (record {
        id = id;
        timestamp = timestamp;
        hostname = hostname;
        user = user;
        process_name = process_name;
        parent_process = parent_process;
        command_line = command_line;
        process_hash = process_hash;
        event_type = event_type;
        destination_ip = destination_ip;
      }))

unfoldable pub validate_network : Object → Option TelemetryInput
validate_network o = do
  check (is_raw "network" network_keys o)
  id ← as_id (get o "id")
  timestamp ← as_number (get o "timestamp")
  source_ip ← as_text (get o "source_ip")
  destination_ip ← as_text (get o "destination_ip")
  destination_port ← as_number (get o "destination_port")
  check (is_port destination_port)
  protocol ← as_text (get o "protocol")
  bytes_sent ← as_number (get o "bytes_sent")
  bytes_received ← as_number (get o "bytes_received")
  domain ← as_optional (get o "domain")
  country ← as_text (get o "country")
  user ← as_optional (get o "user")
  hostname ← as_optional (get o "hostname")
  some (
      network (record {
        id = id;
        timestamp = timestamp;
        source_ip = source_ip;
        destination_ip = destination_ip;
        destination_port = destination_port;
        protocol = protocol;
        bytes_sent = bytes_sent;
        bytes_received = bytes_received;
        domain = domain;
        country = country;
        user = user;
        hostname = hostname;
      }))

unfoldable pub validate_cloud : Object → Option TelemetryInput
validate_cloud o = do
  check (is_raw "cloud" cloud_keys o)
  id ← as_id (get o "id")
  timestamp ← as_number (get o "timestamp")
  user ← as_text (get o "user")
  source_ip ← as_text (get o "source_ip")
  service ← as_text (get o "service")
  action ← as_text (get o "action")
  resource ← as_text (get o "resource")
  result ← as_text (get o "result") >>= result_named
  privileged ← as_flag (get o "privileged")
  sensitive_resource ← as_flag (get o "sensitive_resource")
  device_id ← as_optional (get o "device_id")
  some (
      cloud (record {
        id = id;
        timestamp = timestamp;
        user = user;
        source_ip = source_ip;
        service = service;
        action = action;
        resource = resource;
        result = result;
        privileged = privileged;
        sensitive_resource = sensitive_resource;
        device_id = device_id;
      }))

-- `SCHEMA_BY_TYPE.get(data.get("telemetry_type"))`, applied
abbrev pub validate_by_type : Option Value → Object → Option TelemetryInput
validate_by_type (some (text kind)) o =
    if kind == "authentication"
    then validate_authentication o
    else if kind == "endpoint"
    then validate_endpoint o
    else if kind == "network"
    then validate_network o
    else if kind == "cloud"
    then validate_cloud o
    else none
validate_by_type _ o = none

unfoldable pub typed_from_data : Object → Option TelemetryInput
typed_from_data o =
    validate_by_type (get o "telemetry_type")
      (keep (λ (f : String × Value). not (f.0 == "detection_findings")) o)

-- `model_dump(mode="json")`
unfoldable pub model_dump : TelemetryInput → Object
model_dump (authentication e) =
    ("id", text e.id)
    ∷ ("timestamp", number e.timestamp)
    ∷ ("schema_version", text "1.0")
    ∷ ("telemetry_type", text "authentication")
    ∷ ("user", text e.user)
    ∷ ("source_ip", text e.source_ip)
    ∷ ("country", text e.country)
    ∷ ("city", text e.city)
    ∷ ("device_id", text e.device_id)
    ∷ ("result", text (result_text e.result))
    ∷ ("mfa_result", text (mfa_text e.mfa_result))
    ∷ ("authentication_method", text e.authentication_method)
    ∷ []
model_dump (endpoint e) =
    ("id", text e.id)
    ∷ ("timestamp", number e.timestamp)
    ∷ ("schema_version", text "1.0")
    ∷ ("telemetry_type", text "endpoint")
    ∷ ("hostname", text e.hostname)
    ∷ ("user", text e.user)
    ∷ ("process_name", text e.process_name)
    ∷ ("parent_process", text e.parent_process)
    ∷ ("command_line", text e.command_line)
    ∷ ("process_hash", text e.process_hash)
    ∷ ("event_type", text e.event_type)
    ∷ ("destination_ip", optional_value e.destination_ip)
    ∷ []
model_dump (network e) =
    ("id", text e.id)
    ∷ ("timestamp", number e.timestamp)
    ∷ ("schema_version", text "1.0")
    ∷ ("telemetry_type", text "network")
    ∷ ("source_ip", text e.source_ip)
    ∷ ("destination_ip", text e.destination_ip)
    ∷ ("destination_port", number e.destination_port)
    ∷ ("protocol", text e.protocol)
    ∷ ("bytes_sent", number e.bytes_sent)
    ∷ ("bytes_received", number e.bytes_received)
    ∷ ("domain", optional_value e.domain)
    ∷ ("country", text e.country)
    ∷ ("user", optional_value e.user)
    ∷ ("hostname", optional_value e.hostname)
    ∷ []
model_dump (cloud e) =
    ("id", text e.id)
    ∷ ("timestamp", number e.timestamp)
    ∷ ("schema_version", text "1.0")
    ∷ ("telemetry_type", text "cloud")
    ∷ ("user", text e.user)
    ∷ ("source_ip", text e.source_ip)
    ∷ ("service", text e.service)
    ∷ ("action", text e.action)
    ∷ ("resource", text e.resource)
    ∷ ("result", text (result_text e.result))
    ∷ ("privileged", truth e.privileged)
    ∷ ("sensitive_resource", truth e.sensitive_resource)
    ∷ ("device_id", optional_value e.device_id)
    ∷ []

-- `data["detection_findings"] = […]`
abbrev pub set_findings : List DetectionFinding → Object → Object
set_findings fs [] = ("detection_findings", findings fs) ∷ []
set_findings fs ((k, v) ∷ o) =
    let rest = set_findings fs o in
    if k == "detection_findings" then (k, findings fs) ∷ o else (k, v) ∷ rest
