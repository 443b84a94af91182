-- ===== src/Telemetry.antt =====
-- backend/app/schemas/telemetry.py: the validated telemetry events and the detection findings.
-- A text that may be absent is an `Option`; a `Literal` of several texts is a data type.
use cirt_lens.Base.{ℕ, Bool, true, false, String, Option, List}

pub data AuthResult : Type 0 where
  success failure : AuthResult

pub data MfaResult : Type 0 where
  approved denied not_required : MfaResult

pub record AuthenticationEventInput : Type 0 where
  pub id : String
  pub timestamp : ℕ
  pub user : String
  pub source_ip : String
  pub country : String
  pub city : String
  pub device_id : String
  pub result : AuthResult
  pub mfa_result : MfaResult
  pub authentication_method : String

pub record EndpointEventInput : Type 0 where
  pub id : String
  pub timestamp : ℕ
  pub hostname : String
  pub user : String
  pub process_name : String
  pub parent_process : String
  pub command_line : String
  pub process_hash : String
  pub event_type : String
  pub destination_ip : Option String

pub record NetworkEventInput : Type 0 where
  pub id : String
  pub timestamp : ℕ
  pub source_ip : String
  pub destination_ip : String
  pub destination_port : ℕ
  pub protocol : String
  pub bytes_sent : ℕ
  pub bytes_received : ℕ
  pub domain : Option String
  pub country : String
  pub user : Option String
  pub hostname : Option String

pub record CloudEventInput : Type 0 where
  pub id : String
  pub timestamp : ℕ
  pub user : String
  pub source_ip : String
  pub service : String
  pub action : String
  pub resource : String
  pub result : AuthResult
  pub privileged : Bool
  pub sensitive_resource : Bool
  pub device_id : Option String

pub data TelemetryInput : Type 0 where
  authentication : AuthenticationEventInput → TelemetryInput
  endpoint : EndpointEventInput → TelemetryInput
  network : NetworkEventInput → TelemetryInput
  cloud : CloudEventInput → TelemetryInput

-- The fields of `RawEvent`, which every kind inherits.
abbrev pub raw_id : TelemetryInput → String
raw_id (authentication e) = e.id
raw_id (endpoint e) = e.id
raw_id (network e) = e.id
raw_id (cloud e) = e.id

abbrev pub raw_timestamp : TelemetryInput → ℕ
raw_timestamp (authentication e) = e.timestamp
raw_timestamp (endpoint e) = e.timestamp
raw_timestamp (network e) = e.timestamp
raw_timestamp (cloud e) = e.timestamp

-- `result == "SUCCESS"` and `mfa_result == "DENIED"`
abbrev pub is_success : AuthResult → Bool
is_success success = true
is_success failure = false

abbrev pub is_denied : MfaResult → Bool
is_denied denied = true
is_denied _ = false

-- The text of a finding: one constructor for each template, with the values that are put in.
pub data Reason : Type 0 where
  travel_reason : (user previous_country country : String) → (minutes : ℕ) → Reason
  fatigue_reason : (threshold : ℕ) → (user : String) → (minutes : ℕ) → Reason
  device_reason : (device_id user : String) → Reason
  fixed_reason : String → Reason
  destination_reason : (destination_ip : String) → Reason
  egress_reason : (bytes_sent threshold : ℕ) → Reason
  admin_reason : (service action : String) → Reason
  sensitive_reason download_reason : (resource : String) → Reason
  privilege_reason : (service : String) → (minutes : ℕ) → (user : String) → Reason

-- The keyword arguments of `finding`, one constructor for each set of keys.
pub data Metadata : Type 0 where
  empty : Metadata
  later_login : (paired_event_id : String) → (countries : List String) → (minutes : ℕ) → Metadata
  earlier_login :
      (previous_event_id : String) → (countries : List String) → (minutes : ℕ) → Metadata
  fatigue_evidence : (evidence_ids : List String) → Metadata
  device : (device_id : String) → (authentication_result : AuthResult) → Metadata
  privilege :
      (authentication_evidence_ids : List String)
      → (elapsed_minutes : ℕ) → (privileged_event_id : String) → Metadata

pub record DetectionFinding : Type 0 where
  pub event_id : String
  pub rule_id : String
  pub rule_version : String
  pub flag : String
  pub risk_contribution : ℕ
  pub reason : Reason
  pub metadata : Metadata
