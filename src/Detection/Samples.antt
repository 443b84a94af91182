-- ===== src/Detection/Samples.antt =====
-- Telemetry for the tests.
use cirt_lens.Base.{ℕ, true, String, List, [], ◌∷◌, none, some}
use cirt_lens.Config.{minutes}
use cirt_lens.Telemetry.{
  AuthenticationEventInput, CloudEventInput, NetworkEventInput, TelemetryInput, authentication,
  cloud, MfaResult, success, denied, approved,
}
use cirt_lens.Detection.Devices.{Baseline}

abbrev pub login : String → ℕ → String → String → MfaResult → AuthenticationEventInput
login id t country device mfa = record {
  id = id;
  timestamp = minutes t;
  user = "maya";
  source_ip = "198.51.100.7";
  country = country;
  city = "city";
  device_id = device;
  result = success;
  mfa_result = mfa;
  authentication_method = "password";
}

abbrev pub admin_action : String → ℕ → CloudEventInput
admin_action id t = record {
  id = id;
  timestamp = minutes t;
  user = "maya";
  source_ip = "198.51.100.7";
  service = "IAM";
  action = "AttachUserPolicy";
  resource = "SecurityAdmin";
  result = success;
  privileged = true;
  sensitive_resource = true;
  device_id = none;
}

abbrev pub upload : String → ℕ → ℕ → NetworkEventInput
upload id t size = record {
  id = id;
  timestamp = minutes t;
  source_ip = "10.0.0.5";
  destination_ip = "203.0.113.50";
  destination_port = 443;
  protocol = "TCP";
  bytes_sent = size;
  bytes_received = 10;
  domain = none;
  country = "US";
  user = some "maya";
  hostname = some "host-1";
}

abbrev pub baseline : Baseline
baseline = ("maya", "laptop" ∷ []) ∷ []

abbrev pub travel : List TelemetryInput
travel =
    authentication (login "AUTH-2" 40 "RO" "laptop" approved)
    ∷ authentication (login "AUTH-1" 10 "US" "laptop" approved)
    ∷ cloud (admin_action "CLOUD-1" 50)
    ∷ []

abbrev pub prompts : List AuthenticationEventInput
prompts =
    login "AUTH-1" 1 "US" "laptop" denied
    ∷ login "AUTH-2" 2 "US" "laptop" denied
    ∷ login "AUTH-3" 3 "US" "laptop" denied
    ∷ login "AUTH-4" 4 "US" "laptop" denied
    ∷ []
