-- ===== src/Detection/Devices.antt =====
-- detection_engine.py: `detect_new_devices`.
use cirt_lens.Base.{String, Bool, not, List, [], ◌∷◌, ◌==◌, if◌then◌else◌, contains, sort_by}
use cirt_lens.Telemetry.{
  TelemetryInput, AuthenticationEventInput, DetectionFinding, authentication, raw_timestamp,
  device_reason, device,
}
use cirt_lens.Detection.Rules.{finding}

-- `baseline_devices`: the trusted devices of each user. Detection only reads it.
abbrev pub Baseline : Type 0
Baseline = List (String × List String)

-- `trusted.get(user, set())`
unfoldable pub trusted_devices : Baseline → String → List String
trusted_devices [] user = []
trusted_devices ((u, devices) ∷ rest) user =
    let later = trusted_devices rest user in if u == user then devices else later

unfoldable pub is_new_device : Baseline → AuthenticationEventInput → Bool
unfolding trusted_devices
is_new_device baseline e = not (contains (trusted_devices baseline e.user) e.device_id)

unfoldable pub new_device_findings : Baseline → List TelemetryInput → List DetectionFinding
unfolding finding is_new_device
new_device_findings baseline [] = []
new_device_findings baseline (authentication e ∷ es) =
    let rest = new_device_findings baseline es in
    if is_new_device baseline e
    then finding e.id "AUTH-003" "NEW_DEVICE" 12 (device_reason e.device_id e.user)
        (device e.device_id e.result)
      ∷ rest
    else rest
new_device_findings baseline (_ ∷ es) = new_device_findings baseline es

-- With no baseline given, `[]` stands for `{}`.
unfoldable pub detect_new_devices : List TelemetryInput → Baseline → List DetectionFinding
unfolding new_device_findings
detect_new_devices events baseline = new_device_findings baseline (sort_by raw_timestamp events)
