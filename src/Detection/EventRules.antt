-- ===== src/Detection/EventRules.antt =====
-- detection_engine.py: the rules on single events, `detect_powershell`, `detect_malicious_ip` and
-- `detect_event_rules`.
use cirt_lens.Base.{
  ◌*◌, String, Bool, false, ◌&&◌, List, [], ◌∷◌, ◌++◌, ◌==◌, leb, if◌then◌else◌, any, contains,
  has_text, lower, upper,
}
use cirt_lens.Config.{Settings}
use cirt_lens.Telemetry.{
  TelemetryInput, EndpointEventInput, NetworkEventInput, CloudEventInput, DetectionFinding,
  authentication, endpoint, network, cloud, raw_id, fixed_reason, destination_reason, egress_reason,
  admin_reason, sensitive_reason, download_reason, empty,
}
use cirt_lens.Detection.Rules.{finding}

abbrev pub malicious_ips : List String
malicious_ips = "203.0.113.50" ∷ "198.51.100.77" ∷ "192.0.2.91" ∷ []

unfoldable pub detect_powershell : TelemetryInput → Bool
detect_powershell (endpoint e) =
    has_text (lower e.process_name) "powershell"
    && any (has_text (lower e.command_line)) ("-encodedcommand" ∷ "iex" ∷ "downloadstring" ∷ [])
detect_powershell _ = false

unfoldable pub detect_malicious_ip : TelemetryInput → Bool
detect_malicious_ip (network e) = contains malicious_ips e.destination_ip
detect_malicious_ip _ = false

-- `if test: results.append(finding)`
abbrev pub when : Bool → DetectionFinding → List DetectionFinding
when test f = if test then f ∷ [] else []

unfoldable pub endpoint_findings : EndpointEventInput → List DetectionFinding
unfolding finding
endpoint_findings e =
    when (upper e.event_type == "CREDENTIAL_STORE_ACCESS") (
      finding e.id "ENDP-002" "CREDENTIAL_ACCESS" 30
        (fixed_reason "Structured endpoint telemetry recorded access to OS credential material.")
        empty)
    ++ when (upper e.event_type == "RUN_KEY_MODIFICATION") (
        finding e.id "ENDP-003" "PERSISTENCE" 25
          (fixed_reason
            "Structured endpoint telemetry recorded a Registry Run Keys persistence modification.")
          empty)

unfoldable pub network_findings : Settings → NetworkEventInput → List DetectionFinding
unfolding finding detect_malicious_ip
network_findings s e =
    when (detect_malicious_ip (network e))
      (finding e.id "NET-001" "KNOWN_MALICIOUS_IP" 35 (destination_reason e.destination_ip) empty)
    ++ when (leb s.unusual_egress_bytes e.bytes_sent) (
        finding e.id "NET-002" "UNUSUAL_EGRESS" 25
          (egress_reason e.bytes_sent s.unusual_egress_bytes) empty)
    ++ when (leb (s.unusual_egress_bytes * 2) e.bytes_sent) (
        finding e.id "NET-003" "DATA_EXFILTRATION" 30
          (fixed_reason
            "Outbound volume was at least twice the unusual-egress threshold; channel semantics remain unclassified.")
          empty)

abbrev pub download_actions : List String
download_actions = "downloadobject" ∷ "getobject" ∷ "download" ∷ "export" ∷ []

unfoldable pub cloud_findings : CloudEventInput → List DetectionFinding
unfolding finding
cloud_findings e =
    when e.privileged
      (finding e.id "CLOUD-001" "UNUSUAL_ADMIN_ACTION" 20 (admin_reason e.service e.action) empty)
    ++ (if e.sensitive_resource
        then finding e.id "CLOUD-002" "SENSITIVE_RESOURCE_ACCESS" 20 (sensitive_reason e.resource)
            empty
          ∷ when (contains download_actions (lower e.action))
              (finding e.id "CLOUD-003" "MASS_DOWNLOAD" 20 (download_reason e.resource) empty)
        else [])

-- The three `isinstance` blocks exclude one another.
unfoldable pub kind_findings : Settings → TelemetryInput → List DetectionFinding
unfolding endpoint_findings network_findings cloud_findings
kind_findings s (authentication e) = []
kind_findings s (endpoint e) = endpoint_findings e
kind_findings s (network e) = network_findings s e
kind_findings s (cloud e) = cloud_findings e

unfoldable pub detect_event_rules : Settings → TelemetryInput → List DetectionFinding
unfolding finding kind_findings detect_powershell
detect_event_rules s e =
    when (detect_powershell e) (
      finding (raw_id e) "ENDP-001" "SUSPICIOUS_POWERSHELL" 30
        (fixed_reason
          "PowerShell executed with a suspicious encoded or download-expression pattern.")
        empty)
    ++ kind_findings s e
