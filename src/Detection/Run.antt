-- ===== src/Detection/Run.antt =====
-- detection_engine.py: `run_detection`.
use cirt_lens.Base.{List, [], ◌∷◌, ◌++◌, none}
use cirt_lens.Config.{Settings}
use cirt_lens.Telemetry.{TelemetryInput, DetectionFinding}
use cirt_lens.Detection.Travel.{detect_impossible_travel}
use cirt_lens.Detection.Mfa.{detect_mfa_fatigue}
use cirt_lens.Detection.Devices.{Baseline, detect_new_devices}
use cirt_lens.Detection.EventRules.{detect_event_rules}
use cirt_lens.Detection.Privilege.{detect_temporal_privilege}

-- `for event in events: results.extend(detect_event_rules(event))`
unfoldable pub event_rule_findings : Settings → List TelemetryInput → List DetectionFinding
unfolding detect_event_rules
event_rule_findings s [] = []
event_rule_findings s (e ∷ es) = detect_event_rules s e ++ event_rule_findings s es

-- The findings that `detect_temporal_privilege` reads.
unfoldable pub base_findings : Settings → List TelemetryInput → Baseline → List DetectionFinding
unfolding detect_impossible_travel detect_mfa_fatigue detect_new_devices event_rule_findings
base_findings s events baseline =
    detect_impossible_travel s events none
    ++ (detect_mfa_fatigue s events none none
        ++ (detect_new_devices events baseline ++ event_rule_findings s events))

unfoldable pub run_detection : Settings → List TelemetryInput → Baseline → List DetectionFinding
unfolding base_findings detect_temporal_privilege
run_detection s events baseline =
    let results = base_findings s events baseline in
    results ++ detect_temporal_privilege s events results
