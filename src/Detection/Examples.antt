-- ===== src/Detection/Examples.antt =====
-- Tests of the detection rules, and their theorems at concrete inputs.
use cirt_lens.Base.{◌<◌, ◌≡◌, refl, List, [], ◌∷◌, map, none, some, any, All, sort_by, arith, lower}
use cirt_lens.Config.{default_settings, minutes}
use cirt_lens.Telemetry.{AuthenticationEventInput, DetectionFinding, authentication, network}
use cirt_lens.Detection.Travel.{detect_impossible_travel, successful}
use cirt_lens.Detection.Mfa.{fatigue_group, detect_mfa_fatigue, group_span}
use cirt_lens.Detection.EventRules.{detect_event_rules}
use cirt_lens.Detection.Privilege.{detect_temporal_privilege}
use cirt_lens.Detection.Run.{run_detection}
use cirt_lens.Detection.Registered.{IsRegistered, run_detection-IsRegistered}
use cirt_lens.Detection.TravelWindow.{travel_reference, detect_impossible_travel-eq-reference}
use cirt_lens.Detection.Fatigue.{
  IsFatigueGroup, IsRunOf, fatigue_group_sound, fatigue_group_complete,
}
use cirt_lens.Detection.Causes.{reported, escalates, reported-detect_temporal_privilege}
use cirt_lens.Detection.Samples.{upload, baseline, travel, prompts}

travel_flags :
    map (λ f. f.flag) (run_detection default_settings travel baseline)
    ≡ "IMPOSSIBLE_TRAVEL" ∷ "IMPOSSIBLE_TRAVEL" ∷ "UNUSUAL_ADMIN_ACTION"
      ∷ "SENSITIVE_RESOURCE_ACCESS" ∷ "PRIVILEGE_ESCALATION" ∷ []
unfolding run_detection lower
travel_flags = refl

fatigue_points :
    map
      (λ f. f.risk_contribution)
      (detect_mfa_fatigue default_settings (map authentication prompts) none none)
    ≡ 6 ∷ 6 ∷ 6 ∷ 7 ∷ []
unfolding detect_mfa_fatigue
fatigue_points = refl

egress_rules :
    map
      (λ f. f.rule_id)
      (detect_event_rules default_settings (network (upload "NET-1" 1 1_000_000_000)))
    ≡ "NET-001" ∷ "NET-002" ∷ "NET-003" ∷ []
unfolding detect_event_rules
egress_rules = refl

run_detection-IsRegistered_example :
    All IsRegistered (run_detection default_settings travel baseline)
run_detection-IsRegistered_example = run_detection-IsRegistered default_settings travel baseline

detect_impossible_travel-eq-reference_example :
    detect_impossible_travel default_settings travel none
    ≡ travel_reference
        (minutes 60)
        (sort_by (λ (e : AuthenticationEventInput). e.timestamp) (successful travel))
        []
detect_impossible_travel-eq-reference_example =
    detect_impossible_travel-eq-reference default_settings travel none

found_group : fatigue_group 4 (minutes 10) prompts ≡ some prompts
unfolding fatigue_group
found_group = refl

fatigue_group_sound_example : IsFatigueGroup 4 (minutes 10) prompts × IsRunOf prompts prompts
fatigue_group_sound_example = fatigue_group_sound 4 (minutes 10) prompts prompts found_group

no_group : fatigue_group 4 (minutes 2) prompts ≡ none
unfolding fatigue_group
no_group = refl

fatigue_group_complete_example : minutes 2 < group_span prompts
fatigue_group_complete_example =
    fatigue_group_complete 4 (minutes 2) [] prompts [] (omega arith) refl no_group

abbrev travel_findings_found : List DetectionFinding
travel_findings_found = detect_impossible_travel default_settings travel none

reported-detect_temporal_privilege_example :
    reported "CLOUD-1" (detect_temporal_privilege default_settings travel travel_findings_found)
    ≡ any (escalates travel_findings_found (minutes 60) travel "CLOUD-1") travel
reported-detect_temporal_privilege_example =
    reported-detect_temporal_privilege default_settings travel travel_findings_found "CLOUD-1"
