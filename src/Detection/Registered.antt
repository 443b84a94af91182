-- ===== src/Detection/Registered.antt =====
-- Every finding of the engine keeps to the registry of rules.
use cirt_lens.Base.{
  ℕ, String, ◌≡◌, refl, Bool, true, false, ◌&&◌, Option, none, some, List, [], ◌∷◌, ◌++◌, ◌==◌, leb,
  if◌then◌else◌, arith, All, All-append, Bool-cases, inl, inr, sort_by,
}
use cirt_lens.Config.{Settings, minutes}
use cirt_lens.Telemetry.{
  TelemetryInput, AuthenticationEventInput, CloudEventInput, DetectionFinding, Reason,
  authentication, raw_timestamp, endpoint, network, cloud, EndpointEventInput, NetworkEventInput,
}
use cirt_lens.Detection.Rules.{Rule, rules, find_rule}
use cirt_lens.Detection.Travel.{
  or_default, no_recent, successful, travel_findings, travel_loop, Recent, detect_impossible_travel,
}
use cirt_lens.Detection.Mfa.{
  ByUser, group_denied, fatigue_findings, report_group, fatigue_users, detect_mfa_fatigue,
}
use cirt_lens.Detection.Devices.{Baseline, new_device_findings, is_new_device, detect_new_devices}
use cirt_lens.Detection.EventRules.{
  when, endpoint_findings, network_findings, cloud_findings, kind_findings,
}
use cirt_lens.Detection.Privilege.{
  suspicious_logins, privilege_finding, privilege_loop, detect_temporal_privilege,
}
use cirt_lens.Detection.Run.{event_rule_findings, base_findings, run_detection}

-- The flag that a rule raises.
abbrev pub flag_of : String → String
flag_of rule =
    if rule == "AUTH-001"
    then "IMPOSSIBLE_TRAVEL"
    else if rule == "AUTH-002"
    then "MFA_FATIGUE"
    else if rule == "AUTH-003"
    then "NEW_DEVICE"
    else if rule == "ENDP-001"
    then "SUSPICIOUS_POWERSHELL"
    else if rule == "ENDP-002"
    then "CREDENTIAL_ACCESS"
    else if rule == "ENDP-003"
    then "PERSISTENCE"
    else if rule == "NET-001"
    then "KNOWN_MALICIOUS_IP"
    else if rule == "NET-002"
    then "UNUSUAL_EGRESS"
    else if rule == "NET-003"
    then "DATA_EXFILTRATION"
    else if rule == "CLOUD-001"
    then "UNUSUAL_ADMIN_ACTION"
    else if rule == "CLOUD-002"
    then "SENSITIVE_RESOURCE_ACCESS"
    else if rule == "CLOUD-003"
    then "MASS_DOWNLOAD"
    else "PRIVILEGE_ESCALATION"

abbrev matches : Option Rule → DetectionFinding → Bool
matches none f = false
matches (some rule) f =
    (f.rule_version == rule.version)
    && (leb f.risk_contribution rule.risk && (f.flag == flag_of f.rule_id))

-- The rule is in `RULES`, the version is the registered one, the points are at most the registered
-- risk, and the flag is that of the rule.
abbrev pub IsRegistered : DetectionFinding → Type 0
IsRegistered f = matches (find_rule rules f.rule_id) f ≡ true

when-IsRegistered : (b : Bool) (f : DetectionFinding) → IsRegistered f → All IsRegistered (when b f)
when-IsRegistered true f h = (h, tt)
when-IsRegistered false f h = tt

append-IsRegistered :
    (xs ys : List DetectionFinding)
    → All IsRegistered xs
    → All IsRegistered ys
    → All IsRegistered (xs ++ ys)
append-IsRegistered xs ys = All-append IsRegistered xs ys

travel_findings-IsRegistered :
    (c : AuthenticationEventInput) (p : Option AuthenticationEventInput)
    → All IsRegistered (travel_findings c p)
unfolding travel_findings
travel_findings-IsRegistered c none = tt
travel_findings-IsRegistered c (some p) = (refl, (refl, tt))

travel_loop-IsRegistered :
    (w : ℕ) (xs : List AuthenticationEventInput) (r : Recent)
    → All IsRegistered (travel_loop w r xs)
unfolding travel_loop
travel_loop-IsRegistered w [] r = tt
travel_loop-IsRegistered w (x ∷ xs) r =
    append-IsRegistered _ _ (travel_findings-IsRegistered x _) (travel_loop-IsRegistered w xs _)

fatigue_findings-IsRegistered :
    (r : Reason) (ids : List String) (g : List AuthenticationEventInput)
    → All IsRegistered (fatigue_findings r ids g)
unfolding fatigue_findings
fatigue_findings-IsRegistered r ids [] = tt
fatigue_findings-IsRegistered r ids (e ∷ []) = (refl, tt)
fatigue_findings-IsRegistered r ids (e ∷ f ∷ g) =
    (refl, fatigue_findings-IsRegistered r ids (f ∷ g))

report_group-IsRegistered :
    (n : ℕ) (user : String) (g : Option (List AuthenticationEventInput))
    → All IsRegistered (report_group n user g)
unfolding report_group
report_group-IsRegistered n user none = tt
report_group-IsRegistered n user (some g) = fatigue_findings-IsRegistered _ _ g

fatigue_users-IsRegistered :
    (n w : ℕ) (by_user : ByUser) → All IsRegistered (fatigue_users n w by_user)
unfolding fatigue_users
fatigue_users-IsRegistered n w [] = tt
fatigue_users-IsRegistered n w ((user, denied) ∷ rest) =
    append-IsRegistered _ _ (report_group-IsRegistered n user _)
      (fatigue_users-IsRegistered n w rest)

new_device_findings-IsRegistered :
    (b : Baseline) (events : List TelemetryInput) → All IsRegistered (new_device_findings b events)
unfolding new_device_findings
new_device_findings-IsRegistered b [] = tt
new_device_findings-IsRegistered b (authentication e ∷ es) = elim (Bool-cases (is_new_device b e)) [
  | inl t ↦ rw t (refl, new_device_findings-IsRegistered b es)
  | inr f ↦ rw f (new_device_findings-IsRegistered b es)
]
new_device_findings-IsRegistered b (endpoint e ∷ es) = new_device_findings-IsRegistered b es
new_device_findings-IsRegistered b (network e ∷ es) = new_device_findings-IsRegistered b es
new_device_findings-IsRegistered b (cloud e ∷ es) = new_device_findings-IsRegistered b es

endpoint_findings-IsRegistered : (e : EndpointEventInput) → All IsRegistered (endpoint_findings e)
unfolding endpoint_findings
endpoint_findings-IsRegistered e = ground arith

network_findings-IsRegistered :
    (s : Settings) (e : NetworkEventInput) → All IsRegistered (network_findings s e)
unfolding network_findings
network_findings-IsRegistered s e = ground arith

cloud_findings-IsRegistered : (e : CloudEventInput) → All IsRegistered (cloud_findings e)
unfolding cloud_findings
cloud_findings-IsRegistered e = ground arith

kind_findings-IsRegistered :
    (s : Settings) (e : TelemetryInput) → All IsRegistered (kind_findings s e)
unfolding kind_findings
kind_findings-IsRegistered s (authentication e) = tt
kind_findings-IsRegistered s (endpoint e) = endpoint_findings-IsRegistered e
kind_findings-IsRegistered s (network e) = network_findings-IsRegistered s e
kind_findings-IsRegistered s (cloud e) = cloud_findings-IsRegistered e

event_rule_findings-IsRegistered :
    (s : Settings) (es : List TelemetryInput) → All IsRegistered (event_rule_findings s es)
unfolding event_rule_findings
event_rule_findings-IsRegistered s [] = tt
event_rule_findings-IsRegistered s (e ∷ es) =
    append-IsRegistered _ _
      (append-IsRegistered _ _ (when-IsRegistered _ _ refl) (kind_findings-IsRegistered s e))
      (event_rule_findings-IsRegistered s es)

privilege_finding-IsRegistered :
    (c : CloudEventInput) (prior : List AuthenticationEventInput)
    → All IsRegistered (privilege_finding c prior)
unfolding privilege_finding
privilege_finding-IsRegistered c [] = tt
privilege_finding-IsRegistered c (e ∷ es) = (refl, tt)

privileged-IsRegistered :
    (b : Bool) (fs : List DetectionFinding)
    → All IsRegistered fs
    → All IsRegistered (if b then fs else [])
privileged-IsRegistered true fs h = h
privileged-IsRegistered false fs h = tt

privilege_loop-IsRegistered :
    (w : ℕ) (auth : List AuthenticationEventInput) (es : List TelemetryInput)
    → All IsRegistered (privilege_loop w auth es)
unfolding privilege_loop
privilege_loop-IsRegistered w auth [] = tt
privilege_loop-IsRegistered w auth (cloud c ∷ es) =
    append-IsRegistered _ _
      (privileged-IsRegistered c.privileged _ (privilege_finding-IsRegistered c _))
      (privilege_loop-IsRegistered w auth es)
privilege_loop-IsRegistered w auth (authentication e ∷ es) = privilege_loop-IsRegistered w auth es
privilege_loop-IsRegistered w auth (endpoint e ∷ es) = privilege_loop-IsRegistered w auth es
privilege_loop-IsRegistered w auth (network e ∷ es) = privilege_loop-IsRegistered w auth es

travel-IsRegistered :
    (s : Settings) (es : List TelemetryInput) (w : Option ℕ)
    → All IsRegistered (detect_impossible_travel s es w)
unfolding detect_impossible_travel
travel-IsRegistered s es w =
    travel_loop-IsRegistered _
      (sort_by (λ (e : AuthenticationEventInput). e.timestamp) (successful es)) no_recent

fatigue-IsRegistered :
    (s : Settings) (es : List TelemetryInput) (n w : Option ℕ)
    → All IsRegistered (detect_mfa_fatigue s es n w)
unfolding detect_mfa_fatigue
fatigue-IsRegistered s es n w =
    fatigue_users-IsRegistered (or_default n s.mfa_fatigue_threshold)
      (minutes (or_default w s.mfa_fatigue_window_minutes))
      (group_denied [] (sort_by raw_timestamp es))

devices-IsRegistered :
    (es : List TelemetryInput) (b : Baseline) → All IsRegistered (detect_new_devices es b)
unfolding detect_new_devices
devices-IsRegistered es b = new_device_findings-IsRegistered b (sort_by raw_timestamp es)

privilege-IsRegistered :
    (s : Settings) (es : List TelemetryInput) (fs : List DetectionFinding)
    → All IsRegistered (detect_temporal_privilege s es fs)
unfolding detect_temporal_privilege
privilege-IsRegistered s es fs =
    privilege_loop-IsRegistered (minutes s.privileged_action_after_auth_window_minutes)
      (suspicious_logins es fs) es

base_findings-IsRegistered :
    (s : Settings) (events : List TelemetryInput) (baseline : Baseline)
    → All IsRegistered (base_findings s events baseline)
base_findings-IsRegistered s events baseline =
    unfold base_findings in
    append-IsRegistered (detect_impossible_travel s events none) _
      (travel-IsRegistered s events none)
      (append-IsRegistered (detect_mfa_fatigue s events none none) _
        (fatigue-IsRegistered s events none none)
        (append-IsRegistered (detect_new_devices events baseline) (event_rule_findings s events)
          (devices-IsRegistered events baseline) (event_rule_findings-IsRegistered s events)))

-- For all settings, events and baselines, every finding of `run_detection` has a rule of the
-- registry, the registered version of that rule, the rule's flag, and at most its registered risk.
pub run_detection-IsRegistered :
    (s : Settings) (events : List TelemetryInput) (baseline : Baseline)
    → All IsRegistered (run_detection s events baseline)
run_detection-IsRegistered s events baseline =
    unfold run_detection in
    append-IsRegistered (base_findings s events baseline)
      (detect_temporal_privilege s events (base_findings s events baseline))
      (base_findings-IsRegistered s events baseline)
      (privilege-IsRegistered s events (base_findings s events baseline))
