-- ===== src/Detection/Mfa.antt =====
-- detection_engine.py: `detect_mfa_fatigue`.
use Prim.Native.Nat.{◌/◌}
use cirt_lens.Base.{
  ℕ, ◌+◌, ◌-◌, String, Option, none, some, List, [], ◌∷◌, ◌++◌, map, ◌==◌, leb, if◌then◌else◌,
  length, take, sort_by,
}
use cirt_lens.Config.{Settings, minutes}
use cirt_lens.Telemetry.{
  TelemetryInput, AuthenticationEventInput, DetectionFinding, Reason, authentication, is_denied,
  raw_timestamp, fatigue_reason, fatigue_evidence,
}
use cirt_lens.Detection.Rules.{finding}
use cirt_lens.Detection.Travel.{or_default}

-- `by_user`, a `defaultdict(list)`: the users in the order of their first denied prompt.
abbrev pub ByUser : Type 0
ByUser = List (String × List AuthenticationEventInput)

-- `by_user[event.user].append(event)`
unfoldable pub append_denied : AuthenticationEventInput → ByUser → ByUser
append_denied e [] = (e.user, e ∷ []) ∷ []
append_denied e ((user, denied) ∷ rest) =
    let later = append_denied e rest in
    if user == e.user then (user, denied ++ e ∷ []) ∷ rest else (user, denied) ∷ later

unfoldable pub group_denied : ByUser → List TelemetryInput → ByUser
unfolding append_denied
group_denied by_user [] = by_user
group_denied by_user (authentication e ∷ es) =
    group_denied (if is_denied e.mfa_result then append_denied e by_user else by_user) es
group_denied by_user (_ ∷ es) = group_denied by_user es

abbrev pub last_timestamp : ℕ → List AuthenticationEventInput → ℕ
last_timestamp t [] = t
last_timestamp t (e ∷ es) = last_timestamp e.timestamp es

-- `group[-1].timestamp - group[0].timestamp`
abbrev pub group_span : List AuthenticationEventInput → ℕ
group_span [] = 0
group_span (e ∷ es) = last_timestamp e.timestamp es - e.timestamp

-- The loop over `index`: the first run of `threshold` consecutive prompts inside the window. A
-- group begins at each prompt in turn, as long as it is full.
unfoldable pub fatigue_group :
    ℕ → ℕ → List AuthenticationEventInput → Option (List AuthenticationEventInput)
fatigue_group threshold window [] = none
fatigue_group threshold window (e ∷ es) =
    let rest = fatigue_group threshold window es in
    let group = take threshold (e ∷ es) in
    if leb threshold (length group)
    then if leb (group_span group) window then some group else rest
    else none

-- One finding for each prompt of the group, the last one with 7 points and the others with 6.
unfoldable pub fatigue_findings :
    Reason → List String → List AuthenticationEventInput → List DetectionFinding
unfolding finding
fatigue_findings reason ids [] = []
fatigue_findings reason ids (e ∷ []) =
    finding e.id "AUTH-002" "MFA_FATIGUE" 7 reason (fatigue_evidence ids) ∷ []
fatigue_findings reason ids (e ∷ f ∷ es) =
    finding e.id "AUTH-002" "MFA_FATIGUE" 6 reason (fatigue_evidence ids)
    ∷ fatigue_findings reason ids (f ∷ es)

unfoldable pub report_group :
    ℕ → String → Option (List AuthenticationEventInput) → List DetectionFinding
unfolding fatigue_findings
report_group threshold user none = []
report_group threshold user (some group) =
    fatigue_findings (fatigue_reason threshold user (group_span group / minutes 1 + 1))
      (map (λ e. e.id) group) group

unfoldable pub fatigue_users : ℕ → ℕ → ByUser → List DetectionFinding
unfolding report_group fatigue_group
fatigue_users threshold window [] = []
fatigue_users threshold window ((user, denied) ∷ rest) =
    report_group threshold user (fatigue_group threshold window denied)
    ++ fatigue_users threshold window rest

-- A threshold of 0 raises `IndexError` in the source on the first denied prompt; the settings are
-- taken with a positive threshold, and a group of no prompts is reported as nothing here.
unfoldable pub detect_mfa_fatigue :
    Settings → List TelemetryInput → Option ℕ → Option ℕ → List DetectionFinding
unfolding fatigue_users group_denied
detect_mfa_fatigue s events threshold window_minutes =
    fatigue_users (or_default threshold s.mfa_fatigue_threshold)
      (minutes (or_default window_minutes s.mfa_fatigue_window_minutes))
      (group_denied [] (sort_by raw_timestamp events))
