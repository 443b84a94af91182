-- ===== src/Detection/Privilege.antt =====
-- detection_engine.py: `detect_temporal_privilege`.
use Prim.Native.Nat.{◌/◌}
use cirt_lens.Base.{
  ℕ, ◌-◌, String, Bool, ◌&&◌, List, [], ◌∷◌, ◌++◌, map, ◌==◌, leb, ltb, if◌then◌else◌, keep,
  contains,
}
use cirt_lens.Config.{Settings, minutes}
use cirt_lens.Telemetry.{
  TelemetryInput, AuthenticationEventInput, CloudEventInput, DetectionFinding, cloud,
  privilege_reason, privilege,
}
use cirt_lens.Detection.Rules.{finding}
use cirt_lens.Detection.Travel.{successful}

-- `f.flag in {"IMPOSSIBLE_TRAVEL", "NEW_DEVICE"}`
abbrev pub causal_flags : List String
causal_flags = "IMPOSSIBLE_TRAVEL" ∷ "NEW_DEVICE" ∷ []

abbrev pub suspicious_ids : List DetectionFinding → List String
suspicious_ids findings = map (λ f. f.event_id) (keep (λ f. contains causal_flags f.flag) findings)

-- Successful authentications with a causal anomaly.
abbrev pub suspicious_logins :
    List TelemetryInput → List DetectionFinding → List AuthenticationEventInput
suspicious_logins events findings =
    keep (λ e. contains (suspicious_ids findings) e.id) (successful events)

-- The same user, and `timedelta(0) <= cloud.timestamp - e.timestamp <= window`.
unfoldable pub precedes : ℕ → CloudEventInput → AuthenticationEventInput → Bool
precedes window c e =
    (e.user == c.user) && (leb e.timestamp c.timestamp && leb (c.timestamp - e.timestamp) window)

-- `max(prior, key=timestamp)`: of equal ones the first.
abbrev pub latest :
    AuthenticationEventInput → List AuthenticationEventInput → AuthenticationEventInput
latest best [] = best
latest best (e ∷ es) = latest (if ltb best.timestamp e.timestamp then e else best) es

unfoldable pub privilege_finding :
    CloudEventInput → List AuthenticationEventInput → List DetectionFinding
unfolding finding
privilege_finding c [] = []
privilege_finding c (e ∷ es) =
    let elapsed = (c.timestamp - (latest e es).timestamp) / minutes 1 in
    finding c.id "CLOUD-004" "PRIVILEGE_ESCALATION" 30 (privilege_reason c.service elapsed c.user)
      (privilege (map (λ a. a.id) (e ∷ es)) elapsed c.id)
    ∷ []

unfoldable pub privilege_loop :
    ℕ → List AuthenticationEventInput → List TelemetryInput → List DetectionFinding
unfolding privilege_finding precedes
privilege_loop window auth [] = []
privilege_loop window auth (cloud c ∷ es) =
    (if c.privileged then privilege_finding c (keep (precedes window c) auth) else [])
    ++ privilege_loop window auth es
privilege_loop window auth (_ ∷ es) = privilege_loop window auth es

unfoldable pub detect_temporal_privilege :
    Settings → List TelemetryInput → List DetectionFinding → List DetectionFinding
unfolding privilege_loop
detect_temporal_privilege s events findings =
    privilege_loop (minutes s.privileged_action_after_auth_window_minutes)
      (suspicious_logins events findings) events
