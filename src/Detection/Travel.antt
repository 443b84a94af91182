-- ===== src/Detection/Travel.antt =====
-- detection_engine.py: `detect_impossible_travel`.
use Prim.Native.Nat.{◌/◌}
use mathlib.Core.List.{reverse}
use cirt_lens.Base.{
  ℕ, zero, suc, ◌-◌, String, Bool, ◌&&◌, not, Option, none, some, List, [], ◌∷◌, ◌++◌, ◌==◌, leb,
  ltb, if◌then◌else◌, first, sort_by,
}
use cirt_lens.Config.{Settings, minutes}
use cirt_lens.Telemetry.{
  TelemetryInput, AuthenticationEventInput, DetectionFinding, authentication, is_success,
  travel_reason, later_login, earlier_login,
}
use cirt_lens.Detection.Rules.{finding}

-- `given or default`
abbrev pub or_default : Option ℕ → ℕ → ℕ
or_default none d = d
or_default (some zero) d = d
or_default (some (suc n)) d = suc n

-- The successful authentications, in the order of the input.
abbrev pub successful : List TelemetryInput → List AuthenticationEventInput
successful [] = []
successful (authentication e ∷ es) =
    let rest = successful es in if is_success e.result then e ∷ rest else rest
successful (_ ∷ es) = successful es

-- `while candidates and current.timestamp - candidates[0].timestamp > window: pop(0)`
unfoldable pub prune :
    ℕ → AuthenticationEventInput → List AuthenticationEventInput → List AuthenticationEventInput
prune window current [] = []
prune window current (c ∷ cs) =
    let rest = prune window current cs in
    if ltb window (current.timestamp - c.timestamp) then rest else c ∷ cs

-- The test of the inner loop: another country, and `timedelta(0) <= delta <= window`.
unfoldable pub conflicts : ℕ → AuthenticationEventInput → AuthenticationEventInput → Bool
conflicts window current previous =
    not (current.country == previous.country)
    && (leb previous.timestamp current.timestamp
        && leb (current.timestamp - previous.timestamp) window)

-- The two findings of a pair.
unfoldable pub travel_findings :
    AuthenticationEventInput → Option AuthenticationEventInput → List DetectionFinding
unfolding finding
travel_findings current none = []
travel_findings current (some previous) =
    let elapsed = (current.timestamp - previous.timestamp) / minutes 1 in
    let reason = travel_reason current.user previous.country current.country elapsed in
    let countries = previous.country ∷ current.country ∷ [] in
    finding previous.id "AUTH-001" "IMPOSSIBLE_TRAVEL" 0 reason
      (later_login current.id countries elapsed)
    ∷ finding current.id "AUTH-001" "IMPOSSIBLE_TRAVEL" 30 reason
        (earlier_login previous.id countries elapsed)
    ∷ []

-- `recent`, a `defaultdict(list)` by user.
abbrev pub Recent : Type 0
Recent = String → List AuthenticationEventInput

abbrev pub no_recent : Recent
no_recent user = []

abbrev pub store : Recent → String → List AuthenticationEventInput → Recent
store recent user value = λ u. if user == u then value else recent u

-- The outer loop. `for previous in reversed(candidates)` ends at the first pair.
unfoldable pub travel_loop : ℕ → Recent → List AuthenticationEventInput → List DetectionFinding
unfolding prune conflicts travel_findings
travel_loop window recent [] = []
travel_loop window recent (current ∷ rest) =
    let candidates = prune window current (recent current.user) in
    travel_findings current (first (conflicts window current) (reverse candidates))
    ++ travel_loop window (store recent current.user (candidates ++ current ∷ [])) rest

unfoldable pub detect_impossible_travel :
    Settings → List TelemetryInput → Option ℕ → List DetectionFinding
unfolding travel_loop
detect_impossible_travel s events window_minutes =
    travel_loop (minutes (or_default window_minutes s.impossible_travel_window_minutes)) no_recent
      (sort_by (λ e. e.timestamp) (successful events))
