-- ===== src/Detection/Causes.antt =====
-- Which events the device and the privilege rules report, exactly.
use cirt_lens.Base.{
  ap, eq_sym, ℕ, ◌+◌, leb, ◌∙◌, true, String, ◌≡◌, refl, Bool, false, ◌&&◌, ◌||◌, List, [], ◌∷◌,
  ◌==◌, arith, any, any-append, any-sort_by, keep, contains, All, sort_by,
}
use cirt_lens.Config.{Settings, minutes}
use cirt_lens.Telemetry.{
  AuthResult, success, failure, is_success, TelemetryInput, AuthenticationEventInput,
  CloudEventInput, DetectionFinding, authentication, endpoint, network, cloud, raw_timestamp,
}
use cirt_lens.Detection.Travel.{successful}
use cirt_lens.Detection.Devices.{Baseline, is_new_device, new_device_findings, detect_new_devices}
use cirt_lens.Detection.Privilege.{
  causal_flags, suspicious_ids, suspicious_logins, precedes, privilege_finding, privilege_loop,
  detect_temporal_privilege,
}

-- Some finding is about the event `i`.
abbrev pub reported : String → List DetectionFinding → Bool
reported i = any (λ f. f.event_id == i)

-- The event is a login from a device that the baseline of its user does not hold.
abbrev pub untrusted_login : Baseline → String → TelemetryInput → Bool
untrusted_login baseline i (authentication e) = (e.id == i) && is_new_device baseline e
untrusted_login baseline i (endpoint e) = false
untrusted_login baseline i (network e) = false
untrusted_login baseline i (cloud e) = false

reported-new_device_findings :
    (b : Baseline) (i : String) (es : List TelemetryInput)
    → reported i (new_device_findings b es) ≡ any (untrusted_login b i) es
unfolding new_device_findings
reported-new_device_findings b i [] = refl
reported-new_device_findings b i (authentication e ∷ es) =
    ground (arith, reported-new_device_findings b i es)
reported-new_device_findings b i (endpoint e ∷ es) = reported-new_device_findings b i es
reported-new_device_findings b i (network e ∷ es) = reported-new_device_findings b i es
reported-new_device_findings b i (cloud e ∷ es) = reported-new_device_findings b i es

-- An event has a new-device finding exactly when it is an authentication, successful or not, from
-- a device outside the trusted devices of its user; the other events of the batch do not matter.
pub reported-detect_new_devices :
    (events : List TelemetryInput) (baseline : Baseline) (i : String)
    → reported i (detect_new_devices events baseline) ≡ any (untrusted_login baseline i) events
unfolding detect_new_devices
reported-detect_new_devices events baseline i =
    rw (reported-new_device_findings baseline i (sort_by raw_timestamp events))
      (any-sort_by raw_timestamp (untrusted_login baseline i) events)

-- The event is a privileged cloud action, and one of the logins that are held precedes it.
abbrev pub follows_login : ℕ → List AuthenticationEventInput → String → TelemetryInput → Bool
follows_login window auth i (cloud c) =
    (c.id == i) && (c.privileged && any (precedes window c) auth)
follows_login window auth i (authentication e) = false
follows_login window auth i (endpoint e) = false
follows_login window auth i (network e) = false

reported-privilege_finding :
    (w : ℕ) (c : CloudEventInput) (i : String) (auth : List AuthenticationEventInput)
    → reported i (privilege_finding c (keep (precedes w c) auth))
      ≡ ((c.id == i) && any (precedes w c) auth)
unfolding privilege_finding
reported-privilege_finding w c i [] = ground arith
reported-privilege_finding w c i (e ∷ es) = ground (arith, reported-privilege_finding w c i es)

reported-privilege_loop :
    (w : ℕ) (auth : List AuthenticationEventInput) (i : String) (es : List TelemetryInput)
    → reported i (privilege_loop w auth es) ≡ any (follows_login w auth i) es
unfolding privilege_loop
reported-privilege_loop w auth i [] = refl
reported-privilege_loop w auth i (cloud c ∷ es) =
    rw (any-append (λ (f : DetectionFinding). f.event_id == i))
      (ground (arith, reported-privilege_loop w auth i es, reported-privilege_finding w c i auth))
reported-privilege_loop w auth i (authentication e ∷ es) = reported-privilege_loop w auth i es
reported-privilege_loop w auth i (endpoint e ∷ es) = reported-privilege_loop w auth i es
reported-privilege_loop w auth i (network e ∷ es) = reported-privilege_loop w auth i es

-- A finding of impossible travel or of a new device about the event `i`.
abbrev pub is_cause : String → DetectionFinding → Bool
is_cause i f = f.event_id == i && (f.flag == "IMPOSSIBLE_TRAVEL" || f.flag == "NEW_DEVICE")

abbrev pub succeeded : AuthResult → Bool
succeeded success = true
succeeded failure = false

is_success-succeeded : (r : AuthResult) → is_success r ≡ succeeded r
is_success-succeeded success = refl
is_success-succeeded failure = refl

-- A successful login with such a finding, by the user of the action, not after the action, and the
-- action within the window after it.
abbrev pub is_suspicious : List DetectionFinding → ℕ → CloudEventInput → TelemetryInput → Bool
is_suspicious findings window c (authentication e) =
    succeeded e.result
    && (any (is_cause e.id) findings
        && (e.user == c.user
            && (leb e.timestamp c.timestamp && leb c.timestamp (e.timestamp + window))))
is_suspicious findings window c (endpoint e) = false
is_suspicious findings window c (network e) = false
is_suspicious findings window c (cloud e) = false

-- The privileged cloud action `i`, after a suspicious login of the batch.
abbrev pub escalates :
    List DetectionFinding → ℕ → List TelemetryInput → String → TelemetryInput → Bool
escalates findings window events i (cloud c) =
    (c.id == i) && (c.privileged && any (is_suspicious findings window c) events)
escalates findings window events i (authentication e) = false
escalates findings window events i (endpoint e) = false
escalates findings window events i (network e) = false

contains-suspicious_ids :
    (findings : List DetectionFinding) (i : String)
    → contains (suspicious_ids findings) i ≡ any (is_cause i) findings
contains-suspicious_ids [] i = refl
contains-suspicious_ids (f ∷ fs) i = ground (
  arith,
  contains-suspicious_ids fs i,
  eq_sym "IMPOSSIBLE_TRAVEL" f.flag,
  eq_sym "NEW_DEVICE" f.flag,
)

precedes-window :
    (w : ℕ) (c : CloudEventInput) (e : AuthenticationEventInput)
    → precedes w c e
      ≡ (e.user == c.user && (leb e.timestamp c.timestamp && leb c.timestamp (e.timestamp + w)))
unfolding precedes
precedes-window w c e = ground arith

is_suspicious_login :
    (findings : List DetectionFinding) (w : ℕ) (c : CloudEventInput) (e : AuthenticationEventInput)
    → (is_success e.result && (contains (suspicious_ids findings) e.id && precedes w c e))
      ≡ is_suspicious findings w c (authentication e)
is_suspicious_login findings w c e =
    ap (λ b. b && (contains (suspicious_ids findings) e.id && precedes w c e))
      (is_success-succeeded e.result)
    ∙ ap (λ b. succeeded e.result && (b && precedes w c e)) (contains-suspicious_ids findings e.id)
    ∙ ap (λ b. succeeded e.result && (any (is_cause e.id) findings && b)) (precedes-window w c e)

any-keep-successful :
    (p q : AuthenticationEventInput → Bool) (e : AuthenticationEventInput)
    (es : List TelemetryInput)
    → any q (keep p (successful (authentication e ∷ es)))
      ≡ ((is_success e.result && (p e && q e)) || any q (keep p (successful es)))
any-keep-successful p q e es = ground arith

any-suspicious_logins :
    (findings : List DetectionFinding) (w : ℕ) (c : CloudEventInput) (events : List TelemetryInput)
    → any (precedes w c) (suspicious_logins events findings)
      ≡ any (is_suspicious findings w c) events
any-suspicious_logins findings w c [] = refl
any-suspicious_logins findings w c (authentication e ∷ es) =
    any-keep-successful (λ (x : AuthenticationEventInput). contains (suspicious_ids findings) x.id)
      (precedes w c) e es
    ∙ ap
        (λ b.
          (is_success e.result && (contains (suspicious_ids findings) e.id && precedes w c e)) || b)
        (any-suspicious_logins findings w c es)
    ∙ ap (λ b. b || any (is_suspicious findings w c) es) (is_suspicious_login findings w c e)
any-suspicious_logins findings w c (endpoint e ∷ es) = any-suspicious_logins findings w c es
any-suspicious_logins findings w c (network e ∷ es) = any-suspicious_logins findings w c es
any-suspicious_logins findings w c (cloud e ∷ es) = any-suspicious_logins findings w c es

follows_login-escalates :
    (findings : List DetectionFinding) (w : ℕ) (events es : List TelemetryInput) (i : String)
    → any (follows_login w (suspicious_logins events findings) i) es
      ≡ any (escalates findings w events i) es
follows_login-escalates findings w events [] i = refl
follows_login-escalates findings w events (cloud c ∷ es) i =
    rw (any-suspicious_logins findings w c events, follows_login-escalates findings w events es i)
      refl
follows_login-escalates findings w events (authentication e ∷ es) i =
    follows_login-escalates findings w events es i
follows_login-escalates findings w events (endpoint e ∷ es) i =
    follows_login-escalates findings w events es i
follows_login-escalates findings w events (network e ∷ es) i =
    follows_login-escalates findings w events es i

-- An event has a privilege-escalation finding exactly when it is a privileged cloud action and some
-- successful login of the batch with an impossible-travel or new-device finding, by the same user, is
-- not later than it and at most the configured window earlier.
pub reported-detect_temporal_privilege :
    (s : Settings) (events : List TelemetryInput) (findings : List DetectionFinding) (i : String)
    → reported i (detect_temporal_privilege s events findings)
      ≡ any
          (escalates findings (minutes s.privileged_action_after_auth_window_minutes) events i)
          events
unfolding detect_temporal_privilege
reported-detect_temporal_privilege s events findings i =
    reported-privilege_loop (minutes s.privileged_action_after_auth_window_minutes)
      (suspicious_logins events findings) i events
    ∙ follows_login-escalates findings (minutes s.privileged_action_after_auth_window_minutes)
        events events i

-- No finding has one of the two causal flags.
abbrev pub IsNotCausal : DetectionFinding → Type 0
IsNotCausal f = contains causal_flags f.flag ≡ false

no_suspicious_ids : (fs : List DetectionFinding) → All IsNotCausal fs → suspicious_ids fs ≡ []
no_suspicious_ids [] h = refl
no_suspicious_ids (f ∷ fs) (a, h) = rw a (no_suspicious_ids fs h)

keep_none {ℓ} : {A : Type ℓ} (xs : List A) → keep (λ x. false) xs ≡ []
keep_none [] = refl
keep_none (x ∷ xs) = keep_none xs

no_login_no_privilege : (w : ℕ) (es : List TelemetryInput) → privilege_loop w [] es ≡ []
unfolding privilege_loop
no_login_no_privilege w [] = refl
no_login_no_privilege w (cloud c ∷ es) = ground (arith, no_login_no_privilege w es)
no_login_no_privilege w (authentication e ∷ es) = no_login_no_privilege w es
no_login_no_privilege w (endpoint e ∷ es) = no_login_no_privilege w es
no_login_no_privilege w (network e ∷ es) = no_login_no_privilege w es

-- Findings without a causal flag, such as denied MFA prompts alone, never make a privileged action
-- an escalation, whatever the events and the window are.
pub fatigue_is_not_a_cause :
    (s : Settings) (events : List TelemetryInput) (findings : List DetectionFinding)
    → All IsNotCausal findings
    → detect_temporal_privilege s events findings ≡ []
unfolding detect_temporal_privilege
fatigue_is_not_a_cause s events findings h = rw (no_suspicious_ids findings h) (
    rw (keep_none (successful events))
      (no_login_no_privilege (minutes s.privileged_action_after_auth_window_minutes) events))
