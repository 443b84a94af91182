-- ===== src/Config.antt =====
-- backend/app/config.py: the settings that the modelled code reads. Each is an environment
-- variable with a default, so a theorem holds for every value unless it says otherwise.
use cirt_lens.Base.{ℕ, ◌*◌, Bool, false, String}

pub record Settings : Type 0 where
  pub auth_required : Bool
  pub default_tenant_id : String
  pub max_processing_attempts : ℕ
  pub approval_ttl_minutes : ℕ
  pub auth0_connector_live : Bool
  pub impossible_travel_window_minutes : ℕ
  pub mfa_fatigue_threshold : ℕ
  pub mfa_fatigue_window_minutes : ℕ
  pub unusual_egress_bytes : ℕ
  pub correlation_window_minutes : ℕ
  pub correlation_min_score : ℕ
  pub privileged_action_after_auth_window_minutes : ℕ
  pub max_incident_span_minutes : ℕ
  -- a float in the source, here a whole number as its default is
  pub min_group_cohesion_score : ℕ

-- The values with no environment variable set.
abbrev pub default_settings : Settings
default_settings = record {
  auth_required = false;
  default_tenant_id = "tenant-demo";
  max_processing_attempts = 3;
  approval_ttl_minutes = 30;
  auth0_connector_live = false;
  impossible_travel_window_minutes = 60;
  mfa_fatigue_threshold = 4;
  mfa_fatigue_window_minutes = 10;
  unusual_egress_bytes = 500_000_000;
  correlation_window_minutes = 60;
  correlation_min_score = 5;
  privileged_action_after_auth_window_minutes = 60;
  max_incident_span_minutes = 90;
  min_group_cohesion_score = 5;
}

-- Times are microseconds, the resolution of `datetime`: `timedelta(minutes=n)` and `seconds=n`.
abbrev pub minutes : ℕ → ℕ
minutes n = n * 60_000_000

abbrev pub seconds : ℕ → ℕ
seconds n = n * 1_000_000
