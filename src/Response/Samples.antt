-- ===== src/Response/Samples.antt =====
-- A case, two users and a connector for the tests.
use cirt_lens.Base.{ℕ, String, true, none, some, [], ◌∷◌}
use cirt_lens.Config.{Settings, default_settings, minutes}
use cirt_lens.Telemetry.{DetectionFinding, fixed_reason, empty}
use cirt_lens.Risk.{critical}
use cirt_lens.Playbook.{Action, pending}
use cirt_lens.Correlation.Infer.{credential_compromise}
use cirt_lens.Store.{Incident, new, unset, Principal, Database}
use cirt_lens.Response.Execute.{IdentityConnector, answered}

abbrev pub strict : Settings
strict = record default_settings { auth_required = true }

abbrev pub analyst : Principal
analyst = record {
  user_id = "USR-1";
  tenant_id = "tenant-demo";
  email = "analyst@demo.local";
  role = "ANALYST";
  permissions = [];
}

abbrev pub responder : Principal
responder = record {
  user_id = "USR-2";
  tenant_id = "tenant-demo";
  email = "responder@demo.local";
  role = "RESPONDER";
  permissions = [];
}

abbrev pub fake : IdentityConnector
fake = record {
  name = "fake_identity";
  execute =
      λ action subject key dry_run. answered "SUCCEEDED" "FAKE-1" "no external system modified";
}

abbrev pub step_of : String → String → ℕ → Action
step_of action objective points = record {
  action = action;
  reason = "Credential Compromise";
  risk_reduction = "HIGH";
  reduction_points = points;
  objectives = objective ∷ [];
  status = pending;
  executed_at = none;
  analyst = none;
}

abbrev pub sample_case : Incident
sample_case = record {
  id = "INC-1";
  tenant_id = "tenant-demo";
  incident_type = credential_compromise;
  context = "an untrusted device" ∷ [];
  description = (2, 2, 1);
  created_at = minutes 1;
  updated_at = minutes 1;
  severity = critical;
  status = new;
  risk_score = 80;
  residual_risk_score = 80;
  confidence_score = 50;
  confidence_breakdown = record {
    detection_support = 14;
    source_corroboration = 0;
    correlation_cohesion = 25;
    threat_intelligence = 0;
    evidence_completeness = 4;
  };
  score_breakdown = record {
    detection_strength = 40;
    asset_context = 20;
    behavioral_anomaly = 14;
    threat_intelligence = 6;
  };
  primary_user = some "maya";
  primary_host = some "laptop";
  source_ips = [];
  affected_assets = "maya" ∷ [];
  event_ids = "AUTH-1" ∷ "AUTH-2" ∷ [];
  techniques = [];
  recommended_actions =
      step_of "Revoke active sessions" "invalidate_session" 12
      ∷ step_of "Disable account" "secure_identity" 15
      ∷ step_of "Block source IP" "block_known_source" 8
      ∷ [];
  assigned_to = none;
  triaged_at = none;
  incident_fingerprint = "f1";
  disposition = unset;
}

abbrev pub evidence : String → String → DetectionFinding
evidence event flag = record {
  event_id = event;
  rule_id = "AUTH-001";
  rule_version = "1.1";
  flag = flag;
  risk_contribution = 12;
  reason = fixed_reason "evidence";
  metadata = empty;
}

abbrev pub store : Database
store = record {
  events = [];
  findings = evidence "AUTH-1" "IMPOSSIBLE_TRAVEL" ∷ evidence "AUTH-2" "NEW_DEVICE" ∷ [];
  incidents = sample_case ∷ [];
  approvals = [];
  executions = [];
  activities = [];
  history = [];
  notes = [];
  bookmarks = [];
}
