-- ===== src/Pipeline/Samples.antt =====
-- A batch and an environment for the tests.
use cirt_lens.Base.{false, List, [], ◌∷◌}
use cirt_lens.Config.{default_settings, minutes}
use cirt_lens.Telemetry.{TelemetryInput, authentication, cloud, approved}
use cirt_lens.Detection.Samples.{login, admin_action, baseline}
use cirt_lens.Store.{Database}
use cirt_lens.Pipeline.Process.{Environment}

abbrev pub environment : Environment
environment = record {
  settings = default_settings;
  digests = record {
    of_case = λ tenant_id kind principal bucket. principal;
    of_copy = λ tenant_id fingerprint ids. "copy";
  };
  fresh = λ n. "INC-1";
  now = minutes 100;
  mentions = λ e text. false;
  baseline_devices = baseline;
}

abbrev pub empty_database : Database
empty_database = record {
  events = [];
  findings = [];
  incidents = [];
  approvals = [];
  executions = [];
  activities = [];
  history = [];
  notes = [];
  bookmarks = [];
}

-- A login from an untrusted device, and an administrative action after it.
abbrev pub takeover : List TelemetryInput
takeover =
    authentication (login "AUTH-1" 10 "RO" "phone" approved)
    ∷ cloud (admin_action "CLOUD-1" 20)
    ∷ []

abbrev pub one_login : List TelemetryInput
one_login = authentication (login "AUTH-1" 10 "US" "phone" approved) ∷ []
