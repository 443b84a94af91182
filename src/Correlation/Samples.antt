-- ===== src/Correlation/Samples.antt =====
-- Stored events for the tests.
use cirt_lens.Base.{ℕ, String, Option, some, [], ◌∷◌}
use cirt_lens.Config.{minutes}
use cirt_lens.Telemetry.{authentication, network, cloud, approved}
use cirt_lens.Events.{Event}
use cirt_lens.Detection.Samples.{login, upload, admin_action}

abbrev pub sample : String → ℕ → Option String → Option String → Option String → Event
sample id t user host ip = record {
  id = id;
  tenant_id = "tenant-demo";
  timestamp = minutes t;
  source = "Identity";
  user = user;
  host = host;
  source_ip = ip;
  risk_score = 30;
  risk_flags = "NEW_DEVICE" ∷ [];
  content = authentication (login id t "US" "laptop" approved);
}

abbrev pub first_login : Event
first_login = sample "AUTH-1" 1 (some "maya") (some "laptop") (some "198.51.100.7")

abbrev pub second_login : Event
second_login = sample "AUTH-2" 5 (some "maya") (some "laptop") (some "198.51.100.7")

-- A transfer to the address that the other event comes from; nothing else is shared.
abbrev pub transfer : Event
transfer = record (sample "NET-1" 5 (some "liam") (some "host-1") (some "10.0.0.5")) {
  source = "Network";
  content = network (upload "NET-1" 5 700_000_000);
}

abbrev pub callback : Event
callback = record (sample "CLOUD-1" 6 (some "noah") (some "host-2") (some "203.0.113.50")) {
  source = "Cloud";
  content = cloud (admin_action "CLOUD-1" 6);
}
