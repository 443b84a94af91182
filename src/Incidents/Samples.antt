-- ===== src/Incidents/Samples.antt =====
-- A group of events and what is read with it, for the tests.
use cirt_lens.Base.{ℕ, String, List, [], ◌∷◌}
use cirt_lens.Telemetry.{DetectionFinding}
use cirt_lens.Events.{Event}
use cirt_lens.Store.{Database}
use cirt_lens.Correlation.Samples.{first_login, second_login}
use cirt_lens.Response.Samples.{evidence, store}
use cirt_lens.Incidents.Assess.{Digests}

abbrev pub digests : Digests
digests = record {
  of_case = λ tenant_id kind principal bucket. principal;
  of_copy = λ tenant_id fingerprint ids. "copy";
}

abbrev pub fresh : ℕ → String
fresh n = "INC-9"

abbrev pub group : List Event
group = first_login ∷ second_login ∷ []

abbrev pub evidence_of_group : List DetectionFinding
evidence_of_group = evidence "AUTH-1" "IMPOSSIBLE_TRAVEL" ∷ evidence "AUTH-2" "NEW_DEVICE" ∷ []

-- The case on file has the events of the group.
abbrev pub on_file : Database
on_file = record store { events = group }

abbrev pub nothing_on_file : Database
nothing_on_file = record store { events = group; incidents = [] }
