-- ===== src/Correlation/Agreement.antt =====
-- The classification of an incident against the playbook that is recommended for it.
use cirt_lens.Base.{String, ◌≡◌, ◌≢◌, Option, none, some, List, [], arith}
use cirt_lens.Playbook.{
  Playbook, credential_playbook, endpoint_playbook, exfiltration_playbook, select_playbook,
}
use cirt_lens.Correlation.Infer.{
  IncidentType, credential_compromise, endpoint_compromise, potential_data_exfiltration,
  suspicious_activity, infer_incident_type,
}

-- The playbook that is meant for a type of incident.
abbrev pub playbook_for : IncidentType → Option Playbook
playbook_for credential_compromise = some credential_playbook
playbook_for endpoint_compromise = some endpoint_playbook
playbook_for potential_data_exfiltration = some exfiltration_playbook
playbook_for suspicious_activity = none

-- For all flags, the playbook that is selected is the one meant for the inferred type: none exactly
-- for a generic case. The narrative of a specific type names at least one kind of evidence, that of
-- a generic case none.
pub select_playbook-infer_incident_type :
    (flags : List String)
    → (select_playbook flags ≡ playbook_for (infer_incident_type flags).incident_type)
      × ((infer_incident_type flags).incident_type ≢ suspicious_activity
          → (infer_incident_type flags).context ≢ [])
      × ((infer_incident_type flags).incident_type ≡ suspicious_activity
          → (infer_incident_type flags).context ≡ [])
unfolding select_playbook infer_incident_type
select_playbook-infer_incident_type flags = ground arith
