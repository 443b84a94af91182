-- ===== src/Correlation/Infer.antt =====
-- correlation_engine.py: `infer_incident_type`. The title and the root-cause text are fixed by the
-- type and by the `context` that is put into both.
use cirt_lens.Base.{String, ◌&&◌, List, [], ◌∷◌, ◌++◌, if◌then◌else◌, contains, meets}
use cirt_lens.Playbook.{identity_flags, execution_flags, exfiltration_flags}

pub data IncidentType : Type 0 where
  credential_compromise endpoint_compromise potential_data_exfiltration suspicious_activity :
      IncidentType

pub record Inference : Type 0 where
  pub incident_type : IncidentType
  -- the texts that are joined by " and "
  pub context : List String

abbrev pub sensitive_flags : List String
sensitive_flags = "SENSITIVE_RESOURCE_ACCESS" ∷ "MASS_DOWNLOAD" ∷ []

unfoldable pub infer_incident_type : List String → Inference
infer_incident_type flags =
    if contains flags "IMPOSSIBLE_TRAVEL" && meets flags identity_flags
    then record {
      incident_type = credential_compromise;
      context =
          (if contains flags "MFA_FATIGUE"
            then "repeated denied MFA prompts"
            else "an untrusted device")
          ∷ [];
    }
    else if contains flags "SUSPICIOUS_POWERSHELL" && meets flags execution_flags
    then record {
      incident_type = endpoint_compromise;
      context =
          (if contains flags "CREDENTIAL_ACCESS"
            then "credential-store access"
            else "a known demo threat destination")
          ∷ [];
    }
    else if contains flags "UNUSUAL_EGRESS" && meets flags exfiltration_flags
    then record {
      incident_type = potential_data_exfiltration;
      context =
          (if meets flags sensitive_flags then "sensitive-resource activity" ∷ [] else [])
          ++ (if contains flags "DATA_EXFILTRATION"
              then "high-volume outbound transfer" ∷ []
              else []);
    }
    else record { incident_type = suspicious_activity; context = [] }
