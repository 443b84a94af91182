-- ===== src/Attack.antt =====
-- backend/app/services/attack_mapping.py.
pub mod Evidence
mod Examples
use cirt_lens.Base.{String, Option, none, some, List, [], ◌∷◌, ◌++◌, ◌==◌, if◌then◌else◌, contains}
use cirt_lens.Telemetry.{DetectionFinding, Metadata, fatigue_evidence}

pub record Mapping : Type 0 where
  pub flag : String
  pub technique : String
  pub name : String
  pub reason : String

abbrev pub mappings : List Mapping
mappings =
    record {
      flag = "SUSPICIOUS_POWERSHELL";
      technique = "T1059.001";
      name = "PowerShell";
      reason = "PowerShell executed with an encoded-command or download-expression pattern.";
    }
    ∷ record {
      flag = "CREDENTIAL_ACCESS";
      technique = "T1003";
      name = "OS Credential Dumping";
      reason =
          "Structured endpoint telemetry explicitly recorded access to OS credential material.";
    }
    ∷ record {
      flag = "PERSISTENCE";
      technique = "T1547.001";
      name = "Registry Run Keys / Startup Folder";
      reason =
          "Structured endpoint telemetry recorded a Registry Run Keys persistence modification.";
    }
    ∷ record {
      flag = "IMPOSSIBLE_TRAVEL";
      technique = "T1078";
      name = "Valid Accounts";
      reason = "A valid account authenticated across geographically inconsistent locations.";
    }
    ∷ record {
      flag = "NEW_DEVICE";
      technique = "T1078";
      name = "Valid Accounts";
      reason = "A valid account was used from a device outside its trusted baseline.";
    }
    ∷ record {
      flag = "MFA_FATIGUE";
      technique = "T1621";
      name = "Multi-Factor Authentication Request Generation";
      reason = "Repeated MFA requests were generated for the same identity inside a short window.";
    }
    ∷ []

-- `MAPPINGS.get(flag)`
unfoldable pub find_mapping : List Mapping → String → Option Mapping
find_mapping [] flag = none
find_mapping (m ∷ ms) flag =
    let rest = find_mapping ms flag in if m.flag == flag then some m else rest

-- The mapping version, a constant, is left out.
pub record Technique : Type 0 where
  pub id : String
  pub name : String
  pub reason : String
  pub evidence_ids : List String

-- `for event_id in …: if event_id not in evidence_ids: evidence_ids.append(event_id)`
unfoldable pub add_evidence : List String → List String → List String
add_evidence evidence [] = evidence
add_evidence evidence (i ∷ ids) =
    add_evidence (if contains evidence i then evidence else evidence ++ i ∷ []) ids

-- `mapped.setdefault(tid, {…})`, then the evidence. The dict keeps the order of insertion.
unfoldable pub add_technique : Mapping → List String → List Technique → List Technique
unfolding add_evidence
add_technique m ids [] =
    record {
      id = m.technique;
      name = m.name;
      reason = m.reason;
      evidence_ids = add_evidence [] ids;
    }
    ∷ []
add_technique m ids (t ∷ ts) =
    let rest = add_technique m ids ts in
    if t.id == m.technique
    then record t { evidence_ids = add_evidence t.evidence_ids ids } ∷ ts
    else t ∷ rest

-- `[item.event_id, *item.metadata.get("evidence_ids", [])]`
abbrev pub metadata_ids : Metadata → List String
metadata_ids (fatigue_evidence ids) = ids
metadata_ids _ = []

abbrev pub evidence_of : DetectionFinding → List String
evidence_of f = f.event_id ∷ metadata_ids f.metadata

unfoldable pub map_finding : Option Mapping → List String → List Technique → List Technique
map_finding none ids mapped = mapped
map_finding (some m) ids mapped = add_technique m ids mapped

unfoldable pub map_from : List Technique → List DetectionFinding → List Technique
unfolding map_finding
map_from mapped [] = mapped
map_from mapped (f ∷ fs) =
    map_from (map_finding (find_mapping mappings f.flag) (evidence_of f) mapped) fs

unfoldable pub map_techniques : List DetectionFinding → List Technique
unfolding map_from
map_techniques findings = map_from [] findings
