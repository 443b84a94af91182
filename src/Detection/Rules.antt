-- ===== src/Detection/Rules.antt =====
-- detection_engine.py: the rule registry and the constructor of findings.
use cirt_lens.Base.{ℕ, String, Option, none, some, List, [], ◌∷◌, ◌==◌, if◌then◌else◌}
use cirt_lens.Telemetry.{DetectionFinding, Reason, Metadata}

pub record Rule : Type 0 where
  pub name : String
  pub version : String
  pub description : String
  pub risk : ℕ
  pub category : String

abbrev pub rules : List (String × Rule)
rules =
    (
      "AUTH-001",
      record {
        name = "Impossible Travel";
        version = "1.1";
        description = "Geography changed inside the configured window.";
        risk = 30;
        category = "behavioral";
      },
    )
    ∷ (
      "AUTH-002",
      record {
        name = "MFA Request Generation";
        version = "1.1";
        description = "Repeated denied MFA requests.";
        risk = 25;
        category = "behavioral";
      },
    )
    ∷ (
      "AUTH-003",
      record {
        name = "New Device Observation";
        version = "1.1";
        description = "Device is absent from trusted baseline.";
        risk = 12;
        category = "behavioral";
      },
    )
    ∷ (
      "ENDP-001",
      record {
        name = "Suspicious PowerShell";
        version = "1.0";
        description = "Suspicious PowerShell pattern.";
        risk = 30;
        category = "execution";
      },
    )
    ∷ (
      "ENDP-002",
      record {
        name = "Credential Material Access";
        version = "1.0";
        description = "OS credential-store access.";
        risk = 30;
        category = "credential_access";
      },
    )
    ∷ (
      "ENDP-003",
      record {
        name = "Registry Run Key Persistence";
        version = "1.0";
        description = "Run-key modification.";
        risk = 25;
        category = "persistence";
      },
    )
    ∷ (
      "NET-001",
      record {
        name = "Known Demo Threat Destination";
        version = "1.0";
        description = "Demo intelligence match.";
        risk = 35;
        category = "threat_intelligence";
      },
    )
    ∷ (
      "NET-002",
      record {
        name = "Unusual Egress";
        version = "1.0";
        description = "Outbound threshold exceeded.";
        risk = 25;
        category = "exfiltration";
      },
    )
    ∷ (
      "NET-003",
      record {
        name = "High-volume Data Transfer";
        version = "1.1";
        description = "Twice egress threshold.";
        risk = 30;
        category = "exfiltration";
      },
    )
    ∷ (
      "CLOUD-001",
      record {
        name = "Unusual Administrative Action";
        version = "1.0";
        description = "Privileged action.";
        risk = 20;
        category = "privilege";
      },
    )
    ∷ (
      "CLOUD-002",
      record {
        name = "Sensitive Resource Access";
        version = "1.0";
        description = "Sensitive resource.";
        risk = 20;
        category = "impact";
      },
    )
    ∷ (
      "CLOUD-003",
      record {
        name = "Sensitive Resource Download";
        version = "1.0";
        description = "Sensitive download.";
        risk = 20;
        category = "collection";
      },
    )
    ∷ (
      "CLOUD-004",
      record {
        name = "Post-authentication Privileged Action";
        version = "1.1";
        description = "Privileged action follows suspicious auth.";
        risk = 30;
        category = "privilege";
      },
    )
    ∷ []

-- `RULES.get(rule)`
abbrev pub find_rule : List (String × Rule) → String → Option Rule
find_rule [] rule = none
find_rule ((r, spec) ∷ rest) rule =
    let later = find_rule rest rule in if r == rule then some spec else later

-- `RULES[rule][1]`; every caller passes a key of `RULES`.
unfoldable pub rule_version : String → String
rule_version rule = elim (find_rule rules rule) [ none ↦ "" | some spec ↦ spec.version ]

-- The event is passed by its id, the only field that is read.
unfoldable pub finding : String → String → String → ℕ → Reason → Metadata → DetectionFinding
unfolding rule_version
finding event rule flag risk reason metadata = record {
  event_id = event;
  rule_id = rule;
  rule_version = rule_version rule;
  flag = flag;
  risk_contribution = risk;
  reason = reason;
  metadata = metadata;
}
