-- ===== src/Attack/Examples.antt =====
-- Tests of the technique mapping, and its theorems at concrete inputs.
use cirt_lens.Base.{◌≡◌, refl, any, List, [], ◌∷◌, map}
use cirt_lens.Telemetry.{DetectionFinding, fixed_reason, empty, fatigue_evidence}
use cirt_lens.Detection.Rules.{finding}
use cirt_lens.Attack.{add_technique, find_mapping, map_techniques}
use cirt_lens.Attack.Evidence.{cites, supports, cites-map_techniques}

abbrev findings : List DetectionFinding
findings =
    finding "AUTH-1" "AUTH-003" "NEW_DEVICE" 12 (fixed_reason "device") empty
    ∷ finding "AUTH-2" "AUTH-002" "MFA_FATIGUE" 7 (fixed_reason "prompts")
        (fatigue_evidence ("AUTH-1" ∷ "AUTH-2" ∷ []))
    ∷ finding "NET-1" "NET-002" "UNUSUAL_EGRESS" 25 (fixed_reason "egress") empty
    ∷ []

mapped :
    map (λ t. t.evidence_ids) (map_techniques findings)
    ≡ ("AUTH-1" ∷ []) ∷ ("AUTH-2" ∷ "AUTH-1" ∷ []) ∷ []
unfolding map_techniques find_mapping finding add_technique
mapped = refl

cites-map_techniques_example :
    cites "T1621" "AUTH-1" (map_techniques findings) ≡ any (supports "T1621" "AUTH-1") findings
cites-map_techniques_example = cites-map_techniques findings "T1621" "AUTH-1"
