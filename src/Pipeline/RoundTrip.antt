-- ===== src/Pipeline/RoundTrip.antt =====
-- backend/app/services/pipeline.py: what is stored of telemetry is read back as it was.
use cirt_lens.Base.{◌≡◌, refl, String, true, Option, none, some, List}
use cirt_lens.Telemetry.{
  TelemetryInput, authentication, endpoint, network, cloud, DetectionFinding, success, failure,
  approved, denied, not_required, AuthResult, MfaResult,
}
use cirt_lens.Pipeline.Fields.{
  model_dump, set_findings, typed_from_data, validate_authentication, validate_endpoint,
  validate_network, validate_cloud,
}
use cirt_lens.Pipeline.Values.{
  is_id, is_port, result_named, result_text, mfa_named, mfa_text, optional_value, as_optional,
}

-- The bounds that the schemas put on an event.
abbrev pub IsInBounds : TelemetryInput → Type 0
IsInBounds (authentication e) = is_id e.id ≡ true
IsInBounds (endpoint e) = is_id e.id ≡ true
IsInBounds (network e) = (is_id e.id ≡ true) × (is_port e.destination_port ≡ true)
IsInBounds (cloud e) = is_id e.id ≡ true

result_named-result_text : (r : AuthResult) → result_named (result_text r) ≡ some r
result_named-result_text success = refl
result_named-result_text failure = refl

mfa_named-mfa_text : (r : MfaResult) → mfa_named (mfa_text r) ≡ some r
mfa_named-mfa_text approved = refl
mfa_named-mfa_text denied = refl
mfa_named-mfa_text not_required = refl

as_optional-optional_value : (o : Option String) → as_optional (some (optional_value o)) ≡ some o
as_optional-optional_value none = refl
as_optional-optional_value (some s) = refl

-- An event within the bounds of its schema, stored as JSON and annotated with any findings, is read
-- back as the same event.
pub typed_from_data-model_dump :
    (raw : TelemetryInput) (fs : List DetectionFinding)
    → IsInBounds raw
    → typed_from_data (set_findings fs (model_dump raw)) ≡ some raw
unfolding typed_from_data model_dump validate_authentication validate_endpoint validate_network
    validate_cloud
typed_from_data-model_dump (authentication e) fs h =
    rw (h, result_named-result_text e.result, mfa_named-mfa_text e.mfa_result) refl
typed_from_data-model_dump (endpoint e) fs h =
    rw (h, as_optional-optional_value e.destination_ip) refl
typed_from_data-model_dump (network e) fs (h, k) =
    rw
      (
        h,
        k,
        as_optional-optional_value e.domain,
        as_optional-optional_value e.user,
        as_optional-optional_value e.hostname,
      )
      refl
typed_from_data-model_dump (cloud e) fs h =
    rw (h, result_named-result_text e.result, as_optional-optional_value e.device_id) refl
