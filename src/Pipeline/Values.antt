-- ===== src/Pipeline/Values.antt =====
-- The JSON values of a stored event, and schemas/telemetry.py: the types, bounds and literals of its
-- fields.
use cirt_lens.Base.{
  ℕ, suc, String, Bool, true, false, ◌&&◌, ◌||◌, Option, none, some, List, [], ◌∷◌, ◌==◌, leb,
  if◌then◌else◌, contains, all,
}
use cirt_lens.Telemetry.{
  AuthResult, success, failure, MfaResult, approved, denied, not_required, DetectionFinding,
}

-- The JSON values that stand in a `data` column.
pub data Value : Type 0 where
  null : Value
  text : String → Value
  number : ℕ → Value
  truth : Bool → Value
  findings : List DetectionFinding → Value

abbrev pub Object : Type 0
Object = List (String × Value)

-- `data.get(key)`
abbrev pub get : Object → String → Option Value
get [] key = none
get ((k, v) ∷ o) key = let rest = get o key in if k == key then some v else rest

infixl 5 ◌>>=◌ ◌>>◌
abbrev pub ◌>>=◌ {κ ℓ} : {Q : Type κ} {R : Type ℓ} → Option Q → (Q → Option R) → Option R
some field >>= rest = rest field
none >>= rest = none

abbrev pub ◌>>◌ {ℓ} : {R : Type ℓ} → Option (Unit {0}) → Option R → Option R
none >> rest = none
some passed >> rest = rest

abbrev pub check : Bool → Option (Unit {0})
check true = some tt
check false = none

-- A required field of each type; `none` where validation fails.
abbrev pub as_text : Option Value → Option String
as_text (some (text s)) = some s
as_text _ = none

abbrev pub as_number : Option Value → Option ℕ
as_number (some (number n)) = some n
as_number _ = none

-- `str | None = None`
abbrev pub as_optional : Option Value → Option (Option String)
as_optional none = some none
as_optional (some null) = some none
as_optional (some (text s)) = some (some s)
as_optional _ = none

-- `bool = False`
abbrev pub as_flag : Option Value → Option Bool
as_flag none = some false
as_flag (some (truth b)) = some b
as_flag _ = none

-- `Literal["SUCCESS", "FAILURE"]`
abbrev pub result_named : String → Option AuthResult
result_named s =
    if s == "SUCCESS" then some success else if s == "FAILURE" then some failure else none

abbrev pub mfa_named : String → Option MfaResult
mfa_named s =
    if s == "APPROVED"
    then some approved
    else if s == "DENIED"
    then some denied
    else if s == "NOT_REQUIRED"
    then some not_required
    else none

abbrev pub result_text : AuthResult → String
result_text success = "SUCCESS"
result_text failure = "FAILURE"

abbrev pub mfa_text : MfaResult → String
mfa_text approved = "APPROVED"
mfa_text denied = "DENIED"
mfa_text not_required = "NOT_REQUIRED"

-- A `Literal` with a default, which may be left out.
abbrev pub is_literal : String → Option Value → Bool
is_literal s none = true
is_literal s (some (text t)) = t == s
is_literal s _ = false

abbrev pub optional_value : Option String → Value
optional_value none = null
optional_value (some s) = text s

abbrev pub text_length : String → ℕ
text_length String.[] = 0
text_length (String.◌∷◌ c s) = suc (text_length s)

-- `Field(min_length=3, max_length=80)`
abbrev pub is_id : String → Bool
is_id s = leb 3 (text_length s) && leb (text_length s) 80

-- `Field(ge=1, le=65535)`
abbrev pub is_port : ℕ → Bool
is_port n = leb 1 n && leb n 65535

abbrev pub raw_keys : List String
raw_keys = "id" ∷ "timestamp" ∷ "schema_version" ∷ "telemetry_type" ∷ []

abbrev pub authentication_keys : List String
authentication_keys =
    "user" ∷ "source_ip" ∷ "country" ∷ "city" ∷ "device_id" ∷ "result" ∷ "mfa_result"
    ∷ "authentication_method" ∷ []

abbrev pub endpoint_keys : List String
endpoint_keys =
    "hostname" ∷ "user" ∷ "process_name" ∷ "parent_process" ∷ "command_line" ∷ "process_hash"
    ∷ "event_type" ∷ "destination_ip" ∷ []

abbrev pub network_keys : List String
network_keys =
    "source_ip" ∷ "destination_ip" ∷ "destination_port" ∷ "protocol" ∷ "bytes_sent"
    ∷ "bytes_received" ∷ "domain" ∷ "country" ∷ "user" ∷ "hostname" ∷ []

abbrev pub cloud_keys : List String
cloud_keys =
    "user" ∷ "source_ip" ∷ "service" ∷ "action" ∷ "resource" ∷ "result" ∷ "privileged"
    ∷ "sensitive_resource" ∷ "device_id" ∷ []

-- `extra="forbid"`, the bounds of the id and the two literals of `RawEvent` and of the kind
abbrev pub is_raw : String → List String → Object → Bool
is_raw kind keys o =
    all (λ (f : String × Value). contains raw_keys f.0 || contains keys f.0) o
    && (is_literal kind (get o "telemetry_type") && is_literal "1.0" (get o "schema_version"))

abbrev pub as_id : Option Value → Option String
as_id v = do s ← as_text v; check (is_id s); some s
