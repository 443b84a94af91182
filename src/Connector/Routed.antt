-- ===== src/Connector/Routed.antt =====
-- backend/app/connectors.py: `FakeIdentityConnector`, `RoutedIdentityConnector` and
-- `build_connector`, as the service sees them.
use Prim.Native.String.{◌++◌ as ◌+++◌}
use text.Mathlib.Text.{starts_with}
use cirt_lens.Base.{ℕ, String, Bool, true, List, if◌then◌else◌, contains, upper}
use cirt_lens.Response.Execute.{Answer, answered}
use cirt_lens.Connector.Auth0.{
  Auth0, Call, Reply, Session, Result, done, supported_actions, execute,
}

-- `uuid.uuid5` of the idempotency key is a parameter: its first digits.
module _ (digits : ℕ → String → String) where
  -- `FakeIdentityConnector.execute`
  unfoldable pub fake_execute : (action subject idempotency_key : String) → Bool → Answer
  fake_execute action subject key dry_run =
      answered "SUCCEEDED" ("FAKE-" +++ upper (digits 12 key)) (
        (if dry_run then "Dry-run " else "Simulated ")
        +++ (action +++ (" for " +++ (subject +++ "; no external system modified."))))

  -- `cirt-` and the digits of the idempotency key
  abbrev pub correlation_id : String → String
  correlation_id key = "cirt-" +++ digits 24 key

  module _ (transport : List Call → Reply) (monotonic wall : List Call → ℕ) where
    -- `RoutedIdentityConnector.execute`
    unfoldable pub routed_execute :
        Auth0 → (action subject idempotency_key : String) → Bool → Session → Result Answer × Session
    routed_execute a action subject key dry_run s =
        if contains supported_actions action
        then execute transport monotonic wall a action subject (correlation_id key) dry_run s
        else (done (fake_execute action subject key true), s)

-- The `status` of the two connectors, and the routing of it by the prefix of the request's id.
abbrev pub fake_status : String → Answer
fake_status id = answered "SUCCEEDED" id "Deterministic fake provider completed the request."

abbrev pub auth0_status : String → Answer
auth0_status id = answered "SUBMITTED" id "Check the Auth0 tenant log using the correlation ID."

unfoldable pub routed_status : String → Answer
routed_status id = if starts_with id "cirt-" then auth0_status id else fake_status id
