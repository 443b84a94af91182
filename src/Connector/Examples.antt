-- ===== src/Connector/Examples.antt =====
-- Tests of the connectors, and their theorems at a provider that finds one user.
use cirt_lens.Base.{upper, lower, ℕ, ◌≤◌, ◌≡◌, refl, false, List, [], ◌∷◌, length}
use cirt_lens.Config.{seconds}
use cirt_lens.Response.Execute.{answered}
use cirt_lens.Connector.Auth0.{
  Auth0, auth0_of, Call, get_token, find_users, block_user, Reply, request_error, response,
  token_body, users_body, unreadable, Session, fresh_session, raised, done, connector_error, target,
  attempt, judge, record_retryable_failure, request, access_token, block, execute,
}
use cirt_lens.Connector.Routed.{routed_execute, fake_execute, routed_status}
use cirt_lens.Connector.Requests.{Settled, request-Settled}
use cirt_lens.Connector.Targets.{IsLicensed, execute-IsLicensed}
use cirt_lens.Connector.Limits.{execute_bounded}

abbrev lab : Auth0
lab = auth0_of "lab.example" "client" "secret" " Eve@Example.org, ,bob@example.org" ""

the_allowlist : lab.allowed_users ≡ "eve@example.org" ∷ "bob@example.org" ∷ []
unfolding lower
the_allowlist = refl

-- The provider fails once, then answers each request.
abbrev provider : List Call → Reply
provider [] = response 503 unreadable
provider (get_token d i s ∷ []) = response 200 (token_body "T" 3600)
provider (get_token d i s ∷ get_token d' i' s' ∷ older) = response 200 (users_body ("auth0|7" ∷ []))
provider (get_token d i s ∷ _) = request_error
provider (find_users d t c e ∷ older) = response 204 unreadable
provider (block_user d t c u ∷ older) = request_error

abbrev offline : List Call → Reply
offline calls = request_error

abbrev clock : List Call → ℕ
clock calls = seconds (length calls)

abbrev blocking : List Call
blocking =
    block_user "lab.example" "T" "cirt-1" "auth0|7"
    ∷ find_users "lab.example" "T" "cirt-1" "eve@example.org"
    ∷ get_token "lab.example" "client" "secret"
    ∷ get_token "lab.example" "client" "secret"
    ∷ []

blocks_eve :
    (execute provider clock clock lab "Disable account" " EVE@example.org " "cirt-1" false
      fresh_session).1.calls
    ≡ blocking
unfolding execute target lower access_token request attempt judge block
blocks_eve = refl

refuses_others :
    execute provider clock clock lab "Disable account" "mallory@example.org" "cirt-1" false
      fresh_session
    ≡ (
      raised (connector_error "Auth0 target is not explicitly allowlisted" "PROVIDER_ERROR" false),
      fresh_session,
    )
unfolding execute target lower
refuses_others = refl

abbrev once_failed : Session
once_failed = record fresh_session { consecutive_failures = 1 }

opens_the_circuit :
    (execute offline clock clock lab "Disable account" "bob@example.org" "cirt-1" false
      once_failed).1.circuit_open_until
    ≡ seconds 33
unfolding execute target lower access_token request attempt record_retryable_failure
opens_the_circuit = refl

routes_the_rest :
    routed_execute
      (λ n key. "abc")
      provider
      clock
      clock
      lab
      "Reset MFA"
      "bob"
      "key"
      false
      fresh_session
    ≡ (
      done (
          answered "SUCCEEDED" "FAKE-ABC"
            "Dry-run Reset MFA for bob; no external system modified."),
      fresh_session,
    )
unfolding routed_execute fake_execute upper
routes_the_rest = refl

status_by_prefix :
    routed_status "cirt-1"
    ≡ answered "SUBMITTED" "cirt-1" "Check the Auth0 tenant log using the correlation ID."
unfolding routed_status
status_by_prefix = refl

request-Settled_example :
    Settled offline clock clock 1 0
      (request offline clock clock (find_users "d" "T" "c" "eve@example.org") once_failed)
request-Settled_example =
    request-Settled offline clock clock (find_users "d" "T" "c" "eve@example.org") once_failed refl

execute-IsLicensed_example :
    IsLicensed provider clock clock lab
      (execute provider clock clock lab "Disable account" "eve@example.org" "cirt-1" false
        fresh_session).1.calls
execute-IsLicensed_example =
    execute-IsLicensed provider clock clock lab "Disable account" "eve@example.org" "cirt-1" false
      fresh_session tt

execute_bounded_example :
    length
      (execute provider clock clock lab "Disable account" "eve@example.org" "cirt-1" false
        fresh_session).1.calls
    ≤ 9
execute_bounded_example =
    execute_bounded provider clock clock lab "Disable account" "eve@example.org" "cirt-1" false
      fresh_session

abbrev opened : Session
opened = record fresh_session { circuit_open_until = seconds 33 }
