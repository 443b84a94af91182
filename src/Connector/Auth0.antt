-- ===== src/Connector/Auth0.antt =====
-- backend/app/connectors.py: `Auth0IdentityConnector`.
use Prim.Native.Char.{Char, code}
use Prim.Native.String.{◌++◌ as ◌+++◌}
use cirt_lens.Base.{
  ℕ, zero, suc, ◌+◌, ◌-◌, max, String, Bool, true, false, not, ◌&&◌, ◌||◌, List, [], ◌∷◌, map, ltb,
  leb, eqb, if◌then◌else◌, keep, contains, ◌==◌, lower,
}
use cirt_lens.Config.{seconds}
use cirt_lens.Response.Execute.{Answer, answered}

-- `str.isspace` on ASCII
abbrev pub is_space : Char → Bool
is_space c =
    eqb (code c) 32 || (leb 9 (code c) && leb (code c) 13 || leb 28 (code c) && leb (code c) 31)

abbrev pub left_strip : String → String
left_strip String.[] = ""
left_strip (String.◌∷◌ c s) = let rest = left_strip s in if is_space c then rest else String.◌∷◌ c s

abbrev pub right_strip : String → String
right_strip String.[] = ""
right_strip (String.◌∷◌ c s) =
    let rest = right_strip s in if is_space c && rest == "" then "" else String.◌∷◌ c rest

-- `value.strip().lower()`
abbrev pub normal : String → String
normal s = lower (right_strip (left_strip s))

abbrev pub start_word : Char → List String → List String
start_word c [] = String.◌∷◌ c "" ∷ []
start_word c (w ∷ ws) = String.◌∷◌ c w ∷ ws

-- `value.split(",")`
abbrev pub split_commas : String → List String
split_commas String.[] = "" ∷ []
split_commas (String.◌∷◌ c s) =
    let rest = split_commas s in if eqb (code c) 44 then "" ∷ rest else start_word c rest

-- The set `allowed_users`.
abbrev pub allowlist : String → List String
allowlist users = keep (λ u. not (u == "")) (map normal (split_commas users))

-- The fields that never change after `__init__`.
pub record Auth0 : Type 0 where
  pub domain : String
  pub client_id : String
  pub client_secret : String
  pub allowed_users : List String
  pub target_override : String

-- `__init__`, for a domain with neither scheme nor slash at its end.
abbrev pub auth0_of : (domain client_id client_secret allowed target_override : String) → Auth0
auth0_of domain client_id client_secret allowed target_override = record {
  domain = domain;
  client_id = client_id;
  client_secret = client_secret;
  allowed_users = allowlist allowed;
  target_override = normal target_override;
}

-- The three HTTP requests of the connector.
pub data Call : Type 0 where
  get_token : (domain client_id client_secret : String) → Call
  find_users : (domain token correlation_id email : String) → Call
  block_user : (domain token correlation_id user_id : String) → Call

-- What `response.json()` gives: the token with its life in seconds, the list of users with their
-- `user_id`, or something that the code cannot read.
pub data Body : Type 0 where
  token_body : String → ℕ → Body
  users_body : List String → Body
  unreadable : Body

pub data Reply : Type 0 where
  request_error : Reply
  response : (status_code : ℕ) → Body → Reply

-- The fields that change, and the calls made so far, the newest first.
pub record Session : Type 0 where
  pub token : String
  pub token_expires_at : ℕ
  pub consecutive_failures : ℕ
  pub circuit_open_until : ℕ
  pub calls : List Call

abbrev pub fresh_session : Session
fresh_session = record {
  token = "";
  token_expires_at = 0;
  consecutive_failures = 0;
  circuit_open_until = 0;
  calls = [];
}

-- A `ConnectorError`, or another exception: a body that the code cannot read.
pub data Failure : Type 0 where
  connector_error : (message code : String) → (retryable : Bool) → Failure
  other_exception : Failure

pub data Result {ℓ} (A : Type ℓ) : Type ℓ where
  done : A → Result A
  raised : Failure → Result A

abbrev pub plain_error : String → Failure
plain_error message = connector_error message "PROVIDER_ERROR" false

-- `retryable_statuses`
abbrev pub is_retryable : ℕ → Bool
is_retryable n = eqb n 429 || (eqb n 500 || (eqb n 502 || (eqb n 503 || eqb n 504)))

abbrev pub supported_actions : List String
supported_actions = "Disable account" ∷ []

-- `_target`
unfoldable pub target : Auth0 → String → Result String
target a subject =
    let t = if a.target_override == "" then normal subject else a.target_override in
    if t == "" || not (contains a.allowed_users t)
    then raised (plain_error "Auth0 target is not explicitly allowlisted")
    else done t

module _ (transport : List Call → Reply) (monotonic wall : List Call → ℕ) where
  -- `_record_retryable_failure`
  unfoldable pub record_retryable_failure : Session → Session
  record_retryable_failure s =
      let s' = record s { consecutive_failures = s.consecutive_failures + 1 } in
      if leb 2 s'.consecutive_failures
      then record s' { circuit_open_until = monotonic s.calls + seconds 30 }
      else s'

  abbrev network_error : Failure
  network_error = connector_error "Auth0 request failed after retries" "NETWORK" true

  -- What follows the loop, on the last response.
  unfoldable pub judge : ℕ → Body → Session → Result Body × Session
  judge status body s =
      if is_retryable status
      then (
        raised (connector_error "Auth0 request failed" "UPSTREAM_RETRYABLE" true),
        record_retryable_failure s,
      )
      else if leb 400 status
      then (raised (connector_error "Auth0 request failed" "UPSTREAM_REJECTED" false), s)
      else (done body, record s { consecutive_failures = 0 })

  abbrev made : Call → Session → Session
  made call s = record s { calls = call ∷ s.calls }

  -- `for attempt in range(3)`, with the number of attempts that are left after this one.
  unfoldable pub attempt : Call → ℕ → Session → Result Body × Session
  attempt call zero s = elim (transport s.calls) [
    | request_error ↦ (raised network_error, record_retryable_failure (made call s))
    | response status body ↦ judge status body (made call s)
  ]
  attempt call (suc left) s =
      let again = attempt call left (made call s) in
      elim (transport s.calls) [
        | request_error ↦ again
        | response status body ↦
            if is_retryable status then again else judge status body (made call s)
      ]

  -- `_request`
  unfoldable pub request : Call → Session → Result Body × Session
  request call s =
      if ltb (monotonic s.calls) s.circuit_open_until
      then (raised (connector_error "Auth0 connector circuit is open" "CIRCUIT_OPEN" true), s)
      else attempt call 2 s

  -- The token is kept until a minute before it expires, for half a minute at least.
  abbrev pub keep_token : Result Body × Session → Result String × Session
  keep_token (raised f, s) = (raised f, s)
  keep_token (done (token_body t expires_in), s) = (
    done t,
    record s { token = t; token_expires_at = wall s.calls + seconds (max 30 (expires_in - 60)) },
  )
  keep_token (done body, s) = (raised other_exception, s)

  -- `_access_token`
  unfoldable pub access_token : Auth0 → Session → Result String × Session
  access_token a s =
      if not (s.token == "") && ltb (wall s.calls) s.token_expires_at
      then (done s.token, s)
      else if a.client_id == ""
          || (a.client_secret == "" || a.client_secret == "PASTE_YOUR_SECRET_HERE")
      then (raised (plain_error "Auth0 connector credentials are not configured"), s)
      else keep_token (request (get_token a.domain a.client_id a.client_secret) s)

  -- The answer to the last request.
  abbrev pub blocked : String → String → Result Body × Session → Result Answer × Session
  blocked correlation_id t (raised f, s) = (raised f, s)
  blocked correlation_id t (done body, s) = (
    done (answered "SUCCEEDED" correlation_id ("Blocked allowlisted Auth0 sandbox user " +++ t)),
    s,
  )

  -- From the list of users on: exactly one user is blocked.
  unfoldable pub block :
      Auth0 → String → String → String → Result Body × Session → Result Answer × Session
  block a correlation_id token t (raised f, s) = (raised f, s)
  block a correlation_id token t (done (users_body (user_id ∷ [])), s) =
      blocked correlation_id t (request (block_user a.domain token correlation_id user_id) s)
  block a correlation_id token t (done (users_body users), s) =
      (raised (plain_error "Auth0 allowlisted target was not found uniquely"), s)
  block a correlation_id token t (done body, s) = (raised other_exception, s)

  abbrev pub with_token :
      Auth0 → String → String → Result String × Session → Result Answer × Session
  with_token a correlation_id t (raised f, s) = (raised f, s)
  with_token a correlation_id t (done token, s) =
      block a correlation_id token t (request (find_users a.domain token correlation_id t) s)

  abbrev pub on_target : Auth0 → String → Bool → Result String → Session → Result Answer × Session
  on_target a correlation_id dry_run (raised f) s = (raised f, s)
  on_target a correlation_id true (done t) s =
      (done (answered "DRY_RUN" correlation_id ("Validated allowlisted Auth0 target " +++ t)), s)
  on_target a correlation_id false (done t) s = with_token a correlation_id t (access_token a s)

  -- `execute`, for the correlation id that the idempotency key is hashed to
  unfoldable pub execute :
      Auth0 → (action subject correlation_id : String) → Bool → Session → Result Answer × Session
  execute a action subject correlation_id dry_run s =
      if not (contains supported_actions action)
      then (raised (plain_error "Auth0 connector does not support the action"), s)
      else on_target a correlation_id dry_run (target a subject) s
