-- ===== src/Connector/Requests.antt =====
-- backend/app/connectors.py: the retries of `_request` and its circuit breaker.
use cirt_lens.Base.{
  ℕ, zero, suc, ◌+◌, ◌≤◌, ◌≡◌, refl, String, true, false, List, ◌∷◌, length, arith, Bool-cases, ◌⊎◌,
  inl, inr, ltb, leb, subst, sym,
}
use cirt_lens.Config.{seconds}
use cirt_lens.Connector.Auth0.{
  Call, Reply, request_error, response, Body, Session, connector_error, other_exception, Result,
  done, raised, is_retryable, record_retryable_failure, judge, attempt, request,
}

module _ (transport : List Call → Reply) (monotonic wall : List Call → ℕ) where
  pub Reply-cases :
      (l : List Call)
      → (transport l ≡ request_error)
        ⊎ ((status : ℕ) × (body : Body) × (transport l ≡ response status body))
  Reply-cases l = cases (transport l) refl
    where
      cases :
          (r : Reply)
          → transport l ≡ r
          → (transport l ≡ request_error)
            ⊎ ((status : ℕ) × (body : Body) × (transport l ≡ response status body))
      cases request_error e = inl e
      cases (response status body) e = inr (status, body, e)

  judge-calls :
      (status : ℕ) (body : Body) (s : Session)
      → (judge transport monotonic wall status body s).1.calls ≡ s.calls
  unfolding judge record_retryable_failure
  judge-calls status body s = ground arith

  failure-calls :
      (s : Session) → (record_retryable_failure transport monotonic wall s).calls ≡ s.calls
  unfolding record_retryable_failure
  failure-calls s = ground arith

  -- A property of the calls that one more of the request's calls keeps.
  pub attempt-Keeps :
      (P : List Call → Type 0) (call : Call)
      → ((l : List Call) → P l → P (call ∷ l))
      → (left : ℕ) (s : Session) → P s.calls
      → P (attempt transport monotonic wall call left s).1.calls
  unfolding attempt record_retryable_failure
  attempt-Keeps P call more zero s p = elim (Reply-cases s.calls) [
    | inl e ↦
        rw (e, attempt)
          (subst (λ l. P l) (sym (failure-calls (record s { calls = call ∷ s.calls })))
            (more s.calls p))
    | inr (status, body, e) ↦
        rw (e, attempt)
          (subst (λ l. P l) (sym (judge-calls status body (record s { calls = call ∷ s.calls })))
            (more s.calls p))
  ]
  attempt-Keeps P call more (suc left) s p =
      let q =
        attempt-Keeps P call more left (record s { calls = call ∷ s.calls }) (more s.calls p) in
      elim (Reply-cases s.calls) [
        | inl e ↦ rw (e, attempt) q
        | inr (status, body, e) ↦ elim (Bool-cases (is_retryable status)) [
          | inl r ↦ rw (e, r, attempt) q
          | inr r ↦
              rw (e, r, attempt)
                (subst (λ l. P l)
                  (sym (judge-calls status body (record s { calls = call ∷ s.calls })))
                  (more s.calls p))
        ]
      ]

  -- How a request ends, as the breaker counts it: a success resets the count, a failure that is
  -- worth a retry adds one to it, and from two on opens the circuit for half a minute, and a
  -- rejection leaves it.
  abbrev pub Settled : ℕ → ℕ → Result Body × Session → Type 0
  Settled failures until (done body, s') = s'.consecutive_failures ≡ 0
  Settled failures until (raised (connector_error message code true), s') =
      (s'.consecutive_failures ≡ failures + 1)
      × (1 ≤ failures → s'.circuit_open_until ≡ monotonic s'.calls + seconds 30)
  Settled failures until (raised (connector_error message code false), s') =
      (s'.consecutive_failures ≡ failures) × (s'.circuit_open_until ≡ until)
  Settled failures until (raised other_exception, s') = ⊥

  failure-Settled :
      (s : Session) (message code : String)
      → Settled s.consecutive_failures s.circuit_open_until (
        raised (connector_error message code true),
        record_retryable_failure transport monotonic wall s,
      )
  unfolding record_retryable_failure
  failure-Settled s message code = elim (Bool-cases (leb 2 (s.consecutive_failures + 1))) [
    | inl e ↦ rw e (refl, λ h. refl)
    | inr e ↦ rw e (refl, λ h. absurd (ground arith))
  ]

  judge-Settled :
      (status : ℕ) (body : Body) (s : Session)
      → Settled s.consecutive_failures s.circuit_open_until
          (judge transport monotonic wall status body s)
  unfolding judge
  judge-Settled status body s = elim (Bool-cases (is_retryable status)) [
    | inl e ↦ rw e (failure-Settled s "Auth0 request failed" "UPSTREAM_RETRYABLE")
    | inr e ↦ elim (Bool-cases (leb 400 status)) [
      | inl h ↦ rw (e, h) (refl, refl)
      | inr h ↦ rw (e, h) refl
    ]
  ]

  attempt-Settled :
      (call : Call) (left : ℕ) (s : Session)
      → Settled s.consecutive_failures s.circuit_open_until
          (attempt transport monotonic wall call left s)
  unfolding attempt
  attempt-Settled call zero s = elim (Reply-cases s.calls) [
    | inl e ↦
        rw (e, attempt)
          (failure-Settled (record s { calls = call ∷ s.calls })
            "Auth0 request failed after retries" "NETWORK")
    | inr (status, body, e) ↦
        rw (e, attempt) (judge-Settled status body (record s { calls = call ∷ s.calls }))
  ]
  attempt-Settled call (suc left) s =
      let again = attempt-Settled call left (record s { calls = call ∷ s.calls }) in
      elim (Reply-cases s.calls) [
        | inl e ↦ rw (e, attempt) again
        | inr (status, body, e) ↦ elim (Bool-cases (is_retryable status)) [
          | inl r ↦ rw (e, r, attempt) again
          | inr r ↦
              rw (e, r, attempt) (judge-Settled status body (record s { calls = call ∷ s.calls }))
        ]
      ]

  length-attempt :
      (call : Call) (left : ℕ) (s : Session)
      → length (attempt transport monotonic wall call left s).1.calls ≤ suc left + length s.calls
  unfolding attempt
  length-attempt call zero s = elim (Reply-cases s.calls) [
    | inl e ↦ rw (e, attempt, failure-calls (record s { calls = call ∷ s.calls })) (omega arith)
    | inr (status, body, e) ↦
        rw (e, attempt, judge-calls status body (record s { calls = call ∷ s.calls })) (omega arith)
  ]
  length-attempt call (suc left) s =
      let again = length-attempt call left (record s { calls = call ∷ s.calls }) in
      elim (Reply-cases s.calls) [
        | inl e ↦ rw (e, attempt) (omega (arith, again))
        | inr (status, body, e) ↦ elim (Bool-cases (is_retryable status)) [
          | inl r ↦ rw (e, r, attempt) (omega (arith, again))
          | inr r ↦
              rw (e, r, attempt, judge-calls status body (record s { calls = call ∷ s.calls }))
                (omega arith)
        ]
      ]

  -- The circuit breaker, for a request while the circuit is closed: a success resets the count of
  -- failures, a failure worth a retry adds one to it and, if there was one before, opens the circuit
  -- for 30 seconds, and a rejection leaves both; no other exception is raised.
  pub request-Settled :
      (call : Call) (s : Session)
      → ltb (monotonic s.calls) s.circuit_open_until ≡ false
      → Settled s.consecutive_failures s.circuit_open_until
          (request transport monotonic wall call s)
  unfolding request
  request-Settled call s closed = rw closed (attempt-Settled call 2 s)

  -- While the circuit is open, a request is refused and nothing is sent.
  pub request_open :
      (call : Call) (s : Session)
      → ltb (monotonic s.calls) s.circuit_open_until ≡ true
      → request transport monotonic wall call s
        ≡ (raised (connector_error "Auth0 connector circuit is open" "CIRCUIT_OPEN" true), s)
  unfolding request
  request_open call s h = rw h refl

  pub request-Keeps :
      (P : List Call → Type 0) (call : Call)
      → ((l : List Call) → P l → P (call ∷ l))
      → (s : Session) → P s.calls
      → P (request transport monotonic wall call s).1.calls
  unfolding request
  request-Keeps P call more s p = elim (Bool-cases (ltb (monotonic s.calls) s.circuit_open_until)) [
    | inl h ↦ rw h p
    | inr h ↦ rw h (attempt-Keeps P call more 2 s p)
  ]

  -- The body of a request that succeeded is what the provider answered to its last call.
  abbrev pub IsAnswered : Call → Result Body × Session → Type 0
  IsAnswered call (done body, s) =
      (older : List Call) × (status : ℕ) × (s.calls ≡ call ∷ older)
      × (transport older ≡ response status body)
  IsAnswered call (raised f, s) = Unit

  judge-IsAnswered :
      (call : Call) (status : ℕ) (body : Body) (s : Session)
      → transport s.calls ≡ response status body
      → IsAnswered call
          (judge transport monotonic wall status body (record s { calls = call ∷ s.calls }))
  unfolding judge
  judge-IsAnswered call status body s e = elim (Bool-cases (is_retryable status)) [
    | inl r ↦ rw r tt
    | inr r ↦ elim (Bool-cases (leb 400 status)) [
      | inl h ↦ rw (r, h) tt
      | inr h ↦ rw (r, h) (s.calls, status, refl, e)
    ]
  ]

  attempt-IsAnswered :
      (call : Call) (left : ℕ) (s : Session)
      → IsAnswered call (attempt transport monotonic wall call left s)
  unfolding attempt
  attempt-IsAnswered call zero s = elim (Reply-cases s.calls) [
    | inl e ↦ rw (e, attempt) tt
    | inr (status, body, e) ↦ rw (e, attempt) (judge-IsAnswered call status body s e)
  ]
  attempt-IsAnswered call (suc left) s =
      let again = attempt-IsAnswered call left (record s { calls = call ∷ s.calls }) in
      elim (Reply-cases s.calls) [
        | inl e ↦ rw (e, attempt) again
        | inr (status, body, e) ↦ elim (Bool-cases (is_retryable status)) [
          | inl r ↦ rw (e, r, attempt) again
          | inr r ↦ rw (e, r, attempt) (judge-IsAnswered call status body s e)
        ]
      ]

  pub request-IsAnswered :
      (call : Call) (s : Session) → IsAnswered call (request transport monotonic wall call s)
  unfolding request
  request-IsAnswered call s = elim (Bool-cases (ltb (monotonic s.calls) s.circuit_open_until)) [
    | inl h ↦ rw h tt
    | inr h ↦ rw h (attempt-IsAnswered call 2 s)
  ]

  -- A request is sent three times at most.
  pub length-request :
      (call : Call) (s : Session)
      → length (request transport monotonic wall call s).1.calls ≤ 3 + length s.calls
  unfolding request
  length-request call s = elim (Bool-cases (ltb (monotonic s.calls) s.circuit_open_until)) [
    | inl h ↦ rw h (omega arith)
    | inr h ↦ rw h (length-attempt call 2 s)
  ]
