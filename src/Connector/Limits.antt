-- ===== src/Connector/Limits.antt =====
-- backend/app/connectors.py: how much `Auth0IdentityConnector.execute` sends.
use cirt_lens.Base.{
  ℕ, ◌+◌, ◌≤◌, ◌≡◌, refl, String, Bool, true, false, not, ◌&&◌, ◌||◌, List, [], ◌∷◌, length, arith,
  Bool-cases, ◌∙◌, ◌⊎◌, inl, inr, ltb, contains, ◌==◌,
}
use cirt_lens.Connector.Auth0.{
  Auth0, Call, get_token, find_users, block_user, Reply, Body, token_body, users_body, unreadable,
  Session, Result, done, raised, request, target, access_token, blocked, block, with_token,
  on_target, execute, supported_actions, keep_token,
}
use cirt_lens.Connector.Requests.{request_open, length-request}

module _ (transport : List Call → Reply) (monotonic wall : List Call → ℕ) (a : Auth0) where
  abbrev sent {ℓ} : {A : Type ℓ} → Result A × Session → ℕ
  sent r = length r.1.calls

  sent-keep_token :
      (r : Result Body × Session) → sent (keep_token transport monotonic wall r) ≡ sent r
  sent-keep_token (raised f, s) = refl
  sent-keep_token (done (token_body t n), s) = refl
  sent-keep_token (done (users_body us), s) = refl
  sent-keep_token (done unreadable, s) = refl

  sent-blocked :
      (c t : String) (r : Result Body × Session)
      → sent (blocked transport monotonic wall c t r) ≡ sent r
  sent-blocked c t (raised f, s) = refl
  sent-blocked c t (done body, s) = refl

  sent-block :
      (c token t : String) (r : Result Body × Session)
      → sent (block transport monotonic wall a c token t r) ≤ 3 + sent r
  unfolding block
  sent-block c token t (raised f, s) = omega arith
  sent-block c token t (done (token_body x y), s) = omega arith
  sent-block c token t (done unreadable, s) = omega arith
  sent-block c token t (done (users_body []), s) = omega arith
  sent-block c token t (done (users_body (u ∷ v ∷ us)), s) = omega arith
  sent-block c token t (done (users_body (u ∷ [])), s) =
      let call = block_user a.domain token c u in
      rw (sent-blocked c t (request transport monotonic wall call s))
        (length-request transport monotonic wall call s)

  sent-with_token :
      (c t : String) (r : Result String × Session)
      → sent (with_token transport monotonic wall a c t r) ≤ 6 + sent r
  sent-with_token c t (raised f, s) = omega arith
  sent-with_token c t (done token, s) =
      let call = find_users a.domain token c t in
      omega (
        arith,
        sent-block c token t (request transport monotonic wall call s),
        length-request transport monotonic wall call s,
      )

  -- Whether a kept token is used, and whether the connector has credentials.
  abbrev has_token : Session → Bool
  has_token s = not (s.token == "") && ltb (wall s.calls) s.token_expires_at

  abbrev lacks_credentials : Bool
  lacks_credentials =
      a.client_id == "" || (a.client_secret == "" || a.client_secret == "PASTE_YOUR_SECRET_HERE")

  sent-access_token :
      (s : Session) → sent (access_token transport monotonic wall a s) ≤ 3 + length s.calls
  unfolding access_token
  sent-access_token s = elim (Bool-cases (has_token s)) [
    | inl e ↦ rw e (omega arith)
    | inr e ↦ elim (Bool-cases lacks_credentials) [
      | inl f ↦ rw (e, f) (omega arith)
      | inr f ↦
          let call = get_token a.domain a.client_id a.client_secret in
          rw (e, f, sent-keep_token (request transport monotonic wall call s))
            (length-request transport monotonic wall call s)
    ]
  ]

  sent-on_target :
      (c : String) (dry_run : Bool) (r : Result String) (s : Session)
      → sent (on_target transport monotonic wall a c dry_run r s) ≤ 9 + length s.calls
  sent-on_target c dry_run (raised f) s = omega arith
  sent-on_target c true (done t) s = omega arith
  sent-on_target c false (done t) s =
      omega (
        arith,
        sent-with_token c t (access_token transport monotonic wall a s),
        sent-access_token s,
      )

  -- One action sends nine requests at most, whatever the provider answers.
  pub execute_bounded :
      (action subject c : String) (dry_run : Bool) (s : Session)
      → length (execute transport monotonic wall a action subject c dry_run s).1.calls
        ≤ 9 + length s.calls
  unfolding execute
  execute_bounded action subject c dry_run s =
      elim (Bool-cases (contains supported_actions action)) [
        | inl e ↦ rw e (sent-on_target c dry_run (target a subject) s)
        | inr e ↦ rw e (omega arith)
      ]

  access_token_open :
      (s : Session)
      → ltb (monotonic s.calls) s.circuit_open_until ≡ true
      → (access_token transport monotonic wall a s).1 ≡ s
  unfolding access_token
  access_token_open s h = elim (Bool-cases (has_token s)) [
    | inl e ↦ rw e refl
    | inr e ↦ elim (Bool-cases lacks_credentials) [
      | inl f ↦ rw (e, f) refl
      | inr f ↦
          rw
            (
              e,
              f,
              request_open transport monotonic wall (get_token a.domain a.client_id a.client_secret)
                  s h,
            )
            refl
    ]
  ]

  with_token_open :
      (c t : String) (r : Result String × Session)
      → ltb (monotonic r.1.calls) r.1.circuit_open_until ≡ true
      → (with_token transport monotonic wall a c t r).1 ≡ r.1
  unfolding block
  with_token_open c t (raised f, s) h = refl
  with_token_open c t (done token, s) h =
      rw (request_open transport monotonic wall (find_users a.domain token c t) s h) refl

  on_target_silent :
      (c : String) (dry_run : Bool) (r : Result String) (s : Session)
      → (dry_run ≡ true) ⊎ (ltb (monotonic s.calls) s.circuit_open_until ≡ true)
      → (on_target transport monotonic wall a c dry_run r s).1 ≡ s
  on_target_silent c dry_run (raised f) s h = refl
  on_target_silent c true (done t) s h = refl
  on_target_silent c false (done t) s (inl e) = absurd (ground arith)
  on_target_silent c false (done t) s (inr h) =
      let unchanged = access_token_open s h in
      with_token_open c t (access_token transport monotonic wall a s) (rw unchanged h) ∙ unchanged

  -- In a dry run, and while the circuit is open, an action sends nothing and leaves the connector's
  -- state as it is.
  pub execute_silent :
      (action subject c : String) (dry_run : Bool) (s : Session)
      → (dry_run ≡ true) ⊎ (ltb (monotonic s.calls) s.circuit_open_until ≡ true)
      → (execute transport monotonic wall a action subject c dry_run s).1 ≡ s
  unfolding execute
  execute_silent action subject c dry_run s h =
      elim (Bool-cases (contains supported_actions action)) [
        | inl e ↦ rw e (on_target_silent c dry_run (target a subject) s h)
        | inr e ↦ rw e refl
      ]
