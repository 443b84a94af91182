-- ===== src/Connector/Targets.antt =====
-- backend/app/connectors.py: what `Auth0IdentityConnector.execute` sends, and to whom.
use cirt_lens.Base.{
  ℕ, ◌≡◌, refl, sym, String, Bool, true, false, not, ◌&&◌, ◌||◌, List, [], ◌∷◌, arith, Bool-cases,
  inl, inr, ltb, contains, subst, if◌then◌else◌, ◌==◌,
}
use cirt_lens.Connector.Auth0.{
  Auth0, Call, get_token, find_users, block_user, Reply, response, Body, token_body, users_body,
  unreadable, Session, Result, done, raised, request, target, access_token, blocked, block,
  with_token, on_target, execute, supported_actions, keep_token, normal, plain_error,
}
use cirt_lens.Connector.Requests.{request-Keeps, request-IsAnswered, IsAnswered}

module _ (transport : List Call → Reply) (monotonic wall : List Call → ℕ) (a : Auth0) where
  -- The calls before a request to block a user, the newest first: the same request, and before it
  -- the search for an allowlisted address, to which the provider answered with this user alone.
  abbrev pub IsFound : String → List Call → Type 0
  IsFound user_id [] = ⊥
  IsFound user_id (get_token d i s ∷ older) = ⊥
  IsFound user_id (find_users d t c email ∷ older) =
      (contains a.allowed_users email ≡ true)
      × (status : ℕ) × (transport older ≡ response status (users_body (user_id ∷ [])))
  IsFound user_id (block_user d t c other ∷ older) = (other ≡ user_id) × IsFound user_id older

  -- Every search is for an allowlisted address, and every user that is blocked was found so.
  abbrev pub IsLicensed : List Call → Type 0
  IsLicensed [] = Unit
  IsLicensed (get_token d i s ∷ older) = IsLicensed older
  IsLicensed (find_users d t c email ∷ older) =
      (contains a.allowed_users email ≡ true) × IsLicensed older
  IsLicensed (block_user d t c user_id ∷ older) = IsFound user_id older × IsLicensed older

  abbrev CanBlock : String → List Call → Type 0
  CanBlock user_id l = IsFound user_id l × IsLicensed l

  blocked-IsLicensed :
      (c t : String) (r : Result Body × Session)
      → IsLicensed r.1.calls
      → IsLicensed (blocked transport monotonic wall c t r).1.calls
  blocked-IsLicensed c t (raised f, s) h = h
  blocked-IsLicensed c t (done body, s) h = h

  -- What is known of the answer to the search.
  abbrev IsSearched : String → Result Body × Session → Type 0
  IsSearched email (raised f, s) = IsLicensed s.calls
  IsSearched email (done (users_body (u ∷ [])), s) = CanBlock u s.calls
  IsSearched email (done body, s) = IsLicensed s.calls

  found-IsSearched :
      (d t c email : String)
      → contains a.allowed_users email ≡ true
      → (r : Result Body × Session) → IsAnswered transport monotonic wall (find_users d t c email) r
      → IsLicensed r.1.calls
      → IsSearched email r
  found-IsSearched d t c email h (raised f, s) k l = l
  found-IsSearched d t c email h (done (token_body x y), s) k l = l
  found-IsSearched d t c email h (done unreadable, s) k l = l
  found-IsSearched d t c email h (done (users_body []), s) k l = l
  found-IsSearched d t c email h (done (users_body (u ∷ v ∷ us)), s) k l = l
  found-IsSearched d t c email h (done (users_body (u ∷ [])), s) (older, status, e, w) l =
      (subst (λ x. IsFound u x) (sym e) (h, status, w), l)

  block-IsLicensed :
      (c t email : String) (r : Result Body × Session)
      → IsSearched email r
      → IsLicensed (block transport monotonic wall a c t email r).1.calls
  unfolding block
  block-IsLicensed c t email (raised f, s) h = h
  block-IsLicensed c t email (done (token_body x y), s) h = h
  block-IsLicensed c t email (done unreadable, s) h = h
  block-IsLicensed c t email (done (users_body []), s) h = h
  block-IsLicensed c t email (done (users_body (u ∷ v ∷ us)), s) h = h
  block-IsLicensed c t email (done (users_body (u ∷ [])), s) h =
      blocked-IsLicensed c email (request transport monotonic wall (block_user a.domain t c u) s)
        (request-Keeps transport monotonic wall (CanBlock u) (block_user a.domain t c u)
          (λ l p. ((refl, p.0), p)) s h).1

  keep_token-IsLicensed :
      (r : Result Body × Session)
      → IsLicensed r.1.calls
      → IsLicensed (keep_token transport monotonic wall r).1.calls
  keep_token-IsLicensed (raised f, s) h = h
  keep_token-IsLicensed (done (token_body t n), s) h = h
  keep_token-IsLicensed (done (users_body us), s) h = h
  keep_token-IsLicensed (done unreadable, s) h = h

  access_token-IsLicensed :
      (s : Session)
      → IsLicensed s.calls
      → IsLicensed (access_token transport monotonic wall a s).1.calls
  unfolding access_token
  access_token-IsLicensed s h =
      elim (Bool-cases (not (s.token == "") && ltb (wall s.calls) s.token_expires_at)) [
        | inl e ↦ rw e h
        | inr e ↦
            elim (Bool-cases (
              a.client_id == ""
              || (a.client_secret == "" || a.client_secret == "PASTE_YOUR_SECRET_HERE"))) [
                | inl f ↦ rw (e, f) h
                | inr f ↦
                    rw (e, f)
                      (keep_token-IsLicensed
                        (request transport monotonic wall
                          (get_token a.domain a.client_id a.client_secret) s)
                        (request-Keeps transport monotonic wall (λ l. IsLicensed l)
                          (get_token a.domain a.client_id a.client_secret) (λ l p. p) s h))
              ]
      ]

  with_token-IsLicensed :
      (c email : String)
      → contains a.allowed_users email ≡ true
      → (r : Result String × Session) → IsLicensed r.1.calls
      → IsLicensed (with_token transport monotonic wall a c email r).1.calls
  with_token-IsLicensed c email ok (raised f, s) h = h
  with_token-IsLicensed c email ok (done t, s) h =
      block-IsLicensed c t email
        (request transport monotonic wall (find_users a.domain t c email) s)
        (found-IsSearched a.domain t c email ok
          (request transport monotonic wall (find_users a.domain t c email) s)
          (request-IsAnswered transport monotonic wall (find_users a.domain t c email) s)
          (request-Keeps transport monotonic wall (λ l. IsLicensed l)
            (find_users a.domain t c email) (λ l p. (ok, p)) s h))

  abbrev IsAllowed : Result String → Type 0
  IsAllowed (raised f) = Unit
  IsAllowed (done t) = contains a.allowed_users t ≡ true

  target-IsAllowed : (subject : String) → IsAllowed (target a subject)
  unfolding target
  target-IsAllowed subject =
      checked (if a.target_override == "" then normal subject else a.target_override)
    where
      checked :
          (t : String)
          → IsAllowed (
              if t == "" || not (contains a.allowed_users t)
              then raised (plain_error "Auth0 target is not explicitly allowlisted")
              else done t)
      checked t = elim (Bool-cases (t == "" || not (contains a.allowed_users t))) [
        | inl e ↦ rw e tt
        | inr e ↦ rw e (ground arith)
      ]

  on_target-IsLicensed :
      (c : String) (dry_run : Bool) (r : Result String)
      → IsAllowed r
      → (s : Session) → IsLicensed s.calls
      → IsLicensed (on_target transport monotonic wall a c dry_run r s).1.calls
  on_target-IsLicensed c dry_run (raised f) k s h = h
  on_target-IsLicensed c true (done t) k s h = h
  on_target-IsLicensed c false (done t) k s h =
      with_token-IsLicensed c t k (access_token transport monotonic wall a s)
        (access_token-IsLicensed s h)

  -- Whatever the provider answers, an action keeps the following of the requests sent: each search
  -- is for an allowlisted address, and each request to block a user follows, with only repeats of
  -- it between, a search that the provider answered with that user alone.
  pub execute-IsLicensed :
      (action subject c : String) (dry_run : Bool) (s : Session)
      → IsLicensed s.calls
      → IsLicensed (execute transport monotonic wall a action subject c dry_run s).1.calls
  unfolding execute
  execute-IsLicensed action subject c dry_run s h =
      elim (Bool-cases (contains supported_actions action)) [
        | inl e ↦
            rw e (on_target-IsLicensed c dry_run (target a subject) (target-IsAllowed subject) s h)
        | inr e ↦ rw e h
      ]
