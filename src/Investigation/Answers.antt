-- ===== src/Investigation/Answers.antt =====
-- services/investigation_ai.py: `investigate` always answers, with evidence or from it.
use cirt_lens.Base.{
  ℕ, zero, suc, ◌+◌, ◌≤◌, ◌≡◌, ◌≢◌, refl, sym, String, Bool, true, false, Option, none, some, List,
  [], ◌∷◌, ◌++◌, length, length-append, if◌then◌else◌, arith,
}
use cirt_lens.Events.{Event}
use cirt_lens.Store.{Incident, Outcome, ok, err}
use cirt_lens.Investigation.Json.{Json}
use cirt_lens.Investigation.Structure.{Check, validate_structure}
use cirt_lens.Investigation.Answer.{local_result, render}
use cirt_lens.Investigation.Investigate.{
  Mode, local_deterministic, openai, local_fallback, Investigation, Round, accepted, rejected,
  Correction, ungrounded, Requests, Service, after_render, after_check, after_reply, rounds,
  answer_locally, or_locally, investigate,
}
use cirt_lens.Investigation.Local.{
  cited_events, local_check, local_result-validate_structure, local_result-render,
}

-- The answer stands on its check: it is rendered from its payload, and what is claimed as validated
-- has passed every test.
pub record IsAnswer (s : Service) (i : Incident) (events : List Event) (question : String)
    (r : Investigation) : Type 0 where
  pub rendered : render s.shown r.structured ≡ ok r.answer
  pub validation : validate_structure r.structured i.event_ids ≡ ok r.check
  pub verdict : r.validated ≡ r.check.fully_grounded_structure_valid
  pub external : r.mode ≡ openai → r.validated ≡ true
  pub local : r.mode ≢ openai → r.structured ≡ local_result s.activity i events question

module _ (s : Service) (i : Incident) (events : List Event) (question : String) where
  -- A round that is accepted.
  abbrev Accepts : Round → Type 0
  Accepts (accepted r) = IsAnswer s i events question r
  Accepts (rejected c) = Unit

  after_render-Accepts :
      (payload : Json) (check : Check) (o : Outcome String)
      → validate_structure payload i.event_ids ≡ ok check
      → render s.shown payload ≡ o
      → (b : Bool) → check.fully_grounded_structure_valid ≡ b
      → Accepts (if b then after_render payload check o else rejected ungrounded)
  after_render-Accepts payload check o h k false f = tt
  after_render-Accepts payload check (err e) h k true f = tt
  after_render-Accepts payload check (ok answer) h k true f = record {
    rendered = k;
    validation = h;
    verdict = sym f;
    external = λ m. refl;
    local = λ m. absurd (m refl);
  }

  after_check-Accepts :
      (payload : Json) (o : Outcome Check)
      → validate_structure payload i.event_ids ≡ o
      → Accepts (after_check s payload o)
  after_check-Accepts payload (err e) h = tt
  after_check-Accepts payload (ok check) h =
      after_render-Accepts payload check (render s.shown payload) h refl
        check.fully_grounded_structure_valid refl

  after_reply-Accepts : (reply : Outcome Json) → Accepts (after_reply s i.event_ids reply)
  after_reply-Accepts (err e) = tt
  after_reply-Accepts (ok payload) =
      after_check-Accepts payload (validate_structure payload i.event_ids) refl

  -- What the rounds come to.
  abbrev Answers : ℕ → Requests → Option Investigation × Requests → Type 0
  Answers n sent (none, requests) = length requests ≤ n + length sent
  Answers n sent (some r, requests) =
      (length requests ≤ n + length sent) × IsAnswer s i events question r

  Answers-more :
      (n : ℕ) (sent : Requests) (c : Option Correction) (x : Option Investigation × Requests)
      → Answers n (sent ++ c ∷ []) x
      → Answers (suc n) sent x
  Answers-more n sent c (none, requests) h = omega (arith, length-append sent (c ∷ []), h)
  Answers-more n sent c (some r, requests) (h, k) =
      (omega (arith, length-append sent (c ∷ []), h), k)

  round-Answers :
      (n : ℕ) (sent : Requests) (c : Option Correction) (round : Round)
      → Accepts round
      → ((d : Correction)
          → Answers n (sent ++ c ∷ []) (rounds n s i.event_ids (sent ++ c ∷ []) (some d)))
      → Answers (suc n) sent (elim round [
        | accepted r ↦ (some r, sent ++ c ∷ [])
        | rejected d ↦ rounds n s i.event_ids (sent ++ c ∷ []) (some d)
      ])
  round-Answers n sent c (accepted r) h k = (omega (arith, length-append sent (c ∷ [])), h)
  round-Answers n sent c (rejected d) h k =
      Answers-more n sent c (rounds n s i.event_ids (sent ++ c ∷ []) (some d)) (k d)

  rounds-Answers :
      (n : ℕ) (sent : Requests) (c : Option Correction)
      → Answers n sent (rounds n s i.event_ids sent c)
  unfolding rounds
  rounds-Answers zero sent c = omega arith
  rounds-Answers (suc n) sent c =
      round-Answers n sent c (after_reply s i.event_ids (s.external (sent ++ c ∷ [])))
        (after_reply-Accepts (s.external (sent ++ c ∷ [])))
        (λ d. rounds-Answers n (sent ++ c ∷ []) (some d))

  answer_locally-IsAnswer :
      (mode : Mode)
      → mode ≢ openai
      → (r : Investigation) × (answer_locally s mode i events question ≡ ok r)
        × IsAnswer s i events question r
  unfolding answer_locally
  answer_locally-IsAnswer mode m =
      let payload = local_result s.activity i events question in
      let check = local_check s.activity i.event_ids (cited_events events) in
      let checks = local_result-validate_structure s.activity i events question in
      let (answer, renders) = local_result-render s.shown s.activity i events question in
      let r : Investigation = record {
        answer = answer;
        structured = payload;
        mode = mode;
        check = check;
        validated = check.fully_grounded_structure_valid;
      } in
      (
        r,
        rw (checks, renders) refl,
        record {
          rendered = renders;
          validation = checks;
          verdict = refl;
          external = λ e. absurd (m e);
          local = λ e. refl;
        },
      )

-- An answer after two requests at most.
abbrev IsAnswered :
    Service → Incident → List Event → String → Outcome Investigation × Requests → Type 0
IsAnswered s i events question x =
    (r : Investigation) × (x.0 ≡ ok r) × (length x.1 ≤ 2) × IsAnswer s i events question r

found-IsAnswered :
    (s : Service) (i : Incident) (events : List Event) (question : String)
    (x : Option Investigation × Requests)
    → Answers s i events question 2 [] x
    → IsAnswered s i events question (or_locally x.0 s i events question, x.1)
found-IsAnswered s i events question (some r, requests) (n, k) = (r, refl, n, k)
found-IsAnswered s i events question (none, requests) n =
    let (r, h, k) = answer_locally-IsAnswer s i events question local_fallback (λ e. cc) in
    (r, h, n, k)

if-IsAnswered :
    (s : Service) (i : Incident) (events : List Event) (question : String)
    (x y : Outcome Investigation × Requests)
    → IsAnswered s i events question x
    → IsAnswered s i events question y
    → (b : Bool) → IsAnswered s i events question (if b then x else y)
if-IsAnswered s i events question x y h k true = h
if-IsAnswered s i events question x y h k false = k

-- Whatever the external model replies, a question is answered, after two requests at most. The
-- answer is rendered from its payload and reports the result of the validation; an answer of the
-- external model has passed all of it, and any other is the local one.
pub investigate-IsAnswer :
    (s : Service) (i : Incident) (events : List Event) (question : String)
    → (r : Investigation) × ((investigate s i events question).0 ≡ ok r)
      × (length (investigate s i events question).1 ≤ 2)
      × IsAnswer s i events question r
unfolding investigate
investigate-IsAnswer s i events question =
    let found = rounds 2 s i.event_ids [] none in
    let (r, h, k) = answer_locally-IsAnswer s i events question local_deterministic (λ e. cc) in
    if-IsAnswered s i events question (or_locally found.0 s i events question, found.1)
      (answer_locally s local_deterministic i events question, [])
      (found-IsAnswered s i events question found (rounds-Answers s i events question 2 [] none))
      (r, h, omega arith, k) s.has_key
