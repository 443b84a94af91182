-- ===== src/Investigation/Investigate.antt =====
-- services/investigation_ai.py: `investigate`. The external model is a function from the requests
-- sent, told apart by the corrections in them, to the payload of the last reply or a failure.
use cirt_lens.Base.{
  ℕ, zero, suc, String, Bool, true, Option, none, some, List, [], ◌∷◌, ◌++◌, if◌then◌else◌,
}
use cirt_lens.Events.{Event}
use cirt_lens.Store.{Incident, Outcome, ok, err, ◌>>=◌}
use cirt_lens.Investigation.Json.{Json}
use cirt_lens.Investigation.Structure.{Check, validate_structure}
use cirt_lens.Investigation.Answer.{local_result, render}

pub data Mode : Type 0 where
  local_deterministic openai local_fallback : Mode

-- `latency_ms` is left out.
pub record Investigation : Type 0 where
  pub answer : String
  pub structured : Json
  pub mode : Mode
  pub check : Check
  pub validated : Bool

-- `correction`
pub data Correction : Type 0 where
  ungrounded malformed : Correction

-- What one round comes to: an answer or the correction for the next request.
pub data Round : Type 0 where
  accepted : Investigation → Round
  rejected : Correction → Round

abbrev pub Requests : Type 0
Requests = List (Option Correction)

pub record Service : Type 0 where
  pub has_key : Bool
  pub external : Requests → Outcome Json
  pub shown : Json → String
  pub activity : Event → String

abbrev pub after_render : Json → Check → Outcome String → Round
after_render payload check (ok answer) = accepted (record {
  answer = answer;
  structured = payload;
  mode = openai;
  check = check;
  validated = true;
})
after_render payload check (err e) = rejected malformed

abbrev pub after_check : Service → Json → Outcome Check → Round
after_check s payload (ok check) =
    if check.fully_grounded_structure_valid
    then after_render payload check (render s.shown payload)
    else rejected ungrounded
after_check s payload (err e) = rejected malformed

abbrev pub after_reply : Service → List String → Outcome Json → Round
after_reply s event_ids (ok payload) = after_check s payload (validate_structure payload event_ids)
after_reply s event_ids (err e) = rejected malformed

-- `for _ in range(2)`: the answer, if a round gave one, and the requests sent.
unfoldable pub rounds :
    ℕ → Service → List String → Requests → Option Correction → Option Investigation × Requests
unfolding validate_structure render
rounds zero s event_ids sent correction = (none, sent)
rounds (suc n) s event_ids sent correction =
    let requests = sent ++ correction ∷ [] in
    elim (after_reply s event_ids (s.external requests)) [
      | accepted r ↦ (some r, requests)
      | rejected c ↦ rounds n s event_ids requests (some c)
    ]

unfoldable pub answer_locally :
    Service → Mode → Incident → List Event → String → Outcome Investigation
unfolding local_result validate_structure render
answer_locally s mode i events question = do
  let payload = local_result s.activity i events question
  check ← validate_structure payload i.event_ids
  answer ← render s.shown payload
  ok (record {
    answer = answer;
    structured = payload;
    mode = mode;
    check = check;
    validated = check.fully_grounded_structure_valid;
  })

-- The fallback where no round gave an answer.
abbrev pub or_locally :
    Option Investigation → Service → Incident → List Event → String → Outcome Investigation
or_locally (some r) s i events question = ok r
or_locally none s i events question = answer_locally s local_fallback i events question

unfoldable pub investigate :
    Service → Incident → List Event → String → Outcome Investigation × Requests
unfolding rounds answer_locally
investigate s i events question =
    if s.has_key
    then (let (found, sent) = rounds 2 s i.event_ids [] none in
        (or_locally found s i events question, sent))
    else (answer_locally s local_deterministic i events question, [])
