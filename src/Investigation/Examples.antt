-- ===== src/Investigation/Examples.antt =====
-- Tests of the investigation, and its theorems at concrete inputs.
use cirt_lens.Incidents.Counting.{sorted_set}
use cirt_lens.Base.{◌≤◌, ◌≡◌, ◌≢◌, refl, String, true, some, none, List, [], ◌∷◌, length, All}
use cirt_lens.Events.{Event}
use cirt_lens.Store.{Outcome, ok, err, exception}
use cirt_lens.Correlation.Samples.{first_login, second_login}
use cirt_lens.Response.Samples.{sample_case}
use cirt_lens.Investigation.Json.{Json, text, array, object, items_of, field, end}
use cirt_lens.Investigation.Structure.{Check, cited_text, validate_structure, claims_of}
use cirt_lens.Investigation.Answer.{decimal}
use cirt_lens.Investigation.Investigate.{
  Investigation, Requests, malformed, ungrounded, Service, investigate,
}
use cirt_lens.Investigation.Grounded.{IsGrounded, validate_structure-IsGrounded}
use cirt_lens.Investigation.Answers.{IsAnswer, investigate-IsAnswer}
use cirt_lens.Investigation.Validated.{investigate-validated}

abbrev citing : String → Json
citing id = object (
    field "claims"
      (array (
        items_of (
          object (
            field "text" (text "A login from a new device")
              (field "evidence_ids" (array (items_of (text id ∷ []))) end))
          ∷ [])))
      end)

-- The first reply cites an event that is not there, the second one that is.
abbrev corrected : Requests → Outcome Json
corrected (c ∷ []) = ok (citing "AUTH-99")
corrected _ = ok (citing "AUTH-1")

abbrev service : Service
service = record { has_key = true; external = corrected; shown = λ v. "?"; activity = λ e. "Login" }

abbrev failing : Service
failing = record service { external = λ sent. err (exception "URLError") }

abbrev case_events : List Event
case_events = first_login ∷ second_login ∷ []

corrects : (investigate service sample_case case_events "why").1 ≡ none ∷ some ungrounded ∷ []
unfolding investigate sorted_set
corrects = refl

falls_back : (investigate failing sample_case case_events "why").1 ≡ none ∷ some malformed ∷ []
unfolding investigate
falls_back = refl

counted : decimal 1205 ≡ "1205"
counted = refl

investigate-IsAnswer_example :
    (r : Investigation) × ((investigate service sample_case case_events "why").0 ≡ ok r)
    × (length (investigate service sample_case case_events "why").1 ≤ 2)
    × IsAnswer service sample_case case_events "why" r
investigate-IsAnswer_example = investigate-IsAnswer service sample_case case_events "why"

investigate-validated_example :
    (r : Investigation) × ((investigate failing sample_case case_events "why").0 ≡ ok r)
    × (r.validated ≡ true)
investigate-validated_example =
    investigate-validated failing sample_case case_events "why" (refl, (refl, tt)) refl

abbrev passed : Check
passed = record {
  event_ids_valid = true;
  claims_have_evidence = true;
  fully_grounded_structure_valid = true;
  cited_event_ids = cited_text "AUTH-1" ∷ [];
}

passes : validate_structure (citing "AUTH-1") ("AUTH-1" ∷ []) ≡ ok passed
unfolding validate_structure sorted_set
passes = refl

validate_structure-IsGrounded_example :
    (cs : List Json) × (claims_of (citing "AUTH-1") ≡ some cs)
    × (cs ≢ [])
    × All (IsGrounded ("AUTH-1" ∷ [])) cs
validate_structure-IsGrounded_example =
    validate_structure-IsGrounded (citing "AUTH-1") ("AUTH-1" ∷ []) passed passes refl
