-- ===== src/Investigation/Answer.antt =====
-- services/investigation_ai.py: `local_result` and `render`. The activity of an event, a column that
-- the stored events here lack, and Python's text of a JSON value are parameters.
use Prim.Native.String.{◌++◌, slice}
use cirt_lens.Base.{
  ℕ, zero, suc, ◌/◌, ◌%◌, String, ◌&&◌, ◌||◌, Option, none, some, List, [], ◌∷◌, map, keep, take,
  ltb, has_text, lower, if◌then◌else◌, truthy,
}
use cirt_lens.Events.{Event}
use cirt_lens.Risk.{RiskParts}
use cirt_lens.Correlation.Infer.{
  IncidentType, credential_compromise, endpoint_compromise, potential_data_exfiltration,
  suspicious_activity,
}
use cirt_lens.Store.{Incident, exception, Outcome, ok, err, ◌>>=◌}
use cirt_lens.Investigation.Json.{
  Json, text, array, object, Fields, end, field, items_of, get, get_list, iterate, type_error,
}

-- for a number below ten
abbrev pub digit : ℕ → String
digit n = slice "0123456789" n (suc n)

-- `str(n)`; the fuel is the number itself, of which a division by ten leaves less.
abbrev pub digits : ℕ → ℕ → String
digits zero n = digit n
digits (suc fuel) n =
    let rest = digits fuel (n / 10) in if ltb n 10 then digit n else rest ++ digit (n % 10)

abbrev pub decimal : ℕ → String
decimal n = digits n n

-- `sep.join(texts)`
abbrev pub join : String → List String → String
join sep [] = ""
join sep (t ∷ []) = t
join sep (t ∷ u ∷ ts) = t ++ sep ++ join sep (u ∷ ts)

-- `{json.loads(incident.score_breakdown)}`
abbrev pub parts_text : RiskParts → String
parts_text p =
    "{'Detection Strength': "
    ++ decimal p.detection_strength
    ++ ", 'Asset / Impact Context': "
    ++ decimal p.asset_context
    ++ ", 'Behavioral Anomaly': "
    ++ decimal p.behavioral_anomaly
    ++ ", 'Threat Intelligence': "
    ++ decimal p.threat_intelligence
    ++ "}"

-- `incident.incident_type.lower()`
abbrev pub type_text : IncidentType → String
type_text credential_compromise = "credential compromise"
type_text endpoint_compromise = "endpoint compromise"
type_text potential_data_exfiltration = "potential data exfiltration"
type_text suspicious_activity = "suspicious activity"

-- `text or default`
abbrev pub text_or : Option String → String → String
text_or none default = default
text_or (some t) default = if truthy (some t) then t else default

unfoldable pub summary : Incident → String → String
summary i question =
    let q = lower question in
    if has_text q "affected" || has_text q "system"
    then "The evidence affects "
      ++ text_or i.primary_user "an unconfirmed user"
      ++ " and "
      ++ text_or i.primary_host "an unconfirmed host/device"
      ++ "."
    else if has_text q "contain" || has_text q "recommend"
    then "Recommended actions derive from the matched playbook; execution remains simulated."
    else if has_text q "why" && (has_text q "risk" || has_text q "critical")
    then "Risk is " ++ decimal i.risk_score ++ "/100 from " ++ parts_text i.score_breakdown ++ "."
    else "Likely "
      ++ type_text i.incident_type
      ++ " — deterministic confidence heuristic "
      ++ decimal i.confidence_score
      ++ "/100."

abbrev pub risky : List Event → List Event
risky events = keep (λ (e : Event). ltb 0 e.risk_score) events

unfoldable pub claim_text : (Event → String) → Event → String
claim_text activity e = activity e ++ "; detected flags: " ++ join ", " e.risk_flags ++ "."

abbrev pub claim : (Event → String) → Event → Json
claim activity e = object (
    field "text" (text (claim_text activity e))
      (field "evidence_ids" (array (items_of (text e.id ∷ []))) end))

abbrev pub claims : (Event → String) → List Event → List Json
claims activity events = map (claim activity) (take 8 (risky events))

unfoldable pub local_result : (Event → String) → Incident → List Event → String → Json
unfolding summary claim_text
local_result activity i events question = object (
    field "summary" (text (summary i question)) (
      field "claims" (array (items_of (claims activity events))) (
        field "uncertainties"
          (array (
            items_of
              (text "The root-cause statement is a hypothesis requiring analyst validation." ∷ [])))
          (field "recommended_next_steps"
            (array (
              items_of (
                text "Validate identity and device ownership."
                ∷ text "Review adjacent telemetry."
                ∷ text "Confirm scope before simulated containment."
                ∷ [])))
            end))))

-- `sep.join(value)` takes texts only.
abbrev pub texts : List Json → Outcome (List String)
texts [] = ok []
texts (text t ∷ xs) = do ts ← texts xs; ok (t ∷ ts)
texts (_ ∷ xs) = err type_error

abbrev pub joined : String → Json → Outcome String
joined sep value = do xs ← iterate value; ts ← texts xs; ok (join sep ts)

-- `value[key]`
abbrev pub at : String → Json → Outcome Json
at key (object fs) = elim (get key fs) [ none ↦ err (exception "KeyError") | some v ↦ ok v ]
at key _ = err type_error

module _ (shown : Json → String) where
  -- `{value}` in a text: a text stands for itself.
  abbrev pub formatted : Json → String
  formatted (text t) = t
  formatted v = shown v

  abbrev pub claim_line : Json → Outcome String
  claim_line c = do
    t ← at "text" c
    ids ← at "evidence_ids" c
    cited ← joined ", " ids
    ok ("- " ++ formatted t ++ " Evidence: " ++ cited)

  abbrev pub claim_lines : List Json → Outcome (List String)
  claim_lines [] = ok []
  claim_lines (c ∷ cs) = do line ← claim_line c; lines ← claim_lines cs; ok (line ∷ lines)

  abbrev pub step_lines : ℕ → List Json → List String
  step_lines n [] = []
  step_lines n (x ∷ xs) = (decimal n ++ ". " ++ formatted x) ∷ step_lines (suc n) xs

  abbrev pub summary_of : Option Json → String
  summary_of none = ""
  summary_of (some v) = formatted v

  unfoldable pub render_fields : Fields → Outcome String
  render_fields fs = do
    cs ← iterate (get_list "claims" fs)
    lines ← claim_lines cs
    xs ← iterate (get_list "recommended_next_steps" fs)
    doubts ← joined " " (get_list "uncertainties" fs)
    ok (
        summary_of (get "summary" fs)
        ++ "\n\nEvidence-backed claims\n"
        ++ join "\n" lines
        ++ "\n\nUncertainty\n"
        ++ doubts
        ++ "\n\nNext steps\n"
        ++ join "\n" (step_lines 1 xs))

  unfoldable pub render : Json → Outcome String
  unfolding render_fields
  render (object fs) = render_fields fs
  render _ = err (exception "AttributeError")

-- `local_answer`
unfoldable pub local_answer :
    (Json → String) → (Event → String) → Incident → List Event → String → Outcome String
unfolding local_result render
local_answer shown activity i events question = do
  answer ← render shown (local_result activity i events question)
  ok (
      if has_text (lower question) "evidence"
      then "Evidence supporting the hypothesis\n\n" ++ answer
      else answer)
