-- ===== src/Investigation/Local.antt =====
-- services/investigation_ai.py: the local answer passes its own validation.
use Prim.Native.String.{String, ◌++◌}
use cirt_lens.Base.{◌≡◌, refl, true, false, List, [], ◌∷◌, map, all, take, append_filled, ◌==◌}
use cirt_lens.Events.{Event}
use cirt_lens.Store.{Incident, ok, result}
use cirt_lens.Incidents.Counting.{sorted_set}
use cirt_lens.Incidents.Upsert.{ids_of}
use cirt_lens.Investigation.Json.{Json, text, elements, items_of}
use cirt_lens.Investigation.Structure.{
  cited_text, all_hashed, is_text, texts_of, sorted_ids, has_evidence, all_evidence, Check, checked,
  validate_claims, validate_structure,
}
use cirt_lens.Investigation.Answer.{
  risky, claim_text, claim, claims, local_result, claim_lines, join, render, render_fields,
}

elements-items_of : (xs : List Json) → elements (items_of xs) ≡ xs
elements-items_of [] = refl
elements-items_of (x ∷ xs) = rw (elements-items_of xs) refl

claim_text_filled : (activity : Event → String) (e : Event) → (claim_text activity e == "") ≡ false
unfolding claim_text
claim_text_filled activity e =
    append_filled (activity e) ("; detected flags: " ++ join ", " e.risk_flags ++ ".") (
      append_filled "; detected flags: " (join ", " e.risk_flags ++ ".")
        (append_filled (join ", " e.risk_flags) "." refl))

module _ (activity : Event → String) where
  pub claims-have_evidence : (es : List Event) → all has_evidence (map (claim activity) es) ≡ true
  claims-have_evidence [] = refl
  claims-have_evidence (e ∷ es) = rw (claim_text_filled activity e, claims-have_evidence es) refl

  claims-all_evidence :
      (es : List Event)
      → all_evidence (map (claim activity) es) ≡ ok (map (λ (e : Event). text e.id) es)
  unfolding all_evidence
  claims-all_evidence [] = refl
  claims-all_evidence (e ∷ es) = rw (claims-all_evidence es) refl

  claims-claim_lines :
      (shown : Json → String) (es : List Event)
      → (lines : List String) × (claim_lines shown (map (claim activity) es) ≡ ok lines)
  claims-claim_lines shown [] = ([], refl)
  claims-claim_lines shown (e ∷ es) =
      let (lines, h) = claims-claim_lines shown es in
      (("- " ++ claim_text activity e ++ " Evidence: " ++ e.id) ∷ lines, rw h refl)

ids-all_hashed :
    (es : List Event)
    → all_hashed (map (λ (e : Event). text e.id) es) ≡ ok (map (λ (e : Event). cited_text e.id) es)
ids-all_hashed [] = refl
ids-all_hashed (e ∷ es) = rw (ids-all_hashed es) refl

ids-is_text : (es : List Event) → all is_text (map (λ (e : Event). cited_text e.id) es) ≡ true
ids-is_text [] = refl
ids-is_text (e ∷ es) = ids-is_text es

ids-texts_of : (es : List Event) → texts_of (map (λ (e : Event). cited_text e.id) es) ≡ ids_of es
ids-texts_of [] = refl
ids-texts_of (e ∷ es) = rw (ids-texts_of es) refl

ids-sorted_ids :
    (es : List Event)
    → sorted_ids (map (λ (e : Event). cited_text e.id) es)
      ≡ ok (map cited_text (sorted_set (ids_of es)))
unfolding sorted_ids
ids-sorted_ids es = rw (ids-is_text es, ids-texts_of es) refl

claims-validate_claims :
    (activity : Event → String) (event_ids : List String) (es : List Event)
    → validate_claims event_ids (map (claim activity) es)
      ≡ ok (checked event_ids (map (claim activity) es) (map cited_text (sorted_set (ids_of es))))
claims-validate_claims activity event_ids es =
    rw (claims-all_evidence activity es, ids-all_hashed es, ids-sorted_ids es) refl

-- The claims of the local answer are those of its list.
abbrev pub cited_events : List Event → List Event
cited_events events = take 8 (risky events)

abbrev pub local_check : (Event → String) → List String → List Event → Check
local_check activity event_ids es =
    checked event_ids (map (claim activity) es) (map cited_text (sorted_set (ids_of es)))

pub local_result-validate_structure :
    (activity : Event → String) (i : Incident) (events : List Event) (question : String)
    → validate_structure (local_result activity i events question) i.event_ids
      ≡ ok (local_check activity i.event_ids (cited_events events))
unfolding validate_structure local_result
local_result-validate_structure activity i events question =
    rw
      (
        elements-items_of (claims activity events),
        claims-validate_claims activity i.event_ids (cited_events events),
      )
      refl

pub local_result-render :
    (shown : Json → String) (activity : Event → String) (i : Incident) (events : List Event)
    (question : String)
    → (answer : String) × (render shown (local_result activity i events question) ≡ ok answer)
unfolding render render_fields local_result
local_result-render shown activity i events question =
    let (lines, h) = claims-claim_lines activity shown (cited_events events) in
    result (render shown (local_result activity i events question))
      (rw (elements-items_of (claims activity events), h) tt)
