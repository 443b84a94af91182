-- ===== src/Investigation/Structure.antt =====
-- services/investigation_ai.py: `validate_structure`.
use cirt_lens.Base.{
  ℕ, String, Bool, true, false, ◌&&◌, Option, none, some, List, [], ◌∷◌, ◌++◌, map, all, contains,
  if◌then◌else◌, eqb, ltb,
}
use cirt_lens.Store.{Outcome, ok, err, ◌>>=◌}
use cirt_lens.Incidents.Counting.{sorted_set}
use cirt_lens.Investigation.Json.{
  Json, null, truth, number, text, array, object, elements, get, get_list, holds_at, iterate,
  type_error,
}

-- What a claim may cite and a set can hold; a truth value is kept as the number that it equals.
pub data Cited : Type 0 where
  cited_text : String → Cited
  cited_number : ℕ → Cited
  cited_null : Cited

abbrev pub hashed : Json → Outcome Cited
hashed (text t) = ok (cited_text t)
hashed (number n) = ok (cited_number n)
hashed (truth true) = ok (cited_number 1)
hashed (truth false) = ok (cited_number 0)
hashed null = ok cited_null
hashed _ = err type_error

abbrev pub all_hashed : List Json → Outcome (List Cited)
all_hashed [] = ok []
all_hashed (x ∷ xs) = do c ← hashed x; cs ← all_hashed xs; ok (c ∷ cs)

abbrev pub is_text : Cited → Bool
is_text (cited_text t) = true
is_text _ = false

abbrev pub is_number : Cited → Bool
is_number (cited_number n) = true
is_number _ = false

abbrev pub is_null : Cited → Bool
is_null cited_null = true
is_null _ = false

abbrev pub texts_of : List Cited → List String
texts_of [] = []
texts_of (cited_text t ∷ cs) = t ∷ texts_of cs
texts_of (_ ∷ cs) = texts_of cs

abbrev pub insert_number : ℕ → List ℕ → List ℕ
insert_number n [] = n ∷ []
insert_number n (m ∷ ms) =
    let rest = insert_number n ms in
    if eqb n m then m ∷ ms else if ltb n m then n ∷ m ∷ ms else m ∷ rest

abbrev pub sorted_numbers : List Cited → List ℕ
sorted_numbers [] = []
sorted_numbers (cited_number n ∷ cs) = insert_number n (sorted_numbers cs)
sorted_numbers (_ ∷ cs) = sorted_numbers cs

-- `sorted(set(ids))`: values of different kinds do not compare.
unfoldable pub sorted_ids : List Cited → Outcome (List Cited)
sorted_ids cs =
    if all is_text cs
    then ok (map cited_text (sorted_set (texts_of cs)))
    else if all is_number cs
    then ok (map cited_number (sorted_numbers cs))
    else if all is_null cs
    then ok (cited_null ∷ [])
    else err type_error

-- `isinstance(c, dict) and c.get("text") and c.get("evidence_ids")`
abbrev pub has_evidence : Json → Bool
has_evidence (object fs) = holds_at "text" fs && holds_at "evidence_ids" fs
has_evidence _ = false

-- `ids.extend(claim.get("evidence_ids", []))` over the claims that are dicts
abbrev pub evidence_of : Json → Outcome (List Json)
evidence_of (object fs) = iterate (get_list "evidence_ids" fs)
evidence_of _ = ok []

unfoldable pub all_evidence : List Json → Outcome (List Json)
all_evidence [] = ok []
all_evidence (c ∷ cs) = do es ← evidence_of c; rest ← all_evidence cs; ok (es ++ rest)

pub record Check : Type 0 where
  pub event_ids_valid : Bool
  pub claims_have_evidence : Bool
  pub fully_grounded_structure_valid : Bool
  pub cited_event_ids : List Cited

abbrev pub no_claims : Check
no_claims = record {
  event_ids_valid = false;
  claims_have_evidence = false;
  fully_grounded_structure_valid = false;
  cited_event_ids = [];
}

-- `payload["claims"]`, where the payload is a dict and they are a list
abbrev pub list_of : Option Json → Option (List Json)
list_of (some (array xs)) = some (elements xs)
list_of _ = none

abbrev pub claims_of : Json → Option (List Json)
claims_of (object fs) = list_of (get "claims" fs)
claims_of _ = none

abbrev pub is_event : List String → Cited → Bool
is_event event_ids (cited_text t) = contains event_ids t
is_event event_ids _ = false

abbrev pub is_filled {ℓ} : {A : Type ℓ} → List A → Bool
is_filled [] = false
is_filled (x ∷ xs) = true

abbrev pub checked : List String → List Json → List Cited → Check
checked event_ids claims ids =
    let valid = is_filled ids && all (is_event event_ids) ids in
    let claims_have = is_filled claims && all has_evidence claims in
    record {
      event_ids_valid = valid;
      claims_have_evidence = claims_have;
      fully_grounded_structure_valid = valid && claims_have;
      cited_event_ids = ids;
    }

abbrev pub validate_claims : List String → List Json → Outcome Check
validate_claims event_ids claims = do
  found ← all_evidence claims
  cited ← all_hashed found
  ids ← sorted_ids cited
  ok (checked event_ids claims ids)

unfoldable pub validate_structure : Json → List String → Outcome Check
unfolding all_evidence sorted_ids
validate_structure payload event_ids = elim (claims_of payload) [
  | none ↦ ok no_claims
  | some claims ↦ validate_claims event_ids claims
]
