-- ===== src/Investigation/Json.antt =====
-- The JSON values of services/investigation_ai.py and what Python does with them. Numbers are whole;
-- the fields of an object have distinct names.
use cirt_lens.Base.{
  ℕ, String, Bool, true, false, not, Option, none, some, List, [], ◌∷◌, map, ◌==◌, eqb,
  if◌then◌else◌,
}
use cirt_lens.Store.{Problem, exception, Outcome, ok, err}

mutual
  pub data Json : Type 0 where
    null : Json
    truth : Bool → Json
    number : ℕ → Json
    text : String → Json
    array : Items → Json
    object : Fields → Json

  pub data Items : Type 0 where
    nil : Items
    cons : Json → Items → Items

  pub data Fields : Type 0 where
    end : Fields
    field : String → Json → Fields → Fields

abbrev pub elements : Items → List Json
elements nil = []
elements (cons x xs) = x ∷ elements xs

abbrev pub items_of : List Json → Items
items_of [] = nil
items_of (x ∷ xs) = cons x (items_of xs)

abbrev pub keys : Fields → List String
keys end = []
keys (field k v fs) = k ∷ keys fs

-- `value.get(key)` of a dict
abbrev pub get : String → Fields → Option Json
get key end = none
get key (field k v fs) = let rest = get key fs in if k == key then some v else rest

-- `value.get(key, [])`
abbrev pub get_list : String → Fields → Json
get_list key fs = elim (get key fs) [ none ↦ array nil | some v ↦ v ]

-- `bool(value)`
abbrev pub holds : Json → Bool
holds null = false
holds (truth b) = b
holds (number n) = not (eqb n 0)
holds (text t) = not (t == "")
holds (array nil) = false
holds (array (cons x xs)) = true
holds (object end) = false
holds (object (field k v fs)) = true

-- `bool(value.get(key))`
abbrev pub holds_at : String → Fields → Bool
holds_at key fs = elim (get key fs) [ none ↦ false | some v ↦ holds v ]

-- A text is a sequence of texts of one character.
abbrev pub characters : String → List String
characters String.[] = []
characters (String.◌∷◌ c s) = String.◌∷◌ c String.[] ∷ characters s

abbrev pub type_error : Problem
type_error = exception "TypeError"

-- `for x in value`
abbrev pub iterate : Json → Outcome (List Json)
iterate (array xs) = ok (elements xs)
iterate (text t) = ok (map text (characters t))
iterate (object fs) = ok (map text (keys fs))
iterate _ = err type_error
