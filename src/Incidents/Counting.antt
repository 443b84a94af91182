-- ===== src/Incidents/Counting.antt =====
-- correlation_engine.py: `Counter(xs).most_common(1)[0][0]`, and sorted sets of texts.
use Prim.Native.String.{compare}
use text.Mathlib.Text.{is_lt}
use cirt_lens.Base.{
  ℕ, ◌+◌, ◌≤◌, ◌≡◌, refl, String, true, ◌||◌, Option, none, some, List, [], ◌∷◌, ◌==◌, ltb,
  if◌then◌else◌, contains, arith, All, Bool-cases, inl, inr, eq_iff, eq_refl,
}

-- `[x for x in xs if x]`
abbrev pub present : List (Option String) → List String
present [] = []
present (none ∷ xs) = present xs
present (some t ∷ xs) = let rest = present xs in if t == "" then rest else t ∷ rest

abbrev pub occurrences : List String → String → ℕ
occurrences [] x = 0
occurrences (y ∷ ys) x = (if y == x then 1 else 0) + occurrences ys x

-- The most frequent of `best` and the candidates; on a tie the earlier one, which is the one that
-- was counted first.
abbrev pub better : List String → String → String → String
better all best x = if ltb (occurrences all best) (occurrences all x) then x else best

abbrev pub most_from : List String → String → List String → String
most_from all best [] = best
most_from all best (x ∷ xs) = most_from all (better all best x) xs

-- `none` where the source raises `IndexError`: there is nothing to count.
unfoldable pub most_common : List String → Option String
most_common [] = none
most_common (x ∷ xs) = some (most_from (x ∷ xs) x xs)

-- `sorted(set(xs))`
abbrev pub insert_text : String → List String → List String
insert_text x [] = x ∷ []
insert_text x (y ∷ ys) =
    let rest = insert_text x ys in
    if x == y then y ∷ ys else if is_lt (compare x y) then x ∷ y ∷ ys else y ∷ rest

unfoldable pub sorted_set : List String → List String
sorted_set [] = []
sorted_set (x ∷ xs) = insert_text x (sorted_set xs)

contains-insert_text :
    (x : String) (ys : List String) (z : String)
    → contains (insert_text x ys) z ≡ ((x == z) || contains ys z)
contains-insert_text x [] z = refl
contains-insert_text x (y ∷ ys) z = ground (arith, contains-insert_text x ys z, eq_iff x y)

pub contains-sorted_set :
    (xs : List String) (z : String) → contains (sorted_set xs) z ≡ contains xs z
unfolding sorted_set
contains-sorted_set [] z = refl
contains-sorted_set (x ∷ xs) z =
    ground (arith, contains-insert_text x (sorted_set xs) z, contains-sorted_set xs z)

-- The first of the most frequent texts.
abbrev pub IsMode : List String → String → Type 0
IsMode all x = (contains all x ≡ true) × All (λ y. occurrences all y ≤ occurrences all x) all

better_ge :
    (all : List String) (best x : String)
    → (occurrences all best ≤ occurrences all (better all best x))
      × (occurrences all x ≤ occurrences all (better all best x))
better_ge all best x = elim (Bool-cases (ltb (occurrences all best) (occurrences all x))) [
  | inl e ↦ rw e (ground arith)
  | inr e ↦ rw e (ground arith)
]

most_from_top :
    (all : List String) (best : String) (xs : List String)
    → (occurrences all best ≤ occurrences all (most_from all best xs))
      × All (λ y. occurrences all y ≤ occurrences all (most_from all best xs)) xs
most_from_top all best [] = (omega arith, tt)
most_from_top all best (x ∷ xs) =
    let ih = most_from_top all (better all best x) xs in
    let step = better_ge all best x in
    (omega (arith, ih.0, step.0), (omega (arith, ih.0, step.1), ih.1))

contains-most_from :
    (all : List String) (best : String) (xs : List String)
    → contains all best ≡ true
    → All (λ x. contains all x ≡ true) xs
    → contains all (most_from all best xs) ≡ true
contains-most_from all best [] h a = h
contains-most_from all best (x ∷ xs) h (a, as') =
    contains-most_from all (better all best x) xs (ground arith) as'

All_map_contains :
    (x : String) (ys xs : List String)
    → All (λ y. contains ys y ≡ true) xs
    → All (λ y. contains (x ∷ ys) y ≡ true) xs
All_map_contains x ys [] h = tt
All_map_contains x ys (y ∷ xs) (a, h) = (ground (arith, a), All_map_contains x ys xs h)

All_contains_self : (xs : List String) → All (λ x. contains xs x ≡ true) xs
All_contains_self [] = tt
All_contains_self (x ∷ xs) = (rw (eq_refl x) refl, All_map_contains x xs xs (All_contains_self xs))

-- Where there is a most common text, it is one of the texts, and none is more frequent; there is
-- none only of no text.
abbrev pub IsModeOf : List String → Option String → Type 0
IsModeOf all none = all ≡ []
IsModeOf all (some x) = IsMode all x

pub most_common-IsModeOf : (xs : List String) → IsModeOf xs (most_common xs)
unfolding most_common
most_common-IsModeOf [] = refl
most_common-IsModeOf (x ∷ xs) =
    let top = most_from_top (x ∷ xs) x xs in
    (
      contains-most_from (x ∷ xs) x xs (rw (eq_refl x) refl)
          (All_map_contains x xs xs (All_contains_self xs)),
      (top.0, top.1),
    )
