-- ===== src/Base/Texts.antt =====
-- Texts as Python uses them: membership in a list of texts, a set as a list without repetitions,
-- substrings, and the truth value of an optional text.
use Prim.Native.Nat.{ℕ, ◌+◌, ◌≤◌}
use Prim.Native.String.{String, ◌++◌ as ◌⊹◌}
use mathlib.Core.Path.{◌≡◌, refl}
use mathlib.Core.Bool.{Bool, true, false, not, ◌&&◌, ◌||◌}
use mathlib.Core.Option.{Option, none, some}
use mathlib.Core.List.{List, [], ◌∷◌, ◌++◌}
use native.Mathlib.Omega.{arith}
use text.Mathlib.Text.{◌==◌, find?}
use text.Mathlib.TextEquality.{eq_iff}
use text.Mathlib.TextLemmas.{append-eq-nil_iff}
use cirt_lens.Base.Tests.{if◌then◌else◌, eqb, Bool-cases}
use mathlib.Core.Logic.{inl, inr}
use Prim.Native.Char.{Char, code}
use cirt_lens.Base.Lists.{length}

-- `x in xs`
abbrev pub contains : List String → String → Bool
contains [] x = false
contains (y ∷ ys) x = (y == x) || contains ys x

-- `set & {…}` as a truth value: some element of the second list is in the first.
abbrev pub meets : List String → List String → Bool
meets xs [] = false
meets xs (y ∷ ys) = contains xs y || meets xs ys

-- `a <= b` on sets
abbrev pub subset : List String → List String → Bool
subset [] ys = true
subset (x ∷ xs) ys = contains ys x && subset xs ys

-- The distinct elements of a list, `set(xs)`, in the order of their last occurrence.
abbrev pub distinct : List String → List String
distinct [] = []
distinct (x ∷ xs) = let rest = distinct xs in if contains rest x then rest else x ∷ rest

-- `d[key(x)] = x` in a dict that keeps the order of insertion, as the list of its values.
abbrev pub put_by {ℓ} : {A : Type ℓ} → (A → String) → A → List A → List A
put_by key x [] = x ∷ []
put_by key x (y ∷ ys) = let rest = put_by key x ys in if key y == key x then x ∷ ys else y ∷ rest

abbrev pub put_all_by {ℓ} : {A : Type ℓ} → (A → String) → List A → List A → List A
put_all_by key [] ys = ys
put_all_by key (x ∷ xs) ys = put_all_by key xs (put_by key x ys)

-- How many elements of the second list are in the first: `len(a & b)`, for a `b` without
-- repetitions.
abbrev pub common : List String → List String → ℕ
common xs [] = 0
common xs (y ∷ ys) = (if contains xs y then 1 else 0) + common xs ys

-- `needle in haystack` on texts
abbrev pub has_text : String → String → Bool
has_text haystack needle = elim (find? haystack needle) [ none ↦ false | some i ↦ true ]

-- `bool(x)` of an optional text: `None` and the empty text are false.
abbrev pub truthy : Option String → Bool
truthy none = false
truthy (some s) = not (s == "")

-- `a == b` on optional texts
abbrev pub same : Option String → Option String → Bool
same none none = true
same none (some b) = false
same (some a) none = false
same (some a) (some b) = a == b

pub eq_sym : (a b : String) → (a == b) ≡ (b == a)
eq_sym a b = ground (arith, eq_iff a b, eq_iff b a)

pub contains-append :
    (xs ys : List String) (x : String) → contains (xs ++ ys) x ≡ (contains xs x || contains ys x)
contains-append [] ys x = refl
contains-append (y ∷ xs) ys x = ground (arith, contains-append xs ys x)

pub contains-distinct : (xs : List String) (x : String) → contains (distinct xs) x ≡ contains xs x
contains-distinct [] x = refl
contains-distinct (y ∷ ys) x =
    ground (arith, contains-distinct ys x, contains-distinct ys y, eq_iff y x)

pub length-distinct_le : (xs : List String) → length (distinct xs) ≤ length xs
length-distinct_le [] = omega arith
length-distinct_le (y ∷ ys) = ground (arith, length-distinct_le ys)

pub common-le-length : (xs ys : List String) → common xs ys ≤ length ys
common-le-length xs [] = omega arith
common-le-length xs (y ∷ ys) = ground (arith, common-le-length xs ys)

pub subset-contains :
    (xs ys : List String) (x : String)
    → subset xs ys ≡ true
    → contains xs x ≡ true
    → contains ys x ≡ true
subset-contains [] ys x h e = cc
subset-contains (y ∷ xs) ys x h e = ground (arith, subset-contains xs ys x, eq_iff y x)

pub same_sym : (a b : Option String) → same a b ≡ same b a
same_sym none none = refl
same_sym none (some b) = refl
same_sym (some a) none = refl
same_sym (some a) (some b) = eq_sym a b

-- The character at the same place of the second text, for a character of the first.
abbrev translate : String → String → Char → Char
translate String.[] to c = c
translate (String.◌∷◌ f from) String.[] c = c
translate (String.◌∷◌ f from) (String.◌∷◌ t to) c =
    let rest = translate from to c in if eqb (code f) (code c) then t else rest

abbrev upper_letters : String
upper_letters = "ABCDEFGHIJKLMNOPQRSTUVWXYZ"

abbrev lower_letters : String
lower_letters = "abcdefghijklmnopqrstuvwxyz"

-- `str.lower` and `str.upper` on ASCII letters; every other character stays.
unfoldable pub lower : String → String
lower String.[] = ""
lower (String.◌∷◌ c s) = String.◌∷◌ (translate upper_letters lower_letters c) (lower s)

unfoldable pub upper : String → String
upper String.[] = ""
upper (String.◌∷◌ c s) = String.◌∷◌ (translate lower_letters upper_letters c) (upper s)

-- `s.replace(" ", "_")`
unfoldable pub underscored : String → String
underscored String.[] = ""
underscored (String.◌∷◌ c s) = String.◌∷◌ (translate " " "_" c) (underscored s)

lower_text : lower "PowerShell.EXE" ≡ "powershell.exe"
unfolding lower
lower_text = refl

-- A text that ends in a text with characters has characters.
pub append_filled : (s t : String) → (t == "") ≡ false → (s ⊹ t == "") ≡ false
append_filled s t h = elim (Bool-cases ((s ⊹ t) == "")) [
  | inl e ↦
      let (a, b) = append-eq-nil_iff.0 ((eq_iff (s ⊹ t) "").0 e) in
      ground (arith, (eq_iff t "").1 b)
  | inr e ↦ e
]
