-- ===== src/Base/Sorting.antt =====
-- `sorted(xs, key=…)`: the stable sort by a numeric key, as an insertion sort. An element is put
-- before the first later one whose key is not smaller, so equal keys keep their order.
use Prim.Native.Nat.{ℕ, ◌≤◌}
use mathlib.Core.Path.{◌≡◌, refl}
use mathlib.Core.Bool.{Bool, ◌||◌}
use mathlib.Core.List.{List, [], ◌∷◌}
use native.Mathlib.Omega.{arith}
use cirt_lens.Base.Tests.{leb, if◌then◌else◌, Bool-cases}
use mathlib.Core.Logic.{inl, inr}
use cirt_lens.Base.Lists.{any, All}

module _ {ℓ} {A : Type ℓ} (key : A → ℕ) where
  abbrev pub insert_by : A → List A → List A
  insert_by x [] = x ∷ []
  insert_by x (y ∷ ys) =
      let rest = insert_by x ys in if leb (key x) (key y) then x ∷ y ∷ ys else y ∷ rest

  abbrev pub sort_by : List A → List A
  sort_by [] = []
  sort_by (x ∷ xs) = insert_by x (sort_by xs)

  -- Every later key is at least `n`, and the keys do not fall.
  abbrev pub IsSortedFrom : ℕ → List A → Type 0
  IsSortedFrom n [] = Unit
  IsSortedFrom n (x ∷ xs) = (n ≤ key x) × IsSortedFrom (key x) xs

  insert_by-IsSortedFrom :
      (n : ℕ) (x : A) (ys : List A)
      → n ≤ key x
      → IsSortedFrom n ys
      → IsSortedFrom n (insert_by x ys)
  insert_by-IsSortedFrom n x [] h s = (h, tt)
  insert_by-IsSortedFrom n x (y ∷ ys) h s = ground (arith, insert_by-IsSortedFrom (key y) x ys)

  pub sort_by-IsSortedFrom : (xs : List A) → IsSortedFrom 0 (sort_by xs)
  sort_by-IsSortedFrom [] = tt
  sort_by-IsSortedFrom (x ∷ xs) =
      insert_by-IsSortedFrom 0 x (sort_by xs) (omega arith) (sort_by-IsSortedFrom xs)

  any-insert_by : (p : A → Bool) (x : A) (ys : List A) → any p (insert_by x ys) ≡ (p x || any p ys)
  any-insert_by p x [] = refl
  any-insert_by p x (y ∷ ys) = ground (arith, any-insert_by p x ys)

  -- Sorting keeps the elements.
  pub any-sort_by : (p : A → Bool) (xs : List A) → any p (sort_by xs) ≡ any p xs
  any-sort_by p [] = refl
  any-sort_by p (x ∷ xs) = ground (arith, any-insert_by p x (sort_by xs), any-sort_by p xs)

  All-insert_by {κ} :
      (P : A → Type κ) (x : A) (ys : List A) → P x → All P ys → All P (insert_by x ys)
  All-insert_by P x [] h k = (h, tt)
  All-insert_by P x (y ∷ ys) h (a, k) = elim (Bool-cases (leb (key x) (key y))) [
    | inl t ↦ rw t (h, (a, k))
    | inr f ↦ rw f (a, All-insert_by P x ys h k)
  ]

  pub All-sort_by {κ} : (P : A → Type κ) (xs : List A) → All P xs → All P (sort_by xs)
  All-sort_by P [] h = tt
  All-sort_by P (x ∷ xs) (a, h) = All-insert_by P x (sort_by xs) a (All-sort_by P xs h)
