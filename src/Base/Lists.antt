-- ===== src/Base/Lists.antt =====
-- Lists measured by native numbers, searched and filtered by Boolean tests.
use Prim.Native.Nat.{ℕ, zero, suc, ◌+◌}
use mathlib.Core.Path.{◌≡◌, refl, subst}
use mathlib.Core.Logic.{inl, inr}
use mathlib.Core.Bool.{Bool, true, false, ◌&&◌, ◌||◌, false≢true}
use mathlib.Core.Option.{Option, none, some}
use mathlib.Core.List.{Memᴰ, List, [], ◌∷◌, ◌++◌}
use native.Mathlib.Omega.{arith}
use cirt_lens.Base.Tests.{if◌then◌else◌, Bool-cases}

module _ {ℓ} {A : Type ℓ} where
  abbrev pub length : List A → ℕ
  length [] = 0
  length (x ∷ xs) = suc (length xs)

  abbrev pub take : ℕ → List A → List A
  take zero xs = []
  take (suc n) [] = []
  take (suc n) (x ∷ xs) = x ∷ take n xs

  abbrev pub sum_by : (A → ℕ) → List A → ℕ
  sum_by f [] = 0
  sum_by f (x ∷ xs) = f x + sum_by f xs

  -- Python's `any` and `all` over a generator.
  abbrev pub any : (A → Bool) → List A → Bool
  any p [] = false
  any p (x ∷ xs) = p x || any p xs

  abbrev pub all : (A → Bool) → List A → Bool
  all p [] = true
  all p (x ∷ xs) = p x && all p xs

  -- A comprehension's `if`.
  abbrev pub keep : (A → Bool) → List A → List A
  keep p [] = []
  keep p (x ∷ xs) = let rest = keep p xs in if p x then x ∷ rest else rest

  -- The first element that passes, as `next(..., None)` and `query.first()` give it.
  abbrev pub first : (A → Bool) → List A → Option A
  first p [] = none
  first p (x ∷ xs) = let rest = first p xs in if p x then some x else rest

  -- A predicate that holds of every element.
  abbrev pub All {κ} : (A → Type κ) → List A → Type κ
  All P [] = Unit
  All P (x ∷ xs) = P x × All P xs

  pub length-append : (xs ys : List A) → length (xs ++ ys) ≡ length xs + length ys
  length-append [] ys = omega arith
  length-append (x ∷ xs) ys = omega (arith, length-append xs ys)

  pub sum_by-append : (f : A → ℕ) (xs ys : List A) → sum_by f (xs ++ ys) ≡ sum_by f xs + sum_by f ys
  sum_by-append f [] ys = omega arith
  sum_by-append f (x ∷ xs) ys = omega (arith, sum_by-append f xs ys)

  pub any-append : (p : A → Bool) (xs ys : List A) → any p (xs ++ ys) ≡ (any p xs || any p ys)
  any-append p [] ys = refl
  any-append p (x ∷ xs) ys = ground (arith, any-append p xs ys)

  pub any-keep : (p q : A → Bool) (xs : List A) → any p (keep q xs) ≡ any (λ x. q x && p x) xs
  any-keep p q [] = refl
  any-keep p q (x ∷ xs) = ground (arith, any-keep p q xs)

  pub any_mono :
      (p q : A → Bool)
      → ((x : A) → p x ≡ true → q x ≡ true)
      → (xs : List A) → any p xs ≡ true
      → any q xs ≡ true
  any_mono p q h [] e = e
  any_mono p q h (x ∷ xs) e = ground (arith, h x, any_mono p q h xs)

  pub any_witness : (p : A → Bool) (xs : List A) → any p xs ≡ true → (x : A) × (p x ≡ true)
  any_witness p [] e = absurd (false≢true e)
  any_witness p (x ∷ xs) e = elim (Bool-cases (p x)) [
    | inl t ↦ (x, t)
    | inr f ↦ any_witness p xs (ground arith)
  ]

  pub first-append :
      (p : A → Bool) (xs ys : List A)
      → first p (xs ++ ys) ≡ elim (first p xs) [ none ↦ first p ys | some x ↦ some x ]
  first-append p [] ys = refl
  first-append p (x ∷ xs) ys = ground (arith, first-append p xs ys)

  pub first_passes : (p : A → Bool) (xs : List A) (x : A) → first p xs ≡ some x → p x ≡ true
  first_passes p [] x h = cc
  first_passes p (y ∷ ys) x h = ground (arith, first_passes p ys x)

  -- A test that passes at the head gives the head.
  pub first_head :
      (p : A → Bool) (x : A) (xs : List A) (y : A) → p x ≡ true → first p (x ∷ xs) ≡ some y → x ≡ y
  first_head p x xs y t h = ground arith

  pub first-any :
      (p q : A → Bool) (xs : List A) (x : A) → first p xs ≡ some x → q x ≡ true → any q xs ≡ true
  first-any p q [] x h e = cc
  first-any p q (y ∷ ys) x h e = ground (arith, first-any p q ys x)

  pub any-first : (p : A → Bool) (xs : List A) → any p xs ≡ true → (x : A) × (first p xs ≡ some x)
  any-first p [] h = cc
  any-first p (x ∷ xs) h = elim (Bool-cases (p x)) [
    | inl t ↦ (x, rw t refl)
    | inr f ↦ let (y, e) = any-first p xs (ground arith) in (y, rw f e)
  ]

  pub any_left :
      (p q : A → Bool) (xs : List A) → any (λ x. p x || q x) xs ≡ false → any p xs ≡ false
  any_left p q [] h = refl
  any_left p q (x ∷ xs) h = ground (arith, any_left p q xs)

  pub first-none : (p : A → Bool) (xs : List A) → first p xs ≡ none → any p xs ≡ false
  first-none p [] h = refl
  first-none p (y ∷ ys) h = ground (arith, first-none p ys)

  pub All-append {κ} : (P : A → Type κ) (xs ys : List A) → All P xs → All P ys → All P (xs ++ ys)
  All-append P [] ys h k = k
  All-append P (x ∷ xs) ys (a, h) k = (a, All-append P xs ys h k)

  pub All_map {κ μ} :
      (P : A → Type κ) (Q : A → Type μ)
      → ((x : A) → P x → Q x)
      → (xs : List A) → All P xs
      → All Q xs
  All_map P Q f [] h = tt
  All_map P Q f (x ∷ xs) (a, h) = (f x a, All_map P Q f xs h)

  pub All_first {κ} :
      (P : A → Type κ) (p : A → Bool) (xs : List A) (x : A) → All P xs → first p xs ≡ some x → P x
  All_first P p [] x h e = cc
  All_first P p (y ∷ ys) x (a, h) e = elim (Bool-cases (p y)) [
    | inl t ↦ let q : y ≡ x = ground arith in subst P q a
    | inr f ↦ All_first P p ys x h (ground arith)
  ]

  pub Memᴰ_left : (x : A) (xs ys : List A) → Memᴰ x xs → Memᴰ x (xs ++ ys)
  Memᴰ_left x [] ys h = elim h [ ]
  Memᴰ_left x (y ∷ xs) ys (Memᴰ.head e) = Memᴰ.head e
  Memᴰ_left x (y ∷ xs) ys (Memᴰ.tail h) = Memᴰ.tail (Memᴰ_left x xs ys h)

  pub Memᴰ_right : (x : A) (xs ys : List A) → Memᴰ x ys → Memᴰ x (xs ++ ys)
  Memᴰ_right x [] ys h = h
  Memᴰ_right x (y ∷ xs) ys h = Memᴰ.tail (Memᴰ_right x xs ys h)
