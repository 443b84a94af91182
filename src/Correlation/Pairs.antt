-- ===== src/Correlation/Pairs.antt =====
-- correlation_engine.py: the pairs of a bucket are collected.
use cirt_lens.Base.{
  ◌≡◌, refl, sym, subst, ◌∙◌, Bool, true, ◌⊎◌, inl, inr, List, [], ◌∷◌, Memᴰ, any, any-append,
  Bool-cases, eq_refl,
}
use cirt_lens.Events.{Event}
use cirt_lens.Correlation.Candidates.{
  Buckets, Pair, sorted_pair, same_pair, add_pair, add_pairs_with, bucket_pairs, all_pairs,
}

-- The first event stands before the second.
abbrev pub IsBefore : Event → Event → List Event → Type 0
IsBefore l r [] = ⊥
IsBefore l r (x ∷ xs) = ((x ≡ l) × Memᴰ r xs) ⊎ IsBefore l r xs

abbrev pub has_pair : Pair → List Pair → Bool
has_pair p pairs = any (same_pair p) pairs

same_pair_refl : (p : Pair) → same_pair p p ≡ true
same_pair_refl (a, b) = rw (eq_refl a, eq_refl b) refl

-- Pairs are never removed.
add_pair-keeps :
    (p q : Pair) (pairs : List Pair)
    → has_pair p pairs ≡ true
    → has_pair p (add_pair q pairs) ≡ true
unfolding add_pair
add_pair-keeps p q pairs h = elim (Bool-cases (any (same_pair q) pairs)) [
  | inl t ↦ rw t h
  | inr t ↦ rw t (any-append (same_pair p) pairs (q ∷ []) ∙ rw h refl)
]

has_pair-add_pair : (p : Pair) (pairs : List Pair) → has_pair p (add_pair p pairs) ≡ true
unfolding add_pair
has_pair-add_pair p pairs = elim (Bool-cases (any (same_pair p) pairs)) [
  | inl t ↦ rw t t
  | inr t ↦ rw t (any-append (same_pair p) pairs (p ∷ []) ∙ rw (t, same_pair_refl p) refl)
]

add_pairs_with-keeps :
    (p : Pair) (l : Event) (rest : List Event) (pairs : List Pair)
    → has_pair p pairs ≡ true
    → has_pair p (add_pairs_with l rest pairs) ≡ true
unfolding add_pairs_with
add_pairs_with-keeps p l [] pairs h = h
add_pairs_with-keeps p l (x ∷ rest) pairs h =
    add_pairs_with-keeps p l rest (add_pair (sorted_pair l.id x.id) pairs)
      (add_pair-keeps p (sorted_pair l.id x.id) pairs h)

add_pairs_with-has :
    (l r : Event) (rest : List Event) (pairs : List Pair)
    → Memᴰ r rest
    → has_pair (sorted_pair l.id r.id) (add_pairs_with l rest pairs) ≡ true
unfolding add_pairs_with
add_pairs_with-has l r [] pairs h = elim h [ ]
add_pairs_with-has l r (x ∷ rest) pairs (Memᴰ.head e) =
    add_pairs_with-keeps (sorted_pair l.id r.id) l rest (add_pair (sorted_pair l.id x.id) pairs) (
      subst (λ y. has_pair (sorted_pair l.id r.id) (add_pair (sorted_pair l.id y.id) pairs) ≡ true)
        e (has_pair-add_pair (sorted_pair l.id r.id) pairs))
add_pairs_with-has l r (x ∷ rest) pairs (Memᴰ.tail h) =
    add_pairs_with-has l r rest (add_pair (sorted_pair l.id x.id) pairs) h

bucket_pairs-keeps :
    (p : Pair) (bucket : List Event) (pairs : List Pair)
    → has_pair p pairs ≡ true
    → has_pair p (bucket_pairs bucket pairs) ≡ true
unfolding bucket_pairs
bucket_pairs-keeps p [] pairs h = h
bucket_pairs-keeps p (l ∷ rest) pairs h =
    bucket_pairs-keeps p rest (add_pairs_with l rest pairs) (add_pairs_with-keeps p l rest pairs h)

pub bucket_pairs-has :
    (l r : Event) (bucket : List Event) (pairs : List Pair)
    → IsBefore l r bucket
    → has_pair (sorted_pair l.id r.id) (bucket_pairs bucket pairs) ≡ true
unfolding bucket_pairs
bucket_pairs-has l r [] pairs h = elim h [ ]
bucket_pairs-has l r (x ∷ rest) pairs (inl (e, m)) =
    bucket_pairs-keeps (sorted_pair l.id r.id) rest (add_pairs_with x rest pairs) (
      subst (λ y. has_pair (sorted_pair l.id r.id) (add_pairs_with y rest pairs) ≡ true) (sym e)
        (add_pairs_with-has l r rest pairs m))
bucket_pairs-has l r (x ∷ rest) pairs (inr h) =
    bucket_pairs-has l r rest (add_pairs_with x rest pairs) h

pub all_pairs-keeps :
    (p : Pair) (buckets : Buckets) (pairs : List Pair)
    → has_pair p pairs ≡ true
    → has_pair p (all_pairs buckets pairs) ≡ true
unfolding all_pairs
all_pairs-keeps p [] pairs h = h
all_pairs-keeps p ((k, bucket) ∷ rest) pairs h =
    all_pairs-keeps p rest (bucket_pairs bucket pairs) (bucket_pairs-keeps p bucket pairs h)
