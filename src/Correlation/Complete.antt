-- ===== src/Correlation/Complete.antt =====
-- correlation_engine.py: `candidate_pairs` holds the pair of any two events that share an anchor.
use cirt_lens.Base.{
  ◌≡◌, refl, sym, subst, ap, ◌∙◌, Bool, true, false, inl, inr, List, [], ◌∷◌, ◌++◌, Memᴰ, Memᴰ_left,
  Memᴰ_right, any, if◌then◌else◌, Bool-cases, arith, eq_iff, eq_refl,
}
use mathlib.Core.List.{append-nil, append_assoc}
use cirt_lens.Events.{Event}
use cirt_lens.Correlation.Candidates.{
  Anchor, user_anchor, host_anchor, source_anchor, device_anchor, destination_anchor, same_anchor,
  anchors, Buckets, add_to_bucket, add_event, fill_buckets, Pair, sorted_pair, bucket_pairs,
  all_pairs, candidate_pairs,
}
use cirt_lens.Correlation.Pairs.{IsBefore, has_pair, bucket_pairs-has, all_pairs-keeps}

-- The bucket of a key.
abbrev bucket_at : Anchor → Buckets → List Event
bucket_at key [] = []
bucket_at key ((k, bucket) ∷ rest) =
    let later = bucket_at key rest in if same_anchor k key then bucket else later

all_pairs-has :
    (l r : Event) (key : Anchor) (buckets : Buckets) (pairs : List Pair)
    → IsBefore l r (bucket_at key buckets)
    → has_pair (sorted_pair l.id r.id) (all_pairs buckets pairs) ≡ true
unfolding all_pairs
all_pairs-has l r key [] pairs h = elim h [ ]
all_pairs-has l r key ((k, bucket) ∷ rest) pairs h = elim (Bool-cases (same_anchor k key)) [
  | inl t ↦
      all_pairs-keeps (sorted_pair l.id r.id) rest (bucket_pairs bucket pairs)
        (bucket_pairs-has l r bucket pairs (rw t at h))
  | inr t ↦ all_pairs-has l r key rest (bucket_pairs bucket pairs) (rw t at h)
]

same_anchor_refl : (a : Anchor) → same_anchor a a ≡ true
same_anchor_refl (user_anchor s) = eq_refl s
same_anchor_refl (host_anchor s) = eq_refl s
same_anchor_refl (source_anchor s) = eq_refl s
same_anchor_refl (device_anchor s) = eq_refl s
same_anchor_refl (destination_anchor s) = eq_refl s

same_anchor-eq : (a b : Anchor) → same_anchor a b ≡ true → a ≡ b
same_anchor-eq (user_anchor s) (user_anchor t) h = ap user_anchor ((eq_iff s t).0 h)
same_anchor-eq (host_anchor s) (host_anchor t) h = ap host_anchor ((eq_iff s t).0 h)
same_anchor-eq (source_anchor s) (source_anchor t) h = ap source_anchor ((eq_iff s t).0 h)
same_anchor-eq (device_anchor s) (device_anchor t) h = ap device_anchor ((eq_iff s t).0 h)
same_anchor-eq (destination_anchor s) (destination_anchor t) h =
    ap destination_anchor ((eq_iff s t).0 h)
same_anchor-eq a b h = cc

-- An event that is added to a bucket comes last in it; the other buckets stay.
bucket_at-add_to_bucket :
    (e : Event) (key : Anchor) (buckets : Buckets)
    → bucket_at key (add_to_bucket e key buckets) ≡ bucket_at key buckets ++ e ∷ []
unfolding add_to_bucket
bucket_at-add_to_bucket e key [] = rw (same_anchor_refl key) refl
bucket_at-add_to_bucket e key ((k, bucket) ∷ rest) = elim (Bool-cases (same_anchor k key)) [
  | inl t ↦ rw (t, t) refl
  | inr t ↦ rw (t, t) (bucket_at-add_to_bucket e key rest)
]

bucket_at-other :
    (e : Event) (key other : Anchor) (buckets : Buckets)
    → same_anchor key other ≡ false
    → bucket_at other (add_to_bucket e key buckets) ≡ bucket_at other buckets
unfolding add_to_bucket
bucket_at-other e key other [] h = rw h refl
bucket_at-other e key other ((k, bucket) ∷ rest) h = elim (Bool-cases (same_anchor k key)) [
  | inl t ↦
      let differs : same_anchor k other ≡ false =
        subst (λ x. same_anchor x other ≡ false) (sym (same_anchor-eq k key t)) h in
      rw (t, differs) refl
  | inr t ↦ rw (t, bucket_at-other e key other rest h) refl
]

-- Some anchor of the first event is one of the second's: they meet in a bucket.
abbrev pub has_anchor : List Anchor → Anchor → Bool
has_anchor keys k = any (λ j. same_anchor j k) keys

abbrev pub shares_anchor : Event → Event → Bool
shares_anchor left right = any (has_anchor (anchors left)) (anchors right)

-- A bucket with what has been added to it.
abbrev IsGrown : List Event → List Event → Type 0
IsGrown xs ys = (added : List Event) × (ys ≡ xs ++ added)

IsGrown-trans : (xs ys zs : List Event) → IsGrown xs ys → IsGrown ys zs → IsGrown xs zs
IsGrown-trans xs ys zs (a, e) (b, f) = (a ++ b, f ∙ ap (λ l. l ++ b) e ∙ append_assoc xs a b)

add_to_bucket-IsGrown :
    (e : Event) (key other : Anchor) (buckets : Buckets)
    → IsGrown (bucket_at other buckets) (bucket_at other (add_to_bucket e key buckets))
add_to_bucket-IsGrown e key other buckets = elim (Bool-cases (same_anchor key other)) [
  | inl t ↦ (
    e ∷ [],
    subst (λ k. bucket_at k (add_to_bucket e key buckets) ≡ bucket_at k buckets ++ e ∷ [])
        (same_anchor-eq key other t) (bucket_at-add_to_bucket e key buckets),
  )
  | inr f ↦ ([], bucket_at-other e key other buckets f ∙ sym (append-nil (bucket_at other buckets)))
]

add_event-IsGrown :
    (e : Event) (keys : List Anchor) (key : Anchor) (buckets : Buckets)
    → IsGrown (bucket_at key buckets) (bucket_at key (add_event e keys buckets))
unfolding add_event
add_event-IsGrown e [] key buckets = ([], sym (append-nil (bucket_at key buckets)))
add_event-IsGrown e (k ∷ keys) key buckets =
    IsGrown-trans (bucket_at key buckets) (bucket_at key (add_to_bucket e k buckets))
      (bucket_at key (add_event e keys (add_to_bucket e k buckets)))
      (add_to_bucket-IsGrown e k key buckets)
      (add_event-IsGrown e keys key (add_to_bucket e k buckets))

fill_buckets-IsGrown :
    (es : List Event) (key : Anchor) (buckets : Buckets)
    → IsGrown (bucket_at key buckets) (bucket_at key (fill_buckets buckets es))
unfolding fill_buckets
fill_buckets-IsGrown [] key buckets = ([], sym (append-nil (bucket_at key buckets)))
fill_buckets-IsGrown (e ∷ es) key buckets =
    IsGrown-trans (bucket_at key buckets) (bucket_at key (add_event e (anchors e) buckets))
      (bucket_at key (fill_buckets (add_event e (anchors e) buckets) es))
      (add_event-IsGrown e (anchors e) key buckets)
      (fill_buckets-IsGrown es key (add_event e (anchors e) buckets))

-- An event comes into the bucket of each of its keys, behind what was there.
add_event-has :
    (e : Event) (keys : List Anchor) (key : Anchor) (buckets : Buckets)
    → has_anchor keys key ≡ true
    → (added : List Event) × (bucket_at key (add_event e keys buckets)
        ≡ bucket_at key buckets ++ added)
      × Memᴰ e added
unfolding add_event
add_event-has e [] key buckets h = cc
add_event-has e (k ∷ keys) key buckets h = elim (Bool-cases (same_anchor k key)) [
  | inl t ↦
      let (more, g) = add_event-IsGrown e keys key (add_to_bucket e k buckets) in
      let here =
        subst (λ x. bucket_at x (add_to_bucket e k buckets) ≡ bucket_at x buckets ++ e ∷ [])
          (same_anchor-eq k key t) (bucket_at-add_to_bucket e k buckets) in
      (
        e ∷ more,
        g ∙ ap (λ l. l ++ more) here ∙ append_assoc (bucket_at key buckets) (e ∷ []) more,
        Memᴰ.head refl,
      )
  | inr f ↦
      let (more, g, m) = add_event-has e keys key (add_to_bucket e k buckets) (rw f at h) in
      (more, g ∙ ap (λ l. l ++ more) (bucket_at-other e k key buckets f), m)
]

IsBefore-left : (l r : Event) (xs ys : List Event) → IsBefore l r xs → IsBefore l r (xs ++ ys)
IsBefore-left l r [] ys h = elim h [ ]
IsBefore-left l r (x ∷ xs) ys (inl (e, m)) = inl (e, Memᴰ_left r xs ys m)
IsBefore-left l r (x ∷ xs) ys (inr h) = inr (IsBefore-left l r xs ys h)

IsBefore-across :
    (l r : Event) (xs ys : List Event) → Memᴰ l xs → Memᴰ r ys → IsBefore l r (xs ++ ys)
IsBefore-across l r [] ys m n = elim m [ ]
IsBefore-across l r (x ∷ xs) ys (Memᴰ.head e) n = inl (sym e, Memᴰ_right r xs ys n)
IsBefore-across l r (x ∷ xs) ys (Memᴰ.tail m) n = inr (IsBefore-across l r xs ys m n)

module _ (l r : Event) (key : Anchor) (left_key : has_anchor (anchors l) key ≡ true)
    (right_key : has_anchor (anchors r) key ≡ true) where
  -- The second event follows the first into the bucket.
  fill_buckets-follows :
      (es : List Event) (buckets : Buckets)
      → Memᴰ l (bucket_at key buckets)
      → Memᴰ r es
      → IsBefore l r (bucket_at key (fill_buckets buckets es))
  unfolding fill_buckets
  fill_buckets-follows [] buckets m n = elim n [ ]
  fill_buckets-follows (e ∷ es) buckets m (Memᴰ.head q) =
      let (added, g, n) =
        add_event-has e (anchors e) key buckets
          (subst (λ x. has_anchor (anchors x) key ≡ true) q right_key) in
      let (more, f) = fill_buckets-IsGrown es key (add_event e (anchors e) buckets) in
      let pair =
        IsBefore-across l r (bucket_at key buckets) added m (subst (λ x. Memᴰ x added) (sym q) n) in
      subst (IsBefore l r) (sym f) (
        IsBefore-left l r (bucket_at key (add_event e (anchors e) buckets)) more
          (subst (IsBefore l r) (sym g) pair))
  fill_buckets-follows (e ∷ es) buckets m (Memᴰ.tail n) =
      let (added, g) = add_event-IsGrown e (anchors e) key buckets in
      fill_buckets-follows es (add_event e (anchors e) buckets)
        (subst (Memᴰ l) (sym g) (Memᴰ_left l (bucket_at key buckets) added m)) n

  fill_buckets-IsBefore :
      (es : List Event) (buckets : Buckets)
      → IsBefore l r es
      → IsBefore l r (bucket_at key (fill_buckets buckets es))
  unfolding fill_buckets
  fill_buckets-IsBefore [] buckets h = elim h [ ]
  fill_buckets-IsBefore (e ∷ es) buckets (inr h) =
      fill_buckets-IsBefore es (add_event e (anchors e) buckets) h
  fill_buckets-IsBefore (e ∷ es) buckets (inl (q, n)) =
      let (added, g, m) =
        add_event-has e (anchors e) key buckets
          (subst (λ x. has_anchor (anchors x) key ≡ true) (sym q) left_key) in
      fill_buckets-follows es (add_event e (anchors e) buckets)
        (subst (Memᴰ l) (sym g)
          (Memᴰ_right l (bucket_at key buckets) added (subst (λ x. Memᴰ x added) q m)))
        n

has_anchor-first :
    (keys : List Anchor) (p : Anchor → Bool)
    → any p keys ≡ true
    → (key : Anchor) × (p key ≡ true) × (has_anchor keys key ≡ true)
has_anchor-first [] p h = cc
has_anchor-first (x ∷ keys) p h = elim (Bool-cases (p x)) [
  | inl t ↦ (x, t, rw (same_anchor_refl x) refl)
  | inr f ↦ let (key, a, b) = has_anchor-first keys p (rw f at h) in (key, a, ground (arith, b))
]

-- Of two events that share an anchor the pair is a candidate.
pub candidate_pairs_complete :
    (events : List Event) (l r : Event)
    → IsBefore l r events
    → shares_anchor l r ≡ true
    → has_pair (sorted_pair l.id r.id) (candidate_pairs events) ≡ true
unfolding candidate_pairs
candidate_pairs_complete events l r h k =
    let (key, a, b) = has_anchor-first (anchors r) (has_anchor (anchors l)) k in
    all_pairs-has l r key (fill_buckets [] events) []
      (fill_buckets-IsBefore l r key a b events [] h)
