-- ===== src/Correlation/Candidates.antt =====
-- correlation_engine.py: `candidate_pairs`. A key such as `u:{user}` is an anchor: the prefixes
-- differ, so the texts are equal exactly when the anchors are.
use Prim.Native.String.{compare}
use text.Mathlib.Text.{is_le}
use cirt_lens.Base.{
  String, Bool, false, ◌&&◌, Option, none, some, List, [], ◌∷◌, ◌++◌, ◌==◌, if◌then◌else◌, any,
}
use cirt_lens.Events.{Event, get_device_id, get_destination_ip}

pub data Anchor : Type 0 where
  user_anchor host_anchor source_anchor device_anchor destination_anchor : String → Anchor

abbrev pub same_anchor : Anchor → Anchor → Bool
same_anchor (user_anchor a) (user_anchor b) = a == b
same_anchor (host_anchor a) (host_anchor b) = a == b
same_anchor (source_anchor a) (source_anchor b) = a == b
same_anchor (device_anchor a) (device_anchor b) = a == b
same_anchor (destination_anchor a) (destination_anchor b) = a == b
same_anchor _ _ = false

-- `f"u:{x}" if x else None`, and `filter(None, …)`
abbrev pub anchor_if : (String → Anchor) → Option String → List Anchor
anchor_if kind none = []
anchor_if kind (some s) = if s == "" then [] else kind s ∷ []

unfoldable pub anchors : Event → List Anchor
anchors e =
    anchor_if user_anchor e.user
    ++ (anchor_if host_anchor e.host
        ++ (anchor_if source_anchor e.source_ip
            ++ (anchor_if device_anchor (get_device_id e.content)
                ++ anchor_if destination_anchor (get_destination_ip e.content))))

-- `buckets`, a `defaultdict(list)` by key
abbrev pub Buckets : Type 0
Buckets = List (Anchor × List Event)

-- `buckets[key].append(event)`
unfoldable pub add_to_bucket : Event → Anchor → Buckets → Buckets
add_to_bucket e key [] = (key, e ∷ []) ∷ []
add_to_bucket e key ((k, bucket) ∷ rest) =
    let later = add_to_bucket e key rest in
    if same_anchor k key then (k, bucket ++ e ∷ []) ∷ rest else (k, bucket) ∷ later

unfoldable pub add_event : Event → List Anchor → Buckets → Buckets
unfolding add_to_bucket
add_event e [] buckets = buckets
add_event e (key ∷ keys) buckets = add_event e keys (add_to_bucket e key buckets)

unfoldable pub fill_buckets : Buckets → List Event → Buckets
unfolding add_event anchors
fill_buckets buckets [] = buckets
fill_buckets buckets (e ∷ es) = fill_buckets (add_event e (anchors e) buckets) es

abbrev pub Pair : Type 0
Pair = String × String

-- `tuple(sorted((left.id, right.id)))`
unfoldable pub sorted_pair : String → String → Pair
sorted_pair a b = if is_le (compare a b) then (a, b) else (b, a)

abbrev pub same_pair : Pair → Pair → Bool
same_pair (a, b) (c, d) = (a == c) && (b == d)

-- Adding to a set of pairs.
unfoldable pub add_pair : Pair → List Pair → List Pair
add_pair p pairs = if any (same_pair p) pairs then pairs else pairs ++ p ∷ []

-- The pairs of one event with the later ones of its bucket.
unfoldable pub add_pairs_with : Event → List Event → List Pair → List Pair
unfolding sorted_pair add_pair
add_pairs_with left [] pairs = pairs
add_pairs_with left (right ∷ rest) pairs =
    add_pairs_with left rest (add_pair (sorted_pair left.id right.id) pairs)

unfoldable pub bucket_pairs : List Event → List Pair → List Pair
unfolding add_pairs_with
bucket_pairs [] pairs = pairs
bucket_pairs (left ∷ rest) pairs = bucket_pairs rest (add_pairs_with left rest pairs)

unfoldable pub all_pairs : Buckets → List Pair → List Pair
unfolding bucket_pairs
all_pairs [] pairs = pairs
all_pairs ((key, bucket) ∷ rest) pairs = all_pairs rest (bucket_pairs bucket pairs)

unfoldable pub candidate_pairs : List Event → List Pair
unfolding fill_buckets all_pairs
candidate_pairs events = all_pairs (fill_buckets [] events) []
