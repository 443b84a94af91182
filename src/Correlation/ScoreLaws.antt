-- ===== src/Correlation/ScoreLaws.antt =====
-- The score of a pair of events.
use cirt_lens.Base.{
  ℕ, ◌≤◌, ◌<◌, String, ◌≡◌, refl, Bool, true, Option, none, some, List, [], ◌∷◌, arith, contains,
  meets, eq_iff, eq_refl, Bool-cases, inl, inr, ◌↔◌,
}
use mathlib.Core.Bool.{false≢true}
use cirt_lens.Config.{Settings, minutes}
use cirt_lens.Events.{Event, get_device_id}
use cirt_lens.Correlation.Score.{
  points_if, time_gap, same_entity, addresses, entity_score, connection_score,
}

same_entity_sym : (a b : Option String) → same_entity a b ≡ same_entity b a
same_entity_sym none none = refl
same_entity_sym none (some b) = ground arith
same_entity_sym (some a) none = ground arith
same_entity_sym (some a) (some b) = ground (arith, eq_iff a b, eq_iff b a)

-- Sharing an element does not depend on the side.
contains-meets :
    (xs ys : List String) (x : String)
    → contains xs x ≡ true
    → contains ys x ≡ true
    → meets xs ys ≡ true
contains-meets xs [] x h k = cc
contains-meets xs (y ∷ ys) x h k = ground (arith, contains-meets xs ys x h, eq_iff y x)

meets_witness :
    (xs ys : List String)
    → meets xs ys ≡ true
    → (x : String) × (contains xs x ≡ true) × (contains ys x ≡ true)
meets_witness xs [] h = absurd (false≢true h)
meets_witness xs (y ∷ ys) h = elim (Bool-cases (contains xs y)) [
  | inl here ↦ (y, here, rw (eq_refl y))
  | inr other ↦ let (x, a, b) = meets_witness xs ys (ground arith) in (x, a, ground arith)
]

meets_swap : (xs ys : List String) → meets xs ys ≡ true → meets ys xs ≡ true
meets_swap xs ys h = let (x, a, b) = meets_witness xs ys h in contains-meets ys xs x b a

meets_sym : (xs ys : List String) → meets xs ys ≡ meets ys xs
meets_sym xs ys = ground (arith, meets_swap xs ys, meets_swap ys xs)

entity_score_sym : (left right : Event) → entity_score left right ≡ entity_score right left
unfolding entity_score
entity_score_sym left right = simp (
  same_entity_sym left.user right.user,
  same_entity_sym left.host right.host,
  same_entity_sym (get_device_id left.content) (get_device_id right.content),
  same_entity_sym left.source_ip right.source_ip,
  meets_sym (addresses left) (addresses right),
)

pub points_if-le : (b : Bool) (n : ℕ) → points_if b n ≤ n
points_if-le b n = ground arith

entity_score-le : (left right : Event) → entity_score left right ≤ 16
unfolding entity_score
entity_score-le left right = omega (
  arith,
  points_if-le (same_entity left.user right.user) 4,
  points_if-le (same_entity left.host right.host) 4,
  points_if-le (same_entity (get_device_id left.content) (get_device_id right.content)) 3,
  points_if-le (same_entity left.source_ip right.source_ip) 3,
  points_if-le (meets (addresses left) (addresses right)) 2,
)

gap_sym : (left right : Event) → time_gap left right ≡ time_gap right left
gap_sym left right = omega arith

-- The score does not depend on the order of the two events, so candidate pairs may be stored
-- sorted; it is at most 19, and it is 0 exactly for events further apart than the window.
pub connection_score_laws :
    (s : Settings) (left right : Event)
    → (connection_score s left right ≡ connection_score s right left)
      × (connection_score s left right ≤ 19)
      × ((connection_score s left right ≡ 0)
          ↔ (minutes s.correlation_window_minutes < time_gap left right))
unfolding connection_score
connection_score_laws s left right = (
  rw (gap_sym left right) (rw (entity_score_sym left right)),
  ground (arith, entity_score-le left right),
  ground arith,
)
