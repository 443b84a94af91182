-- ===== src/Correlation/Score.antt =====
-- correlation_engine.py: `connection_score` and `group_cohesion`.
use cirt_lens.Base.{
  ℕ, ◌+◌, ◌-◌, String, Bool, ◌&&◌, Option, none, some, List, [], ◌∷◌, ◌++◌, leb, ltb, if◌then◌else◌,
  length, sum_by, truthy, same, meets,
}
use cirt_lens.Config.{Settings, minutes, seconds}
use cirt_lens.Events.{Event, get_device_id, get_destination_ip}
use cirt_lens.Risk.{Cohesion}

-- `abs((left.timestamp - right.timestamp).total_seconds())`, in microseconds
abbrev pub time_gap : Event → Event → ℕ
time_gap left right = (left.timestamp - right.timestamp) + (right.timestamp - left.timestamp)

-- `left.x and left.x == right.x`
abbrev pub same_entity : Option String → Option String → Bool
same_entity a b = truthy a && same a b

abbrev pub some_of : Option String → List String
some_of none = []
some_of (some s) = s ∷ []

-- `{left.source_ip, a.get("destination_ip")} - {None}`
abbrev pub addresses : Event → List String
addresses e = some_of e.source_ip ++ some_of (get_destination_ip e.content)

abbrev pub points_if : Bool → ℕ → ℕ
points_if test points = if test then points else 0

-- The points for shared entities.
unfoldable pub entity_score : Event → Event → ℕ
entity_score left right =
    points_if (same_entity left.user right.user) 4
    + points_if (same_entity left.host right.host) 4
    + points_if (same_entity (get_device_id left.content) (get_device_id right.content)) 3
    + points_if (same_entity left.source_ip right.source_ip) 3
    + points_if (meets (addresses left) (addresses right)) 2

unfoldable pub connection_score : Settings → Event → Event → ℕ
connection_score s left right =
    if ltb (minutes s.correlation_window_minutes) (time_gap left right)
    then 0
    else entity_score left right + (if leb (time_gap left right) (seconds 900) then 3 else 1)

-- The scores of one event with every later one, and of all pairs.
abbrev pub scores_with : Settings → Event → List Event → List ℕ
scores_with s e [] = []
scores_with s e (f ∷ fs) = connection_score s e f ∷ scores_with s e fs

abbrev pub pair_scores : Settings → List Event → List ℕ
pair_scores s [] = []
pair_scores s (e ∷ es) = scores_with s e es ++ pair_scores s es

-- `sum(scores) / len(scores) if scores else 0`
unfoldable pub group_cohesion : Settings → List Event → Cohesion
group_cohesion s group = record {
  total = sum_by (λ n. n) (pair_scores s group);
  pairs = length (pair_scores s group);
}
