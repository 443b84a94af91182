-- ===== src/Correlation/Groups.antt =====
-- correlation_engine.py: `connected_groups` and `correlation_metrics`. The search runs on fuel; the
-- order in which a Python set is read is left open there, and is that of insertion here.
use mathlib.Core.Option
use cirt_lens.Base.{
  ℕ, zero, suc, ◌+◌, ◌-◌, ◌*◌, String, Bool, false, not, ◌&&◌, Option, none, some, List, [], ◌∷◌,
  ◌++◌, map, ◌==◌, leb, if◌then◌else◌, length, keep, contains, sum_by, sort_by,
}
use cirt_lens.Config.{Settings, minutes}
use cirt_lens.Events.{Event}
use cirt_lens.Risk.{Cohesion}
use cirt_lens.Correlation.Score.{connection_score, group_cohesion}
use cirt_lens.Correlation.Candidates.{Pair, candidate_pairs}

abbrev pub or_else : Option Event → Option Event → Option Event
or_else none o = o
or_else (some e) o = some e

-- `by_id[…]`, where a later event of the same id wins.
unfoldable pub find_event : List Event → String → Option Event
find_event [] i = none
find_event (e ∷ es) i = or_else (find_event es i) (if e.id == i then some e else none)

-- `adjacency`, a `defaultdict(set)` by event id
abbrev pub Adjacency : Type 0
Adjacency = String → List String

abbrev pub no_edges : Adjacency
no_edges i = []

-- `adjacency[a].add(b)`
abbrev pub link : String → String → Adjacency → Adjacency
link a b adjacency = λ i.
    if a == i
    then if contains (adjacency a) b then adjacency a else adjacency a ++ b ∷ []
    else adjacency i

-- `connection_score(by_id[a], by_id[b]) >= correlation_min_score`
abbrev pub accepts : Settings → Option Event → Option Event → Bool
accepts s (some left) (some right) = leb s.correlation_min_score (connection_score s left right)
accepts s _ _ = false

unfoldable pub build_adjacency : Settings → List Event → List Pair → Adjacency → Adjacency
unfolding find_event
build_adjacency s events [] adjacency = adjacency
build_adjacency s events ((a, b) ∷ pairs) adjacency = build_adjacency s events pairs (
    if accepts s (find_event events a) (find_event events b)
    then link b a (link a b adjacency)
    else adjacency)

-- The `while stack` loop: the ids that have been visited, and those of the component so far.
unfoldable pub search_component :
    ℕ → Adjacency → List String → List String → List String → Option (List String × List String)
search_component zero adjacency stack visited component = none
search_component (suc fuel) adjacency [] visited component = some (visited, component)
search_component (suc fuel) adjacency (eid ∷ stack) visited component =
    let skip = search_component fuel adjacency stack visited component in
    let visit =
      search_component fuel adjacency
        (keep (λ i. not (contains (eid ∷ visited) i)) (adjacency eid) ++ stack) (eid ∷ visited)
        (component ++ eid ∷ []) in
    if contains visited eid then skip else visit

-- One step for each id that is ever pushed, and one to see the empty stack.
abbrev pub search_fuel : Adjacency → List String → ℕ
search_fuel adjacency ids = 2 + sum_by (λ i. length (adjacency i)) ids

abbrev pub prepend : Option Event → List Event → List Event
prepend none es = es
prepend (some e) es = e ∷ es

abbrev pub events_of : List Event → List String → List Event
events_of events [] = []
events_of events (i ∷ ids) = prepend (find_event events i) (events_of events ids)

-- `component[-1].timestamp - component[0].timestamp` of a component in the order of time
abbrev pub last_time : ℕ → List Event → ℕ
last_time t [] = t
last_time t (e ∷ es) = last_time e.timestamp es

abbrev pub span : List Event → ℕ
span [] = 0
span (e ∷ es) = last_time e.timestamp es - e.timestamp

-- `group_cohesion(component) >= min_group_cohesion_score`, multiplied out
abbrev pub is_cohesive : Settings → Cohesion → Bool
is_cohesive s c = leb (s.min_group_cohesion_score * c.pairs) c.total

-- The guardrails of a group.
unfoldable pub is_group : Settings → List Event → Bool
is_group s component =
    leb 2 (length component)
    && (leb (span component) (minutes s.max_incident_span_minutes)
        && is_cohesive s (group_cohesion s component))

abbrev pub by_time : List Event → List Event
by_time = sort_by (λ e. e.timestamp)

-- `groups.append(component)`, where the component passes
abbrev pub append_group :
    Settings → List Event → Option (List (List Event)) → Option (List (List Event))
append_group s component none = none
append_group s component (some groups) =
    some (if is_group s component then component ∷ groups else groups)

-- The loop over the events. `none` means that a search ran out of fuel.
unfoldable pub group_loop :
    Settings → List Event → Adjacency → List Event → List String → Option (List (List Event))
group_loop s events adjacency [] visited = some []
group_loop s events adjacency (e ∷ es) visited =
    let skip = group_loop s events adjacency es visited in
    let visit : Option (List (List Event)) =
      elim (search_component (search_fuel adjacency (map (λ x. x.id) events)) adjacency (e.id ∷ [])
        visited []) [
          | none ↦ none
          | some (seen, component) ↦
              append_group s (by_time (events_of events component))
                (group_loop s events adjacency es seen)
        ] in
    if contains visited e.id then skip else visit

unfoldable pub connected_groups : Settings → List Event → Option (List (List Event))
connected_groups s events =
    group_loop s events (build_adjacency s events (candidate_pairs events) no_edges) events []

abbrev pub count_accepted : Settings → List Event → List Pair → ℕ
count_accepted s events [] = 0
count_accepted s events ((a, b) ∷ pairs) =
    (if accepts s (find_event events a) (find_event events b) then 1 else 0)
    + count_accepted s events pairs

pub record Metrics : Type 0 where
  pub events : ℕ
  pub candidate_pairs : ℕ
  pub accepted_edges : ℕ
  pub groups : Option ℕ

unfoldable pub correlation_metrics : Settings → List Event → Metrics
correlation_metrics s events = record {
  events = length events;
  candidate_pairs = length (candidate_pairs events);
  accepted_edges = count_accepted s events (candidate_pairs events);
  groups = Option.map length (connected_groups s events);
}
