-- ===== src/Correlation/Examples.antt =====
-- Tests of the correlation, and its theorems at concrete inputs.
use cirt_lens.Base.{
  ◌≤◌, ◌≡◌, ◌≢◌, refl, true, none, some, List, [], ◌∷◌, String, meets, contains, false, All,
  Bool-cases, inl, inr, ◌==◌, if◌then◌else◌,
}
use cirt_lens.Config.{default_settings, seconds}
use cirt_lens.Playbook.{select_playbook}
use cirt_lens.Correlation.Score.{
  group_cohesion, entity_score, connection_score, time_gap, addresses,
}
use cirt_lens.Correlation.Candidates.{candidate_pairs}
use cirt_lens.Correlation.Groups.{
  is_group, build_adjacency, group_loop, connected_groups, search_component, Adjacency,
}
use cirt_lens.Correlation.Infer.{infer_incident_type, suspicious_activity}
use mathlib.Core.List.Memᴰ
use cirt_lens.Correlation.Candidates.{sorted_pair}
use cirt_lens.Correlation.Pairs.{has_pair}
use cirt_lens.Correlation.Coverage.{connection_score-apart}
use cirt_lens.Correlation.Search.{IsClosedGraph}
use cirt_lens.Correlation.Reach.{IsExact, IsComponent, search_component-IsExact}
use cirt_lens.Correlation.Agreement.{playbook_for, select_playbook-infer_incident_type}
use cirt_lens.Correlation.Total.{connected_groups_total}
use cirt_lens.Base.{length}
use cirt_lens.Events.{Event}
use cirt_lens.Correlation.Graph.{build_correlation_graph}
use cirt_lens.Correlation.GraphLaws.{IsGraph, build_correlation_graph-IsGraph}
use cirt_lens.Correlation.Samples.{first_login, second_login, transfer, callback}

grouped :
    connected_groups default_settings (second_login ∷ transfer ∷ first_login ∷ [])
    ≡ some ((first_login ∷ second_login ∷ []) ∷ [])
unfolding connected_groups group_loop search_component build_adjacency candidate_pairs
    connection_score entity_score is_group group_cohesion
grouped = refl

-- The two events reach the default acceptance score and are never compared.
missed :
    (connection_score default_settings transfer callback ≡ 5)
    × (candidate_pairs (transfer ∷ callback ∷ []) ≡ [])
unfolding connection_score candidate_pairs entity_score
missed = (refl, refl)

not_paired :
    has_pair (sorted_pair transfer.id callback.id) (candidate_pairs (transfer ∷ callback ∷ []))
    ≡ false
unfolding candidate_pairs
not_paired = refl

connection_score-apart_example :
    (connection_score default_settings transfer callback ≤ 5)
    × (connection_score default_settings transfer callback ≡ 5
        → (meets (addresses transfer) (addresses callback) ≡ true)
          × (time_gap transfer callback ≤ seconds 900))
connection_score-apart_example =
    connection_score-apart default_settings (transfer ∷ callback ∷ []) transfer callback
      (inl (refl, Memᴰ.head refl)) not_paired

-- Two events that are connected.
abbrev linked : Adjacency
linked i = if i == "a" then "b" ∷ [] else if i == "b" then "a" ∷ [] else []

linked-IsClosedGraph : IsClosedGraph linked ("a" ∷ "b" ∷ [])
linked-IsClosedGraph = record { edges = edges }
  where
    edges : (i : String) → All (λ j. contains ("a" ∷ "b" ∷ []) j ≡ true) (linked i)
    edges i = elim (Bool-cases (i == "a")) [
      | inl e ↦ rw e (refl, tt)
      | inr d ↦ elim (Bool-cases (i == "b")) [ inl e ↦ rw (d, e) (refl, tt) | inr e ↦ rw (d, e) tt ]
    ]

found_both : search_component 4 linked ("a" ∷ []) [] [] ≡ some ("b" ∷ "a" ∷ [], "a" ∷ "b" ∷ [])
unfolding search_component
found_both = refl

search_component-IsExact_example :
    IsExact linked ("a" ∷ []) [] ("b" ∷ "a" ∷ [])
    × IsComponent linked "a" [] ("b" ∷ "a" ∷ []) ("a" ∷ "b" ∷ [])
search_component-IsExact_example =
    search_component-IsExact linked 4 "a" [] ("b" ∷ "a" ∷ []) ("a" ∷ "b" ∷ []) (λ x y h k. cc)
      found_both

abbrev takeover : List String
takeover = "NEW_DEVICE" ∷ "IMPOSSIBLE_TRAVEL" ∷ []

select_playbook-infer_incident_type_example :
    (select_playbook takeover ≡ playbook_for (infer_incident_type takeover).incident_type)
    × ((infer_incident_type takeover).incident_type ≢ suspicious_activity
        → (infer_incident_type takeover).context ≢ [])
    × ((infer_incident_type takeover).incident_type ≡ suspicious_activity
        → (infer_incident_type takeover).context ≡ [])
select_playbook-infer_incident_type_example = select_playbook-infer_incident_type takeover

connected_groups_total_example :
    connected_groups default_settings (second_login ∷ transfer ∷ first_login ∷ []) ≢ none
connected_groups_total_example =
    connected_groups_total default_settings (second_login ∷ transfer ∷ first_login ∷ [])

abbrev observed : List Event
observed = first_login ∷ transfer ∷ []

graph_sizes :
    (length (build_correlation_graph observed).nodes ≡ 8)
    × (length (build_correlation_graph observed).edges ≡ 6)
unfolding build_correlation_graph
graph_sizes = (refl, refl)

build_correlation_graph-IsGraph_example :
    IsGraph ("AUTH-1" ∷ "NET-1" ∷ []) (build_correlation_graph observed)
build_correlation_graph-IsGraph_example = build_correlation_graph-IsGraph observed
