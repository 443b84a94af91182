-- ===== src/Correlation/Total.antt =====
-- correlation_engine.py: `connected_groups` ends with a result.
use cirt_lens.Base.{
  ◌≡◌, ◌≢◌, refl, String, Bool, true, false, ◌||◌, Option, none, some, List, [], ◌∷◌, map, ◌==◌,
  contains, All, All-append, All_map, Bool-cases, Option-cases, inl, inr, eq_refl,
}
use cirt_lens.Config.{Settings}
use cirt_lens.Events.{Event}
use cirt_lens.Correlation.Candidates.{Pair, candidate_pairs}
use cirt_lens.Correlation.Groups.{
  Adjacency, no_edges, link, accepts, find_event, build_adjacency, search_component, search_fuel,
  append_group, events_of, by_time, group_loop, connected_groups,
}
use cirt_lens.Correlation.Search.{IsClosedGraph, search_component_total}

abbrev ids : List Event → List String
ids = map (λ e. e.id)

or_true : (a : Bool) {b : Bool} → b ≡ true → (a || b) ≡ true
or_true true h = refl
or_true false h = h

contains-find_event :
    (events : List Event) (i : String) (e : Event)
    → find_event events i ≡ some e
    → contains (ids events) i ≡ true
unfolding find_event
contains-find_event [] i e h = cc
contains-find_event (x ∷ xs) i e h = elim (Option-cases (find_event xs i)) [
  | inr (y, f) ↦ or_true (x.id == i) (contains-find_event xs i y f)
  | inl f ↦ elim (Bool-cases (x.id == i)) [
    | inl t ↦ rw t refl
    | inr t ↦ let impossible = rw (f, t) at h in cc
  ]
]

-- An edge that is added joins two of the events.
accepts_found :
    (s : Settings) (events : List Event) (a b : String)
    → accepts s (find_event events a) (find_event events b) ≡ true
    → (contains (ids events) a ≡ true) × (contains (ids events) b ≡ true)
accepts_found s events a b h = elim (Option-cases (find_event events a)) [
  | inl e ↦ let impossible = rw e at h in cc
  | inr (x, e) ↦ elim (Option-cases (find_event events b)) [
    | inl f ↦ let impossible = rw (e, f) at h in cc
    | inr (y, f) ↦ (contains-find_event events a x e, contains-find_event events b y f)
  ]
]

link-IsClosedGraph :
    (a b : String) (adj : Adjacency) (nodes : List String)
    → contains nodes b ≡ true
    → IsClosedGraph adj nodes
    → IsClosedGraph (link a b adj) nodes
link-IsClosedGraph a b adj nodes h g = record {
  edges = λ i. elim (Bool-cases (a == i)) [
    | inl e ↦ elim (Bool-cases (contains (adj a) b)) [
      | inl f ↦ rw (e, f) (g.edges a)
      | inr f ↦
          rw (e, f) (All-append (λ j. contains nodes j ≡ true) (adj a) (b ∷ []) (g.edges a) (h, tt))
    ]
    | inr e ↦ rw e (g.edges i)
  ];
}

build_adjacency-IsClosedGraph :
    (s : Settings) (events : List Event) (pairs : List Pair) (adj : Adjacency)
    → IsClosedGraph adj (ids events)
    → IsClosedGraph (build_adjacency s events pairs adj) (ids events)
unfolding build_adjacency
build_adjacency-IsClosedGraph s events [] adj g = g
build_adjacency-IsClosedGraph s events ((a, b) ∷ pairs) adj g =
    build_adjacency-IsClosedGraph s events pairs _
      (elim (Bool-cases (accepts s (find_event events a) (find_event events b))) [
        | inl e ↦
            let (ha, hb) = accepts_found s events a b e in
            rw e (
              link-IsClosedGraph b a (link a b adj) (ids events) ha
                (link-IsClosedGraph a b adj (ids events) hb g))
        | inr e ↦ rw e g
      ])

append_group-some :
    (s : Settings) (component : List Event) (rest : Option (List (List Event)))
    → rest ≢ none
    → append_group s component rest ≢ none
append_group-some s component none h = λ e. h refl
append_group-some s component (some groups) h = λ e. cc

group_loop_total :
    (s : Settings) (events : List Event) (adj : Adjacency)
    → IsClosedGraph adj (ids events)
    → (es : List Event) (visited : List String) → All (λ e. contains (ids events) e.id ≡ true) es
    → group_loop s events adj es visited ≢ none
unfolding group_loop
group_loop_total s events adj g [] visited h = λ e. cc
group_loop_total s events adj g (x ∷ xs) visited (h, hs) =
    elim (Bool-cases (contains visited x.id)) [
      | inl e ↦ rw e (group_loop_total s events adj g xs visited hs)
      | inr e ↦
          elim (Option-cases
            (search_component (search_fuel adj (ids events)) adj (x.id ∷ []) visited [])) [
              | inl f ↦ absurd (search_component_total adj (ids events) x.id visited [] g h f)
              | inr ((seen, component), f) ↦
                  rw (e, f)
                    (append_group-some s (by_time (events_of events component)) _
                      (group_loop_total s events adj g xs seen hs))
            ]
    ]

All_ids : (es : List Event) → All (λ e. contains (ids es) e.id ≡ true) es
All_ids [] = tt
All_ids (x ∷ xs) = (
  rw (eq_refl x.id) refl,
  All_map (λ (e : Event). contains (ids xs) e.id ≡ true)
      (λ (e : Event). contains (ids (x ∷ xs)) e.id ≡ true) (λ e h. or_true (x.id == e.id) h) xs
      (All_ids xs),
)

-- Grouping ends with a list of groups, whatever the events and the settings: the fuel of its
-- searches is enough.
pub connected_groups_total : (s : Settings) (events : List Event) → connected_groups s events ≢ none
unfolding connected_groups
connected_groups_total s events =
    group_loop_total s events (build_adjacency s events (candidate_pairs events) no_edges)
      (build_adjacency-IsClosedGraph s events (candidate_pairs events) no_edges
        (record { edges = λ i. tt }))
      events [] (All_ids events)
