-- ===== src/Correlation/GraphLaws.antt =====
-- correlation_engine.py: the graph is closed, and its evidence is among the events.
use cirt_lens.Base.{
  ◌≡◌, refl, ℕ, String, Bool, true, false, ◌||◌, Option, none, some, List, [], ◌∷◌, map, ◌==◌, any,
  contains, All, All-append, All_map, Bool-cases, inl, inr, arith, eq_refl, truthy,
}
use cirt_lens.Events.{Event, get_device_id, get_destination_ip, get_resource}
use cirt_lens.Correlation.Graph.{
  Node, Edge, Graph, Keys, add_evidence, put_node, fresh_node, node, put_edge, fresh_edge, edge,
  or_key, add_nodes, add_edges, add_events, build_correlation_graph,
}

abbrev pub has_node : List Node → String → Bool
has_node nodes id = any (λ (n : Node). n.id == id) nodes

-- Every piece of evidence is one of the ids.
abbrev pub IsEvidence : List String → List String → Type 0
IsEvidence ids = All (λ i. contains ids i ≡ true)

-- The ends of an edge are nodes, and its evidence is among the ids.
abbrev pub IsEdge : List String → List Node → Edge → Type 0
IsEdge ids nodes x =
    (has_node nodes x.source ≡ true)
    × (has_node nodes x.target ≡ true)
    × IsEvidence ids x.evidence_ids

-- The graph of events with these ids.
pub record IsGraph (ids : List String) (g : Graph) : Type 0 where
  pub nodes : All (λ (n : Node). IsEvidence ids n.evidence_ids) g.nodes
  pub edges : All (IsEdge ids g.nodes) g.edges

-- Nodes are never removed.
abbrev Keeps : List Node → List Node → Type 0
Keeps nodes nodes' = (id : String) → has_node nodes id ≡ true → has_node nodes' id ≡ true

-- A key is that of a node.
abbrev IsKey : List Node → Option String → Type 0
IsKey nodes none = Unit
IsKey nodes (some k) = has_node nodes k ≡ true

Keeps-IsKey :
    (nodes nodes' : List Node) (k : Option String)
    → Keeps nodes nodes'
    → IsKey nodes k
    → IsKey nodes' k
Keeps-IsKey nodes nodes' none h a = tt
Keeps-IsKey nodes nodes' (some k) h a = h k a

add_evidence-IsEvidence :
    (ids found : List String) (id : String)
    → contains ids id ≡ true
    → IsEvidence ids found
    → IsEvidence ids (add_evidence id found)
add_evidence-IsEvidence ids found id c h = elim (Bool-cases (contains found id)) [
  | inl t ↦ rw t h
  | inr t ↦ rw t (All-append _ found (id ∷ []) h (c, tt))
]

has_node-put_node :
    (e : Event) (n : Node) (nodes : List Node) → has_node (put_node e n nodes) n.id ≡ true
unfolding put_node
has_node-put_node e n [] = rw (eq_refl n.id) refl
has_node-put_node e n (x ∷ nodes) = elim (Bool-cases (x.id == n.id)) [
  | inl t ↦ rw (t, t) refl
  | inr t ↦ rw (t, t, has_node-put_node e n nodes) refl
]

put_node-Keeps : (e : Event) (n : Node) (nodes : List Node) → Keeps nodes (put_node e n nodes)
unfolding put_node
put_node-Keeps e n [] id h = cc
put_node-Keeps e n (x ∷ nodes) id h = elim (Bool-cases (x.id == n.id)) [
  | inl t ↦ rw t h
  | inr t ↦ rw t (ground (arith, put_node-Keeps e n nodes id))
]

module _ (ids : List String) (e : Event) (is_event : contains ids e.id ≡ true) where
  abbrev AllNodes : List Node → Type 0
  AllNodes = All (λ (n : Node). IsEvidence ids n.evidence_ids)

  put_node-AllNodes :
      (n : Node) (nodes : List Node)
      → IsEvidence ids n.evidence_ids
      → AllNodes nodes
      → AllNodes (put_node e n nodes)
  unfolding put_node
  put_node-AllNodes n [] a h = (add_evidence-IsEvidence ids n.evidence_ids e.id is_event a, tt)
  put_node-AllNodes n (x ∷ nodes) a (b, h) = elim (Bool-cases (x.id == n.id)) [
    | inl t ↦ rw t (add_evidence-IsEvidence ids x.evidence_ids e.id is_event b, h)
    | inr t ↦ rw t (b, put_node-AllNodes n nodes a h)
  ]

  -- What a call of `node` gives.
  abbrev IsPut : List Node → Option String × List Node → Type 0
  IsPut nodes (k, nodes') = IsKey nodes' k × Keeps nodes nodes' × AllNodes nodes'

  node-IsPut :
      (kind : String) (value : Option String) (nodes : List Node)
      → AllNodes nodes
      → IsPut nodes (node kind value e nodes)
  unfolding node
  node-IsPut kind none nodes h = (tt, (λ id k. k), h)
  node-IsPut kind (some value) nodes h = elim (Bool-cases (truthy (some value))) [
    | inl t ↦ rw t (
      has_node-put_node e (fresh_node kind value) nodes,
      put_node-Keeps e (fresh_node kind value) nodes,
      put_node-AllNodes (fresh_node kind value) nodes tt h,
    )
    | inr t ↦ rw t (tt, (λ id k. k), h)
  ]

  put_edge-All :
      (nodes : List Node) (x : Edge) (edges : List Edge)
      → IsEdge ids nodes x
      → All (IsEdge ids nodes) edges
      → All (IsEdge ids nodes) (put_edge e x edges)
  unfolding put_edge
  put_edge-All nodes x [] (a, b, c) h =
      ((a, b, add_evidence-IsEvidence ids x.evidence_ids e.id is_event c), tt)
  put_edge-All nodes x (y ∷ edges) p ((a, b, c), h) = elim (Bool-cases (y.id == x.id)) [
    | inl t ↦ rw t ((a, b, add_evidence-IsEvidence ids y.evidence_ids e.id is_event c), h)
    | inr t ↦ rw t ((a, b, c), put_edge-All nodes x edges p h)
  ]

  edge-All :
      (nodes : List Node) (a b : Option String) (relationship : String) (score : ℕ)
      (edges : List Edge)
      → IsKey nodes a
      → IsKey nodes b
      → All (IsEdge ids nodes) edges
      → All (IsEdge ids nodes) (edge a b relationship e score edges)
  unfolding edge
  edge-All nodes none b r s edges k l h = h
  edge-All nodes (some a) none r s edges k l h = h
  edge-All nodes (some a) (some b) r s edges k l h =
      put_edge-All nodes (fresh_edge a b r s) edges (k, l, tt) h

  -- The keys are those of nodes.
  abbrev AllKeys : List Node → Keys → Type 0
  AllKeys nodes k =
      (IsKey nodes k.user × IsKey nodes k.device × IsKey nodes k.host)
      × (IsKey nodes k.source × IsKey nodes k.destination × IsKey nodes k.resource)

  add_nodes-AllKeys :
      (nodes : List Node)
      → AllNodes nodes
      → AllKeys (add_nodes e nodes).1 (add_nodes e nodes).0
        × Keeps nodes (add_nodes e nodes).1
        × AllNodes (add_nodes e nodes).1
  unfolding add_nodes
  add_nodes-AllKeys n₀ h₀ =
      let x₁ = node "user" e.user e n₀ in
      let x₂ = node "device" (get_device_id e.content) e x₁.1 in
      let x₃ = node "host" e.host e x₂.1 in
      let x₄ = node "source_ip" e.source_ip e x₃.1 in
      let x₅ = node "destination_ip" (get_destination_ip e.content) e x₄.1 in
      let x₆ = node "cloud_resource" (some (get_resource e.content)) e x₅.1 in
      let (k₁, l₁, h₁) = node-IsPut "user" e.user n₀ h₀ in
      let (k₂, l₂, h₂) = node-IsPut "device" (get_device_id e.content) x₁.1 h₁ in
      let (k₃, l₃, h₃) = node-IsPut "host" e.host x₂.1 h₂ in
      let (k₄, l₄, h₄) = node-IsPut "source_ip" e.source_ip x₃.1 h₃ in
      let (k₅, l₅, h₅) = node-IsPut "destination_ip" (get_destination_ip e.content) x₄.1 h₄ in
      let (k₆, l₆, h₆) = node-IsPut "cloud_resource" (some (get_resource e.content)) x₅.1 h₅ in
      let m₅ : Keeps x₅.1 x₆.1 = l₆ in
      let m₄ : Keeps x₄.1 x₆.1 = λ i k. m₅ i (l₅ i k) in
      let m₃ : Keeps x₃.1 x₆.1 = λ i k. m₄ i (l₄ i k) in
      let m₂ : Keeps x₂.1 x₆.1 = λ i k. m₃ i (l₃ i k) in
      let m₁ : Keeps x₁.1 x₆.1 = λ i k. m₂ i (l₂ i k) in
      (
        (
          (
            Keeps-IsKey x₁.1 x₆.1 x₁.0 m₁ k₁,
            Keeps-IsKey x₂.1 x₆.1 x₂.0 m₂ k₂,
            Keeps-IsKey x₃.1 x₆.1 x₃.0 m₃ k₃,
          ),
          (Keeps-IsKey x₄.1 x₆.1 x₄.0 m₄ k₄, Keeps-IsKey x₅.1 x₆.1 x₅.0 m₅ k₅, k₆),
        ),
        (λ i k. m₁ i (l₁ i k)),
        h₆,
      )

  or_key-IsKey :
      (nodes : List Node) (a b : Option String)
      → IsKey nodes a
      → IsKey nodes b
      → IsKey nodes (or_key a b)
  or_key-IsKey nodes none b k l = l
  or_key-IsKey nodes (some a) b k l = k

  add_edges-All :
      (nodes : List Node) (k : Keys) (edges : List Edge)
      → AllKeys nodes k
      → All (IsEdge ids nodes) edges
      → All (IsEdge ids nodes) (add_edges e k edges)
  unfolding add_edges
  add_edges-All nodes k edges ((user, device, host), (source, destination, resource)) h =
      edge-All nodes k.user k.resource _ 4 _ user resource (
        edge-All nodes k.source k.destination _ 2 _ source destination (
          edge-All nodes (or_key k.host k.device) k.source _ 3 _
            (or_key-IsKey nodes k.host k.device host device) source
            (edge-All nodes k.user k.host _ 4 _ user host
              (edge-All nodes k.user k.device _ 4 edges user device h))))

add_events-IsGraph :
    (ids : List String) (es : List Event) (g : Graph)
    → All (λ (e : Event). contains ids e.id ≡ true) es
    → IsGraph ids g
    → IsGraph ids (add_events es g)
unfolding add_events
add_events-IsGraph ids [] g c h = h
add_events-IsGraph ids (e ∷ es) g (c, cs) h =
    let x = add_nodes e g.nodes in
    let (keys, keeps, nodes) = add_nodes-AllKeys ids e c g.nodes h.nodes in
    add_events-IsGraph ids es (record { nodes = x.1; edges = add_edges e x.0 g.edges }) cs
      (record {
        nodes = nodes;
        edges = add_edges-All ids e c x.1 x.0 g.edges keys (
            All_map (IsEdge ids g.nodes) (IsEdge ids x.1)
              (λ y (a, b, d). (keeps y.source a, keeps y.target b, d)) g.edges h.edges);
      })

ids_of_events :
    (es : List Event) → All (λ (e : Event). contains (map (λ (x : Event). x.id) es) e.id ≡ true) es
ids_of_events [] = tt
ids_of_events (e ∷ es) =
    (rw (eq_refl e.id) refl, All_map _ _ (λ x h. or_true (e.id == x.id) h) es (ids_of_events es))
  where
    or_true : (a : Bool) {b : Bool} → b ≡ true → (a || b) ≡ true
    or_true true h = refl
    or_true false h = h

-- The graph of any events is closed: both ends of every edge are nodes of the graph, and all the
-- evidence of its nodes and edges is among the ids of the events.
pub build_correlation_graph-IsGraph :
    (events : List Event)
    → IsGraph (map (λ (e : Event). e.id) events) (build_correlation_graph events)
unfolding build_correlation_graph
build_correlation_graph-IsGraph events =
    add_events-IsGraph (map (λ (e : Event). e.id) events) events (record { nodes = []; edges = [] })
      (ids_of_events events) (record { nodes = tt; edges = tt })
