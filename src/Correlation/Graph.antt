-- ===== src/Correlation/Graph.antt =====
-- correlation_engine.py: `build_correlation_graph`. A dict is the list of its values in the order of
-- insertion, with the key in the `id` of each.
use Prim.Native.String.{String, ◌++◌}
use cirt_lens.Base.{ℕ, Option, none, some, List, [], ◌∷◌, ◌==◌, if◌then◌else◌, contains, truthy}
use mathlib.Core.List.{◌++◌ as ◌⧺◌}
use cirt_lens.Events.{Event, get_device_id, get_destination_ip, get_resource}
use cirt_lens.Incidents.Counting.{sorted_set}

pub record Node : Type 0 where
  pub id : String
  pub kind : String
  pub value : String
  pub evidence_ids : List String
  pub risk_flags : List String

pub record Edge : Type 0 where
  pub id : String
  pub source : String
  pub target : String
  pub relationship : String
  pub score : ℕ
  pub evidence_ids : List String

-- `if event.id not in item["evidence_ids"]: item["evidence_ids"].append(event.id)`
abbrev pub add_evidence : String → List String → List String
add_evidence id ids = if contains ids id then ids else ids ⧺ (id ∷ [])

abbrev pub seen_in : Event → Node → Node
seen_in e n = record n {
  evidence_ids = add_evidence e.id n.evidence_ids;
  risk_flags = sorted_set (n.risk_flags ⧺ e.risk_flags);
}

-- `nodes.setdefault(key, …)` and what is changed in the item
unfoldable pub put_node : Event → Node → List Node → List Node
put_node e fresh [] = seen_in e fresh ∷ []
put_node e fresh (n ∷ nodes) =
    let rest = put_node e fresh nodes in if n.id == fresh.id then seen_in e n ∷ nodes else n ∷ rest

abbrev pub fresh_node : String → String → Node
fresh_node kind value = record {
  id = kind ++ ":" ++ value;
  kind = kind;
  value = value;
  evidence_ids = [];
  risk_flags = [];
}

-- The key of the node, where there is a value, and the nodes.
unfoldable pub node : String → Option String → Event → List Node → Option String × List Node
unfolding put_node
node kind none e nodes = (none, nodes)
node kind (some value) e nodes =
    if truthy (some value)
    then (some (fresh_node kind value).id, put_node e (fresh_node kind value) nodes)
    else (none, nodes)

unfoldable pub put_edge : Event → Edge → List Edge → List Edge
put_edge e fresh [] = record fresh { evidence_ids = add_evidence e.id fresh.evidence_ids } ∷ []
put_edge e fresh (x ∷ edges) =
    let rest = put_edge e fresh edges in
    if x.id == fresh.id
    then record x { evidence_ids = add_evidence e.id x.evidence_ids } ∷ edges
    else x ∷ rest

abbrev pub fresh_edge : String → String → String → ℕ → Edge
fresh_edge a b relationship score = record {
  id = a ++ "|" ++ b ++ "|" ++ relationship;
  source = a;
  target = b;
  relationship = relationship;
  score = score;
  evidence_ids = [];
}

unfoldable pub edge : Option String → Option String → String → Event → ℕ → List Edge → List Edge
unfolding put_edge
edge none b relationship e score edges = edges
edge (some a) none relationship e score edges = edges
edge (some a) (some b) relationship e score edges =
    put_edge e (fresh_edge a b relationship score) edges

-- `host or device`
abbrev pub or_key : Option String → Option String → Option String
or_key none b = b
or_key (some a) b = some a

pub record Graph : Type 0 where
  pub nodes : List Node
  pub edges : List Edge

-- The keys of one event.
pub record Keys : Type 0 where
  pub user : Option String
  pub device : Option String
  pub host : Option String
  pub source : Option String
  pub destination : Option String
  pub resource : Option String

unfoldable pub add_nodes : Event → List Node → Keys × List Node
unfolding node
add_nodes e n₀ =
    let (user, n₁) = node "user" e.user e n₀ in
    let (device, n₂) = node "device" (get_device_id e.content) e n₁ in
    let (host, n₃) = node "host" e.host e n₂ in
    let (source, n₄) = node "source_ip" e.source_ip e n₃ in
    let (destination, n₅) = node "destination_ip" (get_destination_ip e.content) e n₄ in
    let (resource, n₆) = node "cloud_resource" (some (get_resource e.content)) e n₅ in
    (
      record {
        user = user;
        device = device;
        host = host;
        source = source;
        destination = destination;
        resource = resource;
      },
      n₆,
    )

unfoldable pub add_edges : Event → Keys → List Edge → List Edge
unfolding edge
add_edges e k edges = edge k.user k.resource "accessed_resource" e 4 (
    edge k.source k.destination "connected_to" e 2 (
      edge (or_key k.host k.device) k.source "used_source_ip" e 3 (
        edge k.user k.host "observed_on_host" e 4
          (edge k.user k.device "authenticated_from_device" e 4 edges))))

unfoldable pub add_events : List Event → Graph → Graph
unfolding add_nodes add_edges
add_events [] g = g
add_events (e ∷ es) g =
    let (k, nodes) = add_nodes e g.nodes in
    add_events es (record { nodes = nodes; edges = add_edges e k g.edges })

unfoldable pub build_correlation_graph : List Event → Graph
unfolding add_events
build_correlation_graph events = add_events events (record { nodes = []; edges = [] })
