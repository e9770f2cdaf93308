-- ===== src/Metadata/Lineage.antt =====
-- src/platform_ops/metadata/lineage.py: building the graph, and the walks over it.
pub mod Nearest
pub mod Build
use data_platform_ops.Prelude.{
  ℕ, zero, suc, String, Bool, true, false, Option, none, some, List, [], ◌∷◌, ◌++◌, contains,
  difference, intersection, least, length, keep, if◌then◌else◌, Dict, keys, get, or_default,
  sort_by, str_leb, sum_of, not, ◌+◌, sorted_set, ◌==◌,
}
use data_platform_ops.Metadata.Manifest.{Node}
use data_platform_ops.Metadata.Graph.{Vertex, Digraph, Networkx}

vertices_of : Dict Node → List Vertex
vertices_of [] = []
vertices_of ((k, node) ∷ nodes) =
    record { unique_id = node.unique_id; resource_type = node.resource_type } ∷ vertices_of nodes

-- One edge from each parent that is a node itself.
edges_from : Dict Node → String → List String → List (String × String)
edges_from nodes child [] = []
edges_from nodes child (p ∷ ps) =
    let rest = edges_from nodes child ps in
    if contains p (keys nodes) then (p, child) ∷ rest else rest

edges_of : Dict Node → Dict Node → List (String × String)
edges_of all [] = []
edges_of all ((k, node) ∷ nodes) =
    edges_from all node.unique_id node.depends_on ++ edges_of all nodes

unfoldable pub build_graph : Dict Node → Digraph
unfolding vertices_of edges_from edges_of
build_graph nodes = record { vertices = vertices_of nodes; edges = edges_of nodes nodes }

pub data Tier : Type 0 where
  critical important best_effort : Tier

pub record TierWeights : Type 0 where
  pub critical : ℕ
  pub important : ℕ
  pub best_effort : ℕ

unfoldable pub weight : TierWeights → Tier → ℕ
weight w Tier.critical = w.critical
weight w Tier.important = w.important
weight w Tier.best_effort = w.best_effort

pub record Consumer : Type 0 where
  pub unique_id : String
  pub resource_type : String
  pub tier : Tier
  pub weight : ℕ

-- graph.nodes[unique_id]["resource_type"]
unfoldable pub resource_type_of : List Vertex → String → String
resource_type_of [] n = ""
resource_type_of (v ∷ vs) n =
    let rest = resource_type_of vs n in if v.unique_id == n then v.resource_type else rest

consumer_types : List String
consumer_types = "model" ∷ "exposure" ∷ []

module _ (nx : Networkx) where
  unfoldable pub upstream : Digraph → String → List String
  upstream g node = nx.ancestors g node

  unfoldable pub downstream : Digraph → String → List String
  downstream g node = nx.descendants g node

  -- {p for child in frontier for p in graph.predecessors(child)} - seen
  pub above_frontier : Digraph → List String → List String
  above_frontier g [] = []
  above_frontier g (child ∷ frontier) = nx.predecessors g child ++ above_frontier g frontier

  -- One more step of the walk: the parents not yet seen.
  pub new_parents : Digraph → List String → List String → List String
  unfolding above_frontier
  new_parents g frontier seen = difference (above_frontier g frontier) seen

  -- `while frontier:`, on fuel.
  pub nearest_loop : Digraph → List String → ℕ → List String → List String → Option String
  nearest_loop g failed zero frontier seen = none
  nearest_loop g failed (suc fuel) [] seen = none
  nearest_loop g failed (suc fuel) (c ∷ cs) seen =
      let parents = new_parents g (c ∷ cs) seen in
      let rest = nearest_loop g failed fuel parents (seen ++ parents) in
      elim (intersection parents failed) [ [] ↦ rest | h ∷ hs ↦ some (least h hs) ]

  -- Each round sees a vertex that no round saw before, so one round for each vertex and a last one
  -- are enough: see `Nearest`.
  unfoldable pub nearest_failed_ancestor : Digraph → String → List String → Option String
  unfolding nearest_loop new_parents
  nearest_failed_ancestor g node failed =
      nearest_loop g failed (suc (length g.vertices)) (node ∷ []) (node ∷ [])

  consumers_among : Digraph → Dict Tier → TierWeights → Tier → List String → List Consumer
  consumers_among g tier_of weights default [] = []
  consumers_among g tier_of weights default (unique_id ∷ rest) =
      let resource_type = resource_type_of g.vertices unique_id in
      let tier = or_default default (get unique_id tier_of) in
      let others = consumers_among g tier_of weights default rest in
      if contains resource_type consumer_types
      then record {
        unique_id = unique_id;
        resource_type = resource_type;
        tier = tier;
        weight = weight weights tier;
      }
        ∷ others
      else others

  unfoldable pub downstream_consumers :
      Digraph → String → Dict Tier → TierWeights → Tier → List Consumer
  unfolding downstream consumers_among resource_type_of weight consumer_types
  downstream_consumers g node tier_of weights default =
      consumers_among g tier_of weights default (sorted_set (downstream g node))

unfoldable pub consumer_weight : List Consumer → ℕ
consumer_weight consumers = sum_of (λ c. c.weight) consumers
