-- ===== src/Examples/Lineage.antt =====
-- Instances of what is proved of src/platform_ops/metadata/lineage.py and src/platform_ops/incidents/grouping.py.
use data_platform_ops.Prelude.{String, some, List, [], ◌∷◌, Dict, ◌≡◌, ◌↔◌, refl}
use data_platform_ops.Metadata.Graph.{Edge}
use data_platform_ops.Metadata.Graph.Search.{by_search}
use data_platform_ops.Metadata.Lineage.{build_graph, nearest_failed_ancestor}
use data_platform_ops.Metadata.Lineage.Build.{DependsOn, Edge-build_graph}
use data_platform_ops.Metadata.Lineage.Nearest.{NearestOr, nearest_failed_ancestor-NearestOr}
use data_platform_ops.Incidents.Events.{CheckEvent}
use data_platform_ops.Incidents.Grouping.{Group, roots_by_node, group_failures}
use data_platform_ops.Incidents.Grouping.Roots.{MapsToRoots, roots_by_node-MapsToRoots}
use data_platform_ops.Incidents.Grouping.Partition.{IsPartition, group_failures-IsPartition}
use data_platform_ops.Examples.Samples.{
  raw_id, stg_id, mart_id, nodes, nodes-IsKeyed, graph-IsClosed, graph-IsAcyclic,
}

Edge-build_graph_example : Edge (build_graph nodes) raw_id stg_id ↔ DependsOn nodes raw_id stg_id
Edge-build_graph_example = Edge-build_graph nodes raw_id stg_id nodes-IsKeyed

nearest_failed_ancestor-NearestOr_example :
    NearestOr
      (build_graph nodes)
      mart_id
      (raw_id ∷ stg_id ∷ [])
      (nearest_failed_ancestor by_search (build_graph nodes) mart_id (raw_id ∷ stg_id ∷ []))
unfolding build_graph
nearest_failed_ancestor-NearestOr_example =
    nearest_failed_ancestor-NearestOr by_search (build_graph nodes) mart_id (raw_id ∷ stg_id ∷ [])
      graph-IsClosed refl

roots_by_node-MapsToRoots_example :
    (root_of : Dict String) × (roots_by_node by_search (build_graph nodes) (stg_id ∷ mart_id ∷ [])
      ≡ some root_of)
    × MapsToRoots (build_graph nodes) (stg_id ∷ mart_id ∷ []) root_of
roots_by_node-MapsToRoots_example =
    roots_by_node-MapsToRoots by_search (build_graph nodes) (stg_id ∷ mart_id ∷ []) graph-IsClosed
      graph-IsAcyclic

abbrev failure_of : String → CheckEvent
failure_of subject = record {
  run_id = "run-1";
  check_id = subject;
  check_type = "model";
  subject = subject;
  status = "error";
  message = "failed";
  detected_at = 60;
}

group_failures-IsPartition_example :
    (groups : List Group) × (group_failures by_search
        (build_graph nodes)
        (failure_of stg_id ∷ failure_of mart_id ∷ [])
        []
      ≡ some groups)
    × IsPartition (build_graph nodes) (failure_of stg_id ∷ failure_of mart_id ∷ []) groups
group_failures-IsPartition_example =
    group_failures-IsPartition by_search (build_graph nodes)
      (failure_of stg_id ∷ failure_of mart_id ∷ []) [] graph-IsClosed graph-IsAcyclic
