-- ===== src/Incidents/Grouping.antt =====
-- src/platform_ops/incidents/grouping.py: one run's failing checks grouped by root cause.
pub mod Roots
pub mod Partition
use data_platform_ops.Prelude.{
  ℕ, zero, suc, String, Bool, true, false, not, ◌&&◌, ◌||◌, Option, none, some, List, [], ◌∷◌, ◌++◌,
  map, contains, length, keep, if◌then◌else◌, Dict, get, put, keys, values, or_default, append_at,
  sorted_set, sort_by, intersection, leb, ltb,
}
use data_platform_ops.Metadata.Graph.{Digraph, Networkx, has_node}
use data_platform_ops.Metadata.Lineage.{nearest_failed_ancestor, upstream}
use data_platform_ops.Incidents.Events.{CheckEvent, event_leb}

pub record Group : Type 0 where
  pub root : String
  pub events : List CheckEvent
  pub failed_nodes : List String
  pub skipped : List String
  pub shared : List String

-- root_of[node]: every failed node has an entry (`Roots`).
abbrev pub root_in : Dict String → String → String
root_in root_of node = or_default node (get node root_of)

pub events_by_root : Dict String → List CheckEvent → Dict (List CheckEvent) → Dict (List CheckEvent)
events_by_root root_of [] found = found
events_by_root root_of (event ∷ events) found =
    events_by_root root_of events (append_at (root_in root_of event.subject) event found)

shared_with : String → Dict (List String) → List String
shared_with root [] = []
shared_with root ((node, roots) ∷ shared) =
    let rest = shared_with root shared in if contains root roots then node ∷ rest else rest

pub group_of : Dict (List CheckEvent) → Dict (List String) → Dict (List String) → String → Group
unfolding shared_with
group_of events_of skipped_of shared root =
    let events = or_default [] (get root events_of) in
    record {
      root = root;
      events = events;
      failed_nodes = sorted_set (map (λ e. e.subject) events);
      skipped = sorted_set (or_default [] (get root skipped_of));
      shared = sorted_set (shared_with root shared);
    }

module _ (nx : Networkx) (g : Digraph) where
  -- nearest_failed_ancestor(graph, node, failed_set) if node in graph else None
  pub parent_of : List String → String → Option String
  parent_of failed node = if has_node g node then nearest_failed_ancestor nx g node failed else none

  -- The recursion of `resolve`, which fills the memo `root_of`. Python's recursion limit is the fuel:
  -- `none` is its exhaustion, which an acyclic graph rules out.
  pub resolve : List String → ℕ → String → Dict String → Option (String × Dict String)
  unfolding parent_of
  resolve failed zero node root_of = none
  resolve failed (suc fuel) node root_of = elim (get node root_of) [
    | some root ↦ some (root, root_of)
    | none ↦ elim (parent_of failed node) [
      | none ↦ some (node, put node node root_of)
      | some parent ↦ elim (resolve failed fuel parent root_of) [
        | none ↦ none
        | some (root, found) ↦ some (root, put node root found)
      ]
    ]
  ]

  pub resolve_all : List String → ℕ → List String → Dict String → Option (Dict String)
  resolve_all failed fuel [] root_of = some root_of
  resolve_all failed fuel (node ∷ nodes) root_of = elim (resolve failed fuel node root_of) [
    | none ↦ none
    | some (root, found) ↦ resolve_all failed fuel nodes found
  ]

  unfoldable pub roots_by_node : List String → Option (Dict String)
  unfolding resolve_all resolve
  roots_by_node failed = resolve_all failed (suc (length failed)) (sorted_set failed) []

  -- A skipped node goes under the root of its nearest failed ancestor.
  skip_node : Dict String → String → Dict (List String) → Dict (List String)
  skip_node root_of node found =
      if contains node (keys root_of) || not (has_node g node)
      then found
      else elim (nearest_failed_ancestor nx g node (keys root_of)) [
        | none ↦ found
        | some parent ↦ append_at (root_in root_of parent) node found
      ]

  pub skipped_by_root : Dict String → List String → Dict (List String) → Dict (List String)
  unfolding skip_node
  skipped_by_root root_of [] found = found
  skipped_by_root root_of (node ∷ nodes) found =
      skipped_by_root root_of nodes (skip_node root_of node found)

  shared_among : Dict String → List String → Dict (List String)
  shared_among root_of [] = []
  shared_among root_of (node ∷ nodes) =
      let roots = sorted_set (values root_of) in
      let above = intersection roots (upstream nx g node) in
      let rest = shared_among root_of nodes in
      if contains node roots || not (has_node g node)
      then rest
      else if ltb 1 (length above)
      then (node, above) ∷ rest
      else rest

  unfoldable pub shared_failures : Dict String → Dict (List String)
  unfolding shared_among upstream
  shared_failures root_of = shared_among root_of (sorted_set (keys root_of))

  pub groups_from : Dict String → List CheckEvent → List String → List Group
  unfolding events_by_root skipped_by_root group_of shared_failures
  groups_from root_of events skipped =
      let events_of = events_by_root root_of events [] in
      let skipped_of = skipped_by_root root_of skipped [] in
      map (group_of events_of skipped_of (shared_failures root_of)) (sorted_set (keys events_of))

  unfoldable pub group_failures : List CheckEvent → List String → Option (List Group)
  unfolding groups_from roots_by_node event_leb
  group_failures events skipped =
      let ordered = sort_by event_leb events in
      elim (roots_by_node (map (λ e. e.subject) ordered)) [
        | none ↦ none
        | some root_of ↦ some (groups_from root_of ordered skipped)
      ]
