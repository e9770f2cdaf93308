-- ===== src/Incidents/Desk/Context.antt =====
-- `Context` of src/platform_ops/incidents/desk.py, and what a run says about a root: `_healthy`, `_covered`, `_above`.
use data_platform_ops.Prelude.{
  String, Bool, true, false, not, ◌&&◌, ◌||◌, Option, none, some, List, [], ◌∷◌, contains, all_of,
  if◌then◌else◌, Dict, get, put, keys, or_default, ◌==◌, startswith, append_at,
}
use data_platform_ops.Metadata.Manifest.{Node}
use data_platform_ops.Metadata.Graph.{Digraph, Networkx, has_node}
use data_platform_ops.Metadata.Lineage.{Tier, build_graph}
use data_platform_ops.Metadata.Registry.{Registry, resolve}
use data_platform_ops.Incidents.Policy.{IncidentPolicy, dataset_of}
use data_platform_ops.Incidents.Routing.{ColumnLineage}
use data_platform_ops.Incidents.Ingest.{test_subject}

abbrev pub healthy_freshness : List String
healthy_freshness = "pass" ∷ "warn" ∷ []

pub record Context : Type 0 where
  pub nodes : Dict Node
  pub graph : Digraph
  pub registry : Registry
  pub policy : IncidentPolicy
  pub tier_of : Dict Tier
  pub tests_of : Dict (List String)
  pub lineage : Option ColumnLineage

module _ (fnmatchcase : String → String → Bool) where
  tiers : Registry → List String → Dict Tier → Dict Tier
  tiers registry [] tier_of = tier_of
  tiers registry (unique_id ∷ ids) tier_of =
      tiers registry ids (elim (resolve fnmatchcase registry unique_id).rule [
        | none ↦ tier_of
        | some rule ↦ put unique_id rule.tier tier_of
      ])

-- node.attached_node or test_subject(node)
subject_of : Node → Option String → String
subject_of node none = test_subject node
subject_of node (some n) = if n == "" then test_subject node else n

tests_among : Dict Node → Dict (List String) → Dict (List String)
unfolding subject_of
tests_among [] tests = tests
tests_among ((unique_id, node) ∷ nodes) tests =
    let subject = subject_of node node.attached_node in
    tests_among nodes (
      if node.resource_type == "test" && not (subject == unique_id)
      then append_at subject unique_id tests
      else tests)

-- `Context.load`, from the manifest's nodes, the registry and the policy that it reads.
unfoldable pub load :
    (String → String → Bool)
    → Dict Node
    → Registry
    → IncidentPolicy
    → Option ColumnLineage
    → Context
unfolding tiers tests_among
load fnmatchcase nodes registry policy lineage = record {
  nodes = nodes;
  graph = build_graph nodes;
  registry = registry;
  policy = policy;
  tier_of = tiers fnmatchcase registry (keys nodes) [];
  tests_of = tests_among nodes [];
  lineage = lineage;
}

-- [statuses[t] for t in tests if t in statuses]
ran_among : Dict String → List String → List String
ran_among statuses [] = []
ran_among statuses (t ∷ ts) =
    let rest = ran_among statuses ts in
    elim (get t statuses) [ none ↦ rest | some status ↦ status ∷ rest ]

is_empty {ℓ} : {A : Type ℓ} → List A → Bool
is_empty [] = true
is_empty (x ∷ xs) = false

-- At least one of the tests ran, if there are any, and all that ran passed.
unfoldable pub tests_pass : Dict String → List String → Bool
unfolding ran_among is_empty
tests_pass statuses tests =
    let ran = ran_among statuses tests in
    (is_empty tests || not (is_empty ran)) && all_of (λ status. status == "pass") ran

unfoldable pub status_is : String → Option String → Bool
status_is wanted none = false
status_is wanted (some status) = status == wanted

unfoldable pub status_in : List String → Option String → Bool
status_in wanted none = false
status_in wanted (some status) = contains status wanted

-- Did this run cover the root and find it healthy?
unfoldable pub healthy : String → Context → Dict String → Bool
unfolding tests_pass status_is status_in
healthy root context statuses =
    let dataset = dataset_of root context.nodes in
    let tests = or_default [] (get dataset context.tests_of) in
    if startswith root "source."
    then status_in healthy_freshness (get root statuses) && tests_pass statuses tests
    else if startswith root "test."
    then status_is "pass" (get root statuses)
    else status_is "success" (get dataset statuses) && tests_pass statuses tests

-- Did this run check the root at all?
unfoldable pub covered : String → Context → Dict String → Bool
covered root context statuses =
    contains root (keys statuses) || contains (dataset_of root context.nodes) (keys statuses)

unfoldable pub above : Networkx → Digraph → String → List String
above nx graph node = if has_node graph node then nx.ancestors graph node else []
