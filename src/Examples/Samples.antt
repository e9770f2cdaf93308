-- ===== src/Examples/Samples.antt =====
-- A project of three nodes, two teams and three rules, read by src/platform_ops/metadata and src/platform_ops/incidents.
use data_platform_ops.Prelude.{
  ℕ, ◌<◌, String, Bool, true, ◌&&◌, none, List, [], ◌∷◌, Dict, ◌==◌, ◌≡◌, ◌⊎◌, refl, sym, subst,
  arith, eq→path, inl, inr, if◌then◌else◌,
}
use data_platform_ops.Metadata.Manifest.{Node}
use data_platform_ops.Metadata.Graph.{Edge, IsClosed}
use data_platform_ops.Metadata.Lineage.{build_graph, Tier}
use data_platform_ops.Metadata.Lineage.Build.{IsKeyed, build_graph-IsClosed}
use data_platform_ops.Metadata.Registry.{DatasetRule, Registry}
use data_platform_ops.Incidents.Grouping.Roots.{IsAcyclic}

abbrev pub node_of : String → String → List String → Node
node_of unique_id resource_type depends_on = record {
  unique_id = unique_id;
  resource_type = resource_type;
  name = unique_id;
  depends_on = depends_on;
  owner_name = none;
  package_name = "shop";
  relation = unique_id;
  attached_node = none;
  test_columns = [];
  path = "models/orders.sql";
}

abbrev pub raw_id : String
raw_id = "source.raw"

abbrev pub stg_id : String
stg_id = "model.stg"

abbrev pub mart_id : String
mart_id = "model.mart"

abbrev pub nodes : Dict Node
nodes =
    (raw_id, node_of raw_id "source" [])
    ∷ (stg_id, node_of stg_id "model" (raw_id ∷ []))
    ∷ (mart_id, node_of mart_id "model" (stg_id ∷ []))
    ∷ []

pub nodes-IsKeyed : IsKeyed nodes
nodes-IsKeyed = record { own = (refl, (refl, (refl, tt))); distinct = (refl, (refl, (refl, tt))) }

pub graph-IsClosed : IsClosed (build_graph nodes)
graph-IsClosed = build_graph-IsClosed nodes nodes-IsKeyed

abbrev level : String → ℕ
level s = if s == raw_id then 0 else if s == stg_id then 1 else 2

two_arrows :
    (p c : String)
    → Edge (build_graph nodes) p c
    → (((p == raw_id) && (c == stg_id)) ≡ true) ⊎ (((p == stg_id) && (c == mart_id)) ≡ true)
unfolding build_graph
two_arrows p c e = ground (arith, e)

level-grows : (p c : String) → Edge (build_graph nodes) p c → level p < level c
level-grows p c e = elim (two_arrows p c e) [
  | inl h ↦ grows_at p c raw_id stg_id (ground arith) (ground arith) (omega arith)
  | inr h ↦ grows_at p c stg_id mart_id (ground arith) (ground arith) (omega arith)
]
  where
    grows_at :
        (p c a b : String)
        → (p == a) ≡ true
        → (c == b) ≡ true
        → level a < level b
        → level p < level c
    grows_at p c a b ha hb h =
        subst (λ x. level x < level c) (sym (eq→path p a ha))
          (subst (λ y. level a < level y) (sym (eq→path c b hb)) h)

pub graph-IsAcyclic : IsAcyclic (build_graph nodes)
graph-IsAcyclic = record { rank = level; grows = level-grows }

abbrev pub rule_of : String → String → DatasetRule
rule_of pattern owner = record {
  pattern = pattern;
  owner = owner;
  team = "data";
  tier = Tier.critical;
  backup = none;
}

-- Patterns that are plain ids match themselves.
abbrev pub same_text : String → String → Bool
same_text unique_id pattern = unique_id == pattern

abbrev pub registry : Registry
registry = record {
  teams = ("data", record { id = "data"; members = "ana" ∷ "bo" ∷ [] }) ∷ [];
  rules = rule_of raw_id "ana" ∷ rule_of stg_id "bo" ∷ rule_of mart_id "ana" ∷ [];
}
