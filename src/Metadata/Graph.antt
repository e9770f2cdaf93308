-- ===== src/Metadata/Graph.antt =====
-- The lineage graph of src/platform_ops/metadata/lineage.py, an `nx.DiGraph`, and what the code asks of
-- networkx. networkx is not part of the repository: its queries are the parameter `Networkx`.
pub mod Search
use data_platform_ops.Prelude.{
  ℕ, zero, suc, String, ◌≡◌, ◌≢◌, Bool, true, false, ◌&&◌, ◌||◌, List, [], ◌∷◌, contains, map, ◌==◌,
}

-- A vertex and its `resource_type` label.
pub record Vertex : Type 0 where
  pub unique_id : String
  pub resource_type : String

pub record Digraph : Type 0 where
  pub vertices : List Vertex
  pub edges : List (String × String)

abbrev pub ids : List Vertex → List String
ids [] = []
ids (v ∷ vs) = v.unique_id ∷ ids vs

-- node in graph
abbrev pub has_node : Digraph → String → Bool
has_node g n = contains n (ids g.vertices)

abbrev pub contains_edge : String → String → List (String × String) → Bool
contains_edge p c [] = false
contains_edge p c ((a, b) ∷ es) = ((p == a) && (c == b)) || contains_edge p c es

abbrev pub Edge : Digraph → String → String → Type 0
Edge g p c = contains_edge p c g.edges ≡ true

-- `Steps g n k a`: `a` is reached from `n` by going up `k` edges.
pub data Steps (g : Digraph) (n : String) : ℕ → String → Type 0 where
  here : Steps g n zero n
  up : {k : ℕ} {c p : String} → Steps g n k c → Edge g p c → Steps g n (suc k) p

-- Both ends of an edge are vertices, as networkx keeps them.
pub record IsClosed (g : Digraph) : Type 0 where
  pub parent : (p c : String) → Edge g p c → has_node g p ≡ true
  pub child : (p c : String) → Edge g p c → has_node g c ≡ true

-- The documented queries of networkx, each asked of a node of the graph only.
pub record Networkx : Type 0 where
  pub predecessors : Digraph → String → List String
  pub ancestors : Digraph → String → List String
  pub descendants : Digraph → String → List String
  pub predecessors_sound :
      (g : Digraph) (n p : String) → contains p (predecessors g n) ≡ true → Edge g p n
  pub predecessors_complete :
      (g : Digraph) (n p : String)
      → has_node g n ≡ true
      → Edge g p n
      → contains p (predecessors g n) ≡ true
  pub ancestors_sound :
      (g : Digraph) (n a : String)
      → contains a (ancestors g n) ≡ true
      → (a ≢ n) × ((k : ℕ) × Steps g n k a)
  pub ancestors_complete :
      (g : Digraph) (n a : String) {k : ℕ}
      → has_node g n ≡ true
      → a ≢ n
      → Steps g n k a
      → contains a (ancestors g n) ≡ true
  pub descendants_sound :
      (g : Digraph) (n d : String)
      → contains d (descendants g n) ≡ true
      → (d ≢ n) × ((k : ℕ) × Steps g d k n)
  pub descendants_complete :
      (g : Digraph) (n d : String) {k : ℕ}
      → has_node g n ≡ true
      → d ≢ n
      → Steps g d k n
      → contains d (descendants g n) ≡ true
