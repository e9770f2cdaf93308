-- ===== src/Metadata/Lineage/Build.antt =====
-- `build_graph` of src/platform_ops/metadata/lineage.py: which edges it has.
use mathlib.Core.Bool.{false≢true}
use data_platform_ops.Prelude.{
  String, ◌≡◌, refl, sym, ap, ◌∙◌, subst, ◌↔◌, inl, inr, true, false, ◌&&◌, ◌||◌, some, List, [],
  ◌∷◌, ◌++◌, contains, All, arith, Bool-cases, Dict, get, keys, eq_iff, eq→path, ◌==◌, Distinct,
}
use data_platform_ops.Metadata.Manifest.{Node}
use data_platform_ops.Metadata.Graph.{Edge, contains_edge, ids, IsClosed}
use data_platform_ops.Metadata.Lineage.{vertices_of, edges_from, edges_of, build_graph}

-- Nodes under their own unique ids, as `load_manifest` stores them.
pub record IsKeyed (nodes : Dict Node) : Type 0 where
  pub own : All (λ kv. kv.0 ≡ kv.1.unique_id) nodes
  pub distinct : Distinct (keys nodes)

-- `c` is a node that depends on the node `p`.
pub record DependsOn (nodes : Dict Node) (p c : String) : Type 0 where
  pub node : Node
  pub stored : get c nodes ≡ some node
  pub listed : contains p node.depends_on ≡ true
  pub known : contains p (keys nodes) ≡ true

contains_edge-append :
    (p c : String) (xs ys : List (String × String))
    → contains_edge p c (xs ++ ys) ≡ (contains_edge p c xs || contains_edge p c ys)
contains_edge-append p c [] ys = refl
contains_edge-append p c ((a, b) ∷ xs) ys = ground (arith, contains_edge-append p c xs ys)

edges_from_lem :
    (nodes : Dict Node) (child : String) (ps : List String) (p c : String)
    → contains_edge p c (edges_from nodes child ps)
      ≡ ((c == child) && (contains p ps && contains p (keys nodes)))
unfolding edges_from
edges_from_lem nodes child [] p c = ground arith
edges_from_lem nodes child (q ∷ ps) p c = elim (Bool-cases (p == q)) [
  | inl e ↦
      let same = ap (λ x. contains x (keys nodes)) (eq→path p q e) in
      ground (arith, edges_from_lem nodes child ps p c)
  | inr ne ↦ ground (arith, edges_from_lem nodes child ps p c)
]

get-keys {ℓ} :
    {V : Type ℓ} (m : Dict V) (k : String) (v : V) → get k m ≡ some v → contains k (keys m) ≡ true
unfolding get
get-keys [] k v e = cc
get-keys ((j, w) ∷ m) k v e = ground (arith, eq_iff j k, eq_iff k j, get-keys m k v)

ids-keys :
    (nodes : Dict Node) (x : String)
    → All (λ kv. kv.0 ≡ kv.1.unique_id) nodes
    → contains x (ids (vertices_of nodes)) ≡ contains x (keys nodes)
unfolding vertices_of
ids-keys [] x own = refl
ids-keys ((k, n) ∷ nodes) x own =
    let same = ap (λ y. x == y) own.0 in ground (arith, ids-keys nodes x own.1)

edges_of_sound :
    (all nodes : Dict Node) (p c : String)
    → All (λ kv. kv.0 ≡ kv.1.unique_id) nodes
    → Distinct (keys nodes)
    → contains_edge p c (edges_of all nodes) ≡ true
    → (node : Node) × (get c nodes ≡ some node)
      × (contains p node.depends_on ≡ true)
      × (contains p (keys all) ≡ true)
unfolding edges_of get
edges_of_sound all [] p c own d e = absurd (false≢true e)
edges_of_sound all ((k, n) ∷ nodes) p c own d e =
    elim (Bool-cases (contains_edge p c (edges_from all n.unique_id n.depends_on))) [
      | inl direct ↦
          let split = edges_from_lem all n.unique_id n.depends_on p c in
          let at_n : (c == n.unique_id) ≡ true = ground arith in
          let key : k ≡ c = own.0 ∙ sym (eq→path c n.unique_id at_n) in
          (n, ground (arith, eq_iff k c), ground arith, ground arith)
      | inr other ↦
          let both =
            contains_edge-append p c (edges_from all n.unique_id n.depends_on)
              (edges_of all nodes) in
          let rest : contains_edge p c (edges_of all nodes) ≡ true = ground arith in
          let (m, found, listed, known) = edges_of_sound all nodes p c own.1 d.1 rest in
          let below = get-keys nodes c m found in
          let apart : (k == c) ≡ false = elim (Bool-cases (k == c)) [
            | inl e' ↦ absurd (
                false≢true (
                  sym d.0
                  ∙ subst (λ x. contains x (keys nodes) ≡ true) (sym (eq→path k c e')) below))
            | inr ne ↦ ne
          ] in
          (m, ground arith, listed, known)
    ]

edges_of_complete :
    (all nodes : Dict Node) (p c : String) (node : Node)
    → All (λ kv. kv.0 ≡ kv.1.unique_id) nodes
    → get c nodes ≡ some node
    → contains p node.depends_on ≡ true
    → contains p (keys all) ≡ true
    → contains_edge p c (edges_of all nodes) ≡ true
unfolding edges_of get
edges_of_complete all [] p c node own found listed known = cc
edges_of_complete all ((k, n) ∷ nodes) p c node own found listed known =
    let both =
      contains_edge-append p c (edges_from all n.unique_id n.depends_on) (edges_of all nodes) in
    elim (Bool-cases (k == c)) [
      | inl e ↦
          let same : some n ≡ some node = ground arith in
          let split = edges_from_lem all n.unique_id n.depends_on p c in
          let at_c : c ≡ n.unique_id = sym (eq→path k c e) ∙ own.0 in
          let listed_n : contains p n.depends_on ≡ true = ground arith in
          ground (arith, eq_iff c n.unique_id)
      | inr ne ↦
          let later : get c nodes ≡ some node = (unfold get in ground arith) in
          let rest = edges_of_complete all nodes p c node own.1 later listed known in ground arith
    ]

-- Where every node is stored once, under its unique id, the graph has an edge from `p` to `c` exactly when the
-- node `c` lists `p` and `p` is a node.
pub Edge-build_graph :
    (nodes : Dict Node) (p c : String)
    → IsKeyed nodes
    → Edge (build_graph nodes) p c ↔ DependsOn nodes p c
unfolding build_graph
Edge-build_graph nodes p c keyed = (
  λ e.
      let (node, stored, listed, known) =
        edges_of_sound nodes nodes p c keyed.own keyed.distinct e in
      record { node = node; stored = stored; listed = listed; known = known },
  λ d. edges_of_complete nodes nodes p c d.node keyed.own d.stored d.listed d.known,
)

-- Where every node is stored once, under its unique id, no edge has an end that is not a node.
pub build_graph-IsClosed : (nodes : Dict Node) → IsKeyed nodes → IsClosed (build_graph nodes)
unfolding build_graph
build_graph-IsClosed nodes keyed = record {
  parent = λ p c e.
      let d = (Edge-build_graph nodes p c keyed).0 e in ids-keys nodes p keyed.own ∙ d.known;
  child = λ p c e.
      let d = (Edge-build_graph nodes p c keyed).0 e in
      ids-keys nodes c keyed.own ∙ get-keys nodes c d.node d.stored;
}
