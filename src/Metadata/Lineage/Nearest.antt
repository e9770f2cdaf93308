-- ===== src/Metadata/Lineage/Nearest.antt =====
-- `nearest_failed_ancestor` of src/platform_ops/metadata/lineage.py against paths in the graph.
mod Rounds
pub use Rounds.{IsNearest, NearestOr}
use mathlib.Core.Bool.{false≢true}
use data_platform_ops.Prelude.{
  ℕ, zero, suc, ◌+◌, ◌≤◌, ◌<◌, String, ◌≡◌, ◌≢◌, refl, ap, sym, subst, ◌⊎◌, inl, inr, Bool, true,
  false, Option, none, some, List, [], ◌∷◌, ◌++◌, contains, difference, intersection, least,
  least-mem, least-le, length, keep, not, ◌&&◌, ◌||◌, ◌==◌, str_leb, arith, Bool-cases,
  contains-append, contains-keep, eq_iff, eq→path, eq_self, unseen, unseen-append-lt,
}
use data_platform_ops.Metadata.Graph.{
  Vertex, ids, Digraph, Networkx, Steps, here, up, Edge, IsClosed, has_node,
}
use data_platform_ops.Metadata.Lineage.{
  above_frontier, new_parents, nearest_loop, nearest_failed_ancestor,
}
use Rounds.{
  Walk, Steps-has_node, parents, parents_split, parent-exact, Walk-next, hit-IsNearest, all_seen,
}

unseen-le-length : (vs : List Vertex) (seen : List String) → unseen (ids vs) seen ≤ length vs
unseen-le-length [] seen = omega arith
unseen-le-length (v ∷ vs) seen = ground (arith, unseen-le-length vs seen)

module _ (nx : Networkx) (g : Digraph) (closed : IsClosed g) (node : String)
    (in_graph : has_node g node ≡ true) (failed : List String) where
  abbrev Frontier : ℕ → List String → List String → Type 0
  Frontier k frontier seen = Walk nx g closed node in_graph failed k frontier seen

  -- A round that goes on has seen one more vertex.
  fewer_unseen :
      (k fuel : ℕ) (frontier seen : List String)
      → Frontier k frontier seen
      → unseen (ids g.vertices) seen < suc fuel
      → (xs : List String)
      → ((x : String) → contains x xs ≡ true → contains x (new_parents nx g frontier seen) ≡ true)
      → (xs ≡ []) ⊎ (unseen (ids g.vertices) (seen ++ new_parents nx g frontier seen) < fuel)
  fewer_unseen k fuel frontier seen w m [] sub = inl refl
  fewer_unseen k fuel frontier seen w m (x ∷ xs) sub =
      let ps = new_parents nx g frontier seen in
      let m_x : contains x ps ≡ true = sub x (ground (arith, eq_self x)) in
      let exact = parent-exact nx g closed node in_graph failed k frontier seen w x m_x in
      let known = Steps-has_node nx g closed node in_graph failed (suc k) x exact in
      let fresh : contains x seen ≡ false =
        ground (arith, parents_split nx g closed node in_graph failed k frontier seen w x) in
      let lt = unseen-append-lt (ids g.vertices) seen ps x known fresh m_x in
      inr (omega (arith, lt))

  nearest_loop-NearestOr :
      (fuel k : ℕ) (frontier seen : List String)
      → Frontier k frontier seen
      → (frontier ≡ []) ⊎ (unseen (ids g.vertices) seen < fuel)
      → NearestOr g node failed (nearest_loop nx g failed fuel frontier seen)
  unfolding nearest_loop
  nearest_loop-NearestOr zero k [] seen w m =
      λ j f s fails. w.healthy f (all_seen nx g closed node in_graph failed k seen w j f s) fails
  nearest_loop-NearestOr zero k (c ∷ cs) seen w m = absurd (ground arith)
  nearest_loop-NearestOr (suc fuel) k [] seen w m =
      λ j f s fails. w.healthy f (all_seen nx g closed node in_graph failed k seen w j f s) fails
  nearest_loop-NearestOr (suc fuel) k (c ∷ cs) seen w m =
      let ps = new_parents nx g (c ∷ cs) seen in
      let left : unseen (ids g.vertices) seen < suc fuel = ground arith in
      go (intersection ps failed) refl (nearest_loop-NearestOr fuel (suc k) ps (seen ++ ps))
        (fewer_unseen k fuel (c ∷ cs) seen w left ps (λ x h. h))
    where
      go :
          (hits : List String)
          → intersection (new_parents nx g (c ∷ cs) seen) failed ≡ hits
          → (Frontier
                (suc k)
                (new_parents nx g (c ∷ cs) seen)
                (seen ++ new_parents nx g (c ∷ cs) seen)
              → (new_parents nx g (c ∷ cs) seen ≡ [])
                ⊎ (unseen (ids g.vertices) (seen ++ new_parents nx g (c ∷ cs) seen) < fuel)
              → NearestOr g node failed (
                  nearest_loop nx g failed fuel
                    (new_parents nx g (c ∷ cs) seen)
                    (seen ++ new_parents nx g (c ∷ cs) seen)))
          → (new_parents nx g (c ∷ cs) seen ≡ [])
            ⊎ (unseen (ids g.vertices) (seen ++ new_parents nx g (c ∷ cs) seen) < fuel)
          → NearestOr g node failed (elim hits [
            | [] ↦
                nearest_loop nx g failed fuel
                  (new_parents nx g (c ∷ cs) seen)
                  (seen ++ new_parents nx g (c ∷ cs) seen)
            | h ∷ hs ↦ some (least h hs)
          ])
      go [] e later more =
          later (Walk-next nx g closed node in_graph failed k (c ∷ cs) seen w e) more
      go (h ∷ hs) e later more =
          hit-IsNearest nx g closed node in_graph failed k (c ∷ cs) seen w h hs e

  -- The start: the node alone, at distance 0, when it is no failed node's ancestor yet.
  Walk-start : Frontier zero (node ∷ []) (node ∷ [])
  Walk-start = record {
    start = ground (arith, eq_self node);
    frontier_seen = λ p h. h;
    exact = λ p h. subst (λ q. Steps g node zero q) (sym (eq→path p node (ground arith))) here;
    short = λ j p h s. short_start j p h s;
    settled = λ c p s n e. absurd (ground arith);
    healthy = λ p s f. eq→path p node (ground arith);
  }
    where
      short_start :
          (j : ℕ) (p : String) → j ≤ zero → Steps g node j p → contains p (node ∷ []) ≡ true
      short_start zero p h here = ground (arith, eq_self node)
      short_start (suc j) p h s = absurd (omega arith)

-- For a node of a closed graph, the answer is the closest failed ancestor, the least unique id among those as
-- close; there is none exactly when nothing above the node failed.
pub nearest_failed_ancestor-NearestOr :
    (nx : Networkx) (g : Digraph) (node : String) (failed : List String)
    → IsClosed g
    → has_node g node ≡ true
    → NearestOr g node failed (nearest_failed_ancestor nx g node failed)
unfolding nearest_failed_ancestor
nearest_failed_ancestor-NearestOr nx g node failed closed in_graph =
    nearest_loop-NearestOr nx g closed node in_graph failed (suc (length g.vertices)) zero
      (node ∷ []) (node ∷ []) (Walk-start nx g closed node in_graph failed)
      (inr (omega (arith, unseen-le-length g.vertices (node ∷ []))))
