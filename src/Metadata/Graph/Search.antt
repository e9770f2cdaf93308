-- ===== src/Metadata/Graph/Search.antt =====
-- A value of `Networkx`: the queries by search over the edges. It shows that the documented
-- behaviour can be met, and runs in the examples.
mod Parents
mod Collect
use mathlib.Core.Bool.{false≢true}
use data_platform_ops.Prelude.{
  ℕ, zero, suc, ◌+◌, ◌≤◌, ◌<◌, String, ◌≡◌, ◌≢◌, refl, sym, ◌∙◌, subst, ◌⊎◌, inl, inr, Bool, true,
  false, List, [], ◌∷◌, ◌++◌, contains, difference, length, length-keep-le, keep, not, ◌&&◌, ◌||◌,
  ◌==◌, arith, Bool-cases, contains-append, contains-keep, eq_iff, eq→path, eq_self, unseen,
  unseen-append-lt, if◌then◌else◌,
}
use data_platform_ops.Metadata.Graph.{
  Digraph, Networkx, Steps, here, up, Edge, contains_edge, has_node,
}
use Parents.{Edges, parents_in, parents_in_sound, parents_in_complete}
use Collect.{above, above_sound, above_complete}

flip_edges : Edges → Edges
flip_edges [] = []
flip_edges ((p, c) ∷ es) = (c, p) ∷ flip_edges es

flip : Digraph → Digraph
unfolding flip_edges
flip g = record { vertices = g.vertices; edges = flip_edges g.edges }

contains_edge-flip :
    (p c : String) (es : Edges) → contains_edge c p (flip_edges es) ≡ contains_edge p c es
unfolding flip_edges
contains_edge-flip p c [] = refl
contains_edge-flip p c ((a, b) ∷ es) = ground (arith, contains_edge-flip p c es)

-- A step below the start of a path.
Steps-down :
    (g : Digraph) (p c n : String) {k : ℕ} → Edge g c p → Steps g c k n → Steps g p (suc k) n
Steps-down g p c n e here = up here e
Steps-down g p c n e (up {c = d} s e') = up (Steps-down g p c d e s) e'

Steps-unflip : (g : Digraph) (n d : String) {k : ℕ} → Steps (flip g) n k d → Steps g d k n
unfolding flip
Steps-unflip g n d here = here
Steps-unflip g n d (up {c = c} s e) =
    Steps-down g d c n (sym (contains_edge-flip c d g.edges) ∙ e) (Steps-unflip g n c s)

Steps-flip : (g : Digraph) (d n : String) {k : ℕ} → Steps g d k n → Steps (flip g) n k d
unfolding flip
Steps-flip g d n here = here
Steps-flip g d n (up {c = c} s e) =
    Steps-down (flip g) n c d (contains_edge-flip n c g.edges ∙ e) (Steps-flip g d c s)

-- The queries of networkx, met by a search.
unfoldable pub by_search : Networkx
unfolding flip flip_edges Steps-unflip Steps-flip Steps-down contains_edge-flip parents_in above
by_search = record {
  predecessors = λ g n. parents_in g.edges n;
  ancestors = λ g n. above g n;
  descendants = λ g n. above (flip g) n;
  predecessors_sound = λ g n p h. parents_in_sound g.edges n p h;
  predecessors_complete = λ g n p _ e. parents_in_complete g.edges n p e;
  ancestors_sound = λ g n a h. above_sound g n a h;
  ancestors_complete = λ g n a {k} _ ne s. above_complete g n a k ne s;
  descendants_sound =
      λ g n d h. let (ne, (k, s)) = above_sound (flip g) n d h in (ne, (k, Steps-unflip g n d s));
  descendants_complete = λ g n d {k} _ ne s. above_complete (flip g) n d k ne (Steps-flip g d n s);
}
