-- ===== src/Metadata/Lineage/Nearest/Rounds.antt =====
-- The rounds of `nearest_failed_ancestor` and what holds after each of them.
use mathlib.Core.Bool.{false≢true}
use data_platform_ops.Prelude.{
  ℕ, zero, suc, ◌≤◌, String, ◌≡◌, ◌≢◌, refl, ap, sym, subst, inl, inr, true, false, Option, none,
  some, List, [], ◌∷◌, ◌++◌, contains, intersection, least, least-mem, least-le, not, ◌&&◌, ◌==◌,
  str_leb, arith, Bool-cases, contains-append, contains-keep, eq→path, eq_self,
}
use data_platform_ops.Metadata.Graph.{Digraph, Networkx, Steps, here, up, Edge, IsClosed, has_node}
use data_platform_ops.Metadata.Lineage.{above_frontier, new_parents}

-- The closest failed node above `node`, `k` edges up, and the least of those that are as close.
pub record IsNearest (g : Digraph) (node : String) (failed : List String) (h : String)
    : Type 0 where
  pub is_failed : contains h failed ≡ true
  pub is_other : h ≢ node
  pub distance : ℕ
  pub path : Steps g node distance h
  pub closest :
      (j : ℕ) (f : String) → Steps g node j f → contains f failed ≡ true → f ≢ node → distance ≤ j
  pub first :
      (f : String)
      → Steps g node distance f
      → contains f failed ≡ true
      → f ≢ node
      → str_leb h f ≡ true

abbrev pub NearestOr : Digraph → String → List String → Option String → Type 0
NearestOr g node failed none =
    (j : ℕ) (f : String) → Steps g node j f → contains f failed ≡ true → f ≡ node
NearestOr g node failed (some h) = IsNearest g node failed h

module _ (nx : Networkx) (g : Digraph) (closed : IsClosed g) (node : String)
    (in_graph : has_node g node ≡ true) (failed : List String) where
  pub Steps-has_node : (k : ℕ) (p : String) → Steps g node k p → has_node g p ≡ true
  Steps-has_node k p here = in_graph
  Steps-has_node k p (up {c = c} s e) = closed.parent p c e

  above_frontier_sound :
      (frontier : List String) (p : String)
      → contains p (above_frontier nx g frontier) ≡ true
      → (c : String) × (contains c frontier ≡ true) × Edge g p c
  unfolding above_frontier
  above_frontier_sound [] p h = absurd (false≢true h)
  above_frontier_sound (c ∷ cs) p h = elim (Bool-cases (contains p (nx.predecessors g c))) [
    | inl direct ↦ (c, ground (arith, eq_self c), nx.predecessors_sound g c p direct)
    | inr other ↦
        let rest : contains p (above_frontier nx g cs) ≡ true =
          ground (arith, contains-append p (nx.predecessors g c) (above_frontier nx g cs)) in
        let (d, m, e) = above_frontier_sound cs p rest in (d, ground arith, e)
  ]

  above_frontier_complete :
      (frontier : List String) (p c : String)
      → contains c frontier ≡ true
      → has_node g c ≡ true
      → Edge g p c
      → contains p (above_frontier nx g frontier) ≡ true
  unfolding above_frontier
  above_frontier_complete [] p c h n e = absurd (false≢true h)
  above_frontier_complete (d ∷ ds) p c h n e = elim (Bool-cases (c == d)) [
    | inl same ↦
        let c≡d = eq→path c d same in
        let found : contains p (nx.predecessors g d) ≡ true =
          subst (λ x. contains p (nx.predecessors g x) ≡ true) c≡d
            (nx.predecessors_complete g c p n e) in
        ground (arith, contains-append p (nx.predecessors g d) (above_frontier nx g ds))
    | inr other ↦
        let rest : contains c ds ≡ true = ground arith in
        let ih = above_frontier_complete ds p c rest n e in
        ground (arith, contains-append p (nx.predecessors g d) (above_frontier nx g ds))
  ]

  -- The walk after `k` rounds.
  pub record Walk (k : ℕ) (frontier seen : List String) : Type 0 where
    pub start : contains node seen ≡ true
    pub frontier_seen : (p : String) → contains p frontier ≡ true → contains p seen ≡ true
    pub exact : (p : String) → contains p frontier ≡ true → Steps g node k p
    pub short : (j : ℕ) (p : String) → j ≤ k → Steps g node j p → contains p seen ≡ true
    pub settled :
        (c p : String)
        → contains c seen ≡ true
        → contains c frontier ≡ false
        → Edge g p c
        → contains p seen ≡ true
    pub healthy : (p : String) → contains p seen ≡ true → contains p failed ≡ true → p ≡ node

  module _ (k : ℕ) (frontier seen : List String) (w : Walk k frontier seen) where
    abbrev pub parents : List String
    parents = new_parents nx g frontier seen

    pub parents_split :
        (p : String)
        → contains p parents ≡ (contains p (above_frontier nx g frontier) && not (contains p seen))
    unfolding new_parents
    parents_split p = contains-keep (λ x. not (contains x seen)) p (above_frontier nx g frontier)

    pub parent-exact : (p : String) → contains p parents ≡ true → Steps g node (suc k) p
    parent-exact p h =
        let above : contains p (above_frontier nx g frontier) ≡ true =
          ground (arith, parents_split p) in
        let (c, m, e) = above_frontier_sound frontier p above in up (w.exact c m) e

    -- A parent of a seen node is seen once the round is over.
    parent-seen :
        (c p : String)
        → contains c seen ≡ true
        → has_node g c ≡ true
        → Edge g p c
        → contains p (seen ++ parents) ≡ true
    parent-seen c p s n e = elim (Bool-cases (contains c frontier)) [
      | inl now ↦
          let above = above_frontier_complete frontier p c now n e in
          ground (arith, contains-append p seen parents, parents_split p)
      | inr before ↦
          let old = w.settled c p s before e in ground (arith, contains-append p seen parents)
    ]

    short-next :
        (j : ℕ) (p : String) → j ≤ suc k → Steps g node j p → contains p (seen ++ parents) ≡ true
    short-next zero p h here = ground (arith, contains-append node seen parents, w.start)
    short-next (suc j) p h (up {c = c} s e) =
        parent-seen c p (w.short j c (omega arith) s) (Steps-has_node j c s) e

    settled-next :
        (c p : String)
        → contains c (seen ++ parents) ≡ true
        → contains c parents ≡ false
        → Edge g p c
        → contains p (seen ++ parents) ≡ true
    settled-next c p s n e =
        parent-seen c p (ground (arith, contains-append c seen parents)) (closed.child p c e) e

    no_hit :
        intersection parents failed ≡ []
        → (p : String) → contains p parents ≡ true
        → contains p failed ≡ true
        → p ≡ node
    no_hit none_hit p m f = absurd (
        false≢true (
          let split = contains-keep (λ x. contains x failed) p parents in
          let empty : contains p (intersection parents failed) ≡ false = ap (contains p) none_hit in
          ground arith))

    pub Walk-next : intersection parents failed ≡ [] → Walk (suc k) parents (seen ++ parents)
    Walk-next none_hit = record {
      start = ground (arith, contains-append node seen parents, w.start);
      frontier_seen = λ p h. ground (arith, contains-append p seen parents);
      exact = parent-exact;
      short = short-next;
      settled = settled-next;
      healthy = λ p s f. elim (Bool-cases (contains p parents)) [
        | inl new ↦ no_hit none_hit p new f
        | inr old ↦ w.healthy p (ground (arith, contains-append p seen parents)) f
      ];
    }

    -- A failed node other than the start is not seen, so it is at least a round away.
    not-seen : (f : String) → contains f failed ≡ true → f ≢ node → contains f seen ≡ false
    not-seen f h other = elim (Bool-cases (contains f seen)) [
      | inl s ↦ absurd (other (w.healthy f s h))
      | inr n ↦ n
    ]

    far : (j : ℕ) (f : String) → Steps g node j f → contains f failed ≡ true → f ≢ node → suc k ≤ j
    far j f s h other =
        let near : j ≤ k → contains f seen ≡ true = λ le. w.short j f le s in
        let unseen_f = not-seen f h other in grind (arith, near)

    pub hit-IsNearest :
        (h : String) (hs : List String)
        → intersection parents failed ≡ h ∷ hs
        → IsNearest g node failed (least h hs)
    hit-IsNearest h hs e =
        let m = least h hs in
        let split = contains-keep (λ x. contains x failed) m parents in
        let among : contains m (intersection parents failed) ≡ true =
          subst (λ l. contains m l ≡ true) (sym e) (least-mem h hs) in
        let is_parent : contains m parents ≡ true = ground arith in
        record {
          is_failed = ground arith;
          is_other = λ same.
              let s : contains m seen ≡ true =
                subst (λ x. contains x seen ≡ true) (sym same) w.start in
              false≢true (ground (arith, parents_split m));
          distance = suc k;
          path = parent-exact m is_parent;
          closest = far;
          first = λ f s fails other.
              let seen_later = short-next (suc k) f (omega arith) s in
              let unseen_f = not-seen f fails other in
              let new : contains f parents ≡ true =
                ground (arith, contains-append f seen parents) in
              let split_f = contains-keep (λ x. contains x failed) f parents in
              let in_hits : contains f (intersection parents failed) ≡ true = ground arith in
              least-le h hs f (subst (λ l. contains f l ≡ true) e in_hits);
        }

  -- Once the frontier is empty every node above is seen.
  pub all_seen :
      (k : ℕ) (seen : List String)
      → Walk k [] seen
      → (j : ℕ) (p : String) → Steps g node j p
      → contains p seen ≡ true
  all_seen k seen w zero p here = w.start
  all_seen k seen w (suc j) p (up {c = c} s e) = w.settled c p (all_seen k seen w j c s) refl e
