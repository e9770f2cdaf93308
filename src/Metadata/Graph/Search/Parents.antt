-- ===== src/Metadata/Graph/Search/Parents.antt =====
-- The parents of a node and of a set of nodes, read off a list of edges.
use mathlib.Core.Bool.{false≢true}
use data_platform_ops.Prelude.{
  String, ◌≡◌, refl, subst, inl, inr, true, List, [], ◌∷◌, ◌++◌, contains, length, ◌==◌, arith,
  Bool-cases, contains-append, eq_iff, eq→path, eq_self, if◌then◌else◌,
}
use data_platform_ops.Metadata.Graph.{contains_edge}

abbrev pub Edges : Type 0
Edges = List (String × String)

unfoldable pub parents_in : Edges → String → List String
parents_in [] n = []
parents_in ((p, c) ∷ es) n = let rest = parents_in es n in if c == n then p ∷ rest else rest

pub parents_in_sound :
    (es : Edges) (n p : String) → contains p (parents_in es n) ≡ true → contains_edge p n es ≡ true
unfolding parents_in
parents_in_sound [] n p h = h
parents_in_sound ((a, b) ∷ es) n p h =
    ground (arith, eq_iff b n, eq_iff n b, parents_in_sound es n p)

pub parents_in_complete :
    (es : Edges) (n p : String) → contains_edge p n es ≡ true → contains p (parents_in es n) ≡ true
unfolding parents_in
parents_in_complete [] n p h = h
parents_in_complete ((a, b) ∷ es) n p h =
    ground (arith, eq_iff b n, eq_iff n b, parents_in_complete es n p)

pub sources : Edges → List String
sources [] = []
sources ((p, c) ∷ es) = p ∷ sources es

pub length-sources : (es : Edges) → length (sources es) ≡ length es
unfolding sources
length-sources [] = refl
length-sources ((p, c) ∷ es) = omega (arith, length-sources es)

pub source-mem :
    (es : Edges) (p n : String) → contains_edge p n es ≡ true → contains p (sources es) ≡ true
unfolding sources
source-mem [] p n h = h
source-mem ((a, b) ∷ es) p n h = ground (arith, source-mem es p n)

unfoldable pub all_parents : Edges → List String → List String
unfolding parents_in
all_parents es [] = []
all_parents es (c ∷ cs) = parents_in es c ++ all_parents es cs

pub all_parents_sound :
    (es : Edges) (cs : List String) (p : String)
    → contains p (all_parents es cs) ≡ true
    → (c : String) × (contains c cs ≡ true) × (contains_edge p c es ≡ true)
unfolding all_parents
all_parents_sound es [] p h = absurd (false≢true h)
all_parents_sound es (c ∷ cs) p h = elim (Bool-cases (contains p (parents_in es c))) [
  | inl direct ↦ (c, ground (arith, eq_self c), parents_in_sound es c p direct)
  | inr other ↦
      let rest : contains p (all_parents es cs) ≡ true =
        ground (arith, contains-append p (parents_in es c) (all_parents es cs)) in
      let (d, m, e) = all_parents_sound es cs p rest in (d, ground arith, e)
]

pub all_parents_complete :
    (es : Edges) (cs : List String) (p c : String)
    → contains c cs ≡ true
    → contains_edge p c es ≡ true
    → contains p (all_parents es cs) ≡ true
unfolding all_parents
all_parents_complete es [] p c h e = absurd (false≢true h)
all_parents_complete es (d ∷ ds) p c h e = elim (Bool-cases (c == d)) [
  | inl same ↦
      let e' = subst (λ x. contains_edge p x es ≡ true) (eq→path c d same) e in
      let found = parents_in_complete es d p e' in
      ground (arith, contains-append p (parents_in es d) (all_parents es ds))
  | inr other ↦
      let rest : contains c ds ≡ true = ground arith in
      let ih = all_parents_complete es ds p c rest e in
      ground (arith, contains-append p (parents_in es d) (all_parents es ds))
]
