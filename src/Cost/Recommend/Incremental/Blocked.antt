-- ===== src/Cost/Recommend/Incremental/Blocked.antt =====
-- What `incremental_candidates` of src/platform_ops/cost/recommend.py recommends, and what rules a model out.
use data_platform_ops.Prelude.{
  ℕ, zero, suc, String, Bool, true, false, ◌&&◌, ◌||◌, ◌≡◌, inl, inr, refl, ap, arith, Option, none,
  some, List, [], ◌∷◌, contains, contains-keep, any_of, all_of, All, All-sort_by, Bool-cases,
  Option-cases, Dict, get, sort_by, str_leb, insert_by, ◌==◌,
}
use data_platform_ops.Metadata.Manifest.{Node}
use data_platform_ops.Metadata.Graph.{Digraph, Networkx}
use data_platform_ops.Metadata.Lineage.{upstream}
use data_platform_ops.Cost.Attribution.{Owners}
use data_platform_ops.Cost.Recommend.Incremental.{
  IncrementalCandidate, is_full_model, is_eligible, rank_leb, priced_models, take, with_source,
  source_names, cons_candidate, candidate_of, candidate_from, candidates, incremental_candidates,
}

abbrev pub is_node : Option Node → Bool
is_node none = false
is_node (some node) = true

abbrev pub is_source : String → Option Node → Bool
is_source name none = false
is_source name (some node) = (node.resource_type == "source") && (name == node.name)

contains-insert_by :
    (s x : String) (xs : List String)
    → contains s (insert_by str_leb x xs) ≡ ((s == x) || contains s xs)
contains-insert_by s x [] = refl
contains-insert_by s x (y ∷ ys) = ground (arith, contains-insert_by s x ys)

contains-sort_by : (s : String) (xs : List String) → contains s (sort_by str_leb xs) ≡ contains s xs
contains-sort_by s [] = refl
contains-sort_by s (x ∷ xs) =
    ground (arith, contains-sort_by s xs, contains-insert_by s x (sort_by str_leb xs))

-- Where all the nodes are known, the names are given, and they are those of the sources.
source_names-known :
    (nodes : Dict Node) (ids : List String)
    → all_of (λ a. is_node (get a nodes)) ids ≡ true
    → (names : List String) × (source_names nodes ids ≡ some names)
      × ((s : String) → contains s names ≡ any_of (λ a. is_source s (get a nodes)) ids)
unfolding source_names with_source
source_names-known nodes [] h = ([], refl, λ s. refl)
source_names-known nodes (a ∷ ids) h = elim (Option-cases (get a nodes)) [
  | inl missing ↦ (let gone = rw missing at h in cc)
  | inr (node, present) ↦
      (let rest = source_names-known nodes ids (ground (arith, h)) in
        elim (Bool-cases (node.resource_type == "source")) [
          | inl e ↦ (
            node.name ∷ rest.0,
            rw (present, rest.1, e),
            λ s. rw (present, e) (ap (λ b. (s == node.name) || b) (rest.2 s)),
          )
          | inr ne ↦ (rest.0, rw (present, rest.1, ne), λ s. rw (present, ne) (rest.2 s))
        ])
]

All-take {ℓ κ} : {A : Type ℓ} (P : A → Type κ) (n : ℕ) (xs : List A) → All P xs → All P (take n xs)
unfolding take
All-take P zero xs h = tt
All-take P (suc n) [] h = tt
All-take P (suc n) (x ∷ xs) h = (h.0, All-take P n xs h.1)

-- What is said of a candidate.
abbrev pub Recommended :
    Networkx
    → Digraph
    → Dict Node
    → Dict String
    → List String
    → List String
    → IncrementalCandidate
    → Type 0
Recommended nx graph nodes materialized changed exclude c =
    (is_eligible nodes materialized exclude c.unique_id ≡ true)
    × ((s : String)
        → contains s c.blocked_by ≡ (
            contains s changed
            && any_of (λ a. is_source s (get a nodes)) (upstream nx graph c.unique_id)))

-- The model is eligible, and the nodes it is built from are known.
abbrev Ready :
    Networkx → Digraph → Dict Node → Dict String → List String → ℕ × String × Dict ℕ → Type 0
Ready nx graph nodes materialized exclude m =
    (is_eligible nodes materialized exclude m.1 ≡ true)
    × (all_of (λ a. is_node (get a nodes)) (upstream nx graph m.1) ≡ true)

priced_models-Ready :
    (nx : Networkx) (graph : Digraph) (nodes : Dict Node) (materialized : Dict String)
    (exclude : List String) (rank_by : String) (production : Dict (Dict ℕ))
    → all_of (λ p. all_of (λ a. is_node (get a nodes)) (upstream nx graph p.0)) production ≡ true
    → All
        (Ready nx graph nodes materialized exclude)
        (priced_models nodes materialized exclude rank_by production)
unfolding priced_models
priced_models-Ready nx graph nodes materialized exclude rank_by [] h = tt
priced_models-Ready nx graph nodes materialized exclude rank_by ((uid, costs) ∷ production) h =
    let rest =
      priced_models-Ready nx graph nodes materialized exclude rank_by production
        (ground (arith, h)) in
    elim (Bool-cases (is_eligible nodes materialized exclude uid)) [
      | inl e ↦ rw e ((e, ground (arith, h)), rest)
      | inr ne ↦ rw ne rest
    ]

eligible_node :
    (nodes : Dict Node) (materialized : Dict String) (exclude : List String) (uid : String)
    → is_eligible nodes materialized exclude uid ≡ true
    → (node : Node) × (get uid nodes ≡ some node)
unfolding is_eligible is_full_model
eligible_node nodes materialized exclude uid h = elim (Option-cases (get uid nodes)) [
  | inl missing ↦ (let gone = rw missing at h in cc)
  | inr found ↦ found
]

candidates-Recommended :
    (nx : Networkx) (fnmatchcase : String → String → Bool) (owners : Owners) (graph : Digraph)
    (materialized : Dict String) (changed exclude : List String)
    (ranked : List (ℕ × String × Dict ℕ))
    → All (Ready nx graph owners.nodes materialized exclude) ranked
    → (cs : List IncrementalCandidate) × (candidates nx fnmatchcase owners graph changed ranked
        ≡ some cs)
      × All (Recommended nx graph owners.nodes materialized changed exclude) cs
unfolding candidates candidate_of candidate_from cons_candidate
candidates-Recommended nx fnmatchcase owners graph materialized changed exclude [] h =
    ([], refl, tt)
candidates-Recommended nx fnmatchcase owners graph materialized changed exclude
      ((cost, uid, costs) ∷ ranked) h =
    let rest =
      candidates-Recommended nx fnmatchcase owners graph materialized changed exclude ranked h.1 in
    let found = eligible_node owners.nodes materialized exclude uid h.0.0 in
    let names = source_names-known owners.nodes (upstream nx graph uid) h.0.1 in
    let c = candidate_of nx fnmatchcase owners changed uid costs found.0 names.0 in
    (
      c ∷ rest.0,
      rw (found.1, names.1, rest.1),
      (
        (
          h.0.0,
          λ s. ground (
            arith,
            contains-keep (λ x. contains x changed) s (sort_by str_leb names.0),
            contains-sort_by s names.0,
            names.2 s,
          ),
        ),
        rest.2,
      ),
    )

-- Where the nodes that each priced model is built from are known, the candidates are given; each is a model that is
-- neither incremental nor a view nor excluded, and a source blocks it exactly if its rows change in place and the model is
-- built on it, however far upstream.
pub incremental_candidates-blocked :
    (nx : Networkx) (fnmatchcase : String → String → Bool) (owners : Owners) (graph : Digraph)
    (production : Dict (Dict ℕ)) (materialized : Dict String) (changed : List String)
    (rank_by : String) (top_n : ℕ) (exclude : List String)
    → all_of (λ p. all_of (λ a. is_node (get a owners.nodes)) (upstream nx graph p.0)) production
      ≡ true
    → (cs : List IncrementalCandidate) × (incremental_candidates nx fnmatchcase owners graph
          production materialized changed rank_by top_n exclude
        ≡ some cs)
      × All (Recommended nx graph owners.nodes materialized changed exclude) cs
unfolding incremental_candidates
incremental_candidates-blocked nx fnmatchcase owners graph production materialized changed rank_by
      top_n exclude h =
    candidates-Recommended nx fnmatchcase owners graph materialized changed exclude _ (
      All-take (Ready nx graph owners.nodes materialized exclude) top_n _ (
        All-sort_by (Ready nx graph owners.nodes materialized exclude) rank_leb _
          (priced_models-Ready nx graph owners.nodes materialized exclude rank_by production h)))
