-- ===== src/Cost/Recommend/Incremental.antt =====
-- `incremental_candidates` of src/platform_ops/cost/recommend.py: the most expensive models that are built in full.
-- Money is a number of quanta, and where a lookup raises KeyError the result is `none`.
pub mod Blocked
use data_platform_ops.Prelude.{
  ℕ, zero, suc, String, Bool, true, false, not, ◌&&◌, ◌||◌, Option, none, some, List, [], ◌∷◌, keep,
  contains, if◌then◌else◌, Dict, get, or_default, sort_by, str_leb, ltb, eqb, ◌==◌,
}
use data_platform_ops.Metadata.Manifest.{Node}
use data_platform_ops.Metadata.Graph.{Digraph, Networkx}
use data_platform_ops.Metadata.Lineage.{upstream}
use data_platform_ops.Cost.Attribution.{Owners, owner_of}

pub record IncrementalCandidate : Type 0 where
  pub unique_id : String
  pub relation : String
  pub team : String
  pub production : Dict ℕ
  pub sources : List String
  pub blocked_by : List String

is_full_model : Option Node → Bool
is_full_model none = false
is_full_model (some node) = node.resource_type == "model"

-- materialized.get(uid) in ("incremental", "view")
is_light : Option String → Bool
is_light none = false
is_light (some m) = (m == "incremental") || (m == "view")

unfoldable pub is_eligible : Dict Node → Dict String → List String → String → Bool
unfolding is_full_model is_light
is_eligible nodes materialized exclude uid =
    is_full_model (get uid nodes)
    && (not (is_light (get uid materialized)) && not (contains uid exclude))

-- The key of the sort: the higher cost first, then the name.
unfoldable pub rank_leb : ℕ × String × Dict ℕ → ℕ × String × Dict ℕ → Bool
rank_leb a b = ltb b.0 a.0 || (eqb a.0 b.0 && str_leb a.1 b.1)

-- Each eligible model with the cost it is ranked by, and all its costs.
unfoldable pub priced_models :
    Dict Node → Dict String → List String → String → Dict (Dict ℕ) → List (ℕ × String × Dict ℕ)
unfolding is_eligible
priced_models nodes materialized exclude rank_by [] = []
priced_models nodes materialized exclude rank_by ((uid, costs) ∷ production) =
    let rest = priced_models nodes materialized exclude rank_by production in
    if is_eligible nodes materialized exclude uid
    then (or_default 0 (get rank_by costs), uid, costs) ∷ rest
    else rest

-- xs[:n]
unfoldable pub take {ℓ} : {A : Type ℓ} → ℕ → List A → List A
take zero xs = []
take (suc n) [] = []
take (suc n) (x ∷ xs) = x ∷ take n xs

unfoldable pub with_source : Option Node → Option (List String) → Option (List String)
with_source none names = none
with_source (some node) none = none
with_source (some node) (some names) =
    if node.resource_type == "source" then some (node.name ∷ names) else some names

-- The names of the sources among the nodes.
unfoldable pub source_names : Dict Node → List String → Option (List String)
unfolding with_source
source_names nodes [] = some []
source_names nodes (a ∷ as_) = with_source (get a nodes) (source_names nodes as_)

unfoldable pub cons_candidate :
    Option IncrementalCandidate
    → Option (List IncrementalCandidate)
    → Option (List IncrementalCandidate)
cons_candidate none rest = none
cons_candidate (some c) none = none
cons_candidate (some c) (some cs) = some (c ∷ cs)

module _ (nx : Networkx) (fnmatchcase : String → String → Bool) where
  unfoldable pub candidate_of :
      Owners → List String → String → Dict ℕ → Node → List String → IncrementalCandidate
  candidate_of owners changed uid costs node names =
      let sources = sort_by str_leb names in
      record {
        unique_id = uid;
        relation = node.relation;
        team = (owner_of fnmatchcase owners (some uid)).0;
        production = costs;
        sources = sources;
        blocked_by = keep (λ s. contains s changed) sources;
      }

  unfoldable pub candidate_from :
      Owners
      → List String
      → String
      → Dict ℕ
      → Option Node
      → Option (List String)
      → Option IncrementalCandidate
  unfolding candidate_of
  candidate_from owners changed uid costs none names = none
  candidate_from owners changed uid costs (some node) none = none
  candidate_from owners changed uid costs (some node) (some names) =
      some (candidate_of owners changed uid costs node names)

  unfoldable pub candidates :
      Owners
      → Digraph
      → List String
      → List (ℕ × String × Dict ℕ)
      → Option (List IncrementalCandidate)
  unfolding candidate_from cons_candidate upstream source_names
  candidates owners graph changed [] = some []
  candidates owners graph changed ((cost, uid, costs) ∷ ranked) =
      cons_candidate
        (candidate_from owners changed uid costs (get uid owners.nodes)
          (source_names owners.nodes (upstream nx graph uid)))
        (candidates owners graph changed ranked)

  unfoldable pub incremental_candidates :
      Owners
      → Digraph
      → Dict (Dict ℕ)
      → Dict String
      → List String
      → String
      → ℕ
      → List String
      → Option (List IncrementalCandidate)
  unfolding candidates priced_models rank_leb
  incremental_candidates owners graph production materialized changed rank_by top_n exclude =
      candidates owners graph changed (
        take top_n
          (sort_by rank_leb (priced_models owners.nodes materialized exclude rank_by production)))
