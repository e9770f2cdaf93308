-- ===== src/Cost/Recommend.antt =====
-- src/platform_ops/cost/recommend.py: `unused_tables`, the tables that nobody
-- reads. Instants are seconds, money is a number of quanta, and the Decimal quotient of `_monthly` is a parameter.
pub mod Unused
pub mod Incremental
use data_platform_ops.Prelude.{
  ℕ, zero, suc, ◌+◌, ◌-◌, ◌*◌, ◌/◌, ◌%◌, String, Bool, true, false, not, ◌&&◌, ◌||◌, Option, none,
  some, List, [], ◌∷◌, ◌++◌, map, keep, contains, any_of, find_first, length, if◌then◌else◌, Dict,
  get, put, keys, values, or_default, sorted_set, sort_by, str_leb, leb, ltb, eqb, max, ◌==◌,
  add_text,
}
use data_platform_ops.Metadata.Manifest.{Node}
use data_platform_ops.Metadata.Graph.{Digraph, Networkx}
use data_platform_ops.Metadata.Lineage.{upstream, downstream}
use data_platform_ops.Cost.Attribution.{
  ActorType, QueryRecord, Owners, by_relation, owner_of, subject_of, text_or_empty,
}

-- A `QueryRecord` with what its engine measured.
pub record Measured : Type 0 where
  pub query : QueryRecord
  pub query_kind : String
  pub started_at : ℕ
  -- the calendar day of `started_at`
  pub day : String
  pub tables : List String
  pub bytes_scanned : Option ℕ
  pub billable : Bool

pub record UnusedTable : Type 0 where
  pub lookback_days : ℕ
  pub unique_id : String
  pub relation : String
  pub team : String
  pub owner : String
  pub monthly_saving : Dict ℕ

-- actor_type in CONSUMERS
unfoldable pub is_consumer : ActorType → Bool
is_consumer ActorType.dashboard = true
is_consumer ActorType.person = true
is_consumer _ = false

is_dbt : ActorType → Bool
is_dbt ActorType.dbt = true
is_dbt _ = false

-- actor_type == "dbt" and query_kind == "Insert" and node_id
is_build : Measured → Bool
unfolding is_dbt
is_build r =
    is_dbt r.query.actor_type
    && ((r.query_kind == "Insert") && not (text_or_empty r.query.node_id == ""))

abbrev pub seconds_a_day : ℕ
seconds_a_day = 86400

is_model : Dict Node → String → Bool
is_model nodes uid = elim (get uid nodes) [
  | none ↦ false
  | some node ↦ not (uid == "") && (node.resource_type == "model")
]

-- relations[t] for t in tables if t in relations
unfoldable pub known_tables : Dict String → List String → List String
known_tables relations [] = []
known_tables relations (t ∷ ts) =
    let rest = known_tables relations ts in
    elim (get t relations) [ none ↦ rest | some id ↦ id ∷ rest ]

-- The datasets that a dashboard or a person read in the last `days`.
unfoldable pub read_since : Dict String → ℕ → ℕ → List Measured → List String
unfolding is_consumer known_tables
read_since relations window_end days [] = []
read_since relations window_end days (r ∷ records) =
    let rest = read_since relations window_end days records in
    if is_consumer r.query.actor_type && leb window_end (r.started_at + days * seconds_a_day)
    then known_tables relations r.tables ++ rest
    else rest

module _ (nx : Networkx) (fnmatchcase : String → String → Bool) where
  written_from : Owners → List Measured → List String
  unfolding is_build
  written_from owners [] = []
  written_from owners (r ∷ records) =
      let rest = written_from owners records in
      if is_build r
      then elim (subject_of fnmatchcase owners r.query.node_id) [
        | none ↦ rest
        | some uid ↦ uid ∷ rest
      ]
      else rest

  -- The models that dbt wrote, in order.
  unfoldable pub written_models : Owners → List Measured → List String
  unfolding written_from is_model
  written_models owners records =
      sorted_set (keep (is_model owners.nodes) (written_from owners records))

  -- Neither it nor anything downstream of it was read.
  unfoldable pub is_unused : Digraph → List String → String → Bool
  unfolding downstream
  is_unused graph read unique_id =
      not (contains unique_id read)
      && not (any_of (λ d. contains d read) (downstream nx graph unique_id))

  unfoldable pub relation_of : Dict Node → String → String
  relation_of nodes uid = elim (get uid nodes) [ none ↦ "" | some node ↦ node.relation ]

  unfoldable pub unused_table : (ℕ → ℕ → ℕ) → Owners → Dict (Dict ℕ) → ℕ → ℕ → String → UnusedTable
  unfolding relation_of
  unused_table monthly owners production window_days days unique_id = record {
    lookback_days = days;
    unique_id = unique_id;
    relation = relation_of owners.nodes unique_id;
    team = (owner_of fnmatchcase owners (some unique_id)).0;
    owner = (owner_of fnmatchcase owners (some unique_id)).1;
    monthly_saving =
        map (λ m. (m.0, monthly m.1 window_days))
          (sort_by (λ a b. str_leb a.0 b.0) (or_default [] (get unique_id production)));
  }

  unfoldable pub unused_within :
      (ℕ → ℕ → ℕ)
      → List Measured
      → Owners
      → Digraph
      → Dict (Dict ℕ)
      → ℕ
      → ℕ
      → List ℕ
      → List UnusedTable
  unfolding is_unused unused_table written_models
  unused_within monthly records owners graph production window_end window_days [] = []
  unused_within monthly records owners graph production window_end window_days (days ∷ lookbacks) =
      let read = read_since (by_relation owners) window_end days records in
      map (unused_table monthly owners production window_days days)
        (keep (is_unused graph read) (written_models owners records))
      ++ unused_within monthly records owners graph production window_end window_days lookbacks

  unfoldable pub unused_tables :
      (ℕ → ℕ → ℕ)
      → List Measured
      → Owners
      → Digraph
      → Dict (Dict ℕ)
      → ℕ
      → ℕ
      → List ℕ
      → List UnusedTable
  unfolding unused_within
  unused_tables monthly records owners graph production window_end window_days lookbacks =
      unused_within monthly records owners graph production window_end window_days
        (sort_by leb lookbacks)
