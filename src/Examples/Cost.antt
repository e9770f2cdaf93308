-- ===== src/Examples/Cost.antt =====
-- Instances for src/platform_ops/cost: a bill shared by three tables, a window over two months, and a staging model that
-- nobody reads.
use data_platform_ops.Prelude.{
  not, ◌&&◌, ◌||◌, ◌==◌, any_of, eqb, contains, ℕ, ◌+◌, ◌*◌, ◌/◌, ◌≤◌, String, true, ◌≡◌, refl,
  arith, All, map, some, List, [], ◌∷◌, Dict, get, keys, values, or_default, sum_of, leb, str_leb,
  if◌then◌else◌, pos, sum_ℤ,
}
use data_platform_ops.Metadata.Graph.Search.{by_search}
use data_platform_ops.Metadata.Lineage.{build_graph, downstream, upstream}
use data_platform_ops.Cost.Attribution.{ActorType, Owners, subject_of, text_or_empty}
use data_platform_ops.Cost.Cluster.{positive, share, window_months, legacy_days_of}
use data_platform_ops.Cost.Cluster.Exact.{share-exact}
use data_platform_ops.Cost.Cluster.Months.{window_months-bounds}
use data_platform_ops.Cost.Recommend.{
  Measured, unused_tables, unused_within, written_models, is_unused, read_since, unused_table,
}
use data_platform_ops.Cost.Recommend.Incremental.{
  IncrementalCandidate, incremental_candidates, candidates, priced_models, rank_leb, take,
}
use data_platform_ops.Cost.Recommend.Incremental.Blocked.{
  Recommended, incremental_candidates-blocked,
}
use data_platform_ops.Cost.Recommend.Unused.{
  reported, builds, reads, is_model_node, unused_tables-exact,
}
use data_platform_ops.Examples.Samples.{raw_id, stg_id, mart_id, nodes, registry, same_text}

-- Rounded up, so that three shares of 10 add up to more than it.
abbrev rounded_up : ℕ → ℕ → ℕ → ℕ
rounded_up total weight whole = (total * weight + 2) / whole

abbrev bytes_read : Dict ℕ
bytes_read = ("orders", 1) ∷ ("empty", 0) ∷ ("customers", 1) ∷ ("payments", 1) ∷ []

share-exact_example :
    (sum_ℤ (values (share rounded_up 10 bytes_read)) ≡ pos 10)
    × (keys (share rounded_up 10 bytes_read) ≡ keys (positive bytes_read))
share-exact_example = share-exact rounded_up 10 bytes_read (omega arith)

abbrev month_example : ℕ → String
month_example offset = if leb 3 offset then "2026-04" else "query"

window_months-bounds_example :
    (sum_of (λ m. m.1) (window_months month_example 5) ≡ 5)
    × (or_default 0 (get "2026-04" (window_months month_example (legacy_days_of 100 5 (some 103))))
        ≤ or_default 0 (get "2026-04" (window_months month_example 5)))
window_months-bounds_example =
    window_months-bounds month_example 100 5 (some 103) "2026-04" (omega arith)

abbrev build_of : String → Measured
build_of id = record {
  query = record {
    query_id = id;
    actor = "dbt";
    actor_type = ActorType.dbt;
    node_id = some id;
    started_month = "query";
  };
  query_kind = "Insert";
  started_at = 100;
  day = "2026-03-01";
  tables = raw_id ∷ [];
  bytes_scanned = some 10;
  billable = true;
}

abbrev builds_example : List Measured
builds_example = build_of stg_id ∷ build_of mart_id ∷ []

abbrev owners_example : Owners
owners_example = record { nodes = nodes; registry = registry }

abbrev saved : ℕ → ℕ → ℕ
saved total days = total * 30 / days

stg_reported :
    reported 90 stg_id (
      unused_tables by_search same_text saved builds_example owners_example
        (build_graph nodes)
        []
        200
        91
        (30 ∷ 90 ∷ []))
    ≡ true
unfolding unused_tables unused_within unused_table build_graph downstream by_search written_models
    subject_of text_or_empty get str_leb is_unused read_since
stg_reported = refl

unused_tables-exact_example :
    reported 90 mart_id (
      unused_tables by_search same_text saved builds_example owners_example
        (build_graph nodes)
        []
        200
        91
        (30 ∷ 90 ∷ []))
    ≡ (any_of (λ l. eqb l 90) (30 ∷ 90 ∷ [])
        && ((any_of (builds same_text owners_example mart_id) builds_example
              && (not (mart_id == "") && is_model_node (get mart_id nodes)))
            && not (
                any_of
                  (reads owners_example 200 90 (λ id.
                    (id == mart_id)
                    || contains id (downstream by_search (build_graph nodes) mart_id)))
                  builds_example)))
unused_tables-exact_example =
    unused_tables-exact by_search same_text saved builds_example owners_example (build_graph nodes)
      [] 200 91 (30 ∷ 90 ∷ []) 90 mart_id

-- Two models that cost something, both built on the raw source, whose rows change in place.
abbrev spent : Dict (Dict ℕ)
spent = (stg_id, ("query", 5) ∷ []) ∷ (mart_id, ("query", 9) ∷ []) ∷ []

-- The dearest model that is built in full comes first, and a view is none.
dearest_first :
    map {B = String × List String}
      (λ c. (c.unique_id, c.blocked_by))
      (or_default [] (
        incremental_candidates by_search same_text owners_example
          (build_graph nodes)
          spent
          ((stg_id, "view") ∷ [])
          (raw_id ∷ [])
          "query"
          2
          []))
    ≡ (mart_id, raw_id ∷ []) ∷ []
unfolding incremental_candidates upstream build_graph by_search get candidates priced_models
    rank_leb take
dearest_first = refl

incremental_candidates-blocked_example :
    (cs : List IncrementalCandidate) × (incremental_candidates by_search same_text owners_example
        (build_graph nodes)
        spent
        []
        (raw_id ∷ [])
        "query"
        1
        []
      ≡ some cs)
    × All (Recommended by_search (build_graph nodes) nodes [] (raw_id ∷ []) []) cs
unfolding upstream build_graph by_search get
incremental_candidates-blocked_example =
    incremental_candidates-blocked by_search same_text owners_example (build_graph nodes) spent []
      (raw_id ∷ []) "query" 1 [] refl
