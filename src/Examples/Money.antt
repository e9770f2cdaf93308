-- ===== src/Examples/Money.antt =====
-- Instances of what is proved of src/platform_ops/cost and src/platform_ops/reconcile.
use data_platform_ops.Prelude.{
  sum_of, keep, if◌then◌else◌, ◌==◌, ℕ, ◌+◌, length, Dict, String, Bool, true, false, some, str_leb,
  List, [], ◌∷◌, ◌++◌, map, put, get, append_at, sorted_set, keys, or_default, All, ◌≡◌, ◌↔◌, refl,
  arith,
}
use data_platform_ops.Cost.Attribution.{split, parts_from, largest, sum_values}
use data_platform_ops.Cost.Attribution.Split.{sum-split}
use data_platform_ops.Cost.Pricing.{EstimatedQuery, lay_out, idle}
use data_platform_ops.Cost.Pricing.Kept.{queries_of, entry, queries-lay_out}
use data_platform_ops.Reconcile.Diff.{TableDiff, by_key, diff_rows, compare_key, same_row, clean}
use data_platform_ops.Reconcile.Diff.Counts.{source_only, target_only, diff_rows-counts}
use data_platform_ops.Reconcile.Diff.Clean.{Agrees, diff_rows-clean}
use data_platform_ops.Reconcile.Grade.{TruthCell, Discrepancy, Rule, same_cell, grade}
use data_platform_ops.Reconcile.Grade.Counts.{
  found_one, correct_one, planted_of, found_of, grade-counts,
}
use data_platform_ops.Reconcile.Grade.Planted.{survivors, forgiven}
use data_platform_ops.Reconcile.Cutover.{NightResult, decide}
use data_platform_ops.Reconcile.Cutover.First.{HasCleanRun, decide-HasCleanRun}

-- Ten quanta over three views: two thirds go to the team that opened the dashboard twice.
abbrev views : List (String × ℕ)
views = ("finance", 1) ∷ ("sales", 2) ∷ []

sum-split_example : sum_values (("finance", 3) ∷ ("sales", 7) ∷ []) ≡ 10
unfolding split parts_from largest put get
sum-split_example = sum-split 10 views (("finance", 3) ∷ ("sales", 7) ∷ []) refl

abbrev query_at : String → ℕ → EstimatedQuery
query_at query_id started_ms = record {
  query_id = query_id;
  warehouse = "bi";
  started_ms = started_ms;
  modeled_ms = 500;
  table_bytes = 100 ∷ [];
}

queries-lay_out_example :
    queries_of (lay_out 60000 "bi" (query_at "q1" 0 ∷ query_at "q2" 90000 ∷ []) idle)
    ≡ [] ++ map entry (query_at "q1" 0 ∷ query_at "q2" 90000 ∷ [])
queries-lay_out_example =
    queries-lay_out 60000 "bi" (query_at "q1" 0 ∷ query_at "q2" 90000 ∷ []) idle

abbrev night : ℕ → Bool → NightResult
night index passed = record {
  index = index;
  run_at = index;
  passed = passed ∷ [];
  unexplained = [];
}

decide-HasCleanRun_example :
    ((decide (night 1 false ∷ night 2 true ∷ night 3 true ∷ []) 2).recommended ≡ true)
    ↔ HasCleanRun 2 (night 1 false ∷ night 2 true ∷ night 3 true ∷ [])
decide-HasCleanRun_example =
    decide-HasCleanRun (night 1 false ∷ night 2 true ∷ night 3 true ∷ []) 2 (omega arith)

-- One row on each side, and a new row that the source changed after the watermark.
abbrev legacy_rows : List (String × List String)
legacy_rows = ("order-1", "10" ∷ []) ∷ []

abbrev copied_rows : List (String × List String)
copied_rows = ("order-1", "10" ∷ []) ∷ ("order-2", "12" ∷ []) ∷ []

abbrev in_flight_only : TableDiff
in_flight_only = record {
  missing = [];
  extra = [];
  cells = [];
  duplicates = [];
  in_flight = "order-2" ∷ [];
}

found_in_flight :
    diff_rows ("price" ∷ []) ("order-2" ∷ []) legacy_rows copied_rows ≡ some in_flight_only
unfolding diff_rows by_key append_at get compare_key same_row str_leb
found_in_flight = refl

diff_rows-clean_example :
    All
      (λ key.
        Agrees
          ("order-2" ∷ [])
          key
          (or_default [] (get key (by_key legacy_rows)))
          (or_default [] (get key (by_key copied_rows))))
      (sorted_set (keys (by_key legacy_rows) ++ keys (by_key copied_rows)))
unfolding clean
diff_rows-clean_example =
    diff_rows-clean ("price" ∷ []) ("order-2" ∷ []) legacy_rows copied_rows in_flight_only
      found_in_flight refl

diff_rows-counts_example :
    length copied_rows + source_only in_flight_only
    ≡ length legacy_rows + target_only in_flight_only
diff_rows-counts_example =
    diff_rows-counts ("price" ∷ []) ("order-2" ∷ []) legacy_rows copied_rows in_flight_only
      found_in_flight

abbrev planted : String → String → TruthCell
planted key label = record {
  cell = record { table = "orders"; key = key; column = "name" };
  klass = "case_only";
  label = label;
}

abbrev detected : String → Discrepancy
detected key = record {
  cell = record { table = "orders"; key = key; column = "name" };
  klass = "case_only";
}

-- A difference of case only, in a column that is compared without case.
abbrev case_changed : TruthCell
case_changed = record {
  cell = record { table = "orders"; key = "3"; column = "price" };
  klass = "case_only";
  label = "a";
}

abbrev caseless : String → Dict Rule
caseless table = ("price", record { casefold = true; rtrim = false }) ∷ []

abbrev planted_three : List TruthCell
planted_three = planted "1" "a" ∷ planted "2" "a" ∷ case_changed ∷ []

survivors-two : survivors caseless planted_three ≡ planted "1" "a" ∷ planted "2" "a" ∷ []
unfolding get same_cell
survivors-two = refl

grade-counts_example :
    ((grade planted_three (detected "1" ∷ []) caseless).expected
      ≡ length (survivors caseless planted_three))
    × ((grade planted_three (detected "1" ∷ []) caseless).true_positives
        ≡ sum_of (found_one (detected "1" ∷ [])) (survivors caseless planted_three))
    × ((grade planted_three (detected "1" ∷ []) caseless).correctly_classified
        ≡ sum_of (correct_one (detected "1" ∷ [])) (survivors caseless planted_three))
    × ((grade planted_three (detected "1" ∷ []) caseless).equivalent_under_policy
        ≡ length (keep (forgiven caseless) planted_three))
    × (planted_of "a" (grade planted_three (detected "1" ∷ []) caseless).by_label
        ≡ sum_of (λ t. if t.label == "a" then 1 else 0) (survivors caseless planted_three))
    × (found_of "a" (grade planted_three (detected "1" ∷ []) caseless).by_label
        ≡ sum_of
            (λ t. if t.label == "a" then found_one (detected "1" ∷ []) t else 0)
            (survivors caseless planted_three))
grade-counts_example = grade-counts planted_three (detected "1" ∷ []) caseless "a"
