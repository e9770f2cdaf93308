-- ===== src/Examples/Descent.antt =====
-- Two small tables for the segmented diff of src/platform_ops/reconcile/diff.py: an order in another row order, and one
-- that the copy no longer finds as of the watermark.
use mathlib.Core.List.{Perm}
use mathlib.Core.List.Perm
use data_platform_ops.Prelude.{
  ℕ, String, true, ◌≡◌, ◌⊎◌, refl, arith, some, [], ◌∷◌, contains, append_at, get, if◌then◌else◌,
  ◌==◌,
}
use data_platform_ops.Reconcile.Segments.{
  Row, segment, grouped, summary_at, same_summary, add_row, shift_right, summarize, fetch, selected,
}
use data_platform_ops.Reconcile.Diff.{
  TableDiff, clean, diff_rows, by_key, compare_key, same_row, no_diff,
}
use data_platform_ops.Reconcile.Diff.Rows.{values_of}
use data_platform_ops.Reconcile.Descent.{
  diff_table, level_differing, differing, last_depth, leaf_depth,
}
use data_platform_ops.Reconcile.Descent.Complete.{diff_table_complete}
use data_platform_ops.Reconcile.Descent.Reordered.{diff_table-reordered}

abbrev bucket_example : String → ℕ
bucket_example key = if key == "order-2" then 305419896 else 19088743

abbrev hash1_example : Row → ℕ
hash1_example row = 7

abbrev hash2_example : Row → ℕ
hash2_example row = 11

abbrev order_1 : Row
order_1 = ("order-1", "10" ∷ [])

abbrev order_2 : Row
order_2 = ("order-2", "20" ∷ [])

abbrev late_only : TableDiff
late_only = record {
  missing = [];
  extra = [];
  cells = [];
  duplicates = [];
  in_flight = "order-2" ∷ [];
}

late_found :
    diff_table bucket_example hash1_example hash2_example
      (order_1 ∷ [])
      (order_1 ∷ order_2 ∷ [])
      ("price" ∷ [])
      ("order-2" ∷ [])
      1
    ≡ some late_only
unfolding diff_table level_differing differing last_depth leaf_depth summarize fetch selected
    grouped segment shift_right add_row summary_at same_summary diff_rows by_key compare_key
    same_row append_at get
late_found = refl

collision_free_example :
    (depth : ℕ)
    → same_summary
        (summary_at
          (segment bucket_example hash1_example hash2_example depth "order-2")
          (grouped bucket_example hash1_example hash2_example depth (order_1 ∷ [])))
        (summary_at
          (segment bucket_example hash1_example hash2_example depth "order-2")
          (grouped bucket_example hash1_example hash2_example depth (order_1 ∷ order_2 ∷ [])))
      ≡ true
    → Perm (values_of "order-2" (order_1 ∷ [])) (values_of "order-2" (order_1 ∷ order_2 ∷ []))
unfolding same_summary summary_at grouped add_row
collision_free_example depth h = ground arith

diff_table_complete_example :
    Perm (values_of "order-2" (order_1 ∷ [])) (values_of "order-2" (order_1 ∷ order_2 ∷ []))
    ⊎ ((values_of "order-2" (order_1 ∷ []) ≡ []) × (contains "order-2" ("order-2" ∷ []) ≡ true))
unfolding clean
diff_table_complete_example =
    diff_table_complete bucket_example hash1_example hash2_example (order_1 ∷ [])
      (order_1 ∷ order_2 ∷ []) ("price" ∷ []) ("order-2" ∷ []) 1 late_only "order-2"
      collision_free_example late_found refl

diff_table-reordered_example :
    (level_differing bucket_example hash1_example hash2_example
        (order_1 ∷ order_2 ∷ [])
        (order_2 ∷ order_1 ∷ [])
        1
        []
      ≡ [])
    × (diff_table bucket_example hash1_example hash2_example
          (order_1 ∷ order_2 ∷ [])
          (order_2 ∷ order_1 ∷ [])
          ("price" ∷ [])
          []
          1
        ≡ some no_diff)
diff_table-reordered_example =
    diff_table-reordered bucket_example hash1_example hash2_example (order_1 ∷ order_2 ∷ [])
      (order_2 ∷ order_1 ∷ []) ("price" ∷ []) [] 1 (Perm.swap order_2 order_1 [])
