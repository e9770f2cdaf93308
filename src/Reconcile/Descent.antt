-- ===== src/Reconcile/Descent.antt =====
-- `diff_table` of src/platform_ops/reconcile/diff.py as a whole: the descent over segment summaries, then the rows of the
-- leaves that differ. `leaf_depth` counts in whole numbers the levels that `math.ceil(math.log(...))` gives: the
-- least depth at which a segment holds at most `leaf_width` rows.
pub mod Complete
pub mod Reordered
use data_platform_ops.Prelude.{
  ℕ, zero, suc, ◌+◌, ◌-◌, ◌*◌, String, Bool, true, false, not, ◌&&◌, Option, none, some, List, [],
  ◌∷◌, ◌++◌, keep, length, map, max, contains, has_num, sorted_nums, if◌then◌else◌, leb, sum_of,
  Dict, keys, difference,
}
use data_platform_ops.Reconcile.Segments.{
  Row, Summary, max_depth, fanout, segment, summary_at, segments_of, same_summary, summarize, fetch,
}
use data_platform_ops.Reconcile.Diff.{TableDiff, no_diff, diff_rows, by_key}

depth_from : ℕ → ℕ → ℕ → ℕ → ℕ
depth_from zero depth rows width = depth
depth_from (suc fuel) depth rows width =
    let deeper = depth_from fuel (depth + 1) rows (width * fanout) in
    if leb rows (width * fanout) then depth else deeper

-- The depth at which a segment holds at most about `leaf_width` rows: at most MAX_DEPTH.
unfoldable pub leaf_depth : ℕ → ℕ → ℕ
unfolding depth_from
leaf_depth rows leaf_width =
    if leb rows leaf_width then 1 else depth_from (max_depth - 1) 1 rows leaf_width

-- sorted(b for b in source.keys() | target.keys() if source.get(b) != target.get(b))
unfoldable pub differing : List (ℕ × Summary) → List (ℕ × Summary) → List ℕ
differing left right =
    keep (λ b. not (same_summary (summary_at b left) (summary_at b right)))
      (sorted_nums (segments_of left ++ segments_of right))

-- (depth, segments compared, segments differing)
pub record Level : Type 0 where
  pub depth : ℕ
  pub compared : ℕ
  pub differing_segments : ℕ

-- The counters of a `TableDiff`.
pub record Transfer : Type 0 where
  pub levels : List Level
  pub summary_rows : ℕ
  pub fetched_rows : ℕ
  pub queries : ℕ

-- Where the descent ends: with no segment that differs, or at the leaves that do.
pub data Landing : Type 0 where
  settled : Landing
  leaves : ℕ → List ℕ → Landing

rows_in : List (ℕ × Summary) → ℕ
rows_in summaries = sum_of (λ s. s.1.rows) summaries

count_level : ℕ → List (ℕ × Summary) → List (ℕ × Summary) → Transfer → Transfer
count_level depth left right t = record t {
  levels =
      t.levels
      ++ (record {
        depth = depth;
        compared = length (sorted_nums (segments_of left ++ segments_of right));
        differing_segments = length (differing left right);
      }
          ∷ []);
  summary_rows = t.summary_rows + length left + length right;
  queries = t.queries + 2;
}

module _ (bucket_of : String → ℕ) (hash1 hash2 : Row → ℕ) (source target : List Row) where
  unfoldable pub level_differing : ℕ → List ℕ → List ℕ
  level_differing depth parents =
      differing (summarize bucket_of hash1 hash2 source depth parents)
        (summarize bucket_of hash1 hash2 target depth parents)

  -- The loop, from a depth that is `remaining` levels above the last one.
  pub descend : ℕ → ℕ → List ℕ → Landing
  unfolding level_differing
  descend zero depth parents = elim (level_differing depth parents) [
    | [] ↦ settled
    | b ∷ bs ↦ leaves depth (b ∷ bs)
  ]
  descend (suc remaining) depth parents = elim (level_differing depth parents) [
    | [] ↦ settled
    | b ∷ bs ↦ descend remaining (depth + 1) (b ∷ bs)
  ]

  -- What the loop counts on its way.
  descend_transfer : ℕ → ℕ → List ℕ → Transfer → Transfer
  unfolding level_differing count_level
  descend_transfer zero depth parents t =
      count_level depth (summarize bucket_of hash1 hash2 source depth parents)
        (summarize bucket_of hash1 hash2 target depth parents) t
  descend_transfer (suc remaining) depth parents t =
      let counted =
        count_level depth (summarize bucket_of hash1 hash2 source depth parents)
          (summarize bucket_of hash1 hash2 target depth parents) t in
      elim (level_differing depth parents) [
        | [] ↦ counted
        | b ∷ bs ↦ descend_transfer remaining (depth + 1) (b ∷ bs) counted
      ]

  first_rows : List Row → ℕ
  first_rows side = rows_in (summarize bucket_of hash1 hash2 side 1 [])

  -- The deepest level.
  unfoldable pub last_depth : ℕ → ℕ
  unfolding first_rows rows_in
  last_depth leaf_width = leaf_depth (max (first_rows source) (first_rows target)) leaf_width

  -- The keys that only the target has, `target_by_key.keys() - source_by_key.keys()`.
  only_target : List Row → List Row → List String
  only_target left_rows right_rows = difference (keys (by_key right_rows)) (keys (by_key left_rows))

  is_empty : List String → Bool
  is_empty [] = true
  is_empty (x ∷ xs) = false

  -- `changed`: asked only where some row changed after the watermark and some key is on the target only. `after` holds
  -- the keys of the source rows that changed after the watermark.
  changed_keys : List String → ℕ → List ℕ → List String
  unfolding only_target is_empty
  changed_keys after depth parents =
      if not (is_empty after)
        && not (
            is_empty (
              only_target (fetch bucket_of hash1 hash2 source depth parents)
                (fetch bucket_of hash1 hash2 target depth parents)))
      then keep (λ key. has_num (segment bucket_of hash1 hash2 depth key) parents) after
      else []

  compare_landing : List String → List String → Landing → Option TableDiff
  unfolding changed_keys
  compare_landing names after settled = some no_diff
  compare_landing names after (leaves depth parents) =
      diff_rows names (changed_keys after depth parents)
        (fetch bucket_of hash1 hash2 source depth parents)
        (fetch bucket_of hash1 hash2 target depth parents)

  -- What is found.
  unfoldable pub diff_table : List String → List String → ℕ → Option TableDiff
  unfolding compare_landing descend
  diff_table names after leaf_width =
      compare_landing names after (descend (last_depth leaf_width - 1) 1 [])
