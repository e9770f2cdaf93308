-- ===== src/Reconcile/Descent/Complete.antt =====
-- What it means that the whole of `diff_table` of src/platform_ops/reconcile/diff.py finds a table clean: no difference
-- of a row is left out on the way down, unless the hashes of a segment collide.
use mathlib.Core.List.{Perm}
use mathlib.Core.List.Perm
use data_platform_ops.Prelude.{
  ℕ, zero, suc, ◌+◌, ◌-◌, ◌*◌, ◌/◌, ◌≤◌, String, Bool, true, false, not, ◌≡◌, ◌⊎◌, inl, inr, refl,
  sym, ap, ◌∙◌, subst, arith, some, List, [], ◌∷◌, ◌++◌, keep, contains, contains-keep, eq_iff, max,
  has_num, has_num-keep, Bool-cases, ◌==◌, sorted_nums,
}
use data_platform_ops.Reconcile.Segments.{
  Row, max_depth, fanout, segment, selected, grouped, summary_at, segments_of, same_summary,
  summarize, fetch,
}
use data_platform_ops.Reconcile.Segments.Laws.{segment-div, summary_at-keep, differs-mem}
use data_platform_ops.Reconcile.Diff.{TableDiff, clean}
use data_platform_ops.Reconcile.Diff.Clean.{Agrees}
use data_platform_ops.Reconcile.Diff.Rows.{values_of, diff_rows-values}
use data_platform_ops.Reconcile.Descent.{
  Landing, settled, leaves, differing, level_differing, descend, last_depth, leaf_depth, depth_from,
  changed_keys, compare_landing, diff_table, first_rows,
}

list-cases : (xs : List ℕ) → (xs ≡ []) ⊎ ((b : ℕ) × (bs : List ℕ) × (xs ≡ b ∷ bs))
list-cases [] = inl refl
list-cases (b ∷ bs) = inr (b, bs, refl)

depth_from-le : (fuel depth rows width : ℕ) → depth_from fuel depth rows width ≤ depth + fuel
unfolding depth_from
depth_from-le zero depth rows width = omega arith
depth_from-le (suc fuel) depth rows width =
    ground (arith, depth_from-le fuel (depth + 1) rows (width * fanout))

leaf_depth-le : (rows width : ℕ) → leaf_depth rows width ≤ max_depth
unfolding leaf_depth
leaf_depth-le rows width = ground (arith, depth_from-le (max_depth - 1) 1 rows width)

values_of-fetched :
    (k : String) (p : Row → Bool) (rows : List Row)
    → ((row : Row) → row.0 ≡ k → p row ≡ true)
    → values_of k (keep p rows) ≡ values_of k rows
values_of-fetched k p [] h = refl
values_of-fetched k p ((key, row) ∷ rows) h = elim (Bool-cases (key == k)) [
  | inl e ↦
      let kept = h (key, row) (ground (arith, eq_iff key k)) in
      ground (arith, values_of-fetched k p rows h)
  | inr e ↦ ground (arith, values_of-fetched k p rows h)
]

module _ (bucket_of : String → ℕ) (hash1 hash2 : Row → ℕ) (source target : List Row) where
  -- Where the descent ends, the key is among the leaves, or both sides have the same rows of it.
  Reached : String → Landing → Type 0
  Reached k settled = Perm (values_of k source) (values_of k target)
  Reached k (leaves depth parents) =
      (has_num (segment bucket_of hash1 hash2 depth k) parents ≡ true)
      ⊎ Perm (values_of k source) (values_of k target)

  Reached-same :
      (k : String) (l : Landing) → Perm (values_of k source) (values_of k target) → Reached k l
  unfolding Reached
  Reached-same k settled p = p
  Reached-same k (leaves depth parents) p = inr p

  level_differing-mem :
      (k : String) (depth : ℕ) (parents : List ℕ)
      → ((row : Row)
          → segment bucket_of hash1 hash2 depth row.0 ≡ segment bucket_of hash1 hash2 depth k
          → selected bucket_of hash1 hash2 depth parents row ≡ true)
      → same_summary
          (summary_at
            (segment bucket_of hash1 hash2 depth k)
            (grouped bucket_of hash1 hash2 depth source))
          (summary_at
            (segment bucket_of hash1 hash2 depth k)
            (grouped bucket_of hash1 hash2 depth target))
        ≡ false
      → has_num
          (segment bucket_of hash1 hash2 depth k)
          (level_differing bucket_of hash1 hash2 source target depth parents)
        ≡ true
  unfolding level_differing differing summarize
  level_differing-mem k depth parents sel h =
      let b : ℕ = segment bucket_of hash1 hash2 depth k in
      let p : Row → Bool = selected bucket_of hash1 hash2 depth parents in
      let left = grouped bucket_of hash1 hash2 depth (keep p source) in
      let right = grouped bucket_of hash1 hash2 depth (keep p target) in
      let other : same_summary (summary_at b left) (summary_at b right) ≡ false =
        rw
          (
            summary_at-keep bucket_of hash1 hash2 depth b p source sel,
            summary_at-keep bucket_of hash1 hash2 depth b p target sel,
          )
          h in
      has_num-keep (λ c. not (same_summary (summary_at c left) (summary_at c right))) b
        (sorted_nums (segments_of left ++ segments_of right)) (ap not other)
        (differs-mem b left right other)

  descend-leaves :
      (depth : ℕ) (parents : List ℕ) (b : ℕ) (bs : List ℕ)
      → level_differing bucket_of hash1 hash2 source target depth parents ≡ b ∷ bs
      → descend bucket_of hash1 hash2 source target zero depth parents ≡ leaves depth (b ∷ bs)
  unfolding descend
  descend-leaves depth parents b bs e = ground arith

  descend-deeper :
      (remaining depth : ℕ) (parents : List ℕ) (b : ℕ) (bs : List ℕ)
      → level_differing bucket_of hash1 hash2 source target depth parents ≡ b ∷ bs
      → descend bucket_of hash1 hash2 source target (suc remaining) depth parents
        ≡ descend bucket_of hash1 hash2 source target remaining (suc depth) (b ∷ bs)
  unfolding descend
  descend-deeper remaining depth parents b bs e = ground arith

  -- A level's own rows are all selected where the key's segment is among the level above.
  below_selected :
      (k : String) (depth : ℕ) (parents : List ℕ)
      → suc (suc depth) ≤ max_depth
      → has_num (segment bucket_of hash1 hash2 (suc depth) k) parents ≡ true
      → (row : Row)
      → segment bucket_of hash1 hash2 (suc (suc depth)) row.0
        ≡ segment bucket_of hash1 hash2 (suc (suc depth)) k
      → selected bucket_of hash1 hash2 (suc (suc depth)) parents row ≡ true
  unfolding selected
  below_selected k depth parents h mem row e =
      let parent : segment bucket_of hash1 hash2 (suc depth) row.0
          ≡ segment bucket_of hash1 hash2 (suc depth) k =
        segment-div bucket_of hash1 hash2 (suc depth) row.0 h
        ∙ ap (λ n. n / 16) e
        ∙ sym (segment-div bucket_of hash1 hash2 (suc depth) k h) in
      ap (λ n. has_num n parents) parent ∙ mem

  module _ (k : String)
      (collision_free : (depth : ℕ)
        → same_summary
            (summary_at
              (segment bucket_of hash1 hash2 depth k)
              (grouped bucket_of hash1 hash2 depth source))
            (summary_at
              (segment bucket_of hash1 hash2 depth k)
              (grouped bucket_of hash1 hash2 depth target))
          ≡ true
        → Perm (values_of k source) (values_of k target)) where
    level-cases :
        (depth : ℕ) (parents : List ℕ)
        → ((row : Row)
            → segment bucket_of hash1 hash2 depth row.0 ≡ segment bucket_of hash1 hash2 depth k
            → selected bucket_of hash1 hash2 depth parents row ≡ true)
        → Perm (values_of k source) (values_of k target)
          ⊎ (has_num
                (segment bucket_of hash1 hash2 depth k)
                (level_differing bucket_of hash1 hash2 source target depth parents)
              ≡ true)
    level-cases depth parents sel =
        elim (Bool-cases (
          same_summary
            (summary_at (segment bucket_of hash1 hash2 depth k)
              (grouped bucket_of hash1 hash2 depth source))
            (summary_at (segment bucket_of hash1 hash2 depth k)
              (grouped bucket_of hash1 hash2 depth target)))) [
                | inl same ↦ inl (collision_free depth same)
                | inr other ↦ inr (level_differing-mem k depth parents sel other)
              ]

    descend-Reached :
        (remaining depth : ℕ) (parents : List ℕ)
        → suc depth + remaining ≤ max_depth
        → ((row : Row)
            → segment bucket_of hash1 hash2 (suc depth) row.0
              ≡ segment bucket_of hash1 hash2 (suc depth) k
            → selected bucket_of hash1 hash2 (suc depth) parents row ≡ true)
        → Reached k (descend bucket_of hash1 hash2 source target remaining (suc depth) parents)
    unfolding descend Reached
    descend-Reached zero depth parents bound sel = elim (level-cases (suc depth) parents sel) [
      | inl same ↦ Reached-same k _ same
      | inr mem ↦
          elim (list-cases
            (level_differing bucket_of hash1 hash2 source target (suc depth) parents)) [
              | inl e ↦ ground arith
              | inr (b, bs, e) ↦
                  let found =
                    ap (has_num (segment bucket_of hash1 hash2 (suc depth) k)) (sym e) ∙ mem in
                  subst (Reached k) (sym (descend-leaves (suc depth) parents b bs e)) (inl found)
            ]
    ]
    descend-Reached (suc remaining) depth parents bound sel =
        elim (level-cases (suc depth) parents sel) [
          | inl same ↦ Reached-same k _ same
          | inr mem ↦
              elim (list-cases
                (level_differing bucket_of hash1 hash2 source target (suc depth) parents)) [
                  | inl e ↦ ground arith
                  | inr (b, bs, e) ↦
                      let found =
                        ap (has_num (segment bucket_of hash1 hash2 (suc depth) k)) (sym e) ∙ mem in
                      subst (Reached k) (sym (descend-deeper remaining (suc depth) parents b bs e))
                        (descend-Reached remaining (suc depth) (b ∷ bs) (omega arith)
                          (below_selected k depth (b ∷ bs) (omega arith) found))
                ]
        ]

  changed_keys_sub :
      (k : String) (after : List String) (depth : ℕ) (parents : List ℕ)
      → contains k (changed_keys bucket_of hash1 hash2 source target after depth parents) ≡ true
      → contains k after ≡ true
  unfolding changed_keys
  changed_keys_sub k after depth parents h = ground (
    arith,
    contains-keep (λ key. has_num (segment bucket_of hash1 hash2 depth key) parents) k after,
  )

  values_of-fetch :
      (k : String) (depth : ℕ) (parents : List ℕ) (rows : List Row)
      → has_num (segment bucket_of hash1 hash2 depth k) parents ≡ true
      → values_of k (fetch bucket_of hash1 hash2 rows depth parents) ≡ values_of k rows
  unfolding fetch
  values_of-fetch k depth parents rows mem =
      values_of-fetched k (λ row. has_num (segment bucket_of hash1 hash2 depth row.0) parents) rows
        (λ row e. ap (λ key. has_num (segment bucket_of hash1 hash2 depth key) parents) e ∙ mem)

  of_values :
      (k : String) (after : List String) (ls rs : List (List String))
      → ((ls ≡ []) × (rs ≡ [])) ⊎ Agrees after k ls rs
      → Perm ls rs ⊎ ((ls ≡ []) × (contains k after ≡ true))
  of_values k after ls rs (inl none_here) =
      inl (subst (Perm ls) (none_here.0 ∙ sym none_here.1) (Perm.refl ls))
  of_values k after ls rs (inr (inl one)) = inl (subst (Perm ls) (one.1 ∙ sym one.2) (Perm.refl ls))
  of_values k after ls rs (inr (inr late)) = inr late

  landing-clean :
      (names after : List String) (k : String) (l : Landing) (d : TableDiff)
      → Reached k l
      → compare_landing bucket_of hash1 hash2 source target names after l ≡ some d
      → clean d ≡ true
      → Perm (values_of k source) (values_of k target)
        ⊎ ((values_of k source ≡ []) × (contains k after ≡ true))
  unfolding compare_landing Reached
  landing-clean names after k settled d same h c = inl same
  landing-clean names after k (leaves depth parents) d (inr same) h c = inl same
  landing-clean names after k (leaves depth parents) d (inl mem) h c =
      let changed = changed_keys bucket_of hash1 hash2 source target after depth parents in
      let ls = values_of-fetch k depth parents source mem in
      let rs = values_of-fetch k depth parents target mem in
      let found = diff_rows-values names changed _ _ k d h c in
      elim (of_values k changed _ _ found) [
        | inl same ↦ inl (
            subst (λ xs. Perm xs (values_of k target)) ls
              (subst (Perm (values_of k (fetch bucket_of hash1 hash2 source depth parents))) rs
                same))
        | inr late ↦ inr (sym ls ∙ late.0, changed_keys_sub k after depth parents late.1)
      ]

-- Take any key, and suppose its segment's two summaries are equal at a depth only where both sides have the same rows of
-- the key, up to order. If the descent from the first level to the leaves then ends with nothing to report, both sides
-- do have the same rows of the key, up to order, or the source has no row of it and its row changed after the watermark.
-- So no level of the descent drops a segment that holds a difference, whatever the leaf width.
pub diff_table_complete :
    (bucket_of : String → ℕ) (hash1 hash2 : Row → ℕ) (source target : List Row)
    (names after : List String) (leaf_width : ℕ) (d : TableDiff) (k : String)
    → ((depth : ℕ)
        → same_summary
            (summary_at
              (segment bucket_of hash1 hash2 depth k)
              (grouped bucket_of hash1 hash2 depth source))
            (summary_at
              (segment bucket_of hash1 hash2 depth k)
              (grouped bucket_of hash1 hash2 depth target))
          ≡ true
        → Perm (values_of k source) (values_of k target))
    → diff_table bucket_of hash1 hash2 source target names after leaf_width ≡ some d
    → clean d ≡ true
    → Perm (values_of k source) (values_of k target)
      ⊎ ((values_of k source ≡ []) × (contains k after ≡ true))
unfolding diff_table last_depth selected
diff_table_complete bucket_of hash1 hash2 source target names after leaf_width d k free h c =
    let bound =
      leaf_depth-le
        (max (first_rows bucket_of hash1 hash2 source target source)
          (first_rows bucket_of hash1 hash2 source target target))
        leaf_width in
    landing-clean bucket_of hash1 hash2 source target names after k _ d
      (descend-Reached bucket_of hash1 hash2 source target k free _ 0 [] (omega (arith, bound))
        (λ row e. refl))
      h c
