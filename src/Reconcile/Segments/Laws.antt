-- ===== src/Reconcile/Segments/Laws.antt =====
-- Laws of the segments and summaries of src/platform_ops/reconcile/connectors.py.
use data_platform_ops.Prelude.{
  ℕ, zero, suc, ◌+◌, ◌-◌, ◌/◌, ◌≤◌, String, Bool, true, false, ◌||◌, ◌≡◌, ◌⊎◌, refl, ap, ◌∙◌, arith,
  Option, none, some, List, [], ◌∷◌, ◌++◌, keep, eqb, has_num, has_num-append, has_num-sorted_nums,
  sorted_nums, Bool-cases, inl, inr, if◌then◌else◌,
}
use data_platform_ops.Reconcile.Segments.{
  Row, Summary, max_depth, shift_right, summary_at, segments_of, same_summary, add_row, segment,
  grouped,
}

shift_right-div : (n x : ℕ) → shift_right n (x / 16) ≡ shift_right n x / 16
unfolding shift_right
shift_right-div zero x = refl
shift_right-div (suc n) x = shift_right-div n (x / 16)

unfoldable pub bump : ℕ → ℕ → Option Summary → Option Summary
bump h1 h2 none = some (record { rows = 1; h1 = h1; h2 = h2 })
bump h1 h2 (some s) = some (record { rows = s.rows + 1; h1 = s.h1 + h1; h2 = s.h2 + h2 })

pub summary_at-add_row :
    (b c h1 h2 : ℕ) (m : List (ℕ × Summary))
    → summary_at b (add_row c h1 h2 m)
      ≡ (if eqb c b then bump h1 h2 (summary_at b m) else summary_at b m)
unfolding summary_at add_row bump
summary_at-add_row b c h1 h2 [] = ground arith
summary_at-add_row b c h1 h2 ((d, s) ∷ m) = ground (arith, summary_at-add_row b c h1 h2 m)

summary_at-none :
    (b : ℕ) (m : List (ℕ × Summary)) → has_num b (segments_of m) ≡ false → summary_at b m ≡ none
unfolding summary_at
summary_at-none b [] h = refl
summary_at-none b ((c, s) ∷ m) h = ground (arith, summary_at-none b m)

module _ (bucket_of : String → ℕ) (hash1 hash2 : Row → ℕ) where
  -- A segment's number divided by 16 is its parent's.
  pub segment-div :
      (depth : ℕ) (key : String)
      → suc depth ≤ max_depth
      → segment bucket_of hash1 hash2 depth key ≡ segment bucket_of hash1 hash2 (suc depth) key / 16
  unfolding segment shift_right
  segment-div depth key h =
      ap (λ n. shift_right n (bucket_of key)) (fewer depth h)
      ∙ shift_right-div (max_depth - suc depth) (bucket_of key)
    where
      fewer : (depth : ℕ) → suc depth ≤ max_depth → max_depth - depth ≡ suc (max_depth - suc depth)
      fewer depth h = omega arith

  -- Leaving out rows of other segments changes no summary.
  pub summary_at-keep :
      (depth b : ℕ) (p : Row → Bool) (rows : List Row)
      → ((row : Row) → segment bucket_of hash1 hash2 depth row.0 ≡ b → p row ≡ true)
      → summary_at b (grouped bucket_of hash1 hash2 depth (keep p rows))
        ≡ summary_at b (grouped bucket_of hash1 hash2 depth rows)
  unfolding grouped
  summary_at-keep depth b p [] h = refl
  summary_at-keep depth b p (row ∷ rows) h =
      let c : ℕ = segment bucket_of hash1 hash2 depth row.0 in
      let rest = summary_at-keep depth b p rows h in
      let kept = grouped bucket_of hash1 hash2 depth (keep p rows) in
      let all = grouped bucket_of hash1 hash2 depth rows in
      elim (Bool-cases (eqb c b)) [
        | inl e ↦
            let inside : p row ≡ true = h row (ground arith) in
            ground (
              arith,
              summary_at-add_row b c (hash1 row) (hash2 row) kept,
              summary_at-add_row b c (hash1 row) (hash2 row) all,
            )
        | inr e ↦ ground (
          arith,
          summary_at-add_row b c (hash1 row) (hash2 row) kept,
          summary_at-add_row b c (hash1 row) (hash2 row) all,
        )
      ]

-- Where summaries differ, one side has the segment.
pub differs-mem :
    (b : ℕ) (l r : List (ℕ × Summary))
    → same_summary (summary_at b l) (summary_at b r) ≡ false
    → has_num b (sorted_nums (segments_of l ++ segments_of r)) ≡ true
unfolding same_summary
differs-mem b l r h =
    has_num-sorted_nums b (segments_of l ++ segments_of r)
    ∙ has_num-append b (segments_of l) (segments_of r)
    ∙ either (Bool-cases (has_num b (segments_of l))) (Bool-cases (has_num b (segments_of r)))
  where
    either :
        ((has_num b (segments_of l) ≡ true) ⊎ (has_num b (segments_of l) ≡ false))
        → ((has_num b (segments_of r) ≡ true) ⊎ (has_num b (segments_of r) ≡ false))
        → (has_num b (segments_of l) || has_num b (segments_of r)) ≡ true
    either (inl p) q = ground arith
    either (inr p) (inl q) = ground arith
    either (inr p) (inr q) = ground (arith, summary_at-none b l p, summary_at-none b r q)
