-- ===== src/Reconcile/Descent/Reordered.antt =====
-- What `diff_table` of src/platform_ops/reconcile/diff.py makes of two sides that hold the same rows.
use mathlib.Core.Bool.{Bool-set}
use mathlib.Core.Logic.{∥∥₁_elim}
use mathlib.Core.List.{Perm, Permᴰ}
use data_platform_ops.Prelude.{
  ℕ, zero, suc, ◌-◌, String, Bool, true, false, not, ◌≡◌, refl, sym, ap, ◌∙◌, arith, Option, none,
  some, List, [], ◌∷◌, keep, eqb, if◌then◌else◌, ◌&&◌,
}
use data_platform_ops.Reconcile.Segments.{
  Row, Summary, segment, selected, grouped, summary_at, same_summary, summarize,
}
use data_platform_ops.Reconcile.Segments.Laws.{bump, summary_at-add_row}
use data_platform_ops.Reconcile.Diff.{no_diff}
use data_platform_ops.Reconcile.Descent.{
  settled, differing, level_differing, descend, last_depth, compare_landing, diff_table,
}

bump_comm :
    (g1 g2 h1 h2 : ℕ) (s : Option Summary) → bump g1 g2 (bump h1 h2 s) ≡ bump h1 h2 (bump g1 g2 s)
unfolding bump
bump_comm g1 g2 h1 h2 none = ground arith
bump_comm g1 g2 h1 h2 (some s) = ground arith

same_summary_refl : (s t : Option Summary) → s ≡ t → same_summary s t ≡ true
unfolding same_summary
same_summary_refl none none h = refl
same_summary_refl none (some t) h = ground arith
same_summary_refl (some s) none h = ground arith
same_summary_refl (some s) (some t) h = ground arith

keep_none {ℓ} : {A : Type ℓ} (p : A → Bool) (xs : List A) → ((x : A) → p x ≡ false) → keep p xs ≡ []
keep_none p [] h = refl
keep_none p (x ∷ xs) h = rw (h x) (keep_none p xs h)

module _ (bucket_of : String → ℕ) (hash1 hash2 : Row → ℕ) (depth : ℕ) (p : Row → Bool) (b : ℕ) where
  -- A segment's summary, over the selected rows.
  summary : List Row → Option Summary
  summary rows = summary_at b (grouped bucket_of hash1 hash2 depth (keep p rows))

  -- What one row adds to it.
  add : Row → Option Summary → Option Summary
  add row s =
      if p row && eqb (segment bucket_of hash1 hash2 depth row.0) b
      then bump (hash1 row) (hash2 row) s
      else s

  summary-cons : (row : Row) (rows : List Row) → summary (row ∷ rows) ≡ add row (summary rows)
  unfolding summary add grouped
  summary-cons row rows = ground (
    arith,
    summary_at-add_row b (segment bucket_of hash1 hash2 depth row.0) (hash1 row) (hash2 row)
        (grouped bucket_of hash1 hash2 depth (keep p rows)),
  )

  add_comm : (r q : Row) (s : Option Summary) → add r (add q s) ≡ add q (add r s)
  unfolding add
  add_comm r q s = ground (arith, bump_comm (hash1 r) (hash2 r) (hash1 q) (hash2 q) s)

  summary-reordered : {xs ys : List Row} → Permᴰ xs ys → summary xs ≡ summary ys
  summary-reordered Permᴰ.nil = refl
  summary-reordered (Permᴰ.cons {a = a} {b = a'} {l₁ = xs} {l₂ = ys} e d) =
      summary-cons a xs
      ∙ ap (add a) (summary-reordered d)
      ∙ ap (λ r. add r (summary ys)) e
      ∙ sym (summary-cons a' ys)
  summary-reordered (Permᴰ.swap {a = a} {b = c} {a' = a'} {b' = c'} {l = xs} e f) =
      summary-cons a (c ∷ xs)
      ∙ ap (add a) (summary-cons c xs)
      ∙ add_comm a c (summary xs)
      ∙ ap (λ r. add r (add a (summary xs))) f
      ∙ ap (λ r. add a' (add r (summary xs))) e
      ∙ ap (add a') (sym (summary-cons c' xs))
      ∙ sym (summary-cons a' (c' ∷ xs))
  summary-reordered (Permᴰ.trans d e) = summary-reordered d ∙ summary-reordered e

  summary-same :
      (xs ys : List Row)
      → Perm xs ys
      → same_summary
          (summary_at b (grouped bucket_of hash1 hash2 depth (keep p xs)))
          (summary_at b (grouped bucket_of hash1 hash2 depth (keep p ys)))
        ≡ true
  unfolding summary
  summary-same xs ys same =
      ∥∥₁_elim same (Bool-set _ _) (λ d. same_summary_refl _ _ (summary-reordered d))

settles :
    (bucket_of : String → ℕ) (hash1 hash2 : Row → ℕ) (source target : List Row) (remaining : ℕ)
    → level_differing bucket_of hash1 hash2 source target 1 [] ≡ []
    → descend bucket_of hash1 hash2 source target remaining 1 [] ≡ settled
unfolding descend
settles bucket_of hash1 hash2 source target zero e = ground arith
settles bucket_of hash1 hash2 source target (suc remaining) e = ground arith

-- Two sides that hold the same rows, in any order and duplicated keys included, are found clean: the first level settles
-- the descent and nothing is reported of any key.
pub diff_table-reordered :
    (bucket_of : String → ℕ) (hash1 hash2 : Row → ℕ) (source target : List Row)
    (names after : List String) (leaf_width : ℕ)
    → Perm source target
    → (level_differing bucket_of hash1 hash2 source target 1 [] ≡ [])
      × (diff_table bucket_of hash1 hash2 source target names after leaf_width ≡ some no_diff)
unfolding diff_table level_differing differing summarize compare_landing
diff_table-reordered bucket_of hash1 hash2 source target names after leaf_width same =
    let none_differs =
      keep_none
        (λ b. not (
          same_summary
            (summary_at b
              (grouped bucket_of hash1 hash2 1 (keep (selected bucket_of hash1 hash2 1 []) source)))
            (summary_at b (
              grouped bucket_of hash1 hash2 1
                (keep (selected bucket_of hash1 hash2 1 []) target)))))
        _
        (λ b. ap not (
          summary-same bucket_of hash1 hash2 1 (selected bucket_of hash1 hash2 1 []) b source target
            same)) in
    (
      none_differs,
      ap (compare_landing bucket_of hash1 hash2 source target names after) (
          settles bucket_of hash1 hash2 source target
            (last_depth bucket_of hash1 hash2 source target leaf_width - 1) none_differs),
    )
