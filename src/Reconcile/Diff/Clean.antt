-- ===== src/Reconcile/Diff/Clean.antt =====
-- What it means that `diff_table` of src/platform_ops/reconcile/diff.py finds a table clean.
use data_platform_ops.Prelude.{
  ℕ, String, Bool, true, false, ◌&&◌, ◌≡◌, ◌⊎◌, inl, inr, refl, sym, ap, ◌∙◌, subst, arith, Option,
  none, some, List, [], ◌∷◌, ◌++◌, contains, All, Dict, get, keys, or_default, eq_iff, eq→path,
  Bool-cases, if◌then◌else◌, sorted_set, Option-cases,
}
use data_platform_ops.Reconcile.Diff.{
  TableDiff, CellDiff, is_empty, clean, same_row, cells_of, with_cell, add_cells, add_duplicate,
  add_extra, compare_key, compare_keys, and_then, by_key, diff_rows, no_diff,
}

-- The key has one row on each side, with the same values, or one row on the target only, which the source changed
-- after the watermark.
abbrev pub Agrees : List String → String → List (List String) → List (List String) → Type 0
Agrees changed key ls rs =
    ((row : List String) × (ls ≡ row ∷ []) × (rs ≡ row ∷ []))
    ⊎ ((ls ≡ []) × (contains key changed ≡ true))

same_row-path : (xs ys : List String) → same_row xs ys ≡ true → xs ≡ ys
unfolding same_row
same_row-path [] [] h = refl
same_row-path (x ∷ xs) (y ∷ ys) h =
    let first = eq→path x y (ground arith) in let rest = same_row-path xs ys (ground arith) in cc
same_row-path [] (y ∷ ys) h = cc
same_row-path (x ∷ xs) [] h = cc

with_cell-none :
    (key name x y : String) (cells : Option (List CellDiff))
    → with_cell key name x y cells ≡ some []
    → (x ≡ y) × (cells ≡ some [])
unfolding with_cell
with_cell-none key name x y none h = cc
with_cell-none key name x y (some cells) h = ground (arith, eq_iff x y)

cells_of-none :
    (key : String) (names xs ys : List String) → cells_of key names xs ys ≡ some [] → xs ≡ ys
unfolding cells_of
cells_of-none key [] [] [] h = refl
cells_of-none key (name ∷ names) (x ∷ xs) (y ∷ ys) h =
    let both = with_cell-none key name x y (cells_of key names xs ys) h in
    let rest = cells_of-none key names xs ys both.1 in let first = both.0 in cc
cells_of-none key [] [] (y ∷ ys) h = cc
cells_of-none key [] (x ∷ xs) ys h = cc
cells_of-none key (name ∷ names) [] ys h = cc
cells_of-none key (name ∷ names) (x ∷ xs) [] h = cc

some-path : {d e : TableDiff} → some d ≡ some e → d ≡ e
some-path h = cc

is_empty-append : {A : Type 0} (xs ys : List A) → is_empty (xs ++ ys) ≡ (is_empty xs && is_empty ys)
unfolding is_empty
is_empty-append [] ys = refl
is_empty-append (x ∷ xs) ys = refl

missing-unclean :
    (key : String) (d : TableDiff) → clean (record d { missing = d.missing ++ (key ∷ []) }) ≡ false
unfolding clean is_empty
missing-unclean key d = ground (arith, is_empty-append d.missing (key ∷ []))

duplicate-unclean :
    (key : String) (a b : ℕ) (d e : TableDiff) → add_duplicate key a b d ≡ some e → clean e ≡ false
unfolding add_duplicate clean is_empty
duplicate-unclean key a b d e h =
    subst (λ e. clean e ≡ false) (some-path h)
      (ground
        (arith, is_empty-append d.duplicates (record { key = key; source = a; target = b } ∷ [])))

extra-clean :
    (b : Bool) (key : String) (d : TableDiff)
    → clean (add_extra b key d) ≡ true
    → (clean d ≡ true) × (b ≡ true)
unfolding add_extra clean is_empty
extra-clean true key d h = (h, refl)
extra-clean false key d h = ground (arith, is_empty-append d.extra (key ∷ []))

cells-clean :
    (cells : List CellDiff) (d : TableDiff)
    → clean (record d { cells = d.cells ++ cells }) ≡ true
    → (clean d ≡ true) × (cells ≡ [])
unfolding clean is_empty
cells-clean [] d h = (ground (arith, is_empty-append d.cells []), refl)
cells-clean (x ∷ xs) d h = ground (arith, is_empty-append d.cells (x ∷ xs))

add_cells-clean :
    (cells : Option (List CellDiff)) (d e : TableDiff)
    → add_cells d cells ≡ some e
    → clean e ≡ true
    → (clean d ≡ true) × (cells ≡ some [])
unfolding add_cells
add_cells-clean none d e h c = cc
add_cells-clean (some cells) d e h c =
    let added = ap clean (some-path h) ∙ c in
    let parts = cells-clean cells d added in (parts.0, ap some parts.1)

compare_key-Agrees :
    (names changed : List String) (key : String) (ls rs : List (List String)) (d e : TableDiff)
    → compare_key names changed key ls rs d ≡ some e
    → clean e ≡ true
    → (clean d ≡ true) × Agrees changed key ls rs
unfolding compare_key
compare_key-Agrees names changed key (a ∷ a' ∷ ls) rs d e h c =
    let bad = duplicate-unclean key _ _ d e h in cc
compare_key-Agrees names changed key [] (b ∷ b' ∷ rs) d e h c =
    let bad = duplicate-unclean key _ _ d e h in cc
compare_key-Agrees names changed key (a ∷ []) (b ∷ b' ∷ rs) d e h c =
    let bad = duplicate-unclean key _ _ d e h in cc
compare_key-Agrees names changed key [] [] d e h c =
    let bad = ap clean (some-path h) in let none = missing-unclean key d in cc
compare_key-Agrees names changed key (a ∷ []) [] d e h c =
    let bad = ap clean (some-path h) in let none = missing-unclean key d in cc
compare_key-Agrees names changed key [] (b ∷ []) d e h c =
    let both = extra-clean (contains key changed) key d (ap clean (some-path h) ∙ c) in
    (both.0, inr (refl, both.1))
compare_key-Agrees names changed key (a ∷ []) (b ∷ []) d e h c =
    single-Agrees names key a b d e (Bool-cases (same_row a b)) h c
  where
    single-Agrees :
        (names : List String) (key : String) (a b : List String) (d e : TableDiff)
        → ((same_row a b ≡ true) ⊎ (same_row a b ≡ false))
        → (if same_row a b then some d else add_cells d (cells_of key names a b)) ≡ some e
        → clean e ≡ true
        → (clean d ≡ true) × Agrees changed key (a ∷ []) (b ∷ [])
    single-Agrees names key a b d e (inl same) h c =
        let kept : d ≡ e = ground arith in
        (ap clean kept ∙ c, inl (a, refl, ap (λ r. r ∷ []) (sym (same_row-path a b same))))
    single-Agrees names key a b d e (inr other) h c =
        let added : add_cells d (cells_of key names a b) ≡ some e = ground arith in
        let both = add_cells-clean (cells_of key names a b) d e added c in
        (both.0, inl (a, refl, ap (λ r. r ∷ []) (sym (cells_of-none key names a b both.1))))

compare_keys-Agrees :
    (names changed : List String) (source target : Dict (List (List String))) (ks : List String)
    (d e : TableDiff)
    → compare_keys names changed source target ks d ≡ some e
    → clean e ≡ true
    → (clean d ≡ true)
      × All
          (λ key.
            Agrees changed key (or_default [] (get key source)) (or_default [] (get key target)))
          ks
unfolding compare_keys and_then
compare_keys-Agrees names changed source target [] d e h c = (ap clean (some-path h) ∙ c, tt)
compare_keys-Agrees names changed source target (key ∷ ks) d e h c =
    elim (Option-cases (
      compare_key names changed key (or_default [] (get key source))
        (or_default [] (get key target)) d)) [
          | inl none_here ↦ ground arith
          | inr (next, found) ↦
              let later : compare_keys names changed source target ks next ≡ some e =
                ground arith in
              let rest = compare_keys-Agrees names changed source target ks next e later c in
              let this = compare_key-Agrees names changed key _ _ d next found rest.0 in
              (this.0, (this.1, rest.1))
        ]

-- A comparison that finishes and finds nothing has, for every key of either side, one row on each side with the same
-- values, or a row of the target only whose source row changed after the watermark.
pub diff_rows-clean :
    (names changed : List String) (left_rows right_rows : List (String × List String))
    (d : TableDiff)
    → diff_rows names changed left_rows right_rows ≡ some d
    → clean d ≡ true
    → All
        (λ key.
          Agrees changed key
            (or_default [] (get key (by_key left_rows)))
            (or_default [] (get key (by_key right_rows))))
        (sorted_set (keys (by_key left_rows) ++ keys (by_key right_rows)))
unfolding diff_rows
diff_rows-clean names changed left_rows right_rows d h c =
    (compare_keys-Agrees names changed (by_key left_rows) (by_key right_rows)
      (sorted_set (keys (by_key left_rows) ++ keys (by_key right_rows))) no_diff d h c).1
