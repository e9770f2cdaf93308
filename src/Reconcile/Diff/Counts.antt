-- ===== src/Reconcile/Diff/Counts.antt =====
-- The counts of the rows that `diff_table` of src/platform_ops/reconcile/diff.py fetched, against what it reports of them:
-- the sum that `verdict` of src/platform_ops/reconcile/metrics.py checks for a whole table.
use data_platform_ops.Prelude.{
  ℕ, ◌+◌, ◌<◌, String, Bool, true, false, ◌≡◌, ◌≢◌, inl, inr, refl, ap, ◌∙◌, subst, arith, Option,
  some, none, List, [], ◌∷◌, ◌++◌, contains, contains-append, All, All-sorted_set, length,
  length-append, sum_of, sum_of-append, sorted_set, sorted_set-once, Dict, get, keys, or_default,
  append_at, keys-append_at, Entries, Entries-append_at, Entries-get, eq_iff, Bool-cases,
  Option-cases, if◌then◌else◌, ◌==◌, ◌||◌,
}
use data_platform_ops.Reconcile.Diff.{
  TableDiff, DuplicateKey, CellDiff, by_key, by_key_from, diff_rows, compare_key, compare_keys,
  and_then, add_cells, add_duplicate, add_extra, cells_of, same_row, no_diff,
}
use data_platform_ops.Reconcile.Diff.Rows.{values_of, at-by_key}

-- The rows that only the source has, every copy of a duplicated key counted.
abbrev pub source_only : TableDiff → ℕ
source_only d = length d.missing + sum_of (λ k. k.source) d.duplicates

abbrev pub target_only : TableDiff → ℕ
target_only d = length d.extra + (length d.in_flight + sum_of (λ k. k.target) d.duplicates)

-- What one key's rows, `a` on the source and `b` on the target, add to the two.
abbrev Balanced : ℕ → ℕ → TableDiff → TableDiff → Type 0
Balanced a b d e = b + (source_only e + target_only d) ≡ a + (target_only e + source_only d)

some-same : {d e : TableDiff} → some d ≡ some e → d ≡ e
some-same h = cc

duplicate-Balanced :
    (key : String) (a b : ℕ) (d e : TableDiff) → add_duplicate key a b d ≡ some e → Balanced a b d e
unfolding add_duplicate
duplicate-Balanced key a b d e h =
    let more : List DuplicateKey = record { key = key; source = a; target = b } ∷ [] in
    subst (Balanced a b d) (some-same h) (
      omega (
        arith,
        sum_of-append (λ (k : DuplicateKey). k.source) d.duplicates more,
        sum_of-append (λ (k : DuplicateKey). k.target) d.duplicates more,
      ))

extra-Balanced :
    (late : Bool) (key : String) (d : TableDiff) → Balanced 0 1 d (add_extra late key d)
unfolding add_extra
extra-Balanced true key d = omega (arith, length-append d.in_flight (key ∷ []))
extra-Balanced false key d = omega (arith, length-append d.extra (key ∷ []))

cells-Balanced :
    (cells : Option (List CellDiff)) (d e : TableDiff)
    → add_cells d cells ≡ some e
    → Balanced 1 1 d e
unfolding add_cells
cells-Balanced none d e h = cc
cells-Balanced (some cells) d e h = subst (Balanced 1 1 d) (some-same h) (omega arith)

pair-Balanced :
    (same : Bool) (cells : Option (List CellDiff)) (d e : TableDiff)
    → (if same then some d else add_cells d cells) ≡ some e
    → Balanced 1 1 d e
pair-Balanced true cells d e h = subst (Balanced 1 1 d) (some-same h) (omega arith)
pair-Balanced false cells d e h = cells-Balanced cells d e h

compare_key-Balanced :
    (names changed : List String) (key : String) (ls rs : List (List String)) (d e : TableDiff)
    → compare_key names changed key ls rs d ≡ some e
    → 0 < length ls + length rs
    → Balanced (length ls) (length rs) d e
unfolding compare_key
compare_key-Balanced names changed key (a ∷ a' ∷ ls) rs d e h p = duplicate-Balanced key _ _ d e h
compare_key-Balanced names changed key [] (b ∷ b' ∷ rs) d e h p = duplicate-Balanced key _ _ d e h
compare_key-Balanced names changed key (a ∷ []) (b ∷ b' ∷ rs) d e h p =
    duplicate-Balanced key _ _ d e h
compare_key-Balanced names changed key [] [] d e h p = omega (arith, p)
compare_key-Balanced names changed key (a ∷ []) [] d e h p =
    subst (Balanced 1 0 d) (some-same h) (omega (arith, length-append d.missing (key ∷ [])))
compare_key-Balanced names changed key [] (b ∷ []) d e h p =
    subst (Balanced 0 1 d) (some-same h) (extra-Balanced (contains key changed) key d)
compare_key-Balanced names changed key (a ∷ []) (b ∷ []) d e h p =
    pair-Balanced (same_row a b) (cells_of key names a b) d e h

compare_keys-Balanced :
    (names changed : List String) (source target : Dict (List (List String))) (ks : List String)
    (d e : TableDiff)
    → compare_keys names changed source target ks d ≡ some e
    → All
        (λ k. 0 < length (or_default [] (get k source)) + length (or_default [] (get k target)))
        ks
    → Balanced
        (sum_of (λ k. length (or_default [] (get k source))) ks)
        (sum_of (λ k. length (or_default [] (get k target))) ks)
        d
        e
unfolding compare_keys and_then
compare_keys-Balanced names changed source target [] d e h p =
    subst (Balanced 0 0 d) (some-same h) (omega arith)
compare_keys-Balanced names changed source target (key ∷ ks) d e h p =
    elim (Option-cases (
      compare_key names changed key (or_default [] (get key source))
        (or_default [] (get key target)) d)) [
          | inl none_here ↦ ground arith
          | inr (next, found) ↦
              let later : compare_keys names changed source target ks next ≡ some e =
                ground arith in
              omega (
                arith,
                compare_key-Balanced names changed key _ _ d next found p.0,
                compare_keys-Balanced names changed source target ks next e later p.1,
              )
        ]

abbrev Anything : String → List String → Type 0
Anything k row = Unit

by_key_from-Entries :
    (rows : List (String × List String)) (m : Dict (List (List String)))
    → Entries Anything m
    → Entries Anything (by_key_from rows m)
unfolding by_key_from
by_key_from-Entries [] m h = h
by_key_from-Entries ((key, row) ∷ rows) m h =
    by_key_from-Entries rows (append_at key row m) (Entries-append_at Anything key row m tt h)

length-positive : (xs : List (List String)) → xs ≢ [] → 0 < length xs
length-positive [] h = absurd (h refl)
length-positive (x ∷ xs) h = omega arith

rows_of_key :
    (k : String) (rows : List (String × List String))
    → contains k (keys (by_key rows)) ≡ true
    → 0 < length (or_default [] (get k (by_key rows)))
unfolding by_key
rows_of_key k rows h =
    length-positive _ (Entries-get Anything k (by_key rows) h (by_key_from-Entries rows [] tt)).0

rows_of_either :
    (k : String) (ls rs : List (String × List String))
    → contains k (keys (by_key ls) ++ keys (by_key rs)) ≡ true
    → 0 < length (or_default [] (get k (by_key ls))) + length (or_default [] (get k (by_key rs)))
rows_of_either k ls rs h = elim (Bool-cases (contains k (keys (by_key ls)))) [
  | inl e ↦ omega (arith, rows_of_key k ls e)
  | inr ne ↦
      let there = contains-append k (keys (by_key ls)) (keys (by_key rs)) in
      omega (arith, rows_of_key k rs (ground (arith, there, ne, h)))
]

All-members {ℓ} :
    (P : String → Type ℓ) (xs : List String)
    → ((k : String) → contains k xs ≡ true → P k)
    → All P xs
All-members P [] h = tt
All-members P (x ∷ xs) h =
    (h x (ground (arith, eq_iff x x)), All-members P xs (λ k here_. h k (ground (arith, here_))))

abbrev names_of : List (String × List String) → List String
names_of [] = []
names_of ((key, row) ∷ rows) = key ∷ names_of rows

-- The keys of the groups are those of the rows.
keys-by_key_from :
    (k : String) (rows : List (String × List String)) (m : Dict (List (List String)))
    → contains k (keys (by_key_from rows m)) ≡ (contains k (names_of rows) || contains k (keys m))
unfolding by_key_from
keys-by_key_from k [] m = refl
keys-by_key_from k ((key, row) ∷ rows) m =
    ground (arith, keys-by_key_from k rows (append_at key row m), keys-append_at k key row m)

sum-values_of :
    (ks : List String) (key : String) (row : List String) (rows : List (String × List String))
    → sum_of (λ k. length (values_of k ((key, row) ∷ rows))) ks
      ≡ sum_of (λ k. if key == k then 1 else 0) ks + sum_of (λ k. length (values_of k rows)) ks
sum-values_of [] key row rows = omega arith
sum-values_of (k ∷ ks) key row rows = ground (arith, sum-values_of ks key row rows)

sum_of-zero : (ks : List String) → sum_of (λ k. 0) ks ≡ 0
sum_of-zero [] = refl
sum_of-zero (k ∷ ks) = omega (arith, sum_of-zero ks)

-- Where each row's key is in the list once, the rows of the keys are all the rows.
sum-rows :
    (ks : List String) (rows : List (String × List String))
    → All (λ key. sum_of (λ k. if key == k then 1 else 0) ks ≡ 1) (names_of rows)
    → sum_of (λ k. length (values_of k rows)) ks ≡ length rows
sum-rows ks [] h = sum_of-zero ks
sum-rows ks ((key, row) ∷ rows) h =
    omega (arith, sum-values_of ks key row rows, sum-rows ks rows h.1, h.0)

sum-groups :
    (ks : List String) (rows : List (String × List String))
    → sum_of (λ k. length (or_default [] (get k (by_key rows)))) ks
      ≡ sum_of (λ k. length (values_of k rows)) ks
sum-groups [] rows = refl
sum-groups (k ∷ ks) rows =
    let here_ = ap length (at-by_key k rows) in omega (arith, here_, sum-groups ks rows)

-- The lengths of the groups at the keys of a set that has those of the rows.
sum-grouped :
    (xs : List String) (rows : List (String × List String))
    → ((k : String) → contains k (keys (by_key rows)) ≡ true → contains k xs ≡ true)
    → sum_of (λ k. length (or_default [] (get k (by_key rows)))) (sorted_set xs) ≡ length rows
unfolding by_key
sum-grouped xs rows h =
    sum-groups (sorted_set xs) rows
    ∙ sum-rows (sorted_set xs) rows (
        All-members (λ key. sum_of (λ k. if key == k then 1 else 0) (sorted_set xs) ≡ 1)
          (names_of rows)
          (λ key here_.
            let within = h key (ground (arith, here_, keys-by_key_from key rows [])) in
            sorted_set-once key xs ∙ ap (λ b. if b then 1 else 0) within))

-- Where the comparison of the rows finishes, what it reports accounts for the difference of the counts: the target's rows
-- with the missing ones and the source's copies of duplicated keys are as many as the source's rows with the extra ones,
-- those in flight and the target's copies.
pub diff_rows-counts :
    (names changed : List String) (left_rows right_rows : List (String × List String))
    (d : TableDiff)
    → diff_rows names changed left_rows right_rows ≡ some d
    → length right_rows + source_only d ≡ length left_rows + target_only d
unfolding diff_rows
diff_rows-counts names changed left_rows right_rows d h =
    let lks = keys (by_key left_rows) in
    let rks = keys (by_key right_rows) in
    let both = λ (k : String). contains-append k lks rks in
    let balanced =
      compare_keys-Balanced names changed (by_key left_rows) (by_key right_rows)
        (sorted_set (lks ++ rks)) no_diff d h
        (All-sorted_set _ (lks ++ rks)
          (All-members _ (lks ++ rks) (λ k here_. rows_of_either k left_rows right_rows here_))) in
    omega (
      arith,
      balanced,
      sum-grouped (lks ++ rks) left_rows (λ k e. ground (arith, both k, e)),
      sum-grouped (lks ++ rks) right_rows (λ k e. ground (arith, both k, e)),
    )
