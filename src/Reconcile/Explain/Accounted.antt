-- ===== src/Reconcile/Explain/Accounted.antt =====
-- What it means that `explain` of src/platform_ops/reconcile/explain.py calls a report explained.
use data_platform_ops.Prelude.{
  String, Bool, true, false, not, ◌&&◌, ◌||◌, ◌≡◌, inl, inr, refl, ap, ◌∙◌, subst, arith, eq→path,
  Option, none, some, List, [], ◌∷◌, ◌++◌, map, contains, keep, any_of, all_of, Bool-cases,
  Option-cases, Dict, get, insert_set, sorted_set, ◌==◌,
}
use data_platform_ops.Reconcile.Diff.{TableDiff, clean, is_empty}
use data_platform_ops.Reconcile.Explain.{
  Column, TableSpec, RawColumn, Explanation, target, column, with_target, targets, needed_names,
  is_cell, column_cause, rows_cause, found, explain_columns, explain_traced, explain_unclean,
  explain, has_row_differences,
}

-- One of the raw columns differs tonight, or its table has rows that differ.
abbrev pub reached : List RawColumn → List String → List RawColumn → Bool
reached cells rows depends = any_of (λ d. is_cell cells d || contains d.0 rows) depends

abbrev pub reached_from : List RawColumn → List String → Option (List RawColumn) → Bool
reached_from cells rows none = false
reached_from cells rows (some depends) = reached cells rows depends

abbrev pub through : (String → Bool) → Option Column → Bool
through test none = false
through test (some c) = test (target c)

-- The report's column of that name is traced to something that differs tonight.
abbrev pub accounted :
    TableSpec → Dict (List RawColumn) → List RawColumn → List String → String → Bool
accounted report lineage cells rows name =
    through (λ t. reached_from cells rows (get t lineage)) (column report.columns name)

all_of-insert_set :
    (test : String → Bool) (x : String) (ys : List String)
    → all_of test (insert_set x ys) ≡ (test x && all_of test ys)
all_of-insert_set test x [] = refl
all_of-insert_set test x (y ∷ ys) = elim (Bool-cases (x == y)) [
  | inl e ↦ rw e (let same = ap test (eq→path x y e) in ground (arith, same))
  | inr ne ↦ rw ne (ground (arith, all_of-insert_set test x ys))
]

all_of-sorted_set :
    (test : String → Bool) (xs : List String) → all_of test (sorted_set xs) ≡ all_of test xs
all_of-sorted_set test [] = refl
all_of-sorted_set test (x ∷ xs) =
    ground (arith, all_of-insert_set test x (sorted_set xs), all_of-sorted_set test xs)

is_empty-append : (xs ys : List String) → is_empty (xs ++ ys) ≡ (is_empty xs && is_empty ys)
unfolding is_empty
is_empty-append [] ys = refl
is_empty-append (x ∷ xs) ys = refl

is_empty-keep :
    (test : RawColumn → Bool) (text : RawColumn → String) (ds : List RawColumn)
    → is_empty (map text (keep test ds)) ≡ not (any_of test ds)
unfolding is_empty
is_empty-keep test text [] = refl
is_empty-keep test text (d ∷ ds) = elim (Bool-cases (test d)) [
  | inl e ↦ ground (arith, e)
  | inr ne ↦ ground (arith, ne, is_empty-keep test text ds)
]

any_of-or :
    (test more : RawColumn → Bool) (ds : List RawColumn)
    → any_of (λ d. test d || more d) ds ≡ (any_of test ds || any_of more ds)
any_of-or test more [] = refl
any_of-or test more (d ∷ ds) = ground (arith, any_of-or test more ds)

found-reached :
    (cells : List RawColumn) (rows : List String) (ds : List RawColumn)
    → not (is_empty (found cells rows ds)) ≡ reached cells rows ds
unfolding found
found-reached cells rows ds =
    let in_rows = λ (d : RawColumn). contains d.0 rows in
    ground (
      arith,
      is_empty-append (map column_cause (keep (is_cell cells) ds))
          (map rows_cause (keep in_rows ds)),
      is_empty-keep (is_cell cells) column_cause ds,
      is_empty-keep in_rows rows_cause ds,
      any_of-or (is_cell cells) in_rows ds,
    )

some-names : {xs ys : List String} → some xs ≡ some ys → xs ≡ ys
some-names h = cc

columns-explained :
    (lineage : Dict (List RawColumn)) (cells : List RawColumn) (rows columns : List String)
    (explained : Bool) (causes : List String) (e : Explanation)
    → explain_columns lineage cells rows columns explained causes ≡ some e
    → e.explained ≡ (explained && all_of (λ t. reached_from cells rows (get t lineage)) columns)
unfolding explain_columns
columns-explained lineage cells rows [] explained causes e h = ground (arith, h)
columns-explained lineage cells rows (t ∷ ts) explained causes e h =
    elim (Option-cases (get t lineage)) [
      | inl missing ↦ (let gone = rw (missing, explain_columns) at h in cc)
      | inr (depends, present) ↦
          (let taken = rw (present, explain_columns) at h in
            let later =
              columns-explained lineage cells rows ts
                (explained && not (is_empty (found cells rows depends)))
                (causes ++ found cells rows depends) e taken in
            rw present (ground (arith, found-reached cells rows depends, later)))
    ]

-- The targets of the named columns all pass a test if each name's column does.
targets-all_of :
    (test : String → Bool) (cs : List Column) (names ts : List String)
    → targets cs names ≡ some ts
    → all_of test ts ≡ all_of (λ n. through test (column cs n)) names
unfolding targets with_target
targets-all_of test cs [] ts h = let none_left = some-names h in cc
targets-all_of test cs (name ∷ names) ts h = elim (Option-cases (column cs name)) [
  | inl missing ↦ (let gone = rw missing at h in cc)
  | inr (c, present) ↦ (elim (Option-cases (targets cs names)) [
    | inl missing ↦ (let gone = rw (present, missing) at h in cc)
    | inr (later, rest) ↦
        (let whole = some-names (rw (present, rest) at h) in
          let all_later = targets-all_of test cs names later rest in
          rw present (
            subst
              (λ l.
                all_of test l ≡ (test (target c) && all_of (λ n. through test (column cs n)) names))
              whole (ap (λ b. test (target c) && b) all_later)))
  ])
]

abbrev pub is_here : Option (List RawColumn) → Bool
is_here none = false
is_here (some depends) = true

-- The report has a column of that name, and its lineage is given.
abbrev pub known : TableSpec → Dict (List RawColumn) → String → Bool
known report lineage name = through (λ t. is_here (get t lineage)) (column report.columns name)

targets-some :
    (test : String → Bool) (cs : List Column) (names : List String)
    → all_of (λ n. through test (column cs n)) names ≡ true
    → (ts : List String) × (targets cs names ≡ some ts)
unfolding targets with_target
targets-some test cs [] h = ([], refl)
targets-some test cs (name ∷ names) h = elim (Option-cases (column cs name)) [
  | inl missing ↦ (let gone = rw missing at h in cc)
  | inr (c, present) ↦
      (let rest = targets-some test cs names (ground (arith, h)) in
        (target c ∷ rest.0, rw (present, rest.1)))
]

columns-some :
    (lineage : Dict (List RawColumn)) (cells : List RawColumn) (rows columns : List String)
    (explained : Bool) (causes : List String)
    → all_of (λ t. is_here (get t lineage)) columns ≡ true
    → (e : Explanation) × (explain_columns lineage cells rows columns explained causes ≡ some e)
unfolding explain_columns
columns-some lineage cells rows [] explained causes h = (_, refl)
columns-some lineage cells rows (t ∷ ts) explained causes h = elim (Option-cases (get t lineage)) [
  | inl missing ↦ (let gone = rw missing at h in cc)
  | inr (depends, present) ↦
      (let rest =
          columns-some lineage cells rows ts
            (explained && not (is_empty (found cells rows depends)))
            (causes ++ found cells rows depends) (ground (arith, h)) in
        (rest.0, rw (present, explain_columns) rest.1))
]

empty-nil : {A : Type 0} (xs : List A) → is_empty xs ≡ true → xs ≡ []
unfolding is_empty
empty-nil [] h = refl
empty-nil (x ∷ xs) h = ground arith

needed_names-clean :
    (report : TableSpec) (d : TableDiff) → clean d ≡ true → needed_names report d ≡ []
unfolding needed_names has_row_differences clean is_empty
needed_names-clean report d h = rw (
  empty-nil d.cells (ground (arith, h)),
  empty-nil d.missing (ground (arith, h)),
  empty-nil d.extra (ground (arith, h)),
  empty-nil d.duplicates (ground (arith, h)),
)

-- Where every column that is needed exists in the report and has its lineage, the answer is given, and the report is
-- explained exactly when each cell that differs, and each key column if a row is missing, extra or duplicated, is in a
-- column traced to a raw column that differs tonight or to a table whose rows do.
pub explain-accounted :
    (report : TableSpec) (d : TableDiff) (lineage : Dict (List RawColumn)) (cells : List RawColumn)
    (rows : List String)
    → all_of (known report lineage) (needed_names report d) ≡ true
    → (e : Explanation) × (explain report d (some lineage) cells rows ≡ some e)
      × (e.explained ≡ all_of (accounted report lineage cells rows) (needed_names report d))
unfolding explain explain_unclean explain_traced
explain-accounted report d lineage cells rows h = elim (Bool-cases (clean d)) [
  | inl e ↦ rw e (_, refl, rw (needed_names-clean report d e))
  | inr ne ↦
      (let names = needed_names report d in
        let here_ = λ (t : String). is_here (get t lineage) in
        let all_targets = targets-some here_ report.columns names h in
        let ts = all_targets.0 in
        let lineages =
          all_of-sorted_set here_ ts
          ∙ targets-all_of here_ report.columns names ts all_targets.1
          ∙ h in
        let answer = columns-some lineage cells rows (sorted_set ts) true [] lineages in
        (
          answer.0,
          rw (ne, all_targets.1) answer.1,
          columns-explained lineage cells rows (sorted_set ts) true [] answer.0 answer.1
              ∙ all_of-sorted_set (λ t. reached_from cells rows (get t lineage)) ts
              ∙ targets-all_of (λ t. reached_from cells rows (get t lineage)) report.columns names
                  ts all_targets.1,
        ))
]
