-- ===== src/Reconcile/Explain.antt =====
-- `explain` of src/platform_ops/reconcile/explain.py: whether the differences of a report are explained by the raw tables
-- it reads. A set is a list here, and where a lookup raises (KeyError, StopIteration) the result is `none`.
pub mod Accounted
use data_platform_ops.Prelude.{
  String, Bool, true, false, not, ◌&&◌, ◌||◌, Option, none, some, List, [], ◌∷◌, ◌++◌, map,
  contains, keep, any_of, if◌then◌else◌, Dict, get, sorted_set, ◌==◌, add_text,
}
use data_platform_ops.Reconcile.Diff.{TableDiff, clean, is_empty}

-- What `TableSpec.column` and `Column.target` read of a column.
pub record Column : Type 0 where
  pub name : String
  pub target_name : String

-- What `explain` reads of `TableSpec`.
pub record TableSpec : Type 0 where
  pub key : List String
  pub columns : List Column
  pub upstream : List String

-- A table and a column of it.
abbrev pub RawColumn : Type 0
RawColumn = String × String

pub record Explanation : Type 0 where
  pub explained : Bool
  pub causes : List String
  pub traced : Bool

unfoldable pub target : Column → String
target c = if c.target_name == "" then c.name else c.target_name

-- `TableSpec.column`
unfoldable pub column : List Column → String → Option Column
column [] name = none
column (c ∷ cs) name = if c.name == name then some c else column cs name

unfoldable pub with_target : Option Column → Option (List String) → Option (List String)
unfolding target
with_target none names = none
with_target (some c) none = none
with_target (some c) (some names) = some (target c ∷ names)

-- The target names of the columns with these names.
unfoldable pub targets : List Column → List String → Option (List String)
unfolding column with_target
targets cs [] = some []
targets cs (name ∷ names) = with_target (column cs name) (targets cs names)

unfoldable pub has_row_differences : TableDiff → Bool
unfolding is_empty
has_row_differences d =
    not (is_empty d.missing) || (not (is_empty d.extra) || not (is_empty d.duplicates))

-- The report's columns whose differences are to be explained, by name.
unfoldable pub needed_names : TableSpec → TableDiff → List String
unfolding has_row_differences
needed_names report d =
    map (λ c. c.column) d.cells ++ (if has_row_differences d then report.key else [])

unfoldable pub is_cell : List RawColumn → RawColumn → Bool
is_cell cells (t, c) = any_of (λ d. (d.0 == t) && (d.1 == c)) cells

unfoldable pub column_cause : RawColumn → String
column_cause (t, c) = add_text t (add_text "." c)

unfoldable pub rows_cause : RawColumn → String
rows_cause (t, c) = add_text t " (rows)"

unfoldable pub found : List RawColumn → List String → List RawColumn → List String
unfolding is_cell column_cause rows_cause
found cells rows depends =
    map column_cause (keep (is_cell cells) depends)
    ++ map rows_cause (keep (λ d. contains d.0 rows) depends)

-- The loop over the needed columns.
unfoldable pub explain_columns :
    Dict (List RawColumn)
    → List RawColumn
    → List String
    → List String
    → Bool
    → List String
    → Option Explanation
unfolding found is_empty
explain_columns lineage cells rows [] explained causes =
    some (record { explained = explained; causes = sorted_set causes; traced = true })
explain_columns lineage cells rows (column ∷ columns) explained causes = elim (get column lineage) [
  | none ↦ none
  | some depends ↦
      explain_columns lineage cells rows columns
        (explained && not (is_empty (found cells rows depends)))
        (causes ++ found cells rows depends)
]

unfoldable pub by_tables : TableSpec → List RawColumn → List String → Explanation
unfolding is_empty
by_tables report cells rows =
    let hit = sorted_set (keep (λ t. contains t report.upstream) (rows ++ map (λ c. c.0) cells)) in
    record { explained = not (is_empty hit); causes = hit; traced = false }

unfoldable pub explain_traced :
    Dict (List RawColumn) → List RawColumn → List String → Option (List String) → Option Explanation
unfolding explain_columns
explain_traced lineage cells rows none = none
explain_traced lineage cells rows (some needed) =
    explain_columns lineage cells rows (sorted_set needed) true []

is_traced : Option (Dict (List RawColumn)) → Bool
is_traced none = false
is_traced (some lineage) = true

explain_unclean :
    TableSpec
    → TableDiff
    → Option (Dict (List RawColumn))
    → List RawColumn
    → List String
    → Option Explanation
unfolding explain_traced by_tables targets needed_names
explain_unclean report d none cells rows = some (by_tables report cells rows)
explain_unclean report d (some lineage) cells rows =
    explain_traced lineage cells rows (targets report.columns (needed_names report d))

unfoldable pub explain :
    TableSpec
    → TableDiff
    → Option (Dict (List RawColumn))
    → List RawColumn
    → List String
    → Option Explanation
unfolding explain_unclean is_traced
explain report d lineage cells rows =
    if clean d
    then some (record { explained = true; causes = []; traced = is_traced lineage })
    else explain_unclean report d lineage cells rows
