-- ===== src/Reconcile/Diff.antt =====
-- The end of `diff_table` of src/platform_ops/reconcile/diff.py: from the rows it fetched to what it reports of each key.
-- Where Python's `zip(..., strict=True)` raises the result is `none`. The descent before it is in Descent.
pub mod Clean
pub mod Rows
pub mod Counts
use data_platform_ops.Prelude.{
  ℕ, suc, ◌+◌, String, Bool, true, false, not, ◌&&◌, ◌||◌, Option, none, some, List, [], ◌∷◌, ◌++◌,
  contains, length, if◌then◌else◌, Dict, get, keys, or_default, append_at, sorted_set, ◌==◌,
}

pub record CellDiff : Type 0 where
  pub key : String
  pub column : String
  pub source : String
  pub target : String

pub record DuplicateKey : Type 0 where
  pub key : String
  pub source : ℕ
  pub target : ℕ

-- What `TableDiff` holds of single rows.
pub record TableDiff : Type 0 where
  pub missing : List String
  pub extra : List String
  pub cells : List CellDiff
  pub duplicates : List DuplicateKey
  pub in_flight : List String

unfoldable pub is_empty {ℓ} : {A : Type ℓ} → List A → Bool
is_empty [] = true
is_empty (x ∷ xs) = false

unfoldable pub clean : TableDiff → Bool
unfolding is_empty
clean d = is_empty d.missing && (is_empty d.extra && (is_empty d.cells && is_empty d.duplicates))

-- Each key's rows, every copy kept.
by_key_from : List (String × List String) → Dict (List (List String)) → Dict (List (List String))
by_key_from [] grouped = grouped
by_key_from ((key, row) ∷ rows) grouped = by_key_from rows (append_at key row grouped)

unfoldable pub by_key : List (String × List String) → Dict (List (List String))
unfolding by_key_from
by_key rows = by_key_from rows []

unfoldable pub same_row : List String → List String → Bool
same_row [] [] = true
same_row (x ∷ xs) (y ∷ ys) = (x == y) && same_row xs ys
same_row _ _ = false

with_cell : String → String → String → String → Option (List CellDiff) → Option (List CellDiff)
with_cell key name x y none = none
with_cell key name x y (some cells) =
    if x == y
    then some cells
    else some (record { key = key; column = name; source = x; target = y } ∷ cells)

-- The columns that differ: a strict zip of the names and the two rows.
unfoldable pub cells_of : String → List String → List String → List String → Option (List CellDiff)
unfolding with_cell
cells_of key [] [] [] = some []
cells_of key (name ∷ names) (x ∷ xs) (y ∷ ys) = with_cell key name x y (cells_of key names xs ys)
cells_of key _ _ _ = none

add_cells : TableDiff → Option (List CellDiff) → Option TableDiff
add_cells d none = none
add_cells d (some cells) = some (record d { cells = d.cells ++ cells })

add_duplicate : String → ℕ → ℕ → TableDiff → Option TableDiff
add_duplicate key a b d =
    some (record d {
      duplicates = d.duplicates ++ (record { key = key; source = a; target = b } ∷ []);
    })

add_extra : Bool → String → TableDiff → TableDiff
add_extra true key d = record d { in_flight = d.in_flight ++ (key ∷ []) }
add_extra false key d = record d { extra = d.extra ++ (key ∷ []) }

-- One turn of the loop over the keys, by the rows that each side has.
unfoldable pub compare_key :
    List String
    → List String
    → String
    → List (List String)
    → List (List String)
    → TableDiff
    → Option TableDiff
unfolding add_duplicate add_extra add_cells
compare_key names changed key (a ∷ a' ∷ ls) rs d =
    add_duplicate key (suc (suc (length ls))) (length rs) d
compare_key names changed key [] (b ∷ b' ∷ rs) d = add_duplicate key 0 (suc (suc (length rs))) d
compare_key names changed key (a ∷ []) (b ∷ b' ∷ rs) d =
    add_duplicate key 1 (suc (suc (length rs))) d
compare_key names changed key [] [] d = some (record d { missing = d.missing ++ (key ∷ []) })
compare_key names changed key (a ∷ []) [] d = some (record d { missing = d.missing ++ (key ∷ []) })
compare_key names changed key [] (b ∷ []) d = some (add_extra (contains key changed) key d)
compare_key names changed key (a ∷ []) (b ∷ []) d =
    if same_row a b then some d else add_cells d (cells_of key names a b)

and_then : Option TableDiff → (TableDiff → Option TableDiff) → Option TableDiff
and_then none f = none
and_then (some d) f = f d

pub compare_keys :
    List String
    → List String
    → Dict (List (List String))
    → Dict (List (List String))
    → List String
    → TableDiff
    → Option TableDiff
unfolding and_then
compare_keys names changed source target [] d = some d
compare_keys names changed source target (key ∷ ks) d =
    and_then
      (compare_key names changed key (or_default [] (get key source))
        (or_default [] (get key target)) d)
      (compare_keys names changed source target ks)

abbrev pub no_diff : TableDiff
no_diff = record { missing = []; extra = []; cells = []; duplicates = []; in_flight = [] }

-- What is reported of the rows that were fetched.
unfoldable pub diff_rows :
    List String
    → List String
    → List (String × List String)
    → List (String × List String)
    → Option TableDiff
unfolding compare_keys and_then
diff_rows names changed left_rows right_rows =
    compare_keys names changed (by_key left_rows) (by_key right_rows)
      (sorted_set (keys (by_key left_rows) ++ keys (by_key right_rows))) no_diff
