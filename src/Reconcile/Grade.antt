-- ===== src/Reconcile/Grade.antt =====
-- `grade` of src/platform_ops/reconcile/metrics.py: what a comparison found against the differences that the simulated
-- migration planted. Rates, which are floats, are left as their numerators and denominators.
pub mod Planted
pub mod Counts
use data_platform_ops.Prelude.{
  ℕ, suc, ◌+◌, String, Bool, true, false, ◌&&◌, ◌||◌, Option, none, some, List, [], ◌∷◌, length,
  if◌then◌else◌, Dict, get, put, ◌==◌, any_of, str_leb, sort_by,
}

pub record Rule : Type 0 where
  pub casefold : Bool
  pub rtrim : Bool

-- A cell is named by its table, key and column.
pub record Cell : Type 0 where
  pub table : String
  pub key : String
  pub column : String

pub record TruthCell : Type 0 where
  pub cell : Cell
  pub klass : String
  pub label : String

pub record Discrepancy : Type 0 where
  pub cell : Cell
  pub klass : String

pub record Grade : Type 0 where
  pub expected : ℕ
  pub detected : ℕ
  pub true_positives : ℕ
  pub correctly_classified : ℕ
  pub equivalent_under_policy : ℕ
  -- label ↦ (planted, found)
  pub by_label : Dict (ℕ × ℕ)

unfoldable pub same_cell : Cell → Cell → Bool
same_cell a b = (a.table == b.table) && ((a.key == b.key) && (a.column == b.column))

neutralized_by_rule : String → Option Rule → Bool
neutralized_by_rule klass none = false
neutralized_by_rule klass (some rule) =
    ((klass == "case_only") && rule.casefold) || ((klass == "whitespace") && rule.rtrim)

-- From the rules of the cell's table, by column.
unfoldable pub neutralized_by_policy : TruthCell → Dict Rule → Bool
unfolding neutralized_by_rule
neutralized_by_policy truth rules = neutralized_by_rule truth.klass (get truth.cell.column rules)

-- d[cell] = value, keys in the order of insertion
put_truth : TruthCell → List TruthCell → List TruthCell
put_truth t [] = t ∷ []
put_truth t (u ∷ us) = if same_cell u.cell t.cell then t ∷ us else u ∷ put_truth t us

put_found : Discrepancy → List Discrepancy → List Discrepancy
put_found d [] = d ∷ []
put_found d (e ∷ es) = if same_cell e.cell d.cell then d ∷ es else e ∷ put_found d es

-- `rules` gives the rules of each table that was compared, and the planted cells are in those tables: elsewhere
-- Python raises a `KeyError`. The planted cells that the policy does not neutralize, the last of each cell.
pub expected_from : (String → Dict Rule) → List TruthCell → List TruthCell → List TruthCell
unfolding put_truth
expected_from rules [] expected = expected
expected_from rules (t ∷ ts) expected =
    expected_from rules ts
      (if neutralized_by_policy t (rules t.cell.table) then expected else put_truth t expected)

equivalents : (String → Dict Rule) → List TruthCell → ℕ
equivalents rules [] = 0
equivalents rules (t ∷ ts) =
    (if neutralized_by_policy t (rules t.cell.table) then 1 else 0) + equivalents rules ts

found_from : List Discrepancy → List Discrepancy → List Discrepancy
unfolding put_found
found_from [] found = found
found_from (d ∷ ds) found = found_from ds (put_found d found)

class_of : Cell → List Discrepancy → Option String
class_of cell [] = none
class_of cell (d ∷ ds) =
    let rest = class_of cell ds in if same_cell d.cell cell then some d.klass else rest

is_hit : Option String → ℕ
is_hit none = 0
is_hit (some klass) = 1

is_correct : String → Option String → ℕ
is_correct klass none = 0
is_correct klass (some other) = if other == klass then 1 else 0

pub hits_in : List Discrepancy → List TruthCell → ℕ
unfolding class_of is_hit
hits_in found [] = 0
hits_in found (t ∷ ts) = is_hit (class_of t.cell found) + hits_in found ts

correct_in : List Discrepancy → List TruthCell → ℕ
unfolding class_of is_correct
correct_in found [] = 0
correct_in found (t ∷ ts) = is_correct t.klass (class_of t.cell found) + correct_in found ts

-- labels.setdefault(label, [0, 0]), then one more planted and, when it is found, one more found
tally : String → ℕ → Dict (ℕ × ℕ) → Dict (ℕ × ℕ)
tally label hit [] = (label, (1, hit)) ∷ []
tally label hit ((other, (planted, seen)) ∷ labels) =
    if other == label
    then (other, (planted + 1, seen + hit)) ∷ labels
    else (other, (planted, seen)) ∷ tally label hit labels

tally_all : List Discrepancy → List TruthCell → Dict (ℕ × ℕ) → Dict (ℕ × ℕ)
unfolding tally class_of is_hit
tally_all found [] labels = labels
tally_all found (t ∷ ts) labels =
    tally_all found ts (tally t.label (is_hit (class_of t.cell found)) labels)

unfoldable pub grade : List TruthCell → List Discrepancy → (String → Dict Rule) → Grade
unfolding expected_from equivalents found_from hits_in correct_in tally_all
grade truth discrepancies rules =
    let expected = expected_from rules truth [] in
    let found = found_from discrepancies [] in
    record {
      expected = length expected;
      detected = length found;
      true_positives = hits_in found expected;
      correctly_classified = correct_in found expected;
      equivalent_under_policy = equivalents rules truth;
      by_label = sort_by (λ a b. str_leb a.0 b.0) (tally_all found expected []);
    }
