-- ===== src/Reconcile/Grade/Planted.antt =====
-- Which planted differences `grade` of src/platform_ops/reconcile/metrics.py expects: its dict of cells, as a list.
use data_platform_ops.Prelude.{
  ℕ, ◌+◌, String, Bool, true, false, not, ◌&&◌, ◌||◌, ◌≡◌, inl, inr, refl, ap, ◌∙◌, subst, arith,
  eq_iff, eq→path, Bool-cases, Option, none, some, List, [], ◌∷◌, any_of, keep, sum_of,
  if◌then◌else◌, Dict, get, ◌==◌,
}
use data_platform_ops.Reconcile.Grade.{
  Rule, Cell, TruthCell, same_cell, neutralized_by_rule, neutralized_by_policy, put_truth,
  expected_from,
}

-- Differences of this class are no differences under the rule of the column.
abbrev pub forgives : String → Option Rule → Bool
forgives klass none = false
forgives klass (some rule) =
    ((klass == "case_only") && rule.casefold) || ((klass == "whitespace") && rule.rtrim)

abbrev pub forgiven : (String → Dict Rule) → TruthCell → Bool
forgiven rules t = forgives t.klass (get t.cell.column (rules t.cell.table))

-- One of these is planted in the cell and not forgiven.
abbrev pub replanted : (String → Dict Rule) → List TruthCell → Cell → Bool
replanted rules ts cell = any_of (λ t. not (forgiven rules t) && same_cell cell t.cell) ts

-- The planted differences that are not forgiven, of each cell the last.
abbrev pub survivors : (String → Dict Rule) → List TruthCell → List TruthCell
survivors rules [] = []
survivors rules (t ∷ ts) =
    let rest = survivors rules ts in
    if forgiven rules t || replanted rules ts t.cell then rest else t ∷ rest

pub same_cell-path : (a b : Cell) → same_cell a b ≡ true → a ≡ b
unfolding same_cell
same_cell-path a b h =
    let table = eq→path a.table b.table (ground arith) in
    let key = eq→path a.key b.key (ground arith) in
    let column = eq→path a.column b.column (ground arith) in cc

same_cell-sym : (a b : Cell) → same_cell a b ≡ same_cell b a
unfolding same_cell
same_cell-sym a b = ground (
  arith,
  eq_iff a.table b.table,
  eq_iff b.table a.table,
  eq_iff a.key b.key,
  eq_iff b.key a.key,
  eq_iff a.column b.column,
  eq_iff b.column a.column,
)

pub policy-forgives :
    (rules : String → Dict Rule) (t : TruthCell)
    → neutralized_by_policy t (rules t.cell.table) ≡ forgiven rules t
unfolding neutralized_by_policy neutralized_by_rule
policy-forgives rules t = by_rule t.klass (get t.cell.column (rules t.cell.table))
  where
    by_rule :
        (klass : String) (rule : Option Rule) → neutralized_by_rule klass rule ≡ forgives klass rule
    by_rule klass none = refl
    by_rule klass (some rule) = refl

-- No cell twice.
abbrev Distinct : List TruthCell → Type 0
Distinct [] = Unit
Distinct (e ∷ es) = (any_of (λ o. same_cell o.cell e.cell) es ≡ false) × Distinct es

cells-put_truth :
    (x : Cell) (t : TruthCell) (es : List TruthCell)
    → any_of (λ o. same_cell o.cell x) (put_truth t es)
      ≡ (same_cell t.cell x || any_of (λ o. same_cell o.cell x) es)
unfolding put_truth
cells-put_truth x t [] = refl
cells-put_truth x t (e ∷ es) = elim (Bool-cases (same_cell e.cell t.cell)) [
  | inl same ↦
      let alike = ap (λ c. same_cell c x) (same_cell-path e.cell t.cell same) in
      rw same (ground (arith, alike))
  | inr other ↦ rw other (ground (arith, cells-put_truth x t es))
]

Distinct-put_truth : (t : TruthCell) (es : List TruthCell) → Distinct es → Distinct (put_truth t es)
unfolding put_truth
Distinct-put_truth t [] d = (refl, tt)
Distinct-put_truth t (e ∷ es) d = elim (Bool-cases (same_cell e.cell t.cell)) [
  | inl same ↦ rw same (
    subst (λ c. any_of (λ o. same_cell o.cell c) es ≡ false) (same_cell-path e.cell t.cell same)
        d.0,
    d.1,
  )
  | inr other ↦ rw other (
    ground (arith, cells-put_truth e.cell t es, same_cell-sym t.cell e.cell, other, d.0),
    Distinct-put_truth t es d.1,
  )
]

sum-keep_same :
    (f : TruthCell → ℕ) (p q : TruthCell → Bool) (es : List TruthCell)
    → ((e : TruthCell) → p e ≡ q e)
    → sum_of f (keep p es) ≡ sum_of f (keep q es)
sum-keep_same f p q [] h = refl
sum-keep_same f p q (e ∷ es) h = ground (arith, h e, sum-keep_same f p q es h)

sum-keep_absent :
    (f : TruthCell → ℕ) (p : Cell → Bool) (cell : Cell) (es : List TruthCell)
    → any_of (λ o. same_cell o.cell cell) es ≡ false
    → sum_of f (keep (λ e. p e.cell && not (same_cell e.cell cell)) es)
      ≡ sum_of f (keep (λ e. p e.cell) es)
sum-keep_absent f p cell [] h = refl
sum-keep_absent f p cell (e ∷ es) h =
    let rest = sum-keep_absent f p cell es (ground (arith, h)) in ground (arith, h, rest)

sum-put_truth :
    (f : TruthCell → ℕ) (p : Cell → Bool) (t : TruthCell) (es : List TruthCell)
    → Distinct es
    → sum_of f (keep (λ e. p e.cell) (put_truth t es))
      ≡ (if p t.cell then f t else 0)
        + sum_of f (keep (λ e. p e.cell && not (same_cell e.cell t.cell)) es)
unfolding put_truth
sum-put_truth f p t [] d = ground arith
sum-put_truth f p t (e ∷ es) d = elim (Bool-cases (same_cell e.cell t.cell)) [
  | inl same ↦
      let gone =
        subst (λ c. any_of (λ o. same_cell o.cell c) es ≡ false) (same_cell-path e.cell t.cell same)
          d.0 in
      rw same (ground (arith, sum-keep_absent f p t.cell es gone))
  | inr other ↦ rw other (ground (arith, sum-put_truth f p t es d.1))
]

sum-keep_every :
    (f : TruthCell → ℕ) (es : List TruthCell) → sum_of f (keep (λ e. true) es) ≡ sum_of f es
sum-keep_every f [] = refl
sum-keep_every f (e ∷ es) = omega (arith, sum-keep_every f es)

sum-expected_from :
    (f : TruthCell → ℕ) (rules : String → Dict Rule) (ts es : List TruthCell)
    → Distinct es
    → sum_of f (expected_from rules ts es)
      ≡ sum_of f (keep (λ e. not (replanted rules ts e.cell)) es) + sum_of f (survivors rules ts)
unfolding expected_from
sum-expected_from f rules [] es d = omega (arith, sum-keep_every f es)
sum-expected_from f rules (t ∷ ts) es d = elim (Bool-cases (forgiven rules t)) [
  | inl e ↦
      let code = policy-forgives rules t ∙ e in
      let same =
        sum-keep_same f (λ o. not (replanted rules ts o.cell))
          (λ o. not (replanted rules (t ∷ ts) o.cell)) es (λ o. ground (arith, e)) in
      rw code (ground (arith, e, same, sum-expected_from f rules ts es d))
  | inr ne ↦
      let code = policy-forgives rules t ∙ ne in
      let p = λ (c : Cell). not (replanted rules ts c) in
      let same =
        sum-keep_same f (λ o. p o.cell && not (same_cell o.cell t.cell))
          (λ o. not (replanted rules (t ∷ ts) o.cell)) es (λ o. ground (arith, ne)) in
      rw code (
        ground (
          arith,
          ne,
          same,
          sum-put_truth f p t es d,
          sum-expected_from f rules ts (put_truth t es) (Distinct-put_truth t es d),
        ))
]

-- Any measure of the expected differences is that of the survivors.
pub sum-expected :
    (f : TruthCell → ℕ) (rules : String → Dict Rule) (ts : List TruthCell)
    → sum_of f (expected_from rules ts []) ≡ sum_of f (survivors rules ts)
sum-expected f rules ts = sum-expected_from f rules ts [] tt ∙ omega arith
