-- ===== src/Reconcile/Grade/Counts.antt =====
-- What the counts of `grade` in src/platform_ops/reconcile/metrics.py are.
use data_platform_ops.Prelude.{
  ℕ, ◌+◌, String, Option, none, some, List, [], ◌∷◌, length, Dict, ◌≡◌, ◌∙◌, refl, ap, arith, inl,
  inr, Bool-cases, eq_iff, keep, sum_of, sum_of-sort_by, str_leb, if◌then◌else◌, ◌==◌,
}
use data_platform_ops.Reconcile.Grade.{
  Rule, Cell, TruthCell, Discrepancy, same_cell, is_hit, is_correct, class_of, hits_in, correct_in,
  tally, tally_all, put_found, expected_from, equivalents, found_from, grade,
}
use data_platform_ops.Reconcile.Grade.Planted.{
  forgiven, survivors, sum-expected, policy-forgives, same_cell-path,
}

-- The class that the last discrepancy of the cell has.
abbrev pub reported_class : Cell → List Discrepancy → Option String → Option String
reported_class cell [] before = before
reported_class cell (d ∷ ds) before =
    reported_class cell ds (if same_cell d.cell cell then some d.klass else before)

-- 1 where the difference's cell has a discrepancy.
abbrev pub found_one : List Discrepancy → TruthCell → ℕ
found_one ds t = elim (reported_class t.cell ds none) [ none ↦ 0 | some klass ↦ 1 ]

-- 1 where the last discrepancy of its cell has the difference's class.
abbrev pub correct_one : List Discrepancy → TruthCell → ℕ
correct_one ds t = elim (reported_class t.cell ds none) [
  | none ↦ 0
  | some klass ↦ if klass == t.klass then 1 else 0
]

-- Planted and found differences of a label.
abbrev pub planted_of : String → Dict (ℕ × ℕ) → ℕ
planted_of label labels = sum_of (λ l. if l.0 == label then l.1.0 else 0) labels

abbrev pub found_of : String → Dict (ℕ × ℕ) → ℕ
found_of label labels = sum_of (λ l. if l.0 == label then l.1.1 else 0) labels

class_of-put_found :
    (cell : Cell) (d : Discrepancy) (fs : List Discrepancy)
    → class_of cell (put_found d fs)
      ≡ (if same_cell d.cell cell then some d.klass else class_of cell fs)
unfolding class_of put_found
class_of-put_found cell d [] = refl
class_of-put_found cell d (e ∷ fs) = elim (Bool-cases (same_cell e.cell d.cell)) [
  | inl same ↦
      let alike = ap (λ c. same_cell c cell) (same_cell-path e.cell d.cell same) in
      rw same (ground (arith, alike))
  | inr other ↦ rw other (elim (Bool-cases (same_cell e.cell cell)) [
    | inl here_ ↦ (elim (Bool-cases (same_cell d.cell cell)) [
      | inl too ↦
          let back = ap (λ c. same_cell e.cell c) (same_cell-path d.cell cell too) in
          ground (arith, back, here_, other)
      | inr apart ↦ rw (here_, apart) refl
    ])
    | inr later ↦ rw later (class_of-put_found cell d fs)
  ])
]

class_of-found_from :
    (cell : Cell) (ds fs : List Discrepancy)
    → class_of cell (found_from ds fs) ≡ reported_class cell ds (class_of cell fs)
unfolding found_from
class_of-found_from cell [] fs = refl
class_of-found_from cell (d ∷ ds) fs =
    class_of-found_from cell ds (put_found d fs)
    ∙ ap (reported_class cell ds) (class_of-put_found cell d fs)

hit-found_one :
    (ds : List Discrepancy) (t : TruthCell)
    → is_hit (class_of t.cell (found_from ds [])) ≡ found_one ds t
unfolding is_hit class_of
hit-found_one ds t =
    ap is_hit (class_of-found_from t.cell ds []) ∙ by_class (reported_class t.cell ds none)
  where
    by_class : (o : Option String) → is_hit o ≡ elim o [ none ↦ 0 | some klass ↦ 1 ]
    by_class none = refl
    by_class (some klass) = refl

correct-correct_one :
    (ds : List Discrepancy) (t : TruthCell)
    → is_correct t.klass (class_of t.cell (found_from ds [])) ≡ correct_one ds t
unfolding is_correct class_of
correct-correct_one ds t =
    ap (is_correct t.klass) (class_of-found_from t.cell ds [])
    ∙ by_class t.klass (reported_class t.cell ds none)
  where
    by_class :
        (klass : String) (o : Option String)
        → is_correct klass o ≡ elim o [ none ↦ 0 | some other ↦ if other == klass then 1 else 0 ]
    by_class klass none = refl
    by_class klass (some other) = refl

sum-hits_in :
    (ds : List Discrepancy) (ts : List TruthCell)
    → hits_in (found_from ds []) ts ≡ sum_of (found_one ds) ts
unfolding hits_in
sum-hits_in ds [] = refl
sum-hits_in ds (t ∷ ts) = omega (arith, hit-found_one ds t, sum-hits_in ds ts)

sum-correct_in :
    (ds : List Discrepancy) (ts : List TruthCell)
    → correct_in (found_from ds []) ts ≡ sum_of (correct_one ds) ts
unfolding correct_in
sum-correct_in ds [] = refl
sum-correct_in ds (t ∷ ts) = omega (arith, correct-correct_one ds t, sum-correct_in ds ts)

length-sum : (ts : List TruthCell) → length ts ≡ sum_of (λ t. 1) ts
length-sum [] = refl
length-sum (t ∷ ts) = omega (arith, length-sum ts)

equivalents-forgiven :
    (rules : String → Dict Rule) (ts : List TruthCell)
    → equivalents rules ts ≡ length (keep (forgiven rules) ts)
unfolding equivalents
equivalents-forgiven rules [] = refl
equivalents-forgiven rules (t ∷ ts) =
    ground (arith, policy-forgives rules t, equivalents-forgiven rules ts)

tally-label :
    (label other : String) (hit : ℕ) (labels : Dict (ℕ × ℕ))
    → (planted_of label (tally other hit labels)
        ≡ planted_of label labels + (if other == label then 1 else 0))
      × (found_of label (tally other hit labels)
          ≡ found_of label labels + (if other == label then hit else 0))
unfolding tally
tally-label label other hit [] = (ground arith, ground arith)
tally-label label other hit ((l, (planted, seen)) ∷ labels) =
    let rest = tally-label label other hit labels in
    (
      ground (arith, rest.0, eq_iff l other, eq_iff l label, eq_iff other label),
      ground (arith, rest.1, eq_iff l other, eq_iff l label, eq_iff other label),
    )

tally_all-label :
    (label : String) (ds : List Discrepancy) (ts : List TruthCell) (labels : Dict (ℕ × ℕ))
    → (planted_of label (tally_all (found_from ds []) ts labels)
        ≡ planted_of label labels + sum_of (λ t. if t.label == label then 1 else 0) ts)
      × (found_of label (tally_all (found_from ds []) ts labels)
          ≡ found_of label labels + sum_of (λ t. if t.label == label then found_one ds t else 0) ts)
unfolding tally_all
tally_all-label label ds [] labels = (omega arith, omega arith)
tally_all-label label ds (t ∷ ts) labels =
    let hit = is_hit (class_of t.cell (found_from ds [])) in
    let one = tally-label label t.label hit labels in
    let rest = tally_all-label label ds ts (tally t.label hit labels) in
    (ground (arith, one.0, rest.0), ground (arith, one.1, rest.1, hit-found_one ds t))

-- `grade` expects as many differences as are planted that no rule forgives, of each cell the last; it counts as true
-- positives those of them whose cell has a discrepancy, as correctly classified those of which the last discrepancy has
-- their class, and as equivalent all the planted that a rule forgives; and for every label, it counts as planted and as
-- found what it expects, and what of that is found, of the label.
pub grade-counts :
    (truth : List TruthCell) (discrepancies : List Discrepancy) (rules : String → Dict Rule)
    (label : String)
    → ((grade truth discrepancies rules).expected ≡ length (survivors rules truth))
      × ((grade truth discrepancies rules).true_positives
          ≡ sum_of (found_one discrepancies) (survivors rules truth))
      × ((grade truth discrepancies rules).correctly_classified
          ≡ sum_of (correct_one discrepancies) (survivors rules truth))
      × ((grade truth discrepancies rules).equivalent_under_policy
          ≡ length (keep (forgiven rules) truth))
      × (planted_of label (grade truth discrepancies rules).by_label
          ≡ sum_of (λ t. if t.label == label then 1 else 0) (survivors rules truth))
      × (found_of label (grade truth discrepancies rules).by_label
          ≡ sum_of
              (λ t. if t.label == label then found_one discrepancies t else 0)
              (survivors rules truth))
unfolding grade
grade-counts truth discrepancies rules label =
    let expected = expected_from rules truth [] in
    let labels = tally_all (found_from discrepancies []) expected [] in
    let both = tally_all-label label discrepancies expected [] in
    let le = λ (a b : String × (ℕ × ℕ)). str_leb a.0 b.0 in
    let same = λ (f : TruthCell → ℕ). sum-expected f rules truth in
    (
      length-sum expected ∙ same (λ t. 1) ∙ omega (arith, length-sum (survivors rules truth)),
      sum-hits_in discrepancies expected ∙ same (found_one discrepancies),
      sum-correct_in discrepancies expected ∙ same (correct_one discrepancies),
      equivalents-forgiven rules truth,
      sum_of-sort_by (λ (l : String × (ℕ × ℕ)). if l.0 == label then l.1.0 else 0) le labels
          ∙ omega (arith, both.0)
          ∙ same (λ t. if t.label == label then 1 else 0),
      sum_of-sort_by (λ (l : String × (ℕ × ℕ)). if l.0 == label then l.1.1 else 0) le labels
          ∙ omega (arith, both.1)
          ∙ same (λ t. if t.label == label then found_one discrepancies t else 0),
    )
