-- ===== src/Reconcile/Diff/Rows.antt =====
-- The rows that one key has on a side, and the grouping by key of src/platform_ops/reconcile/diff.py.
use data_platform_ops.Prelude.{
  String, true, false, ◌≡◌, ◌⊎◌, inl, inr, refl, sym, ap, ◌∙◌, subst, arith, some, List, [], ◌∷◌,
  ◌++◌, contains, contains-append, contains-sorted_set, All, Dict, get, keys, or_default, append_at,
  at-append_at, eq_iff, eq→path, Bool-cases, if◌then◌else◌, ◌==◌,
}
use data_platform_ops.Reconcile.Diff.{TableDiff, clean, by_key, by_key_from, diff_rows}
use data_platform_ops.Reconcile.Diff.Clean.{Agrees, diff_rows-clean}

-- The values of the rows with the key, in their order.
abbrev pub values_of : String → List (String × List String) → List (List String)
values_of k [] = []
values_of k ((key, row) ∷ rows) =
    let rest = values_of k rows in if key == k then row ∷ rest else rest

append_nil {ℓ} : {A : Type ℓ} (xs : List A) → xs ++ [] ≡ xs
append_nil [] = refl
append_nil (x ∷ xs) = ap (λ l. x ∷ l) (append_nil xs)

append_step {ℓ} :
    {A : Type ℓ} (xs : List A) (y : A) (ys : List A) → (xs ++ (y ∷ [])) ++ ys ≡ xs ++ (y ∷ ys)
append_step [] y ys = refl
append_step (x ∷ xs) y ys = ap (λ l. x ∷ l) (append_step xs y ys)

at-by_key_from :
    (k : String) (rows : List (String × List String)) (m : Dict (List (List String)))
    → or_default [] (get k (by_key_from rows m)) ≡ or_default [] (get k m) ++ values_of k rows
unfolding by_key_from
at-by_key_from k [] m = sym (append_nil (or_default [] (get k m)))
at-by_key_from k ((key, row) ∷ rows) m = ground (
  arith,
  at-by_key_from k rows (append_at key row m),
  at-append_at k key row m,
  append_step (or_default [] (get k m)) row (values_of k rows),
)

-- Grouping keeps each key's rows, in their order.
pub at-by_key :
    (k : String) (rows : List (String × List String))
    → or_default [] (get k (by_key rows)) ≡ values_of k rows
unfolding by_key get
at-by_key k rows = at-by_key_from k rows []

pub get_absent :
    (k : String) (m : Dict (List (List String)))
    → contains k (keys m) ≡ false
    → or_default [] (get k m) ≡ []
unfolding get
get_absent k [] h = refl
get_absent k ((j, vs) ∷ m) h = ground (arith, eq_iff j k, eq_iff k j, get_absent k m)

pub All-contains {ℓ} :
    (P : String → Type ℓ) (k : String) (xs : List String) → All P xs → contains k xs ≡ true → P k
All-contains P k [] all h = cc
All-contains P k (x ∷ xs) all h = elim (Bool-cases (k == x)) [
  | inl e ↦ subst P (sym (eq→path k x e)) all.0
  | inr e ↦ All-contains P k xs all.1 (ground arith)
]

-- A key with a row on either side agrees where a finished comparison finds nothing.
pub diff_rows-values :
    (names changed : List String) (left_rows right_rows : List (String × List String)) (k : String)
    (d : TableDiff)
    → diff_rows names changed left_rows right_rows ≡ some d
    → clean d ≡ true
    → ((values_of k left_rows ≡ []) × (values_of k right_rows ≡ []))
      ⊎ Agrees changed k (values_of k left_rows) (values_of k right_rows)
diff_rows-values names changed left_rows right_rows k d h c =
    let side = Bool-cases (contains k (keys (by_key left_rows) ++ keys (by_key right_rows))) in
    elim side [
      | inl here ↦
          let agrees =
            All-contains
              (λ key.
                Agrees changed key (or_default [] (get key (by_key left_rows)))
                  (or_default [] (get key (by_key right_rows))))
              k _ (diff_rows-clean names changed left_rows right_rows d h c)
              (contains-sorted_set k _ ∙ here) in
          inr (
            subst (λ ls. Agrees changed k ls (values_of k right_rows)) (at-by_key k left_rows)
              (subst (λ rs. Agrees changed k (or_default [] (get k (by_key left_rows))) rs)
                (at-by_key k right_rows) agrees))
      | inr gone ↦
          let both = contains-append k (keys (by_key left_rows)) (keys (by_key right_rows)) in
          inl (
            sym (at-by_key k left_rows) ∙ get_absent k (by_key left_rows) (ground arith),
            sym (at-by_key k right_rows) ∙ get_absent k (by_key right_rows) (ground arith),
          )
    ]
