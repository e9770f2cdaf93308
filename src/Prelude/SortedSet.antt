-- ===== src/Prelude/SortedSet.antt =====
-- `sorted({...})` of text: each element once, in Python's order.
use Prim.Native.String.{String}
use mathlib.Core.Path.{◌≡◌, refl, ap, ◌∙◌}
use mathlib.Core.Logic.{inl, inr}
use mathlib.Core.Bool.{true, false, ◌||◌}
use mathlib.Core.List.{List, [], ◌∷◌}
use native.Mathlib.Omega.{arith}
use text.Mathlib.Text.{◌==◌}
use text.Mathlib.TextEquality.{eq_iff}
use data_platform_ops.Prelude.Tests.{if◌then◌else◌, Bool-cases}
use data_platform_ops.Prelude.Strings.{
  str_leb, str_ltb, str_leb_refl, str_leb_total, str_leb_trans, str_leb_antisym,
}
use data_platform_ops.Prelude.Sets.{contains}
use data_platform_ops.Prelude.Lists.{All, sum_of}

abbrev pub insert_set : String → List String → List String
insert_set x [] = x ∷ []
insert_set x (y ∷ ys) =
    let rest = insert_set x ys in
    if x == y then y ∷ ys else if str_leb x y then x ∷ y ∷ ys else y ∷ rest

abbrev pub sorted_set : List String → List String
sorted_set [] = []
sorted_set (x ∷ xs) = insert_set x (sorted_set xs)

pub contains-insert_set :
    (z x : String) (xs : List String) → contains z (insert_set x xs) ≡ ((z == x) || contains z xs)
contains-insert_set z x [] = refl
contains-insert_set z x (y ∷ ys) = elim (Bool-cases (x == y)) [
  | inl e ↦ ground (arith, eq_iff x y, eq_iff z x, eq_iff z y)
  | inr ne ↦ ground (arith, contains-insert_set z x ys)
]

-- Sorting into a set keeps the elements.
pub contains-sorted_set :
    (z : String) (xs : List String) → contains z (sorted_set xs) ≡ contains z xs
contains-sorted_set z [] = refl
contains-sorted_set z (x ∷ xs) =
    ground (arith, contains-sorted_set z xs, contains-insert_set z x (sorted_set xs))

-- Every element of the list is strictly above `x`.
abbrev pub Above : String → List String → Type 0
Above x [] = Unit
Above x (y ∷ ys) = (str_ltb x y ≡ true) × Above x ys

-- Strictly increasing, so without a duplicate.
abbrev pub IsStrict : List String → Type 0
IsStrict [] = Unit
IsStrict (x ∷ xs) = Above x xs × IsStrict xs

lt_of_ne : (x y : String) → (x == y) ≡ false → str_leb x y ≡ true → str_ltb x y ≡ true
unfolding str_ltb
lt_of_ne x y ne le = elim (Bool-cases (str_leb y x)) [
  | inl ge ↦ let e = str_leb_antisym x y le ge in ground (arith, eq_iff x y)
  | inr lt ↦ rw lt
]

Above-insert_set :
    (w x : String) (xs : List String) → str_ltb w x ≡ true → Above w xs → Above w (insert_set x xs)
Above-insert_set w x [] h a = (h, tt)
Above-insert_set w x (y ∷ ys) h a = ground (arith, Above-insert_set w x ys h a.1)

lt_trans : (x y z : String) → str_leb x y ≡ true → str_ltb y z ≡ true → str_ltb x z ≡ true
unfolding str_ltb
lt_trans x y z h k = elim (Bool-cases (str_leb z x)) [
  | inl ge ↦ let zy = str_leb_trans z x y ge h in ground arith
  | inr lt ↦ rw lt
]

Above-trans : (x y : String) (ys : List String) → str_leb x y ≡ true → Above y ys → Above x ys
Above-trans x y [] h a = tt
Above-trans x y (z ∷ ys) h a = (lt_trans x y z h a.0, Above-trans x y ys h a.1)

insert_set-IsStrict : (x : String) (xs : List String) → IsStrict xs → IsStrict (insert_set x xs)
insert_set-IsStrict x [] s = (tt, tt)
insert_set-IsStrict x (y ∷ ys) s = elim (Bool-cases (x == y)) [
  | inl e ↦ rw e s
  | inr ne ↦ elim (Bool-cases (str_leb x y)) [
    | inl le ↦ rw (ne, le) ((lt_of_ne x y ne le, Above-trans x y ys le s.0), s)
    | inr gt ↦
        let ge = str_leb_total x y gt in
        let below : str_ltb y x ≡ true = (unfold str_ltb in rw gt) in
        rw (ne, gt) (Above-insert_set y x ys below s.0, insert_set-IsStrict x ys s.1)
  ]
]

pub sorted_set-IsStrict : (xs : List String) → IsStrict (sorted_set xs)
sorted_set-IsStrict [] = tt
sorted_set-IsStrict (x ∷ xs) = insert_set-IsStrict x (sorted_set xs) (sorted_set-IsStrict xs)

-- An element strictly below the others is none of them.
Above-fresh : (x : String) (xs : List String) → Above x xs → contains x xs ≡ false
unfolding str_ltb
Above-fresh x [] a = refl
Above-fresh x (y ∷ ys) a = ground (arith, eq_iff x y, str_leb_refl x, Above-fresh x ys a.1)

-- A set's element is in its sorted list once.
pub sorted_set-once :
    (z : String) (xs : List String)
    → sum_of (λ x. if z == x then 1 else 0) (sorted_set xs) ≡ (if contains z xs then 1 else 0)
sorted_set-once z xs =
    once z (sorted_set xs) (sorted_set-IsStrict xs)
    ∙ ap (λ b. if b then 1 else 0) (contains-sorted_set z xs)
  where
    once :
        (z : String) (ys : List String)
        → IsStrict ys
        → sum_of (λ x. if z == x then 1 else 0) ys ≡ (if contains z ys then 1 else 0)
    once z [] s = refl
    once z (y ∷ ys) s = ground (arith, eq_iff z y, Above-fresh y ys s.0, once z ys s.1)

pub All-sorted_set {ℓ} : (P : String → Type ℓ) (xs : List String) → All P xs → All P (sorted_set xs)
All-sorted_set P [] h = tt
All-sorted_set P (x ∷ xs) h = inserted P x (sorted_set xs) h.0 (All-sorted_set P xs h.1)
  where
    inserted :
        (P : String → Type ℓ) (x : String) (ys : List String)
        → P x
        → All P ys
        → All P (insert_set x ys)
    inserted P x [] p h = (p, tt)
    inserted P x (y ∷ ys) p h = elim (Bool-cases (x == y)) [
      | inl e ↦ rw e h
      | inr ne ↦ elim (Bool-cases (str_leb x y)) [
        | inl le ↦ rw (ne, le) (p, h)
        | inr gt ↦ rw (ne, gt) (h.0, inserted P x ys p h.1)
      ]
    ]
