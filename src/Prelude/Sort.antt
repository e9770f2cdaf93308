-- ===== src/Prelude/Sort.antt =====
-- Python's `sorted`: a stable sort, by a Boolean `<=` on the key.
use Prim.Native.Nat.{ℕ, ◌+◌}
use mathlib.Core.Path.{◌≡◌, refl}
use mathlib.Core.Bool.{Bool, true, false}
use mathlib.Core.Logic.{inl, inr}
use mathlib.Core.List.{List, [], ◌∷◌, ◌++◌, Perm}
use mathlib.Core.List.Perm
use native.Mathlib.Omega.{arith}
use data_platform_ops.Prelude.Tests.{if◌then◌else◌, Bool-cases}
use data_platform_ops.Prelude.Lists.{All, sum_of, keep}

module _ {ℓ} {A : Type ℓ} where
  abbrev pub insert_by : (A → A → Bool) → A → List A → List A
  insert_by le x [] = x ∷ []
  insert_by le x (y ∷ ys) = let rest = insert_by le x ys in if le x y then x ∷ y ∷ ys else y ∷ rest

  abbrev pub sort_by : (A → A → Bool) → List A → List A
  sort_by le [] = []
  sort_by le (x ∷ xs) = insert_by le x (sort_by le xs)

  pub All-insert_by {κ} :
      (P : A → Type κ) (le : A → A → Bool) (x : A) (xs : List A)
      → P x
      → All P xs
      → All P (insert_by le x xs)
  All-insert_by P le x [] p h = (p, tt)
  All-insert_by P le x (y ∷ xs) p h = ground (arith, All-insert_by P le x xs p h.1)

  pub All-sort_by {κ} :
      (P : A → Type κ) (le : A → A → Bool) (xs : List A) → All P xs → All P (sort_by le xs)
  All-sort_by P le [] h = tt
  All-sort_by P le (x ∷ xs) h = All-insert_by P le x (sort_by le xs) h.0 (All-sort_by P le xs h.1)

  insert_by-perm : (le : A → A → Bool) (x : A) (xs : List A) → Perm (insert_by le x xs) (x ∷ xs)
  insert_by-perm le x [] = Perm.refl (x ∷ [])
  insert_by-perm le x (y ∷ xs) = elim (Bool-cases (le x y)) [
    | inl h ↦ rw h (Perm.refl (x ∷ y ∷ xs))
    | inr h ↦ rw h (Perm.trans (Perm.cons y (insert_by-perm le x xs)) (Perm.swap x y xs))
  ]

  pub sort_by-perm : (le : A → A → Bool) (xs : List A) → Perm (sort_by le xs) xs
  sort_by-perm le [] = Perm.refl []
  sort_by-perm le (x ∷ xs) =
      Perm.trans (insert_by-perm le x (sort_by le xs)) (Perm.cons x (sort_by-perm le xs))

  sum_of-insert_by :
      (f : A → ℕ) (le : A → A → Bool) (x : A) (xs : List A)
      → sum_of f (insert_by le x xs) ≡ f x + sum_of f xs
  sum_of-insert_by f le x [] = refl
  sum_of-insert_by f le x (y ∷ ys) = ground (arith, sum_of-insert_by f le x ys)

  -- Sorting keeps the total of every measure.
  pub sum_of-sort_by :
      (f : A → ℕ) (le : A → A → Bool) (xs : List A) → sum_of f (sort_by le xs) ≡ sum_of f xs
  sum_of-sort_by f le [] = refl
  sum_of-sort_by f le (x ∷ xs) =
      omega (arith, sum_of-insert_by f le x (sort_by le xs), sum_of-sort_by f le xs)

-- Each element is below the ones that follow it.
abbrev pub Ordered {ℓ} : {A : Type ℓ} → (A → A → Bool) → List A → Type 0
Ordered le [] = Unit
Ordered le (x ∷ xs) = All (λ y. le x y ≡ true) xs × Ordered le xs

module _ {ℓ} {A : Type ℓ} (le : A → A → Bool) (total : (x y : A) → le x y ≡ false → le y x ≡ true)
    (trans : (x y z : A) → le x y ≡ true → le y z ≡ true → le x z ≡ true) where
  All-trans :
      (x y : A) (ys : List A)
      → le x y ≡ true
      → All (λ z. le y z ≡ true) ys
      → All (λ z. le x z ≡ true) ys
  All-trans x y [] h a = tt
  All-trans x y (z ∷ ys) h a = (trans x y z h a.0, All-trans x y ys h a.1)

  insert_by-Ordered : (x : A) (xs : List A) → Ordered le xs → Ordered le (insert_by le x xs)
  insert_by-Ordered x [] o = (tt, tt)
  insert_by-Ordered x (y ∷ ys) o = elim (Bool-cases (le x y)) [
    | inl h ↦ rw h ((h, All-trans x y ys h o.0), o)
    | inr h ↦
        rw h
          (All-insert_by (λ z. le y z ≡ true) le x ys (total x y h) o.0, insert_by-Ordered x ys o.1)
  ]

  pub sort_by-Ordered : (xs : List A) → Ordered le (sort_by le xs)
  sort_by-Ordered [] = tt
  sort_by-Ordered (x ∷ xs) = insert_by-Ordered x (sort_by le xs) (sort_by-Ordered xs)

  insert_by_comm :
      (x y : A) (xs : List A)
      → (le x y ≡ true → le y x ≡ false)
      → insert_by le x (insert_by le y xs) ≡ insert_by le y (insert_by le x xs)
  insert_by_comm x y [] apart = ground (arith, total x y, total y x)
  insert_by_comm x y (z ∷ xs) apart =
      ground (arith, total x y, total y x, trans x y z, trans y x z, insert_by_comm x y xs apart)

  -- Two neighbours that are not tied can change places before sorting.
  pub sort_by-swap :
      (p : A → Bool) (a b : A) (xs ys : List A)
      → (le a b ≡ true → le b a ≡ false)
      → sort_by le (keep p (xs ++ (a ∷ b ∷ ys))) ≡ sort_by le (keep p (xs ++ (b ∷ a ∷ ys)))
  sort_by-swap p a b [] ys apart = ground (arith, insert_by_comm a b (sort_by le (keep p ys)) apart)
  sort_by-swap p a b (x ∷ xs) ys apart = ground (arith, sort_by-swap p a b xs ys apart)
