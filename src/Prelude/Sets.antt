-- ===== src/Prelude/Sets.antt =====
-- Sets of text as lists: membership, difference, union, the least element.
use Prim.Native.String.{String}
use mathlib.Core.Path.{◌≡◌, refl, sym, subst}
use mathlib.Core.Logic.{inl, inr}
use mathlib.Core.Bool.{false≢true, Bool, true, false, not, ◌||◌, ◌&&◌}
use mathlib.Core.List.{List, [], ◌∷◌, ◌++◌}
use native.Mathlib.Omega.{arith}
use Prim.Native.Nat.{ℕ, ◌≤◌, ◌<◌}
use text.Mathlib.Text.{◌==◌}
use text.Mathlib.TextEquality.{eq_iff}
use data_platform_ops.Prelude.Tests.{Bool-cases, if◌then◌else◌}
use data_platform_ops.Prelude.Lists.{keep, length}
use data_platform_ops.Prelude.Strings.{
  str_leb, str_leb_refl, str_leb_total, str_leb_trans, eq→path, eq_self,
}

-- x in xs
abbrev pub contains : String → List String → Bool
contains x [] = false
contains x (y ∷ ys) = (x == y) || contains x ys

-- xs - ys
abbrev pub difference : List String → List String → List String
difference xs ys = keep (λ x. not (contains x ys)) xs

-- xs & ys
abbrev pub intersection : List String → List String → List String
intersection xs ys = keep (λ x. contains x ys) xs

-- min(xs) of a set with the element x
unfoldable pub least : String → List String → String
least x [] = x
least x (y ∷ ys) = least (if str_leb x y then x else y) ys

pub contains-append :
    (x : String) (xs ys : List String) → contains x (xs ++ ys) ≡ (contains x xs || contains x ys)
contains-append x [] ys = refl
contains-append x (y ∷ xs) ys = ground (arith, contains-append x xs ys)

pub contains-keep :
    (p : String → Bool) (x : String) (xs : List String)
    → contains x (keep p xs) ≡ (contains x xs && p x)
contains-keep p x [] = refl
contains-keep p x (y ∷ xs) = elim (Bool-cases (x == y)) [
  | inl e ↦ let same = eq→path x y e in ground (arith, contains-keep p x xs)
  | inr ne ↦ ground (arith, contains-keep p x xs)
]

least-cons_le :
    (x y : String) (ys : List String) → str_leb x y ≡ true → least x (y ∷ ys) ≡ least x ys
unfolding least
least-cons_le x y ys h = rw h

least-cons_gt :
    (x y : String) (ys : List String) → str_leb x y ≡ false → least x (y ∷ ys) ≡ least y ys
unfolding least
least-cons_gt x y ys h = rw h

least-nil : (x : String) → least x [] ≡ x
unfolding least
least-nil x = refl

pub least-mem : (x : String) (ys : List String) → contains (least x ys) (x ∷ ys) ≡ true
least-mem x [] = rw least-nil (ground (arith, eq_self x))
least-mem x (y ∷ ys) = elim (Bool-cases (str_leb x y)) [
  | inl h ↦
      subst (λ m. contains m (x ∷ y ∷ ys) ≡ true) (sym (least-cons_le x y ys h))
        (ground (arith, least-mem x ys))
  | inr h ↦
      subst (λ m. contains m (x ∷ y ∷ ys) ≡ true) (sym (least-cons_gt x y ys h))
        (ground (arith, least-mem y ys))
]

pub least-le-head : (x : String) (ys : List String) → str_leb (least x ys) x ≡ true
least-le-head x [] = rw least-nil (str_leb_refl x)
least-le-head x (y ∷ ys) = elim (Bool-cases (str_leb x y)) [
  | inl h ↦ rw (least-cons_le x y ys h) (least-le-head x ys)
  | inr h ↦
      rw (least-cons_gt x y ys h)
        (str_leb_trans (least y ys) y x (least-le-head y ys) (str_leb_total x y h))
]

-- The least element is below every element.
pub least-le :
    (x : String) (ys : List String) (z : String)
    → contains z (x ∷ ys) ≡ true
    → str_leb (least x ys) z ≡ true
least-le x [] z h = rw least-nil (ground (arith, eq_iff z x, str_leb_refl x))
least-le x (y ∷ ys) z h = elim (Bool-cases (str_leb x y)) [
  | inl k ↦
      let below = str_leb_trans (least x ys) x y (least-le-head x ys) k in
      rw (least-cons_le x y ys k) (ground (arith, eq_iff z y, least-le x ys z, below))
  | inr k ↦
      let below = str_leb_trans (least y ys) y x (least-le-head y ys) (str_leb_total x y k) in
      rw (least-cons_gt x y ys k) (ground (arith, eq_iff z x, least-le y ys z, below))
]

-- How many of `ns` the set `seen` has not.
abbrev pub unseen : List String → List String → ℕ
unseen ns seen = length (difference ns seen)

pub unseen-append-le : (ns seen more : List String) → unseen ns (seen ++ more) ≤ unseen ns seen
unseen-append-le [] seen more = omega arith
unseen-append-le (n ∷ ns) seen more =
    ground (arith, contains-append n seen more, unseen-append-le ns seen more)

pub unseen-append-lt :
    (ns seen more : List String) (x : String)
    → contains x ns ≡ true
    → contains x seen ≡ false
    → contains x more ≡ true
    → unseen ns (seen ++ more) < unseen ns seen
unseen-append-lt [] seen more x h s m = absurd (false≢true h)
unseen-append-lt (n ∷ ns) seen more x h s m = elim (Bool-cases (x == n)) [
  | inl e ↦
      let e' = eq→path x n e in
      let s' : contains n seen ≡ false = subst (λ y. contains y seen ≡ false) e' s in
      let m' : contains n more ≡ true = subst (λ y. contains y more ≡ true) e' m in
      ground (arith, contains-append n seen more, unseen-append-le ns seen more)
  | inr ne ↦
      let rest : contains x ns ≡ true = ground arith in
      let ih = unseen-append-lt ns seen more x rest s m in
      ground (arith, contains-append n seen more)
]
