-- ===== src/Prelude/Numbers.antt =====
-- Sets of numbers as lists: membership, and the sorted list of a set.
use Prim.Native.Nat.{ℕ}
use mathlib.Core.Path.{◌≡◌, refl}
use mathlib.Core.Bool.{Bool, true, false, ◌||◌}
use mathlib.Core.List.{List, [], ◌∷◌, ◌++◌}
use native.Mathlib.Omega.{arith}
use data_platform_ops.Prelude.Tests.{eqb, leb, if◌then◌else◌}
use data_platform_ops.Prelude.Lists.{keep}

-- n in ns
abbrev pub has_num : ℕ → List ℕ → Bool
has_num n [] = false
has_num n (m ∷ ms) = eqb n m || has_num n ms

abbrev pub insert_num : ℕ → List ℕ → List ℕ
insert_num n [] = n ∷ []
insert_num n (m ∷ ms) =
    let rest = m ∷ insert_num n ms in
    if eqb n m then m ∷ ms else if leb n m then n ∷ m ∷ ms else rest

-- sorted(set(ns))
abbrev pub sorted_nums : List ℕ → List ℕ
sorted_nums [] = []
sorted_nums (n ∷ ns) = insert_num n (sorted_nums ns)

has_num-insert_num :
    (k n : ℕ) (ns : List ℕ) → has_num k (insert_num n ns) ≡ (eqb k n || has_num k ns)
has_num-insert_num k n [] = refl
has_num-insert_num k n (m ∷ ms) = ground (arith, has_num-insert_num k n ms)

pub has_num-sorted_nums : (k : ℕ) (ns : List ℕ) → has_num k (sorted_nums ns) ≡ has_num k ns
has_num-sorted_nums k [] = refl
has_num-sorted_nums k (n ∷ ns) =
    ground (arith, has_num-insert_num k n (sorted_nums ns), has_num-sorted_nums k ns)

pub has_num-keep :
    (p : ℕ → Bool) (k : ℕ) (ns : List ℕ)
    → p k ≡ true
    → has_num k ns ≡ true
    → has_num k (keep p ns) ≡ true
has_num-keep p k [] hp h = ground arith
has_num-keep p k (n ∷ ns) hp h = ground (arith, has_num-keep p k ns hp)

pub has_num-append :
    (k : ℕ) (ms ns : List ℕ) → has_num k (ms ++ ns) ≡ (has_num k ms || has_num k ns)
has_num-append k [] ns = refl
has_num-append k (m ∷ ms) ns = ground (arith, has_num-append k ms ns)
