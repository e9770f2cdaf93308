-- ===== src/Prelude/Integers.antt =====
-- Integers over the native numbers: a difference of two numbers, and sums.
use Prim.Native.Nat.{ℕ, suc, ◌+◌, ◌-◌}
use mathlib.Core.Path.{◌≡◌}
use mathlib.Core.List.{List, [], ◌∷◌}
use native.Mathlib.Omega.{arith}
use data_platform_ops.Prelude.Tests.{leb, if◌then◌else◌}

pub data ℤ : Type 0 where
  pos : ℕ → ℤ
  -- minus one more than the number
  negsuc : ℕ → ℤ

-- m - n
abbrev pub minus : ℕ → ℕ → ℤ
minus m n = if leb n m then pos (m - n) else negsuc (n - m - 1)

infixl 65 ◌+ℤ◌
abbrev pub ◌+ℤ◌ : ℤ → ℤ → ℤ
pos m +ℤ pos n = pos (m + n)
pos m +ℤ negsuc n = minus m (suc n)
negsuc m +ℤ pos n = minus n (suc m)
negsuc m +ℤ negsuc n = negsuc (m + n + 1)

-- A number and a difference, in either order.
pub pos-minus : (k m n : ℕ) → pos k +ℤ minus m n ≡ minus (k + m) n
pos-minus k m n = ground arith

pub minus-pos : (k m n : ℕ) → minus m n +ℤ pos k ≡ minus (m + k) n
minus-pos k m n = ground arith

abbrev pub sum_ℤ : List ℤ → ℤ
sum_ℤ [] = pos 0
sum_ℤ (z ∷ zs) = z +ℤ sum_ℤ zs
