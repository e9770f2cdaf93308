-- ===== src/Cost/Attribution/Split.antt =====
-- The parts of `split` in src/platform_ops/cost/attribution.py add up to what was split.
use data_platform_ops.Prelude.{
  ℕ, ◌+◌, ◌-◌, ◌*◌, ◌/◌, ◌≤◌, String, none, some, List, [], ◌∷◌, ◌≡◌, ◌↔◌, ◌≢◌, sym, subst, arith,
  Dict, get, put, or_default, sum_of,
}
use native.Mathlib.Nat.{div-mul-le_self, mul-le-mul_right, le_of_mul-le-mul_right}
use data_platform_ops.Cost.Attribution.{parts_from, largest, total_of, sum_values, add_to, split}

-- What writing at a key does to the sum.
pub sum-put :
    (k : String) (v : ℕ) (m : Dict ℕ)
    → sum_of (λ p. p.1) (put k v m) + or_default 0 (get k m) ≡ sum_of (λ p. p.1) m + v
unfolding put get
sum-put k v [] = omega arith
sum-put k v ((j, w) ∷ m) = ground (arith, sum-put k v m)

-- The parts, times the total, are at most the whole times the weights so far.
sum-parts_from :
    (usd total : ℕ) (weights : List (String × ℕ)) (parts : Dict ℕ) (used : ℕ)
    → sum_of (λ p. p.1) parts * total ≤ usd * used
    → sum_of (λ p. p.1) (parts_from usd total weights parts) * total
      ≤ usd * (used + total_of weights)
unfolding parts_from total_of
sum-parts_from usd total [] parts used h = omega (arith, h)
sum-parts_from usd total ((team, n) ∷ weights) parts used h =
    let v : ℕ = usd * n / total in
    let cut : v * total ≤ usd * n = div-mul-le_self (usd * n) total in
    let more : sum_of (λ p. p.1) (put team v parts) ≤ sum_of (λ p. p.1) parts + v =
      omega (arith, sum-put team v parts) in
    let wider : sum_of (λ p. p.1) (put team v parts) * total ≤ usd * (used + n) =
      omega (arith, mul-le-mul_right total more, cut, h) in
    let rest = sum-parts_from usd total weights (put team v parts) (used + n) wider in
    omega (arith, rest)

sum-le :
    (usd : ℕ) (w : String × ℕ) (weights : List (String × ℕ))
    → total_of (w ∷ weights) ≢ 0
    → sum_of (λ p. p.1) (parts_from usd (total_of (w ∷ weights)) (w ∷ weights) []) ≤ usd
sum-le usd w weights h =
    let scaled = sum-parts_from usd (total_of (w ∷ weights)) (w ∷ weights) [] 0 (omega arith) in
    let bound : sum_of (λ p. p.1) (parts_from usd (total_of (w ∷ weights)) (w ∷ weights) [])
          * total_of (w ∷ weights)
        ≤ usd * total_of (w ∷ weights) =
      omega (arith, scaled) in
    le_of_mul-le-mul_right bound (omega (arith, h))

sum-add_to :
    (team : String) (rest : ℕ) (parts : Dict ℕ)
    → sum_values (add_to team rest parts) ≡ sum_values parts + rest
unfolding add_to sum_values
sum-add_to team rest parts =
    omega (arith, sum-put team (or_default 0 (get team parts) + rest) parts)

split-some :
    (usd : ℕ) (w : String × ℕ) (weights : List (String × ℕ)) (parts : Dict ℕ)
    → split usd (w ∷ weights) ≡ some parts
    → (total_of (w ∷ weights) ≢ 0)
      × (parts
          ≡ add_to
              (largest w weights).0
              (usd - sum_values (parts_from usd (total_of (w ∷ weights)) (w ∷ weights) []))
              (parts_from usd (total_of (w ∷ weights)) (w ∷ weights) []))
unfolding split
split-some usd w weights parts h = ground (arith, h)

-- A split query is charged exactly: the parts add up to the cost that was split, to the last quantum.
pub sum-split :
    (usd : ℕ) (weights : List (String × ℕ)) (parts : Dict ℕ)
    → split usd weights ≡ some parts
    → sum_values parts ≡ usd
unfolding split sum_values
sum-split usd [] parts h = cc
sum-split usd (w ∷ weights) parts h =
    let made = split-some usd w weights parts h in
    let start = parts_from usd (total_of (w ∷ weights)) (w ∷ weights) [] in
    let below = sum-le usd w weights made.0 in
    let whole : sum_values (add_to (largest w weights).0 (usd - sum_values start) start) ≡ usd =
      omega (arith, below, sum-add_to (largest w weights).0 (usd - sum_values start) start) in
    subst (λ ps. sum_values ps ≡ usd) (sym made.1) whole

-- A split is refused only where there is nothing to share by.
pub split-refused :
    (usd : ℕ) (weights : List (String × ℕ)) → (split usd weights ≡ none) ↔ (total_of weights ≡ 0)
unfolding split total_of
split-refused usd [] = ground arith
split-refused usd (w ∷ weights) = ground arith
