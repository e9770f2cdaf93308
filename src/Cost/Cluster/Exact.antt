-- ===== src/Cost/Cluster/Exact.antt =====
-- The shares of src/platform_ops/cost/cluster.py reconcile to the bill.
use data_platform_ops.Prelude.{
  ℕ, ◌+◌, ◌≤◌, String, Bool, true, false, ◌≡◌, ◌≢◌, inl, inr, refl, ap, ◌∙◌, arith, List, [], ◌∷◌,
  map, contains, Dict, keys, values, sum_of, eq_iff, eq_self, Bool-cases, if◌then◌else◌, ltb, eqb,
  not, ◌&&◌, ◌||◌, str_leb, ◌==◌, ℤ, pos, ◌+ℤ◌, minus, pos-minus, minus-pos, sum_ℤ,
}
use data_platform_ops.Cost.Attribution.{largest}
use data_platform_ops.Cost.Cluster.{positive, add_at, cut, share_among, share}

abbrev signed : Dict ℕ → Dict ℤ
signed m = map (λ s. (s.0, pos s.1)) m

sum_ℤ-signed : (m : Dict ℕ) → sum_ℤ (values (signed m)) ≡ pos (sum_of (λ s. s.1) m)
sum_ℤ-signed [] = refl
sum_ℤ-signed ((k, n) ∷ m) = ap (λ z. pos n +ℤ z) (sum_ℤ-signed m)

sum_ℤ-add_at :
    (key : String) (t u : ℕ) (m : Dict ℕ)
    → contains key (keys m) ≡ true
    → sum_ℤ (values (add_at key (minus t u) (signed m))) ≡ minus (sum_of (λ s. s.1) m + t) u
unfolding add_at
sum_ℤ-add_at key t u [] h = ground arith
sum_ℤ-add_at key t u ((k, n) ∷ m) h = elim (Bool-cases (k == key)) [
  | inl e ↦ rw e (
      ap (λ z. (pos n +ℤ minus t u) +ℤ z) (sum_ℤ-signed m)
      ∙ ap (λ z. z +ℤ pos (sum_of (λ s. s.1) m)) (pos-minus n t u)
      ∙ minus-pos (sum_of (λ s. s.1) m) (n + t) u
      ∙ ap (λ a. minus a u) (omega arith))
  | inr ne ↦
      let later : contains key (keys m) ≡ true = ground (arith, eq_iff k key, eq_iff key k) in
      rw ne (
        ap (λ z. pos n +ℤ z) (sum_ℤ-add_at key t u m later)
        ∙ pos-minus n (sum_of (λ s. s.1) m + t) u
        ∙ ap (λ a. minus a u) (omega arith))
]

keys-add_at : (key : String) (z : ℤ) (m : Dict ℤ) → keys (add_at key z m) ≡ keys m
unfolding add_at
keys-add_at key z [] = refl
keys-add_at key z ((k, n) ∷ m) = elim (Bool-cases (k == key)) [
  | inl e ↦ rw e refl
  | inr ne ↦ rw ne (ap (λ ks. k ∷ ks) (keys-add_at key z m))
]

keys-map {ℓ} :
    {A : Type ℓ} {V : Type 0} (f : String × A → V) (m : List (String × A))
    → keys (map (λ p. (p.0, f p)) m) ≡ keys m
keys-map f [] = refl
keys-map f ((k, a) ∷ m) = ap (λ ks. k ∷ ks) (keys-map f m)

largest-mem :
    (best : String × ℕ) (ws : List (String × ℕ))
    → contains (largest best ws).0 (keys (best ∷ ws)) ≡ true
unfolding largest
largest-mem best [] = ground (arith, eq_self best.0)
largest-mem best (w ∷ ws) =
    pick (ltb best.1 w.1 || (eqb best.1 w.1 && not (str_leb best.0 w.0))) (largest-mem w ws)
      (largest-mem best ws)
  where
    pick :
        (b : Bool)
        → contains (largest w ws).0 (keys (w ∷ ws)) ≡ true
        → contains (largest best ws).0 (keys (best ∷ ws)) ≡ true
        → contains (largest (if b then w else best) ws).0 (keys (best ∷ w ∷ ws)) ≡ true
    pick true p q = ground arith
    pick false p q = ground arith

positive-nil : (weights : Dict ℕ) → positive weights ≡ [] → sum_of (λ w. w.1) weights ≡ 0
positive-nil [] h = refl
positive-nil ((k, n) ∷ weights) h = elim (Bool-cases (ltb 0 n)) [
  | inl e ↦ ground arith
  | inr ne ↦ ground (arith, positive-nil weights)
]

cancels : (used total : ℕ) → minus (used + total) used ≡ pos total
cancels used total = ground arith

share_among-exact :
    (rounded : ℕ → ℕ → ℕ → ℕ) (total : ℕ) (p : String × ℕ) (ps : Dict ℕ)
    → (sum_ℤ (values (share_among rounded total (p ∷ ps))) ≡ pos total)
      × (keys (share_among rounded total (p ∷ ps)) ≡ keys (p ∷ ps))
unfolding share_among
share_among-exact rounded total p ps =
    let whole : ℕ = sum_of (λ p. p.1) (p ∷ ps) in
    let shares = cut rounded total whole (p ∷ ps) in
    let used : ℕ = sum_of (λ s. s.1) shares in
    let same = keys-map (λ p. rounded total p.1 whole) (p ∷ ps) in
    (
      sum_ℤ-add_at (largest p ps).0 total used shares
            (ap (contains (largest p ps).0) same ∙ largest-mem p ps)
          ∙ cancels used total,
      keys-add_at (largest p ps).0 (minus total used) (signed shares)
          ∙ keys-map (λ s. pos s.1) shares
          ∙ same,
    )

-- Whatever the rounding of decimals does to each share, the shares add up to the total exactly where some weight is
-- positive, and they are those of the keys with a positive weight, in their order, and of no other.
pub share-exact :
    (rounded : ℕ → ℕ → ℕ → ℕ) (total : ℕ) (weights : Dict ℕ)
    → 1 ≤ sum_of (λ w. w.1) weights
    → (sum_ℤ (values (share rounded total weights)) ≡ pos total)
      × (keys (share rounded total weights) ≡ keys (positive weights))
unfolding share
share-exact rounded total weights h = by_positive (positive weights) refl
  where
    ne : sum_of (λ w. w.1) weights ≢ 0
    ne e = omega (arith, h, e)

    by_positive :
        (ps : Dict ℕ)
        → positive weights ≡ ps
        → (sum_ℤ (values (share_among rounded total ps)) ≡ pos total)
          × (keys (share_among rounded total ps) ≡ keys ps)
    by_positive [] e = let none_left = positive-nil weights e in absurd (ne none_left)
    by_positive (p ∷ ps) e = share_among-exact rounded total p ps
