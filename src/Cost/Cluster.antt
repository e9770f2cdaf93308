-- ===== src/Cost/Cluster.antt =====
-- src/platform_ops/cost/cluster.py and the months of src/platform_ops/cost/business.py: a stated monthly bill, shared out.
-- Money is a number of quanta of 1e-12 dollars; what is left after rounding may be negative, so a share is an integer.
-- Decimal arithmetic and the calendar are the standard library's: parameters.
pub mod Exact
pub mod Months
use data_platform_ops.Prelude.{
  ℕ, zero, suc, ◌+◌, ◌-◌, String, Bool, true, false, Option, none, some, List, [], ◌∷◌, ◌++◌, map,
  keep, if◌then◌else◌, Dict, get, put, keys, or_default, sort_by, str_leb, ltb, sum_of, ◌==◌, ℤ,
  pos, ◌+ℤ◌, minus,
}
use data_platform_ops.Cost.Attribution.{largest}

-- `window_months`: the days of the window in each month. `month_of` is the month of the start plus so many days.
unfoldable pub window_months : (ℕ → String) → ℕ → Dict ℕ
window_months month_of zero = []
window_months month_of (suc offset) =
    let found = window_months month_of offset in
    put (month_of offset) (or_default 0 (get (month_of offset) found) + 1) found

pub record StatedCost : Type 0 where
  pub compute_usd : ℕ
  pub storage_usd : ℕ

pub record MonthPool : Type 0 where
  pub month : String
  pub days : ℕ
  pub compute_usd : ℕ
  pub storage_usd : ℕ

unfoldable pub total_usd : MonthPool → ℕ
total_usd p = p.compute_usd + p.storage_usd

-- `prorated cost month days`: `(cost * _fraction(month, days)).quantize(MICRO)`
unfoldable pub pools : (ℕ → String → ℕ → ℕ) → StatedCost → Dict ℕ → List MonthPool
pools prorated stated months =
    map
      (λ m. record {
        month = m.0;
        days = m.1;
        compute_usd = prorated stated.compute_usd m.0 m.1;
        storage_usd = prorated stated.storage_usd m.0 m.1;
      })
      (sort_by (λ a b. str_leb a.0 b.0) months)

-- {k: w for k, w in weights.items() if w > 0}
abbrev pub positive : Dict ℕ → Dict ℕ
positive weights = keep (λ p. ltb 0 p.1) weights

-- shares[key] += rest
unfoldable pub add_at : String → ℤ → Dict ℤ → Dict ℤ
add_at key rest [] = []
add_at key rest ((k, z) ∷ shares) =
    if k == key then (k, z +ℤ rest) ∷ shares else (k, z) ∷ add_at key rest shares

module _ (rounded : ℕ → ℕ → ℕ → ℕ) where
  -- Each key's `(total * w / whole).quantize(MICRO)`
  abbrev pub cut : ℕ → ℕ → Dict ℕ → Dict ℕ
  cut total whole weights = map (λ p. (p.0, rounded total p.1 whole)) weights

  -- Among keys of positive weight: nothing where there is none.
  unfoldable pub share_among : ℕ → Dict ℕ → Dict ℤ
  share_among total [] = []
  share_among total (p ∷ ps) =
      let shares = cut total (sum_of (λ p. p.1) (p ∷ ps)) (p ∷ ps) in
      add_at (largest p ps).0 (minus total (sum_of (λ s. s.1) shares))
        (map (λ s. (s.0, pos s.1)) shares)

  unfoldable pub share : ℕ → Dict ℕ → Dict ℤ
  unfolding share_among
  share total weights = share_among total (positive weights)

  -- by_month.setdefault(month, {})[key] = weight
  by_month : List (String × String × ℕ) → Dict (Dict ℕ) → Dict (Dict ℕ)
  by_month [] found = found
  by_month ((key, month, weight) ∷ entries) found =
      by_month entries (put month (put key weight (or_default [] (get month found))) found)

  -- out.update(shares)
  update : Dict ℤ → Dict ℤ → Dict ℤ
  update [] out = out
  update ((k, z) ∷ shares) out = update shares (put k z out)

  compute_from : Dict MonthPool → Dict (Dict ℕ) → Dict ℤ → Dict ℤ
  unfolding share update
  compute_from pools_by_month [] out = out
  compute_from pools_by_month ((month, weights) ∷ months) out =
      compute_from pools_by_month months (elim (get month pools_by_month) [
        | none ↦ out
        | some pool ↦ update (share pool.compute_usd weights) out
      ])

  -- The queries are (query_id, month, bytes read).
  pub compute_shares : Dict MonthPool → List (String × String × ℕ) → Dict ℤ
  unfolding by_month compute_from
  compute_shares pools_by_month queries = compute_from pools_by_month (by_month queries []) []

  storage_from : Dict MonthPool → Dict (Dict ℕ) → List ((String × String) × ℤ)
  unfolding share
  storage_from pools_by_month [] = []
  storage_from pools_by_month ((month, weights) ∷ months) =
      let rest = storage_from pools_by_month months in
      elim (get month pools_by_month) [
        | none ↦ rest
        | some pool ↦ map (λ s. ((month, s.0), s.1)) (share pool.storage_usd weights) ++ rest
      ]

  -- The tables are (month, table, uncompressed bytes).
  pub storage_shares : Dict MonthPool → List (String × String × ℕ) → List ((String × String) × ℤ)
  unfolding by_month storage_from
  storage_shares pools_by_month tables =
      storage_from pools_by_month (by_month (map (λ t. (t.1, t.0, t.2)) tables) [])

pub record MonthCase : Type 0 where
  pub month : String
  pub days : ℕ
  pub legacy_days : ℕ
  pub legacy_usd : ℕ
  pub clickhouse_usd : ℕ
  pub reconcile_usd : ℕ

-- days if cutover is None else max(0, (cutover.date() - start.date()).days + 1), with dates as numbers of days
unfoldable pub legacy_days_of : ℕ → ℕ → Option ℕ → ℕ
legacy_days_of start days none = days
legacy_days_of start days (some cutover) = cutover + 1 - start

-- {p.month: p.total_usd for p in pools(stated, months)}
totals : List MonthPool → Dict ℕ
unfolding total_usd
totals [] = []
totals (p ∷ ps) = (p.month, total_usd p) ∷ totals ps

-- The rows of `business_case`. `clickhouse_usd` is found for every month: both dicts have the window's months.
unfoldable pub month_cases :
    (ℕ → String → ℕ → ℕ)
    → (ℕ → String)
    → StatedCost
    → StatedCost
    → ℕ
    → ℕ
    → Option ℕ
    → Dict ℕ
    → List MonthCase
unfolding totals
month_cases prorated month_of clickhouse legacy start days cutover reconcile_by_month =
    let months = window_months month_of days in
    let legacy_months = window_months month_of (legacy_days_of start days cutover) in
    let ch = totals (pools prorated clickhouse months) in
    let old = totals (pools prorated legacy legacy_months) in
    map
      (λ m. record {
        month = m.0;
        days = m.1;
        legacy_days = or_default 0 (get m.0 legacy_months);
        legacy_usd = or_default 0 (get m.0 old);
        clickhouse_usd = or_default 0 (get m.0 ch);
        reconcile_usd = or_default 0 (get m.0 reconcile_by_month);
      })
      (sort_by (λ a b. str_leb a.0 b.0) months)
