-- ===== src/Cost/Cluster/Months.antt =====
-- The days of src/platform_ops/cost/cluster.py, `window_months`, and of the months of src/platform_ops/cost/business.py.
use data_platform_ops.Prelude.{
  ℕ, zero, suc, ◌+◌, ◌-◌, ◌≤◌, String, ◌≡◌, refl, subst, arith, Option, none, some, get, or_default,
  get-put, eq_iff, sum_of,
}
use data_platform_ops.Cost.Attribution.Split.{sum-put}
use data_platform_ops.Cost.Cluster.{window_months, legacy_days_of}

-- A window's days are all counted, each in one month.
window_months-days :
    (month_of : ℕ → String) (days : ℕ) → sum_of (λ m. m.1) (window_months month_of days) ≡ days
unfolding window_months
window_months-days month_of zero = refl
window_months-days month_of (suc n) =
    let found = window_months month_of n in
    omega (
      arith,
      sum-put (month_of n) (or_default 0 (get (month_of n) found) + 1) found,
      window_months-days month_of n,
    )

days_in : (ℕ → String) → ℕ → String → ℕ
days_in month_of n month = or_default 0 (get month (window_months month_of n))

days_in-suc-le :
    (month_of : ℕ → String) (n : ℕ) (month : String)
    → days_in month_of n month ≤ days_in month_of (suc n) month
unfolding days_in window_months
days_in-suc-le month_of n month = ground (
  arith,
  get-put (month_of n) month (or_default 0 (get (month_of n) (window_months month_of n)) + 1)
      (window_months month_of n),
  eq_iff (month_of n) month,
)

-- A longer window has no fewer days of a month.
days_in-le :
    (month_of : ℕ → String) (month : String) (n k : ℕ)
    → days_in month_of n month ≤ days_in month_of (n + k) month
days_in-le month_of month n zero =
    let same : n ≡ n + 0 = omega arith in
    subst (λ m. days_in month_of n month ≤ days_in month_of m month) same (omega arith)
days_in-le month_of month n (suc k) =
    let same : suc (n + k) ≡ n + suc k = omega arith in
    subst (λ m. days_in month_of n month ≤ days_in month_of m month) same
      (omega (arith, days_in-le month_of month n k, days_in-suc-le month_of (n + k) month))

legacy_days_of-le :
    (start days : ℕ) (cutover : Option ℕ)
    → or_default start cutover + 1 ≤ start + days
    → legacy_days_of start days cutover ≤ days
unfolding legacy_days_of
legacy_days_of-le start days none h = omega arith
legacy_days_of-le start days (some cutover) h = omega (arith, h)

-- The days that `window_months` gives the months add up to the days of the window. Where the cut-over's day, if there is
-- one, is before the end of a window that is not empty, no month has more days with the old replica than it has in the
-- window.
pub window_months-bounds :
    (month_of : ℕ → String) (start days : ℕ) (cutover : Option ℕ) (month : String)
    → or_default start cutover + 1 ≤ start + days
    → (sum_of (λ m. m.1) (window_months month_of days) ≡ days)
      × (or_default 0 (get month (window_months month_of (legacy_days_of start days cutover)))
          ≤ or_default 0 (get month (window_months month_of days)))
unfolding days_in
window_months-bounds month_of start days cutover month h =
    let fewer : ℕ = legacy_days_of start days cutover in
    let le = legacy_days_of-le start days cutover h in
    let same : fewer + (days - fewer) ≡ days = omega (arith, le) in
    (
      window_months-days month_of days,
      subst (λ n. days_in month_of fewer month ≤ days_in month_of n month) same
          (days_in-le month_of month fewer (days - fewer)),
    )
