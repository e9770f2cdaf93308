-- ===== src/Reconcile/Cutover.antt =====
-- `decide` of src/platform_ops/reconcile/parallel.py: when the parallel run may end. A night's tables are given by
-- what their verdicts passed.
pub mod First
use data_platform_ops.Prelude.{
  ℕ, suc, String, Bool, true, false, ◌&&◌, Option, none, some, List, [], ◌∷◌, length, all_of,
  if◌then◌else◌, eqb,
}

-- The parts of `NightResult` that count for the cut-over.
pub record NightResult : Type 0 where
  pub index : ℕ
  pub run_at : ℕ
  pub passed : List Bool
  pub unexplained : List String

pub record Cutover : Type 0 where
  pub recommended : Bool
  pub night : Option ℕ
  pub run_at : Option ℕ
  pub clean_nights : ℕ
  pub required : ℕ
  pub parallel_nights : ℕ

is_empty {ℓ} : {A : Type ℓ} → List A → Bool
is_empty [] = true
is_empty (x ∷ xs) = false

unfoldable pub clean : NightResult → Bool
unfolding is_empty
clean result = all_of (λ p. p) result.passed && is_empty result.unexplained

-- The loop of `decide`: `all` is the number of nights.
unfoldable pub decide_from : List NightResult → ℕ → ℕ → ℕ → Cutover
decide_from [] required all streak = record {
  recommended = false;
  night = none;
  run_at = none;
  clean_nights = streak;
  required = required;
  parallel_nights = all;
}
decide_from (result ∷ results) required all streak =
    let now = if clean result then suc streak else 0 in
    let later = decide_from results required all now in
    if eqb now required
    then record {
      recommended = true;
      night = some result.index;
      run_at = some result.run_at;
      clean_nights = now;
      required = required;
      parallel_nights = all;
    }
    else later

unfoldable pub decide : List NightResult → ℕ → Cutover
decide results required = decide_from results required (length results) 0
