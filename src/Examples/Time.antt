-- ===== src/Examples/Time.antt =====
-- Instances of what is proved of src/platform_ops/common/clock.py.
use data_platform_ops.Prelude.{◌≤◌, ◌≡◌, List, [], ◌∷◌, map, pos, negsuc, none, refl}
use data_platform_ops.Common.Clock.{started, now, advance, Move, by_delta, to_instant, run}
use data_platform_ops.Common.Clock.Moves.{now-run, latest, now-run-latest}

abbrev mixed_moves : List Move
mixed_moves = by_delta (pos 5) ∷ by_delta (negsuc 2) ∷ to_instant 90 ∷ to_instant 120 ∷ []

mixed_moves-run : now (run mixed_moves (started 100)) ≡ 120
unfolding run now started
mixed_moves-run = refl

backwards-refused : advance (negsuc 0) (started 100) ≡ none
unfolding advance started
backwards-refused = refl

now-run_example : now (started 100) ≤ now (run mixed_moves (started 100))
now-run_example = now-run mixed_moves (started 100)

now-run-latest_example :
    now (run (map to_instant (130 ∷ 90 ∷ 120 ∷ [])) (started 100))
    ≡ latest (130 ∷ 90 ∷ 120 ∷ []) (now (started 100))
now-run-latest_example = now-run-latest (130 ∷ 90 ∷ 120 ∷ []) (started 100)
