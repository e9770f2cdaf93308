-- ===== src/Common/Clock/Moves.antt =====
-- The time of a `SimulatedClock` of src/platform_ops/common/clock.py only grows.
use data_platform_ops.Prelude.{
  ℕ, ◌≤◌, ◌≡◌, ◌∙◌, ap, inl, inr, refl, arith, List, [], ◌∷◌, map, ltb, Bool-cases, if◌then◌else◌,
  pos, negsuc,
}
use data_platform_ops.Common.Clock.{
  SimulatedClock, now, advance, advance_to, Move, by_delta, to_instant, move, settled_on, run,
}

now-move : (m : Move) (clock : SimulatedClock) → now clock ≤ now (settled_on clock (move m clock))
unfolding now move advance advance_to settled_on
now-move (by_delta (pos n)) clock = omega arith
now-move (by_delta (negsuc n)) clock = omega arith
now-move (to_instant when) clock = elim (Bool-cases (ltb when clock.current)) [
  | inl e ↦ rw e (omega arith)
  | inr ne ↦ rw ne (ground arith)
]

-- However the clock is moved, and whichever of the calls raise an error that is caught, it never shows an earlier time
-- than it showed before.
pub now-run : (moves : List Move) (clock : SimulatedClock) → now clock ≤ now (run moves clock)
unfolding run
now-run [] clock = omega arith
now-run (m ∷ moves) clock =
    omega (arith, now-move m clock, now-run moves (settled_on clock (move m clock)))

-- The latest of the instants and of `t`.
unfoldable pub latest : List ℕ → ℕ → ℕ
latest [] t = t
latest (when ∷ whens) t = latest whens (if ltb when t then t else when)

now-move_to :
    (when : ℕ) (clock : SimulatedClock)
    → now (settled_on clock (move (to_instant when) clock))
      ≡ (if ltb when (now clock) then now clock else when)
unfolding now move advance_to settled_on
now-move_to when clock = elim (Bool-cases (ltb when clock.current)) [
  | inl e ↦ rw e refl
  | inr ne ↦ rw ne refl
]

-- Jumps to any instants in any order, those that are refused skipped, leave the clock at the latest of the instants and of
-- the time it showed.
pub now-run-latest :
    (whens : List ℕ) (clock : SimulatedClock)
    → now (run (map to_instant whens) clock) ≡ latest whens (now clock)
unfolding run latest
now-run-latest [] clock = refl
now-run-latest (when ∷ whens) clock =
    now-run-latest whens (settled_on clock (move (to_instant when) clock))
    ∙ ap (latest whens) (now-move_to when clock)
