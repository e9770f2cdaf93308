-- ===== src/Common/Clock.antt =====
-- `SimulatedClock` of src/platform_ops/common/clock.py. Instants are whole numbers of seconds, a `timedelta` is an integer,
-- and where a method raises ValueError the answer is `none` and the clock is left as it was.
pub mod Moves
use data_platform_ops.Prelude.{
  ℕ, suc, ◌+◌, ◌-◌, Bool, Option, none, some, List, [], ◌∷◌, if◌then◌else◌, ltb, ℤ, pos, negsuc,
}

pub record SimulatedClock : Type 0 where
  pub start : ℕ
  pub current : ℕ

-- `__init__`
unfoldable pub started : ℕ → SimulatedClock
started start = record { start = start; current = start }

unfoldable pub now : SimulatedClock → ℕ
now clock = clock.current

unfoldable pub advance : ℤ → SimulatedClock → Option SimulatedClock
advance (pos n) clock = some (record clock { current = clock.current + n })
advance (negsuc n) clock = none

unfoldable pub advance_to : ℕ → SimulatedClock → Option SimulatedClock
advance_to when clock =
    if ltb when clock.current then none else some (record clock { current = when })

-- A call of one of the methods that move a clock.
pub data Move : Type 0 where
  by_delta : ℤ → Move
  to_instant : ℕ → Move

unfoldable pub move : Move → SimulatedClock → Option SimulatedClock
unfolding advance advance_to
move (by_delta d) clock = advance d clock
move (to_instant when) clock = advance_to when clock

-- The clock after the call, for a caller that catches the error.
unfoldable pub settled_on : SimulatedClock → Option SimulatedClock → SimulatedClock
settled_on clock none = clock
settled_on clock (some moved) = moved

unfoldable pub run : List Move → SimulatedClock → SimulatedClock
unfolding move settled_on
run [] clock = clock
run (m ∷ ms) clock = run ms (settled_on clock (move m clock))
