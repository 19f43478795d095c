-- ===== src/Tests/Rings.antt =====
-- The two ring buffers.
use pnf.Base.{◌≡◌, ◌≢◌, refl, ℕ, ◌+◌, ◌-◌, ◌%◌, [], ◌∷◌, arith}
use pnf.Base.Words.{lt32, add32, truncate, rem64, add64, extend, sub32}
use pnf.Base.Outcome.{ok, panic, outside_window}
use pnf.DataWindow.{DataWindow, pos_to_index, get}
use pnf.DataWindow.Bounds
use pnf.DataWindow.Slots.{peek, found, get-peek}
use pnf.Window.{Window, get as get_value}
use pnf.Window.Alias
use pnf.Window.Alias.{get_past_end}

-- the frames 10, 11 and 12, in a ring that starts at its last slot
abbrev three_frames : DataWindow ℕ
three_frames = record { first = 10; start = 2; slots = 21 ∷ 22 ∷ 20 ∷ [] }

three_frames-IsValid : Bounds.IsValid three_frames
three_frames-IsValid = record {
  some_slot = omega arith;
  start_in = omega arith;
  no_wrap = omega arith;
}

get-peek_example : get three_frames 12 ≡ found (peek three_frames 12)
get-peek_example = get-peek three_frames 12 three_frames-IsValid (omega arith)

get_first : get three_frames 10 ≡ ok 20
unfolding get pos_to_index lt32 add32 truncate rem64 add64 extend sub32
get_first = refl

-- the positions 10, 11 and 12, after two calls of `Advance`
abbrev three_values : Window ℕ
three_values = record { first = 10; start = 2; values = 21 ∷ 22 ∷ 20 ∷ [] }

three_values-IsValid : Alias.IsValid three_values
three_values-IsValid = record {
  some_value = omega arith;
  start_in = omega arith;
  no_wrap = omega arith;
}

get_past_end_example :
    (get_value three_values 14 ≡ get_value three_values (10 + (14 - 10) % 3))
    × (get_value three_values 14 ≢ panic outside_window)
get_past_end_example =
    get_past_end three_values three_values-IsValid 14 (omega arith) (omega arith) (omega arith)
