-- ===== src/DataWindow.antt =====
-- core/window_data.go: `DataWindow`, a ring of slots for the frames `first`, `first + 1`, …. The
-- element type of the source is `FrameData`; here it is a parameter, with its zero value where the
-- source allocates. `first` and every position are `StateFrame` patterns, `start` is an `int`.
pub mod Bounds
pub mod Slots
use pnf.Base.{
  ℕ, suc, ◌+◌, ◌%◌, List, length, get_elem?, set, replicate, ◌||◌, not, ◌==◌, if◌then◌else◌,
}
use pnf.Base.Words.{add32, sub32, lt32, le32, add64, lt64, extend, truncate, rem64}
use pnf.Base.Outcome.{
  Outcome, ok, panic, divide_by_zero, index_out_of_range, make_negative, outside_window, or_panic,
  ◌>>=◌,
}

pub record DataWindow {ℓ} (A : Type ℓ) : Type ℓ where
  pub first : ℕ
  pub start : ℕ
  pub slots : List A

module _ {ℓ} {A : Type ℓ} where
  -- `make` panics on a negative length.
  unfoldable pub new_data_window : A → ℕ → ℕ → Outcome (DataWindow A)
  new_data_window zero_value n start =
      if lt64 n 0
      then panic make_negative
      else ok (record { first = start; start = 0; slots = replicate n zero_value })

  -- The remainder is computed before the bounds are tested, so it panics on an empty window.
  unfoldable pub pos_to_index : DataWindow A → ℕ → Outcome ℕ
  pos_to_index w pos =
      if length w.slots == 0
      then panic divide_by_zero
      else let index = rem64 (add64 w.start (extend (sub32 pos w.first))) (length w.slots) in
        if lt32 pos w.first || le32 (add32 w.first (truncate (length w.slots))) pos
        then panic outside_window
        else ok index

  unfoldable pub get : DataWindow A → ℕ → Outcome A
  get w pos = pos_to_index w pos >>= λ index. or_panic index_out_of_range (get_elem? w.slots index)

  unfoldable pub put : DataWindow A → ℕ → A → Outcome (DataWindow A)
  put w pos val = pos_to_index w pos >>= λ index.
      if lt64 index (length w.slots)
      then ok (record w { slots = set w.slots index val })
      else panic index_out_of_range

  unfoldable pub start : DataWindow A → ℕ
  start w = w.first

  unfoldable pub end : DataWindow A → ℕ
  end w = add32 w.first (truncate (length w.slots))

  unfoldable pub advance : DataWindow A → Outcome (DataWindow A)
  advance w =
      if length w.slots == 0
      then panic divide_by_zero
      else ok
          (record w { first = add32 w.first 1; start = rem64 (add64 w.start 1) (length w.slots) })
