-- ===== src/DataWindow/Bounds.antt =====
-- When a `DataWindow` accepts a position, and where it looks for it.
use pnf.Base.{◌⊎◌, ℕ, ◌+◌, ◌-◌, ◌%◌, ◌^◌, ◌≤◌, ◌<◌, ◌≡◌, length, arith}
use pnf.Base.Words.{add32, sub32, lt32, add64, extend, truncate, rem64}
use pnf.Base.Outcome.{ok, panic, outside_window}
use pnf.DataWindow.{DataWindow, pos_to_index, end}

-- The representation invariant: the ring has a slot, its start lies in it, and no frame of the
-- window reaches the last `StateFrame`.
pub record IsValid {ℓ} {A : Type ℓ} (w : DataWindow A) : Type 0 where
  pub some_slot : 0 < length w.slots
  pub start_in : w.start < length w.slots
  pub no_wrap : w.first + length w.slots < 2 ^ 31

module _ {ℓ} {A : Type ℓ} (w : DataWindow A) (v : IsValid w) where
  pub end_lem : end w ≡ w.first + length w.slots
  unfolding end add32 truncate
  end_lem = omega arith

  pub pos_to_index-inside :
      (pos : ℕ)
      → w.first ≤ pos
      → pos < w.first + length w.slots
      → pos_to_index w pos ≡ ok ((w.start + (pos - w.first)) % length w.slots)
  unfolding pos_to_index add32 sub32 lt32 add64 extend truncate rem64
  pos_to_index-inside pos h k = ground arith

  pub pos_to_index-outside :
      (pos : ℕ)
      → pos < 2 ^ 32
      → (pos < w.first) ⊎ (w.first + length w.slots ≤ pos)
      → pos_to_index w pos ≡ panic outside_window
  unfolding pos_to_index add32 sub32 lt32 add64 extend truncate rem64
  pos_to_index-outside pos b h = ground arith
