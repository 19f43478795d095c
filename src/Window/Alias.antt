-- ===== src/Window/Alias.antt =====
-- What `Window.posToIndex` accepts. The generated file tests `index < 0 || index > len(w.data)`
-- after the remainder; the template tests the position against the window.
use pnf.Base.{◌≢◌, ℕ, ◌+◌, ◌-◌, ◌%◌, ◌^◌, ◌≤◌, ◌<◌, ◌≡◌, length, get_elem?-of_lt, arith, refl}
use native.Mathlib.Nat.{mod-lt, mod-eq_of_lt, add-mod-mod}
use pnf.Base.Words.{add64, sub64, lt64, rem64}
use pnf.Base.Outcome.{ok, panic, outside_window}
use pnf.Window.{Window, pos_to_index, get}

pub record IsValid {ℓ} {V : Type ℓ} (w : Window V) : Type 0 where
  pub some_value : 0 < length w.values
  pub start_in : w.start < length w.values
  pub no_wrap : length w.values < 2 ^ 62

module _ {ℓ} {V : Type ℓ} (w : Window V) (v : IsValid w) where
  pub pos_to_index-ahead :
      (pos : ℕ)
      → w.first ≤ pos
      → pos < 2 ^ 64
      → pos - w.first < 2 ^ 62
      → pos_to_index w pos ≡ ok ((w.start + (pos - w.first)) % length w.values)
  unfolding pos_to_index add64 sub64 lt64 rem64
  pos_to_index-ahead pos h b k = ground arith

  -- A position before the window is refused only if it lies further back than `start`.
  pub pos_to_index-behind :
      (pos : ℕ)
      → pos < w.first
      → w.first < 2 ^ 64
      → w.first - pos ≤ w.start
      → pos_to_index w pos ≡ ok (w.start - (w.first - pos))
  unfolding pos_to_index add64 sub64 lt64 rem64
  pos_to_index-behind pos h b k =
      ground
        (arith, mod-eq_of_lt {n = w.start - (w.first - pos)} {m = length w.values} (omega arith))

  -- `Get` at or past the end of the window does not panic: it returns the value of the frame that
  -- lies a whole number of rounds before.
  pub get_past_end :
      (pos : ℕ)
      → w.first + length w.values ≤ pos
      → pos < 2 ^ 64
      → pos - w.first < 2 ^ 62
      → (get w pos ≡ get w (w.first + (pos - w.first) % length w.values))
        × (get w pos ≢ panic outside_window)
  unfolding get
  get_past_end pos h b k =
      let (a, e) =
        get_elem?-of_lt w.values ((w.start + (pos - w.first)) % length w.values)
          (mod-lt (w.start + (pos - w.first)) v.some_value) in
      let near : (pos - w.first) % length w.values < length w.values = mod-lt _ v.some_value in
      rw
        (
          pos_to_index-ahead pos (omega arith) b k,
          pos_to_index-ahead (w.first + (pos - w.first) % length w.values) (omega arith)
              (omega arith) (omega arith),
        )
        (rw (back, add-mod-mod, e) (refl, λ c. cc))
    where
      back :
          w.first + (pos - w.first) % length w.values - w.first ≡ (pos - w.first) % length w.values
      back = omega arith
