-- ===== src/Window.antt =====
-- containers/window/uint64_string/window.go: `Window`, generated by gotgo from the template
-- containers/window/window.got. Positions and `first` are `uint64` patterns, `start` is an `int`.
-- The values (strings in the source) are only moved: their type is a parameter, with the zero value
-- where the source allocates.
pub mod Alias
use pnf.Base.{ℕ, ◌+◌, List, length, get_elem?, set, replicate, ◌||◌, ◌==◌, if◌then◌else◌}
use pnf.Base.Words.{add64, sub64, lt64, rem64}
use pnf.Base.Outcome.{
  Outcome, ok, panic, divide_by_zero, index_out_of_range, make_negative, outside_window, or_panic,
  ◌>>=◌,
}

pub record Window {ℓ} (V : Type ℓ) : Type ℓ where
  pub first : ℕ
  pub start : ℕ
  pub values : List V

module _ {ℓ} {V : Type ℓ} where
  unfoldable pub new : V → ℕ → ℕ → Outcome (Window V)
  new zero_value n start =
      if lt64 n 0
      then panic make_negative
      else ok (record { first = start; start = 0; values = replicate n zero_value })

  unfoldable pub pos_to_index : Window V → ℕ → Outcome ℕ
  pos_to_index w pos =
      if length w.values == 0
      then panic divide_by_zero
      else let index = rem64 (add64 w.start (sub64 pos w.first)) (length w.values) in
        if lt64 index 0 || lt64 (length w.values) index then panic outside_window else ok index

  unfoldable pub get : Window V → ℕ → Outcome V
  get w pos = pos_to_index w pos >>= λ index. or_panic index_out_of_range (get_elem? w.values index)

  unfoldable pub put : Window V → ℕ → V → Outcome (Window V)
  put w pos val = pos_to_index w pos >>= λ index.
      if lt64 index (length w.values)
      then ok (record w { values = set w.values index val })
      else panic index_out_of_range

  unfoldable pub start : Window V → ℕ
  start w = w.first

  unfoldable pub end : Window V → ℕ
  end w = add64 w.first (length w.values)

  unfoldable pub advance : Window V → Outcome (Window V)
  advance w =
      if length w.values == 0
      then panic divide_by_zero
      else ok
          (record w { first = add64 w.first 1; start = rem64 (add64 w.start 1) (length w.values) })
