-- ===== src/Base/GoMap.antt =====
-- Go's maps with engine ids (64-bit patterns) as keys: `none` is the nil map, and the list holds the
-- entries in the order in which one run of `range` meets them, each key once.
use pnf.Base.Tests.{◌==◌, if◌then◌else◌}
use pnf.Base.Lists.{length}
use pnf.Base.Outcome.{Outcome, ok, panic, nil_map}
use Prim.Native.Nat.{ℕ, ◌+◌}
use mathlib.Core.Path.{◌≡◌, refl}
use mathlib.Core.Bool.{Bool, true, false}
use mathlib.Core.Option.{Option, none, some}
use mathlib.Core.List.{List, [], ◌∷◌}
use native.Mathlib.Omega.{arith}

abbrev pub GoMap {ℓ} : Type ℓ → Type ℓ
GoMap V = Option (List (ℕ × V))

module _ {ℓ} {V : Type ℓ} where
  abbrev pub entries : GoMap V → List (ℕ × V)
  entries none = []
  entries (some es) = es

  unfoldable pub find : ℕ → List (ℕ × V) → Option V
  find k [] = none
  find k ((j, v) ∷ es) = if j == k then some v else find k es

  -- `v, ok := m[k]`
  abbrev pub lookup : ℕ → GoMap V → Option V
  lookup k m = find k (entries m)

  abbrev pub is_some : Option V → Bool
  is_some none = false
  is_some (some v) = true

  -- `_, ok := m[k]`
  abbrev pub has : ℕ → GoMap V → Bool
  has k m = is_some (lookup k m)

  unfoldable pub put : ℕ → V → List (ℕ × V) → List (ℕ × V)
  put k v [] = (k, v) ∷ []
  put k v ((j, w) ∷ es) = if j == k then (k, v) ∷ es else (j, w) ∷ put k v es

  -- `m[k] = v`
  abbrev pub assign : ℕ → V → GoMap V → Outcome (GoMap V)
  assign k v none = panic nil_map
  assign k v (some es) = ok (some (put k v es))

  unfoldable pub without : ℕ → List (ℕ × V) → List (ℕ × V)
  without k [] = []
  without k ((j, w) ∷ es) = if j == k then without k es else (j, w) ∷ without k es

  -- `delete(m, k)`
  abbrev pub delete : ℕ → GoMap V → GoMap V
  delete k none = none
  delete k (some es) = some (without k es)

  pub find-put :
      (k j : ℕ) (v : V) (es : List (ℕ × V))
      → find j (put k v es) ≡ (if k == j then some v else find j es)
  unfolding find put
  find-put k j v [] = refl
  find-put k j v ((i, w) ∷ es) = ground (arith, find-put k j v es)

  pub find-without :
      (k j : ℕ) (es : List (ℕ × V)) → find j (without k es) ≡ (if k == j then none else find j es)
  unfolding find without
  find-without k j [] = ground arith
  find-without k j ((i, w) ∷ es) = ground (arith, find-without k j es)

  -- A new key makes the map one entry longer.
  pub length-put :
      (k : ℕ) (v : V) (es : List (ℕ × V)) → find k es ≡ none → length (put k v es) ≡ length es + 1
  unfolding find put
  length-put k v [] h = refl
  length-put k v ((i, w) ∷ es) h = ground (arith, length-put k v es)
