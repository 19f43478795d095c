-- ===== src/MockNetwork/Crossing.antt =====
-- Joins of the same two hosts that cross.
use pnf.Base.{◌≡◌, subst, ℕ, zero, suc, some, List, [], ◌∷◌, get_elem?}
use mathlib.Core.Option.{some-injective}
use pnf.Base.Slices.{All}

pub All-get_elem? :
    (P : ℕ → Type 0) (xs : List ℕ) (i a : ℕ) → All P xs → get_elem? xs i ≡ some a → P a
All-get_elem? P [] i a v h = cc
All-get_elem? P (x ∷ xs) zero a v h = subst P (some-injective x a h) v.0
All-get_elem? P (x ∷ xs) (suc i) a v h = All-get_elem? P xs i a v.1 h
