-- ===== src/Base/Slices.antt =====
-- Go's removal from a slice by overwriting the entry with the last one and cutting the slice.
use pnf.Base.Lists.{length, get_elem?, set, length-set}
use Prim.Native.Nat.{ℕ, zero, suc, ◌-◌, ◌<◌}
use mathlib.Core.Path.{◌≡◌, refl, ap, subst}
use mathlib.Core.List.{List, [], ◌∷◌, ◌++◌}
use mathlib.Core.Logic.{inl, inr}
use pnf.Base.Tests.{Option-cases}
use mathlib.Core.Option.{Option, none, some, some-injective}
use mathlib.Core.List.{Perm}
use mathlib.Core.List.Perm
use mathlib.Core.Path.{sym}
use pnf.Base.Lists.{get_elem?-of_lt}
use native.Mathlib.Omega.{arith}

module _ {ℓ} {A : Type ℓ} where
  abbrev pub take : ℕ → List A → List A
  take zero xs = []
  take (suc n) [] = []
  take (suc n) (x ∷ xs) = x ∷ take n xs

  abbrev pub with_last : List A → ℕ → Option A → List A
  with_last xs i none = xs
  with_last xs i (some last) = take (length xs - 1) (set xs i last)

  -- `xs[i] = xs[len(xs)-1]; xs = xs[0 : len(xs)-1]`
  unfoldable pub swap_remove : List A → ℕ → List A
  swap_remove xs i = with_last xs i (get_elem? xs (length xs - 1))

  last_init :
      (x : A) (ys : List A) (l : A)
      → get_elem? (x ∷ ys) (length ys) ≡ some l
      → Perm (x ∷ ys) (l ∷ take (length ys) (x ∷ ys))
  last_init x [] l h = Perm.cons' (some-injective x l h) Perm.nil
  last_init x (y ∷ zs) l h = Perm.trans (Perm.cons x (last_init y zs l h)) (Perm.swap l x _)

  swap_remove_last :
      (x : A) (ys : List A) (i : ℕ) (r l : A)
      → get_elem? (x ∷ ys) i ≡ some r
      → get_elem? (x ∷ ys) (length ys) ≡ some l
      → Perm (x ∷ ys) (r ∷ take (length ys) (set (x ∷ ys) i l))
  swap_remove_last x [] zero r l h k = Perm.cons' (some-injective x r h) Perm.nil
  swap_remove_last x [] (suc i) r l h k = cc
  swap_remove_last x (y ∷ zs) zero r l h k = Perm.cons' (some-injective x r h) (last_init y zs l k)
  swap_remove_last x (y ∷ zs) (suc i) r l h k =
      Perm.trans (Perm.cons x (swap_remove_last y zs i r l h k)) (Perm.swap r x _)

  swap_remove_with :
      (x : A) (ys : List A) (i : ℕ) (l : A)
      → get_elem? (x ∷ ys) (length ys) ≡ some l
      → swap_remove (x ∷ ys) i ≡ take (length ys) (set (x ∷ ys) i l)
  unfolding swap_remove
  swap_remove_with x ys i l k =
      let end : suc (length ys) - 1 ≡ length ys = omega arith in rw (end, k, end)

  -- The entry is removed, and no other; the rest are reordered.
  pub swap_remove-perm :
      (xs : List A) (i : ℕ) (r : A) → get_elem? xs i ≡ some r → Perm xs (r ∷ swap_remove xs i)
  unfolding swap_remove
  swap_remove-perm [] i r h = cc
  swap_remove-perm (x ∷ ys) i r h =
      let (l, k) = get_elem?-of_lt (x ∷ ys) (length ys) (omega arith) in
      rw (swap_remove_with x ys i l k) (swap_remove_last x ys i r l h k)

  length-take : (n : ℕ) (xs : List A) → n < suc (length xs) → length (take n xs) ≡ n
  length-take zero xs h = refl
  length-take (suc n) [] h = absurd (omega arith)
  length-take (suc n) (x ∷ xs) h = ap suc (length-take n xs (omega arith))

  pub length-swap_remove :
      (xs : List A) (i : ℕ) (r : A)
      → get_elem? xs i ≡ some r
      → length xs ≡ suc (length (swap_remove xs i))
  length-swap_remove [] i r h = cc
  length-swap_remove (x ∷ ys) i r h =
      let (l, k) = get_elem?-of_lt (x ∷ ys) (length ys) (omega arith) in
      rw (swap_remove_with x ys i l k) (
        ap suc (
          sym
            (length-take (length ys) (set (x ∷ ys) i l) (omega (arith, length-set (x ∷ ys) i l)))))

module _ {A : Type 0} (P : A → Type 0) where
  abbrev pub All : List A → Type 0
  All [] = Unit
  All (x ∷ xs) = P x × All xs

  All-take : (n : ℕ) (xs : List A) → All xs → All (take n xs)
  All-take zero xs v = tt
  All-take (suc n) [] v = tt
  All-take (suc n) (x ∷ xs) v = (v.0, All-take n xs v.1)

  All-set : (xs : List A) (i : ℕ) (a : A) → All xs → P a → All (set xs i a)
  All-set [] i a v h = tt
  All-set (x ∷ xs) zero a v h = (h, v.1)
  All-set (x ∷ xs) (suc i) a v h = (v.0, All-set xs i a v.1 h)

  All-get_elem : (xs : List A) (i : ℕ) (a : A) → All xs → get_elem? xs i ≡ some a → P a
  All-get_elem [] i a v h = cc
  All-get_elem (x ∷ xs) zero a v h = subst P (some-injective x a h) v.0
  All-get_elem (x ∷ xs) (suc i) a v h = All-get_elem xs i a v.1 h

  -- What holds of every entry still does.
  pub All-swap_remove : (xs : List A) (i : ℕ) → All xs → All (swap_remove xs i)
  unfolding swap_remove
  All-swap_remove xs i v = elim (Option-cases (get_elem? xs (length xs - 1))) [
    | inl e ↦ rw e v
    | inr (a, e) ↦ rw e (
        All-take (length xs - 1) (set xs i a)
          (All-set xs i a v (All-get_elem xs (length xs - 1) a v e)))
  ]

  pub All-append : (xs : List A) (a : A) → All xs → P a → All (xs ++ (a ∷ []))
  All-append [] a v h = (h, tt)
  All-append (x ∷ xs) a v h = (v.0, All-append xs a v.1 h)
