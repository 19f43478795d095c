-- ===== src/Base/Loop.antt =====
-- Go's counted loops over `StateFrame`s, which are 32-bit patterns.
use pnf.Base.Tests.{lt→ltb, le→ltb}
use pnf.Base.Words.{add32, add32_lem, lt32, le32, lt32_lem}
use pnf.Base.Outcome.{Outcome, ok, diverges, ◌>>=◌}
use Prim.Native.Nat.{ℕ, zero, suc, ◌+◌, ◌-◌, ◌^◌, ◌≤◌, ◌<◌}
use mathlib.Core.Path.{◌≡◌, refl, ◌∙◌, ap, subst, fun_ext}
use mathlib.Core.Bool.{Bool, true, false, not}
use native.Mathlib.Omega.{arith}

abbrev all_rounds : ℕ
all_rounds = 2 ^ 32 + 1

module _ {ℓ} {S : Type ℓ} where
  -- `for ; test(i); i++ { body }`. A counter takes 2 ^ 32 values, so a loop that makes more rounds
  -- than that never ends.
  for_rounds : ℕ → (ℕ → Bool) → (ℕ → S → Outcome S) → ℕ → S → Outcome S
  for_rounds zero test body i s = diverges
  for_rounds (suc n) test body i s = elim (test i) [
    | true ↦ body i s >>= λ t. for_rounds n test body (add32 i 1) t
    | false ↦ ok s
  ]

  unfoldable pub for_frames : (ℕ → Bool) → (ℕ → S → Outcome S) → ℕ → S → Outcome S
  unfolding for_rounds add32
  for_frames = for_rounds all_rounds

  -- `n` rounds from `i` on, with a counter that does not wrap.
  abbrev pub repeat : ℕ → (ℕ → S → Outcome S) → ℕ → S → Outcome S
  repeat zero body i s = ok s
  repeat (suc n) body i s = body i s >>= λ t. repeat n body (suc i) t

  for_rounds-repeat :
      (n fuel : ℕ) (test : ℕ → Bool) (body : ℕ → S → Outcome S) (i : ℕ) (s : S)
      → n < fuel
      → i + n < 2 ^ 31
      → ((j : ℕ) → i ≤ j → j < i + n → test j ≡ true)
      → test (i + n) ≡ false
      → for_rounds fuel test body i s ≡ repeat n body i s
  unfolding for_rounds
  for_rounds-repeat n zero test body i s h b run stop = elim h [ ]
  for_rounds-repeat zero (suc fuel) test body i s h b run stop =
      let here : test i ≡ false = ap test (omega arith) ∙ stop in rw (here, for_rounds)
  for_rounds-repeat (suc n) (suc fuel) test body i s h b run stop =
      let step : add32 i 1 ≡ suc i = add32_lem i 1 (omega arith) ∙ omega arith in
      rw (run i (omega arith) (omega arith), for_rounds, step)
        (ap (◌>>=◌ (body i s)) (
          fun_ext λ t.
            for_rounds-repeat n fuel test body (suc i) t (omega arith) (omega arith)
              (λ j p q. run j (omega arith) (omega arith)) (ap test (omega arith) ∙ stop)))

  -- `for i := lo; i <= hi; i++`
  pub for_le :
      (body : ℕ → S → Outcome S) (lo hi : ℕ) (s : S)
      → lo ≤ hi + 1
      → hi + 1 < 2 ^ 31
      → for_frames (λ i. le32 i hi) body lo s ≡ repeat (hi + 1 - lo) body lo s
  unfolding for_frames
  for_le body lo hi s h b =
      for_rounds-repeat (hi + 1 - lo) all_rounds (λ i. le32 i hi) body lo s (omega arith)
        (omega arith)
        (λ j p q. ap not (lt32_lem hi j (omega arith) (omega arith) ∙ le→ltb hi j (omega arith)))
        (ap not (
          lt32_lem hi (lo + (hi + 1 - lo)) (omega arith) (omega arith)
          ∙ lt→ltb hi (lo + (hi + 1 - lo)) (omega arith)))

  -- `for i := lo; i < hi; i++`
  pub for_lt :
      (body : ℕ → S → Outcome S) (lo hi : ℕ) (s : S)
      → lo ≤ hi
      → hi < 2 ^ 31
      → for_frames (λ i. lt32 i hi) body lo s ≡ repeat (hi - lo) body lo s
  unfolding for_frames
  for_lt body lo hi s h b =
      for_rounds-repeat (hi - lo) all_rounds (λ i. lt32 i hi) body lo s (omega arith) (omega arith)
        (λ j p q. lt32_lem j hi (omega arith) (omega arith) ∙ lt→ltb j hi (omega arith))
        (lt32_lem (lo + (hi - lo)) hi (omega arith) (omega arith)
          ∙ le→ltb (lo + (hi - lo)) hi (omega arith))

  for_rounds_stop :
      (fuel : ℕ) (test : ℕ → Bool) (body : ℕ → S → Outcome S) (i : ℕ) (s : S)
      → 0 < fuel
      → test i ≡ false
      → for_rounds fuel test body i s ≡ ok s
  unfolding for_rounds
  for_rounds_stop zero test body i s h stop = elim h [ ]
  for_rounds_stop (suc n) test body i s h stop = rw (stop, for_rounds)

  -- A loop that is not entered.
  pub for_frames_stop :
      (test : ℕ → Bool) (body : ℕ → S → Outcome S) (i : ℕ) (s : S)
      → test i ≡ false
      → for_frames test body i s ≡ ok s
  unfolding for_frames
  for_frames_stop test body i s stop = for_rounds_stop all_rounds test body i s (omega arith) stop

  -- A loop whose body keeps an invariant and does not fail runs to its end.
  pub repeat-total {κ} :
      (P : ℕ → S → Type κ) (body : ℕ → S → Outcome S) (n i : ℕ) (s : S)
      → ((j : ℕ) (t : S) → i ≤ j → j < i + n → P j t → (u : S) × (body j t ≡ ok u) × P (suc j) u)
      → P i s
      → (t : S) × (repeat n body i s ≡ ok t) × P (i + n) t
  repeat-total P body zero i s keep p = (s, refl, subst (λ k. P k s) (omega arith) p)
  repeat-total P body (suc n) i s keep p =
      let (t, e, q) = keep i s (omega arith) (omega arith) p in
      let (u, f, r) =
        repeat-total P body n (suc i) t (λ j v a b. keep j v (omega arith) (omega arith)) q in
      (u, rw e f, subst (λ k. P k u) (omega arith) r)
