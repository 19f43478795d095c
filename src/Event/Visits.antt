-- ===== src/Event/Visits.antt =====
-- The order in which `each` visits a bundle: by ascending engine id, whatever the order of the
-- map's own iteration.
use pnf.Base.{
  inl, inr, ◌≡◌, refl, sym, ◌∙◌, ap, ℕ, zero, suc, ◌+◌, ◌-◌, ◌^◌, ◌≤◌, ◌<◌, Option, none, some,
  List, [], ◌∷◌, length, ltb, ◌==◌, if◌then◌else◌, arith, Option-cases,
}
use mathlib.Core.Path.{fun_ext}
use pnf.Base.Words.{lt64, minus_one64}
use pnf.Base.Outcome.{Outcome, ok, ◌>>=◌}
use pnf.Base.GoMap.{entries, find, lookup}
use pnf.Event.{AllEvents, EventBundle, next_key, value_or_zero, each_from, each}
use pnf.Event.Keys.{
  IsKeyed, SameEntries, least, least-some, least-none, least-min, least-cong, count_from,
  count_from_absent, absent_of_count_from, count_from-le-length, count_from-zero, count_from_least,
}

-- the key before `lo`, or -1
abbrev before : ℕ → ℕ
before lo = if lo == 0 then minus_one64 else lo - 1

abbrev key_or_minus_one : Option ℕ → ℕ
key_or_minus_one none = minus_one64
key_or_minus_one (some k) = k

abbrev smaller : ℕ → Option ℕ → ℕ
smaller c none = c
smaller c (some k) = if ltb k c then k else c

before-suc : (k : ℕ) → before (suc k) ≡ k
before-suc k = ground arith

module _ {E : Type 0} where
  next_key_from :
      (lo c : ℕ) (es : List (ℕ × AllEvents E))
      → lo ≤ 2 ^ 63
      → c < 2 ^ 63
      → IsKeyed es
      → next_key (before lo) c es ≡ smaller c (least lo es)
  unfolding next_key least lt64
  next_key_from lo c [] a b v = refl
  next_key_from lo c ((k, w) ∷ es) a b v =
      ground (arith, next_key_from lo k es a v.0 v.2, next_key_from lo c es a b v.2)

  next_key-least :
      (lo : ℕ) (es : List (ℕ × AllEvents E))
      → lo ≤ 2 ^ 63
      → IsKeyed es
      → next_key (before lo) minus_one64 es ≡ key_or_minus_one (least lo es)
  unfolding next_key least lt64
  next_key-least lo [] a v = refl
  next_key-least lo ((k, w) ∷ es) a v =
      ground (arith, next_key_from lo k es a v.0 v.2, next_key-least lo es a v.2)

  -- the entries with the `n` least keys from `lo` on, in ascending order
  visits : ℕ → ℕ → List (ℕ × AllEvents E) → List (ℕ × AllEvents E)
  visits zero lo es = []
  visits (suc n) lo es = elim (least lo es) [
    | none ↦ []
    | some k ↦ (k, value_or_zero (find k es)) ∷ visits n (suc k) es
  ]

  visits-none : (n lo : ℕ) (es : List (ℕ × AllEvents E)) → least lo es ≡ none → visits n lo es ≡ []
  unfolding visits
  visits-none zero lo es e = refl
  visits-none (suc n) lo es e = rw (e, visits)

  visits-some :
      (n lo k : ℕ) (es : List (ℕ × AllEvents E))
      → least lo es ≡ some k
      → visits (suc n) lo es ≡ (k, value_or_zero (find k es)) ∷ visits n (suc k) es
  unfolding visits
  visits-some n lo k es e = rw (e, visits)

  -- A bundle in ascending order of its keys.
  pub in_order : EventBundle E → List (ℕ × AllEvents E)
  in_order fb = visits (length (entries fb)) 0 (entries fb)

  -- the callbacks, one for each entry
  unfoldable pub run :
      {S : Type 0} → (ℕ → AllEvents E → S → Outcome S) → List (ℕ × AllEvents E) → S → Outcome S
  run f [] s = ok s
  run f ((k, v) ∷ es) s = f k v s >>= λ t. run f es t

  least-key :
      (k : ℕ) (lo : ℕ) (es : List (ℕ × AllEvents E))
      → IsKeyed es
      → least lo es ≡ some k
      → k < 2 ^ 63
  unfolding least
  least-key k lo [] v h = cc
  least-key k lo ((i, w) ∷ es) v h = elim (Option-cases (least lo es)) [
    | inl e ↦ ground arith
    | inr (m, e) ↦ ground (arith, least-key m lo es v.2 e)
  ]

  count_from-some :
      (lo k : ℕ) (es : List (ℕ × AllEvents E))
      → IsKeyed es
      → least lo es ≡ some k
      → count_from lo es ≡ suc (count_from (suc k) es)
  count_from-some lo k es v h =
      count_from_least lo k es v (least-some lo k es h).0 (λ j. least-min lo k j es h)
        (least-some lo k es h).1

  count_from-none :
      (lo : ℕ) (es : List (ℕ × AllEvents E)) → least lo es ≡ none → count_from lo es ≡ 0
  count_from-none lo es h = count_from_absent lo es (λ j. least-none lo j es h)

  each_from-visits :
      {S : Type 0} (f : ℕ → AllEvents E → S → Outcome S) (n lo : ℕ) (fb : EventBundle E) (s : S)
      → IsKeyed (entries fb)
      → lo ≤ 2 ^ 63
      → count_from lo (entries fb) ≡ n
      → each_from f n (before lo) fb s ≡ run f (visits n lo (entries fb)) s
  unfolding each_from run
  each_from-visits f zero lo fb s v a c = unfold visits in refl
  each_from-visits f (suc n) lo fb s v a c = elim (Option-cases (least lo (entries fb))) [
    | inl e ↦ absurd (omega (arith, count_from-none lo (entries fb) e))
    | inr (k, e) ↦
        rw (visits-some n lo k (entries fb) e, next_key-least lo (entries fb) a v, e)
          (ap (◌>>=◌ (f k (value_or_zero (lookup k fb)) s)) (
            fun_ext λ t.
              ap (λ m. each_from f n m fb t) (sym (before-suc k))
              ∙ each_from-visits f n (suc k) fb t v (omega (arith, least-key k lo (entries fb) v e))
                  (omega (arith, count_from-some lo k (entries fb) v e))))
  ]

  -- On a bundle with each id once and none negative, `each` calls its function once for each entry,
  -- in the order `in_order`.
  pub each-in_order :
      {S : Type 0} (fb : EventBundle E) (frame : ℕ) (f : ℕ → AllEvents E → S → Outcome S) (s : S)
      → IsKeyed (entries fb)
      → each fb frame f s ≡ run f (in_order fb) s
  unfolding each in_order
  each-in_order fb frame f s v =
      each_from-visits f (length (entries fb)) 0 fb s v (omega arith) (count_from-zero (entries fb))

  -- More rounds than there are keys change nothing.
  visits_enough :
      (n m lo : ℕ) (es : List (ℕ × AllEvents E))
      → IsKeyed es
      → count_from lo es ≤ n
      → count_from lo es ≤ m
      → visits n lo es ≡ visits m lo es
  visits_enough zero zero lo es v a b = refl
  visits_enough zero (suc m) lo es v a b = elim (Option-cases (least lo es)) [
    | inl e ↦ rw (visits-none zero lo es e, visits-none (suc m) lo es e)
    | inr (k, e) ↦ absurd (omega (arith, count_from-some lo k es v e))
  ]
  visits_enough (suc n) zero lo es v a b = elim (Option-cases (least lo es)) [
    | inl e ↦ rw (visits-none zero lo es e, visits-none (suc n) lo es e)
    | inr (k, e) ↦ absurd (omega (arith, count_from-some lo k es v e))
  ]
  visits_enough (suc n) (suc m) lo es v a b = elim (Option-cases (least lo es)) [
    | inl e ↦ rw (visits-none (suc n) lo es e, visits-none (suc m) lo es e)
    | inr (k, e) ↦
        let c = count_from-some lo k es v e in
        rw (visits-some n lo k es e, visits-some m lo k es e)
          (ap (◌∷◌ (k, value_or_zero (find k es)))
            (visits_enough n m (suc k) es v (omega (arith, c)) (omega (arith, c))))
  ]

  visits-cong :
      (n lo : ℕ) (es fs : List (ℕ × AllEvents E))
      → SameEntries es fs
      → visits n lo es ≡ visits n lo fs
  visits-cong zero lo es fs same = unfold visits in refl
  visits-cong (suc n) lo es fs same = elim (Option-cases (least lo fs)) [
    | inl e ↦
        rw (visits-none (suc n) lo fs e, visits-none (suc n) lo es (least-cong lo es fs same ∙ e))
    | inr (k, e) ↦
        rw (visits-some n lo k fs e, visits-some n lo k es (least-cong lo es fs same ∙ e), same k)
          (ap (◌∷◌ (k, value_or_zero (find k fs))) (visits-cong n (suc k) es fs same))
  ]

  pub in_order-cong :
      (fb gb : EventBundle E)
      → IsKeyed (entries fb)
      → IsKeyed (entries gb)
      → SameEntries (entries fb) (entries gb)
      → in_order fb ≡ in_order gb
  unfolding in_order
  in_order-cong fb gb v u same =
      visits_enough (length (entries fb)) both 0 (entries fb) v
        (count_from-le-length 0 (entries fb)) (omega (arith, count_from-le-length 0 (entries fb)))
      ∙ visits-cong both 0 (entries fb) (entries gb) same
      ∙ visits_enough both (length (entries gb)) 0 (entries gb) u
          (omega (arith, count_from-le-length 0 (entries gb))) (count_from-le-length 0 (entries gb))
    where
      both : ℕ
      both = length (entries fb) + length (entries gb)

  -- Two maps with the same entries, each id once and none negative, are visited alike, in whatever
  -- order they were filled.
  pub each-cong :
      {S : Type 0} (fb gb : EventBundle E) (frame : ℕ) (f : ℕ → AllEvents E → S → Outcome S) (s : S)
      → IsKeyed (entries fb)
      → IsKeyed (entries gb)
      → SameEntries (entries fb) (entries gb)
      → each fb frame f s ≡ each gb frame f s
  each-cong fb gb frame f s v u same =
      each-in_order fb frame f s v
      ∙ ap (λ es. run f es s) (in_order-cong fb gb v u same)
      ∙ sym (each-in_order gb frame f s u)

  -- strictly ascending keys, all from `lo` on
  abbrev pub IsAscending : ℕ → List (ℕ × AllEvents E) → Type 0
  IsAscending lo [] = Unit
  IsAscending lo ((k, v) ∷ es) = (lo ≤ k) × IsAscending (suc k) es

  visits-IsAscending : (n lo : ℕ) (es : List (ℕ × AllEvents E)) → IsAscending lo (visits n lo es)
  unfolding visits
  visits-IsAscending zero lo es = tt
  visits-IsAscending (suc n) lo es = elim (Option-cases (least lo es)) [
    | inl e ↦ rw (visits-none (suc n) lo es e) tt
    | inr (k, e) ↦
        rw (visits-some n lo k es e) ((least-some lo k es e).0, visits-IsAscending n (suc k) es)
  ]

  pub find_below :
      (lo j : ℕ) (es : List (ℕ × AllEvents E)) → IsAscending lo es → j < lo → find j es ≡ none
  unfolding find
  find_below lo j [] v h = refl
  find_below lo j ((k, w) ∷ es) v h = ground (arith, find_below (suc k) j es v.1)

  find-visits :
      (n lo j : ℕ) (es : List (ℕ × AllEvents E))
      → IsKeyed es
      → lo ≤ j
      → count_from lo es ≤ n
      → find j (visits n lo es) ≡ find j es
  unfolding find
  find-visits zero lo j es v a c =
      unfold visits in sym (absent_of_count_from lo j es (omega arith) a)
  find-visits (suc n) lo j es v a c = elim (Option-cases (least lo es)) [
    | inl e ↦ rw (visits-none (suc n) lo es e, least-none lo j es e a)
    | inr (k, e) ↦ rw (visits-some n lo k es e) (
        ground (
          arith,
          least-some lo k es e,
          least-min lo k j es e a,
          find_below (suc k) j (visits n (suc k) es) (visits-IsAscending n (suc k) es),
          find-visits n (suc k) j es v,
          count_from-some lo k es v e,
        ))
  ]

  -- If a bundle has each id once and none negative, `in_order` has its entries, in strictly ascending
  -- order of the ids.
  pub in_order_sorted :
      (fb : EventBundle E)
      → IsKeyed (entries fb)
      → IsAscending 0 (in_order fb) × SameEntries (in_order fb) (entries fb)
  unfolding in_order
  in_order_sorted fb v = (
    visits-IsAscending (length (entries fb)) 0 (entries fb),
    λ j.
        find-visits (length (entries fb)) 0 j (entries fb) v (omega arith)
          (count_from-le-length 0 (entries fb)),
  )
