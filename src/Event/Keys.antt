-- ===== src/Event/Keys.antt =====
-- The keys of a bundle from a bound on: the least of them, and how many there are. Both are
-- determined by the lookups, and so do not depend on the order of the map's own iteration.
use pnf.Base.{
  inl, inr, ◌≢◌, ◌≡◌, refl, sym, ◌∙◌, ap, ℕ, suc, ◌+◌, ◌^◌, ◌≤◌, ◌<◌, Option, none, some, List, [],
  ◌∷◌, length, ltb, leb, ◌==◌, if◌then◌else◌, arith, Option-cases, Bool-cases,
}
use native.Mathlib.Decide.{dec_lt}
use pnf.Base.GoMap.{find}

module _ {V : Type 0} where
  -- Keys are the ids of engines: not negative, and each at most once.
  abbrev pub IsKeyed : List (ℕ × V) → Type 0
  IsKeyed [] = Unit
  IsKeyed ((k, v) ∷ es) = (k < 2 ^ 63) × (find k es ≡ none) × IsKeyed es

  -- the least key from `lo` on
  unfoldable pub least : ℕ → List (ℕ × V) → Option ℕ
  least lo [] = none
  least lo ((k, v) ∷ es) = elim (least lo es) [
    | none ↦ if leb lo k then some k else none
    | some j ↦ if leb lo k then (if ltb k j then some k else some j) else some j
  ]

  pub least-some :
      (lo k : ℕ) (es : List (ℕ × V)) → least lo es ≡ some k → (lo ≤ k) × (find k es ≢ none)
  unfolding least find
  least-some lo k [] h = cc
  least-some lo k ((i, w) ∷ es) h = elim (Option-cases (least lo es)) [
    | inl e ↦ ground arith
    | inr (j, e) ↦ ground (arith, least-some lo j es e)
  ]

  pub least-none : (lo j : ℕ) (es : List (ℕ × V)) → least lo es ≡ none → lo ≤ j → find j es ≡ none
  unfolding least find
  least-none lo j [] h a = refl
  least-none lo j ((i, w) ∷ es) h a = elim (Option-cases (least lo es)) [
    | inl e ↦ ground (arith, least-none lo j es e a)
    | inr (m, e) ↦ ground arith
  ]

  pub least-min :
      (lo k j : ℕ) (es : List (ℕ × V)) → least lo es ≡ some k → lo ≤ j → j < k → find j es ≡ none
  unfolding least find
  least-min lo k j [] h a b = refl
  least-min lo k j ((i, w) ∷ es) h a b = elim (Option-cases (least lo es)) [
    | inl e ↦ ground (arith, least-none lo j es e a)
    | inr (m, e) ↦ ground (arith, least-min lo m j es e a)
  ]

  -- `least` is determined by the lookups.
  abbrev pub SameEntries : List (ℕ × V) → List (ℕ × V) → Type 0
  SameEntries es fs = (k : ℕ) → find k es ≡ find k fs

  pub least-cong : (lo : ℕ) (es fs : List (ℕ × V)) → SameEntries es fs → least lo es ≡ least lo fs
  least-cong lo es fs same = elim (Option-cases (least lo es)) [
    | inl e ↦ elim (Option-cases (least lo fs)) [
      | inl g ↦ cc
      | inr (m, g) ↦
          absurd (
            (least-some lo m fs g).1 (sym (same m) ∙ least-none lo m es e (least-some lo m fs g).0))
    ]
    | inr (k, e) ↦ elim (Option-cases (least lo fs)) [
      | inl g ↦
          absurd ((least-some lo k es e).1 (same k ∙ least-none lo k fs g (least-some lo k es e).0))
      | inr (m, g) ↦ e ∙ ap some (agree k m e g) ∙ sym g
    ]
  ]
    where
      agree : (k m : ℕ) → least lo es ≡ some k → least lo fs ≡ some m → k ≡ m
      agree k m e g = elim (dec_lt k m) [
        | yes p ↦
            absurd
              ((least-some lo k es e).1 (same k ∙ least-min lo m k fs g (least-some lo k es e).0 p))
        | no p ↦ elim (dec_lt m k) [
          | yes q ↦ absurd (
              (least-some lo m fs g).1
                (sym (same m) ∙ least-min lo k m es e (least-some lo m fs g).0 q))
          | no q ↦ omega arith
        ]
      ]

  -- how many keys there are from `lo` on
  unfoldable pub count_from : ℕ → List (ℕ × V) → ℕ
  count_from lo [] = 0
  count_from lo ((k, v) ∷ es) = (if leb lo k then 1 else 0) + count_from lo es

  pub find_tail :
      (j k : ℕ) (v : V) (es : List (ℕ × V)) → find j ((k, v) ∷ es) ≡ none → find j es ≡ none
  unfolding find
  find_tail j k v es h = ground arith

  pub count_from_absent :
      (lo : ℕ) (es : List (ℕ × V)) → ((j : ℕ) → lo ≤ j → find j es ≡ none) → count_from lo es ≡ 0
  unfolding count_from find
  count_from_absent lo [] h = refl
  count_from_absent lo ((k, v) ∷ es) h =
      ground (arith, h k, count_from_absent lo es (λ j a. find_tail j k v es (h j a)))

  pub absent_of_count_from :
      (lo j : ℕ) (es : List (ℕ × V)) → count_from lo es ≡ 0 → lo ≤ j → find j es ≡ none
  unfolding count_from find
  absent_of_count_from lo j [] h a = refl
  absent_of_count_from lo j ((k, v) ∷ es) h a = ground (arith, absent_of_count_from lo j es)

  pub count_from-le-length : (lo : ℕ) (es : List (ℕ × V)) → count_from lo es ≤ length es
  unfolding count_from
  count_from-le-length lo [] = omega arith
  count_from-le-length lo ((k, v) ∷ es) = ground (arith, count_from-le-length lo es)

  pub count_from-zero : (es : List (ℕ × V)) → count_from 0 es ≡ length es
  unfolding count_from
  count_from-zero [] = refl
  count_from-zero ((k, v) ∷ es) = ground (arith, count_from-zero es)

  count_from_gap :
      (lo k : ℕ) (es : List (ℕ × V))
      → lo ≤ k
      → ((j : ℕ) → lo ≤ j → j < k → find j es ≡ none)
      → find k es ≡ none
      → count_from lo es ≡ count_from (suc k) es
  unfolding count_from find
  count_from_gap lo k [] a gap h = refl
  count_from_gap lo k ((i, w) ∷ es) a gap h =
      ground (arith, gap i, count_from_gap lo k es a (λ j b c. find_tail j i w es (gap j b c)))

  pub count_from_least :
      (lo k : ℕ) (es : List (ℕ × V))
      → IsKeyed es
      → lo ≤ k
      → ((j : ℕ) → lo ≤ j → j < k → find j es ≡ none)
      → find k es ≢ none
      → count_from lo es ≡ suc (count_from (suc k) es)
  unfolding count_from find
  count_from_least lo k [] v a gap h = absurd (h refl)
  count_from_least lo k ((i, w) ∷ es) v a gap h = elim (Bool-cases (i == k)) [
    | inl e ↦
        ground (arith, gap i, count_from_gap lo k es a (λ j b c. find_tail j i w es (gap j b c)))
    | inr e ↦
        ground
          (arith, gap i, count_from_least lo k es v.2 a (λ j b c. find_tail j i w es (gap j b c)))
  ]
