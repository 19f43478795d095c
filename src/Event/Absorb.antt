-- ===== src/Event/Absorb.antt =====
-- What `AbsorbEventBundle` makes of two bundles.
use pnf.Base.{
  ◌⊎◌, inl, inr, ◌≢◌, ◌≡◌, refl, ℕ, ◌^◌, ◌<◌, Option, none, some, List, [], ◌∷◌, arith,
  Option-cases,
}
use pnf.Base.Outcome.{Outcome, ok, panic, engine_collision, nil_map}
use pnf.Base.GoMap.{entries, find, put, find-put}
use pnf.Event.{AllEvents, EventBundle, absorb_entries, absorb_event_bundle}
use pnf.Event.Keys.{IsKeyed, SameEntries}

module _ {V : Type 0} where
  -- the value of the first map that has one
  abbrev pub either : Option V → Option V → Option V
  either none o = o
  either (some v) o = some v

  abbrev pub AreDisjoint : List (ℕ × V) → List (ℕ × V) → Type 0
  AreDisjoint es fs = (k : ℕ) → (find k es ≡ none) ⊎ (find k fs ≡ none)

  pub either-none : (o : Option V) → o ≡ either o none
  either-none none = refl
  either-none (some v) = refl

  pub put-IsKeyed :
      (k : ℕ) (v : V) (es : List (ℕ × V))
      → k < 2 ^ 63
      → find k es ≡ none
      → IsKeyed es
      → IsKeyed (put k v es)
  unfolding put find
  put-IsKeyed k v [] b h u = (b, refl, tt)
  put-IsKeyed k v ((i, w) ∷ es) b h u = ground (arith, find-put k i v es, put-IsKeyed k v es b)

module _ {E : Type 0} where
  -- what absorbing `es` leaves of a bundle that held `fs`
  pub record Merged (fs es gs : List (ℕ × AllEvents E)) : Type 0 where
    pub keyed : IsKeyed gs
    pub at : (k : ℕ) → find k gs ≡ either (find k fs) (find k es)

  head_fresh :
      (fs : List (ℕ × AllEvents E)) (k : ℕ) (w : AllEvents E) (es : List (ℕ × AllEvents E))
      → AreDisjoint fs ((k, w) ∷ es)
      → find k fs ≡ none
  unfolding find
  head_fresh fs k w es d = ground (arith, d k)

  tail_disjoint :
      (fs : List (ℕ × AllEvents E)) (k : ℕ) (w : AllEvents E) (es : List (ℕ × AllEvents E))
      → AreDisjoint fs ((k, w) ∷ es)
      → find k es ≡ none
      → AreDisjoint (put k w fs) es
  unfolding find
  tail_disjoint fs k w es d h j = ground (arith, d j, find-put k j w fs)

  merged_at :
      (fs : List (ℕ × AllEvents E)) (k : ℕ) (w : AllEvents E) (es : List (ℕ × AllEvents E)) (j : ℕ)
      {o : Option (AllEvents E)}
      → AreDisjoint fs ((k, w) ∷ es)
      → find k es ≡ none
      → o ≡ either (find j (put k w fs)) (find j es)
      → o ≡ either (find j fs) (find j ((k, w) ∷ es))
  unfolding find
  merged_at fs k w es j d h e = ground (arith, d j, find-put k j w fs)

  absorb_past :
      (fs : List (ℕ × AllEvents E)) (k : ℕ) (w : AllEvents E) (es : List (ℕ × AllEvents E))
      {r : Outcome (EventBundle E)}
      → find k fs ≡ none
      → absorb_entries (some (put k w fs)) es ≡ r
      → absorb_entries (some fs) ((k, w) ∷ es) ≡ r
  unfolding absorb_entries
  absorb_past fs k w es h e = rw h e

  absorb_entries-Merged :
      (fs es : List (ℕ × AllEvents E))
      → IsKeyed fs
      → IsKeyed es
      → AreDisjoint fs es
      → (gs : List (ℕ × AllEvents E)) × (absorb_entries (some fs) es ≡ ok (some gs))
        × Merged fs es gs
  absorb_entries-Merged fs [] v u d = (
    fs,
    (unfold absorb_entries in refl),
    record { keyed = v; at = λ k. unfold find in either-none (find k fs) },
  )
  absorb_entries-Merged fs ((k, w) ∷ es) v u d =
      let fresh : find k fs ≡ none = head_fresh fs k w es d in
      let (gs, e, m) =
        absorb_entries-Merged (put k w fs) es (put-IsKeyed k w fs u.0 fresh v) u.2
          (tail_disjoint fs k w es d u.1) in
      (
        gs,
        absorb_past fs k w es fresh e,
        record { keyed = m.keyed; at = λ j. merged_at fs k w es j d u.1 (m.at j) },
      )

  -- A bundle that was made absorbs one that shares no engine with it: it returns the bundle in which
  -- each engine has the events that it had in either.
  pub absorb-Merged :
      (fs : List (ℕ × AllEvents E)) (fb2 : EventBundle E)
      → IsKeyed fs
      → IsKeyed (entries fb2)
      → AreDisjoint fs (entries fb2)
      → (gs : List (ℕ × AllEvents E)) × (absorb_event_bundle (some fs) fb2 ≡ ok (some gs))
        × Merged fs (entries fb2) gs
  unfolding absorb_event_bundle
  absorb-Merged fs fb2 v u d = absorb_entries-Merged fs (entries fb2) v u d

  still_there :
      (fs : List (ℕ × AllEvents E)) (i : ℕ) (w : AllEvents E) (k : ℕ)
      → find k fs ≢ none
      → find k (put i w fs) ≢ none
  still_there fs i w k h = ground (arith, find-put i k w fs)

  in_tail :
      (fs : List (ℕ × AllEvents E)) (i : ℕ) (w : AllEvents E) (es : List (ℕ × AllEvents E)) (k : ℕ)
      → find i fs ≡ none
      → find k fs ≢ none
      → find k ((i, w) ∷ es) ≢ none
      → find k es ≢ none
  unfolding find
  in_tail fs i w es k e h g = ground arith

  absorb_entries_collision :
      (fs es : List (ℕ × AllEvents E)) (k : ℕ)
      → find k fs ≢ none
      → find k es ≢ none
      → absorb_entries (some fs) es ≡ panic engine_collision
  absorb_entries_collision fs [] k h g = absurd (g (unfold find in refl))
  absorb_entries_collision fs ((i, w) ∷ es) k h g = elim (Option-cases (find i fs)) [
    | inl e ↦ absorb_past fs i w es e (
        absorb_entries_collision (put i w fs) es k (still_there fs i w k h)
          (in_tail fs i w es k e h g))
    | inr (x, e) ↦ unfold absorb_entries in rw e
  ]

  -- An engine that is in both bundles makes the code panic.
  absorb_collision :
      (fs : List (ℕ × AllEvents E)) (fb2 : EventBundle E) (k : ℕ)
      → find k fs ≢ none
      → find k (entries fb2) ≢ none
      → absorb_event_bundle (some fs) fb2 ≡ panic engine_collision
  unfolding absorb_event_bundle
  absorb_collision fs fb2 k h g = absorb_entries_collision fs (entries fb2) k h g

  -- So does the first event of a frame whose bundle was never made.
  pub absorb_nil :
      (k : ℕ) (v : AllEvents E) (es : List (ℕ × AllEvents E))
      → absorb_event_bundle none (some ((k, v) ∷ es)) ≡ panic nil_map
  unfolding absorb_event_bundle absorb_entries find
  absorb_nil k v es = refl

  -- The order in which two bundles arrive does not matter for what the frame holds.
  pub Merged-comm :
      (fs es ds gs hs xs ys : List (ℕ × AllEvents E))
      → AreDisjoint es ds
      → Merged fs es gs
      → Merged gs ds xs
      → Merged fs ds hs
      → Merged hs es ys
      → SameEntries xs ys
  Merged-comm fs es ds gs hs xs ys d m n p q k = ground (arith, d k, m.at k, n.at k, p.at k, q.at k)
