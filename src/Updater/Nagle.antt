-- ===== src/Updater/Nagle.antt =====
-- What `nagle` of core/updater.go does to the remote bundles: it puts them in groups.
use pnf.Base.{◌≡◌, ◌≢◌, sym, ◌∙◌, ap, Option, none, some, List, [], ◌∷◌, ◌++◌}
use mathlib.Core.List.{append_assoc, append-nil}
use mathlib.Core.Option.{some-injective}
use pnf.Event.{FrameBundle}
use pnf.Updater.Routine.{Arrival, bundle_arrives, timer_fires, nagle}

module _ {E : Type 0} where
  -- the bundles among the arrivals, in order
  abbrev pub bundles_among : List (Arrival E) → List (FrameBundle E)
  bundles_among [] = []
  bundles_among (bundle_arrives b ∷ as') = b ∷ bundles_among as'
  bundles_among (timer_fires ∷ as') = bundles_among as'

  abbrev pub in_groups : List (List (FrameBundle E)) → List (FrameBundle E)
  in_groups [] = []
  in_groups (g ∷ gs) = g ++ in_groups gs

  abbrev pub begun : Option (List (FrameBundle E)) → List (FrameBundle E)
  begun none = []
  begun (some g) = g

  -- no group has no bundle
  abbrev pub NoneEmpty : List (List (FrameBundle E)) → Type 0
  NoneEmpty [] = Unit
  NoneEmpty (g ∷ gs) = (g ≢ []) × NoneEmpty gs

  snoc_ne : (g : List (FrameBundle E)) (b : FrameBundle E) → g ++ (b ∷ []) ≢ []
  snoc_ne [] b e = cc
  snoc_ne (x ∷ g) b e = cc

  -- Whatever arrives, and whenever the timer fires: the groups that `nagle` sends on and the one that
  -- it still holds have every bundle once, in the order of arrival, after those of the group that it
  -- had begun; and it sends no empty group, if the one that it had begun was not empty.
  pub nagle-in_groups :
      (group : Option (List (FrameBundle E))) (arrivals : List (Arrival E))
      → group ≢ some []
      → (in_groups (nagle group arrivals).0 ++ begun (nagle group arrivals).1
          ≡ begun group ++ bundles_among arrivals)
        × NoneEmpty (nagle group arrivals).0
  unfolding nagle
  nagle-in_groups group [] h = (sym (append-nil (begun group)), tt)
  nagle-in_groups none (bundle_arrives b ∷ as') h = nagle-in_groups (some (b ∷ [])) as' (λ e. cc)
  nagle-in_groups none (timer_fires ∷ as') h = nagle-in_groups none as' h
  nagle-in_groups (some g) (bundle_arrives b ∷ as') h =
      let r =
        nagle-in_groups (some (g ++ (b ∷ []))) as'
          (λ e. snoc_ne g b (some-injective (g ++ (b ∷ [])) [] e)) in
      (r.0 ∙ append_assoc g (b ∷ []) (bundles_among as'), r.1)
  nagle-in_groups (some g) (timer_fires ∷ as') h =
      let r = nagle-in_groups none as' (λ e. cc) in
      (
        append_assoc g (in_groups (nagle none as').0) (begun (nagle none as').1)
            ∙ ap (λ k. g ++ k) r.0,
        ((λ e. h (ap (λ k. some k) e)), r.1),
      )
