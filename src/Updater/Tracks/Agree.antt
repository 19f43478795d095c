-- ===== src/Updater/Tracks/Agree.antt =====
-- Two histories with the same events.
use pnf.Base.{◌≡◌, sym, ◌∙◌, subst, ℕ, zero, suc, ◌+◌, ◌≤◌, ◌<◌, arith}
use pnf.Base.Outcome.{ok}
use pnf.Base.GoMap.{entries}
use pnf.DataWindow.{get}
use pnf.Event.{EventBundle}
use pnf.Event.Keys.{SameEntries}
use pnf.Event.Visits.{in_order, in_order-cong}
use pnf.Game.{GameOps, FrameData}
use pnf.Updater.{Updater}
use pnf.Updater.Replay.{World, Shows, next_world}
use pnf.Updater.Tracks.{History, IsConsistent}
use pnf.Updater.Tracks.Rethink.{get-some}

module _ {G E : Type 0} (ops : GameOps G E) where
  next_world-cong :
      (b c : EventBundle E) (w x : World G)
      → in_order b ≡ in_order c
      → w ≡ x
      → next_world ops b w ≡ next_world ops c x
  unfolding next_world
  next_world-cong b c w x e d = rw (e, d)

  module _ (world world' : ℕ → World G) (events events' : ℕ → EventBundle E) where
    pub worlds_agree :
        (first first' last last' base n : ℕ)
        → History ops world events first last
        → History ops world' events' first' last'
        → first ≤ base
        → first' ≤ base
        → base + n ≤ last
        → base + n ≤ last'
        → world base ≡ world' base
        → ((q : ℕ)
            → base < q
            → q ≤ base + n
            → SameEntries (entries (events q)) (entries (events' q)))
        → world (base + n) ≡ world' (base + n)
    worlds_agree first first' last last' base zero h h' a a' b b' e same =
        subst (λ q. world q ≡ world' q) {x = base} (omega arith) e
    worlds_agree first first' last last' base (suc n) h h' a a' b b' e same =
        let f = base + n in
        let old =
          worlds_agree first first' last last' base n h h' a a' (omega arith) (omega arith) e
            (λ q x y. same q x (omega arith)) in
        subst (λ q. world q ≡ world' q) {x = suc f} (omega arith)
          (h.follows f (omega arith) (omega arith)
            ∙ next_world-cong (events (suc f)) (events' (suc f)) (world f) (world' f)
                (in_order-cong (events (suc f)) (events' (suc f))
                  (h.keyed (suc f) (omega arith) (omega arith))
                  (h'.keyed (suc f) (omega arith) (omega arith))
                  (same (suc f) (omega arith) (omega arith)))
                old
            ∙ sym (h'.follows f (omega arith) (omega arith)))

    -- the slot of a clean frame, as `Get` returns it
    pub shown :
        (u : Updater G E)
        → IsConsistent ops world events u
        → (f : ℕ) → u.data_window.first ≤ f
        → f < u.oldest_dirty_frame
        → (d : FrameData G E) × (get u.data_window f ≡ ok d) × Shows d (world f)
    shown u c f a b =
        let (d, e, s) = c.tracks.worlds f a b in
        (
          d,
          get-some u.data_window f d c.tracks.valid
              (omega (arith, c.dirty_before, c.tracks.last_in)) e,
          s,
        )
