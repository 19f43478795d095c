-- ===== src/Updater/Tracks/Past.antt =====
-- The history from a frame that the window may have left long ago.
use pnf.Base.{
  ◌≡◌, refl, sym, subst, ℕ, ◌+◌, ◌≤◌, ◌<◌, true, some, List, length, arith, ==_refl, ne→==, ◌==◌,
}
use native.Mathlib.Decide.{ℕ_discrete}
use pnf.Base.GoMap.{entries}
use pnf.Event.{EventBundle, AllEvents}
use pnf.Event.Keys.{IsKeyed}
use pnf.Game.{GameOps}
use pnf.Updater.{Updater}
use pnf.Updater.Replay.{World}
use pnf.Updater.Tracks.{History, IsConsistent}
use pnf.Updater.Tracks.Rewrite.{rewritten-History, with_events}
use pnf.Updater.Tracks.Remote.{Stored, new_dirty, new_dirty_bounds, new_world, new_events}

module _ {G E : Type 0} (ops : GameOps G E) (world : ℕ → World G) (events : ℕ → EventBundle E) where
  -- All frames since `base`, and those to come, have their events each once.
  pub record Past (base last : ℕ) : Type 0 where
    pub history : History ops world events base last
    pub keyed : (q : ℕ) → base < q → IsKeyed (entries (events q))

module _ {G E : Type 0} (ops : GameOps G E) (world : ℕ → World G) (events : ℕ → EventBundle E)
    (u : Updater G E) (c : IsConsistent ops world events u) (f : ℕ) (bundle : EventBundle E)
    (es merged : List (ℕ × AllEvents E)) (v : Updater G E)
    (st : Stored ops world events u c f bundle es merged v) where
  pub Stored-Past :
      (base : ℕ)
      → base ≤ u.data_window.first
      → u.data_window.first < f
      → f < u.data_window.first + length u.data_window.slots
      → Past ops world events base u.global_frame
      → Past ops
          (new_world ops world events u c f bundle es merged)
          (new_events ops world events u c f bundle es merged)
          base
          v.global_frame
  Stored-Past base h a b p =
      let low = new_dirty_bounds ops world events u c f bundle es a b in
      record {
        history =
            rewritten-History ops world (with_events events f (some merged))
              (new_dirty ops world events u c f bundle es) base v.global_frame p.history
              (λ q k. sym (rw (ne→== f q (λ x. absurd (omega (arith, low)))) refl))
              (omega (arith, low)) low.3 (λ q k l. now q k);
        keyed = now;
      }
    where
      now : (q : ℕ) → base < q → IsKeyed (entries (with_events events f (some merged) q))
      now q k = elim (ℕ_discrete f q) [
        | yes e ↦
            let here : (f == q) ≡ true = subst (λ j. (f == j) ≡ true) e (==_refl f) in
            rw here st.at_frame.keyed
        | no ne ↦ rw (ne→== f q ne) (p.keyed q k)
      ]
