-- ===== src/Updater/Tracks/Receive.antt =====
-- The cases of `routine` on a consistent updater: what it takes in, and `advance` after that.
use pnf.Base.{
  ◌⊎◌, ◌≡◌, refl, ◌∙◌, subst, ℕ, suc, ◌+◌, ◌^◌, ◌≤◌, ◌<◌, true, false, some, List, length, arith,
  lt→ltb,
}
use pnf.Base.Words.{lt32, lt32_lem}
use pnf.Base.Outcome.{ok, ◌>>=◌}
use pnf.Base.GoMap.{entries}
use pnf.DataWindow.{start}
use pnf.Event.{EventBundle, AllEvents, FrameBundle}
use pnf.Event.Keys.{IsKeyed}
use pnf.Event.Absorb.{AreDisjoint}
use pnf.Game.{GameOps, IsLawful}
use pnf.Updater.{Updater}
use pnf.Updater.Handle.{Window, store_remote, min32, max32, Sent}
use pnf.Updater.Advance.{advance, all_frames}
use pnf.Updater.Replay.{World}
use pnf.Updater.Tracks.{Tracks, IsConsistent}
use pnf.Updater.Tracks.Rethink.{rethink-Tracks}
use pnf.Updater.Tracks.Complete.{is_complete, Completed, complete_frames-Completed}
use pnf.Updater.Tracks.Remote.{Stored, absorb-Stored, next_skip_returns}

module _ {G E : Type 0} (ops : GameOps G E) (world : ℕ → World G) (events : ℕ → EventBundle E) where
  -- A bundle of a frame in the window, with no engine whose events the frame already has, is merged
  -- into the frame. The frames from there on become dirty, and the updater is consistent with the
  -- events as they now are and with the worlds that they call for.
  pub store_remote-Stored :
      (u : Updater G E) (c : IsConsistent ops world events u) (f : ℕ) (bundle : EventBundle E)
      (es : List (ℕ × AllEvents E))
      → u.data_window.first < f
      → f < u.data_window.first + length u.data_window.slots
      → events f ≡ some es
      → IsKeyed es
      → IsKeyed (entries bundle)
      → AreDisjoint es (entries bundle)
      → (v : Updater G E) × (merged : List (ℕ × AllEvents E)) × (store_remote
            (record { frame = f; bundle = bundle })
            u
          ≡ ok v)
        × Stored ops world events u c f bundle es merged v
  unfolding store_remote start
  store_remote-Stored u c f bundle es a b made keyed keyed' apart =
      let t = c.tracks in
      let remote : FrameBundle E = record { frame = f; bundle = bundle } in
      let (w, w', merged, r, r', stored) =
        absorb-Stored ops world events u c f bundle es a b made keyed keyed' apart in
      let (skip, s) = next_skip_returns u remote keyed' in
      let fresh : lt32 u.data_window.first f ≡ true =
        lt32_lem u.data_window.first f (omega (arith, t.valid.no_wrap))
          (omega (arith, t.valid.no_wrap))
        ∙ lt→ltb u.data_window.first f a in
      let v : Updater G E = record u {
        data_window = w';
        global_frame = max32 u.global_frame f;
        oldest_dirty_frame = min32 f u.oldest_dirty_frame;
        skip_to_frame = skip;
      } in
      (v, merged, rw (fresh, r, ◌>>=◌, s, ◌>>=◌, r', ◌>>=◌), stored v refl refl refl)

  -- What `advance` leaves behind: every frame shows its world, and the window starts at the last
  -- frame before which all are complete.
  pub record Current (u v : Updater G E) : Type 0 where
    pub consistent : IsConsistent ops world events v
    pub clean : v.oldest_dirty_frame ≡ v.global_frame + 1
    pub same_last : v.global_frame ≡ u.global_frame
    pub same_local : v.local_frame ≡ u.local_frame
    pub same_skip : v.skip_to_frame ≡ u.skip_to_frame
    pub same_params : v.params ≡ u.params
    pub same_length : length v.data_window.slots ≡ length u.data_window.slots
    pub passed : u.data_window.first ≤ v.data_window.first
    pub complete :
        (f : ℕ)
        → u.data_window.first < f
        → f ≤ v.data_window.first
        → is_complete world events f ≡ true
    pub stopped :
        (v.data_window.first ≡ v.global_frame)
        ⊎ (is_complete world events (suc v.data_window.first) ≡ false)

  advanced :
      (u : Updater G E) (w : Window G E) (v : Updater G E)
      → IsConsistent ops world events u
      → w.first ≡ u.data_window.first
      → length w.slots ≡ length u.data_window.slots
      → Completed world events
          (record u { data_window = w; oldest_dirty_frame = u.global_frame + 1 })
          v
      → Current u v
  advanced u w v c p q d =
      let after : u.data_window.first ≤ v.data_window.first = omega (arith, d.passed, p) in
      record {
        consistent = record {
          tracks =
              subst (Tracks world events v.data_window v.global_frame)
                (omega (arith, d.same_dirty, d.same_last)) d.tracks;
          history = record {
            follows = λ f h k. c.history.follows f (omega arith) (omega (arith, d.same_last));
            keyed = λ f h k. c.history.keyed f (omega arith) (omega (arith, d.same_last));
            unique = λ f h k. c.history.unique f (omega arith) (omega (arith, d.same_last));
          };
          dirty_after = omega (arith, d.same_dirty, d.same_last, d.tracks.last_in);
          dirty_before = omega (arith, d.same_dirty, d.same_last);
          made = λ f h. c.made f (omega arith);
          future = λ f h. c.future f (omega (arith, d.same_last));
        };
        clean = omega (arith, d.same_dirty, d.same_last);
        same_last = d.same_last;
        same_local = d.same_local;
        same_skip = d.same_skip;
        same_params = d.same_params;
        same_length = d.same_length ∙ q;
        passed = after;
        complete = λ f h k. d.complete f (omega (arith, p)) k;
        stopped = d.stopped;
      }

  -- On a consistent updater `advance` returns. Then every frame from the start of the window to
  -- the newest shows the world that the events call for, the window has passed complete frames
  -- only, and it has stopped at the newest frame or before one that is not complete.
  pub advance-Current :
      IsLawful ops
      → (u : Updater G E) → IsConsistent ops world events u
      → u.global_frame + length u.data_window.slots + 1 < 2 ^ 31
      → (r : Sent G E) × (advance ops u ≡ ok r) × Current u r.0
  unfolding advance
  advance-Current law u c b =
      let t = c.tracks in
      let (w, e, t', p, q) =
        rethink-Tracks ops world events law u t c.history c.dirty_after c.dirty_before in
      let u' : Updater G E = record u {
        data_window = w;
        oldest_dirty_frame = u.global_frame + 1;
      } in
      let (r, run, d) =
        complete_frames-Completed world events all_frames u' t' (omega (arith, t.valid.no_wrap))
          (omega (arith, q)) in
      (r, rw (e, ◌>>=◌, run), advanced u w r.0 c p q d)
