-- ===== src/Updater/Tracks/Closed.antt =====
-- What becomes of the updater when `Bundler.Shutdown` has closed `Local_bundles`: each receive gives
-- the zero bundle.
use pnf.Base.{
  ◌≢◌, ◌⊎◌, inl, inr, ◌≡◌, refl, ◌∙◌, ap, ℕ, ◌+◌, ◌-◌, ◌^◌, ◌≤◌, ◌<◌, true, Bool, none, List, [],
  ◌∷◌, ◌++◌, length, arith, if◌then◌else◌, lt→ltb,
}
use native.Mathlib.Decide.{dec_lt}
use pnf.Base.Words.{add32, add32_lem, sub32, lt32, lt32_lem}
use pnf.Base.Outcome.{ok, Panic, panic, outside_window, ◌>>=◌, >>=-eq-ok, ok-injective}
use pnf.DataWindow.{get}
use pnf.DataWindow.Bounds.{IsValid}
use pnf.DataWindow.Slots.{get-peek, peek-outside, put-Written}
use pnf.Event.{absorb_event_bundle}
use pnf.Game.{GameOps, IsLawful, FrameData}
use pnf.Bundler.{zero_bundle}
use pnf.Base.GoMap.{find}
use pnf.Engine.{EngineParams}
use pnf.Updater.{Updater}
use pnf.Updater.Advance.{rethink, advance}
use pnf.Updater.Handle.{
  Window, Sent, handle_local, store_local, init_frames, absorb_at, max32, min32,
}
use pnf.Updater.Routine.{Input, local_bundle, start_updater, handle, routine}
use pnf.Updater.Replay.{World, Shows}
use pnf.Updater.Replay.Frame.{IsUnique}
use pnf.Updater.Tracks.Store.{init_frames_none}
use pnf.Updater.Tracks.Local.{not_starting, no_catch_up, not_negative}
use pnf.Updater.Tracks.Ledger.{Ledger, enter_all, AllFresh}
use pnf.Updater.Tracks.Plays.{Plays, IsSettled, Plays-shown}
use pnf.Updater.Tracks.Lockstep.{taken_in, AllFit}
use pnf.Updater.Tracks.Engines.{blank, started_engine_plays}

module _ {G E : Type 0} (ops : GameOps G E) where
  get_outside :
      (w : Window G E) (f : ℕ)
      → IsValid w
      → (f < w.first) ⊎ (w.first + length w.slots ≤ f)
      → f < 2 ^ 32
      → get w f ≡ panic outside_window
  get_outside w f v h b = get-peek w f v b ∙ rw (peek-outside w f h) refl

  -- Frame 0 is not in the window, or there is none before it.
  absorb_zero :
      (w : Window G E) (d : FrameData G E)
      → IsValid w
      → get w 0 ≡ ok d
      → w.first ≡ 0
      → (w' : Window G E) × (absorb_at 0 none w ≡ ok w') × IsValid w' × (w'.first ≡ 0)
  unfolding absorb_at absorb_event_bundle
  absorb_zero w d v e first =
      let (w', run, wr) = put-Written w 0 d v (omega (arith, v.some_slot)) in
      (w', rw (e, ◌>>=◌, run) refl, wr.valid, wr.same_first ∙ first)

  rethink_zero :
      (u : Updater G E)
      → IsValid u.data_window
      → u.oldest_dirty_frame ≡ 0
      → advance ops u ≡ panic outside_window
  unfolding advance rethink sub32
  rethink_zero u v e =
      let missing =
        get_outside u.data_window (2 ^ 32 - 1) v (inr (omega (arith, v.no_wrap))) (omega arith) in
      rw (rethink, e, missing) refl

  module _ (base : ℕ) (start' : World G) (l : Ledger E) (u : Updater G E)
      (p : Plays ops base start' l u) (settled : IsSettled ops p) where
    small : u.global_frame + 1 < 2 ^ 31
    small = omega (arith, p.consistent.tracks.last_in, p.consistent.tracks.valid.no_wrap)

    first_new : max32 (add32 u.global_frame 1) u.skip_to_frame ≡ add32 u.global_frame 1
    first_new =
        let next : add32 u.global_frame 1 ≡ u.global_frame + 1 =
          add32_lem u.global_frame 1 (omega (arith, small)) in
        ap (max32 (add32 u.global_frame 1)) p.joined
        ∙ ap (λ k. if k then 0 else add32 u.global_frame 1)
            (not_negative (add32 u.global_frame 1) (omega (arith, next, small)))

    none_made :
        init_frames (max32 (add32 u.global_frame 1) u.skip_to_frame) 0 u.data_window
        ≡ ok u.data_window
    none_made =
        ap (λ k. init_frames k 0 u.data_window) first_new
        ∙ init_frames_none p.world p.events u.data_window u.global_frame 0 (omega arith) small

    late_zero : 0 < u.data_window.first → store_local zero_bundle u ≡ panic outside_window
    unfolding store_local absorb_at
    late_zero h =
        let gone = get_outside u.data_window 0 p.consistent.tracks.valid (inl h) (omega arith) in
        rw (store_local, none_made, ◌>>=◌, gone) refl

    early_zero :
        u.data_window.first ≡ 0
        → (v : Updater G E) × (store_local zero_bundle u ≡ ok v)
          × IsValid v.data_window
          × (v.oldest_dirty_frame ≡ 0)
    unfolding store_local
    early_zero h =
        let (d, e, s) =
          Plays-shown ops base start' l u p 0 (omega arith) (omega (arith, settled.clean)) in
        let (w', run, v, first) = absorb_zero u.data_window d p.consistent.tracks.valid e h in
        let is_late : lt32 0 u.oldest_dirty_frame ≡ true =
          lt32_lem 0 u.oldest_dirty_frame (omega arith) (omega (arith, settled.clean, small))
          ∙ lt→ltb 0 u.oldest_dirty_frame (omega (arith, settled.clean)) in
        let stored : Updater G E = record u {
          data_window = w';
          local_frame = 0;
          global_frame = max32 u.global_frame 0;
          oldest_dirty_frame = min32 0 u.oldest_dirty_frame;
        } in
        (stored, rw (none_made, ◌>>=◌, run) refl, v, rw is_late refl)

    -- The case of `routine` for the zero bundle.
    handle_local_zero : handle_local ops zero_bundle u ≡ panic outside_window
    unfolding handle_local
    handle_local_zero = elim (dec_lt 0 u.data_window.first) [
      | yes h ↦
          rw
            (
              handle_local,
              not_starting u 0 p.joined (omega arith),
              no_catch_up 0 u p.joined,
              late_zero h,
              ◌>>=◌,
            )
            refl
      | no h ↦
          let (v, run, valid, dirty) = early_zero (omega arith) in
          rw
            (
              handle_local,
              not_starting u 0 p.joined (omega arith),
              no_catch_up 0 u p.joined,
              run,
              ◌>>=◌,
              rethink_zero v valid dirty,
            )
            refl
    ]

  -- A run that returns, and then an input on which the case panics.
  pub routine-panic :
      (is : List (Input E)) (i : Input E) (u : Updater G E) (r : Sent G E) (q : Panic)
      → routine ops is u ≡ ok r
      → handle ops i r.0 ≡ panic q
      → routine ops (is ++ (i ∷ [])) u ≡ panic q
  unfolding routine
  routine-panic [] i u r q h e =
      rw (ap (λ (x : Sent G E). handle ops i x.0) (ok-injective (u, []) r h) ∙ e) refl
  routine-panic (j ∷ js) i u r q h e =
      let (x, h1, k1) = >>=-eq-ok (handle ops j u) _ r h in
      let (y, h2, k2) = >>=-eq-ok (routine ops js x.0) _ r k1 in
      let same = ok-injective (y.0, x.1 ++ y.1) r k2 in
      rw
        (
          h1,
          ◌>>=◌,
          routine-panic js i x.0 y q h2 (ap (λ (z : Sent G E). handle ops i z.0) same ∙ e),
        )
        refl

module _ {G E : Type 0} (ops : GameOps G E) (law : IsLawful ops) (frame : ℕ) (d : FrameData G E)
    (world : World G) (shows : Shows d world) (unique : IsUnique world.engines) where
  -- An engine that starts with the data of a frame, as one of the engines that take part, handles
  -- inputs that fit, of fresh bundles, and then receives from `Local_bundles`, which the shutdown of
  -- its bundler has closed. The updater panics.
  pub bundler_shutdown_panics :
      (params : EngineParams) (hosts : Bool) (u : Updater G E) (is : List (Input E))
      → find params.id world.engines ≢ none
      → frame + params.max_frames + 1 < 2 ^ 31
      → start_updater ops params hosts frame d ≡ ok u
      → AllFresh u.params.id blank (taken_in is)
      → AllFit ops is u
      → routine ops (is ++ (local_bundle zero_bundle ∷ [])) u ≡ panic outside_window
  unfolding handle
  bundler_shutdown_panics params hosts u is m b s fresh fit =
      let (r, run, p, settled, same) =
        started_engine_plays ops law frame d world shows unique params hosts u is m b s fresh fit in
      routine-panic ops is (local_bundle zero_bundle) u r outside_window run
        (handle_local_zero ops frame world (enter_all (taken_in is) blank) r.0 p settled)
