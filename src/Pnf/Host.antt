-- ===== src/Pnf/Host.antt =====
-- What `NewNetEngine` starts with.
use pnf.Base.{
  ◌≡◌, refl, sym, ◌∙◌, ap, subst, ℕ, ◌+◌, ◌/◌, ◌^◌, ◌<◌, true, none, some, List, [], ◌∷◌, arith,
}
use pnf.Base.Words.{add64, add64_lem}
use pnf.Base.Outcome.{ok, ◌>>=◌}
use pnf.Event.{FrameBundle}
use pnf.Base.GoMap.{find}
use pnf.Bundler.{Bundler, BundlerInput, frame_at, start_bundler, receive_all}
use pnf.Bundler.Ledger.{IsConsecutive}
use pnf.Bundler.Stream.{InRange, frame_after, frame_at_lem, receive_all-Carried}
use pnf.Game.{GameOps, IsLawful}
use pnf.Updater.Replay.{World}
use pnf.Updater.Tracks.{IsConsistent}
use pnf.Updater.Tracks.Start.{start_updater-IsConsistent}
use pnf.StandardNetwork.Hosting.{Launch, host_request, make_tcp_udp_network}
use pnf.Communicator.{start_communicator}
use pnf.Engine.{EngineParams}
use native.Mathlib.Nat.{div-eq_of_lt-le}
use pnf.Pnf.{PnfEngine, net_params, host_functions, initial_data, new_net_engine}

abbrev pub first_world : {G : Type 0} → G → World G
first_world g = record { engines = (1234, true) ∷ []; game = g }

-- the clock is one millisecond into frame 1
first_frame :
    (params : EngineParams)
    → 1 < params.frame_ms
    → params.frame_ms < 2 ^ 62
    → frame_at params (add64 params.frame_ms 1) ≡ ok 1
first_frame params a b =
    let ms = params.frame_ms + 1 in
    let one : ms / params.frame_ms ≡ 1 =
      div-eq_of_lt-le params.frame_ms (omega arith) (omega arith) in
    ap (frame_at params) (add64_lem params.frame_ms 1 (omega arith))
    ∙ frame_at_lem params ms (omega arith) (omega arith) (omega arith) (omega (arith, one))
    ∙ ap (λ k. ok k) one

module _ {G E D : Type 0} (ops : GameOps G E) (law : IsLawful ops) where
  -- `NewNetEngine` returns if its numbers are in range: frames of two milliseconds at least. Its
  -- updater is consistent, with the initial game at frame 0, and its bundler, whatever it receives
  -- while the clock does not wrap, sends one bundle for each frame from 1 on, the first frame that the
  -- updater has no events for, up to the latest at which a tick has found the clock.
  pub new_net_engine-Ready :
      (result : Launch) (frame_ms max_frames : ℕ) (initial_state : G)
      → 1 < frame_ms
      → frame_ms < 2 ^ 62
      → max_frames + 1 < 2 ^ 31
      → (e : PnfEngine G E D) × (new_net_engine ops result frame_ms max_frames initial_state ≡ ok e)
        × IsConsistent ops (λ f. first_world initial_state) (λ f. some []) e.updater
        × (e.updater.data_window.first ≡ 0)
        × ((is : List (BundlerInput E))
            → InRange (net_params frame_ms max_frames) (frame_ms + 1) is
            → (r : Bundler E × List (FrameBundle E)) × (receive_all is e.bundler ≡ ok r)
              × IsConsecutive e.updater.oldest_dirty_frame r.1
                  (frame_after (net_params frame_ms max_frames) 1 (frame_ms + 1) is))
  unfolding new_net_engine start_bundler find
  new_net_engine-Ready result frame_ms max_frames g a b c =
      let params = net_params frame_ms max_frames in
      let (u, run, consistent, first, long, global, dirty, local, skip, same) =
        start_updater-IsConsistent ops law params true 0 (initial_data g) (first_world g)
          (record { info_is = refl; game_is = refl }) (refl, tt) (omega arith) in
      let b0 : Bundler E = record {
        params = params;
        current_ms = add64 frame_ms 1;
        current_frame = 1;
        current_events = [];
        current_engine_events = [];
      } in
      let started = start_communicator {E = E} {D = D} none in
      let e : PnfEngine G E D = record {
        bundler = b0;
        updater = u;
        communicator = started.0;
        effects = started.1;
        net = host_request host_functions result make_tcp_udp_network;
      } in
      (
        e,
        rw (new_net_engine, start_bundler, first_frame params a b, run, ◌>>=◌) refl,
        consistent,
        first,
        λ is v.
            let same : add64 frame_ms 1 ≡ frame_ms + 1 = add64_lem frame_ms 1 (omega arith) in
            let (r, ran, k, reached) =
              receive_all-Carried is b0 (omega arith) (omega arith) (omega arith)
                (subst (λ ms. InRange params ms is) (sym same) v) in
            let due : r.0.current_frame ≡ frame_after params 1 (frame_ms + 1) is =
              reached ∙ ap (λ ms. frame_after params 1 ms is) same in
            (
              r,
              ran,
              subst (IsConsecutive e.updater.oldest_dirty_frame r.1) due
                  (subst (λ i. IsConsecutive i r.1 r.0.current_frame) (sym dirty) k.consecutive),
            ),
      )
