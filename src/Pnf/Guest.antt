-- ===== src/Pnf/Guest.antt =====
-- What `NewNetClientEngine` starts with, when it finds a host and joins it.
use pnf.Base.{
  ◌≡◌, refl, ◌∙◌, ap, subst, ℕ, ◌+◌, ◌*◌, ◌/◌, ◌^◌, ◌≤◌, ◌<◌, true, none, some, List, [], ◌∷◌, ◌++◌,
  map, arith,
}
use native.Mathlib.Nat.{div-eq_of_eq-mul_right}
use pnf.Base.Words.{mul64, mul64_lem, extend, extend_lem}
use pnf.Base.Outcome.{ok, ◌>>=◌}
use pnf.Event.{FrameBundle}
use pnf.Engine.{EngineParams}
use pnf.Bundler.{Bundler, frame_at, start_bundler}
use pnf.Bundler.Stream.{frame_at_lem}
use pnf.Game.{GameOps, IsLawful}
use pnf.Updater.{BootstrapFrame}
use pnf.Updater.Replay.{World}
use pnf.Updater.Replay.Frame.{IsUnique}
use pnf.Updater.Tracks.{HasWorld, IsConsistent}
use pnf.Updater.Tracks.Boot.{boot_worlds, boot_worlds-at, bootstrap_updater-Placeholder}
use pnf.Communicator.{Codec, Effect, send_data, raw_remote_bundle, go_conn, start_communicator}
use pnf.Communicator.Client.{Delivery, data_arrives, bundle_arrives}
use pnf.Communicator.Join.{RoundTrips, later_than, join_completes}
use pnf.StandardNetwork.{PingCalls, JoinCalls, StandardRemoteHost, handle_ping_request, join, conn}
use pnf.StandardNetwork.Hosting.{make_tcp_udp_network}
use pnf.Pnf.{PnfEngine, net_params, client_started, start_client, new_net_client_engine}

boot_frame_at :
    (params : EngineParams) (frame : ℕ)
    → 0 < params.frame_ms
    → params.frame_ms < 2 ^ 63
    → frame < 2 ^ 31
    → params.frame_ms * frame < 2 ^ 63
    → frame_at params (mul64 params.frame_ms (extend frame)) ≡ ok frame
boot_frame_at params frame a b c d =
    let same : params.frame_ms * frame / params.frame_ms ≡ frame = div-eq_of_eq-mul_right a refl in
    ap (λ f. frame_at params (mul64 params.frame_ms f)) (extend_lem frame c)
    ∙ ap (frame_at params) (mul64_lem params.frame_ms frame (omega arith))
    ∙ frame_at_lem params (params.frame_ms * frame) a b d (omega (arith, same))
    ∙ ap (λ k. ok k) same

module _ {G E D : Type 0} (ops : GameOps G E) (law : IsLawful ops) where
  -- what `NewNetClientEngine` has made
  pub record Joins (frame_ms id host_conn : ℕ) (boot : BootstrapFrame G) (world : World G)
      (kept : List (FrameBundle E)) (ready : D) (e : PnfEngine G E D) : Type 0 where
    pub own_id : (e.bundler.params.id ≡ id) × (e.updater.params.id ≡ id)
    pub clock : e.bundler.current_frame ≡ boot.frame
    pub consistent :
        IsConsistent ops
          (boot_worlds ops boot.frame world)
          (λ f. some [])
          (record (e.updater) { oldest_dirty_frame = boot.frame + 1 })
    pub first_frame : HasWorld e.updater.data_window boot.frame world
    pub talks : e.communicator.conns ≡ host_conn ∷ []
    pub effects :
        e.effects
        ≡ send_data host_conn ready
          ∷ (map (λ b. raw_remote_bundle b) kept ++ (go_conn host_conn ∷ []))

  starts :
      (frame_ms max_frames id host_conn : ℕ) (boot : BootstrapFrame G) (world : World G)
      (kept : List (FrameBundle E)) (ready : D)
      → boot.game ≡ some world.game
      → boot.info.engines ≡ some world.engines
      → IsUnique world.engines
      → 0 < frame_ms
      → frame_ms * boot.frame < 2 ^ 63
      → frame_ms < 2 ^ 63
      → 1 ≤ max_frames
      → boot.frame + max_frames + 1 < 2 ^ 31
      → (e : PnfEngine G E D) × (start_client ops host_conn
            (net_params frame_ms max_frames)
            boot
            id
            (send_data host_conn ready ∷ map (λ b. raw_remote_bundle b) kept)
          ≡ ok (client_started e))
        × Joins frame_ms id host_conn boot world kept ready e
  unfolding start_client start_bundler start_communicator
  starts frame_ms max_frames id host_conn boot world kept ready a b c d f g h i =
      let own = record (net_params frame_ms max_frames) { id = id } in
      let (u, run, consistent, placed, first, same, dirty, skip) =
        bootstrap_updater-Placeholder ops law own true boot world a b c h i in
      let b0 : Bundler E = record {
        params = own;
        current_ms = mul64 frame_ms (extend boot.frame);
        current_frame = boot.frame;
        current_events = [];
        current_engine_events = [];
      } in
      let sent : List (Effect E D) =
        send_data host_conn ready ∷ map (λ b. raw_remote_bundle b) kept in
      let e : PnfEngine G E D = record {
        bundler = b0;
        updater = u;
        communicator = (start_communicator {E = E} {D = D} (some host_conn)).0;
        effects = sent ++ (start_communicator {E = E} {D = D} (some host_conn)).1;
        net = make_tcp_udp_network;
      } in
      (
        e,
        rw
            (
              start_client,
              start_bundler,
              boot_frame_at own boot.frame d g (omega arith) f,
              run,
              ◌>>=◌,
            )
            refl,
        record {
          own_id = (refl, ap (λ x. x.id) same);
          clock = refl;
          consistent = consistent;
          first_frame =
              subst (HasWorld u.data_window boot.frame) (boot_worlds-at ops boot.frame world)
                (consistent.tracks.worlds boot.frame (omega (arith, first)) (omega arith));
          talks = refl;
          effects = refl;
        },
      )

  -- A client that finds a host, is accepted, and whose connection delivers the host's two data with
  -- bundles between them: `NewNetClientEngine` returns an engine, if its numbers are in range. It has
  -- the id that the host drew, its clock and its window stand at the frame that the host sent, with
  -- that frame's world, and it hands on the bundles after the announced frame, in order.
  pub new_net_client_engine-Joins :
      (codec : Codec G D)
      → RoundTrips codec
      → (pings : PingCalls) (joins : JoinCalls) (rh : StandardRemoteHost)
        (rhs : List StandardRemoteHost)
      → (handle_ping_request pings).err ≡ none
      → (handle_ping_request pings).hosts ≡ rh ∷ rhs
      → join (some (rh, joins)) ≡ conn
      → (start id : ℕ) (boot : BootstrapFrame G) (world : World G) (first second : D)
        (before : List (FrameBundle E)) (after : List (Delivery E D))
      → codec.encode_initial (record { horizon = start; id = id }) ≡ some first
      → codec.encode_boot boot ≡ some second
      → boot.game ≡ some world.game
      → boot.info.engines ≡ some world.engines
      → IsUnique world.engines
      → (frame_ms max_frames host_conn : ℕ) → 0 < frame_ms
      → frame_ms * boot.frame < 2 ^ 63
      → frame_ms < 2 ^ 63
      → 1 ≤ max_frames
      → boot.frame + max_frames + 1 < 2 ^ 31
      → (e : PnfEngine G E D) × (ready : D) × (new_net_client_engine ops codec frame_ms max_frames
            pings joins host_conn first
            (map (λ b. bundle_arrives b) before ++ (data_arrives second ∷ after))
          ≡ ok (client_started e))
        × Joins frame_ms id host_conn boot world (later_than start before) ready e
  unfolding new_net_client_engine
  new_net_client_engine-Joins codec back pings joins rh rhs no_error found accepted start id boot
        world first second before after ei eb a b c frame_ms max_frames host_conn d f g h i =
      let (ready, ran, other) =
        join_completes codec back host_conn host_conn start id boot first second before after ei
          eb in
      let (e, run, j) =
        starts frame_ms max_frames id host_conn boot world (later_than start before) ready a b c d f
          g h i in
      (
        e,
        ready,
        rw (new_net_client_engine, no_error, found, accepted, ran)
            (ap (λ x. start_client ops host_conn (net_params frame_ms max_frames) boot id x.1) ran
              ∙ run),
        j,
      )
