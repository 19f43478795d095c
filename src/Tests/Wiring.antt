-- ===== src/Tests/Wiring.antt =====
-- A client that joins a host, and the engines of both.
use pnf.Base.{◌≡◌, refl, subst, ℕ, ◌+◌, true, none, some, List, [], ◌∷◌, ◌++◌, map, arith}
use pnf.Base.Outcome.{ok}
use mathlib.Core.Option.{some-injective}
use pnf.Event.{FrameBundle}
use pnf.Bundler.{Bundler, BundlerInput, receive_all}
use pnf.Bundler.Ledger.{IsConsecutive}
use pnf.Bundler.Stream.{frame_after, InRange}
use pnf.Updater.{Updater, BootstrapFrame}
use pnf.Updater.Routine.{bootstrap_updater}
use pnf.Updater.Tracks.{HasWorld, IsConsistent}
use pnf.Updater.Tracks.Boot.{boot_worlds, bootstrap_updater-Placeholder}
use pnf.Base.Words.{minus_one32}
use pnf.Communicator.{send_data, raw_remote_bundle, join_engine, go_conn}
use pnf.Communicator.Client.{Delivery, data_arrives, bundle_arrives, joined, bootstrap_routine}
use pnf.Communicator.Client
use pnf.Communicator.Join.{RoundTrips, later_than, join_completes}
use pnf.StandardNetwork.{
  PingCalls, StandardRemoteHost, handle_ping_request, collect, read_into, read_answer,
  handle_join_request, same_bytes, join, success,
}
use pnf.StandardNetwork.Handshake.{connected_calls}
use pnf.StandardNetwork.Hosting.{launched}
use pnf.Pnf.{PnfEngine, net_params, client_started, new_net_engine, new_net_client_engine}
use pnf.Pnf.Host.{first_world, new_net_engine-Ready}
use pnf.Pnf.Guest.{Joins, new_net_client_engine-Joins}
use pnf.Tests.{counting, counting-IsLawful}
use pnf.Tests.Streams.{Datum, of_initial, of_boot, of_bool, to_initial, to_boot, plain, bundle_of}
use pnf.Tests.Updates.{world_5, world_5-IsUnique, two_frames}

plain-RoundTrips : RoundTrips plain
plain-RoundTrips = record {
  initial_back =
      λ x d h. subst (λ k. to_initial k ≡ some x) (some-injective (of_initial x) d h) refl;
  boot_back = λ x d h. subst (λ k. to_boot k ≡ some x) (some-injective (of_boot x) d h) refl;
  bool_back = λ x. (of_bool x, refl, refl);
}

abbrev boot_5 : BootstrapFrame ℕ
boot_5 = record {
  frame = 5;
  game = some world_5.game;
  info = record { engines = some world_5.engines };
}

-- a bundle that comes too early, and one that is kept
abbrev two_early : List (FrameBundle ℕ)
two_early = bundle_of 5 ∷ bundle_of 6 ∷ []

join_completes_example :
    (ready : Datum) × (Client.join plain 2
        (of_initial (record { horizon = 5; id = 99 }))
        (map (λ b. bundle_arrives b) two_early ++ (data_arrives (of_boot boot_5) ∷ []))
      ≡ (
        joined boot_5 99 (later_than 5 two_early),
        send_data 2 ready ∷ map (λ b. raw_remote_bundle b) (later_than 5 two_early),
      ))
    × (bootstrap_routine {E = ℕ} plain 1 99 (some ready) ≡ join_engine 99 ∷ go_conn 1 ∷ [])
join_completes_example =
    join_completes plain plain-RoundTrips 2 1 5 99 boot_5
      (of_initial (record { horizon = 5; id = 99 })) (of_boot boot_5) two_early [] refl refl

bootstrap_updater-Placeholder_example :
    (u : Updater ℕ ℕ) × (bootstrap_updater counting two_frames true boot_5 ≡ ok u)
    × IsConsistent counting
        (boot_worlds counting 5 world_5)
        (λ f. some [])
        (record u { oldest_dirty_frame = 6 })
    × HasWorld u.data_window 6 world_5
    × (u.data_window.first ≡ 5)
    × (u.params ≡ two_frames)
    × (u.oldest_dirty_frame ≡ 7)
    × (u.skip_to_frame ≡ minus_one32)
bootstrap_updater-Placeholder_example =
    bootstrap_updater-Placeholder counting counting-IsLawful two_frames true boot_5 world_5 refl
      refl world_5-IsUnique (omega arith) (omega arith)

new_net_engine-Ready_example :
    (e : PnfEngine ℕ ℕ Datum) × (new_net_engine counting launched 5 3 100 ≡ ok e)
    × IsConsistent counting (λ f. first_world 100) (λ f. some []) e.updater
    × (e.updater.data_window.first ≡ 0)
    × ((is : List (BundlerInput ℕ))
        → InRange (net_params 5 3) (5 + 1) is
        → (r : Bundler ℕ × List (FrameBundle ℕ)) × (receive_all is e.bundler ≡ ok r)
          × IsConsecutive e.updater.oldest_dirty_frame r.1
              (frame_after (net_params 5 3) 1 (5 + 1) is))
new_net_engine-Ready_example =
    new_net_engine-Ready counting counting-IsLawful launched 5 3 100 (omega arith) (omega arith)
      (omega arith)

abbrev one_packet : PingCalls
one_packet = record {
  resolve = none;
  dial = none;
  write = none;
  listen = none;
  set_deadline = none;
  packets = record { bytes = 72 ∷ []; addr_ip = 7 ∷ []; addr_port = 80 } ∷ [];
}

abbrev found_host : StandardRemoteHost
found_host = record { content = 72 ∷ []; ip = 7 ∷ []; port = 80 }

new_net_client_engine-Joins_example :
    (e : PnfEngine ℕ ℕ Datum) × (ready : Datum) × (new_net_client_engine counting plain 10 3
        one_packet
        (connected_calls success)
        2
        (of_initial (record { horizon = 5; id = 99 }))
        (map (λ b. bundle_arrives b) two_early ++ (data_arrives (of_boot boot_5) ∷ []))
      ≡ ok (client_started e))
    × Joins counting counting-IsLawful 10 99 2 boot_5 world_5 (later_than 5 two_early) ready e
unfolding handle_ping_request collect read_into read_answer handle_join_request same_bytes join
new_net_client_engine-Joins_example =
    new_net_client_engine-Joins counting counting-IsLawful plain plain-RoundTrips one_packet
      (connected_calls success) found_host [] refl refl refl 5 99 boot_5 world_5
      (of_initial (record { horizon = 5; id = 99 })) (of_boot boot_5) two_early [] refl refl refl
      refl world_5-IsUnique 10 3 2 (omega arith) (omega arith) (omega arith) (omega arith)
      (omega arith)
