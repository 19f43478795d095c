-- ===== src/Pnf.antt =====
-- pnf.go: how the engines are put together. `makeUnstarted` only makes channels, which here are the
-- arguments and results of the components; what is left is the parameters, where each component
-- starts, and the order of the calls. `NewEngine`, `Start`, `Host`, `FindHosts` and `JoinHost` are empty.
pub mod Host
pub mod Guest
pub mod State
use pnf.Base.{ℕ, Bool, true, Option, none, some, List, [], ◌∷◌, ◌++◌}
use pnf.Base.Words.{add32, add64, mul64, extend, truncate, minus_one32}
use pnf.Base.Outcome.{Outcome, ok, panic, nil_pointer, ◌>>=◌}
use pnf.Engine.{EngineParams}
use pnf.Bundler.{Bundler, start_bundler, receive, local_event}
use pnf.Game.{GameOps, FrameData}
use pnf.Updater.{Updater, BootstrapFrame}
use pnf.Updater.Routine.{start_updater, bootstrap_updater}
use pnf.Updater.Calls.{request_final_game_state}
use mathlib.Core.Option
use pnf.Communicator.{Communicator, Codec, Effect, start_communicator}
use pnf.Communicator.Client.{Delivery, Joined, joined, join_failed, joining}
use pnf.Communicator.Client
use pnf.MockNetwork.{PingResult, ping_data}
use pnf.StandardNetwork.{PingCalls, JoinCalls, NetError, handle_ping_request, JoinResponse, conn}
use pnf.StandardNetwork
use pnf.StandardNetwork.Hosting.{HostState, HostRequest, Launch, make_tcp_udp_network, host_request}

-- `Engine`: its components as they stand when the constructor returns
pub record PnfEngine (G E D : Type 0) : Type 0 where
  pub bundler : Bundler E
  pub updater : Updater G E
  pub communicator : Communicator
  pub effects : List (Effect E D)
  pub net : HostState

-- the parameters that `NewNetEngine` and `NewNetClientEngine` begin with
abbrev pub net_params : ℕ → ℕ → EngineParams
net_params frame_ms max_frames = record {
  id = 1234;
  delay = add32 (truncate frame_ms) 10;
  frame_ms = frame_ms;
  max_frames = max_frames;
}

-- "I AM A HOST!!!", and a `join_func` that accepts everyone
abbrev pub host_functions : HostRequest
host_functions = record {
  ping = some (λ bytes.
      ping_data (73 ∷ 32 ∷ 65 ∷ 77 ∷ 32 ∷ 65 ∷ 32 ∷ 72 ∷ 79 ∷ 83 ∷ 84 ∷ 33 ∷ 33 ∷ 33 ∷ []));
  join = some (λ bytes. none);
}

abbrev pub initial_data : {G E : Type 0} → G → FrameData G E
initial_data initial_state = record {
  bundle = some [];
  game = some initial_state;
  info = record { engines = some ((1234, true) ∷ []) };
}

module _ {G E D : Type 0} (ops : GameOps G E) where
  -- `NewLocalEngine`: its first use of `engine.bundler`, which is nil
  unfoldable pub new_local_engine : ℕ → G → Outcome (PnfEngine G E D)
  new_local_engine frame_ms initial_state = panic nil_pointer

  -- `NewNetEngine`; `MakeTcpUdpNetwork` does not fail
  unfoldable pub new_net_engine : Launch → ℕ → ℕ → G → Outcome (PnfEngine G E D)
  new_net_engine launch frame_ms max_frames initial_state = do
    let params = net_params frame_ms max_frames
    bundler ← start_bundler params (add64 frame_ms 1)
    updater ← start_updater ops params true 0 (initial_data initial_state)
    let started = start_communicator {E = E} {D = D} none
    ok (record {
      bundler = bundler;
      updater = updater;
      communicator = started.0;
      effects = started.1;
      net = host_request host_functions launch make_tcp_udp_network;
    })

module _ {G E D : Type 0} where
  -- `GetState`, with the channel that it makes: the engine and the game, or that it waits
  unfoldable pub get_state : ℕ → PnfEngine G E D → Outcome (PnfEngine G E D × Option (Option G))
  unfolding request_final_game_state
  get_state channel e = do
    done ← request_final_game_state minus_one32 channel e.updater
    ok (record e { updater = done.0 }, Option.map (λ answer. answer.0) done.1)

  -- `ApplyEvent`, once the bundler has received what it sends
  unfoldable pub apply_event : E → PnfEngine G E D → Outcome (PnfEngine G E D)
  apply_event event e = do
    done ← receive (local_event event) e.bundler
    ok (record e { bundler = done.0 })

-- Why `NewNetClientEngine` gives no engine.
pub data NoClient : Type 0 where
  ping_failed join_host_failed : NetError → NoClient
  no_remote_hosts join_engine_failed still_joining : NoClient

pub data ClientStart (G E D : Type 0) : Type 0 where
  client_started : PnfEngine G E D → ClientStart G E D
  client_error : NoClient → ClientStart G E D

module _ {G E D : Type 0} (ops : GameOps G E) where
  -- the part of `NewNetClientEngine` after `communicator.Join`
  unfoldable pub start_client :
      ℕ → EngineParams → BootstrapFrame G → ℕ → List (Effect E D) → Outcome (ClientStart G E D)
  start_client host_conn params boot id sent = do
    let own = record params { id = id }
    bundler ← start_bundler own (mul64 params.frame_ms (extend boot.frame))
    updater ← bootstrap_updater ops own true boot
    let started = start_communicator {E = E} {D = D} (some host_conn)
    ok (
        client_started (record {
          bundler = bundler;
          updater = updater;
          communicator = started.0;
          effects = sent ++ started.1;
          net = make_tcp_udp_network;
        }))

  -- `NewNetClientEngine`, with what its calls of the package net answer, and what the connection
  -- `host_conn` delivers
  unfoldable pub new_net_client_engine :
      Codec G D
      → ℕ
      → ℕ
      → PingCalls
      → JoinCalls
      → ℕ
      → D
      → List (Delivery E D)
      → Outcome (ClientStart G E D)
  new_net_client_engine codec frame_ms max_frames pings joins host_conn first ds =
      let pinged = handle_ping_request pings in
      let joined_game = Client.join codec host_conn first ds in
      elim pinged.err [
        | some e ↦ ok (client_error (ping_failed e))
        | none ↦ elim pinged.hosts [
          | [] ↦ ok (client_error no_remote_hosts)
          | rh ∷ rhs ↦ elim (StandardNetwork.join (some (rh, joins))) [
            | JoinResponse.join_failed e ↦ ok (client_error (join_host_failed e))
            | conn ↦ elim joined_game.0 [
              | join_failed ↦ ok (client_error join_engine_failed)
              | joining initial bundles ↦ ok (client_error still_joining)
              | joined boot id bundles ↦
                  start_client host_conn (net_params frame_ms max_frames) boot id joined_game.1
            ]
          ]
        ]
      ]
