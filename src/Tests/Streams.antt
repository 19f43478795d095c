-- ===== src/Tests/Streams.antt =====
-- The bundler and the communicator on concrete streams.
use pnf.Base.{◌≡◌, refl, ℕ, Bool, true, Option, none, some, List, [], ◌∷◌, ◌++◌, arith}
use pnf.Base.Words.{add64}
use pnf.Base.Outcome.{ok}
use pnf.Engine.{EngineParams, engine_dropped}
use pnf.Event.{FrameBundle}
use pnf.Bundler.{Bundler, BundlerInput, local_event, local_engine_event, tick, time_delta}
use pnf.Bundler
use pnf.Bundler.Ledger.{Carried, received}
use pnf.Bundler.Stream.{frame_after, receive_all-Carried}
use pnf.Bundler.Clock.{ticks, Punctual, receive_all-Punctual}
use pnf.Updater.{BootstrapFrame}
use pnf.Communicator.{
  Codec, InitialData, Communicator, CommunicatorInput, new_conn, broadcast_bundle, remote_bundle,
  bootstrap_frame, Effect, send_data, go_bootstrap, send_frame_bundle, start_communicator,
}
use pnf.Communicator
use pnf.Communicator.Loops.{Encodes}
use pnf.Communicator.Handshake.{Welcomed, new_conn-Welcomed}

abbrev two_ms : EngineParams
two_ms = record { id = 7; delay = 1; frame_ms = 2; max_frames = 4 }

-- frame 10 is half over
abbrev half_way : Bundler ℕ
half_way = record {
  params = two_ms;
  current_ms = 21;
  current_frame = 10;
  current_events = 1 ∷ [];
  current_engine_events = [];
}

-- events for two frames, and a jump over a third
abbrev some_inputs : List (BundlerInput ℕ)
some_inputs =
    local_event 2
    ∷ tick
    ∷ local_engine_event (engine_dropped 3)
    ∷ time_delta 5
    ∷ tick
    ∷ local_event 4
    ∷ []

receive_all-Carried_example :
    (r : Bundler ℕ × List (FrameBundle ℕ)) × (Bundler.receive_all some_inputs half_way ≡ ok r)
    × Carried half_way r.0 (received some_inputs) r.1
    × (r.0.current_frame ≡ frame_after two_ms 10 21 some_inputs)
receive_all-Carried_example =
    receive_all-Carried some_inputs half_way (omega arith) (omega arith) (omega arith)
      (omega arith, omega arith, (unfold add64 in omega arith))

-- what a connection carries, in place of bytes
pub data Datum : Type 0 where
  of_initial : InitialData → Datum
  of_boot : BootstrapFrame ℕ → Datum
  of_bool : Bool → Datum

abbrev pub to_initial : Datum → Option InitialData
to_initial (of_initial x) = some x
to_initial (of_boot x) = none
to_initial (of_bool x) = none

abbrev pub to_boot : Datum → Option (BootstrapFrame ℕ)
to_boot (of_initial x) = none
to_boot (of_boot x) = some x
to_boot (of_bool x) = none

abbrev to_bool : Datum → Option Bool
to_bool (of_initial x) = none
to_bool (of_boot x) = none
to_bool (of_bool x) = some x

abbrev pub plain : Codec ℕ Datum
plain = record {
  encode_initial = λ x. some (of_initial x);
  decode_initial = to_initial;
  encode_boot = λ x. some (of_boot x);
  decode_boot = to_boot;
  encode_bool = λ x. some (of_bool x);
  decode_bool = to_bool;
}

plain-Encodes : Encodes plain
plain-Encodes = record { initial = λ x. (of_initial x, refl); boot = λ x. (of_boot x, refl) }

abbrev hosting : Communicator
hosting = record { conns = 1 ∷ []; bootstraps = []; horizon = 4; active_conns = 1 }

abbrev pub bundle_of : ℕ → FrameBundle ℕ
bundle_of frame = record { frame = frame; bundle = some [] }

abbrev inputs_before : List (CommunicatorInput ℕ ℕ)
inputs_before = broadcast_bundle (bundle_of 5) ∷ remote_bundle (bundle_of 6) 1 ∷ []

abbrev inputs_after : List (CommunicatorInput ℕ ℕ)
inputs_after =
    remote_bundle (bundle_of 7) 1
    ∷ bootstrap_frame
        (record { frame = 7; game = some 3; info = record { engines = some ((1, true) ∷ []) } })
    ∷ broadcast_bundle (bundle_of 6)
    ∷ []

new_conn-Welcomed_example :
    (r : Communicator × List (Effect ℕ Datum)) × (Communicator.receive_all plain
        (inputs_before ++ (new_conn 2 99 ∷ inputs_after))
        hosting
      ≡ ok r)
    × Welcomed plain plain-Encodes 2 99
        (inputs_before ++ (new_conn 2 99 ∷ inputs_after))
        hosting
        r.1
new_conn-Welcomed_example =
    new_conn-Welcomed plain plain-Encodes 2 99 inputs_before inputs_after hosting (omega arith)
      (omega arith) (omega arith)

-- the end of frame 10 and the middle of frame 11, and then its end
abbrev timely_inputs : List (BundlerInput ℕ)
timely_inputs = local_event 2 ∷ tick ∷ local_engine_event (engine_dropped 3) ∷ tick ∷ tick ∷ []

receive_all-Punctual_example :
    (r : Bundler ℕ × List (FrameBundle ℕ)) × (Bundler.receive_all timely_inputs half_way ≡ ok r)
    × Punctual half_way (ticks timely_inputs) r
receive_all-Punctual_example =
    receive_all-Punctual timely_inputs half_way (omega arith) (omega arith) refl (omega arith)
      (omega arith) tt
