-- ===== src/Bundler.antt =====
-- core/bundler.go: local events are gathered and sent to the updater when their frame is over.
pub mod Ledger
pub mod Stream
pub mod Clock
use pnf.Base.{ℕ, Option, none, some, List, [], ◌∷◌, ◌++◌, map, if◌then◌else◌, ◌==◌}
use pnf.Base.Words.{add32, add64, div64, truncate, lt32}
use pnf.Base.Outcome.{Outcome, ok, panic, divide_by_zero, ◌>>=◌}
use pnf.Base.Loop.{for_frames}
use pnf.Engine.{EngineParams, EngineEvent}
use pnf.Event.{FrameBundle}

-- The fields that the bundler computes with, and the variables of `routine`.
pub record Bundler (E : Type 0) : Type 0 where
  pub params : EngineParams
  pub current_ms : ℕ
  pub current_frame : ℕ
  pub current_events : List E
  pub current_engine_events : List EngineEvent

-- What `routine` receives: on `Local_event`, `Local_engine_event`, the ticker and `Time_delta`.
pub data BundlerInput (E : Type 0) : Type 0 where
  local_event : E → BundlerInput E
  local_engine_event : EngineEvent → BundlerInput E
  tick : BundlerInput E
  time_delta : ℕ → BundlerInput E

-- `StateFrame(b.Current_ms / b.Params.Frame_ms)`
unfoldable pub frame_at : EngineParams → ℕ → Outcome ℕ
frame_at params ms =
    if params.frame_ms == 0 then panic divide_by_zero else ok (truncate (div64 ms params.frame_ms))

module _ {E : Type 0} where
  -- the start of `routine`
  unfoldable pub start_bundler : EngineParams → ℕ → Outcome (Bundler E)
  start_bundler params ms = do
    frame ← frame_at params ms
    ok (record {
      params = params;
      current_ms = ms;
      current_frame = frame;
      current_events = [];
      current_engine_events = [];
    })

  abbrev pub local_bundle : Bundler E → ℕ → FrameBundle E
  local_bundle b frame = record {
    frame = frame;
    bundle =
        some (
          (b.params.id, record { engine = b.current_engine_events; game = b.current_events }) ∷ []);
  }

  -- one round of the loop over the frames that are over
  unfoldable pub send_frame :
      ℕ → Bundler E × List (FrameBundle E) → Outcome (Bundler E × List (FrameBundle E))
  send_frame frame (b, sent) = ok (
    record b { current_frame = add32 frame 1; current_events = []; current_engine_events = [] },
    sent ++ (local_bundle b frame ∷ []),
  )

  -- one case of `routine`, with what it sends on `Local_bundles`
  unfoldable pub receive : BundlerInput E → Bundler E → Outcome (Bundler E × List (FrameBundle E))
  receive (local_event e) b = ok (record b { current_events = b.current_events ++ (e ∷ []) }, [])
  receive (local_engine_event e) b =
      ok (record b { current_engine_events = b.current_engine_events ++ (e ∷ []) }, [])
  receive tick b = do
    let ms = add64 b.current_ms 1
    next_frame ← frame_at b.params ms
    for_frames (λ frame. lt32 frame next_frame) send_frame b.current_frame
        (record b { current_ms = ms }, [])
  receive (time_delta delta) b = ok (record b { current_ms = add64 b.current_ms delta }, [])

  unfoldable pub receive_all :
      List (BundlerInput E) → Bundler E → Outcome (Bundler E × List (FrameBundle E))
  receive_all [] b = ok (b, [])
  receive_all (i ∷ is) b = do
    done ← receive i b
    rest ← receive_all is done.0
    ok (rest.0, done.1 ++ rest.1)

-- What `routine` does to `Local_bundles`.
pub data BundlerOutput (E : Type 0) : Type 0 where
  bundle_sent : FrameBundle E → BundlerOutput E
  bundles_closed : BundlerOutput E

-- `routine` up to a shutdown: what it has gathered for the frame that is not over is dropped.
unfoldable pub routine :
    {E : Type 0} → List (BundlerInput E) → Bundler E → Outcome (List (BundlerOutput E))
routine is b = do
  done ← receive_all is b
  ok (map (λ bundle. bundle_sent bundle) done.1 ++ (bundles_closed ∷ []))

-- `FrameBundle{}`, which a receive from a closed channel gives
abbrev pub zero_bundle : {E : Type 0} → FrameBundle E
zero_bundle = record { frame = 0; bundle = none }
