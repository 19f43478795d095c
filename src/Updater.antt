-- ===== src/Updater.antt =====
-- core/updater.go: the state of the updater, what it is sent and what it sends.
pub mod Advance
pub mod Requests
pub mod Handle
pub mod Routine
pub mod Calls
pub mod Nagle
pub mod Replay
pub mod Tracks
use pnf.Base.{ℕ, Bool, Option, List}
use pnf.DataWindow.{DataWindow}
use pnf.Engine.{EngineParams, EngineInfo}
use pnf.Event.{FrameBundle}
use pnf.Game.{FrameData}

pub record BootstrapFrame (G : Type 0) : Type 0 where
  pub frame : ℕ
  pub game : Option G
  pub info : EngineInfo

-- `response` is a channel that the caller makes for this request; here its number.
pub record StateRequest : Type 0 where
  pub frame : ℕ
  pub response : ℕ
  pub final : Bool

-- The fields that the updater computes with. Of the channels, `bootstrap_frames` says whether it
-- is not nil, and so does `shutdown`; a send on any other is a `Message`.
pub record Updater (G E : Type 0) : Type 0 where
  pub params : EngineParams
  pub bootstrap_frames : Bool
  pub shutdown : Bool
  pub skip_to_frame : ℕ
  pub final_requests : List StateRequest
  pub fast_requests : List StateRequest
  pub data_window : DataWindow (FrameData G E)
  pub local_frame : ℕ
  pub global_frame : ℕ
  pub oldest_dirty_frame : ℕ

-- A send, in the order of the sends: on `Broadcast_bundles`, on `Bootstrap_frames`, on the channel
-- of a request, on `info_response`, and the closing of `Broadcast_bundles`.
pub data Message (G E : Type 0) : Type 0 where
  broadcast : FrameBundle E → Message G E
  bootstrap : BootstrapFrame G → Message G E
  respond : ℕ → Option G → ℕ → Message G E
  info_response : ℕ → Message G E
  close_broadcast : Message G E
