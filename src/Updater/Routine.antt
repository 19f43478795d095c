-- ===== src/Updater/Routine.antt =====
-- `Start`, `Bootstrap`, `nagle`, `routine` and the methods that other goroutines call.
use pnf.Base.{ℕ, Bool, false, Option, none, some, List, [], ◌∷◌, ◌++◌, map, if◌then◌else◌}
use pnf.Base.Words.{lt32, add32, add64, minus_one32}
use pnf.Base.Outcome.{Outcome, ok, diverges, nil_pointer, or_panic, ◌>>=◌}
use pnf.Base.GoMap.{entries}
use pnf.Base.Loop.{for_frames}
use pnf.DataWindow.{new_data_window, get, put, start, end}
use pnf.Engine.{EngineParams, EngineInfo}
use pnf.Event.{EventBundle, FrameBundle, no_events}
use pnf.Game.{GameOps, FrameData, no_data}
use pnf.Updater.{Updater, BootstrapFrame, StateRequest, Message, close_broadcast}
use pnf.Updater.Requests.{handle_request, handle_info_request}
use pnf.Updater.Handle.{Window, Sent, handle_local, handle_remote}

-- An updater whose channels and parameters are set and whose other fields are zero. Neither
-- `Start` nor `Bootstrap` makes the channel `shutdown`.
abbrev pub unstarted : {G E : Type 0} → EngineParams → Bool → Window G E → Updater G E
unstarted params hosts w = record {
  params = params;
  bootstrap_frames = hosts;
  shutdown = false;
  skip_to_frame = 0;
  final_requests = [];
  fast_requests = [];
  data_window = w;
  local_frame = 0;
  global_frame = 0;
  oldest_dirty_frame = 0;
}

module _ {G E : Type 0} (ops : GameOps G E) where
  unfoldable pub copy_game : Option G → Outcome (Option G)
  copy_game game = or_panic nil_pointer game >>= λ g. ok (some (ops.copy g))

  -- one round of the loop that gives every slot a copy of the game
  unfoldable pub fill_frame : Option G → ℕ → Window G E → Outcome (Window G E)
  fill_frame game i w = do
    future_data ← get w i
    copied ← copy_game game
    put w i (record future_data { game = copied })

  unfoldable pub fill : Option G → Window G E → Outcome (Window G E)
  fill game w = for_frames (λ i. lt32 i (end w)) (fill_frame game) (start w) w

  unfoldable pub start_updater : EngineParams → Bool → ℕ → FrameData G E → Outcome (Updater G E)
  start_updater params hosts frame data' = do
    w0 ← new_data_window no_data (add64 params.max_frames 1) frame
    w1 ← put w0 frame data'
    w2 ← fill data'.game w1
    let u = unstarted params hosts w2
    ok (record u { local_frame = frame; global_frame = frame; oldest_dirty_frame = add32 frame 1 })

  unfoldable pub dummy_bundles : EngineInfo → EventBundle E
  dummy_bundles info = some (map (λ e. (e.0, no_events)) (entries info.engines))

  unfoldable pub bootstrap_updater : EngineParams → Bool → BootstrapFrame G → Outcome (Updater G E)
  bootstrap_updater params hosts boot = do
    w0 ← new_data_window no_data (add64 params.max_frames 1) boot.frame
    w1 ← fill boot.game w0
    game ← copy_game boot.game
    w2 ←
        put w1 boot.frame
          (record { info = boot.info; game = game; bundle = dummy_bundles boot.info })
    w3 ← put w2 (add32 boot.frame 1) (record { info = boot.info; game = game; bundle = some [] })
    let u = unstarted params hosts w3
    ok (record u {
      skip_to_frame = minus_one32;
      local_frame = add32 boot.frame 1;
      global_frame = add32 boot.frame 1;
      oldest_dirty_frame = add32 boot.frame 2;
    })

-- What `routine` receives, but for `shutdown`.
pub data Input (E : Type 0) : Type 0 where
  local_bundle : FrameBundle E → Input E
  remote_bundles : List (FrameBundle E) → Input E
  state_request : StateRequest → Input E
  info_request : Input E

module _ {G E : Type 0} (ops : GameOps G E) where
  unfoldable pub handle : Input E → Updater G E → Outcome (Sent G E)
  handle (local_bundle b) u = handle_local ops b u
  handle (remote_bundles bs) u = handle_remote ops bs u
  handle (state_request r) u = handle_request u r
  handle info_request u = handle_info_request u

  -- the loop of `routine` over what it receives
  unfoldable pub routine : List (Input E) → Updater G E → Outcome (Sent G E)
  routine [] u = ok (u, [])
  routine (i ∷ is) u = do done ← handle i u; rest ← routine is done.0; ok (rest.0, done.1 ++ rest.1)

-- `Shutdown`: a send on a nil channel blocks for ever; else `routine` closes the channel and ends.
unfoldable pub shutdown_updater : {G E : Type 0} → Updater G E → Outcome (List (Message G E))
shutdown_updater u = if u.shutdown then ok (close_broadcast ∷ []) else diverges

-- What `nagle` waits for: a bundle, or the end of the microsecond after the first of a group.
pub data Arrival (E : Type 0) : Type 0 where
  bundle_arrives : FrameBundle E → Arrival E
  timer_fires : Arrival E

-- `nagle` with the group that it has begun, if any: the groups that it sends on, in order, and what
-- it still holds. The timer runs only while there is a group.
unfoldable pub nagle :
    {E : Type 0}
    → Option (List (FrameBundle E))
    → List (Arrival E)
    → List (List (FrameBundle E)) × Option (List (FrameBundle E))
nagle group [] = ([], group)
nagle none (bundle_arrives b ∷ as') = nagle (some (b ∷ [])) as'
nagle none (timer_fires ∷ as') = nagle none as'
nagle (some group) (bundle_arrives b ∷ as') = nagle (some (group ++ (b ∷ []))) as'
nagle (some group) (timer_fires ∷ as') = let rest = nagle none as' in (group ∷ rest.0, rest.1)
