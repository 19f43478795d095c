-- ===== src/Updater/Handle.antt =====
-- The cases of `Updater.routine` that take in bundles.
use pnf.Base.{ℕ, ◌||◌, some, List, [], ◌∷◌, ◌++◌, ◌==◌, if◌then◌else◌}
use pnf.Base.Words.{lt32, le32, add32, sub32, minus_one32}
use pnf.Base.Outcome.{Outcome, ok, ◌>>=◌}
use pnf.Base.Loop.{for_frames}
use pnf.DataWindow.{DataWindow, get, put, start}
use pnf.Engine
use pnf.Engine.{EngineParams, EngineEvent, engine_joined, engine_dropped}
use pnf.Event.{EventBundle, FrameBundle, no_events, absorb_event_bundle, each_engine}
use pnf.Game.{GameOps, FrameData}
use pnf.Updater.{Updater, Message, broadcast}
use pnf.Updater.Requests.{fulfil_fast_requests}
use pnf.Updater.Advance.{advance}

-- What `Params.Id` sends for a frame on which it has no events.
abbrev pub dummy_bundle : {E : Type 0} → ℕ → EventBundle E
dummy_bundle id = some ((id, no_events) ∷ [])

abbrev pub min32 : ℕ → ℕ → ℕ
min32 a b = if lt32 a b then a else b

abbrev pub max32 : ℕ → ℕ → ℕ
max32 a b = if lt32 a b then b else a

abbrev pub Window : Type 0 → Type 0 → Type 0
Window G E = DataWindow (FrameData G E)

abbrev pub Sent : Type 0 → Type 0 → Type 0
Sent G E = Updater G E × List (Message G E)

-- the callback that looks for the event by which this engine joins
unfoldable pub find_join : ℕ → ℕ → List EngineEvent → ℕ → ℕ
find_join id frame [] skip = skip
find_join id frame (engine_joined j ∷ es) skip =
    find_join id frame es (if j == id then frame else skip)
find_join id frame (engine_dropped j ∷ es) skip = find_join id frame es skip

module _ {G E : Type 0} where
  -- `initFrameData`: a new frame has no events, and the engines of the frame before it. Its game
  -- stays what the slot held.
  unfoldable pub init_frame_data : ℕ → Window G E → Outcome (Window G E)
  init_frame_data frame w = if lt32 (sub32 frame 1) (start w) then ok w else (do
    prev_data ← get w (sub32 frame 1)
    d ← get w frame
    put w frame (record d { bundle = some []; info = Engine.copy prev_data.info }))

  unfoldable pub init_frames : ℕ → ℕ → Window G E → Outcome (Window G E)
  init_frames first last w = for_frames (λ frame. le32 frame last) init_frame_data first w

  -- `Get`, `AbsorbEventBundle`, `Set`
  unfoldable pub absorb_at : ℕ → EventBundle E → Window G E → Outcome (Window G E)
  absorb_at frame bundle w = do
    d ← get w frame
    merged ← absorb_event_bundle d.bundle bundle
    put w frame (record d { bundle = merged })

  -- one round of the loop over the frames that were skipped
  unfoldable pub skip_frame :
      ℕ → ℕ → Window G E × List (Message G E) → Outcome (Window G E × List (Message G E))
  skip_frame id frame (w, sent) = do
    w' ← absorb_at frame (dummy_bundle id) w
    let message = broadcast (record { frame = frame; bundle = dummy_bundle id })
    ok (w', sent ++ (message ∷ []))

  -- the block under `if u.skip_to_frame > 0`
  unfoldable pub catch_up : ℕ → Updater G E → Outcome (Sent G E)
  catch_up local_frame u =
      if lt32 0 u.skip_to_frame
      then (do
        done ←
            for_frames (λ frame. lt32 frame local_frame) (skip_frame u.params.id) u.skip_to_frame
              (u.data_window, [])
        ok (
          record u {
            data_window = done.0;
            oldest_dirty_frame = min32 u.skip_to_frame u.oldest_dirty_frame;
            skip_to_frame = 0;
          },
          done.1,
        ))
      else ok (u, [])

  -- the rest of the case, up to `u.Broadcast_bundles <- local_bundle`
  unfoldable pub store_local : FrameBundle E → Updater G E → Outcome (Updater G E)
  store_local local_bundle u = do
    let frame = local_bundle.frame
    let first = max32 (add32 u.global_frame 1) u.skip_to_frame
    w ← init_frames first frame u.data_window
    w' ← absorb_at frame local_bundle.bundle w
    ok (record u {
      data_window = w';
      local_frame = frame;
      global_frame = max32 u.global_frame frame;
      oldest_dirty_frame = min32 frame u.oldest_dirty_frame;
    })

  unfoldable pub next_skip : Updater G E → FrameBundle E → Outcome ℕ
  next_skip u remote_bundle =
      if u.skip_to_frame == minus_one32
      then each_engine remote_bundle.bundle remote_bundle.frame
          (λ id events skip. ok (find_join u.params.id remote_bundle.frame events skip))
          u.skip_to_frame
      else ok u.skip_to_frame

  -- one round of the loop over the bundles of a group
  unfoldable pub store_remote : FrameBundle E → Updater G E → Outcome (Updater G E)
  store_remote remote_bundle u =
      let frame = remote_bundle.frame in
      if le32 frame (start u.data_window) then ok u else (do
        w ← init_frames (add32 u.global_frame 1) frame u.data_window
        skip ← next_skip u remote_bundle
        w' ← absorb_at frame remote_bundle.bundle w
        ok (record u {
          data_window = w';
          global_frame = max32 u.global_frame frame;
          oldest_dirty_frame = min32 frame u.oldest_dirty_frame;
          skip_to_frame = skip;
        }))

  unfoldable pub store_group : List (FrameBundle E) → Updater G E → Outcome (Updater G E)
  store_group [] u = ok u
  store_group (b ∷ bs) u = store_remote b u >>= λ v. store_group bs v

module _ {G E : Type 0} (ops : GameOps G E) where
  unfoldable pub handle_local : FrameBundle E → Updater G E → Outcome (Sent G E)
  handle_local local_bundle u =
      if u.skip_to_frame == minus_one32 || lt32 local_bundle.frame u.skip_to_frame
      then ok (u, [])
      else (do
        caught ← catch_up local_bundle.frame u
        stored ← store_local local_bundle caught.0
        advanced ← advance ops stored
        answered ← fulfil_fast_requests advanced.0
        ok (answered.0, caught.1 ++ (broadcast local_bundle ∷ advanced.1 ++ answered.1)))

  unfoldable pub handle_remote : List (FrameBundle E) → Updater G E → Outcome (Sent G E)
  handle_remote remote_bundles u = store_group remote_bundles u >>= λ v. advance ops v
