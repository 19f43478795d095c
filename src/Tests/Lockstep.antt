-- ===== src/Tests/Lockstep.antt =====
-- Two engines of one game, 3 and 8, from frame 5 on.
use pnf.Base.{◌≡◌, refl, ℕ, ◌+◌, ◌-◌, true, false, none, some, List, [], ◌∷◌}
use pnf.Base.Outcome.{ok}
use pnf.Base.GoMap.{find}
use pnf.Engine.{EngineParams}
use pnf.Event.{
  FrameBundle, AllEvents, absorb_event_bundle, absorb_entries, each_engine, each_game, each,
  each_from, next_key,
}
use pnf.Base.GoMap
use pnf.Base.Loop.{for_frames}
use pnf.Base.Words.{lt64, add64, rem64, extend, truncate, lt32, add32, sub32}
use pnf.DataWindow
use pnf.DataWindow.{new_data_window, get, pos_to_index, start, end}
use pnf.Engine
use pnf.Engine.{copy_entries}
use pnf.Game.{FrameData}
use pnf.Updater.Advance.{
  advance, rethink, rethink_step, rethink_frame, apply_engine_events, apply_events, complete_frames,
  complete_frame, all_present,
}
use pnf.Updater.Requests.{
  fulfil_final_requests, fulfil_fast_requests, fulfil, fulfil_from, handle_request, final_request,
}
use pnf.Updater.{Updater, Message, StateRequest, broadcast, bootstrap, respond}
use pnf.Updater.Handle.{
  Sent, handle_local, handle_remote, catch_up, store_local, store_remote, store_group, init_frames,
  init_frame_data, next_skip, absorb_at,
}
use pnf.Updater.Routine.{
  Input, local_bundle, remote_bundles, state_request, start_updater, handle, routine, fill,
  fill_frame, copy_game,
}
use pnf.Tests.{counting}
use pnf.Tests.Updates.{world_5, first_frame}

abbrev pub engine_3 : EngineParams
engine_3 = record { id = 3; delay = 1; frame_ms = 2; max_frames = 4 }

abbrev pub engine_8 : EngineParams
engine_8 = record { id = 8; delay = 1; frame_ms = 2; max_frames = 4 }

abbrev none_yet : FrameData ℕ ℕ
none_yet = record { info = record { engines = none }; game = some 100; bundle = none }

abbrev pub played : ℕ → List (ℕ × AllEvents ℕ) → FrameData ℕ ℕ
played game es = record {
  info = record { engines = some world_5.engines };
  game = some game;
  bundle = some es;
}

abbrev pub adds : ℕ → AllEvents ℕ
adds n = record { engine = []; game = n ∷ [] }

abbrev pub idle : AllEvents ℕ
idle = record { engine = []; game = [] }

-- a bundle of one engine
abbrev pub by : ℕ → AllEvents ℕ → ℕ → FrameBundle ℕ
by id all frame = record { frame = frame; bundle = some ((id, all) ∷ []) }

-- an engine with the slots of frames 6, 7, 8 and 9
abbrev state : EngineParams → ℕ → List (FrameData ℕ ℕ) → ℕ → ℕ → Updater ℕ ℕ
state params first slots local global = record {
  params = params;
  bootstrap_frames = true;
  shutdown = false;
  skip_to_frame = 0;
  final_requests = [];
  fast_requests = [];
  data_window = record { first = first; start = first - 5; slots = first_frame ∷ slots };
  local_frame = local;
  global_frame = global;
  oldest_dirty_frame = global + 1;
}

abbrev told : ℕ → ℕ → Message ℕ ℕ
told frame game =
    bootstrap
      (record { frame = frame; game = some game; info = record { engines = some world_5.engines } })

abbrev pub request_6 : StateRequest
request_6 = record { frame = 6; response = 4; final = true }

-- what engine 3 receives, and what it is after each input
abbrev pub last_3 : List (Input ℕ)
last_3 = local_bundle (by 3 (adds 2) 7) ∷ []

abbrev pub later_3 : List (Input ℕ)
later_3 = remote_bundles (by 8 (adds 10) 6 ∷ by 8 idle 7 ∷ []) ∷ state_request request_6 ∷ last_3

abbrev pub inputs_3 : List (Input ℕ)
inputs_3 = local_bundle (by 3 (adds 1) 6) ∷ later_3

abbrev pub start_3 : Updater ℕ ℕ
start_3 = state engine_3 5 (none_yet ∷ none_yet ∷ none_yet ∷ none_yet ∷ []) 5 5

abbrev pub local_6 : Sent ℕ ℕ
local_6 = (
  state engine_3 5 (played 102 ((3, adds 1) ∷ []) ∷ none_yet ∷ none_yet ∷ none_yet ∷ []) 6 6,
  broadcast (by 3 (adds 1) 6) ∷ [],
)

abbrev pub both_6 : List (ℕ × AllEvents ℕ)
both_6 = (3, adds 1) ∷ (8, adds 10) ∷ []

abbrev pub remote_7 : Sent ℕ ℕ
remote_7 = (
  state engine_3 6 (played 112 both_6 ∷ played 113 ((8, idle) ∷ []) ∷ none_yet ∷ none_yet ∷ []) 6 7,
  told 6 112 ∷ [],
)

abbrev final_3 : Updater ℕ ℕ
final_3 =
    state engine_3 7
      (played 112 both_6 ∷ played 115 ((8, idle) ∷ (3, adds 2) ∷ []) ∷ none_yet ∷ none_yet ∷ []) 7 7

abbrev pub local_7 : Sent ℕ ℕ
local_7 = (final_3, broadcast (by 3 (adds 2) 7) ∷ told 7 115 ∷ [])

-- engine 8 receives the same bundles in another order
abbrev pub last_8 : List (Input ℕ)
last_8 = local_bundle (by 8 idle 7) ∷ []

abbrev pub inputs_8 : List (Input ℕ)
inputs_8 =
    remote_bundles (by 3 (adds 2) 7 ∷ by 3 (adds 1) 6 ∷ [])
    ∷ local_bundle (by 8 (adds 10) 6)
    ∷ last_8

abbrev pub start_8 : Updater ℕ ℕ
start_8 = state engine_8 5 (none_yet ∷ none_yet ∷ none_yet ∷ none_yet ∷ []) 5 5

abbrev pub early_8 : Sent ℕ ℕ
early_8 = (
  state engine_8 5
      (played 102 ((3, adds 1) ∷ []) ∷ played 105 ((3, adds 2) ∷ []) ∷ none_yet ∷ none_yet ∷ []) 5
      7,
  [],
)

abbrev pub middle_8 : Sent ℕ ℕ
middle_8 = (
  state engine_8 6 (played 112 both_6 ∷ played 115 ((3, adds 2) ∷ []) ∷ none_yet ∷ none_yet ∷ []) 6
      7,
  broadcast (by 8 (adds 10) 6) ∷ told 6 112 ∷ [],
)

abbrev pub late_8 : Sent ℕ ℕ
late_8 = (
  state engine_8 7
      (played 112 both_6 ∷ played 115 ((3, adds 2) ∷ (8, idle) ∷ []) ∷ none_yet ∷ none_yet ∷ []) 7
      7,
  broadcast (by 8 idle 7) ∷ told 7 115 ∷ [],
)

-- the runs of both engines, input by input
pub both_run :
    (start_updater counting engine_3 true 5 first_frame ≡ ok start_3)
    × (start_updater counting engine_8 true 5 first_frame ≡ ok start_8)
    × (handle counting (local_bundle (by 3 (adds 1) 6)) start_3 ≡ ok local_6)
    × (handle counting (remote_bundles (by 8 (adds 10) 6 ∷ by 8 idle 7 ∷ [])) local_6.0
        ≡ ok remote_7)
    × (handle counting (state_request request_6) remote_7.0
        ≡ ok (remote_7.0, respond 4 (some 112) 6 ∷ []))
    × (handle counting (local_bundle (by 3 (adds 2) 7)) remote_7.0 ≡ ok local_7)
    × (handle counting (remote_bundles (by 3 (adds 2) 7 ∷ by 3 (adds 1) 6 ∷ [])) start_8
        ≡ ok early_8)
    × (handle counting (local_bundle (by 8 (adds 10) 6)) early_8.0 ≡ ok middle_8)
    × (handle counting (local_bundle (by 8 idle 7)) middle_8.0 ≡ ok late_8)
unfolding start_updater new_data_window lt64 add64 rem64 extend truncate lt32 add32 sub32
    DataWindow.put get pos_to_index start end DataWindow.advance for_frames fill fill_frame
    copy_game find GoMap.put handle handle_local handle_remote catch_up store_local store_remote
    store_group init_frames init_frame_data next_skip absorb_at absorb_event_bundle absorb_entries
    advance rethink rethink_step rethink_frame each_engine each_game each each_from next_key
    apply_engine_events apply_events Engine.copy copy_entries complete_frames complete_frame
    all_present fulfil_final_requests fulfil_fast_requests fulfil fulfil_from handle_request
    final_request
both_run = (refl, refl, refl, refl, refl, refl, refl, refl, refl)

abbrev pub sent_3 : Sent ℕ ℕ
sent_3 = (
  final_3,
  broadcast (by 3 (adds 1) 6)
      ∷ told 6 112
      ∷ respond 4 (some 112) 6
      ∷ broadcast (by 3 (adds 2) 7)
      ∷ told 7 115
      ∷ [],
)

pub routine_3 : routine counting inputs_3 start_3 ≡ ok sent_3
unfolding routine
routine_3 = rw (both_run.2, both_run.3, both_run.4, both_run.5) refl

abbrev pub sent_8 : Sent ℕ ℕ
sent_8 = (
  late_8.0,
  broadcast (by 8 (adds 10) 6) ∷ told 6 112 ∷ broadcast (by 8 idle 7) ∷ told 7 115 ∷ [],
)

pub routine_8 : routine counting inputs_8 start_8 ≡ ok sent_8
unfolding routine
routine_8 = rw (both_run.6, both_run.7, both_run.8) refl
