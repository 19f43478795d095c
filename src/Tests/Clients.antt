-- ===== src/Tests/Clients.antt =====
-- Engine 3, and a client that it lets in at frame 6.
use pnf.Base.{◌≡◌, refl, ℕ, ◌≤◌, ◌<◌, true, false, none, some, List, [], ◌∷◌, ◌++◌, arith}
use pnf.Base.Outcome.{ok}
use pnf.Base.GoMap.{find}
use pnf.Base.GoMap
use pnf.Base.Loop.{for_frames}
use pnf.Base.Words.{lt64, add64, rem64, extend, truncate, lt32, add32, sub32, minus_one32}
use pnf.DataWindow
use pnf.DataWindow.{new_data_window, get, pos_to_index, start, end}
use pnf.Engine
use pnf.Engine.{EngineParams, copy_entries}
use pnf.Event.{
  absorb_event_bundle, absorb_entries, each_engine, each_game, each, each_from, next_key,
}
use pnf.Game.{FrameData}
use pnf.Updater.{Updater, BootstrapFrame}
use pnf.Updater.Advance.{
  advance, rethink, rethink_step, rethink_frame, apply_engine_events, apply_events, complete_frames,
  complete_frame, all_present,
}
use pnf.Updater.Requests.{fulfil_final_requests, fulfil}
use pnf.Updater.Handle.{
  Sent, handle_local, handle_remote, store_remote, store_group, init_frames, init_frame_data,
  next_skip, absorb_at, find_join,
}
use pnf.Updater.Routine.{
  Input, local_bundle, remote_bundles, handle, routine, fill, fill_frame, copy_game, dummy_bundles,
  bootstrap_updater,
}
use pnf.Updater.Replay.{World}
use pnf.Updater.Tracks.Ledger.{enter_all, AllFresh}
use pnf.Updater.Tracks.Lockstep.{AllFit, AllFit-cons, taken_in}
use pnf.Updater.Tracks.Engines.{blank}
use pnf.Updater.Tracks.Group.{arrived}
use pnf.Updater.Tracks.Watch.{watched_in, AllWatchable, AllWatchable-cons, Goes}
use pnf.Updater.Tracks.Client.{client_watches, client_agrees}
use pnf.Tests.{counting, counting-IsLawful}
use pnf.Tests.Updates.{world_5, world_5-IsUnique, first_frame}
use pnf.Tests.Lockstep.{
  engine_3, by, adds, idle, start_3, local_6, remote_7, both_run, both_6, played,
}
use pnf.Tests.Agreement.{by-IsFresh, takes_part_3, first_frame-Shows}

-- what engine 3 has received by then
abbrev inputs_3 : List (Input ℕ)
inputs_3 =
    local_bundle (by 3 (adds 1) 6) ∷ remote_bundles (by 8 (adds 10) 6 ∷ by 8 idle 7 ∷ []) ∷ []

abbrev boot_6 : BootstrapFrame ℕ
boot_6 = record { frame = 6; game = some 112; info = record { engines = some world_5.engines } }

abbrev world_6 : World ℕ
world_6 = record { engines = world_5.engines; game = 112 }

abbrev engine_9 : EngineParams
engine_9 = record { id = 9; delay = 1; frame_ms = 2; max_frames = 4 }

abbrev later_slot : FrameData ℕ ℕ
later_slot = record { info = record { engines = none }; game = some 112; bundle = none }

abbrev client : FrameData ℕ ℕ → Updater ℕ ℕ
client next = record {
  params = engine_9;
  bootstrap_frames = false;
  shutdown = false;
  skip_to_frame = minus_one32;
  final_requests = [];
  fast_requests = [];
  data_window = record {
    first = 6;
    start = 0;
    slots =
        played 112 ((3, idle) ∷ (8, idle) ∷ []) ∷ next ∷ later_slot ∷ later_slot ∷ later_slot ∷ [];
  };
  local_frame = 7;
  global_frame = 7;
  oldest_dirty_frame = 8;
}

abbrev client_6 : Updater ℕ ℕ
client_6 = client (played 112 [])

-- after the bundle of engine 8 for frame 7
abbrev client_7 : Sent ℕ ℕ
client_7 = (client (played 113 ((8, idle) ∷ [])), [])

-- a bundle of its own comes too early
abbrev too_early : List (Input ℕ)
too_early = local_bundle (by 9 idle 7) ∷ []

client_run :
    (bootstrap_updater counting engine_9 false boot_6 ≡ ok client_6)
    × (handle counting (remote_bundles (by 8 idle 7 ∷ [])) client_6 ≡ ok client_7)
    × (handle counting (local_bundle (by 9 idle 7)) client_7.0 ≡ ok (client_7.0, []))
unfolding bootstrap_updater new_data_window lt64 add64 rem64 extend truncate lt32 add32 sub32
    DataWindow.put get pos_to_index start end DataWindow.advance for_frames fill fill_frame
    copy_game dummy_bundles find GoMap.put handle handle_local handle_remote store_remote
    store_group init_frames init_frame_data next_skip absorb_at absorb_event_bundle absorb_entries
    advance rethink rethink_step rethink_frame each_engine each_game each each_from next_key
    apply_engine_events apply_events Engine.copy copy_entries complete_frames complete_frame
    all_present fulfil_final_requests fulfil find_join
client_run = (refl, refl, refl)

client_watchable : AllWatchable counting (remote_bundles (by 8 idle 7 ∷ []) ∷ too_early) client_6
client_watchable =
    AllWatchable-cons counting (remote_bundles (by 8 idle 7 ∷ [])) too_early client_6 client_7
      ((omega arith, tt), omega arith) client_run.1
      (AllWatchable-cons counting (local_bundle (by 9 idle 7)) [] client_7.0 (client_7.0, []) refl
        client_run.2 tt)

client_fresh : AllFresh 9 blank (by 8 idle 7 ∷ watched_in too_early)
unfolding watched_in
client_fresh = (by-IsFresh 9 8 idle 7 blank (omega arith) tt refl, tt)

routine_9 : routine counting (remote_bundles (by 8 idle 7 ∷ []) ∷ too_early) client_6 ≡ ok client_7
unfolding routine
routine_9 = rw (client_run.1, client_run.2) refl

routine_3 : routine counting inputs_3 start_3 ≡ ok (remote_7.0, local_6.1 ++ remote_7.1)
unfolding routine
routine_3 = rw (both_run.2, both_run.3) refl

fit_3 : AllFit counting inputs_3 start_3
unfolding find
fit_3 =
    AllFit-cons counting (local_bundle (by 3 (adds 1) 6))
      (remote_bundles (by 8 (adds 10) 6 ∷ by 8 idle 7 ∷ []) ∷ []) start_3 local_6 (omega arith)
      both_run.2
      (AllFit-cons counting (remote_bundles (by 8 (adds 10) 6 ∷ by 8 idle 7 ∷ [])) [] local_6.0
        remote_7 ((refl, (refl, tt)), (omega arith, (omega arith, tt)), omega arith) both_run.3 tt)

fresh_3 : AllFresh 3 blank (taken_in inputs_3)
unfolding taken_in find
fresh_3 = (
  by-IsFresh 3 3 (adds 1) 6 blank (omega arith) tt refl,
  (
    by-IsFresh 3 8 (adds 10) 6 _ (omega arith) tt refl,
    (by-IsFresh 3 8 idle 7 _ (omega arith) tt refl, tt),
  ),
)

same_arrivals :
    (q k : ℕ)
    → 6 < q
    → q ≤ 7
    → arrived (taken_in inputs_3) q k ≡ arrived (by 8 idle 7 ∷ watched_in too_early) q k
unfolding taken_in watched_in find arrived
same_arrivals q k a b = ground arith

at_6 : get remote_7.0.data_window 6 ≡ ok (played 112 both_6)
unfolding get pos_to_index lt32 add32 truncate rem64 add64 extend sub32
at_6 = refl

client_watches_example :
    Goes counting 6 world_6
      (enter_all (by 8 idle 7 ∷ watched_in too_early) blank)
      (routine counting (remote_bundles (by 8 idle 7 ∷ []) ∷ too_early) client_6)
client_watches_example =
    client_watches counting counting-IsLawful engine_9 false boot_6 world_6 refl refl
      world_5-IsUnique (omega arith) (omega arith) client_6 client_run.0 (by 8 idle 7) [] too_early
      refl client_fresh client_watchable

client_agrees_example :
    (d : FrameData ℕ ℕ) × (d' : FrameData ℕ ℕ) × (get remote_7.0.data_window 7 ≡ ok d)
    × (get client_7.0.data_window 7 ≡ ok d')
    × (d.game ≡ d'.game)
    × (d.info ≡ d'.info)
client_agrees_example =
    client_agrees counting counting-IsLawful 5 first_frame world_5 first_frame-Shows
      world_5-IsUnique engine_3 engine_9 true false start_3 client_6 inputs_3 too_early
      (remote_7.0, local_6.1 ++ remote_7.1) client_7 boot_6 (played 112 both_6) (by 8 idle 7) []
      takes_part_3 (omega arith) both_run.0 fresh_3 fit_3 routine_3 (omega arith) (omega arith) at_6
      refl refl (omega arith) (omega arith) client_run.0 refl client_fresh client_watchable
      routine_9 7 (omega arith) (omega arith) (omega arith) (omega arith) same_arrivals
