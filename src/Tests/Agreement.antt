-- ===== src/Tests/Agreement.antt =====
-- The properties of the updater, applied to the two engines.
use pnf.Base.{
  ◌++◌, inl, inr, subst, ◌==◌, ==_refl, ne→==, if◌then◌else◌, ◌^◌, ◌≡◌, ◌≢◌, refl, ℕ, ◌≤◌, ◌<◌,
  true, Option, none, some, [], ◌∷◌, arith,
}
use pnf.Base.Outcome.{ok, panic, outside_window}
use pnf.Base.GoMap.{find}
use pnf.Engine.{EngineParams}
use pnf.Event.{AllEvents}
use pnf.DataWindow.{get}
use pnf.Game.{FrameData}
use pnf.Updater.Requests.{handle_request}
use pnf.Updater.{Updater, respond}
use pnf.Updater.Handle.{Sent}
use pnf.Updater.Routine.{local_bundle, remote_bundles, state_request, routine}
use pnf.Updater.Tracks.Ledger.{Ledger, enter_all, IsFresh, AllFresh}
use pnf.Updater.Tracks.Member.{NoDrop, Spares, IsQuiet}
use pnf.Updater.Tracks.Plays.{Plays, IsSettled, Continues}
use pnf.Updater.Tracks.Lockstep.{AllFit, AllFit-cons, taken_in}
use pnf.Updater.Tracks.Engines.{blank, start_updater-Plays, started_engine_plays, engines_agree}
use pnf.Updater.Replay.{Shows}
use pnf.Updater.Tracks.Group.{arrived}
use pnf.Updater.Tracks.Reply.{Reply, handle_request-Reply}
use pnf.StandardNetwork.Hosting.{make_tcp_udp_network}
use pnf.Pnf.{PnfEngine, get_state}
use pnf.Pnf.State.{get_states_agree}
use pnf.Bundler.{zero_bundle}
use pnf.Updater.Tracks.Closed.{bundler_shutdown_panics}
use pnf.Updater.Tracks.Progress.{engine_advances}
use native.Mathlib.Decide.{ℕ_discrete}
use pnf.Tests.{counting, counting-IsLawful}
use pnf.Tests.Updates.{world_5, world_5-IsUnique, first_frame}
use pnf.Tests.Lockstep.{
  engine_3, engine_8, adds, idle, by, request_6, last_3, later_3, inputs_3, start_3, local_6,
  remote_7, local_7, last_8, inputs_8, start_8, early_8, middle_8, late_8, both_run, sent_3,
  routine_3, sent_8, routine_8,
}

fit_3 : AllFit counting inputs_3 start_3
unfolding find
fit_3 =
    AllFit-cons counting (local_bundle (by 3 (adds 1) 6)) later_3 start_3 local_6 (omega arith)
      both_run.2
      (AllFit-cons counting (remote_bundles (by 8 (adds 10) 6 ∷ by 8 idle 7 ∷ []))
        (state_request request_6 ∷ last_3) local_6.0 remote_7
        ((refl, (refl, tt)), (omega arith, (omega arith, tt)), omega arith) both_run.3
        (AllFit-cons counting (state_request request_6) last_3 remote_7.0
          (remote_7.0, respond 4 (some 112) 6 ∷ []) (omega arith) both_run.4
          (AllFit-cons counting (local_bundle (by 3 (adds 2) 7)) [] remote_7.0 local_7 (omega arith)
            both_run.5 tt)))

fit_8 : AllFit counting inputs_8 start_8
unfolding find
fit_8 =
    AllFit-cons counting (remote_bundles (by 3 (adds 2) 7 ∷ by 3 (adds 1) 6 ∷ []))
      (local_bundle (by 8 (adds 10) 6) ∷ last_8) start_8 early_8
      ((refl, (refl, tt)), (omega arith, (omega arith, tt)), omega arith) both_run.6
      (AllFit-cons counting (local_bundle (by 8 (adds 10) 6)) last_8 early_8.0 middle_8
        (omega arith) both_run.7
        (AllFit-cons counting (local_bundle (by 8 idle 7)) [] middle_8.0 late_8 (omega arith)
          both_run.8 tt))

-- what is needed of a bundle of one engine that nobody else sends
pub by-IsFresh :
    (me id : ℕ) (all : AllEvents ℕ) (frame : ℕ) (l : Ledger ℕ)
    → id < 2 ^ 63
    → NoDrop me all.engine
    → l frame id ≡ none
    → IsFresh me l (by id all frame)
unfolding find
by-IsFresh me id all frame l small spare free = record {
  keyed = (small, refl, tt);
  apart = λ k. elim (ℕ_discrete id k) [
    | yes e ↦ inr (subst (λ j. l frame j ≡ none) e free)
    | no ne ↦ inl (rw (ne→== id k ne) refl)
  ];
  spares = λ k. elim (ℕ_discrete id k) [
    | yes e ↦ subst (λ j. Spares me (if id == j then some all else none)) e (rw (==_refl id) spare)
    | no ne ↦ rw (ne→== id k ne) tt
  ];
}

fresh_3 : AllFresh 3 blank (taken_in inputs_3)
unfolding taken_in find
fresh_3 = (
  by-IsFresh 3 3 (adds 1) 6 blank (omega arith) tt refl,
  (
    by-IsFresh 3 8 (adds 10) 6 _ (omega arith) tt refl,
    (
      by-IsFresh 3 8 idle 7 _ (omega arith) tt refl,
      (by-IsFresh 3 3 (adds 2) 7 _ (omega arith) tt refl, tt),
    ),
  ),
)

fresh_8 : AllFresh 8 blank (taken_in inputs_8)
unfolding taken_in find
fresh_8 = (
  by-IsFresh 8 3 (adds 2) 7 blank (omega arith) tt refl,
  (
    by-IsFresh 8 3 (adds 1) 6 _ (omega arith) tt refl,
    (
      by-IsFresh 8 8 (adds 10) 6 _ (omega arith) tt refl,
      (by-IsFresh 8 8 idle 7 _ (omega arith) tt refl, tt),
    ),
  ),
)

same_arrivals :
    (q k : ℕ) → 5 < q → q ≤ 7 → arrived (taken_in inputs_3) q k ≡ arrived (taken_in inputs_8) q k
unfolding taken_in find arrived
same_arrivals q k a b = ground arith

all_there :
    (q k : ℕ)
    → 5 < q
    → q ≤ 7
    → find k world_5.engines ≢ none
    → arrived (taken_in inputs_3) q k ≢ none
unfolding taken_in find arrived
all_there q k a b = ground arith

all-IsQuiet : (q k : ℕ) → IsQuiet (arrived (taken_in inputs_3) q k)
unfolding taken_in find arrived
all-IsQuiet q k = ground arith

pub first_frame-Shows : Shows first_frame world_5
first_frame-Shows = record { info_is = refl; game_is = refl }

pub takes_part_3 : find 3 world_5.engines ≢ none
unfolding find
takes_part_3 e = cc

takes_part_8 : find 8 world_5.engines ≢ none
unfolding find
takes_part_8 e = cc

started_engine_plays_example :
    Continues counting 5 world_5
      (enter_all (taken_in inputs_3) blank)
      start_3
      (routine counting inputs_3 start_3)
started_engine_plays_example =
    started_engine_plays counting counting-IsLawful 5 first_frame world_5 first_frame-Shows
      world_5-IsUnique engine_3 true start_3 inputs_3 takes_part_3 (omega arith) both_run.0 fresh_3
      fit_3

engines_agree_example :
    (d : FrameData ℕ ℕ) × (d' : FrameData ℕ ℕ) × (get sent_3.0.data_window 7 ≡ ok d)
    × (get sent_8.0.data_window 7 ≡ ok d')
    × (d.game ≡ d'.game)
    × (d.info ≡ d'.info)
engines_agree_example =
    engines_agree counting counting-IsLawful 5 first_frame world_5 first_frame-Shows
      world_5-IsUnique engine_3 engine_8 true true start_3 start_8 inputs_3 inputs_8 sent_3 sent_8
      takes_part_3 takes_part_8 (omega arith) (omega arith) both_run.0 both_run.1 fresh_3 fresh_8
      fit_3 fit_8 routine_3 routine_8 7 (omega arith) (omega arith) (omega arith) (omega arith)
      same_arrivals

engine_advances_example : 7 ≤ sent_3.0.data_window.first
engine_advances_example =
    engine_advances counting counting-IsLawful 5 first_frame world_5 first_frame-Shows
      world_5-IsUnique engine_3 true start_3 inputs_3 sent_3 takes_part_3 (omega arith) both_run.0
      fresh_3 fit_3 routine_3 all-IsQuiet 7 all_there

plays_3 : (p : Plays counting 5 world_5 blank start_3) × IsSettled counting p
plays_3 =
    start_updater-Plays counting counting-IsLawful 5 first_frame world_5 first_frame-Shows
      world_5-IsUnique engine_3 true start_3 takes_part_3 (omega arith) both_run.0

handle_request-Reply_example :
    (r : Sent ℕ ℕ) × (handle_request start_3 request_6 ≡ ok r)
    × Reply plays_3.0.world start_3 request_6 r
handle_request-Reply_example =
    handle_request-Reply counting 5 world_5 blank start_3 plays_3.0 plays_3.1 request_6
      (omega arith)

bundler_shutdown_panics_example :
    routine counting (inputs_3 ++ (local_bundle zero_bundle ∷ [])) start_3 ≡ panic outside_window
bundler_shutdown_panics_example =
    bundler_shutdown_panics counting counting-IsLawful 5 first_frame world_5 first_frame-Shows
      world_5-IsUnique engine_3 true start_3 inputs_3 takes_part_3 (omega arith) both_run.0 fresh_3
      fit_3

abbrev engine : EngineParams → Updater ℕ ℕ → PnfEngine ℕ ℕ ℕ
engine params u = record {
  bundler = record {
    params = params;
    current_ms = 16;
    current_frame = 8;
    current_events = [];
    current_engine_events = [];
  };
  updater = u;
  communicator = record { conns = []; bootstraps = []; horizon = 7; active_conns = 0 };
  effects = [];
  net = make_tcp_udp_network;
}

get_states_agree_example :
    (game : Option ℕ) × (get_state 1 (engine engine_3 sent_3.0)
      ≡ ok (engine engine_3 sent_3.0, some game))
    × (get_state 2 (engine engine_8 sent_8.0) ≡ ok (engine engine_8 sent_8.0, some game))
get_states_agree_example =
    get_states_agree counting counting-IsLawful 5 first_frame world_5 first_frame-Shows
      world_5-IsUnique engine_3 engine_8 true true start_3 start_8 inputs_3 inputs_8 sent_3 sent_8
      takes_part_3 takes_part_8 (omega arith) (omega arith) both_run.0 both_run.1 fresh_3 fresh_8
      fit_3 fit_8 routine_3 routine_8 refl same_arrivals 1 2 (engine engine_3 sent_3.0)
      (engine engine_8 sent_8.0) refl refl
