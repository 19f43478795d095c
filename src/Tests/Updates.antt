-- ===== src/Tests/Updates.antt =====
-- An updater between two receptions: frames 5, 6 and 7, of which 6 is the newest.
use pnf.Base.{
  inl, inr, ◌≡◌, ◌⊎◌, refl, sym, subst, ℕ, suc, ne→==, ◌≤◌, ◌<◌, true, false, none, some, List, [],
  ◌∷◌, arith, ◌==◌, if◌then◌else◌,
}
use pnf.Engine.{EngineParams}
use native.Mathlib.Decide.{ℕ_discrete}
use pnf.Base.Outcome.{ok}
use pnf.Base.GoMap.{entries, find}
use pnf.DataWindow.Slots.{peek, Inside, peek-Inside}
use pnf.Event.{FrameBundle, AllEvents, EventBundle}
use pnf.Event.Keys.{IsKeyed}
use pnf.Game.{FrameData}
use pnf.Updater.{Updater}
use pnf.Updater.Handle.{Window, Sent, handle_remote}
use pnf.Updater.Replay.{World, Shows, next_world}
use pnf.Updater.Replay.Frame.{IsUnique, next_world-IsUnique}
use pnf.Updater.Tracks.{Tracks, IsConsistent}
use pnf.Updater.Tracks.Remote.{new_world, new_events}
use pnf.Updater.Tracks.Receive.{Current}
use pnf.Updater.Tracks.Group.{arrived, AllNew, Gathered, handle_remote-Current}
use pnf.Tests.{counting, counting-IsLawful}

abbrev pub world_5 : World ℕ
world_5 = record { engines = (3, true) ∷ (8, true) ∷ []; game = 100 }

pub world_5-IsUnique : IsUnique world_5.engines
unfolding find
world_5-IsUnique = (refl, (refl, tt))

module _ (es : List (ℕ × AllEvents ℕ)) where
  -- frame 6 has the events `es`, and all later frames none yet
  abbrev events : ℕ → EventBundle ℕ
  events f = if f == 6 then some es else some []

  abbrev world_6 : World ℕ
  world_6 = next_world counting (some es) world_5

  abbrev world : ℕ → World ℕ
  world f = if f == 5 then world_5 else world_6

  abbrev data_5 : FrameData ℕ ℕ
  data_5 = record {
    info = record { engines = some world_5.engines };
    game = some 100;
    bundle = some [];
  }

  abbrev stale_6 : FrameData ℕ ℕ
  stale_6 = record { info = record { engines = none }; game = some 0; bundle = some es }

  abbrev clean_6 : FrameData ℕ ℕ
  clean_6 = record {
    info = record { engines = some world_6.engines };
    game = some world_6.game;
    bundle = some es;
  }

  abbrev data_7 : FrameData ℕ ℕ
  data_7 = record { info = record { engines = none }; game = some 0; bundle = none }

  abbrev updater : FrameData ℕ ℕ → ℕ → Updater ℕ ℕ
  updater data_6 dirty = record {
    params = record { id = 3; delay = 1; frame_ms = 2; max_frames = 2 };
    bootstrap_frames = true;
    shutdown = false;
    skip_to_frame = 0;
    final_requests = [];
    fast_requests = [];
    data_window = record { first = 5; start = 1; slots = data_7 ∷ data_5 ∷ data_6 ∷ [] };
    local_frame = 6;
    global_frame = 6;
    oldest_dirty_frame = dirty;
  }

  module _ (data_6 : FrameData ℕ ℕ) (dirty : ℕ) where
    abbrev w : Window ℕ ℕ
    w = (updater data_6 dirty).data_window

    in_slot :
        (f : ℕ)
        → Inside w f
        → ((5 ≡ f) × (peek w f ≡ some data_5))
          ⊎ (((6 ≡ f) × (peek w f ≡ some data_6)) ⊎ ((7 ≡ f) × (peek w f ≡ some data_7)))
    in_slot f h = elim (ℕ_discrete 5 f) [
      | yes e ↦ inl (e, subst (λ q. peek w q ≡ some data_5) e (peek-Inside w 5 (omega arith)))
      | no ne ↦ elim (ℕ_discrete 6 f) [
        | yes e ↦
            inr (inl (e, subst (λ q. peek w q ≡ some data_6) e (peek-Inside w 6 (omega arith))))
        | no no_6 ↦
            let e : 7 ≡ f = omega arith in
            inr (inr (e, subst (λ q. peek w q ≡ some data_7) e (peek-Inside w 7 (omega arith))))
      ]
    ]

    updater-Tracks :
        5 < dirty
        → dirty ≤ 7
        → ((g : ℕ) × (data_6.game ≡ some g))
        → data_6.bundle ≡ some es
        → (6 < dirty → Shows data_6 world_6)
        → Tracks world events w 6 dirty
    updater-Tracks a b game same shows = record {
      valid = record { some_slot = omega arith; start_in = omega arith; no_wrap = omega arith };
      last_in = omega arith;
      games = λ f h. elim (in_slot f h) [
        | inl (e, p) ↦ (data_5, p, (100, refl))
        | inr (inl (e, p)) ↦ (data_6, p, game)
        | inr (inr (e, p)) ↦ (data_7, p, (0, refl))
      ];
      bundles = λ f h k. elim (in_slot f (omega arith)) [
        | inl (e, p) ↦ absurd (omega arith)
        | inr (inl (e, p)) ↦ (data_6, p, subst (λ q. data_6.bundle ≡ events q) e same)
        | inr (inr (e, p)) ↦ absurd (omega arith)
      ];
      worlds = λ f h k. elim (in_slot f (omega arith)) [
        | inl (e, p) ↦ (
          data_5,
          p,
          subst (λ q. Shows data_5 (world q)) e (record { info_is = refl; game_is = refl }),
        )
        | inr (inl (e, p)) ↦
            (data_6, p, subst (λ q. Shows data_6 (world q)) e (shows (omega arith)))
        | inr (inr (e, p)) ↦ absurd (omega arith)
      ];
    }

    updater-IsConsistent :
        IsKeyed es
        → 5 < dirty
        → dirty ≤ 7
        → ((g : ℕ) × (data_6.game ≡ some g))
        → data_6.bundle ≡ some es
        → (6 < dirty → Shows data_6 world_6)
        → IsConsistent counting world events (updater data_6 dirty)
    updater-IsConsistent keyed a b game same shows = record {
      tracks = updater-Tracks a b game same shows;
      history = record {
        follows = λ f h k.
            subst (λ q. world (suc q) ≡ next_world counting (events (suc q)) (world q)) {x = 5}
              (omega arith) refl;
        keyed = λ f h k. subst (λ q. IsKeyed (entries (events q))) {x = 6} (omega arith) keyed;
        unique = λ f h k. elim (ℕ_discrete 5 f) [
          | yes e ↦ subst (λ q. IsUnique (world q).engines) e world_5-IsUnique
          | no ne ↦
              subst (λ q. IsUnique (world q).engines) {x = 6} (omega arith)
                (next_world-IsUnique counting (some es) world_5 world_5-IsUnique)
        ];
      };
      dirty_after = a;
      dirty_before = b;
      made = λ f h. elim (ℕ_discrete 6 f) [
        | yes e ↦ (es, subst (λ q. events q ≡ some es) e refl, keyed)
        | no ne ↦ ([], rw (ne→== f 6 (λ e. ne (sym e))), tt)
      ];
      future = λ f h. rw (ne→== f 6 (λ e. absurd (omega arith)));
    }

abbrev play_3 : AllEvents ℕ
play_3 = record { game = 4 ∷ []; engine = [] }

abbrev play_8 : AllEvents ℕ
play_8 = record { game = 7 ∷ []; engine = [] }

-- the bundle of engine 3 came first, or that of engine 8
abbrev three_first : List (ℕ × AllEvents ℕ)
three_first = (3, play_3) ∷ (8, play_8) ∷ []

abbrev eight_first : List (ℕ × AllEvents ℕ)
eight_first = (8, play_8) ∷ (3, play_3) ∷ []

three_first-IsKeyed : IsKeyed three_first
unfolding find
three_first-IsKeyed = (omega arith, refl, (omega arith, refl, tt))

eight_first-IsKeyed : IsKeyed eight_first
unfolding find
eight_first-IsKeyed = (omega arith, refl, (omega arith, refl, tt))

-- Frame 6 is dirty: it has its events, but an old game.
abbrev waiting : Updater ℕ ℕ
waiting = updater three_first (stale_6 three_first) 6

waiting-IsConsistent : IsConsistent counting (world three_first) (events three_first) waiting
waiting-IsConsistent =
    updater-IsConsistent three_first (stale_6 three_first) 6 three_first-IsKeyed (omega arith)
      (omega arith) (0, refl) refl (λ h. absurd (omega arith))

abbrev next_bundle : EventBundle ℕ
next_bundle = some ((8, play_8) ∷ [])

abbrev pub first_frame : FrameData ℕ ℕ
first_frame = record {
  info = record { engines = some world_5.engines };
  game = some 100;
  bundle = none;
}

abbrev pub two_frames : EngineParams
two_frames = record { id = 3; delay = 1; frame_ms = 2; max_frames = 2 }

-- one bundle that is too old, and one that is new for each of two frames
abbrev two_bundles : List (FrameBundle ℕ)
two_bundles =
    record { frame = 5; bundle = some ((8, play_8) ∷ []) }
    ∷ record { frame = 7; bundle = some ((3, play_3) ∷ []) }
    ∷ []

abbrev three_bundles : List (FrameBundle ℕ)
three_bundles = record { frame = 7; bundle = some ((8, play_8) ∷ []) } ∷ two_bundles

three_bundles-AllNew : AllNew (events three_first) 5 3 three_bundles
unfolding find arrived
three_bundles-AllNew = (
  inr (record {
    after = omega arith;
    before = omega arith;
    keyed = (omega arith, refl, tt);
    apart = λ k. inl refl;
    alone = λ k. elim (ℕ_discrete 8 k) [
      | yes e ↦ inr (subst (λ j. arrived two_bundles 7 j ≡ none) e refl)
      | no ne ↦ inl (rw (ne→== 8 k ne))
    ];
  }),
  (
    inl (omega arith),
    (
      inr (record {
        after = omega arith;
        before = omega arith;
        keyed = (omega arith, refl, tt);
        apart = λ k. inl refl;
        alone = λ k. inr refl;
      }),
      tt,
    ),
  ),
)

handle_remote-Current_example :
    (v : Updater ℕ ℕ) × (r : Sent ℕ ℕ) × (g : Gathered counting
      (world three_first)
      (events three_first)
      waiting
      three_bundles
      v)
    × (handle_remote counting three_bundles waiting ≡ ok r)
    × Current counting g.new_world g.new_events v r.0
handle_remote-Current_example =
    handle_remote-Current counting counting-IsLawful (world three_first) (events three_first)
      three_bundles waiting waiting-IsConsistent three_bundles-AllNew (omega arith)
