-- ===== src/Updater/Tracks/Boot.antt =====
-- The updater that `Bootstrap` makes.
use pnf.Base.{
  ◌≡◌, refl, sym, ◌∙◌, ap, subst, ℕ, suc, ◌+◌, ◌^◌, ◌≤◌, ◌<◌, ◌==◌, ==_refl, ne→==, Bool, some, [],
  length, replicate, length-replicate, arith, le→ltb, if◌then◌else◌,
}
use native.Mathlib.Decide.{ℕ_discrete}
use pnf.Base.Words.{add32, add32_lem, add64_lem, lt64_lem, minus_one32}
use pnf.Base.Outcome.{ok, ◌>>=◌}
use pnf.DataWindow.{new_data_window}
use pnf.DataWindow.Bounds.{IsValid}
use pnf.DataWindow.Slots.{peek, Written, put-Written, peek-some}
use pnf.Engine.{EngineParams}
use pnf.Game.{GameOps, IsLawful, FrameData, no_data}
use pnf.Updater.{Updater, BootstrapFrame}
use pnf.Updater.Handle.{Window}
use pnf.Updater.Routine.{unstarted, copy_game, fill, dummy_bundles, bootstrap_updater}
use pnf.Updater.Replay.{World, Shows, next_world}
use pnf.Updater.Replay.Frame.{IsUnique, next_world-IsUnique}
use pnf.Updater.Tracks.{HasGame, HasBundle, HasWorld, History, Tracks, IsConsistent}
use pnf.Updater.Tracks.Fill.{Filling, fill-Filling}
use pnf.Updater.Tracks.Rethink.{peek_same, peek_other}

module _ {G E : Type 0} (ops : GameOps G E) where
  -- the worlds of a client: the one that it was sent, and the next, in which nobody has done anything
  abbrev pub boot_worlds : ℕ → World G → ℕ → World G
  boot_worlds frame world f = if f == frame then world else next_world ops (some []) world

  pub boot_worlds-at : (frame : ℕ) (world : World G) → boot_worlds frame world frame ≡ world
  boot_worlds-at frame world = rw (==_refl frame)

  boot_worlds-next :
      (frame : ℕ) (world : World G)
      → boot_worlds frame world (suc frame) ≡ next_world ops (some []) world
  boot_worlds-next frame world = rw (ne→== (suc frame) frame (λ e. absurd (omega arith)))

  new_window_fills :
      (law : IsLawful ops) (frame size : ℕ) (world : World G)
      → 0 < size
      → frame + size < 2 ^ 31
      → (w1 : Window G E) × (fill ops
            (some world.game)
            (record { first = frame; start = 0; slots = replicate size no_data })
          ≡ ok w1)
        × Filling ops law world.game (λ x. Unit) (λ x k. tt) frame size (frame + size) w1
  new_window_fills law frame size world some_slot b =
      let w0 : Window G E = record { first = frame; start = 0; slots = replicate size no_data } in
      let long : length w0.slots ≡ size = length-replicate size no_data in
      let valid : IsValid w0 = record {
        some_slot = omega arith;
        start_in = omega arith;
        no_wrap = omega arith;
      } in
      let (d, e) = peek-some w0 frame valid (omega arith) in
      fill-Filling ops law world.game (λ x. Unit) (λ x k. tt) frame size w0 (omega arith)
        (record {
          valid = valid;
          same_first = refl;
          same_length = long;
          shows = (d, e, tt);
          games = λ f x y. absurd (omega arith);
        })

  module _ (law : IsLawful ops) (frame size : ℕ) (world : World G) (now then' : FrameData G E)
      (w1 w2 w3 : Window G E)
      (g : Filling ops law world.game (λ x. Unit) (λ x k. tt) frame size (frame + size) w1)
      (wr2 : Written w1 frame now w2) (wr3 : Written w2 (frame + 1) then' w3) (room : 2 ≤ size)
      (shows_now : Shows now world) (shown : Shows then' world)
      (empty : then'.bundle ≡ some []) where
    first : w3.first ≡ frame
    first = wr3.same_first ∙ wr2.same_first ∙ g.same_first

    whole : length w3.slots ≡ size
    whole = wr3.same_length ∙ wr2.same_length ∙ g.same_length

    slot_now : peek w3 frame ≡ some now
    slot_now =
        peek_other (frame + 1) then' wr3 frame (λ q. absurd (omega arith)) ∙ peek_same frame now wr2

    placed : HasWorld w3 (frame + 1) world
    placed = (then', peek_same (frame + 1) then' wr3, shown)

    placeholder_window : Tracks (boot_worlds frame world) (λ f. some []) w3 (frame + 1) (frame + 1)
    placeholder_window = record {
      valid = wr3.valid;
      last_in = omega (arith, first, whole);
      games = λ f x. elim (ℕ_discrete (frame + 1) f) [
        | yes p ↦
            subst (HasGame w3) p
              (then', peek_same (frame + 1) then' wr3, (world.game, shown.game_is))
        | no ne ↦ elim (ℕ_discrete frame f) [
          | yes p ↦ subst (HasGame w3) p (now, slot_now, (world.game, shows_now.game_is))
          | no other ↦
              let (c, k, has) = g.games f (omega (arith, first)) (omega (arith, first, whole)) in
              (c, peek_other (frame + 1) then' wr3 f ne ∙ peek_other frame now wr2 f other ∙ k, has)
        ]
      ];
      bundles = λ f x y.
          subst (λ q. HasBundle w3 q (some [])) {x = frame + 1} (omega (arith, first))
            (then', peek_same (frame + 1) then' wr3, empty);
      worlds = λ f x y.
          subst (λ q. HasWorld w3 q (boot_worlds frame world q)) {x = frame} (omega (arith, first))
            (now, slot_now, subst (Shows now) (sym (boot_worlds-at frame world)) shows_now);
    }

    placeholder_past :
        IsUnique world.engines
        → History ops (boot_worlds frame world) (λ f. some []) w3.first (frame + 1)
    placeholder_past unique = record {
      follows = λ f x y.
          subst
            (λ q.
              boot_worlds frame world (suc q)
              ≡ next_world ops (some []) (boot_worlds frame world q))
            {x = frame} (omega (arith, first))
            (boot_worlds-next frame world
              ∙ ap (next_world ops (some [])) (sym (boot_worlds-at frame world)));
      keyed = λ f x y. tt;
      unique = λ f x y. elim (ℕ_discrete frame f) [
        | yes p ↦
            subst (λ q. IsUnique (boot_worlds frame world q).engines) p
              (subst (λ x. IsUnique x.engines) (sym (boot_worlds-at frame world)) unique)
        | no ne ↦
            subst (λ q. IsUnique (boot_worlds frame world q).engines) {x = suc frame}
              (omega (arith, first))
              (subst (λ x. IsUnique x.engines) (sym (boot_worlds-next frame world))
                (next_world-IsUnique ops (some []) world unique))
      ];
    }

  -- `Bootstrap` with a game and a set of engines returns, if no number wraps. Its updater shows the
  -- world that it was sent at the frame after, too, which nobody has computed, and takes that frame for
  -- clean. Were the frame dirty, as the first bundle for it makes it, the updater would be consistent
  -- with a history in which nothing has happened since. It waits for its own `EngineJoined`.
  pub bootstrap_updater-Placeholder :
      IsLawful ops
      → (params : EngineParams) (hosts : Bool) (boot : BootstrapFrame G) (world : World G)
      → boot.game ≡ some world.game
      → boot.info.engines ≡ some world.engines
      → IsUnique world.engines
      → 1 ≤ params.max_frames
      → boot.frame + params.max_frames + 1 < 2 ^ 31
      → (u : Updater G E) × (bootstrap_updater ops params hosts boot ≡ ok u)
        × IsConsistent ops
            (boot_worlds boot.frame world)
            (λ f. some [])
            (record u { oldest_dirty_frame = boot.frame + 1 })
        × HasWorld u.data_window (boot.frame + 1) world
        × (u.data_window.first ≡ boot.frame)
        × (u.params ≡ params)
        × (u.oldest_dirty_frame ≡ boot.frame + 2)
        × (u.skip_to_frame ≡ minus_one32)
  unfolding bootstrap_updater new_data_window copy_game
  bootstrap_updater-Placeholder law params hosts boot world has_game has_info unique some_slot b =
      let frame = boot.frame in
      let size = params.max_frames + 1 in
      let now : FrameData G E = record {
        info = boot.info;
        game = some world.game;
        bundle = dummy_bundles ops boot.info;
      } in
      let then' : FrameData G E = record {
        info = boot.info;
        game = some world.game;
        bundle = some [];
      } in
      let shows_now : Shows now world = record { info_is = has_info; game_is = refl } in
      let shown : Shows then' world = record { info_is = has_info; game_is = refl } in
      let (w1, run1, g) = new_window_fills law frame size world (omega arith) (omega arith) in
      let (w2, run2, wr2) =
        put-Written w1 frame now g.valid (omega (arith, g.same_first, g.same_length)) in
      let (w3, run3, wr3) =
        put-Written w2 (frame + 1) then' wr2.valid
          (omega (arith, wr2.same_first, wr2.same_length, g.same_first, g.same_length)) in
      let next : add32 frame 1 ≡ frame + 1 = add32_lem frame 1 (omega arith) in
      let u : Updater G E = record (unstarted params hosts w3) {
        skip_to_frame = minus_one32;
        local_frame = frame + 1;
        global_frame = frame + 1;
        oldest_dirty_frame = frame + 2;
      } in
      (
        u,
        rw
            (
              add64_lem params.max_frames 1 (omega arith),
              lt64_lem size 0 (omega arith) (omega arith),
              le→ltb size 0 (omega arith),
              ◌>>=◌,
              has_game,
              run1,
              law.copy_lem world.game,
              run2,
              next,
              run3,
              add32_lem frame 2 (omega arith),
            )
            refl,
        record {
          tracks =
              placeholder_window law frame size world now then' w1 w2 w3 g wr2 wr3 (omega arith)
                shows_now shown refl;
          history =
              placeholder_past law frame size world now then' w1 w2 w3 g wr2 wr3 (omega arith)
                shows_now shown refl unique;
          dirty_after = omega (arith, wr3.same_first, wr2.same_first, g.same_first);
          dirty_before = omega arith;
          made = λ f x. ([], refl, tt);
          future = λ f x. refl;
        },
        placed law frame size world now then' w1 w2 w3 g wr2 wr3 (omega arith) shows_now shown refl,
        first law frame size world now then' w1 w2 w3 g wr2 wr3 (omega arith) shows_now shown refl,
        refl,
        refl,
        refl,
      )
