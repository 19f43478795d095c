-- ===== src/Updater/Tracks/Start.antt =====
-- The updater that `Start` makes.
use pnf.Base.{
  ◌≡◌, refl, sym, ◌∙◌, ap, subst, ℕ, ◌+◌, ◌^◌, ◌<◌, Bool, some, [], length, replicate,
  length-replicate, arith, le→ltb,
}
use pnf.Base.Words.{add32, add32_lem, add64_lem, lt64_lem}
use pnf.Base.Outcome.{ok, ◌>>=◌}
use pnf.DataWindow.{new_data_window}
use pnf.DataWindow.Bounds.{IsValid}
use pnf.DataWindow.Slots.{Inside, put-Written}
use pnf.Engine.{EngineParams}
use pnf.Game.{GameOps, IsLawful, FrameData, no_data}
use pnf.Updater.{Updater}
use pnf.Updater.Handle.{Window}
use pnf.Updater.Routine.{unstarted, fill, start_updater}
use pnf.Updater.Replay.{World, Shows}
use pnf.Updater.Replay.Frame.{IsUnique}
use pnf.Updater.Tracks.{HasWorld, Tracks, IsConsistent}
use pnf.Updater.Tracks.Fill.{fill-Filling}
use pnf.Updater.Tracks.Rethink.{peek_same}

module _ {G E : Type 0} (ops : GameOps G E) where
  -- `Start` with a game and a set of engines returns, if no number wraps. The updater is consistent
  -- with a history in which nothing has happened since, and it has one clean frame, the given one.
  pub start_updater-IsConsistent :
      IsLawful ops
      → (params : EngineParams) (hosts : Bool) (frame : ℕ) (d : FrameData G E) (world : World G)
      → Shows d world
      → IsUnique world.engines
      → frame + params.max_frames + 1 < 2 ^ 31
      → (u : Updater G E) × (start_updater ops params hosts frame d ≡ ok u)
        × IsConsistent ops (λ f. world) (λ f. some []) u
        × (u.data_window.first ≡ frame)
        × (length u.data_window.slots ≡ params.max_frames + 1)
        × (u.global_frame ≡ frame)
        × (u.oldest_dirty_frame ≡ frame + 1)
        × (u.local_frame ≡ frame)
        × (u.skip_to_frame ≡ 0)
        × (u.params ≡ params)
  unfolding start_updater new_data_window
  start_updater-IsConsistent law params hosts frame d world s unique b =
      let size = params.max_frames + 1 in
      let w0 : Window G E = record { first = frame; start = 0; slots = replicate size no_data } in
      let long : length w0.slots ≡ size = length-replicate size no_data in
      let valid : IsValid w0 = record {
        some_slot = omega arith;
        start_in = omega arith;
        no_wrap = omega arith;
      } in
      let in_window : Inside w0 frame = omega arith in
      let (w1, run, wr) = put-Written w0 frame d valid in_window in
      let (w2, run', g) =
        fill-Filling ops law world.game (λ x. Shows x world)
          (λ x k. record { info_is = k.info_is; game_is = refl }) frame size w1 (omega arith)
          (record {
            valid = wr.valid;
            same_first = wr.same_first;
            same_length = wr.same_length ∙ long;
            shows = (d, peek_same frame d wr, s);
            games = λ f x y. absurd (omega arith);
          }) in
      let filled : fill ops d.game w1 ≡ ok w2 = ap (λ x. fill ops x w1) s.game_is ∙ run' in
      let u : Updater G E = record (unstarted params hosts w2) {
        local_frame = frame;
        global_frame = frame;
        oldest_dirty_frame = add32 frame 1;
      } in
      let next : add32 frame 1 ≡ frame + 1 = add32_lem frame 1 (omega arith) in
      let tracks : Tracks (λ f. world) (λ f. some []) w2 frame (frame + 1) = record {
        valid = g.valid;
        last_in = omega (arith, g.same_first, g.same_length);
        games = λ f x.
            g.games f (omega (arith, g.same_first)) (omega (arith, g.same_first, g.same_length));
        bundles = λ f x y. absurd (omega (arith, g.same_first));
        worlds = λ f x y. subst (λ q. HasWorld w2 q world) (omega (arith, g.same_first)) g.shows;
      } in
      (
        u,
        rw (
          add64_lem params.max_frames 1 (omega arith),
          lt64_lem size 0 (omega arith) (omega arith),
          le→ltb size 0 (omega arith),
          run,
          ◌>>=◌,
          filled,
        ),
        record {
          tracks = subst (Tracks (λ f. world) (λ f. some []) w2 frame) (sym next) tracks;
          history = record {
            follows = λ f x y. absurd (omega (arith, g.same_first));
            keyed = λ f x y. absurd (omega (arith, g.same_first));
            unique = λ f x y. unique;
          };
          dirty_after = omega (arith, next, g.same_first);
          dirty_before = omega (arith, next);
          made = λ f x. ([], refl, tt);
          future = λ f x. refl;
        },
        g.same_first,
        g.same_length,
        refl,
        next,
        refl,
        refl,
        refl,
      )
