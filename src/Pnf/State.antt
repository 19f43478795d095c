-- ===== src/Pnf/State.antt =====
-- What `GetState` and `ApplyEvent` do.
use pnf.Base.{
  ◌≢◌, ◌≡◌, subst, refl, sym, ◌∙◌, ap, ℕ, ◌+◌, ◌^◌, ◌≤◌, ◌<◌, Bool, true, Option, none, some, List,
  arith, ==_refl,
}
use pnf.Base.Words.{lt32, minus_one32}
use pnf.Base.Outcome.{ok, ◌>>=◌}
use pnf.Base.GoMap.{find}
use pnf.DataWindow.{get, start}
use pnf.Engine.{EngineParams}
use pnf.Game.{GameOps, IsLawful, FrameData}
use pnf.Updater.{Updater}
use pnf.Updater.Handle.{Sent}
use pnf.Updater.Requests.{handle_request, final_request}
use pnf.Updater.Routine.{Input, start_updater, routine}
use pnf.Updater.Replay.{World, Shows}
use pnf.Updater.Replay.Frame.{IsUnique}
use pnf.Updater.Tracks.Group.{arrived}
use pnf.Updater.Tracks.Ledger.{AllFresh}
use pnf.Updater.Tracks.Lockstep.{taken_in, AllFit}
use pnf.Updater.Tracks.Engines.{blank, started_engine_plays, after_run, engines_agree}
use pnf.Pnf.{PnfEngine, get_state}

minus_one_negative : lt32 minus_one32 0 ≡ true
unfolding lt32
minus_one_negative = refl

module _ {G E D : Type 0} where
  -- The game of the first frame of the window, at once.
  get_state-first :
      (channel : ℕ) (e : PnfEngine G E D) (d : FrameData G E)
      → get e.updater.data_window e.updater.data_window.first ≡ ok d
      → get_state channel e ≡ ok (e, some d.game)
  unfolding get_state handle_request final_request start
  get_state-first channel e d h = rw (minus_one_negative, h, ◌>>=◌, ==_refl channel) refl

module _ {G E D : Type 0} (ops : GameOps G E) (law : IsLawful ops) (frame : ℕ) (d : FrameData G E)
    (world : World G) (shows : Shows d world) (unique : IsUnique world.engines) where
  -- Two engines start with the data of the same frame, each as one of the engines that take part,
  -- and handle inputs that fit, of fresh bundles. If the windows of both then start at the same frame,
  -- and they have taken in the same events up to it, `GetState` returns to both, and to both the same
  -- game.
  pub get_states_agree :
      (params params' : EngineParams) (hosts hosts' : Bool) (u u' : Updater G E)
      (is is' : List (Input E)) (r r' : Sent G E)
      → find params.id world.engines ≢ none
      → find params'.id world.engines ≢ none
      → frame + params.max_frames + 1 < 2 ^ 31
      → frame + params'.max_frames + 1 < 2 ^ 31
      → start_updater ops params hosts frame d ≡ ok u
      → start_updater ops params' hosts' frame d ≡ ok u'
      → AllFresh u.params.id blank (taken_in is)
      → AllFresh u'.params.id blank (taken_in is')
      → AllFit ops is u
      → AllFit ops is' u'
      → routine ops is u ≡ ok r
      → routine ops is' u' ≡ ok r'
      → r.0.data_window.first ≡ r'.0.data_window.first
      → ((q k : ℕ)
          → frame < q
          → q ≤ r.0.data_window.first
          → arrived (taken_in is) q k ≡ arrived (taken_in is') q k)
      → (channel channel' : ℕ) (e e' : PnfEngine G E D) → e.updater ≡ r.0
      → e'.updater ≡ r'.0
      → (game : Option G) × (get_state channel e ≡ ok (e, some game))
        × (get_state channel' e' ≡ ok (e', some game))
  get_states_agree params params' hosts hosts' u u' is is' r r' m m' b b' s s' fresh fresh' fit fit'
        run run' even same channel channel' e e' at at' =
      let (p, settled) =
        after_run ops law frame d world shows unique u is r
          (started_engine_plays ops law frame d world shows unique params hosts u is m b s fresh
            fit)
          run in
      let (p', settled') =
        after_run ops law frame d world shows unique u' is' r'
          (started_engine_plays ops law frame d world shows unique params' hosts' u' is' m' b' s'
            fresh' fit')
          run' in
      let f = r.0.data_window.first in
      let (x, x', h, h', same_game, same_info) =
        engines_agree ops law frame d world shows unique params params' hosts hosts' u u' is is' r
          r' m m' b b' s s' fresh fresh' fit fit' run run' f (omega arith) (omega (arith, even))
          (omega (arith, p.local_in, p.local_before))
          (omega (arith, even, p'.local_in, p'.local_before)) same in
      (
        x.game,
        get_state-first channel e x
            (subst (λ y. get y.data_window y.data_window.first ≡ ok x) (sym at) h),
        get_state-first channel' e' x' (
              subst (λ y. get y.data_window y.data_window.first ≡ ok x') (sym at')
                (subst (λ q. get r'.0.data_window q ≡ ok x') even h'))
            ∙ ap (λ g. ok (e', some g)) (sym same_game),
      )
