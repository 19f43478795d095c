-- ===== src/Updater/Tracks/Progress.antt =====
-- How far the window of an engine gets.
use pnf.Base.{
  inl, inr, ◌≢◌, ◌≡◌, sym, ◌∙◌, ap, subst, ℕ, zero, suc, ◌+◌, ◌-◌, ◌^◌, ◌≤◌, ◌<◌, Bool, true, none,
  List, arith,
}
use native.Mathlib.Decide.{dec_lt}
use pnf.Base.Outcome.{ok}
use pnf.Base.GoMap.{entries, find}
use pnf.Engine.{EngineParams}
use pnf.Game.{GameOps, IsLawful, FrameData}
use pnf.Updater.{Updater}
use pnf.Updater.Handle.{Sent}
use pnf.Updater.Advance.{all_present}
use pnf.Updater.Routine.{Input, start_updater, routine}
use pnf.Updater.Replay.{World, Shows}
use pnf.Updater.Replay.Frame.{IsUnique}
use pnf.Updater.Tracks.Complete.{is_complete}
use pnf.Updater.Tracks.Group.{arrived}
use pnf.Updater.Tracks.Ledger.{Ledger, enter_all, enter_all_lem, AllFresh}
use pnf.Updater.Tracks.Member.{IsQuiet, next_world-quiet, all_present-all}
use pnf.Updater.Tracks.Plays.{Plays, IsSettled}
use pnf.Updater.Tracks.Lockstep.{taken_in, AllFit}
use pnf.Updater.Tracks.Engines.{blank, started_engine_plays, after_run}

module _ {G E : Type 0} (ops : GameOps G E) (base : ℕ) (start' : World G) (l : Ledger E)
    (u : Updater G E) (p : Plays ops base start' l u) where
  -- The window is past a frame up to which all have sent their events.
  window_passes :
      IsSettled ops p
      → (f : ℕ) → f ≤ u.global_frame
      → ((j : ℕ) → base < j → j ≤ f → is_complete p.world p.events j ≡ true)
      → f ≤ u.data_window.first
  window_passes settled f a all = elim (dec_lt u.data_window.first f) [
    | no h ↦ omega arith
    | yes h ↦ elim settled.stopped [
      | inl e ↦ absurd (omega arith)
      | inr e ↦
          let all_there = all (suc u.data_window.first) (omega (arith, p.base_in)) (omega arith) in
          cc
    ]
  ]

  -- A frame of which the ledger has something is not after the newest frame.
  reaches : (f k : ℕ) → base < f → l f k ≢ none → f ≤ u.global_frame
  unfolding find
  reaches f k a some_there = elim (dec_lt u.global_frame f) [
    | no h ↦ omega arith
    | yes h ↦
        absurd (
          some_there (sym (p.holds f k a) ∙ ap (λ b. find k (entries b)) (p.consistent.future f h)))
  ]

  module _ (quiet : (q k : ℕ) → IsQuiet (l q k)) where
    same_members :
        (n : ℕ) → base + n ≤ u.global_frame → (p.world (base + n)).engines ≡ start'.engines
    same_members zero h =
        subst (λ (q : ℕ). (p.world q).engines ≡ start'.engines) {x = base} (omega arith)
          (ap (λ (w : World G). w.engines) p.starts)
    same_members (suc n) h =
        let f = base + n in
        subst (λ (q : ℕ). (p.world q).engines ≡ start'.engines) {x = suc f} (omega arith)
          (ap (λ (w : World G). w.engines) (p.past.history.follows f (omega arith) (omega arith))
            ∙ next_world-quiet ops (p.events (suc f)) (p.world f)
                (p.past.keyed (suc f) (omega arith))
                (λ k. subst IsQuiet (sym (p.holds (suc f) k (omega arith))) (quiet (suc f) k))
            ∙ same_members n (omega arith))

    all_sent :
        (f : ℕ)
        → base < f
        → f ≤ u.global_frame
        → ((k : ℕ) → find k start'.engines ≢ none → l f k ≢ none)
        → is_complete p.world p.events f ≡ true
    all_sent f a b sent =
        let members : (p.world f).engines ≡ start'.engines =
          subst (λ (q : ℕ). (p.world q).engines ≡ start'.engines) (omega arith)
            (same_members (f - base) (omega arith)) in
        ap (λ es. all_present es (p.events f)) members
        ∙ all_present-all start'.engines (p.events f) (λ k m e. sent k m (sym (p.holds f k a) ∙ e))

module _ {G E : Type 0} (ops : GameOps G E) (law : IsLawful ops) (frame : ℕ) (d : FrameData G E)
    (world : World G) (shows : Shows d world) (unique : IsUnique world.engines) where
  -- An engine that starts with the data of a frame, as one of the engines that take part, handles
  -- inputs that fit, of fresh bundles in which no engine joins or drops. If for every frame up to `f`
  -- it has taken in a bundle with events, none or some, of each engine that takes part, its window
  -- has moved to `f` or past it.
  pub engine_advances :
      (params : EngineParams) (hosts : Bool) (u : Updater G E) (is : List (Input E)) (r : Sent G E)
      → find params.id world.engines ≢ none
      → frame + params.max_frames + 1 < 2 ^ 31
      → start_updater ops params hosts frame d ≡ ok u
      → AllFresh u.params.id blank (taken_in is)
      → AllFit ops is u
      → routine ops is u ≡ ok r
      → ((q k : ℕ) → IsQuiet (arrived (taken_in is) q k))
      → (f : ℕ)
      → ((q k : ℕ)
          → frame < q
          → q ≤ f
          → find k world.engines ≢ none
          → arrived (taken_in is) q k ≢ none)
      → f ≤ r.0.data_window.first
  engine_advances params hosts u is r m b s fresh fit run quiet f sent =
      let (p, settled) =
        after_run ops law frame d world shows unique u is r
          (started_engine_plays ops law frame d world shows unique params hosts u is m b s fresh
            fit)
          run in
      let l = enter_all (taken_in is) blank in
      let there : (q k : ℕ) → frame < q → q ≤ f → find k world.engines ≢ none → l q k ≢ none =
        λ q k x y n e. sent q k x y n (sym (enter_all_lem (taken_in is) blank q k) ∙ e) in
      elim (dec_lt frame f) [
        | no h ↦ omega (arith, p.base_in)
        | yes h ↦
            let known =
              reaches ops frame world l r.0 p f params.id h (there f params.id h (omega arith) m) in
            window_passes ops frame world l r.0 p settled f known (λ j x y.
              all_sent ops frame world l r.0 p
                (λ q k. subst IsQuiet (sym (enter_all_lem (taken_in is) blank q k)) (quiet q k)) j x
                (omega arith) (λ k n. there j k x y n))
      ]
