-- ===== src/Updater/Tracks/Engines.antt =====
-- Engines that start from the same frame.
use pnf.Base.{
  inl, ◌≢◌, ◌≡◌, refl, sym, ◌∙◌, ap, subst, ℕ, ◌+◌, ◌^◌, ◌-◌, ◌≤◌, ◌<◌, Bool, none, some, List, [],
  arith,
}
use pnf.Base.Outcome.{ok, ok-injective}
use pnf.Base.GoMap.{find}
use pnf.DataWindow.{get}
use pnf.Engine.{EngineParams}
use pnf.Game.{GameOps, IsLawful, FrameData}
use pnf.Updater.{Updater}
use pnf.Updater.Handle.{Sent}
use pnf.Updater.Routine.{Input, start_updater, routine}
use pnf.Updater.Replay.{World, Shows}
use pnf.Updater.Replay.Frame.{IsUnique}
use pnf.Updater.Tracks.{History}
use pnf.Updater.Tracks.Start.{start_updater-IsConsistent}
use pnf.Updater.Tracks.Agree.{worlds_agree}
use pnf.Updater.Tracks.Group.{arrived}
use pnf.Updater.Tracks.Ledger.{Ledger, enter_all, enter_all_lem, AllFresh}
use pnf.Updater.Tracks.Plays.{Plays, IsSettled, Continues, Plays-shown}
use pnf.Updater.Tracks.Lockstep.{taken_in, AllFit, routine-Plays}

-- the ledger of a game that starts
abbrev pub blank : {E : Type 0} → Ledger E
blank q k = none

module _ {G E : Type 0} (ops : GameOps G E) (base : ℕ) (start' : World G) where
  module _ (l l' : Ledger E) (u v : Updater G E) (p : Plays ops base start' l u)
      (q : Plays ops base start' l' v) (settled : IsSettled ops p)
      (settled' : IsSettled ops q) where
    players_agree :
        (f : ℕ)
        → u.data_window.first ≤ f
        → v.data_window.first ≤ f
        → f ≤ u.global_frame
        → f ≤ v.global_frame
        → ((j k : ℕ) → base < j → j ≤ f → l j k ≡ l' j k)
        → (d : FrameData G E) × (d' : FrameData G E) × (get u.data_window f ≡ ok d)
          × (get v.data_window f ≡ ok d')
          × (d.game ≡ d'.game)
          × (d.info ≡ d'.info)
    players_agree f a b a' b' same =
        let (d, e, s) = Plays-shown ops base start' l u p f a (omega (arith, settled.clean)) in
        let (d', e', s') = Plays-shown ops base start' l' v q f b (omega (arith, settled'.clean)) in
        let agree : p.world f ≡ q.world f =
          subst (λ j. p.world j ≡ q.world j) (omega (arith, p.base_in))
            (worlds_agree ops p.world q.world p.events q.events base base u.global_frame
              v.global_frame base (f - base) p.past.history q.past.history (omega arith)
              (omega arith) (omega (arith, p.base_in)) (omega (arith, p.base_in))
              (p.starts ∙ sym q.starts)
              (λ j x y k.
                p.holds j k x ∙ same j k x (omega (arith, p.base_in)) ∙ sym (q.holds j k x))) in
        (
          d,
          d',
          e,
          e',
          s.game_is ∙ ap (λ w. some w.game) agree ∙ sym s'.game_is,
          ap (λ es. record { engines = es })
              (s.info_is ∙ ap (λ w. some w.engines) agree ∙ sym s'.info_is),
        )

module _ {G E : Type 0} (ops : GameOps G E) where
  module _ (law : IsLawful ops) (frame : ℕ) (d : FrameData G E) (world : World G)
      (shows : Shows d world) (unique : IsUnique world.engines) where
    pub start_updater-Plays :
        (params : EngineParams) (hosts : Bool) (u : Updater G E)
        → find params.id world.engines ≢ none
        → frame + params.max_frames + 1 < 2 ^ 31
        → start_updater ops params hosts frame d ≡ ok u
        → (p : Plays ops frame world blank u) × IsSettled ops p
    start_updater-Plays params hosts u member room run =
        let (v, run', c, first, long, last, dirty, own, skip, same) =
          start_updater-IsConsistent ops law params hosts frame d world shows unique room in
        subst (λ x. (p : Plays ops frame world blank x) × IsSettled ops p)
          (ok-injective v u (sym run' ∙ run))
          (
            record {
              world = λ f. world;
              events = λ f. some [];
              consistent = c;
              past = record {
                history =
                    subst (λ b. History ops (λ f. world) (λ f. some []) b v.global_frame) first
                      c.history;
                keyed = λ q h. tt;
              };
              base_in = omega (arith, first);
              starts = refl;
              holds = λ q k h. unfold find in refl;
              spares = λ q k. tt;
              member = rw same member;
              own = λ q h. refl;
              joined = skip;
              local_in = omega (arith, own, first);
              local_before = omega (arith, own, last);
            },
            record { clean = omega (arith, dirty, last); stopped = inl (first ∙ sym last) },
          )

    -- An engine that starts with the data of a frame, as one of the engines that take part, handles
    -- every input, if each fits the updater that it comes to and each bundle is fresh: `routine`
    -- returns. Then the updater plays all the bundles that it has taken in, from the first world on,
    -- and is settled: no frame is dirty, and the window has moved as far as it can.
    pub started_engine_plays :
        (params : EngineParams) (hosts : Bool) (u : Updater G E) (is : List (Input E))
        → find params.id world.engines ≢ none
        → frame + params.max_frames + 1 < 2 ^ 31
        → start_updater ops params hosts frame d ≡ ok u
        → AllFresh u.params.id blank (taken_in is)
        → AllFit ops is u
        → Continues ops frame world (enter_all (taken_in is) blank) u (routine ops is u)
    started_engine_plays params hosts u is member room run fresh fit =
        let (p, settled) = start_updater-Plays params hosts u member room run in
        routine-Plays ops law frame world is blank u p settled fresh fit

    pub after_run :
        (u : Updater G E) (is : List (Input E)) (r : Sent G E)
        → Continues ops frame world (enter_all (taken_in is) blank) u (routine ops is u)
        → routine ops is u ≡ ok r
        → (p : Plays ops frame world (enter_all (taken_in is) blank) r.0) × IsSettled ops p
    after_run u is r (x, run, p, settled, same) run' =
        subst
          (λ (y : Sent G E).
            (p : Plays ops frame world (enter_all (taken_in is) blank) y.0) × IsSettled ops p)
          (ok-injective x r (sym run ∙ run')) (p, settled)

    -- Two engines start with the data of the same frame, each as one of the engines that take part,
    -- and handle inputs that fit, of fresh bundles. If by then they have taken in the same events for
    -- the frames up to `f`, in whatever order and groups, and whatever else has come, and if `f` is in
    -- both windows, then both show the same game and the same engines at `f`.
    pub engines_agree :
        (params params' : EngineParams) (hosts hosts' : Bool) (u u' : Updater G E)
        (is is' : List (Input E)) (r r' : Sent G E)
        → find params.id world.engines ≢ none
        → find params'.id world.engines ≢ none
        → frame + params.max_frames + 1 < 2 ^ 31
        → frame + params'.max_frames + 1 < 2 ^ 31
        → start_updater ops params hosts frame d ≡ ok u
        → start_updater ops params' hosts' frame d ≡ ok u'
        → AllFresh u.params.id blank (taken_in is)
        → AllFresh u'.params.id blank (taken_in is')
        → AllFit ops is u
        → AllFit ops is' u'
        → routine ops is u ≡ ok r
        → routine ops is' u' ≡ ok r'
        → (f : ℕ) → r.0.data_window.first ≤ f
        → r'.0.data_window.first ≤ f
        → f ≤ r.0.global_frame
        → f ≤ r'.0.global_frame
        → ((q k : ℕ) → frame < q → q ≤ f → arrived (taken_in is) q k ≡ arrived (taken_in is') q k)
        → (e : FrameData G E) × (e' : FrameData G E) × (get r.0.data_window f ≡ ok e)
          × (get r'.0.data_window f ≡ ok e')
          × (e.game ≡ e'.game)
          × (e.info ≡ e'.info)
    engines_agree params params' hosts hosts' u u' is is' r r' m m' b b' s s' fresh fresh' fit fit'
          run run' f a c a' c' same =
        let (p, settled) =
          after_run u is r (started_engine_plays params hosts u is m b s fresh fit) run in
        let (p', settled') =
          after_run u' is' r' (started_engine_plays params' hosts' u' is' m' b' s' fresh' fit')
            run' in
        players_agree ops frame world (enter_all (taken_in is) blank)
          (enter_all (taken_in is') blank) r.0 r'.0 p p' settled settled' f a c a' c'
          (λ q k x y.
            enter_all_lem (taken_in is) blank q k
            ∙ same q k x y
            ∙ sym (enter_all_lem (taken_in is') blank q k))
