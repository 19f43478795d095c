-- ===== src/Updater/Tracks/Client.antt =====
-- The updater of a client, from `Bootstrap` and the first bundle on.
use pnf.Base.{
  ◌≡◌, refl, sym, ◌∙◌, ap, subst, ℕ, ◌+◌, ◌-◌, ◌^◌, ◌≤◌, ◌<◌, ◌≢◌, Bool, some, none, List, [], ◌∷◌,
  ◌++◌, arith, inl, inr, lt→ltb,
}
use pnf.Base.Words.{lt32_lem}
use pnf.Base.Outcome.{ok, ok-injective, ◌>>=◌}
use pnf.Base.GoMap.{find}
use pnf.DataWindow.{get, start}
use pnf.Engine.{EngineParams, EngineInfo}
use pnf.Event.{FrameBundle}
use pnf.Game.{GameOps, IsLawful, FrameData}
use pnf.Updater.{Updater, BootstrapFrame}
use pnf.Updater.Advance.{advance}
use pnf.Updater.Handle.{Sent, store_remote, store_group, handle_remote, min32, next_skip}
use pnf.Updater.Routine.{Input, remote_bundles, handle, routine, start_updater, bootstrap_updater}
use pnf.Updater.Replay.{World, Shows}
use pnf.Updater.Replay.Frame.{IsUnique}
use pnf.Updater.Tracks.{History}
use pnf.Updater.Tracks.Remote.{min32_cases}
use pnf.Updater.Tracks.Boot.{boot_worlds, boot_worlds-at, bootstrap_updater-Placeholder}
use pnf.Updater.Tracks.Ledger.{
  Ledger, enter_all, enter_all_lem, enter_all-append, AllFresh, AllFresh-append,
}
use pnf.Updater.Tracks.Group.{arrived}
use pnf.Updater.Tracks.Plays.{Plays, IsSettled, Plays-shown}
use pnf.Updater.Tracks.Lockstep.{taken_in, AllFit}
use pnf.Updater.Tracks.Engines.{blank, started_engine_plays, after_run}
use pnf.Updater.Tracks.Watch.{
  watched_in, Watches, AllWatchable, Goes, Plays-Watches, handle_remote-Watches, routine-Watches,
  watchers_agree,
}

module _ {G E : Type 0} where
  -- the same updater with its frames dirty from `f` on
  abbrev dirty_from : ℕ → Updater G E → Updater G E
  dirty_from f u = record u { oldest_dirty_frame = f }

  -- A bundle makes its frame dirty, whether it was or not.
  store_remote-dirty_from :
      (b : FrameBundle E) (u : Updater G E)
      → u.data_window.first < b.frame
      → u.data_window.first < 2 ^ 31
      → b.frame ≤ u.oldest_dirty_frame
      → u.oldest_dirty_frame < 2 ^ 31
      → store_remote b u ≡ store_remote b (dirty_from b.frame u)
  unfolding store_remote start next_skip
  store_remote-dirty_from b u h k l m =
      let late = lt32_lem u.data_window.first b.frame k (omega arith) in
      let here : min32 b.frame u.oldest_dirty_frame ≡ b.frame =
        elim (min32_cases b.frame u.oldest_dirty_frame (omega arith) m) [
          | inl (p, e) ↦ e
          | inr (p, e) ↦ e ∙ omega arith
        ] in
      let same : min32 b.frame b.frame ≡ b.frame =
        elim (min32_cases b.frame b.frame (omega arith) (omega arith)) [
          | inl (p, e) ↦ e
          | inr (p, e) ↦ e
        ] in
      rw (late, lt→ltb u.data_window.first b.frame h, here, same) refl

module _ {G E : Type 0} (ops : GameOps G E) (law : IsLawful ops) where
  module _ (params : EngineParams) (hosts : Bool) (boot : BootstrapFrame G) (world : World G)
      (has_game : boot.game ≡ some world.game) (has_info : boot.info.engines ≡ some world.engines)
      (unique : IsUnique world.engines) (some_slot : 1 ≤ params.max_frames)
      (room : boot.frame + params.max_frames + 1 < 2 ^ 31) (u : Updater G E)
      (run : bootstrap_updater ops params hosts boot ≡ ok u) where
    -- Were the placeholder dirty, the client would show what has happened: nothing.
    booted :
        Watches ops boot.frame world blank (dirty_from (boot.frame + 1) u)
        × (u.data_window.first ≡ boot.frame)
        × (u.oldest_dirty_frame ≡ boot.frame + 2)
    booted =
        let (v, run', c, shows, first, same, dirty, skip) =
          bootstrap_updater-Placeholder ops law params hosts boot world has_game has_info unique
            some_slot room in
        let is_u = ok-injective v u (sym run' ∙ run) in
        subst
          (λ (x : Updater G E).
            Watches ops boot.frame world blank (dirty_from (boot.frame + 1) x)
            × (x.data_window.first ≡ boot.frame)
            × (x.oldest_dirty_frame ≡ boot.frame + 2))
          is_u
          (
            record {
              world = boot_worlds ops boot.frame world;
              events = λ f. some [];
              consistent = c;
              past = record {
                history =
                    subst
                      (λ b.
                        History ops (boot_worlds ops boot.frame world) (λ f. some []) b
                          v.global_frame)
                      first c.history;
                keyed = λ q h. tt;
              };
              base_in = omega (arith, first);
              starts = boot_worlds-at ops boot.frame world;
              holds = λ q k h. unfold find in refl;
            },
            first,
            dirty,
          )

    first_group :
        (b : FrameBundle E) (bs : List (FrameBundle E))
        → b.frame ≡ boot.frame + 1
        → handle_remote ops (b ∷ bs) u ≡ handle_remote ops (b ∷ bs) (dirty_from b.frame u)
    unfolding handle_remote store_group
    first_group b bs e =
        let (p, first, dirty) = booted in
        ap (λ o. (o >>= λ v. store_group bs v) >>= λ v. advance ops v)
          (store_remote-dirty_from b u (omega (arith, e, first)) (omega (arith, first))
            (omega (arith, e, dirty)) (omega (arith, dirty)))

    -- A client that has been sent the data of a frame receives groups of bundles that fit, the first
    -- of which begins with one for the frame after, and perhaps bundles of its own. `routine`
    -- returns. Then the client shows at every frame of its window, from the world that it was sent
    -- on, what the bundles of the groups call for, no more and no less, and no frame is dirty.
    pub client_watches :
        (b : FrameBundle E) (bs : List (FrameBundle E)) (is : List (Input E))
        → b.frame ≡ boot.frame + 1
        → AllFresh u.params.id blank (b ∷ bs ++ watched_in is)
        → AllWatchable ops (remote_bundles (b ∷ bs) ∷ is) u
        → Goes ops boot.frame world
            (enter_all (b ∷ bs ++ watched_in is) blank)
            (routine ops (remote_bundles (b ∷ bs) ∷ is) u)
    unfolding routine handle
    client_watches b bs is e fresh fit =
        let (p, first, dirty) = booted in
        let same = first_group b bs e in
        let (now, later) = AllFresh-append u.params.id (b ∷ bs) (watched_in is) blank fresh in
        let (r, run, q, d) =
          handle_remote-Watches ops law boot.frame world u.params.id blank (dirty_from b.frame u)
            (subst (λ f. Watches ops boot.frame world blank (dirty_from f u)) (sym e) p) (b ∷ bs)
            now fit.0.0 fit.0.1 in
        let (s, run', q', d') =
          routine-Watches ops law boot.frame world u.params.id is (enter_all (b ∷ bs) blank) r.0 q d
            later (fit.1 r (same ∙ run)) in
        (
          (s.0, r.1 ++ s.1),
          rw (same, run, ◌>>=◌, run', ◌>>=◌) refl,
          subst (λ m. Watches ops boot.frame world m s.0)
              (sym (enter_all-append (b ∷ bs) (watched_in is) blank)) q',
          d',
        )

module _ {G E : Type 0} (ops : GameOps G E) (law : IsLawful ops) where
  module _ (frame : ℕ) (start' world : World G) (l l' : Ledger E) (u v : Updater G E)
      (boot : BootstrapFrame G) (p : Plays ops frame start' l u) (settled : IsSettled ops p)
      (q : Watches ops boot.frame world l' v) (clean : v.oldest_dirty_frame ≡ v.global_frame + 1)
      (meet : p.world boot.frame ≡ world) where
    guest_agrees :
        (f : ℕ)
        → frame ≤ boot.frame
        → u.data_window.first ≤ f
        → v.data_window.first ≤ f
        → f ≤ u.global_frame
        → f ≤ v.global_frame
        → ((j k : ℕ) → boot.frame < j → j ≤ f → l j k ≡ l' j k)
        → (d : FrameData G E) × (d' : FrameData G E) × (get u.data_window f ≡ ok d)
          × (get v.data_window f ≡ ok d')
          × (d.game ≡ d'.game)
          × (d.info ≡ d'.info)
    guest_agrees f x a a' b b' same =
        let c = boot.frame in
        let (w, same_world) = Plays-Watches ops frame start' l u p in
        let sum : c + (f - c) ≡ f = omega (arith, q.base_in) in
        subst
          (λ j.
            (d : FrameData G E) × (d' : FrameData G E) × (get u.data_window j ≡ ok d)
            × (get v.data_window j ≡ ok d')
            × (d.game ≡ d'.game)
            × (d.info ≡ d'.info))
          sum
          (watchers_agree ops frame c start' world l l' u v w q c (f - c) settled.clean clean x
            (omega arith) (ap (λ (k : ℕ → World G). k c) same_world ∙ meet ∙ sym q.starts)
            (omega (arith, sum)) (omega (arith, sum)) (omega (arith, sum)) (omega (arith, sum))
            (λ j k y z. same j k y (omega (arith, sum))))

  module _ (frame : ℕ) (d : FrameData G E) (world : World G) (shows : Shows d world)
      (unique : IsUnique world.engines) where
    -- An engine starts with the data of a frame and handles inputs that fit. A client is sent what
    -- this engine then shows at a frame of its window, and receives groups of bundles that fit, the
    -- first of which begins with one for the frame after. If both have taken in the same events for
    -- the frames from there up to `f`, and `f` is in both windows, then both show the same game and
    -- the same engines at `f`.
    pub client_agrees :
        (params params' : EngineParams) (hosts hosts' : Bool) (u u' : Updater G E)
        (is is' : List (Input E)) (r r' : Sent G E) (boot : BootstrapFrame G) (now : FrameData G E)
        (b : FrameBundle E) (bs : List (FrameBundle E))
        → find params.id world.engines ≢ none
        → frame + params.max_frames + 1 < 2 ^ 31
        → start_updater ops params hosts frame d ≡ ok u
        → AllFresh u.params.id blank (taken_in is)
        → AllFit ops is u
        → routine ops is u ≡ ok r
        → r.0.data_window.first ≤ boot.frame
        → boot.frame ≤ r.0.global_frame
        → get r.0.data_window boot.frame ≡ ok now
        → boot.game ≡ now.game
        → boot.info ≡ now.info
        → 1 ≤ params'.max_frames
        → boot.frame + params'.max_frames + 1 < 2 ^ 31
        → bootstrap_updater ops params' hosts' boot ≡ ok u'
        → b.frame ≡ boot.frame + 1
        → AllFresh u'.params.id blank (b ∷ bs ++ watched_in is')
        → AllWatchable ops (remote_bundles (b ∷ bs) ∷ is') u'
        → routine ops (remote_bundles (b ∷ bs) ∷ is') u' ≡ ok r'
        → (f : ℕ) → r.0.data_window.first ≤ f
        → r'.0.data_window.first ≤ f
        → f ≤ r.0.global_frame
        → f ≤ r'.0.global_frame
        → ((q k : ℕ)
            → boot.frame < q
            → q ≤ f
            → arrived (taken_in is) q k ≡ arrived (b ∷ bs ++ watched_in is') q k)
        → (e : FrameData G E) × (e' : FrameData G E) × (get r.0.data_window f ≡ ok e)
          × (get r'.0.data_window f ≡ ok e')
          × (e.game ≡ e'.game)
          × (e.info ≡ e'.info)
    client_agrees params params' hosts hosts' u u' is is' r r' boot now b bs member room run fresh
          fit goes inside reached at_boot game info some_slot room' run' next fresh' fit' goes' f x
          x' y y' same =
        let (p, settled) =
          after_run ops law frame d world shows unique u is r
            (started_engine_plays ops law frame d world shows unique params hosts u is member room
              run fresh fit)
            goes in
        let (slot, e, s) =
          Plays-shown ops frame world (enter_all (taken_in is) blank) r.0 p boot.frame inside
            (omega (arith, settled.clean)) in
        let is_now = ok-injective slot now (sym e ∙ at_boot) in
        let sent : Shows now (p.world boot.frame) =
          subst (λ k. Shows k (p.world boot.frame)) is_now s in
        let started : frame ≤ boot.frame = omega (arith, p.base_in) in
        let (s', run'', q, clean) =
          client_watches ops law params' hosts' boot (p.world boot.frame) (game ∙ sent.game_is)
            (ap (λ (i : EngineInfo). i.engines) info ∙ sent.info_is)
            (p.past.history.unique boot.frame started reached) some_slot room' u' run' b bs is' next
            fresh' fit' in
        let is_r = ok-injective s' r' (sym run'' ∙ goes') in
        let l' = enter_all (b ∷ bs ++ watched_in is') blank in
        let (q', clean') =
          subst
            (λ (k : Sent G E).
              Watches ops boot.frame (p.world boot.frame) l' k.0
              × (k.0.oldest_dirty_frame ≡ k.0.global_frame + 1))
            is_r (q, clean) in
        guest_agrees frame world (p.world boot.frame) (enter_all (taken_in is) blank) l' r.0 r'.0
          boot p settled q' clean' refl f started x x' y y'
          (λ j k m n.
            enter_all_lem (taken_in is) blank j k
            ∙ same j k m n
            ∙ sym (enter_all_lem (b ∷ bs ++ watched_in is') blank j k))
