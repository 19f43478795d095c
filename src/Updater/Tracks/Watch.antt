-- ===== src/Updater/Tracks/Watch.antt =====
-- An updater that takes in what the other engines do: one that has joined, or a client that has not.
use pnf.Base.{
  ◌≡◌, refl, sym, ◌∙◌, ap, subst, ℕ, some, ◌+◌, ◌≤◌, ◌<◌, true, List, [], ◌∷◌, ◌++◌, length, arith,
  ◌||◌, ◌==◌,
}
use pnf.Base.Words.{lt32, minus_one32}
use pnf.Base.Outcome.{Outcome, ok, ok-injective, ◌>>=◌}
use pnf.Base.GoMap.{entries, find}
use pnf.DataWindow.{get}
use pnf.Event.{EventBundle, FrameBundle}
use pnf.Game.{GameOps, IsLawful, FrameData}
use pnf.Updater.{Updater}
use pnf.Updater.Handle.{Sent, handle_local, handle_remote}
use pnf.Updater.Routine.{
  Input, local_bundle, remote_bundles, state_request, info_request, handle, routine,
}
use pnf.Updater.Replay.{World}
use pnf.Updater.Tracks.{IsConsistent}
use pnf.Updater.Tracks.Past.{Past}
use pnf.Updater.Tracks.Agree.{worlds_agree, shown}
use pnf.Updater.Tracks.Group.{handle_remote-Current}
use pnf.Updater.Tracks.Ledger.{
  Ledger, enter_all, enter_all-append, AllFresh, AllFresh-append, AllIn, AllFresh-AllNew,
}
use pnf.Updater.Tracks.Plays.{Plays}
use pnf.Updater.Tracks.Cases.{HasRoom, group_holds}

-- the bundles that a client takes in, in order
unfoldable pub watched_in : {E : Type 0} → List (Input E) → List (FrameBundle E)
watched_in [] = []
watched_in (local_bundle b ∷ is) = watched_in is
watched_in (remote_bundles bs ∷ is) = bs ++ watched_in is
watched_in (state_request r ∷ is) = watched_in is
watched_in (info_request ∷ is) = watched_in is

module _ {G E : Type 0} (ops : GameOps G E) where
  -- The worlds of the frames since `base`, the first of them `start`, follow from one another by the
  -- events of a ledger, and the updater shows them.
  pub record Watches (base : ℕ) (start : World G) (l : Ledger E) (u : Updater G E) : Type 0 where
    pub world : ℕ → World G
    pub events : ℕ → EventBundle E
    pub consistent : IsConsistent ops world events u
    pub past : Past ops world events base u.global_frame
    pub base_in : base ≤ u.data_window.first
    pub starts : world base ≡ start
    pub holds : (q k : ℕ) → base < q → find k (entries (events q)) ≡ l q k

  -- What other goroutines send to a client that has not joined: bundles of its own, which are for
  -- frames before its first one, and groups of bundles for frames of the window.
  abbrev pub Watchable : Input E → Updater G E → Type 0
  Watchable (local_bundle b) u =
      (u.skip_to_frame == minus_one32 || lt32 b.frame u.skip_to_frame) ≡ true
  Watchable (remote_bundles bs) u =
      AllIn u.data_window.first (length u.data_window.slots) bs × HasRoom u
  Watchable (state_request r) u = ⊥
  Watchable info_request u = ⊥

  abbrev pub AllWatchable : List (Input E) → Updater G E → Type 0
  AllWatchable [] u = Unit
  AllWatchable (i ∷ is) u =
      Watchable i u × ((r : Sent G E) → handle ops i u ≡ ok r → AllWatchable is r.0)

  pub AllWatchable-cons :
      (i : Input E) (is : List (Input E)) (u : Updater G E) (r : Sent G E)
      → Watchable i u
      → handle ops i u ≡ ok r
      → AllWatchable is r.0
      → AllWatchable (i ∷ is) u
  AllWatchable-cons i is u r fit run rest = (
    fit,
    λ s e. subst (λ (x : Sent G E). AllWatchable is x.0) (ok-injective r s (sym run ∙ e)) rest,
  )

  -- what an outcome is, if it leaves an updater that watches on, without a dirty frame
  abbrev pub Goes : ℕ → World G → Ledger E → Outcome (Sent G E) → Type 0
  Goes base start l o =
      (r : Sent G E) × (o ≡ ok r)
      × Watches base start l r.0
      × (r.0.oldest_dirty_frame ≡ r.0.global_frame + 1)

  pub Plays-Watches :
      (base : ℕ) (start : World G) (l : Ledger E) (u : Updater G E) (p : Plays ops base start l u)
      → (w : Watches base start l u) × (w.world ≡ p.world)
  Plays-Watches base start l u p = (
    record {
      world = p.world;
      events = p.events;
      consistent = p.consistent;
      past = p.past;
      base_in = p.base_in;
      starts = p.starts;
      holds = p.holds;
    },
    refl,
  )

  module _ (law : IsLawful ops) (base : ℕ) (start : World G) (id : ℕ) where
    pub handle_remote-Watches :
        (l : Ledger E) (u : Updater G E)
        → Watches base start l u
        → (bs : List (FrameBundle E)) → AllFresh id l bs
        → AllIn u.data_window.first (length u.data_window.slots) bs
        → HasRoom u
        → Goes base start (enter_all bs l) (handle_remote ops bs u)
    handle_remote-Watches l u p bs fresh inside room =
        let (v, r, g, run, c) =
          handle_remote-Current ops law p.world p.events bs u p.consistent
            (AllFresh-AllNew id bs l p.events u.data_window.first (length u.data_window.slots) fresh
              inside (λ q k h e. p.holds q k (omega (arith, p.base_in)) ∙ e))
            room in
        (
          r,
          run,
          record {
            world = g.new_world;
            events = g.new_events;
            consistent = c.consistent;
            past =
                subst (Past ops g.new_world g.new_events base) (sym c.same_last)
                  (g.past base p.base_in p.past);
            base_in = omega (arith, p.base_in, g.same_first, c.passed);
            starts = g.same_worlds base p.base_in ∙ p.starts;
            holds = group_holds ops base l p.world p.events u bs v g p.holds inside;
          },
          c.clean,
        )

    pub routine-Watches :
        (is : List (Input E)) (l : Ledger E) (u : Updater G E)
        → Watches base start l u
        → u.oldest_dirty_frame ≡ u.global_frame + 1
        → AllFresh id l (watched_in is)
        → AllWatchable is u
        → Goes base start (enter_all (watched_in is) l) (routine ops is u)
    unfolding routine handle watched_in enter_all
    routine-Watches [] l u p c fresh fit = ((u, []), refl, p, c)
    routine-Watches (local_bundle b ∷ is) l u p c fresh fit =
        let dropped : handle_local ops b u ≡ ok (u, []) = unfold handle_local in rw fit.0 refl in
        let (r, run, q, d) = routine-Watches is l u p c fresh (fit.1 (u, []) dropped) in
        (r, rw (dropped, ◌>>=◌, run, ◌>>=◌) refl, q, d)
    routine-Watches (remote_bundles bs ∷ is) l u p c fresh fit =
        let (now, later) = AllFresh-append id bs (watched_in is) l fresh in
        let (r, run, q, d) = handle_remote-Watches l u p bs now fit.0.0 fit.0.1 in
        let (s, run', q', d') = routine-Watches is (enter_all bs l) r.0 q d later (fit.1 r run) in
        (
          (s.0, r.1 ++ s.1),
          rw (run, ◌>>=◌, run', ◌>>=◌) refl,
          subst (λ m. Watches base start m s.0) (sym (enter_all-append bs (watched_in is) l)) q',
          d',
        )
    routine-Watches (state_request r ∷ is) l u p c fresh fit = absurd (fit.0)
    routine-Watches (info_request ∷ is) l u p c fresh fit = absurd (fit.0)

  -- Two updaters with one world in common, and the same events after it.
  pub watchers_agree :
      (base base' : ℕ) (start start' : World G) (l l' : Ledger E) (u v : Updater G E)
      (p : Watches base start l u) (q : Watches base' start' l' v) (c n : ℕ)
      → u.oldest_dirty_frame ≡ u.global_frame + 1
      → v.oldest_dirty_frame ≡ v.global_frame + 1
      → base ≤ c
      → base' ≤ c
      → p.world c ≡ q.world c
      → u.data_window.first ≤ c + n
      → v.data_window.first ≤ c + n
      → c + n ≤ u.global_frame
      → c + n ≤ v.global_frame
      → ((j k : ℕ) → c < j → j ≤ c + n → l j k ≡ l' j k)
      → (d : FrameData G E) × (d' : FrameData G E) × (get u.data_window (c + n) ≡ ok d)
        × (get v.data_window (c + n) ≡ ok d')
        × (d.game ≡ d'.game)
        × (d.info ≡ d'.info)
  watchers_agree base base' start start' l l' u v p q c n clean clean' x x' meet a a' b b' same =
      let (d, e, s) =
        shown ops p.world p.world p.events p.events u p.consistent (c + n) a
          (omega (arith, clean)) in
      let (d', e', s') =
        shown ops q.world q.world q.events q.events v q.consistent (c + n) a'
          (omega (arith, clean')) in
      let agree : p.world (c + n) ≡ q.world (c + n) =
        worlds_agree ops p.world q.world p.events q.events base base' u.global_frame v.global_frame
          c n p.past.history q.past.history x x' b b' meet
          (λ j y z k. p.holds j k (omega arith) ∙ same j k y z ∙ sym (q.holds j k (omega arith))) in
      (
        d,
        d',
        e,
        e',
        s.game_is ∙ ap (λ w. some w.game) agree ∙ sym s'.game_is,
        ap (λ es. record { engines = es })
            (s.info_is ∙ ap (λ w. some w.engines) agree ∙ sym s'.info_is),
      )
