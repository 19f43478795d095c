-- ===== src/Updater/Tracks/Cases.antt =====
-- The cases of `routine` on an updater that plays a ledger.
use pnf.Base.{
  inl, inr, ◌≡◌, refl, sym, ◌∙◌, ap, subst, ℕ, ◌+◌, ◌^◌, ◌≤◌, ◌<◌, none, some, List, [], ◌∷◌,
  length, arith, ◌==◌, ne→==, Bool-cases,
}
use native.Mathlib.Decide.{dec_lt}
use pnf.Base.Outcome.{◌>>=◌}
use pnf.Base.GoMap.{entries, find}
use pnf.Event.{AllEvents, EventBundle, FrameBundle}
use pnf.Event.Absorb.{either, either-none, Merged}
use pnf.Game.{GameOps, IsLawful}
use pnf.Updater.{Updater}
use pnf.Updater.Handle.{handle_remote}
use pnf.Updater.Replay.{World}
use pnf.Updater.Tracks.Rewrite.{with_events, rewritten_before}
use pnf.Updater.Tracks.Remote.{Stored, new_dirty, new_dirty_bounds, new_world, le-max32}
use pnf.Updater.Tracks.Past.{Stored-Past}
use pnf.Updater.Tracks.Kept.{Kept, store_group-Kept}
use pnf.Updater.Tracks.Group.{arrived, Gathered, bundle_at, store_group-Gathered, find-with_events}
use pnf.Updater.Tracks.Ledger.{
  Ledger, enter, enter_all, enter_all_lem, IsFresh, AllFresh, InWindow, AllIn, AllFresh-AllNew,
  Spares-enter_all, Spares-enter,
}
use pnf.Updater.Tracks.Plays.{Plays, Continues, advance-Plays}

-- the window and the two after it have numbers that do not wrap
abbrev pub HasRoom : {G E : Type 0} → Updater G E → Type 0
HasRoom u = u.data_window.first + length u.data_window.slots + length u.data_window.slots < 2 ^ 31

module _ {E : Type 0} where
  -- a bundle of other engines
  abbrev pub AllForeign : ℕ → List (FrameBundle E) → Type 0
  AllForeign id [] = Unit
  AllForeign id (b ∷ bs) = (find id (entries b.bundle) ≡ none) × AllForeign id bs

  arrived_foreign :
      (id : ℕ) (bs : List (FrameBundle E)) (q : ℕ) → AllForeign id bs → arrived bs q id ≡ none
  unfolding arrived
  arrived_foreign id [] q a = refl
  arrived_foreign id (b ∷ bs) q a = elim (Bool-cases (b.frame == q)) [
    | inl e ↦ rw (e, a.0) (arrived_foreign id bs q a.1)
    | inr e ↦ rw e (arrived_foreign id bs q a.1)
  ]

  arrived_before :
      (first size : ℕ) (bs : List (FrameBundle E)) (q k : ℕ)
      → AllIn first size bs
      → q ≤ first
      → arrived bs q k ≡ none
  unfolding arrived
  arrived_before first size [] q k i h = refl
  arrived_before first size (b ∷ bs) q k i h =
      rw (ne→== b.frame q (λ e. absurd (omega (arith, i.0))))
        (arrived_before first size bs q k i.1 h)

module _ {G E : Type 0} (ops : GameOps G E) where
  -- A group, on an updater that is consistent with events that a ledger has.
  pub group_holds :
      (base : ℕ) (l : Ledger E) (world : ℕ → World G) (events : ℕ → EventBundle E) (u : Updater G E)
      (bs : List (FrameBundle E)) (v : Updater G E) (g : Gathered ops world events u bs v)
      → ((q k : ℕ) → base < q → find k (entries (events q)) ≡ l q k)
      → AllIn u.data_window.first (length u.data_window.slots) bs
      → (q k : ℕ) → base < q
      → find k (entries (g.new_events q)) ≡ enter_all bs l q k
  group_holds base l world events u bs v g holds inside q k h =
      elim (dec_lt u.data_window.first q) [
        | yes a ↦ g.at q k a
        | no a ↦
            ap (λ b. find k (entries b)) (g.same_events q (omega arith))
            ∙ either-none (find k (entries (events q)))
            ∙ ap (either (find k (entries (events q)))) (
                sym (
                  arrived_before u.data_window.first (length u.data_window.slots) bs q k inside
                    (omega arith)))
      ]
      ∙ ap (λ o. either o (arrived bs q k)) (holds q k h)
      ∙ sym (enter_all_lem bs l q k)

module _ {G E : Type 0} (ops : GameOps G E) (law : IsLawful ops) (base : ℕ) (start : World G)
    (l : Ledger E) (u : Updater G E) (p : Plays ops base start l u) where
  module _ (bs : List (FrameBundle E)) (fresh : AllFresh u.params.id l bs)
      (foreign : AllForeign u.params.id bs)
      (inside : AllIn u.data_window.first (length u.data_window.slots) bs) where
    enter_all-own : (q : ℕ) → u.local_frame < q → enter_all bs l q u.params.id ≡ none
    enter_all-own q h =
        enter_all_lem bs l q u.params.id
        ∙ ap (λ o. either o (arrived bs q u.params.id)) (p.own q h)
        ∙ arrived_foreign u.params.id bs q foreign

    Gathered-Plays :
        (v : Updater G E)
        → Gathered ops p.world p.events u bs v
        → Kept u v
        → Plays ops base start (enter_all bs l) v
    Gathered-Plays v g kept = record {
      world = g.new_world;
      events = g.new_events;
      consistent = g.consistent;
      past = g.past base p.base_in p.past;
      base_in = omega (arith, g.same_first, p.base_in);
      starts = g.same_worlds base p.base_in ∙ p.starts;
      holds = group_holds ops base l p.world p.events u bs v g p.holds inside;
      spares =
          λ q k. rw kept.same_params (Spares-enter_all u.params.id bs l fresh q k (p.spares q k));
      member = rw kept.same_params p.member;
      own = λ q h. rw kept.same_params (enter_all-own q (omega (arith, kept.same_local)));
      joined = kept.settled p.joined;
      local_in = omega (arith, kept.same_local, g.same_first, p.local_in);
      local_before = omega (arith, kept.same_local, g.grows, p.local_before);
    }

    -- A group of bundles of other engines, all of frames in the window.
    pub handle_remote-Plays :
        HasRoom u → Continues ops base start (enter_all bs l) u (handle_remote ops bs u)
    unfolding handle_remote
    handle_remote-Plays room =
        let c = p.consistent in
        let (v, run, g) = store_group-Gathered ops p.world p.events bs u c (
          AllFresh-AllNew u.params.id bs l p.events u.data_window.first (length u.data_window.slots)
            fresh inside (λ q k h e. p.holds q k (omega (arith, p.base_in)) ∙ e)) in
        let kept = store_group-Kept bs u v run in
        let (r, run', q, settled, same_params) =
          advance-Plays ops base start (enter_all bs l) v (Gathered-Plays v g kept) law
            (omega (arith, g.consistent.tracks.last_in, g.same_first, g.same_length)) in
        (r, rw (run, ◌>>=◌, run'), q, settled, same_params ∙ kept.same_params)

  entered_holds :
      (b : FrameBundle E) (merged : List (ℕ × AllEvents E))
      → Merged (entries (p.events b.frame)) (entries b.bundle) merged
      → (q k : ℕ) → base < q
      → find k (entries (with_events p.events b.frame (some merged) q)) ≡ enter b l q k
  entered_holds b merged m q k h =
      find-with_events p.events b merged q k m
      ∙ ap (λ o. either o (bundle_at b q k)) (p.holds q k h)

  enter-own :
      (b : FrameBundle E)
      → u.local_frame < b.frame
      → (q : ℕ) → b.frame < q
      → enter b l q u.params.id ≡ none
  enter-own b h q k = rw (p.own q (omega arith), ne→== b.frame q (λ e. absurd (omega arith))) refl

  -- A bundle of the engine itself, for a frame of the window.
  module _ (b : FrameBundle E) (fresh : IsFresh u.params.id l b)
      (inside : InWindow u.data_window.first (length u.data_window.slots) b)
      (es merged : List (ℕ × AllEvents E)) (made : p.events b.frame ≡ some es) (v : Updater G E)
      (st : Stored ops p.world p.events u p.consistent b.frame b.bundle es merged v) where
    pub Stored-Plays :
        u.local_frame < b.frame
        → v.local_frame ≡ b.frame
        → v.params ≡ u.params
        → v.skip_to_frame ≡ u.skip_to_frame
        → Plays ops base start (enter b l) v
    Stored-Plays after at_local same_params same_skip =
        let c = p.consistent in
        let reaches =
          le-max32 u.global_frame b.frame (omega (arith, c.tracks.last_in, c.tracks.valid.no_wrap))
            (omega (arith, inside, c.tracks.valid.no_wrap)) in
        record {
          world = new_world ops p.world p.events u c b.frame b.bundle es merged;
          events = with_events p.events b.frame (some merged);
          consistent = st.consistent;
          past =
              Stored-Past ops p.world p.events u c b.frame b.bundle es merged v st base p.base_in
                inside.0 inside.1 p.past;
          base_in = omega (arith, st.same_first, p.base_in);
          starts =
              rewritten_before ops p.world (with_events p.events b.frame (some merged))
                (new_dirty ops p.world p.events u c b.frame b.bundle es) base
                (omega (
                  arith,
                  new_dirty_bounds ops p.world p.events u c b.frame b.bundle es inside.0 inside.1,
                  p.base_in,
                ))
              ∙ p.starts;
          holds = λ q k h.
              entered_holds b merged
                (subst (λ x. Merged x (entries b.bundle) merged) (sym (ap entries made))
                  st.at_frame)
                q k h;
          spares = λ q k. rw same_params (Spares-enter u.params.id l b q k fresh (p.spares q k));
          member = rw same_params p.member;
          own = λ q h. rw same_params (enter-own b after q (omega (arith, at_local)));
          joined = same_skip ∙ p.joined;
          local_in = omega (arith, at_local, st.same_first, inside);
          local_before = omega (arith, at_local, st.new_last, reaches);
        }
