-- ===== src/Updater/Tracks/Plays.antt =====
-- An updater that plays what a ledger has, from a given frame and world on.
use pnf.Base.{
  ◌⊎◌, inl, inr, ◌≢◌, ◌≡◌, sym, ◌∙◌, subst, ℕ, suc, zero, ◌+◌, ◌-◌, ◌^◌, ◌≤◌, ◌<◌, true, false,
  none, length, arith,
}
use native.Mathlib.Decide.{dec_lt}
use pnf.Base.Outcome.{Outcome, ok}
use pnf.Base.GoMap.{entries, find}
use pnf.DataWindow.{get}
use pnf.Event.{EventBundle}
use pnf.Game.{GameOps, IsLawful, FrameData}
use pnf.Updater.{Updater}
use pnf.Updater.Handle.{Sent}
use pnf.Updater.Advance.{advance}
use pnf.Updater.Replay.{World, Shows}
use pnf.Updater.Tracks.{IsConsistent}
use pnf.Updater.Tracks.Past.{Past}
use pnf.Updater.Tracks.Complete.{is_complete}
use pnf.Updater.Tracks.Receive.{advance-Current}
use pnf.Updater.Tracks.Agree.{shown}
use pnf.Updater.Tracks.Ledger.{Ledger}
use pnf.Updater.Tracks.Member.{Spares, next_world-member, all_present-found}

module _ {G E : Type 0} (ops : GameOps G E) where
  -- The worlds of the frames since `base`, the first of them `start`, follow from one another by the
  -- events of a ledger, and the updater shows them. The engine itself takes part all the time, and
  -- has done nothing after its own newest frame.
  pub record Plays (base : ℕ) (start : World G) (l : Ledger E) (u : Updater G E) : Type 0 where
    pub world : ℕ → World G
    pub events : ℕ → EventBundle E
    pub consistent : IsConsistent ops world events u
    pub past : Past ops world events base u.global_frame
    pub base_in : base ≤ u.data_window.first
    pub starts : world base ≡ start
    pub holds : (q k : ℕ) → base < q → find k (entries (events q)) ≡ l q k
    pub spares : (q k : ℕ) → Spares u.params.id (l q k)
    pub member : find u.params.id start.engines ≢ none
    pub own : (q : ℕ) → u.local_frame < q → l q u.params.id ≡ none
    pub joined : u.skip_to_frame ≡ 0
    pub local_in : u.data_window.first ≤ u.local_frame
    pub local_before : u.local_frame ≤ u.global_frame

  -- No frame is dirty, and the window has moved as far as it can.
  pub record IsSettled {base : ℕ} {start : World G} {l : Ledger E} {u : Updater G E}
      (p : Plays base start l u) : Type 0 where
    pub clean : u.oldest_dirty_frame ≡ u.global_frame + 1
    pub stopped :
        (u.data_window.first ≡ u.global_frame)
        ⊎ (is_complete p.world p.events (suc u.data_window.first) ≡ false)

  -- what an outcome is, if it leaves an updater that plays on
  abbrev pub Continues : ℕ → World G → Ledger E → Updater G E → Outcome (Sent G E) → Type 0
  Continues base start l u o =
      (r : Sent G E) × (o ≡ ok r)
      × (p : Plays base start l r.0) × IsSettled p
      × (r.0.params ≡ u.params)

  module _ (base : ℕ) (start : World G) (l : Ledger E) (u : Updater G E)
      (p : Plays base start l u) where
    still_member :
        (n : ℕ) → base + n ≤ u.global_frame → find u.params.id (p.world (base + n)).engines ≢ none
    still_member zero h =
        subst (λ (q : ℕ). find u.params.id (p.world q).engines ≢ none) {x = base} (omega arith)
          (subst (λ (w : World G). find u.params.id w.engines ≢ none) (sym p.starts) p.member)
    still_member (suc n) h =
        let f = base + n in
        subst (λ (q : ℕ). find u.params.id (p.world q).engines ≢ none) {x = suc f} (omega arith)
          (subst (λ (w : World G). find u.params.id w.engines ≢ none)
            (sym (p.past.history.follows f (omega arith) (omega arith)))
            (next_world-member ops u.params.id (p.events (suc f)) (p.world f)
              (p.past.keyed (suc f) (omega arith))
              (λ k.
                subst (Spares u.params.id) (sym (p.holds (suc f) k (omega arith)))
                  (p.spares (suc f) k))
              (still_member n (omega arith))))

    -- A frame that is complete is not after the newest frame of the engine itself.
    own_complete :
        (f : ℕ)
        → base < f
        → f ≤ u.global_frame
        → is_complete p.world p.events f ≡ true
        → f ≤ u.local_frame
    own_complete f a b h = elim (dec_lt u.local_frame f) [
      | no q ↦ omega arith
      | yes q ↦ absurd (
          all_present-found u.params.id (p.world f).engines (p.events f) h
            (subst (λ (j : ℕ). find u.params.id (p.world j).engines ≢ none) (omega arith)
              (still_member (f - base) (omega arith)))
            (p.holds f u.params.id a ∙ p.own f q))
    ]

    -- What a request for a frame of the window is answered with.
    pub Plays-shown :
        (f : ℕ)
        → u.data_window.first ≤ f
        → f < u.oldest_dirty_frame
        → (d : FrameData G E) × (get u.data_window f ≡ ok d) × Shows d (p.world f)
    Plays-shown = shown ops p.world p.world p.events p.events u p.consistent

    -- `advance` after something has been stored
    pub advance-Plays :
        IsLawful ops
        → u.global_frame + length u.data_window.slots + 1 < 2 ^ 31
        → Continues base start l u (advance ops u)
    advance-Plays law room =
        let (r, run, c) = advance-Current ops p.world p.events law u p.consistent room in
        (
          r,
          run,
          record {
            world = p.world;
            events = p.events;
            consistent = c.consistent;
            past = subst (Past ops p.world p.events base) (sym c.same_last) p.past;
            base_in = omega (arith, p.base_in, c.passed);
            starts = p.starts;
            holds = p.holds;
            spares = λ q k. rw c.same_params (p.spares q k);
            member = rw c.same_params p.member;
            own = λ q h. rw c.same_params (p.own q (omega (arith, c.same_local)));
            joined = c.same_skip ∙ p.joined;
            local_in = elim (dec_lt u.data_window.first r.0.data_window.first) [
              | no q ↦ omega (arith, c.same_local, p.local_in)
              | yes q ↦
                  let before : r.0.data_window.first ≤ u.global_frame =
                    omega
                      (arith, c.consistent.dirty_after, c.consistent.dirty_before, c.same_last) in
                  omega (
                    arith,
                    c.same_local,
                    own_complete r.0.data_window.first (omega (arith, p.base_in)) before
                        (c.complete r.0.data_window.first q (omega arith)),
                  )
            ];
            local_before = omega (arith, c.same_local, c.same_last, p.local_before);
          },
          record { clean = c.clean; stopped = elim c.stopped [ inl e ↦ inl e | inr e ↦ inr e ] },
          c.same_params,
        )
