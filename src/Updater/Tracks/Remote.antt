-- ===== src/Updater/Tracks/Remote.antt =====
-- Storing a bundle that is new keeps the updater consistent.
use pnf.Base.{
  ◌⊎◌, inl, inr, ◌≡◌, refl, sym, ◌∙◌, ap, subst, ℕ, ◌+◌, ◌^◌, ◌≤◌, ◌<◌, ◌==◌, some, List, [], ◌∷◌,
  length, arith, Bool-cases, lt→ltb, le→ltb, ==_refl, ne→==,
}
use native.Mathlib.Decide.{ℕ_discrete, dec_lt}
use pnf.Base.Words.{add32, lt32_lem, minus_one32}
use pnf.Base.Outcome.{ok}
use pnf.Base.GoMap.{entries}
use pnf.DataWindow.Slots.{Inside}
use pnf.Event.{EventBundle, AllEvents, FrameBundle, each_engine}
use pnf.Event.Keys.{IsKeyed}
use pnf.Event.Visits.{run, in_order, each-in_order}
use pnf.Event.Absorb.{AreDisjoint, Merged, absorb-Merged}
use pnf.Game.{GameOps}
use pnf.Updater.{Updater}
use pnf.Updater.Handle.{Window, init_frames, absorb_at, next_skip, find_join, min32, max32}
use pnf.Updater.Replay.{World}
use pnf.Updater.Tracks.{Tracks, IsConsistent}
use pnf.Updater.Tracks.Store.{init_frames-Grown, init_frames_none}
use pnf.Updater.Tracks.Rewrite.{
  rewritten, rewritten_before, rewritten-History, with_events, absorb_at-Tracks,
}

pub max32_cases :
    (a b : ℕ) → a < 2 ^ 31 → b < 2 ^ 31 → ((a < b) × (max32 a b ≡ b)) ⊎ ((b ≤ a) × (max32 a b ≡ a))
max32_cases a b h k = elim (dec_lt a b) [
  | yes p ↦ inl (p, rw (lt32_lem a b h k, lt→ltb a b p))
  | no p ↦ inr (omega arith, rw (lt32_lem a b h k, le→ltb a b (omega arith)))
]

pub le-max32 : (a b : ℕ) → a < 2 ^ 31 → b < 2 ^ 31 → (a ≤ max32 a b) × (b ≤ max32 a b)
le-max32 a b h k = elim (max32_cases a b h k) [
  | inl (p, e) ↦ rw e (omega arith)
  | inr (p, e) ↦ rw e (omega arith)
]

pub min32_cases :
    (a b : ℕ) → a < 2 ^ 31 → b < 2 ^ 31 → ((a < b) × (min32 a b ≡ a)) ⊎ ((b ≤ a) × (min32 a b ≡ b))
min32_cases a b h k = elim (dec_lt a b) [
  | yes p ↦ inl (p, rw (lt32_lem a b h k, lt→ltb a b p))
  | no p ↦ inr (omega arith, rw (lt32_lem a b h k, le→ltb a b (omega arith)))
]

run_returns :
    {E S : Type 0} (f : ℕ → AllEvents E → S → S) (es : List (ℕ × AllEvents E)) (s : S)
    → (t : S) × (run (λ k a x. ok (f k a x)) es s ≡ ok t)
unfolding run
run_returns f [] s = (s, refl)
run_returns f ((k, a) ∷ es) s = run_returns f es (f k a s)

module _ {G E : Type 0} where
  pub next_skip_returns :
      (u : Updater G E) (b : FrameBundle E)
      → IsKeyed (entries b.bundle)
      → (skip : ℕ) × (next_skip u b ≡ ok skip)
  unfolding next_skip each_engine
  next_skip_returns u b v = elim (Bool-cases (u.skip_to_frame == minus_one32)) [
    | inr e ↦ (u.skip_to_frame, rw e)
    | inl e ↦
        let visit : ℕ → AllEvents E → ℕ → ℕ =
          λ id all skip. find_join u.params.id b.frame all.engine skip in
        let (t, r) = run_returns visit (in_order b.bundle) u.skip_to_frame in
        (t, rw e (each-in_order b.bundle b.frame (λ k a x. ok (visit k a x)) u.skip_to_frame v ∙ r))
  ]

module _ {G E : Type 0} (ops : GameOps G E) (world : ℕ → World G) (events : ℕ → EventBundle E)
    (u : Updater G E) (c : IsConsistent ops world events u) where
  -- the window after the frames up to `f` have been made
  pub record Ready (f last : ℕ) (w : Window G E) : Type 0 where
    pub made : init_frames (add32 u.global_frame 1) f u.data_window ≡ ok w
    pub tracks : Tracks world events w last u.oldest_dirty_frame
    pub same_first : w.first ≡ u.data_window.first
    pub same_length : length w.slots ≡ length u.data_window.slots
    pub reaches : (f ≤ last) × (u.global_frame ≤ last)

  pub make_Ready :
      (f : ℕ) → Inside u.data_window f → (w : Window G E) × Ready f (max32 u.global_frame f) w
  make_Ready f h =
      let t = c.tracks in
      let last = u.global_frame in
      elim (max32_cases last f (omega (arith, t.last_in, t.valid.no_wrap))
        (omega (arith, t.valid.no_wrap))) [
          | inl (p, e) ↦
              let (w, r, g) =
                init_frames-Grown world events u.data_window last u.oldest_dirty_frame f t
                  c.dirty_after c.dirty_before c.future h (omega arith) in
              subst (λ l. (w : Window G E) × Ready f l w) (sym e)
                (
                  w,
                  record {
                    made = r;
                    tracks = g.tracks;
                    same_first = g.same_first;
                    same_length = g.same_length;
                    reaches = omega arith;
                  },
                )
          | inr (p, e) ↦
              subst (λ l. (w : Window G E) × Ready f l w) (sym e)
                (
                  u.data_window,
                  record {
                    made =
                        init_frames_none world events u.data_window last f p
                          (omega (arith, t.last_in, t.valid.no_wrap));
                    tracks = t;
                    same_first = refl;
                    same_length = refl;
                    reaches = omega arith;
                  },
                )
        ]

  module _ (f : ℕ) (bundle : EventBundle E) (es : List (ℕ × AllEvents E)) where
    abbrev pub new_dirty : ℕ
    new_dirty = min32 f u.oldest_dirty_frame

    abbrev pub new_events : List (ℕ × AllEvents E) → ℕ → EventBundle E
    new_events merged = with_events events f (some merged)

    abbrev pub new_world : List (ℕ × AllEvents E) → ℕ → World G
    new_world merged = rewritten ops world (new_events merged) new_dirty

    -- What storing `bundle` at frame `f` leaves behind, in a window that has the frame: the events
    -- of that frame are merged, the worlds from the first dirty frame on are those that the events
    -- now call for, and all else is as it was.
    pub record Stored (merged : List (ℕ × AllEvents E)) (v : Updater G E) : Type 0 where
      pub at_frame : Merged es (entries bundle) merged
      pub consistent : IsConsistent ops (new_world merged) (new_events merged) v
      pub same_first : v.data_window.first ≡ u.data_window.first
      pub same_length : length v.data_window.slots ≡ length u.data_window.slots
      pub new_last : v.global_frame ≡ max32 u.global_frame f
      pub first_dirty : v.oldest_dirty_frame ≡ new_dirty

    pub new_dirty_bounds :
        u.data_window.first < f
        → f < u.data_window.first + length u.data_window.slots
        → (u.data_window.first < new_dirty)
          × (new_dirty ≤ f)
          × (new_dirty ≤ u.oldest_dirty_frame)
          × (new_dirty ≤ u.global_frame + 1)
    new_dirty_bounds a b =
        let t = c.tracks in
        elim (min32_cases f u.oldest_dirty_frame (omega (arith, t.valid.no_wrap))
          (omega (arith, c.dirty_before, t.last_in, t.valid.no_wrap))) [
            | inl (p, e) ↦ rw e (omega (arith, c.dirty_before, c.dirty_after))
            | inr (p, e) ↦ rw e (omega (arith, c.dirty_before, c.dirty_after))
          ]

    made_with :
        (merged : List (ℕ × AllEvents E))
        → IsKeyed merged
        → (q : ℕ) → u.data_window.first < q
        → (fs : List (ℕ × AllEvents E)) × (new_events merged q ≡ some fs) × IsKeyed fs
    made_with merged k q h = elim (ℕ_discrete f q) [
      | yes p ↦ (
        merged,
        subst (λ j. with_events events f (some merged) j ≡ some merged) p (rw (==_refl f)),
        k,
      )
      | no ne ↦ let (fs, e, k') = c.made q h in (fs, rw (ne→== f q ne) e, k')
    ]

    new_consistent :
        (merged : List (ℕ × AllEvents E)) (w : Window G E)
        → Ready f (max32 u.global_frame f) w
        → (v : Updater G E) → v.global_frame ≡ max32 u.global_frame f
        → v.oldest_dirty_frame ≡ new_dirty
        → u.data_window.first < f
        → f < u.data_window.first + length u.data_window.slots
        → IsKeyed merged
        → Tracks
            (new_world merged)
            (new_events merged)
            v.data_window
            v.global_frame
            v.oldest_dirty_frame
        → v.data_window.first ≡ u.data_window.first
        → IsConsistent ops (new_world merged) (new_events merged) v
    new_consistent merged w r v e' e'' a b keyed tracks p =
        let low = new_dirty_bounds a b in
        record {
          tracks = tracks;
          history = rw p (
              rewritten-History ops world (new_events merged) new_dirty u.data_window.first
                v.global_frame c.history
                (λ q h. sym (rw (ne→== f q (λ x. absurd (omega (arith, low)))))) low.0 low.3
                (λ q h k.
                  let (fs, e, k') = made_with merged keyed q h in
                  subst (λ x. IsKeyed (entries x)) (sym e) k'));
          dirty_after = omega (arith, p, e'', low);
          dirty_before = omega (arith, e', e'', r.reaches, low);
          made = λ q h. made_with merged keyed q (omega (arith, p));
          future = λ q h.
              rw (ne→== f q (λ x. absurd (omega (arith, e', r.reaches))))
                (c.future q (omega (arith, e', r.reaches)));
        }

    pub absorb-Stored :
        u.data_window.first < f
        → f < u.data_window.first + length u.data_window.slots
        → events f ≡ some es
        → IsKeyed es
        → IsKeyed (entries bundle)
        → AreDisjoint es (entries bundle)
        → (w : Window G E) × (w' : Window G E) × (merged : List (ℕ × AllEvents E)) × (init_frames
              (add32 u.global_frame 1)
              f
              u.data_window
            ≡ ok w)
          × (absorb_at f bundle w ≡ ok w')
          × ((v : Updater G E)
              → v.data_window ≡ w'
              → v.global_frame ≡ max32 u.global_frame f
              → v.oldest_dirty_frame ≡ new_dirty
              → Stored merged v)
    absorb-Stored a b made keyed keyed' apart =
        let t = c.tracks in
        let (w, r) = make_Ready f (omega arith) in
        let (merged, m, mg) = absorb-Merged es bundle keyed keyed' apart in
        let low = new_dirty_bounds a b in
        let (w', run, tracks', p, q) =
          absorb_at-Tracks world (new_world merged) events w (max32 u.global_frame f)
            u.oldest_dirty_frame new_dirty f bundle (some merged) r.tracks
            (omega (arith, r.same_first)) r.reaches.0 low.2 low.1
            (rewritten_before ops world (new_events merged) new_dirty) (rw made m) in
        (
          w,
          w',
          merged,
          r.made,
          run,
          λ v e e' e''. record {
            at_frame = mg;
            consistent =
                new_consistent merged w r v e' e'' a b mg.keyed
                  (subst
                    (λ x.
                      Tracks (new_world merged) (new_events merged) x v.global_frame
                        v.oldest_dirty_frame)
                    (sym e) (rw (e', e'') tracks'))
                  (ap (λ x. x.first) e ∙ p ∙ r.same_first);
            same_first = ap (λ x. x.first) e ∙ p ∙ r.same_first;
            same_length = ap (λ x. length x.slots) e ∙ q ∙ r.same_length;
            new_last = e';
            first_dirty = e'';
          },
        )
