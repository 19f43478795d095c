-- ===== src/Updater/Tracks/Store.antt =====
-- What storing a bundle does to a consistent updater.
use pnf.Base.{
  ◌≡◌, refl, sym, ◌∙◌, ap, subst, ℕ, zero, suc, ◌+◌, ◌-◌, ◌^◌, ◌≤◌, ◌<◌, ◌≢◌, false, not, some, [],
  length, arith, lt→ltb, le→ltb,
}
use native.Mathlib.Decide.{ℕ_discrete}
use pnf.Base.Words.{add32, add32_lem, sub32, sub32_lem, lt32, lt32_lem, le32}
use pnf.Base.Outcome.{ok}
use pnf.Base.Loop.{for_frames_stop, for_le, repeat-total}
use pnf.DataWindow.{start}
use pnf.DataWindow.Slots.{Inside, Written, put-Written, peek-some}
use pnf.Engine
use pnf.Event.{EventBundle}
use pnf.Game.{FrameData}
use pnf.Updater.Handle.{Window, init_frame_data, init_frames}
use pnf.Updater.Replay.{World}
use pnf.Updater.Tracks.{HasGame, HasBundle, Tracks}
use pnf.Updater.Tracks.Rethink.{get-some, peek_same, peek_other}

module _ {G E : Type 0} (world : ℕ → World G) (events : ℕ → EventBundle E) where
  -- Writing a slot that is not clean keeps the rest of the window.
  Written-Tracks :
      (w u : Window G E) (last last' f dirty : ℕ) (new : FrameData G E)
      → Tracks world events w last dirty
      → Written w f new u
      → ((q : ℕ) → w.first < q → q ≤ last' → q ≢ f → q ≤ last)
      → w.first ≤ last'
      → last' < w.first + length w.slots
      → dirty ≤ f
      → ((g : G) × (new.game ≡ some g))
      → new.bundle ≡ events f
      → Tracks world events u last' dirty
  Written-Tracks w u last last' f dirty new t wr grow a b c game same = record {
    valid = wr.valid;
    last_in = omega (arith, wr.same_first, wr.same_length);
    games = λ q h. elim (ℕ_discrete f q) [
      | yes e ↦ subst (HasGame u) e (new, peek_same f new wr, game)
      | no ne ↦
          let (d, e, g) = t.games q (omega (arith, wr.same_first, wr.same_length, h)) in
          (d, peek_other f new wr q ne ∙ e, g)
    ];
    bundles = λ q h k. elim (ℕ_discrete f q) [
      | yes e ↦ subst (λ j. HasBundle u j (events j)) e (new, peek_same f new wr, same)
      | no ne ↦
          let (d, e, g) =
            t.bundles q (omega (arith, wr.same_first))
              (grow q (omega (arith, wr.same_first)) k (λ x. ne (sym x))) in
          (d, peek_other f new wr q ne ∙ e, g)
    ];
    worlds = λ q h k.
        let (d, e, g) = t.worlds q (omega (arith, wr.same_first)) k in
        (d, peek_other f new wr q (λ x. absurd (omega arith)) ∙ e, g);
  }

  init_frame-Tracks :
      (w : Window G E) (first size last dirty : ℕ)
      → w.first ≡ first
      → length w.slots ≡ size
      → Tracks world events w last dirty
      → first < dirty
      → dirty ≤ last + 1
      → events (suc last) ≡ some []
      → suc last < first + size
      → (u : Window G E) × (init_frame_data (suc last) w ≡ ok u)
        × Tracks world events u (suc last) dirty
        × (u.first ≡ first)
        × (length u.slots ≡ size)
  unfolding init_frame_data start
  init_frame-Tracks w first size last dirty p q t a b made h =
      let f = suc last in
      let (prev, e) = peek-some w last t.valid t.last_in in
      let (d, k, game) = t.games f (omega (arith, t.last_in)) in
      let new : FrameData G E = record d { bundle = some []; info = Engine.copy prev.info } in
      let (u, run, wr) = put-Written w f new t.valid (omega (arith, t.last_in)) in
      let back : sub32 f 1 ≡ last =
        sub32_lem f 1 (omega arith) (omega (arith, t.valid.no_wrap)) ∙ omega arith in
      let go : lt32 last w.first ≡ false =
        lt32_lem last w.first (omega (arith, t.last_in, t.valid.no_wrap))
          (omega (arith, t.valid.no_wrap))
        ∙ le→ltb last w.first t.last_in.0 in
      (
        u,
        rw (
          back,
          go,
          get-some w last prev t.valid t.last_in e,
          get-some w f d t.valid (omega (arith, t.last_in)) k,
          run,
        ),
        Written-Tracks w u last f f dirty new t wr (λ j x y z. omega arith)
            (omega (arith, t.last_in)) (omega arith) (omega arith) game (sym made),
        wr.same_first ∙ p,
        wr.same_length ∙ q,
      )

  -- What `init_frames` leaves behind: every frame up to `last'` is there.
  pub record Grown (first size dirty last' : ℕ) (w : Window G E) : Type 0 where
    pub tracks : Tracks world events w last' dirty
    pub same_first : w.first ≡ first
    pub same_length : length w.slots ≡ size

  init_frame-Grown :
      (first size dirty j : ℕ) (w : Window G E)
      → Grown first size dirty (j - 1) w
      → first < dirty
      → dirty ≤ j
      → events j ≡ some []
      → j < first + size
      → (u : Window G E) × (init_frame_data j w ≡ ok u) × Grown first size dirty j u
  init_frame-Grown first size dirty zero w g a b made h = absurd (omega arith)
  init_frame-Grown first size dirty (suc l) w g a b made h =
      let before : suc l - 1 ≡ l = omega arith in
      let (u, run, t, p, q) =
        init_frame-Tracks w first size l dirty g.same_first g.same_length
          (subst (λ k. Tracks world events w k dirty) before g.tracks) a (omega arith) made h in
      (u, run, record { tracks = t; same_first = p; same_length = q })

  pub init_frames-Grown :
      (w : Window G E) (last dirty f : ℕ)
      → Tracks world events w last dirty
      → w.first < dirty
      → dirty ≤ last + 1
      → ((q : ℕ) → last < q → events q ≡ some [])
      → Inside w f
      → last ≤ f
      → (u : Window G E) × (init_frames (add32 last 1) f w ≡ ok u)
        × Grown w.first (length w.slots) dirty f u
  unfolding init_frames
  init_frames-Grown w last dirty f t a b made h k =
      let first = w.first in
      let size = length w.slots in
      let start_at : last + 1 - 1 ≡ last = omega arith in
      let (u, run, g) =
        repeat-total (λ j s. Grown first size dirty (j - 1) s) init_frame_data (f + 1 - (last + 1))
          (last + 1) w
          (λ j s x y g.
            let (v, r, g') =
              init_frame-Grown first size dirty j s g a (omega arith) (made j (omega arith))
                (omega arith) in
            (v, r, subst (λ i. Grown first size dirty i v) (omega arith) g'))
          (record {
            tracks = subst (λ i. Tracks world events w i dirty) (sym start_at) t;
            same_first = refl;
            same_length = refl;
          }) in
      (
        u,
        rw (add32_lem last 1 (omega (arith, t.last_in, t.valid.no_wrap))) (
            for_le init_frame_data (last + 1) f w (omega arith) (omega (arith, t.valid.no_wrap))
            ∙ run),
        subst (λ i. Grown first size dirty i u) (omega arith) g,
      )

  -- No frame is new.
  pub init_frames_none :
      (w : Window G E) (last f : ℕ)
      → f ≤ last
      → last + 1 < 2 ^ 31
      → init_frames (add32 last 1) f w ≡ ok w
  unfolding init_frames
  init_frames_none w last f h b = rw (add32_lem last 1 (omega arith)) (
      for_frames_stop (λ i. le32 i f) init_frame_data (last + 1) w
        (ap not
          (lt32_lem f (last + 1) (omega arith) (omega arith) ∙ lt→ltb f (last + 1) (omega arith))))
