-- ===== src/Updater/Tracks/Rethink.antt =====
-- The loop of `advance` over the dirty frames makes every frame clean.
use pnf.Base.{
  ◌≡◌, refl, sym, ◌∙◌, ap, subst, ℕ, suc, ◌+◌, ◌-◌, ◌^◌, ◌≤◌, ◌<◌, ◌≢◌, some, length, arith,
  ==_refl, ne→==, if◌then◌else◌,
}
use native.Mathlib.Decide.{ℕ_discrete}
use mathlib.Core.Option.{some-injective}
use pnf.Base.Words.{add32_lem, sub32_lem}
use pnf.Base.Outcome.{ok}
use pnf.Base.GoMap.{entries}
use pnf.Base.Loop.{for_le, repeat-total}
use pnf.DataWindow.{DataWindow, get}
use pnf.DataWindow.Bounds.{IsValid}
use pnf.DataWindow.Slots.{peek, Inside, found, get-peek, Written, put-Written}
use pnf.Event.{EventBundle}
use pnf.Event.Keys.{IsKeyed}
use pnf.Game.{GameOps, IsLawful, FrameData}
use pnf.Updater.{Updater}
use pnf.Updater.Handle.{Window}
use pnf.Updater.Advance.{rethink, rethink_step, Rethinking}
use pnf.Updater.Replay.{World, Shows, next_world}
use pnf.Updater.Replay.Frame.{rethink_frame-Shows}
use pnf.Updater.Tracks.{HasGame, HasBundle, HasWorld, History, Tracks}

pub get-some :
    {A : Type 0} (w : DataWindow A) (f : ℕ) (d : A)
    → IsValid w
    → Inside w f
    → peek w f ≡ some d
    → get w f ≡ ok d
get-some w f d v h e = get-peek w f v (omega (arith, v.no_wrap)) ∙ ap found e

module _ {A : Type 0} {w u : DataWindow A} (f : ℕ) (v : A) (wr : Written w f v u) where
  pub peek_same : peek u f ≡ some v
  peek_same = wr.at f ∙ ap (λ b. if b then some v else peek w f) (==_refl f)

  pub peek_other : (q : ℕ) → f ≢ q → peek u q ≡ peek w q
  peek_other q h = wr.at q ∙ ap (λ b. if b then some v else peek w q) (ne→== f q h)

module _ {G E : Type 0} (ops : GameOps G E) (world : ℕ → World G) (events : ℕ → EventBundle E) where
  -- Rewriting the first dirty frame with its world makes it clean.
  Written-Tracks :
      (w u : Window G E) (last f : ℕ) (new : FrameData G E)
      → Tracks world events w last f
      → w.first < f
      → f ≤ last
      → Written w f new u
      → new.bundle ≡ events f
      → Shows new (world f)
      → Tracks world events u last (suc f)
  Written-Tracks w u last f new t a b wr same shows = record {
    valid = wr.valid;
    last_in = omega (arith, wr.same_first, wr.same_length, t.last_in);
    games = λ q h. elim (ℕ_discrete f q) [
      | yes e ↦ subst (HasGame u) e (new, peek_same f new wr, ((world f).game, shows.game_is))
      | no ne ↦
          let (d, e, g) = t.games q (omega (arith, wr.same_first, wr.same_length, h)) in
          (d, peek_other f new wr q ne ∙ e, g)
    ];
    bundles = λ q h k. elim (ℕ_discrete f q) [
      | yes e ↦ subst (λ j. HasBundle u j (events j)) e (new, peek_same f new wr, same)
      | no ne ↦
          let (d, e, g) = t.bundles q (omega (arith, wr.same_first)) k in
          (d, peek_other f new wr q ne ∙ e, g)
    ];
    worlds = λ q h k. elim (ℕ_discrete f q) [
      | yes e ↦ subst (λ j. HasWorld u j (world j)) e (new, peek_same f new wr, shows)
      | no ne ↦
          let (d, e, g) = t.worlds q (omega (arith, wr.same_first)) (omega arith) in
          (d, peek_other f new wr q ne ∙ e, g)
    ];
  }

  whole_slot :
      (w : Window G E) (last f : ℕ) {dirty : ℕ}
      → Tracks world events w last dirty
      → Inside w f
      → w.first < f
      → f ≤ last
      → (d : FrameData G E) × (peek w f ≡ some d)
        × ((g : G) × (d.game ≡ some g))
        × (d.bundle ≡ events f)
  whole_slot w last f t h a b =
      let (d, e, g) = t.games f h in
      let (c, k, same) = t.bundles f a b in
      (d, e, g, subst (λ x. x.bundle ≡ events f) (some-injective c d (sym k ∙ e)) same)

  world_at :
      (first last f : ℕ)
      → History ops world events first last
      → first < f
      → f ≤ last
      → world f ≡ next_world ops (events f) (world (f - 1))
  world_at first last f hist a b =
      subst (λ k. world k ≡ next_world ops (events k) (world (f - 1))) (omega arith)
        (hist.follows (f - 1) (omega arith) (omega arith))

  -- the loop's state before it comes to `frame`
  record Progress (first size last frame : ℕ) (s : Rethinking G E) : Type 0 where
    same_first : s.1.first ≡ first
    same_length : length s.1.slots ≡ size
    prev_shows : Shows s.0 (world (frame - 1))
    tracks : Tracks world events s.1 last frame

  module _ (law : IsLawful ops) where
    rethink_step-Progress :
        (first size last frame : ℕ) (s : Rethinking G E)
        → History ops world events first last
        → first < frame
        → frame ≤ last
        → Progress first size last frame s
        → (t : Rethinking G E) × (rethink_step ops frame s ≡ ok t)
          × Progress first size last (suc frame) t
    unfolding rethink_step
    rethink_step-Progress first size last frame (prev, w) hist a b p =
        let t = p.tracks in
        let in_window : Inside w frame = omega (arith, p.same_first, t.last_in) in
        let (d, e, (g, h), same) =
          whole_slot w last frame t in_window (omega (arith, p.same_first)) b in
        let (new, r, shows, kept) =
          rethink_frame-Shows ops law frame prev d (world (frame - 1)) g p.prev_shows
            (hist.unique (frame - 1) (omega arith) (omega arith)) h
            (subst (λ x. IsKeyed (entries x)) (sym same) (hist.keyed frame a b)) in
        let (u, q, wr) = put-Written w frame new t.valid in_window in
        let shown : Shows new (world frame) =
          subst (Shows new)
            (ap (λ x. next_world ops x (world (frame - 1))) same
              ∙ sym (world_at first last frame hist a b))
            shows in
        (
          (new, u),
          rw (get-some w frame d t.valid in_window e, r, q),
          record {
            same_first = wr.same_first ∙ p.same_first;
            same_length = wr.same_length ∙ p.same_length;
            prev_shows = subst (λ k. Shows new (world k)) (omega arith) shown;
            tracks =
                Written-Tracks w u last frame new t (omega (arith, p.same_first)) b wr (kept ∙ same)
                  shown;
          },
        )

    -- `advance` brings every frame up to date with the events, and keeps them.
    pub rethink-Tracks :
        (u : Updater G E)
        → Tracks world events u.data_window u.global_frame u.oldest_dirty_frame
        → History ops world events u.data_window.first u.global_frame
        → u.data_window.first < u.oldest_dirty_frame
        → u.oldest_dirty_frame ≤ u.global_frame + 1
        → (w : Window G E) × (rethink ops u
            ≡ ok (record u { data_window = w; oldest_dirty_frame = u.global_frame + 1 }))
          × Tracks world events w u.global_frame (u.global_frame + 1)
          × (w.first ≡ u.data_window.first)
          × (length w.slots ≡ length u.data_window.slots)
    unfolding rethink
    rethink-Tracks u t hist a b =
        let w = u.data_window in
        let first = w.first in
        let size = length w.slots in
        let dirty = u.oldest_dirty_frame in
        let last = u.global_frame in
        let bound : last + 1 < 2 ^ 31 = omega (arith, t.valid.no_wrap, t.last_in) in
        let (prev, e, shows) = t.worlds (dirty - 1) (omega arith) (omega arith) in
        let (done, r, p) =
          repeat-total (Progress first size last) (rethink_step ops) (last + 1 - dirty) dirty
            (prev, w)
            (λ j s h k q.
              rethink_step-Progress first size last j s hist (omega arith) (omega arith) q)
            (record { same_first = refl; same_length = refl; prev_shows = shows; tracks = t }) in
        (
          done.1,
          rw (
            sub32_lem dirty 1 (omega arith) (omega arith),
            get-some w (dirty - 1) prev t.valid (omega (arith, t.last_in)) e,
            for_le (rethink_step ops) dirty last (prev, w) b bound,
            r,
            add32_lem last 1 (omega arith),
          ),
          subst (Tracks world events done.1 last) (omega arith) p.tracks,
          p.same_first,
          p.same_length,
        )
