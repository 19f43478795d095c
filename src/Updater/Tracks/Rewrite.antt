-- ===== src/Updater/Tracks/Rewrite.antt =====
-- The history after the events of one frame have changed: the worlds from there on are computed again.
use pnf.Base.{
  ◌≡◌, sym, ◌∙◌, ap, subst, ℕ, zero, suc, ◌+◌, ◌-◌, ◌≤◌, ◌<◌, some, length, arith, ltb, lt→ltb,
  le→ltb, if◌then◌else◌, ◌==◌, ==_refl, ne→==,
}
use mathlib.Core.Path.{ap₂}
use mathlib.Core.Option.{some-injective}
use native.Mathlib.Decide.{ℕ_discrete, dec_lt}
use pnf.Base.Outcome.{ok}
use pnf.Base.GoMap.{entries}
use pnf.DataWindow.Slots.{Inside, put-Written}
use pnf.Event.{EventBundle, absorb_event_bundle}
use pnf.Event.Keys.{IsKeyed}
use pnf.Game.{GameOps, FrameData}
use pnf.Updater.Handle.{Window, absorb_at}
use pnf.Updater.Replay.{World, Shows, next_world}
use pnf.Updater.Replay.Frame.{IsUnique, next_world-IsUnique}
use pnf.Updater.Tracks.{HasGame, HasBundle, History, Tracks}
use pnf.Updater.Tracks.Rethink.{get-some, peek_same, peek_other}

module _ {G E : Type 0} (ops : GameOps G E) (world : ℕ → World G) (events : ℕ → EventBundle E)
    (f : ℕ) where
  later : ℕ → World G
  later zero = next_world ops (events f) (world (f - 1))
  later (suc n) = next_world ops (events (f + suc n)) (later n)

  -- the worlds before `f`, and those from `f` on as the events call for
  pub rewritten : ℕ → World G
  rewritten q = if ltb q f then world q else later (q - f)

  pub rewritten_before : (q : ℕ) → q < f → rewritten q ≡ world q
  unfolding rewritten
  rewritten_before q h = rw (lt→ltb q f h)

  rewritten_from : (q : ℕ) → f ≤ q → rewritten q ≡ later (q - f)
  unfolding rewritten
  rewritten_from q h = rw (le→ltb q f h)

  later-IsUnique : (n : ℕ) → IsUnique (world (f - 1)).engines → IsUnique (later n).engines
  unfolding later
  later-IsUnique zero u = next_world-IsUnique ops (events f) (world (f - 1)) u
  later-IsUnique (suc n) u =
      next_world-IsUnique ops (events (f + suc n)) (later n) (later-IsUnique n u)

  later_first : (m : ℕ) → m ≡ 0 → later m ≡ next_world ops (events f) (world (f - 1))
  unfolding later
  later_first m e = rw e

  later_step : (m n : ℕ) → m ≡ suc n → later m ≡ next_world ops (events (f + suc n)) (later n)
  unfolding later
  later_step m n e = rw e

  rewritten_follows :
      (first q : ℕ)
      → ((j : ℕ)
          → first ≤ j
          → suc j < f
          → world (suc j) ≡ next_world ops (events (suc j)) (world j))
      → first ≤ q
      → first < f
      → rewritten (suc q) ≡ next_world ops (events (suc q)) (rewritten q)
  unfolding later
  rewritten_follows first q old a b = elim (dec_lt (suc q) f) [
    | yes p ↦
        rewritten_before (suc q) p
        ∙ old q a p
        ∙ ap (next_world ops (events (suc q))) (sym (rewritten_before q (omega arith)))
    | no p ↦ elim (dec_lt q f) [
      | yes r ↦
          rewritten_from (suc q) (omega arith)
          ∙ later_first (suc q - f) (omega arith)
          ∙ ap₂ (λ k w. next_world ops (events k) w) (omega arith)
              (ap world {y = q} (omega arith) ∙ sym (rewritten_before q r))
      | no r ↦
          rewritten_from (suc q) (omega arith)
          ∙ later_step (suc q - f) (q - f) (omega arith)
          ∙ ap₂ (λ k w. next_world ops (events k) w) (omega arith)
              (sym (rewritten_from q (omega arith)))
    ]
  ]

  pub rewritten-History :
      {before : ℕ → EventBundle E} {last : ℕ} (first last' : ℕ)
      → History ops world before first last
      → ((q : ℕ) → q < f → before q ≡ events q)
      → first < f
      → f ≤ last + 1
      → ((q : ℕ) → first < q → q ≤ last' → IsKeyed (entries (events q)))
      → History ops rewritten events first last'
  rewritten-History first last' hist same a b keyed = record {
    follows = λ q h k.
        rewritten_follows first q
          (λ j x y.
            hist.follows j x (omega arith) ∙ ap (λ e. next_world ops e (world j)) (same (suc j) y))
          h a;
    keyed = keyed;
    unique = λ q h k. elim (dec_lt q f) [
      | yes p ↦ rw (rewritten_before q p) (hist.unique q h (omega arith))
      | no p ↦
          rw (rewritten_from q (omega arith))
            (later-IsUnique (q - f) (hist.unique (f - 1) (omega arith) (omega arith)))
    ];
  }

-- the events with those of one frame replaced
abbrev pub with_events : {E : Type 0} → (ℕ → EventBundle E) → ℕ → EventBundle E → ℕ → EventBundle E
with_events events f bundle q = if f == q then bundle else events q

module _ {G E : Type 0} (world world' : ℕ → World G) (events : ℕ → EventBundle E) where
  -- Absorbing a bundle into a frame changes the events of that frame only, and makes the frames
  -- from there on dirty.
  pub absorb_at-Tracks :
      (w : Window G E) (last dirty dirty' f : ℕ) (bundle merged : EventBundle E)
      → Tracks world events w last dirty
      → w.first < f
      → f ≤ last
      → dirty' ≤ dirty
      → dirty' ≤ f
      → ((q : ℕ) → q < dirty' → world' q ≡ world q)
      → absorb_event_bundle (events f) bundle ≡ ok merged
      → (u : Window G E) × (absorb_at f bundle w ≡ ok u)
        × Tracks world' (with_events events f merged) u last dirty'
        × (u.first ≡ w.first)
        × (length u.slots ≡ length w.slots)
  unfolding absorb_at
  absorb_at-Tracks w last dirty dirty' f bundle merged t a b c c' keep m =
      let in_window : Inside w f = omega (arith, t.last_in) in
      let (d, e, same) = t.bundles f a b in
      let (d', e', g) = t.games f in_window in
      let new : FrameData G E = record d { bundle = merged } in
      let (u, run, wr) = put-Written w f new t.valid in_window in
      let game : (g : G) × (d.game ≡ some g) =
        subst (λ x. (g : G) × (x.game ≡ some g)) (some-injective d' d (sym e' ∙ e)) g in
      (
        u,
        rw (get-some w f d t.valid in_window e, same, m, run),
        record {
          valid = wr.valid;
          last_in = omega (arith, wr.same_first, wr.same_length, t.last_in);
          games = λ q h. elim (ℕ_discrete f q) [
            | yes p ↦ subst (HasGame u) p (new, peek_same f new wr, game)
            | no ne ↦
                let (x, p, y) = t.games q (omega (arith, wr.same_first, wr.same_length, h)) in
                (x, peek_other f new wr q ne ∙ p, y)
          ];
          bundles = λ q h k. elim (ℕ_discrete f q) [
            | yes p ↦
                subst (λ j. HasBundle u j (with_events events f merged j)) p
                  (new, peek_same f new wr, rw (==_refl f))
            | no ne ↦
                let (x, p, y) = t.bundles q (omega (arith, wr.same_first)) k in
                (x, peek_other f new wr q ne ∙ p, rw (ne→== f q ne) y)
          ];
          worlds = λ q h k.
              let (x, p, y) = t.worlds q (omega (arith, wr.same_first)) (omega arith) in
              (
                x,
                peek_other f new wr q (λ z. absurd (omega arith)) ∙ p,
                subst (Shows x) (sym (keep q k)) y,
              );
        },
        wr.same_first,
        wr.same_length,
      )
