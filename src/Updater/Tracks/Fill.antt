-- ===== src/Updater/Tracks/Fill.antt =====
-- The loop that gives every slot of a new window a copy of the game.
use pnf.Base.{◌≡◌, refl, sym, ◌∙◌, ap, subst, ℕ, suc, ◌+◌, ◌-◌, ◌≤◌, ◌<◌, some, length, arith}
use mathlib.Core.Path.{ap₂}
use mathlib.Core.Option.{some-injective}
use native.Mathlib.Decide.{ℕ_discrete}
use pnf.Base.Words.{lt32}
use pnf.Base.Outcome.{ok}
use pnf.Base.Loop.{for_frames, for_lt, repeat-total}
use pnf.DataWindow.{start, end}
use pnf.DataWindow.Bounds.{IsValid, end_lem}
use pnf.DataWindow.Slots.{peek, Inside, put-Written, peek-some}
use pnf.Game.{GameOps, IsLawful, FrameData}
use pnf.Updater.Handle.{Window}
use pnf.Updater.Routine.{copy_game, fill_frame, fill}
use pnf.Updater.Tracks.{HasGame}
use pnf.Updater.Tracks.Rethink.{get-some, peek_same, peek_other}

module _ {G E : Type 0} (ops : GameOps G E) (law : IsLawful ops) (g : G)
    (Kept : FrameData G E → Type 0)
    (keep : (d : FrameData G E) → Kept d → Kept (record d { game = some g })) (first size : ℕ) where
  -- The window while its slots are filled, those before `next` already. What is kept of the first
  -- slot is what does not depend on its game.
  pub record Filling (next : ℕ) (w : Window G E) : Type 0 where
    pub valid : IsValid w
    pub same_first : w.first ≡ first
    pub same_length : length w.slots ≡ size
    pub shows : (d : FrameData G E) × (peek w first ≡ some d) × Kept d
    pub games : (f : ℕ) → first ≤ f → f < next → HasGame w f

  fill_frame-Filling :
      (f : ℕ) (w : Window G E)
      → first ≤ f
      → f < first + size
      → Filling f w
      → (u : Window G E) × (fill_frame ops (some g) f w ≡ ok u) × Filling (suc f) u
  unfolding fill_frame copy_game
  fill_frame-Filling f w a b h =
      let in_window : Inside w f = omega (arith, h.same_first, h.same_length) in
      let (d, e) = peek-some w f h.valid in_window in
      let new : FrameData G E = record d { game = some g } in
      let (u, run, wr) = put-Written w f new h.valid in_window in
      (
        u,
        rw (get-some w f d h.valid in_window e, law.copy_lem g, run),
        record {
          valid = wr.valid;
          same_first = wr.same_first ∙ h.same_first;
          same_length = wr.same_length ∙ h.same_length;
          shows =
              let (c, k, s) = h.shows in
              elim (ℕ_discrete f first) [
                | yes p ↦
                    let same : c ≡ d = some-injective c d (sym k ∙ ap (peek w) (sym p) ∙ e) in
                    (
                      new,
                      subst (λ q. peek u q ≡ some new) p (peek_same f new wr),
                      subst (λ x. Kept (record x { game = some g })) same (keep c s),
                    )
                | no ne ↦ (c, peek_other f new wr first ne ∙ k, s)
              ];
          games = λ q x y. elim (ℕ_discrete f q) [
            | yes p ↦ subst (HasGame u) p (new, peek_same f new wr, (g, refl))
            | no ne ↦
                let (c, k, has) = h.games q x (omega arith) in
                (c, peek_other f new wr q ne ∙ k, has)
          ];
        },
      )

  pub fill-Filling :
      (w : Window G E)
      → 0 < size
      → Filling first w
      → (u : Window G E) × (fill ops (some g) w ≡ ok u) × Filling (first + size) u
  unfolding fill start
  fill-Filling w a h =
      let stop : end w ≡ first + size =
        end_lem w h.valid ∙ omega (arith, h.same_first, h.same_length) in
      let (u, run, filled) =
        repeat-total Filling (fill_frame ops (some g)) (first + size - first) first w
          (λ j s x y p. fill_frame-Filling j s x (omega arith) p) h in
      (
        u,
        ap₂ (λ e f. for_frames (λ i. lt32 i e) (fill_frame ops (some g)) f w) stop h.same_first
            ∙ for_lt (fill_frame ops (some g)) first (first + size) w (omega arith)
                (omega (arith, h.valid.no_wrap, h.same_first, h.same_length))
            ∙ run,
        subst (λ k. Filling k u) (omega arith) filled,
      )
