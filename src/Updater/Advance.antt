-- ===== src/Updater/Advance.antt =====
-- `Updater.advance`: rethink every dirty frame from the one before it, then move the window on as
-- long as its second frame is complete.
use pnf.Base.{
  ℕ, zero, suc, ◌+◌, ◌^◌, Bool, true, false, ◌&&◌, none, some, List, [], ◌∷◌, ◌++◌, if◌then◌else◌,
}
use pnf.Base.Words.{lt32, le32, add32, sub32}
use pnf.Base.Outcome.{Outcome, ok, diverges, nil_pointer, or_panic, ◌>>=◌}
use pnf.Base.GoMap.{GoMap, entries, has}
use pnf.Base.Loop.{for_frames}
use pnf.DataWindow.{DataWindow, get, put, start, advance as advance_window}
use pnf.Engine
use pnf.Engine.{EngineEvent, EngineInfo}
use pnf.Event.{EventBundle, each_game, each_engine}
use pnf.Game.{GameOps, FrameData}
use pnf.Updater.{Updater, Message, bootstrap}
use pnf.Updater.Requests.{fulfil_final_requests}

-- `for _, event := range events { event.Apply(&data.Info) }`
unfoldable pub apply_engine_events : List EngineEvent → EngineInfo → Outcome EngineInfo
apply_engine_events [] info = ok info
apply_engine_events (e ∷ es) info = Engine.apply e info >>= λ i. apply_engine_events es i

-- The loop over `prev_info.Engines`; it does not stop at the first engine that is missing.
unfoldable pub all_present : {E : Type 0} → List (ℕ × Bool) → EventBundle E → Bool
all_present [] bundle = true
all_present ((id, _) ∷ es) bundle = has id bundle && all_present es bundle

abbrev pub is_nil {ℓ} : {V : Type ℓ} → GoMap V → Bool
is_nil none = true
is_nil (some es) = false

-- the slot of the last frame that was rethought, and the window
abbrev pub Rethinking : Type 0 → Type 0 → Type 0
Rethinking G E = FrameData G E × DataWindow (FrameData G E)

module _ {G E : Type 0} (ops : GameOps G E) where
  open ops use {overwrite, think, apply}

  -- `for _, event := range events { event.Apply(data.Game) }`
  unfoldable pub apply_events : List E → G → G
  apply_events [] g = g
  apply_events (e ∷ es) g = apply_events es (apply e g)

  -- the callback of `data.Bundle.Each`: an engine that does not take part is passed over
  abbrev pub game_events : EngineInfo → ℕ → List E → G → Outcome G
  game_events info id events g = if has id info.engines then ok (apply_events events g) else ok g

  abbrev pub think_unless_nil : EngineInfo → G → G
  think_unless_nil info g = if is_nil info.engines then g else think g

  -- The body of the loop over the dirty frames, but for `Get` and `Set`. A game is overwritten
  -- before the events are applied, and a nil game panics.
  unfoldable pub rethink_frame : ℕ → FrameData G E → FrameData G E → Outcome (FrameData G E)
  rethink_frame frame prev data' = do
    old ← or_panic nil_pointer data'.game
    prev_game ← or_panic nil_pointer prev.game
    info ← each_engine data'.bundle frame (λ id. apply_engine_events) (Engine.copy prev.info)
    game ← each_game data'.bundle frame (game_events info) (overwrite old prev_game)
    ok (record data' { info = info; game = some (think_unless_nil info game) })

  unfoldable pub rethink_step : ℕ → Rethinking G E → Outcome (Rethinking G E)
  rethink_step frame (prev, w) = do
    old ← get w frame
    new ← rethink_frame frame prev old
    w' ← put w frame new
    ok (new, w')

  unfoldable pub rethink : Updater G E → Outcome (Updater G E)
  rethink u = do
    prev ← get u.data_window (sub32 u.oldest_dirty_frame 1)
    done ←
        for_frames (λ frame. le32 frame u.global_frame) rethink_step u.oldest_dirty_frame
          (prev, u.data_window)
    ok (record u { data_window = done.1; oldest_dirty_frame = add32 u.global_frame 1 })

module _ {G E : Type 0} where
  abbrev pub bootstrap_message : Bool → ℕ → FrameData G E → List (Message G E)
  bootstrap_message false frame d = []
  bootstrap_message true frame d =
      bootstrap (record { frame = frame; game = d.game; info = d.info }) ∷ []

  -- one round of the second loop, at a frame that is complete
  unfoldable pub complete_frame :
      Updater G E → FrameData G E → Outcome (Updater G E × List (Message G E))
  complete_frame u d = do
    w ← advance_window u.data_window
    done ← fulfil_final_requests (record u { data_window = w })
    ok (done.0, bootstrap_message u.bootstrap_frames (start w) d ++ done.1)

  unfoldable pub complete_frames : ℕ → Updater G E → Outcome (Updater G E × List (Message G E))
  complete_frames zero u = diverges
  complete_frames (suc rounds) u =
      let first = start u.data_window in
      elim (lt32 first u.global_frame) [
        | false ↦ ok (u, [])
        | true ↦ do
          d ← get u.data_window (add32 first 1)
          elim (all_present (entries d.info.engines) d.bundle) [
            | false ↦ ok (u, [])
            | true ↦ do
              done ← complete_frame u d
              rest ← complete_frames rounds done.0
              ok (rest.0, done.1 ++ rest.1)
          ]
      ]

-- The window's start takes 2 ^ 32 values.
abbrev pub all_frames : ℕ
all_frames = 2 ^ 32 + 1

unfoldable pub advance :
    {G E : Type 0} → GameOps G E → Updater G E → Outcome (Updater G E × List (Message G E))
advance ops u = rethink ops u >>= λ v. complete_frames all_frames v
