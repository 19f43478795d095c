-- ===== src/Updater/Replay.antt =====
-- What a frame should be: the specification of `advance`, with no slots, no nil and no mutation.
pub mod Frame
use pnf.Base.{ℕ, Bool, true, List, [], ◌∷◌, if◌then◌else◌, ◌≡◌, some}
use pnf.Base.GoMap.{find, put, without, is_some}
use pnf.Engine.{EngineEvent, engine_joined, engine_dropped}
use pnf.Event.{AllEvents, EventBundle}
use pnf.Event.Visits.{in_order}
use pnf.Game.{GameOps, FrameData}

-- who takes part in a frame, and the game after it
pub record World (G : Type 0) : Type 0 where
  pub engines : List (ℕ × Bool)
  pub game : G

-- the events of one engine, in the order in which it made them
unfoldable pub change_engines : List EngineEvent → List (ℕ × Bool) → List (ℕ × Bool)
change_engines [] es = es
change_engines (engine_joined id ∷ events) es = change_engines events (put id true es)
change_engines (engine_dropped id ∷ events) es = change_engines events (without id es)

unfoldable pub all_changes :
    {E : Type 0} → List (ℕ × AllEvents E) → List (ℕ × Bool) → List (ℕ × Bool)
all_changes [] es = es
all_changes ((id, all) ∷ rest) es = all_changes rest (change_engines all.engine es)

module _ {G E : Type 0} (apply : E → G → G) where
  unfoldable pub play : List E → G → G
  play [] g = g
  play (e ∷ es) g = play es (apply e g)

  unfoldable pub all_plays : List (ℕ × Bool) → List (ℕ × AllEvents E) → G → G
  all_plays members [] g = g
  all_plays members ((id, all) ∷ rest) g =
      all_plays members rest (if is_some (find id members) then play all.game g else g)

-- One frame: first every engine event, in the order of the ids; then the game events of the engines
-- that take part after that, in the same order; then the game thinks.
unfoldable pub next_world : {G E : Type 0} → GameOps G E → EventBundle E → World G → World G
next_world ops bundle world =
    let members = all_changes (in_order bundle) world.engines in
    record {
      engines = members;
      game = ops.think (all_plays ops.apply members (in_order bundle) world.game);
    }

-- The slot of a frame holds this world.
pub record Shows {G E : Type 0} (d : FrameData G E) (world : World G) : Type 0 where
  pub info_is : d.info.engines ≡ some world.engines
  pub game_is : d.game ≡ some world.game
