-- ===== src/Game.antt =====
-- What the engine is given: a game and its events (the interfaces `Game` and `Event` of
-- core/event.go), and the data of one frame.
use pnf.Base.{◌≡◌, Option, none}
use pnf.Engine.{EngineInfo}
use pnf.Event.{EventBundle}

-- `copy`, `overwrite` and `think` are `Copy`, `OverwriteWith` (the receiver, then its argument) and
-- `Think` of `Game`; `apply` is `Apply` of `Event`. `ThinkFirst`, `ThinkFinal`, `ApplyFirst` and
-- `ApplyFinal` are never called.
pub record GameOps (G E : Type 0) : Type 0 where
  pub copy : G → G
  pub overwrite : G → G → G
  pub think : G → G
  pub apply : E → G → G

-- What the engine relies on: a copy has the value of the original, and a game that is overwritten
-- has the value that it is overwritten with.
pub record IsLawful {G E : Type 0} (ops : GameOps G E) : Type 0 where
  pub copy_lem : (g : G) → ops.copy g ≡ g
  pub overwrite_lem : (g h : G) → ops.overwrite g h ≡ h

-- A game is an interface value, which is nil in a slot that was only allocated.
pub record FrameData (G E : Type 0) : Type 0 where
  pub info : EngineInfo
  pub game : Option G
  pub bundle : EventBundle E

abbrev pub no_data : {G E : Type 0} → FrameData G E
no_data = record { info = record { engines = none }; game = none; bundle = none }
