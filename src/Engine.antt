-- ===== src/Engine.antt =====
-- core/engine.go: the parameters of an engine, the set of engines that take part, and the engine
-- events that change it. Ids are `int64` patterns, frames are `int32` patterns.
use pnf.Base.{ℕ, Bool, true, some, List, [], ◌∷◌}
use pnf.Base.Outcome.{Outcome, ok, ◌>>=◌}
use pnf.Base.GoMap.{GoMap, entries, put, assign, delete}

pub record EngineParams : Type 0 where
  pub id : ℕ
  pub delay : ℕ
  pub frame_ms : ℕ
  pub max_frames : ℕ

-- The two implementations of the interface `EngineEvent`.
pub data EngineEvent : Type 0 where
  engine_joined engine_dropped : ℕ → EngineEvent

pub record EngineInfo : Type 0 where
  pub engines : GoMap Bool

-- the loop of `EngineInfo.Copy`, over what is left of the range
unfoldable pub copy_entries : List (ℕ × Bool) → List (ℕ × Bool) → List (ℕ × Bool)
copy_entries copied [] = copied
copy_entries copied ((k, v) ∷ es) = copy_entries (put k v copied) es

unfoldable pub copy : EngineInfo → EngineInfo
copy ei = record { engines = some (copy_entries [] (entries ei.engines)) }

-- `EngineEvent.Apply`
unfoldable pub apply : EngineEvent → EngineInfo → Outcome EngineInfo
apply (engine_joined id) info = assign id true info.engines >>= λ es. ok (record { engines = es })
apply (engine_dropped id) info = ok (record { engines = delete id info.engines })
