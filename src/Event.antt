-- ===== src/Event.antt =====
-- core/event.go: the events of one frame by engine, merged from several engines and visited in the
-- order of the engines' ids. The game's own events are a parameter `E`.
pub mod Keys
pub mod Visits
pub mod Absorb
pub mod Gob
use pnf.Base.{
  ℕ, zero, suc, Bool, ◌&&◌, ◌||◌, Option, none, some, List, [], ◌∷◌, length, ◌==◌, if◌then◌else◌,
}
use pnf.Base.Words.{lt64, minus_one64}
use pnf.Base.Outcome.{Outcome, ok, panic, engine_collision, ◌>>=◌}
use pnf.Base.GoMap.{GoMap, entries, find, lookup, has, assign}
use pnf.Engine.{EngineEvent}

pub record AllEvents (E : Type 0) : Type 0 where
  pub game : List E
  pub engine : List EngineEvent

abbrev pub EventBundle : Type 0 → Type 0
EventBundle E = GoMap (AllEvents E)

pub record FrameBundle (E : Type 0) : Type 0 where
  pub frame : ℕ
  pub bundle : EventBundle E

module _ {E : Type 0} where
  -- `AllEvents{}`
  abbrev pub no_events : AllEvents E
  no_events = record { game = []; engine = [] }

  -- the loop of `AbsorbEventBundle`, over what is left of the range
  unfoldable pub absorb_entries : EventBundle E → List (ℕ × AllEvents E) → Outcome (EventBundle E)
  absorb_entries fb [] = ok fb
  absorb_entries fb ((k, v) ∷ es) =
      if has k fb then panic engine_collision else (assign k v fb >>= λ fb'. absorb_entries fb' es)

  unfoldable pub absorb_event_bundle : EventBundle E → EventBundle E → Outcome (EventBundle E)
  unfolding absorb_entries
  absorb_event_bundle fb fb2 = absorb_entries fb (entries fb2)

  -- the inner loop of `each`: the least key above `max`, or -1
  unfoldable pub next_key : ℕ → ℕ → List (ℕ × AllEvents E) → ℕ
  next_key max cur [] = cur
  next_key max cur ((k, v) ∷ es) =
      next_key max (if lt64 max k && (lt64 k cur || cur == minus_one64) then k else cur) es

  -- `fb[k]`, the zero value if the key is missing
  abbrev pub value_or_zero : Option (AllEvents E) → AllEvents E
  value_or_zero none = no_events
  value_or_zero (some v) = v

  module _ {S : Type 0} (f : ℕ → AllEvents E → S → Outcome S) where
    unfoldable pub each_from : ℕ → ℕ → EventBundle E → S → Outcome S
    each_from zero max fb s = ok s
    each_from (suc n) max fb s =
        let cur = next_key max minus_one64 (entries fb) in
        f cur (value_or_zero (lookup cur fb)) s >>= λ t. each_from n cur fb t

  -- The callback is a function on the state that it changes; the frame is not used.
  unfoldable pub each :
      {S : Type 0} → EventBundle E → ℕ → (ℕ → AllEvents E → S → Outcome S) → S → Outcome S
  unfolding each_from
  each fb frame f s = each_from f (length (entries fb)) minus_one64 fb s

  unfoldable pub each_game :
      {S : Type 0} → EventBundle E → ℕ → (ℕ → List E → S → Outcome S) → S → Outcome S
  each_game fb frame f s = each fb frame (λ id all. f id all.game) s

  unfoldable pub each_engine :
      {S : Type 0} → EventBundle E → ℕ → (ℕ → List EngineEvent → S → Outcome S) → S → Outcome S
  each_engine fb frame f s = each fb frame (λ id all. f id all.engine) s
