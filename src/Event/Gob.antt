-- ===== src/Event/Gob.antt =====
-- core/event.go, `AllEvents.GobEncode` and `AllEvents.GobDecode`, on the package encoding/gob.
pub mod RoundTrip
use pnf.Base.{ℕ, zero, suc, Option, none, some, List, [], ◌∷◌, ◌++◌, length}
use pnf.Base.Words.{truncate}
use pnf.Base.Results.{◌>>=◌}
use pnf.Engine.{EngineEvent}
use pnf.Event.{AllEvents}
use pnf.TcpConn.{Bytes, StreamCodec}

-- What the two methods encode: a length, and values of the interfaces `Event` and `EngineEvent`.
pub data GobValue (E : Type 0) : Type 0 where
  count : ℕ → GobValue E
  game_event : E → GobValue E
  engine_event : EngineEvent → GobValue E

-- A decoder that is asked for one type fails on a value of another.
abbrev as_count : {E : Type 0} → GobValue E → Option ℕ
as_count (count n) = some n
as_count (game_event e) = none
as_count (engine_event e) = none

abbrev as_game : {E : Type 0} → GobValue E → Option E
as_game (count n) = none
as_game (game_event e) = some e
as_game (engine_event e) = none

abbrev as_engine : {E : Type 0} → GobValue E → Option EngineEvent
as_engine (count n) = none
as_engine (game_event e) = none
as_engine (engine_event e) = some e

module _ {E Encoder Decoder : Type 0} (codec : StreamCodec (GobValue E) Encoder Decoder) where
  -- `for i := range xs { err = enc.Encode(&xs[i]) ... }`
  unfoldable pub encode_each :
      {X : Type 0} → (X → GobValue E) → List X → Encoder → Option (Bytes × Encoder)
  encode_each wrap [] enc = some ([], enc)
  encode_each wrap (x ∷ xs) enc = do
    first ← codec.encode enc (wrap x)
    rest ← encode_each wrap xs first.1
    some (first.0 ++ rest.0, rest.1)

  -- a length and then the values
  unfoldable pub encode_list :
      {X : Type 0} → (X → GobValue E) → List X → Encoder → Option (Bytes × Encoder)
  encode_list wrap xs enc = do
    head ← codec.encode enc (count (truncate (length xs)))
    each ← encode_each wrap xs head.1
    some (head.0 ++ each.0, each.1)

  unfoldable pub gob_encode : AllEvents E → Option Bytes
  gob_encode all = do
    game ← encode_list game_event all.game codec.new_encoder
    engine ← encode_list engine_event all.engine game.1
    some (game.0 ++ engine.0)

  -- `dec.Decode(&x)` for one type
  unfoldable pub decode_as :
      {X : Type 0} → (GobValue E → Option X) → Bytes → Decoder → Option (X × (Bytes × Decoder))
  decode_as unwrap bytes dec = do read ← codec.decode dec bytes; x ← unwrap read.0; some (x, read.1)

  unfoldable pub decode_each :
      {X : Type 0}
      → (GobValue E → Option X)
      → ℕ
      → Bytes
      → Decoder
      → Option (List X × (Bytes × Decoder))
  decode_each unwrap zero bytes dec = some ([], (bytes, dec))
  decode_each unwrap (suc n) bytes dec = do
    first ← decode_as unwrap bytes dec
    rest ← decode_each unwrap n first.1.0 first.1.1
    some (first.0 ∷ rest.0, rest.1)

  unfoldable pub decode_list :
      {X : Type 0} → (GobValue E → Option X) → Bytes → Decoder → Option (List X × (Bytes × Decoder))
  decode_list unwrap bytes dec = do
    n ← decode_as as_count bytes dec
    decode_each unwrap n.0 n.1.0 n.1.1

  unfoldable pub gob_decode : Bytes → Option (AllEvents E)
  gob_decode bytes = do
    game ← decode_list as_game bytes codec.new_decoder
    engine ← decode_list as_engine game.1.0 game.1.1
    some (record { game = game.0; engine = engine.0 })
