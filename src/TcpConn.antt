-- ===== src/TcpConn.antt =====
-- core/network_standard.go, `tcpConn`: the goroutines of a connection, and one direction of a pair of
-- them as a machine that makes their steps in any order. A byte is a number; encoding/gob and the
-- socket are parameters. The fields of the two types that `terminate` and `Close` would use are left
-- out: both methods do nothing, so `kill` is never signalled.
pub mod Stream
pub mod Waiting
pub mod Order
pub mod Traffic
pub mod Flow
pub mod Deliver
use pnf.Base.{
  ℕ, suc, ◌-◌, ◌+◌, Bool, true, false, Option, none, some, List, [], ◌∷◌, ◌++◌, length, ltb, leb,
  ◌&&◌, if◌then◌else◌,
}
use pnf.Base.Slices.{take}
use pnf.Base.Outcome.{Outcome, ok, panic, Panic}
use pnf.Event.{FrameBundle}

abbrev pub Bytes : Type 0
Bytes = List ℕ

-- `TcpConnPayload`
pub record Payload (E : Type 0) : Type 0 where
  pub content : Bytes
  pub bundle : Option (FrameBundle E)

-- A `gob.Encoder` on a buffer and a `gob.Decoder` on another, with the states that they keep. An
-- error is `none`; else the decoder gives what it has not read.
pub record StreamCodec (P Encoder Decoder : Type 0) : Type 0 where
  pub new_encoder : Encoder
  pub new_decoder : Decoder
  pub encode : Encoder → P → Option (Bytes × Encoder)
  pub decode : Decoder → Bytes → Option (P × (Bytes × Decoder))

module _ {A : Type 0} where
  -- One round of `sendRoutine`, `recvDataRoutine` and `recvBundleRoutine`, which all keep a queue:
  -- what comes in goes to its end, and its first entry is offered; an empty queue offers nothing.
  unfoldable pub enqueue : A → List A → List A
  enqueue x queue = queue ++ (x ∷ [])

  unfoldable pub dequeue : List A → Option (A × List A)
  dequeue [] = none
  dequeue (x ∷ queue) = some (x, queue)

-- The three places where what was read waits: the channel `from_net`, the queue of the routine, and
-- the channel `to_pnf`.
pub record Inbox (A : Type 0) : Type 0 where
  pub from_net : List A
  pub queue : List A
  pub to_pnf : List A

abbrev pub capacity : ℕ
capacity = 100

abbrev pub has_room : {A : Type 0} → List A → Bool
has_room xs = ltb (length xs) capacity

module _ {A : Type 0} where
  abbrev pub empty_inbox : Inbox A
  empty_inbox = record { from_net = []; queue = []; to_pnf = [] }

  -- a send on `from_net`, which blocks while the channel is full
  unfoldable pub put_in : A → Inbox A → Option (Inbox A)
  put_in x i =
      if has_room i.from_net then some (record i { from_net = i.from_net ++ (x ∷ []) }) else none

  -- the routine receives from `from_net`
  unfoldable pub take_in : Inbox A → Option (Inbox A)
  take_in i = elim (dequeue i.from_net) [
    | none ↦ none
    | some r ↦ some (record i { from_net = r.1; queue = enqueue r.0 i.queue })
  ]

  -- the routine sends on `to_pnf`
  unfoldable pub pass_on : Inbox A → Option (Inbox A)
  pass_on i =
      if has_room i.to_pnf
      then elim (dequeue i.queue) [
        | none ↦ none
        | some r ↦ some (record i { queue = r.1; to_pnf = i.to_pnf ++ (r.0 ∷ []) })
      ]
      else none

  -- the program receives from `RecvData()` or `RecvFrameBundle()`
  unfoldable pub give : Inbox A → Option (A × Inbox A)
  give i = elim (dequeue i.to_pnf) [ none ↦ none | some r ↦ some (r.0, record i { to_pnf = r.1 }) ]

-- `SendData` and `SendFrameBundle`: what they hand to `sendRoutine`
unfoldable pub data_payload : {E : Type 0} → Bytes → Payload E
data_payload bytes = record { content = bytes; bundle = none }

unfoldable pub bundle_payload : {E : Type 0} → FrameBundle E → Payload E
bundle_payload bundle = record { content = []; bundle = some bundle }

-- the state of `readRoutine`: its buffer `db` and its decoder
pub record Reader (Decoder : Type 0) : Type 0 where
  pub unread : Bytes
  pub decoder : Decoder

module _ {E Encoder Decoder : Type 0} where
  -- One round of `writeRoutine`: the bytes that it writes, and its encoder, or that it has ended.
  -- `failed` is `none` if the socket has taken all bytes; if it gives an error, it has taken the first
  -- of them, as many as `failed` says.
  unfoldable pub write_routine :
      StreamCodec (Payload E) Encoder Decoder
      → Payload E
      → Option ℕ
      → Encoder
      → Bytes × Option Encoder
  write_routine codec p failed e = elim (codec.encode e p) [
    | none ↦ ([], none)
    | some r ↦ elim failed [ none ↦ (r.0, some r.1) | some n ↦ (take n r.0, none) ]
  ]

  -- What a round of `readRoutine` has read from the socket: a payload, or an error, after which the
  -- routine has ended.
  unfoldable pub decode_once :
      StreamCodec (Payload E) Encoder Decoder
      → Bytes
      → Reader Decoder
      → Option (Payload E × Reader Decoder)
  decode_once codec chunk r = elim (codec.decode r.decoder (r.unread ++ chunk)) [
    | none ↦ none
    | some d ↦ some (d.0, record { unread = d.1.0; decoder = d.1.1 })
  ]
