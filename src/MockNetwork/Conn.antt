-- ===== src/MockNetwork/Conn.antt =====
-- core/network_mock.go: `ConnMock`, which is one end of a connection, and `connRoutine`, which
-- carries the bytes from one end to the other. Every value that is on its way is in a goroutine of
-- its own, so any of them may come first: what a list has here is a bag. encoding/gob is a parameter.
pub mod Passage
pub mod Deliver
pub mod Drain
use mathlib.Core.Option.{some-injective}
use pnf.Base.{◌≡◌, ap, ℕ, Bool, true, false, Option, none, some, List, [], ◌∷◌, ◌++◌, if◌then◌else◌}
use pnf.Base.Outcome.{Outcome, ok, panic, Panic}
use pnf.Event.{FrameBundle}
use pnf.TcpConn.{Bytes, Payload}

-- `gob.NewEncoder(...).Encode` and `gob.NewDecoder(...).Decode` of a `dataContainer`. An error is
-- `none`, and a slice that is empty arrives as nil.
pub record ContainerCodec (P : Type 0) : Type 0 where
  pub encode : P → Option Bytes
  pub decode : Bytes → Option P

-- what a goroutine hands to `recv_bytes` or to `recv_bundle`
pub data Arrival (E : Type 0) : Type 0 where
  data_in : Bytes → Arrival E
  bundle_in : FrameBundle E → Arrival E

-- `running` waits on `current_purge`, and `purging` on `completed_purge`.
pub data Mode : Type 0 where
  running purging closed : Mode

-- `ConnMock` with the goroutines that its routine has begun
pub record ConnMock (E : Type 0) : Type 0 where
  pub mode : Mode
  pub sending : List Bytes
  pub arrivals : List (Arrival E)

-- what `routine` can receive
pub data Signal (E : Type 0) : Type 0 where
  purge_signal : Bool → Signal E
  user_data : Bytes → Signal E
  user_bundle : FrameBundle E → Signal E
  from_net : Bytes → Signal E

abbrev pub purge_mode : Mode → Bool → Mode
purge_mode running shutdown = if shutdown then closed else purging
purge_mode purging shutdown = running
purge_mode closed shutdown = closed

module _ {E : Type 0} where
  -- the `switch` on a container that has arrived
  unfoldable pub arrival : Payload E → List (Arrival E)
  arrival p = elim p.content [
    | b ∷ bs ↦ data_in (b ∷ bs) ∷ []
    | [] ↦ elim p.bundle [ none ↦ [] | some bundle ↦ bundle_in bundle ∷ [] ]
  ]

  -- A value that is to be sent is encoded, and a goroutine begins to send it.
  unfoldable pub send_container :
      ContainerCodec (Payload E) → Payload E → ConnMock E → Outcome (ConnMock E)
  send_container codec p c = elim (codec.encode p) [
    | none ↦ panic Panic.encode_failed
    | some bytes ↦ ok (record c { sending = bytes ∷ c.sending })
  ]

  -- One round of `routine`.
  unfoldable pub routine : ContainerCodec (Payload E) → Signal E → ConnMock E → Outcome (ConnMock E)
  routine codec (purge_signal b) c = ok (record c { mode = purge_mode c.mode b })
  routine codec (user_data b) c = send_container codec (record { content = b; bundle = none }) c
  routine codec (user_bundle b) c =
      send_container codec (record { content = []; bundle = some b }) c
  routine codec (from_net b) c = elim (codec.decode b) [
    | none ↦ panic Panic.decode_failed
    | some p ↦ ok (record c { arrivals = arrival p ++ c.arrivals })
  ]

-- Where a `connRoutine` is: at its `select`, at `wg.Wait()` after it has received from `purge`, with
-- what it has received, or at the send that gives a signal back; or it has returned.
pub data RouterMode : Type 0 where
  listening returning ended : RouterMode
  waiting : Bool → RouterMode

-- a `connRoutine`, with the goroutines that it has begun in one direction
pub record Router : Type 0 where
  pub mode : RouterMode
  pub carried : List Bytes

abbrev pub carry : Bytes → Router → Router
carry b r = record r { carried = b ∷ r.carried }

abbrev pub receive_purge : Bool → Router → Router
receive_purge shutdown r = record r { mode = waiting shutdown }

-- What follows a `purge` signal: the goroutines have ended, and it returns or begins to send the
-- signal back; or that has been received. `none` is that it waits.
unfoldable pub conn_routine_purge : Router → Option Router
conn_routine_purge r = elim r.mode [
  | listening ↦ none
  | ended ↦ none
  | returning ↦ some (record r { mode = listening })
  | waiting shutdown ↦ elim r.carried [
    | [] ↦ some (record r { mode = if shutdown then ended else returning })
    | _ ∷ _ ↦ none
  ]
]

by_mode :
    (mode : RouterMode) (carried : List Bytes) (s : Router)
    → conn_routine_purge (record { mode = mode; carried = carried }) ≡ some s
    → carried ≡ s.carried
unfolding conn_routine_purge
by_mode listening carried s h = cc
by_mode ended carried s h = cc
by_mode returning carried s h = ap (λ (r : Router). r.carried) (some-injective _ s h)
by_mode (waiting shutdown) [] s h = ap (λ (r : Router). r.carried) (some-injective _ s h)
by_mode (waiting shutdown) (b ∷ bs) s h = cc

pub conn_routine_purge-carried :
    (r s : Router) → conn_routine_purge r ≡ some s → r.carried ≡ s.carried
conn_routine_purge-carried r s h = by_mode r.mode r.carried s h
