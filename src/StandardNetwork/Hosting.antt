-- ===== src/StandardNetwork/Hosting.antt =====
-- core/network_standard.go: `routine`, `launchPingRoutine` and `launchJoinRoutine` as the goroutines
-- of one program, which take their steps in any order. A send on `kill` waits until a goroutine
-- receives it; the ping goroutine looks at it only after it has read a packet. Requests to ping and to
-- join are answered between two others and change nothing here.
pub mod Sound
pub mod Blocked
use pnf.Base.{
  ◌≡◌, ◌≢◌, ℕ, zero, suc, Bool, true, false, Option, none, some, List, [], ◌∷◌, if◌then◌else◌,
}
use pnf.TcpConn.{Bytes}
use pnf.MockNetwork.{PingResult}

-- `hostRequest`
pub record HostRequest : Type 0 where
  pub ping : Option (Bytes → PingResult)
  pub join : Option (Bytes → Option Bytes)

-- how `launchPingRoutine` and `launchJoinRoutine` end
pub data Launch : Type 0 where
  ping_fails join_fails launched : Launch

-- Where `routine` is: at its loop, at the sends on `kill` that a request begins with (how many it has
-- still to make), or at the send after `launchJoinRoutine` has failed.
pub data Phase : Type 0 where
  idle giving_up : Phase
  killing : ℕ → HostRequest → Phase

-- The ping goroutine. It is `draining` when it has ended and left one behind that waits on `die`.
pub data PingRoutine : Type 0 where
  absent listening draining : PingRoutine

-- `networkTcpUdp` and its goroutines. `kill` says whether it is not nil, `closer` whether the
-- goroutine waits that closes the listener for joins, and `stale_loops` counts the accept loops whose
-- listener has been closed: their `Accept` fails, and they panic.
pub record HostState : Type 0 where
  pub ping : Option (Bytes → PingResult)
  pub join : Option (Bytes → Option Bytes)
  pub kill : Bool
  pub phase : Phase
  pub ping_routine : PingRoutine
  pub closer : Bool
  pub stale_loops : ℕ

-- `MakeTcpUdpNetwork`
abbrev pub make_tcp_udp_network : HostState
make_tcp_udp_network = record {
  ping = none;
  join = none;
  kill = false;
  phase = idle;
  ping_routine = absent;
  closer = false;
  stale_loops = 0;
}

abbrev pub launch_routines : Launch → HostState → HostState
launch_routines ping_fails n = record n { kill = false; phase = idle }
launch_routines join_fails n = record n { kill = true; phase = giving_up; ping_routine = listening }
launch_routines launched n = record n {
  kill = true;
  phase = idle;
  ping_routine = listening;
  closer = true;
}

-- The case of a `hostRequest`, after the sends on `kill`.
unfoldable pub set_hosting : HostRequest → Launch → HostState → HostState
set_hosting req result n = elim req.ping [
  | none ↦ record n { ping = none; join = none; kill = false; phase = idle }
  | some ping ↦ elim req.join [
    | none ↦ record n { ping = none; join = none; kill = false; phase = idle }
    | some join ↦ launch_routines result (record n { ping = some ping; join = some join })
  ]
]

-- The case of a `hostRequest`.
unfoldable pub host_request : HostRequest → Launch → HostState → HostState
host_request req result n =
    if n.kill then record n { phase = killing 2 req } else set_hosting req result n

-- A send on `kill` has been received.
unfoldable pub signalled : Launch → HostState → HostState
signalled result n = elim n.phase [
  | idle ↦ n
  | giving_up ↦ record n { kill = false; phase = idle }
  | killing k req ↦ elim k [
    | zero ↦ n
    | suc j ↦ elim j [
      | zero ↦ set_hosting req result n
      | suc i ↦ record n { phase = killing (suc i) req }
    ]
  ]
]

-- is `routine` at a send on `kill`?
abbrev pub sends_kill : Phase → Bool
sends_kill idle = false
sends_kill giving_up = true
sends_kill (killing k req) = true

pub data Label : Type 0 where
  requested : HostRequest → Label
  timed_out pinged reads_signal fails drains closed : Label

pub data Step (n m : HostState) : Label → Type 0 where
  request :
      (req : HostRequest) (result : Launch)
      → n.phase ≡ idle
      → m ≡ host_request req result n
      → Step n m (requested req)
  -- the deadline of a second has passed
  timeout : n.ping_routine ≡ listening → m ≡ n → Step n m timed_out
  -- a packet has been read, and no signal waits: `n.ping` is called
  packet :
      (f : Bytes → PingResult)
      → n.ping_routine ≡ listening
      → sends_kill n.phase ≡ false
      → n.ping ≡ some f
      → m ≡ n
      → Step n m pinged
  -- a packet has been read, and a signal waits
  packet_stops :
      (result : Launch)
      → n.ping_routine ≡ listening
      → sends_kill n.phase ≡ true
      → m ≡ signalled result (record n { ping_routine = absent })
      → Step n m reads_signal
  -- the deadline cannot be set, or a read fails and not because of the deadline
  read_fails :
      n.ping_routine ≡ listening → m ≡ record n { ping_routine = draining } → Step n m fails
  drained :
      (result : Launch)
      → n.ping_routine ≡ draining
      → sends_kill n.phase ≡ true
      → m ≡ signalled result (record n { ping_routine = absent })
      → Step n m drains
  closes :
      (result : Launch)
      → n.closer ≡ true
      → sends_kill n.phase ≡ true
      → m ≡ signalled result (record n { closer = false; stale_loops = suc n.stale_loops })
      → Step n m closed

pub data Run : HostState → List Label → HostState → Type 0 where
  done : {n : HostState} → Run n [] n
  then_step :
      {n m k : HostState} {x : Label} {xs : List Label} → Step n m x → Run m xs k → Run n (x ∷ xs) k
