-- ===== src/Lib.antt =====
-- A verification library for pnf, a lockstep network engine with rollback: each engine simulates the
-- same game, sends its players' events to the others in one bundle for each frame, and computes
-- frames again when events come late.
--
-- The parts of the program, and where they are modelled. Paths are from the repository's root.
--   core/window_data.go, `DataWindow`: the ring of the frames that can still change. DataWindow has
--     its operations under their names (`Set` is `put`); DataWindow/Bounds and DataWindow/Slots have
--     its invariant and what each operation does to the frame at a position.
--   containers/window/uint64_string/window.go: the same ring with uint64 positions, generated from a
--     template; Window, and Window/Alias on the positions that it accepts.
--   core/engine.go: engine events and the set of engines; Engine. `FrameData` is in Game, with the
--     operations of a game and its events, which are parameters (the interfaces of core/event.go).
--   core/event.go: bundles, merged by `AbsorbEventBundle` and visited by `Each` and `EachEngine`;
--     Event, with Event/Keys, Event/Visits and Event/Absorb. Each visit is a function on the state
--     that its callback changes. `GobEncode` and `GobDecode` of `AllEvents` are in Event/Gob.
--   core/updater.go: the updater. Updater has its state and its messages; Updater/Handle the cases
--     that take in local and remote bundles; Updater/Advance `advance`; Updater/Requests the pending
--     and new requests, Updater/Calls the methods that make them; Updater/Routine `Start`,
--     `Bootstrap`, `routine` and `nagle` (Updater/Nagle).
--     Updater/Replay is the specification of a frame, and Updater/Tracks the invariant: the window
--     holds the events of a history and, for frames that are not dirty, its worlds.
--     Updater/Tracks/Start and Updater/Tracks/Boot are on the two ways to begin. Updater/Tracks/Ledger
--     has what an updater has taken in, Updater/Tracks/Plays and Cases what each input does to it;
--     Updater/Tracks/Lockstep, Engines, Progress and Closed are on whole runs of `routine`, and
--     Updater/Tracks/Watch and Client on those of a client that has not joined yet.
--   core/bundler.go: Bundler; Bundler/Ledger and Bundler/Stream on what goes in and comes out,
--     Bundler/Clock on when.
--   core/ticker.go: the clocks of the bundler; Ticker, and Ticker/Sound on the goroutines.
--   core/auditor.go: Auditor, with the channel `Remote_bundles` that pnf.go makes; Auditor/Feed is on
--     what reaches the updater.
--   core/communicator.go: Communicator (`Start` and the cases of `routine`), Communicator/Client
--     (`Join`, `bootstrapRoutine`, `connRoutine`); Communicator/Loops, Communicator/Serve and
--     Communicator/Handshake on what connections are sent, Communicator/Join on both ends of one.
--   core/network_standard.go: the network of several processes. StandardNetwork has what a client
--     does to find and join a host, and the goroutine that serves it; StandardNetwork/Handshake is on
--     both ends of a join. StandardNetwork/Hosting has `routine` and the goroutines that listen, as a
--     step relation. TcpConn has the five routines of a connection (`tcpConn`); TcpConn/Stream is one
--     direction of a pair of them, as a step relation, and TcpConn/Order, Waiting, Flow and Deliver
--     are on what arrives.
--   core/network_mock.go: the network of one process. MockNetwork has the hosts, MockNetwork/Joins and
--     Crossing what `Join` does, MockNetwork/Sound all methods at the same time; MockNetwork/Conn has `ConnMock.routine` and `connRoutine`,
--     MockNetwork/Conn/Passage one direction of a pair as a step relation.
--   pnf.go: Pnf has `NewNetEngine` and `NewNetClientEngine`; Pnf/Host and Pnf/Guest what they start;
--     `GetState` (Pnf/State) and `ApplyEvent` are there too.
-- The bundler's bundles go to the updater, which sends them on to the communicator and so to the
-- other engines; theirs come back through the communicator and the auditor to the updater. The
-- updater tells the communicator when a frame is complete, which a new engine starts from.
--
-- Base has what the parts share. Go's integers are bit patterns over ℕ with their wrap written out
-- (Base/Words). A function that can panic gives an `Outcome`. A nil map or interface is `none`. A
-- goroutine is a function from its state and one input, as `select` receives it, to its next state
-- and what it sends, in order; a run is a list of inputs.
--
-- Bounds. A counted loop has as many rounds as its counter has values (Base/Loop), and the loops of
-- `advance` over complete frames and over requests have one round more than frames or requests; the
-- theorems that they return show that this is enough. Theorems assume that frames stay below 2 ^ 31.
--
-- Goroutines that share channels are a step relation: each step is one goroutine's, in any order, and
-- what it does is a function of the modules above. A list of values, each in a goroutine of its own,
-- is a bag, and a step may take any of them. A program that panics takes no further step.
--
-- Not modelled: core/network.go (interfaces), and core/base.go, which calls encoding/gob and crypto/rand: these are the
-- parameters `Codec`, `StreamCodec` and `ContainerCodec`, and the id of a new connection. The package
-- net is a parameter too: what its calls answer. The reply to a ping and the `Shutdown` of
-- core/network_standard.go, the shutdown of the communicator, which waits for the goroutines of all
-- connections, and the `Purge` of a mock network are left out; a purge signal comes at
-- any time. A game is a value: two slots that share a pointer are not told apart, and sends of the
-- communicator that goroutines of their own make are in the order in which these begin.
pub mod Auditor
pub mod Base
pub mod Bundler
pub mod Communicator
pub mod DataWindow
pub mod Engine
pub mod Event
pub mod Game
pub mod MockNetwork
pub mod Pnf
pub mod StandardNetwork
pub mod TcpConn
pub mod Tests
pub mod Ticker
pub mod Updater
pub mod Window
