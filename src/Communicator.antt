-- ===== src/Communicator.antt =====
-- core/communicator.go: what `routine`, `Start`, `Join`, `bootstrapRoutine` and `connRoutine` do.
-- A connection is a number (the source compares pointers); a `go` statement is a message, and what
-- the goroutine does has a definition of its own.
pub mod Client
pub mod Loops
pub mod Serve
pub mod Handshake
pub mod Join
use pnf.Base.{
  ℕ, zero, suc, ◌+◌, Bool, true, false, Option, none, some, List, [], ◌∷◌, ◌++◌, length, map,
  get_elem?, if◌then◌else◌, ◌==◌,
}
use pnf.Base.Words.{add32, lt32}
use pnf.Base.Slices.{swap_remove}
use pnf.Base.Outcome.{Outcome, ok, panic, encode_failed, diverges, ◌>>=◌}
use pnf.Event.{FrameBundle}
use pnf.Updater.{BootstrapFrame}

-- `bootstrapInitialData`
pub record InitialData : Type 0 where
  pub horizon : ℕ
  pub id : ℕ

-- `QuickGobEncode` and `QuickGobDecode` at the three types that are sent; `none` is an error. They
-- stand on the package encoding/gob.
pub record Codec (G D : Type 0) : Type 0 where
  pub encode_initial : InitialData → Option D
  pub decode_initial : D → Option InitialData
  pub encode_boot : BootstrapFrame G → Option D
  pub decode_boot : D → Option (BootstrapFrame G)
  pub encode_bool : Bool → Option D
  pub decode_bool : D → Option Bool

pub record Bootstrap : Type 0 where
  pub conn : ℕ
  pub start : ℕ

pub record Communicator : Type 0 where
  pub conns : List ℕ
  pub bootstraps : List Bootstrap
  pub horizon : ℕ
  -- the counter of `active_conns`
  pub active_conns : ℕ

-- What `routine` receives. With a new connection comes the number that `RandomId` draws for it.
pub data CommunicatorInput (G E : Type 0) : Type 0 where
  new_conn : ℕ → ℕ → CommunicatorInput G E
  broadcast_bundle : FrameBundle E → CommunicatorInput G E
  remote_bundle : FrameBundle E → ℕ → CommunicatorInput G E
  bootstrap_frame : BootstrapFrame G → CommunicatorInput G E

-- What the components of the communicator do to the outside: the methods of a connection, the sends
-- on channels, and the goroutines that they begin.
pub data Effect (E D : Type 0) : Type 0 where
  send_data : ℕ → D → Effect E D
  send_frame_bundle : ℕ → FrameBundle E → Effect E D
  close_conn : ℕ → Effect E D
  raw_remote_bundle : FrameBundle E → Effect E D
  join_engine : ℕ → Effect E D
  fan_in : FrameBundle E → ℕ → Effect E D
  go_bootstrap : ℕ → ℕ → Effect E D
  go_conn : ℕ → Effect E D
  drain_fan_in close_fan_in close_raw : Effect E D

-- `Start`
unfoldable pub start_communicator : {E D : Type 0} → Option ℕ → Communicator × List (Effect E D)
start_communicator none =
    (record { conns = []; bootstraps = []; horizon = 0; active_conns = 0 }, [])
start_communicator (some host) = (
  record { conns = host ∷ []; bootstraps = []; horizon = 0; active_conns = 1 },
  go_conn host ∷ [],
)

abbrev pub raise_horizon : ℕ → ℕ → ℕ
raise_horizon frame horizon = if lt32 horizon frame then frame else horizon

unfoldable pub forward_to : {E D : Type 0} → FrameBundle E → ℕ → List ℕ → List (Effect E D)
forward_to bundle from [] = []
forward_to bundle from (conn ∷ conns) =
    let rest = forward_to bundle from conns in
    if conn == from then rest else send_frame_bundle conn bundle ∷ rest

-- the second, from index `i` on
unfoldable pub remove_from : ℕ → ℕ → ℕ → List Bootstrap → Outcome (List Bootstrap)
remove_from frame zero i bs = diverges
remove_from frame (suc rounds) i bs = elim (get_elem? bs i) [
  | none ↦ ok bs
  | some b ↦ remove_from frame rounds (i + 1) (if frame == b.start then swap_remove bs i else bs)
]

unfoldable pub remove_bootstraps : ℕ → List Bootstrap → Outcome (List Bootstrap)
remove_bootstraps frame bs = remove_from frame (suc (length bs)) 0 bs

module _ {G E D : Type 0} where
  -- the first loop over the bootstraps
  unfoldable pub send_boot :
      Codec G D → BootstrapFrame G → List Bootstrap → Outcome (List (Effect E D))
  send_boot codec boot [] = ok []
  send_boot codec boot (b ∷ bs) =
      let rest = send_boot codec boot bs in
      if boot.frame == b.start
      then elim (codec.encode_boot boot) [
        | none ↦ panic encode_failed
        | some data' ↦ rest >>= λ sent. ok (send_data b.conn data' ∷ sent)
      ]
      else rest

  -- one case of `routine`
  unfoldable pub receive :
      Codec G D → CommunicatorInput G E → Communicator → Outcome (Communicator × List (Effect E D))
  receive codec (new_conn conn id) c =
      let start = add32 c.horizon 1 in
      elim (codec.encode_initial (record { horizon = start; id = id })) [
        | none ↦ ok (c, [])
        | some data' ↦ ok (
          record c {
            conns = c.conns ++ (conn ∷ []);
            bootstraps = c.bootstraps ++ (record { conn = conn; start = start } ∷ []);
            active_conns = c.active_conns + 1;
          },
          send_data conn data' ∷ go_bootstrap conn id ∷ [],
        )
      ]
  receive codec (broadcast_bundle bundle) c = ok (
    record c { horizon = raise_horizon bundle.frame c.horizon },
    map (λ conn. send_frame_bundle conn bundle) c.conns,
  )
  receive codec (remote_bundle bundle from) c = ok (
    record c { horizon = raise_horizon bundle.frame c.horizon },
    raw_remote_bundle bundle ∷ forward_to bundle from c.conns,
  )
  receive codec (bootstrap_frame boot) c = do
    sent ← send_boot codec boot c.bootstraps
    left ← remove_bootstraps boot.frame c.bootstraps
    ok (record c { bootstraps = left }, sent)

  unfoldable pub receive_all :
      Codec G D
      → List (CommunicatorInput G E)
      → Communicator
      → Outcome (Communicator × List (Effect E D))
  receive_all codec [] c = ok (c, [])
  receive_all codec (i ∷ is) c = do
    done ← receive codec i c
    rest ← receive_all codec is done.0
    ok (rest.0, done.1 ++ rest.1)

abbrev pub num_conns : Communicator → ℕ
num_conns c = length c.conns
