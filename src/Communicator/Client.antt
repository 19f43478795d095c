-- ===== src/Communicator/Client.antt =====
-- The other goroutines of core/communicator.go: `Join`, `bootstrapRoutine` and `connRoutine`.
use pnf.Base.{ℕ, Bool, true, false, Option, none, some, List, [], ◌∷◌, ◌++◌, map, if◌then◌else◌}
use pnf.Base.Words.{lt32}
use pnf.Event.{FrameBundle}
use pnf.Updater.{BootstrapFrame}
use pnf.Communicator.{
  Codec, InitialData, Effect, send_data, close_conn, raw_remote_bundle, join_engine, go_conn,
  fan_in,
}

-- What a connection delivers: a value, or that the channel is closed.
pub data Delivery (E D : Type 0) : Type 0 where
  data_arrives : D → Delivery E D
  data_closed : Delivery E D
  bundle_arrives : FrameBundle E → Delivery E D
  -- a closed channel of bundles gives the zero bundle
  bundles_closed : FrameBundle E → Delivery E D

-- What `Join` returns.
pub data Joined (G E : Type 0) : Type 0 where
  joined : BootstrapFrame G → ℕ → List (FrameBundle E) → Joined G E
  join_failed : Joined G E
  -- it still waits
  joining : InitialData → List (FrameBundle E) → Joined G E

module _ {G E D : Type 0} (codec : Codec G D) (conn : ℕ) where
  -- the end of `Join`: the game has arrived, or what stands for it
  unfoldable pub end_join :
      InitialData
      → List (FrameBundle E)
      → Option (BootstrapFrame G)
      → Joined G E × List (Effect E D)
  end_join initial bundles none = (join_failed, close_conn conn ∷ [])
  end_join initial bundles (some boot) = elim (codec.encode_bool true) [
    | none ↦ (join_failed, close_conn conn ∷ [])
    | some ready ↦ (
      joined boot initial.id bundles,
      send_data conn ready ∷ map (λ b. raw_remote_bundle b) bundles,
    )
  ]

  -- the loop of `Join`. A closed channel delivers the zero value: no data, which does not decode.
  unfoldable pub join_loop :
      InitialData → List (FrameBundle E) → List (Delivery E D) → Joined G E × List (Effect E D)
  join_loop initial bundles [] = (joining initial bundles, [])
  join_loop initial bundles (bundle_arrives b ∷ ds) =
      join_loop initial (if lt32 initial.horizon b.frame then bundles ++ (b ∷ []) else bundles) ds
  join_loop initial bundles (bundles_closed b ∷ ds) =
      join_loop initial (if lt32 initial.horizon b.frame then bundles ++ (b ∷ []) else bundles) ds
  join_loop initial bundles (data_arrives d ∷ ds) = end_join initial bundles (codec.decode_boot d)
  join_loop initial bundles (data_closed ∷ ds) = end_join initial bundles none

  -- `Join`, with its first datum apart
  unfoldable pub join : D → List (Delivery E D) → Joined G E × List (Effect E D)
  join first ds = elim (codec.decode_initial first) [
    | none ↦ (join_failed, close_conn conn ∷ [])
    | some initial ↦ join_loop initial [] ds
  ]

  -- `bootstrapRoutine`, on what `RecvData` delivers, `none` if it is closed
  unfoldable pub bootstrap_routine : ℕ → Option D → List (Effect E D)
  bootstrap_routine id none = close_conn conn ∷ []
  bootstrap_routine id (some d) = elim (codec.decode_bool d) [
    | none ↦ close_conn conn ∷ []
    | some ready ↦ if ready then join_engine id ∷ go_conn conn ∷ [] else (close_conn conn ∷ [])
  ]

-- `connRoutine`: what it sends on `remote_fan_in`, and whether it has ended (`active_conns.Done`)
unfoldable pub conn_routine : {E D : Type 0} → ℕ → List (Delivery E D) → List (Effect E D) × Bool
conn_routine conn [] = ([], false)
conn_routine conn (data_arrives d ∷ ds) = conn_routine conn ds
conn_routine conn (data_closed ∷ ds) = ([], true)
conn_routine conn (bundle_arrives b ∷ ds) =
    let rest = conn_routine conn ds in (fan_in b conn ∷ rest.0, rest.1)
conn_routine conn (bundles_closed zero_bundle ∷ ds) = (fan_in zero_bundle conn ∷ [], true)
