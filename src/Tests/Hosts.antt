-- ===== src/Tests/Hosts.antt =====
-- Two hosts of one process, and a host and a client of the network.
use pnf.Base.{◌≡◌, ◌≢◌, refl, ℕ, ◌≤◌, true, false, Option, none, some, [], ◌∷◌, ◌++◌, arith}
use pnf.Base.Slices.{take}
use pnf.Base.Outcome.{ok}
use pnf.TcpConn.{Bytes}
use pnf.MockNetwork.{
  PingResult, ping_data, NetworkMock, joined, new_host_mock, host, is_connected, index_of,
  make_conn_mock_pair, join_host, check_join, join_locked,
}
use pnf.MockNetwork.Joins.{JoinDone, join_locked-JoinDone}
use pnf.MockNetwork.Sound.{
  IsSound, no_hosts, Reach, started, created, hosting, checking, joining, Reach-IsSound,
}
use pnf.StandardNetwork.{unable_to_join, conn, join_failed, fail_prefix}
use pnf.StandardNetwork.Handshake.{client_side, host_side, join_agrees, short_refusal_joins}
use pnf.StandardNetwork.Hosting.{
  HostRequest, launched, HostState, make_tcp_udp_network, set_hosting, host_request, signalled,
  sends_kill, idle, killing, listening, requested, timed_out, reads_signal, closed, request,
  timeout, packet_stops, closes, Run, done, then_step,
}
use pnf.StandardNetwork.Hosting.Sound.{Run-IsSound}
use pnf.StandardNetwork.Hosting.Sound
use pnf.StandardNetwork.Hosting.Blocked.{blocked_until_packet, off_leaves_stale_loop}

-- a host that answers every ping and lets everyone join
abbrev answers : Option (Bytes → PingResult)
answers = some (λ bytes. ping_data bytes)

abbrev accepts : Option (Bytes → Option Bytes)
accepts = some (λ bytes. none)

-- both hosts let everyone join
abbrev one_hosts : NetworkMock
one_hosts = host 0 answers accepts (new_host_mock (new_host_mock no_hosts).0).0

abbrev two_hosts : NetworkMock
two_hosts = host 1 answers accepts one_hosts

-- Each has looked at its own connections, to join the other.
two_waiting : Reach two_hosts ((0, 1) ∷ (1, 0) ∷ [])
unfolding check_join host new_host_mock is_connected
two_waiting = checking two_hosts ((1, 0) ∷ []) 0 1 (omega arith) refl (
    checking two_hosts [] 1 0 (omega arith) refl (
      hosting one_hosts [] 1 answers accepts (
        hosting (new_host_mock (new_host_mock no_hosts).0).0 [] 0 answers accepts
          (created (new_host_mock no_hosts).0 [] (created no_hosts [] started)))))

abbrev two_joined : NetworkMock
two_joined =
    let made = make_conn_mock_pair 1 0 two_hosts in record (made.0) { arriving = (0, made.1) ∷ [] }

joins : join_locked 1 0 (9 ∷ []) two_hosts ≡ ok (two_joined, joined 0)
unfolding join_locked join_host index_of new_host_mock host is_connected make_conn_mock_pair
joins = refl

two_joined-Reach : Reach two_joined ((0, 1) ∷ [])
two_joined-Reach =
    joining two_hosts two_joined ((0, 1) ∷ []) [] 1 0 (9 ∷ []) (joined 0) joins two_waiting

Reach-IsSound_example : IsSound two_joined
Reach-IsSound_example = Reach-IsSound two_joined ((0, 1) ∷ []) two_joined-Reach

apart : ◌≢◌ {A = ℕ} 1 0
apart e = absurd (omega arith)

join_locked-JoinDone_example : JoinDone 1 0 (9 ∷ []) two_hosts two_joined (joined 0)
join_locked-JoinDone_example =
    join_locked-JoinDone 1 0 (9 ∷ []) two_hosts two_joined (joined 0) apart joins

-- it refuses every request that is not empty
abbrev refuses_some : Bytes → Option Bytes
refuses_some [] = none
refuses_some (b ∷ bs) = some (66 ∷ 65 ∷ 68 ∷ [])

join_agrees_example :
    (refuses_some (1 ∷ []) ≡ none
      → (client_side refuses_some (1 ∷ []) 5 ≡ conn)
        × ((host_side refuses_some (1 ∷ [])).given ≡ true))
    × ((e : Bytes)
        → refuses_some (1 ∷ []) ≡ some e
        → (client_side refuses_some (1 ∷ []) 5
            ≡ join_failed (unable_to_join (take 5 (fail_prefix ++ e))))
          × ((host_side refuses_some (1 ∷ [])).given ≡ false))
join_agrees_example = join_agrees refuses_some (1 ∷ []) 5 (omega arith) (omega arith) (omega arith)

short_refusal_joins_example :
    (client_side refuses_some (1 ∷ []) 3 ≡ conn) × ((host_side refuses_some (1 ∷ [])).given ≡ false)
short_refusal_joins_example =
    short_refusal_joins refuses_some (1 ∷ []) (66 ∷ 65 ∷ 68 ∷ []) 3 (omega arith) refl (omega arith)

abbrev on : HostRequest
on = record { ping = answers; join = accepts }

abbrev off : HostRequest
off = record { ping = none; join = none }

-- hosting is on; then it is to be turned off; then the listener for joins is closed; then a packet
-- has come
abbrev on_state : HostState
on_state = record {
  ping = answers;
  join = accepts;
  kill = true;
  phase = idle;
  ping_routine = listening;
  closer = true;
  stale_loops = 0;
}

abbrev stopping : HostState
stopping = record on_state { phase = killing 2 off }

abbrev half_stopped : HostState
half_stopped = record on_state { phase = killing 1 off; closer = false; stale_loops = 1 }

abbrev off_state : HostState
off_state = record make_tcp_udp_network { stale_loops = 1 }

turned_on : Run make_tcp_udp_network (requested on ∷ []) on_state
unfolding host_request set_hosting
turned_on = then_step (request on launched refl refl) done

to_stop : Run make_tcp_udp_network (requested on ∷ requested off ∷ []) stopping
unfolding host_request set_hosting
to_stop =
    then_step (request on launched refl refl) (then_step (request off launched refl refl) done)

waits_on : Run stopping (timed_out ∷ closed ∷ timed_out ∷ []) half_stopped
unfolding signalled
waits_on =
    then_step (timeout refl refl)
      (then_step (closes launched refl refl refl) (then_step (timeout refl refl) done))

turned_off : Run on_state (requested off ∷ closed ∷ reads_signal ∷ []) off_state
unfolding host_request set_hosting signalled
turned_off = then_step (request off launched refl refl) (
    then_step (closes launched refl refl refl)
      (then_step (packet_stops launched refl refl refl) done))

Run-IsSound_example : Sound.IsSound stopping
Run-IsSound_example = Run-IsSound (requested on ∷ requested off ∷ []) to_stop

blocked_until_packet_example :
    (sends_kill half_stopped.phase ≡ true) × (half_stopped.ping_routine ≡ listening)
blocked_until_packet_example =
    blocked_until_packet (requested on ∷ requested off ∷ []) (timed_out ∷ closed ∷ timed_out ∷ [])
      stopping half_stopped to_stop refl refl waits_on
      (((λ e. cc), (λ e. cc)), (((λ e. cc), (λ e. cc)), (((λ e. cc), (λ e. cc)), tt)))

off_leaves_stale_loop_example : 1 ≤ off_state.stale_loops
off_leaves_stale_loop_example =
    off_leaves_stale_loop (requested on ∷ []) (requested off ∷ closed ∷ reads_signal ∷ []) on_state
      off_state turned_on refl refl turned_off refl
