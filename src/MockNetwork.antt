-- ===== src/MockNetwork.antt =====
-- core/network_mock.go: networks of one process. `NetworkMock` has the hosts, and each host its
-- connections. A host is a pointer: here its `id`, by which the store has its fields, also after
-- `Shutdown` has taken it off the list. A `ConnMock` is the number of its pair. What `Host` registers
-- are functions of the program. What a method does while it holds `host_mutex` is one definition:
-- `Join` looks at its own connections before it takes it, `Shutdown` takes it twice, and the goroutine
-- that `Join` begins looks at the list of hosts after it has been given back.
pub mod Conn
pub mod Registry
pub mod Joins
pub mod Sound
pub mod Crossing
use pnf.Base.{
  ℕ, zero, suc, ◌+◌, ◌-◌, Bool, true, false, Option, none, some, List, [], ◌∷◌, ◌++◌, length, ◌==◌,
  if◌then◌else◌, get_elem?,
}
use pnf.Base.Slices.{swap_remove}
use pnf.Base.Outcome.{Outcome, ok, panic, nil_pointer, index_out_of_range}
use pnf.TcpConn.{Bytes}

-- `ping` gives data, or an error, which is a text; `join` gives an error or nil.
pub data PingResult : Type 0 where
  ping_data ping_error : Bytes → PingResult

-- `hostConnMockData` with the connection that it belongs to
pub record ConnData : Type 0 where
  pub pair_id : ℕ
  pub remote_id : ℕ

-- `HostMock`. `new_conns` has the connections that were sent on the channel.
pub record HostMock : Type 0 where
  pub ping : Option (Bytes → PingResult)
  pub join : Option (Bytes → Option Bytes)
  pub conn_data : List ConnData
  pub new_conns : List ℕ

-- `NetworkMock`, with the store of the hosts that it ever had: host `i` is `store i`. `arriving` has
-- the goroutines of `Join` that have still to send on `new_conns`: the index of the host in the list,
-- and the pair.
pub record NetworkMock : Type 0 where
  pub hosts : List ℕ
  pub host_id : ℕ
  pub next_pair_id : ℕ
  pub store : ℕ → HostMock
  pub arriving : List (ℕ × ℕ)

abbrev pub new_host : HostMock
new_host = record { ping = none; join = none; conn_data = []; new_conns = [] }

-- a field of one host is assigned
abbrev pub update : (ℕ → HostMock) → ℕ → HostMock → ℕ → HostMock
update store id host q = if id == q then host else store q

-- `NewHostMock`, with the id of the host
unfoldable pub new_host_mock : NetworkMock → NetworkMock × ℕ
new_host_mock net = (
  record net {
    hosts = net.hosts ++ (net.host_id ∷ []);
    host_id = net.host_id + 1;
    store = update net.store net.host_id new_host;
  },
  net.host_id,
)

-- `Host`
unfoldable pub host :
    ℕ → Option (Bytes → PingResult) → Option (Bytes → Option Bytes) → NetworkMock → NetworkMock
host id ping join net = record net {
  store = update net.store id (record (net.store id) { ping = ping; join = join });
}

-- `networkMockRemoteHost`
pub record RemoteHost : Type 0 where
  pub result : PingResult
  pub id : ℕ

-- `Ping`: it asks every host that has a `ping`, in the order of the list.
unfoldable pub ping : Bytes → (ℕ → HostMock) → List ℕ → List RemoteHost
ping bytes store [] = []
ping bytes store (id ∷ ids) =
    let rest = ping bytes store ids in
    elim (store id).ping [ none ↦ rest | some f ↦ record { result = f bytes; id = id } ∷ rest ]

pub data JoinError : Type 0 where
  unknown_type to_itself twice already_connected not_found : JoinError
  refused : Bytes → JoinError

-- a loop over `conn_data`: is there a connection to this host?
unfoldable pub is_connected : ℕ → List ConnData → Bool
is_connected remote [] = false
is_connected remote (c ∷ cs) = if c.remote_id == remote then true else is_connected remote cs

-- the loops over `net.hosts` that look for a host, from index `i` on: in `Join` by its id, in
-- `Shutdown` by its pointer
unfoldable pub index_of : ℕ → ℕ → List ℕ → Option ℕ
index_of id i [] = none
index_of id i (j ∷ js) = if j == id then some i else index_of id (suc i) js

abbrev pub add_conn : ConnData → HostMock → HostMock
add_conn c h = record h { conn_data = h.conn_data ++ (c ∷ []) }

-- `makeConnMockPair`, with the number of the pair
unfoldable pub make_conn_mock_pair : ℕ → ℕ → NetworkMock → NetworkMock × ℕ
make_conn_mock_pair id1 id2 net =
    let pair = net.next_pair_id in
    let first =
      update net.store id1
        (add_conn (record { pair_id = pair; remote_id = id2 }) (net.store id1)) in
    let both =
      update first id2 (add_conn (record { pair_id = pair; remote_id = id1 }) (first id2)) in
    (record net { next_pair_id = pair + 1; store = both }, pair)

-- The goroutine that `Join` begins, when the receiver takes what it sends: it finds the host at the
-- index, in the list as it is now.
unfoldable pub announce : ℕ → ℕ → NetworkMock → Outcome NetworkMock
announce i pair net = elim (get_elem? net.hosts i) [
  | none ↦ panic index_out_of_range
  | some id ↦ ok (record net {
    store =
        update net.store id
          (record (net.store id) { new_conns = (net.store id).new_conns ++ (pair ∷ []) });
  })
]

pub data Joined : Type 0 where
  joined : ℕ → Joined
  join_error : JoinError → Joined

-- the body of the loop, at the host with the right id, which has index `i`
unfoldable pub join_host : ℕ → ℕ → ℕ → Bytes → NetworkMock → Outcome (NetworkMock × Joined)
join_host me remote i bytes net =
    if is_connected me (net.store remote).conn_data
    then ok (net, join_error already_connected)
    else elim (net.store remote).join [
      | none ↦ panic nil_pointer
      | some f ↦ elim (f bytes) [
        | some e ↦ ok (net, join_error (refused e))
        | none ↦
            let made = make_conn_mock_pair me remote net in
            ok (record (made.0) { arriving = (i, made.1) ∷ net.arriving }, joined made.1)
      ]
    ]

-- `Join` before it takes the mutex: an error, or that it goes on. `none` is a remote host of another
-- type.
unfoldable pub check_join : ℕ → Option ℕ → NetworkMock → Option JoinError
check_join me none net = some unknown_type
check_join me (some remote) net =
    if remote == me
    then some to_itself
    else if is_connected remote (net.store me).conn_data
    then some twice
    else none

-- `Join` while it holds the mutex
unfoldable pub join_locked : ℕ → ℕ → Bytes → NetworkMock → Outcome (NetworkMock × Joined)
join_locked me remote bytes net = elim (index_of remote 0 net.hosts) [
  | none ↦ ok (net, join_error not_found)
  | some i ↦ join_host me remote i bytes net
]

-- `ActiveConnections`
abbrev pub active_connections : ℕ → NetworkMock → ℕ
active_connections id net = length (net.store id).conn_data

-- `Shutdown` after it has called `Host` with nil: the host is taken off the list.
unfoldable pub unlist : ℕ → NetworkMock → NetworkMock
unlist id net = elim (index_of id 0 net.hosts) [
  | none ↦ net
  | some i ↦ record net { hosts = swap_remove net.hosts i }
]
