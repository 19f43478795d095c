-- ===== src/StandardNetwork.antt =====
-- core/network_standard.go, `networkTcpUdp`: how hosts are found and joined. What the functions of
-- the package net answer is an argument, with the text of an error; a `Sprintf` is the error's
-- constructor. A read fills a buffer, which keeps what it had after the bytes that are read.
pub mod Handshake
pub mod Hosting
use pnf.Base.{
  ℕ, zero, suc, ◌==◌, Bool, true, false, ◌&&◌, Option, none, some, List, [], ◌∷◌, ◌++◌, length,
  replicate, if◌then◌else◌,
}
use pnf.Base.Slices.{take}
use pnf.TcpConn.{Bytes}
use pnf.MockNetwork.{PingResult}

pub data NetError : Type 0 where
  -- "Unable to resolve ...", "Unable to dial", ...
  unable_to_resolve unable_to_dial unable_to_broadcast unable_to_listen unable_to_write
        unable_to_read unable_to_join :
      Bytes → NetError
  invalid_remote_host : NetError

abbrev pub drop : ℕ → Bytes → Bytes
drop zero xs = xs
drop (suc n) [] = []
drop (suc n) (x ∷ xs) = drop n xs

-- A read into a buffer, of what there is to read: the number of bytes, and the buffer.
unfoldable pub read_into : Bytes → Bytes → ℕ × Bytes
read_into buf bytes =
    let got = take (length buf) bytes in (length got, got ++ drop (length got) buf)

-- `==` on strings
unfoldable pub same_bytes : Bytes → Bytes → Bool
same_bytes [] [] = true
same_bytes [] (y ∷ ys) = false
same_bytes (x ∷ xs) [] = false
same_bytes (x ∷ xs) (y ∷ ys) = (x == y) && same_bytes xs ys

-- `standardRemoteHost`
pub record StandardRemoteHost : Type 0 where
  pub content : Bytes
  pub ip : Bytes
  pub port : ℕ

pub record Packet : Type 0 where
  pub bytes : Bytes
  pub addr_ip : Bytes
  pub addr_port : ℕ

-- What the calls of `handlePingRequest` answer: an error or none, and the packets that are read
-- before `ReadFromUDP` fails.
pub record PingCalls : Type 0 where
  pub resolve : Option Bytes
  pub dial : Option Bytes
  pub write : Option Bytes
  pub listen : Option Bytes
  pub set_deadline : Option Bytes
  pub packets : List Packet

-- the loop, with the buffer `data`
unfoldable pub collect : Bytes → List Packet → List StandardRemoteHost
collect data_buf [] = []
collect data_buf (p ∷ ps) =
    let r = read_into data_buf p.bytes in
    record { content = take r.0 r.1; ip = p.addr_ip; port = p.addr_port } ∷ collect r.1 ps

-- `pingResponse`
pub record PingResponse : Type 0 where
  pub hosts : List StandardRemoteHost
  pub err : Option NetError

abbrev pub ping_failed : NetError → PingResponse
ping_failed e = record { hosts = []; err = some e }

abbrev pub buffer_size : ℕ
buffer_size = 2048

abbrev pub join_buffer_size : ℕ
join_buffer_size = 1024

-- `handlePingRequest`
unfoldable pub handle_ping_request : PingCalls → PingResponse
handle_ping_request calls = elim calls.resolve [
  | some e ↦ ping_failed (unable_to_resolve e)
  | none ↦ elim calls.dial [
    | some e ↦ ping_failed (unable_to_dial e)
    | none ↦ elim calls.write [
      | some e ↦ ping_failed (unable_to_broadcast e)
      | none ↦ elim calls.listen [
        | some e ↦ ping_failed (unable_to_listen e)
        | none ↦ elim calls.set_deadline [
          | some e ↦ record { hosts = []; err = none }
          | none ↦ record { hosts = collect (replicate buffer_size 0) calls.packets; err = none }
        ]
      ]
    ]
  ]
]

-- What the calls of `handleJoinRequest` answer; `read` is an error, or what there is to read.
pub data ReadResult : Type 0 where
  read_error read_bytes : Bytes → ReadResult

pub record JoinCalls : Type 0 where
  pub resolve : Option Bytes
  pub dial : Option Bytes
  pub write : Option Bytes
  pub read : ReadResult

-- `joinResponse`
pub data JoinResponse : Type 0 where
  conn : JoinResponse
  join_failed : NetError → JoinResponse

-- `[]byte("FAIL")`, `[]byte("FAIL: ")` and `[]byte("SUCCESS")`
abbrev pub fail : Bytes
fail = 70 ∷ 65 ∷ 73 ∷ 76 ∷ []

abbrev pub fail_prefix : Bytes
fail_prefix = 70 ∷ 65 ∷ 73 ∷ 76 ∷ 58 ∷ 32 ∷ []

abbrev pub success : Bytes
success = 83 ∷ 85 ∷ 67 ∷ 67 ∷ 69 ∷ 83 ∷ 83 ∷ []

-- the answer, read into the buffer
unfoldable pub read_answer : Bytes → Bytes → JoinResponse
read_answer buf bytes =
    let r = read_into buf bytes in
    if same_bytes (take 4 r.1) fail then join_failed (unable_to_join (take r.0 r.1)) else conn

-- `handleJoinRequest`
unfoldable pub handle_join_request : JoinCalls → JoinResponse
handle_join_request calls = elim calls.resolve [
  | some e ↦ join_failed (unable_to_resolve e)
  | none ↦ elim calls.dial [
    | some e ↦ join_failed (unable_to_dial e)
    | none ↦ elim calls.write [
      | some e ↦ join_failed (unable_to_write e)
      | none ↦ elim calls.read [
        | read_error e ↦ join_failed (unable_to_read e)
        | read_bytes bytes ↦ read_answer (replicate join_buffer_size 0) bytes
      ]
    ]
  ]
]

-- `Join`; `none` is a remote host of another type
unfoldable pub join : Option (StandardRemoteHost × JoinCalls) → JoinResponse
join none = join_failed invalid_remote_host
join (some request) = handle_join_request request.1

-- What the goroutine of the host that serves an accepted connection has written, and whether it has
-- given a connection to `new_conns`.
pub record Served : Type 0 where
  pub written : Bytes
  pub given : Bool

-- `written` says whether the socket takes the answer.
unfoldable pub serve_join : (Bytes → Option Bytes) → ReadResult → Bool → Served
serve_join join_func (read_error e) written = record { written = []; given = false }
serve_join join_func (read_bytes bytes) written =
    let r = read_into (replicate join_buffer_size 0) bytes in
    elim (join_func (take r.0 r.1)) [
      | some e ↦ record { written = if written then fail_prefix ++ e else []; given = false }
      | none ↦ record { written = if written then success else []; given = written }
    ]
