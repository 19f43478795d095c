-- ===== src/StandardNetwork/Handshake.antt =====
-- What the buffers do to what is read, and the agreement of the two ends of a join.
use pnf.Base.{
  ◌≡◌, refl, ◌∙◌, ap, subst, ℕ, zero, suc, ◌+◌, ◌≤◌, ◌<◌, true, false, Option, none, some, List, [],
  ◌∷◌, ◌++◌, map, length, replicate, length-append, length-replicate, arith, if◌then◌else◌,
}
use pnf.Base.Slices.{take}
use mathlib.Core.Path.{ap₂}
use pnf.TcpConn.{Bytes}
use pnf.StandardNetwork.{
  drop, read_into, same_bytes, StandardRemoteHost, Packet, collect, PingCalls, buffer_size,
  join_buffer_size, handle_ping_request, unable_to_join, read_bytes, JoinCalls, JoinResponse, conn,
  join_failed, fail, fail_prefix, success, read_answer, handle_join_request, Served, serve_join,
}

take-append : (g t : Bytes) → take (length g) (g ++ t) ≡ g
take-append [] t = refl
take-append (x ∷ g) t = ap (λ k. x ∷ k) (take-append g t)

length-take_le : (n : ℕ) (xs : Bytes) → length (take n xs) ≤ n
length-take_le zero xs = omega arith
length-take_le (suc n) [] = omega arith
length-take_le (suc n) (x ∷ xs) = omega (arith, length-take_le n xs)

length-drop : (n : ℕ) (xs : Bytes) → n ≤ length xs → n + length (drop n xs) ≡ length xs
length-drop zero xs h = omega arith
length-drop (suc n) [] h = absurd (omega arith)
length-drop (suc n) (x ∷ xs) h = omega (arith, length-drop n xs (omega arith))

take_all : (n : ℕ) (xs : Bytes) → length xs ≤ n → take n xs ≡ xs
take_all zero [] h = refl
take_all zero (x ∷ xs) h = absurd (omega arith)
take_all (suc n) [] h = refl
take_all (suc n) (x ∷ xs) h = ap (λ k. x ∷ k) (take_all n xs (omega arith))

-- What is read is what there was, cut to the buffer, whatever the buffer had.
read_back :
    (buf bytes : Bytes)
    → take (read_into buf bytes).0 (read_into buf bytes).1 ≡ take (length buf) bytes
unfolding read_into
read_back buf bytes =
    take-append (take (length buf) bytes) (drop (length (take (length buf) bytes)) buf)

length-read_into : (buf bytes : Bytes) → length (read_into buf bytes).1 ≡ length buf
unfolding read_into
length-read_into buf bytes =
    let got = take (length buf) bytes in
    omega (
      arith,
      length-append got (drop (length got) buf),
      length-drop (length got) buf (length-take_le (length buf) bytes),
      length-take_le (length buf) bytes,
    )

-- the host that a packet names
abbrev pub from_packet : ℕ → Packet → StandardRemoteHost
from_packet n p = record { content = take n p.bytes; ip = p.addr_ip; port = p.addr_port }

collect_lem :
    (n : ℕ) (buf : Bytes) (ps : List Packet)
    → length buf ≡ n
    → collect buf ps ≡ map (from_packet n) ps
unfolding collect
collect_lem n buf [] h = refl
collect_lem n buf (p ∷ ps) h =
    let first : take (read_into buf p.bytes).0 (read_into buf p.bytes).1 ≡ take n p.bytes =
      read_back buf p.bytes ∙ ap (λ k. take k p.bytes) h in
    ap₂ ◌∷◌ (ap (λ (k : Bytes). record { content = k; ip = p.addr_ip; port = p.addr_port }) first)
      (collect_lem n (read_into buf p.bytes).1 ps (length-read_into buf p.bytes ∙ h))

-- When every call succeeds, `Ping` returns one host for each packet that came before the deadline, in
-- order, with its sender and its own bytes, cut to 2048: none has bytes of a packet before it, though
-- all are read into one buffer.
ping_collects :
    (calls : PingCalls)
    → calls.resolve ≡ none
    → calls.dial ≡ none
    → calls.write ≡ none
    → calls.listen ≡ none
    → calls.set_deadline ≡ none
    → ((handle_ping_request calls).hosts ≡ map (from_packet buffer_size) calls.packets)
      × ((handle_ping_request calls).err ≡ none)
unfolding handle_ping_request
ping_collects calls a b c d e =
    rw (handle_ping_request, a, b, c, d, e)
      (
        collect_lem buffer_size (replicate buffer_size 0) calls.packets
            (length-replicate {A = ℕ} buffer_size 0),
        refl,
      )

-- the calls of a client that is connected, and reads these bytes
abbrev pub connected_calls : Bytes → JoinCalls
connected_calls bytes = record {
  resolve = none;
  dial = none;
  write = none;
  read = read_bytes bytes;
}

-- A join, where the host has read the whole request and the client the first `k` bytes of what the
-- host has written.
abbrev pub host_side : (Bytes → Option Bytes) → Bytes → Served
host_side join_func request = serve_join join_func (read_bytes request) true

abbrev pub client_side : (Bytes → Option Bytes) → Bytes → ℕ → JoinResponse
client_side join_func request k =
    handle_join_request (connected_calls (take k (host_side join_func request).written))

take_prefix : (n : ℕ) (x y z : Bytes) → length x ≤ n → take (length x) (take n (x ++ y) ++ z) ≡ x
take_prefix n [] y z h = refl
take_prefix zero (a ∷ x) y z h = absurd (omega arith)
take_prefix (suc n) (a ∷ x) y z h = ap (λ k. a ∷ k) (take_prefix n x y z (omega arith))

-- An answer of four bytes at least: they decide.
read_answer_lem :
    (buf x y : Bytes)
    → length x ≡ 4
    → 4 ≤ length buf
    → read_answer buf (x ++ y) ≡ (
        if same_bytes x fail
        then join_failed (unable_to_join (take (length buf) (x ++ y)))
        else conn)
unfolding read_answer read_into
read_answer_lem buf x y four room =
    let first : take 4 (read_into buf (x ++ y)).1 ≡ x =
      subst (λ n. take n (read_into buf (x ++ y)).1 ≡ x) four
        (take_prefix (length buf) x y (drop (length (take (length buf) (x ++ y))) buf)
          (omega arith)) in
    rw (read_answer, first, read_back buf (x ++ y))

abbrev join_buffer : Bytes
join_buffer = replicate join_buffer_size 0

length-join_buffer : length join_buffer ≡ join_buffer_size
length-join_buffer = length-replicate {A = ℕ} join_buffer_size 0

whole_request :
    (request : Bytes)
    → length request ≤ join_buffer_size
    → take (read_into join_buffer request).0 (read_into join_buffer request).1 ≡ request
whole_request request a =
    read_back join_buffer request
    ∙ ap (λ n. take n request) length-join_buffer
    ∙ take_all join_buffer_size request a

host_accepts :
    (join_func : Bytes → Option Bytes) (request : Bytes)
    → length request ≤ join_buffer_size
    → join_func request ≡ none
    → host_side join_func request ≡ record { written = success; given = true }
unfolding serve_join
host_accepts join_func request a h = rw (serve_join, whole_request request a, h)

host_refuses :
    (join_func : Bytes → Option Bytes) (request e : Bytes)
    → length request ≤ join_buffer_size
    → join_func request ≡ some e
    → host_side join_func request ≡ record { written = fail_prefix ++ e; given = false }
unfolding serve_join
host_refuses join_func request e a h = rw (serve_join, whole_request request a, h)

-- Of a request that the host reads whole: if the host's function accepts it, the client has a
-- connection, and the host has one; if it refuses, then neither has one, and the client's error ends
-- with the part of the refusal that it read. The client reads at least four bytes of the answer, and
-- no more than its buffer holds.
pub join_agrees :
    (join_func : Bytes → Option Bytes) (request : Bytes) (k : ℕ)
    → length request ≤ join_buffer_size
    → 4 ≤ k
    → k ≤ join_buffer_size
    → (join_func request ≡ none
        → (client_side join_func request k ≡ conn) × ((host_side join_func request).given ≡ true))
      × ((e : Bytes)
          → join_func request ≡ some e
          → (client_side join_func request k
              ≡ join_failed (unable_to_join (take k (fail_prefix ++ e))))
            × ((host_side join_func request).given ≡ false))
unfolding handle_join_request same_bytes
join_agrees join_func request zero a b c = absurd (omega arith)
join_agrees join_func request (suc zero) a b c = absurd (omega arith)
join_agrees join_func request (suc (suc zero)) a b c = absurd (omega arith)
join_agrees join_func request (suc (suc (suc zero))) a b c = absurd (omega arith)
join_agrees join_func request (suc (suc (suc (suc k)))) a b c = (
  λ accepts.
      let host = host_accepts join_func request a accepts in
      (
        ap (λ s. handle_join_request (connected_calls (take (suc (suc (suc (suc k)))) s.written)))
              host
            ∙ read_answer_lem join_buffer (83 ∷ 85 ∷ 67 ∷ 67 ∷ []) (take k (69 ∷ 83 ∷ 83 ∷ [])) refl
                (omega arith),
        ap (λ s. s.given) host,
      ),
  λ e refuses.
      let host = host_refuses join_func request e a refuses in
      (
        ap (λ s. handle_join_request (connected_calls (take (suc (suc (suc (suc k)))) s.written)))
              host
            ∙ read_answer_lem join_buffer fail (take k (58 ∷ 32 ∷ e)) refl (omega arith)
            ∙ ap (λ x. join_failed (unable_to_join (70 ∷ 65 ∷ 73 ∷ 76 ∷ x)))
                (take_all 1020 (take k (58 ∷ 32 ∷ e))
                  (omega (arith, length-take_le k (58 ∷ 32 ∷ e)))),
        ap (λ s. s.given) host,
      ),
)

-- A refusal of which the client's read returns fewer than four bytes, as TCP may do, gives it a
-- connection, and the host none.
pub short_refusal_joins :
    (join_func : Bytes → Option Bytes) (request e : Bytes) (k : ℕ)
    → length request ≤ join_buffer_size
    → join_func request ≡ some e
    → k < 4
    → (client_side join_func request k ≡ conn) × ((host_side join_func request).given ≡ false)
unfolding handle_join_request read_answer read_into same_bytes
short_refusal_joins join_func request e k a refuses few =
    let host = host_refuses join_func request e a refuses in
    (
      ap (λ s. handle_join_request (connected_calls (take k s.written))) host ∙ short_answer k few,
      ap (λ s. s.given) host,
    )
  where
    short_answer :
        (n : ℕ) → n < 4 → handle_join_request (connected_calls (take n (fail_prefix ++ e))) ≡ conn
    short_answer zero h = refl
    short_answer (suc zero) h = refl
    short_answer (suc (suc zero)) h = refl
    short_answer (suc (suc (suc zero))) h = refl
    short_answer (suc (suc (suc (suc n)))) h = absurd (omega arith)
