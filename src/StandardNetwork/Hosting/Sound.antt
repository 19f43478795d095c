-- ===== src/StandardNetwork/Hosting/Sound.antt =====
-- Which goroutines there are in every state that hosting can reach.
use pnf.Base.{
  ◌≡◌, ◌≢◌, inl, inr, refl, sym, ◌∙◌, ap, subst, ℕ, zero, suc, ◌+◌, ◌≤◌, Bool, true, false, Option,
  none, some, List, arith, if◌then◌else◌, Option-cases,
}
use pnf.TcpConn.{Bytes}
use pnf.MockNetwork.{PingResult}
use pnf.StandardNetwork.Hosting.{
  HostRequest, Launch, ping_fails, join_fails, launched, Phase, idle, giving_up, killing,
  PingRoutine, absent, listening, draining, HostState, make_tcp_udp_network, launch_routines,
  set_hosting, host_request, signalled, sends_kill, Label, Step, request, timeout, packet,
  packet_stops, read_fails, drained, closes, Run, done, then_step,
}

-- the goroutines that wait, or will wait, for a signal on `kill`
abbrev pub waits : PingRoutine → ℕ
waits absent = 0
waits listening = 1
waits draining = 1

abbrev pub closers : Bool → ℕ
closers true = 1
closers false = 0

abbrev pub receivers : HostState → ℕ
receivers n = waits n.ping_routine + closers n.closer

-- the signals that `routine` will send before its next request, if it is at one
abbrev pub signals : Phase → ℕ
signals idle = 0
signals giving_up = 1
signals (killing k req) = k

-- In every phase: how many goroutines are left, and whether `kill` is nil.
abbrev pub Fits : HostState → Phase → Type 0
Fits n idle = receivers n ≡ (if n.kill then 2 else 0)
Fits n giving_up = (n.kill ≡ true) × (waits n.ping_routine ≡ 1) × (closers n.closer ≡ 0)
Fits n (killing k req) = (n.kill ≡ true) × (receivers n ≡ k) × (1 ≤ k)

pub record IsSound (n : HostState) : Type 0 where
  pub fits : Fits n n.phase
  -- whoever listens for pings has a function to call
  pub has_ping : n.ping_routine ≡ listening → n.ping ≢ none

-- the state after a signal has been received
abbrev Left : HostState → Phase → Type 0
Left n idle = Unit
Left n giving_up = receivers n ≡ 0
Left n (killing k req) = (n.kill ≡ true) × (suc (receivers n) ≡ k)

launched-IsSound :
    (result : Launch) (n : HostState)
    → receivers n ≡ 0
    → n.ping ≢ none
    → IsSound (launch_routines result n)
launched-IsSound ping_fails n h p = record { fits = h; has_ping = λ e. p }
launched-IsSound join_fails n h p = record { fits = (refl, refl, omega arith); has_ping = λ e. p }
launched-IsSound launched n h p = record { fits = refl; has_ping = λ e. p }

no_listener : (n : HostState) → receivers n ≡ 0 → n.ping_routine ≢ listening
no_listener n h e = absurd (let k : waits n.ping_routine ≡ 1 = ap waits e in omega arith)

set_hosting-IsSound :
    (req : HostRequest) (result : Launch) (n : HostState)
    → receivers n ≡ 0
    → IsSound (set_hosting req result n)
unfolding set_hosting
set_hosting-IsSound req result n h = elim (Option-cases req.ping) [
  | inl off ↦
      rw (set_hosting, off) (record { fits = h; has_ping = λ e. absurd (no_listener n h e) })
  | inr (f, some_ping) ↦ elim (Option-cases req.join) [
    | inl off ↦
        rw (set_hosting, some_ping, off)
          (record { fits = h; has_ping = λ e. absurd (no_listener n h e) })
    | inr (g, some_join) ↦
        rw (set_hosting, some_ping, some_join)
          (launched-IsSound result (record n { ping = some f; join = some g }) h (λ e. cc))
  ]
]

module _ (ping : Option (Bytes → PingResult)) (join : Option (Bytes → Option Bytes)) (kill : Bool)
    (ping_routine : PingRoutine) (closer : Bool) (stale_loops : ℕ) where
  abbrev pub state : Phase → HostState
  state phase = record {
    ping = ping;
    join = join;
    kill = kill;
    phase = phase;
    ping_routine = ping_routine;
    closer = closer;
    stale_loops = stale_loops;
  }

  state-signalled :
      (result : Launch) (phase : Phase)
      → sends_kill phase ≡ true
      → Left (state phase) phase
      → (ping_routine ≡ listening → ping ≢ none)
      → IsSound (signalled result (state phase))
  unfolding signalled
  state-signalled result idle e h p = cc
  state-signalled result giving_up e h p = record { fits = h; has_ping = p }
  state-signalled result (killing zero req) e h p = absurd (omega (arith, h.1))
  state-signalled result (killing (suc zero) req) e h p =
      set_hosting-IsSound req result (state (killing 1 req)) (omega (arith, h.1))
  state-signalled result (killing (suc (suc i)) req) e h p = record {
    fits = (h.0, omega (arith, h.1), omega arith);
    has_ping = p;
  }

  -- a receiver that has gone
  receiver_gone :
      (phase : Phase) (gone : HostState)
      → sends_kill phase ≡ true
      → gone.kill ≡ kill
      → receivers (state phase) ≡ suc (receivers gone)
      → Fits (state phase) phase
      → Left gone phase
  receiver_gone idle gone e k r h = cc
  receiver_gone giving_up gone e k r h = omega (arith, h.1, h.2)
  receiver_gone (killing j req) gone e k r h = (k ∙ h.0, sym r ∙ h.1)

signalled-IsSound :
    (result : Launch) (n gone : HostState)
    → n.phase ≡ gone.phase
    → sends_kill n.phase ≡ true
    → gone.kill ≡ n.kill
    → receivers n ≡ suc (receivers gone)
    → IsSound n
    → (gone.ping_routine ≡ listening → gone.ping ≢ none)
    → IsSound (signalled result gone)
signalled-IsSound result n gone same e k r s p =
    state-signalled gone.ping gone.join gone.kill gone.ping_routine gone.closer gone.stale_loops
      result gone.phase (subst (λ f. sends_kill f ≡ true) same e)
      (subst (Left gone) same (
        receiver_gone n.ping n.join n.kill n.ping_routine n.closer n.stale_loops n.phase gone e k r
          s.fits))
      p

-- of a network whose `kill` is nil, and of one whose `kill` is not
request_by_kill :
    (ping : Option (Bytes → PingResult)) (join : Option (Bytes → Option Bytes)) (kill : Bool)
    (ping_routine : PingRoutine) (closer : Bool) (stale_loops : ℕ) (req : HostRequest)
    (result : Launch)
    → IsSound (state ping join kill ping_routine closer stale_loops idle)
    → IsSound (host_request req result (state ping join kill ping_routine closer stale_loops idle))
unfolding host_request
request_by_kill ping join true ping_routine closer stale_loops req result s = record {
  fits = (refl, s.fits, omega arith);
  has_ping = s.has_ping;
}
request_by_kill ping join false ping_routine closer stale_loops req result s =
    set_hosting-IsSound req result (state ping join false ping_routine closer stale_loops idle)
      s.fits

request-IsSound :
    (req : HostRequest) (result : Launch) (n : HostState)
    → n.phase ≡ idle
    → IsSound n
    → IsSound (host_request req result n)
request-IsSound req result n h s =
    subst (λ f. IsSound (host_request req result (record n { phase = f }))) (sym h)
      (request_by_kill n.ping n.join n.kill n.ping_routine n.closer n.stale_loops req result
        (subst (λ f. IsSound (record n { phase = f })) h s))

fails_by_phase :
    (phase : Phase) (n : HostState)
    → n.ping_routine ≡ listening
    → Fits n phase
    → Fits (record n { ping_routine = draining }) phase
fails_by_phase idle n h f =
    let same : waits n.ping_routine ≡ 1 = ap waits h in
    let kept : receivers (record n { ping_routine = draining }) ≡ receivers n = omega arith in
    kept ∙ f
fails_by_phase giving_up n h f = (f.0, refl, f.2)
fails_by_phase (killing j req) n h f = (f.0, omega (arith, f.1, ap waits h), f.2)

pub Step-IsSound : {n m : HostState} {x : Label} → Step n m x → IsSound n → IsSound m
Step-IsSound {n = n} (request req result h q) s =
    subst IsSound (sym q) (request-IsSound req result n h s)
Step-IsSound (timeout h q) s = subst IsSound (sym q) s
Step-IsSound (packet f h e g q) s = subst IsSound (sym q) s
Step-IsSound {n = n} (packet_stops result h e q) s = subst IsSound (sym q) (
    signalled-IsSound result n (record n { ping_routine = absent }) refl e refl
      (omega (arith, ap waits h)) s (λ k. cc))
Step-IsSound {n = n} (read_fails h q) s =
    subst IsSound (sym q) (record { fits = fails_by_phase n.phase n h s.fits; has_ping = λ e. cc })
Step-IsSound {n = n} (drained result h e q) s = subst IsSound (sym q) (
    signalled-IsSound result n (record n { ping_routine = absent }) refl e refl
      (omega (arith, ap waits h)) s (λ k. cc))
Step-IsSound {n = n} (closes result h e q) s = subst IsSound (sym q) (
    signalled-IsSound result n (record n { closer = false; stale_loops = suc n.stale_loops }) refl e
      refl (omega (arith, ap closers h)) s s.has_ping)

make_tcp_udp_network-IsSound : IsSound make_tcp_udp_network
make_tcp_udp_network-IsSound = record { fits = refl; has_ping = λ e. cc }

pub preserved : {n m : HostState} {xs : List Label} → Run n xs m → IsSound n → IsSound m
preserved done s = s
preserved (then_step t r) s = preserved r (Step-IsSound t s)

-- However the goroutines take turns: a new network is sound after every run. While hosting is on,
-- exactly two goroutines are left to receive a signal, and none while it is off; each signal that is
-- still to be sent has one that will receive it; and whoever answers pings has a function for it.
pub Run-IsSound : {m : HostState} (xs : List Label) → Run make_tcp_udp_network xs m → IsSound m
Run-IsSound xs r = preserved r make_tcp_udp_network-IsSound
