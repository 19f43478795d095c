-- ===== src/StandardNetwork/Hosting/Blocked.antt =====
-- What it takes to turn hosting off, and what it leaves.
use pnf.Base.{
  ◌≡◌, ◌≢◌, inl, inr, refl, sym, ◌∙◌, ap, subst, ℕ, zero, suc, ◌+◌, ◌≤◌, Bool, true, false, Option,
  some, List, [], ◌∷◌, arith, if◌then◌else◌, Option-cases,
}
use pnf.TcpConn.{Bytes}
use pnf.MockNetwork.{PingResult}
use pnf.StandardNetwork.Hosting.{
  HostRequest, Launch, ping_fails, join_fails, launched, Phase, idle, giving_up, killing,
  PingRoutine, absent, listening, draining, HostState, make_tcp_udp_network, launch_routines,
  set_hosting, host_request, signalled, sends_kill, Label, reads_signal, fails, Step, request,
  timeout, packet, packet_stops, read_fails, drained, closes, Run, done, then_step,
}
use pnf.StandardNetwork.Hosting.Sound.{
  receivers, closers, waits, Fits, IsSound, state, Step-IsSound, preserved, Run-IsSound,
}
use pnf.Base.Slices.{All}

-- no packet arrives and no read fails
abbrev pub IsSilent : Label → Type 0
IsSilent x = (x ≢ reads_signal) × (x ≢ fails)

-- `routine` waits at a send on `kill` while the ping goroutine listens.
record IsBlocked (n : HostState) : Type 0 where
  sound : IsSound n
  waiting : sends_kill n.phase ≡ true
  listens : n.ping_routine ≡ listening

module _ (ping : Option (Bytes → PingResult)) (join : Option (Bytes → Option Bytes)) (kill : Bool)
    (ping_routine : PingRoutine) (stale_loops : ℕ) where
  -- the listener for joins is closed, and the other signal still waits
  closes_by_phase :
      (phase : Phase) (result : Launch)
      → sends_kill phase ≡ true
      → ping_routine ≡ listening
      → Fits (state ping join kill ping_routine true stale_loops phase) phase
      → (sends_kill
            (signalled result
              (state ping join kill ping_routine false (suc stale_loops) phase)).phase
          ≡ true)
        × ((signalled result
              (state ping join kill ping_routine false (suc stale_loops) phase)).ping_routine
            ≡ listening)
  unfolding signalled
  closes_by_phase idle result e l f = cc
  closes_by_phase giving_up result e l f = absurd (omega (arith, f.2))
  closes_by_phase (killing zero req) result e l f = absurd (omega (arith, f.1, ap waits l))
  closes_by_phase (killing (suc zero) req) result e l f = absurd (omega (arith, f.1, ap waits l))
  closes_by_phase (killing (suc (suc i)) req) result e l f = (refl, l)

Step-IsBlocked : {n m : HostState} {x : Label} → Step n m x → IsSilent x → IsBlocked n → IsBlocked m
Step-IsBlocked {n = n} (request req result h q) quiet b =
    absurd (let e : sends_kill n.phase ≡ false = ap sends_kill h in let w = b.waiting in cc)
Step-IsBlocked (timeout h q) quiet b = subst IsBlocked (sym q) b
Step-IsBlocked (packet f h e g q) quiet b = subst IsBlocked (sym q) b
Step-IsBlocked (packet_stops result h e q) quiet b = absurd (quiet.0 refl)
Step-IsBlocked (read_fails h q) quiet b = absurd (quiet.1 refl)
Step-IsBlocked (drained result h e q) quiet b = absurd (let l = b.listens in cc)
Step-IsBlocked {n = n} (closes result h e q) quiet b =
    let s = Step-IsSound (closes result h e refl) b.sound in
    let f : Fits (record n { closer = true }) n.phase =
      subst (λ c. Fits (record n { closer = c }) n.phase) h b.sound.fits in
    let w =
      closes_by_phase n.ping n.join n.kill n.ping_routine n.stale_loops n.phase result b.waiting
        b.listens f in
    subst IsBlocked (sym q) (record { sound = s; waiting = w.0; listens = w.1 })

Run-IsBlocked :
    {n m : HostState} (xs : List Label) → Run n xs m → All IsSilent xs → IsBlocked n → IsBlocked m
Run-IsBlocked [] done a b = b
Run-IsBlocked (x ∷ xs) (then_step s r) a b = Run-IsBlocked xs r a.1 (Step-IsBlocked s a.0 b)

-- Deadlines do not turn hosting off: from any state that hosting can reach, in which `routine` waits
-- at a send on `kill` and the ping goroutine listens, it still waits after every run in which no
-- packet arrives and no read fails. So it takes no request, to host, ping or join, until then.
pub blocked_until_packet :
    (xs ys : List Label) (n m : HostState)
    → Run make_tcp_udp_network xs n
    → sends_kill n.phase ≡ true
    → n.ping_routine ≡ listening
    → Run n ys m
    → All IsSilent ys
    → (sends_kill m.phase ≡ true) × (m.ping_routine ≡ listening)
blocked_until_packet xs ys n m before waiting listens run silent =
    let b =
      Run-IsBlocked ys run silent
        (record { sound = Run-IsSound xs before; waiting = waiting; listens = listens }) in
    (b.waiting, b.listens)

-- the accept loops, with those whose listener is not closed yet
abbrev accept_loops : HostState → ℕ
accept_loops n = closers n.closer + n.stale_loops

closers_le : (b : Bool) → closers b ≤ 1
closers_le true = omega arith
closers_le false = omega arith

waits_le : (p : PingRoutine) → waits p ≤ 1
waits_le absent = omega arith
waits_le listening = omega arith
waits_le draining = omega arith

launch_routines-loops :
    (result : Launch) (n : HostState) → accept_loops n ≤ accept_loops (launch_routines result n)
launch_routines-loops ping_fails n = omega arith
launch_routines-loops join_fails n = omega arith
launch_routines-loops launched n = omega (arith, closers_le n.closer)

set_hosting-loops :
    (req : HostRequest) (result : Launch) (n : HostState)
    → accept_loops n ≤ accept_loops (set_hosting req result n)
unfolding set_hosting
set_hosting-loops req result n = elim (Option-cases req.ping) [
  | inl off ↦ rw (set_hosting, off) (omega arith)
  | inr (f, some_ping) ↦ elim (Option-cases req.join) [
    | inl off ↦ rw (set_hosting, some_ping, off) (omega arith)
    | inr (g, some_join) ↦
        rw (set_hosting, some_ping, some_join)
          (launch_routines-loops result (record n { ping = some f; join = some g }))
  ]
]

state_loops :
    (ping : Option (Bytes → PingResult)) (join : Option (Bytes → Option Bytes)) (kill : Bool)
    (ping_routine : PingRoutine) (closer : Bool) (stale_loops : ℕ) (phase : Phase) (result : Launch)
    → (closers closer + stale_loops)
      ≤ accept_loops (signalled result (state ping join kill ping_routine closer stale_loops phase))
unfolding signalled
state_loops ping join kill p c s idle result = omega arith
state_loops ping join kill p c s giving_up result = omega arith
state_loops ping join kill p c s (killing zero req) result = omega arith
state_loops ping join kill p c s (killing (suc zero) req) result =
    set_hosting-loops req result (state ping join kill p c s (killing 1 req))
state_loops ping join kill p c s (killing (suc (suc i)) req) result = omega arith

signalled-loops :
    (result : Launch) (n : HostState) → accept_loops n ≤ accept_loops (signalled result n)
signalled-loops result n =
    state_loops n.ping n.join n.kill n.ping_routine n.closer n.stale_loops n.phase result

either_loops :
    (b : Bool) (n x y : HostState)
    → accept_loops n ≤ accept_loops x
    → accept_loops n ≤ accept_loops y
    → accept_loops n ≤ accept_loops (if b then x else y)
either_loops true n x y h k = h
either_loops false n x y h k = k

request-loops :
    (req : HostRequest) (result : Launch) (n : HostState)
    → accept_loops n ≤ accept_loops (host_request req result n)
unfolding host_request
request-loops req result n =
    either_loops n.kill n (record n { phase = killing 2 req }) (set_hosting req result n)
      (omega arith) (set_hosting-loops req result n)

Step-loops : {n m : HostState} {x : Label} → Step n m x → accept_loops n ≤ accept_loops m
Step-loops {n = n} (request req result h q) =
    subst (λ m. accept_loops n ≤ accept_loops m) (sym q) (request-loops req result n)
Step-loops {n = n} (timeout h q) =
    subst (λ m. accept_loops n ≤ accept_loops m) (sym q) (omega arith)
Step-loops {n = n} (packet f h e g q) =
    subst (λ m. accept_loops n ≤ accept_loops m) (sym q) (omega arith)
Step-loops {n = n} (packet_stops result h e q) =
    subst (λ m. accept_loops n ≤ accept_loops m) (sym q)
      (signalled-loops result (record n { ping_routine = absent }))
Step-loops {n = n} (read_fails h q) =
    subst (λ m. accept_loops n ≤ accept_loops m) (sym q) (omega arith)
Step-loops {n = n} (drained result h e q) =
    subst (λ m. accept_loops n ≤ accept_loops m) (sym q)
      (signalled-loops result (record n { ping_routine = absent }))
Step-loops {n = n} (closes result h e q) =
    subst (λ m. accept_loops n ≤ accept_loops m) (sym q)
      (omega (
        arith,
        ap closers h,
        signalled-loops result (record n { closer = false; stale_loops = suc n.stale_loops }),
      ))

Run-loops : {n m : HostState} {xs : List Label} → Run n xs m → accept_loops n ≤ accept_loops m
Run-loops done = omega arith
Run-loops (then_step s r) = omega (arith, Step-loops s, Run-loops r)

off_closed : (phase : Phase) (m : HostState) → m.kill ≡ false → Fits m phase → closers m.closer ≡ 0
off_closed idle m off f =
    let none_left : receivers m ≡ 0 = f ∙ ap (λ (k : Bool). if k then 2 else 0) off in omega arith
off_closed giving_up m off f = f.2
off_closed (killing k req) m off f = absurd (let on = f.0 in cc)

-- Once hosting is on, every run that turns it off leaves an accept loop whose listener is closed.
pub off_leaves_stale_loop :
    (xs ys : List Label) (n m : HostState)
    → Run make_tcp_udp_network xs n
    → n.kill ≡ true
    → n.phase ≡ idle
    → Run n ys m
    → m.kill ≡ false
    → 1 ≤ m.stale_loops
off_leaves_stale_loop xs ys n m before on at_loop run off =
    let s = Run-IsSound xs before in
    let f : Fits n idle = subst (Fits n) at_loop s.fits in
    let two : receivers n ≡ 2 = f ∙ ap (λ (k : Bool). if k then 2 else 0) on in
    let e = preserved run s in
    omega (arith, waits_le n.ping_routine, Run-loops run, off_closed m.phase m off e.fits)
