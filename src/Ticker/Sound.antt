-- ===== src/Ticker/Sound.antt =====
-- What every run of a `BasicTicker` keeps.
use pnf.Base.{
  ◌∙◌, ==_refl, ◌≡◌, refl, sym, ap, subst, ℕ, suc, ◌+◌, ◌≤◌, Option, none, some, List, [], ◌∷◌,
  ◌++◌, length, arith, Bool-cases, inl, inr, length-append, if◌then◌else◌, ◌==◌, false,
}
use pnf.Base.Outcome.{
  ok, panic, ticker_started, ticker_stopped, ok-injective, >>=-eq-ok, or_panic, nil_pointer,
}
use pnf.Ticker.{
  Forwarder, begins, waits, sends, BasicTicker, new_basic_ticker, start, stop, begin, Step, starts,
  stops, fires, goes, takes, delivers, ends, fire, holds_tick, without, Label, start_called,
  stop_called, ticked, internal, tick_received,
}

-- the runs of a new ticker
pub data Run : BasicTicker → List Label → Type 0 where
  made : Run new_basic_ticker []
  then_step :
      {b c : BasicTicker} {xs : List Label} {x : Label} → Run b xs → Step b c x → Run c (x ∷ xs)

abbrev pub starts_in : List Label → ℕ
starts_in [] = 0
starts_in (start_called ∷ xs) = suc (starts_in xs)
starts_in (stop_called ∷ xs) = starts_in xs
starts_in (ticked ∷ xs) = starts_in xs
starts_in (internal ∷ xs) = starts_in xs
starts_in (tick_received ∷ xs) = starts_in xs

abbrev pub stops_in : List Label → ℕ
stops_in [] = 0
stops_in (start_called ∷ xs) = stops_in xs
stops_in (stop_called ∷ xs) = suc (stops_in xs)
stops_in (ticked ∷ xs) = stops_in xs
stops_in (internal ∷ xs) = stops_in xs
stops_in (tick_received ∷ xs) = stops_in xs

abbrev pub ticks_in : List Label → ℕ
ticks_in [] = 0
ticks_in (start_called ∷ xs) = ticks_in xs
ticks_in (stop_called ∷ xs) = ticks_in xs
ticks_in (ticked ∷ xs) = suc (ticks_in xs)
ticks_in (internal ∷ xs) = ticks_in xs
ticks_in (tick_received ∷ xs) = ticks_in xs

abbrev pub received_in : List Label → ℕ
received_in [] = 0
received_in (start_called ∷ xs) = received_in xs
received_in (stop_called ∷ xs) = received_in xs
received_in (ticked ∷ xs) = received_in xs
received_in (internal ∷ xs) = received_in xs
received_in (tick_received ∷ xs) = suc (received_in xs)

-- the ticks that the goroutines hold
abbrev pub held : List Forwarder → ℕ
held [] = 0
held (begins ∷ fs) = held fs
held (waits k ∷ fs) = held fs
held (sends k c ∷ fs) = suc (held fs)

held-append : (fs gs : List Forwarder) → held (fs ++ gs) ≡ held fs + held gs
held-append [] gs = omega arith
held-append (begins ∷ fs) gs = held-append fs gs
held-append (waits k ∷ fs) gs = held-append fs gs
held-append (sends k c ∷ fs) gs = omega (arith, held-append fs gs)

abbrev pub count : ℕ → List ℕ → ℕ
count k [] = 0
count k (j ∷ js) = (if j == k then 1 else 0) + count k js

count-append : (k : ℕ) (xs ys : List ℕ) → count k (xs ++ ys) ≡ count k xs + count k ys
count-append k [] ys = omega arith
count-append k (x ∷ xs) ys = omega (arith, count-append k xs ys)

count_absent : (k : ℕ) (xs : List ℕ) → holds_tick k xs ≡ false → count k xs ≡ 0
count_absent k [] h = refl
count_absent k (x ∷ xs) h = ground (arith, count_absent k xs)

-- the ticker that runs, if there is one, is the last that was made
abbrev pub IsLast : Option ℕ → BasicTicker → List Label → Type 0
IsLast none b xs = (b.running ≡ []) × (starts_in xs ≡ stops_in xs)
IsLast (some k) b xs = (k ≡ b.made) × (b.running ≡ k ∷ []) × (starts_in xs ≡ suc (stops_in xs))

-- After the calls and the ticks of a run: each tick was received, or a goroutine holds it, or it
-- waits in its channel, which holds one at most, or it was dropped. The calls of `Start` and of `Stop`
-- alternate, and the ticker that `Start` made last runs until `Stop`, and no other. Each start has made
-- a channel, and a goroutine that has not ended.
pub record IsTicking (b : BasicTicker) (xs : List Label) : Type 0 where
  pub accounted : received_in xs + held b.forwarders + length b.full + b.dropped ≡ ticks_in xs
  pub one_at_most : (k : ℕ) → count k b.full ≤ 1
  pub last_runs : IsLast b.ticker b xs
  pub new_chan : (b.chan ≡ starts_in xs) × (b.made ≡ starts_in xs)
  pub none_closed : b.closed ≡ []
  pub none_ends : length b.forwarders ≡ starts_in xs

-- `Start`, by the ticker that it finds
started :
    (b c : BasicTicker) (xs : List Label) (o : Option ℕ)
    → (elim o [
      | some k ↦ panic ticker_started
      | none ↦ ok (record b {
        ticker = some (b.made + 1);
        chan = b.made + 1;
        made = b.made + 1;
        running = (b.made + 1) ∷ b.running;
        forwarders = begins ∷ b.forwarders;
      })
    ])
      ≡ ok c
    → IsLast o b xs
    → IsTicking b xs
    → IsTicking c (start_called ∷ xs)
started b c xs (some k) h r s = cc
started b c xs none h r s =
    subst (λ d. IsTicking d (start_called ∷ xs)) (ok-injective _ c h)
      (record {
        accounted = s.accounted;
        one_at_most = s.one_at_most;
        last_runs = (refl, ap (◌∷◌ (b.made + 1)) r.0, omega (arith, r.1));
        new_chan = (omega (arith, s.new_chan), omega (arith, s.new_chan));
        none_closed = s.none_closed;
        none_ends = omega (arith, s.none_ends);
      })

without_it : (k : ℕ) → without k (k ∷ []) ≡ []
without_it k = rw (==_refl k) refl

stopped :
    (b c : BasicTicker) (xs : List Label) (o : Option ℕ)
    → (elim o [
      | none ↦ panic ticker_stopped
      | some k ↦ ok (record b { ticker = none; running = without k b.running })
    ])
      ≡ ok c
    → IsLast o b xs
    → IsTicking b xs
    → IsTicking c (stop_called ∷ xs)
stopped b c xs none h r s = cc
stopped b c xs (some k) h r s =
    subst (λ d. IsTicking d (stop_called ∷ xs)) (ok-injective _ c h)
      (record {
        accounted = s.accounted;
        one_at_most = s.one_at_most;
        last_runs = (ap (without k) r.1 ∙ without_it k, r.2);
        new_chan = s.new_chan;
        none_closed = s.none_closed;
        none_ends = s.none_ends;
      })

-- a step that is no call leaves the tickers alone
IsLast-same :
    (o : Option ℕ) (b c : BasicTicker) (xs ys : List Label)
    → c.made ≡ b.made
    → c.running ≡ b.running
    → starts_in ys ≡ starts_in xs
    → stops_in ys ≡ stops_in xs
    → IsLast o b xs
    → IsLast o c ys
IsLast-same none b c xs ys m r e f (a, d) = (r ∙ a, e ∙ d ∙ sym f)
IsLast-same (some k) b c xs ys m r e f (i, a, d) = (i ∙ sym m, r ∙ a, e ∙ d ∙ ap suc (sym f))

fire-IsTicking :
    (k : ℕ) (b : BasicTicker) (xs : List Label)
    → IsTicking b xs
    → IsTicking (fire k b) (ticked ∷ xs)
unfolding fire
fire-IsTicking k b xs s = elim (Bool-cases (holds_tick k b.full)) [
  | inl e ↦ rw e (record {
    accounted = omega (arith, s.accounted);
    one_at_most = s.one_at_most;
    last_runs = IsLast-same b.ticker b _ xs _ refl refl refl refl s.last_runs;
    new_chan = s.new_chan;
    none_closed = s.none_closed;
    none_ends = s.none_ends;
  })
  | inr e ↦ rw e (record {
    accounted = omega (arith, s.accounted);
    one_at_most = λ j. ground (arith, count_absent k b.full e, s.one_at_most j);
    last_runs = IsLast-same b.ticker b _ xs _ refl refl refl refl s.last_runs;
    new_chan = s.new_chan;
    none_closed = s.none_closed;
    none_ends = s.none_ends;
  })
]

-- One goroutine changes, and holds `n` ticks then where it held `m` before.
replaced :
    (before after : List Forwarder) (f g : Forwarder)
    → (length (before ++ (g ∷ after)) ≡ length (before ++ (f ∷ after)))
      × (held (before ++ (g ∷ after)) + held (f ∷ [])
          ≡ held (before ++ (f ∷ after)) + held (g ∷ []))
replaced before after f g = (
  omega (arith, length-append before (g ∷ after), length-append before (f ∷ after)),
  omega (
    arith,
    held-append before (g ∷ after),
    held-append before (f ∷ after),
    held-append (f ∷ []) after,
    held-append (g ∷ []) after,
  ),
)

begin_waits : (b : BasicTicker) (f : Forwarder) → begin b ≡ ok f → held (f ∷ []) ≡ 0
unfolding begin
begin_waits b f h =
    let (k, e, g) = >>=-eq-ok (or_panic nil_pointer b.ticker) _ f h in
    ap (λ x. held (x ∷ [])) (sym (ok-injective (waits k) f g))

-- a goroutine goes on: the counts of ticks move together
goroutine-IsTicking :
    (b : BasicTicker) (fs : List Forwarder) (full : List ℕ) (xs ys : List Label)
    → received_in ys + held fs + length full + b.dropped ≡ ticks_in xs
    → ((k : ℕ) → count k full ≤ 1)
    → length fs ≡ length b.forwarders
    → starts_in ys ≡ starts_in xs
    → stops_in ys ≡ stops_in xs
    → ticks_in ys ≡ ticks_in xs
    → IsTicking b xs
    → IsTicking (record b { forwarders = fs; full = full }) ys
goroutine-IsTicking b fs full xs ys a one long e f g s = record {
  accounted = a ∙ sym g;
  one_at_most = one;
  last_runs = IsLast-same b.ticker b _ xs ys refl refl e f s.last_runs;
  new_chan = (s.new_chan.0 ∙ sym e, s.new_chan.1 ∙ sym e);
  none_closed = s.none_closed;
  none_ends = long ∙ s.none_ends ∙ sym e;
}

Step-IsTicking :
    (b c : BasicTicker) (x : Label) (xs : List Label)
    → Step b c x
    → IsTicking b xs
    → IsTicking c (x ∷ xs)
unfolding start stop
Step-IsTicking b c _ xs (starts h) s = started b c xs b.ticker h s.last_runs s
Step-IsTicking b c _ xs (stops h) s = stopped b c xs b.ticker h s.last_runs s
Step-IsTicking b _ _ xs (fires k e) s = fire-IsTicking k b xs s
Step-IsTicking b _ _ xs (goes before after f e h) s =
    let r = replaced before after begins f in
    goroutine-IsTicking b (before ++ (f ∷ after)) b.full xs (internal ∷ xs)
      (omega (arith, s.accounted, r, begin_waits b f h, ap held e)) s.one_at_most
      (omega (arith, r, ap length e)) refl refl refl s
Step-IsTicking b _ _ xs (takes before after k others more e m) s =
    let r = replaced before after (waits k) (sends k b.chan) in
    goroutine-IsTicking b (before ++ (sends k b.chan ∷ after)) (others ++ more) xs (internal ∷ xs)
      (omega (
        arith,
        s.accounted,
        r,
        ap held e,
        ap length m,
        length-append others (k ∷ more),
        length-append others more,
      ))
      (λ j. omega (
        arith,
        s.one_at_most j,
        ap (count j) m,
        count-append j others (k ∷ more),
        count-append j others more,
      ))
      (omega (arith, r, ap length e)) refl refl refl s
Step-IsTicking b _ _ xs (delivers before after k e) s =
    let r = replaced before after (sends k b.chan) (waits k) in
    goroutine-IsTicking b (before ++ (waits k ∷ after)) b.full xs (tick_received ∷ xs)
      (omega (arith, s.accounted, r, ap held e)) s.one_at_most (omega (arith, r, ap length e)) refl
      refl refl s
Step-IsTicking b _ _ xs (ends before after k e h) s =
    absurd (let open' : holds_tick k b.closed ≡ false = ap (holds_tick k) s.none_closed in cc)

-- In every run of a new `BasicTicker`, with its goroutines in any order and any calls, each tick of a
-- ticker that runs was received, or a goroutine or its channel holds it, or it was dropped; a channel
-- holds one at most. The calls of `Start` and `Stop` alternate, the ticker that was made last runs until
-- it is stopped and no other does, and no goroutine that a start has made has ended.
pub Run-IsTicking : (b : BasicTicker) (xs : List Label) → Run b xs → IsTicking b xs
unfolding new_basic_ticker
Run-IsTicking _ _ made = record {
  accounted = refl;
  one_at_most = λ k. omega arith;
  last_runs = (refl, refl);
  new_chan = (refl, refl);
  none_closed = refl;
  none_ends = refl;
}
Run-IsTicking c _ (then_step {b = b} {xs = xs} {x = x} r t) =
    Step-IsTicking b c x xs t (Run-IsTicking b xs r)
