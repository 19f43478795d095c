-- ===== src/Ticker.antt =====
-- core/ticker.go: the clock of the bundler, and the one that tests turn by hand.
pub mod Sound
use pnf.Base.{
  ℕ, zero, suc, ◌+◌, ◌≡◌, Bool, true, false, Option, none, some, List, [], ◌∷◌, ◌++◌, ◌==◌, ◌||◌,
  if◌then◌else◌,
}
use pnf.Base.Outcome.{
  Outcome, ok, panic, nil_pointer, ticker_started, ticker_stopped, or_panic, diverges, ◌>>=◌,
}

-- The goroutine that `Start` begins: it has not looked at `bt.ticker` yet, or it waits for the ticks
-- of a `time.Ticker`, or it sends a tick on the channel that it found in `bt.c`.
pub data Forwarder : Type 0 where
  begins : Forwarder
  waits : ℕ → Forwarder
  sends : ℕ → ℕ → Forwarder

-- `BasicTicker`, with the tickers of the package time and the goroutines that it has made. These are
-- numbered as they are made, and so are the channels; channel 0 is nil. `running` has the tickers that
-- have not been stopped, `full` those whose channel, which has room for one, holds a tick, and
-- `closed` those whose channel is closed; `dropped` counts the ticks that found their channel full.
pub record BasicTicker : Type 0 where
  pub ticker : Option ℕ
  pub chan : ℕ
  pub made : ℕ
  pub running : List ℕ
  pub full : List ℕ
  pub closed : List ℕ
  pub forwarders : List Forwarder
  pub dropped : ℕ

unfoldable pub new_basic_ticker : BasicTicker
new_basic_ticker = record {
  ticker = none;
  chan = 0;
  made = 0;
  running = [];
  full = [];
  closed = [];
  forwarders = [];
  dropped = 0;
}

-- `BasicTicker.Start`
unfoldable pub start : BasicTicker → Outcome BasicTicker
start bt = elim bt.ticker [
  | some k ↦ panic ticker_started
  | none ↦ ok (record bt {
    ticker = some (bt.made + 1);
    chan = bt.made + 1;
    made = bt.made + 1;
    running = (bt.made + 1) ∷ bt.running;
    forwarders = begins ∷ bt.forwarders;
  })
]

abbrev pub without : ℕ → List ℕ → List ℕ
without k [] = []
without k (j ∷ js) = if j == k then without k js else j ∷ without k js

-- `BasicTicker.Stop`: a `time.Ticker` that is stopped does not close its channel, and keeps the tick
-- that it holds.
unfoldable pub stop : BasicTicker → Outcome BasicTicker
stop bt = elim bt.ticker [
  | none ↦ panic ticker_stopped
  | some k ↦ ok (record bt { ticker = none; running = without k bt.running })
]

-- the beginning of the goroutine, `range bt.ticker.C`
unfoldable pub begin : BasicTicker → Outcome Forwarder
begin bt = or_panic nil_pointer bt.ticker >>= λ k. ok (waits k)

abbrev pub holds_tick : ℕ → List ℕ → Bool
holds_tick k [] = false
holds_tick k (j ∷ js) = j == k || holds_tick k js

-- A tick of the time: it is dropped if the last one has not been taken.
unfoldable pub fire : ℕ → BasicTicker → BasicTicker
fire k bt =
    if holds_tick k bt.full
    then record bt { dropped = bt.dropped + 1 }
    else record bt { full = k ∷ bt.full }

-- what the bundler and the package time see of a step
pub data Label : Type 0 where
  start_called stop_called ticked internal tick_received : Label

-- One step: a call, a tick of the time, or of one of the goroutines, which ends when the channel that
-- it ranges over is closed. A program that panics takes no further step.
pub data Step (b : BasicTicker) : BasicTicker → Label → Type 0 where
  starts : {c : BasicTicker} → start b ≡ ok c → Step b c start_called
  stops : {c : BasicTicker} → stop b ≡ ok c → Step b c stop_called
  fires : (k : ℕ) → holds_tick k b.running ≡ true → Step b (fire k b) ticked
  goes :
      (before after : List Forwarder) (f : Forwarder)
      → b.forwarders ≡ before ++ (begins ∷ after)
      → begin b ≡ ok f
      → Step b (record b { forwarders = before ++ (f ∷ after) }) internal
  takes :
      (before after : List Forwarder) (k : ℕ) (others more : List ℕ)
      → b.forwarders ≡ before ++ (waits k ∷ after)
      → b.full ≡ others ++ (k ∷ more)
      → Step b
          (record b { full = others ++ more; forwarders = before ++ (sends k b.chan ∷ after) })
          internal
  delivers :
      (before after : List Forwarder) (k : ℕ)
      → b.forwarders ≡ before ++ (sends k b.chan ∷ after)
      → Step b (record b { forwarders = before ++ (waits k ∷ after) }) tick_received
  ends :
      (before after : List Forwarder) (k : ℕ)
      → b.forwarders ≡ before ++ (waits k ∷ after)
      → holds_tick k b.closed ≡ true
      → Step b (record b { forwarders = before ++ after }) internal

-- `FakeTicker`: its channel, if it has one, and how many it has made
pub record FakeTicker : Type 0 where
  pub chan : Option ℕ
  pub made : ℕ

unfoldable pub fake_start : FakeTicker → FakeTicker
fake_start f = elim f.chan [
  | some c ↦ f
  | none ↦ record { chan = some (f.made + 1); made = f.made + 1 }
]

-- `FakeTicker.Stop`, with the channel that it closes
unfoldable pub fake_stop : FakeTicker → Outcome (FakeTicker × ℕ)
fake_stop f = or_panic ticker_stopped f.chan >>= λ c. ok (record f { chan = none }, c)

-- `FakeTicker.Inc`: the channels of its sends. Each waits for a receiver, for ever on a nil channel.
unfoldable pub inc : ℕ → FakeTicker → Outcome (List ℕ)
inc zero f = ok []
inc (suc ms) f =
    let rest = inc ms f in elim f.chan [ none ↦ diverges | some c ↦ rest >>= λ cs. ok (c ∷ cs) ]
