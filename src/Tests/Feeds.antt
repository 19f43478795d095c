-- ===== src/Tests/Feeds.antt =====
-- The auditor and the ticker on concrete runs.
use pnf.Base.{List, refl, ℕ, false, none, some, [], ◌∷◌, arith}
use pnf.Auditor.{Audit, new_audit, receive_raw, forward, receives, forwards, arrives, fires}
use pnf.Auditor.Feed.{Run-IsFed, IsFed}
use pnf.Auditor.Feed
use pnf.Ticker.{
  Label, start_called, stop_called, ticked, internal, tick_received, BasicTicker, starts, stops,
  goes, takes, delivers, start, stop, begin, fire, waits, begins,
}
use pnf.Ticker
use pnf.Ticker.Sound.{IsTicking, Run-IsTicking}
use pnf.Ticker.Sound
use pnf.Updater.Routine.{bundle_arrives, timer_fires}
use pnf.Tests.Streams.{bundle_of}

-- Two bundles have come to the auditor, and the first has gone on in a group.
abbrev two_given : Audit ℕ
two_given = record {
  closed = false;
  holding = none;
  buffer = bundle_of 6 ∷ [];
  arrivals = bundle_arrives (bundle_of 5) ∷ timer_fires ∷ [];
  given = bundle_of 5 ∷ bundle_of 6 ∷ [];
}

two_given_run : Feed.Run two_given
unfolding new_audit receive_raw forward
two_given_run =
    Feed.then_step
      (Feed.then_step
        (Feed.then_step
          (Feed.then_step
            (Feed.then_step (Feed.then_step Feed.begins (receives (bundle_of 5) refl refl))
              (forwards (bundle_of 5) refl (omega arith)))
            (arrives (bundle_of 5) [] refl))
          fires)
        (receives (bundle_of 6) refl refl))
      (forwards (bundle_of 6) refl (omega arith))

Run-IsFed_example : IsFed two_given
Run-IsFed_example = Run-IsFed two_given two_given_run

-- The ticker was started and has given one tick, and dropped one; then it was stopped and started
-- again, and the new goroutine has not begun yet.
abbrev started_twice : BasicTicker
started_twice = record {
  ticker = some 2;
  chan = 2;
  made = 2;
  running = 2 ∷ [];
  full = 2 ∷ [];
  closed = [];
  forwarders = begins ∷ waits 1 ∷ [];
  dropped = 1;
}

abbrev calls : List Label
calls =
    ticked ∷ start_called ∷ stop_called ∷ tick_received ∷ internal ∷ ticked ∷ ticked ∷ internal
    ∷ start_called ∷ []

started_twice_run : Sound.Run started_twice calls
unfolding Ticker.new_basic_ticker Ticker.start Ticker.stop Ticker.begin Ticker.fire
started_twice_run =
    Sound.then_step
      (Sound.then_step
        (Sound.then_step
          (Sound.then_step
            (Sound.then_step
              (Sound.then_step
                (Sound.then_step
                  (Sound.then_step (Sound.then_step Sound.made (starts refl))
                    (goes [] [] (waits 1) refl refl))
                  (Ticker.fires 1 refl))
                (Ticker.fires 1 refl))
              (takes [] [] 1 [] [] refl refl))
            (delivers [] [] 1 refl))
          (stops refl))
        (starts refl))
      (Ticker.fires 2 refl)

Run-IsTicking_example : IsTicking started_twice calls
Run-IsTicking_example = Run-IsTicking started_twice calls started_twice_run
