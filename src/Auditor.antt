-- ===== src/Auditor.antt =====
-- core/auditor.go, between the communicator and the updater: `Raw_remote_bundles`, the auditor, the
-- buffered channel `Remote_bundles` that `makeUnstarted` of pnf.go makes, and `nagle`.
pub mod Feed
use pnf.Base.{
  ℕ, zero, suc, ◌+◌, ◌<◌, ◌≡◌, Bool, true, false, Option, none, some, List, [], ◌∷◌, ◌++◌, length,
}
use pnf.Event.{FrameBundle}
use pnf.Bundler.{zero_bundle}
use pnf.Updater.Routine.{Arrival, bundle_arrives, timer_fires, nagle}

-- how many bundles `Remote_bundles` has room for
abbrev pub room : ℕ
room = 50

-- `closed` says whether the communicator has closed `Raw_remote_bundles`; `holding` is the bundle
-- that the auditor has received and not sent yet, `buffer` what waits in `Remote_bundles`, and
-- `arrivals` what `nagle` has received, and when its timer fired. `given` has what the raw channel
-- gave.
pub record Audit (E : Type 0) : Type 0 where
  pub closed : Bool
  pub holding : Option (FrameBundle E)
  pub buffer : List (FrameBundle E)
  pub arrivals : List (Arrival E)
  pub given : List (FrameBundle E)

module _ {E : Type 0} where
  unfoldable pub new_audit : Audit E
  new_audit = record { closed = false; holding = none; buffer = []; arrivals = []; given = [] }

  -- `raw_remote := <-a.Raw_remote_bundles`: a channel that is closed gives the zero bundle, at once
  -- and every time.
  unfoldable pub receive_raw : FrameBundle E → Audit E → Audit E
  receive_raw b a = record a { holding = some b; given = a.given ++ (b ∷ []) }

  -- `a.Remote_bundles <- raw_remote`
  unfoldable pub forward : FrameBundle E → Audit E → Audit E
  forward b a = record a { holding = none; buffer = a.buffer ++ (b ∷ []) }

  -- One step of a goroutine. The auditor receives only when it holds nothing.
  pub data Step (a : Audit E) : Audit E → Type 0 where
    receives : (b : FrameBundle E) → a.closed ≡ false → a.holding ≡ none → Step a (receive_raw b a)
    receives_zero : a.closed ≡ true → a.holding ≡ none → Step a (receive_raw zero_bundle a)
    closes : a.closed ≡ false → Step a (record a { closed = true })
    forwards :
        (b : FrameBundle E) → a.holding ≡ some b → length a.buffer < room → Step a (forward b a)
    arrives :
        (b : FrameBundle E) (rest : List (FrameBundle E))
        → a.buffer ≡ b ∷ rest
        → Step a (record a { buffer = rest; arrivals = a.arrivals ++ (bundle_arrives b ∷ []) })
    fires : Step a (record a { arrivals = a.arrivals ++ (timer_fires ∷ []) })
