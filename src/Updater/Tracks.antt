-- ===== src/Updater/Tracks.antt =====
-- The invariant of the updater: a slot of the window holds, for each frame that is not dirty, the
-- world that the events call for.
pub mod Rethink
pub mod Complete
pub mod Store
pub mod Rewrite
pub mod Remote
pub mod Receive
pub mod Local
pub mod Agree
pub mod Fill
pub mod Start
pub mod Boot
pub mod Group
pub mod Kept
pub mod Past
pub mod Member
pub mod Closed
pub mod Progress
pub mod Engines
pub mod Lockstep
pub mod Reply
pub mod Cases
pub mod Plays
pub mod Ledger
pub mod Watch
pub mod Client
use pnf.Base.{ℕ, suc, ◌+◌, ◌≤◌, ◌<◌, ◌≡◌, some, length, List, []}
use pnf.Base.GoMap.{entries}
use pnf.DataWindow.{DataWindow}
use pnf.DataWindow.Bounds.{IsValid}
use pnf.DataWindow.Slots.{peek, Inside}
use pnf.Event.{EventBundle, AllEvents}
use pnf.Event.Keys.{IsKeyed}
use pnf.Game.{GameOps, FrameData}
use pnf.Updater.{Updater}
use pnf.Updater.Handle.{Window}
use pnf.Updater.Replay.{World, Shows, next_world}
use pnf.Updater.Replay.Frame.{IsUnique}

module _ {G E : Type 0} where
  -- the slot of a frame has a game
  abbrev pub HasGame : Window G E → ℕ → Type 0
  HasGame w f = (d : FrameData G E) × (peek w f ≡ some d) × ((g : G) × (d.game ≡ some g))

  -- the slot of a frame has these events
  abbrev pub HasBundle : Window G E → ℕ → EventBundle E → Type 0
  HasBundle w f bundle = (d : FrameData G E) × (peek w f ≡ some d) × (d.bundle ≡ bundle)

  -- the slot of a frame shows this world
  abbrev pub HasWorld : Window G E → ℕ → World G → Type 0
  HasWorld w f world = (d : FrameData G E) × (peek w f ≡ some d) × Shows d world

  -- The worlds of the frames after `first` follow from one another by the events of the frames.
  pub record History (ops : GameOps G E) (world : ℕ → World G) (events : ℕ → EventBundle E)
      (first last : ℕ) : Type 0 where
    pub follows :
        (f : ℕ) → first ≤ f → f < last → world (suc f) ≡ next_world ops (events (suc f)) (world f)
    pub keyed : (f : ℕ) → first < f → f ≤ last → IsKeyed (entries (events f))
    pub unique : (f : ℕ) → first ≤ f → f ≤ last → IsUnique (world f).engines

  -- A window that holds the events of a history up to `last`, and its worlds before `dirty`.
  pub record Tracks (world : ℕ → World G) (events : ℕ → EventBundle E) (w : Window G E)
      (last dirty : ℕ) : Type 0 where
    pub valid : IsValid w
    pub last_in : Inside w last
    pub games : (f : ℕ) → Inside w f → HasGame w f
    pub bundles : (f : ℕ) → w.first < f → f ≤ last → HasBundle w f (events f)
    pub worlds : (f : ℕ) → w.first ≤ f → f < dirty → HasWorld w f (world f)

  -- The updater between two receptions: its window tracks a history, and nothing has happened yet
  -- after the newest frame.
  pub record IsConsistent (ops : GameOps G E) (world : ℕ → World G) (events : ℕ → EventBundle E)
      (u : Updater G E) : Type 0 where
    pub tracks : Tracks world events u.data_window u.global_frame u.oldest_dirty_frame
    pub history : History ops world events u.data_window.first u.global_frame
    pub dirty_after : u.data_window.first < u.oldest_dirty_frame
    pub dirty_before : u.oldest_dirty_frame ≤ u.global_frame + 1
    pub made :
        (f : ℕ)
        → u.data_window.first < f
        → (es : List (ℕ × AllEvents E)) × (events f ≡ some es) × IsKeyed es
    pub future : (f : ℕ) → u.global_frame < f → events f ≡ some []
