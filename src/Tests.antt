-- ===== src/Tests.antt =====
-- Concrete data: the properties applied to it, and runs of the definitions on it. The game counts:
-- an event adds to it, and each frame adds one.
pub mod Rings
pub mod Events
pub mod Streams
pub mod Updates
pub mod Lockstep
pub mod Agreement
pub mod Clients
pub mod Codecs
pub mod Hosts
pub mod Wiring
pub mod Feeds
use pnf.Base.{ℕ, ◌+◌, refl}
use pnf.Game.{GameOps, IsLawful}

abbrev pub counting : GameOps ℕ ℕ
counting = record { copy = λ g. g; overwrite = λ g h. h; think = λ g. g + 1; apply = λ e g. g + e }

pub counting-IsLawful : IsLawful counting
counting-IsLawful = record { copy_lem = λ g. refl; overwrite_lem = λ g h. refl }
