-- ===== src/Tests/Events.antt =====
-- Bundles of the engines 3, 5 and 8, one frame's game, and pending requests.
use pnf.Base.{inl, inr, ◌≡◌, refl, ℕ, ◌+◌, true, none, some, List, [], ◌∷◌, arith}
use native.Mathlib.Decide.{ℕ_discrete}
use pnf.Base.Words.{lt32, add32, truncate, rem64, add64, extend, sub32}
use pnf.Base.Outcome.{Outcome, ok}
use pnf.Base.GoMap.{find}
use pnf.DataWindow.{DataWindow, pos_to_index, get}
use pnf.Engine.{engine_joined}
use pnf.Event.{AllEvents, absorb_event_bundle, each}
use pnf.Event.Keys.{IsKeyed, SameEntries}
use pnf.Event.Visits.{in_order, run, each-in_order, each-cong}
use pnf.Event.Absorb.{AreDisjoint, Merged, absorb-Merged}
use pnf.Game.{FrameData}
use pnf.Updater.{StateRequest, respond}
use pnf.Updater.Replay.{World, Shows, next_world}
use pnf.Updater.Replay.Frame.{rethink_frame-Shows}
use pnf.Updater.Advance.{rethink_frame}
use pnf.Updater.Requests.{Answers, fulfil}
use pnf.Updater.Requests.Fulfil.{Fulfilled, fulfil-Fulfilled, fulfil_pair}
use pnf.Tests.{counting, counting-IsLawful}

abbrev adds : ℕ → AllEvents ℕ
adds n = record { game = n ∷ []; engine = [] }

abbrev joins : ℕ → AllEvents ℕ
joins id = record { game = []; engine = engine_joined id ∷ [] }

abbrev eight_three : List (ℕ × AllEvents ℕ)
eight_three = (8, adds 7) ∷ (3, joins 8) ∷ []

abbrev three_eight : List (ℕ × AllEvents ℕ)
three_eight = (3, joins 8) ∷ (8, adds 7) ∷ []

abbrev only_five : List (ℕ × AllEvents ℕ)
only_five = (5, adds 1) ∷ []

eight_three-IsKeyed : IsKeyed eight_three
unfolding find
eight_three-IsKeyed = (omega arith, refl, (omega arith, refl, tt))

three_eight-IsKeyed : IsKeyed three_eight
unfolding find
three_eight-IsKeyed = (omega arith, refl, (omega arith, refl, tt))

only_five-IsKeyed : IsKeyed only_five
unfolding find
only_five-IsKeyed = (omega arith, refl, tt)

same_two : SameEntries eight_three three_eight
unfolding find
same_two k = ground arith

-- a callback that fails unless the ids ascend
abbrev after : ℕ → AllEvents ℕ → ℕ → Outcome ℕ
after id all last = ok (last + id)

each-in_order_example :
    each (some eight_three) 4 after 0 ≡ run after (in_order (some eight_three)) 0
each-in_order_example = each-in_order (some eight_three) 4 after 0 eight_three-IsKeyed

each-cong_example : each (some eight_three) 4 after 0 ≡ each (some three_eight) 4 after 0
each-cong_example =
    each-cong (some eight_three) (some three_eight) 4 after 0 eight_three-IsKeyed
      three_eight-IsKeyed same_two

apart : AreDisjoint eight_three only_five
unfolding find
apart k = elim (ℕ_discrete 5 k) [ yes e ↦ inl (ground arith) | no ne ↦ inr (ground arith) ]

absorb-Merged_example :
    (gs : List (ℕ × AllEvents ℕ)) × (absorb_event_bundle (some eight_three) (some only_five)
      ≡ ok (some gs))
    × Merged eight_three only_five gs
absorb-Merged_example =
    absorb-Merged eight_three (some only_five) eight_three-IsKeyed only_five-IsKeyed apart

-- engine 3 plays at 100, and lets engine 8 join
abbrev before : World ℕ
before = record { engines = (3, true) ∷ []; game = 100 }

abbrev previous : FrameData ℕ ℕ
previous = record {
  info = record { engines = some ((3, true) ∷ []) };
  game = some 100;
  bundle = some [];
}

abbrev stale : FrameData ℕ ℕ
stale = record { info = record { engines = none }; game = some 0; bundle = some eight_three }

rethink_frame-Shows_example :
    (new : FrameData ℕ ℕ) × (rethink_frame counting 4 previous stale ≡ ok new)
    × Shows new (next_world counting (some eight_three) before)
    × (new.bundle ≡ some eight_three)
rethink_frame-Shows_example =
    rethink_frame-Shows counting counting-IsLawful 4 previous stale before 0
      (record { info_is = refl; game_is = refl }) (unfold find in (refl, tt)) refl
      eight_three-IsKeyed

abbrev one_frame : DataWindow (FrameData ℕ ℕ)
one_frame = record { first = 4; start = 0; slots = previous ∷ [] }

abbrev pending : List StateRequest
pending =
    record { frame = 4; response = 0; final = true }
    ∷ record { frame = 6; response = 1; final = true }
    ∷ []

frame_4 : get one_frame 4 ≡ ok previous
unfolding get pos_to_index lt32 add32 truncate rem64 add64 extend sub32
frame_4 = refl

fulfil-Fulfilled_example :
    (a : Answers ℕ ℕ) × (fulfil one_frame 4 pending ≡ ok a) × Fulfilled (some 100) 4 pending a
fulfil-Fulfilled_example = fulfil-Fulfilled one_frame 4 previous pending frame_4

abbrev first_request : StateRequest
first_request = record { frame = 4; response = 0; final = true }

abbrev second_request : StateRequest
second_request = record { frame = 4; response = 1; final = true }

fulfil_pair_example :
    fulfil one_frame 4 (first_request ∷ second_request ∷ [])
    ≡ ok (second_request ∷ [], respond 0 (some 100) 4 ∷ [])
fulfil_pair_example = fulfil_pair one_frame 4 previous first_request second_request frame_4 refl
