-- ===== src/Tests/Codecs/Mock.antt =====
-- A mock connection on which the second of two values arrives first.
use pnf.Base.{◌≡◌, refl, subst, ℕ, ◌+◌, Bool, true, Option, none, some, List, [], ◌∷◌}
use mathlib.Core.Option.{some-injective}
use pnf.TcpConn.{Bytes, Payload}
use pnf.MockNetwork.Conn.{
  ContainerCodec, Arrival, data_in, running, send_container, routine, arrival,
}
use pnf.MockNetwork.Conn.Passage.{
  Passage, Label, sends, internal, receives, new_passage, send_data, carry_near, arrive_near,
  receive, Run, done, then_step,
}
use pnf.MockNetwork.Conn.Deliver.{IsContainer, sent, received, on_the_way, nothing_lost}
use pnf.MockNetwork.Conn.Drain.{all_can_arrive}
use pnf.Tests.Codecs.Tcp.{payload_pair, of_payload_pair, payload_pair-back}

abbrev write_both : Option (ℕ × ℕ) → Option Bytes
write_both none = none
write_both (some p) = some (p.0 ∷ p.1 ∷ [])

abbrev read_both : Bytes → Option (Payload ℕ)
read_both [] = none
read_both (a ∷ []) = none
read_both (a ∷ b ∷ []) = of_payload_pair a b
read_both (a ∷ b ∷ c ∷ rest) = none

abbrev containers : ContainerCodec (Payload ℕ)
containers = record { encode = λ p. write_both (payload_pair p); decode = read_both }

both_back :
    (p : Payload ℕ) (o : Option (ℕ × ℕ)) (b : Bytes)
    → payload_pair p ≡ o
    → write_both o ≡ some b
    → read_both b ≡ some p
both_back p none b e h = cc
both_back p (some (x, y)) b e h =
    subst (λ k. read_both k ≡ some p) (some-injective (x ∷ y ∷ []) b h) (payload_pair-back p x y e)

containers-IsContainer : IsContainer containers
containers-IsContainer = record { reads_back = λ p b h. both_back p (payload_pair p) b refl h }

abbrev overtaken : List (Label ℕ)
overtaken =
    sends (data_in (5 ∷ []))
    ∷ sends (data_in (7 ∷ []))
    ∷ internal
    ∷ internal
    ∷ receives (data_in (7 ∷ []))
    ∷ []

-- the first value has not been taken from the sender yet
abbrev left_over : Passage ℕ
left_over = record (new_passage) {
  sender = record { mode = running; sending = (0 ∷ 5 ∷ []) ∷ []; arrivals = [] };
}

a_run : Run containers new_passage overtaken left_over
unfolding routine send_container arrival
a_run =
    then_step
      (send_data (5 ∷ []) (record { mode = running; sending = (0 ∷ 5 ∷ []) ∷ []; arrivals = [] })
        (λ e. cc) refl refl)
      (then_step
        (send_data (7 ∷ [])
          (record { mode = running; sending = (0 ∷ 7 ∷ []) ∷ (0 ∷ 5 ∷ []) ∷ []; arrivals = [] })
          (λ e. cc) refl refl)
        (then_step (carry_near [] (0 ∷ 7 ∷ []) ((0 ∷ 5 ∷ []) ∷ []) refl refl refl) (
          then_step
            (arrive_near [] (0 ∷ 7 ∷ []) []
              (record { mode = running; sending = []; arrivals = data_in (7 ∷ []) ∷ [] }) (λ e. cc)
              refl refl refl)
            (then_step (receive [] (data_in (7 ∷ [])) [] (λ e. cc) refl refl) done))))

nothing_lost_example :
    sent (λ a. true) overtaken
    ≡ received (λ a. true) overtaken
      + on_the_way containers containers-IsContainer (λ a. true) left_over
nothing_lost_example =
    nothing_lost containers containers-IsContainer (λ a. true) left_over overtaken a_run

all_can_arrive_example :
    (k : Passage ℕ) × (ys : List (Label ℕ)) × Run containers left_over ys k
    × ((p : Arrival ℕ → Bool) → sent p ys ≡ 0)
    × ((p : Arrival ℕ → Bool) → sent p overtaken ≡ received p overtaken + received p ys)
all_can_arrive_example =
    all_can_arrive containers containers-IsContainer left_over overtaken a_run (λ e. cc) refl
