-- ===== src/Tests/Codecs/Tcp.antt =====
-- A connection that carries a bundle and a datum, whose bytes come in two reads.
use pnf.Base.{◌≡◌, refl, ℕ, zero, suc, Option, none, some, List, [], ◌∷◌, ◌++◌}
use pnf.Event.{FrameBundle, EventBundle}
use pnf.TcpConn.{
  Bytes, Payload, StreamCodec, put_in, take_in, pass_on, give, enqueue, dequeue, data_payload,
  bundle_payload, write_routine, decode_once,
}
use pnf.TcpConn.Stream.{
  Link, Label, sends, internal, gives_data, gives_bundle, new_link, send_data, send_frame_bundle,
  write, read_data, read_bundle, take_data, pass_data, recv_data, take_bundle, pass_bundle,
  recv_frame_bundle, Run, done, then_step,
}
use pnf.TcpConn.Traffic.{data_of, bundles_of, sent, received_data, received_bundles}
use pnf.TcpConn.Deliver.{received_in_order}
use pnf.Tests.Codecs.{pairs, pairs-IsStream, moved}

-- a bundle without events, of this frame
abbrev pub bundle_of : ℕ → FrameBundle ℕ
bundle_of frame = record { frame = frame; bundle = some [] }

abbrev empty_bundle_pair : ℕ → Option (List ℕ) → Option (ℕ × ℕ)
empty_bundle_pair frame x = none

abbrev pub payload_pair : Payload ℕ → Option (ℕ × ℕ)
payload_pair p = elim p.content [
  | [] ↦ elim p.bundle [
    | none ↦ none
    | some b ↦ elim b.bundle [
      | none ↦ none
      | some es ↦ elim es [ [] ↦ some (1, b.frame) | _ ∷ _ ↦ none ]
    ]
  ]
  | x ∷ xs ↦ elim xs [ [] ↦ elim p.bundle [ none ↦ some (0, x) | some _ ↦ none ] | _ ∷ _ ↦ none ]
]

abbrev pub of_payload_pair : ℕ → ℕ → Option (Payload ℕ)
of_payload_pair zero x = some (record { content = x ∷ []; bundle = none })
of_payload_pair (suc zero) x = some (record { content = []; bundle = some (bundle_of x) })
of_payload_pair (suc (suc k)) x = none

payload_back :
    (content : Bytes) (bundle : Option (FrameBundle ℕ)) (a b : ℕ)
    → payload_pair (record { content = content; bundle = bundle }) ≡ some (a, b)
    → of_payload_pair a b ≡ some (record { content = content; bundle = bundle })
payload_back [] none a b h = cc
payload_back [] (some f) a b h = with_bundle f.frame f.bundle h
  where
    with_bundle :
        (frame : ℕ) (events : EventBundle ℕ)
        → payload_pair
            (record { content = []; bundle = some (record { frame = frame; bundle = events }) })
          ≡ some (a, b)
        → of_payload_pair a b
          ≡ some
              (record { content = []; bundle = some (record { frame = frame; bundle = events }) })
    with_bundle frame none h = cc
    with_bundle frame (some []) h =
        moved of_payload_pair (record { content = []; bundle = some (bundle_of frame) }) 1 frame a b
          h refl
    with_bundle frame (some (_ ∷ _)) h = cc
payload_back (x ∷ []) none a b h =
    moved of_payload_pair (record { content = x ∷ []; bundle = none }) 0 x a b h refl
payload_back (x ∷ []) (some f) a b h = cc
payload_back (x ∷ y ∷ xs) bundle a b h = cc

pub payload_pair-back :
    (p : Payload ℕ) (a b : ℕ) → payload_pair p ≡ some (a, b) → of_payload_pair a b ≡ some p
payload_pair-back p a b h = payload_back p.content p.bundle a b h

-- the events of a run in which both are given to the receiver
abbrev two_payloads : List (Label ℕ)
two_payloads =
    sends (bundle_payload (bundle_of 6))
    ∷ sends (data_payload (5 ∷ []))
    ∷ internal
    ∷ internal
    ∷ internal
    ∷ internal
    ∷ internal
    ∷ gives_bundle (bundle_of 6)
    ∷ internal
    ∷ internal
    ∷ internal
    ∷ gives_data (5 ∷ [])
    ∷ []

abbrev codec : StreamCodec (Payload ℕ) (Unit {0}) (Unit {0})
codec = pairs payload_pair of_payload_pair

abbrev after_reads : Link ℕ (Unit {0}) (Unit {0})
after_reads = new_link codec

a_run : Run codec (new_link codec) two_payloads after_reads
unfolding put_in take_in pass_on give enqueue dequeue data_payload bundle_payload write_routine
    decode_once
a_run = then_step (send_frame_bundle (bundle_of 6) refl) (
    then_step (send_data (5 ∷ []) refl) (
      then_step
        (write (bundle_payload (bundle_of 6)) (data_payload (5 ∷ []) ∷ []) tt none refl refl refl)
        (then_step (write (data_payload (5 ∷ [])) [] tt none refl refl refl) (
          then_step
            (read_bundle (1 ∷ 6 ∷ []) (0 ∷ 5 ∷ []) (record { unread = []; decoder = tt })
              (record { unread = []; decoder = tt }) (bundle_payload (bundle_of 6)) (bundle_of 6)
              (record { from_net = bundle_of 6 ∷ []; queue = []; to_pnf = [] }) refl (λ e. cc) refl
              refl refl refl refl)
            (then_step
              (take_bundle (record { from_net = []; queue = bundle_of 6 ∷ []; to_pnf = [] }) refl
                refl)
              (then_step
                (pass_bundle (record { from_net = []; queue = []; to_pnf = bundle_of 6 ∷ [] }) refl
                  refl)
                (then_step
                  (recv_frame_bundle (bundle_of 6)
                    (record { from_net = []; queue = []; to_pnf = [] }) refl refl)
                  (then_step
                    (read_data (0 ∷ 5 ∷ []) [] (record { unread = []; decoder = tt })
                      (record { unread = []; decoder = tt }) (data_payload (5 ∷ []))
                      (record { from_net = (5 ∷ []) ∷ []; queue = []; to_pnf = [] }) refl (λ e. cc)
                      refl refl refl refl refl)
                    (then_step
                      (take_data (record { from_net = []; queue = (5 ∷ []) ∷ []; to_pnf = [] }) refl
                        refl)
                      (then_step
                        (pass_data (record { from_net = []; queue = []; to_pnf = (5 ∷ []) ∷ [] })
                          refl refl)
                        (then_step
                          (recv_data (5 ∷ []) (record { from_net = []; queue = []; to_pnf = [] })
                            refl refl)
                          done)))))))))))

received_in_order_example :
    ((later : List Bytes) × (data_of (sent two_payloads) ≡ received_data two_payloads ++ later))
    × ((later : List (FrameBundle ℕ)) × (bundles_of (sent two_payloads)
          ≡ received_bundles two_payloads ++ later))
received_in_order_example =
    received_in_order codec (pairs-IsStream payload_pair of_payload_pair payload_pair-back)
      two_payloads after_reads a_run
