-- ===== src/Communicator/Loops.antt =====
-- The loops of `Communicator.routine`: who is sent a bundle, and that they end.
use mathlib.Core.List.{Memᴰ}
use pnf.Base.{
  ◌⊎◌, inl, inr, ◌≡◌, ◌≢◌, refl, sym, ◌∙◌, ap, ℕ, zero, suc, ◌+◌, ◌-◌, ◌^◌, ◌≤◌, ◌<◌, some, List,
  [], ◌∷◌, length, map, get_elem?, arith, ◌==◌, ne→==, if◌then◌else◌, Bool-cases, Option-cases,
  get_elem?-of_ge, lt→ltb, le→ltb,
}
use native.Mathlib.Decide.{dec_lt}
use pnf.Base.Words.{lt32_lem}
use pnf.Base.Slices.{swap_remove, length-swap_remove}
use pnf.Base.Outcome.{ok}
use pnf.Event.{FrameBundle}
use pnf.Updater.{BootstrapFrame}
use pnf.Communicator.{
  Codec, InitialData, Bootstrap, CommunicatorInput, new_conn, broadcast_bundle, remote_bundle,
  bootstrap_frame, Effect, send_data, send_frame_bundle, raise_horizon, forward_to, send_boot,
  remove_from,
}

-- Every value can be encoded.
pub record Encodes {G D : Type 0} (codec : Codec G D) : Type 0 where
  pub initial : (x : InitialData) → (d : D) × (codec.encode_initial x ≡ some d)
  pub boot : (x : BootstrapFrame G) → (d : D) × (codec.encode_boot x ≡ some d)

abbrev pub max_frame : ℕ
max_frame = 2 ^ 31 - 1

module _ {G E : Type 0} where
  -- The input has a bundle that `conn` is to be sent: any but the connection's own.
  abbrev pub Offers : ℕ → FrameBundle E → CommunicatorInput G E → Type 0
  Offers conn b (new_conn other id) = ⊥
  Offers conn b (broadcast_bundle x) = x ≡ b
  Offers conn b (remote_bundle x from) = (x ≡ b) × (from ≢ conn)
  Offers conn b (bootstrap_frame boot) = ⊥

  abbrev pub OffersIn : ℕ → FrameBundle E → List (CommunicatorInput G E) → Type 0
  OffersIn conn b [] = ⊥
  OffersIn conn b (i ∷ is) = Offers conn b i ⊎ OffersIn conn b is

  abbrev pub InBounds : CommunicatorInput G E → Type 0
  InBounds (new_conn other id) = Unit
  InBounds (broadcast_bundle x) = x.frame < max_frame
  InBounds (remote_bundle x from) = x.frame < max_frame
  InBounds (bootstrap_frame boot) = Unit

  abbrev pub AllInBounds : List (CommunicatorInput G E) → Type 0
  AllInBounds [] = Unit
  AllInBounds (i ∷ is) = InBounds i × AllInBounds is

pub raise_horizon_lem :
    (frame horizon : ℕ)
    → frame < max_frame
    → horizon < max_frame
    → (frame ≤ raise_horizon frame horizon)
      × (horizon ≤ raise_horizon frame horizon)
      × (raise_horizon frame horizon < max_frame)
raise_horizon_lem frame horizon a b = elim (dec_lt horizon frame) [
  | yes p ↦
      rw (lt32_lem horizon frame (omega arith) (omega arith), lt→ltb horizon frame p) (omega arith)
  | no p ↦
      rw (lt32_lem horizon frame (omega arith) (omega arith), le→ltb horizon frame (omega arith))
        (omega arith)
]

no_longer :
    (frame i : ℕ) (b : Bootstrap) (bs : List Bootstrap)
    → get_elem? bs i ≡ some b
    → length (if frame == b.start then swap_remove bs i else bs) ≤ length bs
no_longer frame i b bs here = elim (Bool-cases (frame == b.start)) [
  | inl hit ↦ rw hit (omega (arith, length-swap_remove bs i b here))
  | inr miss ↦ rw miss (omega arith)
]

pub remove_from_returns :
    (frame rounds i : ℕ) (bs : List Bootstrap)
    → length bs ≤ i + rounds
    → (left : List Bootstrap) × (remove_from frame (suc rounds) i bs ≡ ok left)
unfolding remove_from
remove_from_returns frame zero i bs h = (bs, rw (get_elem?-of_ge bs i (omega arith), remove_from))
remove_from_returns frame (suc rounds) i bs h = elim (Option-cases (get_elem? bs i)) [
  | inl stop ↦ (bs, rw (stop, remove_from))
  | inr (b, here) ↦
      let (left, e) =
        remove_from_returns frame rounds (i + 1) (if frame == b.start then swap_remove bs i else bs)
          (omega (arith, no_longer frame i b bs here)) in
      (left, rw (here, remove_from) e)
]

module _ {G E D : Type 0} (codec : Codec G D) (enc : Encodes codec) (boot : BootstrapFrame G) where
  pub send_boot_returns :
      (bs : List Bootstrap) → (sent : List (Effect E D)) × (send_boot codec boot bs ≡ ok sent)
  unfolding send_boot
  send_boot_returns [] = ([], refl)
  send_boot_returns (b ∷ bs) =
      let (sent, e) = send_boot_returns bs in
      let (d, g) = enc.boot boot in
      elim (Bool-cases (boot.frame == b.start)) [
        | inl hit ↦ (send_data b.conn d ∷ sent, rw (hit, g, e))
        | inr miss ↦ (sent, rw (miss, e))
      ]

module _ {E D : Type 0} where
  pub sends_to_all :
      (b : FrameBundle E) (conn : ℕ) (conns : List ℕ)
      → Memᴰ conn conns
      → Memᴰ {A = Effect E D} (send_frame_bundle conn b) (map (λ c. send_frame_bundle c b) conns)
  sends_to_all b conn [] m = elim m [ ]
  sends_to_all b conn (c ∷ cs) (Memᴰ.head e) = Memᴰ.head (ap (λ k. send_frame_bundle k b) e)
  sends_to_all b conn (c ∷ cs) (Memᴰ.tail m) = Memᴰ.tail (sends_to_all b conn cs m)

  pub sends_to_others :
      (b : FrameBundle E) (from conn : ℕ) (conns : List ℕ)
      → from ≢ conn
      → Memᴰ conn conns
      → Memᴰ {A = Effect E D} (send_frame_bundle conn b) (forward_to b from conns)
  unfolding forward_to
  sends_to_others b from conn [] ne m = elim m [ ]
  sends_to_others b from conn (c ∷ cs) ne (Memᴰ.head e) =
      rw (ne→== c from (λ x. ne (sym (e ∙ x)))) (Memᴰ.head (ap (λ k. send_frame_bundle k b) e))
  sends_to_others b from conn (c ∷ cs) ne (Memᴰ.tail m) = elim (Bool-cases (c == from)) [
    | inl same ↦ rw same (sends_to_others b from conn cs ne m)
    | inr other ↦ rw other (Memᴰ.tail (sends_to_others b from conn cs ne m))
  ]
